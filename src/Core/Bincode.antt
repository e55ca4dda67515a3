-- ===== src/Core/Bincode.antt =====
-- What the core calls of bincode, at one type, as a parameter, and what bincode documents of it. An
-- error is its text.
use pigeonhole_clarity_messe.Prelude.{◌≡◌}
use pigeonhole_clarity_messe.Prelude.Bytes.{Bytes}
use pigeonhole_clarity_messe.Prelude.Result.{Result, ok}

pub record Bincode (T : Type 0) : Type 0 where
  pub serialize : T → Bytes
  pub deserialize : Bytes → Result Bytes T

-- What was written is read back.
abbrev pub IsBincode : {T : Type 0} → Bincode T → Type 0
IsBincode {T} b = (value : T) → b.deserialize (b.serialize value) ≡ ok value
