-- ===== src/Core/Pqkem.antt =====
-- core/src/pqkem.rs: ML-KEM-1024 on byte strings. A key pair is its decapsulation key.
use pigeonhole_clarity_messe.Prelude.{ℕ, ◌==◌, length, if◌then◌else◌}
use pigeonhole_clarity_messe.Prelude.Bytes.{Bytes}
use pigeonhole_clarity_messe.Prelude.Result.{Result, err, ok, ok_or}
use pigeonhole_clarity_messe.Core.Error.{Error}
use pigeonhole_clarity_messe.Core.Crypto.{Crypto}

abbrev pub kyber_len : ℕ
kyber_len = 1568

abbrev pub kyber_private_len : ℕ
kyber_private_len = 3168

unfoldable pub from_private_bytes : Bytes → Result Error Bytes
from_private_bytes bytes =
    if length bytes == kyber_private_len then ok bytes else err Error.malformed_key

module _ (c : Crypto) where
  unfoldable pub encapsulate : Bytes → Bytes → Result Error (Bytes × Bytes)
  encapsulate public_key random =
      if length public_key == kyber_len
      then ok_or (c.ml_kem_encapsulate public_key random) Error.decrypt
      else err Error.malformed_key

  unfoldable pub decapsulate : Bytes → Bytes → Result Error Bytes
  decapsulate kyber ciphertext =
      if length ciphertext == kyber_len
      then ok_or (c.ml_kem_decapsulate kyber ciphertext) Error.decrypt
      else err Error.malformed_key
