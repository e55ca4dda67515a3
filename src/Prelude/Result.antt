-- ===== src/Prelude/Result.antt =====
-- Rust's `Result` type, whose `?` operator is the bind.
use mathlib.Core.Option.{Option, none, some}
use mathlib.Core.Path.{◌≡◌, refl}

pub data Result (E A : Type 0) : Type 0 where
  err : E → Result E A
  ok : A → Result E A

-- `Option::ok_or`.
abbrev pub ok_or : {S E : Type 0} → Option S → E → Result E S
ok_or (some value) why = ok value
ok_or none why = err why

infixl 5 ◌>>=◌ ◌>>◌
abbrev pub ◌>>=◌ : {E S T : Type 0} → Result E S → (S → Result E T) → Result E T
err why >>= next = err why
ok value >>= next = next value

abbrev pub ◌>>◌ : {E S T : Type 0} → Result E S → Result E T → Result E T
first >> second = first >>= λ _. second

-- A chain that succeeds has succeeded at its first step.
pub >>=-eq-ok :
    {E S T : Type 0} (first : Result E S) (next : S → Result E T) {end : T}
    → (first >>= next) ≡ ok end
    → (value : S) × (first ≡ ok value) × (next value ≡ ok end)
>>=-eq-ok (ok value) next h = (value, refl, h)
>>=-eq-ok (err why) next h = cc

-- `Result::map_err`.
abbrev pub map_err : {E F S : Type 0} → (E → F) → Result E S → Result F S
map_err f (err why) = err (f why)
map_err f (ok value) = ok value

pub map_err-eq-ok :
    {E F S : Type 0} (f : E → F) (r : Result E S) {value : S}
    → map_err f r ≡ ok value
    → r ≡ ok value
map_err-eq-ok f (ok value) h = cc
map_err-eq-ok f (err why) h = cc

pub ok-injective : {E S : Type 0} {a b : S} → ◌≡◌ {A = Result E S} (ok a) (ok b) → a ≡ b
ok-injective e = cc
