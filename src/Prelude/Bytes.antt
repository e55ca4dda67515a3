-- ===== src/Prelude/Bytes.antt =====
-- Byte strings: `[u8; n]`, `Vec<u8>` and `&[u8]` are lists of numbers.
use Prim.Native.Nat.{ℕ}
use Prim.Native.Char.{code}
use Prim.Native.String.{String}
use mathlib.Core.Path.{◌≡◌, refl, ap₂}
use mathlib.Core.List.{List, [], ◌∷◌}
use native.Mathlib.Decide.{ℕ_discrete}

abbrev pub Bytes : Type 0
Bytes = List ℕ

head-injective : {x y : ℕ} {xs ys : Bytes} → x ∷ xs ≡ y ∷ ys → x ≡ y
head-injective e = cc

tail-injective : {x y : ℕ} {xs ys : Bytes} → x ∷ xs ≡ y ∷ ys → xs ≡ ys
tail-injective e = cc

nil-ne-cons : {x : ℕ} {xs : Bytes} → ¬ ([] ≡ x ∷ xs)
nil-ne-cons e = cc

cons-ne-nil : {x : ℕ} {xs : Bytes} → ¬ (x ∷ xs ≡ [])
cons-ne-nil e = cc

-- `==` on byte strings, as a decision.
unfoldable pub Bytes_discrete : Discrete Bytes
unfolding ℕ_discrete nil-ne-cons cons-ne-nil tail-injective head-injective
Bytes_discrete [] [] = yes refl
Bytes_discrete [] (y ∷ ys) = no nil-ne-cons
Bytes_discrete (x ∷ xs) [] = no cons-ne-nil
Bytes_discrete (x ∷ xs) (y ∷ ys) =
    let rest = Bytes_discrete xs ys in
    elim (ℕ_discrete x y) [
      | yes p ↦ elim rest [ yes q ↦ yes (ap₂ ◌∷◌ p q) | no q ↦ no (λ e. q (tail-injective e)) ]
      | no p ↦ no (λ e. p (head-injective e))
    ]

-- A byte-string literal `b"…"`.
abbrev pub ascii : String → Bytes
ascii String.[] = []
ascii (String.◌∷◌ ch s) = code ch ∷ ascii s
