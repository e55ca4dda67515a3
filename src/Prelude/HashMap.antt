-- ===== src/Prelude/HashMap.antt =====
-- `std::collections::HashMap` as an association list. The program never relies on the order in
-- which a hash map is iterated.
use Prim.Native.Nat.{◌+◌}
use mathlib.Core.Path.{◌≡◌, refl, sym}
use mathlib.Core.Logic.{ite, if_pos, if_neg}
use mathlib.Core.List.{List, [], ◌∷◌}
use mathlib.Core.Option.{Option, none, some}
use native.Mathlib.Omega.{arith}
use pigeonhole_clarity_messe.Prelude.Lists.{length}

abbrev pub HashMap {ℓ} : Type ℓ → Type ℓ → Type ℓ
HashMap K V = List (K × V)

module _ {ℓ} {K V : Type ℓ} (dec : Discrete K) where
  unfoldable pub get : HashMap K V → K → Option V
  get [] k = none
  get ((j, v) ∷ m) k = ite (dec j k) (some v) (get m k)

  unfoldable pub insert : HashMap K V → K → V → HashMap K V
  insert [] k v = (k, v) ∷ []
  insert ((j, w) ∷ m) k v = let rest = insert m k v in ite (dec j k) ((k, v) ∷ m) ((j, w) ∷ rest)

  unfoldable pub remove : HashMap K V → K → HashMap K V
  remove [] k = []
  remove ((j, w) ∷ m) k = let rest = remove m k in ite (dec j k) rest ((j, w) ∷ rest)

  pub get-insert :
      (m : HashMap K V) (k j : K) (v : V) → get (insert m k v) j ≡ ite (dec k j) (some v) (get m j)
  unfolding get insert
  get-insert [] k j v = refl
  get-insert ((i, w) ∷ m) k j v = ground (arith, get-insert m k j v)

  pub get-remove : (m : HashMap K V) (k j : K) → get (remove m k) j ≡ ite (dec k j) none (get m j)
  unfolding get remove
  get-remove [] k j = ground arith
  get-remove ((i, w) ∷ m) k j = ground (arith, get-remove m k j)

  -- A new key makes the map one entry larger.
  pub length-insert_new :
      (m : HashMap K V) (k : K) (v : V) → get m k ≡ none → length (insert m k v) ≡ length m + 1
  unfolding get insert
  length-insert_new [] k v h = omega arith
  length-insert_new ((i, w) ∷ m) k v h = ground (arith, length-insert_new m k v)

  -- No key stands twice, as in every hash map.
  abbrev pub Distinct : HashMap K V → Type ℓ
  Distinct [] = Unit
  Distinct ((k, v) ∷ m) = (get m k ≡ none) × Distinct m

  pub insert-Distinct : (m : HashMap K V) (k : K) (v : V) → Distinct m → Distinct (insert m k v)
  unfolding insert get
  insert-Distinct [] k v h = (refl, tt)
  insert-Distinct ((i, w) ∷ m) k v h = elim (dec i k) [
    | yes p ↦ rw (if_pos (dec i k) p) (rw (← p) h.0, h.1)
    | no p ↦
        rw (if_neg (dec i k) p)
          (rw get-insert (rw (if_neg (dec k i) (λ e. p (sym e))) h.0), insert-Distinct m k v h.1)
  ]

  pub remove-Distinct : (m : HashMap K V) (k : K) → Distinct m → Distinct (remove m k)
  unfolding remove get
  remove-Distinct [] k h = h
  remove-Distinct ((i, w) ∷ m) k h = elim (dec i k) [
    | yes p ↦ rw (if_pos (dec i k) p) (remove-Distinct m k h.1)
    | no p ↦
        rw (if_neg (dec i k) p)
          (rw get-remove (rw (if_neg (dec k i) (λ e. p (sym e))) h.0), remove-Distinct m k h.1)
  ]

  pub get-insert_self : (m : HashMap K V) (k : K) (v : V) → get (insert m k v) k ≡ some v
  get-insert_self m k v = rw get-insert (if_pos (dec k k) refl _ _)

  -- Writing the value that is there changes nothing.
  pub insert-same : (m : HashMap K V) (k : K) (v : V) → get m k ≡ some v → insert m k v ≡ m
  unfolding get insert
  insert-same [] k v h = cc
  insert-same ((i, w) ∷ m) k v h = ground (arith, insert-same m k v)

  pub length-insert_old :
      (m : HashMap K V) (k : K) (v w : V) → get m k ≡ some w → length (insert m k v) ≡ length m
  unfolding get insert
  length-insert_old [] k v w h = cc
  length-insert_old ((i, u) ∷ m) k v w h = ground (arith, length-insert_old m k v w)

  remove-absent : (m : HashMap K V) (k : K) → get m k ≡ none → remove m k ≡ m
  unfolding get remove
  remove-absent [] k h = refl
  remove-absent ((i, u) ∷ m) k h = ground (arith, remove-absent m k)

  pub length-remove :
      (m : HashMap K V) (k : K) (v : V)
      → Distinct m
      → get m k ≡ some v
      → length (remove m k) + 1 ≡ length m
  unfolding get remove
  length-remove [] k v d h = cc
  length-remove ((i, u) ∷ m) k v d h = ground (arith, length-remove m k v d.1, remove-absent m k)
