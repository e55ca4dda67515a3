-- ===== src/Prelude/BTreeMap.antt =====
-- `std::collections::BTreeMap` as an association list in the order of its keys. `before` is the
-- order of the keys, which decides where an entry stands; equality decides what is found.
use Prim.Native.Nat.{◌+◌, ◌≤◌}
use mathlib.Core.Bool.{Bool}
use mathlib.Core.Path.{◌≡◌, refl}
use mathlib.Core.Logic.{ite, if_pos}
use mathlib.Core.List.{List, [], ◌∷◌}
use mathlib.Core.Option.{Option, none, some}
use native.Mathlib.Omega.{arith}
use pigeonhole_clarity_messe.Prelude.Lists.{length}
use pigeonhole_clarity_messe.Prelude.Tests.{if◌then◌else◌}

abbrev pub BTreeMap {ℓ} : Type ℓ → Type ℓ → Type ℓ
BTreeMap K V = List (K × V)

module _ {ℓ} {K V : Type ℓ} (dec : Discrete K) where
  unfoldable pub get : BTreeMap K V → K → Option V
  get [] k = none
  get ((j, v) ∷ m) k = ite (dec j k) (some v) (get m k)

  unfoldable pub remove : BTreeMap K V → K → BTreeMap K V
  remove [] k = []
  remove ((j, w) ∷ m) k = let rest = remove m k in ite (dec j k) rest ((j, w) ∷ rest)

  pub get-remove : (m : BTreeMap K V) (k j : K) → get (remove m k) j ≡ ite (dec k j) none (get m j)
  unfolding get remove
  get-remove [] k j = ground arith
  get-remove ((i, w) ∷ m) k j = ground (arith, get-remove m k j)

  pub length-remove-le : (m : BTreeMap K V) (k : K) → length (remove m k) ≤ length m
  unfolding remove
  length-remove-le [] k = omega arith
  length-remove-le ((i, w) ∷ m) k = ground (arith, length-remove-le m k)

  module _ (before : K → K → Bool) where
    unfoldable pub insert : BTreeMap K V → K → V → BTreeMap K V
    insert [] k v = (k, v) ∷ []
    insert ((j, w) ∷ m) k v =
        let rest = insert m k v in
        ite (dec j k) ((k, v) ∷ m) (if before k j then (k, v) ∷ (j, w) ∷ m else (j, w) ∷ rest)

    -- `collect` into a map: later entries replace earlier ones.
    unfoldable pub insert_all : BTreeMap K V → List (K × V) → BTreeMap K V
    insert_all m [] = m
    insert_all m ((k, v) ∷ rest) = insert_all (insert m k v) rest

    pub get-insert :
        (m : BTreeMap K V) (k j : K) (v : V)
        → get (insert m k v) j ≡ ite (dec k j) (some v) (get m j)
    unfolding get insert
    get-insert [] k j v = refl
    get-insert ((i, w) ∷ m) k j v = ground (arith, get-insert m k j v)

    pub length-insert-le : (m : BTreeMap K V) (k : K) (v : V) → length (insert m k v) ≤ length m + 1
    unfolding insert
    length-insert-le [] k v = omega arith
    length-insert-le ((i, w) ∷ m) k v = ground (arith, length-insert-le m k v)

    pub get-insert_self : (m : BTreeMap K V) (k : K) (v : V) → get (insert m k v) k ≡ some v
    get-insert_self m k v = rw get-insert (if_pos (dec k k) refl _ _)
