-- ===== src/Mesh/Bounds.antt =====
-- The bounded tables of a `MeshNode` (mesh/src/lib.rs): the map and its insertion order hold the
-- same ids, each once, and never more than the cap.
use pigeonhole_clarity_messe.Prelude.{
  ℕ, ◌+◌, ◌≤◌, ◌≡◌, refl, Bool, true, false, ite, Option, none, some, List, [], ◌∷◌, ◌++◌, length,
  length-append, ltb, arith, Option-cases, inl, inr, Bool-cases,
}
use pigeonhole_clarity_messe.Prelude.Bytes.{Bytes, Bytes_discrete as dec}
use pigeonhole_clarity_messe.Prelude.HashMap
use pigeonhole_clarity_messe.Prelude.HashMap.{
  HashMap, Distinct, get-insert, get-remove, insert-Distinct, remove-Distinct, length-insert_new,
  length-insert_old, length-remove,
}
use pigeonhole_clarity_messe.Mesh.Node.{evict_oldest, insert_bounded}

unfoldable pub contains : List Bytes → Bytes → Bool
contains [] id = false
contains (x ∷ xs) id = ite (dec x id) true (contains xs id)

contains-append :
    (xs : List Bytes) (id j : Bytes)
    → contains (xs ++ id ∷ []) j ≡ ite (dec id j) true (contains xs j)
unfolding contains
contains-append [] id j = refl
contains-append (x ∷ xs) id j = ground (arith, contains-append xs id j)

-- No id stands twice.
abbrev pub Once : List Bytes → Type 0
Once [] = Unit
Once (x ∷ xs) = (contains xs x ≡ false) × Once xs

Once-append :
    (xs : List Bytes) (id : Bytes) → contains xs id ≡ false → Once xs → Once (xs ++ id ∷ [])
unfolding contains
Once-append [] id h o = (refl, tt)
Once-append (x ∷ xs) id h o =
    (ground (arith, contains-append xs id x), Once-append xs id (ground arith) o.1)

abbrev pub is_some {ℓ} : {A : Type ℓ} → Option A → Bool
is_some none = false
is_some (some a) = true

-- A table and the order of its insertions.
pub record Tracks {V : Type 0} (m : HashMap Bytes V) (order : List Bytes) : Type 0 where
  pub members : (id : Bytes) → contains order id ≡ is_some (HashMap.get dec m id)
  pub once : Once order
  pub distinct : Distinct dec m
  pub size : length m ≡ length order

module _ {V : Type 0} where
  push-Tracks :
      (m : HashMap Bytes V) (order : List Bytes) (id : Bytes) (v : V)
      → HashMap.get dec m id ≡ none
      → Tracks m order
      → Tracks (HashMap.insert dec m id v) (order ++ id ∷ [])
  push-Tracks m order id v fresh t = record {
    members = λ j. ground (arith, contains-append order id j, get-insert dec m id j v, t.members j);
    once = Once-append order id (ground (arith, t.members id)) t.once;
    distinct = insert-Distinct dec m id v t.distinct;
    size = omega (arith, length-insert_new dec m id v fresh, length-append order (id ∷ []), t.size);
  }

  replace-Tracks :
      (m : HashMap Bytes V) (order : List Bytes) (id : Bytes) (v old : V)
      → HashMap.get dec m id ≡ some old
      → Tracks m order
      → Tracks (HashMap.insert dec m id v) order
  replace-Tracks m order id v old there t = record {
    members = λ j. ground (arith, get-insert dec m id j v, t.members j, t.members id);
    once = t.once;
    distinct = insert-Distinct dec m id v t.distinct;
    size = omega (arith, length-insert_old dec m id v old there, t.size);
  }

  drop_oldest-Tracks :
      (m : HashMap Bytes V) (old : Bytes) (order : List Bytes)
      → Tracks m (old ∷ order)
      → Tracks (HashMap.remove dec m old) order
  unfolding contains
  drop_oldest-Tracks m old order t = record {
    members = λ j. ground (arith, get-remove dec m old j, t.members j, t.once.0);
    once = t.once.1;
    distinct = remove-Distinct dec m old t.distinct;
    size = elim (Option-cases (HashMap.get dec m old)) [
      | inl e ↦ absurd (ground (arith, t.members old))
      | inr (v, e) ↦ omega (arith, length-remove dec m old v t.distinct e, t.size)
    ];
  }

  evict_oldest-Tracks :
      (cap : ℕ) (m : HashMap Bytes V) (order : List Bytes)
      → Tracks m order
      → length order ≤ cap + 1
      → Tracks (evict_oldest cap m order).0 (evict_oldest cap m order).1
        × (length (evict_oldest cap m order).1 ≤ cap)
  unfolding evict_oldest
  evict_oldest-Tracks cap m [] t h = (t, omega arith)
  evict_oldest-Tracks cap m (old ∷ order) t h = elim (Bool-cases (ltb cap (length (old ∷ order)))) [
    | inl over ↦ rw over (drop_oldest-Tracks m old order t, omega arith)
    | inr within ↦ rw within (t, ground arith)
  ]

  -- An insertion keeps the table and its order in step, and within the cap.
  pub insert_bounded-Tracks :
      (cap : ℕ) (m : HashMap Bytes V) (order : List Bytes) (id : Bytes) (v : V) (o : Option V)
      → HashMap.get dec m id ≡ o
      → Tracks m order
      → length order ≤ cap
      → Tracks (insert_bounded cap m order id v o).0 (insert_bounded cap m order id v o).1
        × (length (insert_bounded cap m order id v o).1 ≤ cap)
  unfolding insert_bounded
  insert_bounded-Tracks cap m order id v (some old) e t h = (replace-Tracks m order id v old e t, h)
  insert_bounded-Tracks cap m order id v none e t h =
      unfold insert_bounded in
      evict_oldest-Tracks cap (HashMap.insert dec m id v) (order ++ id ∷ [])
        (push-Tracks m order id v e t) (omega (arith, length-append order (id ∷ [])))
