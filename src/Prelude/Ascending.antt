-- ===== src/Prelude/Ascending.antt =====
-- Ordered maps whose entries stand in the order of their keys, as a `BTreeMap` iterates: written out
-- as a list and collected again, such a map is itself.
use mathlib.Core.Bool.{Bool, true, false}
use mathlib.Core.Path.{◌≡◌, refl, sym, ap, subst, ◌∙◌}
use mathlib.Core.Logic.{◌≢◌, if_pos, if_neg, inl, inr}
use mathlib.Core.List.{[], ◌∷◌, ◌++◌, append_assoc, append-nil}
use pigeonhole_clarity_messe.Prelude.Lists.{All}
use pigeonhole_clarity_messe.Prelude.Tests.{Bool-cases}
use pigeonhole_clarity_messe.Prelude.BTreeMap.{BTreeMap, insert, insert_all, remove}

asymmetric {ℓ} :
    {K : Type ℓ} (before : K → K → Bool)
    → ((a b c : K) → before a b ≡ true → before b c ≡ true → before a c ≡ true)
    → ((a : K) → before a a ≡ false)
    → (k j : K) → before k j ≡ true
    → before j k ≡ false
asymmetric before trans irrefl k j b = elim (Bool-cases (before j k)) [
  | inl back ↦ cc (trans k j k b back, irrefl k)
  | inr ahead ↦ ahead
]

module _ {ℓ} {K V : Type ℓ} (dec : Discrete K) (before : K → K → Bool) where
  -- The key stands before that of an entry.
  abbrev pub Above : K → K × V → Type ℓ
  Above k e = (k ≢ e.0) × (before e.0 k ≡ false)

  abbrev pub Ascending : BTreeMap K V → Type ℓ
  Ascending [] = Unit
  Ascending ((k, v) ∷ m) = All (Above k) m × Ascending m

  insert-last :
      (acc : BTreeMap K V) (k : K) (v : V) (m : BTreeMap K V)
      → Ascending (acc ++ (k, v) ∷ m)
      → insert dec before acc k v ≡ acc ++ (k, v) ∷ []
  unfolding insert
  insert-last [] k v m h = refl
  insert-last ((j, w) ∷ acc) k v m h =
      let above = middle acc h.0 in
      if_neg (dec j k) above.0 _ _ ∙ rw above.1 (ap (◌∷◌ (j, w)) (insert-last acc k v m h.1))
    where
      middle : (acc : BTreeMap K V) → All (Above j) (acc ++ (k, v) ∷ m) → Above j (k, v)
      middle [] h = h.0
      middle (e ∷ acc) h = middle acc h.1

  insert_all-append :
      (acc m : BTreeMap K V) → Ascending (acc ++ m) → insert_all dec before acc m ≡ acc ++ m
  unfolding insert_all
  insert_all-append acc [] h = sym (append-nil acc)
  insert_all-append acc ((k, v) ∷ m) h =
      let whole = append_assoc acc ((k, v) ∷ []) m in
      ap (λ (a : BTreeMap K V). insert_all dec before a m) (insert-last acc k v m h)
      ∙ insert_all-append (acc ++ (k, v) ∷ []) m (subst Ascending (sym whole) h)
      ∙ whole

  pub insert_all-Ascending : (m : BTreeMap K V) → Ascending m → insert_all dec before [] m ≡ m
  insert_all-Ascending m h = insert_all-append [] m h

  pub All-remove :
      (P : K × V → Type ℓ) (m : BTreeMap K V) (k : K) → All P m → All P (remove dec m k)
  unfolding remove
  All-remove P [] k h = h
  All-remove P ((j, w) ∷ m) k h = elim (dec j k) [
    | yes p ↦ rw (if_pos (dec j k) p) (All-remove P m k h.1)
    | no p ↦ rw (if_neg (dec j k) p) (h.0, All-remove P m k h.1)
  ]

  pub remove-Ascending : (m : BTreeMap K V) (k : K) → Ascending m → Ascending (remove dec m k)
  unfolding remove
  remove-Ascending [] k h = h
  remove-Ascending ((j, w) ∷ m) k h = elim (dec j k) [
    | yes p ↦ rw (if_pos (dec j k) p) (remove-Ascending m k h.1)
    | no p ↦ rw (if_neg (dec j k) p) (All-remove (Above j) m k h.0, remove-Ascending m k h.1)
  ]

  pub All-insert :
      (P : K × V → Type ℓ) (m : BTreeMap K V) (k : K) (v : V)
      → P (k, v)
      → All P m
      → All P (insert dec before m k v)
  unfolding insert
  All-insert P [] k v p h = (p, tt)
  All-insert P ((j, w) ∷ m) k v p h = elim (dec j k) [
    | yes q ↦ rw (if_pos (dec j k) q) (p, h.1)
    | no q ↦ elim (Bool-cases (before k j)) [
      | inl b ↦ rw (if_neg (dec j k) q, b) (p, h)
      | inr b ↦ rw (if_neg (dec j k) q, b) (h.0, All-insert P m k v p h.1)
    ]
  ]

  module _ (trans : (a b c : K) → before a b ≡ true → before b c ≡ true → before a c ≡ true)
      (irrefl : (a : K) → before a a ≡ false) where
    Above-le :
        (k j : K) → before k j ≡ true → (m : BTreeMap K V) → All (Above j) m → All (Above k) m
    Above-le k j b [] h = tt
    Above-le k j b (e ∷ m) h = (
      (
        λ same. cc (b, ap (λ (x : K). before x j) same, h.0.1),
        elim (Bool-cases (before e.0 k)) [
          | inl under ↦ cc (trans e.0 k j under b, h.0.1)
          | inr above ↦ above
        ],
      ),
      Above-le k j b m h.1,
    )

    pub insert-Ascending :
        (m : BTreeMap K V) (k : K) (v : V) → Ascending m → Ascending (insert dec before m k v)
    unfolding insert
    insert-Ascending [] k v h = (tt, tt)
    insert-Ascending ((j, w) ∷ m) k v h = elim (dec j k) [
      | yes q ↦ rw (if_pos (dec j k) q) (subst (λ (x : K). All (Above x) m) q h.0, h.1)
      | no q ↦ elim (Bool-cases (before k j)) [
        | inl b ↦
            rw (if_neg (dec j k) q, b)
              (((λ e. q (sym e), asymmetric before trans irrefl k j b), Above-le k j b m h.0), h)
        | inr b ↦
            rw (if_neg (dec j k) q, b)
              (All-insert (Above j) m k v (q, b) h.0, insert-Ascending m k v h.1)
      ]
    ]
