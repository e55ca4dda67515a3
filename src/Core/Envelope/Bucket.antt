-- ===== src/Core/Envelope/Bucket.antt =====
-- Size padding (core/src/envelope.rs): a bucket holds its payload, and wastes at most half.
use pigeonhole_clarity_messe.Prelude.{
  ℕ, zero, suc, ◌+◌, ◌*◌, ◌≤◌, ◌<◌, ◌≡◌, ◌⊎◌, inl, inr, refl, Bool-cases, leb, arith,
}
use pigeonhole_clarity_messe.Core.Envelope.Defs.{bucket, doubled_to, next_power_of_two, div_ceil}

-- Doubling a number of times.
abbrev doublings : ℕ → ℕ → ℕ
doublings zero p = p
doublings (suc fuel) p = doublings fuel (2 * p)

doubled_to-ge : (fuel p n : ℕ) → n ≤ doublings fuel p → n ≤ doubled_to fuel p n
unfolding doubled_to
doubled_to-ge zero p n h = h
doubled_to-ge (suc fuel) p n h = elim (Bool-cases (leb n p)) [
  | inl enough ↦ rw enough (ground arith)
  | inr less ↦ rw less (doubled_to-ge fuel (2 * p) n h)
]

doubled_to-le : (fuel p n : ℕ) → p ≤ 2 * n → doubled_to fuel p n ≤ 2 * n
unfolding doubled_to
doubled_to-le zero p n h = h
doubled_to-le (suc fuel) p n h = elim (Bool-cases (leb n p)) [
  | inl enough ↦ rw enough h
  | inr less ↦ rw less (doubled_to-le fuel (2 * p) n (ground arith))
]

next_power_of_two-bounds :
    (n : ℕ) → 1 ≤ n → n ≤ 8192 → (n ≤ next_power_of_two n) × (next_power_of_two n ≤ 2 * n)
unfolding next_power_of_two
next_power_of_two-bounds n h k =
    (doubled_to-ge 63 1 n (omega arith), doubled_to-le 63 1 n (omega arith))

div_ceil-bounds :
    (n : ℕ) → 8192 < n → (n ≤ div_ceil n 8192 * 8192) × (div_ceil n 8192 * 8192 ≤ 2 * n)
div_ceil-bounds n h = ground arith

-- A bucket has room for the payload and its length field, is at least `MIN_BUCKET`, and is either
-- that minimum or at most twice what is needed.
pub bucket-bounds :
    (len : ℕ)
    → (len + 4 ≤ bucket len)
      × (512 ≤ bucket len)
      × ((bucket len ≡ 512) ⊎ (bucket len ≤ 2 * (len + 4)))
unfolding bucket
bucket-bounds len = elim (Bool-cases (leb (len + 4) 512)) [
  | inl small ↦ rw small (ground arith, omega arith, inl refl)
  | inr more ↦ elim (Bool-cases (leb (len + 4) 8192)) [
    | inl middle ↦
        let (ge, le) = next_power_of_two-bounds (len + 4) (omega arith) (ground arith) in
        rw (more, middle) (ge, ground arith, inr le)
    | inr large ↦
        let (ge, le) = div_ceil-bounds (len + 4) (ground arith) in
        rw (more, large) (ge, ground arith, inr le)
  ]
]
