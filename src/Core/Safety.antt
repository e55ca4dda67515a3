-- ===== src/Core/Safety.antt =====
-- Safety numbers (core/src/safety.rs). SHA-512 is the parameter `sha512`; text is a list of codes.
use pigeonhole_clarity_messe.Prelude.{
  ℕ, zero, suc, ◌+◌, ◌-◌, ◌*◌, ◌/◌, ◌%◌, ◌≡◌, refl, sym, ap, ap₂, true, false, not, Bool-cases, inl,
  inr, [], ◌∷◌, ◌++◌, take, drop, ltb, arith, if◌then◌else◌,
}
use pigeonhole_clarity_messe.Prelude.Bytes.{Bytes, ascii}
use pigeonhole_clarity_messe.Core.Ratchet.Defs.{bytes_before}

abbrev pub iterations : ℕ
iterations = 5200

abbrev pub chunks_per_identity : ℕ
chunks_per_identity = 6

-- `acc = (acc << 8) | b` over five bytes; the bits do not overlap.
abbrev pub big_endian : ℕ → Bytes → ℕ
big_endian acc [] = acc
big_endian acc (b ∷ bs) = big_endian (acc * 256 + b) bs

-- `{value:05}` of a number below 100000.
unfoldable pub five_digits : ℕ → Bytes
five_digits v =
    (48 + v / 10_000 % 10)
    ∷ (48 + v / 1_000 % 10)
    ∷ (48 + v / 100 % 10)
    ∷ (48 + v / 10 % 10)
    ∷ (48 + v % 10)
    ∷ []

-- The rounds of the loop that are left, from a chunk on.
unfoldable pub push_chunks : ℕ → ℕ → Bytes → Bytes → Bytes
unfolding five_digits
push_chunks zero chunk out fingerprint = out
push_chunks (suc left) chunk out fingerprint =
    let value = big_endian 0 (take 5 (drop (chunk * 5) fingerprint)) % 100_000 in
    let spaced = if ltb 0 chunk then out ++ 32 ∷ [] else out in
    push_chunks left (chunk + 1) (spaced ++ five_digits value) fingerprint

unfoldable pub push_digits : Bytes → Bytes → Bytes
unfolding push_chunks
push_digits out fingerprint = push_chunks chunks_per_identity 0 out fingerprint

module _ (sha512 : Bytes → Bytes) where
  unfoldable pub hash_again : ℕ → Bytes → Bytes → Bytes
  hash_again zero identity digest = digest
  hash_again (suc rounds) identity digest = hash_again rounds identity (sha512 (digest ++ identity))

  unfoldable pub fingerprint : Bytes → Bytes
  unfolding hash_again
  fingerprint identity =
      hash_again (iterations - 1) identity (sha512 (ascii "Clarity-safety-number-v1" ++ identity))

  abbrev pub ordered : Bytes → Bytes → Bytes × Bytes
  unfolding bytes_before
  ordered fp_a fp_b = if not (bytes_before fp_b fp_a) then (fp_a, fp_b) else (fp_b, fp_a)

  unfoldable pub safety_number : Bytes → Bytes → Bytes
  unfolding ordered push_digits
  safety_number identity_a identity_b =
      let (first, second) = ordered (fingerprint identity_a) (fingerprint identity_b) in
      push_digits (push_digits [] first ++ 32 ∷ []) second

  before-asymmetric : (a b : Bytes) → bytes_before a b ≡ true → bytes_before b a ≡ false
  unfolding bytes_before
  before-asymmetric [] [] h = cc
  before-asymmetric [] (y ∷ ys) h = refl
  before-asymmetric (x ∷ xs) [] h = cc
  before-asymmetric (x ∷ xs) (y ∷ ys) h = ground (arith, before-asymmetric xs ys)

  before-connected : (a b : Bytes) → bytes_before a b ≡ false → bytes_before b a ≡ false → a ≡ b
  unfolding bytes_before
  before-connected [] [] h k = refl
  before-connected [] (y ∷ ys) h k = cc
  before-connected (x ∷ xs) [] h k = cc
  before-connected (x ∷ xs) (y ∷ ys) h k =
      let same : x ≡ y = ground arith in
      ap₂ ◌∷◌ same (before-connected xs ys (ground arith) (ground arith))

  ordered_comm : (a b : Bytes) → ordered a b ≡ ordered b a
  unfolding ordered
  ordered_comm a b = elim (Bool-cases (bytes_before b a)) [
    | inl below ↦ rw (below, before-asymmetric b a below) refl
    | inr above ↦ elim (Bool-cases (bytes_before a b)) [
      | inl below ↦ rw (above, below) refl
      | inr neither ↦
          let same : a ≡ b = before-connected a b neither above in
          rw (above, neither) (λ i. (same i, sym same i))
    ]
  ]

  -- Both contacts see the same safety number, whichever of the two identities they name first.
  pub safety_number_comm :
      (identity_a identity_b : Bytes)
      → safety_number identity_a identity_b ≡ safety_number identity_b identity_a
  unfolding safety_number
  safety_number_comm identity_a identity_b =
      ap (λ (p : Bytes × Bytes). push_digits (push_digits [] p.0 ++ 32 ∷ []) p.1)
        (ordered_comm (fingerprint identity_a) (fingerprint identity_b))
