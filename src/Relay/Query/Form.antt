-- ===== src/Relay/Query/Form.antt =====
-- What a client writes into a query is what relay/src/server.rs reads from it: the parameters of
-- a percent-encoded query against `query_param` and `url_decode`.
use pigeonhole_clarity_messe.Prelude.{
  ℕ, zero, suc, ◌+◌, ◌*◌, ◌≤◌, ◌<◌, ◌≡◌, ◌≢◌, refl, sym, ap, ◌∙◌, ◌==◌, some, [], ◌∷◌, ◌++◌, length,
  append_assoc, append-nil, if_pos, arith, All, All-append, Bool-cases, inl, inr,
}
use pigeonhole_clarity_messe.Prelude.Bytes.{Bytes, Bytes_discrete}
use pigeonhole_clarity_messe.Relay.Query.{
  hex_digit, from_hex, push_char, escape, round, decode_loop, url_decode, or_empty, split,
  split_once, find_param, query_param, decode_loop-terminates,
}

-- A byte of a query value as `application/x-www-form-urlencoded` writes it: as itself, as `%` and
-- two digits, or a space as `+`.
pub data Written (c : ℕ) : Bytes → Type 0 where
  plain : c ≢ 37 → c ≢ 38 → c ≢ 43 → Written c (c ∷ [])
  escaped :
      (hi lo a b : ℕ)
      → hex_digit hi ≡ some a
      → hex_digit lo ≡ some b
      → 16 * a + b ≡ c
      → Written c (37 ∷ hi ∷ lo ∷ [])
  space : c ≡ 32 → Written c (43 ∷ [])

abbrev pub write_all : (ℕ → Bytes) → Bytes → Bytes
write_all form [] = []
write_all form (c ∷ s) = form c ++ write_all form s

pub record IsForm (form : ℕ → Bytes) : Type 0 where
  pub writes : (c : ℕ) → Written c (form c)

push_ascii : (c : ℕ) → c < 128 → push_char c ≡ c ∷ []
push_ascii c h = ground arith

round-plain : (c : ℕ) (rest : Bytes) → c ≢ 37 → c ≢ 43 → c < 128 → round c rest ≡ (c ∷ [], rest)
round-plain c [] a b h = ground arith
round-plain c (hi ∷ []) a b h = ground arith
round-plain c (hi ∷ lo ∷ rest) a b h = ground arith

from_hex-digits :
    (hi lo a b : ℕ)
    → hex_digit hi ≡ some a
    → hex_digit lo ≡ some b
    → from_hex hi lo ≡ some (16 * a + b)
from_hex-digits hi lo a b da db = elim (Bool-cases (hi == 43)) [
  | inl plus ↦ absurd (ground (arith, da))
  | inr other ↦ rw (other, da, db) refl
]

round-escaped :
    (hi lo a b c : ℕ) (rest : Bytes)
    → hex_digit hi ≡ some a
    → hex_digit lo ≡ some b
    → 16 * a + b ≡ c
    → c < 128
    → round 37 (hi ∷ lo ∷ rest) ≡ (c ∷ [], rest)
round-escaped hi lo a b c rest da db same h =
    ap (escape hi lo rest) (from_hex-digits hi lo a b da db ∙ ap some same)
    ∙ ap (λ (w : Bytes). (w, rest)) (push_ascii c h)

round-space : (rest : Bytes) → round 43 rest ≡ (32 ∷ [], rest)
round-space [] = refl
round-space (hi ∷ []) = refl
round-space (hi ∷ lo ∷ rest) = refl

loop-round :
    (fuel : ℕ) (out : Bytes) (c : ℕ) (rest piece next : Bytes)
    → round c rest ≡ (piece, next)
    → decode_loop (suc fuel) out (c ∷ rest) ≡ decode_loop fuel (out ++ piece) next
unfolding decode_loop
loop-round fuel out c rest piece next e =
    ap (λ (w : Bytes × Bytes). decode_loop fuel (out ++ w.0) w.1) e

-- What was written for one byte is read in one round.
loop-Written :
    (c : ℕ) (w : Bytes)
    → Written c w
    → c < 128
    → (fuel : ℕ) (out tail : Bytes) → length (w ++ tail) ≤ fuel
    → (left : ℕ) × (length tail ≤ left)
      × (decode_loop fuel out (w ++ tail) ≡ decode_loop left (out ++ c ∷ []) tail)
loop-Written c w h small zero out tail enough = absurd (short w h enough)
  where
    short : (w : Bytes) → Written c w → length (w ++ tail) ≤ 0 → ⊥
    short _ (plain _ _ _) le = omega arith
    short _ (escaped hi lo a b da db same) le = omega arith
    short _ (space same) le = omega arith
loop-Written c _ (plain a b d) small (suc fuel) out tail enough =
    (fuel, omega arith, loop-round fuel out c tail (c ∷ []) tail (round-plain c tail a d small))
loop-Written c _ (escaped hi lo a b da db same) small (suc fuel) out tail enough = (
  fuel,
  omega arith,
  loop-round fuel out 37 (hi ∷ lo ∷ tail) (c ∷ []) tail
      (round-escaped hi lo a b c tail da db same small),
)
loop-Written c _ (space same) small (suc fuel) out tail enough = (
  fuel,
  omega arith,
  loop-round fuel out 43 tail (c ∷ []) tail
      (round-space tail ∙ ap (λ (x : ℕ). (x ∷ [], tail)) (sym same)),
)

module _ (form : ℕ → Bytes) (laws : IsForm form) where
  decode_loop-write_all :
      (s : Bytes)
      → All (λ (c : ℕ). c < 128) s
      → (fuel : ℕ) (out : Bytes) → length (write_all form s) ≤ fuel
      → decode_loop fuel out (write_all form s) ≡ some (out ++ s)
  unfolding decode_loop
  decode_loop-write_all [] small zero out enough = ap some (sym (append-nil out))
  decode_loop-write_all [] small (suc fuel) out enough = ap some (sym (append-nil out))
  decode_loop-write_all (c ∷ s) small fuel out enough =
      let (left, room, step) =
        loop-Written c (form c) (laws.writes c) small.0 fuel out (write_all form s) enough in
      step
      ∙ decode_loop-write_all s small.1 left (out ++ c ∷ []) room
      ∙ ap some (append_assoc out (c ∷ []) s)

  pub url_decode-write_all :
      (s : Bytes) → All (λ (c : ℕ). c < 128) s → url_decode (write_all form s) ≡ s
  url_decode-write_all s small =
      let w = write_all form s in
      let read = decode_loop-write_all s small (length w) [] (omega arith) in
      let ends = decode_loop-terminates w (length w) (omega arith) in ap or_empty (sym ends ∙ read)

  abbrev pub Without : ℕ → Bytes → Type 0
  Without sep s = All (λ (c : ℕ). c ≢ sep) s

  split-Without : (sep : ℕ) (s : Bytes) → Without sep s → split sep s ≡ (s, [])
  unfolding split
  split-Without sep [] h = refl
  split-Without sep (c ∷ s) h = rw (split-Without sep s h.1) (ground (arith, h.0))

  split_once-Without :
      (sep : ℕ) (s rest : Bytes) → Without sep s → split_once sep (s ++ sep ∷ rest) ≡ (s, some rest)
  unfolding split_once
  split_once-Without sep [] rest h = ground arith
  split_once-Without sep (c ∷ s) rest h =
      rw (split_once-Without sep s rest h.1) (ground (arith, h.0))

  Written-Without : (c : ℕ) (w : Bytes) → Written c w → Without 38 w
  Written-Without c _ (plain a b d) = (b, tt)
  Written-Without c _ (escaped hi lo a b da db same) =
      (λ (e : 37 ≡ 38). omega arith, (λ e. ground (arith, da, e), (λ e. ground (arith, db, e), tt)))
  Written-Without c _ (space same) = (λ (e : 43 ≡ 38). omega arith, tt)

  write_all-Without : (s : Bytes) → Without 38 (write_all form s)
  write_all-Without [] = tt
  write_all-Without (c ∷ s) =
      All-append (λ (c : ℕ). c ≢ 38) (form c) (write_all form s)
        (Written-Without c (form c) (laws.writes c)) (write_all-Without s)

  -- An ASCII value written after its key and `=`, with each byte as itself, as `%` and two digits
  -- or a space as `+`, is what `query_param` finds under that key, if the key has no `&` and no `=`.
  pub query_param-write_all :
      (key value : Bytes)
      → Without 38 key
      → Without 61 key
      → All (λ (c : ℕ). c < 128) value
      → query_param (key ++ 61 ∷ write_all form value) key ≡ some value
  unfolding query_param find_param
  query_param-write_all key value no_and no_equals small =
      let whole =
        All-append (λ (c : ℕ). c ≢ 38) key (61 ∷ write_all form value) no_and
          (λ (e : 61 ≡ 38). omega arith, write_all-Without value) in
      rw
        (
          split-Without 38 (key ++ 61 ∷ write_all form value) whole,
          split_once-Without 61 key (write_all form value) no_equals,
        )
        (if_pos (Bytes_discrete key key) refl _ _ ∙ ap some (url_decode-write_all value small))
