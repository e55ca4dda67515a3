-- ===== src/Relay/Query.antt =====
-- The query strings of relay/src/server.rs: `query_param` and `url_decode`. Strings are their UTF-8
-- bytes. The URL is ASCII, as tiny_http delivers it, so the slice of two bytes is always a string.
pub mod Form
use pigeonhole_clarity_messe.Prelude.{
  ℕ, zero, suc, ◌+◌, ◌-◌, ◌*◌, ◌/◌, ◌%◌, ◌≤◌, ◌<◌, ◌≡◌, ◌≢◌, refl, sym, ap, ◌∙◌, ◌==◌, ◌&&◌, Bool,
  true, false, Option, none, some, List, [], ◌∷◌, ◌++◌, length, ltb, leb, ite, if_pos, if_neg,
  if◌then◌else◌, arith, All,
}
use pigeonhole_clarity_messe.Prelude.Bytes.{Bytes, Bytes_discrete}

-- A hexadecimal digit, in either case.
abbrev pub hex_digit : ℕ → Option ℕ
hex_digit c =
    if leb 48 c && leb c 57
    then some (c - 48)
    else if leb 65 c && leb c 70
    then some (c - 55)
    else if leb 97 c && leb c 102
    then some (c - 87)
    else none

abbrev pub two_digits : Option ℕ → Option ℕ → Option ℕ
two_digits (some a) (some b) = some (16 * a + b)
two_digits (some a) none = none
two_digits none b = none

-- `u8::from_str_radix(s, 16)` on two characters; a leading `+` is allowed.
abbrev pub from_hex : ℕ → ℕ → Option ℕ
from_hex hi lo = if hi == 43 then hex_digit lo else two_digits (hex_digit hi) (hex_digit lo)

-- `String::push(byte as char)`: a byte above the ASCII range becomes two bytes of UTF-8.
abbrev pub push_char : ℕ → Bytes
push_char c = if ltb c 128 then c ∷ [] else (192 + c / 64) ∷ (128 + c % 64) ∷ []

-- What one round of the loop appends, and what it leaves to read. A `%` needs two more bytes.
abbrev pub escape : ℕ → ℕ → Bytes → Option ℕ → Bytes × Bytes
escape hi lo rest (some byte) = (push_char byte, rest)
escape hi lo rest none = (37 ∷ [], hi ∷ lo ∷ rest)

abbrev pub unescaped : ℕ → Bytes
unescaped c = if c == 43 then 32 ∷ [] else push_char c

abbrev pub round : ℕ → Bytes → Bytes × Bytes
round c (hi ∷ lo ∷ rest) =
    if c == 37 then escape hi lo rest (from_hex hi lo) else (unescaped c, hi ∷ lo ∷ rest)
round c (hi ∷ []) = (unescaped c, hi ∷ [])
round c [] = (unescaped c, [])

-- The `while i < bytes.len()` loop on what is left to read; `none` when the fuel runs out.
unfoldable pub decode_loop : ℕ → Bytes → Bytes → Option Bytes
decode_loop fuel out [] = some out
decode_loop zero out (c ∷ rest) = none
decode_loop (suc fuel) out (c ∷ rest) = decode_loop fuel (out ++ (round c rest).0) (round c rest).1

abbrev pub or_empty : Option Bytes → Bytes
or_empty (some b) = b
or_empty none = []

-- Each round reads at least one byte, so the length is fuel enough.
unfoldable pub url_decode : Bytes → Bytes
unfolding decode_loop
url_decode s = or_empty (decode_loop (length s) [] s)

-- `split(sep)`: the first piece, and the others.
unfoldable pub split : ℕ → Bytes → Bytes × List Bytes
split sep [] = ([], [])
split sep (c ∷ s) =
    let rest = split sep s in if c == sep then ([], rest.0 ∷ rest.1) else (c ∷ rest.0, rest.1)

-- `split_once(sep)`, and `splitn(2, sep)` as its first piece and the second if there is one.
unfoldable pub split_once : ℕ → Bytes → Bytes × Option Bytes
split_once sep [] = ([], none)
split_once sep (c ∷ s) =
    let rest = split_once sep s in if c == sep then ([], some s) else (c ∷ rest.0, rest.1)

-- The `for pair in query.split('&')` loop.
unfoldable pub find_param : Bytes → List Bytes → Option Bytes
unfolding url_decode split_once Bytes_discrete
find_param key [] = none
find_param key (piece ∷ pieces) =
    let rest = find_param key pieces in
    let it = split_once 61 piece in
    ite (Bytes_discrete it.0 key) (some (url_decode (or_empty it.1))) rest

unfoldable pub query_param : Bytes → Bytes → Option Bytes
unfolding split find_param
query_param query key = let pieces = split 38 query in find_param key (pieces.0 ∷ pieces.1)

round-shrinks : (c : ℕ) (rest : Bytes) → length (round c rest).1 ≤ length rest
round-shrinks c [] = omega arith
round-shrinks c (hi ∷ []) = omega arith
round-shrinks c (hi ∷ lo ∷ rest) = ground arith

loop-suc :
    (out : Bytes) (c : ℕ) (rest end : Bytes)
    → ((fuel : ℕ)
        → length (round c rest).1 ≤ fuel
        → decode_loop fuel (out ++ (round c rest).0) (round c rest).1 ≡ some end)
    → (fuel : ℕ) → length rest < fuel
    → decode_loop fuel out (c ∷ rest) ≡ some end
unfolding decode_loop
loop-suc out c rest end step zero h = absurd (omega arith)
loop-suc out c rest end step (suc fuel) h = step fuel (omega (arith, round-shrinks c rest))

loop-nil : (fuel : ℕ) (out : Bytes) → decode_loop fuel out [] ≡ some out
unfolding decode_loop
loop-nil zero out = refl
loop-nil (suc fuel) out = refl

loop-ends :
    (bound : ℕ) (out s : Bytes)
    → length s ≤ bound
    → (end : Bytes) × ((fuel : ℕ) → length s ≤ fuel → decode_loop fuel out s ≡ some end)
unfolding decode_loop
loop-ends bound out [] h = (out, λ fuel enough. loop-nil fuel out)
loop-ends zero out (c ∷ rest) h = absurd (omega arith)
loop-ends (suc bound) out (c ∷ rest) h =
    let shorter : length (round c rest).1 ≤ bound = omega (arith, round-shrinks c rest) in
    let (end, ends) = loop-ends bound (out ++ (round c rest).0) (round c rest).1 shorter in
    (end, λ fuel enough. loop-suc out c rest end ends fuel (omega arith))

-- The loop of `url_decode` ends for every input, within as many rounds as the input has bytes, and
-- every larger number of rounds gives the same string.
pub decode_loop-terminates :
    (s : Bytes) (fuel : ℕ) → length s ≤ fuel → decode_loop fuel [] s ≡ some (url_decode s)
unfolding url_decode
decode_loop-terminates s fuel enough =
    let (end, ends) = loop-ends (length s) [] s (omega arith) in
    ends fuel enough
    ∙ sym (ap (λ (o : Option Bytes). some (or_empty o)) (ends (length s) (omega arith)))
