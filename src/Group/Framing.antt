-- ===== src/Group/Framing.antt =====
-- Length-prefixed framing (group/src/lib.rs): `frame`, `unframe` and `Cursor`. A slice index is a
-- `usize`, which does not overflow here; a length field is a `u32`.
use pigeonhole_clarity_messe.Prelude.{
  ℕ, zero, suc, ◌+◌, ◌^◌, ◌<◌, ◌≡◌, refl, sym, ap, ◌∙◌, true, leb, Option, none, some, List, [],
  ◌∷◌, ◌++◌, append_assoc, append-nil, All, subst, drop-nil, le→leb, ==_iff, length, length-append,
  take, drop, take-append, drop-append, arith, if◌then◌else◌, ◌==◌, Bool,
}
use pigeonhole_clarity_messe.Prelude.Bytes.{Bytes}
use pigeonhole_clarity_messe.Core.Envelope.Defs.{to_le_bytes, from_le_bytes}
use pigeonhole_clarity_messe.Core.Envelope.RoundTrip.{from_le_bytes-to, length-to_le_bytes}

-- One field: its length, then its bytes.
abbrev pub field : Bytes → Bytes
field f = to_le_bytes (length f) ++ f

unfoldable pub frame : List Bytes → Bytes
unfolding to_le_bytes
frame [] = []
frame (f ∷ fields) = field f ++ frame fields

pub record Cursor : Type 0 where
  pub bytes : Bytes
  pub i : ℕ

-- `bytes.get(from..from + n)`.
abbrev pub slice : Bytes → ℕ → ℕ → Option Bytes
slice bytes from n = if leb (from + n) (length bytes) then some (take n (drop from bytes)) else none

-- `?` on an option.
infixl 5 ◌>>=◌
abbrev pub ◌>>=◌ : {S T : Type 0} → Option S → (S → Option T) → Option T
none >>= next = none
some x >>= next = next x

unfoldable pub read_u32 : Cursor → Option (ℕ × Cursor)
unfolding from_le_bytes
read_u32 cur = do b ← slice cur.bytes cur.i 4; some (from_le_bytes b, record cur { i = cur.i + 4 })

unfoldable pub read_bytes : Cursor → Option (Bytes × Cursor)
unfolding read_u32
read_bytes cur = do
  r ← read_u32 cur
  out ← slice r.1.bytes r.1.i r.0
  some (out, record r.1 { i = r.1.i + r.0 })

unfoldable pub is_done : Cursor → Bool
is_done cur = cur.i == length cur.bytes

-- The loop of `unframe`, with the fields that are left to read.
unfoldable pub read_fields : ℕ → Cursor → Option (List Bytes × Cursor)
unfolding read_bytes
read_fields zero cur = some ([], cur)
read_fields (suc count) cur = do
  r ← read_bytes cur
  rest ← read_fields count r.1
  some (r.0 ∷ rest.0, rest.1)

unfoldable pub unframe : Bytes → ℕ → Option (List Bytes)
unfolding read_fields is_done
unframe bytes count = do
  r ← read_fields count (record { bytes = bytes; i = 0 })
  if is_done r.1 then some r.0 else none

abbrev pub Short : Bytes → Type 0
Short f = length f < 2 ^ 32

-- A cursor with `rest` ahead of it.
pub record Ahead (cur : Cursor) (rest : Bytes) : Type 0 where
  pub here : drop cur.i cur.bytes ≡ rest
  pub inside : cur.i + length rest ≡ length cur.bytes

abbrev pub advanced : Cursor → ℕ → Cursor
advanced cur n = record cur { i = cur.i + n }

drop-drop : (a b : ℕ) (xs : Bytes) → drop (a + b) xs ≡ drop b (drop a xs)
drop-drop zero b xs = let e : 0 + b ≡ b = omega arith in ap (λ (n : ℕ). drop n xs) e
drop-drop (suc a) b [] =
    let e : suc a + b ≡ suc (a + b) = omega arith in ap (λ (n : ℕ). drop n []) e ∙ sym (drop-nil b)
drop-drop (suc a) b (x ∷ xs) =
    let e : suc a + b ≡ suc (a + b) = omega arith in
    ap (λ (n : ℕ). drop n (x ∷ xs)) e ∙ drop-drop a b xs

slice-Ahead :
    (cur : Cursor) (f rest : Bytes)
    → Ahead cur (f ++ rest)
    → (slice cur.bytes cur.i (length f) ≡ some f) × Ahead (advanced cur (length f)) rest
slice-Ahead cur f rest h =
    let room : leb (cur.i + length f) (length cur.bytes) ≡ true =
      le→leb (cur.i + length f) (length cur.bytes)
        (omega (arith, h.inside, length-append f rest)) in
    (
      rw room (
          ap (λ (b : Bytes). some (take (length f) b)) h.here
          ∙ ap some (take-append (length f) f rest refl)),
      record {
        here =
            drop-drop cur.i (length f) cur.bytes
            ∙ ap (drop (length f)) h.here
            ∙ drop-append (length f) f rest refl;
        inside = omega (arith, h.inside, length-append f rest);
      },
    )

pub read_u32-Ahead :
    (cur : Cursor) (n : ℕ) (rest : Bytes)
    → n < 2 ^ 32
    → Ahead cur (to_le_bytes n ++ rest)
    → (read_u32 cur ≡ some (n, advanced cur 4)) × Ahead (advanced cur 4) rest
unfolding read_u32
read_u32-Ahead cur n rest small h =
    let (got, next) = slice-Ahead cur (to_le_bytes n) rest h in
    (
      ap (λ (o : Option Bytes). o >>= λ b. some (from_le_bytes b, advanced cur 4))
            (rw length-to_le_bytes at got)
          ∙ ap (λ (m : ℕ). some (m, advanced cur 4)) (from_le_bytes-to n small),
      rw length-to_le_bytes at next,
    )

pub read_bytes-Ahead :
    (cur : Cursor) (f rest : Bytes)
    → Short f
    → Ahead cur (field f ++ rest)
    → (read_bytes cur ≡ some (f, advanced (advanced cur 4) (length f)))
      × Ahead (advanced (advanced cur 4) (length f)) rest
unfolding read_bytes
read_bytes-Ahead cur f rest short h =
    let (head, next) = read_u32-Ahead cur (length f) (f ++ rest) short (rw append_assoc at h) in
    let (body, after) = slice-Ahead (advanced cur 4) f rest next in (rw (head, body) refl, after)

pub read_fields-frame :
    (cur : Cursor) (fields : List Bytes) (rest : Bytes)
    → All Short fields
    → Ahead cur (frame fields ++ rest)
    → (cur' : Cursor) × (read_fields (length fields) cur ≡ some (fields, cur')) × Ahead cur' rest
unfolding read_fields frame
read_fields-frame cur [] rest short h = (cur, refl, h)
read_fields-frame cur (f ∷ fields) rest short h =
    let (got, next) =
      read_bytes-Ahead cur f (frame fields ++ rest) short.0
        (subst (Ahead cur) (append_assoc (field f) (frame fields) rest) h) in
    let (cur', run, end) =
      read_fields-frame (advanced (advanced cur 4) (length f)) fields rest short.1 next in
    (cur', rw (got, run) refl, end)

-- The whole input is ahead of a fresh cursor.
pub Ahead-start : (bytes : Bytes) → Ahead (record { bytes = bytes; i = 0 }) bytes
Ahead-start bytes = record { here = refl; inside = omega arith }

pub is_done-Ahead : (cur : Cursor) → Ahead cur [] → is_done cur ≡ true
unfolding is_done
is_done-Ahead cur h = (==_iff cur.i (length cur.bytes)).1 (omega (arith, h.inside))

-- Fields that were framed, each shorter than what its `u32` length field can say, are read back as
-- they were.
pub unframe-frame :
    (fields : List Bytes) → All Short fields → unframe (frame fields) (length fields) ≡ some fields
unfolding unframe
unframe-frame fields short =
    let start : Cursor = record { bytes = frame fields; i = 0 } in
    let (cur', run, end) =
      read_fields-frame start fields [] short
        (subst (Ahead start) (sym (append-nil (frame fields))) (Ahead-start (frame fields))) in
    rw (run, is_done-Ahead cur' end) refl
