-- ===== src/Ffi/Buffer.antt =====
-- The buffers and pointers of ffi/src/lib.rs and ffi/src/transport_ffi.rs. A pointer is what it
-- points to, or nothing when it is null; the allocator and the freeing of handles leave no trace in
-- the values. The reader of lists of buffers is decodeByteList of app/lib/src/ffi/clarity.dart.
use pigeonhole_clarity_messe.Prelude.{
  ℕ, zero, suc, ◌%◌, ◌^◌, ◌<◌, ◌≤◌, ◌≡◌, refl, ap, ◌∙◌, Option, none, some, false, List, [], ◌∷◌,
  ◌++◌, length, take, drop, take-append, drop-append, length-append, ltb, if◌then◌else◌, arith, All,
}
use pigeonhole_clarity_messe.Prelude.Bytes.{Bytes}
use pigeonhole_clarity_messe.Core.Envelope.Defs.{to_le_bytes, from_le_bytes}
use pigeonhole_clarity_messe.Core.Envelope.RoundTrip.{from_le_bytes-to, length-to_le_bytes}

-- A null buffer signals an error; an empty vector has a pointer that is not null.
abbrev pub ClarityBuffer : Type 0
ClarityBuffer = Option Bytes

unfoldable pub from_vec : Bytes → ClarityBuffer
from_vec v = some v

unfoldable pub null : ClarityBuffer
null = none

-- The `i32` results 0 and -1.
pub data Code : Type 0 where
  done failed : Code

unfoldable pub as_slice : Option Bytes → Bytes
as_slice none = []
as_slice (some region) = region

unfoldable pub read_key : Option Bytes → Option Bytes
read_key none = none
read_key (some region) = some (take 32 region)

-- `copy_nonoverlapping(key, out, 32)`.
unfoldable pub write_key : Bytes → Bytes → Bytes
write_key key out = take 32 key ++ drop 32 out

-- The loop over the items, each behind its length.
unfoldable pub encode_items : List Bytes → Bytes
encode_items [] = []
encode_items (item ∷ items) = to_le_bytes (length item % 2 ^ 32) ++ (item ++ encode_items items)

unfoldable pub encode_byte_list : List Bytes → Bytes
unfolding encode_items
encode_byte_list items = to_le_bytes (length items % 2 ^ 32) ++ encode_items items

-- A view past the end throws.
abbrev pub then_decode : Option (List Bytes) → Bytes → Option (List Bytes)
then_decode none item = none
then_decode (some items) item = some (item ∷ items)

-- The rounds of the reader that are left, on what follows the offset.
unfoldable pub decode_items : ℕ → Bytes → Option (List Bytes)
decode_items zero b = some []
decode_items (suc left) b =
    let len = from_le_bytes (take 4 b) in
    let body = drop 4 b in
    let rest = then_decode (decode_items left (drop len body)) (take len body) in
    if ltb (length b) 4 then none else if ltb (length body) len then none else rest

unfoldable pub decode_byte_list : Bytes → Option (List Bytes)
unfolding decode_items
decode_byte_list b =
    if ltb (length b) 4 then some [] else decode_items (from_le_bytes (take 4 b)) (drop 4 b)

module _ (n : ℕ) (rest : Bytes) (fits : n < 2 ^ 32) where
  -- A length that fits its field is read back.
  length_field :
      (from_le_bytes (take 4 (to_le_bytes (n % 2 ^ 32) ++ rest)) ≡ n)
      × (drop 4 (to_le_bytes (n % 2 ^ 32) ++ rest) ≡ rest)
      × (ltb (length (to_le_bytes (n % 2 ^ 32) ++ rest)) 4 ≡ false)
  length_field =
      let field = to_le_bytes (n % 2 ^ 32) in
      let four = length-to_le_bytes (n % 2 ^ 32) in
      let small : n % 2 ^ 32 ≡ n = omega arith in
      let long : 4 ≤ length (field ++ rest) = omega (arith, length-append field rest, four) in
      (
        ap from_le_bytes (take-append 4 field rest four)
            ∙ from_le_bytes-to (n % 2 ^ 32) (omega arith)
            ∙ small,
        drop-append 4 field rest four,
        ground (arith, long),
      )

decode_items-encode_items :
    (items : List Bytes)
    → All (λ (item : Bytes). length item < 2 ^ 32) items
    → decode_items (length items) (encode_items items) ≡ some items
unfolding decode_items encode_items
decode_items-encode_items [] h = refl
decode_items-encode_items (item ∷ items) h =
    let body = item ++ encode_items items in
    let (len, after, long) = length_field (length item) body h.0 in
    let whole : ltb (length body) (length item) ≡ false =
      ground (arith, length-append item (encode_items items)) in
    rw
      (
        len,
        after,
        long,
        whole,
        take-append (length item) item (encode_items items) refl,
        drop-append (length item) item (encode_items items) refl,
        decode_items-encode_items items h.1,
      )
      refl

-- A list of buffers that was encoded is read back, if its length and the lengths of its items fit
-- the `u32` fields.
pub decode_byte_list-encode_byte_list :
    (items : List Bytes)
    → length items < 2 ^ 32
    → All (λ (item : Bytes). length item < 2 ^ 32) items
    → decode_byte_list (encode_byte_list items) ≡ some items
unfolding decode_byte_list encode_byte_list
decode_byte_list-encode_byte_list items fits h =
    let (count, after, long) = length_field (length items) (encode_items items) fits in
    rw (count, after, long) (decode_items-encode_items items h)
