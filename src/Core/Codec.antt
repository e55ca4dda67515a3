-- ===== src/Core/Codec.antt =====
-- A concrete serialization for the tests, with lengths and tags written as numbers, that has what
-- bincode documents.
use pigeonhole_clarity_messe.Prelude.{
  ℕ, zero, suc, ◌≡◌, refl, ap, sym, ◌∙◌, Option, none, some, List, [], ◌∷◌, ◌++◌, length,
  append-nil, append_assoc,
}
use pigeonhole_clarity_messe.Prelude.Bytes.{Bytes}
use pigeonhole_clarity_messe.Prelude.Result.{Result, ok, err}
use pigeonhole_clarity_messe.Core.Bincode.{Bincode, IsBincode}

-- Reading gives the value and what follows it.
pub record Codec (T : Type 0) : Type 0 where
  pub write : T → Bytes
  pub read : Bytes → Option (T × Bytes)
  pub law : (value : T) (rest : Bytes) → read (write value ++ rest) ≡ some (value, rest)

abbrev pub read_number : Bytes → Option (ℕ × Bytes)
read_number [] = none
read_number (x ∷ rest) = some (x, rest)

abbrev pub number : Codec ℕ
number = record { write = λ n. n ∷ []; read = read_number; law = λ n rest. refl }

abbrev pub then_read : {S T : Type 0} → Option (S × Bytes) → (S → Bytes → Option T) → Option T
then_read none next = none
then_read (some (value, rest)) next = next value rest

module _ {S T : Type 0} (a : Codec S) (b : Codec T) where
  abbrev pub read_pair : Bytes → Option ((S × T) × Bytes)
  read_pair bytes =
      then_read (a.read bytes) λ x rest. then_read (b.read rest) λ y rest. some ((x, y), rest)

  read_pair-law :
      (x : S) (y : T) (rest : Bytes)
      → read_pair ((a.write x ++ b.write y) ++ rest) ≡ some ((x, y), rest)
  read_pair-law x y rest =
      ap read_pair (append_assoc (a.write x) (b.write y) rest)
      ∙ rw (a.law x (b.write y ++ rest), b.law y rest) refl

  unfoldable pub pair : Codec (S × T)
  unfolding read_pair-law
  pair = record {
    write = λ p. a.write p.0 ++ b.write p.1;
    read = read_pair;
    law = λ p rest. read_pair-law p.0 p.1 rest;
  }

module _ {S T : Type 0} (a : Codec S) (to : T → S) (from : S → T) where
  abbrev pub read_as : Bytes → Option (T × Bytes)
  read_as bytes = then_read (a.read bytes) λ x rest. some (from x, rest)

  read_as-law :
      ((y : T) → from (to y) ≡ y)
      → (y : T) (rest : Bytes) → read_as (a.write (to y) ++ rest) ≡ some (y, rest)
  read_as-law back y rest = rw (a.law (to y) rest, back y) refl

  unfoldable pub via : ((y : T) → from (to y) ≡ y) → Codec T
  unfolding read_as-law
  via back = record { write = λ y. a.write (to y); read = read_as; law = read_as-law back }

module _ {T : Type 0} (a : Codec T) where
  abbrev pub write_items : List T → Bytes
  write_items [] = []
  write_items (x ∷ xs) = a.write x ++ write_items xs

  abbrev pub read_items : ℕ → Bytes → Option (List T × Bytes)
  read_items zero bytes = some ([], bytes)
  read_items (suc n) bytes =
      then_read (a.read bytes)
        λ x rest. then_read (read_items n rest) λ xs rest. some (x ∷ xs, rest)

  abbrev pub read_list : Bytes → Option (List T × Bytes)
  read_list [] = none
  read_list (n ∷ bytes) = read_items n bytes

  read_items-law :
      (xs : List T) (rest : Bytes)
      → read_items (length xs) (write_items xs ++ rest) ≡ some (xs, rest)
  read_items-law [] rest = refl
  read_items-law (x ∷ xs) rest =
      ap (read_items (suc (length xs))) (append_assoc (a.write x) (write_items xs) rest)
      ∙ rw (a.law x (write_items xs ++ rest), read_items-law xs rest) refl

  unfoldable pub list : Codec (List T)
  unfolding read_items-law
  list = record { write = λ xs. length xs ∷ write_items xs; read = read_list; law = read_items-law }

  abbrev pub write_option : Option T → Bytes
  write_option none = 0 ∷ []
  write_option (some x) = 1 ∷ a.write x

  abbrev pub read_option : Bytes → Option (Option T × Bytes)
  read_option [] = none
  read_option (zero ∷ rest) = some (none, rest)
  read_option (suc _ ∷ bytes) = then_read (a.read bytes) λ x rest. some (some x, rest)

  read_option-law :
      (o : Option T) (rest : Bytes) → read_option (write_option o ++ rest) ≡ some (o, rest)
  read_option-law none rest = refl
  read_option-law (some x) rest = rw (a.law x rest) refl

  unfoldable pub option : Codec (Option T)
  unfolding read_option-law
  option = record { write = write_option; read = read_option; law = read_option-law }

  abbrev pub deserialize_of : Option (T × Bytes) → Result Bytes T
  deserialize_of none = err []
  deserialize_of (some (value, rest)) = ok value

  unfoldable pub bincode : Bincode T
  bincode = record { serialize = a.write; deserialize = λ bytes. deserialize_of (a.read bytes) }

  pub bincode-IsBincode : IsBincode bincode
  unfolding bincode
  bincode-IsBincode value =
      ap (λ (b : Bytes). deserialize_of (a.read b)) (sym (append-nil (a.write value)))
      ∙ rw (a.law value []) refl

unfoldable pub bytes : Codec Bytes
unfolding list
bytes = list number
