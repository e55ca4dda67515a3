-- ===== src/Group/State.antt =====
-- `export_state` and `import_state` of `GroupClient` (group/src/lib.rs). OpenMLS's signature key
-- pair is the parameter `Signer`, read back from the key store by `read_signer`. The credential is
-- made of the identity and the public key, so it is not kept apart.
use pigeonhole_clarity_messe.Prelude.{
  ℕ, zero, suc, ◌^◌, ◌≤◌, ◌<◌, ◌≡◌, ◌≢◌, refl, sym, ap, subst, ◌∙◌, Option, none, some, List, [],
  ◌∷◌, ◌++◌, append_assoc, append-nil, length, length-append, arith, if◌then◌else◌, if_neg,
}
use pigeonhole_clarity_messe.Prelude.Bytes.{Bytes, Bytes_discrete as dec}
use pigeonhole_clarity_messe.Prelude.HashMap
use pigeonhole_clarity_messe.Prelude.HashMap.{HashMap, Distinct}
use pigeonhole_clarity_messe.Prelude.Result.{Result, ok, err}
use pigeonhole_clarity_messe.Core.Envelope.Defs.{to_le_bytes}
use pigeonhole_clarity_messe.Core.Envelope.RoundTrip.{length-to_le_bytes}
use pigeonhole_clarity_messe.Group.Framing.{
  field, frame, unframe, Cursor, read_u32, read_bytes, is_done, Ahead, advanced, ◌>>=◌,
  read_u32-Ahead, read_bytes-Ahead, Ahead-start, is_done-Ahead, unframe-frame,
}

pub data Error : Type 0 where
  mls codec : Bytes → Error
  state unknown_group : Error

-- The key store's `values`.
abbrev pub Values : Type 0
Values = HashMap Bytes Bytes

unfoldable pub entries : Values → Bytes
unfolding to_le_bytes
entries [] = []
entries ((k, v) ∷ m) = field k ++ (field v ++ entries m)

unfoldable pub store_bytes : Values → Bytes
unfolding to_le_bytes entries
store_bytes values = to_le_bytes (length values) ++ entries values

-- The loop of `import_state`, with the entries that are left to read.
unfoldable pub read_entries : ℕ → Cursor → Values → Option (Values × Cursor)
unfolding read_bytes
read_entries zero cur values = some (values, cur)
read_entries (suc count) cur values = do
  k ← read_bytes cur
  v ← read_bytes k.1
  read_entries count v.1 (HashMap.insert dec values k.0 v.0)

unfoldable pub read_store : Bytes → Option Values
unfolding read_u32 read_entries is_done
read_store bytes = do
  count ← read_u32 (record { bytes = bytes; i = 0 })
  r ← read_entries count.0 count.1 []
  if is_done r.1 then some r.0 else none

insert-append :
    (acc : Values) (k v : Bytes)
    → HashMap.get dec acc k ≡ none
    → HashMap.insert dec acc k v ≡ acc ++ (k, v) ∷ []
unfolding HashMap.get HashMap.insert
insert-append [] k v h = refl
insert-append ((j, w) ∷ acc) k v h = ground (arith, insert-append acc k v)

get-there : (acc : Values) (k v : Bytes) (m : Values) → HashMap.get dec (acc ++ (k, v) ∷ m) k ≢ none
unfolding HashMap.get
get-there [] k v m = ground arith
get-there ((j, w) ∷ acc) k v m = ground (arith, get-there acc k v m)

get-Distinct :
    (acc : Values) (k v : Bytes) (m : Values)
    → Distinct dec (acc ++ (k, v) ∷ m)
    → HashMap.get dec acc k ≡ none
unfolding HashMap.get
get-Distinct [] k v m d = refl
get-Distinct ((j, w) ∷ acc) k v m d = elim (dec j k) [
  | yes p ↦ absurd (
      get-there acc k v m
        (subst (λ (x : Bytes). HashMap.get dec (acc ++ (k, v) ∷ m) x ≡ none) p d.0))
  | no p ↦ if_neg (dec j k) p _ _ ∙ get-Distinct acc k v m d.1
]

read_entries-entries :
    (m : Values) (cur : Cursor) (acc : Values)
    → length (entries m) < 2 ^ 32
    → Distinct dec (acc ++ m)
    → Ahead cur (entries m)
    → (cur' : Cursor) × (read_entries (length m) cur acc ≡ some (acc ++ m, cur')) × Ahead cur' []
unfolding read_entries entries
read_entries-entries [] cur acc short d h =
    (cur, ap (λ (x : Values). some (x, cur)) (sym (append-nil acc)), h)
read_entries-entries ((k, v) ∷ m) cur acc short d h =
    let kv = length-append (field k) (field v ++ entries m) in
    let vm = length-append (field v) (entries m) in
    let k_len = length-append (to_le_bytes (length k)) k in
    let v_len = length-append (to_le_bytes (length v)) v in
    let (got_k, next) =
      read_bytes-Ahead cur k (field v ++ entries m) (omega (arith, kv, k_len)) h in
    let (got_v, after) = read_bytes-Ahead _ v (entries m) (omega (arith, kv, vm, v_len)) next in
    let fresh = insert-append acc k v (get-Distinct acc k v m d) in
    let whole : (acc ++ (k, v) ∷ []) ++ m ≡ acc ++ (k, v) ∷ m = append_assoc acc ((k, v) ∷ []) m in
    let (cur', run, end) =
      read_entries-entries m
        (advanced (advanced (advanced (advanced cur 4) (length k)) 4) (length v))
        (acc ++ (k, v) ∷ []) (omega (arith, kv, vm)) (subst (Distinct dec) (sym whole) d) after in
    (cur', rw (got_k, got_v, fresh, run, whole) refl, end)

count-short : (m : Values) → length m ≤ length (entries m)
unfolding entries
count-short [] = omega arith
count-short ((k, v) ∷ m) = omega (
  arith,
  count-short m,
  length-append (field k) (field v ++ entries m),
  length-append (field v) (entries m),
  length-append (to_le_bytes (length k)) k,
  length-to_le_bytes (length k),
)

read_store-store_bytes :
    (m : Values)
    → length (store_bytes m) < 2 ^ 32
    → Distinct dec m
    → read_store (store_bytes m) ≡ some m
unfolding read_store store_bytes
read_store-store_bytes m short d =
    let size = length-append (to_le_bytes (length m)) (entries m) in
    let start : Cursor = record { bytes = to_le_bytes (length m) ++ entries m; i = 0 } in
    let (count, next) =
      read_u32-Ahead start (length m) (entries m) (omega (arith, size, count-short m))
        (Ahead-start (to_le_bytes (length m) ++ entries m)) in
    let (cur', run, end) =
      read_entries-entries m (advanced start 4) [] (omega (arith, size)) d next in
    rw (count, run, is_done-Ahead cur' end) refl

module _ (Signer : Type 0) (public : Signer → Bytes)
    (read_signer : Values → Bytes → Option Signer) where
  pub record GroupClient : Type 0 where
    pub identity : Bytes
    pub signer : Signer
    pub values : Values

  unfoldable pub export_state : GroupClient → Bytes
  unfolding frame store_bytes
  export_state client =
      frame (client.identity ∷ public client.signer ∷ store_bytes client.values ∷ [])

  abbrev pub restore : Bytes → Values → Option Signer → Result Error GroupClient
  restore identity values none = err state
  restore identity values (some signer) =
      ok (record { identity = identity; signer = signer; values = values })

  abbrev pub read_client : Bytes → Bytes → Option Values → Result Error GroupClient
  read_client identity key none = err state
  read_client identity key (some values) = restore identity values (read_signer values key)

  -- `unframe` gives exactly three parts.
  abbrev pub import_parts : Option (List Bytes) → Result Error GroupClient
  unfolding read_store
  import_parts (some (identity ∷ key ∷ bytes ∷ [])) = read_client identity key (read_store bytes)
  import_parts (some parts) = err state
  import_parts none = err state

  unfoldable pub import_state : Bytes → Result Error GroupClient
  unfolding import_parts unframe
  import_state bytes = import_parts (unframe bytes 3)

  -- A client whose signer is in its key store, and whose parts each fit a `u32` length field, comes
  -- back from its exported state as it was, every entry of the key store included.
  pub import_state-export_state :
      (client : GroupClient)
      → read_signer client.values (public client.signer) ≡ some client.signer
      → Distinct dec client.values
      → length client.identity < 2 ^ 32
      → length (public client.signer) < 2 ^ 32
      → length (store_bytes client.values) < 2 ^ 32
      → import_state (export_state client) ≡ ok client
  unfolding import_state export_state import_parts
  import_state-export_state client signed d identity key values =
      ap import_parts (
        unframe-frame (client.identity ∷ public client.signer ∷ store_bytes client.values ∷ [])
          (identity, (key, (values, tt))))
      ∙ ap (read_client client.identity (public client.signer))
          (read_store-store_bytes client.values values d)
      ∙ ap (restore client.identity client.values) signed
