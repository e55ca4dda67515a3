-- ===== src/Ffi/Relays.antt =====
-- ffi/src/transport_ffi.rs: the relay client of net through the C interface. The state is that of
-- the world outside the client, as in the client itself.
use pigeonhole_clarity_messe.Prelude.{
  ℕ, ◌%◌, ◌^◌, ◌==◌, ◌<◌, ◌≡◌, ap, ◌∙◌, Option, none, some, List, [], ◌∷◌, length, All, Bool, take,
  take-all, arith, if◌then◌else◌,
}
use pigeonhole_clarity_messe.Prelude.Bytes.{Bytes}
use pigeonhole_clarity_messe.Prelude.Result.{Result, ok, err}
use pigeonhole_clarity_messe.Core.Error.{Error}
use pigeonhole_clarity_messe.Core.Wire.{PreKeyBundle}
use pigeonhole_clarity_messe.Core.Crypto.{Crypto}
use pigeonhole_clarity_messe.Core.Encoding.{encode_bundle, decode_bundle}
use pigeonhole_clarity_messe.Core.Identity.{Account, bundle, one_time_prekey_publics}
use pigeonhole_clarity_messe.Core.Enclave.{without_one_time}
use pigeonhole_clarity_messe.Relay.Query.Form.{IsForm}
use pigeonhole_clarity_messe.Relay.Store.Persistence as Store
use pigeonhole_clarity_messe.Relay.Store.Persistence.{RelayStore}
use pigeonhole_clarity_messe.Relay.Server.{Response, Formats}
use pigeonhole_clarity_messe.Net
use pigeonhole_clarity_messe.Net.{
  RelayTransport, NetError, UreqError, ClientRequest, direct, over_tor,
}
use pigeonhole_clarity_messe.Net.Wire.{IsFormats, Reaches}
use pigeonhole_clarity_messe.Net.Wire.Get.{poll-handle}
use pigeonhole_clarity_messe.Ffi.Buffer.{
  ClarityBuffer, Code, done, failed, from_vec, null, as_slice, read_key, encode_byte_list,
  decode_byte_list, decode_byte_list-encode_byte_list,
}

-- A C string that is there and is UTF-8; `is_utf8` is the check of `CStr::to_str`.
unfoldable pub cstr : (Bytes → Bool) → Option Bytes → Option Bytes
cstr is_utf8 none = none
cstr is_utf8 (some s) = if is_utf8 s then some s else none

module _ {S : Type 0} where
  unfoldable pub clarity_relay_transport_direct :
      (Bytes → Bool)
      → (S → ClientRequest → S × Result UreqError Response)
      → Option Bytes
      → Option (RelayTransport S)
  unfolding cstr direct
  clarity_relay_transport_direct is_utf8 agent url = elim (cstr is_utf8 url) [
    | some u ↦ some (direct u agent)
    | none ↦ none
  ]

  abbrev pub tor_to :
      (Bytes → Result Bytes (S → ClientRequest → S × Result UreqError Response))
      → Option Bytes
      → Option Bytes
      → Option (RelayTransport S)
  unfolding over_tor
  tor_to proxied (some u) (some s) = elim (over_tor proxied u s) [ ok t ↦ some t | err _ ↦ none ]
  tor_to proxied (some u) none = none
  tor_to proxied none s = none

  unfoldable pub clarity_relay_transport_tor :
      (Bytes → Bool)
      → (Bytes → Result Bytes (S → ClientRequest → S × Result UreqError Response))
      → Option Bytes
      → Option Bytes
      → Option (RelayTransport S)
  unfolding cstr tor_to
  clarity_relay_transport_tor is_utf8 proxied url socks_addr =
      tor_to proxied (cstr is_utf8 url) (cstr is_utf8 socks_addr)

-- `?` and the early returns on a missing value.
infixl 5 ◌>>=◌
abbrev pub ◌>>=◌ : {A B : Type 0} → Option A → (A → Option B) → Option B
none >>= next = none
some value >>= next = next value

abbrev pub code_of : {S : Type 0} → S × Result NetError (Unit {0}) → S × Code
code_of (s, ok _) = (s, done)
code_of (s, err e) = (s, failed)

-- An entry of the JSON array of prekeys: what `get("id")` and `get("public")` find in it.
pub record JsonEntry : Type 0 where
  pub id : Option ℕ
  pub public : Option Bytes

module _ (f : Formats) (display : UreqError → Bytes) where
  unfoldable pub clarity_relay_publish_account :
      {S : Type 0} → Crypto → Option (RelayTransport S) → S → Option Account → S × Code
  unfolding Net.publish bundle one_time_prekey_publics
  clarity_relay_publish_account c (some t) s (some account) = code_of (
      Net.publish f display t s (without_one_time (bundle c account))
        (one_time_prekey_publics c account))
  clarity_relay_publish_account c (some t) s none = (s, failed)
  clarity_relay_publish_account c none s account = (s, failed)

  abbrev pub key_in : Result Bytes Bytes → Option Bytes
  key_in (ok bytes) = if length bytes == 32 then some bytes else none
  key_in (err e) = none

  abbrev pub read_entry : JsonEntry → Option (ℕ × Bytes)
  read_entry entry = do
    id ← entry.id
    public ← entry.public
    key ← key_in (f.base64.decode public)
    some (id % 2 ^ 32, key)

  -- The loop over the parsed entries.
  unfoldable pub read_entries : List JsonEntry → Option (List (ℕ × Bytes))
  read_entries [] = some []
  read_entries (entry ∷ entries) = do
    first ← read_entry entry
    rest ← read_entries entries
    some (first ∷ rest)

  abbrev pub publish_parsed :
      {S : Type 0}
      → RelayTransport S
      → S
      → Result Error PreKeyBundle
      → Option (List (ℕ × Bytes))
      → S × Code
  unfolding Net.publish
  publish_parsed t s (ok bundle) (some one_time) =
      code_of (Net.publish f display t s bundle one_time)
  publish_parsed t s (ok bundle) none = (s, failed)
  publish_parsed t s (err e) one_time = (s, failed)

  -- `parse` is serde_json at an array of values.
  unfoldable pub clarity_relay_publish :
      {S : Type 0}
      → (Bytes → Option (List JsonEntry))
      → Option (RelayTransport S)
      → S
      → Option Bytes
      → Option Bytes
      → S × Code
  unfolding decode_bundle read_entries publish_parsed as_slice
  clarity_relay_publish parse none s bundle_region one_time_json = (s, failed)
  clarity_relay_publish parse (some t) s bundle_region one_time_json =
      publish_parsed t s (decode_bundle f.bundle_format (as_slice bundle_region))
        (do parsed ← parse (as_slice one_time_json); read_entries parsed)

  -- A missing bundle is an empty buffer, which is not null.
  abbrev pub give_bundle :
      {S : Type 0} → S × Result NetError (Option PreKeyBundle) → S × ClarityBuffer
  unfolding encode_bundle from_vec null
  give_bundle (s, ok (some bundle)) = (s, from_vec (encode_bundle f.bundle_format bundle))
  give_bundle (s, ok none) = (s, from_vec [])
  give_bundle (s, err e) = (s, null)

  abbrev pub fetch_at : {S : Type 0} → RelayTransport S → S → Option Bytes → S × ClarityBuffer
  unfolding Net.fetch_bundle give_bundle null
  fetch_at t s (some id) = give_bundle (Net.fetch_bundle f display t s id)
  fetch_at t s none = (s, null)

  unfoldable pub clarity_relay_fetch_bundle :
      {S : Type 0} → Option (RelayTransport S) → S → Option Bytes → S × ClarityBuffer
  unfolding fetch_at read_key null
  clarity_relay_fetch_bundle none s identity = (s, null)
  clarity_relay_fetch_bundle (some t) s identity = fetch_at t s (read_key identity)

  abbrev pub send_to : {S : Type 0} → RelayTransport S → S → Option Bytes → Bytes → S × Code
  unfolding Net.send
  send_to t s (some recipient) msg = code_of (Net.send f display t s recipient msg)
  send_to t s none msg = (s, failed)

  unfoldable pub clarity_relay_send :
      {S : Type 0} → Option (RelayTransport S) → S → Option Bytes → Option Bytes → S × Code
  unfolding send_to read_key as_slice
  clarity_relay_send none s recipient msg = (s, failed)
  clarity_relay_send (some t) s recipient msg = send_to t s (read_key recipient) (as_slice msg)

  abbrev pub give_messages : {S : Type 0} → S × Result NetError (List Bytes) → S × ClarityBuffer
  unfolding encode_byte_list from_vec null
  give_messages (s, ok messages) = (s, from_vec (encode_byte_list messages))
  give_messages (s, err e) = (s, null)

  abbrev pub poll_at : {S : Type 0} → RelayTransport S → S → Option Bytes → S × ClarityBuffer
  unfolding Net.poll give_messages null
  poll_at t s (some recipient) = give_messages (Net.poll f display t s recipient)
  poll_at t s none = (s, null)

  unfoldable pub clarity_relay_poll :
      {S : Type 0} → Option (RelayTransport S) → S → Option Bytes → S × ClarityBuffer
  unfolding poll_at read_key null
  clarity_relay_poll none s recipient = (s, null)
  clarity_relay_poll (some t) s recipient = poll_at t s (read_key recipient)

  -- From the store to the application: what the application reads from the buffer of a poll over
  -- HTTP is the mail that the relay's store hands out, whole and in order, if the agent reaches the
  -- relay, the recipient has 32 bytes, and the lengths fit the `u32` fields of the buffer.
  pub decode_byte_list-clarity_relay_poll :
      (now : ℕ) (form : ℕ → Bytes)
      → IsFormats f
      → IsForm form
      → (t : RelayTransport RelayStore) → Reaches f now form t
      → (st : RelayStore) (recipient : Bytes) → length recipient ≡ 32
      → length (Store.poll st recipient now).1 < 2 ^ 32
      → All (λ (m : Bytes). length m < 2 ^ 32) (Store.poll st recipient now).1
      → (buffer : Bytes) × (clarity_relay_poll (some t) st (some recipient)
          ≡ ((Store.poll st recipient now).0, some buffer))
        × (decode_byte_list buffer ≡ some (Store.poll st recipient now).1)
  unfolding clarity_relay_poll read_key poll_at give_messages from_vec
  decode_byte_list-clarity_relay_poll now form laws form_laws t reaches st recipient h count sizes =
      let messages = (Store.poll st recipient now).1 in
      let key : take 32 recipient ≡ recipient = take-all 32 recipient (omega arith) in
      (
        encode_byte_list messages,
        ap (λ (r : Bytes). give_messages (Net.poll f display t st r)) key
            ∙ ap give_messages
                (poll-handle f now form laws form_laws display t reaches st recipient h),
        decode_byte_list-encode_byte_list messages count sizes,
      )
