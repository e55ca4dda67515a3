-- ===== src/Net/Wire/Get.antt =====
-- What the client of net/src/lib.rs gets, as the server of relay/src/server.rs serves it.
use pigeonhole_clarity_messe.Prelude.{
  ℕ, ◌≡◌, ◌≢◌, refl, ap, ◌∙◌, Bool, true, not, ◌&&◌, Option, none, some, List, [], ◌∷◌, ◌++◌, map,
  length, ◌==◌, arith, All,
}
use pigeonhole_clarity_messe.Prelude.Bytes.{Bytes, ascii}
use pigeonhole_clarity_messe.Prelude.Result.{ok}
use pigeonhole_clarity_messe.Core.Wire.{PreKeyBundle}
use pigeonhole_clarity_messe.Core.Encoding.{encode_bundle, decode_bundle-encode_bundle}
use pigeonhole_clarity_messe.Relay.Protocol.{b64}
use pigeonhole_clarity_messe.Relay.Query.{split_once, query_param}
use pigeonhole_clarity_messe.Relay.Query.Form.{IsForm, write_all, query_param-write_all}
use pigeonhole_clarity_messe.Relay.Store.Persistence as Store
use pigeonhole_clarity_messe.Relay.Store.Persistence.{RelayStore}
use pigeonhole_clarity_messe.Relay.Server.{
  Formats, respond_text, respond_json, handle_bundle, handle_poll, key_of, respond_bundle,
  bundle_for, mail_for, is_path, route, handle,
}
use pigeonhole_clarity_messe.Net
use pigeonhole_clarity_messe.Net.{
  NetError, http, RelayTransport, ClientRequest, get_query, post_json, UreqError, status, url,
  boxed, publish, fetch_bundle, send, poll, discard, fetched, polled, unb64_all, read_mail,
  read_bundle,
}
use pigeonhole_clarity_messe.Net.Wire.{IsFormats, Reaches, as_client, unb64_key-encode}

-- Whether a byte does not occur.
abbrev lacks : ℕ → Bytes → Bool
lacks sep [] = true
lacks sep (c ∷ s) = not (c == sep) && lacks sep s

lacks-Without : (sep : ℕ) (s : Bytes) → lacks sep s ≡ true → All (λ (c : ℕ). c ≢ sep) s
lacks-Without sep [] h = tt
lacks-Without sep (c ∷ s) h = (λ e. ground (arith, h, e), lacks-Without sep s (ground (arith, h)))

module _ (f : Formats) (now : ℕ) (form : ℕ → Bytes) (laws : IsFormats f) (form_laws : IsForm form)
    (display : UreqError → Bytes) (t : RelayTransport RelayStore)
    (reaches : Reaches f now form t) where
  unb64_all-map : (ms : List Bytes) → unb64_all f display (map (b64 f.base64) ms) ≡ ok ms
  unfolding unb64_all Net.unb64 b64
  unb64_all-map [] = refl
  unb64_all-map (m ∷ ms) = rw (laws.base64.decode_encode m, unb64_all-map ms) refl

  key_of-query :
      (name key : Bytes)
      → lacks 38 name ≡ true
      → lacks 61 name ≡ true
      → length key ≡ 32
      → key_of f (query_param (name ++ 61 ∷ write_all form (f.base64.encode key)) name) ≡ some key
  unfolding key_of
  key_of-query name key no_and no_equals h =
      ap (key_of f) (
        query_param-write_all form form_laws name (f.base64.encode key)
          (lacks-Without 38 name no_and) (lacks-Without 61 name no_equals)
          (laws.base64.is_ascii key))
      ∙ (rw (key_of, unb64_key-encode f laws key h) refl)

  polled-messages :
      (st : RelayStore) (ms : List Bytes)
      → polled f display (
          as_client
            (st, respond_json f.poll_json 200 (record { messages = map (b64 f.base64) ms })))
        ≡ (st, ok ms)
  unfolding polled as_client respond_json read_mail
  polled-messages st ms =
      rw
        (
          laws.poll_json.from_str-to_string (record { messages = map (b64 f.base64) ms }),
          unb64_all-map ms,
        )
        refl

  pub poll-handle :
      (st : RelayStore) (recipient : Bytes)
      → length recipient ≡ 32
      → poll f display t st recipient
        ≡ ((Store.poll st recipient now).0, ok (Store.poll st recipient now).1)
  unfolding poll handle route is_path split_once handle_poll mail_for
  poll-handle st recipient h =
      ap (polled f display) (reaches.get st (ascii "/poll") (ascii "recipient") _)
      ∙ ap (λ (k : Option Bytes). polled f display (as_client (mail_for f st now k)))
          (key_of-query (ascii "recipient") recipient refl refl h)
      ∙ polled-messages (Store.poll st recipient now).0 (Store.poll st recipient now).1

  fetched-bundle :
      (w : RelayStore × Option PreKeyBundle)
      → fetched f display (as_client (respond_bundle f w)) ≡ (w.0, ok w.1)
  unfolding fetched as_client respond_bundle respond_json respond_text read_bundle Net.unb64 b64
  fetched-bundle (st, none) = refl
  fetched-bundle (st, some bundle) =
      rw
        (
          laws.bundle_json.from_str-to_string
              (record { bundle = f.base64.encode (encode_bundle f.bundle_format bundle) }),
          laws.base64.decode_encode (encode_bundle f.bundle_format bundle),
          decode_bundle-encode_bundle f.bundle_format laws.bundle_format bundle,
        )
        refl

  pub fetch-handle :
      (st : RelayStore) (identity : Bytes)
      → length identity ≡ 32
      → fetch_bundle f display t st identity
        ≡ ((Store.fetch_bundle st identity).0, ok (Store.fetch_bundle st identity).1)
  unfolding fetch_bundle handle route is_path split_once handle_bundle bundle_for
  fetch-handle st identity h =
      ap (fetched f display) (reaches.get st (ascii "/bundle") (ascii "identity") _)
      ∙ ap (λ (k : Option Bytes). fetched f display (as_client (bundle_for f st k)))
          (key_of-query (ascii "identity") identity refl refl h)
      ∙ fetched-bundle (Store.fetch_bundle st identity)
