-- ===== src/Net/Wire.antt =====
-- The client of net/src/lib.rs and the server of relay/src/server.rs put together: what the libraries
-- between them document, and what reaches the server.
pub mod Post
pub mod Get
use pigeonhole_clarity_messe.Prelude.{
  ℕ, ◌≤◌, ◌≡◌, ◌≢◌, refl, ap, subst, ◌∙◌, Bool, true, not, ◌&&◌, Option, none, some, List, [], ◌∷◌,
  ◌++◌, map, length, take, take-all, ltb, ==_iff, ◌==◌, if◌then◌else◌, arith, All,
}
use pigeonhole_clarity_messe.Prelude.Bytes.{Bytes, ascii}
use pigeonhole_clarity_messe.Prelude.Result.{Result, ok, err, map_err}
use pigeonhole_clarity_messe.Core.Wire.{PreKeyBundle}
use pigeonhole_clarity_messe.Core.Bincode.{IsBincode}
use pigeonhole_clarity_messe.Core.Encoding.{encode_bundle, decode_bundle-encode_bundle}
use pigeonhole_clarity_messe.Relay.Protocol
use pigeonhole_clarity_messe.Relay.Protocol.{
  OneTimePrekey, PublishRequest, SendRequest, Json, Base64, IsBase64, b64, unb64_key,
}
use pigeonhole_clarity_messe.Relay.Query.{split_once, query_param}
use pigeonhole_clarity_messe.Relay.Query.Form.{IsForm, write_all, query_param-write_all}
use pigeonhole_clarity_messe.Relay.Store.Defs
use pigeonhole_clarity_messe.Relay.Store.Defs.{StoreError}
use pigeonhole_clarity_messe.Relay.Store.Persistence as Store
use pigeonhole_clarity_messe.Relay.Store.Persistence.{RelayStore}
use pigeonhole_clarity_messe.Relay.Server.{
  Request, Response, RequestError, Formats, method_get, method_post, is_utf8, max_body_bytes,
  read_json, respond_text, respond_json, respond_error, store_error, read_one_time, handle_publish,
  handle_send, handle_bundle, handle_poll, key_of, respond_bundle, bundle_for, mail_for, answer,
  is_path, route, handle,
}
use pigeonhole_clarity_messe.Net
use pigeonhole_clarity_messe.Net.{
  NetError, http, RelayTransport, ClientRequest, get_query, post_json, UreqError, status, url,
  boxed, publish, fetch_bundle, send, poll, discard, fetched, polled, unb64_all, read_mail,
  read_bundle,
}

-- What serde_json documents: a value is read back from its text, which is UTF-8.
pub record IsJson {T : Type 0} (json : Json T) : Type 0 where
  pub from_str-to_string : (value : T) → json.from_str (json.to_string value) ≡ ok value
  pub utf8 : (value : T) → is_utf8 (json.to_string value) ≡ true

pub record IsFormats (f : Formats) : Type 0 where
  pub base64 : IsBase64 f.base64
  pub publish_json : IsJson f.publish_json
  pub bundle_json : IsJson f.bundle_json
  pub send_json : IsJson f.send_json
  pub poll_json : IsJson f.poll_json
  pub bundle_format : IsBincode f.bundle_format

-- What ureq documents of an answer: a status from 400 on is an error.
unfoldable pub as_client : RelayStore × Response → RelayStore × Result UreqError Response
as_client (store, r) = (store, if ltb r.status 400 then ok r else err (status r.status r))

-- What `enqueue` gives, as the client sees it.
unfoldable pub refusal :
    Formats
    → (UreqError → Bytes)
    → RelayStore
    → Result StoreError RelayStore
    → RelayStore × Result NetError (Unit {0})
unfolding boxed store_error respond_error
refusal f display st (ok after) = (after, ok tt)
refusal f display st (err e) =
    (st, err (boxed f display (status (store_error e).status (respond_error (store_error e)))))

module _ (f : Formats) (now : ℕ) (form : ℕ → Bytes) where
  -- The agent reaches the relay: each request arrives once, with the path after the base URL, the
  -- query as a form and the body as it was sent, and the answer returns.
  pub record Reaches (t : RelayTransport RelayStore) : Type 0 where
    pub get :
        (st : RelayStore) (path name value : Bytes)
        → t.agent st (get_query (url t path) name value)
          ≡ as_client (
              handle f st now (record {
                method = method_get;
                url = path ++ 63 ∷ (name ++ 61 ∷ write_all form value);
                body = [];
              }))
    pub post :
        (st : RelayStore) (path body : Bytes)
        → t.agent st (post_json (url t path) body)
          ≡ as_client (handle f st now (record { method = method_post; url = path; body = body }))

-- A body that the server reads whole is parsed back.
pub read_json-to_string :
    {T : Type 0} (json : Json T) (value : T) (request : Request)
    → IsJson json
    → request.body ≡ json.to_string value
    → length (json.to_string value) ≤ max_body_bytes
    → read_json json request ≡ ok value
unfolding read_json
read_json-to_string json value request j body fits =
    let whole : take max_body_bytes request.body ≡ json.to_string value =
      ap (take max_body_bytes) body ∙ take-all max_body_bytes (json.to_string value) fits in
    rw (whole, j.utf8 value, j.from_str-to_string value) refl

module _ (f : Formats) (laws : IsFormats f) where
  pub unb64_key-encode :
      (key : Bytes) → length key ≡ 32 → unb64_key f.base64 (f.base64.encode key) ≡ ok key
  unfolding unb64_key Protocol.unb64
  unb64_key-encode key h = rw (laws.base64.decode_encode key, (==_iff (length key) 32).1 h) refl
