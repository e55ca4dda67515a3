-- ===== src/Relay/Server.antt =====
-- The request handlers of relay/src/server.rs. A handler is a function of the store, the time and
-- the request to the store and the response; base64, JSON and bincode are parameters. Writing a
-- response may fail, which the code prints and forgets, and JSON of the two response types never
-- fails.
pub mod Serve
pub mod Requests
pub mod Bounds
use pigeonhole_clarity_messe.Prelude.{
  ℕ, ◌+◌, ◌*◌, ◌-◌, ◌==◌, ◌&&◌, ◌||◌, Bool, true, false, Option, none, some, zero, suc, List, [],
  ◌∷◌, ◌++◌, map, take, leb, ltb, ite, if◌then◌else◌,
}
use pigeonhole_clarity_messe.Prelude.Bytes.{Bytes, Bytes_discrete, ascii}
use pigeonhole_clarity_messe.Prelude.Result.{Result, ok, err, map_err, ◌>>=◌}
use pigeonhole_clarity_messe.Core.Error
use pigeonhole_clarity_messe.Core.Wire.{PreKeyBundle}
use pigeonhole_clarity_messe.Core.Bincode.{Bincode}
use pigeonhole_clarity_messe.Core.Encoding.{encode_bundle, decode_bundle}
use pigeonhole_clarity_messe.Relay.Protocol.{
  OneTimePrekey, PublishRequest, BundleResponse, SendRequest, PollResponse, Base64, Json, b64,
  unb64, unb64_key,
}
use pigeonhole_clarity_messe.Relay.Query.{split_once, or_empty, query_param}
use pigeonhole_clarity_messe.Relay.Store.Defs.{StoreError, message_too_large}
use pigeonhole_clarity_messe.Relay.Store.Persistence as Store
use pigeonhole_clarity_messe.Relay.Store.Persistence.{RelayStore}

abbrev pub max_body_bytes : ℕ
max_body_bytes = 4 * 1024 * 1024

pub data Method : Type 0 where
  method_get method_post other_method : Method

-- A request of tiny_http: what the handlers read of it.
pub record Request : Type 0 where
  pub method : Method
  pub url : Bytes
  pub body : Bytes

pub record Response : Type 0 where
  pub status : ℕ
  pub content_type : Option Bytes
  pub body : Bytes

pub record RequestError : Type 0 where
  pub status : ℕ
  pub message : Bytes

unfoldable pub bad : Bytes → RequestError
bad message = record { status = 400; message = message }

unfoldable pub respond_text : ℕ → Bytes → Response
respond_text status text = record { status = status; content_type = none; body = text }

unfoldable pub respond_error : RequestError → Response
unfolding respond_text
respond_error e = respond_text e.status e.message

-- What the first byte of a UTF-8 character asks for: how many bytes follow, and the bounds of the
-- next one.
abbrev pub utf8_lead : ℕ → Option (ℕ × ℕ × ℕ)
utf8_lead c =
    if ltb c 0x80
    then some (0, 0x80, 0xBF)
    else if leb 0xC2 c && leb c 0xDF
    then some (1, 0x80, 0xBF)
    else if c == 0xE0
    then some (2, 0xA0, 0xBF)
    else if c == 0xED
    then some (2, 0x80, 0x9F)
    else if leb 0xE1 c && leb c 0xEF
    then some (2, 0x80, 0xBF)
    else if c == 0xF0
    then some (3, 0x90, 0xBF)
    else if leb 0xF1 c && leb c 0xF3
    then some (3, 0x80, 0xBF)
    else if c == 0xF4
    then some (3, 0x80, 0x8F)
    else none

abbrev pub utf8_next : ℕ → ℕ → ℕ → ℕ → Option (ℕ × ℕ × ℕ)
utf8_next zero low high c = utf8_lead c
utf8_next (suc pending) low high c =
    if leb low c && leb c high then some (pending, 0x80, 0xBF) else none

abbrev pub utf8_rest : (ℕ × ℕ × ℕ → Bool) → Option (ℕ × ℕ × ℕ) → Bool
utf8_rest rest none = false
utf8_rest rest (some state) = rest state

-- The check of `read_to_string`, with what the character under way still asks for.
unfoldable pub is_utf8_from : Bytes → ℕ × ℕ × ℕ → Bool
is_utf8_from [] state = state.0 == 0
is_utf8_from (c ∷ s) state = utf8_rest (is_utf8_from s) (utf8_next state.0 state.1 state.2 c)

unfoldable pub is_utf8 : Bytes → Bool
unfolding is_utf8_from
is_utf8 s = is_utf8_from s (0, 0x80, 0xBF)

-- `read_json`: the body is cut at the limit, and every failure is a bad request.
unfoldable pub read_json : {T : Type 0} → Json T → Request → Result RequestError T
unfolding is_utf8 bad
read_json json request =
    let body = take max_body_bytes request.body in
    if is_utf8 body
    then map_err bad (json.from_str body)
    else err (bad (ascii "stream did not contain valid UTF-8"))

unfoldable pub respond_json : {T : Type 0} → Json T → ℕ → T → Response
respond_json json status body = record {
  status = status;
  content_type = some (ascii "application/json");
  body = json.to_string body;
}

unfoldable pub store_error : StoreError → RequestError
store_error message_too_large = record { status = 413; message = ascii "message too large" }

-- The libraries at the types that the server uses.
pub record Formats : Type 0 where
  pub base64 : Base64
  pub publish_json : Json PublishRequest
  pub bundle_json : Json BundleResponse
  pub send_json : Json SendRequest
  pub poll_json : Json PollResponse
  pub bundle_format : Bincode PreKeyBundle

module _ (f : Formats) where
  -- The loop over `req.one_time`.
  unfoldable pub read_one_time : List OneTimePrekey → Result RequestError (List (ℕ × Bytes))
  unfolding unb64_key bad
  read_one_time [] = ok []
  read_one_time (otp ∷ otps) = do
    key ← map_err bad (unb64_key f.base64 otp.public)
    rest ← read_one_time otps
    ok ((otp.id, key) ∷ rest)

  unfoldable pub handle_publish : RelayStore → Request → Result RequestError RelayStore
  unfolding read_json unb64 decode_bundle read_one_time bad Error.to_string Store.publish
  handle_publish store request = do
    req ← read_json f.publish_json request
    bundle_bytes ← map_err bad (unb64 f.base64 req.bundle)
    bundle ← map_err (λ e. bad (Error.to_string e)) (decode_bundle f.bundle_format bundle_bytes)
    one_time ← read_one_time req.one_time
    ok (Store.publish store bundle one_time)

  -- `query_param(…).and_then(|s| unb64_key(&s).ok())`.
  unfoldable pub key_of : Option Bytes → Option Bytes
  unfolding unb64_key
  key_of none = none
  key_of (some s) = elim (unb64_key f.base64 s) [ ok key ↦ some key | err _ ↦ none ]

  unfoldable pub respond_bundle : RelayStore × Option PreKeyBundle → RelayStore × Response
  unfolding respond_json respond_text b64 encode_bundle
  respond_bundle (store, some bundle) = (
    store,
    respond_json f.bundle_json 200
        (record { bundle = b64 f.base64 (encode_bundle f.bundle_format bundle) }),
  )
  respond_bundle (store, none) = (store, respond_text 404 (ascii "unknown identity"))

  unfoldable pub bundle_for : RelayStore → Option Bytes → RelayStore × Response
  unfolding respond_bundle respond_text Store.fetch_bundle
  bundle_for store none = (store, respond_text 400 (ascii "missing identity"))
  bundle_for store (some identity) = respond_bundle (Store.fetch_bundle store identity)

  unfoldable pub handle_bundle : RelayStore → Bytes → RelayStore × Response
  unfolding query_param key_of bundle_for
  handle_bundle store query = bundle_for store (key_of (query_param query (ascii "identity")))

  unfoldable pub handle_send : RelayStore → ℕ → Request → Result RequestError RelayStore
  unfolding read_json unb64_key unb64 bad store_error Store.enqueue
  handle_send store now request = do
    req ← read_json f.send_json request
    recipient ← map_err bad (unb64_key f.base64 req.recipient)
    message ← map_err bad (unb64 f.base64 req.message)
    map_err store_error (Store.enqueue store recipient message now)

  unfoldable pub mail_for : RelayStore → ℕ → Option Bytes → RelayStore × Response
  unfolding respond_json respond_text b64 Store.poll
  mail_for store now none = (store, respond_text 400 (ascii "missing recipient"))
  mail_for store now (some recipient) =
      let (after, messages) = Store.poll store recipient now in
      (after, respond_json f.poll_json 200 (record { messages = map (b64 f.base64) messages }))

  unfoldable pub handle_poll : RelayStore → ℕ → Bytes → RelayStore × Response
  unfolding query_param key_of mail_for
  handle_poll store now query = mail_for store now (key_of (query_param query (ascii "recipient")))

  -- The `match` on the result of `handle_publish` or `handle_send`.
  unfoldable pub answer : RelayStore → Result RequestError RelayStore → RelayStore × Response
  unfolding respond_text respond_error
  answer store (ok after) = (after, respond_text 200 (ascii "ok"))
  answer store (err e) = (store, respond_error e)

  unfoldable pub is_path : Bytes → Bytes → Bool
  unfolding Bytes_discrete
  is_path path expected = ite (Bytes_discrete path expected) true false

  unfoldable pub route : RelayStore → ℕ → Request → Method → Bytes → Bytes → RelayStore × Response
  unfolding is_path answer handle_publish handle_bundle handle_send handle_poll respond_text
  route store now request method_get path query =
      if is_path path (ascii "/health")
      then (store, respond_text 200 (ascii "ok"))
      else if is_path path (ascii "/bundle")
      then handle_bundle store query
      else if is_path path (ascii "/poll")
      then handle_poll store now query
      else (store, respond_text 404 (ascii "not found"))
  route store now request method_post path query =
      if is_path path (ascii "/publish")
      then answer store (handle_publish store request)
      else if is_path path (ascii "/send")
      then answer store (handle_send store now request)
      else (store, respond_text 404 (ascii "not found"))
  route store now request other_method path query = (store, respond_text 404 (ascii "not found"))

  unfoldable pub handle : RelayStore → ℕ → Request → RelayStore × Response
  unfolding split_once route
  handle store now request =
      let parts = split_once 63 request.url in
      route store now request request.method parts.0 (or_empty parts.1)
