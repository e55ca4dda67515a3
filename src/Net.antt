-- ===== src/Net.antt =====
-- `RelayTransport` of net/src/lib.rs. ureq is a parameter: an agent, a function of the state of the
-- world outside the client, and the text of its errors. JSON, base64 and bincode are those of the
-- relay's formats. A proxy decides how the agent reaches the relay and leaves no other trace.
pub mod Wire
pub mod Refinement
pub mod Samples
mod Tests
use pigeonhole_clarity_messe.Prelude.{
  ℕ, ◌==◌, ◌&&◌, Bool, true, false, Option, none, some, zero, suc, List, [], ◌∷◌, ◌++◌, map,
  if◌then◌else◌,
}
use pigeonhole_clarity_messe.Prelude.Bytes.{Bytes, ascii}
use pigeonhole_clarity_messe.Prelude.Result.{Result, ok, err, map_err, ◌>>=◌}
use pigeonhole_clarity_messe.Core.Error
use pigeonhole_clarity_messe.Core.Wire.{PreKeyBundle}
use pigeonhole_clarity_messe.Core.Encoding.{encode_bundle, decode_bundle}
use pigeonhole_clarity_messe.Relay.Protocol.{OneTimePrekey}
use pigeonhole_clarity_messe.Relay.Server.{Formats, Response}

pub data NetError : Type 0 where
  config http decode json io : Bytes → NetError

unfoldable pub to_string : NetError → Bytes
to_string (config m) = ascii "transport config error: " ++ m
to_string (http m) = ascii "relay request failed: " ++ m
to_string (decode m) = ascii "response decode error: " ++ m
to_string (json m) = ascii "json error: " ++ m
to_string (io m) = ascii "io error: " ++ m

-- `TransportError` of core/src/transport.rs, and its `Display`.
pub record TransportError : Type 0 where
  pub reason : Bytes

unfoldable pub transport_error_text : TransportError → Bytes
transport_error_text e = ascii "transport error: " ++ e.reason

-- A request of ureq: a `GET` with one query parameter, or a `POST` with a JSON body.
pub data ClientRequest : Type 0 where
  get_query : Bytes → Bytes → Bytes → ClientRequest
  post_json : Bytes → Bytes → ClientRequest

-- The errors of ureq: an answer with a status from 400 on, or no answer.
pub data UreqError : Type 0 where
  status : ℕ → Response → UreqError
  transport : Bytes → UreqError

abbrev pub is_empty : Bytes → Bool
is_empty [] = true
is_empty (c ∷ s) = false

-- `trim_end_matches('/')`.
unfoldable pub trim_end_slashes : Bytes → Bytes
trim_end_slashes [] = []
trim_end_slashes (c ∷ s) =
    let rest = trim_end_slashes s in if c == 47 && is_empty rest then [] else c ∷ rest

pub record RelayTransport (S : Type 0) : Type 0 where
  pub base_url : Bytes
  pub agent : S → ClientRequest → S × Result UreqError Response

unfoldable pub direct :
    {S : Type 0} → Bytes → (S → ClientRequest → S × Result UreqError Response) → RelayTransport S
direct base_url agent = record { base_url = base_url; agent = agent }

-- `proxied` is the agent behind a proxy, whose address may be refused.
unfoldable pub over_tor :
    {S : Type 0}
    → (Bytes → Result Bytes (S → ClientRequest → S × Result UreqError Response))
    → Bytes
    → Bytes
    → Result NetError (RelayTransport S)
over_tor proxied base_url socks_addr = do
  agent ← map_err config (proxied (ascii "socks5://" ++ socks_addr))
  ok (record { base_url = base_url; agent = agent })

unfoldable pub url : {S : Type 0} → RelayTransport S → Bytes → Bytes
unfolding trim_end_slashes
url self path = trim_end_slashes self.base_url ++ path

module _ (f : Formats) (display : UreqError → Bytes) where
  unfoldable pub boxed : UreqError → NetError
  boxed e = http (display e)

  unfoldable pub unb64 : Bytes → Result NetError Bytes
  unb64 s = map_err decode (f.base64.decode s)

  -- `.map_err(boxed)?; Ok(())`.
  abbrev pub discard : {S : Type 0} → S × Result UreqError Response → S × Result NetError (Unit {0})
  unfolding boxed
  discard (s, ok _) = (s, ok tt)
  discard (s, err e) = (s, err (boxed e))

  unfoldable pub publish :
      {S : Type 0}
      → RelayTransport S
      → S
      → PreKeyBundle
      → List (ℕ × Bytes)
      → S × Result NetError (Unit {0})
  unfolding url discard encode_bundle
  publish self s base_bundle one_time = discard (
      self.agent s (
        post_json (url self (ascii "/publish")) (
          f.publish_json.to_string (record {
            bundle = f.base64.encode (encode_bundle f.bundle_format base_bundle);
            one_time = map (λ e. record { id = e.0; public = f.base64.encode e.1 }) one_time;
          }))))

  abbrev pub read_bundle : Response → Result NetError (Option PreKeyBundle)
  unfolding unb64 decode_bundle Error.to_string
  read_bundle resp = do
    body ← map_err io (f.bundle_json.from_str resp.body)
    bytes ← unb64 body.bundle
    bundle ← map_err (λ e. decode (Error.to_string e)) (decode_bundle f.bundle_format bytes)
    ok (some bundle)

  -- The `match result` of `fetch_bundle`.
  abbrev pub fetched :
      {S : Type 0} → S × Result UreqError Response → S × Result NetError (Option PreKeyBundle)
  unfolding read_bundle boxed
  fetched (s, ok resp) = (s, read_bundle resp)
  fetched (s, err (status code resp)) =
      (s, if code == 404 then ok none else err (boxed (status code resp)))
  fetched (s, err (transport m)) = (s, err (boxed (transport m)))

  unfoldable pub fetch_bundle :
      {S : Type 0} → RelayTransport S → S → Bytes → S × Result NetError (Option PreKeyBundle)
  unfolding url fetched
  fetch_bundle self s identity = fetched (
      self.agent s
        (get_query (url self (ascii "/bundle")) (ascii "identity") (f.base64.encode identity)))

  unfoldable pub send :
      {S : Type 0} → RelayTransport S → S → Bytes → Bytes → S × Result NetError (Unit {0})
  unfolding url discard
  send self s recipient message = discard (
      self.agent s (
        post_json (url self (ascii "/send")) (
          f.send_json.to_string
            (record { recipient = f.base64.encode recipient; message = f.base64.encode message }))))

  -- `iter().map(unb64).collect()`: the first failure, or all.
  unfoldable pub unb64_all : List Bytes → Result NetError (List Bytes)
  unfolding unb64
  unb64_all [] = ok []
  unb64_all (m ∷ ms) = do first ← unb64 m; rest ← unb64_all ms; ok (first ∷ rest)

  abbrev pub read_mail : Response → Result NetError (List Bytes)
  unfolding unb64_all
  read_mail resp = do body ← map_err io (f.poll_json.from_str resp.body); unb64_all body.messages

  abbrev pub polled :
      {S : Type 0} → S × Result UreqError Response → S × Result NetError (List Bytes)
  unfolding read_mail boxed
  polled (s, ok resp) = (s, read_mail resp)
  polled (s, err e) = (s, err (boxed e))

  unfoldable pub poll :
      {S : Type 0} → RelayTransport S → S → Bytes → S × Result NetError (List Bytes)
  unfolding url polled
  poll self s recipient = polled (
      self.agent s
        (get_query (url self (ascii "/poll")) (ascii "recipient") (f.base64.encode recipient)))

  abbrev pub transport_error : NetError → TransportError
  unfolding to_string
  transport_error e = record { reason = to_string e }

  -- The two methods of `MessageTransport`.
  unfoldable pub transport_send :
      {S : Type 0} → RelayTransport S → S → Bytes → Bytes → S × Result TransportError (Unit {0})
  unfolding send transport_error
  transport_send self s recipient payload =
      let w = send self s recipient payload in (w.0, map_err transport_error w.1)

  unfoldable pub transport_receive :
      {S : Type 0} → RelayTransport S → S → Bytes → S × Result TransportError (List Bytes)
  unfolding poll transport_error
  transport_receive self s me = let w = poll self s me in (w.0, map_err transport_error w.1)
