-- ===== src/Net/Refinement.antt =====
-- Any sequence of calls of the client of net/src/lib.rs against the relay's server is the same
-- sequence of calls on the store of relay/src/store.rs.
use pigeonhole_clarity_messe.Prelude.{
  ℕ, ◌≤◌, ◌≡◌, refl, ap, ◌∙◌, Option, List, [], ◌∷◌, map, All, length,
}
use pigeonhole_clarity_messe.Prelude.Bytes.{Bytes}
use pigeonhole_clarity_messe.Prelude.Result.{Result, ok}
use pigeonhole_clarity_messe.Core.Wire.{PreKeyBundle}
use pigeonhole_clarity_messe.Core.Encoding.{encode_bundle}
use pigeonhole_clarity_messe.Relay.Query.Form.{IsForm}
use pigeonhole_clarity_messe.Relay.Store.Persistence as Store
use pigeonhole_clarity_messe.Relay.Store.Persistence.{RelayStore}
use pigeonhole_clarity_messe.Relay.Server.{Formats, max_body_bytes}
use pigeonhole_clarity_messe.Net.{
  NetError, RelayTransport, UreqError, publish, fetch_bundle, send, poll,
}
use pigeonhole_clarity_messe.Net.Wire.{IsFormats, Reaches, refusal}
use pigeonhole_clarity_messe.Net.Wire.Post.{publish-handle, send-handle}
use pigeonhole_clarity_messe.Net.Wire.Get.{fetch-handle, poll-handle}

pub data Ask : Type 0 where
  ask_publish : PreKeyBundle → List (ℕ × Bytes) → Ask
  ask_fetch : Bytes → Ask
  ask_send : Bytes → Bytes → Ask
  ask_poll : Bytes → Ask

pub data Told : Type 0 where
  told_done : Result NetError (Unit {0}) → Told
  told_bundle : Result NetError (Option PreKeyBundle) → Told
  told_mail : Result NetError (List Bytes) → Told

-- A call with the unix time at which the relay serves it.
abbrev pub run :
    (ℕ → RelayStore → Ask → RelayStore × Told)
    → RelayStore
    → List (ℕ × Ask)
    → RelayStore × List Told
run step st [] = (st, [])
run step st ((now, ask) ∷ asks) =
    let rest = run step (step now st ask).0 asks in (rest.0, (step now st ask).1 ∷ rest.1)

module _ (f : Formats) (display : UreqError → Bytes) where
  -- `[u8; 32]` keys, and a body that the server reads whole.
  abbrev pub Fitting : ℕ × Ask → Type 0
  Fitting (now, ask_publish bundle pool) =
      All (λ (e : ℕ × Bytes). length e.1 ≡ 32) pool
      × (length (
            f.publish_json.to_string (record {
              bundle = f.base64.encode (encode_bundle f.bundle_format bundle);
              one_time = map (λ e. record { id = e.0; public = f.base64.encode e.1 }) pool;
            }))
          ≤ max_body_bytes)
  Fitting (now, ask_fetch identity) = length identity ≡ 32
  Fitting (now, ask_send recipient message) =
      (length recipient ≡ 32)
      × (length (
            f.send_json.to_string
              (record { recipient = f.base64.encode recipient; message = f.base64.encode message }))
          ≤ max_body_bytes)
  Fitting (now, ask_poll recipient) = length recipient ≡ 32

  -- The client, with the agent as it behaves at each time.
  abbrev pub over_wire : (ℕ → RelayTransport RelayStore) → ℕ → RelayStore → Ask → RelayStore × Told
  unfolding publish fetch_bundle send poll
  over_wire t now st (ask_publish bundle pool) =
      let w = publish f display (t now) st bundle pool in (w.0, told_done w.1)
  over_wire t now st (ask_fetch identity) =
      let w = fetch_bundle f display (t now) st identity in (w.0, told_bundle w.1)
  over_wire t now st (ask_send recipient message) =
      let w = send f display (t now) st recipient message in (w.0, told_done w.1)
  over_wire t now st (ask_poll recipient) =
      let w = poll f display (t now) st recipient in (w.0, told_mail w.1)

  -- The store; a message that it refuses is the client's error of status 413.
  abbrev pub in_store : ℕ → RelayStore → Ask → RelayStore × Told
  unfolding Store.publish Store.fetch_bundle Store.enqueue Store.poll refusal
  in_store now st (ask_publish bundle pool) = (Store.publish st bundle pool, told_done (ok tt))
  in_store now st (ask_fetch identity) =
      let w = Store.fetch_bundle st identity in (w.0, told_bundle (ok w.1))
  in_store now st (ask_send recipient message) =
      let w = refusal f display st (Store.enqueue st recipient message now) in (w.0, told_done w.1)
  in_store now st (ask_poll recipient) =
      let w = Store.poll st recipient now in (w.0, told_mail (ok w.1))

  module _ (form : ℕ → Bytes) (laws : IsFormats f) (form_laws : IsForm form)
      (t : ℕ → RelayTransport RelayStore) (reaches : (now : ℕ) → Reaches f now form (t now)) where
    over_wire-eq :
        (now : ℕ) (st : RelayStore) (ask : Ask)
        → Fitting (now, ask)
        → over_wire t now st ask ≡ in_store now st ask
    unfolding over_wire in_store
    over_wire-eq now st (ask_publish bundle pool) h =
        ap (λ (w : RelayStore × Result NetError (Unit {0})). (w.0, told_done w.1))
          (publish-handle f now form laws form_laws display (t now) (reaches now) st bundle pool h.0
            h.1)
    over_wire-eq now st (ask_fetch identity) h =
        ap (λ (w : RelayStore × Result NetError (Option PreKeyBundle)). (w.0, told_bundle w.1))
          (fetch-handle f now form laws form_laws display (t now) (reaches now) st identity h)
    over_wire-eq now st (ask_send recipient message) h =
        ap (λ (w : RelayStore × Result NetError (Unit {0})). (w.0, told_done w.1))
          (send-handle f now form laws form_laws display (t now) (reaches now) st recipient message
            h.0 h.1)
    over_wire-eq now st (ask_poll recipient) h =
        ap (λ (w : RelayStore × Result NetError (List Bytes)). (w.0, told_mail w.1))
          (poll-handle f now form laws form_laws display (t now) (reaches now) st recipient h)

    -- If the agent reaches the relay at every time, any sequence of publishing, fetching, sending
    -- and polling over HTTP, with 32-byte keys and bodies within the server's limit, leaves the
    -- store and gives the answers of the same sequence of calls on the store itself: JSON, base64,
    -- percent-encoding and routing lose nothing, and the one refusal is an oversized message.
    pub run-over_wire :
        (st : RelayStore) (asks : List (ℕ × Ask))
        → All Fitting asks
        → run (over_wire t) st asks ≡ run in_store st asks
    run-over_wire st [] h = refl
    run-over_wire st ((now, ask) ∷ asks) h =
        let same = over_wire-eq now st ask h.0 in
        ap
          (λ (w : RelayStore × Told).
            let rest = run (over_wire t) w.0 asks in (rest.0, w.1 ∷ rest.1))
          same
        ∙ ap (λ (w : RelayStore × List Told). (w.0, (in_store now st ask).1 ∷ w.1))
            (run-over_wire (in_store now st ask).0 asks h.1)
