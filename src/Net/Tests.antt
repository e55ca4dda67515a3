-- ===== src/Net/Tests.antt =====
-- The theorem on the client and the server together at concrete calls.
use pigeonhole_clarity_messe.Prelude.{◌≡◌, ◌≤◌, refl, [], ◌∷◌, replicate, length, leb→le}
use pigeonhole_clarity_messe.Prelude.Bytes.{Bytes}
use pigeonhole_clarity_messe.Relay.Store.Defs.{default_limits}
use pigeonhole_clarity_messe.Relay.Store.Persistence.{with_limits}
use pigeonhole_clarity_messe.Relay.Server.{max_body_bytes}
use pigeonhole_clarity_messe.Relay.Samples.{
  formats, base64, unary, json, form, form-IsForm, send_request,
}
use pigeonhole_clarity_messe.Core.Codec.{via, pair, list, bytes}
use pigeonhole_clarity_messe.Net.Refinement.{
  ask_fetch, ask_send, ask_poll, run, over_wire, in_store, run-over_wire,
}
use pigeonhole_clarity_messe.Net.Samples.{formats-IsFormats, client, client-Reaches, display}

abbrev key : Bytes
key = replicate 32 1

sends_little :
    length (
      formats.send_json.to_string (record {
        recipient = formats.base64.encode key;
        message = formats.base64.encode (7 ∷ []);
      }))
    ≤ max_body_bytes
unfolding formats base64 unary json send_request via pair list bytes
sends_little = leb→le _ _ refl

run-over_wire_example :
    run
      (over_wire formats display client)
      (with_limits default_limits)
      ((5, ask_fetch key) ∷ (6, ask_send key (7 ∷ [])) ∷ (9, ask_poll key) ∷ [])
    ≡ run
        (in_store formats display)
        (with_limits default_limits)
        ((5, ask_fetch key) ∷ (6, ask_send key (7 ∷ [])) ∷ (9, ask_poll key) ∷ [])
run-over_wire_example =
    run-over_wire formats display form formats-IsFormats form-IsForm client client-Reaches
      (with_limits default_limits)
      ((5, ask_fetch key) ∷ (6, ask_send key (7 ∷ [])) ∷ (9, ask_poll key) ∷ [])
      (refl, ((refl, sends_little), (refl, tt)))
