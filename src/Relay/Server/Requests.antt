-- ===== src/Relay/Server/Requests.antt =====
-- What one request of relay/src/server.rs does to the store: at most one of the store's calls, and
-- nothing when it is refused.
use pigeonhole_clarity_messe.Prelude.{
  ℕ, ◌≤◌, ◌≡◌, ◌⊎◌, inl, inr, refl, ap, subst, ◌∙◌, Bool, true, Bool-cases, Option, none, some,
  List, [], ◌∷◌, length, arith,
}
use pigeonhole_clarity_messe.Prelude.Bytes.{Bytes, Bytes_discrete, ascii}
use pigeonhole_clarity_messe.Prelude.HashMap
use pigeonhole_clarity_messe.Prelude.Result.{
  Result, ok, err, map_err, >>=-eq-ok, map_err-eq-ok, ok-injective,
}
use pigeonhole_clarity_messe.Core.Wire.{PreKeyBundle}
use pigeonhole_clarity_messe.Core.Error
use pigeonhole_clarity_messe.Core.Encoding.{decode_bundle}
use pigeonhole_clarity_messe.Relay.Protocol.{unb64, unb64_key}
use pigeonhole_clarity_messe.Relay.Query.{query_param, split_once, or_empty}
use pigeonhole_clarity_messe.Relay.Store.Defs
use pigeonhole_clarity_messe.Relay.Store.Defs.{StoreError}
use pigeonhole_clarity_messe.Relay.Store.Run
use pigeonhole_clarity_messe.Relay.Store.Run.{Call, publishes, fetches, enqueues, polls}
use pigeonhole_clarity_messe.Relay.Store.Persistence as Store
use pigeonhole_clarity_messe.Relay.Store.Persistence.{RelayStore, updated}
use pigeonhole_clarity_messe.Relay.Server.{
  Request, Response, RequestError, Formats, Method, method_get, method_post, other_method,
  read_json, respond_text, respond_error, respond_json, store_error, bad, read_one_time,
  handle_publish, handle_send, handle_bundle, handle_poll, key_of, respond_bundle, bundle_for,
  mail_for, answer, is_path, route, handle,
}

-- The store after a request: at most one call has been made on it, its limits are the same, and it
-- is as it was unless the answer is 200.
pub record Served (st : RelayStore) (w : RelayStore × Response) : Type 0 where
  pub calls : List Call
  pub at_most_one : length calls ≤ 1
  pub inner : w.0.inner ≡ Run.run st.limits st.inner calls
  pub limits : w.0.limits ≡ st.limits
  pub refused : (w.1.status ≡ 200) ⊎ (w.0 ≡ st)

Served-unchanged : (st : RelayStore) (r : Response) → Served st (st, r)
unfolding Run.run
Served-unchanged st r = record {
  calls = [];
  at_most_one = omega arith;
  inner = refl;
  limits = refl;
  refused = inr refl;
}

-- One call that was answered with 200.
Served-call :
    (st : RelayStore) (call : Call) (changed : Bool) (r : Response)
    → r.status ≡ 200
    → Served st (updated st (Run.step st.limits st.inner call) changed, r)
unfolding Run.run updated
Served-call st call changed r good = record {
  calls = call ∷ [];
  at_most_one = omega arith;
  inner = refl;
  limits = refl;
  refused = inl good;
}

module _ (f : Formats) where
  answer-Served :
      (st : RelayStore) (r : Result RequestError RelayStore)
      → ((after : RelayStore) → r ≡ ok after → Served st (after, respond_text 200 (ascii "ok")))
      → Served st (answer f st r)
  unfolding answer
  answer-Served st (ok after) h = h after refl
  answer-Served st (err e) h = Served-unchanged st (respond_error e)

  handle_publish-ok :
      (st after : RelayStore) (request : Request)
      → handle_publish f st request ≡ ok after
      → (bundle : PreKeyBundle) × (one_time : List (ℕ × Bytes)) × (Store.publish st bundle one_time
          ≡ after)
  unfolding handle_publish
  handle_publish-ok st after request e =
      let (req, _, e1) = >>=-eq-ok (read_json f.publish_json request) _ e in
      let (bytes, _, e2) = >>=-eq-ok (map_err bad (unb64 f.base64 req.bundle)) _ e1 in
      let (bundle, _, e3) =
        >>=-eq-ok (map_err (λ e. bad (Error.to_string e)) (decode_bundle f.bundle_format bytes)) _
          e2 in
      let (one_time, _, e4) = >>=-eq-ok (read_one_time f req.one_time) _ e3 in
      (bundle, one_time, ok-injective e4)

  publish-Served :
      (st after : RelayStore) (request : Request)
      → handle_publish f st request ≡ ok after
      → Served st (after, respond_text 200 (ascii "ok"))
  unfolding Store.publish Run.step respond_text
  publish-Served st after request e =
      let (bundle, one_time, same) = handle_publish-ok st after request e in
      subst (λ (s : RelayStore). Served st (s, respond_text 200 (ascii "ok"))) same
        (Served-call st (publishes bundle one_time) true (respond_text 200 (ascii "ok")) refl)

  handle_send-ok :
      (st after : RelayStore) (now : ℕ) (request : Request)
      → handle_send f st now request ≡ ok after
      → (recipient message : Bytes) × (Store.enqueue st recipient message now ≡ ok after)
  unfolding handle_send
  handle_send-ok st after now request e =
      let (req, _, e1) = >>=-eq-ok (read_json f.send_json request) _ e in
      let (recipient, _, e2) = >>=-eq-ok (map_err bad (unb64_key f.base64 req.recipient)) _ e1 in
      let (message, _, e3) = >>=-eq-ok (map_err bad (unb64 f.base64 req.message)) _ e2 in
      (recipient, message, map_err-eq-ok store_error (Store.enqueue st recipient message now) e3)

  send-Served :
      (st after : RelayStore) (now : ℕ) (request : Request)
      → handle_send f st now request ≡ ok after
      → Served st (after, respond_text 200 (ascii "ok"))
  unfolding Store.enqueue Run.step respond_text
  send-Served st after now request e =
      let (recipient, message, stored) = handle_send-ok st after now request e in
      let (inner, queued, end) =
        >>=-eq-ok (Defs.enqueue_at st.limits st.inner recipient message now) _ stored in
      let stepped : Run.step st.limits st.inner (enqueues recipient message now) ≡ inner =
        ap (Run.after st.inner) queued in
      subst (λ (s : RelayStore). Served st (s, respond_text 200 (ascii "ok")))
        (ap (λ (i : Defs.Inner). updated st i true) stepped ∙ ok-injective end)
        (Served-call st (enqueues recipient message now) true (respond_text 200 (ascii "ok")) refl)

  -- A bundle that is not there leaves the store, one that is there is handed out with 200.
  fetched-Served :
      (st : RelayStore) (identity : Bytes) (o : Option Defs.StoredKeys)
      → Defs.fetch_bundle st.inner identity ≡ Defs.fetch_entry st.inner identity o
      → let w = Defs.fetch_entry st.inner identity o in
        Served st (respond_bundle f (updated st w.0 w.2, w.1))
  unfolding respond_bundle updated respond_text Run.step respond_json
  fetched-Served st identity none e =
      Served-unchanged st (respond_text 404 (ascii "unknown identity"))
  fetched-Served st identity (some stored) e =
      let w = Defs.fetch_entry st.inner identity (some stored) in
      let stepped : Run.step st.limits st.inner (fetches identity) ≡ w.0 =
        ap (λ (x : Defs.Inner × Option PreKeyBundle × Bool). x.0) e in
      subst (λ (i : Defs.Inner). Served st (respond_bundle f (updated st i w.2, w.1))) stepped
        (Served-call st (fetches identity) w.2 _ refl)

  bundle_for-Served : (st : RelayStore) (key : Option Bytes) → Served st (bundle_for f st key)
  unfolding bundle_for Store.fetch_bundle Defs.fetch_bundle
  bundle_for-Served st none = Served-unchanged st _
  bundle_for-Served st (some identity) =
      fetched-Served st identity (HashMap.get Bytes_discrete st.inner.keys identity) refl

  mail_for-Served :
      (st : RelayStore) (now : ℕ) (key : Option Bytes) → Served st (mail_for f st now key)
  unfolding mail_for Store.poll Run.step respond_json
  mail_for-Served st now none = Served-unchanged st _
  mail_for-Served st now (some recipient) = Served-call st (polls recipient now) _ _ refl

  route-Served :
      (st : RelayStore) (now : ℕ) (request : Request) (method : Method) (path query : Bytes)
      → Served st (route f st now request method path query)
  unfolding route handle_bundle handle_poll
  route-Served st now request method_get path query =
      elim (Bool-cases (is_path f path (ascii "/health"))) [
        | inl e ↦ rw e (Served-unchanged st (respond_text 200 (ascii "ok")))
        | inr e ↦ rw e (elim (Bool-cases (is_path f path (ascii "/bundle"))) [
          | inl e ↦ rw e (bundle_for-Served st (key_of f (query_param query (ascii "identity"))))
          | inr e ↦ rw e (elim (Bool-cases (is_path f path (ascii "/poll"))) [
            | inl e ↦
                rw e (mail_for-Served st now (key_of f (query_param query (ascii "recipient"))))
            | inr e ↦ rw e (Served-unchanged st (respond_text 404 (ascii "not found")))
          ])
        ])
      ]
  route-Served st now request method_post path query =
      elim (Bool-cases (is_path f path (ascii "/publish"))) [
        | inl e ↦ rw e (
            answer-Served st (handle_publish f st request)
              (λ after h. publish-Served st after request h))
        | inr e ↦ rw e (elim (Bool-cases (is_path f path (ascii "/send"))) [
          | inl e ↦ rw e (
              answer-Served st (handle_send f st now request)
                (λ after h. send-Served st after now request h))
          | inr e ↦ rw e (Served-unchanged st (respond_text 404 (ascii "not found")))
        ])
      ]
  route-Served st now request other_method path query =
      Served-unchanged st (respond_text 404 (ascii "not found"))

  -- Whatever request arrives, the handler makes at most one call on the store, with the effect of
  -- that call, keeps the limits, and leaves the store as it was when it answers other than 200.
  pub handle-Served :
      (st : RelayStore) (now : ℕ) (request : Request) → Served st (handle f st now request)
  unfolding handle
  handle-Served st now request =
      let parts = split_once 63 request.url in
      route-Served st now request request.method parts.0 (or_empty parts.1)
