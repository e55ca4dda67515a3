-- ===== src/Net/Wire/Post.antt =====
-- What the client of net/src/lib.rs posts, as the server of relay/src/server.rs serves it.
use pigeonhole_clarity_messe.Prelude.{
  ℕ, ◌≤◌, ◌≡◌, refl, ap, subst, ◌∙◌, List, [], ◌∷◌, map, length, All,
}
use pigeonhole_clarity_messe.Prelude.Bytes.{Bytes, ascii}
use pigeonhole_clarity_messe.Prelude.Result.{Result, ok, err, map_err}
use pigeonhole_clarity_messe.Core.Wire.{PreKeyBundle}
use pigeonhole_clarity_messe.Core.Encoding.{encode_bundle, decode_bundle-encode_bundle}
use pigeonhole_clarity_messe.Relay.Protocol
use pigeonhole_clarity_messe.Relay.Protocol.{
  OneTimePrekey, PublishRequest, SendRequest, Json, Base64, IsBase64, b64, unb64_key,
}
use pigeonhole_clarity_messe.Relay.Query.{split_once}
use pigeonhole_clarity_messe.Relay.Query.Form.{IsForm}
use pigeonhole_clarity_messe.Relay.Store.Defs
use pigeonhole_clarity_messe.Relay.Store.Defs.{StoreError}
use pigeonhole_clarity_messe.Relay.Store.Persistence as Store
use pigeonhole_clarity_messe.Relay.Store.Persistence.{RelayStore}
use pigeonhole_clarity_messe.Relay.Server.{
  Request, RequestError, Formats, method_post, max_body_bytes, respond_text, respond_error,
  store_error, read_one_time, handle_publish, handle_send, answer, is_path, route, handle,
}
use pigeonhole_clarity_messe.Net.{RelayTransport, UreqError, publish, send, discard}
use pigeonhole_clarity_messe.Net.Wire.{
  IsFormats, Reaches, as_client, refusal, read_json-to_string, unb64_key-encode,
}

module _ (f : Formats) (now : ℕ) (form : ℕ → Bytes) (laws : IsFormats f) (form_laws : IsForm form)
    (display : UreqError → Bytes) (t : RelayTransport RelayStore)
    (reaches : Reaches f now form t) where
  refusal-enqueue :
      (st : RelayStore) (r : Result StoreError RelayStore)
      → discard f display (as_client (answer f st (map_err store_error r))) ≡ refusal f display st r
  unfolding discard as_client answer respond_error respond_text store_error refusal
  refusal-enqueue st (ok after) = refl
  refusal-enqueue st (err Defs.message_too_large) = refl

  handle_send-enqueue :
      (st : RelayStore) (recipient message : Bytes) (request : Request)
      → length recipient ≡ 32
      → request.body
        ≡ f.send_json.to_string
            (record { recipient = f.base64.encode recipient; message = f.base64.encode message })
      → length (
          f.send_json.to_string
            (record { recipient = f.base64.encode recipient; message = f.base64.encode message }))
        ≤ max_body_bytes
      → handle_send f st now request ≡ map_err store_error (Store.enqueue st recipient message now)
  unfolding handle_send Protocol.unb64
  handle_send-enqueue st recipient message request h body fits =
      rw
        (
          read_json-to_string f.send_json _ request laws.send_json body fits,
          unb64_key-encode f laws recipient h,
          laws.base64.decode_encode message,
        )
        refl

  pub send-handle :
      (st : RelayStore) (recipient message : Bytes)
      → length recipient ≡ 32
      → length (
          f.send_json.to_string
            (record { recipient = f.base64.encode recipient; message = f.base64.encode message }))
        ≤ max_body_bytes
      → send f display t st recipient message
        ≡ refusal f display st (Store.enqueue st recipient message now)
  unfolding send handle route is_path split_once
  send-handle st recipient message h fits =
      let request : Request = record {
        method = method_post;
        url = ascii "/send";
        body =
            f.send_json.to_string
              (record { recipient = f.base64.encode recipient; message = f.base64.encode message });
      } in
      ap (discard f display) (reaches.post st (ascii "/send") request.body)
      ∙ ap (λ (r : Result RequestError RelayStore). discard f display (as_client (answer f st r)))
          (handle_send-enqueue st recipient message request h refl fits)
      ∙ refusal-enqueue st (Store.enqueue st recipient message now)

  abbrev pub uploaded : List (ℕ × Bytes) → List OneTimePrekey
  uploaded = map (λ e. record { id = e.0; public = f.base64.encode e.1 })

  read_one_time-uploaded :
      (pool : List (ℕ × Bytes))
      → All (λ (e : ℕ × Bytes). length e.1 ≡ 32) pool
      → read_one_time f (uploaded pool) ≡ ok pool
  unfolding read_one_time
  read_one_time-uploaded [] h = refl
  read_one_time-uploaded ((id, key) ∷ pool) h =
      rw (unb64_key-encode f laws key h.0, read_one_time-uploaded pool h.1) refl

  handle_publish-publish :
      (st : RelayStore) (bundle : PreKeyBundle) (pool : List (ℕ × Bytes)) (request : Request)
      → All (λ (e : ℕ × Bytes). length e.1 ≡ 32) pool
      → request.body
        ≡ f.publish_json.to_string (record {
          bundle = f.base64.encode (encode_bundle f.bundle_format bundle);
          one_time = uploaded pool;
        })
      → length request.body ≤ max_body_bytes
      → handle_publish f st request ≡ ok (Store.publish st bundle pool)
  unfolding handle_publish Protocol.unb64
  handle_publish-publish st bundle pool request h body fits =
      rw
        (
          read_json-to_string f.publish_json _ request laws.publish_json body
              (subst (λ (b : Bytes). length b ≤ max_body_bytes) body fits),
          laws.base64.decode_encode (encode_bundle f.bundle_format bundle),
          decode_bundle-encode_bundle f.bundle_format laws.bundle_format bundle,
          read_one_time-uploaded pool h,
        )
        refl

  pub publish-handle :
      (st : RelayStore) (bundle : PreKeyBundle) (pool : List (ℕ × Bytes))
      → All (λ (e : ℕ × Bytes). length e.1 ≡ 32) pool
      → length (
          f.publish_json.to_string (record {
            bundle = f.base64.encode (encode_bundle f.bundle_format bundle);
            one_time = uploaded pool;
          }))
        ≤ max_body_bytes
      → publish f display t st bundle pool ≡ (Store.publish st bundle pool, ok tt)
  unfolding publish handle route is_path split_once answer discard as_client respond_text
  publish-handle st bundle pool h fits =
      let request : Request = record {
        method = method_post;
        url = ascii "/publish";
        body = f.publish_json.to_string (record {
          bundle = f.base64.encode (encode_bundle f.bundle_format bundle);
          one_time = uploaded pool;
        });
      } in
      ap (discard f display) (reaches.post st (ascii "/publish") request.body)
      ∙ ap (λ (r : Result RequestError RelayStore). discard f display (as_client (answer f st r)))
          (handle_publish-publish st bundle pool request h refl fits)
