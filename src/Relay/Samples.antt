-- ===== src/Relay/Samples.antt =====
-- Concrete formats for the tests of the server and its client, with what the libraries document:
-- numbers in unary stand for base64 and JSON text.
use pigeonhole_clarity_messe.Prelude.{
  ℕ, zero, suc, ◌+◌, ◌<◌, ◌≡◌, ◌≢◌, refl, sym, ap, ◌∙◌, ◌==◌, true, false, Bool-cases, inl, inr,
  lt→ltb, ==_iff, [], ◌∷◌, ◌++◌, replicate, if◌then◌else◌, arith, All, All-append,
}
use pigeonhole_clarity_messe.Prelude.Bytes.{Bytes}
use pigeonhole_clarity_messe.Prelude.Result.{ok}
use pigeonhole_clarity_messe.Core.Codec.{
  Codec, number, pair, via, list, option, bytes, bincode, bincode-IsBincode,
}
use pigeonhole_clarity_messe.Core.Wire.{PreKeyBundle}
use pigeonhole_clarity_messe.Relay.Protocol.{
  OneTimePrekey, PublishRequest, BundleResponse, SendRequest, PollResponse, Base64, IsBase64, Json,
}
use pigeonhole_clarity_messe.Relay.Query.Form.{plain, escaped, IsForm}
use pigeonhole_clarity_messe.Relay.Server.{Formats, is_utf8, is_utf8_from}

unfoldable pub unary : Bytes → Bytes
unary [] = []
unary (n ∷ b) = replicate n 65 ++ (66 ∷ unary b)

unfoldable pub from_unary : ℕ → Bytes → Bytes
from_unary count [] = []
from_unary count (c ∷ s) =
    let next = from_unary 0 s in
    let more = from_unary (suc count) s in if c == 66 then count ∷ next else more

from_unary-replicate :
    (n count : ℕ) (s : Bytes)
    → from_unary count (replicate n 65 ++ (66 ∷ s)) ≡ (count + n) ∷ from_unary 0 s
unfolding from_unary
from_unary-replicate zero count s =
    let same : count ≡ count + 0 = omega arith in ap (λ (n : ℕ). n ∷ from_unary 0 s) same
from_unary-replicate (suc n) count s =
    let same : suc count + n ≡ count + suc n = omega arith in
    from_unary-replicate n (suc count) s ∙ ap (λ (n : ℕ). n ∷ from_unary 0 s) same

from_unary-unary : (b : Bytes) → from_unary 0 (unary b) ≡ b
unfolding unary from_unary
from_unary-unary [] = refl
from_unary-unary (n ∷ b) =
    let same : 0 + n ≡ n = omega arith in
    from_unary-replicate n 0 (unary b) ∙ (rw (same, from_unary-unary b) refl)

IsAscii : Bytes → Type 0
IsAscii s = All (λ (x : ℕ). x < 128) s

replicate-IsAscii : (n : ℕ) → IsAscii (replicate n 65)
unfolding IsAscii
replicate-IsAscii zero = tt
replicate-IsAscii (suc n) = (omega arith, replicate-IsAscii n)

unary-IsAscii : (b : Bytes) → IsAscii (unary b)
unfolding unary IsAscii
unary-IsAscii [] = tt
unary-IsAscii (n ∷ b) =
    All-append (λ (x : ℕ). x < 128) (replicate n 65) (66 ∷ unary b) (replicate-IsAscii n)
      (omega arith, unary-IsAscii b)

is_utf8-IsAscii : (s : Bytes) → IsAscii s → is_utf8_from s (0, 0x80, 0xBF) ≡ true
unfolding is_utf8_from IsAscii
is_utf8-IsAscii [] h = refl
is_utf8-IsAscii (c ∷ s) h = rw (lt→ltb c 128 h.0) (is_utf8-IsAscii s h.1)

unfoldable pub base64 : Base64
unfolding unary from_unary
base64 = record { encode = unary; decode = λ s. ok (from_unary 0 s) }

pub base64-IsBase64 : IsBase64 base64
unfolding base64 IsAscii
base64-IsBase64 = record {
  decode_encode = λ b. ap (λ (x : Bytes). ok x) (from_unary-unary b);
  is_ascii = unary-IsAscii;
}

unfoldable pub json : {T : Type 0} → Codec T → Json T
unfolding unary from_unary
json codec = record {
  to_string = λ v. unary (codec.write v);
  from_str = λ s. (bincode codec).deserialize (from_unary 0 s);
}

pub json_round_trip :
    {T : Type 0} (codec : Codec T) (v : T) → (json codec).from_str ((json codec).to_string v) ≡ ok v
unfolding json bincode
json_round_trip codec v =
    ap (λ (s : Bytes). (bincode codec).deserialize s) (from_unary-unary (codec.write v))
    ∙ bincode-IsBincode codec v

pub json_utf8 : {T : Type 0} (codec : Codec T) (v : T) → is_utf8 ((json codec).to_string v) ≡ true
unfolding json is_utf8
json_utf8 codec v = is_utf8-IsAscii (unary (codec.write v)) (unary-IsAscii (codec.write v))

unfoldable pub one_time : Codec OneTimePrekey
unfolding via pair bytes
one_time =
    via (pair number bytes) (λ o. (o.id, o.public)) (λ p. record { id = p.0; public = p.1 })
      (λ o. refl)

unfoldable pub publish_request : Codec PublishRequest
unfolding via pair bytes list one_time
publish_request =
    via (pair bytes (list one_time)) (λ r. (r.bundle, r.one_time))
      (λ p. record { bundle = p.0; one_time = p.1 }) (λ r. refl)

unfoldable pub bundle_response : Codec BundleResponse
unfolding via bytes
bundle_response = via bytes (λ r. r.bundle) (λ b. record { bundle = b }) (λ r. refl)

unfoldable pub send_request : Codec SendRequest
unfolding via pair bytes
send_request =
    via (pair bytes bytes) (λ r. (r.recipient, r.message))
      (λ p. record { recipient = p.0; message = p.1 }) (λ r. refl)

unfoldable pub poll_response : Codec PollResponse
unfolding via list bytes
poll_response = via (list bytes) (λ r. r.messages) (λ m. record { messages = m }) (λ r. refl)

unfoldable pub bundle : Codec PreKeyBundle
unfolding via pair option bytes
bundle =
    via
      (pair bytes (
        pair bytes (
          pair bytes (
            pair bytes (
              pair number (
                pair bytes (
                  pair bytes (pair number (pair bytes (pair (option bytes) (option number)))))))))))
      (λ b. (
        b.identity_ed,
        (
          b.identity_dh,
          (
            b.identity_dh_sig,
            (
              b.signed_prekey,
              (
                b.signed_prekey_id,
                (
                  b.signed_prekey_sig,
                  (
                    b.kyber_prekey,
                    (
                      b.kyber_prekey_id,
                      (b.kyber_prekey_sig, (b.one_time_prekey, b.one_time_prekey_id)),
                    ),
                  ),
                ),
              ),
            ),
          ),
        ),
      ))
      (λ p. record {
        identity_ed = p.0;
        identity_dh = p.1.0;
        identity_dh_sig = p.1.1.0;
        signed_prekey = p.1.1.1.0;
        signed_prekey_id = p.1.1.1.1.0;
        signed_prekey_sig = p.1.1.1.1.1.0;
        kyber_prekey = p.1.1.1.1.1.1.0;
        kyber_prekey_id = p.1.1.1.1.1.1.1.0;
        kyber_prekey_sig = p.1.1.1.1.1.1.1.1.0;
        one_time_prekey = p.1.1.1.1.1.1.1.1.1.0;
        one_time_prekey_id = p.1.1.1.1.1.1.1.1.1.1;
      })
      (λ b. refl)

unfoldable pub formats : Formats
unfolding base64 json publish_request bundle_response send_request poll_response bundle bincode
formats = record {
  base64 = base64;
  publish_json = json publish_request;
  bundle_json = json bundle_response;
  send_json = json send_request;
  poll_json = json poll_response;
  bundle_format = bincode bundle;
}

-- `%`, `&` and `+` are escaped.
unfoldable pub form : ℕ → Bytes
form c =
    if c == 37
    then 37 ∷ 50 ∷ 53 ∷ []
    else if c == 38
    then 37 ∷ 50 ∷ 54 ∷ []
    else if c == 43
    then 37 ∷ 50 ∷ 66 ∷ []
    else c ∷ []

differs : (c d : ℕ) → (c == d) ≡ false → c ≢ d
differs c d h e = ground (arith, h, e)

pub form-IsForm : IsForm form
unfolding form
form-IsForm = record {
  writes = λ c. elim (Bool-cases (c == 37)) [
    | inl p ↦ rw p (escaped 50 53 2 5 refl refl (sym ((==_iff c 37).0 p)))
    | inr p ↦ rw p (elim (Bool-cases (c == 38)) [
      | inl a ↦ rw a (escaped 50 54 2 6 refl refl (sym ((==_iff c 38).0 a)))
      | inr a ↦ rw a (elim (Bool-cases (c == 43)) [
        | inl s ↦ rw s (escaped 50 66 2 11 refl refl (sym ((==_iff c 43).0 s)))
        | inr s ↦ rw s (plain (differs c 37 p) (differs c 38 a) (differs c 43 s))
      ])
    ])
  ];
}
