-- ===== src/Core/Session.antt =====
-- `Session` of core/src/session.rs: the handshake and the ratchet put together. `encode_header` is
-- bincode at the ratchet header.
pub mod Stored
pub mod Accounts
use pigeonhole_clarity_messe.Prelude.{◌≡◌, refl, ap, ◌∙◌, Option, none, some, [], ◌++◌, ==_iff}
use pigeonhole_clarity_messe.Prelude.Bytes.{Bytes}
use pigeonhole_clarity_messe.Prelude.Result.{Result, ok, err, ◌>>=◌, ◌>>◌}
use pigeonhole_clarity_messe.Core.Error.{Error}
use pigeonhole_clarity_messe.Core.Wire.{
  PreKeyBundle, HandshakeHeader, RatchetHeader, Message, pre_key, normal,
}
use pigeonhole_clarity_messe.Core.Crypto.{Crypto, IsCrypto}
use pigeonhole_clarity_messe.Core.Identity.{
  Account, identity_public, signed_prekey, bundle, verify_bundle, verify_bundle-bundle, entry_id,
  first_entry,
}
use pigeonhole_clarity_messe.Core.Handshake
use pigeonhole_clarity_messe.Core.Handshake.{without_first, consume-keeps}
use pigeonhole_clarity_messe.Core.Ratchet.Defs
use pigeonhole_clarity_messe.Core.Ratchet.Defs.{DoubleRatchet, init_initiator, init_responder}
use pigeonhole_clarity_messe.Core.Ratchet.Turn.{first-delivers}

pub record Session : Type 0 where
  pub ratchet : DoubleRatchet
  pub associated : Bytes
  pub pending_handshake : Option HandshakeHeader

-- The initiator's identity, then the responder's.
unfoldable pub ad_prefix : Bytes → Bytes → Bytes
ad_prefix initiator_ed responder_ed = ([] ++ initiator_ed) ++ responder_ed

module _ (c : Crypto) (encode_header : RatchetHeader → Bytes) where
  -- The secrets are the ephemeral one, the randomness of the encapsulation, and the first ratchet key.
  unfoldable pub initiate : Account → PreKeyBundle → Bytes → Bytes → Bytes → Result Error Session
  unfolding verify_bundle Handshake.initiate init_initiator ad_prefix
  initiate me their_bundle ephemeral random dh_self = do
    verify_bundle c their_bundle
    agreed ← Handshake.initiate c me their_bundle ephemeral random
    ok (record {
      ratchet = init_initiator c encode_header dh_self agreed.0 agreed.2;
      associated = ad_prefix agreed.1.identity_ed their_bundle.identity_ed;
      pending_handshake = some agreed.1;
    })

  abbrev pub session_of :
      Bytes → DoubleRatchet × Result Error Bytes → Result Error (Session × Bytes)
  session_of prefix (ratchet, ok plaintext) =
      ok (record { ratchet = ratchet; associated = prefix; pending_handshake = none }, plaintext)
  session_of prefix (ratchet, err e) = err e

  -- `respond` after the handshake: a new ratchet decrypts the first message.
  abbrev pub first_decrypt :
      Bytes
      → Account
      → HandshakeHeader
      → RatchetHeader
      → Bytes
      → Bytes
      → Result Error (Session × Bytes)
  unfolding ad_prefix init_responder Defs.decrypt signed_prekey identity_public
  first_decrypt new_self me hs header ciphertext root = do
    spk ← signed_prekey me hs.signed_prekey_id
    let prefix = ad_prefix hs.identity_ed (identity_public c me)
    session_of prefix (
        Defs.decrypt c encode_header new_self (init_responder c encode_header root spk) header
          ciphertext prefix)

  abbrev pub after_handshake :
      Bytes
      → HandshakeHeader
      → RatchetHeader
      → Bytes
      → Account × Result Error Bytes
      → Account × Result Error (Session × Bytes)
  unfolding first_decrypt
  after_handshake new_self hs header ciphertext (me, ok root) =
      (me, first_decrypt new_self me hs header ciphertext root)
  after_handshake new_self hs header ciphertext (me, err e) = (me, err e)

  -- The account loses its one-time prekey as soon as the handshake takes it.
  unfoldable pub respond : Bytes → Account → Message → Account × Result Error (Session × Bytes)
  unfolding Handshake.respond after_handshake
  respond new_self me (pre_key hs header ciphertext) =
      after_handshake new_self hs header ciphertext (Handshake.respond c me hs)
  respond new_self me (normal header ciphertext) = (me, err Error.unexpected_message)

  abbrev pub message_of : Option HandshakeHeader → RatchetHeader → Bytes → Message
  message_of (some hs) header ciphertext = pre_key hs header ciphertext
  message_of none header ciphertext = normal header ciphertext

  unfoldable pub encrypt : Session → Bytes → Result Error (Session × Message)
  unfolding Defs.encrypt
  encrypt s plaintext = do
    sealed ← Defs.encrypt c encode_header s.ratchet plaintext s.associated
    ok (record s { ratchet = sealed.0 }, message_of s.pending_handshake sealed.1 sealed.2)

  -- The part of a message that the ratchet reads.
  abbrev pub ratchet_part : Message → RatchetHeader × Bytes
  ratchet_part (pre_key hs header ciphertext) = (header, ciphertext)
  ratchet_part (normal header ciphertext) = (header, ciphertext)

  -- The pending handshake is dropped after a successful decryption only.
  abbrev pub heard : Session → DoubleRatchet × Result Error Bytes → Session × Result Error Bytes
  heard s (ratchet, ok plaintext) =
      (record s { ratchet = ratchet; pending_handshake = none }, ok plaintext)
  heard s (ratchet, err e) = (record s { ratchet = ratchet }, err e)

  unfoldable pub decrypt : Bytes → Session → Message → Session × Result Error Bytes
  unfolding Defs.decrypt
  decrypt new_self s message = heard s (
      Defs.decrypt c encode_header new_self s.ratchet (ratchet_part message).0
        (ratchet_part message).1 s.associated)

  module _ (laws : IsCrypto c) where
    signed_prekey-without_first :
        (bob : Account)
        → signed_prekey (without_first c laws bob) bob.signed_prekey_id
          ≡ ok bob.signed_prekey_secret
    unfolding signed_prekey
    signed_prekey-without_first bob =
        let keeps = consume-keeps c laws bob (entry_id c (first_entry c bob.one_time_prekeys)) in
        rw (keeps.2, keeps.3, (==_iff bob.signed_prekey_id bob.signed_prekey_id).1 refl) refl

    first_decrypt-opens :
        (new_self : Bytes) (me : Account) (hs : HandshakeHeader) (header : RatchetHeader)
        (ciphertext root spk plaintext prefix : Bytes) (b : DoubleRatchet)
        → signed_prekey me hs.signed_prekey_id ≡ ok spk
        → ad_prefix hs.identity_ed (identity_public c me) ≡ prefix
        → Defs.decrypt c encode_header new_self
            (init_responder c encode_header root spk)
            header
            ciphertext
            prefix
          ≡ (b, ok plaintext)
        → first_decrypt new_self me hs header ciphertext root
          ≡ ok (record { ratchet = b; associated = prefix; pending_handshake = none }, plaintext)
    unfolding first_decrypt
    first_decrypt-opens new_self me hs header ciphertext root spk plaintext prefix b e same run =
        rw (e, same, run) refl

    initiate-ok :
        (alice : Account) (b : PreKeyBundle) (ephemeral random dh_self root spk prefix : Bytes)
        (hs : HandshakeHeader)
        → verify_bundle c b ≡ ok tt
        → Handshake.initiate c alice b ephemeral random ≡ ok (root, hs, spk)
        → ad_prefix hs.identity_ed b.identity_ed ≡ prefix
        → initiate alice b ephemeral random dh_self
          ≡ ok (record {
            ratchet = init_initiator c encode_header dh_self root spk;
            associated = prefix;
            pending_handshake = some hs;
          })
    unfolding initiate
    initiate-ok alice b ephemeral random dh_self root spk prefix hs v e same = rw (v, e, same) refl

    encrypt-ok :
        (s : Session) (plaintext : Bytes) (r : DoubleRatchet) (header : RatchetHeader)
        (sealed : Bytes)
        → Defs.encrypt c encode_header s.ratchet plaintext s.associated ≡ ok (r, header, sealed)
        → encrypt s plaintext
          ≡ ok (record s { ratchet = r }, message_of s.pending_handshake header sealed)
    unfolding encrypt
    encrypt-ok s plaintext r header sealed e = rw e refl

    respond-ok :
        (new_self : Bytes) (me me' : Account) (hs : HandshakeHeader) (header : RatchetHeader)
        (sealed root plaintext : Bytes) (sb : Session)
        → Handshake.respond c me hs ≡ (me', ok root)
        → first_decrypt new_self me' hs header sealed root ≡ ok (sb, plaintext)
        → respond new_self me (pre_key hs header sealed) ≡ (me', ok (sb, plaintext))
    unfolding respond after_handshake
    respond-ok new_self me me' hs header sealed root plaintext sb e run =
        ap (after_handshake new_self hs header sealed) e
        ∙ ap (λ (x : Result Error (Session × Bytes)). (me', x)) run

    identity_ed-bundle : (bob : Account) → (bundle c bob).identity_ed ≡ identity_public c bob
    unfolding bundle
    identity_ed-bundle bob = refl

    identity_public-without_first :
        (bob : Account) → identity_public c (without_first c laws bob) ≡ identity_public c bob
    unfolding identity_public
    identity_public-without_first bob =
        ap c.ed25519_public
          (consume-keeps c laws bob (entry_id c (first_entry c bob.one_time_prekeys))).4

    -- From a published bundle to the first plaintext. An initiator that fetched an account's
    -- bundle, and whose encapsulation to it succeeds, opens a session and encrypts a message; the
    -- account that receives the message opens its own session and reads the plaintext, and its
    -- session has the same associated data and no handshake left to send.
    pub respond-encrypt :
        (alice bob : Account)
        (ephemeral random dh_self new_self plaintext ciphertext shared : Bytes)
        → c.ml_kem_encapsulate (c.ml_kem_public bob.kyber) random ≡ some (ciphertext, shared)
        → (sa sa' sb : Session) × (message : Message) × (initiate alice
              (bundle c bob)
              ephemeral
              random
              dh_self
            ≡ ok sa)
          × (encrypt sa plaintext ≡ ok (sa', message))
          × (respond new_self bob message ≡ (without_first c laws bob, ok (sb, plaintext)))
          × (sb.associated ≡ sa.associated)
          × (sb.pending_handshake ≡ none)
    respond-encrypt alice bob ephemeral random dh_self new_self plaintext ciphertext shared e =
        let (root, hs, agreed, responded, _, named) =
          Handshake.respond-initiate c laws alice bob ephemeral random ciphertext shared 0 e in
        let prefix = ad_prefix hs.identity_ed (identity_public c bob) in
        let (a, b, header, sealed, sent, got) =
          first-delivers c encode_header laws root dh_self bob.signed_prekey_secret new_self
            plaintext prefix in
        let sa : Session = record {
          ratchet =
              init_initiator c encode_header dh_self root (c.public_key bob.signed_prekey_secret);
          associated = prefix;
          pending_handshake = some hs;
        } in
        let sb : Session = record { ratchet = b; associated = prefix; pending_handshake = none } in
        (
          sa,
          record sa { ratchet = a },
          sb,
          pre_key hs header sealed,
          initiate-ok alice (bundle c bob) ephemeral random dh_self root _ prefix hs
              (verify_bundle-bundle c laws bob) agreed
              (ap (ad_prefix hs.identity_ed) (identity_ed-bundle bob)),
          encrypt-ok sa plaintext a header sealed sent,
          respond-ok new_self bob (without_first c laws bob) hs header sealed root plaintext sb
              responded
              (first_decrypt-opens new_self (without_first c laws bob) hs header sealed root _
                plaintext prefix b (rw named (signed_prekey-without_first bob))
                (ap (ad_prefix hs.identity_ed) (identity_public-without_first bob)) got),
          refl,
          refl,
        )
