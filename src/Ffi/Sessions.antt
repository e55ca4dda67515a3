-- ===== src/Ffi/Sessions.antt =====
-- The session functions of ffi/src/lib.rs, from bytes to bytes. A call that changes the account or
-- the session returns it; fresh secrets are arguments, and the formats are bincode.
use pigeonhole_clarity_messe.Prelude.{ℕ, ℕ_discrete, ◌≡◌, refl, ap, ◌∙◌, Option, none, some}
use pigeonhole_clarity_messe.Prelude.Bytes.{Bytes}
use pigeonhole_clarity_messe.Prelude.BTreeMap
use pigeonhole_clarity_messe.Prelude.Result.{Result, ok, err, ◌>>=◌}
use pigeonhole_clarity_messe.Core.Error.{Error}
use pigeonhole_clarity_messe.Core.Wire.{PreKeyBundle, RatchetHeader, Message}
use pigeonhole_clarity_messe.Core.Crypto.{Crypto, IsCrypto}
use pigeonhole_clarity_messe.Core.Bincode.{Bincode, IsBincode}
use pigeonhole_clarity_messe.Core.Encoding
use pigeonhole_clarity_messe.Core.Encoding.{
  encode_bundle, decode_bundle, encode_message, decode_message, decode_bundle-encode_bundle,
}
use pigeonhole_clarity_messe.Core.Identity.{Account, bundle}
use pigeonhole_clarity_messe.Core.Handshake.{without_first, spent, get-without_first}
use pigeonhole_clarity_messe.Core.Ratchet.Stored.{StoredRatchet}
use pigeonhole_clarity_messe.Core.Session
use pigeonhole_clarity_messe.Core.Session.{Session, respond-encrypt}
use pigeonhole_clarity_messe.Core.Session.Stored
use pigeonhole_clarity_messe.Core.Session.Stored.{StoredSession}
use pigeonhole_clarity_messe.Ffi.Buffer.{ClarityBuffer, from_vec, null, as_slice}
use pigeonhole_clarity_messe.Ffi.Accounts.{to_option}

module _ (format : Bincode StoredSession) (ratchet_format : Bincode StoredRatchet) where
  unfoldable pub clarity_session_serialize : Option Session → ClarityBuffer
  unfolding Stored.serialize from_vec null
  clarity_session_serialize (some s) = from_vec (Stored.serialize format ratchet_format s)
  clarity_session_serialize none = null

  unfoldable pub clarity_session_deserialize : Option Bytes → Option Session
  unfolding Stored.deserialize as_slice
  clarity_session_deserialize region =
      to_option (Stored.deserialize format ratchet_format (as_slice region))

module _ (c : Crypto) (encode_header : RatchetHeader → Bytes) (bundle_format : Bincode PreKeyBundle)
    (message_format : Bincode Message) where
  unfoldable pub clarity_session_initiate :
      Option Account → Option Bytes → Bytes → Bytes → Bytes → Option Session
  unfolding decode_bundle Session.initiate as_slice
  clarity_session_initiate none bundle_region ephemeral random dh_self = none
  clarity_session_initiate (some account) bundle_region ephemeral random dh_self = to_option do
    their_bundle ← decode_bundle bundle_format (as_slice bundle_region)
    Session.initiate c encode_header account their_bundle ephemeral random dh_self

  -- `*out_plaintext = …` where it is not null.
  abbrev pub store_at : Option ClarityBuffer → ClarityBuffer → Option ClarityBuffer
  store_at none buffer = none
  store_at (some _) buffer = some buffer

  -- The account, the session and what `out_plaintext` points to.
  abbrev pub give_session :
      Option ClarityBuffer
      → Account × Result Error (Session × Bytes)
      → Option Account × Option Session × Option ClarityBuffer
  unfolding from_vec null
  give_session out (account, ok (session, plaintext)) =
      (some account, some session, store_at out (from_vec plaintext))
  give_session out (account, err e) = (some account, none, store_at out null)

  abbrev pub respond_to :
      Bytes
      → Account
      → Option ClarityBuffer
      → Result Error Message
      → Option Account × Option Session × Option ClarityBuffer
  unfolding Session.respond give_session null
  respond_to new_self account out (ok message) =
      give_session out (Session.respond c encode_header new_self account message)
  respond_to new_self account out (err e) = (some account, none, store_at out null)

  unfoldable pub clarity_session_respond :
      Bytes
      → Option Account
      → Option Bytes
      → Option ClarityBuffer
      → Option Account × Option Session × Option ClarityBuffer
  unfolding respond_to decode_message null as_slice
  clarity_session_respond new_self none msg out = (none, none, store_at out null)
  clarity_session_respond new_self (some account) msg out =
      respond_to new_self account out (decode_message message_format (as_slice msg))

  -- A session that cannot encrypt stays as it was.
  abbrev pub give_message :
      Session → Result Error (Session × Message) → Option Session × ClarityBuffer
  unfolding encode_message from_vec null
  give_message s (ok (after, message)) =
      (some after, from_vec (encode_message message_format message))
  give_message s (err e) = (some s, null)

  unfoldable pub clarity_session_encrypt :
      Option Session → Option Bytes → Option Session × ClarityBuffer
  unfolding Session.encrypt give_message null as_slice
  clarity_session_encrypt none plaintext = (none, null)
  clarity_session_encrypt (some s) plaintext =
      give_message s (Session.encrypt c encode_header s (as_slice plaintext))

  abbrev pub give_plaintext : Session × Result Error Bytes → Option Session × ClarityBuffer
  unfolding from_vec null
  give_plaintext (s, ok plaintext) = (some s, from_vec plaintext)
  give_plaintext (s, err e) = (some s, null)

  abbrev pub decrypt_decoded :
      Bytes → Session → Result Error Message → Option Session × ClarityBuffer
  unfolding Session.decrypt give_plaintext null
  decrypt_decoded new_self s (ok message) =
      give_plaintext (Session.decrypt c encode_header new_self s message)
  decrypt_decoded new_self s (err e) = (some s, null)

  unfoldable pub clarity_session_decrypt :
      Bytes → Option Session → Option Bytes → Option Session × ClarityBuffer
  unfolding decode_message decrypt_decoded null as_slice
  clarity_session_decrypt new_self none msg = (none, null)
  clarity_session_decrypt new_self (some s) msg =
      decrypt_decoded new_self s (decode_message message_format (as_slice msg))

  -- Through the C interface, bytes to bytes: an application that has the encoded bundle of an
  -- account, and whose encapsulation to it succeeds, gets a session from it and an encoded message
  -- from a plaintext; the application of that account, given the bytes of the message and a place
  -- for the plaintext, gets a session and the plaintext. Whatever id is then looked up in the
  -- one-time prekeys of the account that it holds, the id of the first, which the bundle named, finds
  -- nothing, and every other finds what it found before.
  pub clarity_session_respond-clarity_session_encrypt :
      IsBincode bundle_format
      → IsBincode message_format
      → (laws : IsCrypto c)
      → (alice bob : Account)
        (ephemeral random dh_self new_self plaintext ciphertext shared : Bytes)
        (before : ClarityBuffer) (j : ℕ)
      → c.ml_kem_encapsulate (c.ml_kem_public bob.kyber) random ≡ some (ciphertext, shared)
      → (sa sa' sb : Session) × (wire : Bytes) × (clarity_session_initiate
            (some alice)
            (some (encode_bundle bundle_format (bundle c bob)))
            ephemeral
            random
            dh_self
          ≡ some sa)
        × (clarity_session_encrypt (some sa) (some plaintext) ≡ (some sa', some wire))
        × (clarity_session_respond new_self (some bob) (some wire) (some before)
            ≡ (some (without_first c laws bob), some sb, some (some plaintext)))
        × (BTreeMap.get ℕ_discrete (without_first c laws bob).one_time_prekeys j
            ≡ spent bob.one_time_prekeys j)
  unfolding clarity_session_initiate clarity_session_encrypt clarity_session_respond as_slice
      from_vec give_message give_session respond_to
  clarity_session_respond-clarity_session_encrypt bundle_laws message_laws laws alice bob ephemeral
        random dh_self new_self plaintext ciphertext shared before j e =
      let (sa, sa', sb, message, initiated, encrypted, responded, _, _) =
        respond-encrypt c encode_header laws alice bob ephemeral random dh_self new_self plaintext
          ciphertext shared e in
      (
        sa,
        sa',
        sb,
        encode_message message_format message,
        rw (decode_bundle-encode_bundle bundle_format bundle_laws (bundle c bob), initiated) refl,
        ap (give_message sa) encrypted,
        ap (respond_to new_self bob (some before))
              (Encoding.restored message_format message_laws message)
            ∙ ap (give_session (some before)) responded,
        get-without_first c laws bob j,
      )
