-- ===== src/Core/Session/Stored.antt =====
-- `serialize` and `deserialize` of core/src/session.rs, and the sessions that its operations reach.
-- `format` and `ratchet_format` are bincode at the stored session and the stored ratchet.
use pigeonhole_clarity_messe.Prelude.{◌≡◌, refl, subst, Option}
use pigeonhole_clarity_messe.Prelude.Bytes.{Bytes}
use pigeonhole_clarity_messe.Prelude.Result.{
  Result, ok, err, map_err, ◌>>=◌, >>=-eq-ok, ok-injective,
}
use pigeonhole_clarity_messe.Core.Error.{Error}
use pigeonhole_clarity_messe.Core.Wire.{
  PreKeyBundle, HandshakeHeader, RatchetHeader, Message, pre_key, normal,
}
use pigeonhole_clarity_messe.Core.Crypto.{Crypto}
use pigeonhole_clarity_messe.Core.Bincode.{Bincode, IsBincode}
use pigeonhole_clarity_messe.Core.Identity.{Account, verify_bundle, signed_prekey}
use pigeonhole_clarity_messe.Core.Handshake
use pigeonhole_clarity_messe.Core.Ratchet.Defs
use pigeonhole_clarity_messe.Core.Ratchet.Stored
use pigeonhole_clarity_messe.Core.Ratchet.Stored.{
  StoredRatchet, IsValid, init_initiator-IsValid, init_responder-IsValid, decrypt-IsValid,
  encrypt-IsValid,
}
use pigeonhole_clarity_messe.Core.Session.{
  Session, initiate, respond, encrypt, decrypt, heard, session_of, first_decrypt, after_handshake,
  ratchet_part,
}

pub record StoredSession : Type 0 where
  pub ratchet : Bytes
  pub associated : Bytes
  pub pending_handshake : Option HandshakeHeader

module _ (format : Bincode StoredSession) (ratchet_format : Bincode StoredRatchet) where
  unfoldable pub serialize : Session → Bytes
  unfolding Stored.serialize
  serialize s = format.serialize (record {
    ratchet = Stored.serialize ratchet_format s.ratchet;
    associated = s.associated;
    pending_handshake = s.pending_handshake;
  })

  unfoldable pub deserialize : Bytes → Result Error Session
  unfolding Stored.deserialize
  deserialize bytes = do
    s ← map_err Error.wire (format.deserialize bytes)
    ratchet ← Stored.deserialize ratchet_format s.ratchet
    ok (record {
      ratchet = ratchet;
      associated = s.associated;
      pending_handshake = s.pending_handshake;
    })

  restored :
      IsBincode format
      → IsBincode ratchet_format
      → (s : Session) → IsValid s.ratchet
      → deserialize (serialize s) ≡ ok s
  unfolding deserialize serialize
  restored laws ratchet_laws s h =
      rw (laws _) (rw (Stored.restored ratchet_format ratchet_laws s.ratchet h.1) refl)

module _ (c : Crypto) (encode_header : RatchetHeader → Bytes) where
  -- The sessions that the operations give, whoever the other side is and whatever it sends.
  pub data Reachable : Session → Type 0 where
    initiated :
        (me : Account) (bundle : PreKeyBundle) (ephemeral random dh_self : Bytes) (s : Session)
        → initiate c encode_header me bundle ephemeral random dh_self ≡ ok s
        → Reachable s
    responded :
        (new_self plaintext : Bytes) (me : Account) (message : Message) (s : Session)
        → (respond c encode_header new_self me message).1 ≡ ok (s, plaintext)
        → Reachable s
    encrypted :
        (s s' : Session) (plaintext : Bytes) (message : Message)
        → Reachable s
        → encrypt c encode_header s plaintext ≡ ok (s', message)
        → Reachable s'
    decrypted :
        (s : Session) (new_self : Bytes) (message : Message)
        → Reachable s
        → Reachable (decrypt c encode_header new_self s message).0

  initiate-IsValid :
      (me : Account) (bundle : PreKeyBundle) (ephemeral random dh_self : Bytes) (s : Session)
      → initiate c encode_header me bundle ephemeral random dh_self ≡ ok s
      → IsValid s.ratchet
  unfolding initiate
  initiate-IsValid me bundle ephemeral random dh_self s h =
      let (_, _, after) = >>=-eq-ok (verify_bundle c bundle) _ h in
      let (agreed, _, end) = >>=-eq-ok (Handshake.initiate c me bundle ephemeral random) _ after in
      subst (λ (s : Session). IsValid s.ratchet) (ok-injective end)
        (init_initiator-IsValid c encode_header dh_self agreed.0 agreed.2)

  session_of-IsValid :
      (prefix plaintext : Bytes) (s : Session) (got : Defs.DoubleRatchet × Result Error Bytes)
      → session_of c encode_header prefix got ≡ ok (s, plaintext)
      → IsValid got.0
      → IsValid s.ratchet
  session_of-IsValid prefix plaintext s (ratchet, ok _) e h =
      subst (λ (p : Session × Bytes). IsValid p.0.ratchet) (ok-injective e) h
  session_of-IsValid prefix plaintext s (ratchet, err _) e h = cc

  first_decrypt-IsValid :
      (new_self plaintext : Bytes) (me : Account) (hs : HandshakeHeader) (header : RatchetHeader)
      (ciphertext root : Bytes) (s : Session)
      → first_decrypt c encode_header new_self me hs header ciphertext root ≡ ok (s, plaintext)
      → IsValid s.ratchet
  unfolding first_decrypt
  first_decrypt-IsValid new_self plaintext me hs header ciphertext root s h =
      let (spk, _, end) = >>=-eq-ok (signed_prekey me hs.signed_prekey_id) _ h in
      session_of-IsValid _ plaintext s _ end (
        decrypt-IsValid c encode_header new_self (Defs.init_responder c encode_header root spk)
          header ciphertext _ (init_responder-IsValid c encode_header root spk))

  after_handshake-IsValid :
      (new_self plaintext : Bytes) (hs : HandshakeHeader) (header : RatchetHeader)
      (ciphertext : Bytes) (s : Session) (agreed : Account × Result Error Bytes)
      → (after_handshake c encode_header new_self hs header ciphertext agreed).1 ≡ ok (s, plaintext)
      → IsValid s.ratchet
  unfolding after_handshake
  after_handshake-IsValid new_self plaintext hs header ciphertext s (me, ok root) h =
      first_decrypt-IsValid new_self plaintext me hs header ciphertext root s h
  after_handshake-IsValid new_self plaintext hs header ciphertext s (me, err e) h = cc

  respond-IsValid :
      (new_self plaintext : Bytes) (me : Account) (message : Message) (s : Session)
      → (respond c encode_header new_self me message).1 ≡ ok (s, plaintext)
      → IsValid s.ratchet
  unfolding respond
  respond-IsValid new_self plaintext me (pre_key hs header ciphertext) s h =
      after_handshake-IsValid new_self plaintext hs header ciphertext s (Handshake.respond c me hs)
        h
  respond-IsValid new_self plaintext me (normal header ciphertext) s h = cc

  encrypt-keeps :
      (s s' : Session) (plaintext : Bytes) (message : Message)
      → encrypt c encode_header s plaintext ≡ ok (s', message)
      → IsValid s.ratchet
      → IsValid s'.ratchet
  unfolding encrypt
  encrypt-keeps s s' plaintext message h valid =
      let (sealed, e, end) =
        >>=-eq-ok (Defs.encrypt c encode_header s.ratchet plaintext s.associated) _ h in
      subst (λ (p : Session × Message). IsValid p.0.ratchet) (ok-injective end)
        (encrypt-IsValid c encode_header s.ratchet sealed.0 plaintext s.associated sealed.2 sealed.1
          e valid)

  heard-IsValid :
      (s : Session) (got : Defs.DoubleRatchet × Result Error Bytes)
      → IsValid got.0
      → IsValid (heard c encode_header s got).0.ratchet
  heard-IsValid s (ratchet, ok _) h = h
  heard-IsValid s (ratchet, err _) h = h

  decrypt-keeps :
      (s : Session) (new_self : Bytes) (message : Message)
      → IsValid s.ratchet
      → IsValid (decrypt c encode_header new_self s message).0.ratchet
  unfolding decrypt
  decrypt-keeps s new_self message h =
      let part = ratchet_part c encode_header message in
      heard-IsValid s (Defs.decrypt c encode_header new_self s.ratchet part.0 part.1 s.associated)
        (decrypt-IsValid c encode_header new_self s.ratchet part.0 part.1 s.associated h)

  -- Every session that the operations reach, whatever the other side sends, holds at most
  -- `MAX_SKIPPED_CACHE` skipped keys, in the order of the map's keys.
  pub reached-IsValid : (s : Session) → Reachable s → IsValid s.ratchet
  reached-IsValid s (initiated me b ephemeral random dh_self _ h) =
      initiate-IsValid me b ephemeral random dh_self s h
  reached-IsValid s (responded new_self plaintext me message _ h) =
      respond-IsValid new_self plaintext me message s h
  reached-IsValid s (encrypted before _ plaintext message r h) =
      encrypt-keeps before s plaintext message h (reached-IsValid before r)
  reached-IsValid s (decrypted before new_self message r) =
      decrypt-keeps before new_self message (reached-IsValid before r)

  -- Every session that the operations reach comes back from its serialization as it was.
  pub deserialize-serialize :
      (format : Bincode StoredSession) (ratchet_format : Bincode StoredRatchet)
      → IsBincode format
      → IsBincode ratchet_format
      → (s : Session) → Reachable s
      → deserialize format ratchet_format (serialize format ratchet_format s) ≡ ok s
  deserialize-serialize format ratchet_format laws ratchet_laws s r =
      restored format ratchet_format laws ratchet_laws s (reached-IsValid s r)
