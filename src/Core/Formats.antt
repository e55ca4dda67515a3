-- ===== src/Core/Formats.antt =====
-- A serialization of each stored type, for the tests.
use pigeonhole_clarity_messe.Prelude.{◌≡◌, refl, Option, none, some}
use pigeonhole_clarity_messe.Prelude.Bytes.{Bytes}
use pigeonhole_clarity_messe.Core.Wire.{HandshakeHeader, RatchetHeader, Message, pre_key, normal}
use pigeonhole_clarity_messe.Core.Codec.{Codec, number, pair, via, list, option, bytes}
use pigeonhole_clarity_messe.Core.Identity.Stored.{StoredAccount}
use pigeonhole_clarity_messe.Core.Ratchet.Stored.{StoredRatchet}
use pigeonhole_clarity_messe.Core.Session.Stored.{StoredSession}

abbrev pub header : Codec RatchetHeader
unfolding pair via bytes
header =
    via (pair bytes (pair number number)) (λ h. (h.dh_pub, (h.pn, h.n)))
      (λ p. record { dh_pub = p.0; pn = p.1.0; n = p.1.1 }) (λ h. refl)

abbrev pub handshake : Codec HandshakeHeader
unfolding pair via bytes option
handshake =
    via
      (pair bytes
        (pair bytes (pair bytes (pair number (pair (option number) (pair number bytes))))))
      (λ h. (
        h.identity_ed,
        (
          h.identity_dh,
          (
            h.ephemeral_dh,
            (h.signed_prekey_id, (h.one_time_prekey_id, (h.kyber_prekey_id, h.kyber_ciphertext))),
          ),
        ),
      ))
      (λ p. record {
        identity_ed = p.0;
        identity_dh = p.1.0;
        ephemeral_dh = p.1.1.0;
        signed_prekey_id = p.1.1.1.0;
        one_time_prekey_id = p.1.1.1.1.0;
        kyber_prekey_id = p.1.1.1.1.1.0;
        kyber_ciphertext = p.1.1.1.1.1.1;
      })
      (λ h. refl)

abbrev pub message_parts : Message → Option HandshakeHeader × (RatchetHeader × Bytes)
message_parts (pre_key hs h ciphertext) = (some hs, (h, ciphertext))
message_parts (normal h ciphertext) = (none, (h, ciphertext))

abbrev pub message_from : Option HandshakeHeader × (RatchetHeader × Bytes) → Message
message_from (some hs, (h, ciphertext)) = pre_key hs h ciphertext
message_from (none, (h, ciphertext)) = normal h ciphertext

unfoldable pub message_back : (m : Message) → message_from (message_parts m) ≡ m
message_back (pre_key hs h ciphertext) = refl
message_back (normal h ciphertext) = refl

abbrev pub message : Codec Message
unfolding pair via bytes option handshake header message_back
message = via (pair (option handshake) (pair header bytes)) message_parts message_from message_back

abbrev pub session : Codec StoredSession
unfolding pair via bytes option handshake
session =
    via (pair bytes (pair bytes (option handshake)))
      (λ s. (s.ratchet, (s.associated, s.pending_handshake)))
      (λ p. record { ratchet = p.0; associated = p.1.0; pending_handshake = p.1.1 }) (λ s. refl)

abbrev pub ratchet : Codec StoredRatchet
unfolding pair via bytes option list
ratchet =
    via
      (pair bytes (
        pair bytes (
          pair bytes (
            pair (option bytes) (
              pair (option bytes) (
                pair (option bytes) (
                  pair number
                    (pair number (pair number (list (pair (pair bytes number) bytes)))))))))))
      (λ r. (
        r.root_key,
        (
          r.dh_self,
          (
            r.dh_self_pub,
            (
              r.dh_remote,
              (r.chain_send, (r.chain_recv, (r.n_send, (r.n_recv, (r.pn, r.skipped))))),
            ),
          ),
        ),
      ))
      (λ p. record {
        root_key = p.0;
        dh_self = p.1.0;
        dh_self_pub = p.1.1.0;
        dh_remote = p.1.1.1.0;
        chain_send = p.1.1.1.1.0;
        chain_recv = p.1.1.1.1.1.0;
        n_send = p.1.1.1.1.1.1.0;
        n_recv = p.1.1.1.1.1.1.1.0;
        pn = p.1.1.1.1.1.1.1.1.0;
        skipped = p.1.1.1.1.1.1.1.1.1;
      })
      (λ r. refl)

abbrev pub account : Codec StoredAccount
unfolding pair via bytes list
account =
    via
      (pair bytes (
        pair bytes (
          pair number
            (pair bytes (pair number (pair bytes (pair (list (pair number bytes)) number)))))))
      (λ a. (
        a.ed_signing,
        (
          a.dh_identity,
          (
            a.signed_prekey_id,
            (
              a.signed_prekey,
              (a.kyber_prekey_id, (a.kyber_private, (a.one_time_prekeys, a.next_opk_id))),
            ),
          ),
        ),
      ))
      (λ p. record {
        ed_signing = p.0;
        dh_identity = p.1.0;
        signed_prekey_id = p.1.1.0;
        signed_prekey = p.1.1.1.0;
        kyber_prekey_id = p.1.1.1.1.0;
        kyber_private = p.1.1.1.1.1.0;
        one_time_prekeys = p.1.1.1.1.1.1.0;
        next_opk_id = p.1.1.1.1.1.1.1;
      })
      (λ a. refl)
