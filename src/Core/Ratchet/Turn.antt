-- ===== src/Core/Ratchet/Turn.antt =====
-- The Diffie-Hellman ratchet of core/src/ratchet.rs: two parties that take turns stay in step.
use pigeonhole_clarity_messe.Prelude.{◌≡◌, ◌≢◌, refl, List, [], ◌∷◌}
use pigeonhole_clarity_messe.Prelude.Bytes.{Bytes}
use pigeonhole_clarity_messe.Prelude.Result.{Result, ok, ◌>>=◌}
use pigeonhole_clarity_messe.Core.Error.{Error}
use pigeonhole_clarity_messe.Core.Wire.{RatchetHeader}
use pigeonhole_clarity_messe.Core.Crypto.{Crypto, IsCrypto}
use pigeonhole_clarity_messe.Core.Ratchet.Defs.{
  DoubleRatchet, header_of, encrypt, dh_ratchet, decrypt, init_initiator, init_responder,
}
use pigeonhole_clarity_messe.Core.Ratchet.Pending.{
  Pending, received, sent, encrypt-Pending, decrypt-Pending, step-Pending, init-Pending,
}

module _ (c : Crypto) (encode_header : RatchetHeader → Bytes) where
  -- Two parties that write in turn: each encrypts once and the other decrypts. A round has its
  -- plaintext and the secret that its receiver draws, and gives the plaintext that the receiver
  -- decrypts and the ratchet key that the header carried.
  unfoldable pub exchange :
      Bytes
      → DoubleRatchet
      → DoubleRatchet
      → List (Bytes × Bytes)
      → Result Error (List (Bytes × Bytes))
  exchange ad_prefix a b [] = ok []
  exchange ad_prefix a b ((plaintext, new_self) ∷ rest) = do
    (a', header, ciphertext) ← encrypt c encode_header a plaintext ad_prefix
    let got = decrypt c encode_header new_self b header ciphertext ad_prefix
    out ← got.1
    outs ← exchange ad_prefix got.0 a' rest
    ok ((out, header.dh_pub) ∷ outs)

  -- The plaintexts, the first under the given key and each later one under the key of the secret
  -- that was drawn in the round before it.
  abbrev pub transcript : Bytes → List (Bytes × Bytes) → List (Bytes × Bytes)
  transcript pub_key [] = []
  transcript pub_key ((plaintext, new_self) ∷ rest) =
      (plaintext, pub_key) ∷ transcript (c.public_key new_self) rest

  -- Each drawn secret has another public key than the one that its party replaces.
  abbrev pub AllFresh : Bytes → Bytes → List (Bytes × Bytes) → Type 0
  AllFresh receiver_pub sender_pub [] = Unit
  AllFresh receiver_pub sender_pub ((plaintext, new_self) ∷ rest) =
      (receiver_pub ≢ c.public_key new_self) × AllFresh sender_pub (c.public_key new_self) rest

  module _ (laws : IsCrypto c) where
    exchange-delivers :
        (ad_prefix : Bytes) (a b : DoubleRatchet) (rounds : List (Bytes × Bytes))
        → Pending c a b
        → AllFresh b.dh_self_pub a.dh_self_pub rounds
        → exchange ad_prefix a b rounds ≡ ok (transcript a.dh_self_pub rounds)
    unfolding exchange dh_ratchet
    exchange-delivers ad_prefix a b [] p fresh = refl
    exchange-delivers ad_prefix a b ((plaintext, new_self) ∷ rest) p fresh =
        let header = header_of c encode_header a in
        rw
          (
            encrypt-Pending c encode_header a b plaintext ad_prefix p,
            decrypt-Pending c encode_header laws new_self a b plaintext ad_prefix p,
            exchange-delivers ad_prefix (received c encode_header new_self b a.dh_self_pub)
                (sent c encode_header laws a b) rest
                (step-Pending c encode_header laws new_self a b p fresh.0)
                (unfold dh_ratchet in fresh.1),
          )
          refl

    -- An initiator and a responder that start from one root secret, the initiator knowing the
    -- responder's public key, deliver any alternating conversation in which each drawn secret has
    -- another public key than the one that its party replaces: every message decrypts to its
    -- plaintext, the first header carries the initiator's key, and every later header the key of
    -- the secret that its sender drew on receiving the message before.
    pub exchange-init :
        (root initiator_self responder_self ad_prefix : Bytes) (rounds : List (Bytes × Bytes))
        → AllFresh (c.public_key responder_self) (c.public_key initiator_self) rounds
        → exchange ad_prefix
            (init_initiator c encode_header initiator_self root (c.public_key responder_self))
            (init_responder c encode_header root responder_self)
            rounds
          ≡ ok (transcript (c.public_key initiator_self) rounds)
    unfolding init_initiator init_responder
    exchange-init root initiator_self responder_self ad_prefix rounds fresh =
        exchange-delivers ad_prefix _ _ rounds
          (init-Pending c encode_header laws root initiator_self responder_self) fresh

    -- The first message, on its own.
    pub first-delivers :
        (root initiator_self responder_self new_self plaintext ad_prefix : Bytes)
        → (a b : DoubleRatchet) × (header : RatchetHeader) × (ciphertext : Bytes) × (encrypt c
              encode_header
              (init_initiator c encode_header initiator_self root (c.public_key responder_self))
              plaintext
              ad_prefix
            ≡ ok (a, header, ciphertext))
          × (decrypt c encode_header new_self
                (init_responder c encode_header root responder_self)
                header
                ciphertext
                ad_prefix
              ≡ (b, ok plaintext))
    first-delivers root initiator_self responder_self new_self plaintext ad_prefix =
        let p = init-Pending c encode_header laws root initiator_self responder_self in
        (
          _,
          _,
          _,
          _,
          encrypt-Pending c encode_header _ _ plaintext ad_prefix p,
          decrypt-Pending c encode_header laws new_self _ _ plaintext ad_prefix p,
        )
