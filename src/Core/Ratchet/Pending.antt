-- ===== src/Core/Ratchet/Pending.antt =====
-- The state between two turns of core/src/ratchet.rs: one party has a new sending chain that the
-- other reaches by a Diffie-Hellman step, and how a message takes the pair on to the next.
use pigeonhole_clarity_messe.Prelude.{
  ℕ, ◌+◌, ◌-◌, ◌%◌, ◌≡◌, ◌≢◌, ◌⊎◌, inl, inr, refl, sym, ap, ◌∙◌, false, Option, none, some, [],
  arith,
}
use pigeonhole_clarity_messe.Prelude.Bytes.{Bytes}
use pigeonhole_clarity_messe.Prelude.BTreeMap
use pigeonhole_clarity_messe.Prelude.Result.{Result, ok}
use pigeonhole_clarity_messe.Core.Error.{Error}
use pigeonhole_clarity_messe.Core.Wire.{RatchetHeader}
use pigeonhole_clarity_messe.Core.Crypto.{Crypto, IsCrypto}
use pigeonhole_clarity_messe.Core.Kdf
use pigeonhole_clarity_messe.Core.Ratchet.Defs.{
  u32_mod, SkippedKey_discrete, DoubleRatchet, is_remote, associated_data, header_of, encrypt,
  encrypt_with, skip_loop, skip_message_keys, skip_chain, store_chain, dh_ratchet, decrypt_current,
  after_skip, turn, after_old_chain, after_turn, decrypt_cached, decrypt, init_initiator,
  init_responder,
}
use pigeonhole_clarity_messe.Core.Ratchet.Chain.{chain_key, message_key, skip_message_keys-runs}

-- The receiver has had all `n` messages of the current chain, or has had no chain yet.
abbrev pub CaughtUp : DoubleRatchet → ℕ → Type 0
CaughtUp r n =
    (r.chain_recv ≡ none)
    ⊎ ((k remote : Bytes) × (r.chain_recv ≡ some k) × (r.dh_remote ≡ some remote) × (r.n_recv ≡ n))

-- `a` has a new chain that `b` reaches by a Diffie-Hellman step, and `b` has had all before it.
pub record Pending (c : Crypto) (a b : DoubleRatchet) : Type 0 where
  pub sender_pub : a.dh_self_pub ≡ c.public_key a.dh_self
  pub receiver_pub : b.dh_self_pub ≡ c.public_key b.dh_self
  pub sender_remote : a.dh_remote ≡ some b.dh_self_pub
  pub chain :
      a.chain_send ≡ some (Kdf.kdf_rk c b.root_key (c.diffie_hellman b.dh_self a.dh_self_pub)).1
  pub root : a.root_key ≡ (Kdf.kdf_rk c b.root_key (c.diffie_hellman b.dh_self a.dh_self_pub)).0
  pub unsent : a.n_send ≡ 0
  pub is_new : is_remote b.dh_remote a.dh_self_pub ≡ false
  pub receiver_caught : CaughtUp b a.pn
  pub sender_caught : CaughtUp a b.n_send
  pub sender_cache : a.skipped ≡ []
  pub receiver_cache : b.skipped ≡ []

module _ (c : Crypto) (encode_header : RatchetHeader → Bytes) where
  skip-CaughtUp :
      (r : DoubleRatchet) (n : ℕ)
      → CaughtUp r n
      → skip_message_keys c encode_header r n ≡ (r, ok tt)
  unfolding skip_message_keys
  skip-CaughtUp r n (inl e) = ap (skip_chain c encode_header r n) e
  skip-CaughtUp r n (inr (k, remote, chain, remote', count)) =
      let rounds : n - r.n_recv ≡ 0 = omega arith in
      skip_message_keys-runs c encode_header remote k r n k chain remote' (omega arith)
        (omega arith)
      ∙ ap (λ (j : ℕ). store_chain c encode_header (skip_loop c encode_header j remote k r)) rounds
      ∙ unfold skip_loop in (λ i. (record r { chain_recv = sym chain i }, ok tt))

  -- What a sender with a new chain puts on the wire, and the sender after it.
  pub encrypt-Pending :
      (a b : DoubleRatchet) (plaintext ad_prefix : Bytes)
      → Pending c a b
      → let ck = (Kdf.kdf_rk c b.root_key (c.diffie_hellman b.dh_self a.dh_self_pub)).1 in
        encrypt c encode_header a plaintext ad_prefix
        ≡ ok (
          record a { chain_send = some (chain_key c ck 1); n_send = (a.n_send + 1) % u32_mod },
          header_of c encode_header a,
          Kdf.aead_seal c
              (message_key c ck 0)
              plaintext
              (associated_data c encode_header ad_prefix (header_of c encode_header a)),
        )
  unfolding encrypt
  encrypt-Pending a b plaintext ad_prefix p =
      ap (encrypt_with c encode_header a plaintext ad_prefix) p.chain

  -- The receiver after a first message of a new chain, for a fresh secret `new_self`.
  abbrev turned : Bytes → DoubleRatchet → Bytes → DoubleRatchet
  turned new_self b remote_pub = dh_ratchet c encode_header new_self b remote_pub

  abbrev pub received : Bytes → DoubleRatchet → Bytes → DoubleRatchet
  received new_self b remote_pub =
      let ck = (Kdf.kdf_rk c b.root_key (c.diffie_hellman b.dh_self remote_pub)).1 in
      record (dh_ratchet c encode_header new_self b remote_pub) {
        chain_recv = some (chain_key c ck 1);
        n_recv = (0 + 1) % u32_mod;
      }

  turn-Pending :
      (new_self : Bytes) (a b : DoubleRatchet)
      → Pending c a b
      → turn c encode_header new_self b (header_of c encode_header a)
        ≡ (turned new_self b a.dh_self_pub, ok tt)
  unfolding turn
  turn-Pending new_self a b p = rw p.is_new (
      ap (after_old_chain c encode_header new_self (header_of c encode_header a))
        (skip-CaughtUp b a.pn p.receiver_caught))

  skip-turned :
      (new_self : Bytes) (a b : DoubleRatchet)
      → Pending c a b
      → skip_message_keys c encode_header (turned new_self b a.dh_self_pub) a.n_send
        ≡ (turned new_self b a.dh_self_pub, ok tt)
  unfolding dh_ratchet
  skip-turned new_self a b p = skip-CaughtUp (turned new_self b a.dh_self_pub) a.n_send (
      inr (
        (Kdf.kdf_rk c b.root_key (c.diffie_hellman b.dh_self a.dh_self_pub)).1,
        a.dh_self_pub,
        refl,
        refl,
        sym p.unsent,
      ))

  module _ (laws : IsCrypto c) where
    pub decrypt-Pending :
        (new_self : Bytes) (a b : DoubleRatchet) (plaintext ad_prefix : Bytes)
        → Pending c a b
        → let ck = (Kdf.kdf_rk c b.root_key (c.diffie_hellman b.dh_self a.dh_self_pub)).1 in
          decrypt c encode_header new_self b
            (header_of c encode_header a)
            (Kdf.aead_seal c
              (message_key c ck 0)
              plaintext
              (associated_data c encode_header ad_prefix (header_of c encode_header a)))
            ad_prefix
          ≡ (received new_self b a.dh_self_pub, ok plaintext)
    unfolding decrypt decrypt_current dh_ratchet BTreeMap.get
    decrypt-Pending new_self a b plaintext ad_prefix p =
        let header = header_of c encode_header a in
        let ad = associated_data c encode_header ad_prefix header in
        let ck = (Kdf.kdf_rk c b.root_key (c.diffie_hellman b.dh_self a.dh_self_pub)).1 in
        let ciphertext = Kdf.aead_seal c (message_key c ck 0) plaintext ad in
        ap
          (λ (m : BTreeMap.BTreeMap (Bytes × ℕ) Bytes).
            decrypt_cached c encode_header new_self b header ciphertext ad
              (BTreeMap.get SkippedKey_discrete m (a.dh_self_pub, a.n_send)))
          p.receiver_cache
        ∙ ap (after_turn c encode_header header ciphertext ad) (turn-Pending new_self a b p)
        ∙ ap (after_skip c encode_header ciphertext ad) (skip-turned new_self a b p)
        ∙ ap (λ (x : Result Error Bytes). (received new_self b a.dh_self_pub, x))
            (Kdf.aead_open-aead_seal c laws (message_key c ck 0) plaintext ad)

    abbrev pub sent : DoubleRatchet → DoubleRatchet → DoubleRatchet
    sent a b =
        let ck = (Kdf.kdf_rk c b.root_key (c.diffie_hellman b.dh_self a.dh_self_pub)).1 in
        record a { chain_send = some (chain_key c ck 1); n_send = (a.n_send + 1) % u32_mod }

    is_remote_other :
        (o : Option Bytes) (old new : Bytes) → o ≡ some old → old ≢ new → is_remote o new ≡ false
    unfolding is_remote
    is_remote_other none old new e h = refl
    is_remote_other (some k) old new e h = ground arith

    pub step-Pending :
        (new_self : Bytes) (a b : DoubleRatchet)
        → Pending c a b
        → b.dh_self_pub ≢ c.public_key new_self
        → Pending c (received new_self b a.dh_self_pub) (sent a b)
    unfolding dh_ratchet
    step-Pending new_self a b p fresh =
        let agreed : c.diffie_hellman new_self a.dh_self_pub
            ≡ c.diffie_hellman a.dh_self (c.public_key new_self) =
          ap (c.diffie_hellman new_self) p.sender_pub ∙ laws.dh_comm new_self a.dh_self in
        record {
          sender_pub = refl;
          receiver_pub = p.sender_pub;
          sender_remote = refl;
          chain = λ i. some (Kdf.kdf_rk c (sym p.root i) (agreed i)).1;
          root = λ i. (Kdf.kdf_rk c (sym p.root i) (agreed i)).0;
          unsent = refl;
          is_new =
              is_remote_other a.dh_remote b.dh_self_pub (c.public_key new_self) p.sender_remote
                fresh;
          receiver_caught = p.sender_caught;
          sender_caught = inr (_, _, refl, refl, omega (arith, p.unsent));
          sender_cache = p.receiver_cache;
          receiver_cache = p.sender_cache;
        }

    pub init-Pending :
        (root initiator_self responder_self : Bytes)
        → Pending c
            (init_initiator c encode_header initiator_self root (c.public_key responder_self))
            (init_responder c encode_header root responder_self)
    unfolding init_initiator init_responder is_remote
    init-Pending root initiator_self responder_self =
        let agreed = laws.dh_comm initiator_self responder_self in
        record {
          sender_pub = refl;
          receiver_pub = refl;
          sender_remote = refl;
          chain = λ i. some (Kdf.kdf_rk c root (agreed i)).1;
          root = λ i. (Kdf.kdf_rk c root (agreed i)).0;
          unsent = refl;
          is_new = refl;
          receiver_caught = inl refl;
          sender_caught = inl refl;
          sender_cache = refl;
          receiver_cache = refl;
        }
