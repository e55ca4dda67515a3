-- ===== src/Core/Handshake.antt =====
-- The PQXDH handshake of core/src/handshake.rs. The ephemeral secret and the randomness of the
-- encapsulation are arguments; the error of a step leaves the account as the code leaves it.
pub mod Prekeys
use pigeonhole_clarity_messe.Prelude.{
  ℕ, ◌==◌, ◌≡◌, refl, ap, ite, arith, if_pos, ◌∙◌, ==_iff, Option, none, some, [], ◌∷◌, ◌++◌,
  ℕ_discrete, if◌then◌else◌,
}
use pigeonhole_clarity_messe.Prelude.Bytes.{Bytes}
use pigeonhole_clarity_messe.Prelude.BTreeMap
use pigeonhole_clarity_messe.Prelude.Result.{Result, ok, err, ok_or, ◌>>=◌}
use pigeonhole_clarity_messe.Core.Error.{Error}
use pigeonhole_clarity_messe.Core.Wire.{PreKeyBundle, HandshakeHeader}
use pigeonhole_clarity_messe.Core.Crypto.{Crypto, IsCrypto}
use pigeonhole_clarity_messe.Core.Kdf
use pigeonhole_clarity_messe.Core.Pqkem
use pigeonhole_clarity_messe.Core.Identity.{
  Account, identity_public, signed_prekey, take_one_time_prekey, bundle, first_entry, entry_id,
  entry_public,
}

-- `ikm.extend_from_slice` of a term that may be missing.
abbrev pub extend_some : Bytes → Option Bytes → Bytes
extend_some ikm none = ikm
extend_some ikm (some term) = ikm ++ term

-- What is found under an id in a pool whose first entry, with all others of its id, is spent.
abbrev pub spent : BTreeMap.BTreeMap ℕ Bytes → ℕ → Option Bytes
unfolding BTreeMap.get
spent [] j = none
spent ((id, secret) ∷ pool) j = ite (ℕ_discrete id j) none (BTreeMap.get ℕ_discrete pool j)

module _ (c : Crypto) where
  open c use {public_key, diffie_hellman}

  -- `dh4` of an optional key, then the post-quantum secret.
  abbrev pub key_material : Bytes → Bytes → Bytes → Option Bytes → Bytes → Bytes
  key_material dh1 dh2 dh3 dh4 kyber_secret =
      extend_some (((([] ++ dh1) ++ dh2) ++ dh3)) dh4 ++ kyber_secret

  -- `if let Some(opk)`: the fourth term.
  abbrev pub fourth : (Bytes → Bytes) → Option Bytes → Option Bytes
  fourth dh none = none
  fourth dh (some opk) = some (dh opk)

  unfoldable pub initiate :
      Account → PreKeyBundle → Bytes → Bytes → Result Error (Bytes × HandshakeHeader × Bytes)
  unfolding Pqkem.encapsulate identity_public
  initiate me b ephemeral random = do
    encapsulated ← Pqkem.encapsulate c b.kyber_prekey random
    ok (
      Kdf.kdf_root_from_ikm c (
          key_material (diffie_hellman me.dh_identity b.signed_prekey)
            (diffie_hellman ephemeral b.identity_dh) (diffie_hellman ephemeral b.signed_prekey)
            (fourth (diffie_hellman ephemeral) b.one_time_prekey) encapsulated.1),
      record {
        identity_ed = identity_public c me;
        identity_dh = public_key me.dh_identity;
        ephemeral_dh = public_key ephemeral;
        signed_prekey_id = b.signed_prekey_id;
        one_time_prekey_id = b.one_time_prekey_id;
        kyber_prekey_id = b.kyber_prekey_id;
        kyber_ciphertext = encapsulated.0;
      },
      b.signed_prekey,
    )

  -- The `match hs.one_time_prekey_id`.
  abbrev pub consume : Account → Option ℕ → Account × Result Error (Option Bytes)
  unfolding take_one_time_prekey
  consume me none = (me, ok none)
  consume me (some id) =
      let taken = take_one_time_prekey me id in (taken.0, (do secret ← taken.1; ok (some secret)))

  -- The shared root, from the secrets that were gathered.
  unfoldable pub responder_root :
      Account → HandshakeHeader → Bytes → Option Bytes → Result Error Bytes
  unfolding Pqkem.decapsulate
  responder_root me hs spk one_time = do
    kyber_secret ← Pqkem.decapsulate c me.kyber hs.kyber_ciphertext
    ok (
        Kdf.kdf_root_from_ikm c (
          key_material (diffie_hellman spk hs.identity_dh)
            (diffie_hellman me.dh_identity hs.ephemeral_dh) (diffie_hellman spk hs.ephemeral_dh)
            (fourth (λ opk. diffie_hellman opk hs.ephemeral_dh) one_time) kyber_secret))

  abbrev pub finish_respond :
      HandshakeHeader → Bytes → Account × Result Error (Option Bytes) → Account × Result Error Bytes
  unfolding responder_root
  finish_respond hs spk (me, ok one_time) = (me, responder_root me hs spk one_time)
  finish_respond hs spk (me, err e) = (me, err e)

  abbrev pub respond_with :
      Account → HandshakeHeader → Result Error Bytes → Account × Result Error Bytes
  respond_with me hs (ok spk) = finish_respond hs spk (consume me hs.one_time_prekey_id)
  respond_with me hs (err e) = (me, err e)

  unfoldable pub respond : Account → HandshakeHeader → Account × Result Error Bytes
  unfolding signed_prekey
  respond me hs =
      if hs.kyber_prekey_id == me.kyber_prekey_id
      then respond_with me hs (signed_prekey me hs.signed_prekey_id)
      else (me, err Error.unknown_prekey)

  -- The secret of the one-time prekey that a bundle names.
  abbrev pub entry_secret : Option (ℕ × Bytes) → Option Bytes
  entry_secret none = none
  entry_secret (some e) = some e.1

  module _ (laws : IsCrypto c) where
    consume-entry :
        (bob : Account) (m : BTreeMap.BTreeMap ℕ Bytes)
        → bob.one_time_prekeys ≡ m
        → (consume bob (entry_id c (first_entry c m))).1 ≡ ok (entry_secret (first_entry c m))
    unfolding take_one_time_prekey BTreeMap.get
    consume-entry bob [] e = refl
    consume-entry bob ((id, secret) ∷ m) e =
        ap (λ (o : Option Bytes). ok_or o Error.unknown_prekey >>= λ s. ok (some s))
          (ap (λ (pool : BTreeMap.BTreeMap ℕ Bytes). BTreeMap.get ℕ_discrete pool id) e
            ∙ if_pos (ℕ_discrete id id) refl _ _)

    abbrev pub without_first : Account → Account
    without_first bob = (consume bob (entry_id c (first_entry c bob.one_time_prekeys))).0

    consume-spent :
        (bob : Account) (m : BTreeMap.BTreeMap ℕ Bytes) (j : ℕ)
        → bob.one_time_prekeys ≡ m
        → BTreeMap.get ℕ_discrete (consume bob (entry_id c (first_entry c m))).0.one_time_prekeys j
          ≡ spent m j
    unfolding take_one_time_prekey BTreeMap.get
    consume-spent bob [] j e = ap (λ (m : BTreeMap.BTreeMap ℕ Bytes). BTreeMap.get ℕ_discrete m j) e
    consume-spent bob ((id, secret) ∷ m) j e =
        BTreeMap.get-remove ℕ_discrete bob.one_time_prekeys id j ∙ rw e (ground arith)

    pub get-without_first :
        (bob : Account) (j : ℕ)
        → BTreeMap.get ℕ_discrete (without_first bob).one_time_prekeys j
          ≡ spent bob.one_time_prekeys j
    get-without_first bob j = consume-spent bob bob.one_time_prekeys j refl

    -- What the initiator sends, and the root that it derives.
    abbrev pub header_for : Account → Account → Bytes → Bytes → HandshakeHeader
    header_for alice bob ephemeral ciphertext = record {
      identity_ed = identity_public c alice;
      identity_dh = public_key alice.dh_identity;
      ephemeral_dh = public_key ephemeral;
      signed_prekey_id = bob.signed_prekey_id;
      one_time_prekey_id = entry_id c (first_entry c bob.one_time_prekeys);
      kyber_prekey_id = bob.kyber_prekey_id;
      kyber_ciphertext = ciphertext;
    }

    abbrev pub root_for : Account → Account → Bytes → Bytes → Bytes
    root_for alice bob ephemeral shared = Kdf.kdf_root_from_ikm c (
        key_material (diffie_hellman alice.dh_identity (public_key bob.signed_prekey_secret))
          (diffie_hellman ephemeral (public_key bob.dh_identity))
          (diffie_hellman ephemeral (public_key bob.signed_prekey_secret))
          (fourth (λ opk. diffie_hellman ephemeral (public_key opk))
            (entry_secret (first_entry c bob.one_time_prekeys)))
          shared)

    fourth-entry :
        (f : Bytes → Bytes) (o : Option (ℕ × Bytes))
        → fourth f (entry_public c o) ≡ fourth (λ opk. f (public_key opk)) (entry_secret o)
    fourth-entry f none = refl
    fourth-entry f (some e) = refl

    fourth_comm :
        (ephemeral : Bytes) (o : Option Bytes)
        → fourth (λ opk. diffie_hellman opk (public_key ephemeral)) o
          ≡ fourth (λ opk. diffie_hellman ephemeral (public_key opk)) o
    fourth_comm ephemeral none = refl
    fourth_comm ephemeral (some opk) = ap some (laws.dh_comm opk ephemeral)

    initiate-bundle :
        (alice bob : Account) (ephemeral random ciphertext shared : Bytes)
        → c.ml_kem_encapsulate (c.ml_kem_public bob.kyber) random ≡ some (ciphertext, shared)
        → initiate alice (bundle c bob) ephemeral random
          ≡ ok (
            root_for alice bob ephemeral shared,
            header_for alice bob ephemeral ciphertext,
            public_key bob.signed_prekey_secret,
          )
    unfolding initiate bundle Pqkem.encapsulate
    initiate-bundle alice bob ephemeral random ciphertext shared e =
        rw
          (
            laws.length-ml_kem_public bob.kyber,
            e,
            fourth-entry (diffie_hellman ephemeral) (first_entry c bob.one_time_prekeys),
          )
          refl

    pub consume-keeps :
        (me : Account) (o : Option ℕ)
        → ((consume me o).0.dh_identity ≡ me.dh_identity)
          × ((consume me o).0.kyber ≡ me.kyber)
          × ((consume me o).0.signed_prekey_id ≡ me.signed_prekey_id)
          × ((consume me o).0.signed_prekey_secret ≡ me.signed_prekey_secret)
          × ((consume me o).0.ed_signing ≡ me.ed_signing)
    unfolding take_one_time_prekey
    consume-keeps me none = (refl, refl, refl, refl, refl)
    consume-keeps me (some id) = (refl, refl, refl, refl, refl)

    responder_root-header_for :
        (alice bob bob' : Account) (ephemeral random ciphertext shared : Bytes)
        → c.ml_kem_encapsulate (c.ml_kem_public bob.kyber) random ≡ some (ciphertext, shared)
        → bob'.dh_identity ≡ bob.dh_identity
        → bob'.kyber ≡ bob.kyber
        → responder_root bob'
            (header_for alice bob ephemeral ciphertext)
            bob.signed_prekey_secret
            (entry_secret (first_entry c bob.one_time_prekeys))
          ≡ ok (root_for alice bob ephemeral shared)
    unfolding responder_root Pqkem.decapsulate
    responder_root-header_for alice bob bob' ephemeral random ciphertext shared e dh kyber =
        rw
          (
            laws.length-ml_kem_ciphertext _ _ _ _ e,
            kyber,
            dh,
            laws.decapsulate_encapsulate _ _ _ _ e,
            fourth_comm ephemeral (entry_secret (first_entry c bob.one_time_prekeys)),
            laws.dh_comm bob.signed_prekey_secret alice.dh_identity,
            laws.dh_comm bob.dh_identity ephemeral,
            laws.dh_comm bob.signed_prekey_secret ephemeral,
          )
          refl

    -- An initiator that has another account's bundle and a ciphertext for it derives a root, and
    -- the account that receives the handshake header derives the same root. Whatever id is then
    -- looked up in that account's one-time prekeys, the id of the first, which the bundle named,
    -- finds nothing, and every other finds what it found before. The header names the account's
    -- signed prekey.
    pub respond-initiate :
        (alice bob : Account) (ephemeral random ciphertext shared : Bytes) (j : ℕ)
        → c.ml_kem_encapsulate (c.ml_kem_public bob.kyber) random ≡ some (ciphertext, shared)
        → (root : Bytes) × (hs : HandshakeHeader) × (initiate alice (bundle c bob) ephemeral random
            ≡ ok (root, hs, public_key bob.signed_prekey_secret))
          × (respond bob hs ≡ (without_first bob, ok root))
          × (BTreeMap.get ℕ_discrete (without_first bob).one_time_prekeys j
              ≡ spent bob.one_time_prekeys j)
          × (hs.signed_prekey_id ≡ bob.signed_prekey_id)
    unfolding respond signed_prekey finish_respond
    respond-initiate alice bob ephemeral random ciphertext shared j e =
        let hs = header_for alice bob ephemeral ciphertext in
        let keeps = consume-keeps bob (entry_id c (first_entry c bob.one_time_prekeys)) in
        (
          root_for alice bob ephemeral shared,
          hs,
          initiate-bundle alice bob ephemeral random ciphertext shared e,
          rw
              (
                (==_iff bob.kyber_prekey_id bob.kyber_prekey_id).1 refl,
                (==_iff bob.signed_prekey_id bob.signed_prekey_id).1 refl,
              )
              (ap
                  (λ (x : Result Error (Option Bytes)).
                    finish_respond hs bob.signed_prekey_secret (without_first bob, x))
                  (consume-entry bob bob.one_time_prekeys refl)
                ∙ ap (λ (x : Result Error Bytes). (without_first bob, x))
                    (responder_root-header_for alice bob (without_first bob) ephemeral random
                      ciphertext shared e keeps.0 keeps.1)),
          get-without_first bob j,
          refl,
        )
