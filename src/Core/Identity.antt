-- ===== src/Core/Identity.antt =====
-- `Account` of core/src/identity.rs: identity keys, prekeys and the signed bundle. Fresh secrets are
-- arguments; `u32` ids wrap.
pub mod Stored
use pigeonhole_clarity_messe.Prelude.{
  ℕ, ◌+◌, ◌%◌, ◌^◌, ◌==◌, ◌≡◌, refl, ltb, Option, none, some, List, [], ◌∷◌, ◌++◌, map, length,
  ℕ_discrete, if◌then◌else◌,
}
use pigeonhole_clarity_messe.Prelude.Bytes.{Bytes, ascii}
use pigeonhole_clarity_messe.Prelude.BTreeMap
use pigeonhole_clarity_messe.Prelude.BTreeMap.{BTreeMap}
use pigeonhole_clarity_messe.Prelude.Result.{Result, ok, err, ok_or, ◌>>◌}
use pigeonhole_clarity_messe.Core.Error.{Error}
use pigeonhole_clarity_messe.Core.Wire.{PreKeyBundle}
use pigeonhole_clarity_messe.Core.Crypto.{Crypto, IsCrypto}

abbrev pub sig_ctx_identity_dh : Bytes
sig_ctx_identity_dh = ascii "Clarity-sig-identity-dh-v1"

abbrev pub sig_ctx_signed_prekey : Bytes
sig_ctx_signed_prekey = ascii "Clarity-sig-signed-prekey-v1"

abbrev pub sig_ctx_kyber_prekey : Bytes
sig_ctx_kyber_prekey = ascii "Clarity-sig-kyber-prekey-v1"

pub record Account : Type 0 where
  pub ed_signing : Bytes
  pub dh_identity : Bytes
  pub signed_prekey_id : ℕ
  pub signed_prekey_secret : Bytes
  pub kyber_prekey_id : ℕ
  pub kyber : Bytes
  pub one_time_prekeys : BTreeMap ℕ Bytes
  pub next_opk_id : ℕ

-- The loop of `generate_with_prekeys`, from the id `id` on.
unfoldable pub mint : BTreeMap ℕ Bytes → ℕ → List Bytes → BTreeMap ℕ Bytes
mint pool id [] = pool
mint pool id (secret ∷ secrets) =
    mint (BTreeMap.insert ℕ_discrete ltb pool id secret) (id + 1) secrets

unfoldable pub generate_with_prekeys : Bytes → Bytes → Bytes → Bytes → List Bytes → Account
unfolding mint
generate_with_prekeys ed_signing dh_identity signed_prekey kyber secrets = record {
  ed_signing = ed_signing;
  dh_identity = dh_identity;
  signed_prekey_id = 0;
  signed_prekey_secret = signed_prekey;
  kyber_prekey_id = 0;
  kyber = kyber;
  one_time_prekeys = mint [] 0 secrets;
  next_opk_id = length secrets;
}

unfoldable pub signed_prekey : Account → ℕ → Result Error Bytes
signed_prekey me id =
    if id == me.signed_prekey_id then ok me.signed_prekey_secret else err Error.unknown_prekey

-- The account without the key, and the key; a missing key leaves the account as it was.
unfoldable pub take_one_time_prekey : Account → ℕ → Account × Result Error Bytes
take_one_time_prekey me id = (
  record me { one_time_prekeys = BTreeMap.remove ℕ_discrete me.one_time_prekeys id },
  ok_or (BTreeMap.get ℕ_discrete me.one_time_prekeys id) Error.unknown_prekey,
)

unfoldable pub one_time_prekeys_remaining : Account → ℕ
one_time_prekeys_remaining me = length me.one_time_prekeys

unfoldable pub replenish_one_time_prekeys : Account → List Bytes → Account × List ℕ
replenish_one_time_prekeys me [] = (me, [])
replenish_one_time_prekeys me (secret ∷ secrets) =
    let id = me.next_opk_id in
    let rest =
      replenish_one_time_prekeys
        (record me {
          next_opk_id = (id + 1) % 2 ^ 32;
          one_time_prekeys = BTreeMap.insert ℕ_discrete ltb me.one_time_prekeys id secret;
        })
        secrets in
    (rest.0, id ∷ rest.1)

module _ (c : Crypto) where
  open c use {
    public_key, ed25519_public, ed25519_sign, ed25519_is_key, ed25519_is_signature, ed25519_verify,
    ml_kem_public,
  }

  unfoldable pub identity_public : Account → Bytes
  identity_public me = ed25519_public me.ed_signing

  unfoldable pub identity_dh_public : Account → Bytes
  identity_dh_public me = public_key me.dh_identity

  unfoldable pub sign : Account → Bytes → Bytes → Bytes
  sign me context message = ed25519_sign me.ed_signing (context ++ message)

  unfoldable pub one_time_prekey_publics : Account → List (ℕ × Bytes)
  one_time_prekey_publics me = map (λ e. (e.0, public_key e.1)) me.one_time_prekeys

  -- The two fields of a one-time prekey that may be missing.
  abbrev pub entry_public : Option (ℕ × Bytes) → Option Bytes
  entry_public none = none
  entry_public (some e) = some (public_key e.1)

  abbrev pub entry_id : Option (ℕ × Bytes) → Option ℕ
  entry_id none = none
  entry_id (some e) = some e.0

  -- The bundle with the one-time prekey of the lowest id, the first entry of the map.
  abbrev pub bundle_with : Account → Option (ℕ × Bytes) → PreKeyBundle
  unfolding identity_public sign
  bundle_with me first =
      let identity_dh_pub = public_key me.dh_identity in
      let signed_prekey_pub = public_key me.signed_prekey_secret in
      let kyber_pub = ml_kem_public me.kyber in
      record {
        identity_ed = identity_public me;
        identity_dh = identity_dh_pub;
        identity_dh_sig = sign me sig_ctx_identity_dh identity_dh_pub;
        signed_prekey = signed_prekey_pub;
        signed_prekey_id = me.signed_prekey_id;
        signed_prekey_sig = sign me sig_ctx_signed_prekey signed_prekey_pub;
        kyber_prekey = kyber_pub;
        kyber_prekey_id = me.kyber_prekey_id;
        kyber_prekey_sig = sign me sig_ctx_kyber_prekey kyber_pub;
        one_time_prekey = entry_public first;
        one_time_prekey_id = entry_id first;
      }

  -- `self.one_time_prekeys.iter().next()`.
  abbrev pub first_entry : BTreeMap ℕ Bytes → Option (ℕ × Bytes)
  first_entry [] = none
  first_entry (e ∷ m) = some e

  unfoldable pub bundle : Account → PreKeyBundle
  unfolding bundle_with
  bundle me = bundle_with me (first_entry me.one_time_prekeys)

  unfoldable pub verify_sig : Bytes → Bytes → Bytes → Bytes → Result Error (Unit {0})
  verify_sig vk context message sig =
      if ed25519_is_signature sig
      then (if ed25519_verify vk (context ++ message) sig then ok tt else err Error.bad_signature)
      else err Error.bad_signature

  unfoldable pub verify_bundle : PreKeyBundle → Result Error (Unit {0})
  unfolding verify_sig
  verify_bundle b =
      if ed25519_is_key b.identity_ed
      then (do
        verify_sig b.identity_ed sig_ctx_identity_dh b.identity_dh b.identity_dh_sig
        verify_sig b.identity_ed sig_ctx_signed_prekey b.signed_prekey b.signed_prekey_sig
        verify_sig b.identity_ed sig_ctx_kyber_prekey b.kyber_prekey b.kyber_prekey_sig)
      else err Error.malformed_key

  module _ (laws : IsCrypto c) where
    verify_sig-sign :
        (me : Account) (context message : Bytes)
        → verify_sig (identity_public me) context message (sign me context message) ≡ ok tt
    unfolding verify_sig sign identity_public
    verify_sig-sign me context message = rw (laws.signature_of_signer, laws.verify_sign) refl

    -- The bundle that an account publishes passes every signature check.
    pub verify_bundle-bundle : (me : Account) → verify_bundle (bundle me) ≡ ok tt
    unfolding verify_bundle bundle identity_public
    verify_bundle-bundle me =
        rw
          (
            laws.key_of_signer me.ed_signing,
            verify_sig-sign me sig_ctx_identity_dh (public_key me.dh_identity),
            verify_sig-sign me sig_ctx_signed_prekey (public_key me.signed_prekey_secret),
            verify_sig-sign me sig_ctx_kyber_prekey (ml_kem_public me.kyber),
          )
          refl
