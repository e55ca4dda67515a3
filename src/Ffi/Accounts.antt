-- ===== src/Ffi/Accounts.antt =====
-- The account functions of ffi/src/lib.rs. A call that changes the account returns it.
use pigeonhole_clarity_messe.Prelude.{ℕ, ◌%◌, ◌^◌, Option, none, some, List, take}
use pigeonhole_clarity_messe.Prelude.Bytes.{Bytes}
use pigeonhole_clarity_messe.Prelude.Result.{Result, ok, err}
use pigeonhole_clarity_messe.Core.Error.{Error}
use pigeonhole_clarity_messe.Core.Wire.{PreKeyBundle}
use pigeonhole_clarity_messe.Core.Crypto.{Crypto}
use pigeonhole_clarity_messe.Core.Bincode.{Bincode}
use pigeonhole_clarity_messe.Core.Encoding.{encode_bundle, decode_bundle}
use pigeonhole_clarity_messe.Core.Identity.{
  Account, generate_with_prekeys, identity_public, bundle, one_time_prekey_publics,
  one_time_prekeys_remaining, replenish_one_time_prekeys, verify_bundle,
}
use pigeonhole_clarity_messe.Core.Identity.Stored.{StoredAccount, to_bytes, from_bytes}
use pigeonhole_clarity_messe.Core.Enclave.{without_one_time}
use pigeonhole_clarity_messe.Core.Inbox
use pigeonhole_clarity_messe.Core.Safety
use pigeonhole_clarity_messe.Core.Envelope.Defs.{OpenedEnvelope, seal_envelope, open_envelope}
use pigeonhole_clarity_messe.Ffi.Buffer.{
  ClarityBuffer, Code, done, failed, from_vec, null, as_slice, write_key,
}

abbrev pub to_option : {T : Type 0} → Result Error T → Option T
to_option (ok value) = some value
to_option (err e) = none

-- The secrets are those that `Account::generate` draws.
unfoldable pub clarity_account_generate :
    Bytes → Bytes → Bytes → Bytes → List Bytes → Option Account
unfolding generate_with_prekeys
clarity_account_generate ed_signing dh_identity signed_prekey kyber secrets =
    some (generate_with_prekeys ed_signing dh_identity signed_prekey kyber secrets)

module _ (format : Bincode StoredAccount) where
  unfoldable pub clarity_account_serialize : Option Account → ClarityBuffer
  unfolding to_bytes from_vec null
  clarity_account_serialize (some a) = from_vec (to_bytes format a)
  clarity_account_serialize none = null

  unfoldable pub clarity_account_deserialize : Option Bytes → Option Account
  unfolding from_bytes as_slice
  clarity_account_deserialize region = to_option (from_bytes format (as_slice region))

unfoldable pub clarity_account_one_time_remaining : Option Account → ℕ
unfolding one_time_prekeys_remaining
clarity_account_one_time_remaining (some a) = one_time_prekeys_remaining a % 2 ^ 32
clarity_account_one_time_remaining none = 0

-- One fresh secret for each prekey that is asked for.
unfoldable pub clarity_account_replenish_prekeys :
    Option Account → List Bytes → Option Account × Code
unfolding replenish_one_time_prekeys
clarity_account_replenish_prekeys (some a) secrets =
    (some (replenish_one_time_prekeys a secrets).0, done)
clarity_account_replenish_prekeys none secrets = (none, failed)

unfoldable pub clarity_epoch_for_unix : ℕ → ℕ
unfolding Inbox.epoch_for_unix
clarity_epoch_for_unix unix_seconds = Inbox.epoch_for_unix unix_seconds

module _ (sha256 sha512 : Bytes → Bytes) where
  -- What `out` points to afterwards.
  unfoldable pub clarity_inbox_id : Option Bytes → ℕ → Option Bytes → Option Bytes
  unfolding Inbox.inbox_id write_key
  clarity_inbox_id (some identity) epoch (some out) =
      some (write_key (Inbox.inbox_id sha256 (take 32 identity) epoch) out)
  clarity_inbox_id none epoch out = out
  clarity_inbox_id (some identity) epoch none = none

  -- The digits hold no NUL byte, so the C string is always made.
  unfoldable pub clarity_safety_number : Option Bytes → Option Bytes → Option Bytes
  unfolding Safety.safety_number
  clarity_safety_number (some id_a) (some id_b) =
      some (Safety.safety_number sha512 (take 32 id_a) (take 32 id_b))
  clarity_safety_number (some id_a) none = none
  clarity_safety_number none id_b = none

module _ (c : Crypto) where
  -- What `out` points to afterwards.
  unfoldable pub clarity_account_identity_public : Option Account → Option Bytes → Option Bytes
  unfolding identity_public write_key
  clarity_account_identity_public (some a) (some out) = some (write_key (identity_public c a) out)
  clarity_account_identity_public (some a) none = none
  clarity_account_identity_public none out = out

  -- `entries_json` is the text of the JSON array of ids and base64 keys.
  unfoldable pub clarity_account_one_time_publics :
      (List (ℕ × Bytes) → Bytes) → Option Account → ClarityBuffer
  unfolding one_time_prekey_publics from_vec null
  clarity_account_one_time_publics entries_json (some a) =
      from_vec (entries_json (one_time_prekey_publics c a))
  clarity_account_one_time_publics entries_json none = null

  -- The ephemeral secret is an argument.
  unfoldable pub clarity_seal_envelope :
      Bytes → Option Account → Option Bytes → Option Bytes → ClarityBuffer
  unfolding seal_envelope from_vec null as_slice
  clarity_seal_envelope eph_secret (some account) (some dh) payload =
      from_vec (seal_envelope c eph_secret account (take 32 dh) (as_slice payload))
  clarity_seal_envelope eph_secret (some account) none payload = null
  clarity_seal_envelope eph_secret none dh payload = null

  -- The two out regions afterwards, and the payload.
  abbrev pub give_opened :
      Bytes → Bytes → Result Error OpenedEnvelope → (Option Bytes × Option Bytes) × ClarityBuffer
  unfolding write_key from_vec null
  give_opened out_ed out_dh (ok opened) = (
    (
      some (write_key opened.sender_identity_ed out_ed),
      some (write_key opened.sender_identity_dh out_dh),
    ),
    from_vec opened.payload,
  )
  give_opened out_ed out_dh (err e) = ((some out_ed, some out_dh), null)

  unfoldable pub clarity_open_envelope :
      Option Account
      → Option Bytes
      → Option Bytes
      → Option Bytes
      → (Option Bytes × Option Bytes) × ClarityBuffer
  unfolding open_envelope give_opened null as_slice
  clarity_open_envelope none blob out_ed out_dh = ((out_ed, out_dh), null)
  clarity_open_envelope (some account) blob (some out_ed) (some out_dh) =
      give_opened out_ed out_dh (open_envelope c account (as_slice blob))
  clarity_open_envelope (some account) blob none out_dh = ((none, out_dh), null)
  clarity_open_envelope (some account) blob (some out_ed) none = ((some out_ed, none), null)

  module _ (bundle_format : Bincode PreKeyBundle) where
    unfoldable pub clarity_account_bundle_base : Option Account → ClarityBuffer
    unfolding bundle encode_bundle from_vec null
    clarity_account_bundle_base (some a) =
        from_vec (encode_bundle bundle_format (without_one_time (bundle c a)))
    clarity_account_bundle_base none = null

    -- `decode`, then `verify_bundle`.
    abbrev pub verified : Result Error PreKeyBundle → Option PreKeyBundle
    unfolding verify_bundle
    verified (ok b) = elim (verify_bundle c b) [ ok _ ↦ some b | err _ ↦ none ]
    verified (err e) = none

    abbrev pub give_keys :
        Bytes → Bytes → Option PreKeyBundle → (Option Bytes × Option Bytes) × Code
    unfolding write_key
    give_keys out_ed out_dh (some b) =
        ((some (write_key b.identity_ed out_ed), some (write_key b.identity_dh out_dh)), done)
    give_keys out_ed out_dh none = ((some out_ed, some out_dh), failed)

    unfoldable pub clarity_bundle_identity_keys :
        Option Bytes → Option Bytes → Option Bytes → (Option Bytes × Option Bytes) × Code
    unfolding decode_bundle verified give_keys as_slice
    clarity_bundle_identity_keys bundle_region (some out_ed) (some out_dh) =
        give_keys out_ed out_dh (verified (decode_bundle bundle_format (as_slice bundle_region)))
    clarity_bundle_identity_keys bundle_region none out_dh = ((none, out_dh), failed)
    clarity_bundle_identity_keys bundle_region (some out_ed) none = ((some out_ed, none), failed)
