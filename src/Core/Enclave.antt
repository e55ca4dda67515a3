-- ===== src/Core/Enclave.antt =====
-- `Enclave` of core/src/enclave.rs. Fresh secrets are arguments, and the formats are bincode at the
-- stored types. A failed call returns no new state. Wiping of plaintext copies leaves no trace in
-- the values.
pub mod Sealing
pub mod Refinement
use pigeonhole_clarity_messe.Prelude.{ℕ, none, List}
use pigeonhole_clarity_messe.Prelude.Bytes.{Bytes, ascii}
use pigeonhole_clarity_messe.Prelude.Result.{Result, ok, err, ◌>>=◌}
use pigeonhole_clarity_messe.Core.Error.{Error}
use pigeonhole_clarity_messe.Core.Wire.{PreKeyBundle, RatchetHeader, Message}
use pigeonhole_clarity_messe.Core.Crypto.{Crypto}
use pigeonhole_clarity_messe.Core.Bincode.{Bincode}
use pigeonhole_clarity_messe.Core.Kdf.{aead_seal, aead_open}
use pigeonhole_clarity_messe.Core.Identity.{
  Account, generate_with_prekeys, identity_public, bundle, one_time_prekey_publics,
}
use pigeonhole_clarity_messe.Core.Identity.Stored.{StoredAccount, to_bytes, from_bytes}
use pigeonhole_clarity_messe.Core.Ratchet.Stored.{StoredRatchet}
use pigeonhole_clarity_messe.Core.Session
use pigeonhole_clarity_messe.Core.Session.Stored
use pigeonhole_clarity_messe.Core.Session.Stored.{StoredSession}

abbrev pub seal_ad_account : Bytes
seal_ad_account = ascii "Clarity-seal-account-v1"

abbrev pub seal_ad_session : Bytes
seal_ad_session = ascii "Clarity-seal-session-v1"

pub record Sealed : Type 0 where
  pub bytes : Bytes

unfoldable pub as_bytes : Sealed → Bytes
as_bytes sealed = sealed.bytes

unfoldable pub from_raw : Bytes → Sealed
from_raw bytes = record { bytes = bytes }

pub record Enclave : Type 0 where
  pub seal_key : Bytes

-- `random` is what `random_bytes::<32>()` drew.
unfoldable pub initialize : Bytes → Enclave
initialize random = record { seal_key = random }

unfoldable pub from_seal_key : Bytes → Enclave
from_seal_key seal_key = record { seal_key = seal_key }

-- The two fields that `account_bundle` clears.
abbrev pub without_one_time : PreKeyBundle → PreKeyBundle
without_one_time b = record b { one_time_prekey = none; one_time_prekey_id = none }

module _ (c : Crypto) (encode_header : RatchetHeader → Bytes)
    (account_format : Bincode StoredAccount) (session_format : Bincode StoredSession)
    (ratchet_format : Bincode StoredRatchet) where
  unfoldable pub seal_secret : Enclave → Bytes → Bytes → Sealed
  unfolding aead_seal
  seal_secret self context plaintext = record {
    bytes = aead_seal c self.seal_key plaintext context;
  }

  unfoldable pub open_account : Enclave → Sealed → Result Error Account
  unfolding aead_open from_bytes
  open_account self sealed = do
    bytes ← aead_open c self.seal_key sealed.bytes seal_ad_account
    from_bytes account_format bytes

  unfoldable pub open_session : Enclave → Sealed → Result Error Session.Session
  unfolding aead_open Stored.deserialize
  open_session self sealed = do
    bytes ← aead_open c self.seal_key sealed.bytes seal_ad_session
    Stored.deserialize session_format ratchet_format bytes

  abbrev pub seal_account : Enclave → Account → Sealed
  unfolding seal_secret to_bytes
  seal_account self me = seal_secret self seal_ad_account (to_bytes account_format me)

  abbrev pub seal_session : Enclave → Session.Session → Sealed
  unfolding seal_secret Stored.serialize
  seal_session self s =
      seal_secret self seal_ad_session (Stored.serialize session_format ratchet_format s)

  -- The secrets are those that `Account::generate` draws.
  unfoldable pub create_account :
      Enclave → Bytes → Bytes → Bytes → Bytes → List Bytes → Sealed × Bytes
  unfolding seal_account generate_with_prekeys identity_public
  create_account self ed_signing dh_identity signed_prekey kyber secrets =
      let account = generate_with_prekeys ed_signing dh_identity signed_prekey kyber secrets in
      (seal_account self account, identity_public c account)

  unfoldable pub account_bundle : Enclave → Sealed → Result Error (PreKeyBundle × List (ℕ × Bytes))
  unfolding open_account bundle one_time_prekey_publics
  account_bundle self sealed_account = do
    account ← open_account self sealed_account
    ok (without_one_time (bundle c account), one_time_prekey_publics c account)

  unfoldable pub initiate :
      Enclave → Sealed → PreKeyBundle → Bytes → Bytes → Bytes → Result Error Sealed
  unfolding open_account Session.initiate seal_session
  initiate self sealed_account bundle ephemeral random dh_self = do
    account ← open_account self sealed_account
    session ← Session.initiate c encode_header account bundle ephemeral random dh_self
    ok (seal_session self session)

  -- The account as the response left it, and the session; both are sealed.
  abbrev pub seal_response :
      Enclave
      → Account × Result Error (Session.Session × Bytes)
      → Result Error (Sealed × Sealed × Bytes)
  unfolding seal_account seal_session
  seal_response self (account, ok (session, plaintext)) =
      ok (seal_account self account, seal_session self session, plaintext)
  seal_response self (account, err e) = err e

  unfoldable pub respond :
      Enclave → Bytes → Sealed → Message → Result Error (Sealed × Sealed × Bytes)
  unfolding open_account Session.respond seal_response
  respond self new_self sealed_account first_message = do
    account ← open_account self sealed_account
    seal_response self (Session.respond c encode_header new_self account first_message)

  unfoldable pub encrypt : Enclave → Sealed → Bytes → Result Error (Sealed × Message)
  unfolding open_session Session.encrypt seal_session
  encrypt self sealed_session plaintext = do
    session ← open_session self sealed_session
    sent ← Session.encrypt c encode_header session plaintext
    ok (seal_session self sent.0, sent.1)

  -- The session that `Session::decrypt` changed is sealed on success and dropped on an error.
  abbrev pub seal_heard :
      Enclave → Session.Session × Result Error Bytes → Result Error (Sealed × Bytes)
  unfolding seal_session
  seal_heard self (session, ok plaintext) = ok (seal_session self session, plaintext)
  seal_heard self (session, err e) = err e

  unfoldable pub decrypt : Enclave → Bytes → Sealed → Message → Result Error (Sealed × Bytes)
  unfolding open_session Session.decrypt seal_heard
  decrypt self new_self sealed_session message = do
    session ← open_session self sealed_session
    seal_heard self (Session.decrypt c encode_header new_self session message)
