-- ===== src/Core/Enclave/Sealing.antt =====
-- Sealing in core/src/enclave.rs: the enclave that sealed a state opens it again, and a blob of one
-- kind is refused where the other kind is wanted.
use pigeonhole_clarity_messe.Prelude.{
  ℕ, ◌≡◌, ◌≢◌, refl, sym, ap, map, drop, [], ◌∷◌, arith, ◌∙◌, none, Option,
}
use pigeonhole_clarity_messe.Prelude.Bytes.{Bytes}
use pigeonhole_clarity_messe.Prelude.Result.{Result, ok, err, ok_or, ◌>>=◌}
use pigeonhole_clarity_messe.Core.Error.{Error}
use pigeonhole_clarity_messe.Core.Wire.{PreKeyBundle, RatchetHeader, Message}
use pigeonhole_clarity_messe.Core.Crypto.{Crypto, IsCrypto}
use pigeonhole_clarity_messe.Core.Bincode.{Bincode, IsBincode}
use pigeonhole_clarity_messe.Core.Kdf.{
  derive_message_material, aead_seal, aead_open, aead_open-aead_seal,
}
use pigeonhole_clarity_messe.Core.Identity
use pigeonhole_clarity_messe.Core.Identity.{Account, one_time_prekey_publics}
use pigeonhole_clarity_messe.Core.Identity.Stored.{StoredAccount, to_bytes, from_bytes}
use pigeonhole_clarity_messe.Core.Ratchet.Stored.{StoredRatchet}
use pigeonhole_clarity_messe.Core.Session
use pigeonhole_clarity_messe.Core.Session.{Session}
use pigeonhole_clarity_messe.Core.Session.Accounts
use pigeonhole_clarity_messe.Core.Session.Stored
use pigeonhole_clarity_messe.Core.Session.Stored.{StoredSession}
use pigeonhole_clarity_messe.Core.Enclave.{
  Enclave, seal_ad_account, seal_ad_session, seal_secret, seal_account, seal_session, open_account,
  open_session, seal_response, account_bundle, initiate, respond, encrypt, decrypt,
}

module _ (c : Crypto) (encode_header : RatchetHeader → Bytes)
    (account_format : Bincode StoredAccount) (session_format : Bincode StoredSession)
    (ratchet_format : Bincode StoredRatchet) where
  module _ (laws : IsCrypto c) (account_laws : IsBincode account_format)
      (session_laws : IsBincode session_format) (ratchet_laws : IsBincode ratchet_format) where
    pub open_account-seal_account :
        (self : Enclave) (me : Account)
        → Accounts.Reachable c encode_header me
        → open_account c encode_header account_format session_format ratchet_format self
            (seal_account c encode_header account_format session_format ratchet_format self me)
          ≡ ok me
    unfolding open_account seal_account seal_secret
    open_account-seal_account self me r =
        ap (λ (b : Result Error Bytes). b >>= from_bytes account_format)
          (aead_open-aead_seal c laws self.seal_key (to_bytes account_format me) seal_ad_account)
        ∙ Accounts.from_bytes-to_bytes c encode_header account_format account_laws me r

    pub open_session-seal_session :
        (self : Enclave) (s : Session)
        → Stored.Reachable c encode_header s
        → open_session c encode_header account_format session_format ratchet_format self
            (seal_session c encode_header account_format session_format ratchet_format self s)
          ≡ ok s
    unfolding open_session seal_session seal_secret
    open_session-seal_session self s r =
        ap (λ (b : Result Error Bytes). b >>= Stored.deserialize session_format ratchet_format)
          (aead_open-aead_seal c laws self.seal_key
            (Stored.serialize session_format ratchet_format s) seal_ad_session)
        ∙ Stored.deserialize-serialize c encode_header session_format ratchet_format session_laws
            ratchet_laws s r

    seal_response-eq :
        (self : Enclave) (x : Account × Result Error (Session × Bytes))
        → seal_response c encode_header account_format session_format ratchet_format self x ≡ (
            x.1 >>= λ w. ok (
              seal_account c encode_header account_format session_format ratchet_format self x.0,
              seal_session c encode_header account_format session_format ratchet_format self w.0,
              w.1,
            ))
    unfolding seal_response
    seal_response-eq self (account, ok (session, plaintext)) = refl
    seal_response-eq self (account, err e) = refl

    -- On the sealed state of any account that its operations reach: `account_bundle` gives the
    -- account's bundle with no one-time prekey attached, and the ids and public keys of the whole
    -- pool of one-time prekeys; `initiate` gives the sealed session of the plain session layer, or
    -- its error; `respond` gives the sealed account that the plain layer leaves, then the sealed
    -- session, then the plaintext, or the plain layer's error.
    pub respond-seal_account :
        (self : Enclave) (me : Account) (bundle : PreKeyBundle) (message : Message)
        (ephemeral random dh_self new_self : Bytes)
        → Accounts.Reachable c encode_header me
        → let sealed =
            seal_account c encode_header account_format session_format ratchet_format self me in
          (account_bundle c encode_header account_format session_format ratchet_format self sealed
            ≡ ok (
              record (Identity.bundle c me) { one_time_prekey = none; one_time_prekey_id = none },
              map (λ (e : ℕ × Bytes). (e.0, c.public_key e.1)) me.one_time_prekeys,
            ))
          × (initiate c encode_header account_format session_format ratchet_format self sealed
                bundle ephemeral random dh_self
              ≡ (Session.initiate c encode_header me bundle ephemeral random dh_self >>= λ s. ok (
                  seal_session c encode_header account_format session_format ratchet_format self
                    s)))
          × (respond c encode_header account_format session_format ratchet_format self new_self
                sealed message
              ≡ ((Session.respond c encode_header new_self me message).1 >>= λ w. ok (
                seal_account c encode_header account_format session_format ratchet_format self
                    (Session.respond c encode_header new_self me message).0,
                seal_session c encode_header account_format session_format ratchet_format self w.0,
                w.1,
              )))
    unfolding account_bundle initiate respond one_time_prekey_publics
    respond-seal_account self me bundle message ephemeral random dh_self new_self r =
        let opened = open_account-seal_account self me r in
        (
          rw opened refl,
          rw opened refl,
          rw opened (seal_response-eq self (Session.respond c encode_header new_self me message)),
        )

  -- What an AEAD documents: other associated data is refused.
  abbrev pub IsAuthentic : Type 0
  IsAuthentic =
      (key nonce aad other message : Bytes)
      → aad ≢ other
      → c.xchacha_decrypt key nonce other (c.xchacha_encrypt key nonce aad message) ≡ none

  other_context :
      IsAuthentic
      → (key message aad other : Bytes) → aad ≢ other
      → aead_open c key (aead_seal c key message aad) other ≡ err Error.decrypt
  unfolding aead_seal aead_open
  other_context authentic key message aad other differ =
      let (k, n) = derive_message_material c key in
      ap (λ (o : Option Bytes). ok_or o Error.decrypt) (authentic k n aad other message differ)

  contexts_differ : seal_ad_account ≢ seal_ad_session
  contexts_differ e =
      let at_13 : ◌≡◌ {A = ℕ} 97 115 =
        ap (λ (b : Bytes). elim (drop 13 b) [ [] ↦ 0 | x ∷ _ ↦ x ]) e in
      absurd (omega arith)

  open_account-seal_session :
      IsAuthentic
      → (self : Enclave) (s : Session)
      → open_account c encode_header account_format session_format ratchet_format self
          (seal_session c encode_header account_format session_format ratchet_format self s)
        ≡ err Error.decrypt
  unfolding open_account seal_session seal_secret
  open_account-seal_session authentic self s =
      ap (λ (b : Result Error Bytes). b >>= from_bytes account_format)
        (other_context authentic self.seal_key (Stored.serialize session_format ratchet_format s)
          seal_ad_session seal_ad_account (λ e. contexts_differ (sym e)))

  open_session-seal_account :
      IsAuthentic
      → (self : Enclave) (me : Account)
      → open_session c encode_header account_format session_format ratchet_format self
          (seal_account c encode_header account_format session_format ratchet_format self me)
        ≡ err Error.decrypt
  unfolding open_session seal_account seal_secret
  open_session-seal_account authentic self me =
      ap (λ (b : Result Error Bytes). b >>= Stored.deserialize session_format ratchet_format)
        (other_context authentic self.seal_key (to_bytes account_format me) seal_ad_account
          seal_ad_session contexts_differ)

  -- If decryption refuses other associated data, no operation of an enclave takes one kind of blob
  -- for the other: those on accounts refuse every sealed session, those on sessions every sealed
  -- account, under the same key and whatever the other arguments.
  pub seal-separates :
      IsAuthentic
      → (self : Enclave) (me : Account) (s : Session) (bundle : PreKeyBundle) (message : Message)
      → (plaintext ephemeral random dh_self new_self : Bytes)
      → let account =
          seal_account c encode_header account_format session_format ratchet_format self me in
        let session =
          seal_session c encode_header account_format session_format ratchet_format self s in
        (account_bundle c encode_header account_format session_format ratchet_format self session
          ≡ err Error.decrypt)
        × (initiate c encode_header account_format session_format ratchet_format self session bundle
              ephemeral random dh_self
            ≡ err Error.decrypt)
        × (respond c encode_header account_format session_format ratchet_format self new_self
              session message
            ≡ err Error.decrypt)
        × (encrypt c encode_header account_format session_format ratchet_format self account
              plaintext
            ≡ err Error.decrypt)
        × (decrypt c encode_header account_format session_format ratchet_format self new_self
              account message
            ≡ err Error.decrypt)
  unfolding account_bundle initiate respond encrypt decrypt
  seal-separates authentic self me s bundle message plaintext ephemeral random dh_self new_self =
      let as_account = open_account-seal_session authentic self s in
      let as_session = open_session-seal_account authentic self me in
      (
        rw as_account refl,
        rw as_account refl,
        rw as_account refl,
        rw as_session refl,
        rw as_session refl,
      )
