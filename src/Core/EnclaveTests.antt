-- ===== src/Core/EnclaveTests.antt =====
-- The theorems on the enclave at concrete inputs.
use pigeonhole_clarity_messe.Prelude.{
  ℕ, map, ◌≡◌, refl, ite, if_neg, take-append, Option, none, some, [], ◌∷◌, ◌++◌, length, take,
  drop,
}
use pigeonhole_clarity_messe.Prelude.Bytes.{Bytes, Bytes_discrete}
use pigeonhole_clarity_messe.Prelude.Result.{ok, err, ◌>>=◌}
use pigeonhole_clarity_messe.Core.Error.{Error}
use pigeonhole_clarity_messe.Core.Crypto.{Crypto}
use pigeonhole_clarity_messe.Core.Codec.{bincode, bincode-IsBincode}
use pigeonhole_clarity_messe.Core.Toy.{toy, toy-IsCrypto, headers, alice, bob, hello}
use pigeonhole_clarity_messe.Core.Identity.{bundle}
use pigeonhole_clarity_messe.Core.Session
use pigeonhole_clarity_messe.Core.Session.{Session}
use pigeonhole_clarity_messe.Core.Formats.{message, session, ratchet, account}
use pigeonhole_clarity_messe.Core.Session.{respond-encrypt}
use pigeonhole_clarity_messe.Core.Enclave.{
  Enclave, seal_account, seal_session, account_bundle, initiate, respond, encrypt, decrypt,
}
use pigeonhole_clarity_messe.Core.Enclave.Sealing.{
  IsAuthentic, seal-separates, respond-seal_account,
}
use pigeonhole_clarity_messe.Core.Enclave.Refinement.{
  send, receive, run, in_the_open, sealed_call, run-seal_session,
}
use pigeonhole_clarity_messe.Core.StateTests.{
  stray, carol_later, carol_later-Reachable, blank, talk, talk-Reachable,
}

abbrev enclave : Enclave
enclave = record { seal_key = 42 ∷ [] }

run-seal_session_example :
    run
      (sealed_call toy headers (bincode account) (bincode session) (bincode ratchet) enclave)
      (seal_session toy headers (bincode account) (bincode session) (bincode ratchet) enclave talk)
      (send hello ∷ receive (9 ∷ []) stray ∷ send hello ∷ [])
    ≡ (
      seal_session toy headers
          (bincode account)
          (bincode session)
          (bincode ratchet)
          enclave
          (run
            (in_the_open toy headers)
            talk
            (send hello ∷ receive (9 ∷ []) stray ∷ send hello ∷ [])).0,
      (run
          (in_the_open toy headers)
          talk
          (send hello ∷ receive (9 ∷ []) stray ∷ send hello ∷ [])).1,
    )
run-seal_session_example =
    run-seal_session toy headers (bincode account) (bincode session) (bincode ratchet) toy-IsCrypto
      (bincode-IsBincode account) (bincode-IsBincode session) (bincode-IsBincode ratchet) enclave
      talk (send hello ∷ receive (9 ∷ []) stray ∷ send hello ∷ []) talk-Reachable

respond-seal_account_example :
    let sealed =
      seal_account toy headers
        (bincode account)
        (bincode session)
        (bincode ratchet)
        enclave
        carol_later in
    (account_bundle toy headers (bincode account) (bincode session) (bincode ratchet) enclave sealed
      ≡ ok (
        record (bundle toy carol_later) { one_time_prekey = none; one_time_prekey_id = none },
        map (λ (e : ℕ × Bytes). (e.0, toy.public_key e.1)) carol_later.one_time_prekeys,
      ))
    × (initiate toy headers
          (bincode account)
          (bincode session)
          (bincode ratchet)
          enclave
          sealed
          (bundle toy bob)
          (11 ∷ [])
          (12 ∷ [])
          (13 ∷ [])
        ≡ (Session.initiate toy headers carol_later (bundle toy bob) (11 ∷ []) (12 ∷ []) (13 ∷ [])
            >>= λ s. ok (
                seal_session toy headers
                  (bincode account)
                  (bincode session)
                  (bincode ratchet)
                  enclave
                  s)))
    × (respond toy headers
          (bincode account)
          (bincode session)
          (bincode ratchet)
          enclave
          (14 ∷ [])
          sealed
          stray
        ≡ ((Session.respond toy headers (14 ∷ []) carol_later stray).1 >>= λ w. ok (
          seal_account toy headers
              (bincode account)
              (bincode session)
              (bincode ratchet)
              enclave
              (Session.respond toy headers (14 ∷ []) carol_later stray).0,
          seal_session toy headers
              (bincode account)
              (bincode session)
              (bincode ratchet)
              enclave
              w.0,
          w.1,
        )))
respond-seal_account_example =
    respond-seal_account toy headers (bincode account) (bincode session) (bincode ratchet)
      toy-IsCrypto (bincode-IsBincode account) (bincode-IsBincode session)
      (bincode-IsBincode ratchet) enclave carol_later (bundle toy bob) stray (11 ∷ []) (12 ∷ [])
      (13 ∷ []) (14 ∷ []) carol_later-Reachable

-- Decryption that compares the associated data.
abbrev open_bound : Bytes → Bytes → Option Bytes
unfolding Bytes_discrete
open_bound aad [] = none
open_bound aad (n ∷ rest) = ite (Bytes_discrete (take n rest) aad) (some (drop n rest)) none

abbrev bound : Crypto
bound = record toy {
  xchacha_encrypt = λ key nonce aad message. length aad ∷ (aad ++ message);
  xchacha_decrypt = λ key nonce aad message. open_bound aad message;
}

bound-IsAuthentic : IsAuthentic bound headers (bincode account) (bincode session) (bincode ratchet)
unfolding open_bound
bound-IsAuthentic key nonce aad other message differ =
    rw (take-append (length aad) aad message refl) (if_neg (Bytes_discrete aad other) differ _ _)

seal-separates_example :
    let sealed_account =
      seal_account bound headers
        (bincode account)
        (bincode session)
        (bincode ratchet)
        enclave
        alice in
    let sealed_session =
      seal_session bound headers
        (bincode account)
        (bincode session)
        (bincode ratchet)
        enclave
        blank in
    (account_bundle bound headers
        (bincode account)
        (bincode session)
        (bincode ratchet)
        enclave
        sealed_session
      ≡ err Error.decrypt)
    × (initiate bound headers
          (bincode account)
          (bincode session)
          (bincode ratchet)
          enclave
          sealed_session
          (bundle toy bob)
          (11 ∷ [])
          (12 ∷ [])
          (13 ∷ [])
        ≡ err Error.decrypt)
    × (respond bound headers
          (bincode account)
          (bincode session)
          (bincode ratchet)
          enclave
          (14 ∷ [])
          sealed_session
          stray
        ≡ err Error.decrypt)
    × (encrypt bound headers
          (bincode account)
          (bincode session)
          (bincode ratchet)
          enclave
          sealed_account
          hello
        ≡ err Error.decrypt)
    × (decrypt bound headers
          (bincode account)
          (bincode session)
          (bincode ratchet)
          enclave
          (14 ∷ [])
          sealed_account
          stray
        ≡ err Error.decrypt)
seal-separates_example =
    seal-separates bound headers (bincode account) (bincode session) (bincode ratchet)
      bound-IsAuthentic enclave alice blank (bundle toy bob) stray hello (11 ∷ []) (12 ∷ [])
      (13 ∷ []) (14 ∷ [])
