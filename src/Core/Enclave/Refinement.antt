-- ===== src/Core/Enclave/Refinement.antt =====
-- The enclave of core/src/enclave.rs against the plain session: a host that keeps the last sealed
-- blob runs the conversation that the session would have run in the open.
use pigeonhole_clarity_messe.Prelude.{◌≡◌, refl, ap, ◌∙◌, List, [], ◌∷◌}
use pigeonhole_clarity_messe.Prelude.Bytes.{Bytes}
use pigeonhole_clarity_messe.Prelude.Result.{Result, ok, err, ◌>>=◌}
use pigeonhole_clarity_messe.Core.Error.{Error}
use pigeonhole_clarity_messe.Core.Wire.{RatchetHeader, Message}
use pigeonhole_clarity_messe.Core.Crypto.{Crypto, IsCrypto}
use pigeonhole_clarity_messe.Core.Bincode.{Bincode, IsBincode}
use pigeonhole_clarity_messe.Core.Identity.Stored.{StoredAccount}
use pigeonhole_clarity_messe.Core.Ratchet.Stored.{StoredRatchet}
use pigeonhole_clarity_messe.Core.Session
use pigeonhole_clarity_messe.Core.Session.{Session}
use pigeonhole_clarity_messe.Core.Session.Stored.{StoredSession, Reachable, encrypted, decrypted}
use pigeonhole_clarity_messe.Core.Enclave.{
  Enclave, Sealed, seal_session, seal_heard, encrypt, decrypt,
}
use pigeonhole_clarity_messe.Core.Enclave.Sealing.{open_session-seal_session}

-- A call on a session: a plaintext to send, or a message to read with the secret that a
-- Diffie-Hellman step would draw.
pub data Call : Type 0 where
  send : Bytes → Call
  receive : Bytes → Message → Call

pub data Reply : Type 0 where
  sent : Message → Reply
  got : Bytes → Reply

-- A caller that moves to the new state on success and keeps the old one on an error.
abbrev pub settle : {S : Type 0} → S → Result Error (S × Reply) → S × Result Error Reply
settle before (ok (after, reply)) = (after, ok reply)
settle before (err e) = (before, err e)

abbrev pub run :
    {S : Type 0}
    → (S → Call → Result Error (S × Reply))
    → S
    → List Call
    → S × List (Result Error Reply)
run step s [] = (s, [])
run step s (call ∷ calls) =
    let next = settle s (step s call) in
    let rest = run step (settle s (step s call)).0 calls in (rest.0, next.1 ∷ rest.1)

module _ (c : Crypto) (encode_header : RatchetHeader → Bytes) where
  -- The session that a decryption leaves, given out on success only.
  abbrev pub on_success : Session × Result Error Bytes → Result Error (Session × Reply)
  on_success (s, ok plaintext) = ok (s, got plaintext)
  on_success (s, err e) = err e

  unfoldable pub in_the_open : Session → Call → Result Error (Session × Reply)
  in_the_open s (send plaintext) = do
    out ← Session.encrypt c encode_header s plaintext
    ok (out.0, sent out.1)
  in_the_open s (receive new_self message) =
      on_success (Session.decrypt c encode_header new_self s message)

module _ (c : Crypto) (encode_header : RatchetHeader → Bytes)
    (account_format : Bincode StoredAccount) (session_format : Bincode StoredSession)
    (ratchet_format : Bincode StoredRatchet) where
  unfoldable pub sealed_call : Enclave → Sealed → Call → Result Error (Sealed × Reply)
  sealed_call self sealed (send plaintext) = do
    out ← encrypt c encode_header account_format session_format ratchet_format self sealed plaintext
    ok (out.0, sent out.1)
  sealed_call self sealed (receive new_self message) = do
    out ←
        decrypt c encode_header account_format session_format ratchet_format self new_self sealed
          message
    ok (out.0, got out.1)

  module _ (laws : IsCrypto c) (account_laws : IsBincode account_format)
      (session_laws : IsBincode session_format) (ratchet_laws : IsBincode ratchet_format)
      (self : Enclave) where
    abbrev seal : Session → Sealed
    seal = seal_session c encode_header account_format session_format ratchet_format self

    -- Sealing the state that a call gives.
    abbrev seal_result : Result Error (Session × Reply) → Result Error (Sealed × Reply)
    seal_result (ok (s, reply)) = ok (seal s, reply)
    seal_result (err e) = err e

    seal-sent :
        (r : Result Error (Session × Message))
        → (r
            >>= (λ (out : Session × Message). ok (seal out.0, out.1))
            >>= λ (out : Sealed × Message). ok (out.0, sent out.1))
          ≡ seal_result (r >>= λ (out : Session × Message). ok (out.0, sent out.1))
    seal-sent (ok (s, m)) = refl
    seal-sent (err e) = refl

    seal-got :
        (w : Session × Result Error Bytes)
        → (seal_heard c encode_header account_format session_format ratchet_format self w
            >>= λ (out : Sealed × Bytes). ok (out.0, got out.1))
          ≡ seal_result (on_success c encode_header w)
    unfolding seal_heard
    seal-got (s, ok plaintext) = refl
    seal-got (s, err e) = refl

    sealed_call-seal :
        (s : Session) (call : Call)
        → Reachable c encode_header s
        → sealed_call self (seal s) call ≡ seal_result (in_the_open c encode_header s call)
    unfolding sealed_call in_the_open encrypt decrypt
    sealed_call-seal s (send plaintext) r =
        rw
          (open_session-seal_session c encode_header account_format session_format ratchet_format
            laws account_laws session_laws ratchet_laws self s r)
          (seal-sent (Session.encrypt c encode_header s plaintext))
    sealed_call-seal s (receive new_self message) r =
        rw
          (open_session-seal_session c encode_header account_format session_format ratchet_format
            laws account_laws session_laws ratchet_laws self s r)
          (seal-got (Session.decrypt c encode_header new_self s message))

    settle-seal :
        (s : Session) (r : Result Error (Session × Reply))
        → settle (seal s) (seal_result r) ≡ (seal (settle s r).0, (settle s r).1)
    settle-seal s (ok _) = refl
    settle-seal s (err _) = refl

    settle-sent :
        (s : Session) (out : Result Error (Session × Message))
        → Reachable c encode_header s
        → ((s' : Session) (m : Message) → out ≡ ok (s', m) → Reachable c encode_header s')
        → Reachable c encode_header
            (settle s (out >>= λ (o : Session × Message). ok (o.0, sent o.1))).0
    settle-sent s (ok (s', m)) r next = next s' m refl
    settle-sent s (err _) r next = r

    settle-got :
        (s : Session) (w : Session × Result Error Bytes)
        → Reachable c encode_header s
        → Reachable c encode_header w.0
        → Reachable c encode_header (settle s (on_success c encode_header w)).0
    settle-got s (s', ok _) r next = next
    settle-got s (s', err _) r next = r

    settle-Reachable :
        (s : Session) (call : Call)
        → Reachable c encode_header s
        → Reachable c encode_header (settle s (in_the_open c encode_header s call)).0
    unfolding in_the_open
    settle-Reachable s (send plaintext) r =
        settle-sent s (Session.encrypt c encode_header s plaintext) r
          (λ s' m e. encrypted s s' plaintext m r e)
    settle-Reachable s (receive new_self message) r =
        settle-got s (Session.decrypt c encode_header new_self s message) r
          (decrypted s new_self message r)

    -- A host that hands every call to the enclave with the last sealed blob, and keeps that blob
    -- when the call fails, gets the replies of the plain session that is put back as it was when a
    -- call fails, and holds the seal of its state, for any calls on any reachable session.
    pub run-seal_session :
        (s : Session) (calls : List Call)
        → Reachable c encode_header s
        → run
            (sealed_call self)
            (seal_session c encode_header account_format session_format ratchet_format self s)
            calls
          ≡ (
            seal_session c encode_header account_format session_format ratchet_format self
                (run (in_the_open c encode_header) s calls).0,
            (run (in_the_open c encode_header) s calls).1,
          )
    run-seal_session s [] r = refl
    run-seal_session s (call ∷ calls) r =
        let next = settle s (in_the_open c encode_header s call) in
        ap
          (λ (w : Sealed × Result Error Reply).
            let rest = run (sealed_call self) w.0 calls in (rest.0, w.1 ∷ rest.1))
          (ap (settle (seal s)) (sealed_call-seal s call r)
            ∙ settle-seal s (in_the_open c encode_header s call))
        ∙ ap (λ (w : Sealed × List (Result Error Reply)). (w.0, next.1 ∷ w.1))
            (run-seal_session next.0 calls (settle-Reachable s call r))
