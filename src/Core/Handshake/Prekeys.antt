-- ===== src/Core/Handshake/Prekeys.antt =====
-- The account through `respond` of core/src/handshake.rs: every outcome leaves it as it was, or
-- without one prekey.
use pigeonhole_clarity_messe.Prelude.{ℕ, ◌==◌, Option, none, some, Bool-cases, inl, inr}
use pigeonhole_clarity_messe.Prelude.Bytes.{Bytes}
use pigeonhole_clarity_messe.Prelude.Result.{Result, ok, err}
use pigeonhole_clarity_messe.Core.Error.{Error}
use pigeonhole_clarity_messe.Core.Wire.{HandshakeHeader}
use pigeonhole_clarity_messe.Core.Crypto.{Crypto}
use pigeonhole_clarity_messe.Core.Identity.{Account, take_one_time_prekey, signed_prekey}
use pigeonhole_clarity_messe.Core.Handshake.{consume, finish_respond, respond_with, respond}

-- What answering a handshake does to the account: nothing, or one prekey is taken.
module _ (c : Crypto) (P : Account → Type 0) where
  consume-account :
      (me : Account) (id : Option ℕ)
      → P me
      → ((id : ℕ) → P (take_one_time_prekey me id).0)
      → P (consume c me id).0
  unfolding consume
  consume-account me none h taken = h
  consume-account me (some id) h taken = taken id

  finish_respond-account :
      (hs : HandshakeHeader) (spk : Bytes) (w : Account × Result Error (Option Bytes))
      → P w.0
      → P (finish_respond c hs spk w).0
  unfolding finish_respond
  finish_respond-account hs spk (me, ok _) h = h
  finish_respond-account hs spk (me, err _) h = h

  respond_with-account :
      (me : Account) (hs : HandshakeHeader) (spk : Result Error Bytes)
      → P me
      → ((id : ℕ) → P (take_one_time_prekey me id).0)
      → P (respond_with c me hs spk).0
  respond_with-account me hs (ok spk) h taken =
      finish_respond-account hs spk (consume c me hs.one_time_prekey_id)
        (consume-account me hs.one_time_prekey_id h taken)
  respond_with-account me hs (err _) h taken = h

  pub respond-account :
      (me : Account) (hs : HandshakeHeader)
      → P me
      → ((id : ℕ) → P (take_one_time_prekey me id).0)
      → P (respond c me hs).0
  unfolding respond
  respond-account me hs h taken = elim (Bool-cases (hs.kyber_prekey_id == me.kyber_prekey_id)) [
    | inl known ↦
        rw known (respond_with-account me hs (signed_prekey me hs.signed_prekey_id) h taken)
    | inr unknown ↦ rw unknown h
  ]
