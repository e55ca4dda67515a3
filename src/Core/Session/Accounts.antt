-- ===== src/Core/Session/Accounts.antt =====
-- The accounts of core/src/identity.rs that their operations reach: created, replenished, and
-- answering first messages through core/src/session.rs, whatever those hold.
use pigeonhole_clarity_messe.Prelude.{
  ℕ, ◌+◌, ◌%◌, ◌^◌, ◌<◌, ◌≤◌, ◌≡◌, subst, arith, ltb, List, [], ◌∷◌, length, All, ℕ_discrete, sym,
}
use pigeonhole_clarity_messe.Prelude.Bytes.{Bytes}
use pigeonhole_clarity_messe.Prelude.BTreeMap
use pigeonhole_clarity_messe.Prelude.BTreeMap.{BTreeMap}
use pigeonhole_clarity_messe.Prelude.Ascending.{All-insert, All-remove}
use pigeonhole_clarity_messe.Prelude.Result.{Result, ok, err}
use pigeonhole_clarity_messe.Core.Error.{Error}
use pigeonhole_clarity_messe.Core.Wire.{HandshakeHeader, RatchetHeader, Message, pre_key, normal}
use pigeonhole_clarity_messe.Core.Crypto.{Crypto}
use pigeonhole_clarity_messe.Core.Bincode.{Bincode, IsBincode}
use pigeonhole_clarity_messe.Core.Pqkem.{kyber_private_len}
use pigeonhole_clarity_messe.Core.Identity.{
  Account, mint, generate_with_prekeys, take_one_time_prekey, replenish_one_time_prekeys,
}
use pigeonhole_clarity_messe.Core.Identity.Stored
use pigeonhole_clarity_messe.Core.Identity.Stored.{StoredAccount, from_bytes, to_bytes}
use pigeonhole_clarity_messe.Core.Handshake
use pigeonhole_clarity_messe.Core.Handshake.Prekeys
use pigeonhole_clarity_messe.Core.Session.{respond, after_handshake}

-- Every prekey's id is below the one that is next.
abbrev pub IsBelow : ℕ → BTreeMap ℕ Bytes → Type 0
IsBelow next pool = All (λ (e : ℕ × Bytes). e.0 < next) pool

abbrev pub IsValid : Account → Type 0
IsValid me = Stored.IsValid me × IsBelow me.next_opk_id me.one_time_prekeys

IsBelow-le : (m n : ℕ) (pool : BTreeMap ℕ Bytes) → m ≤ n → IsBelow m pool → IsBelow n pool
IsBelow-le m n [] le h = tt
IsBelow-le m n (e ∷ pool) le h = (omega (arith, h.0), IsBelow-le m n pool le h.1)

insert-IsBelow :
    (id : ℕ) (secret : Bytes) (pool : BTreeMap ℕ Bytes)
    → IsBelow id pool
    → IsBelow (id + 1) (BTreeMap.insert ℕ_discrete ltb pool id secret)
insert-IsBelow id secret pool h =
    All-insert ℕ_discrete ltb (λ (e : ℕ × Bytes). e.0 < id + 1) pool id secret (omega arith)
      (IsBelow-le id (id + 1) pool (omega arith) h)

mint-IsBelow :
    (pool : BTreeMap ℕ Bytes) (id : ℕ) (secrets : List Bytes)
    → IsBelow id pool
    → IsBelow (id + length secrets) (mint pool id secrets)
unfolding mint
mint-IsBelow pool id [] h = IsBelow-le id (id + 0) pool (omega arith) h
mint-IsBelow pool id (secret ∷ secrets) h =
    let grown = BTreeMap.insert ℕ_discrete ltb pool id secret in
    IsBelow-le (id + 1 + length secrets) (id + length (secret ∷ secrets)) _ (omega arith) (
      mint-IsBelow (BTreeMap.insert ℕ_discrete ltb pool id secret) (id + 1) secrets
        (insert-IsBelow id secret pool h))

replenish-IsBelow :
    (me : Account) (secrets : List Bytes)
    → me.next_opk_id + length secrets < 2 ^ 32
    → IsBelow me.next_opk_id me.one_time_prekeys
    → let after = (replenish_one_time_prekeys me secrets).0 in
      IsBelow after.next_opk_id after.one_time_prekeys
unfolding replenish_one_time_prekeys
replenish-IsBelow me [] room h = h
replenish-IsBelow me (secret ∷ secrets) room h =
    let grown = BTreeMap.insert ℕ_discrete ltb me.one_time_prekeys me.next_opk_id secret in
    let next : (me.next_opk_id + 1) % 2 ^ 32 ≡ me.next_opk_id + 1 = omega arith in
    replenish-IsBelow
      (record me {
        next_opk_id = (me.next_opk_id + 1) % 2 ^ 32;
        one_time_prekeys = BTreeMap.insert ℕ_discrete ltb me.one_time_prekeys me.next_opk_id secret;
      })
      secrets (omega arith)
      (subst (λ (n : ℕ). IsBelow n grown) (sym next)
        (insert-IsBelow me.next_opk_id secret me.one_time_prekeys h))

-- The account through `respond`: as it was, or without one prekey.
module _ (c : Crypto) (encode_header : RatchetHeader → Bytes) (P : Account → Type 0) where
  after_handshake-account :
      (new_self : Bytes) (hs : HandshakeHeader) (header : RatchetHeader) (ciphertext : Bytes)
      (w : Account × Result Error Bytes)
      → P w.0
      → P (after_handshake c encode_header new_self hs header ciphertext w).0
  unfolding after_handshake
  after_handshake-account new_self hs header ciphertext (me, ok root) h = h
  after_handshake-account new_self hs header ciphertext (me, err e) h = h

  respond-account :
      (new_self : Bytes) (me : Account) (message : Message)
      → P me
      → ((id : ℕ) → P (take_one_time_prekey me id).0)
      → P (respond c encode_header new_self me message).0
  unfolding respond
  respond-account new_self me (pre_key hs header ciphertext) h taken =
      after_handshake-account new_self hs header ciphertext (Handshake.respond c me hs)
        (Prekeys.respond-account c P me hs h taken)
  respond-account new_self me (normal header ciphertext) h taken = h

module _ (c : Crypto) (encode_header : RatchetHeader → Bytes) where
  -- The accounts that the operations give, short of the wrap of the `u32` ids.
  pub data Reachable : Account → Type 0 where
    generated :
        (ed_signing dh_identity prekey kyber : Bytes) (secrets : List Bytes)
        → length kyber ≡ kyber_private_len
        → Reachable (generate_with_prekeys ed_signing dh_identity prekey kyber secrets)
    replenished :
        (me : Account) (secrets : List Bytes)
        → Reachable me
        → me.next_opk_id + length secrets < 2 ^ 32
        → Reachable (replenish_one_time_prekeys me secrets).0
    responded :
        (new_self : Bytes) (me : Account) (message : Message)
        → Reachable me
        → Reachable (respond c encode_header new_self me message).0

  take-IsValid : (me : Account) (id : ℕ) → IsValid me → IsValid (take_one_time_prekey me id).0
  unfolding take_one_time_prekey
  take-IsValid me id h = (
    Stored.take-IsValid me id h.0,
    All-remove ℕ_discrete ltb (λ (e : ℕ × Bytes). e.0 < me.next_opk_id) me.one_time_prekeys id h.1,
  )

  generated-IsBelow :
      (ed_signing dh_identity prekey kyber : Bytes) (secrets : List Bytes)
      → let me = generate_with_prekeys ed_signing dh_identity prekey kyber secrets in
        IsBelow me.next_opk_id me.one_time_prekeys
  unfolding generate_with_prekeys
  generated-IsBelow ed_signing dh_identity prekey kyber secrets =
      IsBelow-le (0 + length secrets) (length secrets) (mint [] 0 secrets) (omega arith)
        (mint-IsBelow [] 0 secrets tt)

  -- In every account that is created, replenished short of the wrap of its `u32` ids, and answers
  -- any first messages, the decapsulation key keeps its length, and the ids of the one-time
  -- prekeys ascend and stay below the next id.
  pub Reachable-IsValid : (me : Account) → Reachable me → IsValid me
  Reachable-IsValid _ (generated ed_signing dh_identity prekey kyber secrets h) = (
    Stored.generate-IsValid ed_signing dh_identity prekey kyber secrets h,
    generated-IsBelow ed_signing dh_identity prekey kyber secrets,
  )
  Reachable-IsValid _ (replenished me secrets r room) =
      let valid = Reachable-IsValid me r in
      (Stored.replenish-IsValid me secrets valid.0, replenish-IsBelow me secrets room valid.1)
  Reachable-IsValid _ (responded new_self me message r) =
      let valid = Reachable-IsValid me r in
      respond-account c encode_header IsValid new_self me message valid
        (λ id. take-IsValid me id valid)

  -- Such an account comes back from its bytes as it was.
  pub from_bytes-to_bytes :
      (format : Bincode StoredAccount)
      → IsBincode format
      → (me : Account) → Reachable me
      → from_bytes format (to_bytes format me) ≡ ok me
  from_bytes-to_bytes format laws me r = Stored.restored format laws me (Reachable-IsValid me r).0
