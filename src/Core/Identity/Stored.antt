-- ===== src/Core/Identity/Stored.antt =====
-- `to_bytes` and `from_bytes` of core/src/identity.rs. `format` is bincode at the stored account.
use pigeonhole_clarity_messe.Prelude.{
  ℕ, ◌≡◌, ap, ltb, List, [], ◌∷◌, length, arith, ==_iff, ◌+◌, ◌^◌, ◌%◌, ℕ_discrete,
}
use pigeonhole_clarity_messe.Prelude.Bytes.{Bytes}
use pigeonhole_clarity_messe.Prelude.BTreeMap
use pigeonhole_clarity_messe.Prelude.BTreeMap.{BTreeMap}
use pigeonhole_clarity_messe.Prelude.Ascending.{
  Ascending, insert_all-Ascending, insert-Ascending, remove-Ascending,
}
use pigeonhole_clarity_messe.Prelude.Result.{Result, ok, map_err, ◌>>=◌}
use pigeonhole_clarity_messe.Core.Error.{Error}
use pigeonhole_clarity_messe.Core.Bincode.{Bincode, IsBincode}
use pigeonhole_clarity_messe.Core.Pqkem.{from_private_bytes, kyber_private_len}
use pigeonhole_clarity_messe.Core.Identity.{
  Account, mint, generate_with_prekeys, take_one_time_prekey, replenish_one_time_prekeys,
}

pub record StoredAccount : Type 0 where
  pub ed_signing : Bytes
  pub dh_identity : Bytes
  pub signed_prekey_id : ℕ
  pub signed_prekey : Bytes
  pub kyber_prekey_id : ℕ
  pub kyber_private : Bytes
  pub one_time_prekeys : List (ℕ × Bytes)
  pub next_opk_id : ℕ

abbrev pub to_stored : Account → StoredAccount
to_stored me = record {
  ed_signing = me.ed_signing;
  dh_identity = me.dh_identity;
  signed_prekey_id = me.signed_prekey_id;
  signed_prekey = me.signed_prekey_secret;
  kyber_prekey_id = me.kyber_prekey_id;
  kyber_private = me.kyber;
  one_time_prekeys = me.one_time_prekeys;
  next_opk_id = me.next_opk_id;
}

abbrev pub from_stored : StoredAccount → Bytes → Account
from_stored s kyber = record {
  ed_signing = s.ed_signing;
  dh_identity = s.dh_identity;
  signed_prekey_id = s.signed_prekey_id;
  signed_prekey_secret = s.signed_prekey;
  kyber_prekey_id = s.kyber_prekey_id;
  kyber = kyber;
  one_time_prekeys = BTreeMap.insert_all ℕ_discrete ltb [] s.one_time_prekeys;
  next_opk_id = s.next_opk_id;
}

-- The decapsulation key has its length, and the prekeys stand in the order of their ids.
abbrev pub IsValid : Account → Type 0
IsValid me = (length me.kyber ≡ kyber_private_len) × Ascending ℕ_discrete ltb me.one_time_prekeys

module _ (format : Bincode StoredAccount) where
  unfoldable pub to_bytes : Account → Bytes
  to_bytes me = format.serialize (to_stored me)

  unfoldable pub from_bytes : Bytes → Result Error Account
  unfolding from_private_bytes
  from_bytes bytes = do
    s ← map_err Error.wire (format.deserialize bytes)
    kyber ← from_private_bytes s.kyber_private
    ok (from_stored s kyber)

  pub restored : IsBincode format → (me : Account) → IsValid me → from_bytes (to_bytes me) ≡ ok me
  unfolding from_bytes to_bytes from_private_bytes
  restored laws me h =
      rw (laws (to_stored me), (==_iff (length me.kyber) kyber_private_len).1 h.0)
        (ap (λ (m : BTreeMap ℕ Bytes). ok (record me { one_time_prekeys = m }))
          (insert_all-Ascending ℕ_discrete ltb me.one_time_prekeys h.1))

insert-up :
    (pool : BTreeMap ℕ Bytes) (id : ℕ) (secret : Bytes)
    → Ascending ℕ_discrete ltb pool
    → Ascending ℕ_discrete ltb (BTreeMap.insert ℕ_discrete ltb pool id secret)
insert-up pool id secret h =
    insert-Ascending ℕ_discrete ltb (λ a b c. ground arith) (λ a. ground arith) pool id secret h

mint-up :
    (pool : BTreeMap ℕ Bytes) (id : ℕ) (secrets : List Bytes)
    → Ascending ℕ_discrete ltb pool
    → Ascending ℕ_discrete ltb (mint pool id secrets)
unfolding mint
mint-up pool id [] h = h
mint-up pool id (secret ∷ secrets) h =
    mint-up (BTreeMap.insert ℕ_discrete ltb pool id secret) (id + 1) secrets
      (insert-up pool id secret h)

pub replenish-IsValid :
    (me : Account) (secrets : List Bytes)
    → IsValid me
    → IsValid (replenish_one_time_prekeys me secrets).0
unfolding replenish_one_time_prekeys
replenish-IsValid me [] h = h
replenish-IsValid me (secret ∷ secrets) h =
    replenish-IsValid
      (record me {
        next_opk_id = (me.next_opk_id + 1) % 2 ^ 32;
        one_time_prekeys = BTreeMap.insert ℕ_discrete ltb me.one_time_prekeys me.next_opk_id secret;
      })
      secrets (h.0, insert-up me.one_time_prekeys me.next_opk_id secret h.1)

pub take-IsValid : (me : Account) (id : ℕ) → IsValid me → IsValid (take_one_time_prekey me id).0
unfolding take_one_time_prekey
take-IsValid me id h = (h.0, remove-Ascending ℕ_discrete ltb me.one_time_prekeys id h.1)

pub generate-IsValid :
    (ed_signing dh_identity signed_prekey kyber : Bytes) (secrets : List Bytes)
    → length kyber ≡ kyber_private_len
    → IsValid (generate_with_prekeys ed_signing dh_identity signed_prekey kyber secrets)
unfolding generate_with_prekeys
generate-IsValid ed_signing dh_identity signed_prekey kyber secrets h = (h, mint-up [] 0 secrets tt)
