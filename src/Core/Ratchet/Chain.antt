-- ===== src/Core/Ratchet/Chain.antt =====
-- One receiving chain of core/src/ratchet.rs: messages of the chain decrypt in any order, and the
-- keys of those that were passed over are kept.
use pigeonhole_clarity_messe.Prelude.{
  ℕ, zero, suc, ◌+◌, ◌-◌, ◌%◌, ◌≤◌, ◌<◌, ◌≡◌, refl, sym, ap, ◌∙◌, false, if_pos, if_neg, Option,
  some, length, arith, leb, ltb, Bool-cases, inl, inr, if◌then◌else◌, ◌==◌, ==_iff, ◌&&◌,
}
use pigeonhole_clarity_messe.Prelude.Bytes.{Bytes}
use pigeonhole_clarity_messe.Prelude.BTreeMap
use pigeonhole_clarity_messe.Prelude.Result.{ok}
use pigeonhole_clarity_messe.Core.Wire.{RatchetHeader}
use pigeonhole_clarity_messe.Core.Crypto.{Crypto, IsCrypto}
use pigeonhole_clarity_messe.Core.Kdf
use pigeonhole_clarity_messe.Core.Ratchet.Defs.{
  max_skip, max_skipped_cache, u32_mod, SkippedKey, SkippedKey_discrete as dec, key_before,
  DoubleRatchet, cached, skip_loop, store_chain, skip_remote, skip_chain, skip_message_keys,
  after_skip, decrypt_current,
}

module _ (c : Crypto) where
  -- The chain key after `n` messages, and the key of message `n`.
  abbrev pub chain_key : Bytes → ℕ → Bytes
  chain_key ck zero = ck
  chain_key ck (suc n) = (Kdf.kdf_ck c (chain_key ck n)).0

  abbrev pub message_key : Bytes → ℕ → Bytes
  message_key ck n = (Kdf.kdf_ck c (chain_key ck n)).1

  chain_key-next : (ck : Bytes) (n : ℕ) → (Kdf.kdf_ck c (chain_key ck n)).0 ≡ chain_key ck (n + 1)
  chain_key-next ck n = let e : suc n ≡ n + 1 = omega arith in ap (chain_key ck) e

-- The state after one skipped message.
abbrev pub cache_next : Crypto → Bytes → Bytes → DoubleRatchet → DoubleRatchet
cache_next c remote start r = record r {
  skipped = BTreeMap.insert dec key_before r.skipped (remote, r.n_recv) (Kdf.kdf_ck c start).1;
  n_recv = r.n_recv + 1;
}

-- A receiver at its place in the chain that starts with `ck`.
pub record Receives (c : Crypto) (remote ck : Bytes) (r : DoubleRatchet) : Type 0 where
  pub remote_key : r.dh_remote ≡ some remote
  pub chain : r.chain_recv ≡ some (chain_key c ck r.n_recv)

module _ (c : Crypto) (encode_header : RatchetHeader → Bytes) (remote ck : Bytes) where
  cached-insert :
      (m : BTreeMap.BTreeMap SkippedKey Bytes) (n j : ℕ) (v : Bytes)
      → BTreeMap.get dec (BTreeMap.insert dec key_before m (remote, n) v) (remote, j)
        ≡ (if n == j then some v else BTreeMap.get dec m (remote, j))
  cached-insert m n j v = elim (Bool-cases (n == j)) [
    | inl p ↦
        BTreeMap.get-insert dec key_before m (remote, n) (remote, j) v
        ∙ if_pos (dec (remote, n) (remote, j)) (ap (λ (i : ℕ). (remote, i)) ((==_iff n j).0 p)) _ _
        ∙ rw p refl
    | inr p ↦
        BTreeMap.get-insert dec key_before m (remote, n) (remote, j) v
        ∙ if_neg (dec (remote, n) (remote, j)) (λ e. ground (arith, ap (λ (k : SkippedKey). k.1) e))
            _ _
        ∙ rw p refl
  ]

  -- One round of the loop that the cache has room for.
  skip_loop-suc :
      (rounds : ℕ) (start : Bytes) (r : DoubleRatchet)
      → length r.skipped < max_skipped_cache
      → skip_loop c encode_header (suc rounds) remote start r
        ≡ skip_loop c encode_header rounds remote
            (Kdf.kdf_ck c start).0
            (cache_next c remote start r)
  unfolding skip_loop
  skip_loop-suc rounds start r h =
      let room : leb max_skipped_cache (length r.skipped) ≡ false = ground arith in rw room refl

  -- What the cache holds of the chain after the messages `[from, to)` were passed over.
  abbrev pub passed_over : ℕ → ℕ → ℕ → Option Bytes → Option Bytes
  passed_over from to m old = if leb from m && ltb m to then some (message_key c ck m) else old

  passed_over-next :
      (start : Bytes) (r : DoubleRatchet) (rounds m : ℕ)
      → start ≡ chain_key c ck r.n_recv
      → passed_over
          (r.n_recv + 1)
          (r.n_recv + 1 + rounds)
          m
          (cached (cache_next c remote start r) remote m)
        ≡ passed_over r.n_recv (r.n_recv + suc rounds) m (cached r remote m)
  passed_over-next start r rounds m s =
      let key : (Kdf.kdf_ck c start).1 ≡ message_key c ck r.n_recv =
        ap (λ (k : Bytes). (Kdf.kdf_ck c k).1) s in
      ground (arith, cached-insert r.skipped r.n_recv m (Kdf.kdf_ck c start).1)

  -- The skip loop, run within the cache's room: where it ends, and what it leaves in the cache.
  skip_loop-caches :
      (rounds : ℕ) (start : Bytes) (r : DoubleRatchet) (m : ℕ)
      → start ≡ chain_key c ck r.n_recv
      → length r.skipped + rounds ≤ max_skipped_cache
      → (r' : DoubleRatchet) × (skip_loop c encode_header rounds remote start r
          ≡ (r', ok (chain_key c ck (r.n_recv + rounds))))
        × (r'.n_recv ≡ r.n_recv + rounds)
        × (r'.dh_remote ≡ r.dh_remote)
        × (cached r' remote m ≡ passed_over r.n_recv (r.n_recv + rounds) m (cached r remote m))
  skip_loop-caches zero start r m s h =
      let e : r.n_recv + 0 ≡ r.n_recv = omega arith in
      (r, unfold skip_loop in rw (e, s) refl, sym e, refl, ground arith)
  skip_loop-caches (suc rounds) start r m s h =
      let next = cache_next c remote start r in
      let step : (Kdf.kdf_ck c start).0 ≡ chain_key c ck (r.n_recv + 1) =
        ap (λ (k : Bytes). (Kdf.kdf_ck c k).0) s ∙ chain_key-next c ck r.n_recv in
      let (r', run, count, remote', kept) =
        skip_loop-caches rounds (Kdf.kdf_ck c start).0 next m step (
          omega (
            arith,
            BTreeMap.length-insert-le dec key_before r.skipped (remote, r.n_recv)
                (Kdf.kdf_ck c start).1,
          )) in
      let e : r.n_recv + suc rounds ≡ r.n_recv + 1 + rounds = omega arith in
      (
        r',
        rw e (skip_loop-suc rounds start r (omega arith) ∙ run),
        rw e count,
        remote',
        kept ∙ passed_over-next start r rounds m s,
      )

  -- Within the limits `skip_message_keys` runs its loop.
  pub skip_message_keys-runs :
      (r : DoubleRatchet) (until : ℕ) (start : Bytes)
      → r.chain_recv ≡ some start
      → r.dh_remote ≡ some remote
      → r.n_recv ≤ until
      → until - r.n_recv ≤ max_skip
      → skip_message_keys c encode_header r until
        ≡ store_chain c encode_header (skip_loop c encode_header (until - r.n_recv) remote start r)
  unfolding skip_message_keys
  skip_message_keys-runs r until start chain remote' ahead near =
      let not_past : ltb until r.n_recv ≡ false = ground arith in
      let not_far : ltb max_skip (until - r.n_recv) ≡ false = ground arith in
      ap (skip_chain c encode_header r until) chain
      ∙ rw (not_past, not_far) (ap (skip_remote c encode_header r until start) remote')

  -- A message of the chain, at or ahead of the receiver, within the skip limit and the cache's room.
  pub decrypt_current-opens :
      IsCrypto c
      → (r : DoubleRatchet) (header : RatchetHeader) (plaintext ad : Bytes) (m : ℕ)
      → Receives c remote ck r
      → r.n_recv ≤ header.n
      → header.n - r.n_recv ≤ max_skip
      → header.n + 1 < u32_mod
      → length r.skipped + (header.n - r.n_recv) ≤ max_skipped_cache
      → (r' : DoubleRatchet) × (decrypt_current c encode_header r header
            (Kdf.aead_seal c (message_key c ck header.n) plaintext ad)
            ad
          ≡ (r', ok plaintext))
        × Receives c remote ck r'
        × (r'.n_recv ≡ header.n + 1)
        × (cached r' remote m ≡ passed_over r.n_recv header.n m (cached r remote m))
  unfolding decrypt_current
  decrypt_current-opens laws r header plaintext ad m v ahead near small room =
      let ciphertext = Kdf.aead_seal c (message_key c ck header.n) plaintext ad in
      let (r', run, count, remote', kept) =
        skip_loop-caches (header.n - r.n_recv) (chain_key c ck r.n_recv) r m refl room in
      let n : r.n_recv + (header.n - r.n_recv) ≡ header.n = omega arith in
      let count' : (r'.n_recv + 1) % u32_mod ≡ header.n + 1 = omega arith in
      let opened : Kdf.aead_open c (message_key c ck (r.n_recv + (header.n - r.n_recv))) ciphertext
            ad
          ≡ ok plaintext =
        ap (λ (k : ℕ). Kdf.aead_open c (message_key c ck k) ciphertext ad) n
        ∙ Kdf.aead_open-aead_seal c laws (message_key c ck header.n) plaintext ad in
      (
        record r' { chain_recv = some (chain_key c ck (suc header.n)); n_recv = header.n + 1 },
        ap (after_skip c encode_header ciphertext ad) (
              skip_message_keys-runs r header.n (chain_key c ck r.n_recv) v.chain v.remote_key ahead
                near
              ∙ ap (store_chain c encode_header) run)
            ∙ (λ i. (
              record r' { chain_recv = some (chain_key c ck (suc (n i))); n_recv = count' i },
              opened i,
            )),
        record {
          remote_key = remote' ∙ v.remote_key;
          chain = ap some (chain_key-next c ck header.n);
        },
        refl,
        kept ∙ ap (λ (k : ℕ). passed_over r.n_recv k m (cached r remote m)) n,
      )
