-- ===== src/Core/Ratchet/Cache.antt =====
-- What `decrypt` of core/src/ratchet.rs may do to the cache of skipped keys, on each of its paths:
-- add an entry while there is room, and take one out. A property that both keep, it keeps.
use pigeonhole_clarity_messe.Prelude.{
  ℕ, zero, suc, ◌-◌, ◌<◌, Option, none, some, length, arith, leb, ltb, Bool-cases, inl, inr,
}
use pigeonhole_clarity_messe.Prelude.Bytes.{Bytes}
use pigeonhole_clarity_messe.Prelude.BTreeMap
use pigeonhole_clarity_messe.Prelude.Result.{Result, ok, err}
use pigeonhole_clarity_messe.Core.Error.{Error}
use pigeonhole_clarity_messe.Core.Wire.{RatchetHeader}
use pigeonhole_clarity_messe.Core.Crypto.{Crypto}
use pigeonhole_clarity_messe.Core.Kdf
use pigeonhole_clarity_messe.Core.Ratchet.Defs.{
  max_skip, max_skipped_cache, SkippedKey, SkippedKey_discrete, key_before, DoubleRatchet,
  is_remote, skip_loop, store_chain, skip_remote, skip_chain, skip_message_keys, dh_ratchet,
  open_next, after_skip, decrypt_current, after_old_chain, turn, after_turn, decrypt_cached,
  decrypt,
}

abbrev pub SkippedKeys : Type 0
SkippedKeys = BTreeMap.BTreeMap SkippedKey Bytes

module _ (P : SkippedKeys → Type 0)
    (insert_keeps : (m : SkippedKeys) (k : SkippedKey) (mk : Bytes)
      → P m
      → length m < max_skipped_cache
      → P (BTreeMap.insert SkippedKey_discrete key_before m k mk))
    (remove_keeps : (m : SkippedKeys) (k : SkippedKey)
      → P m
      → P (BTreeMap.remove SkippedKey_discrete m k))
    (c : Crypto) (encode_header : RatchetHeader → Bytes) where
  abbrev Keeps : DoubleRatchet → Type 0
  Keeps r = P r.skipped

  skip_loop-Keeps :
      (rounds : ℕ) (remote ck : Bytes) (r : DoubleRatchet)
      → Keeps r
      → Keeps (skip_loop c encode_header rounds remote ck r).0
  unfolding skip_loop
  skip_loop-Keeps zero remote ck r h = h
  skip_loop-Keeps (suc rounds) remote ck r h =
      elim (Bool-cases (leb max_skipped_cache (length r.skipped))) [
        | inl full ↦ rw full h
        | inr room ↦ rw room (
            skip_loop-Keeps rounds remote _ _
              (insert_keeps r.skipped (remote, r.n_recv) (Kdf.kdf_ck c ck).1 h (ground arith)))
      ]

  store_chain-Keeps :
      (w : DoubleRatchet × Result Error Bytes) → Keeps w.0 → Keeps (store_chain c encode_header w).0
  store_chain-Keeps (r, ok ck) h = h
  store_chain-Keeps (r, err e) h = h

  skip_remote-Keeps :
      (r : DoubleRatchet) (until : ℕ) (ck : Bytes) (o : Option Bytes)
      → Keeps r
      → Keeps (skip_remote c encode_header r until ck o).0
  skip_remote-Keeps r until ck none h = h
  skip_remote-Keeps r until ck (some remote) h =
      store_chain-Keeps _ (skip_loop-Keeps (until - r.n_recv) remote ck r h)

  skip_chain-Keeps :
      (r : DoubleRatchet) (until : ℕ) (o : Option Bytes)
      → Keeps r
      → Keeps (skip_chain c encode_header r until o).0
  skip_chain-Keeps r until none h = h
  skip_chain-Keeps r until (some ck) h = elim (Bool-cases (ltb until r.n_recv)) [
    | inl past ↦ rw past h
    | inr ahead ↦ elim (Bool-cases (ltb max_skip (until - r.n_recv))) [
      | inl far ↦ rw (ahead, far) h
      | inr near ↦ rw (ahead, near) (skip_remote-Keeps r until ck r.dh_remote h)
    ]
  ]

  skip_message_keys-Keeps :
      (r : DoubleRatchet) (until : ℕ)
      → Keeps r
      → Keeps (skip_message_keys c encode_header r until).0
  unfolding skip_message_keys
  skip_message_keys-Keeps r until h = skip_chain-Keeps r until r.chain_recv h

  open_next-Keeps :
      (r : DoubleRatchet) (ciphertext ad : Bytes) (o : Option Bytes)
      → Keeps r
      → Keeps (open_next c encode_header r ciphertext ad o).0
  open_next-Keeps r ciphertext ad none h = h
  open_next-Keeps r ciphertext ad (some ck) h = h

  after_skip-Keeps :
      (ciphertext ad : Bytes) (w : DoubleRatchet × Result Error (Unit {0}))
      → Keeps w.0
      → Keeps (after_skip c encode_header ciphertext ad w).0
  after_skip-Keeps ciphertext ad (r, ok _) h = open_next-Keeps r ciphertext ad r.chain_recv h
  after_skip-Keeps ciphertext ad (r, err e) h = h

  after_old_chain-Keeps :
      (new_self : Bytes) (header : RatchetHeader) (w : DoubleRatchet × Result Error (Unit {0}))
      → Keeps w.0
      → Keeps (after_old_chain c encode_header new_self header w).0
  unfolding dh_ratchet
  after_old_chain-Keeps new_self header (r, ok _) h = h
  after_old_chain-Keeps new_self header (r, err e) h = h

  turn-Keeps :
      (new_self : Bytes) (r : DoubleRatchet) (header : RatchetHeader)
      → Keeps r
      → Keeps (turn c encode_header new_self r header).0
  unfolding turn
  turn-Keeps new_self r header h = elim (Bool-cases (is_remote r.dh_remote header.dh_pub)) [
    | inl same ↦ rw same h
    | inr new ↦ rw new (
        after_old_chain-Keeps new_self header (skip_message_keys c encode_header r header.pn)
          (skip_message_keys-Keeps r header.pn h))
  ]

  after_turn-Keeps :
      (header : RatchetHeader) (ciphertext ad : Bytes) (w : DoubleRatchet × Result Error (Unit {0}))
      → Keeps w.0
      → Keeps (after_turn c encode_header header ciphertext ad w).0
  unfolding decrypt_current
  after_turn-Keeps header ciphertext ad (r, ok _) h =
      after_skip-Keeps ciphertext ad (skip_message_keys c encode_header r header.n)
        (skip_message_keys-Keeps r header.n h)
  after_turn-Keeps header ciphertext ad (r, err e) h = h

  decrypt_cached-Keeps :
      (new_self : Bytes) (r : DoubleRatchet) (header : RatchetHeader) (ciphertext ad : Bytes)
      (o : Option Bytes)
      → Keeps r
      → Keeps (decrypt_cached c encode_header new_self r header ciphertext ad o).0
  decrypt_cached-Keeps new_self r header ciphertext ad (some mk) h =
      remove_keeps r.skipped (header.dh_pub, header.n) h
  decrypt_cached-Keeps new_self r header ciphertext ad none h =
      after_turn-Keeps header ciphertext ad (turn c encode_header new_self r header)
        (turn-Keeps new_self r header h)

  pub decrypt-keeps :
      (new_self : Bytes) (r : DoubleRatchet) (header : RatchetHeader) (ciphertext ad_prefix : Bytes)
      → P r.skipped
      → P (decrypt c encode_header new_self r header ciphertext ad_prefix).0.skipped
  unfolding decrypt
  decrypt-keeps new_self r header ciphertext ad_prefix h =
      decrypt_cached-Keeps new_self r header ciphertext _
        (BTreeMap.get SkippedKey_discrete r.skipped (header.dh_pub, header.n)) h
