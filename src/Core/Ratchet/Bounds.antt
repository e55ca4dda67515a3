-- ===== src/Core/Ratchet/Bounds.antt =====
-- Memory bounds of core/src/ratchet.rs: the cache of skipped keys, on every path of `decrypt`.
use pigeonhole_clarity_messe.Prelude.{◌≤◌, length, arith}
use pigeonhole_clarity_messe.Prelude.Bytes.{Bytes}
use pigeonhole_clarity_messe.Prelude.BTreeMap
use pigeonhole_clarity_messe.Core.Wire.{RatchetHeader}
use pigeonhole_clarity_messe.Core.Crypto.{Crypto}
use pigeonhole_clarity_messe.Core.Ratchet.Defs.{
  max_skipped_cache, SkippedKey_discrete, key_before, DoubleRatchet, decrypt,
}
use pigeonhole_clarity_messe.Core.Ratchet.Cache.{decrypt-keeps}

module _ (c : Crypto) (encode_header : RatchetHeader → Bytes) where
  -- Whatever header and ciphertext arrive, accepted or refused, `decrypt` keeps the cache of skipped
  -- keys within `MAX_SKIPPED_CACHE` entries.
  pub decrypt-IsBounded :
      (new_self : Bytes) (r : DoubleRatchet) (header : RatchetHeader) (ciphertext ad_prefix : Bytes)
      → length r.skipped ≤ max_skipped_cache
      → length (decrypt c encode_header new_self r header ciphertext ad_prefix).0.skipped
        ≤ max_skipped_cache
  decrypt-IsBounded =
      decrypt-keeps (λ m. length m ≤ max_skipped_cache)
        (λ m k mk h room.
          omega (arith, BTreeMap.length-insert-le SkippedKey_discrete key_before m k mk))
        (λ m k h. omega (arith, BTreeMap.length-remove-le SkippedKey_discrete m k)) c encode_header
