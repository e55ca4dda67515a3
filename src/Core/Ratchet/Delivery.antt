-- ===== src/Core/Ratchet/Delivery.antt =====
-- Delivery within a chain of core/src/ratchet.rs: `decrypt` on messages that are ahead, and on
-- those that were passed over.
use pigeonhole_clarity_messe.Prelude.{
  ℕ, ◌+◌, ◌-◌, ◌≤◌, ◌<◌, ◌≡◌, refl, ap, ◌∙◌, if_pos, none, some, length, arith, leb, ltb, ◌&&◌,
  if◌then◌else◌,
}
use pigeonhole_clarity_messe.Prelude.Bytes.{Bytes}
use pigeonhole_clarity_messe.Prelude.BTreeMap
use pigeonhole_clarity_messe.Prelude.Result.{Result, ok}
use pigeonhole_clarity_messe.Core.Error.{Error}
use pigeonhole_clarity_messe.Core.Wire.{RatchetHeader}
use pigeonhole_clarity_messe.Core.Crypto.{Crypto, IsCrypto}
use pigeonhole_clarity_messe.Core.Kdf
use pigeonhole_clarity_messe.Core.Ratchet.Defs.{
  max_skip, max_skipped_cache, u32_mod, SkippedKey_discrete, DoubleRatchet, cached, associated_data,
  after_turn, decrypt_cached, decrypt,
}
use pigeonhole_clarity_messe.Core.Ratchet.Replay.{turn-current}
use pigeonhole_clarity_messe.Core.Ratchet.Chain.{message_key, Receives, decrypt_current-opens}

-- A message of the chain from `ck`: its header names the chain, and its key is the chain's.
abbrev pub sealed :
    (c : Crypto) → (RatchetHeader → Bytes) → Bytes → Bytes → RatchetHeader → Bytes → Bytes
sealed c encode_header ck ad_prefix header plaintext =
    Kdf.aead_seal c (message_key c ck header.n) plaintext
      (associated_data c encode_header ad_prefix header)

module _ (c : Crypto) (encode_header : RatchetHeader → Bytes) (laws : IsCrypto c) (ck : Bytes) where
  -- A message at or ahead of the receiver's place decrypts.
  decrypt-ahead :
      (new_self : Bytes) (r : DoubleRatchet) (header : RatchetHeader) (plaintext ad_prefix : Bytes)
      (m : ℕ)
      → Receives c header.dh_pub ck r
      → cached r header.dh_pub header.n ≡ none
      → r.n_recv ≤ header.n
      → header.n - r.n_recv ≤ max_skip
      → header.n + 1 < u32_mod
      → length r.skipped + (header.n - r.n_recv) ≤ max_skipped_cache
      → (r' : DoubleRatchet) × (decrypt c encode_header new_self r header
            (sealed c encode_header ck ad_prefix header plaintext)
            ad_prefix
          ≡ (r', ok plaintext))
        × Receives c header.dh_pub ck r'
        × (r'.n_recv ≡ header.n + 1)
        × (cached r' header.dh_pub m ≡ (
            if leb r.n_recv m && ltb m header.n
            then some (message_key c ck m)
            else cached r header.dh_pub m))
  unfolding decrypt
  decrypt-ahead new_self r header plaintext ad_prefix m v uncached ahead near small room =
      let ad = associated_data c encode_header ad_prefix header in
      let ciphertext = sealed c encode_header ck ad_prefix header plaintext in
      let (r', run, v', count, kept) =
        decrypt_current-opens c encode_header header.dh_pub ck laws r header plaintext ad m v ahead
          near small room in
      (
        r',
        ap (decrypt_cached c encode_header new_self r header ciphertext ad) uncached
            ∙ ap (after_turn c encode_header header ciphertext ad)
                (turn-current c encode_header new_self r header v.remote_key)
            ∙ run,
        v',
        count,
        kept,
      )

  -- A message whose key is in the cache decrypts, and its key is dropped.
  decrypt-late :
      (new_self : Bytes) (r : DoubleRatchet) (header : RatchetHeader) (plaintext ad_prefix : Bytes)
      → cached r header.dh_pub header.n ≡ some (message_key c ck header.n)
      → (r' : DoubleRatchet) × (decrypt c encode_header new_self r header
            (sealed c encode_header ck ad_prefix header plaintext)
            ad_prefix
          ≡ (r', ok plaintext))
        × (cached r' header.dh_pub header.n ≡ none)
        × (r'.n_recv ≡ r.n_recv)
        × (r'.chain_recv ≡ r.chain_recv)
  unfolding decrypt
  decrypt-late new_self r header plaintext ad_prefix e =
      let ad = associated_data c encode_header ad_prefix header in
      let ciphertext = sealed c encode_header ck ad_prefix header plaintext in
      let r' : DoubleRatchet = record r {
        skipped = BTreeMap.remove SkippedKey_discrete r.skipped (header.dh_pub, header.n);
      } in
      (
        r',
        ap (decrypt_cached c encode_header new_self r header ciphertext ad) e
            ∙ ap (λ (x : Result Error Bytes). (r', x))
                (Kdf.aead_open-aead_seal c laws (message_key c ck header.n) plaintext ad),
        BTreeMap.get-remove SkippedKey_discrete r.skipped (header.dh_pub, header.n)
              (header.dh_pub, header.n)
            ∙ if_pos (SkippedKey_discrete (header.dh_pub, header.n) (header.dh_pub, header.n)) refl
                _ _,
        refl,
        refl,
      )

  -- Out of order delivery. A receiver at its place in a chain is given first a message that is ahead
  -- of its place, within the skip limit and the room of its cache, and then one that was passed
  -- over. Both decrypt to their plaintexts, and the key of the late one is gone afterwards.
  pub decrypt-out_of_order :
      (first_self then_self : Bytes) (r : DoubleRatchet) (ahead late : RatchetHeader)
      (plaintext late_plaintext ad_prefix : Bytes)
      → Receives c ahead.dh_pub ck r
      → late.dh_pub ≡ ahead.dh_pub
      → cached r ahead.dh_pub ahead.n ≡ none
      → r.n_recv ≤ late.n
      → late.n < ahead.n
      → ahead.n - r.n_recv ≤ max_skip
      → ahead.n + 1 < u32_mod
      → length r.skipped + (ahead.n - r.n_recv) ≤ max_skipped_cache
      → (r' r'' : DoubleRatchet) × (decrypt c encode_header first_self r ahead
            (sealed c encode_header ck ad_prefix ahead plaintext)
            ad_prefix
          ≡ (r', ok plaintext))
        × (decrypt c encode_header then_self r' late
              (sealed c encode_header ck ad_prefix late late_plaintext)
              ad_prefix
            ≡ (r'', ok late_plaintext))
        × (cached r'' late.dh_pub late.n ≡ none)
        × Receives c ahead.dh_pub ck r'
  decrypt-out_of_order first_self then_self r ahead late plaintext late_plaintext ad_prefix v same
        uncached from to near small room =
      let (r', run, v', count, kept) =
        decrypt-ahead first_self r ahead plaintext ad_prefix late.n v uncached (omega arith) near
          small room in
      let there : cached r' late.dh_pub late.n ≡ some (message_key c ck late.n) =
        ap (λ (k : Bytes). cached r' k late.n) same ∙ kept ∙ ground arith in
      let (r'', run', gone, _, _) = decrypt-late then_self r' late late_plaintext ad_prefix there in
      (r', r'', run, run', gone, v')
