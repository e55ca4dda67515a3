-- ===== src/Core/Ratchet/Replay.antt =====
-- Messages behind the receiver's place (core/src/ratchet.rs): what `decrypt` does with a replay.
use pigeonhole_clarity_messe.Prelude.{
  ℕ, ◌+◌, ◌%◌, ◌<◌, ◌≡◌, refl, ap, ◌∙◌, true, Option, none, some, arith, ltb,
}
use pigeonhole_clarity_messe.Prelude.Bytes.{Bytes}
use pigeonhole_clarity_messe.Prelude.Result.{ok}
use pigeonhole_clarity_messe.Core.Wire.{RatchetHeader}
use pigeonhole_clarity_messe.Core.Crypto.{Crypto}
use pigeonhole_clarity_messe.Core.Kdf
use pigeonhole_clarity_messe.Core.Ratchet.Defs.{
  u32_mod, DoubleRatchet, cached, associated_data, skip_chain, skip_message_keys, decrypt_current,
  open_next, after_skip, after_turn, decrypt_cached, decrypt, turn, is_remote,
}

module _ (c : Crypto) (encode_header : RatchetHeader → Bytes) where
  is_remote_same : (o : Option Bytes) (remote : Bytes) → o ≡ some remote → is_remote o remote ≡ true
  unfolding is_remote
  is_remote_same none remote e = cc
  is_remote_same (some k) remote e = ground arith

  pub turn-current :
      (new_self : Bytes) (r : DoubleRatchet) (header : RatchetHeader)
      → r.dh_remote ≡ some header.dh_pub
      → turn c encode_header new_self r header ≡ (r, ok tt)
  unfolding turn
  turn-current new_self r header e = rw (is_remote_same r.dh_remote header.dh_pub e) refl

  skip_message_keys-behind :
      (r : DoubleRatchet) (until : ℕ) (ck : Bytes)
      → r.chain_recv ≡ some ck
      → until < r.n_recv
      → skip_message_keys c encode_header r until ≡ (r, ok tt)
  unfolding skip_message_keys
  skip_message_keys-behind r until ck chain h =
      let past : ltb until r.n_recv ≡ true = ground arith in
      ap (skip_chain c encode_header r until) chain ∙ rw past refl

  -- A message on the current chain whose number is behind the receiver's place and whose key is not
  -- in the cache, such as a replay, makes `decrypt` try the key of the place itself. Whether or not
  -- that key opens the ciphertext, the state moves on: the place and the chain key are those after
  -- the next message, and no key is kept for it.
  pub decrypt-replay :
      (new_self : Bytes) (r : DoubleRatchet) (header : RatchetHeader)
      (ciphertext ad_prefix ck : Bytes)
      → r.dh_remote ≡ some header.dh_pub
      → r.chain_recv ≡ some ck
      → cached r header.dh_pub header.n ≡ none
      → header.n < r.n_recv
      → decrypt c encode_header new_self r header ciphertext ad_prefix ≡ (
        record r { chain_recv = some (Kdf.kdf_ck c ck).0; n_recv = (r.n_recv + 1) % u32_mod },
        Kdf.aead_open c
            (Kdf.kdf_ck c ck).1
            ciphertext
            (associated_data c encode_header ad_prefix header),
      )
  unfolding decrypt decrypt_current
  decrypt-replay new_self r header ciphertext ad_prefix ck remote chain uncached behind =
      let ad = associated_data c encode_header ad_prefix header in
      ap (decrypt_cached c encode_header new_self r header ciphertext ad) uncached
      ∙ ap (after_turn c encode_header header ciphertext ad) (turn-current new_self r header remote)
      ∙ ap (after_skip c encode_header ciphertext ad)
          (skip_message_keys-behind r header.n ck chain behind)
      ∙ ap (open_next c encode_header r ciphertext ad) chain
