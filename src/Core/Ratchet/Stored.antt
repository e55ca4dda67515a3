-- ===== src/Core/Ratchet/Stored.antt =====
-- `serialize` and `deserialize` of the ratchet of core/src/ratchet.rs. `format` is bincode at the
-- stored ratchet, whose skipped keys are a list in the order of the map.
use pigeonhole_clarity_messe.Prelude.{
  ℕ, ◌≡◌, ap, subst, ◌∙◌, ◌≤◌, Option, none, some, List, [], length, arith,
}
use pigeonhole_clarity_messe.Prelude.Bytes.{Bytes}
use pigeonhole_clarity_messe.Prelude.BTreeMap
use pigeonhole_clarity_messe.Prelude.Ascending.{
  Ascending, insert_all-Ascending, insert-Ascending, remove-Ascending,
}
use pigeonhole_clarity_messe.Prelude.Result.{Result, ok, err, map_err, ◌>>=◌}
use pigeonhole_clarity_messe.Core.Error.{Error}
use pigeonhole_clarity_messe.Core.Wire.{RatchetHeader}
use pigeonhole_clarity_messe.Core.Crypto.{Crypto}
use pigeonhole_clarity_messe.Core.Bincode.{Bincode, IsBincode}
use pigeonhole_clarity_messe.Core.Ratchet.Defs.{
  DoubleRatchet, SkippedKey, SkippedKey_discrete, key_before, decrypt, encrypt, encrypt_with,
  max_skipped_cache, init_initiator, init_responder,
}
use pigeonhole_clarity_messe.Core.Ratchet.Order.{key_before_trans, key_before_irrefl}
use pigeonhole_clarity_messe.Core.Ratchet.Cache.{decrypt-keeps}
use pigeonhole_clarity_messe.Core.Ratchet.Bounds.{decrypt-IsBounded}

pub record StoredRatchet : Type 0 where
  pub root_key : Bytes
  pub dh_self : Bytes
  pub dh_self_pub : Bytes
  pub dh_remote : Option Bytes
  pub chain_send : Option Bytes
  pub chain_recv : Option Bytes
  pub n_send : ℕ
  pub n_recv : ℕ
  pub pn : ℕ
  pub skipped : List (SkippedKey × Bytes)

abbrev pub to_stored : DoubleRatchet → StoredRatchet
to_stored r = record {
  root_key = r.root_key;
  dh_self = r.dh_self;
  dh_self_pub = r.dh_self_pub;
  dh_remote = r.dh_remote;
  chain_send = r.chain_send;
  chain_recv = r.chain_recv;
  n_send = r.n_send;
  n_recv = r.n_recv;
  pn = r.pn;
  skipped = r.skipped;
}

abbrev pub from_stored : StoredRatchet → DoubleRatchet
from_stored s = record {
  root_key = s.root_key;
  dh_self = s.dh_self;
  dh_self_pub = s.dh_self_pub;
  dh_remote = s.dh_remote;
  chain_send = s.chain_send;
  chain_recv = s.chain_recv;
  n_send = s.n_send;
  n_recv = s.n_recv;
  pn = s.pn;
  skipped = BTreeMap.insert_all SkippedKey_discrete key_before [] s.skipped;
}

module _ (format : Bincode StoredRatchet) where
  unfoldable pub serialize : DoubleRatchet → Bytes
  serialize r = format.serialize (to_stored r)

  unfoldable pub deserialize : Bytes → Result Error DoubleRatchet
  deserialize bytes = do s ← map_err Error.wire (format.deserialize bytes); ok (from_stored s)

  -- A cache in the order of its keys comes back as it was.
  pub restored :
      IsBincode format
      → (r : DoubleRatchet) → Ascending SkippedKey_discrete key_before r.skipped
      → deserialize (serialize r) ≡ ok r
  unfolding deserialize serialize
  restored laws r h =
      ap (λ (x : Result Bytes StoredRatchet). map_err Error.wire x >>= λ s. ok (from_stored s))
        (laws (to_stored r))
      ∙ ap (λ (m : List (SkippedKey × Bytes)). ok (record r { skipped = m }))
          (insert_all-Ascending SkippedKey_discrete key_before r.skipped h)

-- What the ratchet keeps: the cache is bounded, and stands in the order of its keys.
abbrev pub IsValid : DoubleRatchet → Type 0
IsValid r =
    (length r.skipped ≤ max_skipped_cache) × Ascending SkippedKey_discrete key_before r.skipped

module _ (c : Crypto) (encode_header : RatchetHeader → Bytes) where
  pub init_initiator-IsValid :
      (dh_self root remote : Bytes) → IsValid (init_initiator c encode_header dh_self root remote)
  unfolding init_initiator
  init_initiator-IsValid dh_self root remote = (omega arith, tt)

  pub init_responder-IsValid :
      (root dh_self : Bytes) → IsValid (init_responder c encode_header root dh_self)
  unfolding init_responder
  init_responder-IsValid root dh_self = (omega arith, tt)

  -- Whatever header and ciphertext arrive, `decrypt` keeps the cache in order and bounded.
  pub decrypt-IsValid :
      (new_self : Bytes) (r : DoubleRatchet) (header : RatchetHeader) (ciphertext ad_prefix : Bytes)
      → IsValid r
      → IsValid (decrypt c encode_header new_self r header ciphertext ad_prefix).0
  decrypt-IsValid new_self r header ciphertext ad_prefix h = (
    decrypt-IsBounded c encode_header new_self r header ciphertext ad_prefix h.0,
    decrypt-keeps (Ascending SkippedKey_discrete key_before)
        (λ m k mk up room.
          insert-Ascending SkippedKey_discrete key_before key_before_trans key_before_irrefl m k mk
            up)
        (λ m k up. remove-Ascending SkippedKey_discrete key_before m k up) c encode_header new_self
        r header ciphertext ad_prefix h.1,
  )

  encrypt_with-skipped :
      (r r' : DoubleRatchet) (plaintext ad_prefix ciphertext : Bytes) (header : RatchetHeader)
      (ck : Option Bytes)
      → encrypt_with c encode_header r plaintext ad_prefix ck ≡ ok (r', header, ciphertext)
      → r.skipped ≡ r'.skipped
  encrypt_with-skipped r r' plaintext ad_prefix ciphertext header none e = cc
  encrypt_with-skipped r r' plaintext ad_prefix ciphertext header (some ck) e =
      ap
        (λ (x : Result Error (DoubleRatchet × RatchetHeader × Bytes)). elim x [
          | ok sealed ↦ sealed.0.skipped
          | err _ ↦ []
        ])
        e

  pub encrypt-IsValid :
      (r r' : DoubleRatchet) (plaintext ad_prefix ciphertext : Bytes) (header : RatchetHeader)
      → encrypt c encode_header r plaintext ad_prefix ≡ ok (r', header, ciphertext)
      → IsValid r
      → IsValid r'
  unfolding encrypt
  encrypt-IsValid r r' plaintext ad_prefix ciphertext header e h =
      subst
        (λ (m : BTreeMap.BTreeMap SkippedKey Bytes).
          (length m ≤ max_skipped_cache) × Ascending SkippedKey_discrete key_before m)
        (encrypt_with-skipped r r' plaintext ad_prefix ciphertext header r.chain_send e) h
