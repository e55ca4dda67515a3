-- ===== src/Core/Envelope/Defs.antt =====
-- The operations of core/src/envelope.rs. The ephemeral secret is an argument; `usize` does not
-- wrap, the `u32` length field does.
use pigeonhole_clarity_messe.Prelude.{
  ℕ, zero, suc, ◌+◌, ◌-◌, ◌*◌, ◌/◌, ◌%◌, ◌==◌, Bool, not, ◌||◌, leb, ltb, [], ◌∷◌, ◌++◌, length,
  take, drop, replicate, if◌then◌else◌,
}
use pigeonhole_clarity_messe.Prelude.Bytes.{Bytes, ascii}
use pigeonhole_clarity_messe.Prelude.Result.{Result, ok, err, ◌>>=◌}
use pigeonhole_clarity_messe.Core.Error.{Error}
use pigeonhole_clarity_messe.Core.Crypto.{Crypto}
use pigeonhole_clarity_messe.Core.Kdf
use pigeonhole_clarity_messe.Core.Identity.{Account, identity_public, identity_dh_public}

abbrev pub sealed_envelope_version : ℕ
sealed_envelope_version = 2

abbrev pub header_len : ℕ
header_len = 1 + 32

abbrev pub inner_prefix_len : ℕ
inner_prefix_len = 64

abbrev pub len_prefix : ℕ
len_prefix = 4

abbrev pub min_bucket : ℕ
min_bucket = 512

abbrev pub max_pow2_bucket : ℕ
max_pow2_bucket = 8 * 1024

-- `next_power_of_two` of the standard library: the first doubling of 1 that is not below the
-- number. A 64-bit size needs at most 63 doublings.
unfoldable pub doubled_to : ℕ → ℕ → ℕ → ℕ
doubled_to zero p n = p
doubled_to (suc fuel) p n = let rest = doubled_to fuel (2 * p) n in if leb n p then p else rest

unfoldable pub next_power_of_two : ℕ → ℕ
unfolding doubled_to
next_power_of_two n = doubled_to 63 1 n

-- `div_ceil` of the standard library.
abbrev pub div_ceil : ℕ → ℕ → ℕ
div_ceil n d = if ltb 0 (n % d) then n / d + 1 else n / d

unfoldable pub bucket : ℕ → ℕ
bucket len =
    let needed = len + len_prefix in
    if leb needed min_bucket
    then min_bucket
    else if leb needed max_pow2_bucket
    then next_power_of_two needed
    else div_ceil needed max_pow2_bucket * max_pow2_bucket

pub record OpenedEnvelope : Type 0 where
  pub sender_identity_ed : Bytes
  pub sender_identity_dh : Bytes
  pub payload : Bytes

-- `(n as u32).to_le_bytes()`.
unfoldable pub to_le_bytes : ℕ → Bytes
to_le_bytes n = n % 256 ∷ n / 256 % 256 ∷ n / (256 * 256) % 256 ∷ n / (256 * 256 * 256) % 256 ∷ []

-- `u32::from_le_bytes`.
unfoldable pub from_le_bytes : Bytes → ℕ
from_le_bytes [] = 0
from_le_bytes (b ∷ bs) = b + 256 * from_le_bytes bs

-- `Vec::resize(n, 0)`.
abbrev pub resize : ℕ → Bytes → Bytes
resize n bs = take n bs ++ replicate (n - length bs) 0

-- The padded plaintext of an envelope.
unfoldable pub inner_of : Bytes → Bytes → Bytes → Bytes
unfolding to_le_bytes bucket
inner_of sender_ed sender_dh payload =
    resize (inner_prefix_len + bucket (length payload))
      (((sender_ed ++ sender_dh) ++ to_le_bytes (length payload)) ++ payload)

-- `open_envelope` once the plaintext is there.
unfoldable pub parse_inner : Bytes → Result Error OpenedEnvelope
unfolding from_le_bytes
parse_inner inner =
    let payload_len = from_le_bytes (take len_prefix (drop inner_prefix_len inner)) in
    let start = inner_prefix_len + len_prefix in
    if ltb (length inner) (inner_prefix_len + len_prefix)
    then err Error.decrypt
    else if ltb (length inner - start) payload_len
    then err Error.decrypt
    else ok (record {
      sender_identity_ed = take 32 inner;
      sender_identity_dh = take 32 (drop 32 inner);
      payload = take payload_len (drop start inner);
    })

-- `blob[0] != SEALED_ENVELOPE_VERSION`, of a blob that is not empty.
abbrev pub other_version : Bytes → Bool
other_version [] = Bool.true
other_version (b ∷ bs) = not (b == sealed_envelope_version)

module _ (c : Crypto) where
  open c use {public_key, diffie_hellman, hkdf_sha256}

  unfoldable pub derive_seal_key : Bytes → Bytes → Bytes → Bytes
  derive_seal_key shared eph_pub recipient_dh =
      hkdf_sha256 (ascii "Clarity-sealed-salt-v1") shared
        ((ascii "Clarity-sealed-v1" ++ eph_pub) ++ recipient_dh) 32

  unfoldable pub seal_envelope : Bytes → Account → Bytes → Bytes → Bytes
  unfolding derive_seal_key inner_of identity_public identity_dh_public
  seal_envelope eph_secret sender recipient_identity_dh payload =
      let eph_pub = public_key eph_secret in
      let shared = diffie_hellman eph_secret recipient_identity_dh in
      let seal_key = derive_seal_key shared eph_pub recipient_identity_dh in
      let inner = inner_of (identity_public c sender) (identity_dh_public c sender) payload in
      sealed_envelope_version ∷ eph_pub ++ Kdf.aead_seal c seal_key inner eph_pub

  unfoldable pub open_envelope : Account → Bytes → Result Error OpenedEnvelope
  unfolding derive_seal_key parse_inner identity_dh_public
  open_envelope recipient blob =
      let eph_pub = take 32 (drop 1 blob) in
      let shared = diffie_hellman recipient.dh_identity eph_pub in
      let seal_key = derive_seal_key shared eph_pub (identity_dh_public c recipient) in
      if leb (length blob) header_len || other_version blob
      then err Error.decrypt
      else Kdf.aead_open c seal_key (drop header_len blob) eph_pub >>= parse_inner
