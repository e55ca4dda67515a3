-- ===== src/Core/Envelope/RoundTrip.antt =====
-- Opening what was sealed (core/src/envelope.rs), and what the length of an envelope shows.
use pigeonhole_clarity_messe.Prelude.{
  ℕ, zero, suc, ◌+◌, ◌-◌, ◌*◌, ◌^◌, ◌≤◌, ◌<◌, ◌≡◌, refl, sym, ap, ◌⊎◌, ◌∙◌, false, leb, ltb, arith,
  [], ◌∷◌, ◌++◌, append_assoc, length, take, drop, replicate, length-append, length-take,
  length-replicate, take-append, drop-append,
}
use pigeonhole_clarity_messe.Prelude.Bytes.{Bytes}
use pigeonhole_clarity_messe.Prelude.Result.{ok}
use pigeonhole_clarity_messe.Core.Crypto.{Crypto, IsCrypto}
use pigeonhole_clarity_messe.Core.Kdf
use pigeonhole_clarity_messe.Core.Identity.{Account, identity_public, identity_dh_public}
use pigeonhole_clarity_messe.Core.Envelope.Defs.{
  bucket, to_le_bytes, from_le_bytes, resize, inner_of, seal_envelope, parse_inner, open_envelope,
  derive_seal_key,
}
use pigeonhole_clarity_messe.Core.Envelope.Bucket.{bucket-bounds}

pub from_le_bytes-to : (n : ℕ) → n < 2 ^ 32 → from_le_bytes (to_le_bytes n) ≡ n
unfolding from_le_bytes to_le_bytes
from_le_bytes-to n h = omega arith

not_below : (a b : ℕ) → b ≤ a → ltb a b ≡ false
not_below a b h = ground arith

take-all : (n : ℕ) (bs : Bytes) → length bs ≤ n → take n bs ≡ bs
take-all zero [] h = refl
take-all zero (b ∷ bs) h = absurd (omega arith)
take-all (suc n) [] h = refl
take-all (suc n) (b ∷ bs) h = ap (◌∷◌ b) (take-all n bs (omega arith))

length-resize : (n : ℕ) (bs : Bytes) → length (resize n bs) ≡ n
length-resize n bs = omega (
  arith,
  length-append (take n bs) (replicate (n - length bs) 0),
  length-take n bs,
  length-replicate {A = ℕ} (n - length bs) 0,
)

pub length-to_le_bytes : (n : ℕ) → length (to_le_bytes n) ≡ 4
unfolding to_le_bytes
length-to_le_bytes n = refl

pub length-inner_of :
    (ed dh payload : Bytes) → length (inner_of ed dh payload) ≡ 64 + bucket (length payload)
unfolding inner_of
length-inner_of ed dh payload = length-resize (64 + bucket (length payload)) _

module _ (ed dh payload : Bytes) (ed32 : length ed ≡ 32) (dh32 : length dh ≡ 32) where
  -- The padded plaintext, field after field.
  abbrev padding : Bytes
  padding = replicate (64 + bucket (length payload) - (68 + length payload)) 0

  inner_of-fields :
      inner_of ed dh payload ≡ ed ++ (dh ++ (to_le_bytes (length payload) ++ (payload ++ padding)))
  unfolding inner_of
  inner_of-fields =
      let raw = ((ed ++ dh) ++ to_le_bytes (length payload)) ++ payload in
      let size : length raw ≡ 68 + length payload = omega (
        arith,
        length-append ((ed ++ dh) ++ to_le_bytes (length payload)) payload,
        length-append (ed ++ dh) (to_le_bytes (length payload)),
        length-append ed dh,
        length-to_le_bytes (length payload),
        ed32,
        dh32,
      ) in
      rw
        (
          take-all (64 + bucket (length payload)) raw
              (omega (arith, (bucket-bounds (length payload)).0)),
          size,
        )
        (append_assoc ((ed ++ dh) ++ to_le_bytes (length payload)) payload padding
          ∙ append_assoc (ed ++ dh) (to_le_bytes (length payload)) (payload ++ padding)
          ∙ append_assoc ed dh (to_le_bytes (length payload) ++ (payload ++ padding)))

  drop-64 : (rest : Bytes) → drop 64 (ed ++ (dh ++ rest)) ≡ rest
  drop-64 rest =
      ap (drop 64) (sym (append_assoc ed dh rest))
      ∙ drop-append 64 (ed ++ dh) rest (omega (arith, length-append ed dh, ed32, dh32))

  drop-68 : (le rest : Bytes) → length le ≡ 4 → drop 68 (ed ++ (dh ++ (le ++ rest))) ≡ rest
  drop-68 le rest h =
      ap (drop 68) (sym (append_assoc ed dh (le ++ rest)) ∙ sym (append_assoc (ed ++ dh) le rest))
      ∙ drop-append 68 ((ed ++ dh) ++ le) rest
          (omega (arith, length-append (ed ++ dh) le, length-append ed dh, ed32, dh32))

  parse_inner-inner_of :
      length payload < 2 ^ 32
      → parse_inner (inner_of ed dh payload)
        ≡ ok (record { sender_identity_ed = ed; sender_identity_dh = dh; payload = payload })
  unfolding parse_inner
  parse_inner-inner_of small =
      let n = length payload in
      let inner = inner_of ed dh payload in
      let le = to_le_bytes n in
      let tail = le ++ (payload ++ padding) in
      let a : take 32 inner ≡ ed =
        ap (take 32) inner_of-fields ∙ take-append 32 ed (dh ++ tail) ed32 in
      let b : take 32 (drop 32 inner) ≡ dh =
        ap (λ (i : Bytes). take 32 (drop 32 i)) inner_of-fields
        ∙ ap (take 32) (drop-append 32 ed (dh ++ tail) ed32)
        ∙ take-append 32 dh tail dh32 in
      let count : from_le_bytes (take 4 (drop 64 inner)) ≡ n =
        ap (λ (i : Bytes). from_le_bytes (take 4 (drop 64 i))) inner_of-fields
        ∙ ap (λ (i : Bytes). from_le_bytes (take 4 i)) (drop-64 tail)
        ∙ ap from_le_bytes (take-append 4 le (payload ++ padding) (length-to_le_bytes n))
        ∙ from_le_bytes-to n small in
      let body : take n (drop 68 inner) ≡ payload =
        ap (λ (i : Bytes). take n (drop 68 i)) inner_of-fields
        ∙ ap (take n) (drop-68 le (payload ++ padding) (length-to_le_bytes n))
        ∙ take-append n payload padding refl in
      let room : ltb (length inner) 68 ≡ false =
        not_below (length inner) 68
          (omega (arith, length-inner_of ed dh payload, (bucket-bounds n).0)) in
      let fits : ltb (length inner - 68) n ≡ false =
        not_below (length inner - 68) n
          (omega (arith, length-inner_of ed dh payload, (bucket-bounds n).0)) in
      rw (room, count, fits, a, b, body) refl

module _ (c : Crypto) (laws : IsCrypto c) where
  open_envelope-parses :
      (eph_secret inner : Bytes) (recipient : Account)
      → let eph_pub = c.public_key eph_secret in
        let key =
          derive_seal_key c
            (c.diffie_hellman eph_secret (c.public_key recipient.dh_identity))
            eph_pub
            (c.public_key recipient.dh_identity) in
        open_envelope c recipient (2 ∷ eph_pub ++ Kdf.aead_seal c key inner eph_pub)
        ≡ parse_inner inner
  unfolding open_envelope identity_dh_public
  open_envelope-parses eph_secret inner recipient =
      let eph_pub = c.public_key eph_secret in
      let dh_pub = c.public_key recipient.dh_identity in
      let key = derive_seal_key c (c.diffie_hellman eph_secret dh_pub) eph_pub dh_pub in
      let ct = Kdf.aead_seal c key inner eph_pub in
      let long : leb (length (2 ∷ eph_pub ++ ct)) 33 ≡ false = ground (
        arith,
        length-append eph_pub ct,
        laws.length-public_key eph_secret,
        Kdf.length-aead_seal c laws key inner eph_pub,
      ) in
      rw
        (
          long,
          take-append 32 eph_pub ct (laws.length-public_key eph_secret),
          drop-append 32 eph_pub ct (laws.length-public_key eph_secret),
          laws.dh_comm recipient.dh_identity eph_secret,
          Kdf.aead_open-aead_seal c laws key inner eph_pub,
        )
        refl

  -- A recipient opens an envelope that was sealed to its identity key and gets back the payload and
  -- both identity keys of the sender, for every payload whose length fits the `u32` length field.
  pub open_envelope-seal_envelope :
      (eph_secret payload : Bytes) (sender recipient : Account)
      → length payload < 2 ^ 32
      → open_envelope c recipient
          (seal_envelope c eph_secret sender (identity_dh_public c recipient) payload)
        ≡ ok (record {
          sender_identity_ed = identity_public c sender;
          sender_identity_dh = identity_dh_public c sender;
          payload = payload;
        })
  unfolding seal_envelope identity_dh_public identity_public
  open_envelope-seal_envelope eph_secret payload sender recipient small =
      open_envelope-parses eph_secret _ recipient
      ∙ parse_inner-inner_of (c.ed25519_public sender.ed_signing) (c.public_key sender.dh_identity)
          payload (laws.length-ed25519_public sender.ed_signing)
          (laws.length-public_key sender.dh_identity) small

  -- The length of an envelope is the bucket of its payload's length and a constant, whoever sends
  -- it to whomever. The bucket is at least `MIN_BUCKET` and, above that, at most twice what the
  -- payload and its length field need.
  pub length-seal_envelope :
      (eph_secret payload recipient_dh : Bytes) (sender : Account)
      → (length (seal_envelope c eph_secret sender recipient_dh payload)
          ≡ 1 + 32 + 64 + bucket (length payload) + 16)
        × (512 ≤ bucket (length payload))
        × ((bucket (length payload) ≡ 512) ⊎ (bucket (length payload) ≤ 2 * (length payload + 4)))
  unfolding seal_envelope
  length-seal_envelope eph_secret payload recipient_dh sender = (
    omega (
      arith,
      length-append (c.public_key eph_secret) (
          Kdf.aead_seal c _
            (inner_of (identity_public c sender) (identity_dh_public c sender) payload)
            (c.public_key eph_secret)),
      laws.length-public_key eph_secret,
      Kdf.length-aead_seal c laws _
          (inner_of (identity_public c sender) (identity_dh_public c sender) payload)
          (c.public_key eph_secret),
      length-inner_of (identity_public c sender) (identity_dh_public c sender) payload,
    ),
    (bucket-bounds (length payload)).1,
    (bucket-bounds (length payload)).2,
  )
