-- ===== src/Core/Toy.antt =====
-- A toy instance of the libraries that the core calls, and the data of the tests.
use pigeonhole_clarity_messe.Prelude.{
  ℕ, ◌+◌, ◌-◌, ◌≡◌, refl, sym, ap, ap₂, ◌∙◌, true, false, ite, if_pos, Option, none, some, [], ◌∷◌,
  ◌++◌, length, length-append, length-take, length-replicate, take, drop, replicate, take-append,
  drop-append, arith,
}
use pigeonhole_clarity_messe.Prelude.Bytes.{Bytes, Bytes_discrete}
use pigeonhole_clarity_messe.Core.Wire.{RatchetHeader}
use pigeonhole_clarity_messe.Core.Crypto.{Crypto, IsCrypto}
use pigeonhole_clarity_messe.Core.Identity.{Account}

unfoldable pub padded : ℕ → Bytes → Bytes
padded n b = take n (b ++ replicate n 0)

pub length-padded : (n : ℕ) (b : Bytes) → length (padded n b) ≡ n
unfolding padded
length-padded n b = omega (
  arith,
  length-take n (b ++ replicate n 0),
  length-append b (replicate n 0),
  length-replicate {A = ℕ} n 0,
)

unfoldable pub zip_add : Bytes → Bytes → Bytes
zip_add [] ys = []
zip_add (x ∷ xs) [] = []
zip_add (x ∷ xs) (y ∷ ys) = (x + y) ∷ zip_add xs ys

pub zip_add_comm : (xs ys : Bytes) → zip_add xs ys ≡ zip_add ys xs
unfolding zip_add
zip_add_comm [] [] = refl
zip_add_comm [] (y ∷ ys) = refl
zip_add_comm (x ∷ xs) [] = refl
zip_add_comm (x ∷ xs) (y ∷ ys) =
    let e : x + y ≡ y + x = omega arith in ap₂ ◌∷◌ e (zip_add_comm xs ys)

-- The tag of a message is the start of its key.
unfoldable pub open_tagged : Bytes → Bytes → Option Bytes
open_tagged tag b =
    let n = length b - 16 in ite (Bytes_discrete (drop n b) tag) (some (take n b)) none

open_tagged-append :
    (tag message : Bytes) → length tag ≡ 16 → open_tagged tag (message ++ tag) ≡ some message
unfolding open_tagged
open_tagged-append tag message h =
    let n : length (message ++ tag) - 16 ≡ length message =
      omega (arith, length-append message tag) in
    rw (n, take-append (length message) message tag refl)
      (if_pos (Bytes_discrete (drop (length message) (message ++ tag)) tag)
        (drop-append (length message) message tag refl) _ _)

abbrev pub toy : Crypto
toy = record {
  public_key = padded 32;
  diffie_hellman = λ a b. zip_add (padded 32 a) b;
  hkdf_sha256 = λ salt ikm info n. padded n (ikm ++ salt ++ info);
  hmac_sha256 = λ key message. message ++ key;
  xchacha_encrypt = λ key nonce aad message. message ++ padded 16 key;
  xchacha_decrypt = λ key nonce aad message. open_tagged (padded 16 key) message;
  ed25519_public = padded 32;
  ed25519_sign = λ secret message. padded 32 secret ++ message;
  ed25519_is_key = λ _. true;
  ed25519_is_signature = λ _. true;
  ed25519_verify = λ key message sig. ite (Bytes_discrete sig (key ++ message)) true false;
  ml_kem_public = padded 1568;
  ml_kem_encapsulate = λ key random. some (padded 1568 random, padded 1568 random);
  ml_kem_decapsulate = λ secret ciphertext. some ciphertext;
}

pub toy-IsCrypto : IsCrypto toy
toy-IsCrypto = record {
  dh_comm = λ a b. zip_add_comm (padded 32 a) (padded 32 b);
  decrypt_encrypt =
      λ key nonce aad message. open_tagged-append (padded 16 key) message (length-padded 16 key);
  length-encrypt = λ key nonce aad message.
      omega (arith, length-append message (padded 16 key), length-padded 16 key);
  length-public_key = length-padded 32;
  length-ed25519_public = length-padded 32;
  key_of_signer = λ _. refl;
  signature_of_signer = λ _ _. refl;
  verify_sign = λ secret message.
      if_pos (Bytes_discrete (padded 32 secret ++ message) (padded 32 secret ++ message)) refl _ _;
  decapsulate_encapsulate = λ secret random ciphertext shared e. ground (arith, e);
  length-ml_kem_public = length-padded 1568;
  length-ml_kem_ciphertext = λ key random ciphertext shared e.
      let same : padded 1568 random ≡ ciphertext = ground (arith, e) in
      ap (length {A = ℕ}) (sym same) ∙ length-padded 1568 random;
}

abbrev pub headers : RatchetHeader → Bytes
headers h = h.pn ∷ h.n ∷ h.dh_pub

abbrev pub alice : Account
alice = record {
  ed_signing = 1 ∷ [];
  dh_identity = 2 ∷ [];
  signed_prekey_id = 0;
  signed_prekey_secret = 3 ∷ [];
  kyber_prekey_id = 0;
  kyber = 4 ∷ [];
  one_time_prekeys = [];
  next_opk_id = 0;
}

abbrev pub bob : Account
bob = record {
  ed_signing = 5 ∷ [];
  dh_identity = 6 ∷ [];
  signed_prekey_id = 2;
  signed_prekey_secret = 7 ∷ [];
  kyber_prekey_id = 1;
  kyber = 8 ∷ [];
  one_time_prekeys = (0, 9 ∷ []) ∷ (1, 10 ∷ []) ∷ [];
  next_opk_id = 2;
}

abbrev pub hello : Bytes
hello = 104 ∷ 105 ∷ []
