-- ===== src/Core/Crypto.antt =====
-- What the core calls of the dalek and RustCrypto libraries, as parameters on byte strings, and
-- what those libraries document of them.
use pigeonhole_clarity_messe.Prelude.{ℕ, ◌+◌, ◌≡◌, Bool, true, Option, some, length}
use pigeonhole_clarity_messe.Prelude.Bytes.{Bytes}

pub record Crypto : Type 0 where
  -- X25519: the public key of a secret, and the shared output of a secret and a public key.
  pub public_key : Bytes → Bytes
  pub diffie_hellman : Bytes → Bytes → Bytes
  -- HKDF-SHA256 with salt, input key material, info and output length.
  pub hkdf_sha256 : Bytes → Bytes → Bytes → ℕ → Bytes
  pub hmac_sha256 : Bytes → Bytes → Bytes
  -- XChaCha20-Poly1305 with key, nonce, associated data and message.
  pub xchacha_encrypt : Bytes → Bytes → Bytes → Bytes → Bytes
  pub xchacha_decrypt : Bytes → Bytes → Bytes → Bytes → Option Bytes
  -- Ed25519: the verifying key of a signing key, a signature, whether bytes are a key or a
  -- signature, and verification with key, message and signature.
  pub ed25519_public : Bytes → Bytes
  pub ed25519_sign : Bytes → Bytes → Bytes
  pub ed25519_is_key : Bytes → Bool
  pub ed25519_is_signature : Bytes → Bool
  pub ed25519_verify : Bytes → Bytes → Bytes → Bool
  -- ML-KEM-1024: the encapsulation key of a decapsulation key; encapsulation to a key with fresh
  -- randomness, giving a ciphertext and a secret; decapsulation.
  pub ml_kem_public : Bytes → Bytes
  pub ml_kem_encapsulate : Bytes → Bytes → Option (Bytes × Bytes)
  pub ml_kem_decapsulate : Bytes → Bytes → Option Bytes

pub record IsCrypto (c : Crypto) : Type 0 where
  -- Diffie-Hellman agreement.
  pub dh_comm :
      (a b : Bytes) → c.diffie_hellman a (c.public_key b) ≡ c.diffie_hellman b (c.public_key a)
  -- Decryption under the key, the nonce and the associated data of the encryption.
  pub decrypt_encrypt :
      (key nonce aad message : Bytes)
      → c.xchacha_decrypt key nonce aad (c.xchacha_encrypt key nonce aad message) ≡ some message
  -- The tag has 16 bytes.
  pub length-encrypt :
      (key nonce aad message : Bytes)
      → length (c.xchacha_encrypt key nonce aad message) ≡ length message + 16
  -- Public keys have 32 bytes.
  pub length-public_key : (secret : Bytes) → length (c.public_key secret) ≡ 32
  pub length-ed25519_public : (secret : Bytes) → length (c.ed25519_public secret) ≡ 32
  -- A signature verifies under the key of its signer.
  pub key_of_signer : (secret : Bytes) → c.ed25519_is_key (c.ed25519_public secret) ≡ true
  pub signature_of_signer :
      (secret message : Bytes) → c.ed25519_is_signature (c.ed25519_sign secret message) ≡ true
  pub verify_sign :
      (secret message : Bytes)
      → c.ed25519_verify (c.ed25519_public secret) message (c.ed25519_sign secret message) ≡ true
  -- Both ends of an encapsulation have one secret; keys and ciphertexts have fixed lengths.
  pub decapsulate_encapsulate :
      (secret random ciphertext shared : Bytes)
      → c.ml_kem_encapsulate (c.ml_kem_public secret) random ≡ some (ciphertext, shared)
      → c.ml_kem_decapsulate secret ciphertext ≡ some shared
  pub length-ml_kem_public : (secret : Bytes) → length (c.ml_kem_public secret) ≡ 1568
  pub length-ml_kem_ciphertext :
      (key random ciphertext shared : Bytes)
      → c.ml_kem_encapsulate key random ≡ some (ciphertext, shared)
      → length ciphertext ≡ 1568
