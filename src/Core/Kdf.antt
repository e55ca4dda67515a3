-- ===== src/Core/Kdf.antt =====
-- The key schedule of core/src/kdf.rs. Wiping of intermediate keys leaves no trace in the values.
use pigeonhole_clarity_messe.Prelude.{◌+◌, ◌≡◌, refl, [], ◌∷◌, take, drop, replicate, length}
use pigeonhole_clarity_messe.Prelude.Bytes.{Bytes, ascii}
use pigeonhole_clarity_messe.Prelude.Result.{Result, ok, ok_or}
use pigeonhole_clarity_messe.Core.Error.{Error}
use pigeonhole_clarity_messe.Core.Crypto.{Crypto, IsCrypto}

module _ (c : Crypto) where
  open c use {hkdf_sha256, hmac_sha256, xchacha_encrypt, xchacha_decrypt}

  unfoldable pub kdf_rk : Bytes → Bytes → Bytes × Bytes
  kdf_rk root_key dh_output =
      let okm = hkdf_sha256 root_key dh_output (ascii "ClarityRootKDF-v1") 64 in
      (take 32 okm, drop 32 okm)

  -- `(next_chain_key, message_key)`.
  unfoldable pub kdf_ck : Bytes → Bytes × Bytes
  kdf_ck chain_key = (hmac_sha256 chain_key (0x02 ∷ []), hmac_sha256 chain_key (0x01 ∷ []))

  -- The AEAD key and nonce of a message key.
  unfoldable pub derive_message_material : Bytes → Bytes × Bytes
  derive_message_material message_key =
      let okm = hkdf_sha256 (replicate 32 0) message_key (ascii "ClarityMsgKey-v1") 56 in
      (take 32 okm, drop 32 okm)

  unfoldable pub aead_seal : Bytes → Bytes → Bytes → Bytes
  unfolding derive_message_material
  aead_seal message_key plaintext associated_data =
      let (key, nonce) = derive_message_material message_key in
      xchacha_encrypt key nonce associated_data plaintext

  unfoldable pub aead_open : Bytes → Bytes → Bytes → Result Error Bytes
  unfolding derive_message_material
  aead_open message_key ciphertext associated_data =
      let (key, nonce) = derive_message_material message_key in
      ok_or (xchacha_decrypt key nonce associated_data ciphertext) Error.decrypt

  unfoldable pub kdf_root_from_ikm : Bytes → Bytes
  kdf_root_from_ikm ikm =
      hkdf_sha256 (ascii "Clarity-PQXDH-salt-v1") ikm (ascii "Clarity-PQXDH-root-v1") 32

  module _ (laws : IsCrypto c) where
    pub aead_open-aead_seal :
        (key message aad : Bytes) → aead_open key (aead_seal key message aad) aad ≡ ok message
    unfolding aead_seal aead_open
    aead_open-aead_seal key message aad = rw laws.decrypt_encrypt refl

    pub length-aead_seal :
        (key message aad : Bytes) → length (aead_seal key message aad) ≡ length message + 16
    unfolding aead_seal
    length-aead_seal key message aad = laws.length-encrypt _ _ aad message
