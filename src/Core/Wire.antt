-- ===== src/Core/Wire.antt =====
-- The wire types of core/src/wire.rs. Keys and signatures are byte strings.
use pigeonhole_clarity_messe.Prelude.{ℕ, Option}
use pigeonhole_clarity_messe.Prelude.Bytes.{Bytes}

pub record PreKeyBundle : Type 0 where
  pub identity_ed : Bytes
  pub identity_dh : Bytes
  pub identity_dh_sig : Bytes
  pub signed_prekey : Bytes
  pub signed_prekey_id : ℕ
  pub signed_prekey_sig : Bytes
  pub kyber_prekey : Bytes
  pub kyber_prekey_id : ℕ
  pub kyber_prekey_sig : Bytes
  pub one_time_prekey : Option Bytes
  pub one_time_prekey_id : Option ℕ

pub record RatchetHeader : Type 0 where
  pub dh_pub : Bytes
  pub pn : ℕ
  pub n : ℕ

pub record HandshakeHeader : Type 0 where
  pub identity_ed : Bytes
  pub identity_dh : Bytes
  pub ephemeral_dh : Bytes
  pub signed_prekey_id : ℕ
  pub one_time_prekey_id : Option ℕ
  pub kyber_prekey_id : ℕ
  pub kyber_ciphertext : Bytes

pub data Message : Type 0 where
  pre_key : HandshakeHeader → RatchetHeader → Bytes → Message
  normal : RatchetHeader → Bytes → Message
