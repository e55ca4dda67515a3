-- ===== src/Core/Error.antt =====
-- `Error` of core/src/error.rs.
use pigeonhole_clarity_messe.Prelude.Bytes.{Bytes, ascii}
use pigeonhole_clarity_messe.Prelude.{◌++◌}

pub data Error : Type 0 where
  bad_signature malformed_key decrypt unknown_prekey unexpected_message : Error
  wire : Bytes → Error

-- The `#[error("…")]` texts.
unfoldable pub to_string : Error → Bytes
to_string bad_signature = ascii "signature verification failed"
to_string malformed_key = ascii "malformed key or ciphertext"
to_string decrypt = ascii "decryption failed"
to_string unknown_prekey = ascii "unknown prekey id"
to_string (wire e) = ascii "wire encoding error: " ++ e
to_string unexpected_message = ascii "unexpected message for session state"
