-- ===== src/Relay/Protocol.antt =====
-- The JSON types of relay/src/protocol.rs and its base64 helpers. base64 and JSON are parameters,
-- with what those libraries document; strings are their UTF-8 bytes.
use pigeonhole_clarity_messe.Prelude.{ℕ, ◌≡◌, ◌==◌, ◌<◌, All, List, length, if◌then◌else◌}
use pigeonhole_clarity_messe.Prelude.Bytes.{Bytes, ascii}
use pigeonhole_clarity_messe.Prelude.Result.{Result, ok, err, ◌>>=◌}

pub record OneTimePrekey : Type 0 where
  pub id : ℕ
  pub public : Bytes

pub record PublishRequest : Type 0 where
  pub bundle : Bytes
  pub one_time : List OneTimePrekey

pub record BundleResponse : Type 0 where
  pub bundle : Bytes

pub record SendRequest : Type 0 where
  pub recipient : Bytes
  pub message : Bytes

pub record PollResponse : Type 0 where
  pub messages : List Bytes

-- Standard base64 with padding; an error is its text.
pub record Base64 : Type 0 where
  pub encode : Bytes → Bytes
  pub decode : Bytes → Result Bytes Bytes

-- Decoding undoes encoding, whose alphabet is ASCII.
pub record IsBase64 (base64 : Base64) : Type 0 where
  pub decode_encode : (b : Bytes) → base64.decode (base64.encode b) ≡ ok b
  pub is_ascii : (b : Bytes) → All (λ (x : ℕ). x < 128) (base64.encode b)

-- serde_json at one type.
pub record Json (T : Type 0) : Type 0 where
  pub to_string : T → Bytes
  pub from_str : Bytes → Result Bytes T

module _ (base64 : Base64) where
  unfoldable pub b64 : Bytes → Bytes
  b64 bytes = base64.encode bytes

  unfoldable pub unb64 : Bytes → Result Bytes Bytes
  unb64 s = base64.decode s

  unfoldable pub unb64_key : Bytes → Result Bytes Bytes
  unfolding unb64
  unb64_key s = do
    bytes ← unb64 s
    if length bytes == 32 then ok bytes else err (ascii "expected 32-byte key")
