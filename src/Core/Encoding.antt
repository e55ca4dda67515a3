-- ===== src/Core/Encoding.antt =====
-- The encodings of core/src/wire.rs: a message behind its version byte, and a published bundle.
-- `message_format` and `bundle_format` are bincode at these types.
use pigeonhole_clarity_messe.Prelude.{
  ℕ, ◌+◌, ◌/◌, ◌%◌, ◌==◌, ◌≡◌, ap, [], ◌∷◌, ◌++◌, ltb, if◌then◌else◌,
}
use pigeonhole_clarity_messe.Prelude.Bytes.{Bytes, ascii}
use pigeonhole_clarity_messe.Prelude.Result.{Result, ok, err, map_err}
use pigeonhole_clarity_messe.Core.Error.{Error}
use pigeonhole_clarity_messe.Core.Wire.{Message, PreKeyBundle, RatchetHeader, pre_key, normal}
use pigeonhole_clarity_messe.Core.Bincode.{Bincode, IsBincode}

abbrev pub protocol_version : ℕ
protocol_version = 1

-- A `u8` in decimal, as `format!` prints it.
abbrev pub decimal : ℕ → Bytes
decimal n =
    if ltb n 10
    then (48 + n) ∷ []
    else if ltb n 100
    then (48 + n / 10) ∷ (48 + n % 10) ∷ []
    else (48 + n / 100) ∷ (48 + n / 10 % 10) ∷ (48 + n % 10) ∷ []

unfoldable pub header : Message → RatchetHeader
header (pre_key hs h ciphertext) = h
header (normal h ciphertext) = h

module _ (message_format : Bincode Message) where
  unfoldable pub encode_message : Message → Bytes
  encode_message m = protocol_version ∷ message_format.serialize m

  unfoldable pub decode_message : Bytes → Result Error Message
  decode_message [] = err (Error.wire (ascii "empty message"))
  decode_message (version ∷ body) =
      if version == protocol_version
      then map_err Error.wire (message_format.deserialize body)
      else err (Error.wire (ascii "unsupported version " ++ decimal version))

  pub restored : IsBincode message_format → (m : Message) → decode_message (encode_message m) ≡ ok m
  unfolding decode_message encode_message
  restored laws m = ap (map_err Error.wire) (laws m)

module _ (bundle_format : Bincode PreKeyBundle) where
  unfoldable pub encode_bundle : PreKeyBundle → Bytes
  encode_bundle b = bundle_format.serialize b

  unfoldable pub decode_bundle : Bytes → Result Error PreKeyBundle
  decode_bundle bytes = map_err Error.wire (bundle_format.deserialize bytes)

  pub decode_bundle-encode_bundle :
      IsBincode bundle_format → (b : PreKeyBundle) → decode_bundle (encode_bundle b) ≡ ok b
  unfolding decode_bundle encode_bundle
  decode_bundle-encode_bundle laws b = ap (map_err Error.wire) (laws b)
