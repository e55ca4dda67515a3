-- ===== src/Ffi/Tests.antt =====
-- The theorems on the C interface at concrete inputs.
use pigeonhole_clarity_messe.Prelude.{
  ℕ_discrete, ◌≡◌, refl, retain, none, some, [], ◌∷◌, replicate, arith,
}
use pigeonhole_clarity_messe.Prelude.Bytes.{Bytes, Bytes_discrete}
use pigeonhole_clarity_messe.Prelude.HashMap
use pigeonhole_clarity_messe.Prelude.BTreeMap
use pigeonhole_clarity_messe.Core.Codec.{bincode, bincode-IsBincode}
use pigeonhole_clarity_messe.Core.Encoding.{encode_bundle}
use pigeonhole_clarity_messe.Core.Formats.{message}
use pigeonhole_clarity_messe.Core.Toy.{toy, toy-IsCrypto, headers, alice, bob, hello, padded}
use pigeonhole_clarity_messe.Core.Identity
use pigeonhole_clarity_messe.Core.Handshake.{without_first, spent}
use pigeonhole_clarity_messe.Core.Session.{Session}
use pigeonhole_clarity_messe.Relay.Samples.{formats, form, form-IsForm, bundle}
use pigeonhole_clarity_messe.Relay.Store.Defs
use pigeonhole_clarity_messe.Relay.Store.Defs.{default_limits, empty_inner}
use pigeonhole_clarity_messe.Relay.Store.Persistence as Store
use pigeonhole_clarity_messe.Relay.Store.Persistence.{RelayStore}
use pigeonhole_clarity_messe.Net.Samples.{formats-IsFormats, client, client-Reaches, display}
use pigeonhole_clarity_messe.Ffi.Buffer.{decode_byte_list}
use pigeonhole_clarity_messe.Ffi.Sessions.{
  clarity_session_initiate, clarity_session_encrypt, clarity_session_respond,
  clarity_session_respond-clarity_session_encrypt,
}
use pigeonhole_clarity_messe.Ffi.Relays.{clarity_relay_poll, decode_byte_list-clarity_relay_poll}

clarity_session_respond-clarity_session_encrypt_example :
    (sa sa' sb : Session) × (wire : Bytes) × (clarity_session_initiate toy headers
        (bincode bundle)
        (bincode message)
        (some alice)
        (some (encode_bundle (bincode bundle) (Identity.bundle toy bob)))
        (11 ∷ [])
        (12 ∷ [])
        (13 ∷ [])
      ≡ some sa)
    × (clarity_session_encrypt toy headers (bincode bundle) (bincode message) (some sa) (some hello)
        ≡ (some sa', some wire))
    × (clarity_session_respond toy headers
          (bincode bundle)
          (bincode message)
          (14 ∷ [])
          (some bob)
          (some wire)
          (some none)
        ≡ (some (without_first toy toy-IsCrypto bob), some sb, some (some hello)))
    × (BTreeMap.get ℕ_discrete (without_first toy toy-IsCrypto bob).one_time_prekeys 0
        ≡ spent bob.one_time_prekeys 0)
clarity_session_respond-clarity_session_encrypt_example =
    clarity_session_respond-clarity_session_encrypt toy headers (bincode bundle) (bincode message)
      (bincode-IsBincode bundle) (bincode-IsBincode message) toy-IsCrypto alice bob (11 ∷ [])
      (12 ∷ []) (13 ∷ []) (14 ∷ []) hello (padded 1568 (12 ∷ [])) (padded 1568 (12 ∷ [])) none 0
      refl

abbrev key : Bytes
key = replicate 32 1

-- Two messages wait.
abbrev waiting : RelayStore
waiting = record {
  inner = record empty_inner {
    queues =
        (
          key,
          record { enqueued_at = 5; bytes = 7 ∷ [] }
              ∷ record { enqueued_at = 6; bytes = 8 ∷ 9 ∷ [] }
              ∷ [],
        )
        ∷ [];
  };
  limits = default_limits;
  persistence = none;
}

mail : (Store.poll waiting key 9).1 ≡ (7 ∷ []) ∷ (8 ∷ 9 ∷ []) ∷ []
unfolding Store.poll Defs.poll_at HashMap.get Bytes_discrete retain
mail = refl

decode_byte_list-clarity_relay_poll_example :
    (buffer : Bytes) × (clarity_relay_poll formats display (some (client 9)) waiting (some key)
      ≡ ((Store.poll waiting key 9).0, some buffer))
    × (decode_byte_list buffer ≡ some (Store.poll waiting key 9).1)
decode_byte_list-clarity_relay_poll_example =
    decode_byte_list-clarity_relay_poll formats display 9 form formats-IsFormats form-IsForm
      (client 9) (client-Reaches 9) waiting key refl (rw mail (omega arith))
      (rw mail (omega arith, (omega arith, tt)))
