-- ===== src/Core/Tests.antt =====
-- The theorems on messages at concrete inputs.
use pigeonhole_clarity_messe.Prelude.{
  ℕ, ℕ_discrete, ◌+◌, ◌≡◌, ◌≢◌, refl, sym, none, some, [], ◌∷◌, length, arith, ◌⊎◌, ◌≤◌, ◌%◌,
}
use pigeonhole_clarity_messe.Prelude.Bytes.{Bytes}
use pigeonhole_clarity_messe.Prelude.BTreeMap
use pigeonhole_clarity_messe.Prelude.Result.{ok}
use pigeonhole_clarity_messe.Core.Wire.{RatchetHeader, HandshakeHeader, Message}
use pigeonhole_clarity_messe.Core.Inbox.{
  epoch_for_unix, get_elem?, inbox_id, inbox_window, inbox_window-covers,
}
use pigeonhole_clarity_messe.Core.Safety.{safety_number, safety_number_comm}
use pigeonhole_clarity_messe.Core.Kdf
use pigeonhole_clarity_messe.Core.Identity.{bundle, identity_public, identity_dh_public}
use pigeonhole_clarity_messe.Core.Handshake
use pigeonhole_clarity_messe.Core.Handshake.{respond-initiate, spent, without_first}
use pigeonhole_clarity_messe.Core.Session
use pigeonhole_clarity_messe.Core.Session.{Session, respond-encrypt}
use pigeonhole_clarity_messe.Core.Envelope.Defs.{seal_envelope, open_envelope, bucket}
use pigeonhole_clarity_messe.Core.Envelope.RoundTrip.{
  open_envelope-seal_envelope, length-seal_envelope,
}
use pigeonhole_clarity_messe.Core.Ratchet.Defs.{
  DoubleRatchet, decrypt, init_initiator, init_responder, max_skipped_cache, cached,
  associated_data, u32_mod,
}
use pigeonhole_clarity_messe.Core.Ratchet.Chain.{Receives}
use pigeonhole_clarity_messe.Core.Ratchet.Bounds.{decrypt-IsBounded}
use pigeonhole_clarity_messe.Core.Ratchet.Delivery.{sealed, decrypt-out_of_order}
use pigeonhole_clarity_messe.Core.Ratchet.Turn.{exchange, exchange-init}
use pigeonhole_clarity_messe.Core.Ratchet.Replay.{decrypt-replay}
use pigeonhole_clarity_messe.Core.Toy.{toy, toy-IsCrypto, headers, alice, bob, hello, padded}

respond-initiate_example :
    (root : Bytes) × (hs : HandshakeHeader) × (Handshake.initiate toy alice
        (bundle toy bob)
        (11 ∷ [])
        (12 ∷ [])
      ≡ ok (root, hs, padded 32 (7 ∷ [])))
    × (Handshake.respond toy bob hs ≡ (without_first toy toy-IsCrypto bob, ok root))
    × (BTreeMap.get ℕ_discrete (without_first toy toy-IsCrypto bob).one_time_prekeys 0
        ≡ spent bob.one_time_prekeys 0)
    × (hs.signed_prekey_id ≡ 2)
respond-initiate_example =
    respond-initiate toy toy-IsCrypto alice bob (11 ∷ []) (12 ∷ []) (padded 1568 (12 ∷ []))
      (padded 1568 (12 ∷ [])) 0 refl

respond-encrypt_example :
    (sa sa' sb : Session) × (message : Message) × (Session.initiate toy headers alice
        (bundle toy bob)
        (11 ∷ [])
        (12 ∷ [])
        (13 ∷ [])
      ≡ ok sa)
    × (Session.encrypt toy headers sa hello ≡ ok (sa', message))
    × (Session.respond toy headers (14 ∷ []) bob message
        ≡ (without_first toy toy-IsCrypto bob, ok (sb, hello)))
    × (sb.associated ≡ sa.associated)
    × (sb.pending_handshake ≡ none)
respond-encrypt_example =
    respond-encrypt toy headers toy-IsCrypto alice bob (11 ∷ []) (12 ∷ []) (13 ∷ []) (14 ∷ []) hello
      (padded 1568 (12 ∷ [])) (padded 1568 (12 ∷ [])) refl

open_envelope-seal_envelope_example :
    open_envelope toy bob (seal_envelope toy (11 ∷ []) alice (identity_dh_public toy bob) hello)
    ≡ ok (record {
      sender_identity_ed = identity_public toy alice;
      sender_identity_dh = identity_dh_public toy alice;
      payload = hello;
    })
open_envelope-seal_envelope_example =
    open_envelope-seal_envelope toy toy-IsCrypto (11 ∷ []) hello alice bob (omega arith)

length-seal_envelope_example :
    (length (seal_envelope toy (11 ∷ []) alice (6 ∷ []) hello) ≡ 1 + 32 + 64 + bucket 2 + 16)
    × (512 ≤ bucket 2)
    × ((bucket 2 ≡ 512) ⊎ (bucket 2 ≤ 12))
length-seal_envelope_example = length-seal_envelope toy toy-IsCrypto (11 ∷ []) hello (6 ∷ []) alice

-- A receiver two messages into a chain.
abbrev receiver : DoubleRatchet
receiver = record {
  root_key = [];
  dh_self = 1 ∷ [];
  dh_self_pub = padded 32 (1 ∷ []);
  dh_remote = some (9 ∷ []);
  chain_send = none;
  chain_recv = some (Kdf.kdf_ck toy (Kdf.kdf_ck toy (5 ∷ [])).0).0;
  n_send = 0;
  n_recv = 2;
  pn = 0;
  skipped = [];
}

receiver-Receives : Receives toy (9 ∷ []) (5 ∷ []) receiver
receiver-Receives = record { remote_key = refl; chain = refl }

abbrev message_number : ℕ → RatchetHeader
message_number n = record { dh_pub = 9 ∷ []; pn = 0; n = n }

decrypt-out_of_order_example :
    (r' r'' : DoubleRatchet) × (decrypt toy headers [] receiver
        (message_number 4)
        (sealed toy headers (5 ∷ []) [] (message_number 4) hello)
        []
      ≡ (r', ok hello))
    × (decrypt toy headers [] r'
          (message_number 3)
          (sealed toy headers (5 ∷ []) [] (message_number 3) (7 ∷ []))
          []
        ≡ (r'', ok (7 ∷ [])))
    × (cached r'' (9 ∷ []) 3 ≡ none)
    × Receives toy (9 ∷ []) (5 ∷ []) r'
unfolding BTreeMap.get
decrypt-out_of_order_example =
    decrypt-out_of_order toy headers toy-IsCrypto (5 ∷ []) [] [] receiver (message_number 4)
      (message_number 3) hello (7 ∷ []) [] receiver-Receives refl refl (omega arith) (omega arith)
      (omega arith) (omega arith) (omega arith)

decrypt-IsBounded_example :
    length (decrypt toy headers [] receiver (message_number 4) hello []).0.skipped
    ≤ max_skipped_cache
decrypt-IsBounded_example =
    decrypt-IsBounded toy headers [] receiver (message_number 4) hello [] (omega arith)

decrypt-replay_example : decrypt toy headers [] receiver (message_number 1) hello [] ≡ (
  record receiver {
    chain_recv = some (Kdf.kdf_ck toy (Kdf.kdf_ck toy (Kdf.kdf_ck toy (5 ∷ [])).0).0).0;
    n_recv = (2 + 1) % u32_mod;
  },
  Kdf.aead_open toy
      (Kdf.kdf_ck toy (Kdf.kdf_ck toy (Kdf.kdf_ck toy (5 ∷ [])).0).0).1
      hello
      (associated_data toy headers [] (message_number 1)),
)
unfolding BTreeMap.get
decrypt-replay_example =
    decrypt-replay toy headers [] receiver (message_number 1) hello [] _ refl refl refl
      (omega arith)

other_key : padded 32 (1 ∷ []) ≢ padded 32 (2 ∷ [])
unfolding padded
other_key e = cc

exchange-init_example :
    exchange toy headers []
      (init_initiator toy headers (2 ∷ []) (3 ∷ []) (padded 32 (1 ∷ [])))
      (init_responder toy headers (3 ∷ []) (1 ∷ []))
      ((hello, 2 ∷ []) ∷ (7 ∷ [], 1 ∷ []) ∷ [])
    ≡ ok ((hello, padded 32 (2 ∷ [])) ∷ (7 ∷ [], padded 32 (2 ∷ [])) ∷ [])
exchange-init_example =
    exchange-init toy headers toy-IsCrypto (3 ∷ []) (2 ∷ []) (1 ∷ []) []
      ((hello, 2 ∷ []) ∷ (7 ∷ [], 1 ∷ []) ∷ []) (other_key, ((λ e. other_key (sym e)), tt))

inbox_window-covers_example :
    (get_elem? (inbox_window (padded 32) (1 ∷ []) 9 12) 1
      ≡ some (inbox_id (padded 32) (1 ∷ []) (epoch_for_unix 900_000)))
    × (length (inbox_window (padded 32) (1 ∷ []) 9 12) ≡ 4)
unfolding epoch_for_unix
inbox_window-covers_example =
    inbox_window-covers (padded 32) (1 ∷ []) 9 12 900_000 (omega arith) (omega arith)

safety_number_comm_example :
    safety_number (padded 64) (1 ∷ []) (2 ∷ []) ≡ safety_number (padded 64) (2 ∷ []) (1 ∷ [])
safety_number_comm_example = safety_number_comm (padded 64) (1 ∷ []) (2 ∷ [])
