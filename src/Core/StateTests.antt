-- ===== src/Core/StateTests.antt =====
-- The theorems on stored state and on the enclave at concrete inputs.
use pigeonhole_clarity_messe.Prelude.{◌≡◌, refl, none, [], ◌∷◌, arith}
use pigeonhole_clarity_messe.Prelude.Bytes.{Bytes}
use pigeonhole_clarity_messe.Prelude.Result.{Result, ok, err}
use pigeonhole_clarity_messe.Core.Error.{Error}
use pigeonhole_clarity_messe.Core.Wire.{Message, normal}
use pigeonhole_clarity_messe.Core.Codec.{bincode, bincode-IsBincode}
use pigeonhole_clarity_messe.Core.Toy.{
  toy, toy-IsCrypto, headers, alice, bob, hello, padded, length-padded,
}
use pigeonhole_clarity_messe.Core.Pqkem.{kyber_private_len}
use pigeonhole_clarity_messe.Core.Encoding
use pigeonhole_clarity_messe.Core.Identity.{
  Account, bundle, generate_with_prekeys, replenish_one_time_prekeys,
}
use pigeonhole_clarity_messe.Core.Identity.Stored.{to_bytes, from_bytes}
use pigeonhole_clarity_messe.Core.Session
use pigeonhole_clarity_messe.Core.Session.{Session}
use pigeonhole_clarity_messe.Core.Session.Stored
use pigeonhole_clarity_messe.Core.Session.Stored.{StoredSession, deserialize-serialize}
use pigeonhole_clarity_messe.Core.Session.Accounts
use pigeonhole_clarity_messe.Core.Session.Accounts.{Reachable-IsValid, from_bytes-to_bytes}
use pigeonhole_clarity_messe.Core.Formats.{session, ratchet, account}
use pigeonhole_clarity_messe.Core.Session.{respond-encrypt}
use pigeonhole_clarity_messe.Core.Ratchet.Defs

abbrev pub stray : Message
stray = normal (record { dh_pub = []; pn = 0; n = 0 }) []

abbrev pub carol : Account
carol =
    generate_with_prekeys (1 ∷ []) (2 ∷ []) (3 ∷ []) (padded kyber_private_len (4 ∷ []))
      ((5 ∷ []) ∷ (6 ∷ []) ∷ [])

-- Two prekeys are minted, one more is added, and a first message takes one of them.
abbrev pub carol_later : Account
carol_later =
    (Session.respond toy headers (14 ∷ []) (replenish_one_time_prekeys carol ((7 ∷ []) ∷ [])).0
      (normal (record { dh_pub = []; pn = 0; n = 0 }) [])).0

carol-Reachable : Accounts.Reachable toy headers carol
carol-Reachable =
    Accounts.generated (1 ∷ []) (2 ∷ []) (3 ∷ []) (padded kyber_private_len (4 ∷ []))
      ((5 ∷ []) ∷ (6 ∷ []) ∷ []) (length-padded kyber_private_len (4 ∷ []))

pub carol_later-Reachable : Accounts.Reachable toy headers carol_later
unfolding generate_with_prekeys
carol_later-Reachable =
    Accounts.responded (14 ∷ []) _ _
      (Accounts.replenished carol ((7 ∷ []) ∷ []) carol-Reachable (omega arith))

Reachable-IsValid_example : Accounts.IsValid carol_later
Reachable-IsValid_example = Reachable-IsValid toy headers carol_later carol_later-Reachable

from_bytes-to_bytes_example :
    from_bytes (bincode account) (to_bytes (bincode account) carol_later) ≡ ok carol_later
from_bytes-to_bytes_example =
    from_bytes-to_bytes toy headers (bincode account) (bincode-IsBincode account) carol_later
      carol_later-Reachable

-- Alice's session with bob.
abbrev pub blank : Session
blank = record {
  ratchet = Defs.init_responder toy headers [] [];
  associated = [];
  pending_handshake = none;
}

abbrev pub session_or_blank : Result Error Session → Session
session_or_blank (ok s) = s
session_or_blank (err _) = blank

abbrev pub talk : Session
talk =
    session_or_blank
      (Session.initiate toy headers alice (bundle toy bob) (11 ∷ []) (12 ∷ []) (13 ∷ []))

pub talk-Reachable : Stored.Reachable toy headers talk
talk-Reachable =
    let agreed =
      respond-encrypt toy headers toy-IsCrypto alice bob (11 ∷ []) (12 ∷ []) (13 ∷ []) (14 ∷ [])
        hello (padded 1568 (12 ∷ [])) (padded 1568 (12 ∷ [])) refl in
    Stored.initiated alice (bundle toy bob) (11 ∷ []) (12 ∷ []) (13 ∷ []) talk (rw agreed.4 refl)

deserialize-serialize_example :
    Stored.deserialize
      (bincode session)
      (bincode ratchet)
      (Stored.serialize (bincode session) (bincode ratchet) talk)
    ≡ ok talk
deserialize-serialize_example =
    deserialize-serialize toy headers (bincode session) (bincode ratchet)
      (bincode-IsBincode session) (bincode-IsBincode ratchet) talk talk-Reachable
