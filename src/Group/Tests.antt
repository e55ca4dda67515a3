-- ===== src/Group/Tests.antt =====
-- The theorems on the group crate at concrete inputs.
use pigeonhole_clarity_messe.Prelude.{◌≡◌, refl, Option, some, [], ◌∷◌, arith}
use pigeonhole_clarity_messe.Prelude.Bytes.{Bytes, Bytes_discrete}
use pigeonhole_clarity_messe.Prelude.HashMap
use pigeonhole_clarity_messe.Prelude.Result.{ok}
use pigeonhole_clarity_messe.Group.Framing.{frame, unframe, unframe-frame}
use pigeonhole_clarity_messe.Group.State.{
  Values, entries, store_bytes, GroupClient, export_state, import_state, import_state-export_state,
}

unframe-frame_example :
    unframe (frame ((1 ∷ 2 ∷ []) ∷ [] ∷ (3 ∷ []) ∷ [])) 3 ≡ some ((1 ∷ 2 ∷ []) ∷ [] ∷ (3 ∷ []) ∷ [])
unframe-frame_example =
    unframe-frame ((1 ∷ 2 ∷ []) ∷ [] ∷ (3 ∷ []) ∷ [])
      (omega arith, (omega arith, (omega arith, tt)))

-- A signer is its public key, and the store holds a key pair under the key.
abbrev whole : Bytes → Bytes
whole b = b

abbrev read_key : Values → Bytes → Option Bytes
read_key values key = some key

abbrev client : GroupClient Bytes whole read_key
client = record {
  identity = 7 ∷ [];
  signer = 1 ∷ 2 ∷ [];
  values = (1 ∷ 2 ∷ [], 9 ∷ []) ∷ (5 ∷ [], []) ∷ [];
}

import_state-export_state_example :
    import_state Bytes whole read_key (export_state Bytes whole read_key client) ≡ ok client
unfolding HashMap.get store_bytes entries Bytes_discrete
import_state-export_state_example =
    import_state-export_state Bytes whole read_key client refl (refl, (refl, tt)) (omega arith)
      (omega arith) (omega arith)
