-- ===== src/Mesh/Tests.antt =====
-- The theorems on mesh nodes at concrete nodes and frames.
use pigeonhole_clarity_messe.Prelude.{◌≡◌, refl, some, List, [], ◌∷◌, map, length, arith}
use pigeonhole_clarity_messe.Prelude.Bytes.{Bytes_discrete}
use pigeonhole_clarity_messe.Prelude.HashMap
use pigeonhole_clarity_messe.Mesh.Node.{
  MeshFrame, MeshNode, duplicate, with_ttl, handle_incoming, outbound, stored,
}
use pigeonhole_clarity_messe.Mesh.Routing.{
  Event, originates, receives, takes, run, IsValid, run-IsValid, with_ttl-IsValid,
  outbound_complete,
}
use pigeonhole_clarity_messe.Mesh.Dedup.{handle_incoming-run}
use pigeonhole_clarity_messe.Mesh.Hops.{IsFresh, hand_on, hand_on-reach}

abbrev frame : MeshFrame
frame = record { msg_id = 7 ∷ []; recipient = 2 ∷ []; ttl = 5; payload = 104 ∷ [] }

abbrev node_a : MeshNode
node_a = record {
  me = 1 ∷ [];
  ttl = 3;
  seen = [];
  seen_order = [];
  store = [];
  store_order = [];
  inbox = [];
}

abbrev node_b : MeshNode
node_b = record node_a { me = 2 ∷ [] }

abbrev events : List Event
events =
    originates (8 ∷ []) (2 ∷ []) (105 ∷ [])
    ∷ receives (record frame { msg_id = 9 ∷ [] })
    ∷ takes
    ∷ []

node_a-IsValid : IsValid node_a
node_a-IsValid = unfold with_ttl in with_ttl-IsValid (1 ∷ []) 3

node_b-IsValid : IsValid node_b
node_b-IsValid = unfold with_ttl in with_ttl-IsValid (2 ∷ []) 3

run-IsValid_example : IsValid (run node_a events)
run-IsValid_example = run-IsValid node_a events node_a-IsValid

outbound_complete_example :
    (map some (outbound (run node_a events))
      ≡ map
          (λ id. HashMap.get Bytes_discrete (run node_a events).store id)
          (run node_a events).store_order)
    × (map (λ (f : MeshFrame). f.msg_id) (outbound (run node_a events))
        ≡ (run node_a events).store_order)
    × (length (outbound (run node_a events)) ≡ stored (run node_a events))
outbound_complete_example =
    outbound_complete (run node_a events) (run-IsValid node_a events node_a-IsValid)

handle_incoming-run_example :
    handle_incoming (run (handle_incoming node_a frame).0 events) (record frame { ttl = 2 })
    ≡ (run (handle_incoming node_a frame).0 events, duplicate)
unfolding HashMap.get
handle_incoming-run_example =
    handle_incoming-run node_a frame (record frame { ttl = 2 }) events node_a-IsValid refl refl
      (omega arith)

node_a-IsFresh : IsFresh (7 ∷ []) node_a
unfolding HashMap.get
node_a-IsFresh = record { valid = node_a-IsValid; unseen = refl; unstored = refl }

node_b-IsFresh : IsFresh (7 ∷ []) node_b
unfolding HashMap.get
node_b-IsFresh = record { valid = node_b-IsValid; unseen = refl; unstored = refl }

hand_on-reach_example : hand_on frame (node_a ∷ node_b ∷ []) ≡ some (record frame { ttl = 3 })
hand_on-reach_example =
    hand_on-reach frame (node_a ∷ node_b ∷ []) (omega arith) (node_a-IsFresh, (node_b-IsFresh, tt))
