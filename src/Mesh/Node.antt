-- ===== src/Mesh/Node.antt =====
-- `MeshNode` and `MeshTransport` of mesh/src/lib.rs, and `MeshFrame` of mesh/src/frame.rs. The random
-- message id of `originate` is an argument; bincode is the parameter of the transport.
use pigeonhole_clarity_messe.Prelude.{
  ℕ, ◌-◌, Bool, true, false, ltb, ite, Option, none, some, List, [], ◌∷◌, ◌++◌, map, length,
  if◌then◌else◌,
}
use pigeonhole_clarity_messe.Prelude.Bytes.{Bytes, Bytes_discrete}
use pigeonhole_clarity_messe.Prelude.HashMap
use pigeonhole_clarity_messe.Prelude.HashMap.{HashMap}
use pigeonhole_clarity_messe.Prelude.Result.{Result, ok, err}

pub record MeshFrame : Type 0 where
  pub msg_id : Bytes
  pub recipient : Bytes
  pub ttl : ℕ
  pub payload : Bytes

abbrev pub default_ttl : ℕ
default_ttl = 16

-- `SEEN_CAP` and `STORE_CAP`.
abbrev pub seen_cap : ℕ
seen_cap = 8192

abbrev pub store_cap : ℕ
store_cap = 2048

pub data Reception : Type 0 where
  duplicate : Reception
  accepted : Bool → Bool → Reception

-- A hash set is a hash map to nothing.
abbrev pub HashSet : Type 0
HashSet = HashMap Bytes (Unit {0})

pub record MeshNode : Type 0 where
  pub me : Bytes
  pub ttl : ℕ
  pub seen : HashSet
  pub seen_order : List Bytes
  pub store : HashMap Bytes MeshFrame
  pub store_order : List Bytes
  pub inbox : List Bytes

unfoldable pub with_ttl : Bytes → ℕ → MeshNode
with_ttl me ttl = record {
  me = me;
  ttl = ttl;
  seen = [];
  seen_order = [];
  store = [];
  store_order = [];
  inbox = [];
}

unfoldable pub new : Bytes → MeshNode
unfolding with_ttl
new me = with_ttl me default_ttl

-- `if order.len() > cap { if let Some(old) = order.pop_front() { map.remove(&old) } }`.
unfoldable pub evict_oldest :
    {V : Type 0} → ℕ → HashMap Bytes V → List Bytes → HashMap Bytes V × List Bytes
evict_oldest cap m [] = (m, [])
evict_oldest cap m (old ∷ order) =
    if ltb cap (length (old ∷ order))
    then (HashMap.remove Bytes_discrete m old, order)
    else (m, old ∷ order)

-- What an insertion does to the map and its order, by what was there under the key before.
unfoldable pub insert_bounded :
    {V : Type 0}
    → ℕ
    → HashMap Bytes V
    → List Bytes
    → Bytes
    → V
    → Option V
    → HashMap Bytes V × List Bytes
unfolding evict_oldest
insert_bounded cap m order id v (some old) = (HashMap.insert Bytes_discrete m id v, order)
insert_bounded cap m order id v none =
    evict_oldest cap (HashMap.insert Bytes_discrete m id v) (order ++ id ∷ [])

unfoldable pub mark_seen : MeshNode → Bytes → MeshNode
unfolding insert_bounded
mark_seen node id =
    let kept =
      insert_bounded seen_cap node.seen node.seen_order id tt
        (HashMap.get Bytes_discrete node.seen id) in
    record node { seen = kept.0; seen_order = kept.1 }

unfoldable pub store_frame : MeshNode → MeshFrame → MeshNode
unfolding insert_bounded
store_frame node frame =
    let kept =
      insert_bounded store_cap node.store node.store_order frame.msg_id frame
        (HashMap.get Bytes_discrete node.store frame.msg_id) in
    record node { store = kept.0; store_order = kept.1 }

unfoldable pub originate : MeshNode → Bytes → Bytes → Bytes → MeshNode × MeshFrame
unfolding mark_seen store_frame
originate node msg_id recipient payload =
    let frame : MeshFrame = record {
      msg_id = msg_id;
      recipient = recipient;
      ttl = node.ttl;
      payload = payload;
    } in
    (store_frame (mark_seen node msg_id) frame, frame)

-- `if for_me { self.inbox.push(frame.payload.clone()) }`.
abbrev pub deliver : Bool → MeshNode → MeshFrame → MeshNode
deliver true node frame = record node { inbox = node.inbox ++ frame.payload ∷ [] }
deliver false node frame = node

-- `if will_forward { … self.store_frame(onward) }`.
abbrev pub forward : Bool → MeshNode → MeshFrame → MeshNode
forward true node onward = store_frame node onward
forward false node onward = node

unfoldable pub accept : MeshNode → MeshFrame → MeshNode × Reception
unfolding mark_seen store_frame
accept node frame =
    let marked = mark_seen node frame.msg_id in
    let for_me = ite (Bytes_discrete frame.recipient marked.me) true false in
    let forward_ttl = frame.ttl - 1 in
    let will_forward = ltb 0 forward_ttl in
    (
      forward will_forward (deliver for_me marked frame) (record frame { ttl = forward_ttl }),
      accepted for_me will_forward,
    )

-- The early return on an id that was seen.
abbrev pub unless_seen : Option (Unit {0}) → MeshNode → MeshFrame → MeshNode × Reception
unless_seen (some _) node frame = (node, duplicate)
unless_seen none node frame = accept node frame

unfoldable pub handle_incoming : MeshNode → MeshFrame → MeshNode × Reception
unfolding accept
handle_incoming node frame =
    unless_seen (HashMap.get Bytes_discrete node.seen frame.msg_id) node frame

-- `filter_map(|id| self.store.get(id).cloned())`.
unfoldable pub offered : HashMap Bytes MeshFrame → List Bytes → List MeshFrame
offered store [] = []
offered store (id ∷ order) =
    let rest = offered store order in
    elim (HashMap.get Bytes_discrete store id) [ none ↦ rest | some frame ↦ frame ∷ rest ]

unfoldable pub outbound : MeshNode → List MeshFrame
unfolding offered
outbound node = offered node.store node.store_order

unfoldable pub on_new_peer : MeshNode → List MeshFrame
unfolding outbound
on_new_peer node = outbound node

unfoldable pub take_inbox : MeshNode → MeshNode × List Bytes
take_inbox node = (record node { inbox = [] }, node.inbox)

unfoldable pub stored : MeshNode → ℕ
stored node = length node.store

-- bincode at `MeshFrame`; a decoding error is a message.
pub record FrameCodec : Type 0 where
  pub encode : MeshFrame → Bytes
  pub decode : Bytes → Result Bytes MeshFrame

module _ (codec : FrameCodec) where
  -- `MeshTransport::ingest`.
  abbrev pub ingest_decoded :
      MeshNode → Result Bytes MeshFrame → Result Bytes (MeshNode × Reception)
  ingest_decoded node (ok frame) = ok (handle_incoming node frame)
  ingest_decoded node (err e) = err e

  unfoldable pub ingest : MeshNode → Bytes → Result Bytes (MeshNode × Reception)
  ingest node frame_bytes = ingest_decoded node (codec.decode frame_bytes)

  unfoldable pub pending_broadcast : MeshNode → List Bytes
  pending_broadcast node = map codec.encode (outbound node)

-- `MessageTransport` for the mesh: `send` originates, `receive` drains.
unfoldable pub send : MeshNode → Bytes → Bytes → Bytes → MeshNode
unfolding originate
send node msg_id recipient payload = (originate node msg_id recipient payload).0

unfoldable pub receive : MeshNode → Bytes → MeshNode × List Bytes
unfolding take_inbox
receive node me = take_inbox node
