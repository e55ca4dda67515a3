-- ===== src/Mesh/Hops.antt =====
-- How far a frame travels (mesh/src/lib.rs): one node hands it to the next, with one hop less.
use pigeonhole_clarity_messe.Prelude.{
  ℕ, ◌-◌, ◌<◌, ◌≡◌, refl, ap, ◌∙◌, Bool, true, false, ite, Option, none, some, List, [], ◌∷◌, ◌++◌,
  All, length, ltb, arith, inl, inr, Bool-cases, if◌then◌else◌,
}
use pigeonhole_clarity_messe.Prelude.Bytes.{Bytes, Bytes_discrete as dec}
use pigeonhole_clarity_messe.Prelude.HashMap
use pigeonhole_clarity_messe.Prelude.HashMap.{HashMap, get-insert_self, get-remove}
use pigeonhole_clarity_messe.Mesh.Node.{
  MeshFrame, MeshNode, store_cap, evict_oldest, insert_bounded, mark_seen, store_frame, accept,
  deliver, forward, handle_incoming,
}
use pigeonhole_clarity_messe.Mesh.Bounds.{Tracks, contains, is_some}
use pigeonhole_clarity_messe.Mesh.Routing.{IsValid}

-- A frame that has just been stored is carried: what is evicted is the oldest, and not it.
evict_oldest-newest :
    (cap : ℕ) (m : HashMap Bytes MeshFrame) (order : List Bytes) (id : Bytes)
    → 0 < cap
    → contains order id ≡ false
    → HashMap.get dec (evict_oldest cap m (order ++ id ∷ [])).0 id ≡ HashMap.get dec m id
unfolding evict_oldest contains
evict_oldest-newest cap m [] id h fresh = ground arith
evict_oldest-newest cap m (x ∷ order) id h fresh = ground (arith, get-remove dec m x id)

insert_bounded-newest :
    (cap : ℕ) (m : HashMap Bytes MeshFrame) (order : List Bytes) (f : MeshFrame)
    (o : Option MeshFrame)
    → 0 < cap
    → Tracks m order
    → HashMap.get dec m f.msg_id ≡ o
    → HashMap.get dec (insert_bounded cap m order f.msg_id f o).0 f.msg_id ≡ some f
unfolding insert_bounded
insert_bounded-newest cap m order f (some old) h t e = get-insert_self dec m f.msg_id f
insert_bounded-newest cap m order f none h t e =
    evict_oldest-newest cap (HashMap.insert dec m f.msg_id f) order f.msg_id h
      (t.members f.msg_id ∙ ap is_some e)
    ∙ get-insert_self dec m f.msg_id f

-- What a node carries under an id.
abbrev pub carried : MeshNode → Bytes → Option MeshFrame
carried node id = HashMap.get dec node.store id

carried-store_frame :
    (node : MeshNode) (f : MeshFrame)
    → Tracks node.store node.store_order
    → carried (store_frame node f) f.msg_id ≡ some f
unfolding store_frame
carried-store_frame node f t =
    insert_bounded-newest store_cap node.store node.store_order f
      (HashMap.get dec node.store f.msg_id) (omega arith) t refl

-- A node that has neither seen nor stored the id.
pub record IsFresh (id : Bytes) (node : MeshNode) : Type 0 where
  pub valid : IsValid node
  pub unseen : HashMap.get dec node.seen id ≡ none
  pub unstored : HashMap.get dec node.store id ≡ none

store-mark_seen :
    (node : MeshNode) (id : Bytes)
    → ((mark_seen node id).store ≡ node.store)
      × ((mark_seen node id).store_order ≡ node.store_order)
unfolding mark_seen
store-mark_seen node id = (refl, refl)

forward-carried :
    (b : Bool) (node : MeshNode) (f : MeshFrame)
    → Tracks node.store node.store_order
    → carried node f.msg_id ≡ none
    → carried (forward b node f) f.msg_id ≡ (if b then some f else none)
forward-carried true node f t e = carried-store_frame node f t
forward-carried false node f t e = e

deliver-Tracks :
    (b : Bool) (node : MeshNode) (f : MeshFrame)
    → Tracks node.store node.store_order
    → Tracks (deliver b node f).store (deliver b node f).store_order
deliver-Tracks true node f t = t
deliver-Tracks false node f t = t

deliver-carried :
    (b : Bool) (node : MeshNode) (f : MeshFrame) (id : Bytes)
    → carried (deliver b node f) id ≡ carried node id
deliver-carried true node f id = refl
deliver-carried false node f id = refl

-- What is left of a frame after one hop.
abbrev pub onward : MeshFrame → MeshFrame
onward f = record f { ttl = f.ttl - 1 }

handle_incoming-carried :
    (node : MeshNode) (f : MeshFrame)
    → IsFresh f.msg_id node
    → carried (handle_incoming node f).0 f.msg_id
      ≡ (if ltb 0 (f.ttl - 1) then some (onward f) else none)
unfolding handle_incoming accept mark_seen
handle_incoming-carried node f h = rw h.unseen (
    forward-carried (ltb 0 (f.ttl - 1)) _ (onward f)
      (deliver-Tracks (ite (dec f.recipient node.me) true false) _ f h.valid.store)
      (deliver-carried (ite (dec f.recipient node.me) true false) _ f f.msg_id ∙ h.unstored))

-- A frame goes from node to node: each handles what the one before carries on.
unfoldable pub hand_on : MeshFrame → List MeshNode → Option MeshFrame
hand_on f [] = some f
hand_on f (node ∷ nodes) = elim (carried (handle_incoming node f).0 f.msg_id) [
  | none ↦ none
  | some g ↦ hand_on g nodes
]

-- A frame with hop budget passes a line of valid nodes that are new to it exactly if its budget is
-- more than the number of nodes; each node takes one hop off, and nothing else of the frame changes.
pub hand_on-reach :
    (f : MeshFrame) (nodes : List MeshNode)
    → 0 < f.ttl
    → All (IsFresh f.msg_id) nodes
    → hand_on f nodes
      ≡ (if ltb (length nodes) f.ttl then some (record f { ttl = f.ttl - length nodes }) else none)
unfolding hand_on
hand_on-reach f [] h all = ground arith
hand_on-reach f (node ∷ nodes) h all = elim (Bool-cases (ltb 0 (f.ttl - 1))) [
  | inl more ↦ ground (
    arith,
    handle_incoming-carried node f all.0,
    hand_on-reach (onward f) nodes (ground arith) all.1,
  )
  | inr last ↦ ground (arith, handle_incoming-carried node f all.0)
]
