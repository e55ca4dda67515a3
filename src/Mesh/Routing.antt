-- ===== src/Mesh/Routing.antt =====
-- A mesh node over its life (mesh/src/lib.rs): its tables stay bounded and in step, and what it
-- offers to a peer is all that it carries.
use pigeonhole_clarity_messe.Prelude.{
  ℕ, suc, ◌-◌, ◌≤◌, ◌≡◌, refl, sym, ap, ap₂, ◌∙◌, Bool, true, false, Option, none, some, List, [],
  ◌∷◌, ◌++◌, map, length, ltb, arith, Option-cases, inl, inr,
}
use pigeonhole_clarity_messe.Prelude.Bytes.{Bytes, Bytes_discrete as dec}
use pigeonhole_clarity_messe.Prelude.HashMap
use pigeonhole_clarity_messe.Prelude.HashMap.{HashMap, get-insert, get-remove}
use pigeonhole_clarity_messe.Mesh.Node.{
  MeshFrame, MeshNode, seen_cap, store_cap, evict_oldest, insert_bounded, mark_seen, store_frame,
  accept, unless_seen, originate, deliver, forward, handle_incoming, offered, outbound, stored,
  take_inbox, with_ttl,
}
use pigeonhole_clarity_messe.Mesh.Bounds.{Tracks, contains, is_some, insert_bounded-Tracks}

-- Every stored frame is filed under its own id.
pub record IsFiled (store : HashMap Bytes MeshFrame) : Type 0 where
  pub at : (id : Bytes) (f : MeshFrame) → HashMap.get dec store id ≡ some f → f.msg_id ≡ id

pub record IsValid (node : MeshNode) : Type 0 where
  pub seen : Tracks node.seen node.seen_order
  pub seen_bound : length node.seen_order ≤ seen_cap
  pub store : Tracks node.store node.store_order
  pub store_bound : length node.store_order ≤ store_cap
  pub filed : IsFiled node.store

mark_seen-IsValid : (node : MeshNode) (id : Bytes) → IsValid node → IsValid (mark_seen node id)
unfolding mark_seen
mark_seen-IsValid node id v =
    let (t, b) =
      insert_bounded-Tracks seen_cap node.seen node.seen_order id tt (HashMap.get dec node.seen id)
        refl v.seen v.seen_bound in
    record {
      seen = t;
      seen_bound = b;
      store = v.store;
      store_bound = v.store_bound;
      filed = v.filed;
    }

evict_oldest-IsFiled :
    (cap : ℕ) (m : HashMap Bytes MeshFrame) (order : List Bytes)
    → IsFiled m
    → IsFiled (evict_oldest cap m order).0
unfolding evict_oldest
evict_oldest-IsFiled cap m [] h = h
evict_oldest-IsFiled cap m (old ∷ order) h = record {
  at = λ id f e. ground (arith, h.at id f, get-remove dec m old id);
}

insert_bounded-IsFiled :
    (cap : ℕ) (m : HashMap Bytes MeshFrame) (order : List Bytes) (f : MeshFrame)
    (o : Option MeshFrame)
    → IsFiled m
    → IsFiled (insert_bounded cap m order f.msg_id f o).0
unfolding insert_bounded
insert_bounded-IsFiled cap m order f (some old) h = record {
  at = λ id g e. ground (arith, h.at id g, get-insert dec m f.msg_id id f);
}
insert_bounded-IsFiled cap m order f none h =
    evict_oldest-IsFiled cap (HashMap.insert dec m f.msg_id f) (order ++ f.msg_id ∷ [])
      (record { at = λ id g e. ground (arith, h.at id g, get-insert dec m f.msg_id id f) })

store_frame-IsValid :
    (node : MeshNode) (f : MeshFrame) → IsValid node → IsValid (store_frame node f)
unfolding store_frame
store_frame-IsValid node f v =
    let (t, b) =
      insert_bounded-Tracks store_cap node.store node.store_order f.msg_id f
        (HashMap.get dec node.store f.msg_id) refl v.store v.store_bound in
    record {
      seen = v.seen;
      seen_bound = v.seen_bound;
      store = t;
      store_bound = b;
      filed =
          insert_bounded-IsFiled store_cap node.store node.store_order f
            (HashMap.get dec node.store f.msg_id) v.filed;
    }

deliver-IsValid :
    (b : Bool) (node : MeshNode) (f : MeshFrame) → IsValid node → IsValid (deliver b node f)
deliver-IsValid true node f v = record {
  seen = v.seen;
  seen_bound = v.seen_bound;
  store = v.store;
  store_bound = v.store_bound;
  filed = v.filed;
}
deliver-IsValid false node f v = v

forward-IsValid :
    (b : Bool) (node : MeshNode) (f : MeshFrame) → IsValid node → IsValid (forward b node f)
forward-IsValid true node f v = store_frame-IsValid node f v
forward-IsValid false node f v = v

unless_seen-IsValid :
    (o : Option (Unit {0})) (node : MeshNode) (f : MeshFrame)
    → IsValid node
    → IsValid (unless_seen o node f).0
unfolding accept
unless_seen-IsValid (some _) node f v = v
unless_seen-IsValid none node f v =
    forward-IsValid (ltb 0 (f.ttl - 1)) _ _
      (deliver-IsValid _ _ f (mark_seen-IsValid node f.msg_id v))

-- What the app asks of a node.
pub data Event : Type 0 where
  originates : Bytes → Bytes → Bytes → Event
  receives : MeshFrame → Event
  takes : Event

unfoldable pub step : MeshNode → Event → MeshNode
step node (originates msg_id recipient payload) = (originate node msg_id recipient payload).0
step node (receives frame) = (handle_incoming node frame).0
step node takes = (take_inbox node).0

unfoldable pub run : MeshNode → List Event → MeshNode
unfolding step
run node [] = node
run node (e ∷ es) = run (step node e) es

pub step-IsValid : (node : MeshNode) (e : Event) → IsValid node → IsValid (step node e)
unfolding step originate handle_incoming take_inbox
step-IsValid node (originates msg_id recipient payload) v =
    store_frame-IsValid _ _ (mark_seen-IsValid node msg_id v)
step-IsValid node (receives frame) v =
    unless_seen-IsValid (HashMap.get dec node.seen frame.msg_id) node frame v
step-IsValid node takes v = record {
  seen = v.seen;
  seen_bound = v.seen_bound;
  store = v.store;
  store_bound = v.store_bound;
  filed = v.filed;
}

-- Any events keep a node's tables bounded by their caps and in step with their orders of
-- insertion, each id once, and each stored frame under its own id.
pub run-IsValid : (node : MeshNode) (es : List Event) → IsValid node → IsValid (run node es)
unfolding run
run-IsValid node [] v = v
run-IsValid node (e ∷ es) v = run-IsValid (step node e) es (step-IsValid node e v)

pub with_ttl-IsValid : (me : Bytes) (ttl : ℕ) → IsValid (with_ttl me ttl)
unfolding with_ttl contains HashMap.get
with_ttl-IsValid me ttl = record {
  seen = record { members = λ id. refl; once = tt; distinct = tt; size = refl };
  seen_bound = omega arith;
  store = record { members = λ id. refl; once = tt; distinct = tt; size = refl };
  store_bound = omega arith;
  filed = record { at = λ id f e. cc };
}

offered-some :
    (store : HashMap Bytes MeshFrame) (id : Bytes) (order : List Bytes) (f : MeshFrame)
    → HashMap.get dec store id ≡ some f
    → offered store (id ∷ order) ≡ f ∷ offered store order
unfolding offered
offered-some store id order f e = ground arith

offered-ids :
    (store : HashMap Bytes MeshFrame) (order : List Bytes)
    → IsFiled store
    → ((id : Bytes) → contains order id ≡ true → is_some (HashMap.get dec store id) ≡ true)
    → map (λ (f : MeshFrame). f.msg_id) (offered store order) ≡ order
unfolding offered contains
offered-ids store [] h all = refl
offered-ids store (id ∷ order) h all = elim (Option-cases (HashMap.get dec store id)) [
  | inl e ↦ absurd (ground (arith, all id))
  | inr (f, e) ↦
      ap (map (λ (g : MeshFrame). g.msg_id)) (offered-some store id order f e)
      ∙ ap₂ ◌∷◌ (h.at id f e) (offered-ids store order h (λ j k. all j (ground arith)))
]

offered-frames :
    (store : HashMap Bytes MeshFrame) (order : List Bytes)
    → ((id : Bytes) → contains order id ≡ true → is_some (HashMap.get dec store id) ≡ true)
    → map some (offered store order) ≡ map (λ id. HashMap.get dec store id) order
unfolding offered contains
offered-frames store [] all = refl
offered-frames store (id ∷ order) all = elim (Option-cases (HashMap.get dec store id)) [
  | inl e ↦ absurd (ground (arith, all id))
  | inr (f, e) ↦
      ap (map some) (offered-some store id order f e)
      ∙ ap₂ ◌∷◌ (sym e) (offered-frames store order (λ j k. all j (ground arith)))
]

length-map_ids : (fs : List MeshFrame) → length (map (λ (f : MeshFrame). f.msg_id) fs) ≡ length fs
length-map_ids [] = refl
length-map_ids (f ∷ fs) = ap suc (length-map_ids fs)

-- A valid node offers a peer every frame that it carries, whole and in the order in which they were
-- stored: each id of that order has its stored frame, with that id, at its place in what is offered,
-- and `stored` is their number.
pub outbound_complete :
    (node : MeshNode)
    → IsValid node
    → (map some (outbound node) ≡ map (λ id. HashMap.get dec node.store id) node.store_order)
      × (map (λ (f : MeshFrame). f.msg_id) (outbound node) ≡ node.store_order)
      × (length (outbound node) ≡ stored node)
unfolding outbound stored
outbound_complete node v =
    let ids : map (λ (f : MeshFrame). f.msg_id) (offered node.store node.store_order)
        ≡ node.store_order =
      offered-ids node.store node.store_order v.filed
        (λ id h. ground (arith, v.store.members id)) in
    (
      offered-frames node.store node.store_order (λ id h. ground (arith, v.store.members id)),
      ids,
      omega (
        arith,
        ap (length {A = Bytes}) ids,
        length-map_ids (offered node.store node.store_order),
        v.store.size,
      ),
    )
