-- ===== src/Mesh/Dedup.antt =====
-- Flood deduplication (mesh/src/lib.rs): a frame that was handled is a duplicate for as long as
-- fewer than `SEEN_CAP` other events have passed.
use pigeonhole_clarity_messe.Prelude.{
  ℕ, suc, ◌+◌, ◌≤◌, ◌<◌, ◌≡◌, refl, sym, ap, subst, true, Option, none, some, List, [], ◌∷◌, ◌++◌,
  append_assoc, length, length-append, ltb, arith, Option-cases, inl, inr, Bool-cases,
}
use pigeonhole_clarity_messe.Prelude.Bytes.{Bytes, Bytes_discrete as dec}
use pigeonhole_clarity_messe.Prelude.HashMap
use pigeonhole_clarity_messe.Prelude.HashMap.{HashMap}
use pigeonhole_clarity_messe.Mesh.Node.{
  MeshFrame, MeshNode, duplicate, seen_cap, evict_oldest, insert_bounded, mark_seen, store_frame,
  accept, unless_seen, originate, handle_incoming, take_inbox,
}
use pigeonhole_clarity_messe.Mesh.Bounds.{contains}
use pigeonhole_clarity_messe.Mesh.Routing.{
  Event, originates, receives, takes, step, run, IsValid, step-IsValid, run-IsValid,
}

-- The id stands in the order, with at most `n` ids marked after it.
pub record Recent (id : Bytes) (n : ℕ) (order : List Bytes) : Type 0 where
  pub before : List Bytes
  pub after : List Bytes
  pub place : order ≡ before ++ id ∷ after
  pub behind : length after ≤ n

contains-middle :
    (pre : List Bytes) (id : Bytes) (post : List Bytes) → contains (pre ++ id ∷ post) id ≡ true
unfolding contains
contains-middle [] id post = ground arith
contains-middle (x ∷ pre) id post = ground (arith, contains-middle pre id post)

module _ (id : Bytes) where
  evict-Recent :
      (m : HashMap Bytes (Unit {0})) (pre post : List Bytes) (n : ℕ)
      → length post ≤ n
      → n < seen_cap
      → Recent id n (evict_oldest seen_cap m (pre ++ id ∷ post)).1
  unfolding evict_oldest
  evict-Recent m [] post n h k = elim (Bool-cases (ltb seen_cap (length (id ∷ post)))) [
    | inl over ↦ absurd (ground arith)
    | inr within ↦ rw within (record { before = []; after = post; place = refl; behind = h })
  ]
  evict-Recent m (x ∷ pre) post n h k =
      elim (Bool-cases (ltb seen_cap (length (x ∷ pre ++ id ∷ post)))) [
        | inl over ↦ rw over (record { before = pre; after = post; place = refl; behind = h })
        | inr within ↦
            rw within (record { before = x ∷ pre; after = post; place = refl; behind = h })
      ]

  insert-Recent :
      (m : HashMap Bytes (Unit {0})) (order : List Bytes) (j : Bytes) (o : Option (Unit {0}))
      (n : ℕ)
      → Recent id n order
      → suc n < seen_cap
      → Recent id (suc n) (insert_bounded seen_cap m order j tt o).1
  unfolding insert_bounded
  insert-Recent m order j (some u) n r k = record {
    before = r.before;
    after = r.after;
    place = r.place;
    behind = omega (arith, r.behind);
  }
  insert-Recent m order j none n r k =
      rw (r.place, append_assoc r.before (id ∷ r.after) (j ∷ []))
        (evict-Recent (HashMap.insert dec m j tt) r.before (r.after ++ j ∷ []) (suc n)
          (omega (arith, length-append r.after (j ∷ []), r.behind)) k)

  insert-Recent_self :
      (m : HashMap Bytes (Unit {0})) (order : List Bytes)
      → Recent id 0 (insert_bounded seen_cap m order id tt none).1
  unfolding insert_bounded
  insert-Recent_self m order =
      evict-Recent (HashMap.insert dec m id tt) order [] 0 (omega arith) (omega arith)

-- The store and the inbox do not touch the seen order.
seen_order-store_frame :
    (node : MeshNode) (f : MeshFrame) → (store_frame node f).seen_order ≡ node.seen_order
unfolding store_frame
seen_order-store_frame node f = refl

seen_order-accept :
    (node : MeshNode) (f : MeshFrame)
    → (accept node f).0.seen_order ≡ (mark_seen node f.msg_id).seen_order
unfolding accept store_frame
seen_order-accept node f = ground arith

module _ (id : Bytes) (n : ℕ) (k : suc n < seen_cap) where
  mark_seen-Recent :
      (node : MeshNode) (j : Bytes)
      → Recent id n node.seen_order
      → Recent id (suc n) (mark_seen node j).seen_order
  unfolding mark_seen
  mark_seen-Recent node j r =
      insert-Recent id node.seen node.seen_order j (HashMap.get dec node.seen j) n r k

  older : (order : List Bytes) → Recent id n order → Recent id (suc n) order
  older order r = record {
    before = r.before;
    after = r.after;
    place = r.place;
    behind = omega (arith, r.behind);
  }

  unless_seen-Recent :
      (o : Option (Unit {0})) (node : MeshNode) (f : MeshFrame)
      → Recent id n node.seen_order
      → Recent id (suc n) (unless_seen o node f).0.seen_order
  unless_seen-Recent (some u) node f r = older node.seen_order r
  unless_seen-Recent none node f r =
      rw (seen_order-accept node f) (mark_seen-Recent node f.msg_id r)

  step-Recent :
      (node : MeshNode) (e : Event)
      → Recent id n node.seen_order
      → Recent id (suc n) (step node e).seen_order
  unfolding step originate handle_incoming take_inbox
  step-Recent node (originates msg_id recipient payload) r =
      rw seen_order-store_frame (mark_seen-Recent node msg_id r)
  step-Recent node (receives frame) r =
      unless_seen-Recent (HashMap.get dec node.seen frame.msg_id) node frame r
  step-Recent node takes r = older node.seen_order r

run-Recent :
    (id : Bytes) (n : ℕ) (node : MeshNode) (es : List Event)
    → Recent id n node.seen_order
    → n + length es < seen_cap
    → Recent id (n + length es) (run node es).seen_order
unfolding run
run-Recent id n node [] r k = let e : n + 0 ≡ n = omega arith in rw e r
run-Recent id n node (e ∷ es) r k =
    let same : n + suc (length es) ≡ suc n + length es = omega arith in
    rw same (
      run-Recent id (suc n) (step node e) es (step-Recent id n (omega arith) node e r)
        (omega arith))

Recent-duplicate :
    (node : MeshNode) (g : MeshFrame) (n : ℕ)
    → IsValid node
    → Recent g.msg_id n node.seen_order
    → handle_incoming node g ≡ (node, duplicate)
unfolding handle_incoming
Recent-duplicate node g n v r = elim (Option-cases (HashMap.get dec node.seen g.msg_id)) [
  | inl e ↦ absurd (
      ground (
        arith,
        v.seen.members g.msg_id,
        contains-middle r.before g.msg_id r.after,
        ap (λ (o : List Bytes). contains o g.msg_id) r.place,
      ))
  | inr (u, e) ↦ rw e refl
]

accept-Recent :
    (node : MeshNode) (f : MeshFrame)
    → HashMap.get dec node.seen f.msg_id ≡ none
    → Recent f.msg_id 0 (handle_incoming node f).0.seen_order
unfolding handle_incoming mark_seen
accept-Recent node f fresh =
    rw (fresh, seen_order-accept node f)
      (subst
        (λ o. Recent f.msg_id 0 (insert_bounded seen_cap node.seen node.seen_order f.msg_id tt o).1)
        (sym fresh) (insert-Recent_self f.msg_id node.seen node.seen_order))

-- A valid node that accepts a frame ignores every later frame with that id, and does not change,
-- whatever happens in between, as long as that is fewer than `SEEN_CAP` events.
pub handle_incoming-run :
    (node : MeshNode) (f g : MeshFrame) (es : List Event)
    → IsValid node
    → HashMap.get dec node.seen f.msg_id ≡ none
    → g.msg_id ≡ f.msg_id
    → length es < seen_cap
    → handle_incoming (run (handle_incoming node f).0 es) g
      ≡ (run (handle_incoming node f).0 es, duplicate)
handle_incoming-run node f g es v fresh same few =
    let first = (handle_incoming node f).0 in
    let recent : Recent f.msg_id (0 + length es) (run first es).seen_order =
      run-Recent f.msg_id 0 first es (accept-Recent node f fresh) (omega arith) in
    Recent-duplicate (run first es) g (0 + length es)
      (run-IsValid first es (unfold step in step-IsValid node (receives f) v)) (rw same recent)
