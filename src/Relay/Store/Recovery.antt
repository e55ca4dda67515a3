-- ===== src/Relay/Store/Recovery.antt =====
-- What a relay that is opened again finds: the snapshot on disk (relay/src/store.rs) against the
-- store that was running.
use pigeonhole_clarity_messe.Prelude.{
  ℕ, ◌≡◌, inl, inr, refl, sym, ◌∙◌, Bool, true, false, Bool-cases, Option, none, some, List, [],
  ◌∷◌, length, retain, retain-all, length-retain-le, ltb, arith,
}
use pigeonhole_clarity_messe.Prelude.Bytes.{Bytes, Bytes_discrete as dec}
use pigeonhole_clarity_messe.Prelude.HashMap
use pigeonhole_clarity_messe.Prelude.HashMap.{
  HashMap, insert-same, get-insert, get-insert_self, get-remove,
}
use pigeonhole_clarity_messe.Prelude.Result.{Result, ok, err}
use pigeonhole_clarity_messe.Core.Wire.{PreKeyBundle}
use pigeonhole_clarity_messe.Relay.Store.Defs
use pigeonhole_clarity_messe.Relay.Store.Defs.{
  StoreLimits, Inner, StoredKeys, QueuedMessage, mailbox, or_default, sweep_queues, unexpired,
  fetch_entry, poll_entry,
}
use pigeonhole_clarity_messe.Relay.Store.Mailbox.{IsMap, mailbox-sweep}
use pigeonhole_clarity_messe.Relay.Store.Run.{
  step-IsMap, enqueued-IsMap, publishes, fetches, polls, sweeps, step,
}
use pigeonhole_clarity_messe.Relay.Store.Persistence.{
  FilePath, Codec, Disk, Persistence, RelayStore, updated, mark_dirty, load, publish, fetch_bundle,
  enqueue, poll, sweep_expired,
}

-- Two states that no client can tell apart: the same directory and the same mailboxes.
pub record SameView (a b : Inner) : Type 0 where
  pub keys : a.keys ≡ b.keys
  pub mailboxes : (r : Bytes) → mailbox a r ≡ mailbox b r

pub SameView-refl : (a : Inner) → SameView a a
SameView-refl a = record { keys = refl; mailboxes = λ r. refl }

SameView-trans : {a b c : Inner} → SameView a b → SameView b c → SameView a c
SameView-trans h k = record {
  keys = h.keys ∙ k.keys;
  mailboxes = λ r. h.mailboxes r ∙ k.mailboxes r;
}

-- A call that does not dirty the store changes nothing that a client can see.
fetch_entry-SameView :
    (s : Inner) (identity : Bytes) (e : Option StoredKeys)
    → HashMap.get dec s.keys identity ≡ e
    → (fetch_entry s identity e).2 ≡ false
    → SameView s (fetch_entry s identity e).0
unfolding mailbox
fetch_entry-SameView s identity none found h = SameView-refl s
fetch_entry-SameView s identity (some stored) found h = record {
  keys = sym (insert-same dec s.keys identity _ (found ∙ ground arith));
  mailboxes = λ r. refl;
}

poll_entry-SameView :
    (limits : StoreLimits) (s : Inner) (r : Bytes) (now : ℕ) (e : Option (List QueuedMessage))
    → (poll_entry limits s r now e).2 ≡ false
    → SameView s (poll_entry limits s r now e).0
poll_entry-SameView limits s r now none h = SameView-refl s
poll_entry-SameView limits s r now (some q) h = cc

sweep_queues-idle :
    (fresh : QueuedMessage → Bool) (m : HashMap Bytes (List QueuedMessage)) (r : Bytes)
    → (sweep_queues fresh m).1 ≡ 0
    → retain fresh (or_default (HashMap.get dec m r)) ≡ or_default (HashMap.get dec m r)
unfolding sweep_queues HashMap.get retain
sweep_queues-idle fresh [] r h = refl
sweep_queues-idle fresh ((j, q) ∷ m) r h = ground (
  arith,
  retain-all fresh q (omega (arith, length-retain-le fresh q)),
  sweep_queues-idle fresh m r (omega arith),
)

sweep-SameView :
    (limits : StoreLimits) (s : Inner) (now : ℕ)
    → IsMap s
    → (Defs.sweep_expired_at limits s now).1 ≡ 0
    → SameView s (Defs.sweep_expired_at limits s now).0
unfolding Defs.sweep_expired_at mailbox
sweep-SameView limits s now m h = record {
  keys = refl;
  mailboxes = λ r.
      sym (mailbox-sweep limits s m now r ∙ sweep_queues-idle (unexpired limits now) s.queues r h);
}

-- A clean store has its state on disk, at the path at which it was opened.
pub record Saved (codec : Codec) (path : FilePath) (disk : Disk) (st : RelayStore) : Type 0 where
  pub map : IsMap st.inner
  pub at_path : (p : Persistence) → st.persistence ≡ some p → p.path ≡ path
  pub clean :
      (p : Persistence)
      → st.persistence ≡ some p
      → p.dirty ≡ false
      → (i : Inner) × (load codec disk p.path ≡ ok i) × SameView i st.inner

updated-Saved :
    (codec : Codec) (path : FilePath) (disk : Disk) (st : RelayStore) (inner : Inner)
    (changed : Bool)
    → Saved codec path disk st
    → IsMap inner
    → (changed ≡ false → SameView st.inner inner)
    → Saved codec path disk (updated st inner changed)
unfolding updated
updated-Saved codec path disk st inner true v m same = record {
  map = m;
  at_path = λ p e. kept st.persistence v.at_path p e;
  clean = λ p e d. absurd (marked st.persistence p e d);
}
  where
    marked :
        (o : Option Persistence) (p : Persistence) → mark_dirty o ≡ some p → p.dirty ≡ false → ⊥
    marked none p e d = cc
    marked (some q) p e d = ground arith

    kept :
        (o : Option Persistence)
        → ((q : Persistence) → o ≡ some q → q.path ≡ path)
        → (p : Persistence) → mark_dirty o ≡ some p
        → p.path ≡ path
    kept none at p e = cc
    kept (some q) at p e = ground (arith, at q refl)
updated-Saved codec path disk st inner false v m same = record {
  map = m;
  at_path = v.at_path;
  clean = λ p e d.
      let (i, loaded, view) = v.clean p e d in (i, loaded, SameView-trans view (same refl));
}

-- The directory and the mailboxes come back through the calls that change them.
pub publish-Saved :
    (codec : Codec) (path : FilePath) (disk : Disk) (st : RelayStore) (b : PreKeyBundle)
    (pool : List (ℕ × Bytes))
    → Saved codec path disk st
    → Saved codec path disk (publish st b pool)
unfolding publish
publish-Saved codec path disk st b pool v =
    updated-Saved codec path disk st _ true v
      (unfold step in step-IsMap st.limits st.inner (publishes b pool) v.map) (λ e. cc)

pub fetch_bundle-Saved :
    (codec : Codec) (path : FilePath) (disk : Disk) (st : RelayStore) (id : Bytes)
    → Saved codec path disk st
    → Saved codec path disk (fetch_bundle st id).0
unfolding fetch_bundle Defs.fetch_bundle
fetch_bundle-Saved codec path disk st id v =
    updated-Saved codec path disk st _ _ v
      (unfold step in step-IsMap st.limits st.inner (fetches id) v.map)
      (fetch_entry-SameView st.inner id (HashMap.get dec st.inner.keys id) refl)

pub poll-Saved :
    (codec : Codec) (path : FilePath) (disk : Disk) (st : RelayStore) (r : Bytes) (now : ℕ)
    → Saved codec path disk st
    → Saved codec path disk (poll st r now).0
unfolding poll Defs.poll_at
poll-Saved codec path disk st r now v =
    updated-Saved codec path disk st _ _ v
      (unfold step in step-IsMap st.limits st.inner (polls r now) v.map)
      (poll_entry-SameView st.limits st.inner r now (HashMap.get dec st.inner.queues r))

pub sweep-Saved :
    (codec : Codec) (path : FilePath) (disk : Disk) (st : RelayStore) (now : ℕ)
    → Saved codec path disk st
    → Saved codec path disk (sweep_expired st now).0
unfolding sweep_expired
sweep-Saved codec path disk st now v =
    updated-Saved codec path disk st _ _ v
      (unfold step in step-IsMap st.limits st.inner (sweeps now) v.map)
      (λ e. sweep-SameView st.limits st.inner now v.map (ground arith))

abbrev pub after_enqueue : RelayStore → Result Defs.StoreError RelayStore → RelayStore
after_enqueue st (ok st') = st'
after_enqueue st (err e) = st

pub enqueue-Saved :
    (codec : Codec) (path : FilePath) (disk : Disk) (st : RelayStore) (r m : Bytes) (now : ℕ)
    → Saved codec path disk st
    → Saved codec path disk (after_enqueue st (enqueue st r m now))
unfolding enqueue Defs.enqueue_at
enqueue-Saved codec path disk st r m now v =
    elim (Bool-cases (ltb st.limits.max_message_bytes (length m))) [
      | inl big ↦ rw big v
      | inr small ↦ rw small (
          updated-Saved codec path disk st _ true v
            (enqueued-IsMap st.limits st.inner r m now v.map) (λ e. cc))
    ]
