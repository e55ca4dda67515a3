-- ===== src/Relay/Store/Restart.antt =====
-- The relay process over its life: opened at a path, then any calls and flushes, then opened again
-- (relay/src/store.rs).
use pigeonhole_clarity_messe.Prelude.{
  ℕ, ◌-◌, ◌/◌, ltb, ◌*◌, ◌≤◌, ◌≡◌, ◌≢◌, inl, inr, refl, true, false, some, List, [], ◌∷◌, arith,
}
use pigeonhole_clarity_messe.Prelude.Bytes.{Bytes}
use pigeonhole_clarity_messe.Prelude.Result.{Result, ok, >>=-eq-ok}
use pigeonhole_clarity_messe.Core.Wire.{PreKeyBundle}
use pigeonhole_clarity_messe.Relay.Store.Defs.{StoreLimits, Inner}
use pigeonhole_clarity_messe.Relay.Store.Persistence.{
  Codec, IsCodec, FilePath, Disk, Persistence, RelayStore, IoError, FlushOutcome, load, load-IsMap,
  nanos_per_sec, flush_interval_secs, two_seconds_ago, snapshot_version, write_snapshot, open_store,
  maybe_flush, flush_persistence, flush, publish, fetch_bundle, enqueue, poll, sweep_expired,
}
use pigeonhole_clarity_messe.Relay.Store.Recovery.{
  SameView, SameView-refl, Saved, publish-Saved, fetch_bundle-Saved, poll-Saved, sweep-Saved,
  enqueue-Saved, after_enqueue,
}
use pigeonhole_clarity_messe.Relay.Store.Reopen.{
  maybe_flush-Saved, flush-Saved, Written, write_snapshot-Written,
}

-- A call of the store, or a flush with the outcome of its writes.
pub data Event : Type 0 where
  publishes : PreKeyBundle → List (ℕ × Bytes) → Event
  fetches : Bytes → Event
  enqueues : Bytes → Bytes → ℕ → Event
  polls : Bytes → ℕ → Event
  sweeps : ℕ → Event
  maybe_flushes : ℕ → FlushOutcome → Event
  flushes : ℕ → FlushOutcome → Event

abbrev pub World : Type 0
World = RelayStore × Disk

module _ (codec : Codec) (with_tmp : FilePath → FilePath) where
  unfoldable pub step : World → Event → World
  step (st, disk) (publishes b pool) = (publish st b pool, disk)
  step (st, disk) (fetches identity) = ((fetch_bundle st identity).0, disk)
  step (st, disk) (enqueues r message now) = (after_enqueue st (enqueue st r message now), disk)
  step (st, disk) (polls r now) = ((poll st r now).0, disk)
  step (st, disk) (sweeps now) = ((sweep_expired st now).0, disk)
  step (st, disk) (maybe_flushes now out) =
      let (r, st', disk') = maybe_flush codec with_tmp now out st disk in (st', disk')
  step (st, disk) (flushes now out) =
      let (r, st', disk') = flush codec with_tmp now out st disk in (st', disk')

  unfoldable pub run : World → List Event → World
  unfolding step
  run w [] = w
  run w (e ∷ es) = run (step w e) es

  module _ (laws : IsCodec codec) where
    step-Saved :
        (path : FilePath) (w : World) (e : Event)
        → with_tmp path ≢ path
        → Saved codec path w.1 w.0
        → Saved codec path (step w e).1 (step w e).0
    unfolding step
    step-Saved path (st, disk) (publishes b pool) differs v =
        publish-Saved codec path disk st b pool v
    step-Saved path (st, disk) (fetches identity) differs v =
        fetch_bundle-Saved codec path disk st identity v
    step-Saved path (st, disk) (enqueues r message now) differs v =
        enqueue-Saved codec path disk st r message now v
    step-Saved path (st, disk) (polls r now) differs v = poll-Saved codec path disk st r now v
    step-Saved path (st, disk) (sweeps now) differs v = sweep-Saved codec path disk st now v
    step-Saved path (st, disk) (maybe_flushes now out) differs v =
        maybe_flush-Saved codec laws with_tmp path now out st disk differs v
    step-Saved path (st, disk) (flushes now out) differs v =
        flush-Saved codec laws with_tmp path now out st disk differs v

    run-Saved :
        (path : FilePath) (w : World) (es : List Event)
        → with_tmp path ≢ path
        → Saved codec path w.1 w.0
        → Saved codec path (run w es).1 (run w es).0
    unfolding run
    run-Saved path w [] differs v = v
    run-Saved path w (e ∷ es) differs v =
        run-Saved path (step w e) es differs (step-Saved path w e differs v)

    open_store-Saved :
        (disk : Disk) (path : FilePath) (limits : StoreLimits) (now : ℕ) (st : RelayStore)
        → open_store codec disk path limits now ≡ ok st
        → Saved codec path disk st
    unfolding open_store
    open_store-Saved disk path limits now st e =
        let (i, loaded, made) = >>=-eq-ok (load codec disk path) _ e in
        let inner : st.inner ≡ i = ground arith in
        record {
          map = rw inner (load-IsMap codec laws disk path i loaded);
          at_path = λ p found. ground arith;
          clean = λ p found d.
              let same : p.path ≡ path = ground arith in
              (i, rw same loaded, rw inner (SameView-refl i));
        }

    -- A relay is opened at a path, whose temporary path (its extension replaced by `tmp`) is another
    -- path, and serves any calls and flushes, with any outcome of the writes. Whenever it is clean
    -- afterwards, loading its path again yields a state that no client can tell from its own: the
    -- same prekey directory and the same mailboxes.
    pub open_store-run :
        (disk : Disk) (path : FilePath) (limits : StoreLimits) (now : ℕ) (st : RelayStore)
        (es : List Event) (p : Persistence)
        → with_tmp path ≢ path
        → open_store codec disk path limits now ≡ ok st
        → (run (st, disk) es).0.persistence ≡ some p
        → p.dirty ≡ false
        → (i : Inner) × (load codec (run (st, disk) es).1 p.path ≡ ok i)
          × SameView i (run (st, disk) es).0.inner
    open_store-run disk path limits now st es p differs opened e d =
        (run-Saved path (st, disk) es differs
            (open_store-Saved disk path limits now st opened)).clean
          p e d

    forced_write :
        (now : ℕ) (out : FlushOutcome) (st : RelayStore) (disk : Disk) (p : Persistence)
        → st.persistence ≡ some p
        → 2 * nanos_per_sec ≤ now
        → (st' : RelayStore) × (p' : Persistence) × (st'.inner ≡ st.inner)
          × (p'.path ≡ p.path)
          × (flush codec with_tmp now out st disk
              ≡ write_snapshot codec with_tmp now out st' p' disk
                  (codec.serialize (record { version = snapshot_version; inner = st'.inner })))
    unfolding flush maybe_flush flush_persistence
    forced_write now out st disk p e h =
        let p' : Persistence = record p { dirty = true; last_flush = two_seconds_ago now } in
        let late : ltb ((now - two_seconds_ago now) / nanos_per_sec) flush_interval_secs ≡ false =
          ground arith in
        (record st { persistence = some p' }, p', refl, refl, rw (e, late) refl)

    Written-load :
        (st' : RelayStore) (p' : Persistence) (disk : Disk)
        (w : Result IoError Unit × RelayStore × Disk)
        → Written codec laws with_tmp st' p' disk w
        → w.0 ≡ ok tt
        → load codec w.2 p'.path ≡ ok st'.inner
    Written-load st' p' disk w (inl h) e = h.0
    Written-load st' p' disk w (inr h) e = absurd (h.2 e)

    -- A forced flush that succeeds, at least two seconds into the monotonic clock and with a
    -- temporary path (the extension replaced by `tmp`) that is not the state path, leaves a snapshot
    -- from which opening the path gives back exactly the state of the store.
    pub open_store-flush :
        (now : ℕ) (out : FlushOutcome) (st : RelayStore) (disk : Disk) (p : Persistence)
        (limits : StoreLimits) (later : ℕ)
        → with_tmp p.path ≢ p.path
        → st.persistence ≡ some p
        → 2 * nanos_per_sec ≤ now
        → (flush codec with_tmp now out st disk).0 ≡ ok tt
        → open_store codec (flush codec with_tmp now out st disk).2 p.path limits later
          ≡ ok (record {
            inner = st.inner;
            limits = limits;
            persistence = some (record { path = p.path; dirty = false; last_flush = later });
          })
    unfolding open_store
    open_store-flush now out st disk p limits later differs e h done =
        let (st', p', inner, path, flushed) = forced_write now out st disk p e h in
        let loaded : load codec (flush codec with_tmp now out st disk).2 p'.path ≡ ok st'.inner =
          Written-load st' p' disk (flush codec with_tmp now out st disk)
            (rw flushed (
              write_snapshot-Written codec laws with_tmp now out st' p' disk _ (rw path differs)
                refl))
            done in
        rw (← path, loaded, inner) refl
