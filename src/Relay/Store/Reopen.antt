-- ===== src/Relay/Store/Reopen.antt =====
-- Flushing and opening again (relay/src/store.rs), after any sequence of calls and flushes, and
-- with any outcome of the writes.
use pigeonhole_clarity_messe.Prelude.{
  ℕ, ◌-◌, ◌≡◌, ◌≢◌, ◌⊎◌, inl, inr, refl, sym, ap, subst, ◌∙◌, false, Bool-cases, not, ◌||◌, Option,
  none, some, ltb, ◌/◌, arith, if_neg,
}
use pigeonhole_clarity_messe.Prelude.Bytes.{Bytes, Bytes_discrete as dec}
use pigeonhole_clarity_messe.Prelude.HashMap
use pigeonhole_clarity_messe.Prelude.HashMap.{HashMap, get-insert, get-insert_self, get-remove}
use pigeonhole_clarity_messe.Prelude.Result.{Result, ok}
use pigeonhole_clarity_messe.Relay.Store.Defs.{Inner}
use pigeonhole_clarity_messe.Relay.Store.Persistence.{
  snapshot_version, Codec, IsCodec, FilePath, File, contents, Disk, Persistence, RelayStore,
  IoError, FlushOutcome, nanos_per_sec, flush_interval_secs, load, maybe_flush, flush_persistence,
  write_snapshot, force, flush,
}
use pigeonhole_clarity_messe.Relay.Store.Recovery.{SameView-refl, Saved}

module _ (codec : Codec) (laws : IsCodec codec) where
  load-contents :
      (disk : Disk) (path : FilePath) (inner : Inner) (b : Bytes)
      → HashMap.get dec disk path ≡ some (contents b)
      → codec.serialize (record { version = snapshot_version; inner = inner }) ≡ some b
      → load codec disk path ≡ ok inner
  unfolding load
  load-contents disk path inner b found e = rw (found, laws.round_trip _ b e) refl

  module _ (with_tmp : FilePath → FilePath) where
    load-write_tmp :
        (disk : Disk) (path : FilePath) (f : File)
        → with_tmp path ≢ path
        → load codec (HashMap.insert dec disk (with_tmp path) f) path ≡ load codec disk path
    unfolding load
    load-write_tmp disk path f differs =
        rw (get-insert dec disk (with_tmp path) path f, if_neg (dec (with_tmp path) path) (differs))
          refl

    -- What one attempt to write leaves: either a clean store whose snapshot is its state, or the
    -- store as it was, and a snapshot file as it was.
    abbrev pub Written :
        RelayStore → Persistence → Disk → Result IoError Unit × RelayStore × Disk → Type 0
    Written st p disk (r, st', disk') =
        ((load codec disk' p.path ≡ ok st.inner)
          × (st'.inner ≡ st.inner)
          × (st'.limits ≡ st.limits)
          × (r ≡ ok tt)
          × (q : Persistence) × (st'.persistence ≡ some q)
          × (q.path ≡ p.path)
          × (q.dirty ≡ false))
        ⊎ ((load codec disk' p.path ≡ load codec disk p.path) × (st' ≡ st) × (r ≢ ok tt))

    pub write_snapshot-Written :
        (now : ℕ) (out : FlushOutcome) (st : RelayStore) (p : Persistence) (disk : Disk)
        (o : Option Bytes)
        → with_tmp p.path ≢ p.path
        → codec.serialize (record { version = snapshot_version; inner = st.inner }) ≡ o
        → Written st p disk (write_snapshot codec with_tmp now out st p disk o)
    write_snapshot-Written now out st p disk none differs e = inr (refl, refl, λ h. cc)
    write_snapshot-Written now out st p disk (some b) differs e = elim (Bool-cases out.written) [
      | inl w ↦ elim (Bool-cases out.renamed) [
        | inl r ↦
            rw (w, r)
              (inl (
                load-contents _ p.path st.inner b (get-insert_self dec _ p.path (contents b)) e,
                refl,
                refl,
                refl,
                record p { dirty = false; last_flush = now },
                refl,
                refl,
                refl,
              ))
        | inr r ↦ rw (w, r) (inr (load-write_tmp disk p.path (contents b) differs, refl, λ h. cc))
      ]
      | inr w ↦
          rw w (inr (load-write_tmp disk p.path (contents out.left_behind) differs, refl, λ h. cc))
    ]

    abbrev pub Attempt :
        RelayStore → Persistence → Disk → Result IoError Unit × RelayStore × Disk → Type 0
    Attempt st p disk w = (w ≡ (ok tt, st, disk)) ⊎ Written st p disk w

    flush_persistence-Attempt :
        (now : ℕ) (out : FlushOutcome) (st : RelayStore) (p : Persistence) (disk : Disk)
        → with_tmp p.path ≢ p.path
        → Attempt st p disk (flush_persistence codec with_tmp now out st disk (some p))
    unfolding flush_persistence
    flush_persistence-Attempt now out st p disk differs =
        elim (Bool-cases
          (not p.dirty || ltb ((now - p.last_flush) / nanos_per_sec) flush_interval_secs)) [
            | inl idle ↦ rw idle (inl refl)
            | inr due ↦ rw due (inr (write_snapshot-Written now out st p disk _ differs refl))
          ]

    pub maybe_flush-Attempt :
        (now : ℕ) (out : FlushOutcome) (st : RelayStore) (p : Persistence) (disk : Disk)
        → with_tmp p.path ≢ p.path
        → st.persistence ≡ some p
        → Attempt st p disk (maybe_flush codec with_tmp now out st disk)
    unfolding maybe_flush
    maybe_flush-Attempt now out st p disk differs e =
        subst (λ o. Attempt st p disk (flush_persistence codec with_tmp now out st disk o)) (sym e)
          (flush_persistence-Attempt now out st p disk differs)

    Attempt-load :
        (st : RelayStore) (p : Persistence) (disk : Disk)
        (w : Result IoError Unit × RelayStore × Disk)
        → Attempt st p disk w
        → (load codec w.2 p.path ≡ load codec disk p.path) ⊎ (load codec w.2 p.path ≡ ok st.inner)
    Attempt-load st p disk w (inl idle) =
        inl (ap (λ (x : Result IoError Unit × RelayStore × Disk). load codec x.2 p.path) idle)
    Attempt-load st p disk w (inr (inl h)) = inr h.0
    Attempt-load st p disk w (inr (inr h)) = inl h.0

    -- If the temporary path of the state path (its extension replaced by `tmp`) is another path,
    -- as for every file whose name does not end in `.tmp`: however the writes of
    -- `maybe_flush` turn out, what a relay opened at the state path would load is what it would
    -- have loaded before, or exactly the state of the running store.
    pub maybe_flush-atomic :
        (now : ℕ) (out : FlushOutcome) (st : RelayStore) (p : Persistence) (disk : Disk)
        → with_tmp p.path ≢ p.path
        → st.persistence ≡ some p
        → (load codec (maybe_flush codec with_tmp now out st disk).2 p.path
            ≡ load codec disk p.path)
          ⊎ (load codec (maybe_flush codec with_tmp now out st disk).2 p.path ≡ ok st.inner)
    maybe_flush-atomic now out st p disk differs e =
        Attempt-load st p disk _ (maybe_flush-Attempt now out st p disk differs e)

    Attempt-Saved :
        (path : FilePath) (st : RelayStore) (p : Persistence) (disk : Disk)
        (w : Result IoError Unit × RelayStore × Disk)
        → st.persistence ≡ some p
        → Saved codec path disk st
        → Attempt st p disk w
        → Saved codec path w.2 w.1
    Attempt-Saved path st p disk w e v (inl idle) =
        subst (λ (x : Result IoError Unit × RelayStore × Disk). Saved codec path x.2 x.1) (sym idle)
          v
    Attempt-Saved path st p disk (r, st', disk') e v (inr (inl h)) = record {
      map = rw h.1 v.map;
      at_path = λ q found. let same : q.path ≡ p.path = ground arith in same ∙ v.at_path p e;
      clean = λ q found d.
          let same : q.path ≡ p.path = ground arith in
          (st.inner, rw same h.0, rw h.1 (SameView-refl st.inner));
    }
    Attempt-Saved path st p disk (r, st', disk') e v (inr (inr h)) = record {
      map = rw h.1 v.map;
      at_path = λ q found. v.at_path q (ap (λ (x : RelayStore). x.persistence) (sym h.1) ∙ found);
      clean = λ q found d.
          let found' : st.persistence ≡ some q =
            ap (λ (x : RelayStore). x.persistence) (sym h.1) ∙ found in
          let same : q.path ≡ p.path = ground arith in
          let (i, loaded, view) = v.clean q found' d in
          (i, rw (same, h.0) (rw same at loaded), rw h.1 view);
    }

    flush_persistence-Saved :
        (path : FilePath) (now : ℕ) (out : FlushOutcome) (st : RelayStore) (disk : Disk)
        (o : Option Persistence)
        → with_tmp path ≢ path
        → st.persistence ≡ o
        → Saved codec path disk st
        → Saved codec path
            (flush_persistence codec with_tmp now out st disk o).2
            (flush_persistence codec with_tmp now out st disk o).1
    flush_persistence-Saved path now out st disk none differs e v = unfold flush_persistence in v
    flush_persistence-Saved path now out st disk (some p) differs e v =
        Attempt-Saved path st p disk _ e v
          (flush_persistence-Attempt now out st p disk (rw (v.at_path p e) differs))

    pub maybe_flush-Saved :
        (path : FilePath) (now : ℕ) (out : FlushOutcome) (st : RelayStore) (disk : Disk)
        → with_tmp path ≢ path
        → Saved codec path disk st
        → Saved codec path
            (maybe_flush codec with_tmp now out st disk).2
            (maybe_flush codec with_tmp now out st disk).1
    unfolding maybe_flush
    maybe_flush-Saved path now out st disk differs v =
        flush_persistence-Saved path now out st disk st.persistence differs refl v

    force-Saved :
        (path : FilePath) (now : ℕ) (st : RelayStore) (disk : Disk)
        → Saved codec path disk st
        → Saved codec path disk (record st { persistence = force now st.persistence })
    force-Saved path now st disk v = record {
      map = v.map;
      at_path = λ p e. kept st.persistence v.at_path p e;
      clean = λ p e d. absurd (forced st.persistence p e d);
    }
      where
        forced :
            (o : Option Persistence) (p : Persistence) → force now o ≡ some p → p.dirty ≡ false → ⊥
        forced none p e d = cc
        forced (some q) p e d = ground arith

        kept :
            (o : Option Persistence)
            → ((q : Persistence) → o ≡ some q → q.path ≡ path)
            → (p : Persistence) → force now o ≡ some p
            → p.path ≡ path
        kept none at p e = cc
        kept (some q) at p e = ground (arith, at q refl)

    pub flush-Saved :
        (path : FilePath) (now : ℕ) (out : FlushOutcome) (st : RelayStore) (disk : Disk)
        → with_tmp path ≢ path
        → Saved codec path disk st
        → Saved codec path
            (flush codec with_tmp now out st disk).2
            (flush codec with_tmp now out st disk).1
    unfolding flush
    flush-Saved path now out st disk differs v =
        maybe_flush-Saved path now out _ disk differs (force-Saved path now st disk v)
