-- ===== src/Relay/Store/Persistence.antt =====
-- The file-backed half of relay/src/store.rs: the dirty flag, `open`, `maybe_flush` and `flush`.
-- bincode is the parameter `codec`; each access to the file system comes with its outcome. Instants
-- are nanoseconds of the monotonic clock.
use pigeonhole_clarity_messe.Prelude.{
  ℕ, ◌+◌, ◌==◌, ◌-◌, ◌/◌, ◌*◌, ◌≡◌, refl, subst, arith, Bool, true, false, not, ◌||◌, Option, none,
  some, List, ltb, if◌then◌else◌,
}
use pigeonhole_clarity_messe.Prelude.Bytes.{Bytes, Bytes_discrete}
use pigeonhole_clarity_messe.Prelude.HashMap
use pigeonhole_clarity_messe.Prelude.HashMap.{HashMap}
use pigeonhole_clarity_messe.Prelude.Result.{Result, ok, err, ◌>>=◌}
use pigeonhole_clarity_messe.Core.Wire.{PreKeyBundle}
use pigeonhole_clarity_messe.Relay.Store.Defs
use pigeonhole_clarity_messe.Relay.Store.Defs.{StoreLimits, Inner, StoreError, empty_inner}
use pigeonhole_clarity_messe.Relay.Store.Mailbox.{IsMap}

abbrev pub snapshot_version : ℕ
snapshot_version = 1

abbrev pub flush_interval_secs : ℕ
flush_interval_secs = 1

abbrev pub nanos_per_sec : ℕ
nanos_per_sec = 1_000_000_000

pub record Snapshot : Type 0 where
  pub version : ℕ
  pub inner : Inner

-- `bincode::serialize` and `bincode::deserialize` at `Snapshot`.
pub record Codec : Type 0 where
  pub serialize : Snapshot → Option Bytes
  pub deserialize : Bytes → Option Snapshot

-- What bincode documents: reading back what was written gives the value, and a hash map that is
-- read has each key once.
pub record IsCodec (codec : Codec) : Type 0 where
  pub round_trip :
      (s : Snapshot) (b : Bytes) → codec.serialize s ≡ some b → codec.deserialize b ≡ some s
  pub reads_map : (b : Bytes) (s : Snapshot) → codec.deserialize b ≡ some s → IsMap s.inner

abbrev pub FilePath : Type 0
FilePath = Bytes

-- A file can be there and still not be readable.
pub data File : Type 0 where
  contents : Bytes → File
  unreadable : File

abbrev pub Disk : Type 0
Disk = HashMap FilePath File

pub record Persistence : Type 0 where
  pub path : FilePath
  pub dirty : Bool
  pub last_flush : ℕ

pub record RelayStore : Type 0 where
  pub inner : Inner
  pub limits : StoreLimits
  pub persistence : Option Persistence

pub data IoError : Type 0 where
  corrupt bad_version read_failed serialize_failed write_failed rename_failed : IoError

unfoldable pub with_limits : StoreLimits → RelayStore
with_limits limits = record { inner = empty_inner; limits = limits; persistence = none }

-- The outcome of `fs::write` and `fs::rename`; a failed write may leave anything in the file.
pub record FlushOutcome : Type 0 where
  pub written : Bool
  pub left_behind : Bytes
  pub renamed : Bool

unfoldable pub mark_dirty : Option Persistence → Option Persistence
mark_dirty none = none
mark_dirty (some p) = some (record p { dirty = true })

-- `if changed { self.mark_dirty(); }` after the state has been replaced.
unfoldable pub updated : RelayStore → Inner → Bool → RelayStore
unfolding mark_dirty
updated st inner changed = record st {
  inner = inner;
  persistence = if changed then mark_dirty st.persistence else st.persistence;
}

-- `now.checked_sub(2 s).unwrap_or_else(Instant::now)`.
abbrev pub two_seconds_ago : ℕ → ℕ
two_seconds_ago now =
    let back = (flush_interval_secs + 1) * nanos_per_sec in if ltb now back then now else now - back

abbrev pub force : ℕ → Option Persistence → Option Persistence
force now none = none
force now (some p) = some (record p { dirty = true; last_flush = two_seconds_ago now })

module _ (codec : Codec) where
  check_version : Snapshot → Result IoError Inner
  check_version snapshot =
      if snapshot.version == snapshot_version then ok snapshot.inner else err bad_version

  parse : Option Snapshot → Result IoError Inner
  unfolding check_version
  parse none = err corrupt
  parse (some snapshot) = check_version snapshot

  load_file : Option File → Result IoError Inner
  unfolding parse
  load_file none = ok empty_inner
  load_file (some unreadable) = err read_failed
  load_file (some (contents b)) = parse (codec.deserialize b)

  -- The `match std::fs::read(&path)` of `open`.
  unfoldable pub load : Disk → FilePath → Result IoError Inner
  unfolding load_file
  load disk path = load_file (HashMap.get Bytes_discrete disk path)

  module _ (laws : IsCodec codec) where
    parse-IsMap :
        (b : Bytes) (o : Option Snapshot) (i : Inner)
        → codec.deserialize b ≡ o
        → parse o ≡ ok i
        → IsMap i
    unfolding parse
    parse-IsMap b none i e h = cc
    parse-IsMap b (some snapshot) i e h =
        let same : snapshot.inner ≡ i = ground arith in
        subst IsMap same (laws.reads_map b snapshot e)

    load_file-IsMap : (o : Option File) (i : Inner) → load_file o ≡ ok i → IsMap i
    unfolding load_file
    load_file-IsMap none i h =
        let same : empty_inner ≡ i = cc in subst IsMap same (record { distinct = tt })
    load_file-IsMap (some unreadable) i h = cc
    load_file-IsMap (some (contents b)) i h = parse-IsMap b (codec.deserialize b) i refl h

    -- Whatever is loaded has each key once.
    pub load-IsMap : (disk : Disk) (path : FilePath) (i : Inner) → load disk path ≡ ok i → IsMap i
    unfolding load
    load-IsMap disk path i h = load_file-IsMap (HashMap.get Bytes_discrete disk path) i h

  unfoldable pub open_store : Disk → FilePath → StoreLimits → ℕ → Result IoError RelayStore
  unfolding load
  open_store disk path limits now = do
    inner ← load disk path
    ok (record {
      inner = inner;
      limits = limits;
      persistence = some (record { path = path; dirty = false; last_flush = now });
    })

  -- `path.with_extension("tmp")`.
  module _ (with_tmp : FilePath → FilePath) where
    abbrev pub write_snapshot :
        ℕ
        → FlushOutcome
        → RelayStore
        → Persistence
        → Disk
        → Option Bytes
        → Result IoError Unit × RelayStore × Disk
    write_snapshot now out st p disk none = (err serialize_failed, st, disk)
    write_snapshot now out st p disk (some b) =
        let tmp = with_tmp p.path in
        if out.written
        then (if out.renamed
            then (
              ok tt,
              record st { persistence = some (record p { dirty = false; last_flush = now }) },
              HashMap.insert Bytes_discrete (HashMap.remove Bytes_discrete disk tmp) p.path
                  (contents b),
            )
            else (err rename_failed, st, HashMap.insert Bytes_discrete disk tmp (contents b)))
        else (
          err write_failed,
          st,
          HashMap.insert Bytes_discrete disk tmp (contents out.left_behind),
        )

    unfoldable pub flush_persistence :
        ℕ
        → FlushOutcome
        → RelayStore
        → Disk
        → Option Persistence
        → Result IoError Unit × RelayStore × Disk
    flush_persistence now out st disk none = (ok tt, st, disk)
    flush_persistence now out st disk (some p) =
        if not p.dirty || ltb ((now - p.last_flush) / nanos_per_sec) flush_interval_secs
        then (ok tt, st, disk)
        else write_snapshot now out st p disk
            (codec.serialize (record { version = snapshot_version; inner = st.inner }))

    unfoldable pub maybe_flush :
        ℕ → FlushOutcome → RelayStore → Disk → Result IoError Unit × RelayStore × Disk
    unfolding flush_persistence
    maybe_flush now out st disk = flush_persistence now out st disk st.persistence

    unfoldable pub flush :
        ℕ → FlushOutcome → RelayStore → Disk → Result IoError Unit × RelayStore × Disk
    unfolding maybe_flush
    flush now out st disk =
        maybe_flush now out (record st { persistence = force now st.persistence }) disk

-- The public methods of the store, each with its `mark_dirty`.
unfoldable pub publish : RelayStore → PreKeyBundle → List (ℕ × Bytes) → RelayStore
unfolding updated
publish st bundle one_time = updated st (Defs.publish st.inner bundle one_time) true

unfoldable pub fetch_bundle : RelayStore → Bytes → RelayStore × Option PreKeyBundle
unfolding updated
fetch_bundle st identity =
    let (inner, bundle, consumed) = Defs.fetch_bundle st.inner identity in
    (updated st inner consumed, bundle)

unfoldable pub enqueue : RelayStore → Bytes → Bytes → ℕ → Result StoreError RelayStore
unfolding updated
enqueue st recipient message now = do
  inner ← Defs.enqueue_at st.limits st.inner recipient message now
  ok (updated st inner true)

unfoldable pub poll : RelayStore → Bytes → ℕ → RelayStore × List Bytes
unfolding updated
poll st recipient now =
    let (inner, messages, found) = Defs.poll_at st.limits st.inner recipient now in
    (updated st inner found, messages)

unfoldable pub sweep_expired : RelayStore → ℕ → RelayStore × ℕ
unfolding updated
sweep_expired st now =
    let (inner, removed) = Defs.sweep_expired_at st.limits st.inner now in
    (updated st inner (ltb 0 removed), removed)
