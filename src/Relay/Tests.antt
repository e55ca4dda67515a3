-- ===== src/Relay/Tests.antt =====
-- The theorems on the relay's store at concrete stores, with a snapshot codec for stores that hold
-- at most one message and no keys.
use pigeonhole_clarity_messe.Prelude.{
  ℕ, leb, map, ◌+◌, ◌≡◌, ◌≢◌, ◌⊎◌, refl, ap, subst, true, false, ite, if◌then◌else◌, ◌==◌,
  Bool-cases, inl, inr, Option, none, some, List, [], ◌∷◌, ◌++◌, length, take, drop, take-append,
  drop-append, arith, ==_iff,
}
use pigeonhole_clarity_messe.Prelude.Bytes.{Bytes, Bytes_discrete as dec}
use pigeonhole_clarity_messe.Prelude.HashMap
use pigeonhole_clarity_messe.Prelude.HashMap.{HashMap}
use pigeonhole_clarity_messe.Prelude.Result.{ok}
use pigeonhole_clarity_messe.Core.Wire.{PreKeyBundle}
use pigeonhole_clarity_messe.Relay.Store.Defs
use pigeonhole_clarity_messe.Relay.Store.Defs.{
  StoreLimits, StoredKeys, QueuedMessage, Inner, empty_inner, mailbox, enqueue_at, poll_at,
  sweep_expired_at, payloads, unexpired, push_capped, one_time_remaining, with_one_time,
}
use pigeonhole_clarity_messe.Prelude.{retain}
use pigeonhole_clarity_messe.Relay.Store.Queue.{Fits, longest_fit, push_capped-eq-longest_fit}
use pigeonhole_clarity_messe.Relay.Store.Mailbox.{
  IsMap, stamped, total_messages, enqueue_at-accepts, poll_at-drains, poll_at-sweep,
}
use pigeonhole_clarity_messe.Relay.Store.Run
use pigeonhole_clarity_messe.Relay.Store.Run.{run-WithinLimits, enqueue_all, poll_at-enqueue_all}
use pigeonhole_clarity_messe.Relay.Store.Directory.{fetch_times, fetch_times-publish}
use pigeonhole_clarity_messe.Relay.Store.Persistence.{
  Snapshot, Codec, IsCodec, FilePath, contents, Disk, Persistence, RelayStore, FlushOutcome, load,
  open_store, maybe_flush, flush, flush_persistence, force, updated, mark_dirty,
}
use pigeonhole_clarity_messe.Relay.Store.Persistence as File
use pigeonhole_clarity_messe.Relay.Store.Recovery.{SameView}
use pigeonhole_clarity_messe.Relay.Store.Reopen.{maybe_flush-atomic}
use pigeonhole_clarity_messe.Relay.RateLimiter.{RateLimiter, admitted, admitted-eq-min}
use pigeonhole_clarity_messe.Relay.Store.Restart
use pigeonhole_clarity_messe.Relay.Store.Restart.{open_store-run, open_store-flush}

abbrev limits : StoreLimits
limits = record {
  mail_ttl_secs = 100;
  max_message_bytes = 8;
  max_mailbox_messages = 2;
  max_mailbox_bytes = 10;
}

abbrev who : Bytes
who = 1 ∷ []

abbrev old_message : QueuedMessage
old_message = record { enqueued_at = 5; bytes = 1 ∷ 2 ∷ [] }

abbrev one_mail : Inner
one_mail = record { keys = []; queues = (who, old_message ∷ []) ∷ [] }

one_mail-IsMap : IsMap one_mail
unfolding HashMap.get
one_mail-IsMap = record { distinct = (refl, tt) }

push_capped-eq-longest_fit_example :
    push_capped limits (old_message ∷ old_message ∷ []) (record { enqueued_at = 9; bytes = 3 ∷ [] })
    ≡ longest_fit limits
        (old_message ∷ old_message ∷ record { enqueued_at = 9; bytes = 3 ∷ [] } ∷ [])
push_capped-eq-longest_fit_example =
    push_capped-eq-longest_fit limits (old_message ∷ old_message ∷ [])
      (record { enqueued_at = 9; bytes = 3 ∷ [] })

enqueue_at-accepts_example :
    (s' : Inner) × (enqueue_at limits one_mail who (3 ∷ []) 9 ≡ ok s')
    × (mailbox s' who
        ≡ ite
            (dec who who)
            (longest_fit limits (mailbox one_mail who ++ stamped (9, 3 ∷ []) ∷ []))
            (mailbox one_mail who))
enqueue_at-accepts_example = enqueue_at-accepts limits one_mail who (3 ∷ []) 9 who (omega arith)

poll_at-drains_example :
    ((poll_at limits one_mail who 50).1
      ≡ map
          (λ (m : QueuedMessage). m.bytes)
          (retain (λ m. leb 50 (m.enqueued_at + 100)) (mailbox one_mail who)))
    × (mailbox (poll_at limits one_mail who 50).0 who ≡ ite (dec who who) [] (mailbox one_mail who))
poll_at-drains_example = poll_at-drains limits one_mail who 50 who

poll_at-sweep_example :
    ((poll_at limits (sweep_expired_at limits one_mail 50).0 who 60).1
      ≡ (poll_at limits one_mail who 60).1)
    × (total_messages (sweep_expired_at limits one_mail 50).0.queues
          + (sweep_expired_at limits one_mail 50).1
        ≡ total_messages one_mail.queues)
poll_at-sweep_example = poll_at-sweep limits one_mail one_mail-IsMap 50 60 who (omega arith)

run-WithinLimits_example : Fits limits (
    mailbox
      (Run.run limits empty_inner (
        Run.enqueues who (3 ∷ []) 1
        ∷ Run.enqueues who (4 ∷ []) 2
        ∷ Run.enqueues who (5 ∷ []) 3
        ∷ []))
      who)
run-WithinLimits_example =
    run-WithinLimits limits
      (Run.enqueues who (3 ∷ []) 1 ∷ Run.enqueues who (4 ∷ []) 2 ∷ Run.enqueues who (5 ∷ []) 3 ∷ [])
      who

poll_at-enqueue_all_example :
    (s' : Inner) × (enqueue_all limits empty_inner who ((1, 3 ∷ []) ∷ (2, 4 ∷ []) ∷ []) ≡ ok s')
    × ((poll_at limits s' who 50).1 ≡ (3 ∷ []) ∷ (4 ∷ []) ∷ [])
unfolding mailbox HashMap.get
poll_at-enqueue_all_example =
    poll_at-enqueue_all limits who empty_inner ((1, 3 ∷ []) ∷ (2, 4 ∷ []) ∷ []) 50 refl
      (record { count = omega arith; size = omega arith }) (omega arith, (omega arith, tt))
      (omega arith, (omega arith, tt))

abbrev some_bundle : PreKeyBundle
some_bundle = record {
  identity_ed = who;
  identity_dh = [];
  identity_dh_sig = [];
  signed_prekey = [];
  signed_prekey_id = 0;
  signed_prekey_sig = [];
  kyber_prekey = [];
  kyber_prekey_id = 0;
  kyber_prekey_sig = [];
  one_time_prekey = none;
  one_time_prekey_id = none;
}

fetch_times-publish_example :
    ((fetch_times 2 (Defs.publish empty_inner some_bundle ((0, 7 ∷ []) ∷ [])) who).1
      ≡ some (record some_bundle { one_time_prekey = some (7 ∷ []); one_time_prekey_id = some 0 })
        ∷ some (record some_bundle { one_time_prekey = none; one_time_prekey_id = none })
        ∷ [])
    × (one_time_remaining
          (fetch_times 2 (Defs.publish empty_inner some_bundle ((0, 7 ∷ []) ∷ [])) who).0
          who
        ≡ 0)
fetch_times-publish_example = fetch_times-publish empty_inner some_bundle ((0, 7 ∷ []) ∷ []) 2

-- A message of a mailbox: the length of the recipient, the time, the recipient, the message.
encode_queues : HashMap Bytes StoredKeys → HashMap Bytes (List QueuedMessage) → Option Bytes
encode_queues [] [] = some []
encode_queues [] ((r, []) ∷ rest) = none
encode_queues [] ((r, m ∷ []) ∷ []) = some (length r ∷ m.enqueued_at ∷ r ++ m.bytes)
encode_queues [] ((r, m ∷ []) ∷ q ∷ rest) = none
encode_queues [] ((r, m ∷ m' ∷ queue) ∷ rest) = none
encode_queues (k ∷ keys) queues = none

decode_queues : Bytes → Option Snapshot
decode_queues [] = some (record { version = 1; inner = empty_inner })
decode_queues (n ∷ []) = none
decode_queues (n ∷ time ∷ bytes) = some (record {
  version = 1;
  inner = record {
    keys = [];
    queues = (take n bytes, record { enqueued_at = time; bytes = drop n bytes } ∷ []) ∷ [];
  };
})

abbrev codec : Codec
codec = record {
  serialize = λ s. if s.version == 1 then encode_queues s.inner.keys s.inner.queues else none;
  deserialize = decode_queues;
}

decode-encode :
    (keys : HashMap Bytes StoredKeys) (queues : HashMap Bytes (List QueuedMessage)) (b : Bytes)
    → encode_queues keys queues ≡ some b
    → decode_queues b
      ≡ some (record { version = 1; inner = record { keys = keys; queues = queues } })
unfolding encode_queues decode_queues
decode-encode [] [] b e = let same : [] ≡ b = ground (arith, e) in rw (← same) refl
decode-encode [] ((r, []) ∷ rest) b e = cc
decode-encode [] ((r, m ∷ []) ∷ []) b e =
    let same : length r ∷ m.enqueued_at ∷ r ++ m.bytes ≡ b = ground (arith, e) in
    rw (← same, take-append (length r) r m.bytes refl, drop-append (length r) r m.bytes refl) refl
decode-encode [] ((r, m ∷ []) ∷ q ∷ rest) b e = cc
decode-encode [] ((r, m ∷ m' ∷ queue) ∷ rest) b e = cc
decode-encode (k ∷ keys) queues b e = cc

decode-IsMap : (b : Bytes) (s : Snapshot) → decode_queues b ≡ some s → IsMap s.inner
unfolding decode_queues HashMap.get
decode-IsMap [] s e =
    let same : record { version = 1; inner = empty_inner } ≡ s = ground (arith, e) in
    subst (λ (t : Snapshot). IsMap t.inner) same (record { distinct = tt })
decode-IsMap (n ∷ []) s e = cc
decode-IsMap (n ∷ time ∷ bytes) s e =
    let i : Inner = record {
      keys = [];
      queues = (take n bytes, record { enqueued_at = time; bytes = drop n bytes } ∷ []) ∷ [];
    } in
    let same : record { version = 1; inner = i } ≡ s = ground (arith, e) in
    subst (λ (t : Snapshot). IsMap t.inner) same (record { distinct = (refl, tt) })

codec-IsCodec : IsCodec codec
codec-IsCodec = record {
  round_trip = λ s b e. elim (Bool-cases (s.version == 1)) [
    | inl v ↦
        let version : s.version ≡ 1 = (==_iff s.version 1).0 v in
        rw version (decode-encode s.inner.keys s.inner.queues b (ground (arith, e)))
    | inr v ↦ absurd (ground (arith, e))
  ];
  reads_map = decode-IsMap;
}

-- `with_extension("tmp")` on a file name with one dot, inside it: what follows is replaced.
abbrev with_tmp : FilePath → FilePath
with_tmp [] = []
with_tmp (x ∷ p) = let rest = with_tmp p in if x == 46 then 46 ∷ 116 ∷ 109 ∷ 112 ∷ [] else x ∷ rest

-- "r.bin".
abbrev path : FilePath
path = 114 ∷ 46 ∷ 98 ∷ 105 ∷ 110 ∷ []

with_tmp-ne : with_tmp path ≢ path
with_tmp-ne e =
    let at_2 : ◌≡◌ {A = ℕ} 116 98 = ap (λ (b : Bytes). elim (drop 2 b) [ [] ↦ 0 | x ∷ _ ↦ x ]) e in
    absurd (omega arith)

abbrev success : FlushOutcome
success = record { written = true; left_behind = []; renamed = true }

abbrev failure : FlushOutcome
failure = record { written = false; left_behind = 3 ∷ []; renamed = false }

abbrev dirty_state : Persistence
dirty_state = record { path = path; dirty = true; last_flush = 0 }

abbrev dirty_store : RelayStore
dirty_store = record { inner = one_mail; limits = limits; persistence = some dirty_state }

maybe_flush-atomic_example :
    (load codec (maybe_flush codec with_tmp 5_000_000_000 failure dirty_store []).2 path
      ≡ load codec [] path)
    ⊎ (load codec (maybe_flush codec with_tmp 5_000_000_000 failure dirty_store []).2 path
        ≡ ok one_mail)
maybe_flush-atomic_example =
    maybe_flush-atomic codec codec-IsCodec with_tmp 5_000_000_000 failure dirty_store dirty_state []
      with_tmp-ne refl

open_store-flush_example :
    open_store codec (flush codec with_tmp 5_000_000_000 success dirty_store []).2 path limits 7
    ≡ ok (record {
      inner = one_mail;
      limits = limits;
      persistence = some (record { path = path; dirty = false; last_flush = 7 });
    })
unfolding flush maybe_flush flush_persistence encode_queues push_capped
open_store-flush_example =
    open_store-flush codec with_tmp codec-IsCodec 5_000_000_000 success dirty_store [] dirty_state
      limits 7 with_tmp-ne refl (omega arith) refl

abbrev opened : RelayStore
opened = record {
  inner = empty_inner;
  limits = limits;
  persistence = some (record { path = path; dirty = false; last_flush = 0 });
}

abbrev history : List Restart.Event
history = Restart.enqueues who (1 ∷ 2 ∷ []) 5 ∷ Restart.maybe_flushes 3_000_000_000 success ∷ []

abbrev flushed : Persistence
flushed = record { path = path; dirty = false; last_flush = 3_000_000_000 }

open_store-run_example :
    (i : Inner) × (load codec (Restart.run codec with_tmp (opened, []) history).1 path ≡ ok i)
    × SameView i (Restart.run codec with_tmp (opened, []) history).0.inner
unfolding Restart.run open_store load HashMap.get HashMap.insert HashMap.remove Defs.enqueue_at
    File.enqueue maybe_flush flush_persistence encode_queues push_capped
open_store-run_example =
    open_store-run codec with_tmp codec-IsCodec [] path limits 0 opened history flushed with_tmp-ne
      refl refl refl

abbrev limiter : RateLimiter
limiter = record { limit = 2; windows = [] }

admitted-eq-min_example :
    admitted limiter who ((61, who) ∷ (61, 2 ∷ []) ∷ (75, who) ∷ (119, who) ∷ []) ≡ 2
unfolding dec
admitted-eq-min_example =
    admitted-eq-min limiter 1 who ((61, who) ∷ (61, 2 ∷ []) ∷ (75, who) ∷ (119, who) ∷ [])
      (
        omega arith,
        omega arith,
        (omega arith, omega arith, (omega arith, omega arith, (omega arith, omega arith, tt))),
      )
      (unfold HashMap.get in refl) (omega arith)
