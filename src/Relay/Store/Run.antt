-- ===== src/Relay/Store/Run.antt =====
-- Sequences of calls on the store of relay/src/store.rs: its bounds hold after any history, and
-- mail that fits the limits is delivered whole and in order.
use pigeonhole_clarity_messe.Prelude.{
  ℕ, ◌+◌, ◌∙◌, if_pos, length-retain-le, ◌-◌, ◌≤◌, ◌≡◌, refl, sym, List, [], ◌∷◌, ◌++◌, map, length,
  length-append, retain, All, arith, append_assoc, append-nil,
}
use pigeonhole_clarity_messe.Prelude.Bytes.{Bytes, Bytes_discrete as dec}
use pigeonhole_clarity_messe.Prelude.HashMap
use pigeonhole_clarity_messe.Prelude.HashMap.{insert-Distinct, remove-Distinct}
use pigeonhole_clarity_messe.Prelude.Result.{Result, ok, err, ◌>>=◌}
use pigeonhole_clarity_messe.Core.Wire.{PreKeyBundle}
use pigeonhole_clarity_messe.Relay.Store.Defs.{
  StoreLimits, QueuedMessage, Inner, StoreError, empty_inner, mailbox, enqueued, enqueue_at,
  publish, fetch_bundle, unexpired, payloads, poll_at, sweep_expired_at, total_bytes,
}
use pigeonhole_clarity_messe.Relay.Store.Queue.{Fits, longest_fit-Fits, longest_fit-fitting}
use pigeonhole_clarity_messe.Relay.Store.Mailbox.{
  WithinLimits, IsMap, stamped, mailbox-enqueued, poll_at-unexpired, mailbox-sweep,
  sweep_queues-Distinct,
}

-- A call with the unix time at which it is served.
pub data Call : Type 0 where
  publishes : PreKeyBundle → List (ℕ × Bytes) → Call
  fetches : Bytes → Call
  enqueues : Bytes → Bytes → ℕ → Call
  polls : Bytes → ℕ → Call
  sweeps : ℕ → Call

-- A refused message leaves the store as it was.
abbrev pub after : Inner → Result StoreError Inner → Inner
after s (ok s') = s'
after s (err e) = s

unfoldable pub step : StoreLimits → Inner → Call → Inner
step limits s (publishes bundle one_time) = publish s bundle one_time
step limits s (fetches identity) = (fetch_bundle s identity).0
step limits s (enqueues r message now) = after s (enqueue_at limits s r message now)
step limits s (polls r now) = (poll_at limits s r now).0
step limits s (sweeps now) = (sweep_expired_at limits s now).0

unfoldable pub run : StoreLimits → Inner → List Call → Inner
unfolding step
run limits s [] = s
run limits s (c ∷ cs) = run limits (step limits s c) cs

pub record IsValid (limits : StoreLimits) (s : Inner) : Type 0 where
  pub within : WithinLimits limits s
  pub map : IsMap s

module _ (limits : StoreLimits) where
  total_bytes-retain-le :
      (now : ℕ) (q : List QueuedMessage)
      → total_bytes (retain (unexpired limits now) q) ≤ total_bytes q
  unfolding retain
  total_bytes-retain-le now [] = omega arith
  total_bytes-retain-le now (m ∷ q) = ground (arith, total_bytes-retain-le now q)

  retain-Fits :
      (now : ℕ) (q : List QueuedMessage)
      → Fits limits q
      → Fits limits (retain (unexpired limits now) q)
  retain-Fits now q h = record {
    count = omega (arith, h.count, length-retain-le (unexpired limits now) q);
    size = omega (arith, h.size, total_bytes-retain-le now q);
  }

  step-WithinLimits :
      (s : Inner) (c : Call)
      → IsMap s
      → WithinLimits limits s
      → WithinLimits limits (step limits s c)
  unfolding step publish fetch_bundle enqueue_at mailbox
  step-WithinLimits s (publishes bundle one_time) m h = record { at = h.at }
  step-WithinLimits s (fetches identity) m h = record { at = λ r. ground (arith, h.at r) }
  step-WithinLimits s (enqueues r message now) m h = record {
    at = λ j. ground (
      arith,
      h.at j,
      mailbox-enqueued limits s r message now j,
      longest_fit-Fits limits (mailbox s r ++ stamped (now, message) ∷ []),
    );
  }
  step-WithinLimits s (polls r now) m h = record {
    at = λ j. ground (arith, h.at j, (poll_at-unexpired limits s r now j).1);
  }
  step-WithinLimits s (sweeps now) m h = record {
    at = λ j. rw (mailbox-sweep limits s m now j) (retain-Fits now (mailbox s j) (h.at j));
  }

  pub enqueued-IsMap :
      (s : Inner) (r message : Bytes) (now : ℕ) → IsMap s → IsMap (enqueued limits s r message now)
  unfolding enqueued
  enqueued-IsMap s r message now m = record {
    distinct = insert-Distinct dec s.queues r _ m.distinct;
  }

  pub step-IsMap : (s : Inner) (c : Call) → IsMap s → IsMap (step limits s c)
  unfolding step publish fetch_bundle enqueue_at poll_at sweep_expired_at
  step-IsMap s (publishes bundle one_time) m = record { distinct = m.distinct }
  step-IsMap s (fetches identity) m = record { distinct = ground (arith, m.distinct) }
  step-IsMap s (enqueues r message now) m = record {
    distinct = ground (arith, m.distinct, (enqueued-IsMap s r message now m).distinct);
  }
  step-IsMap s (polls r now) m = record {
    distinct = ground (arith, m.distinct, remove-Distinct dec s.queues r);
  }
  step-IsMap s (sweeps now) m = record {
    distinct = sweep_queues-Distinct (unexpired limits now) s.queues m.distinct;
  }

  step-IsValid : (s : Inner) (c : Call) → IsValid limits s → IsValid limits (step limits s c)
  step-IsValid s c v = record {
    within = step-WithinLimits s c v.map v.within;
    map = step-IsMap s c v.map;
  }

  pub run-IsValid :
      (s : Inner) (cs : List Call) → IsValid limits s → IsValid limits (run limits s cs)
  unfolding run
  run-IsValid s [] v = v
  run-IsValid s (c ∷ cs) v = run-IsValid (step limits s c) cs (step-IsValid s c v)

  pub IsValid-empty : IsValid limits empty_inner
  unfolding mailbox HashMap.get
  IsValid-empty = record {
    within = record { at = λ r. omega arith };
    map = record { distinct = tt };
  }

  -- Whatever calls a fresh store has served, refused ones included, every mailbox is within the
  -- limits on its count and on its bytes.
  pub run-WithinLimits :
      (cs : List Call) (r : Bytes) → Fits limits (mailbox (run limits empty_inner cs) r)
  run-WithinLimits cs r = (run-IsValid empty_inner cs IsValid-empty).within.at r

-- Messages sent one after another to one recipient, each with its arrival time.
unfoldable pub enqueue_all :
    StoreLimits → Inner → Bytes → List (ℕ × Bytes) → Result StoreError Inner
enqueue_all limits s r [] = ok s
enqueue_all limits s r ((now, message) ∷ rest) = do
  s' ← enqueue_at limits s r message now
  enqueue_all limits s' r rest

module _ (limits : StoreLimits) (r : Bytes) where
  total_bytes-append :
      (q p : List QueuedMessage) → total_bytes (q ++ p) ≡ total_bytes q + total_bytes p
  total_bytes-append [] p = omega arith
  total_bytes-append (m ∷ q) p = omega (arith, total_bytes-append q p)

  Fits-prefix : (q p : List QueuedMessage) → Fits limits (q ++ p) → Fits limits q
  Fits-prefix q p h = record {
    count = omega (arith, h.count, length-append q p);
    size = omega (arith, h.size, total_bytes-append q p);
  }

  mailbox-enqueue_fitting :
      (s : Inner) (message : Bytes) (now : ℕ)
      → Fits limits (mailbox s r ++ stamped (now, message) ∷ [])
      → mailbox (enqueued limits s r message now) r ≡ mailbox s r ++ stamped (now, message) ∷ []
  mailbox-enqueue_fitting s message now h =
      mailbox-enqueued limits s r message now r
      ∙ if_pos (dec r r) refl _ _
      ∙ longest_fit-fitting limits (mailbox s r ++ stamped (now, message) ∷ []) h

  enqueue_all-appends :
      (msgs : List (ℕ × Bytes)) (s : Inner)
      → Fits limits (mailbox s r ++ map stamped msgs)
      → All (λ e. length e.1 ≤ limits.max_message_bytes) msgs
      → (s' : Inner) × (enqueue_all limits s r msgs ≡ ok s')
        × (mailbox s' r ≡ mailbox s r ++ map stamped msgs)
  unfolding enqueue_all enqueue_at
  enqueue_all-appends [] s h k = (s, refl, sym (append-nil (mailbox s r)))
  enqueue_all-appends ((now, message) ∷ rest) s h k =
      let q' : mailbox (enqueued limits s r message now) r
          ≡ mailbox s r ++ stamped (now, message) ∷ [] =
        mailbox-enqueue_fitting s message now
          (Fits-prefix _ (map stamped rest) (rw append_assoc h)) in
      let (s', run, box) =
        enqueue_all-appends rest (enqueued limits s r message now) (rw (q', append_assoc) h) k.1 in
      (s', ground arith, box ∙ (rw (q', append_assoc) refl))

  payloads-unexpired :
      (later : ℕ) (msgs : List (ℕ × Bytes))
      → All (λ e. later - limits.mail_ttl_secs ≤ e.0) msgs
      → payloads (retain (unexpired limits later) (map stamped msgs)) ≡ map (λ e. e.1) msgs
  unfolding retain
  payloads-unexpired later [] k = refl
  payloads-unexpired later (e ∷ msgs) k = ground (arith, payloads-unexpired later msgs k.1)

  -- Messages sent to an empty mailbox that together fit its limits, each within the size limit and
  -- none expired at the time of the poll, are all accepted, and the poll returns exactly them, in
  -- the order in which they were sent.
  pub poll_at-enqueue_all :
      (s : Inner) (msgs : List (ℕ × Bytes)) (later : ℕ)
      → mailbox s r ≡ []
      → Fits limits (map stamped msgs)
      → All (λ e. length e.1 ≤ limits.max_message_bytes) msgs
      → All (λ e. later - limits.mail_ttl_secs ≤ e.0) msgs
      → (s' : Inner) × (enqueue_all limits s r msgs ≡ ok s')
        × ((poll_at limits s' r later).1 ≡ map (λ e. e.1) msgs)
  poll_at-enqueue_all s msgs later empty h k fresh =
      let (s', run, box) = enqueue_all-appends msgs s (rw empty h) k in
      (
        s',
        run,
        (poll_at-unexpired limits s' r later r).0
            ∙ (rw (box, empty) (payloads-unexpired later msgs fresh)),
      )
