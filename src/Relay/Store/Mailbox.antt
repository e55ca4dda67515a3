-- ===== src/Relay/Store/Mailbox.antt =====
-- What clients see of the mailboxes of relay/src/store.rs: `enqueue_at`, `poll_at` and
-- `sweep_expired_at` through the list of messages that each recipient has queued.
use pigeonhole_clarity_messe.Prelude.{
  ℕ, ◌+◌, ◌≤◌, ◌≡◌, refl, ap, ◌∙◌, leb, map, ite, Bool, List, [], ◌∷◌, ◌++◌, length, retain,
  length-retain-le, ◌≢◌, arith, none,
}
use pigeonhole_clarity_messe.Prelude.Bytes.{Bytes, Bytes_discrete as dec}
use pigeonhole_clarity_messe.Prelude.HashMap
use pigeonhole_clarity_messe.Prelude.HashMap.{HashMap, Distinct, get-insert, get-remove}
use pigeonhole_clarity_messe.Prelude.Result.{ok}
use pigeonhole_clarity_messe.Relay.Store.Defs.{
  StoreLimits, QueuedMessage, Inner, mailbox, enqueued, enqueue_at, unexpired, payloads, poll_at,
  keep_mailbox, sweep_queues, sweep_expired_at, or_default,
}
use pigeonhole_clarity_messe.Relay.Store.Queue.{Fits, longest_fit, push_capped-eq-longest_fit}

-- The stamped form in which `enqueue_at` queues a message.
abbrev pub stamped : ℕ × Bytes → QueuedMessage
stamped e = record { enqueued_at = e.0; bytes = e.1 }

module _ (limits : StoreLimits) (s : Inner) (r : Bytes) where
  -- The cutoff that stops at 0 and the end of a message's life decide alike.
  retain-alive :
      (now : ℕ) (q : List QueuedMessage)
      → retain (unexpired limits now) q
        ≡ retain (λ m. leb now (m.enqueued_at + limits.mail_ttl_secs)) q
  unfolding retain
  retain-alive now [] = refl
  retain-alive now (m ∷ q) = ground (arith, retain-alive now q)

  pub mailbox-enqueued :
      (message : Bytes) (now : ℕ) (j : Bytes)
      → mailbox (enqueued limits s r message now) j
        ≡ ite
            (dec r j)
            (longest_fit limits (mailbox s r ++ stamped (now, message) ∷ []))
            (mailbox s j)
  unfolding enqueued mailbox
  mailbox-enqueued message now j =
      rw (get-insert dec s.queues r j, push_capped-eq-longest_fit) (ground arith)

  -- A message within the size limit is accepted: the recipient's mailbox becomes the longest suffix
  -- of the old queue and the new message that fits the limits of a mailbox, and every other mailbox
  -- stays as it was.
  pub enqueue_at-accepts :
      (message : Bytes) (now : ℕ) (j : Bytes)
      → length message ≤ limits.max_message_bytes
      → (s' : Inner) × (enqueue_at limits s r message now ≡ ok s')
        × (mailbox s' j
            ≡ ite
                (dec r j)
                (longest_fit limits (mailbox s r ++ stamped (now, message) ∷ []))
                (mailbox s j))
  unfolding enqueue_at
  enqueue_at-accepts message now j h =
      (enqueued limits s r message now, ground arith, mailbox-enqueued message now j)

  pub poll_at-unexpired :
      (now : ℕ) (j : Bytes)
      → ((poll_at limits s r now).1 ≡ payloads (retain (unexpired limits now) (mailbox s r)))
        × (mailbox (poll_at limits s r now).0 j ≡ ite (dec r j) [] (mailbox s j))
  unfolding poll_at mailbox retain
  poll_at-unexpired now j = ground (arith, get-remove dec s.queues r j)

  -- `poll_at` returns, in queue order, the payloads of the recipient's messages whose time to live,
  -- counted from when they were enqueued, has not passed before `now`, and empties that mailbox,
  -- expired messages included; every other mailbox stays as it was.
  pub poll_at-drains :
      (now : ℕ) (j : Bytes)
      → ((poll_at limits s r now).1
          ≡ map
              (λ (m : QueuedMessage). m.bytes)
              (retain (λ m. leb now (m.enqueued_at + limits.mail_ttl_secs)) (mailbox s r)))
        × (mailbox (poll_at limits s r now).0 j ≡ ite (dec r j) [] (mailbox s j))
  poll_at-drains now j =
      let (polled, emptied) = poll_at-unexpired now j in
      (polled ∙ ap payloads (retain-alive now (mailbox s r)), emptied)

-- Every mailbox is within the limits.
pub record WithinLimits (limits : StoreLimits) (s : Inner) : Type 0 where
  pub at : (r : Bytes) → Fits limits (mailbox s r)

-- The queues are a hash map: each recipient has one.
pub record IsMap (s : Inner) : Type 0 where
  pub distinct : Distinct dec s.queues

module _ (limits : StoreLimits) (now later : ℕ) (h : now ≤ later) where
  -- What is fresh later is fresh now.
  retain-retain :
      (q : List QueuedMessage)
      → retain (unexpired limits later) (retain (unexpired limits now) q)
        ≡ retain (unexpired limits later) q
  unfolding retain
  retain-retain [] = refl
  retain-retain (m ∷ q) = ground (arith, retain-retain q)

-- A swept mailbox is dropped when nothing is left of it.
get-keep_mailbox :
    (j r : Bytes) (kept : List QueuedMessage) (rest : HashMap Bytes (List QueuedMessage))
    → HashMap.get dec rest j ≡ none
    → or_default (HashMap.get dec (keep_mailbox j kept rest) r)
      ≡ ite (dec j r) kept (or_default (HashMap.get dec rest r))
unfolding HashMap.get
get-keep_mailbox j r [] rest e = ground arith
get-keep_mailbox j r (m ∷ q) rest e = ground arith

get-keep_mailbox-none :
    (j r : Bytes) (kept : List QueuedMessage) (rest : HashMap Bytes (List QueuedMessage))
    → j ≢ r
    → HashMap.get dec rest r ≡ none
    → HashMap.get dec (keep_mailbox j kept rest) r ≡ none
unfolding HashMap.get
get-keep_mailbox-none j r [] rest ne e = e
get-keep_mailbox-none j r (m ∷ q) rest ne e = ground arith

abbrev pub total_messages : HashMap Bytes (List QueuedMessage) → ℕ
total_messages [] = 0
total_messages ((r, q) ∷ m) = length q + total_messages m

module _ (fresh : QueuedMessage → Bool) where
  get-sweep_queues-none :
      (m : HashMap Bytes (List QueuedMessage)) (r : Bytes)
      → HashMap.get dec m r ≡ none
      → HashMap.get dec (sweep_queues fresh m).0 r ≡ none
  unfolding sweep_queues HashMap.get
  get-sweep_queues-none [] r e = refl
  get-sweep_queues-none ((j, q) ∷ m) r e =
      get-keep_mailbox-none j r (retain fresh q) (sweep_queues fresh m).0 (ground arith)
        (get-sweep_queues-none m r (ground arith))

  get-sweep_queues :
      (m : HashMap Bytes (List QueuedMessage)) (r : Bytes)
      → Distinct dec m
      → or_default (HashMap.get dec (sweep_queues fresh m).0 r)
        ≡ retain fresh (or_default (HashMap.get dec m r))
  unfolding sweep_queues HashMap.get retain
  get-sweep_queues [] r d = refl
  get-sweep_queues ((j, q) ∷ m) r d =
      rw
        (get-keep_mailbox j r (retain fresh q) (sweep_queues fresh m).0
          (get-sweep_queues-none m j d.0))
        (ground (arith, get-sweep_queues m r d.1))

  pub sweep_queues-Distinct :
      (m : HashMap Bytes (List QueuedMessage))
      → Distinct dec m
      → Distinct dec (sweep_queues fresh m).0
  unfolding sweep_queues
  sweep_queues-Distinct [] d = tt
  sweep_queues-Distinct ((j, q) ∷ m) d =
      keep_mailbox-Distinct j (retain fresh q) (sweep_queues fresh m).0
        (get-sweep_queues-none m j d.0) (sweep_queues-Distinct m d.1)
    where
      keep_mailbox-Distinct :
          (j : Bytes) (kept : List QueuedMessage) (rest : HashMap Bytes (List QueuedMessage))
          → HashMap.get dec rest j ≡ none
          → Distinct dec rest
          → Distinct dec (keep_mailbox j kept rest)
      keep_mailbox-Distinct j [] rest e d = d
      keep_mailbox-Distinct j (m ∷ q) rest e d = (e, d)

  total_messages-keep_mailbox :
      (j : Bytes) (kept : List QueuedMessage) (rest : HashMap Bytes (List QueuedMessage))
      → total_messages (keep_mailbox j kept rest) ≡ length kept + total_messages rest
  total_messages-keep_mailbox j [] rest = omega arith
  total_messages-keep_mailbox j (m ∷ q) rest = refl

  total_messages-sweep_queues :
      (m : HashMap Bytes (List QueuedMessage))
      → total_messages (sweep_queues fresh m).0 + (sweep_queues fresh m).1 ≡ total_messages m
  unfolding sweep_queues
  total_messages-sweep_queues [] = omega arith
  total_messages-sweep_queues ((j, q) ∷ m) = omega (
    arith,
    total_messages-keep_mailbox j (retain fresh q) (sweep_queues fresh m).0,
    total_messages-sweep_queues m,
    length-retain-le fresh q,
  )

module _ (limits : StoreLimits) (s : Inner) (map : IsMap s) (now : ℕ) where
  pub mailbox-sweep :
      (r : Bytes)
      → mailbox (sweep_expired_at limits s now).0 r ≡ retain (unexpired limits now) (mailbox s r)
  unfolding mailbox sweep_expired_at
  mailbox-sweep r = get-sweep_queues (unexpired limits now) s.queues r map.distinct

  -- On a store whose queues are keyed once each, a sweep is invisible to clients: a later poll
  -- returns what it would have returned without the sweep. The count that the sweep reports is
  -- the number of messages that it removed.
  pub poll_at-sweep :
      (later : ℕ) (r : Bytes)
      → now ≤ later
      → ((poll_at limits (sweep_expired_at limits s now).0 r later).1
          ≡ (poll_at limits s r later).1)
        × (total_messages (sweep_expired_at limits s now).0.queues
              + (sweep_expired_at limits s now).1
            ≡ total_messages s.queues)
  unfolding sweep_expired_at
  poll_at-sweep later r h = (
    rw
        (
          (poll_at-unexpired limits (sweep_expired_at limits s now).0 r later r).0,
          (poll_at-unexpired limits s r later r).0,
          mailbox-sweep r,
          retain-retain limits now later h,
        )
        refl,
    total_messages-sweep_queues (unexpired limits now) s.queues,
  )
