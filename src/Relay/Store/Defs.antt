-- ===== src/Relay/Store/Defs.antt =====
-- The state and the operations of `RelayStore` (relay/src/store.rs), but for the snapshot on disk.
-- The mutex is held through each operation, so an operation is one function on the state.
use pigeonhole_clarity_messe.Prelude.{
  ℕ, ◌+◌, ◌-◌, ◌*◌, Bool, Option, none, some, List, [], ◌∷◌, ◌++◌, map, length, retain, ltb, leb,
  if◌then◌else◌,
}
use pigeonhole_clarity_messe.Prelude.Bytes.{Bytes, Bytes_discrete}
use pigeonhole_clarity_messe.Prelude.HashMap
use pigeonhole_clarity_messe.Prelude.HashMap.{HashMap}
use pigeonhole_clarity_messe.Prelude.Result.{Result, ok, err}
use pigeonhole_clarity_messe.Core.Wire.{PreKeyBundle}

pub record StoreLimits : Type 0 where
  pub mail_ttl_secs : ℕ
  pub max_message_bytes : ℕ
  pub max_mailbox_messages : ℕ
  pub max_mailbox_bytes : ℕ

abbrev pub default_limits : StoreLimits
default_limits = record {
  mail_ttl_secs = 30 * 24 * 60 * 60;
  max_message_bytes = 256 * 1024;
  max_mailbox_messages = 10_000;
  max_mailbox_bytes = 32 * 1024 * 1024;
}

pub data StoreError : Type 0 where
  message_too_large : StoreError

pub record StoredKeys : Type 0 where
  pub base_bundle : PreKeyBundle
  pub one_time : List (ℕ × Bytes)

pub record QueuedMessage : Type 0 where
  pub enqueued_at : ℕ
  pub bytes : Bytes

pub record Inner : Type 0 where
  pub keys : HashMap Bytes StoredKeys
  pub queues : HashMap Bytes (List QueuedMessage)

-- `Inner::default()`.
abbrev pub empty_inner : Inner
empty_inner = record { keys = []; queues = [] }

-- `Option::map` of an entry's length, and the default of a missing entry.
abbrev pub or_default {ℓ} : {A : Type ℓ} → Option (List A) → List A
or_default none = []
or_default (some q) = q

-- The two one-time fields of a bundle, set together.
abbrev pub with_one_time : PreKeyBundle → Option (ℕ × Bytes) → PreKeyBundle
with_one_time b none = record b { one_time_prekey = none; one_time_prekey_id = none }
with_one_time b (some (id, public)) = record b {
  one_time_prekey = some public;
  one_time_prekey_id = some id;
}

unfoldable pub publish : Inner → PreKeyBundle → List (ℕ × Bytes) → Inner
publish s bundle one_time = record s {
  keys =
      HashMap.insert Bytes_discrete s.keys bundle.identity_ed
        (record { base_bundle = with_one_time bundle none; one_time = one_time });
}

-- `one_time.pop_front()`: what is handed out, and the pool that stays.
abbrev pub pop_front {ℓ} : {A : Type ℓ} → List A → Option A × List A
pop_front [] = (none, [])
pop_front (x ∷ xs) = (some x, xs)

-- The `if let Some((id, public)) = consumed` of `fetch_bundle`; without one the base bundle stays.
abbrev pub attach : PreKeyBundle → Option (ℕ × Bytes) → PreKeyBundle
attach b none = b
attach b (some k) = with_one_time b (some k)

-- The new state, the bundle, and whether a one-time prekey was consumed.
abbrev pub fetch_entry : Inner → Bytes → Option StoredKeys → Inner × Option PreKeyBundle × Bool
fetch_entry s identity none = (s, none, Bool.false)
fetch_entry s identity (some stored) =
    let (consumed, rest) = pop_front stored.one_time in
    (
      record s {
        keys = HashMap.insert Bytes_discrete s.keys identity (record stored { one_time = rest });
      },
      some (attach stored.base_bundle consumed),
      elim consumed [ none ↦ Bool.false | some _ ↦ Bool.true ],
    )

unfoldable pub fetch_bundle : Inner → Bytes → Inner × Option PreKeyBundle × Bool
fetch_bundle s identity = fetch_entry s identity (HashMap.get Bytes_discrete s.keys identity)

unfoldable pub one_time_remaining : Inner → Bytes → ℕ
one_time_remaining s identity = elim (HashMap.get Bytes_discrete s.keys identity) [
  | none ↦ 0
  | some k ↦ length k.one_time
]

-- `while queue.len() > max_mailbox_messages { queue.pop_front(); }`
unfoldable pub cap_messages : ℕ → List QueuedMessage → List QueuedMessage
cap_messages cap [] = []
cap_messages cap (m ∷ q) =
    let rest = cap_messages cap q in if ltb cap (length (m ∷ q)) then rest else m ∷ q

abbrev pub total_bytes : List QueuedMessage → ℕ
total_bytes [] = 0
total_bytes (m ∷ q) = length m.bytes + total_bytes q

-- `while total > max_mailbox_bytes`, with the running `total` of the source.
unfoldable pub cap_bytes : ℕ → ℕ → List QueuedMessage → List QueuedMessage
cap_bytes cap total [] = []
cap_bytes cap total (m ∷ q) =
    let rest = cap_bytes cap (total - length m.bytes) q in if ltb cap total then rest else m ∷ q

-- The body of `enqueue_at` on one queue.
unfoldable pub push_capped : StoreLimits → List QueuedMessage → QueuedMessage → List QueuedMessage
unfolding cap_messages cap_bytes
push_capped limits queue m =
    let q = cap_messages limits.max_mailbox_messages (queue ++ m ∷ []) in
    cap_bytes limits.max_mailbox_bytes (total_bytes q) q

-- The messages queued for a recipient; `entry(recipient).or_default()`.
unfoldable pub mailbox : Inner → Bytes → List QueuedMessage
mailbox s recipient = or_default (HashMap.get Bytes_discrete s.queues recipient)

-- The state after an accepted message.
unfoldable pub enqueued : StoreLimits → Inner → Bytes → Bytes → ℕ → Inner
unfolding mailbox
enqueued limits s recipient message now = record s {
  queues =
      HashMap.insert Bytes_discrete s.queues recipient
        (push_capped limits (mailbox s recipient) (record { enqueued_at = now; bytes = message }));
}

unfoldable pub enqueue_at : StoreLimits → Inner → Bytes → Bytes → ℕ → Result StoreError Inner
unfolding enqueued
enqueue_at limits s recipient message now =
    if ltb limits.max_message_bytes (length message)
    then err message_too_large
    else ok (enqueued limits s recipient message now)

-- `m.enqueued_at >= cutoff`, where `cutoff` is `now.saturating_sub(mail_ttl_secs)`.
abbrev pub unexpired : StoreLimits → ℕ → QueuedMessage → Bool
unexpired limits now m = leb (now - limits.mail_ttl_secs) m.enqueued_at

abbrev pub payloads : List QueuedMessage → List Bytes
payloads = map (λ m. m.bytes)

-- The new state, the messages, and whether the queue existed (only then is the store dirtied).
abbrev pub poll_entry :
    StoreLimits → Inner → Bytes → ℕ → Option (List QueuedMessage) → Inner × List Bytes × Bool
poll_entry limits s recipient now none = (s, [], Bool.false)
poll_entry limits s recipient now (some queue) = (
  record s { queues = HashMap.remove Bytes_discrete s.queues recipient },
  payloads (retain (unexpired limits now) queue),
  Bool.true,
)

unfoldable pub poll_at : StoreLimits → Inner → Bytes → ℕ → Inner × List Bytes × Bool
poll_at limits s recipient now =
    poll_entry limits s recipient now (HashMap.get Bytes_discrete s.queues recipient)

-- One round of `inner.queues.retain(…)`: an emptied mailbox is dropped.
abbrev pub keep_mailbox :
    Bytes
    → List QueuedMessage
    → HashMap Bytes (List QueuedMessage)
    → HashMap Bytes (List QueuedMessage)
keep_mailbox r [] rest = rest
keep_mailbox r (m ∷ q) rest = (r, m ∷ q) ∷ rest

unfoldable pub sweep_queues :
    (QueuedMessage → Bool)
    → HashMap Bytes (List QueuedMessage)
    → HashMap Bytes (List QueuedMessage) × ℕ
sweep_queues fresh [] = ([], 0)
sweep_queues fresh ((r, queue) ∷ rest) =
    let kept = retain fresh queue in
    let swept = sweep_queues fresh rest in
    (keep_mailbox r kept swept.0, (length queue - length kept) + swept.1)

-- The new state, and how many messages were removed.
unfoldable pub sweep_expired_at : StoreLimits → Inner → ℕ → Inner × ℕ
sweep_expired_at limits s now =
    let swept = sweep_queues (unexpired limits now) s.queues in
    (record s { queues = swept.0 }, swept.1)
