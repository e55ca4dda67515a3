-- ===== src/Relay/Store/Queue.antt =====
-- The two eviction loops of `enqueue_at` (relay/src/store.rs) against a plain description: the
-- longest suffix of the queue that fits the limits.
use pigeonhole_clarity_messe.Prelude.{
  ℕ, ◌-◌, ◌≤◌, ◌≡◌, refl, Bool, ◌&&◌, List, [], ◌∷◌, ◌++◌, drop, zero, suc, length, leb,
  if◌then◌else◌, arith, Bool-cases, ltb, inl, inr,
}
use pigeonhole_clarity_messe.Relay.Store.Defs.{
  StoreLimits, QueuedMessage, cap_messages, cap_bytes, total_bytes, push_capped,
}

-- A queue within both limits of a mailbox.
pub record Fits (limits : StoreLimits) (q : List QueuedMessage) : Type 0 where
  pub count : length q ≤ limits.max_mailbox_messages
  pub size : total_bytes q ≤ limits.max_mailbox_bytes

abbrev pub fits : StoreLimits → List QueuedMessage → Bool
fits limits q =
    leb (length q) limits.max_mailbox_messages && leb (total_bytes q) limits.max_mailbox_bytes

-- The longest suffix within the limits, oldest messages given up first.
unfoldable pub longest_fit : StoreLimits → List QueuedMessage → List QueuedMessage
longest_fit limits [] = []
longest_fit limits (m ∷ q) =
    let rest = longest_fit limits q in if fits limits (m ∷ q) then m ∷ q else rest

module _ (limits : StoreLimits) where
  cap_bytes-eq :
      (q : List QueuedMessage) (total : ℕ)
      → total ≡ total_bytes q
      → length q ≤ limits.max_mailbox_messages
      → cap_bytes limits.max_mailbox_bytes total q ≡ longest_fit limits q
  unfolding cap_bytes longest_fit
  cap_bytes-eq [] total e h = refl
  cap_bytes-eq (m ∷ q) total e h =
      ground (arith, cap_bytes-eq q (total - length m.bytes) (omega arith) (omega arith))

  caps-eq :
      (q : List QueuedMessage)
      → cap_bytes limits.max_mailbox_bytes
          (total_bytes (cap_messages limits.max_mailbox_messages q))
          (cap_messages limits.max_mailbox_messages q)
        ≡ longest_fit limits q
  unfolding cap_messages longest_fit
  caps-eq [] = cap_bytes-eq [] 0 refl (omega arith)
  caps-eq (m ∷ q) = elim (Bool-cases (ltb limits.max_mailbox_messages (length (m ∷ q)))) [
    | inl over ↦ rw over (ground (arith, caps-eq q))
    | inr within ↦
        rw within (ground (arith, cap_bytes-eq (m ∷ q) (total_bytes (m ∷ q)) refl (ground arith)))
  ]

  -- The two loops of `enqueue_at`, one on the count and one on a running byte total, keep exactly
  -- the longest suffix of the old queue and the new message that fits both limits.
  pub push_capped-eq-longest_fit :
      (q : List QueuedMessage) (m : QueuedMessage)
      → push_capped limits q m ≡ longest_fit limits (q ++ m ∷ [])
  unfolding push_capped
  push_capped-eq-longest_fit q m = caps-eq (q ++ m ∷ [])

  pub longest_fit-Fits : (q : List QueuedMessage) → Fits limits (longest_fit limits q)
  unfolding longest_fit
  longest_fit-Fits [] = omega arith
  longest_fit-Fits (m ∷ q) = ground (arith, longest_fit-Fits q)

  pub longest_fit-fitting : (q : List QueuedMessage) → Fits limits q → longest_fit limits q ≡ q
  unfolding longest_fit
  longest_fit-fitting [] h = refl
  longest_fit-fitting (m ∷ q) h = ground arith

  longest_fit-longest :
      (q : List QueuedMessage) (j : ℕ)
      → Fits limits (drop j q)
      → length (drop j q) ≤ length (longest_fit limits q)
  unfolding longest_fit
  longest_fit-longest [] zero h = omega arith
  longest_fit-longest [] (suc j) h = omega arith
  longest_fit-longest (m ∷ q) zero h = ground arith
  longest_fit-longest (m ∷ q) (suc j) h = ground (arith, longest_fit-longest q j h, length_drop j q)
    where
      length_drop : (j : ℕ) (q : List QueuedMessage) → length (drop j q) ≤ length q
      length_drop zero q = omega arith
      length_drop (suc j) [] = omega arith
      length_drop (suc j) (m ∷ q) = omega (arith, length_drop j q)
