-- ===== src/Relay/RateLimiter.antt =====
-- The per-address request counter of relay/src/server.rs. An address is a byte string; the time since
-- the start is an argument, and the counter is a `u32` that wraps.
use pigeonhole_clarity_messe.Prelude.{
  ℕ, zero, suc, ◌+◌, ◌*◌, ◌≤◌, ◌/◌, ◌%◌, ◌^◌, ◌<◌, ◌≡◌, ◌≢◌, refl, sym, ap, ◌∙◌, min, Bool, true,
  false, ite, if_pos, if_neg, Option, none, some, List, [], ◌∷◌, length, retain, ltb, leb, leb→le,
  ◌==◌, ==_iff, Bool-cases, inl, inr, arith, if◌then◌else◌,
}
use pigeonhole_clarity_messe.Prelude.Bytes.{Bytes, Bytes_discrete as dec}
use pigeonhole_clarity_messe.Prelude.HashMap
use pigeonhole_clarity_messe.Prelude.HashMap.{HashMap, get-insert, get-insert_self}

-- The minute of a window, and the requests counted in it.
abbrev pub Windows : Type 0
Windows = HashMap Bytes (ℕ × ℕ)

pub record RateLimiter : Type 0 where
  pub limit : ℕ
  pub windows : Windows

unfoldable pub new : ℕ → RateLimiter
new limit = record { limit = limit; windows = [] }

abbrev pub is_current : ℕ → Bytes × (ℕ × ℕ) → Bool
is_current minute e = e.1.0 == minute

-- Stale windows are dropped once there are many.
unfoldable pub pruned : ℕ → Windows → Windows
pruned minute windows =
    if ltb 10_000 (length windows) then retain (is_current minute) windows else windows

-- The count of an entry, which starts anew when there is none or when it is of another minute.
abbrev pub count_in : ℕ → Option (ℕ × ℕ) → ℕ
count_in minute none = 0
count_in minute (some w) = if w.0 == minute then w.1 else 0

unfoldable pub allow : RateLimiter → ℕ → Bytes → RateLimiter × Bool
unfolding pruned
allow limiter elapsed_secs ip =
    let minute = elapsed_secs / 60 in
    let windows = pruned minute limiter.windows in
    let count = (count_in minute (HashMap.get dec windows ip) + 1) % 2 ^ 32 in
    (
      record limiter { windows = HashMap.insert dec windows ip (minute, count) },
      leb count limiter.limit,
    )

-- How many of an address's requests are let through, of a list of requests, each with the second
-- at which it arrives.
unfoldable pub admitted : RateLimiter → Bytes → List (ℕ × Bytes) → ℕ
unfolding allow
admitted limiter ip [] = 0
admitted limiter ip ((secs, j) ∷ requests) =
    let rest = admitted (allow limiter secs j).0 ip requests in
    (if ite (dec j ip) (allow limiter secs j).1 false then 1 else 0) + rest

abbrev pub occurrences : Bytes → List (ℕ × Bytes) → ℕ
occurrences ip [] = 0
occurrences ip ((secs, j) ∷ requests) = ite (dec j ip) 1 0 + occurrences ip requests

-- All requests arrive in one minute.
abbrev pub AllWithin : ℕ → List (ℕ × Bytes) → Type 0
AllWithin minute [] = Unit
AllWithin minute ((secs, j) ∷ requests) =
    (60 * minute ≤ secs) × (secs < 60 * minute + 60) × AllWithin minute requests

-- What is counted for an address after some of its requests in the minute.
abbrev pub tally : ℕ → ℕ → Option (ℕ × ℕ)
tally minute zero = none
tally minute (suc n) = some (minute, suc n)

get-retain-none :
    (minute : ℕ) (m : Windows) (ip : Bytes)
    → HashMap.get dec m ip ≡ none
    → HashMap.get dec (retain (is_current minute) m) ip ≡ none
unfolding HashMap.get retain
get-retain-none minute [] ip h = refl
get-retain-none minute ((j, w) ∷ m) ip h = ground (arith, get-retain-none minute m ip)

abbrev minute_of : Option (ℕ × ℕ) → ℕ
minute_of none = 0
minute_of (some w) = w.0

get-retain_current :
    (minute n : ℕ) (m : Windows) (ip : Bytes)
    → HashMap.get dec m ip ≡ some (minute, n)
    → HashMap.get dec (retain (is_current minute) m) ip ≡ some (minute, n)
unfolding HashMap.get retain
get-retain_current minute n [] ip h = cc
get-retain_current minute n ((j, (s, c)) ∷ m) ip h = elim (dec j ip) [
  | yes p ↦
      let here : some (s, c) ≡ some (minute, n) = sym (if_pos (dec j ip) p _ _) ∙ h in
      let current : (s == minute) ≡ true = (==_iff s minute).1 (ap minute_of here) in
      rw current (if_pos (dec j ip) p _ _ ∙ here)
  | no p ↦
      let later = get-retain_current minute n m ip (sym (if_neg (dec j ip) p _ _) ∙ h) in
      elim (Bool-cases (s == minute)) [
        | inl current ↦ rw current (if_neg (dec j ip) p _ _ ∙ later)
        | inr stale ↦ rw stale later
      ]
]

get-pruned :
    (minute n : ℕ) (m : Windows) (ip : Bytes)
    → HashMap.get dec m ip ≡ tally minute n
    → HashMap.get dec (pruned minute m) ip ≡ tally minute n
unfolding pruned
get-pruned minute zero m ip h = ground (arith, get-retain-none minute m ip)
get-pruned minute (suc n) m ip h = ground (arith, get-retain_current minute (suc n) m ip)

-- One request of the address moves its tally on; one of another address leaves it.
allow-tally :
    (limiter : RateLimiter) (secs n : ℕ) (ip : Bytes)
    → HashMap.get dec limiter.windows ip ≡ tally (secs / 60) n
    → n + 1 < 2 ^ 32
    → ((allow limiter secs ip).1 ≡ leb (n + 1) limiter.limit)
      × (HashMap.get dec (allow limiter secs ip).0.windows ip ≡ tally (secs / 60) (suc n))
unfolding allow
allow-tally limiter secs n ip h small =
    let minute = secs / 60 in
    let before = get-pruned minute n limiter.windows ip h in
    let counted : count_in minute (HashMap.get dec (pruned minute limiter.windows) ip) ≡ n =
      ap (count_in minute) before ∙ count_in-tally minute n in
    let next : (n + 1) % 2 ^ 32 ≡ suc n = omega arith in
    let same : suc n ≡ n + 1 = omega arith in
    rw (counted, next)
      (
        ap (λ (k : ℕ). leb k limiter.limit) same,
        get-insert_self dec (pruned minute limiter.windows) ip (minute, suc n),
      )
  where
    count_in-tally : (minute n : ℕ) → count_in minute (tally minute n) ≡ n
    count_in-tally minute zero = refl
    count_in-tally minute (suc n) = rw ((==_iff minute minute).1 refl) refl

allow-other :
    (limiter : RateLimiter) (secs n : ℕ) (ip j : Bytes)
    → HashMap.get dec limiter.windows ip ≡ tally (secs / 60) n
    → j ≢ ip
    → HashMap.get dec (allow limiter secs j).0.windows ip ≡ tally (secs / 60) n
unfolding allow
allow-other limiter secs n ip j h other =
    get-insert dec (pruned (secs / 60) limiter.windows) j ip _
    ∙ if_neg (dec j ip) other _ _
    ∙ get-pruned (secs / 60) n limiter.windows ip h

limit-allow :
    (limiter : RateLimiter) (secs : ℕ) (j : Bytes) → (allow limiter secs j).0.limit ≡ limiter.limit
unfolding allow
limit-allow limiter secs j = refl

count_step :
    (limit n later count : ℕ)
    → count + min limit (n + 1) ≡ min limit (n + 1 + later)
    → (if leb (n + 1) limit then 1 else 0) + count + min limit n ≡ min limit (n + (1 + later))
count_step limit n later count h = elim (Bool-cases (leb (n + 1) limit)) [
  | inl within ↦ let le = leb→le (n + 1) limit within in rw within (omega arith)
  | inr over ↦ let gt : limit < n + 1 = ground arith in rw over (omega arith)
]

admitted-tally :
    (limiter : RateLimiter) (minute n : ℕ) (ip : Bytes) (requests : List (ℕ × Bytes))
    → AllWithin minute requests
    → HashMap.get dec limiter.windows ip ≡ tally minute n
    → n + length requests < 2 ^ 32
    → admitted limiter ip requests + min limiter.limit n
      ≡ min limiter.limit (n + occurrences ip requests)
unfolding admitted
admitted-tally limiter minute n ip [] within h small = omega arith
admitted-tally limiter minute n ip ((secs, j) ∷ requests) within h small =
    let now : minute ≡ secs / 60 = omega (arith, within.0, within.1) in
    let h' : HashMap.get dec limiter.windows ip ≡ tally (secs / 60) n =
      h ∙ ap (λ (m : ℕ). tally m n) now in
    elim (dec j ip) [
      | yes p ↦
          let (allowed, moved) =
            allow-tally limiter secs n j (ap (HashMap.get dec limiter.windows) p ∙ h')
              (omega arith) in
          let after = (allow limiter secs j).0 in
          let rest =
            admitted-tally after minute (suc n) ip requests within.2
              (ap (HashMap.get dec after.windows) (sym p)
                ∙ moved
                ∙ ap (λ (m : ℕ). tally m (suc n)) (sym now))
              (omega arith) in
          let same_limit : after.limit ≡ limiter.limit = limit-allow limiter secs j in
          rw (if_pos (dec j ip) p, if_pos (dec j ip) p, allowed)
            (count_step limiter.limit n (occurrences ip requests) (admitted after ip requests)
              (omega (arith, rest, same_limit)))
      | no p ↦
          let rest =
            admitted-tally (allow limiter secs j).0 minute n ip requests within.2
              (allow-other limiter secs n ip j h' p ∙ ap (λ (m : ℕ). tally m n) (sym now))
              (omega arith) in
          rw (if_neg (dec j ip) p, if_neg (dec j ip) p)
            (omega (arith, rest, limit-allow limiter secs j))
    ]

-- Whatever the interleaving of addresses, of the requests that arrive within one minute of the
-- limiter's clock, each at its own second, from an address that was not counted before, exactly as
-- many as the limit allows are let through, if there are fewer than `2 ^ 32` requests in all.
pub admitted-eq-min :
    (limiter : RateLimiter) (minute : ℕ) (ip : Bytes) (requests : List (ℕ × Bytes))
    → AllWithin minute requests
    → HashMap.get dec limiter.windows ip ≡ none
    → length requests < 2 ^ 32
    → admitted limiter ip requests ≡ min limiter.limit (occurrences ip requests)
admitted-eq-min limiter minute ip requests within fresh small =
    omega (arith, admitted-tally limiter minute 0 ip requests within fresh (omega arith))
