-- ===== src/Relay/Store/Directory.antt =====
-- The prekey directory of relay/src/store.rs: `publish` and `fetch_bundle`.
use pigeonhole_clarity_messe.Prelude.{
  ℕ, drop, drop-nil, ap₂, zero, suc, ◌-◌, ◌≡◌, refl, ap, ◌∙◌, Option, none, some, List, [], ◌∷◌,
  ◌++◌, map, take, replicate, length, length-drop, arith,
}
use pigeonhole_clarity_messe.Prelude.Bytes.{Bytes, Bytes_discrete as dec}
use pigeonhole_clarity_messe.Prelude.HashMap
use pigeonhole_clarity_messe.Prelude.HashMap.{get-insert_self}
use pigeonhole_clarity_messe.Core.Wire.{PreKeyBundle}
use pigeonhole_clarity_messe.Relay.Store.Defs.{
  Inner, StoredKeys, with_one_time, publish, fetch_bundle, one_time_remaining,
}

-- The bundles that `n` fetches in a row return, and the state after them.
unfoldable pub fetch_times : ℕ → Inner → Bytes → Inner × List (Option PreKeyBundle)
fetch_times zero s identity = (s, [])
fetch_times (suc n) s identity =
    let fetched = fetch_bundle s identity in
    let later = fetch_times n fetched.0 identity in (later.0, fetched.1 ∷ later.1)

abbrev pub stored : PreKeyBundle → List (ℕ × Bytes) → StoredKeys
stored b pool = record { base_bundle = b; one_time = pool }

module _ (identity : Bytes) (b : PreKeyBundle) where
  fetch-empty :
      (s : Inner)
      → HashMap.get dec s.keys identity ≡ some (stored b [])
      → (HashMap.get dec (fetch_bundle s identity).0.keys identity ≡ some (stored b []))
        × ((fetch_bundle s identity).1 ≡ some b)
  unfolding fetch_bundle
  fetch-empty s h = rw h (get-insert_self dec s.keys identity _, refl)

  fetch-cons :
      (s : Inner) (k : ℕ × Bytes) (pool : List (ℕ × Bytes))
      → HashMap.get dec s.keys identity ≡ some (stored b (k ∷ pool))
      → (HashMap.get dec (fetch_bundle s identity).0.keys identity ≡ some (stored b pool))
        × ((fetch_bundle s identity).1 ≡ some (with_one_time b (some k)))
  unfolding fetch_bundle
  fetch-cons s k pool h = rw h (get-insert_self dec s.keys identity _, refl)

  -- What `n` fetches return from a pool: each key once, then the bare bundle.
  abbrev pub dispensed : ℕ → List (ℕ × Bytes) → List (Option PreKeyBundle)
  dispensed zero pool = []
  dispensed (suc n) [] = some b ∷ dispensed n []
  dispensed (suc n) (k ∷ pool) = some (with_one_time b (some k)) ∷ dispensed n pool

  fetch_times-dispensed :
      (n : ℕ) (s : Inner) (pool : List (ℕ × Bytes))
      → HashMap.get dec s.keys identity ≡ some (stored b pool)
      → ((fetch_times n s identity).1 ≡ dispensed n pool)
        × (HashMap.get dec (fetch_times n s identity).0.keys identity
            ≡ some (stored b (drop n pool)))
  unfolding fetch_times
  fetch_times-dispensed zero s pool h = (refl, h)
  fetch_times-dispensed (suc n) s [] h =
      let (next, bundle) = fetch-empty s h in
      let (rest, end) = fetch_times-dispensed n (fetch_bundle s identity).0 [] next in
      (ap₂ ◌∷◌ bundle rest, rw drop-nil at end)
  fetch_times-dispensed (suc n) s (k ∷ pool) h =
      let (next, bundle) = fetch-cons s k pool h in
      let (rest, end) = fetch_times-dispensed n (fetch_bundle s identity).0 pool next in
      (ap₂ ◌∷◌ bundle rest, end)

  dispensed-eq :
      (n : ℕ) (pool : List (ℕ × Bytes))
      → dispensed n pool
        ≡ map (λ k. some (with_one_time b (some k))) (take n pool)
          ++ replicate (n - length pool) (some b)
  dispensed-eq zero pool = let e : 0 - length pool ≡ 0 = omega arith in rw e (zero_case pool)
    where
      zero_case : (pool : List (ℕ × Bytes)) → dispensed 0 pool ≡ []
      zero_case pool = refl
  dispensed-eq (suc n) [] =
      let e : suc n - 0 ≡ suc (n - 0) = omega arith in
      rw e (ap (◌∷◌ (some b)) (dispensed-eq n [] ∙ nil_case n))
    where
      nil_case :
          (n : ℕ)
          → map (λ k. some (with_one_time b (some k))) (take n []) ++ replicate (n - 0) (some b)
            ≡ replicate (n - 0) (some b)
      nil_case zero = refl
      nil_case (suc n) = refl
  dispensed-eq (suc n) (k ∷ pool) =
      let e : suc n - suc (length pool) ≡ n - length pool = omega arith in
      rw e (ap (◌∷◌ (some (with_one_time b (some k)))) (dispensed-eq n pool))

-- After a publication, `n` fetches hand out the published bundle with the one-time prekeys of the
-- published pool and their ids, each once and in order, then the bundle with neither prekey nor id;
-- the count of those that remain is exact.
pub fetch_times-publish :
    (s : Inner) (bundle : PreKeyBundle) (pool : List (ℕ × Bytes)) (n : ℕ)
    → ((fetch_times n (publish s bundle pool) bundle.identity_ed).1
        ≡ map
            (λ (k : ℕ × Bytes).
              some (record bundle { one_time_prekey = some k.1; one_time_prekey_id = some k.0 }))
            (take n pool)
          ++ replicate
              (n - length pool)
              (some (record bundle { one_time_prekey = none; one_time_prekey_id = none })))
      × (one_time_remaining
            (fetch_times n (publish s bundle pool) bundle.identity_ed).0
            bundle.identity_ed
          ≡ length pool - n)
unfolding publish one_time_remaining
fetch_times-publish s bundle pool n =
    let base = with_one_time bundle none in
    let (bundles, end) =
      fetch_times-dispensed bundle.identity_ed base n (publish s bundle pool) pool
        (get-insert_self dec s.keys bundle.identity_ed (stored base pool)) in
    (
      bundles ∙ dispensed-eq bundle.identity_ed base n pool,
      rw (end, one_time_remaining) (length-drop n pool),
    )
