-- ===== src/Relay/Server/Bounds.antt =====
-- The request loop of relay/src/server.rs keeps the bounds of the store, whatever arrives.
use pigeonhole_clarity_messe.Prelude.{
  ℕ, ◌-◌, ◌/◌, ◌≡◌, sym, ap, subst, ◌∙◌, Bool-cases, inl, inr, Option, none, some, List, [], ◌∷◌,
  leb, not, ◌||◌, ltb,
}
use pigeonhole_clarity_messe.Prelude.Bytes.{Bytes}
use pigeonhole_clarity_messe.Relay.Store.Defs.{StoreLimits, mailbox}
use pigeonhole_clarity_messe.Relay.Store.Queue.{Fits}
use pigeonhole_clarity_messe.Relay.Store.Run
use pigeonhole_clarity_messe.Relay.Store.Run.{IsValid, sweeps}
use pigeonhole_clarity_messe.Relay.Store.Persistence.{
  Codec, FilePath, Disk, Persistence, RelayStore, FlushOutcome, nanos_per_sec, flush_interval_secs,
  sweep_expired, maybe_flush, flush_persistence, write_snapshot, updated,
}
use pigeonhole_clarity_messe.Relay.Server.{Request, Formats, handle}
use pigeonhole_clarity_messe.Relay.Server.Requests.{handle-Served}
use pigeonhole_clarity_messe.Relay.Server.Serve.{
  Server, Arrival, ServeOptions, start, admit, swept, serve_admitted, serve_one, serve,
  elapsed_secs, sweep_interval_secs,
}

-- The store keeps its limits, and its mailboxes are within them.
pub record Bounded (limits : StoreLimits) (st : RelayStore) : Type 0 where
  pub same : st.limits ≡ limits
  pub valid : IsValid limits st.inner

module _ (limits : StoreLimits) where
  handle-Bounded :
      (f : Formats) (st : RelayStore) (now : ℕ) (request : Request)
      → Bounded limits st
      → Bounded limits (handle f st now request).0
  handle-Bounded f st now request h =
      let served = handle-Served f st now request in
      record {
        same = served.limits ∙ h.same;
        valid =
            subst (IsValid limits)
              (sym
                (served.inner ∙ ap (λ (l : StoreLimits). Run.run l st.inner served.calls) h.same))
              (Run.run-IsValid limits st.inner served.calls h.valid);
      }

  sweep-Bounded :
      (st : RelayStore) (now : ℕ) → Bounded limits st → Bounded limits (sweep_expired st now).0
  unfolding sweep_expired updated Run.run Run.step
  sweep-Bounded st now h = record {
    same = h.same;
    valid =
        subst (IsValid limits)
          (ap (λ (l : StoreLimits). Run.run l st.inner (sweeps now ∷ [])) (sym h.same))
          (Run.run-IsValid limits st.inner (sweeps now ∷ []) h.valid);
  }

  swept-Bounded :
      (s : Server) (now instant : ℕ)
      → Bounded limits s.store
      → Bounded limits (swept s now instant).store
  unfolding swept
  swept-Bounded s now instant h =
      elim (Bool-cases (leb sweep_interval_secs (elapsed_secs instant s.last_sweep))) [
        | inl due ↦ rw due (sweep-Bounded s.store now h)
        | inr early ↦ rw early h
      ]

  module _ (codec : Codec) (with_tmp : FilePath → FilePath) where
    write-Bounded :
        (now : ℕ) (out : FlushOutcome) (st : RelayStore) (p : Persistence) (disk : Disk)
        (b : Option Bytes)
        → Bounded limits st
        → Bounded limits (write_snapshot codec with_tmp now out st p disk b).1
    write-Bounded now out st p disk none h = h
    write-Bounded now out st p disk (some b) h = elim (Bool-cases out.written) [
      | inl w ↦ rw w (elim (Bool-cases out.renamed) [
        | inl r ↦ rw r (record { same = h.same; valid = h.valid })
        | inr r ↦ rw r h
      ])
      | inr w ↦ rw w h
    ]

    flush-Bounded :
        (now : ℕ) (out : FlushOutcome) (st : RelayStore) (disk : Disk) (p : Option Persistence)
        → Bounded limits st
        → Bounded limits (flush_persistence codec with_tmp now out st disk p).1
    unfolding flush_persistence
    flush-Bounded now out st disk none h = h
    flush-Bounded now out st disk (some p) h =
        let wait = not p.dirty || ltb ((now - p.last_flush) / nanos_per_sec) flush_interval_secs in
        elim (Bool-cases wait) [
          | inl w ↦ rw w h
          | inr w ↦ rw w (write-Bounded now out st p disk _ h)
        ]

    serve_one-Bounded :
        (f : Formats) (s : Server) (a : Arrival)
        → Bounded limits s.store
        → Bounded limits (serve_one f codec with_tmp s a).0.store
    unfolding serve_one serve_admitted maybe_flush
    serve_one-Bounded f s a h =
        let counted = admit s.limiter (elapsed_secs a.instant s.started) a.ip in
        elim (Bool-cases counted.1) [
          | inl passes ↦ rw passes (
              let handled = (handle f s.store a.unix_secs a.request).0 in
              let later =
                swept (record s { store = handled; limiter = counted.0 }) a.unix_secs a.instant in
              flush-Bounded a.instant a.flush later.store later.disk later.store.persistence (
                swept-Bounded (record s { store = handled; limiter = counted.0 }) a.unix_secs
                  a.instant (handle-Bounded f s.store a.unix_secs a.request h)))
          | inr refused ↦ rw refused h
        ]

    serve-Bounded :
        (f : Formats) (s : Server) (arrivals : List Arrival)
        → Bounded limits s.store
        → Bounded limits (serve f codec with_tmp s arrivals).0.store
    unfolding serve
    serve-Bounded f s [] h = h
    serve-Bounded f s (a ∷ arrivals) h =
        serve-Bounded f (serve_one f codec with_tmp s a).0 arrivals (serve_one-Bounded f s a h)

    -- Whatever requests a relay has received, from whatever addresses, at whatever times and with
    -- whatever outcome of the flushes, every mailbox is within the limits on its count and on its
    -- bytes, if this held of the store that the relay was started with, such as a fresh one.
    pub serve-Fits :
        (f : Formats) (options : ServeOptions) (st : RelayStore) (disk : Disk) (instant : ℕ)
        (arrivals : List Arrival) (recipient : Bytes)
        → st.limits ≡ limits
        → IsValid limits st.inner
        → let served = serve f codec with_tmp (start st disk options instant) arrivals in
          Fits limits (mailbox served.0.store.inner recipient)
    unfolding start
    serve-Fits f options st disk instant arrivals recipient same valid =
        let bounded =
          serve-Bounded f (start st disk options instant) arrivals
            (record { same = same; valid = valid }) in
        bounded.valid.within.at recipient
