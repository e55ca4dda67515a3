-- ===== src/Relay/Server/Serve.antt =====
-- The request loop of relay/src/server.rs, `serve_on_with`: the rate limit, the handler, the hourly
-- sweep and the snapshot, in this order, for each request. Instants are nanoseconds of the
-- monotonic clock; the outcome of each flush comes with the request.
use pigeonhole_clarity_messe.Prelude.{
  ℕ, ◌*◌, ◌-◌, ◌/◌, Bool, true, Option, none, some, List, [], ◌∷◌, leb, if◌then◌else◌,
}
use pigeonhole_clarity_messe.Prelude.Bytes.{Bytes, ascii}
use pigeonhole_clarity_messe.Relay.RateLimiter
use pigeonhole_clarity_messe.Relay.RateLimiter.{RateLimiter, allow}
use pigeonhole_clarity_messe.Relay.Store.Persistence.{
  Codec, FilePath, Disk, RelayStore, FlushOutcome, IoError, nanos_per_sec, sweep_expired,
  maybe_flush,
}
use pigeonhole_clarity_messe.Prelude.Result.{Result}
use pigeonhole_clarity_messe.Relay.Server.{Request, Response, Formats, respond_text, handle}

abbrev pub sweep_interval_secs : ℕ
sweep_interval_secs = 60 * 60

pub record ServeOptions : Type 0 where
  pub rate_limit_per_min : Option ℕ

-- The loop's state: the store and its disk, the limiter with its start, and the last sweep.
pub record Server : Type 0 where
  pub store : RelayStore
  pub disk : Disk
  pub limiter : Option RateLimiter
  pub started : ℕ
  pub last_sweep : ℕ

-- A request with the address it came from, if known, the unix time and the instant, and what
-- becomes of a flush.
pub record Arrival : Type 0 where
  pub ip : Option Bytes
  pub request : Request
  pub unix_secs : ℕ
  pub instant : ℕ
  pub flush : FlushOutcome

abbrev pub elapsed_secs : ℕ → ℕ → ℕ
elapsed_secs instant since = (instant - since) / nanos_per_sec

abbrev pub limiter_for : Option ℕ → Option RateLimiter
unfolding RateLimiter.new
limiter_for none = none
limiter_for (some limit) = some (RateLimiter.new limit)

unfoldable pub start : RelayStore → Disk → ServeOptions → ℕ → Server
unfolding limiter_for
start store disk options instant = record {
  store = store;
  disk = disk;
  limiter = limiter_for options.rate_limit_per_min;
  started = instant;
  last_sweep = instant;
}

-- The limiter after the request, and whether the request may pass.
abbrev pub admit : Option RateLimiter → ℕ → Option Bytes → Option RateLimiter × Bool
unfolding allow
admit none secs ip = (none, true)
admit (some limiter) secs none = (some limiter, true)
admit (some limiter) secs (some ip) =
    let counted = allow limiter secs ip in (some counted.0, counted.1)

unfoldable pub swept : Server → ℕ → ℕ → Server
unfolding sweep_expired
swept s unix_secs instant =
    if leb sweep_interval_secs (elapsed_secs instant s.last_sweep)
    then record s { store = (sweep_expired s.store unix_secs).0; last_sweep = instant }
    else s

module _ (f : Formats) (codec : Codec) (with_tmp : FilePath → FilePath) where
  -- A failed flush is printed and forgotten.
  abbrev pub flushed : Server → Result IoError Unit × RelayStore × Disk → Server
  flushed s (outcome, store, disk) = record s { store = store; disk = disk }

  unfoldable pub serve_admitted : Server → Arrival → Server × Response
  unfolding handle swept maybe_flush
  serve_admitted s a =
      let (store, response) = handle f s.store a.unix_secs a.request in
      let later = swept (record s { store = store }) a.unix_secs a.instant in
      (
        flushed later (maybe_flush codec with_tmp a.instant a.flush later.store later.disk),
        response,
      )

  unfoldable pub serve_one : Server → Arrival → Server × Response
  unfolding admit serve_admitted respond_text
  serve_one s a =
      let (limiter, passes) = admit s.limiter (elapsed_secs a.instant s.started) a.ip in
      let counted = record s { limiter = limiter } in
      if passes
      then serve_admitted counted a
      else (counted, respond_text 429 (ascii "rate limited"))

  unfoldable pub serve : Server → List Arrival → Server × List Response
  unfolding serve_one
  serve s [] = (s, [])
  serve s (a ∷ arrivals) =
      let (next, response) = serve_one s a in
      let rest = serve (serve_one s a).0 arrivals in (rest.0, response ∷ rest.1)
