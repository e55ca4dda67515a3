-- ===== src/Relay/ServerTests.antt =====
-- The theorems on the relay's server at concrete requests.
use pigeonhole_clarity_messe.Prelude.{refl, ℕ, ◌≡◌, none, some, [], ◌∷◌, ◌++◌, arith, false}
use pigeonhole_clarity_messe.Prelude.Bytes.{Bytes_discrete, ascii}
use pigeonhole_clarity_messe.Relay.Query.{
  decode_loop, url_decode, query_param, decode_loop-terminates,
}
use pigeonhole_clarity_messe.Relay.Query.Form.{write_all, query_param-write_all}
use pigeonhole_clarity_messe.Relay.Store.Defs.{default_limits, mailbox, empty_inner}
use pigeonhole_clarity_messe.Relay.Store.Queue.{Fits}
use pigeonhole_clarity_messe.Relay.Store.Persistence.{Codec, RelayStore, with_limits}
use pigeonhole_clarity_messe.Relay.Store.Run.{IsValid-empty}
use pigeonhole_clarity_messe.Relay.Server.{Request, method_get, method_post, handle}
use pigeonhole_clarity_messe.Relay.Server.Requests.{Served, handle-Served}
use pigeonhole_clarity_messe.Relay.Server.Serve.{Arrival, start, serve}
use pigeonhole_clarity_messe.Relay.Server.Bounds.{serve-Fits}
use pigeonhole_clarity_messe.Relay.CommandLine.{
  serving, launch, parse_args, parse_number, read_digits, unsigned_digits, with_next, flag_of,
  is_arg, launch_with, serve_from,
}
use pigeonhole_clarity_messe.Relay.Store.Persistence.{Disk}
use pigeonhole_clarity_messe.Relay.Samples.{formats, form, form-IsForm}

decode_loop-terminates_example :
    decode_loop 9 [] (ascii "a%2Fb%%3") ≡ some (url_decode (ascii "a%2Fb%%3"))
decode_loop-terminates_example = decode_loop-terminates (ascii "a%2Fb%%3") 9 (omega arith)

query_param-write_all_example :
    query_param (ascii "identity" ++ 61 ∷ write_all form (ascii "a+b=")) (ascii "identity")
    ≡ some (ascii "a+b=")
query_param-write_all_example =
    query_param-write_all form form-IsForm (ascii "identity") (ascii "a+b=")
      (
        λ e. cc e,
        (
          λ e. cc e,
          (λ e. cc e, (λ e. cc e, (λ e. cc e, (λ e. cc e, (λ e. cc e, (λ e. cc e, tt)))))),
        ),
      )
      (
        λ e. cc e,
        (
          λ e. cc e,
          (λ e. cc e, (λ e. cc e, (λ e. cc e, (λ e. cc e, (λ e. cc e, (λ e. cc e, tt)))))),
        ),
      )
      (omega arith, (omega arith, (omega arith, (omega arith, tt))))

abbrev health : Request
health = record { method = method_get; url = ascii "/health"; body = [] }

abbrev garbled : Request
garbled = record { method = method_post; url = ascii "/send"; body = 255 ∷ [] }

handle-Served_example :
    Served (with_limits default_limits) (handle formats (with_limits default_limits) 7 garbled)
handle-Served_example = handle-Served formats (with_limits default_limits) 7 garbled

abbrev no_codec : Codec
no_codec = record { serialize = λ _. none; deserialize = λ _. none }

abbrev arrival : Request → ℕ → Arrival
arrival request instant = record {
  ip = some (1 ∷ []);
  request = request;
  unix_secs = 7;
  instant = instant;
  flush = record { written = false; left_behind = []; renamed = false };
}

-- A fresh store that is kept in a file.
abbrev kept : RelayStore
kept = record {
  inner = empty_inner;
  limits = default_limits;
  persistence = some (record { path = 112 ∷ []; dirty = false; last_flush = 0 });
}

serve-Fits_example :
    let served =
      serve formats no_codec
        (λ p. p)
        (start kept [] (record { rate_limit_per_min = some 1 }) 5)
        (arrival health 6 ∷ arrival garbled 7 ∷ []) in
    Fits default_limits (mailbox served.0.store.inner (3 ∷ []))
serve-Fits_example =
    serve-Fits default_limits no_codec (λ p. p) formats (record { rate_limit_per_min = some 1 })
      kept [] 5 (arrival health 6 ∷ arrival garbled 7 ∷ []) (3 ∷ []) refl
      (IsValid-empty default_limits)

-- `--ttl-days 2 --rate-limit 0 :9` starts a relay in memory on `:9` without a rate limit.
launch_three :
    (codec : Codec) (disk : Disk) (now : ℕ)
    → launch codec disk now
        (ascii "--ttl-days" ∷ ascii "2" ∷ ascii "--rate-limit" ∷ ascii "0" ∷ ascii ":9" ∷ [])
      ≡ serving
          (with_limits (record default_limits { mail_ttl_secs = 172_800 }))
          (record { rate_limit_per_min = none })
          (ascii ":9")
unfolding launch parse_args parse_number read_digits with_next flag_of is_arg Bytes_discrete
    launch_with serve_from unsigned_digits
launch_three codec disk now = refl
