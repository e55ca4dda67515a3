-- ===== src/Relay/CommandLine.antt =====
-- relay/src/main.rs: the arguments, and the store and options that they start the server with. The
-- file system is that of the store; texts on the error output are left out.
use pigeonhole_clarity_messe.Prelude.{
  ℕ, ◌+◌, ◌-◌, ◌*◌, ◌%◌, ◌^◌, Bool, true, false, ◌&&◌, ◌==◌, Option, none, some, List, [], ◌∷◌, ltb,
  leb, ite, if◌then◌else◌,
}
use pigeonhole_clarity_messe.Prelude.Bytes.{Bytes, Bytes_discrete, ascii}
use pigeonhole_clarity_messe.Prelude.Result.{Result, ok, err}
use pigeonhole_clarity_messe.Relay.Store.Defs.{StoreLimits, default_limits}
use pigeonhole_clarity_messe.Relay.Store.Persistence.{
  Codec, Disk, IoError, RelayStore, open_store, with_limits,
}
use pigeonhole_clarity_messe.Relay.Server.Serve.{ServeOptions}

-- The locals of `main`.
pub record Arguments : Type 0 where
  pub addr : Bytes
  pub state_path : Option Bytes
  pub limits : StoreLimits
  pub rate_limit : ℕ

abbrev pub default_arguments : Arguments
default_arguments = record {
  addr = ascii "0.0.0.0:8080";
  state_path = none;
  limits = default_limits;
  rate_limit = 240;
}

-- The arguments, the usage text, or the exit status.
pub data Parsed : Type 0 where
  parsed : Arguments → Parsed
  usage : Parsed
  exited : ℕ → Parsed

-- The digits of a number below `bound`, after those that give `value`.
unfoldable pub read_digits : ℕ → ℕ → Bytes → Option ℕ
read_digits bound value [] = some value
read_digits bound value (c ∷ s) =
    let next = value * 10 + (c - 48) in
    let rest = read_digits bound (value * 10 + (c - 48)) s in
    if leb 48 c && (leb c 57 && ltb next bound) then rest else none

-- `str::parse` at an unsigned type: a plus sign may lead, and there is a digit.
unfoldable pub unsigned_digits : ℕ → Bytes → Option ℕ
unfolding read_digits
unsigned_digits bound [] = none
unsigned_digits bound (c ∷ s) = read_digits bound 0 (c ∷ s)

unfoldable pub parse_number : ℕ → Bytes → Option ℕ
unfolding unsigned_digits
parse_number bound [] = none
parse_number bound (c ∷ s) =
    if c == 43 then unsigned_digits bound s else unsigned_digits bound (c ∷ s)

unfoldable pub is_arg : Bytes → Bytes → Bool
unfolding Bytes_discrete
is_arg arg name = ite (Bytes_discrete arg name) true false

abbrev pub starts_with_dashes : Bytes → Bool
starts_with_dashes (a ∷ b ∷ s) = a == 45 && b == 45
starts_with_dashes s = false

-- The arms of the `match` on an argument.
pub data Flag : Type 0 where
  state ttl_days rate_limit_flag help unknown positional : Flag

unfoldable pub flag_of : Bytes → Flag
unfolding is_arg
flag_of arg =
    if is_arg arg (ascii "--state")
    then state
    else if is_arg arg (ascii "--ttl-days")
    then ttl_days
    else if is_arg arg (ascii "--rate-limit")
    then rate_limit_flag
    else if is_arg arg (ascii "--help")
    then help
    else if is_arg arg (ascii "-h")
    then help
    else if starts_with_dashes arg
    then unknown
    else positional

-- `limits.mail_ttl_secs = days * 24 * 60 * 60` on a `u64`.
abbrev pub with_days : Arguments → ℕ → Arguments
with_days a days = record a {
  limits = record a.limits { mail_ttl_secs = days * 24 * 60 * 60 % 2 ^ 64 };
}

abbrev pub or_exit : Option ℕ → (ℕ → Parsed) → Parsed
or_exit none next = exited 2
or_exit (some n) next = next n

-- An argument with another after it: `past` goes on behind both, `on` behind the first.
unfoldable pub with_next :
    Arguments → Bytes → Bytes → (Arguments → Parsed) → (Arguments → Parsed) → Flag → Parsed
unfolding parse_number
with_next a arg value past on state = past (record a { state_path = some value })
with_next a arg value past on ttl_days =
    or_exit (parse_number (2 ^ 64) value) λ days. past (with_days a days)
with_next a arg value past on rate_limit_flag =
    or_exit (parse_number (2 ^ 32) value) λ n. past (record a { rate_limit = n })
with_next a arg value past on help = usage
with_next a arg value past on unknown = exited 2
with_next a arg value past on positional = on (record a { addr = arg })

-- The last argument, which has no value after it.
abbrev pub without_next : Arguments → Bytes → Flag → Parsed
without_next a arg help = usage
without_next a arg positional = parsed (record a { addr = arg })
without_next a arg state = exited 2
without_next a arg ttl_days = exited 2
without_next a arg rate_limit_flag = exited 2
without_next a arg unknown = exited 2

-- The `while let Some(arg) = args.next()` loop.
unfoldable pub parse_args : List Bytes → Arguments → Parsed
unfolding with_next flag_of
parse_args [] a = parsed a
parse_args (arg ∷ []) a = without_next a arg (flag_of arg)
parse_args (arg ∷ value ∷ rest) a =
    let past = parse_args rest in
    let on = parse_args (value ∷ rest) in with_next a arg value past on (flag_of arg)

-- What `main` goes on to: the server on an address, or an exit status.
pub data Launched : Type 0 where
  serving : RelayStore → ServeOptions → Bytes → Launched
  stopped : ℕ → Launched

-- Zero switches the rate limit off.
abbrev pub options_of : Arguments → ServeOptions
options_of a = record {
  rate_limit_per_min = if ltb 0 a.rate_limit then some a.rate_limit else none;
}

abbrev pub serve_opened : Arguments → Result IoError RelayStore → Launched
serve_opened a (ok store) = serving store (options_of a) a.addr
serve_opened a (err e) = stopped 1

unfoldable pub serve_from : Codec → Disk → ℕ → Arguments → Option Bytes → Launched
unfolding open_store with_limits
serve_from codec disk now a (some path) = serve_opened a (open_store codec disk path a.limits now)
serve_from codec disk now a none = serving (with_limits a.limits) (options_of a) a.addr

unfoldable pub launch_with : Codec → Disk → ℕ → Parsed → Launched
unfolding serve_from
launch_with codec disk now (parsed a) = serve_from codec disk now a a.state_path
launch_with codec disk now usage = stopped 0
launch_with codec disk now (exited code) = stopped code

unfoldable pub launch : Codec → Disk → ℕ → List Bytes → Launched
unfolding parse_args launch_with
launch codec disk now args = launch_with codec disk now (parse_args args default_arguments)
