-- ===== src/Cli/Discover.antt =====
-- The options of `mh discover` in crates/mh-cli/src/main.rs. A time is in seconds.
use magazine_core.Base.{
  ℕ, ◌^◌, ◌++◌, ◌||◌, ◌&&◌, ◌==◌, not, Bool, true, false, List, [], ◌∷◌, Option, none, some,
  if◌then◌else◌, Result, ok, err, ok_or, guard, ◌>>=◌, ◌>>◌,
}
use magazine_core.Text.{Text, codes, text_eq}
use magazine_core.Text.Number.{parse_uint}

pub record DiscoverLimits : Type 0 where
  pub max_pages : Option ℕ
  pub max_records : Option ℕ
  pub per_page : Option ℕ

pub record DiscoverOptions : Type 0 where
  pub limits : DiscoverLimits
  -- `none` for the default time.
  pub timeout : Option ℕ
  pub dev_allow_loopback_fetch : Bool

abbrev pub default_options : DiscoverOptions
default_options = record {
  limits = record { max_pages = none; max_records = none; per_page = none };
  timeout = none;
  dev_allow_loopback_fetch = false;
}

abbrev pub is_loopback_flag : Text → Bool
is_loopback_flag flag = text_eq flag (codes "--dev-allow-loopback-fetch")

unfoldable pub parse_limit_value : Text → Text → Result Text ℕ
parse_limit_value flag value = do
  parsed ← ok_or (parse_uint (2 ^ 64) value) (flag ++ codes " must be a non-negative integer")
  guard
      (not
        ((text_eq flag (codes "--max-pages") || text_eq flag (codes "--per-page")) && parsed == 0))
      (flag ++ codes " must be greater than zero")
  ok parsed

unfoldable pub parse_timeout_seconds : Text → Result Text ℕ
parse_timeout_seconds value = do
  parsed ← ok_or (parse_uint (2 ^ 64) value) (codes "--timeout-seconds must be a positive integer")
  guard (not (parsed == 0)) (codes "--timeout-seconds must be greater than zero")
  ok parsed

-- A value for a flag that has none yet.
abbrev pub first_time : Text → Option ℕ → Result Text (Unit {0})
first_time flag none = ok tt
first_time flag (some _) = err (flag ++ codes " specified more than once")

abbrev takes_value : Text → Bool
takes_value flag =
    text_eq flag (codes "--max-pages")
    || text_eq flag (codes "--max-records")
    || text_eq flag (codes "--per-page")
    || text_eq flag (codes "--timeout-seconds")

abbrev unknown_option : Text → Text
unknown_option flag = codes "unknown discover option: " ++ flag

abbrev read_limit :
    Text → Text → Option ℕ → (ℕ → DiscoverLimits) → DiscoverOptions → Result Text DiscoverOptions
read_limit flag value before limits options = do
  parsed ← parse_limit_value flag value
  first_time flag before
  ok (record options { limits = limits parsed })

abbrev read_timeout : Text → Text → DiscoverOptions → Result Text DiscoverOptions
read_timeout flag value options = do
  first_time flag options.timeout
  parsed ← parse_timeout_seconds value
  ok (record options { timeout = some parsed })

-- A flag with its value.
unfoldable pub set_option : DiscoverOptions → Text → Text → Result Text DiscoverOptions
set_option options flag value =
    let limits = options.limits in
    if text_eq flag (codes "--max-pages")
    then read_limit flag value limits.max_pages (λ n. record limits { max_pages = some n }) options
    else if text_eq flag (codes "--max-records")
    then read_limit flag value limits.max_records (λ n. record limits { max_records = some n })
        options
    else if text_eq flag (codes "--per-page")
    then read_limit flag value limits.per_page (λ n. record limits { per_page = some n }) options
    else if text_eq flag (codes "--timeout-seconds")
    then read_timeout flag value options
    else err (unknown_option flag)

abbrev loopback_twice : Text
loopback_twice = codes "--dev-allow-loopback-fetch specified more than once"

-- The loop over the arguments.
unfoldable pub read_options : DiscoverOptions → List Text → Result Text DiscoverOptions
read_options options [] = ok options
read_options options (flag ∷ []) =
    if is_loopback_flag flag
    then if options.dev_allow_loopback_fetch
      then err loopback_twice
      else ok (record options { dev_allow_loopback_fetch = true })
    else if takes_value flag
    then err (flag ++ codes " requires a value")
    else err (unknown_option flag)
read_options options (flag ∷ value ∷ args) = elim (is_loopback_flag flag) [
  | true ↦ elim options.dev_allow_loopback_fetch [
    | true ↦ err loopback_twice
    | false ↦ read_options (record options { dev_allow_loopback_fetch = true }) (value ∷ args)
  ]
  | false ↦ elim (set_option options flag value) [
    | err e ↦ err e
    | ok more ↦ read_options more args
  ]
]

unfoldable pub parse_discover_options : List Text → Result Text DiscoverOptions
parse_discover_options = read_options default_options
