-- ===== src/Cli/View.antt =====
-- The options of `mh view` in crates/mh-cli/src/view.rs, before the database is opened.
use magazine_core.Base.{
  ℕ, ◌^◌, ◌+◌, ◌-◌, ◌++◌, ◌||◌, ◌==◌, not, Bool, true, false, List, [], ◌∷◌, Option, none, some,
  any, length, leb, is_empty, if◌then◌else◌, Result, ok, err, ok_or, guard, ◌>>=◌, ◌>>◌,
}
use magazine_core.Text.{Text, codes, text_eq, trim}
use magazine_core.Text.Number.{parse_uint}
use magazine_core.Text.Split.{split}
use magazine_core.Db.Schema.{I64, pos, negsuc}
use magazine_core.Ui.Http.{decimal}

abbrev negated : ℕ → I64
negated n = if n == 0 then pos 0 else negsuc (n - 1)

-- A minus sign stands before digits, and not before a plus sign.
abbrev below_zero : Text → Option I64
below_zero [] = none
below_zero (c ∷ s) =
    if c == b'+'
    then none
    else elim (parse_uint (2 ^ 63 + 1) (c ∷ s)) [ none ↦ none | some n ↦ some (negated n) ]

-- `str::parse::<i64>`.
unfoldable pub parse_i64 : Text → Option I64
parse_i64 [] = none
parse_i64 (c ∷ s) =
    let above : Option I64 = elim (parse_uint (2 ^ 63) (c ∷ s)) [
      | none ↦ none
      | some n ↦ some (pos n)
    ] in
    if c == b'-' then below_zero s else above

pub record PostsOptions : Type 0 where
  pub limit : ℕ
  pub after_id : Option I64
  pub source_name : Option Text
  pub include_extra : Bool

abbrev pub default_posts : PostsOptions
default_posts = record { limit = 20; after_id = none; source_name = none; include_extra = false }

abbrev positive : Text
positive = codes "--limit must be a positive integer"

abbrev read_limit : Text → PostsOptions → Result Text PostsOptions
read_limit value options = do
  limit ← ok_or (parse_uint (2 ^ 32) value) positive
  guard (not (limit == 0)) positive
  ok (record options { limit = limit })

abbrev read_after : Text → PostsOptions → Result Text PostsOptions
read_after value options = do
  after_id ← ok_or (parse_i64 value) (codes "--after-id must be an integer")
  ok (record options { after_id = some after_id })

abbrev takes_value : Text → Bool
takes_value flag =
    text_eq flag (codes "--limit")
    || text_eq flag (codes "--after-id")
    || text_eq flag (codes "--source")

abbrev unknown_posts_option : Text → Text
unknown_posts_option flag = codes "unknown view posts option: " ++ flag

unfoldable pub set_posts_option : Text → Text → PostsOptions → Result Text PostsOptions
set_posts_option flag value options =
    if text_eq flag (codes "--limit")
    then read_limit value options
    else if text_eq flag (codes "--after-id")
    then read_after value options
    else if text_eq flag (codes "--source")
    then ok (record options { source_name = some value })
    else err (unknown_posts_option flag)

abbrev is_extra_flag : Text → Bool
is_extra_flag flag = text_eq flag (codes "--include-extra")

-- The loop of `run_posts` over the flags.
unfoldable pub read_posts_options : PostsOptions → List Text → Result Text PostsOptions
read_posts_options options [] = ok options
read_posts_options options (flag ∷ []) =
    if is_extra_flag flag
    then ok (record options { include_extra = true })
    else if takes_value flag
    then err (flag ++ codes " requires a value")
    else err (unknown_posts_option flag)
read_posts_options options (flag ∷ value ∷ flags) = elim (is_extra_flag flag) [
  | true ↦ read_posts_options (record options { include_extra = true }) (value ∷ flags)
  | false ↦ elim (set_posts_option flag value options) [
    | err e ↦ err e
    | ok more ↦ read_posts_options more flags
  ]
]

abbrev max_asset_ids : ℕ
max_asset_ids = 50

-- The loop of `run_assets` over the flags.
unfoldable pub read_raw_ids : Option Text → List Text → Result Text (Option Text)
read_raw_ids raw [] = ok raw
read_raw_ids raw (flag ∷ []) =
    if text_eq flag (codes "--post-ids")
    then err (codes "--post-ids requires a value")
    else err (codes "unknown view assets option: " ++ flag)
read_raw_ids raw (flag ∷ value ∷ flags) = elim (text_eq flag (codes "--post-ids")) [
  | false ↦ err (codes "unknown view assets option: " ++ flag)
  | true ↦ elim raw [
    | some _ ↦ err (codes "--post-ids specified more than once")
    | none ↦ read_raw_ids (some value) flags
  ]
]

abbrev same_id : I64 → I64 → Bool
same_id (pos a) (pos b) = a == b
same_id (negsuc a) (negsuc b) = a == b
same_id (pos a) (negsuc b) = false
same_id (negsuc a) (pos b) = false

-- The loop over the tokens, with the ids so far.
unfoldable pub read_ids : List I64 → List Text → Result Text (List I64)
read_ids ids [] = ok ids
read_ids ids (token ∷ tokens) = elim (is_empty (trim token)) [
  | true ↦ read_ids ids tokens
  | false ↦ elim (parse_i64 (trim token)) [
    | none ↦ err (codes "--post-ids entry is not an integer: " ++ trim token)
    | some id ↦ read_ids (if any (same_id id) ids then ids else ids ++ id ∷ []) tokens
  ]
]

unfoldable pub parse_post_ids : List Text → Result Text (List I64)
parse_post_ids flags = do
  given ← read_raw_ids none flags
  raw ← ok_or given (codes "view assets requires --post-ids <id,...>")
  ids ← read_ids [] (split b',' raw)
  guard (not (is_empty ids)) (codes "--post-ids requires at least one id")
  guard (leb (length ids) max_asset_ids) (
      codes "--post-ids accepts at most "
      ++ (decimal max_asset_ids ++ (codes " ids, got " ++ decimal (length ids))))
  ok ids
