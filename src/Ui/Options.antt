-- ===== src/Ui/Options.antt =====
-- The command line of the UI server in crates/mh-cli/src/ui.rs.
use magazine_core.Base.{
  ℕ, ◌^◌, ◌++◌, ◌||◌, Bool, true, false, List, [], ◌∷◌, Option, none, some, if◌then◌else◌, Result,
  ok, err, ok_or, ◌>>=◌,
}
use magazine_core.Text.{Text, codes, text_eq}
use magazine_core.Text.Number.{parse_uint}
use magazine_core.Ui.Authority.{UiOptions}

-- What the flags have given so far.
pub record Flags : Type 0 where
  pub db_path : Option Text
  pub plugins_dir : Option Text
  pub port : Option ℕ
  pub manage : Bool

abbrev no_flags : Flags
no_flags = record { db_path = none; plugins_dir = none; port = none; manage = false }

abbrev default_ui_port : ℕ
default_ui_port = 8765

-- A flag that has not been seen takes its value.
abbrev pub once : {A B : Type 0} → Text → Option A → B → Result Text B
once flag none b = ok b
once flag (some _) b = err (flag ++ codes " specified more than once")

abbrev read_port : Text → Text → Flags → Result Text Flags
read_port flag value flags = do
  seen ← once flag flags.port flags
  port ← ok_or (parse_uint (2 ^ 16) value) (codes "--port must be a TCP port")
  ok (record seen { port = some port })

-- A flag with a value.
unfoldable pub set_flag : Flags → Text → Text → Result Text Flags
set_flag flags flag value =
    if text_eq flag (codes "--db")
    then once flag flags.db_path (record flags { db_path = some value })
    else if text_eq flag (codes "--plugins-dir")
    then once flag flags.plugins_dir (record flags { plugins_dir = some value })
    else if text_eq flag (codes "--port")
    then read_port flag value flags
    else err (codes "unknown ui option: " ++ flag)

abbrev is_refused : Text → Bool
is_refused flag = text_eq flag (codes "--host") || text_eq flag (codes "--bind")

abbrev not_accepted : Text → Text
not_accepted flag = flag ++ codes " is not accepted by the local-only UI"

-- The loop over the arguments.
unfoldable pub read_flags : Flags → List Text → Result Text Flags
read_flags flags [] = ok flags
read_flags flags (flag ∷ []) =
    if is_refused flag
    then err (not_accepted flag)
    else if text_eq flag (codes "--manage")
    then if flags.manage
      then err (codes "--manage specified more than once")
      else ok (record flags { manage = true })
    else err (flag ++ codes " requires a value")
read_flags flags (flag ∷ value ∷ args) = elim (is_refused flag) [
  | true ↦ err (not_accepted flag)
  | false ↦ elim (text_eq flag (codes "--manage")) [
    | true ↦ elim flags.manage [
      | true ↦ err (codes "--manage specified more than once")
      | false ↦ read_flags (record flags { manage = true }) (value ∷ args)
    ]
    | false ↦ elim (set_flag flags flag value) [ err e ↦ err e | ok more ↦ read_flags more args ]
  ]
]

abbrev port_or_default : Option ℕ → ℕ
port_or_default none = default_ui_port
port_or_default (some port) = port

unfoldable pub parse_ui_options : List Text → Result Text UiOptions
parse_ui_options args = do
  flags ← read_flags no_flags args
  db_path ← ok_or flags.db_path (codes "--db is required")
  plugins_dir ← ok_or flags.plugins_dir (codes "--plugins-dir is required")
  ok (record {
    db_path = db_path;
    plugins_dir = plugins_dir;
    port = port_or_default flags.port;
    bound_port = port_or_default flags.port;
    manage = flags.manage;
    token = none;
  })
