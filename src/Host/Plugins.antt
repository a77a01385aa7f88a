-- ===== src/Host/Plugins.antt =====
-- The plugin definitions of a directory in crates/mh-host/src/lib.rs (`discover_plugins`), and the
-- rules for the environment of a plugin. The directory is read by the caller of the model: an entry
-- has its path and its contents, in the order of the paths.
pub mod Declared
pub mod Loaded
use magazine_core.Base.{
  ℕ, String, Bool, true, false, not, ◌&&◌, ◌||◌, List, [], ◌∷◌, ◌++◌, map, Option, none, some, any,
  all, is_empty, ◌==◌, if◌then◌else◌, Result, ok, err, ok_or, ◌>>=◌, ◌>>◌, guard,
}
use magazine_core.Text.{
  Text, codes, text_eq, trim, contains, to_ascii_uppercase, is_ascii_alphabetic,
  is_ascii_alphanumeric,
}
use magazine_core.Text.Utf8.{as_bytes}

abbrev secret_words : List String
secret_words =
    "TOKEN" ∷ "SECRET" ∷ "PASSWORD" ∷ "PASS" ∷ "KEY" ∷ "CREDENTIAL" ∷ "AUTH" ∷ "COOKIE" ∷ []

unfoldable pub redact_env_key : Text → Text
redact_env_key value =
    if any (λ word. contains (codes word) (to_ascii_uppercase value)) secret_words
    then codes "<redacted-secret-env>"
    else value

abbrev pub name_byte : ℕ → Bool
name_byte b = is_ascii_alphanumeric b || b == b'_'

abbrev pub valid_name_bytes : List ℕ → Bool
valid_name_bytes [] = false
valid_name_bytes (first ∷ bytes) =
    (is_ascii_alphabetic first || first == b'_') && all name_byte bytes

unfoldable pub valid_environment_name : Text → Bool
valid_environment_name value = valid_name_bytes (as_bytes value)

-- The messages of `environment_declaration_errors`, with the name that each one shows.
pub data EnvironmentError : Type 0 where
  invalid_name duplicated_name in_both : Text → EnvironmentError

abbrev pub member_of : Text → List Text → Bool
member_of k = any (text_eq k)

abbrev error_if : Bool → EnvironmentError → List EnvironmentError
error_if test e = if test then e ∷ [] else []

-- The loop over `env_from`, behind the names in `seen`.
unfoldable pub environment_errors_from : List Text → List Text → List Text → List EnvironmentError
environment_errors_from literal_names seen [] = []
environment_errors_from literal_names seen (key ∷ keys) =
    let normalized = to_ascii_uppercase key in
    error_if (not (valid_environment_name key)) (invalid_name (redact_env_key key))
    ++ (error_if (member_of normalized seen) (duplicated_name (redact_env_key key))
        ++ (error_if (member_of normalized literal_names) (in_both (redact_env_key key))
            ++ environment_errors_from literal_names (normalized ∷ seen) keys))

-- An environment is a list of names with values.
abbrev pub Environment : Type 0
Environment = List (Text × Text)

abbrev pub names : Environment → List Text
names = map λ (key, value). key

unfoldable pub environment_declaration_errors : Environment → List Text → List EnvironmentError
environment_declaration_errors literal inherited =
    environment_errors_from (map to_ascii_uppercase (names literal)) [] inherited

pub record PluginDefinitionFile : Type 0 where
  pub id : Option Text
  pub source_name : Option Text
  pub argv : List Text
  pub env : Environment
  pub env_from : List Text
  pub working_dir : Option Text

pub record PluginDefinition : Type 0 where
  pub id : Text
  pub argv : List Text
  pub env : Environment
  pub working_dir : Option Text
  pub manifest_path : Text

-- An error of the discovery; an I/O error is a number.
pub data DiscoveryError : Type 0 where
  io : ℕ → DiscoveryError
  json : DiscoveryError
  empty_argv no_id empty_id : Text → DiscoveryError
  environment : Text → List EnvironmentError → DiscoveryError
  duplicate_id : Text → Text → DiscoveryError

pub record Entry : Type 0 where
  pub path : Text
  pub extension : Option Text
  pub file_stem : Option Text
  pub contents : Result ℕ Text

-- The JSON reader, the host's environment and the resolution of a directory against the manifest's.
pub record PluginApi : Type 0 where
  pub parse : Text → Option PluginDefinitionFile
  pub var : Text → Option Text
  pub resolve : Text → Text → Text

-- `BTreeMap::insert`.
unfoldable pub insert : Text → Text → Environment → Environment
insert key value [] = (key, value) ∷ []
insert key value ((k, v) ∷ env) =
    let rest = insert key value env in if text_eq k key then (key, value) ∷ env else (k, v) ∷ rest

abbrev pub or_option : Option Text → Option Text → Option Text
or_option none b = b
or_option (some a) b = some a

abbrev read_error : Result ℕ Text → Result DiscoveryError Text
read_error (ok raw) = ok raw
read_error (err e) = err (io e)

module _ (api : PluginApi) where
  -- The values of `env_from` that the host has.
  unfoldable pub inherit : List Text → Environment → Environment
  inherit [] env = env
  inherit (key ∷ keys) env =
      inherit keys (elim (api.var key) [ none ↦ env | some value ↦ insert key value env ])

  -- One manifest, up to its id.
  unfoldable pub load_plugin : Entry → Result DiscoveryError PluginDefinition
  load_plugin entry = do
    raw ← read_error entry.contents
    parsed ← ok_or (api.parse raw) json
    guard (not (is_empty parsed.argv)) (empty_argv entry.path)
    let errors = environment_declaration_errors parsed.env parsed.env_from
    guard (is_empty errors) (environment entry.path errors)
    id ←
        ok_or (or_option parsed.id (or_option parsed.source_name entry.file_stem))
          (no_id entry.path)
    guard (not (is_empty (trim id))) (empty_id entry.path)
    ok (record {
      id = id;
      argv = parsed.argv;
      env = inherit parsed.env_from parsed.env;
      working_dir = elim parsed.working_dir [
        | none ↦ none
        | some dir ↦ some (api.resolve entry.path dir)
      ];
      manifest_path = entry.path;
    })

  abbrev pub is_manifest : Entry → Bool
  is_manifest entry = elim entry.extension [ none ↦ false | some ext ↦ text_eq ext (codes "json") ]

  -- The loop over the entries, behind the ids in `seen`.
  unfoldable pub load_from : List Text → List Entry → Result DiscoveryError (List PluginDefinition)
  load_from seen [] = ok []
  load_from seen (entry ∷ entries) =
      let skipped = load_from seen entries in
      if is_manifest entry
      then load_plugin entry >>= (λ plugin.
        guard (not (member_of plugin.id seen)) (duplicate_id plugin.id entry.path)
        >> (load_from (plugin.id ∷ seen) entries >>= λ plugins. ok (plugin ∷ plugins)))
      else skipped

  unfoldable pub discover_plugins :
      Result ℕ (List Entry) → Result DiscoveryError (List PluginDefinition)
  discover_plugins (err e) = err (io e)
  discover_plugins (ok entries) = load_from [] entries
