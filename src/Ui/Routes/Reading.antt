-- ===== src/Ui/Routes/Reading.antt =====
-- The handlers of crates/mh-cli/src/ui.rs that only read.
use magazine_core.Base.{ℕ, min, max, Option, none, some, Result}
use magazine_core.Text.{Text, codes}
use magazine_core.Json.{Value, null, bool, object, end}
use magazine_core.Protocol.Message.{member}
use magazine_core.Ui.Target.{query_value, query_u32}
use magazine_core.Ui.Http.{HttpResponse, UiJson, json_response, plain_error}
use magazine_core.Ui.Authority.{UiOptions}
use magazine_core.Ui.Manage.{System, active_run_json, completed_run_json}

-- What the server asks of the database file, of the plugin directory and of its page: `none` is an
-- error, and the values are the JSON of what is read.
pub record Backend (D : Type 0) : Type 0 where
  pub ui_summary : D → Option Value
  pub source_record_page : ℕ → ℕ → D → Option Value
  pub known_source_url_state : Option Text → D → Option Value
  -- `open`, `initialize` and `inspect`, with the text of the error.
  pub init_db : D → Result Text Value × D
  pub inspect_plugin_manifests : Option Value
  pub index_html : UiOptions → Text

pub record World (D : Type 0) : Type 0 where
  pub database : D
  pub system : System

abbrev nullable : Option Value → Value
nullable none = null
nullable (some value) = value

abbrev value_or : Option ℕ → ℕ → ℕ
value_or none default = default
value_or (some value) default = value

-- A value that was read, or an error.
abbrev read_response : UiJson → Option Value → HttpResponse
read_response api none = plain_error api 500 "Internal Server Error" "database read failed"
read_response api (some value) = json_response api 200 value

module _ {D : Type 0} (api : UiJson) (backend : Backend D) where
  unfoldable pub summary_response : World D → HttpResponse
  summary_response w = read_response api (backend.ui_summary w.database)

  unfoldable pub records_response : Option Text → World D → HttpResponse
  records_response query w =
      let limit = max 1 (min 200 (value_or (query_u32 query (codes "limit")) 50)) in
      let offset = value_or (query_u32 query (codes "offset")) 0 in
      read_response api (backend.source_record_page limit offset w.database)

  unfoldable pub known_source_urls_response : Option Text → World D → HttpResponse
  known_source_urls_response query w =
      read_response api
        (backend.known_source_url_state (query_value query (codes "source_name")) w.database)

  unfoldable pub plugins_response : HttpResponse
  plugins_response = elim backend.inspect_plugin_manifests [
    | none ↦ plain_error api 500 "Internal Server Error" "plugin manifest read failed"
    | some plugins ↦ json_response api 200 (object (member "plugins" plugins end))
  ]

abbrev mapped {ℓ} : {A : Type ℓ} → (A → Value) → Option A → Value
mapped f none = null
mapped f (some a) = f a

module _ {D : Type 0} (api : UiJson) (options : UiOptions) where
  unfoldable pub management_status_response : World D → HttpResponse
  management_status_response w =
      let s = w.system in
      json_response api 200 (
        object (
          member "manage" (bool options.manage) (
            member "active" (mapped (active_run_json s.tokens) s.management.active)
              (member "last" (mapped completed_run_json s.management.last) end))))
