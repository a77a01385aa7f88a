-- ===== src/Ui/Routes/Request.antt =====
-- The body of a discover request in crates/mh-cli/src/ui.rs.
pub mod Bounds
use magazine_core.Base.{
  ℕ, ◌*◌, ◌++◌, ◌==◌, not, String, Option, none, some, leb, is_empty, Result, ok, err, ok_or, guard,
  ◌>>=◌, ◌>>◌, List,
}
use magazine_core.Text.{Text, codes, trim}
use magazine_core.Json.{Value, get_str, get_u64}
use magazine_core.Ui.Http.{UiJson, decimal}

abbrev pub max_manage_discover_pages : ℕ
max_manage_discover_pages = 1000

abbrev pub max_manage_discover_per_page : ℕ
max_manage_discover_per_page = 1000

abbrev pub max_manage_discover_records : ℕ
max_manage_discover_records = 10000

abbrev pub max_manage_discover_timeout_seconds : ℕ
max_manage_discover_timeout_seconds = 3600

-- The three limits are given to the run as `Some`; the time in seconds.
pub record DiscoverRequest : Type 0 where
  pub plugin_id : Text
  pub max_pages : ℕ
  pub max_records : ℕ
  pub per_page : ℕ
  pub timeout_seconds : ℕ

unfoldable pub required_string : Value → String → Result Text Text
required_string value key = do
  parsed ← ok_or (get_str (codes key) value) (codes key ++ codes " is required")
  guard (not (is_empty (trim parsed))) (codes key ++ codes " must not be empty")
  ok parsed

unfoldable pub required_bounded_u64 : Value → String → ℕ → Result Text ℕ
required_bounded_u64 value key max = do
  parsed ← ok_or (get_u64 (codes key) value) (codes key ++ codes " is required")
  guard (not (parsed == 0)) (codes key ++ codes " must be greater than zero")
  guard (leb parsed max) (codes key ++ (codes " must be less than or equal to " ++ decimal max))
  ok parsed

unfoldable pub parse_discover_request : UiJson → List ℕ → Result Text DiscoverRequest
parse_discover_request api body = do
  value ← ok_or (api.from_slice body) (codes "invalid JSON body")
  plugin_id ← required_string value "plugin_id"
  max_pages ← required_bounded_u64 value "max_pages" max_manage_discover_pages
  per_page ← required_bounded_u64 value "per_page" max_manage_discover_per_page
  max_records ← required_bounded_u64 value "max_records" max_manage_discover_records
  timeout_seconds ← required_bounded_u64 value "timeout_seconds" max_manage_discover_timeout_seconds
  ok (record {
    plugin_id = plugin_id;
    max_pages = max_pages;
    max_records = max_records;
    per_page = per_page;
    timeout_seconds = timeout_seconds;
  })
