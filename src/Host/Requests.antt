-- ===== src/Host/Requests.antt =====
-- The checks of a plugin's messages and the parsing of its requests in crates/mh-host/src/lib.rs.
use magazine_core.Base.{
  String, Bool, not, List, Option, none, some, if◌then◌else◌, is_empty, Result, ok, err, ok_or,
  ◌>>=◌, ◌>>◌, guard,
}
use magazine_core.Text.{Text, codes, text_eq, trim, starts_with}
use magazine_core.Json.{Value, string, get, get_str, as_str, is_some}
use magazine_core.Fetch.Policy.{FetchRequest}
use magazine_core.Host.Error.{
  HostError, protocol, missing_version, must_be_notification, only_during_discover, missing, empty,
  invalid_fetch_request, id_not_text, id_not_plugin_namespace, unknown_state_op, missing_state_arg,
  empty_state_arg,
}

pub record PluginManifest : Type 0 where
  pub source_name : Text
  pub display_label : Text
  pub allowed_domains : List Text
  pub capabilities : List Text

pub data StateOperation : Type 0 where
  known_source_urls last_seen_at : Text → StateOperation
  source_post_summary content_fingerprint : Text → Text → StateOperation

abbrev is_blank : Text → Bool
is_blank s = is_empty (trim s)

unfoldable pub require_jsonrpc : Value → Result HostError (Unit {0})
require_jsonrpc value = elim (get_str (codes "jsonrpc") value) [
  | none ↦ err (protocol missing_version)
  | some version ↦ guard (text_eq version (codes "2.0")) (protocol missing_version)
]

unfoldable pub require_notification : Value → Text → Result HostError (Unit {0})
require_notification value method =
    guard (not (is_some (get (codes "id") value))) (protocol (must_be_notification method))

unfoldable pub require_discover_phase :
    Option PluginManifest → Text → Result HostError PluginManifest
require_discover_phase none method = err (protocol (only_during_discover method))
require_discover_phase (some manifest) method = ok manifest

unfoldable pub require_plugin_request_id : Value → String → Result HostError (Unit {0})
require_plugin_request_id id method = do
  text ← ok_or (as_str id) (protocol (id_not_text method))
  guard (starts_with (codes "p-") text) (protocol (id_not_plugin_namespace method))

unfoldable pub required_state_arg : Option Value → Text → String → Result HostError Text
required_state_arg none op name = err (protocol (missing_state_arg op name))
required_state_arg (some args) op name = do
  value ← ok_or (get_str (codes name) args) (protocol (missing_state_arg op name))
  guard (not (is_blank value)) (protocol (empty_state_arg op name))
  ok value

-- The operation of a `state_query`; `args` may be missing, and is then `null`.
unfoldable pub parse_operation : Text → Option Value → Result HostError StateOperation
parse_operation op args =
    if text_eq op (codes "known_source_urls")
    then required_state_arg args op "source_name" >>= (λ name. ok (known_source_urls name))
    else if text_eq op (codes "source_post_summary")
    then required_state_arg args op "source_name" >>= (λ name.
      required_state_arg args op "source_url" >>= λ url. ok (source_post_summary name url))
    else if text_eq op (codes "last_seen_at")
    then required_state_arg args op "source_name" >>= (λ name. ok (last_seen_at name))
    else if text_eq op (codes "content_fingerprint")
    then required_state_arg args op "source_name" >>= (λ name.
      required_state_arg args op "source_url" >>= λ url. ok (content_fingerprint name url))
    else err (protocol (unknown_state_op op))

unfoldable pub parse_state_query : Value → Result HostError (Value × StateOperation)
parse_state_query params = do
  query_id ← ok_or (get_str (codes "id") params) (protocol (missing "state_query params.id"))
  op ← ok_or (get_str (codes "op") params) (protocol (missing "state_query op"))
  operation ← parse_operation op (get (codes "args") params)
  ok (string query_id, operation)

unfoldable pub parse_fetch_request :
    (Value → Option FetchRequest) → Value → Result HostError (Value × FetchRequest)
parse_fetch_request to_fetch_request params = do
  request_id ← ok_or (get_str (codes "id") params) (protocol (missing "fetch_request params.id"))
  guard (not (is_blank request_id)) (protocol (empty "fetch_request params.id"))
  request_value ← ok_or (get (codes "request") params) (protocol (missing "fetch_request request"))
  request ← ok_or (to_fetch_request request_value) (protocol invalid_fetch_request)
  ok (string request_id, request)
