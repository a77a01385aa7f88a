-- ===== src/Host/Handle.antt =====
-- The handlers of a plugin's messages in crates/mh-host/src/lib.rs. The JSON reader's derived
-- instances, the texts of errors and the two providers are parameters.
pub mod Replies
pub mod Keeps
use magazine_core.Base.{
  ℕ, ◌-◌, ◌<◌, Bool, true, false, not, List, [], ◌∷◌, ◌++◌, Option, none, some, if◌then◌else◌, leb,
  ltb, Result, ok, err, ok_or,
}
use magazine_core.Text.{Text, codes, text_eq}
use magazine_core.Json.{Value, Fields, get, get_str, number, other_number, string, object, end}
use magazine_core.Fetch.Policy.{FetchRequest, FetchResponse}
use magazine_core.Protocol.Message.{
  Method, parse_method, record_method, log, state_query, fetch_request, initialize, discover,
  cancel, member, response_ok, response_err,
}
use magazine_core.Host.Error.{
  HostError, protocol, state, fetch, timeout, missing, unknown_method, not_plugin_traffic,
  record_before_discover, request_id_mismatch,
}
use magazine_core.Host.Spool.{RecordJson, push_log, spool_records}
use magazine_core.Host.Requests.{
  PluginManifest, StateOperation, require_notification, require_discover_phase,
  require_plugin_request_id, parse_state_query, parse_fetch_request,
}
use magazine_core.Host.Machine.{Machine, M, pure, raise, lift, ◌>>=◌, ◌>>◌, on_spool, send}

-- `serde_json` and the derived instances, the texts of errors, and the error codes.
pub record HostApi : Type 0 where
  pub to_string : Value → Text
  pub from_str : Text → Option Value
  pub records : RecordJson
  pub to_fetch_request : Value → Option FetchRequest
  pub display : HostError → Text
  -- -32601, -32602 and -32000 as JSON numbers.
  pub method_not_found : Value
  pub invalid_params : Value
  pub server_error : Value

-- `StateProvider` and `FetchProvider`; a failure carries its message.
pub record Providers : Type 0 where
  pub query : StateOperation → Result Text Value
  pub fetch_url : PluginManifest → FetchRequest → ℕ → Result Text FetchResponse

pub record LoopContext : Type 0 where
  pub request_id : Text
  pub manifest : Option PluginManifest
  pub providers : Providers
  pub deadline : ℕ
  pub has_cancel_token : Bool

abbrev pub or_default : Option Text → Text → Text
or_default none d = d
or_default (some s) d = s

module _ (api : HostApi) where
  abbrev reply : Value → M (Unit {0})
  reply = send api.to_string

  -- An error response, then the failure of the run.
  unfoldable pub refuse : Value → Value → Text → HostError → M (Unit {0})
  refuse id code message e = do reply (response_err id code message); raise e

  unfoldable pub query_state : Providers → Value → Value → StateOperation → M (Unit {0})
  query_state providers id query_id operation = elim (providers.query operation) [
    | err message ↦ refuse id api.server_error message (state message)
    | ok result ↦
        reply (response_ok id (object (member "id" query_id (member "result" result end))))
  ]

  unfoldable pub handle_state_query : Providers → Value → M (Unit {0})
  handle_state_query providers value = do
    id ← lift (ok_or (get (codes "id") value) (protocol (missing "state_query id")))
    lift (require_plugin_request_id id "state_query")
    params ← lift (ok_or (get (codes "params") value) (protocol (missing "state_query params")))
    elim (parse_state_query params) [
      | err e ↦ refuse id api.invalid_params (api.display e) e
      | ok (query_id, operation) ↦ query_state providers id query_id operation
    ]

  abbrev fetch_result : Value → FetchResponse → Value
  fetch_result request_id response = object (
      member "id" request_id (
        member "status" (number response.status) (
          member "final_url" (string response.final_url)
            (member "body_base64" (string response.body_base64) end))))

  unfoldable pub fetch_for :
      LoopContext → PluginManifest → Value → Value → FetchRequest → ℕ → M (Unit {0})
  fetch_for context manifest id request_id request now =
      if leb now context.deadline
      then elim (context.providers.fetch_url manifest request (context.deadline - now)) [
        | err message ↦ refuse id api.server_error message (fetch message)
        | ok response ↦ reply (response_ok id (fetch_result request_id response))
      ]
      else refuse id api.server_error (codes "fetch deadline elapsed") timeout

  unfoldable pub handle_fetch_request : LoopContext → PluginManifest → Value → ℕ → M (Unit {0})
  handle_fetch_request context manifest value now = do
    id ← lift (ok_or (get (codes "id") value) (protocol (missing "fetch_request id")))
    lift (require_plugin_request_id id "fetch_request")
    params ← lift (ok_or (get (codes "params") value) (protocol (missing "fetch_request params")))
    elim (parse_fetch_request api.to_fetch_request params) [
      | err e ↦ refuse id api.invalid_params (api.display e) e
      | ok (request_id, request) ↦ fetch_for context manifest id request_id request now
    ]

  unfoldable pub handle_record : LoopContext → Text → Value → M (Unit {0})
  handle_record context method value = do
    lift (require_notification value method)
    manifest ← lift (ok_or context.manifest (protocol record_before_discover))
    params ← lift (ok_or (get (codes "params") value) (protocol (missing "record params")))
    actual ←
        lift (ok_or (get_str (codes "request_id") params) (protocol (missing "record request_id")))
    if text_eq actual context.request_id
        then on_spool (spool_records api.records params manifest.source_name)
        else raise (protocol (request_id_mismatch actual))

  unfoldable pub handle_log : Text → Value → M (Unit {0})
  handle_log method value = do
    lift (require_notification value method)
    params ← lift (ok_or (get (codes "params") value) (protocol (missing "log params")))
    on_spool (
        push_log (or_default (get_str (codes "level") params) (codes "info"))
          (or_default (get_str (codes "message") params) []))

  -- A method that the host does not know is answered where the message has an id.
  unfoldable pub handle_unknown : Text → Value → M (Unit {0})
  handle_unknown method value = elim (get (codes "id") value) [
    | none ↦ raise (protocol (unknown_method method))
    | some id ↦
        refuse id api.method_not_found (codes "unknown method") (protocol (unknown_method method))
  ]

  -- The methods by name; `now` is the time when a fetch is about to start.
  unfoldable pub handle_method : LoopContext → Method → Text → Value → ℕ → M (Unit {0})
  handle_method context record_method method value now = handle_record context method value
  handle_method context log method value now = handle_log method value
  handle_method context state_query method value now = do
    lift (require_discover_phase context.manifest method)
    handle_state_query context.providers value
  handle_method context fetch_request method value now = do
    manifest ← lift (require_discover_phase context.manifest method)
    handle_fetch_request context manifest value now
  handle_method context initialize method value now = raise (protocol (not_plugin_traffic method))
  handle_method context discover method value now = raise (protocol (not_plugin_traffic method))
  handle_method context cancel method value now = raise (protocol (not_plugin_traffic method))

  unfoldable pub handle_plugin_message : LoopContext → Text → Value → ℕ → M (Unit {0})
  handle_plugin_message context method value now = elim (parse_method method) [
    | none ↦ handle_unknown method value
    | some parsed ↦ handle_method context parsed method value now
  ]
