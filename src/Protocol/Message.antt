-- ===== src/Protocol/Message.antt =====
-- crates/mh-protocol/src/message.rs: methods, limits and message builders.
use magazine_core.Base.{ℕ, ◌≡◌, ◌↔◌, refl, String, Option, none, some, if◌then◌else◌, arith}
use magazine_core.Text.{Text, codes, text_eq}
use magazine_core.Text.Laws.{text_eq_iff}
use magazine_core.Json.{Value, Fields, string, object, end, field}

abbrev pub protocol_version : ℕ
protocol_version = 1

abbrev pub record_schema_version : ℕ
record_schema_version = 1

abbrev pub max_pending_requests : ℕ
max_pending_requests = 16

abbrev pub max_record_batch : ℕ
max_record_batch = 100

pub data Method : Type 0 where
  initialize discover cancel fetch_request state_query record_method log : Method

unfoldable pub method_text : Method → Text
method_text initialize = codes "initialize"
method_text discover = codes "discover"
method_text cancel = codes "cancel"
method_text fetch_request = codes "fetch_request"
method_text state_query = codes "state_query"
method_text record_method = codes "record"
method_text log = codes "log"

unfoldable pub parse_method : Text → Option Method
parse_method s =
    if text_eq s (codes "initialize")
    then some initialize
    else if text_eq s (codes "discover")
    then some discover
    else if text_eq s (codes "cancel")
    then some cancel
    else if text_eq s (codes "fetch_request")
    then some fetch_request
    else if text_eq s (codes "state_query")
    then some state_query
    else if text_eq s (codes "record")
    then some record_method
    else if text_eq s (codes "log")
    then some log
    else none

-- One member of an object literal.
abbrev pub member : String → Value → Fields → Fields
member k v fs = field (codes k) v fs

abbrev version_member : Fields → Fields
version_member = member "jsonrpc" (string (codes "2.0"))

unfoldable pub request : Text → Method → Value → Value
unfolding method_text
request id method params = object (
    version_member (
      member "id" (string id)
        (member "method" (string (method_text method)) (member "params" params end))))

unfoldable pub notification : Method → Value → Value
unfolding method_text
notification method params =
    object
      (version_member (member "method" (string (method_text method)) (member "params" params end)))

unfoldable pub response_ok : Value → Value → Value
response_ok id result = object (version_member (member "id" id (member "result" result end)))

-- The error code is a negative i64: a number that is no u64.
unfoldable pub response_err : Value → Value → Text → Value
response_err id code message =
    let error = object (member "code" code (member "message" (string message) end)) in
    object (version_member (member "id" id (member "error" error end)))

parse_method-method_text : (m : Method) → parse_method (method_text m) ≡ some m
unfolding parse_method method_text text_eq
parse_method-method_text initialize = refl
parse_method-method_text discover = refl
parse_method-method_text cancel = refl
parse_method-method_text fetch_request = refl
parse_method-method_text state_query = refl
parse_method-method_text record_method = refl
parse_method-method_text log = refl

parse_method_text : (s : Text) (m : Method) → parse_method s ≡ some m → s ≡ method_text m
unfolding parse_method method_text
parse_method_text s m e = ground (
  arith,
  text_eq_iff s (codes "initialize"),
  text_eq_iff s (codes "discover"),
  text_eq_iff s (codes "cancel"),
  text_eq_iff s (codes "fetch_request"),
  text_eq_iff s (codes "state_query"),
  text_eq_iff s (codes "record"),
  text_eq_iff s (codes "log"),
)

-- `Method::parse` accepts exactly the texts of `Method::as_str`, each as its method.
parse_method_iff : (s : Text) (m : Method) → (parse_method s ≡ some m) ↔ (s ≡ method_text m)
parse_method_iff s m = (parse_method_text s m, λ e. rw e (parse_method-method_text m))
