-- ===== src/Ext/Broker.antt =====
-- The messages that an extension's page may post, in crates/mh-cli/src/ui_ext/broker.rs.
use magazine_core.Base.{
  ℕ, ◌*◌, ◌^◌, ◌&&◌, ◌||◌, ◌==◌, not, Bool, false, String, List, [], ◌∷◌, ◌++◌, Option, none, some,
  any, all, length, leb, ltb, is_empty, if◌then◌else◌, Result, ok, err, ok_or, guard, ◌>>=◌, ◌>>◌,
}
use magazine_core.Text.{Text, codes, text_eq, trim, is_ascii_alphanumeric}
use magazine_core.Text.Utf8.{as_bytes}
use magazine_core.Json.{Value, Fields, object, end, field, get_field, get_str, as_u64, is_some}
use magazine_core.Ext.Path.{is_control}
use magazine_core.Ui.Http.{UiJson, decimal}

abbrev pub max_browser_message_bytes : ℕ
max_browser_message_bytes = 16 * 1024

abbrev pub max_request_id_bytes : ℕ
max_request_id_bytes = 64

abbrev pub max_work_key_bytes : ℕ
max_work_key_bytes = 4096

pub data ReadOperation : Type 0 where
  gallery_list graph_detail : ReadOperation

pub record BrowserReadRequest : Type 0 where
  pub request_id : Text
  pub op : ReadOperation
  pub payload : Value

abbrev pub as_object : Value → Option Fields
as_object (object fields) = some fields
as_object _ = none

unfoldable pub keys : Fields → List Text
keys end = []
keys (field key value fields) = key ∷ keys fields

unfoldable pub require_exact_keys : Fields → List Text → Result Text (Unit {0})
require_exact_keys fields allowed =
    if any (λ key. not (any (text_eq key) allowed)) (keys fields)
      || any (λ key. not (is_some (get_field key fields))) allowed
    then err (codes "broker message contains missing or unknown fields")
    else ok tt

unfoldable pub validate_bounded_text : Text → ℕ → String → Result Text (Unit {0})
validate_bounded_text value max_bytes name = do
  guard (not (is_empty (trim value))) (codes name ++ codes " must not be blank")
  guard (leb (length (as_bytes value)) max_bytes)
      (codes name ++ (codes " exceeds " ++ (decimal max_bytes ++ codes " UTF-8 bytes")))
  guard (not (any is_control value)) (codes name ++ codes " contains a control character")

-- A number that is an i64 and not negative. `as_i64` has none above 2^63 - 1.
abbrev pub as_i64 : Option Value → Option ℕ
as_i64 none = none
as_i64 (some value) = elim (as_u64 value) [
  | none ↦ none
  | some n ↦ if ltb n (2 ^ 63) then some n else none
]

abbrev pub gallery_keys : List Text
gallery_keys = codes "limit" ∷ codes "offset" ∷ []

-- A negative number is no u64, and the code refuses it with another text.
unfoldable pub validate_gallery : Fields → Result Text (Unit {0})
validate_gallery fields = do
  require_exact_keys fields gallery_keys
  limit ←
      ok_or (as_i64 (get_field (codes "limit") fields))
        (codes "gallery.list limit must be an integer")
  guard (leb 1 limit && leb limit 200) (codes "gallery.list limit must be between 1 and 200")
  _ ←
      ok_or (as_i64 (get_field (codes "offset") fields))
        (codes "gallery.list offset must not be negative")
  ok tt

unfoldable pub validate_graph : Fields → Result Text (Unit {0})
validate_graph fields = do
  require_exact_keys fields (codes "work_key" ∷ [])
  work_key ←
      ok_or (get_str (codes "work_key") (object fields))
        (codes "graph.detail work_key must be a string")
  validate_bounded_text work_key max_work_key_bytes "work_key"

unfoldable pub validate_payload : ReadOperation → Value → Result Text (Unit {0})
validate_payload op payload = elim (as_object payload) [
  | none ↦ err (codes "broker payload must be a JSON object")
  | some fields ↦ elim op [
    | gallery_list ↦ validate_gallery fields
    | graph_detail ↦ validate_graph fields
  ]
]

abbrev is_text : Option Text → Text → Bool
is_text none expected = false
is_text (some text) expected = text_eq text expected

abbrev operation : Option Text → Option ReadOperation
operation none = none
operation (some name) =
    if text_eq name (codes "gallery.list")
    then some gallery_list
    else if text_eq name (codes "graph.detail")
    then some graph_detail
    else none

abbrev pub is_id_byte : ℕ → Bool
is_id_byte byte = is_ascii_alphanumeric byte || byte == b'_' || byte == b'-'

abbrev pub message_keys : List Text
message_keys =
    codes "channel" ∷ codes "type" ∷ codes "request_id" ∷ codes "op" ∷ codes "payload" ∷ []

unfoldable pub parse_browser_request : UiJson → Value → Result Text BrowserReadRequest
parse_browser_request api value = do
  fields ← ok_or (as_object value) (codes "broker message must be a JSON object")
  require_exact_keys fields message_keys
  guard (is_text (get_str (codes "channel") value) (codes "mh-ui-read-broker.v1"))
      (codes "broker channel mismatch")
  guard (is_text (get_str (codes "type") value) (codes "read"))
      (codes "broker message type is not read")
  request_id ←
      ok_or (get_str (codes "request_id") value) (codes "broker request_id must be a string")
  validate_bounded_text request_id max_request_id_bytes "request_id"
  guard (all is_id_byte (as_bytes request_id)) (codes "request_id must match [A-Za-z0-9_-]{1,64}")
  op ← ok_or (operation (get_str (codes "op") value)) (codes "broker operation is not allowed")
  payload ← ok_or (get_field (codes "payload") fields) (codes "broker payload is required")
  validate_payload op payload
  encoded ← ok_or (api.to_vec value) (codes "broker message is not JSON")
  guard (leb (length encoded) max_browser_message_bytes) (codes "broker message exceeds 16 KiB")
  ok (record { request_id = request_id; op = op; payload = payload })
