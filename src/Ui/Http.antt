-- ===== src/Ui/Http.antt =====
-- Requests and responses of the UI server in crates/mh-cli/src/ui.rs.
use magazine_core.Base.{
  ℕ, zero, suc, ◌+◌, ◌/◌, ◌%◌, String, List, [], ◌∷◌, ◌++◌, Option, none, some, ltb, ◌==◌, length,
  if◌then◌else◌,
}
use magazine_core.Text.{Text, codes, text_eq}
use magazine_core.Text.Utf8.{as_bytes}
use magazine_core.Json.{Value, string, object, end}
use magazine_core.Protocol.Message.{member}

abbrev pub Headers : Type 0
Headers = List (Text × Text)

-- `BTreeMap::get`; a name stands in the map once.
unfoldable pub header : Text → Headers → Option Text
header name [] = none
header name ((k, v) ∷ headers) =
    let rest = header name headers in if text_eq name k then some v else rest

pub record HttpRequest : Type 0 where
  pub method : Text
  pub target : Text
  pub headers : Headers
  pub body : List ℕ

pub record HttpResponse : Type 0 where
  pub status : ℕ
  pub reason : String
  pub content_type : String
  pub body : List ℕ
  pub extra_headers : List (String × String)

abbrev pub new_response : ℕ → String → String → List ℕ → HttpResponse
new_response status reason content_type body = record {
  status = status;
  reason = reason;
  content_type = content_type;
  body = body;
  extra_headers = [];
}

abbrev pub with_header : HttpResponse → String → String → HttpResponse
with_header response name value = record response {
  extra_headers = response.extra_headers ++ (name, value) ∷ [];
}

abbrev pub without_body : HttpResponse → HttpResponse
without_body response = record response { body = [] }

-- Decimal digits, in front of others.
unfoldable pub digits_from : ℕ → ℕ → Text → Text
digits_from zero n behind = behind
digits_from (suc fuel) n behind =
    let more = digits_from fuel (n / 10) ((n % 10 + b'0') ∷ behind) in
    if ltb n 10 then (n + b'0') ∷ behind else more

-- A number in a format string; each round takes a digit.
unfoldable pub decimal : ℕ → Text
decimal n = digits_from (suc n) n []

abbrev line_end : Text
line_end = 13 ∷ 10 ∷ []

unfoldable pub extra_lines : List (String × String) → Text
extra_lines [] = []
extra_lines ((name, value) ∷ headers) =
    codes name ++ (codes ": " ++ (codes value ++ (line_end ++ extra_lines headers)))

-- The bytes of `write_to`.
unfoldable pub response_bytes : HttpResponse → List ℕ
response_bytes r =
    as_bytes (
      codes "HTTP/1.1 "
      ++ (decimal r.status
          ++ (32
              ∷ (codes r.reason
                  ++ (line_end
                      ++ (codes "Content-Type: "
                          ++ (codes r.content_type
                              ++ (line_end
                                  ++ (codes "Content-Length: "
                                      ++ (decimal (length r.body)
                                          ++ (line_end
                                              ++ (codes "Cache-Control: no-store"
                                                  ++ (line_end
                                                      ++ (codes "X-Content-Type-Options: nosniff"
                                                          ++ (line_end
                                                            ++ (codes "Connection: close"
                                                            ++ (line_end
                                                            ++ (extra_lines r.extra_headers
                                                            ++ line_end))))))))))))))))))
    ++ r.body

-- What the JSON library does for the server.
pub record UiJson : Type 0 where
  pub to_vec : Value → Option (List ℕ)
  pub from_slice : List ℕ → Option Value

unfoldable pub json_bytes : UiJson → Value → List ℕ
json_bytes api value = elim (api.to_vec value) [
  | some bytes ↦ bytes
  | none ↦ as_bytes (codes "{\"error\":\"json encode failed\"}")
]

unfoldable pub reason_of : ℕ → String
reason_of status =
    if status == 200
    then "OK"
    else if status == 202
    then "Accepted"
    else if status == 400
    then "Bad Request"
    else if status == 403
    then "Forbidden"
    else if status == 404
    then "Not Found"
    else if status == 409
    then "Conflict"
    else if status == 500
    then "Internal Server Error"
    else if status == 503
    then "Service Unavailable"
    else "OK"

abbrev pub json_response : UiJson → ℕ → Value → HttpResponse
json_response api status value =
    new_response status (reason_of status) "application/json; charset=utf-8" (json_bytes api value)

-- `{"error": message}`.
abbrev pub error_value : Text → Value
error_value message = object (member "error" (string message) end)

abbrev pub error_response : UiJson → ℕ → String → HttpResponse
error_response api status message = json_response api status (error_value (codes message))

-- An error whose reason and type stand in the code.
abbrev pub plain_error : UiJson → ℕ → String → String → HttpResponse
plain_error api status reason message =
    new_response status reason "application/json" (json_bytes api (error_value (codes message)))

abbrev pub html_response : Text → HttpResponse
html_response html = new_response 200 "OK" "text/html; charset=utf-8" (as_bytes html)

abbrev pub method_not_allowed : UiJson → String → HttpResponse
method_not_allowed api allow =
    with_header (plain_error api 405 "Method Not Allowed" "method not allowed") "Allow" allow
