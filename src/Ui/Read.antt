-- ===== src/Ui/Read.antt =====
-- How crates/mh-cli/src/ui.rs reads a request from the socket. What a read meets is an `Attempt`; a
-- loop that has used up its attempts is still reading. Times are nanoseconds.
pub mod Bounds
use magazine_core.Base.{
  ℕ, ◌+◌, ◌*◌, ◌^◌, Bool, true, false, ◌&&◌, ◌||◌, not, List, [], ◌∷◌, ◌++◌, Option, none, some,
  ◌==◌, leb, ltb, length, take, if◌then◌else◌, is_empty, Result, ok, err, ok_or, guard, ◌>>=◌, ◌>>◌,
}
use magazine_core.Text.{Text, codes, text_eq, trim, to_ascii_lowercase, starts_with, split_once}
use magazine_core.Text.Split.{lines, split_whitespace}
use magazine_core.Text.Lossy.{from_utf8_lossy}
use magazine_core.Text.Number.{parse_uint}
use magazine_core.Json.{is_some}
use magazine_core.Ui.Http.{Headers, header, HttpRequest}

-- What `read` yields: up to a chunk of bytes, nothing before its timeout, or an error.
pub data Received : Type 0 where
  bytes : List ℕ → Received
  stalled failed : Received

pub record Attempt : Type 0 where
  -- The clock before the read.
  pub now : ℕ
  pub received : Received

-- How the reading ends without a request: it is refused, the socket fails, or it goes on.
pub data Stop : Type 0 where
  refused broken reading : Stop

abbrev pub max_request_header_bytes : ℕ
max_request_header_bytes = 16 * 1024

abbrev pub max_request_body_bytes : ℕ
max_request_body_bytes = 64 * 1024

unfoldable pub read_within_deadline : ℕ → Attempt → Result Stop (List ℕ)
read_within_deadline deadline attempt =
    if leb deadline attempt.now then err refused else elim attempt.received [
      | bytes chunk ↦ ok chunk
      | stalled ↦ err refused
      | failed ↦ err broken
    ]

-- A read that has to yield something.
abbrev pub read_some : ℕ → Attempt → Result Stop (List ℕ)
read_some deadline attempt = do
  chunk ← read_within_deadline deadline attempt
  guard (not (is_empty chunk)) refused
  ok chunk

abbrev in_front : ℕ → Option (List ℕ × List ℕ) → Option (List ℕ × List ℕ)
in_front byte none = none
in_front byte (some (before, behind)) = some (byte ∷ before, behind)

-- The bytes up to the first empty line with it, and those behind.
unfoldable pub split_header : List ℕ → Option (List ℕ × List ℕ)
split_header [] = none
split_header (_ ∷ []) = none
split_header (_ ∷ _ ∷ []) = none
split_header (_ ∷ _ ∷ _ ∷ []) = none
split_header (a ∷ b ∷ c ∷ d ∷ rest) =
    let later = split_header (b ∷ c ∷ d ∷ rest) in
    if a == 13 && b == 10 && c == 13 && d == 10
    then some (a ∷ b ∷ c ∷ d ∷ [], rest)
    else in_front a later

pub record Head : Type 0 where
  pub bytes : List ℕ
  pub behind : List ℕ
  pub attempts : List Attempt

-- The loop for the header.
unfoldable pub read_header : ℕ → List Attempt → List ℕ → Result Stop Head
read_header deadline [] buffer = elim (split_header buffer) [
  | some (head, behind) ↦ ok (record { bytes = head; behind = behind; attempts = [] })
  | none ↦ err reading
]
read_header deadline (attempt ∷ attempts) buffer = elim (split_header buffer) [
  | some (head, behind) ↦
      ok (record { bytes = head; behind = behind; attempts = attempt ∷ attempts })
  | none ↦ elim (read_some deadline attempt) [
    | err stop ↦ err stop
    | ok chunk ↦ elim (ltb max_request_header_bytes (length (buffer ++ chunk))) [
      | true ↦ err refused
      | false ↦ read_header deadline attempts (buffer ++ chunk)
    ]
  ]
]

-- The method and the target of the first line.
unfoldable pub request_line : Text → Option (Text × Text)
request_line line = elim (split_whitespace line) [
  | [] ↦ none
  | method ∷ after_method ↦ elim after_method [
    | [] ↦ none
    | target ∷ after_target ↦ elim after_target [
      | [] ↦ none
      | version ∷ others ↦
          if starts_with (codes "HTTP/") version && is_empty others
          then some (method, target)
          else none
    ]
  ]
]

-- `BTreeMap::insert`.
unfoldable pub insert_header : Text → Text → Headers → Headers
insert_header key value [] = (key, value) ∷ []
insert_header key value ((k, v) ∷ headers) =
    let rest = insert_header key value headers in
    if text_eq key k then (key, value) ∷ headers else (k, v) ∷ rest

abbrev only_once : Text → Bool
only_once key = text_eq key (codes "host") || text_eq key (codes "content-length")

-- One line of the header, behind the headers so far.
unfoldable pub add_header : Headers → Text → Option Headers
add_header headers line =
    if is_empty (trim line) then some headers else elim (split_once b':' line) [
      | none ↦ none
      | some (name, value) ↦
          let key = to_ascii_lowercase (trim name) in
          if text_eq key (codes "transfer-encoding")
            || only_once key && is_some (header key headers)
          then none
          else some (insert_header key (trim value) headers)
    ]

unfoldable pub add_headers : Headers → List Text → Option Headers
add_headers headers [] = some headers
add_headers headers (line ∷ rest) = elim (add_header headers line) [
  | none ↦ none
  | some more ↦ add_headers more rest
]

unfoldable pub content_length : Headers → Option ℕ
content_length headers = elim (header (codes "content-length") headers) [
  | none ↦ some 0
  | some value ↦ parse_uint (2 ^ 64) value
]

-- The loop for the body.
unfoldable pub read_body : ℕ → ℕ → List Attempt → List ℕ → Result Stop (List ℕ)
read_body deadline wanted [] body = if ltb (length body) wanted then err reading else ok body
read_body deadline wanted (attempt ∷ attempts) body = elim (ltb (length body) wanted) [
  | false ↦ ok body
  | true ↦ elim (read_some deadline attempt) [
    | err stop ↦ err stop
    | ok chunk ↦ elim (ltb max_request_body_bytes (length (body ++ chunk))) [
      | true ↦ err refused
      | false ↦ read_body deadline wanted attempts (body ++ chunk)
    ]
  ]
]

-- What the header says.
pub record Said : Type 0 where
  pub method : Text
  pub target : Text
  pub headers : Headers
  pub wanted : ℕ

unfoldable pub parse_header : Text → Result Stop Said
parse_header text = elim (lines text) [
  | [] ↦ err refused
  | line ∷ others ↦ do
    (method, target) ← ok_or (request_line line) refused
    headers ← ok_or (add_headers [] others) refused
    wanted ← ok_or (content_length headers) refused
    guard (leb wanted max_request_body_bytes) refused
    ok (record { method = method; target = target; headers = headers; wanted = wanted })
]

-- `read_http_request_until`; `at_end` is the clock behind the last read.
unfoldable pub read_http_request_until : ℕ → List Attempt → ℕ → Result Stop HttpRequest
read_http_request_until deadline attempts at_end = do
  head ← read_header deadline attempts []
  said ← parse_header (from_utf8_lossy head.bytes)
  body ← read_body deadline said.wanted head.attempts head.behind
  guard (ltb at_end deadline) refused
  ok (record {
    method = said.method;
    target = said.target;
    headers = said.headers;
    body = take said.wanted body;
  })
