-- ===== src/Ui/Read/Bounds.antt =====
-- The bounds within which a request is read.
use magazine_core.Base.{
  ℕ, ◌≡◌, ◌<◌, ◌≤◌, refl, List, [], ◌∷◌, none, some, ok, false, arith, inl, inr, Option-cases,
  Bool-cases, Result-cases, ltb, length, length-take, List-cases, ◌++◌,
}
use magazine_core.Text.{Text, codes, text_eq, trim, to_ascii_lowercase, split_once}
use magazine_core.Text.Laws.{text_eq_iff}
use magazine_core.Text.Split.{lines}
use magazine_core.Text.Lossy.{from_utf8_lossy}
use magazine_core.Ui.Http.{Headers, header, HttpRequest}
use magazine_core.Ui.Read.{
  Attempt, Said, insert_header, add_header, add_headers, content_length, read_header, read_body,
  parse_header, read_http_request_until, max_request_body_bytes, read_some, request_line,
}

-- A request as the server takes it: its body is as long as its header says, within the limit, it is
-- in no transfer encoding, and the clock stood before the deadline at its end.
pub record IsWellFramed (deadline at_end : ℕ) (request : HttpRequest) : Type 0 where
  pub in_time : at_end < deadline
  pub body_length : content_length request.headers ≡ some (length request.body)
  pub small : length request.body ≤ max_request_body_bytes
  pub unencoded : header (codes "transfer-encoding") request.headers ≡ none

header-insert_header :
    (name key value : Text) (headers : Headers)
    → text_eq name key ≡ false
    → header name (insert_header key value headers) ≡ header name headers
unfolding header insert_header
header-insert_header name key value [] h = ground (arith, h)
header-insert_header name key value ((k, v) ∷ headers) h =
    ground (arith, h, header-insert_header name key value headers h, text_eq_iff key k)

add_header-unencoded :
    (headers : Headers) (line : Text) {more : Headers}
    → header (codes "transfer-encoding") headers ≡ none
    → add_header headers line ≡ some more
    → header (codes "transfer-encoding") more ≡ none
unfolding add_header
add_header-unencoded headers line h e = elim (Option-cases (split_once b':' line)) [
  | inl s ↦ ground (arith, e, s, h)
  | inr ((name, value), s) ↦
      let key = to_ascii_lowercase (trim name) in
      ground (
        arith,
        e,
        s,
        h,
        text_eq_iff key (codes "transfer-encoding"),
        text_eq_iff (codes "transfer-encoding") key,
        header-insert_header (codes "transfer-encoding") key (trim value) headers,
      )
]

add_headers-unencoded :
    (headers : Headers) (rest : List Text) {more : Headers}
    → header (codes "transfer-encoding") headers ≡ none
    → add_headers headers rest ≡ some more
    → header (codes "transfer-encoding") more ≡ none
unfolding add_headers
add_headers-unencoded headers [] h e = ground (arith, e, h)
add_headers-unencoded headers (line ∷ rest) h e = elim (Option-cases (add_header headers line)) [
  | inl s ↦ absurd (ground (arith, e, s))
  | inr (next, s) ↦
      add_headers-unencoded next rest (add_header-unencoded headers line h s) (ground (arith, e, s))
]

read_body-long :
    (deadline wanted : ℕ) (attempts : List Attempt) (start : List ℕ) {body : List ℕ}
    → read_body deadline wanted attempts start ≡ ok body
    → wanted ≤ length body
unfolding read_body
read_body-long deadline wanted [] start e = ground (arith, e)
read_body-long deadline wanted (attempt ∷ attempts) start e =
    elim (Bool-cases (ltb (length start) wanted)) [
      | inr t ↦ ground (arith, e, t)
      | inl t ↦ elim (Result-cases (read_some deadline attempt)) [
        | inr (stop, r) ↦ absurd (ground (arith, e, t, r))
        | inl (chunk, r) ↦
            elim (Bool-cases (ltb max_request_body_bytes (length (start ++ chunk)))) [
              | inl long ↦ absurd (ground (arith, e, t, r, long))
              | inr fits ↦
                  read_body-long deadline wanted attempts (start ++ chunk)
                    (ground (arith, e, t, r, fits))
            ]
      ]
    ]

-- What the header says is within the bounds.
record Fits (said : Said) : Type 0 where
  length_said : content_length said.headers ≡ some said.wanted
  small : said.wanted ≤ max_request_body_bytes
  unencoded : header (codes "transfer-encoding") said.headers ≡ none

parse_header-Fits : (text : Text) {said : Said} → parse_header text ≡ ok said → Fits said
unfolding parse_header
parse_header-Fits text e = elim (List-cases (lines text)) [
  | inl q ↦ absurd (ground (arith, e, q))
  | inr (line, others, q) ↦ elim (Option-cases (request_line line)) [
    | inl l ↦ absurd (ground (arith, e, q, l))
    | inr ((method, target), l) ↦ elim (Option-cases (add_headers [] others)) [
      | inl a ↦ absurd (ground (arith, e, q, l, a))
      | inr (headers, a) ↦ elim (Option-cases (content_length headers)) [
        | inl c ↦ absurd (ground (arith, e, q, l, a, c))
        | inr (wanted, c) ↦ record {
          length_said = ground (arith, e, q, l, a, c);
          small = ground (arith, e, q, l, a, c);
          unencoded =
              ground
                (arith, e, q, l, a, c, add_headers-unencoded [] others (unfold header in refl) a);
        }
      ]
    ]
  ]
]

-- A request that the server has read arrived before its deadline, whatever the client sent and
-- when: its body has the length that its header says, or none without a length, up to 64 KiB, and
-- it is in no transfer encoding.
pub read_http_request_until-IsWellFramed :
    (deadline : ℕ) (attempts : List Attempt) (at_end : ℕ) {request : HttpRequest}
    → read_http_request_until deadline attempts at_end ≡ ok request
    → IsWellFramed deadline at_end request
unfolding read_http_request_until
read_http_request_until-IsWellFramed deadline attempts at_end e =
    elim (Result-cases (read_header deadline attempts [])) [
      | inr (stop, h) ↦ absurd (ground (arith, e, h))
      | inl (head, h) ↦ elim (Result-cases (parse_header (from_utf8_lossy head.bytes))) [
        | inr (stop, p) ↦ absurd (ground (arith, e, h, p))
        | inl (said, p) ↦
            elim (Result-cases (read_body deadline said.wanted head.attempts head.behind)) [
              | inr (stop, b) ↦ absurd (ground (arith, e, h, p, b))
              | inl (body, b) ↦
                  let fits = parse_header-Fits (from_utf8_lossy head.bytes) p in
                  let long = read_body-long deadline said.wanted head.attempts head.behind b in
                  let size = length-take said.wanted body in
                  record {
                    in_time = ground (arith, e, h, p, b);
                    body_length = ground (arith, e, h, p, b, fits.length_said, long, size);
                    small = ground (arith, e, h, p, b, fits.small, long, size);
                    unencoded = ground (arith, e, h, p, b, fits.unencoded);
                  }
            ]
      ]
    ]
