-- ===== src/Ui/Routes/Request/Bounds.antt =====
-- The bounds of a run that the UI starts.
use magazine_core.Base.{
  ℕ, ◌≡◌, ◌↔◌, ◌<◌, ◌≤◌, List, some, ok, false, arith, inl, inr, String, is_empty, Option-cases,
  Result-cases, subst,
}
use magazine_core.Text.{Text, codes, trim}
use magazine_core.Json.{Value, get_str, get_u64}
use magazine_core.Ui.Http.{UiJson}
use magazine_core.Ui.Routes.Request.{
  DiscoverRequest, required_string, required_bounded_u64, parse_discover_request,
}

-- A field with a number from 1 to its bound.
pub record IsBounded (value : Value) (key : String) (most : ℕ) (n : ℕ) : Type 0 where
  pub given : get_u64 (codes key) value ≡ some n
  pub positive : 0 < n
  pub bounded : n ≤ most

-- The body of a request is JSON with a plugin that is not blank and with the four numbers.
pub record Asks (api : UiJson) (body : List ℕ) (r : DiscoverRequest) : Type 0 where
  pub value : Value
  pub json : api.from_slice body ≡ some value
  pub plugin : get_str (codes "plugin_id") value ≡ some r.plugin_id
  pub plugin_filled : is_empty (trim r.plugin_id) ≡ false
  pub pages : IsBounded value "max_pages" 1000 r.max_pages
  pub page_size : IsBounded value "per_page" 1000 r.per_page
  pub records : IsBounded value "max_records" 10000 r.max_records
  pub seconds : IsBounded value "timeout_seconds" 3600 r.timeout_seconds

required_bounded_u64-IsBounded :
    (value : Value) (key : String) (most n : ℕ)
    → required_bounded_u64 value key most ≡ ok n
    → IsBounded value key most n
unfolding required_bounded_u64
required_bounded_u64-IsBounded value key most n e =
    elim (Option-cases (get_u64 (codes key) value)) [
      | inl h ↦ absurd (ground (arith, e, h))
      | inr (m, h) ↦ record {
        given = ground (arith, e, h);
        positive = ground (arith, e, h);
        bounded = ground (arith, e, h);
      }
    ]

IsBounded-required_bounded_u64 :
    {value : Value} {key : String} {most n : ℕ}
    → IsBounded value key most n
    → required_bounded_u64 value key most ≡ ok n
unfolding required_bounded_u64
IsBounded-required_bounded_u64 h = ground (arith, h.given, h.positive, h.bounded)

required_string-filled :
    (value : Value) (key : String) (s : Text)
    → required_string value key ≡ ok s
    → (get_str (codes key) value ≡ some s) × (is_empty (trim s) ≡ false)
unfolding required_string
required_string-filled value key s e = elim (Option-cases (get_str (codes key) value)) [
  | inl h ↦ absurd (ground (arith, e, h))
  | inr (m, h) ↦ (ground (arith, e, h), ground (arith, e, h))
]

filled-required_string :
    (value : Value) (key : String) {s : Text}
    → get_str (codes key) value ≡ some s
    → is_empty (trim s) ≡ false
    → required_string value key ≡ ok s
unfolding required_string
filled-required_string value key given filled = ground (arith, given, filled)

module _ (api : UiJson) (body : List ℕ) (r : DiscoverRequest) where
  parsed_Asks : parse_discover_request api body ≡ ok r → Asks api body r
  unfolding parse_discover_request
  parsed_Asks e = elim (Option-cases (api.from_slice body)) [
    | inl h ↦ absurd (ground (arith, e, h))
    | inr (value, j) ↦ elim (Result-cases (required_string value "plugin_id")) [
      | inr (m, a) ↦ absurd (ground (arith, e, j, a))
      | inl (id, a) ↦ elim (Result-cases (required_bounded_u64 value "max_pages" 1000)) [
        | inr (m, b) ↦ absurd (ground (arith, e, j, a, b))
        | inl (pages, b) ↦ elim (Result-cases (required_bounded_u64 value "per_page" 1000)) [
          | inr (m, c) ↦ absurd (ground (arith, e, j, a, b, c))
          | inl (page_size, c) ↦
              elim (Result-cases (required_bounded_u64 value "max_records" 10000)) [
                | inr (m, d) ↦ absurd (ground (arith, e, j, a, b, c, d))
                | inl (records, d) ↦
                    elim (Result-cases (required_bounded_u64 value "timeout_seconds" 3600)) [
                      | inr (m, f) ↦ absurd (ground (arith, e, j, a, b, c, d, f))
                      | inl (seconds, f) ↦
                          let asked : DiscoverRequest = record {
                            plugin_id = id;
                            max_pages = pages;
                            max_records = records;
                            per_page = page_size;
                            timeout_seconds = seconds;
                          } in
                          let filled : Asks api body asked = record {
                            value = value;
                            json = j;
                            plugin = (required_string-filled value "plugin_id" id a).0;
                            plugin_filled = (required_string-filled value "plugin_id" id a).1;
                            pages = required_bounded_u64-IsBounded value "max_pages" 1000 pages b;
                            page_size =
                                required_bounded_u64-IsBounded value "per_page" 1000 page_size c;
                            records =
                                required_bounded_u64-IsBounded value "max_records" 10000 records d;
                            seconds =
                                required_bounded_u64-IsBounded value "timeout_seconds" 3600 seconds
                                  f;
                          } in
                          subst (Asks api body) (ground (arith, e, j, a, b, c, d, f)) filled
                    ]
              ]
        ]
      ]
    ]
  ]

  Asks-parsed : Asks api body r → parse_discover_request api body ≡ ok r
  unfolding parse_discover_request
  Asks-parsed h = ground (
    arith,
    h.json,
    filled-required_string h.value "plugin_id" h.plugin h.plugin_filled,
    IsBounded-required_bounded_u64 h.pages,
    IsBounded-required_bounded_u64 h.page_size,
    IsBounded-required_bounded_u64 h.records,
    IsBounded-required_bounded_u64 h.seconds,
  )

  -- The UI accepts the body of a discover request exactly if it is JSON with a plugin that is not
  -- blank, 1 to 1000 pages, 1 to 1000 records a page, 1 to 10000 records and a time of 1 to 3600
  -- seconds, and takes these.
  pub parse_discover_request_iff : (parse_discover_request api body ≡ ok r) ↔ Asks api body r
  parse_discover_request_iff = (parsed_Asks, Asks-parsed)
