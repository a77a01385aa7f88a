-- ===== src/Ui/Authority.antt =====
-- Who may ask the UI server for what, in crates/mh-cli/src/ui.rs.
pub mod Loopback
pub mod Guarded
use magazine_core.Base.{
  ℕ, ◌^◌, Bool, true, false, not, ◌&&◌, ◌||◌, List, [], ◌∷◌, Option, none, some, ◌==◌, take, drop,
  if◌then◌else◌, Result, ok, err, ok_or, guard, ◌>>=◌, ◌>>◌,
}
use magazine_core.Text.{Text, codes, text_eq, trim, eq_ignore_ascii_case}
use magazine_core.Text.Split.{rsplit_once}
use magazine_core.Text.Number.{parse_uint}
use magazine_core.Ui.Http.{
  HttpRequest, HttpResponse, UiJson, header, error_response, method_not_allowed,
}

pub record UiOptions : Type 0 where
  pub db_path : Text
  pub plugins_dir : Text
  pub port : ℕ
  pub bound_port : ℕ
  pub manage : Bool
  pub token : Option Text

abbrev pub default_http_port : ℕ
default_http_port = 80

unfoldable pub is_loopback_name : Text → Bool
is_loopback_name host =
    eq_ignore_ascii_case host (codes "127.0.0.1") || eq_ignore_ascii_case host (codes "localhost")

unfoldable pub authority_is : Text → ℕ → Bool
authority_is value port = elim (rsplit_once b':' value) [
  | none ↦ default_http_port == port && is_loopback_name value
  | some (host, port_text) ↦ elim (parse_uint (2 ^ 16) port_text) [
    | none ↦ false
    | some parsed ↦ parsed == port && is_loopback_name host
  ]
]

unfoldable pub is_allowed_loopback_authority : Text → ℕ → Bool
is_allowed_loopback_authority value port = authority_is (trim value) port

-- The code takes the first seven bytes, if a character ends there. They can equal the scheme only
-- where they are seven characters.
unfoldable pub is_allowed_origin : Text → ℕ → Bool
is_allowed_origin value port =
    let trimmed = trim value in
    eq_ignore_ascii_case (take 7 trimmed) (codes "http://")
    && is_allowed_loopback_authority (drop 7 trimmed) port

module _ (api : UiJson) (options : UiOptions) (request : HttpRequest) where
  unfoldable pub require_loopback_host : Option HttpResponse
  require_loopback_host = elim (header (codes "host") request.headers) [
    | none ↦ some (error_response api 400 "Host header is required")
    | some host ↦
        if is_allowed_loopback_authority host options.bound_port
        then none
        else some (error_response api 403 "invalid Host header")
  ]

  -- A header that may be missing has to pass its check.
  abbrev allowed_if_present : Option Text → (Text → Bool) → Bool
  allowed_if_present none check = true
  allowed_if_present (some value) check = check value

  -- A header that has to equal a text.
  abbrev present_as : Option Text → Text → Bool
  present_as none expected = false
  present_as (some actual) expected = text_eq actual expected

  unfoldable pub require_management_request : Result HttpResponse (Unit {0})
  require_management_request = do
    guard options.manage (error_response api 403 "management mode disabled")
    guard (text_eq request.method (codes "POST")) (method_not_allowed api "POST")
    host ←
        ok_or (header (codes "host") request.headers)
          (error_response api 400 "Host header is required")
    guard (is_allowed_loopback_authority host options.bound_port)
        (error_response api 403 "invalid Host header")
    guard
        (allowed_if_present (header (codes "origin") request.headers)
          (λ origin. is_allowed_origin origin options.bound_port))
        (error_response api 403 "invalid Origin header")
    expected ← ok_or options.token (error_response api 500 "management token unavailable")
    guard (present_as (header (codes "x-mh-ui-token") request.headers) expected)
        (error_response api 403 "invalid management token")
