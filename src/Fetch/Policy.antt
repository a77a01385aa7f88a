-- ===== src/Fetch/Policy.antt =====
-- The checks of a fetch in crates/mh-fetch/src/lib.rs. URLs and header syntax are those of the
-- crates `url` and `reqwest`: an interface of their functions, which the checks take. A policy
-- error carries a constructor for each message. Times are counted in one unit, such as nanoseconds.
pub mod Domains
use magazine_core.Base.{
  ℕ, ◌-◌, ◌*◌, String, Bool, true, false, not, ◌&&◌, ◌||◌, List, [], ◌∷◌, ◌++◌, Option, none, some,
  any, is_empty, ltb, leb, ◌==◌, if◌then◌else◌, Result, ok, err, ok_or, ◌>>=◌, ◌>>◌, guard,
}
use magazine_core.Text.{
  Text, codes, text_eq, trim, trim_end_by, to_ascii_lowercase, to_lower_char, eq_ignore_ascii_case,
  ends_with,
}
use magazine_core.Json.{is_some}
use magazine_core.Fetch.Address.{
  IpAddr, SocketAddr, ResolvedAddressPolicy, default, forbidden_ip_for_policy,
}

-- What the program calls of `url::Url`, and the syntax tests of `HeaderName` and `HeaderValue`.
pub record UrlApi : Type 1 where
  pub Url : Type 0
  pub parse : Text → Option Url
  pub join : Url → Text → Option Url
  pub scheme : Url → Text
  pub username : Url → Text
  pub password : Url → Option Text
  pub host_str : Url → Option Text
  pub port_or_known_default : Url → Option ℕ
  pub to_string : Url → Text
  pub is_header_name : Text → Bool
  pub is_header_value : Text → Bool

pub data PolicyError : Type 0 where
  unsupported_method unsupported_scheme host_not_allowed : Text → PolicyError
  invalid_header_name invalid_header_value header_not_allowed : Text → PolicyError
  ip_not_allowed : IpAddr → PolicyError
  userinfo_not_allowed missing_host missing_port no_addresses : PolicyError
  missing_location invalid_url invalid_redirect_url : PolicyError

pub data FetchError : Type 0 where
  network : Text → FetchError
  policy : PolicyError → FetchError
  response_too_large : ℕ → FetchError
  timeout : FetchError
  too_many_redirects : ℕ → FetchError

pub record FetchRequest : Type 0 where
  pub url : Text
  pub method : Text
  pub headers : List (Text × Text)

pub record FetchResponse : Type 0 where
  pub status : ℕ
  pub final_url : Text
  pub body_base64 : Text

pub record FetchPolicy : Type 0 where
  pub allowed_domains : List Text
  pub connect_timeout : ℕ
  pub total_timeout : ℕ
  pub max_response_bytes : ℕ
  pub max_redirects : ℕ

-- Units of time in a second.
abbrev pub second : ℕ
second = 1_000_000_000

abbrev pub for_allowed_domains : List Text → FetchPolicy
for_allowed_domains domains = record {
  allowed_domains = domains;
  connect_timeout = 10 * second;
  total_timeout = 30 * second;
  max_response_bytes = 5 * 1024 * 1024;
  max_redirects = 10;
}

pub data FetchMethod : Type 0 where
  fetch_get fetch_head : FetchMethod

unfoldable pub parse_method : Text → Result FetchError FetchMethod
parse_method raw =
    if eq_ignore_ascii_case raw (codes "GET")
    then ok fetch_get
    else if eq_ignore_ascii_case raw (codes "HEAD")
    then ok fetch_head
    else err (policy (unsupported_method raw))

unfoldable pub normalize_domain : Text → Text
normalize_domain value = to_ascii_lowercase (trim_end_by (λ c. c == b'.') (trim value))

-- One entry of the allow list, against a normalized host.
unfoldable pub domain_matches : Text → Text → Bool
domain_matches host allowed =
    let name = normalize_domain allowed in
    not (is_empty name) && (text_eq host name || ends_with (b'.' ∷ name) host)

unfoldable pub domain_allowed : Text → List Text → Bool
domain_allowed host allowed_domains = any (domain_matches (normalize_domain host)) allowed_domains

abbrev pub disallowed_headers : List String
disallowed_headers =
    "authorization" ∷ "cookie" ∷ "proxy-authorization" ∷ "set-cookie" ∷ "host" ∷ "connection"
    ∷ "transfer-encoding" ∷ "content-length" ∷ []

unfoldable pub is_disallowed_header : Text → Bool
is_disallowed_header name =
    any (λ h. text_eq (to_ascii_lowercase name) (codes h)) disallowed_headers

unfoldable pub is_redirect : ℕ → Bool
is_redirect status =
    status == 301 || status == 302 || status == 303 || status == 307 || status == 308

-- `started.elapsed()` is `elapsed`.
unfoldable pub remaining_timeout : ℕ → ℕ → Result FetchError ℕ
remaining_timeout elapsed total = if leb elapsed total then ok (total - elapsed) else err timeout

-- The loop over the resolved addresses.
unfoldable pub validate_each_addr :
    List SocketAddr → ResolvedAddressPolicy → Result FetchError (Unit {0})
validate_each_addr [] address_policy = ok tt
validate_each_addr (addr ∷ addrs) address_policy =
    let rest = validate_each_addr addrs address_policy in
    if forbidden_ip_for_policy addr.ip address_policy
    then err (policy (ip_not_allowed addr.ip))
    else rest

unfoldable pub validate_resolved_addrs_with_policy :
    List SocketAddr → ResolvedAddressPolicy → Result FetchError (Unit {0})
validate_resolved_addrs_with_policy addrs address_policy =
    if is_empty addrs then err (policy no_addresses) else validate_each_addr addrs address_policy

unfoldable pub validate_resolved_addrs : List SocketAddr → Result FetchError (Unit {0})
validate_resolved_addrs addrs = validate_resolved_addrs_with_policy addrs default

module _ (api : UrlApi) where
  open api use {Url, scheme, username, password, host_str, is_header_name, is_header_value}

  unfoldable pub validate_url : Url → FetchPolicy → Result FetchError (Unit {0})
  validate_url url p = do
    guard (text_eq (scheme url) (codes "http") || text_eq (scheme url) (codes "https"))
        (policy (unsupported_scheme (scheme url)))
    guard (is_empty (username url) && not (is_some (password url))) (policy userinfo_not_allowed)
    host ← ok_or (host_str url) (policy missing_host)
    guard (domain_allowed host p.allowed_domains) (policy (host_not_allowed host))

  unfoldable pub validate_headers : List (Text × Text) → Result FetchError (Unit {0})
  validate_headers [] = ok tt
  validate_headers ((name, value) ∷ headers) = do
    guard (is_header_name name) (policy (invalid_header_name name))
    guard (is_header_value value) (policy (invalid_header_value name))
    guard (not (is_disallowed_header name)) (policy (header_not_allowed name))
    validate_headers headers
