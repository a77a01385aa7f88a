-- ===== src/Fetch/Policy/Domains.antt =====
-- Which hosts and headers the checks let through.
use magazine_core.Base.{
  ◌≡◌, ◌≢◌, ◌↔◌, ◌⊎◌, true, false, List, [], ◌∷◌, ◌++◌, some, none, All, Any, arith, inl, inr,
  any_iff, String, Option-cases, ok,
}
use magazine_core.Text.{Text, codes, text_eq, to_ascii_lowercase}
use magazine_core.Text.Laws.{text_eq_iff, ends_with_iff}
use magazine_core.Fetch.Address.{SocketAddr, ResolvedAddressPolicy, forbidden_ip_for_policy}
use magazine_core.Fetch.Policy.{
  UrlApi, FetchPolicy, normalize_domain, domain_matches, domain_allowed, is_disallowed_header,
  disallowed_headers, validate_each_addr, validate_resolved_addrs_with_policy, validate_url,
  validate_headers,
}

-- The host is the domain, or a name below it.
abbrev pub IsUnder : Text → Text → Type 0
IsUnder host name = (host ≡ name) ⊎ ((front : Text) × (host ≡ front ++ b'.' ∷ name))

-- An entry of the allow list, which is no blank one, admits the host.
abbrev pub Admits : Text → Text → Type 0
Admits host allowed =
    (normalize_domain allowed ≢ []) × IsUnder (normalize_domain host) (normalize_domain allowed)

domain_matches_iff :
    (host allowed : Text)
    → (domain_matches (normalize_domain host) allowed ≡ true) ↔ Admits host allowed
unfolding domain_matches
domain_matches_iff host allowed = ground (
  arith,
  text_eq_iff (normalize_domain host) (normalize_domain allowed),
  ends_with_iff (b'.' ∷ normalize_domain allowed) (normalize_domain host),
)

-- A host is allowed exactly if some entry of the list names it or a domain above it.
pub domain_allowed_iff :
    (host : Text) (allowed_domains : List Text)
    → (domain_allowed host allowed_domains ≡ true) ↔ Any (Admits host) allowed_domains
unfolding domain_allowed
domain_allowed_iff host allowed_domains =
    any_iff (domain_matches (normalize_domain host)) (domain_matches_iff host) allowed_domains

pub is_disallowed_header_iff :
    (name : Text)
    → (is_disallowed_header name ≡ true)
      ↔ Any (λ h. to_ascii_lowercase name ≡ codes h) disallowed_headers
unfolding is_disallowed_header
is_disallowed_header_iff name =
    any_iff (λ (h : String). text_eq (to_ascii_lowercase name) (codes h))
      (λ h. text_eq_iff (to_ascii_lowercase name) (codes h)) disallowed_headers

-- No resolved address is forbidden, and there is one.
abbrev pub IsResolved : ResolvedAddressPolicy → List SocketAddr → Type 0
IsResolved address_policy addrs =
    (addrs ≢ []) × All (λ a. forbidden_ip_for_policy a.ip address_policy ≡ false) addrs

validate_each_addr_iff :
    (addrs : List SocketAddr) (address_policy : ResolvedAddressPolicy)
    → (validate_each_addr addrs address_policy ≡ ok tt)
      ↔ All (λ a. forbidden_ip_for_policy a.ip address_policy ≡ false) addrs
unfolding validate_each_addr
validate_each_addr_iff [] address_policy = ground arith
validate_each_addr_iff (addr ∷ more) address_policy =
    ground (arith, validate_each_addr_iff more address_policy)

pub validate-IsResolved_addrs_iff :
    (addrs : List SocketAddr) (address_policy : ResolvedAddressPolicy)
    → (validate_resolved_addrs_with_policy addrs address_policy ≡ ok tt)
      ↔ IsResolved address_policy addrs
unfolding validate_resolved_addrs_with_policy
validate-IsResolved_addrs_iff addrs address_policy =
    ground (arith, validate_each_addr_iff addrs address_policy)

module _ (api : UrlApi) where
  open api use {Url, scheme, username, password, host_str, is_header_name, is_header_value}

  -- What a URL must be for a request to go out.
  pub record IsAllowedUrl (p : FetchPolicy) (url : Url) : Type 0 where
    pub scheme : (scheme url ≡ codes "http") ⊎ (scheme url ≡ codes "https")
    pub username : username url ≡ []
    pub password : password url ≡ none
    pub host : Text
    pub found : host_str url ≡ some host
    pub allowed : Any (Admits host) p.allowed_domains

  -- A header that is well formed and not one of the reserved ones, in any case of letters.
  abbrev pub IsAllowedHeader : Text × Text → Type 0
  IsAllowedHeader (name, value) =
      (is_header_name name ≡ true)
      × (is_header_value value ≡ true)
      × ¬ Any (λ h. to_ascii_lowercase name ≡ codes h) disallowed_headers

  pub validate_url_sound :
      (url : Url) (p : FetchPolicy) → validate_url api url p ≡ ok tt → IsAllowedUrl p url
  unfolding validate_url
  validate_url_sound url p e = elim (Option-cases (host_str url)) [
    | inl missing ↦ ground (arith, missing)
    | inr (host, found) ↦ record {
      scheme = ground (
        arith,
        text_eq_iff (scheme url) (codes "http"),
        text_eq_iff (scheme url) (codes "https"),
      );
      username = ground arith;
      password = ground arith;
      host = host;
      found = found;
      allowed = (domain_allowed_iff host p.allowed_domains).0 (ground (arith, found));
    }
  ]

  pub validate_url_complete :
      (url : Url) (p : FetchPolicy) → IsAllowedUrl p url → validate_url api url p ≡ ok tt
  unfolding validate_url
  validate_url_complete url p u = ground (
    arith,
    text_eq_iff (scheme url) (codes "http"),
    text_eq_iff (scheme url) (codes "https"),
    u.scheme,
    u.username,
    u.password,
    u.found,
    (domain_allowed_iff u.host p.allowed_domains).1 u.allowed,
  )

  -- The headers of a request are accepted exactly if each has a valid name and a valid value, and
  -- a name that is not on the list of refused ones.
  pub validate_headers_iff :
      (headers : List (Text × Text))
      → (validate_headers api headers ≡ ok tt) ↔ All IsAllowedHeader headers
  unfolding validate_headers
  validate_headers_iff [] = ground arith
  validate_headers_iff ((name, value) ∷ headers) =
      ground (arith, is_disallowed_header_iff name, validate_headers_iff headers)
