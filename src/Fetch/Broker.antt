-- ===== src/Fetch/Broker.antt =====
-- The redirect loop of `SafeFetcherParts` (crates/mh-fetch/src/lib.rs) over its two seams. The
-- resolver, the transport and the clock may answer each call differently: they take the number of
-- the round. The loop also gives the requests that it handed to the transport.
pub mod Safety
pub mod Rounds
pub mod Answers
use magazine_core.Base.{
  ℕ, zero, suc, ◌+◌, ◌*◌, Bool, true, false, not, List, [], ◌∷◌, Option, none, some, ltb, leb, ◌==◌,
  length, min, if◌then◌else◌, ◌⊎◌, inl, inr, Result, ok, err, ok_or, ◌>>=◌, ◌>>◌, guard,
}
use magazine_core.Text.{Text}
use magazine_core.Fetch.Address.{SocketAddr, ResolvedAddressPolicy, default, dev_allow_loopback}
use magazine_core.Fetch.Policy.{
  UrlApi, FetchError, policy, response_too_large, too_many_redirects, missing_host, missing_port,
  missing_location, invalid_url, invalid_redirect_url, FetchRequest, FetchResponse, FetchPolicy,
  FetchMethod, parse_method, is_redirect, remaining_timeout, validate_resolved_addrs,
  validate_resolved_addrs_with_policy, validate_url, validate_headers,
}

pub record TransportRequest (Url : Type 0) : Type 0 where
  pub url : Url
  pub method : FetchMethod
  pub headers : List (Text × Text)
  pub resolved_addrs : List SocketAddr
  pub connect_timeout : ℕ
  pub timeout : ℕ
  pub max_response_bytes : ℕ

pub record TransportResponse : Type 0 where
  pub status : ℕ
  pub location : Option Text
  pub body : List ℕ

-- The traits `Resolver` and `Transport`, the clock (how much time has passed when the round begins,
-- and when its name is resolved) and the base64 encoder.
pub record Seams (Url : Type 0) : Type 0 where
  pub resolve : ℕ → Text → ℕ → ℕ → Result FetchError (List SocketAddr)
  pub send : ℕ → TransportRequest Url → Result FetchError TransportResponse
  pub elapsed_before : ℕ → ℕ
  pub elapsed_after : ℕ → ℕ
  pub encode : List ℕ → Text

-- The requests that were sent, and the result.
abbrev pub Run : Type 0 → Type 0
Run Url = List (TransportRequest Url) × Result FetchError FetchResponse

module _ (api : UrlApi) (seams : Seams api.Url) (p : FetchPolicy) where
  open api use {Url, parse, join, host_str, port_or_known_default, to_string}
  open seams use {resolve, send, elapsed_before, elapsed_after, encode}

  unfoldable pub validate_addrs :
      ResolvedAddressPolicy → List SocketAddr → Result FetchError (Unit {0})
  validate_addrs default addrs = validate_resolved_addrs addrs
  validate_addrs dev_allow_loopback addrs =
      validate_resolved_addrs_with_policy addrs dev_allow_loopback

  -- A round up to the call of the transport.
  unfoldable pub prepare :
      ResolvedAddressPolicy
      → FetchMethod
      → List (Text × Text)
      → ℕ
      → Url
      → Result FetchError (TransportRequest Url)
  prepare address_policy method headers round url = do
    remaining ← remaining_timeout (elapsed_before round) p.total_timeout
    validate_url api url p
    host ← ok_or (host_str url) (policy missing_host)
    port ← ok_or (port_or_known_default url) (policy missing_port)
    addrs ← resolve round host port (min p.connect_timeout remaining)
    validate_addrs address_policy addrs
    remaining' ← remaining_timeout (elapsed_after round) p.total_timeout
    ok (record {
      url = url;
      method = method;
      headers = headers;
      resolved_addrs = addrs;
      connect_timeout = min p.connect_timeout remaining';
      timeout = remaining';
      max_response_bytes = p.max_response_bytes;
    })

  -- A redirect, to the URL that it names.
  unfoldable pub follow : ℕ → Url → TransportResponse → Result FetchError Url
  follow round url response = do
    guard (not (round == p.max_redirects)) (too_many_redirects p.max_redirects)
    location ← ok_or response.location (policy missing_location)
    ok_or (join url location) (policy invalid_redirect_url)

  abbrev answer : Url → TransportResponse → FetchResponse
  answer url response = record {
    status = response.status;
    final_url = to_string url;
    body_base64 = encode response.body;
  }

  -- The rest of a round: the answer, or the URL of the next round.
  unfoldable pub conclude : ℕ → Url → TransportResponse → Result FetchError (FetchResponse ⊎ Url)
  conclude round url response =
      if ltb p.max_response_bytes (length response.body)
      then err (response_too_large p.max_response_bytes)
      else if is_redirect response.status
      then follow round url response >>= (λ next. ok (inr next))
      else ok (inl (answer url response))

  module _ (address_policy : ResolvedAddressPolicy) (method : FetchMethod)
      (headers : List (Text × Text)) where
    -- `for redirect_count in 0..=max_redirects`, from a round on; `left` rounds remain.
    unfoldable pub redirect_loop : ℕ → ℕ → Url → Run Url
    redirect_loop zero round url = ([], err (too_many_redirects p.max_redirects))
    redirect_loop (suc left) round url = elim (prepare address_policy method headers round url) [
      | err e ↦ ([], err e)
      | ok request ↦ elim (send round request >>= conclude round url) [
        | err e ↦ (request ∷ [], err e)
        | ok (inl response) ↦ (request ∷ [], ok response)
        | ok (inr next) ↦
            let (sent, result) = redirect_loop left (suc round) next in (request ∷ sent, result)
      ]
    ]

  -- What is checked before the first round.
  unfoldable pub check_request : FetchRequest → Result FetchError (FetchMethod × Url)
  check_request request = do
    method ← parse_method request.method
    validate_headers api request.headers
    url ← ok_or (parse request.url) (policy invalid_url)
    ok (method, url)

  unfoldable pub fetch_with_address_policy : FetchRequest → ResolvedAddressPolicy → Run Url
  fetch_with_address_policy request address_policy = elim (check_request request) [
    | err e ↦ ([], err e)
    | ok (method, url) ↦
        redirect_loop address_policy method request.headers (suc p.max_redirects) 0 url
  ]

  -- `SafeFetcher::fetch`, and `fetch_with_dev_loopback_allowance`.
  unfoldable pub fetch : FetchRequest → Run Url
  fetch request = fetch_with_address_policy request default

  unfoldable pub fetch_with_dev_loopback_allowance : FetchRequest → Run Url
  fetch_with_dev_loopback_allowance request = fetch_with_address_policy request dev_allow_loopback
