-- ===== src/Fetch/Broker/Safety.antt =====
-- Every request that the broker hands to the transport is allowed by the policy.
use magazine_core.Base.{
  ℕ, zero, suc, ◌+◌, ◌≤◌, ◌≡◌, List, All, arith, inl, inr, length, ok, Result-cases, min,
}
use magazine_core.Text.{Text}
use magazine_core.Fetch.Address.{SocketAddr, ResolvedAddressPolicy, default, dev_allow_loopback}
use magazine_core.Fetch.Policy.{
  UrlApi, FetchRequest, FetchPolicy, FetchMethod, remaining_timeout, validate_url, validate_headers,
  validate_resolved_addrs,
}
use magazine_core.Fetch.Policy.Domains.{
  IsAllowedUrl, IsAllowedHeader, IsResolved, validate_url_sound, validate_headers_iff,
  validate-IsResolved_addrs_iff,
}
use magazine_core.Fetch.Broker.{
  TransportRequest, Seams, Run, validate_addrs, prepare, redirect_loop, check_request,
  fetch_with_address_policy,
}
use magazine_core.Fetch.Broker.Rounds.{
  Round, refused, failed, answered, redirected, Round-cases, fetch_refused, fetch_started,
}

module _ (api : UrlApi) (seams : Seams api.Url) (p : FetchPolicy) where
  open api use {Url}

  -- What the policy promises of a request that goes out.
  pub record IsSafe (address_policy : ResolvedAddressPolicy) (request : TransportRequest Url)
      : Type 0 where
    pub url : IsAllowedUrl api p request.url
    pub addrs : IsResolved address_policy request.resolved_addrs
    pub headers : All (IsAllowedHeader api) request.headers
    pub timeout : request.timeout ≤ p.total_timeout
    pub connect_timeout :
        (request.connect_timeout ≤ p.connect_timeout) × (request.connect_timeout ≤ request.timeout)
    pub size : request.max_response_bytes ≡ p.max_response_bytes

  validate_addrs-IsResolved :
      (address_policy : ResolvedAddressPolicy) (addrs : List SocketAddr)
      → validate_addrs api seams p address_policy addrs ≡ ok tt
      → IsResolved address_policy addrs
  unfolding validate_addrs validate_resolved_addrs
  validate_addrs-IsResolved default addrs e = (validate-IsResolved_addrs_iff addrs default).0 e
  validate_addrs-IsResolved dev_allow_loopback addrs e =
      (validate-IsResolved_addrs_iff addrs dev_allow_loopback).0 e

  remaining_timeout-le :
      (elapsed total : ℕ) {left : ℕ} → remaining_timeout elapsed total ≡ ok left → left ≤ total
  unfolding remaining_timeout
  remaining_timeout-le elapsed total e = ground arith

  headers_checked :
      (request : FetchRequest) {start : FetchMethod × Url}
      → check_request api seams p request ≡ ok start
      → validate_headers api request.headers ≡ ok tt
  unfolding check_request
  headers_checked request e = ground arith

  module _ (address_policy : ResolvedAddressPolicy) (method : FetchMethod)
      (headers : List (Text × Text)) (allowed : All (IsAllowedHeader api) headers) where
    -- What a round has found when it hands over a request.
    prepare_found :
        (round : ℕ) (url : Url) (request : TransportRequest Url)
        → prepare api seams p address_policy method headers round url ≡ ok request
        → (validate_url api url p ≡ ok tt)
          × (validate_addrs api seams p address_policy request.resolved_addrs ≡ ok tt)
          × (remaining_timeout (seams.elapsed_after round) p.total_timeout ≡ ok request.timeout)
          × (request.url ≡ url)
          × (request.headers ≡ headers)
          × (request.connect_timeout ≡ min p.connect_timeout request.timeout)
          × (request.max_response_bytes ≡ p.max_response_bytes)
    unfolding prepare
    prepare_found round url request e = ground arith

    prepare-IsSafe :
        (round : ℕ) (url : Url) (request : TransportRequest Url)
        → prepare api seams p address_policy method headers round url ≡ ok request
        → IsSafe address_policy request
    prepare-IsSafe round url request e =
        let (u, a, t, same_url, same_headers, connect, size) = prepare_found round url request e in
        record {
          url = rw same_url (validate_url_sound api url p u);
          addrs = validate_addrs-IsResolved address_policy request.resolved_addrs a;
          headers = rw same_headers allowed;
          timeout = remaining_timeout-le (seams.elapsed_after round) p.total_timeout t;
          connect_timeout = (omega (arith, connect), omega (arith, connect));
          size = size;
        }

    -- The requests of a run are safe, and no more than so many.
    abbrev IsSafeRun : ℕ → Run Url → Type 0
    IsSafeRun left (sent, result) = All (IsSafe address_policy) sent × (length sent ≤ left)

    safe-Round :
        (left round : ℕ) (url : Url)
        → Round api seams p address_policy method headers left round url
        → ((next : Url)
            → IsSafeRun left
                (redirect_loop api seams p address_policy method headers left (suc round) next))
        → IsSafeRun
            (suc left)
            (redirect_loop api seams p address_policy method headers (suc left) round url)
    safe-Round left round url (refused x e loop) later = rw loop (tt, omega arith)
    safe-Round left round url (failed request x e e' loop) later =
        rw loop ((prepare-IsSafe round url request e, tt), omega arith)
    safe-Round left round url (answered request response e e' loop) later =
        rw loop ((prepare-IsSafe round url request e, tt), omega arith)
    safe-Round left round url (redirected request next e e' loop) later =
        let (safe, few) = later next in
        rw loop ((prepare-IsSafe round url request e, safe), omega arith)

    redirect_loop-IsSafe :
        (left round : ℕ) (url : Url)
        → IsSafeRun left (redirect_loop api seams p address_policy method headers left round url)
    redirect_loop-IsSafe zero round url = unfold redirect_loop in (tt, omega arith)
    redirect_loop-IsSafe (suc left) round url =
        safe-Round left round url
          (Round-cases api seams p address_policy method headers left round url)
          (λ next. redirect_loop-IsSafe left (suc round) next)

  -- Whatever the resolver, the remote servers and the clock do: every request that is sent goes
  -- to an allowed host under an allowed scheme, to addresses that the rules permit, with allowed
  -- headers and within the limits of the policy; and no more than `max_redirects + 1` are sent.
  pub fetch-IsSafe :
      (request : FetchRequest) (address_policy : ResolvedAddressPolicy)
      → let sent = (fetch_with_address_policy api seams p request address_policy).0 in
        All (IsSafe address_policy) sent × (length sent ≤ p.max_redirects + 1)
  fetch-IsSafe request address_policy = elim (Result-cases (check_request api seams p request)) [
    | inr (x, e) ↦ rw (fetch_refused api seams p request address_policy e) (tt, omega arith)
    | inl ((method, url), e) ↦
        let allowed = (validate_headers_iff api request.headers).0 (headers_checked request e) in
        let (safe, few) =
          redirect_loop-IsSafe address_policy method request.headers allowed (suc p.max_redirects) 0
            url in
        rw (fetch_started api seams p request address_policy e) (safe, omega arith)
  ]
