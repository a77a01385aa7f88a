-- ===== src/Fetch/Broker/Rounds.antt =====
-- The rounds of the redirect loop, one equation for each way a round ends.
use magazine_core.Base.{
  ℕ, suc, ◌≡◌, List, [], ◌∷◌, arith, inl, inr, ◌⊎◌, Result, ok, err, ◌>>=◌, Result-cases,
}
use magazine_core.Text.{Text}
use magazine_core.Fetch.Address.{ResolvedAddressPolicy}
use magazine_core.Fetch.Policy.{
  UrlApi, FetchError, FetchResponse, FetchPolicy, FetchMethod, FetchRequest,
}
use magazine_core.Fetch.Broker.{
  TransportRequest, Seams, Run, prepare, conclude, redirect_loop, check_request,
  fetch_with_address_policy,
}

module _ (api : UrlApi) (seams : Seams api.Url) (p : FetchPolicy)
    (address_policy : ResolvedAddressPolicy) (method : FetchMethod)
    (headers : List (Text × Text)) where
  open api use {Url}

  abbrev prepared : ℕ → Url → Result FetchError (TransportRequest Url)
  prepared = prepare api seams p address_policy method headers

  abbrev loop : ℕ → ℕ → Url → Run Url
  loop = redirect_loop api seams p address_policy method headers

  abbrev concluded : ℕ → Url → TransportRequest Url → Result FetchError (FetchResponse ⊎ Url)
  concluded round url request = seams.send round request >>= conclude api seams p round url

  -- How a round can go: refused before the transport is called, failed, answered or redirected.
  pub data Round (left round : ℕ) (url : Url) : Type 0 where
    refused :
        (e : FetchError)
        → prepared round url ≡ err e
        → loop (suc left) round url ≡ ([], err e)
        → Round left round url
    failed :
        (request : TransportRequest Url) (e : FetchError)
        → prepared round url ≡ ok request
        → concluded round url request ≡ err e
        → loop (suc left) round url ≡ (request ∷ [], err e)
        → Round left round url
    answered :
        (request : TransportRequest Url) (response : FetchResponse)
        → prepared round url ≡ ok request
        → concluded round url request ≡ ok (inl response)
        → loop (suc left) round url ≡ (request ∷ [], ok response)
        → Round left round url
    redirected :
        (request : TransportRequest Url) (next : Url)
        → prepared round url ≡ ok request
        → concluded round url request ≡ ok (inr next)
        → loop (suc left) round url
          ≡ (request ∷ (loop left (suc round) next).0, (loop left (suc round) next).1)
        → Round left round url

  pub Round-cases : (left round : ℕ) (url : Url) → Round left round url
  unfolding redirect_loop
  Round-cases left round url = elim (Result-cases (prepared round url)) [
    | inr (x, e) ↦ refused x e (ground (arith, e))
    | inl (request, e) ↦ elim (Result-cases (concluded round url request)) [
      | inr (x, e') ↦ failed request x e e' (ground (arith, e, e'))
      | inl (inl response, e') ↦ answered request response e e' (ground (arith, e, e'))
      | inl (inr next, e') ↦ redirected request next e e' (ground (arith, e, e'))
    ]
  ]

module _ (api : UrlApi) (seams : Seams api.Url) (p : FetchPolicy) where
  open api use {Url}

  pub fetch_refused :
      (request : FetchRequest) (address_policy : ResolvedAddressPolicy) {x : FetchError}
      → check_request api seams p request ≡ err x
      → fetch_with_address_policy api seams p request address_policy ≡ ([], err x)
  unfolding fetch_with_address_policy
  fetch_refused request address_policy e = ground arith

  pub fetch_started :
      (request : FetchRequest) (address_policy : ResolvedAddressPolicy) {method : FetchMethod}
      {url : Url}
      → check_request api seams p request ≡ ok (method, url)
      → fetch_with_address_policy api seams p request address_policy
        ≡ redirect_loop api seams p address_policy method request.headers
            (suc p.max_redirects)
            0
            url
  unfolding fetch_with_address_policy
  fetch_started request address_policy e = ground arith
