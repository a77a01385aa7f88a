-- ===== src/Fetch/Broker/Answers.antt =====
-- What a fetch answers: a response, and the end of a chain of redirects.
use magazine_core.Base.{
  ℕ, zero, suc, ◌+◌, ◌≤◌, ◌≡◌, refl, true, false, List, [], ◌∷◌, ◌++◌, some, arith, inl, inr,
  length, Result, ok, err, >>=-eq-ok, Result-cases, ap, sym, ◌∙◌, subst, ◌==◌,
}
use magazine_core.Text.{Text}
use magazine_core.Fetch.Address.{ResolvedAddressPolicy}
use magazine_core.Fetch.Policy.{
  UrlApi, too_many_redirects, FetchRequest, FetchResponse, FetchPolicy, FetchMethod, is_redirect,
}
use magazine_core.Fetch.Broker.{
  TransportRequest, TransportResponse, Seams, Run, prepare, conclude, follow, redirect_loop,
  check_request, fetch_with_address_policy,
}
use magazine_core.Fetch.Broker.Rounds.{
  Round, refused, failed, answered, redirected, Round-cases, fetch_refused, fetch_started,
}

ok-injective : {E A : Type 0} {a b : A} → ◌≡◌ {A = Result E A} (ok a) (ok b) → a ≡ b
ok-injective e = cc

module _ (api : UrlApi) (seams : Seams api.Url) (p : FetchPolicy) where
  open api use {Url, to_string, join}

  -- The response reports the last request that was sent, and a reply to it that is no redirect and
  -- keeps to the size limit.
  pub record IsAnswer (sent : List (TransportRequest Url)) (response : FetchResponse) : Type 0 where
    pub before : List (TransportRequest Url)
    pub last : TransportRequest Url
    pub sent_last : sent ≡ before ++ last ∷ []
    pub round : ℕ
    pub reply : TransportResponse
    pub replied : seams.send round last ≡ ok reply
    pub size : length reply.body ≤ p.max_response_bytes
    pub settled : is_redirect reply.status ≡ false
    pub status : response.status ≡ reply.status
    pub final_url : response.final_url ≡ to_string last.url
    pub body : response.body_base64 ≡ seams.encode reply.body

  conclude_answer :
      (round : ℕ) (url : Url) (reply : TransportResponse) (response : FetchResponse)
      → conclude api seams p round url reply ≡ ok (inl response)
      → (length reply.body ≤ p.max_response_bytes)
        × (is_redirect reply.status ≡ false)
        × (response.status ≡ reply.status)
        × (response.final_url ≡ to_string url)
        × (response.body_base64 ≡ seams.encode reply.body)
  unfolding conclude
  conclude_answer round url reply response e = ground arith

  module _ (address_policy : ResolvedAddressPolicy) (method : FetchMethod)
      (headers : List (Text × Text)) where
    prepared_url :
        (round : ℕ) (url : Url) (request : TransportRequest Url)
        → prepare api seams p address_policy method headers round url ≡ ok request
        → request.url ≡ url
    unfolding prepare
    prepared_url round url request e = ground arith

    abbrev IsAnswered : Run Url → Type 0
    IsAnswered (sent, result) =
        (response : FetchResponse) → result ≡ ok response → IsAnswer sent response

    one_request :
        (round : ℕ) (url : Url) (request : TransportRequest Url) (reply : TransportResponse)
        (response : FetchResponse)
        → prepare api seams p address_policy method headers round url ≡ ok request
        → seams.send round request ≡ ok reply
        → conclude api seams p round url reply ≡ ok (inl response)
        → IsAnswer (request ∷ []) response
    one_request round url request reply response e sent e' =
        let (size, settled, status, final, body) = conclude_answer round url reply response e' in
        record {
          before = [];
          last = request;
          sent_last = refl;
          round = round;
          reply = reply;
          replied = sent;
          size = size;
          settled = settled;
          status = status;
          final_url = final ∙ ap to_string (sym (prepared_url round url request e));
          body = body;
        }

    one_more :
        (request : TransportRequest Url) (sent : List (TransportRequest Url))
        (response : FetchResponse)
        → IsAnswer sent response
        → IsAnswer (request ∷ sent) response
    one_more request sent response a = record {
      before = request ∷ a.before;
      last = a.last;
      sent_last = ap (λ l. request ∷ l) a.sent_last;
      round = a.round;
      reply = a.reply;
      replied = a.replied;
      size = a.size;
      settled = a.settled;
      status = a.status;
      final_url = a.final_url;
      body = a.body;
    }

    IsAnswered-Round :
        (left round : ℕ) (url : Url)
        → Round api seams p address_policy method headers left round url
        → ((next : Url)
            → IsAnswered
                (redirect_loop api seams p address_policy method headers left (suc round) next))
        → IsAnswered (redirect_loop api seams p address_policy method headers (suc left) round url)
    IsAnswered-Round left round url (refused x e loop) later = rw loop (λ response r. cc)
    IsAnswered-Round left round url (failed request x e e' loop) later = rw loop (λ response r. cc)
    IsAnswered-Round left round url (answered request response' e e' loop) later =
        let (reply, sent, concluded) =
          >>=-eq-ok (seams.send round request) (conclude api seams p round url) e' in
        let answer = one_request round url request reply response' e sent concluded in
        rw loop (λ response r. subst (IsAnswer (request ∷ [])) (ok-injective r) answer)
    IsAnswered-Round left round url (redirected request next e e' loop) later =
        rw loop (λ response r. one_more request _ response (later next response r))

    redirect_loop-IsAnswered :
        (left round : ℕ) (url : Url)
        → IsAnswered (redirect_loop api seams p address_policy method headers left round url)
    redirect_loop-IsAnswered zero round url = unfold redirect_loop in λ response r. cc
    redirect_loop-IsAnswered (suc left) round url =
        IsAnswered-Round left round url
          (Round-cases api seams p address_policy method headers left round url)
          (λ next. redirect_loop-IsAnswered left (suc round) next)

    -- A round that is let through and answered by a redirect within the size limit.
    pub record IsRedirected (round : ℕ) (url : Url) : Type 0 where
      pub request : TransportRequest Url
      pub reply : TransportResponse
      pub prepared : prepare api seams p address_policy method headers round url ≡ ok request
      pub replied : seams.send round request ≡ ok reply
      pub size : length reply.body ≤ p.max_response_bytes
      pub redirect : is_redirect reply.status ≡ true

    -- A chain of redirects from a round and its URL on: that round is redirected, and so are the
    -- `left` rounds behind it, each at the URL that the reply before it names.
    abbrev pub KeepRedirecting : ℕ → ℕ → Url → Type 0
    KeepRedirecting zero round url = IsRedirected round url
    KeepRedirecting (suc left) round url =
        (hop : IsRedirected round url) × (location : Text) × (next : Url) × (hop.reply.location
          ≡ some location)
        × (join url location ≡ some next)
        × KeepRedirecting left (suc round) next

    conclude_redirect :
        (round : ℕ) (url next : Url) (reply : TransportResponse) (location : Text)
        → length reply.body ≤ p.max_response_bytes
        → is_redirect reply.status ≡ true
        → (round == p.max_redirects) ≡ false
        → reply.location ≡ some location
        → join url location ≡ some next
        → conclude api seams p round url reply ≡ ok (inr next)
    unfolding conclude follow
    conclude_redirect round url next reply location h r early l j = ground arith

    conclude_last :
        (round : ℕ) (url : Url) (reply : TransportResponse)
        → length reply.body ≤ p.max_response_bytes
        → is_redirect reply.status ≡ true
        → round ≡ p.max_redirects
        → conclude api seams p round url reply ≡ err (too_many_redirects p.max_redirects)
    unfolding conclude follow
    conclude_last round url reply h r last = ground arith

    -- A run that sent so many requests and gave up.
    abbrev GivesUp : ℕ → Run Url → Type 0
    GivesUp n (sent, result) =
        (length sent ≡ n) × (result ≡ err (too_many_redirects p.max_redirects))

    redirect_loop-GivesUp :
        (left round : ℕ) (url : Url)
        → KeepRedirecting left round url
        → round + left ≡ p.max_redirects
        → GivesUp
            (suc left)
            (redirect_loop api seams p address_policy method headers (suc left) round url)
    unfolding redirect_loop
    redirect_loop-GivesUp zero round url hop k = ground (
      arith,
      hop.prepared,
      hop.replied,
      conclude_last round url hop.reply hop.size hop.redirect (omega arith),
    )
    redirect_loop-GivesUp (suc left) round url (hop, location, next, l, j, chain) k = ground (
      arith,
      hop.prepared,
      hop.replied,
      conclude_redirect round url next hop.reply location hop.size hop.redirect (ground arith) l j,
      redirect_loop-GivesUp left (suc round) next chain (omega arith),
    )

  -- A response is the reply to the last request that was sent: it is no redirect, it names that
  -- request's URL, and its body is no longer than the limit.
  pub fetch-IsAnswer :
      (request : FetchRequest) (address_policy : ResolvedAddressPolicy) (response : FetchResponse)
      → (fetch_with_address_policy api seams p request address_policy).1 ≡ ok response
      → IsAnswer (fetch_with_address_policy api seams p request address_policy).0 response
  fetch-IsAnswer request address_policy = elim (Result-cases (check_request api seams p request)) [
    | inr (x, e) ↦ rw (fetch_refused api seams p request address_policy e) (λ response r. cc)
    | inl ((method, url), e) ↦
        rw (fetch_started api seams p request address_policy e) (
          redirect_loop-IsAnswered address_policy method request.headers (suc p.max_redirects) 0
            url)
  ]

  -- Where `max_redirects + 1` rounds from the request's URL on are each let through and answered by
  -- a redirect within the size limit, each at the URL that the redirect before it names, the fetch
  -- ends: after these requests, with the error that names the limit.
  pub fetch-GivesUp :
      (request : FetchRequest) (address_policy : ResolvedAddressPolicy) (method : FetchMethod)
      (url : Url)
      → check_request api seams p request ≡ ok (method, url)
      → KeepRedirecting address_policy method request.headers p.max_redirects 0 url
      → let (sent, result) = fetch_with_address_policy api seams p request address_policy in
        (length sent ≡ p.max_redirects + 1) × (result ≡ err (too_many_redirects p.max_redirects))
  fetch-GivesUp request address_policy method url e h =
      rw (fetch_started api seams p request address_policy e) (
        let (n, r) =
          redirect_loop-GivesUp address_policy method request.headers p.max_redirects 0 url h
            (omega arith) in
        (omega (arith, n), r))
