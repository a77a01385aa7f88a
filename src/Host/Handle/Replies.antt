-- ===== src/Host/Handle/Replies.antt =====
-- What the handlers of a plugin's requests send back.
use magazine_core.Base.{
  ℕ, ◌-◌, ◌≡◌, ◌⊎◌, refl, true, [], ◌∷◌, ◌++◌, none, some, Result, ok, err, arith, inl, inr,
  Result-cases, Option-cases, leb, Bool-cases,
}
use magazine_core.Text.{Text, codes, text_eq}
use magazine_core.Json.{Value, get, get_field, is_some}
use magazine_core.Fetch.Policy.{FetchRequest}
use magazine_core.Protocol.Message.{response_ok, response_err}
use magazine_core.Host.Error.{HostError, state, timeout, fetch, protocol, missing}
use magazine_core.Host.Requests.{
  PluginManifest, StateOperation, require_plugin_request_id, parse_state_query, parse_fetch_request,
}
use magazine_core.Host.Machine.{Machine, M, send, raise, ◌>>◌}
use magazine_core.Host.Handle.{
  HostApi, Providers, LoopContext, refuse, query_state, handle_state_query, fetch_for,
  handle_fetch_request,
}

-- What a request with this id has led to: nothing but at most one message went out, a response with
-- the id; where the handler returned, it is a response with a result.
pub record Replies (id : Value) (m : Machine) (o : Result HostError (Unit {0}) × Machine)
    : Type 0 where
  pub spool : o.1.spool ≡ m.spool
  pub shutdowns : o.1.shutdowns ≡ m.shutdowns
  pub sent :
      (o.1.sent ≡ m.sent)
      ⊎ ((v : Value) × (o.1.sent ≡ m.sent ++ v ∷ []) × (get (codes "id") v ≡ some id))
  pub answered :
      o.0 ≡ ok tt
      → (v : Value) × (o.1.sent ≡ m.sent ++ v ∷ [])
        × (get (codes "id") v ≡ some id)
        × (is_some (get (codes "result") v) ≡ true)

-- A send notes the message, or fails with nothing noted; the rest stays.
abbrev Sends : Value → Machine → Result HostError (Unit {0}) × Machine → Type 0
Sends v m (ok _, m') =
    (m'.sent ≡ m.sent ++ v ∷ []) × (m'.spool ≡ m.spool) × (m'.shutdowns ≡ m.shutdowns)
Sends v m (err _, m') = (m'.sent ≡ m.sent) × (m'.spool ≡ m.spool) × (m'.shutdowns ≡ m.shutdowns)

pub send-Sends :
    (to_string : Value → Text) (v : Value) (m : Machine) → Sends v m (send to_string v m)
unfolding send
send-Sends to_string v m = ground arith

response_err-id :
    (id code : Value) (message : Text) → get (codes "id") (response_err id code message) ≡ some id
unfolding response_err get_field text_eq
response_err-id id code message = refl

response_ok-id :
    (id result : Value)
    → (get (codes "id") (response_ok id result) ≡ some id)
      × (is_some (get (codes "result") (response_ok id result)) ≡ true)
unfolding response_ok get_field text_eq
response_ok-id id result = (refl, refl)

sent-Replies :
    (id v : Value) (m : Machine) (o : Result HostError (Unit {0}) × Machine)
    → get (codes "id") v ≡ some id
    → is_some (get (codes "result") v) ≡ true
    → Sends v m o
    → Replies id m o
sent-Replies id v m (ok tt, m') h r (sent, spool, shutdowns) = record {
  spool = spool;
  shutdowns = shutdowns;
  sent = inr (v, sent, h);
  answered = λ e. (v, sent, h, r);
}
sent-Replies id v m (err x, m') h r (sent, spool, shutdowns) = record {
  spool = spool;
  shutdowns = shutdowns;
  sent = inl sent;
  answered = λ e. absurd (cc);
}

-- A failure behind a message that was sent, or that could not be sent.
refused-Replies :
    (id v : Value) (send_it : M (Unit {0})) (m : Machine) (e : HostError)
    → get (codes "id") v ≡ some id
    → Sends v m (send_it m)
    → Replies id m ((send_it >> raise e) m)
refused-Replies id v send_it m e h s = by_outcome (send_it m) s
  where
    by_outcome :
        (o : Result HostError (Unit {0}) × Machine)
        → Sends v m o
        → Replies id m (((λ (n : Machine). o) >> raise e) m)
    by_outcome (ok tt, m') (sent, spool, shutdowns) = record {
      spool = spool;
      shutdowns = shutdowns;
      sent = inr (v, sent, h);
      answered = λ e. absurd (cc);
    }
    by_outcome (err x, m') (sent, spool, shutdowns) = record {
      spool = spool;
      shutdowns = shutdowns;
      sent = inl sent;
      answered = λ e. absurd (cc);
    }

-- A request that is turned down before anything is sent.
failed-Replies : (id : Value) (m : Machine) (e : HostError) → Replies id m (err e, m)
failed-Replies id m e = record {
  spool = refl;
  shutdowns = refl;
  sent = inl refl;
  answered = λ e. absurd (cc);
}

module _ (api : HostApi) where
  refuse-Replies :
      (id code : Value) (message : Text) (e : HostError) (m : Machine)
      → Replies id m (refuse api id code message e m)
  unfolding refuse
  refuse-Replies id code message e m =
      refused-Replies id (response_err id code message)
        (send api.to_string (response_err id code message)) m e (response_err-id id code message)
        (send-Sends api.to_string _ m)

  answer-Replies :
      (id result : Value) (m : Machine)
      → Replies id m (send api.to_string (response_ok id result) m)
  answer-Replies id result m =
      let (named, has) = response_ok-id id result in
      sent-Replies id (response_ok id result) m _ named has (send-Sends api.to_string _ m)

  query_state-Replies :
      (providers : Providers) (id query_id : Value) (operation : StateOperation) (m : Machine)
      → Replies id m (query_state api providers id query_id operation m)
  unfolding query_state
  query_state-Replies providers id query_id operation m =
      elim (Result-cases (providers.query operation)) [
        | inl (result, e) ↦ rw (e, query_state) (answer-Replies id _ m)
        | inr (message, e) ↦
            rw (e, query_state) (refuse-Replies id api.server_error message (state message) m)
      ]

  fetch_for-Replies :
      (context : LoopContext) (manifest : PluginManifest) (id request_id : Value)
      (request : FetchRequest) (now : ℕ) (m : Machine)
      → Replies id m (fetch_for api context manifest id request_id request now m)
  unfolding fetch_for
  fetch_for-Replies context manifest id request_id request now m =
      elim (Bool-cases (leb now context.deadline)) [
        | inr late ↦ rw (late, fetch_for) (refuse-Replies id _ _ timeout m)
        | inl early ↦
            elim (Result-cases
              (context.providers.fetch_url manifest request (context.deadline - now))) [
                | inl (response, e) ↦ rw (early, e, fetch_for) (answer-Replies id _ m)
                | inr (message, e) ↦
                    rw (early, e, fetch_for) (refuse-Replies id _ message (fetch message) m)
              ]
      ]

  module _ (providers : Providers) (value id : Value) (m : Machine)
      (named : get (codes "id") value ≡ some id) where
    state_query_foreign :
        {x : HostError}
        → require_plugin_request_id id "state_query" ≡ err x
        → handle_state_query api providers value m ≡ (err x, m)
    unfolding handle_state_query
    state_query_foreign e = ground arith

    state_query_no_params :
        require_plugin_request_id id "state_query" ≡ ok tt
        → get (codes "params") value ≡ none
        → handle_state_query api providers value m
          ≡ (err (protocol (missing "state_query params")), m)
    unfolding handle_state_query
    state_query_no_params e p = ground arith

    state_query_unreadable :
        {params : Value} {x : HostError}
        → require_plugin_request_id id "state_query" ≡ ok tt
        → get (codes "params") value ≡ some params
        → parse_state_query params ≡ err x
        → handle_state_query api providers value m
          ≡ refuse api id api.invalid_params (api.display x) x m
    unfolding handle_state_query
    state_query_unreadable e p q = ground arith

    state_query_read :
        {params query_id : Value} {operation : StateOperation}
        → require_plugin_request_id id "state_query" ≡ ok tt
        → get (codes "params") value ≡ some params
        → parse_state_query params ≡ ok (query_id, operation)
        → handle_state_query api providers value m
          ≡ query_state api providers id query_id operation m
    unfolding handle_state_query
    state_query_read e p q = ground arith

    -- A state query with an id is answered by at most one message, a response with that id; where
    -- the run goes on, a response with a result went out.
    pub handle_state_query-Replies : Replies id m (handle_state_query api providers value m)
    handle_state_query-Replies = elim (Result-cases (require_plugin_request_id id "state_query")) [
      | inr (x, e) ↦ rw (state_query_foreign e) (failed-Replies id m x)
      | inl (tt, e) ↦ elim (Option-cases (get (codes "params") value)) [
        | inl p ↦ rw (state_query_no_params e p) (failed-Replies id m _)
        | inr (params, p) ↦ elim (Result-cases (parse_state_query params)) [
          | inr (x, q) ↦ rw (state_query_unreadable e p q) (refuse-Replies id _ _ x m)
          | inl ((query_id, operation), q) ↦
              rw (state_query_read e p q) (query_state-Replies providers id query_id operation m)
        ]
      ]
    ]

  module _ (context : LoopContext) (manifest : PluginManifest) (now : ℕ) (value id : Value)
      (m : Machine) (named : get (codes "id") value ≡ some id) where
    fetch_request_foreign :
        {x : HostError}
        → require_plugin_request_id id "fetch_request" ≡ err x
        → handle_fetch_request api context manifest value now m ≡ (err x, m)
    unfolding handle_fetch_request
    fetch_request_foreign e = ground arith

    fetch_request_no_params :
        require_plugin_request_id id "fetch_request" ≡ ok tt
        → get (codes "params") value ≡ none
        → handle_fetch_request api context manifest value now m
          ≡ (err (protocol (missing "fetch_request params")), m)
    unfolding handle_fetch_request
    fetch_request_no_params e p = ground arith

    fetch_request_unreadable :
        {params : Value} {x : HostError}
        → require_plugin_request_id id "fetch_request" ≡ ok tt
        → get (codes "params") value ≡ some params
        → parse_fetch_request api.to_fetch_request params ≡ err x
        → handle_fetch_request api context manifest value now m
          ≡ refuse api id api.invalid_params (api.display x) x m
    unfolding handle_fetch_request
    fetch_request_unreadable e p q = ground arith

    fetch_request_read :
        {params request_id : Value} {request : FetchRequest}
        → require_plugin_request_id id "fetch_request" ≡ ok tt
        → get (codes "params") value ≡ some params
        → parse_fetch_request api.to_fetch_request params ≡ ok (request_id, request)
        → handle_fetch_request api context manifest value now m
          ≡ fetch_for api context manifest id request_id request now m
    unfolding handle_fetch_request
    fetch_request_read e p q = ground arith

    -- A fetch request with an id is answered by at most one message, a response with that id; where
    -- the run goes on, a response with a result went out.
    pub handle_fetch_request-Replies :
        Replies id m (handle_fetch_request api context manifest value now m)
    handle_fetch_request-Replies =
        elim (Result-cases (require_plugin_request_id id "fetch_request")) [
          | inr (x, e) ↦ rw (fetch_request_foreign e) (failed-Replies id m x)
          | inl (tt, e) ↦ elim (Option-cases (get (codes "params") value)) [
            | inl p ↦ rw (fetch_request_no_params e p) (failed-Replies id m _)
            | inr (params, p) ↦
                elim (Result-cases (parse_fetch_request api.to_fetch_request params)) [
                  | inr (x, q) ↦ rw (fetch_request_unreadable e p q) (refuse-Replies id _ _ x m)
                  | inl ((request_id, request), q) ↦
                      rw (fetch_request_read e p q)
                        (fetch_for-Replies context manifest id request_id request now m)
                ]
          ]
        ]
