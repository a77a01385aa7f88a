-- ===== src/Ui/Routes/Safety.antt =====
-- What no request can do.
use magazine_core.Base.{
  ◌≡◌, ◌≢◌, ◌⊎◌, some, err, arith, inl, inr, Option-cases, Bool-cases, Result-cases,
}
use magazine_core.Text.{Text, codes, trim}
use magazine_core.Ui.Http.{HttpRequest, HttpResponse, UiJson, header}
use magazine_core.Ui.Authority.{
  UiOptions, is_allowed_loopback_authority, require_loopback_host, require_management_request,
}
use magazine_core.Ui.Authority.Loopback.{IsLoopback, is_allowed_loopback_authority_iff}
use magazine_core.Ui.Authority.Guarded.{IsGuarded, require_management_request_iff}
use magazine_core.Ui.Routes.Reading.{Backend, World}
use magazine_core.Ui.Routes.Managing.{Moment, init_db_response, discover_response, cancel_response}
use magazine_core.Ui.Routes.{handle_request, route, post_route}

module _ {D : Type 0} (api : UiJson) (backend : Backend D) (options : UiOptions) (moment : Moment)
    (request : HttpRequest) where
  -- Without the guard a request leaves everything as it is.
  refused_keeps :
      (w : World D) (response : HttpResponse)
      → require_management_request api options request ≡ err response
      → (handle_request api backend options moment request w).1 ≡ w
  unfolding handle_request route post_route init_db_response discover_response cancel_response
  refused_keeps w response e = elim (Option-cases (require_loopback_host api options request)) [
    | inr (rejection, h) ↦ ground (arith, h)
    | inl h ↦ ground (arith, h, e)
  ]

  -- A request that changes the database or the run state has passed the guard of the management
  -- routes: management is on, and it is a POST to the loopback address, from an allowed origin if
  -- it names one, with the token of the process.
  pub handle_request-IsGuarded :
      (w : World D)
      → (handle_request api backend options moment request w).1 ≢ w
      → IsGuarded options request
  handle_request-IsGuarded w changed =
      elim (Result-cases (require_management_request api options request)) [
        | inl (done, e) ↦ (require_management_request_iff api options request).0 e
        | inr (response, e) ↦ absurd (changed (refused_keeps w response e))
      ]

  -- A request with no `Host` header, or with one that is not the server's loopback address, is
  -- answered with the status 400 or 403, by whichever method and for whichever path, and changes
  -- nothing.
  pub handle_request-foreign_host :
      (w : World D)
      → ((host : Text)
          → header (codes "host") request.headers ≡ some host
          → ¬ IsLoopback (trim host) options.bound_port)
      → (((handle_request api backend options moment request w).0.status ≡ 400)
          ⊎ ((handle_request api backend options moment request w).0.status ≡ 403))
        × ((handle_request api backend options moment request w).1 ≡ w)
  unfolding handle_request require_loopback_host
  handle_request-foreign_host w foreign =
      elim (Option-cases (header (codes "host") request.headers)) [
        | inl absent ↦ (inl (ground (arith, absent)), ground (arith, absent))
        | inr (host, e) ↦
            elim (Bool-cases (is_allowed_loopback_authority host options.bound_port)) [
              | inl allowed ↦ absurd (
                  foreign host e
                    ((is_allowed_loopback_authority_iff host options.bound_port).0 allowed))
              | inr other ↦ (inr (ground (arith, e, other)), ground (arith, e, other))
            ]
      ]
