-- ===== src/Ui/Authority/Guarded.antt =====
-- Which requests may change something.
use magazine_core.Base.{◌≡◌, ◌↔◌, true, some, arith, ok, Option-cases, inl, inr}
use magazine_core.Text.{Text, codes, trim}
use magazine_core.Text.Laws.{text_eq_iff}
use magazine_core.Ui.Http.{HttpRequest, UiJson, header}
use magazine_core.Ui.Authority.{UiOptions, is_allowed_origin, require_management_request}
use magazine_core.Ui.Authority.Loopback.{IsLoopback, is_allowed_loopback_authority_iff}

-- A request of the UI's own pages: management is on, it is a POST to the loopback address, from no
-- other origin if it names one, and it has the token of this process.
pub record IsGuarded (options : UiOptions) (request : HttpRequest) : Type 0 where
  pub manage : options.manage ≡ true
  pub post : request.method ≡ codes "POST"
  pub host : Text
  pub named : header (codes "host") request.headers ≡ some host
  pub loopback : IsLoopback (trim host) options.bound_port
  pub origin :
      (value : Text)
      → header (codes "origin") request.headers ≡ some value
      → is_allowed_origin value options.bound_port ≡ true
  pub token : Text
  pub expected : options.token ≡ some token
  pub actual : header (codes "x-mh-ui-token") request.headers ≡ some token

module _ (api : UiJson) (options : UiOptions) (request : HttpRequest) where
  guard_sound : require_management_request api options request ≡ ok tt → IsGuarded options request
  unfolding require_management_request
  guard_sound e = elim (Option-cases (header (codes "host") request.headers)) [
    | inl absent ↦ absurd (ground (arith, absent))
    | inr (host, named) ↦ elim (Option-cases options.token) [
      | inl missing ↦ absurd (ground (arith, named, missing))
      | inr (token, expected) ↦
          elim (Option-cases (header (codes "x-mh-ui-token") request.headers)) [
            | inl without ↦ absurd (ground (arith, named, expected, without))
            | inr (given, sent) ↦ record {
              manage = ground (arith, named, expected);
              post =
                  (text_eq_iff request.method (codes "POST")).0 (ground (arith, named, expected));
              host = host;
              named = named;
              loopback =
                  (is_allowed_loopback_authority_iff host options.bound_port).0
                    (ground (arith, named, expected));
              origin = λ value h. ground (arith, named, expected, h);
              token = token;
              expected = expected;
              actual = ground (arith, named, expected, sent, text_eq_iff given token);
            }
          ]
    ]
  ]

  guard_complete :
      IsGuarded options request → require_management_request api options request ≡ ok tt
  unfolding require_management_request
  guard_complete h = elim (Option-cases (header (codes "origin") request.headers)) [
    | inl absent ↦ ground (
      arith,
      absent,
      text_eq_iff request.method (codes "POST"),
      is_allowed_loopback_authority_iff h.host options.bound_port,
      text_eq_iff h.token h.token,
    )
    | inr (value, e) ↦ ground (
      arith,
      e,
      h.origin value e,
      text_eq_iff request.method (codes "POST"),
      is_allowed_loopback_authority_iff h.host options.bound_port,
      text_eq_iff h.token h.token,
    )
  ]

  -- A request passes the guard of the management routes exactly if it is a POST, with management
  -- on, to the loopback address, from an allowed origin if it names one, with the token of the
  -- process.
  pub require_management_request_iff :
      (require_management_request api options request ≡ ok tt) ↔ IsGuarded options request
  require_management_request_iff = (guard_sound, guard_complete)
