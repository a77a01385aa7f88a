-- ===== src/Ui/Routes/Managing.antt =====
-- The handlers of crates/mh-cli/src/ui.rs that change something.
use magazine_core.Base.{ℕ, [], ◌∷◌, ◌++◌, List, Option, none, some, ok, err}
use magazine_core.Text.{Text, codes}
use magazine_core.Json.{Value, get_str, string, object, end}
use magazine_core.Protocol.Message.{member}
use magazine_core.Ui.Http.{
  HttpRequest, HttpResponse, UiJson, decimal, json_response, error_response, error_value,
}
use magazine_core.Ui.Authority.{UiOptions, require_management_request}
use magazine_core.Ui.Manage.{
  start_run, CancelOutcome, no_active, other_run, not_cancellable, cancelling, cancel_run,
}
use magazine_core.Ui.Routes.Reading.{Backend, World}
use magazine_core.Ui.Routes.Request.{parse_discover_request}

-- What `generate_token` and `unix_seconds` give.
pub record Moment : Type 0 where
  pub token : Option Text
  pub unix_seconds : ℕ

unfoldable pub new_run_id : Moment → Text
new_run_id moment = elim moment.token [
  | some token ↦ codes "ui-" ++ token
  | none ↦ codes "ui-" ++ decimal moment.unix_seconds
]

-- The run that a request asks to cancel, if it names one; `none` for a body that is no JSON.
unfoldable pub requested_run_id : UiJson → List ℕ → Option (Option Text)
requested_run_id api [] = some none
requested_run_id api (byte ∷ bytes) = elim (api.from_slice (byte ∷ bytes)) [
  | none ↦ none
  | some value ↦ some (get_str (codes "run_id") value)
]

abbrev started_value : Text → Text → Value
started_value run_id status =
    object (member "run_id" (string run_id) (member "status" (string status) end))

unfoldable pub cancel_outcome_response : UiJson → CancelOutcome → HttpResponse
cancel_outcome_response api no_active = error_response api 409 "no active UI discover run"
cancel_outcome_response api other_run = error_response api 404 "active run_id does not match"
cancel_outcome_response api not_cancellable =
    error_response api 409 "active UI discover run is no longer cancellable"
cancel_outcome_response api (cancelling run_id) =
    json_response api 202 (started_value run_id (codes "cancelling"))

module _ {D : Type 0} (api : UiJson) (backend : Backend D) (options : UiOptions) where
  unfoldable pub init_db_response : HttpRequest → World D → HttpResponse × World D
  init_db_response request w = elim (require_management_request api options request) [
    | err response ↦ (response, w)
    | ok _ ↦
        let opened = backend.init_db w.database in
        let after : World D = record w { database = opened.1 } in
        elim opened.0 [
          | ok inspection ↦
              (json_response api 200 (object (member "inspection" inspection end)), after)
          | err detail ↦ (
            json_response api 500 (
                object (
                  member "error" (string (codes "init-db failed"))
                    (member "detail" (string detail) end))),
            after,
          )
        ]
  ]

module _ {D : Type 0} (api : UiJson) (options : UiOptions) where
  unfoldable pub discover_response : Moment → HttpRequest → World D → HttpResponse × World D
  discover_response moment request w = elim (require_management_request api options request) [
    | err response ↦ (response, w)
    | ok _ ↦ elim (parse_discover_request api request.body) [
      | err message ↦ (json_response api 400 (error_value message), w)
      | ok discover ↦
          let run_id = new_run_id moment in
          elim (start_run run_id discover.plugin_id moment.unix_seconds w.system) [
            | none ↦ (error_response api 409 "discover already running", w)
            | some started ↦ (
              json_response api 202 (started_value run_id (codes "running")),
              record w { system = started },
            )
          ]
    ]
  ]

  unfoldable pub cancel_response : HttpRequest → World D → HttpResponse × World D
  cancel_response request w = elim (require_management_request api options request) [
    | err response ↦ (response, w)
    | ok _ ↦ elim (requested_run_id api request.body) [
      | none ↦ (error_response api 400 "invalid JSON body", w)
      | some requested ↦
          let outcome = cancel_run requested w.system in
          (cancel_outcome_response api outcome.0, record w { system = outcome.1 })
    ]
  ]
