-- ===== src/Ui/Routes.antt =====
-- The handlers of crates/mh-cli/src/ui.rs and their dispatch. A handler takes the database and the
-- run state as they stand and gives them back with its response.
pub mod Request
pub mod Reading
pub mod Managing
pub mod Safety
use magazine_core.Base.{
  ℕ, ◌∷◌, [], List, ◌++◌, String, Bool, true, false, ◌&&◌, ◌||◌, Option, none, some, if◌then◌else◌,
}
use magazine_core.Text.{Text, codes, text_eq}
use magazine_core.Ui.Target.{split_target}
use magazine_core.Ui.Http.{
  HttpRequest, HttpResponse, UiJson, html_response, plain_error, method_not_allowed, without_body,
}
use magazine_core.Ui.Authority.{UiOptions, require_loopback_host}
use magazine_core.Ui.Routes.Reading.{
  Backend, World, summary_response, records_response, known_source_urls_response, plugins_response,
  management_status_response,
}
use magazine_core.Ui.Routes.Managing.{Moment, init_db_response, discover_response, cancel_response}

unfoldable pub is_known_path : Text → Bool
is_known_path path =
    text_eq path (codes "/")
    || text_eq path (codes "/api/summary")
    || text_eq path (codes "/api/records")
    || text_eq path (codes "/api/state/known-source-urls")
    || text_eq path (codes "/api/plugins")
    || text_eq path (codes "/api/manage/status")
    || text_eq path (codes "/api/manage/init-db")
    || text_eq path (codes "/api/manage/discover")
    || text_eq path (codes "/api/manage/cancel")

abbrev is_managed_path : Text → Bool
is_managed_path path =
    text_eq path (codes "/api/manage/init-db")
    || text_eq path (codes "/api/manage/discover")
    || text_eq path (codes "/api/manage/cancel")

module _ {D : Type 0} (api : UiJson) (backend : Backend D) (options : UiOptions) where
  -- `GET` or `HEAD` at a path.
  unfoldable pub read_route : Text → Option Text → World D → HttpResponse
  read_route path query w =
      if text_eq path (codes "/")
      then html_response (backend.index_html options)
      else if text_eq path (codes "/api/summary")
      then summary_response api backend w
      else if text_eq path (codes "/api/records")
      then records_response api backend query w
      else if text_eq path (codes "/api/state/known-source-urls")
      then known_source_urls_response api backend query w
      else if text_eq path (codes "/api/plugins")
      then plugins_response api backend
      else if text_eq path (codes "/api/manage/status")
      then management_status_response api options w
      else if is_managed_path path
      then method_not_allowed api "POST"
      else if is_known_path path
      then method_not_allowed api "GET, HEAD"
      else plain_error api 404 "Not Found" "not found"

  unfoldable pub post_route : Moment → HttpRequest → Text → World D → HttpResponse × World D
  post_route moment request path w =
      if text_eq path (codes "/api/manage/init-db")
      then init_db_response api backend options request w
      else if text_eq path (codes "/api/manage/discover")
      then discover_response api options moment request w
      else if text_eq path (codes "/api/manage/cancel")
      then cancel_response api options request w
      else (method_not_allowed api "GET, HEAD", w)

  abbrev other_route : Text → HttpResponse
  other_route path =
      if is_known_path path
      then method_not_allowed api "GET, HEAD"
      else plain_error api 404 "Not Found" "not found"

  -- The `match` on the method and the path.
  unfoldable pub route : Moment → HttpRequest → World D → HttpResponse × World D
  route moment request w =
      let path = (split_target request.target).0 in
      let query = (split_target request.target).1 in
      if text_eq request.method (codes "GET") || text_eq request.method (codes "HEAD")
      then (read_route path query w, w)
      else if text_eq request.method (codes "POST")
      then post_route moment request path w
      else (other_route path, w)

  abbrev bodiless : Bool → HttpResponse → HttpResponse
  bodiless true response = without_body response
  bodiless false response = response

  unfoldable pub handle_request : Moment → HttpRequest → World D → HttpResponse × World D
  handle_request moment request w =
      let head = text_eq request.method (codes "HEAD") in
      let routed = route moment request w in
      elim (require_loopback_host api options request) [
        | some rejection ↦ (bodiless head rejection, w)
        | none ↦ (bodiless head routed.0, routed.1)
      ]
