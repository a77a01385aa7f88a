-- ===== src/Tests/Serving.antt =====
-- Runs of the UI server and of the extensions' files in crates/mh-cli.
use magazine_core.Base.{
  ℕ, suc, ◌≡◌, ◌↔◌, ◌⊎◌, refl, ap, sym, subst, true, false, List, [], ◌∷◌, ◌++◌, none, some, ok,
  arith,
}
use magazine_core.Text.{Text, codes, text_eq, trim}
use magazine_core.Text.Utf8.{as_bytes}
use magazine_core.Json.{Value, null, object, string, number, end}
use magazine_core.Protocol.Message.{member}
use magazine_core.Ui.Target.{percent_decode}
use magazine_core.Ui.Target.RoundTrip.{percent_encode, percent_decode-percent_encode}
use magazine_core.Ui.Http.{HttpRequest, UiJson, Headers, header}
use magazine_core.Ui.Authority.{
  UiOptions, is_allowed_loopback_authority, is_loopback_name, authority_is,
}
use magazine_core.Ui.Authority.Loopback.{is_allowed_loopback_authority_iff}
use magazine_core.Ui.Authority.Guarded.{IsGuarded}
use magazine_core.Ui.Manage.{
  ActiveRun, System, discovering, first_system, update, start_run, cancel_run, mark_run_ingesting,
}
use magazine_core.Ui.Manage.Steps.{start, mark, Reach, here, next, stay, more, after_mark}
use magazine_core.Ui.Manage.Cancels.{cancelled_run_writes_nothing, one_run}
use magazine_core.Ui.Read.{Attempt, bytes, read_http_request_until}
use magazine_core.Ui.Read.Bounds.{IsWellFramed, read_http_request_until-IsWellFramed}
use magazine_core.Ui.Routes.{handle_request}
use magazine_core.Ui.Routes.Reading.{Backend, World}
use magazine_core.Ui.Routes.Managing.{Moment}
use magazine_core.Ui.Routes.Request.{DiscoverRequest, parse_discover_request}
use magazine_core.Ui.Routes.Request.Bounds.{Asks, parse_discover_request_iff}
use magazine_core.Ui.Routes.Safety.{handle_request-IsGuarded, handle_request-foreign_host}
use magazine_core.Ext.Path.{validate_relative_path}
use magazine_core.Ext.Path.Confined.{IsConfined, validate_relative_path-IsConfined}

-- A run of the plugin `shelf`, and its state behind a cancellation and the thread's next step.
abbrev shelf_run : ActiveRun
shelf_run = record {
  run_id = codes "ui-1";
  plugin_id = codes "shelf";
  started_at = 7;
  cancel_token = 0;
  cancellable = true;
}

abbrev running : System
running = record {
  management = record { active = some shelf_run; last = none };
  tokens = update (λ i. false) 0 false;
  workers = update first_system.workers 0 (record {
    run_id = codes "ui-1";
    plugin_id = codes "shelf";
    phase = discovering;
    ingested = false;
  });
  spawned = 1;
}

running-Reach : Reach running
unfolding start_run
running-Reach = next here (start (codes "ui-1") (codes "shelf") 7 refl)

abbrev cancelled_system : System
cancelled_system = (cancel_run none running).1

abbrev stopped_system : System
stopped_system = after_mark cancelled_system 0 (mark_run_ingesting 0 cancelled_system)

cancelled_run_writes_nothing_example : (stopped_system.workers 0).ingested ≡ false
unfolding cancel_run mark_run_ingesting text_eq
cancelled_run_writes_nothing_example =
    cancelled_run_writes_nothing running-Reach none shelf_run refl refl
      (more (mark 0 refl refl) stay)

one_run_example : ◌≡◌ {A = ℕ} 0 0
one_run_example = one_run running-Reach 0 0 (λ e. ground (arith, e)) (λ e. ground (arith, e))

-- A JSON library that knows one body.
abbrev asked : Value
asked = object (
    member "plugin_id" (string (codes "shelf")) (
      member "max_pages" (number 3) (
        member "per_page" (number 20)
          (member "max_records" (number 60) (member "timeout_seconds" (number 30) end)))))

abbrev example_json : UiJson
example_json = record { to_vec = λ value. some []; from_slice = λ body. some asked }

abbrev asked_run : DiscoverRequest
asked_run = record {
  plugin_id = codes "shelf";
  max_pages = 3;
  max_records = 60;
  per_page = 20;
  timeout_seconds = 30;
}

parse_discover_request_iff_example :
    (parse_discover_request example_json [] ≡ ok asked_run) ↔ Asks example_json [] asked_run
parse_discover_request_iff_example = parse_discover_request_iff example_json [] asked_run

-- A database that counts its initialisations.
abbrev counting : Backend ℕ
counting = record {
  ui_summary = λ d. some null;
  source_record_page = λ limit offset d. some null;
  known_source_url_state = λ source_name d. some null;
  init_db = λ d. (ok null, suc d);
  inspect_plugin_manifests = some null;
  index_html = λ options. [];
}

abbrev managing : UiOptions
managing = record {
  db_path = codes "core.db";
  plugins_dir = codes "plugins.d";
  port = 8765;
  bound_port = 8765;
  manage = true;
  token = some (codes "k");
}

abbrev moment : Moment
moment = record { token = some (codes "1"); unix_seconds = 7 }

abbrev empty_world : World ℕ
empty_world = record { database = 0; system = first_system }

abbrev post : Headers → HttpRequest
post headers = record {
  method = codes "POST";
  target = codes "/api/manage/init-db";
  headers = headers;
  body = [];
}

abbrev own_headers : Headers
own_headers = (codes "host", codes "localhost:8765") ∷ (codes "x-mh-ui-token", codes "k") ∷ []

initialised :
    (handle_request example_json counting managing moment (post own_headers) empty_world).1.database
    ≡ 1
unfolding handle_request magazine_core.Ui.Routes.route magazine_core.Ui.Routes.post_route
    magazine_core.Ui.Routes.read_route magazine_core.Ui.Routes.Managing.init_db_response
    magazine_core.Ui.Authority.require_management_request
    magazine_core.Ui.Authority.require_loopback_host magazine_core.Ui.Target.split_target
    magazine_core.Text.Split.split magazine_core.Text.split_once header
    is_allowed_loopback_authority is_loopback_name text_eq authority_is trim
    magazine_core.Text.trim_start_by magazine_core.Text.trim_end_by
    magazine_core.Text.Split.rsplit_once magazine_core.Text.eq_ignore_ascii_case
    magazine_core.Text.to_lower_char magazine_core.Text.Number.parse_uint
    magazine_core.Text.Number.parse_digits
initialised = refl

handle_request-IsGuarded_example : IsGuarded managing (post own_headers)
handle_request-IsGuarded_example =
    handle_request-IsGuarded example_json counting managing moment (post own_headers) empty_world
      (λ e. ground (arith, initialised, ap (λ (w : World ℕ). w.database) e))

abbrev foreign_headers : Headers
foreign_headers = (codes "host", codes "evil.example") ∷ []

handle_request-foreign_host_example :
    (((handle_request example_json counting managing moment
          (post foreign_headers)
          empty_world).0.status
        ≡ 400)
      ⊎ ((handle_request example_json counting managing moment
            (post foreign_headers)
            empty_world).0.status
          ≡ 403))
    × ((handle_request example_json counting managing moment (post foreign_headers) empty_world).1
        ≡ empty_world)
unfolding header is_allowed_loopback_authority is_loopback_name text_eq authority_is trim
    magazine_core.Text.trim_start_by magazine_core.Text.trim_end_by
    magazine_core.Text.Split.rsplit_once magazine_core.Text.eq_ignore_ascii_case
    magazine_core.Text.to_lower_char
handle_request-foreign_host_example =
    handle_request-foreign_host example_json counting managing moment (post foreign_headers)
      empty_world
      (λ host e l.
        let named : codes "evil.example" ≡ host = ground (arith, e) in
        let allowed : is_allowed_loopback_authority (codes "evil.example") 8765 ≡ true =
          subst (λ h. is_allowed_loopback_authority h 8765 ≡ true) (sym named)
            ((is_allowed_loopback_authority_iff host 8765).1 l) in
        ground (arith, allowed))

abbrev sent : List ℕ
sent = as_bytes (
    codes "POST /x HTTP/1.1"
    ++ (13 ∷ 10 ∷ (codes "Content-Length: 2" ++ (13 ∷ 10 ∷ 13 ∷ 10 ∷ codes "{}!"))))

abbrev arrives : List Attempt
arrives = record { now = 1; received = bytes sent } ∷ []

abbrev arrived : HttpRequest
arrived = record {
  method = codes "POST";
  target = codes "/x";
  headers = (codes "content-length", codes "2") ∷ [];
  body = codes "{}";
}

read_http_request_until-IsWellFramed_example : IsWellFramed 30 2 arrived
unfolding read_http_request_until magazine_core.Ui.Read.read_header
    magazine_core.Ui.Read.read_within_deadline magazine_core.Ui.Read.split_header
    magazine_core.Ui.Read.parse_header magazine_core.Ui.Read.request_line
    magazine_core.Ui.Read.add_headers magazine_core.Ui.Read.add_header
    magazine_core.Ui.Read.insert_header magazine_core.Ui.Read.content_length
    magazine_core.Ui.Read.read_body magazine_core.Text.Split.lines
    magazine_core.Text.Split.split_whitespace magazine_core.Text.Lossy.from_utf8_lossy as_bytes
    magazine_core.Text.split_once magazine_core.Text.starts_with header text_eq trim
    magazine_core.Text.trim_start_by magazine_core.Text.trim_end_by magazine_core.Text.to_lower_char
    magazine_core.Text.Number.parse_uint magazine_core.Text.Number.parse_digits
    magazine_core.Text.Lossy.lossy_from magazine_core.Text.Utf8.decode_char
read_http_request_until-IsWellFramed_example =
    read_http_request_until-IsWellFramed 30 arrives 2 {request = arrived} refl

percent_decode-percent_encode_example :
    percent_decode (percent_encode (λ c. false) true (as_bytes (codes "a b"))) ≡ some (codes "a b")
percent_decode-percent_encode_example =
    percent_decode-percent_encode (λ c. false) true
      (record { ascii = λ b e. absurd (ground (arith, e)); percent = refl; plus = refl })
      (codes "a b") (refl, (refl, (refl, tt)))

validate_relative_path-IsConfined_example : IsConfined (codes "app/main.js")
unfolding validate_relative_path magazine_core.Ext.Path.percent_decode_once
    magazine_core.Ext.Path.decode_once as_bytes magazine_core.Ui.Target.hex
    magazine_core.Text.Utf8.from_utf8 magazine_core.Ext.Path.is_unclean
    magazine_core.Text.starts_with magazine_core.Text.ends_with magazine_core.Text.Split.split
    magazine_core.Ext.Path.components magazine_core.Ext.Path.later_components text_eq
validate_relative_path-IsConfined_example =
    validate_relative_path-IsConfined (codes "app%2Fmain.js") refl
