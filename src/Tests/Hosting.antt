-- ===== src/Tests/Hosting.antt =====
-- A whole run of crates/mh-host, with the values that other tests share.
use magazine_core.Base.{
  ◌≡◌, refl, false, List, [], ◌∷◌, Option, none, some, Result, ok, err, if◌then◌else◌,
}
use magazine_core.Text.{Text, codes, text_eq, trim, trim_start_by, trim_end_by, split_once}
use magazine_core.Text.Number.{parse_uint}
use magazine_core.Protocol.Canonical.{canonical_json}
use magazine_core.Json.{Value, null, number, string, object, Fields, end, field, get_field}
use magazine_core.Domain.Uri.{is_absolute_uri}
use magazine_core.Domain.Date.{is_valid_yyyy_mm_dd}
use magazine_core.Text.Utf8.{as_bytes}
use magazine_core.Domain.Record.{
  validate_for_source, validate, validate_required, validate_absolute_uri, validate_list,
  validate_list_from, validate_links_from, validate_date,
}
use magazine_core.Protocol.Framing.{Writer, eof, write_frame, write_all}
use magazine_core.Protocol.Message.{parse_method, request, method_text}
use magazine_core.Host.Error.{HostError, pos}
use magazine_core.Host.Spool.{
  DiscoverLimits, new_run_state, with_host_caps, spool_records, batch_of, reserve_record_values,
  reserve_counted, reserve_record_bytes, count_values, json_size, push_records, read_record,
}
use magazine_core.Host.Requests.{PluginManifest, require_jsonrpc, require_notification}
use magazine_core.Host.Machine.{Machine, send}
use magazine_core.Host.Handle.{
  HostApi, Providers, handle_record, handle_method, handle_plugin_message,
}
use magazine_core.Host.ReadLoop.{
  frame_of, Tick, recv_frame, response, handle_payload, round, read_until_response,
}
use magazine_core.Host.Discover.{
  InitializeResult, HostRun, Surroundings, check_initialize, check_exit,
  ensure_no_frames_after_response, finish, discover_after, initialize_with,
  run_discover_with_providers_and_cancel,
}
use magazine_core.Host.Discover.Complete.{
  IsComplete, run_discover_with_providers_and_cancel-IsComplete,
}
use magazine_core.Tests.Records.{issue}

abbrev pub shelf_manifest : PluginManifest
shelf_manifest = record {
  source_name = codes "shelf";
  display_label = [];
  allowed_domains = [];
  capabilities = [];
}

abbrev pub versioned : Fields → Value
versioned fs = object (field (codes "jsonrpc") (string (codes "2.0")) fs)

abbrev initialized : Value
initialized =
    versioned (field (codes "id") (string (codes "h-1")) (field (codes "result") null end))

abbrev pub record_params : Value
record_params =
    object (field (codes "request_id") (string (codes "r")) (field (codes "record") null end))

abbrev pub record_message : Value
record_message =
    versioned
      (field (codes "method") (string (codes "record")) (field (codes "params") record_params end))

abbrev discovered : Value
discovered =
    versioned (field (codes "id") (string (codes "h-2")) (field (codes "result") (number 1) end))

-- A plugin's frames are named by a digit.
abbrev read_payload : Text → Option Value
read_payload s =
    if text_eq s (codes "1")
    then some initialized
    else if text_eq s (codes "2")
    then some record_message
    else if text_eq s (codes "3")
    then some discovered
    else none

abbrev pub host_api : HostApi
host_api = record {
  to_string = λ v. [];
  from_str = read_payload;
  records = record { to_vec = λ v. some (110 ∷ []); to_record = λ v. some issue };
  to_fetch_request = λ v. none;
  display = λ e. [];
  method_not_found = null;
  invalid_params = null;
  server_error = null;
}

abbrev pub providers : Providers
providers = record { query = λ operation. ok null; fetch_url = λ manifest request wait. err [] }

abbrev pub limits : DiscoverLimits
limits = record { max_pages = none; per_page = none; max_records = some 5 }

abbrev pub stdin : Writer
stdin = record { output = []; room = none; error = 0 }

abbrev pub tick : Text → Tick
tick payload = record {
  is_cancelled = false;
  poll_now = 0;
  now = 0;
  later = 0;
  fetch_now = 0;
  received = frame_of (ok payload);
  overflowed = false;
  exited = ok none;
}

abbrev as_initialized : Value → Option InitializeResult
as_initialized v =
    some (record {
      protocol_version = pos 1;
      record_schema_version = pos 1;
      manifest = shelf_manifest;
    })

abbrev surroundings : Surroundings
surroundings = record {
  host_version = [];
  deadline = some 100;
  spawned = ok tt;
  discover_now = 0;
  exited = ok (some 0);
  overflowed = false;
  pending = frame_of (err eof);
  to_initialize = as_initialized;
  to_discover = λ v. some 1;
}

abbrev script : List Tick
script = tick (codes "1") ∷ tick (codes "2") ∷ tick (codes "3") ∷ []

abbrev run : HostRun
run = record {
  manifest = shelf_manifest;
  discover_records = 1;
  records = issue ∷ [];
  logs = [];
  exit_status = some 0;
}

abbrev ran : Result HostError (Option HostRun) × Machine
ran =
    run_discover_with_providers_and_cancel host_api surroundings (codes "r") limits providers false
      script stdin

run_returns : ran ≡ (ok (some run), ran.1)
unfolding run_discover_with_providers_and_cancel initialize_with discover_after finish check_exit
    ensure_no_frames_after_response check_initialize read_until_response round recv_frame
    handle_payload response handle_plugin_message handle_method handle_record spool_records batch_of
    reserve_record_values reserve_counted reserve_record_bytes count_values json_size push_records
    read_record new_run_state with_host_caps validate_for_source validate validate_required
    validate_absolute_uri validate_list validate_list_from validate_links_from validate_date
    is_absolute_uri is_valid_yyyy_mm_dd text_eq get_field trim trim_start_by trim_end_by
    require_jsonrpc require_notification parse_method send write_frame write_all request method_text
    as_bytes canonical_json split_once parse_uint
run_returns = refl

run_discover_with_providers_and_cancel-IsComplete_example : IsComplete limits run
run_discover_with_providers_and_cancel-IsComplete_example =
    run_discover_with_providers_and_cancel-IsComplete host_api surroundings limits (codes "r")
      providers false script stdin ran.1 run_returns
