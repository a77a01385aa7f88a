-- ===== src/Tests/Handling.antt =====
-- Runs of the handlers, the read loop and the spool of crates/mh-host.
use magazine_core.Base.{
  ◌≤◌, ◌≡◌, ◌≢◌, refl, true, List, [], ◌∷◌, ◌++◌, none, some, inl, inr, ok, err, arith, length, All,
}
use magazine_core.Text.{codes, text_eq, trim, trim_start_by, trim_end_by, split_once}
use magazine_core.Text.Number.{parse_uint}
use magazine_core.Json.{Value, string, object, end, field, get, get_field}
use magazine_core.Domain.Uri.{is_absolute_uri}
use magazine_core.Domain.Date.{is_valid_yyyy_mm_dd}
use magazine_core.Text.Utf8.{as_bytes}
use magazine_core.Domain.Record.{
  SourceRecord, validate_for_source, validate, validate_required, validate_absolute_uri,
  validate_list, validate_list_from, validate_links_from, validate_date,
}
use magazine_core.Protocol.Message.{max_record_batch}
use magazine_core.Host.Error.{timeout, cancelled}
use magazine_core.Host.Spool.{
  new_run_state, with_host_caps, spool_records, batch_of, reserve_record_values, reserve_counted,
  reserve_record_bytes, count_values, json_size, push_records, read_record,
}
use magazine_core.Host.Spool.Invariant.{IsSpooled, AreRead}
use magazine_core.Host.Spool.Bounds.{spool_records_appends}
use magazine_core.Host.Machine.{Machine}
use magazine_core.Host.Handle.{
  Providers, LoopContext, handle_fetch_request, handle_record, handle_plugin_message,
}
use magazine_core.Host.Handle.Replies.{Replies, handle_fetch_request-Replies}
use magazine_core.Host.Handle.Keeps.{handle_plugin_message-IsSpooled, before_discover}
use magazine_core.Host.ReadLoop.{Tick, timed_out, read_until_response}
use magazine_core.Host.ReadLoop.Stops.{
  HasStopped, IsIdle, read_until_response_cancelled, read_until_response_timed_out,
  read_until_response_ends,
}
use magazine_core.Host.Discover.{start_machine}
use magazine_core.Tests.Hosting.{
  shelf_manifest, versioned, record_params, record_message, host_api, providers, limits, stdin,
  tick,
}

-- The context behind `initialize`, with a cancel token.
abbrev discovering : LoopContext
discovering = record {
  request_id = codes "r";
  manifest = some shelf_manifest;
  providers = providers;
  deadline = 100;
  has_cancel_token = true;
}

abbrev fresh : Machine
fresh = start_machine limits stdin

fresh_spool : IsSpooled host_api.records (codes "shelf") 5 fresh.spool
unfolding new_run_state with_host_caps
fresh_spool = record {
  limit = refl;
  records = omega arith;
  record_bytes = omega arith;
  log_bytes = omega arith;
  log_size = refl;
  valid = tt;
  values = [];
  read = tt;
  sizes = omega arith;
}

handle_plugin_message-IsSpooled_example :
    IsSpooled host_api.records
      (codes "shelf")
      5
      (handle_plugin_message host_api discovering (codes "record") record_message 0 fresh).1.spool
handle_plugin_message-IsSpooled_example =
    handle_plugin_message-IsSpooled host_api discovering (codes "shelf") 5 (omega arith)
      (λ manifest e. cc) (codes "record") record_message 0 fresh fresh_spool

abbrev starting : LoopContext
starting = record discovering { manifest = none }

abbrev other_providers : Providers
other_providers = record providers { query = λ operation. err [] }

before_discover_example :
    (handle_plugin_message host_api starting (codes "record") record_message 0 fresh
      ≡ handle_plugin_message host_api
          (record starting { providers = other_providers })
          (codes "record")
          record_message
          0
          fresh)
    × ((handle_plugin_message host_api starting
          (codes "record")
          record_message
          0
          fresh).1.spool.records
        ≡ fresh.spool.records)
before_discover_example =
    before_discover host_api starting other_providers (codes "record") record_message 0 fresh refl

abbrev state_query_message : Value
state_query_message = versioned (
    field (codes "id") (string (codes "p-1")) (
      field (codes "params")
        (object (
          field (codes "id") (string (codes "q")) (
            field (codes "op") (string (codes "last_seen_at")) (
              field (codes "args")
                (object (field (codes "source_name") (string (codes "shelf")) end)) end))))
        end))

has_id : get (codes "id") state_query_message ≡ some (string (codes "p-1"))
unfolding get_field text_eq
has_id = refl

handle_fetch_request-Replies_example :
    Replies
      (string (codes "p-1"))
      fresh
      (handle_fetch_request host_api discovering shelf_manifest state_query_message 0 fresh)
handle_fetch_request-Replies_example =
    handle_fetch_request-Replies host_api discovering shelf_manifest 0 state_query_message
      (string (codes "p-1")) fresh has_id

abbrev cancelled_tick : Tick
cancelled_tick = record (tick (codes "2")) { is_cancelled = true }

-- Two rounds in which nothing comes.
abbrev idle_tick : Tick
idle_tick = record (tick (codes "2")) { received = timed_out }

abbrev idle : List Tick
idle = idle_tick ∷ idle_tick ∷ []

idle-IsIdle : All (IsIdle host_api discovering) idle
idle-IsIdle = ((refl, refl, refl, omega arith), ((refl, refl, refl, omega arith), tt))

read_until_response_cancelled_example : HasStopped host_api discovering cancelled fresh (
    read_until_response host_api discovering
      (codes "h-2")
      (idle ++ cancelled_tick ∷ tick (codes "2") ∷ [])
      fresh)
read_until_response_cancelled_example =
    read_until_response_cancelled host_api discovering (codes "h-2") idle cancelled_tick
      (tick (codes "2") ∷ []) fresh idle-IsIdle refl refl

abbrev late_tick : Tick
late_tick = record (tick (codes "2")) { now = 101; later = 101 }

read_until_response_timed_out_example :
    HasStopped host_api discovering timeout fresh
      (read_until_response host_api discovering (codes "h-2") (idle ++ late_tick ∷ []) fresh)
read_until_response_timed_out_example =
    read_until_response_timed_out host_api discovering (codes "h-2") idle late_tick [] fresh
      idle-IsIdle refl (omega arith) (omega arith)

read_until_response_ends_example :
    (read_until_response host_api discovering
      (codes "h-2")
      (tick (codes "2") ∷ late_tick ∷ [])
      fresh).0
    ≢ ok none
read_until_response_ends_example =
    read_until_response_ends host_api discovering (codes "h-2") (tick (codes "2") ∷ late_tick ∷ [])
      fresh (inr (inl (omega arith, omega arith)))

abbrev spooled : Machine
spooled = (handle_record host_api discovering (codes "record") record_message fresh).1

record_spooled :
    spool_records host_api.records record_params (codes "shelf") fresh.spool
    ≡ (ok tt, (spool_records host_api.records record_params (codes "shelf") fresh.spool).1)
unfolding spool_records batch_of reserve_record_values reserve_counted reserve_record_bytes
    count_values json_size push_records read_record new_run_state with_host_caps validate_for_source
    validate validate_required validate_absolute_uri validate_list validate_list_from
    validate_links_from validate_date is_absolute_uri is_valid_yyyy_mm_dd text_eq get_field trim
    trim_start_by trim_end_by split_once as_bytes parse_uint
record_spooled = refl

limit_five : fresh.spool.max_records ≡ some 5
unfolding new_run_state with_host_caps
limit_five = refl

spool_records_appends_example :
    (values : List Value) × (rs : List SourceRecord) × (batch_of record_params ≡ ok values)
    × (length values ≤ max_record_batch)
    × AreRead host_api.records (codes "shelf") values rs
    × ((spool_records host_api.records record_params (codes "shelf") fresh.spool).1.records
        ≡ fresh.spool.records ++ rs)
spool_records_appends_example =
    spool_records_appends host_api.records (codes "shelf") 5 record_params fresh.spool
      (spool_records host_api.records record_params (codes "shelf") fresh.spool).1 (omega arith)
      limit_five record_spooled
