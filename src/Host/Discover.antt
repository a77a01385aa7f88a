-- ===== src/Host/Discover.antt =====
-- A whole run of a plugin in crates/mh-host/src/lib.rs: `initialize`, `discover`, the end of the
-- process and the checks behind it. The start of the process, how it ends and the derived
-- deserializers are parameters.
pub mod Complete
use magazine_core.Base.{
  ℕ, ◌-◌, ◌/◌, min, Bool, true, false, not, List, [], ◌∷◌, Option, none, some, if◌then◌else◌,
  is_empty, ◌==◌, Result, ok, err, ok_or, guard,
}
use magazine_core.Text.{Text, codes, trim}
use magazine_core.Json.{Value, Fields, number, string, object, end, field}
use magazine_core.Domain.Record.{SourceRecord}
use magazine_core.Protocol.Framing.{FrameError, Writer, eof}
use magazine_core.Protocol.Message.{
  protocol_version, record_schema_version, initialize, discover, member, request,
}
use magazine_core.Host.Error.{
  HostError, frame, json, protocol, ℤ, pos, negsuc, timeout_overflow, unsupported_protocol,
  unsupported_record_schema, empty_source_name, records_mismatch, frame_after_response,
  plugin_exit_status, plugin_did_not_exit, frame_queue_full,
}
use magazine_core.Host.Spool.{
  DiscoverLimits, HostLog, new_run_state, with_host_caps, max_u64, spooled_records,
}
use magazine_core.Host.Requests.{PluginManifest}
use magazine_core.Host.Machine.{
  Machine, M, pure, raise, lift, ◌>>=◌, ◌>>◌, shut_down, send, wait_or_terminate,
}
use magazine_core.Host.Handle.{HostApi, Providers, LoopContext}
use magazine_core.Host.ReadLoop.{
  Received, frame_of, timed_out, disconnected, Tick, read_until_response,
}

pub record InitializeResult : Type 0 where
  pub protocol_version : ℤ
  pub record_schema_version : ℤ
  pub manifest : PluginManifest

pub record HostRun : Type 0 where
  pub manifest : PluginManifest
  pub discover_records : ℕ
  pub records : List SourceRecord
  pub logs : List HostLog
  pub exit_status : Option ℕ

-- What one run meets beside the rounds of its loop.
pub record Surroundings : Type 0 where
  pub host_version : Text
  -- The start's time and the timeout, added; no value is an overflow.
  pub deadline : Option ℕ
  pub spawned : Result HostError (Unit {0})
  -- The clock when `discover` is sent.
  pub discover_now : ℕ
  -- What `wait_or_terminate` returns behind the response to `discover`.
  pub exited : Result HostError (Option ℕ)
  pub overflowed : Bool
  -- What the channel still holds then; `timed_out` is an empty one.
  pub pending : Received
  pub to_initialize : Value → Option InitializeResult
  -- `DiscoverResult`, the number of records.
  pub to_discover : Value → Option ℕ

abbrev is_version : ℤ → ℕ → Bool
is_version (pos n) k = n == k
is_version (negsuc n) k = false

-- A member that is skipped where it has no value.
abbrev limit_member : Text → Option ℕ → Fields → Fields
limit_member k none fs = fs
limit_member k (some n) fs = field k (number n) fs

abbrev pub limits_value : DiscoverLimits → Value
limits_value limits = object (
    limit_member (codes "max_pages") limits.max_pages (
      limit_member (codes "per_page") limits.per_page
        (limit_member (codes "max_records") limits.max_records end)))

-- Whole milliseconds.
unfoldable pub remaining_ms : ℕ → ℕ → ℕ
remaining_ms deadline now = min ((deadline - now) / 1_000_000) max_u64

unfoldable pub check_initialize : InitializeResult → Result HostError (Unit {0})
check_initialize init =
    if is_version init.protocol_version protocol_version
    then if is_version init.record_schema_version record_schema_version
      then guard (not (is_empty (trim init.manifest.source_name))) (protocol empty_source_name)
      else err (protocol (unsupported_record_schema init.record_schema_version))
    else err (protocol (unsupported_protocol init.protocol_version))

-- Only a process that ended by itself, with status 0, has succeeded.
unfoldable pub check_exit : Option ℕ → Result HostError ℕ
check_exit none = err plugin_did_not_exit
check_exit (some status) = if status == 0 then ok status else err (plugin_exit_status status)

unfoldable pub ensure_no_frames_after_response : Bool → Received → Result HostError (Unit {0})
ensure_no_frames_after_response overflowed pending =
    if overflowed then err frame_queue_full else elim pending [
      | frame_of r ↦ elim r [
        | ok payload ↦ err (protocol frame_after_response)
        | err e ↦ elim e [ eof ↦ ok tt | other ↦ err (frame other) ]
      ]
      | timed_out ↦ ok tt
      | disconnected ↦ ok tt
    ]

abbrev pub start_machine : DiscoverLimits → Writer → Machine
start_machine limits stdin = record {
  stdin = stdin;
  sent = [];
  shutdowns = [];
  spool = new_run_state (with_host_caps limits).max_records;
}

module _ (api : HostApi) (env : Surroundings) where
  -- The end of the process behind the response to `discover`.
  unfoldable pub finish : PluginManifest → Value → M (Option HostRun)
  finish manifest value = do
    records ← lift (ok_or (env.to_discover value) json)
    shut_down wait_or_terminate
    exit_status ← lift env.exited
    status ← lift (check_exit exit_status)
    lift (ensure_no_frames_after_response env.overflowed env.pending)
    λ m.
        if records == spooled_records m.spool
        then (
          ok (
              some (record {
                manifest = manifest;
                discover_records = records;
                records = m.spool.records;
                logs = m.spool.logs;
                exit_status = some status;
              })),
          m,
        )
        else (err (protocol (records_mismatch records (spooled_records m.spool))), m)

  module _ (request_id : Text) (limits : DiscoverLimits) (providers : Providers)
      (has_cancel_token : Bool) where
    abbrev pub context_of : ℕ → Option PluginManifest → LoopContext
    context_of deadline manifest = record {
      request_id = request_id;
      manifest = manifest;
      providers = providers;
      deadline = deadline;
      has_cancel_token = has_cancel_token;
    }

    abbrev pub initialize_request : Value
    initialize_request = request (codes "h-1") initialize (
        object (
          member "protocol_version" (number protocol_version)
            (member "host_version" (string env.host_version) end)))

    abbrev pub discover_request : ℕ → Value
    discover_request deadline = request (codes "h-2") discover (
        object (
          member "request_id" (string request_id) (
            member "limits" (limits_value (with_host_caps limits))
              (member "remaining_ms" (number (remaining_ms deadline env.discover_now)) end))))

    unfoldable pub discover_after : ℕ → InitializeResult → List Tick → M (Option HostRun)
    discover_after deadline init ticks = do
      lift (check_initialize init)
      send api.to_string (discover_request deadline)
      answer ←
          read_until_response api (context_of deadline (some init.manifest)) (codes "h-2") ticks
      elim answer [ none ↦ pure none | some (value, rest) ↦ finish init.manifest value ]

    unfoldable pub initialize_with : ℕ → List Tick → M (Option HostRun)
    initialize_with deadline ticks = do
      send api.to_string initialize_request
      answer ← read_until_response api (context_of deadline none) (codes "h-1") ticks
      elim answer [
        | none ↦ pure none
        | some (value, rest) ↦ do
          init ← lift (ok_or (env.to_initialize value) json)
          discover_after deadline init rest
      ]

    -- `run_discover_with_providers_and_cancel`, from a process whose input is `stdin`; no value
    -- means that it is still waiting when the ticks are used up.
    unfoldable pub run_discover_with_providers_and_cancel :
        List Tick → Writer → Result HostError (Option HostRun) × Machine
    run_discover_with_providers_and_cancel ticks stdin =
        (do
          deadline ← lift (ok_or env.deadline (protocol timeout_overflow))
          lift env.spawned
          initialize_with deadline ticks)
          (start_machine limits stdin)
