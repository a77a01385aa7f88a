-- ===== src/Host/Error.antt =====
-- `HostError` of crates/mh-host/src/lib.rs, with a constructor for each protocol message. An exit
-- status and an I/O error are numbers, a status 0 is success.
use magazine_core.Base.{ℕ, Option, String}
use magazine_core.Text.{Text}
use magazine_core.Json.{Value}
use magazine_core.Domain.Record.{ValidationError}
use magazine_core.Protocol.Framing.{FrameError}

-- A number of type i64.
pub data ℤ : Type 0 where
  pos : ℕ → ℤ
  -- `negsuc n` is -(n + 1).
  negsuc : ℕ → ℤ

pub data Protocol : Type 0 where
  timeout_overflow spool_full record_bytes_full log_bytes_full : Protocol
  unsupported_protocol unsupported_record_schema : ℤ → Protocol
  empty_source_name no_method_or_id missing_result missing_version : Protocol
  records_mismatch : ℕ → ℕ → Protocol
  unexpected_response_id : Text → Protocol
  unknown_method not_plugin_traffic must_be_notification only_during_discover : Text → Protocol
  record_before_discover record_or_records missing_records frame_after_response : Protocol
  batch_too_large : ℕ → Protocol
  request_id_mismatch : Text → Protocol
  -- A member that a message lacks, holds empty or in the wrong form.
  missing : String → Protocol
  empty : String → Protocol
  invalid_fetch_request : Protocol
  id_not_text id_not_plugin_namespace : String → Protocol
  unknown_state_op : Text → Protocol
  missing_state_arg empty_state_arg : Text → String → Protocol

pub data HostError : Type 0 where
  frame : FrameError → HostError
  io : ℕ → HostError
  json plugin_did_not_exit frame_queue_full cancelled timeout : HostError
  fetch state : Text → HostError
  plugin_error : Value → HostError
  plugin_exit_status : ℕ → HostError
  plugin_exited : Option ℕ → HostError
  protocol : Protocol → HostError
  validation : ValidationError → HostError
