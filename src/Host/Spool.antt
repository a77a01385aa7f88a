-- ===== src/Host/Spool.antt =====
-- `RunState` of crates/mh-host/src/lib.rs: the spool of records and logs with its limits, and
-- `spool_records`. An error leaves what was changed before it.
pub mod Bounds
pub mod Invariant
use magazine_core.Base.{
  ℕ, suc, ◌+◌, ◌*◌, ◌-◌, ◌^◌, Bool, true, false, not, ◌&&◌, List, [], ◌∷◌, ◌++◌, Option, none, some,
  min, ltb, leb, length, if◌then◌else◌, Result, ok, err, ok_or, map_err, ◌>>=◌, ◌>>◌, guard,
}
use magazine_core.Text.{Text, codes}
use magazine_core.Text.Utf8.{as_bytes}
use magazine_core.Json.{Value, get, as_array, is_some}
use magazine_core.Domain.Record.{SourceRecord, validate_for_source}
use magazine_core.Protocol.Message.{max_record_batch}
use magazine_core.Host.Error.{
  HostError, Protocol, json, protocol, validation, spool_full, record_bytes_full, log_bytes_full,
  record_or_records, missing_records, batch_too_large,
}

abbrev pub host_max_records : ℕ
host_max_records = 10_000

abbrev pub host_max_record_bytes : ℕ
host_max_record_bytes = 32 * 1024 * 1024

abbrev pub host_max_log_bytes : ℕ
host_max_log_bytes = 1024 * 1024

-- The largest `usize` and `u64`.
abbrev pub max_u64 : ℕ
max_u64 = 2 ^ 64 - 1

abbrev pub saturating_add : ℕ → ℕ → ℕ
saturating_add a b = min (a + b) max_u64

pub record DiscoverLimits : Type 0 where
  pub max_pages : Option ℕ
  pub per_page : Option ℕ
  pub max_records : Option ℕ

abbrev pub capped : Option ℕ → ℕ
capped none = host_max_records
capped (some n) = min n host_max_records

unfoldable pub with_host_caps : DiscoverLimits → DiscoverLimits
with_host_caps limits = record limits { max_records = some (capped limits.max_records) }

pub record HostLog : Type 0 where
  pub level : Text
  pub message : Text

pub record RunState : Type 0 where
  pub records : List SourceRecord
  pub logs : List HostLog
  pub max_records : Option ℕ
  pub record_bytes : ℕ
  pub log_bytes : ℕ

unfoldable pub new_run_state : Option ℕ → RunState
new_run_state max_records = record {
  records = [];
  logs = [];
  max_records = max_records;
  record_bytes = 0;
  log_bytes = 0;
}

-- `u64::try_from(len).unwrap_or(u64::MAX)`
abbrev pub to_u64 : ℕ → ℕ
to_u64 n = min n max_u64

abbrev pub spooled_records : RunState → ℕ
spooled_records s = to_u64 (length s.records)

-- A method of the state: what it returns, and the state after it.
abbrev pub Outcome : Type 0
Outcome = Result HostError (Unit {0}) × RunState

unfoldable pub reserve_record_bytes : ℕ → RunState → Outcome
reserve_record_bytes incoming_bytes s =
    let next = saturating_add s.record_bytes incoming_bytes in
    if ltb host_max_record_bytes next
    then (err (protocol record_bytes_full), s)
    else (ok tt, record s { record_bytes = next })

unfoldable pub push_log : Text → Text → RunState → Outcome
push_log level message s =
    let incoming = saturating_add (length (as_bytes level)) (length (as_bytes message)) in
    let next = saturating_add s.log_bytes incoming in
    if ltb host_max_log_bytes next then (err (protocol log_bytes_full), s) else (
      ok tt,
      record s {
        logs = s.logs ++ record { level = level; message = message } ∷ [];
        log_bytes = next;
      },
    )

-- What the host needs of the JSON library here: the size of a value as text, and the derived reader
-- of a record.
pub record RecordJson : Type 0 where
  pub to_vec : Value → Option (List ℕ)
  pub to_record : Value → Option SourceRecord

-- Go on after a method that returned.
abbrev pub and_then : Outcome → (RunState → Outcome) → Outcome
and_then (ok _, s) k = k s
and_then (err e, s) k = (err e, s)

-- The records that a `record` message carries.
unfoldable pub batch_of : Value → Result HostError (List Value)
batch_of params =
    if is_some (get (codes "record") params) && is_some (get (codes "records") params)
    then err (protocol record_or_records)
    else elim (get (codes "record") params) [
      | some value ↦ ok (value ∷ [])
      | none ↦ do
        member ← ok_or (get (codes "records") params) (protocol missing_records)
        values ← ok_or (as_array member) (protocol missing_records)
        guard (leb (length values) max_record_batch) (protocol (batch_too_large (length values)))
        ok values
    ]

module _ (rj : RecordJson) where
  unfoldable pub json_size : Value → Result HostError ℕ
  json_size value = elim (rj.to_vec value) [ none ↦ err json | some bytes ↦ ok (length bytes) ]

  -- The loop that counts the incoming records and their bytes.
  unfoldable pub count_values : ℕ → ℕ → List Value → Result HostError (ℕ × ℕ)
  count_values incoming incoming_bytes [] = ok (incoming, incoming_bytes)
  count_values incoming incoming_bytes (value ∷ values) = do
    size ← json_size value
    count_values (saturating_add incoming 1) (saturating_add incoming_bytes size) values

  -- `reserve_record_values` behind the count.
  unfoldable pub reserve_counted : ℕ → ℕ → RunState → Outcome
  reserve_counted incoming incoming_bytes s = elim s.max_records [
    | none ↦ reserve_record_bytes incoming_bytes s
    | some max_records ↦
        if ltb max_records (saturating_add (spooled_records s) (to_u64 incoming))
        then (err (protocol spool_full), s)
        else reserve_record_bytes incoming_bytes s
  ]

  unfoldable pub reserve_record_values : List Value → RunState → Outcome
  reserve_record_values values s = elim (count_values 0 0 values) [
    | err e ↦ (err e, s)
    | ok (incoming, incoming_bytes) ↦ reserve_counted incoming incoming_bytes s
  ]

  -- One record, read and validated for the plugin's source.
  unfoldable pub read_record : Text → Value → Result HostError SourceRecord
  read_record source_name value = do
    r ← ok_or (rj.to_record value) json
    map_err validation (validate_for_source r source_name)
    ok r

  -- The loop over a batch: records before a bad one stay in the spool.
  unfoldable pub push_records : Text → List Value → RunState → Outcome
  push_records source_name [] s = (ok tt, s)
  push_records source_name (value ∷ values) s = elim (read_record source_name value) [
    | err e ↦ (err e, s)
    | ok r ↦ push_records source_name values (record s { records = s.records ++ r ∷ [] })
  ]

  unfoldable pub spool_records : Value → Text → RunState → Outcome
  spool_records params source_name s = elim (batch_of params) [
    | err e ↦ (err e, s)
    | ok values ↦ and_then (reserve_record_values values s) (push_records source_name values)
  ]
