-- ===== src/Host/Spool/Bounds.antt =====
-- The limits of the spool hold whatever a plugin sends, and every spooled record is valid.
use magazine_core.Base.{
  ℕ, ◌+◌, ◌≤◌, ◌<◌, ◌≡◌, List, [], ◌∷◌, ◌++◌, some, length, length-append, arith, All-append, ok,
  err, inl, inr, Result-cases, append-nil, append_assoc, sym, refl, ap, ◌∙◌,
}
use magazine_core.Text.{Text}
use magazine_core.Json.{Value}
use magazine_core.Domain.Record.{SourceRecord}
use magazine_core.Domain.Record.Accepts.{validate_for_source_iff}
use magazine_core.Protocol.Message.{max_record_batch}
use magazine_core.Host.Error.{HostError}
use magazine_core.Host.Spool.Invariant.{
  log_size, IsOf, value_bytes, value_bytes-append, AreRead, AreRead-append, IsSpooled,
  count_values-length, count_values-bytes,
}
use magazine_core.Host.Spool.{
  host_max_record_bytes, max_u64, HostLog, RunState, Outcome, and_then, reserve_record_bytes,
  push_log, RecordJson, count_values, reserve_counted, reserve_record_values, read_record,
  push_records, batch_of, spool_records,
}

log_size-append : (ls ks : List HostLog) → log_size (ls ++ ks) ≡ log_size ls + log_size ks
log_size-append [] ks = omega arith
log_size-append (l ∷ ls) ks = omega (arith, log_size-append ls ks)

pub push_log-IsSpooled :
    (rj : RecordJson) (source_name : Text) (cap : ℕ) (level message : Text) (s : RunState)
    → IsSpooled rj source_name cap s
    → IsSpooled rj source_name cap (push_log level message s).1
unfolding push_log
push_log-IsSpooled rj source_name cap level message s h =
    ground (arith, log_size-append s.logs (record { level = level; message = message } ∷ []))

and_then-ok :
    (o : Outcome) (k : RunState → Outcome) {s' : RunState}
    → and_then o k ≡ (ok tt, s')
    → (mid : RunState) × (o ≡ (ok tt, mid)) × (k mid ≡ (ok tt, s'))
and_then-ok (ok tt, mid) k e = (mid, refl, e)
and_then-ok (err x, mid) k e = cc

batch_of-small :
    (params : Value) {values : List Value}
    → batch_of params ≡ ok values
    → length values ≤ max_record_batch
unfolding batch_of
batch_of-small params e = ground arith

module _ (rj : RecordJson) where
  -- What a reservation leaves alone, and the room that it has found.
  abbrev Reserves : ℕ → List Value → RunState → Outcome → Type 0
  Reserves cap values s (ok _, s') =
      (s'.records ≡ s.records)
      × (s'.logs ≡ s.logs)
      × (s'.log_bytes ≡ s.log_bytes)
      × (s'.max_records ≡ s.max_records)
      × (s.record_bytes + value_bytes rj values ≤ s'.record_bytes)
      × (s'.record_bytes ≤ host_max_record_bytes)
      × (length s.records + length values ≤ cap)
  Reserves cap values s (err _, s') = s' ≡ s

  reserve-Reserves :
      (cap : ℕ) (values : List Value) (s : RunState)
      → cap < max_u64
      → s.max_records ≡ some cap
      → Reserves cap values s (reserve_record_values rj values s)
  unfolding reserve_record_values reserve_counted reserve_record_bytes
  reserve-Reserves cap values s small e = elim (Result-cases (count_values rj 0 0 values)) [
    | inr (x, bad) ↦ ground (arith, bad)
    | inl ((n, m), good) ↦
        ground
          (arith, good, count_values-length rj 0 0 values n m, count_values-bytes rj 0 0 values n m)
  ]

  read_record-IsOf :
      (source_name : Text) (value : Value) {r : SourceRecord}
      → read_record rj source_name value ≡ ok r
      → IsOf source_name r
  unfolding read_record
  read_record-IsOf source_name value {r} e =
      (validate_for_source_iff r source_name).0 (ground arith)

  -- The state with one more record.
  abbrev pushed : RunState → SourceRecord → RunState
  pushed s r = record s { records = s.records ++ r ∷ [] }

  push_records_bad :
      (source_name : Text) (v : Value) (vs : List Value) (s : RunState) {x : HostError}
      → read_record rj source_name v ≡ err x
      → push_records rj source_name (v ∷ vs) s ≡ (err x, s)
  unfolding push_records
  push_records_bad source_name v vs s e = ground arith

  push_records_good :
      (source_name : Text) (v : Value) (vs : List Value) (s : RunState) {r : SourceRecord}
      → read_record rj source_name v ≡ ok r
      → push_records rj source_name (v ∷ vs) s ≡ push_records rj source_name vs (pushed s r)
  unfolding push_records
  push_records_good source_name v vs s e = ground arith

  pushed-IsSpooled :
      (source_name : Text) (cap : ℕ) (v : Value) (s : RunState) {r : SourceRecord}
      → read_record rj source_name v ≡ ok r
      → (h : IsSpooled rj source_name cap s) → length s.records < cap
      → value_bytes rj (h.values ++ v ∷ []) ≤ s.record_bytes
      → (h' : IsSpooled rj source_name cap (pushed s r)) × (h'.values ≡ h.values ++ v ∷ [])
  pushed-IsSpooled source_name cap v s {r} good h room short = (
    record {
      limit = h.limit;
      records = omega (arith, length-append s.records (r ∷ []));
      valid =
          All-append (IsOf source_name) s.records (r ∷ []) h.valid
            (read_record-IsOf source_name v good, tt);
      values = h.values ++ v ∷ [];
      read = AreRead-append rj source_name h.values s.records v r h.read good;
      sizes = short;
      record_bytes = h.record_bytes;
      log_bytes = h.log_bytes;
      log_size = h.log_size;
    },
    refl,
  )

  push_records-IsSpooled :
      (source_name : Text) (cap : ℕ) (values : List Value) (s : RunState)
      → (h : IsSpooled rj source_name cap s) → length s.records + length values ≤ cap
      → value_bytes rj h.values + value_bytes rj values ≤ s.record_bytes
      → IsSpooled rj source_name cap (push_records rj source_name values s).1
  push_records-IsSpooled source_name cap [] s h room short = unfold push_records in h
  push_records-IsSpooled source_name cap (v ∷ vs) s h room short =
      elim (Result-cases (read_record rj source_name v)) [
        | inr (x, bad) ↦ rw (push_records_bad source_name v vs s bad) h
        | inl (r, good) ↦
            let sum = value_bytes-append rj h.values (v ∷ []) in
            let (h', same) =
              pushed-IsSpooled source_name cap v s good h (omega arith) (omega (arith, sum)) in
            rw (push_records_good source_name v vs s good) (
              push_records-IsSpooled source_name cap vs (pushed s r) h'
                (omega (arith, length-append s.records (r ∷ []))) (rw same (omega (arith, sum))))
      ]

  -- The spool behind a reservation for the values.
  reserved-IsSpooled :
      (source_name : Text) (cap : ℕ) (values : List Value) (s mid : RunState)
      → (h : IsSpooled rj source_name cap s) → Reserves cap values s (ok tt, mid)
      → (h' : IsSpooled rj source_name cap mid) × (h'.values ≡ h.values)
  reserved-IsSpooled source_name cap values s mid h
        (same, logs, log_bytes, limit, more, few, room) =
      (
        record {
          limit = limit ∙ h.limit;
          records = ground (arith, same, h.records);
          valid = rw same h.valid;
          values = h.values;
          read = rw same h.read;
          sizes = omega (arith, more, h.sizes);
          record_bytes = few;
          log_bytes = omega (arith, log_bytes, h.log_bytes);
          log_size = log_bytes ∙ h.log_size ∙ sym (ap log_size logs);
        },
        refl,
      )

  batch-IsSpooled :
      (source_name : Text) (cap : ℕ) (values : List Value) (s mid : RunState)
      → (h : IsSpooled rj source_name cap s) → Reserves cap values s (ok tt, mid)
      → IsSpooled rj source_name cap (push_records rj source_name values mid).1
  batch-IsSpooled source_name cap values s mid h r =
      let (_, _, _, _, more, _, room) = r in
      let (h', same) = reserved-IsSpooled source_name cap values s mid h r in
      push_records-IsSpooled source_name cap values mid h' (ground (arith, r))
        (ground (arith, same, more, h.sizes))

  -- Whatever `record` message comes in, and however it ends, the spool keeps its limits and holds
  -- only valid records of the plugin's source.
  pub spool_records-IsSpooled :
      (source_name : Text) (cap : ℕ) (params : Value) (s : RunState)
      → cap < max_u64
      → IsSpooled rj source_name cap s
      → IsSpooled rj source_name cap (spool_records rj params source_name s).1
  unfolding spool_records
  spool_records-IsSpooled source_name cap params s small h = elim (Result-cases (batch_of params)) [
    | inr (x, bad) ↦ ground (arith, bad)
    | inl (values, good) ↦ ground (
      arith,
      good,
      reserve-Reserves cap values s small h.limit,
      batch-IsSpooled source_name cap values s (reserve_record_values rj values s).1 h,
    )
  ]

  push_records_appends :
      (source_name : Text) (values : List Value) (s s' : RunState)
      → push_records rj source_name values s ≡ (ok tt, s')
      → (rs : List SourceRecord) × AreRead rj source_name values rs × (s'.records ≡ s.records ++ rs)
  push_records_appends source_name [] s s' e =
      ([], tt, unfold push_records in cc (append-nil s.records))
  push_records_appends source_name (v ∷ vs) s s' e =
      elim (Result-cases (read_record rj source_name v)) [
        | inr (x, bad) ↦ absurd (cc (push_records_bad source_name v vs s bad))
        | inl (r, good) ↦
            let (rs, read, appended) =
              push_records_appends source_name vs (pushed s r) s'
                (sym (push_records_good source_name v vs s good) ∙ e) in
            (r ∷ rs, (good, read), appended ∙ append_assoc s.records (r ∷ []) rs)
      ]

  reserved_records :
      (cap : ℕ) (values : List Value) (s : RunState) {o : Outcome} {mid : RunState}
      → o ≡ (ok tt, mid)
      → Reserves cap values s o
      → mid.records ≡ s.records
  reserved_records cap values s e h = (rw e at h).0

  -- A `record` message that is accepted adds the records that it carries, each read and validated,
  -- in their order, to the end of the spool; they are a batch of at most 100 or a single one.
  pub spool_records_appends :
      (source_name : Text) (cap : ℕ) (params : Value) (s s' : RunState)
      → cap < max_u64
      → s.max_records ≡ some cap
      → spool_records rj params source_name s ≡ (ok tt, s')
      → (values : List Value) × (rs : List SourceRecord) × (batch_of params ≡ ok values)
        × (length values ≤ max_record_batch)
        × AreRead rj source_name values rs
        × (s'.records ≡ s.records ++ rs)
  unfolding spool_records
  spool_records_appends source_name cap params s s' small limit e =
      elim (Result-cases (batch_of params)) [
        | inr (x, bad) ↦ absurd (ground (arith, bad))
        | inl (values, good) ↦
            let (mid, reserved, pushed_all) =
              and_then-ok (reserve_record_values rj values s) (push_records rj source_name values)
                (ground (arith, good)) in
            let (rs, read, appended) = push_records_appends source_name values mid s' pushed_all in
            let same : mid.records ≡ s.records =
              reserved_records cap values s reserved (reserve-Reserves cap values s small limit) in
            (values, rs, good, batch_of-small params good, read, appended ∙ ap (λ l. l ++ rs) same)
      ]
