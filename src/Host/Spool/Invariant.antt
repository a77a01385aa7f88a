-- ===== src/Host/Spool/Invariant.antt =====
-- What the spool of a run keeps to: its limits, and where its records come from.
use magazine_core.Base.{
  ℕ, ◌+◌, ◌≤◌, ◌≡◌, List, [], ◌∷◌, ◌++◌, Option, some, none, min, length, arith, All, ok, inl, inr,
  Result-cases,
}
use magazine_core.Text.{Text}
use magazine_core.Text.Utf8.{as_bytes}
use magazine_core.Json.{Value}
use magazine_core.Domain.Record.{SourceRecord}
use magazine_core.Domain.Record.Accepts.{IsValid}
use magazine_core.Host.Spool.{
  host_max_record_bytes, host_max_log_bytes, max_u64, saturating_add, HostLog, RunState, RecordJson,
  json_size, count_values, read_record,
}

-- The bytes of the logs.
abbrev pub log_size : List HostLog → ℕ
log_size [] = 0
log_size (l ∷ ls) = length (as_bytes l.level) + length (as_bytes l.message) + log_size ls

-- A record of the contract that names the source.
abbrev pub IsOf : Text → SourceRecord → Type 0
IsOf source_name r = IsValid r × (r.source_name ≡ source_name)

module _ (rj : RecordJson) where
  -- The size of a value as text.
  abbrev size_of : Option (List ℕ) → ℕ
  size_of none = 0
  size_of (some bytes) = length bytes

  abbrev pub value_bytes : List Value → ℕ
  value_bytes [] = 0
  value_bytes (v ∷ vs) = size_of (rj.to_vec v) + value_bytes vs

  pub value_bytes-append :
      (vs ws : List Value) → value_bytes (vs ++ ws) ≡ value_bytes vs + value_bytes ws
  value_bytes-append [] ws = omega arith
  value_bytes-append (v ∷ vs) ws = omega (arith, value_bytes-append vs ws)

  -- The records read from the values, one for each and in order.
  abbrev pub AreRead : Text → List Value → List SourceRecord → Type 0
  AreRead source_name [] [] = Unit
  AreRead source_name (v ∷ vs) (r ∷ rs) =
      (read_record rj source_name v ≡ ok r) × AreRead source_name vs rs
  AreRead source_name _ _ = ⊥

  pub AreRead-append :
      (source_name : Text) (vs : List Value) (rs : List SourceRecord) (v : Value) (r : SourceRecord)
      → AreRead source_name vs rs
      → read_record rj source_name v ≡ ok r
      → AreRead source_name (vs ++ v ∷ []) (rs ++ r ∷ [])
  AreRead-append source_name [] [] v r h e = (e, tt)
  AreRead-append source_name (w ∷ vs) (q ∷ rs) v r (here, rest) e =
      (here, AreRead-append source_name vs rs v r rest e)
  AreRead-append source_name [] (q ∷ rs) v r h e = absurd h
  AreRead-append source_name (w ∷ vs) [] v r h e = absurd h

  -- The spool of a run of the source `source_name` with room for `cap` records: the records are
  -- valid, and were read one from each of the `values`, whose texts have no more than 32 MiB in all;
  -- the logs have no more than 1 MiB.
  pub record IsSpooled (source_name : Text) (cap : ℕ) (s : RunState) : Type 0 where
    pub limit : s.max_records ≡ some cap
    pub records : length s.records ≤ cap
    pub valid : All (IsOf source_name) s.records
    pub values : List Value
    pub read : AreRead source_name values s.records
    pub sizes : value_bytes values ≤ s.record_bytes
    pub record_bytes : s.record_bytes ≤ host_max_record_bytes
    pub log_bytes : s.log_bytes ≤ host_max_log_bytes
    pub log_size : s.log_bytes ≡ log_size s.logs

  pub count_values-length :
      (i b : ℕ) (values : List Value) (n m : ℕ)
      → i ≤ max_u64
      → count_values rj i b values ≡ ok (n, m)
      → n ≡ min (i + length values) max_u64
  unfolding count_values
  count_values-length i b [] n m h e = ground arith
  count_values-length i b (v ∷ vs) n m h e = elim (Result-cases (json_size rj v)) [
    | inr (x, bad) ↦ ground (arith, bad)
    | inl (size, good) ↦
        ground
          (arith, good, count_values-length (saturating_add i 1) (saturating_add b size) vs n m)
  ]

  json_size-is : (v : Value) {n : ℕ} → json_size rj v ≡ ok n → n ≡ size_of (rj.to_vec v)
  unfolding json_size
  json_size-is v e = ground arith

  pub count_values-bytes :
      (i b : ℕ) (values : List Value) (n m : ℕ)
      → b ≤ max_u64
      → count_values rj i b values ≡ ok (n, m)
      → m ≡ min (b + value_bytes values) max_u64
  unfolding count_values
  count_values-bytes i b [] n m h e = ground arith
  count_values-bytes i b (v ∷ vs) n m h e = elim (Result-cases (json_size rj v)) [
    | inr (x, bad) ↦ ground (arith, bad)
    | inl (size, good) ↦ ground (
      arith,
      good,
      json_size-is v good,
      count_values-bytes (saturating_add i 1) (saturating_add b size) vs n m,
    )
  ]
