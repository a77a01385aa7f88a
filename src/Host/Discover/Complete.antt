-- ===== src/Host/Discover/Complete.antt =====
-- What a run that returned has established.
use magazine_core.Base.{
  ℕ, ◌<◌, ◌≤◌, ◌≡◌, ◌≢◌, ◌↔◌, refl, subst, List, [], Option, none, some, Result, ok, arith, inl,
  inr, Option-cases, Bool, length, All,
}
use magazine_core.Text.{Text, codes, trim}
use magazine_core.Json.{Value}
use magazine_core.Protocol.Framing.{Writer}
use magazine_core.Host.Error.{HostError, pos}
use magazine_core.Host.Spool.{
  RecordJson, DiscoverLimits, new_run_state, with_host_caps, capped, host_max_records,
  host_max_log_bytes, max_u64,
}
use magazine_core.Host.Spool.Invariant.{IsSpooled, IsOf, log_size}
use magazine_core.Host.Requests.{PluginManifest}
use magazine_core.Host.Machine.{Machine, send, outcome-cases}
use magazine_core.Host.Handle.{HostApi, Providers}
use magazine_core.Host.Handle.Replies.{send-Sends}
use magazine_core.Host.ReadLoop.{Tick, read_until_response}
use magazine_core.Host.ReadLoop.Spooled.{read_until_response-IsSpooled}
use magazine_core.Host.Discover.{
  InitializeResult, HostRun, Surroundings, check_initialize, check_exit, finish, context_of,
  discover_request, start_machine, initialize_request, discover_after, initialize_with,
  run_discover_with_providers_and_cancel,
}

-- A run is good for its limits: the number of records that the plugin reported is the number
-- returned, within the limit asked for and the host's; all of them are valid records of the
-- source that the plugin's manifest names; the logs are within their limit; the process ended
-- with status 0.
pub record IsComplete (limits : DiscoverLimits) (run : HostRun) : Type 0 where
  pub counted : length run.records ≡ run.discover_records
  pub bounded : run.discover_records ≤ capped limits.max_records
  pub valid : All (IsOf run.manifest.source_name) run.records
  pub logs : log_size run.logs ≤ host_max_log_bytes
  pub named : trim run.manifest.source_name ≢ []
  pub exited : run.exit_status ≡ some 0

-- A plugin is accepted exactly where it speaks version 1 of the protocol and of the record schema
-- and names a source.
check_initialize_iff :
    (init : InitializeResult)
    → (check_initialize init ≡ ok tt) ↔ (
        (init.protocol_version ≡ pos 1)
        × (init.record_schema_version ≡ pos 1)
        × (trim init.manifest.source_name ≢ []))
unfolding check_initialize
check_initialize_iff init = (λ e. ground arith, λ h. ground arith)

capped_small :
    (limits : DiscoverLimits)
    → (capped limits.max_records ≤ host_max_records) × (capped limits.max_records < max_u64)
capped_small limits = ground arith

fresh-IsSpooled :
    (rj : RecordJson) (source_name : Text) (limits : DiscoverLimits)
    → IsSpooled rj source_name
        (capped limits.max_records)
        (new_run_state (with_host_caps limits).max_records)
unfolding new_run_state with_host_caps
fresh-IsSpooled rj source_name limits = record {
  limit = refl;
  records = omega arith;
  record_bytes = omega arith;
  log_bytes = omega arith;
  log_size = refl;
  valid = tt;
  values = [];
  read = tt;
  sizes = omega arith;
}

module _ (api : HostApi) (env : Surroundings) (limits : DiscoverLimits) where
  finish-IsComplete :
      (manifest : PluginManifest) (value : Value) (m m' : Machine) {run : HostRun}
      → trim manifest.source_name ≢ []
      → IsSpooled api.records manifest.source_name (capped limits.max_records) m.spool
      → finish api env manifest value m ≡ (ok (some run), m')
      → IsComplete limits run
  unfolding finish check_exit
  finish-IsComplete manifest value m m' named h e = ground (arith, capped_small limits)

  module _ (request_id : Text) (providers : Providers) (has_cancel_token : Bool) where
    send_spool :
        (source_name : Text) (cap : ℕ) (v : Value) (m m' : Machine)
        {r : Result HostError (Unit {0})}
        → IsSpooled api.records source_name cap m.spool
        → send api.to_string v m ≡ (r, m')
        → IsSpooled api.records source_name cap m'.spool
    send_spool source_name cap v m m' h e = ground (arith, send-Sends api.to_string v m)

    read_spool :
        (source_name : Text) (deadline : ℕ) (manifest : Option PluginManifest) (expected_id : Text)
        (ticks : List Tick) (m m' : Machine) {r : Result HostError (Option (Value × List Tick))}
        → ((known : PluginManifest) → manifest ≡ some known → known.source_name ≡ source_name)
        → IsSpooled api.records source_name (capped limits.max_records) m.spool
        → read_until_response api
            (context_of api env request_id limits providers has_cancel_token deadline manifest)
            expected_id
            ticks
            m
          ≡ (r, m')
        → IsSpooled api.records source_name (capped limits.max_records) m'.spool
    read_spool source_name deadline manifest expected_id ticks m m' named h e =
        subst (λ o. IsSpooled api.records source_name (capped limits.max_records) o.1.spool) e
          (read_until_response-IsSpooled api _ source_name (capped limits.max_records)
            (capped_small limits).1 named expected_id ticks m h)

    discover_after-IsComplete :
        (deadline : ℕ) (init : InitializeResult) (ticks : List Tick) (m m' : Machine)
        {run : HostRun}
        → IsSpooled api.records init.manifest.source_name (capped limits.max_records) m.spool
        → discover_after api env request_id limits providers has_cancel_token deadline init ticks m
          ≡ (ok (some run), m')
        → IsComplete limits run
    unfolding discover_after
    discover_after-IsComplete deadline init ticks m m' h e =
        elim (outcome-cases (
          send api.to_string
            (discover_request api env request_id limits providers has_cancel_token deadline) m)) [
              | inr (x, m1, s) ↦ absurd (ground (arith, s))
              | inl (tt, m1, s) ↦
                  elim (outcome-cases (
                    read_until_response api
                      (context_of api env request_id limits providers has_cancel_token deadline
                        (some init.manifest))
                      (codes "h-2") ticks m1)) [
                        | inr (x, m2, r) ↦ absurd (ground (arith, s, r))
                        | inl (none, m2, r) ↦ absurd (ground (arith, s, r))
                        | inl (some (value, rest), m2, r) ↦
                            let named = (check_initialize_iff init).0 (ground (arith, s, r)) in
                            finish-IsComplete init.manifest value m2 m' named.2
                              (read_spool init.manifest.source_name deadline (some init.manifest)
                                (codes "h-2") ticks m1 m2 (λ known k. cc)
                                (send_spool init.manifest.source_name _ _ m m1 h s) r)
                              (ground (arith, s, r))
                      ]
            ]

    initialize_with-IsComplete :
        (deadline : ℕ) (ticks : List Tick) (m m' : Machine) {run : HostRun}
        → ((source_name : Text)
            → IsSpooled api.records source_name (capped limits.max_records) m.spool)
        → initialize_with api env request_id limits providers has_cancel_token deadline ticks m
          ≡ (ok (some run), m')
        → IsComplete limits run
    unfolding initialize_with
    initialize_with-IsComplete deadline ticks m m' h e =
        elim (outcome-cases (
          send api.to_string
            (initialize_request api env request_id limits providers has_cancel_token) m)) [
              | inr (x, m1, s) ↦ absurd (ground (arith, s))
              | inl (tt, m1, s) ↦
                  elim (outcome-cases (
                    read_until_response api
                      (context_of api env request_id limits providers has_cancel_token deadline
                        none)
                      (codes "h-1") ticks m1)) [
                        | inr (x, m2, r) ↦ absurd (ground (arith, s, r))
                        | inl (none, m2, r) ↦ absurd (ground (arith, s, r))
                        | inl (some (value, rest), m2, r) ↦
                            elim (Option-cases (env.to_initialize value)) [
                              | inl bad ↦ absurd (ground (arith, s, r, bad))
                              | inr (init, good) ↦
                                  discover_after-IsComplete deadline init rest m2 m'
                                    (read_spool init.manifest.source_name deadline none
                                      (codes "h-1") ticks m1 m2 (λ known k. absurd (cc))
                                      (send_spool init.manifest.source_name _ _ m m1
                                        (h init.manifest.source_name) s)
                                      r)
                                    (ground (arith, s, r, good))
                            ]
                      ]
            ]

    -- A run that returns is a good one for its limits, whatever the plugin has sent.
    pub run_discover_with_providers_and_cancel-IsComplete :
        (ticks : List Tick) (stdin : Writer) (m' : Machine) {run : HostRun}
        → run_discover_with_providers_and_cancel api env request_id limits providers
            has_cancel_token ticks stdin
          ≡ (ok (some run), m')
        → IsComplete limits run
    unfolding run_discover_with_providers_and_cancel
    run_discover_with_providers_and_cancel-IsComplete ticks stdin m' e =
        elim (Option-cases env.deadline) [
          | inl overflow ↦ absurd (ground (arith, overflow))
          | inr (deadline, d) ↦
              initialize_with-IsComplete deadline ticks (start_machine limits stdin) m'
                (λ source_name. fresh-IsSpooled api.records source_name limits) (ground (arith, d))
        ]
