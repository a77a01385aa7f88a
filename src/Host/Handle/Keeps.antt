-- ===== src/Host/Handle/Keeps.antt =====
-- What the handling of a plugin's message keeps of the spool, and what it does before discovery.
use magazine_core.Base.{
  ℕ, ◌<◌, ◌≡◌, ◌⊎◌, [], none, some, ok, err, arith, inl, inr, Result-cases, Option-cases,
}
use magazine_core.Text.{Text, codes}
use magazine_core.Json.{Value, get, get_str}
use magazine_core.Protocol.Message.{
  Method, parse_method, record_method, log, state_query, fetch_request, initialize, discover,
  cancel, response_err,
}
use magazine_core.Host.Error.{HostError}
use magazine_core.Host.Spool.{max_u64, push_log, spool_records}
use magazine_core.Host.Spool.Invariant.{IsSpooled}
use magazine_core.Host.Spool.Bounds.{push_log-IsSpooled, spool_records-IsSpooled}
use magazine_core.Host.Requests.{PluginManifest, require_discover_phase}
use magazine_core.Host.Machine.{Machine}
use magazine_core.Host.Handle.{
  HostApi, Providers, LoopContext, or_default, refuse, handle_state_query, handle_fetch_request,
  handle_record, handle_log, handle_unknown, handle_method, handle_plugin_message,
}
use magazine_core.Host.Handle.Replies.{
  send-Sends, handle_state_query-Replies, handle_fetch_request-Replies,
}

module _ (api : HostApi) where
  refuse_spool :
      (id code : Value) (message : Text) (e : HostError) (m : Machine)
      → (refuse api id code message e m).1.spool ≡ m.spool
  unfolding refuse
  refuse_spool id code message e m =
      ground (arith, send-Sends api.to_string (response_err id code message) m)

  handle_unknown_spool :
      (method : Text) (value : Value) (m : Machine)
      → (handle_unknown api method value m).1.spool ≡ m.spool
  unfolding handle_unknown
  handle_unknown_spool method value m = elim (Option-cases (get (codes "id") value)) [
    | inl e ↦ ground (arith, e)
    | inr (id, e) ↦ rw (e, handle_unknown) (refuse_spool id _ _ _ m)
  ]

  state_query_spool :
      (providers : Providers) (value : Value) (m : Machine)
      → (handle_state_query api providers value m).1.spool ≡ m.spool
  state_query_spool providers value m = elim (Option-cases (get (codes "id") value)) [
    | inl e ↦ unfold handle_state_query in ground (arith, e)
    | inr (id, e) ↦ (handle_state_query-Replies api providers value id m e).spool
  ]

  fetch_request_spool :
      (context : LoopContext) (manifest : PluginManifest) (value : Value) (now : ℕ) (m : Machine)
      → (handle_fetch_request api context manifest value now m).1.spool ≡ m.spool
  fetch_request_spool context manifest value now m = elim (Option-cases (get (codes "id") value)) [
    | inl e ↦ unfold handle_fetch_request in ground (arith, e)
    | inr (id, e) ↦ (handle_fetch_request-Replies api context manifest now value id m e).spool
  ]

  module _ (context : LoopContext) (source_name : Text) (cap : ℕ) (small : cap < max_u64)
      (named : (manifest : PluginManifest)
        → context.manifest ≡ some manifest
        → manifest.source_name ≡ source_name) where
    named_spool_records :
        (manifest : PluginManifest)
        → context.manifest ≡ some manifest
        → (m : Machine) → IsSpooled api.records source_name cap m.spool
        → (params : Value)
        → IsSpooled api.records source_name cap
            (spool_records api.records params manifest.source_name m.spool).1
    named_spool_records manifest e m h params =
        rw (named manifest e)
          (spool_records-IsSpooled api.records source_name cap params m.spool small h)

    handle_record-IsSpooled :
        (method : Text) (value : Value) (m : Machine)
        → IsSpooled api.records source_name cap m.spool
        → IsSpooled api.records source_name cap (handle_record api context method value m).1.spool
    unfolding handle_record
    handle_record-IsSpooled method value m h = elim (Option-cases context.manifest) [
      | inl none_yet ↦ ground (arith, none_yet)
      | inr (manifest, e) ↦ elim (Option-cases (get (codes "params") value)) [
        | inl bare ↦ ground (arith, e, bare)
        | inr (params, p) ↦ ground (arith, e, p, named_spool_records manifest e m h params)
      ]
    ]

    handle_log-IsSpooled :
        (method : Text) (value : Value) (m : Machine)
        → IsSpooled api.records source_name cap m.spool
        → IsSpooled api.records source_name cap (handle_log api method value m).1.spool
    unfolding handle_log
    handle_log-IsSpooled method value m h = elim (Option-cases (get (codes "params") value)) [
      | inl bare ↦ ground (arith, bare)
      | inr (params, p) ↦ ground (
        arith,
        p,
        push_log-IsSpooled api.records source_name cap
            (or_default (get_str (codes "level") params) (codes "info"))
            (or_default (get_str (codes "message") params) []) m.spool h,
      )
    ]

    discover_phase_cases :
        (method : Text)
        → ((manifest : PluginManifest) × (require_discover_phase context.manifest method
              ≡ ok manifest))
          ⊎ ((e : HostError) × (require_discover_phase context.manifest method ≡ err e))
    discover_phase_cases method = Result-cases (require_discover_phase context.manifest method)

    handle_method-IsSpooled :
        (parsed : Method) (method : Text) (value : Value) (now : ℕ) (m : Machine)
        → IsSpooled api.records source_name cap m.spool
        → IsSpooled api.records source_name cap
            (handle_method api context parsed method value now m).1.spool
    unfolding handle_method
    handle_method-IsSpooled record_method method value now m h =
        handle_record-IsSpooled method value m h
    handle_method-IsSpooled log method value now m h = handle_log-IsSpooled method value m h
    handle_method-IsSpooled state_query method value now m h = elim (discover_phase_cases method) [
      | inr (x, bad) ↦ rw bad h
      | inl (manifest, good) ↦ rw (good, state_query_spool context.providers value m) h
    ]
    handle_method-IsSpooled fetch_request method value now m h =
        elim (discover_phase_cases method) [
          | inr (x, bad) ↦ rw bad h
          | inl (manifest, good) ↦ rw (good, fetch_request_spool context manifest value now m) h
        ]
    handle_method-IsSpooled initialize method value now m h = h
    handle_method-IsSpooled discover method value now m h = h
    handle_method-IsSpooled cancel method value now m h = h

    -- Where a plugin that is known names the source, and `cap` is below the largest 64-bit number:
    -- whatever message of the plugin comes in, and however its handling ends, a spool that keeps its
    -- limits keeps them. It holds no more than `cap` records, read one from each of a list of values
    -- whose texts have no more than 32 MiB in all, each valid and of the source, and no more than
    -- 1 MiB of logs.
    pub handle_plugin_message-IsSpooled :
        (method : Text) (value : Value) (now : ℕ) (m : Machine)
        → IsSpooled api.records source_name cap m.spool
        → IsSpooled api.records source_name cap
            (handle_plugin_message api context method value now m).1.spool
    unfolding handle_plugin_message
    handle_plugin_message-IsSpooled method value now m h =
        elim (Option-cases (parse_method method)) [
          | inl e ↦ rw (e, handle_plugin_message) (rw (handle_unknown_spool method value m) h)
          | inr (parsed, e) ↦
              rw (e, handle_plugin_message) (handle_method-IsSpooled parsed method value now m h)
        ]

  -- Before discovery has started, a message of a plugin reaches no provider, the outcome is the
  -- same with any others, and no record is spooled.
  pub before_discover :
      (context : LoopContext) (others : Providers) (method : Text) (value : Value) (now : ℕ)
      (m : Machine)
      → context.manifest ≡ none
      → (handle_plugin_message api context method value now m
          ≡ handle_plugin_message api (record context { providers = others }) method value now m)
        × ((handle_plugin_message api context method value now m).1.spool.records ≡ m.spool.records)
  unfolding handle_plugin_message handle_method handle_record handle_log push_log
      require_discover_phase
  before_discover context others method value now m early =
      elim (Option-cases (parse_method method)) [
        | inl e ↦ ground (arith, e, handle_unknown_spool method value m)
        | inr (parsed, e) ↦ ground (arith, e, early)
      ]
