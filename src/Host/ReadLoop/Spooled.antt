-- ===== src/Host/ReadLoop/Spooled.antt =====
-- The read loop keeps the limits of the spool.
use magazine_core.Base.{
  ℕ, ◌<◌, ◌≡◌, List, [], ◌∷◌, some, arith, inl, inr, Result-cases, Option-cases,
}
use magazine_core.Text.{Text, codes}
use magazine_core.Json.{get_str}
use magazine_core.Host.Error.{HostError, timeout, cancelled}
use magazine_core.Host.Spool.{max_u64}
use magazine_core.Host.Spool.Invariant.{IsSpooled}
use magazine_core.Host.Requests.{PluginManifest}
use magazine_core.Host.Machine.{Machine}
use magazine_core.Host.Handle.{HostApi, LoopContext}
use magazine_core.Host.Handle.Replies.{send-Sends}
use magazine_core.Host.Handle.Keeps.{handle_plugin_message-IsSpooled}
use magazine_core.Host.ReadLoop.{
  Tick, recv_frame, recv_deadline, cancel_message, stop, receive_failed, handle_payload, round,
  read_until_response,
}

module _ (api : HostApi) (context : LoopContext) where
  stop_spool : (e : HostError) (m : Machine) → (stop api context e m).1.spool ≡ m.spool
  unfolding stop
  stop_spool e m = ground (arith, send-Sends api.to_string (cancel_message context.request_id) m)

  receive_failed_spool :
      (t : Tick) (e : HostError) (m : Machine)
      → (receive_failed api context t e m).1.spool ≡ m.spool
  unfolding receive_failed
  receive_failed_spool t e m = ground (arith, stop_spool timeout m)

  module _ (source_name : Text) (cap : ℕ) (small : cap < max_u64)
      (named : (manifest : PluginManifest)
        → context.manifest ≡ some manifest
        → manifest.source_name ≡ source_name) where
    payload-IsSpooled :
        (expected_id : Text) (t : Tick) (payload : Text) (m : Machine)
        → IsSpooled api.records source_name cap m.spool
        → IsSpooled api.records source_name cap
            (handle_payload api context expected_id t payload m).1.spool
    unfolding handle_payload
    payload-IsSpooled expected_id t payload m h = elim (Option-cases (api.from_str payload)) [
      | inl e ↦ ground (arith, e)
      | inr (value, e) ↦ elim (Option-cases (get_str (codes "method") value)) [
        | inl p ↦ ground (arith, e, p)
        | inr (method, p) ↦ ground (
          arith,
          e,
          p,
          handle_plugin_message-IsSpooled api context source_name cap small named method value
              t.fetch_now m h,
        )
      ]
    ]

    round-IsSpooled :
        (expected_id : Text) (t : Tick) (m : Machine)
        → IsSpooled api.records source_name cap m.spool
        → IsSpooled api.records source_name cap (round api context expected_id t m).1.spool
    unfolding round
    round-IsSpooled expected_id t m h =
        elim (Result-cases (recv_frame (recv_deadline context t) t)) [
          | inr (x, e) ↦ ground (arith, e, stop_spool cancelled m, receive_failed_spool t x m)
          | inl (payload, e) ↦
              ground (arith, e, stop_spool cancelled m, payload-IsSpooled expected_id t payload m h)
        ]

    -- However far the loop comes, and however it ends, the spool keeps its limits and holds only
    -- valid records of the plugin's source.
    pub read_until_response-IsSpooled :
        (expected_id : Text) (ticks : List Tick) (m : Machine)
        → IsSpooled api.records source_name cap m.spool
        → IsSpooled api.records source_name cap
            (read_until_response api context expected_id ticks m).1.spool
    unfolding read_until_response
    read_until_response-IsSpooled expected_id [] m h = h
    read_until_response-IsSpooled expected_id (t ∷ ts) m h = ground (
      arith,
      round-IsSpooled expected_id t m h,
      read_until_response-IsSpooled expected_id ts (round api context expected_id t m).1,
    )
