-- ===== src/Host/ReadLoop/Stops.antt =====
-- When the read loop ends, and how it leaves the process.
use magazine_core.Base.{
  ◌<◌, ◌≤◌, ◌≡◌, ◌≢◌, ◌⊎◌, true, false, ◌&&◌, List, [], ◌∷◌, ◌++◌, none, Result, ok, err, arith,
  inl, inr, Any, All, sym, subst,
}
use magazine_core.Text.{Text}
use magazine_core.Protocol.Framing.{FrameError, Writer, write_frame}
use magazine_core.Protocol.Canonical.{canonical_json}
use magazine_core.Host.Error.{HostError, timeout, cancelled}
use magazine_core.Host.Machine.{Machine, M, ◌>>=◌, outcome-cases, send, wait_or_terminate}
use magazine_core.Host.Handle.{HostApi, LoopContext}
use magazine_core.Host.ReadLoop.{
  Tick, timed_out, recv_frame, cancel_message, stop, receive_failed, round, or_else,
  read_until_response,
}

module _ (api : HostApi) (context : LoopContext) where
  -- What writing `cancel` to the plugin gives.
  abbrev pub written : Machine → Result FrameError (Unit {0}) × Writer
  written m = write_frame (canonical_json api.to_string (cancel_message context.request_id)) m.stdin

  -- `cancel` was written to the plugin, and is noted exactly where the write succeeded.
  pub record TriesCancel (m m' : Machine) : Type 0 where
    pub stdin : m'.stdin ≡ (written m).1
    pub sent :
        (((written m).0 ≡ ok tt) × (m'.sent ≡ m.sent ++ cancel_message context.request_id ∷ []))
        ⊎ ((x : FrameError) × ((written m).0 ≡ err x) × (m'.sent ≡ m.sent))

  -- What was done failed with the error: it wrote `cancel` to the plugin, and only then waited for
  -- the process; that is all it did.
  pub record HasStopped {A : Type 0} (e : HostError) (m : Machine)
      (o : Result HostError A × Machine) : Type 0 where
    pub failed : o.0 ≡ err e
    pub cancels : TriesCancel m o.1
    pub shutdowns : o.1.shutdowns ≡ m.shutdowns ++ (wait_or_terminate, o.1.sent) ∷ []
    pub spool : o.1.spool ≡ m.spool

  stop-HasStopped : (e : HostError) (m : Machine) → HasStopped e m (stop api context e m)
  unfolding stop send
  stop-HasStopped e m = ground arith

  -- A round of a run that can be cancelled in which nothing comes before the deadline.
  abbrev pub IsIdle : Tick → Type 0
  IsIdle t =
      (context.has_cancel_token ≡ true)
      × (t.is_cancelled ≡ false)
      × (t.received ≡ timed_out)
      × (t.later < context.deadline)

  idle_round :
      (expected_id : Text) (t : Tick) (m : Machine)
      → IsIdle t
      → round api context expected_id t m ≡ (ok none, m)
  unfolding round recv_frame receive_failed
  idle_round expected_id t m idle = ground arith

  bind_stopped :
      {A B : Type 0} (e : HostError) (m : Machine) (c : M A) (k : A → M B)
      → HasStopped e m (c m)
      → HasStopped e m ((c >>= k) m)
  bind_stopped e m c k h = elim (outcome-cases (c m)) [
    | inl (a, m', q) ↦ absurd (cc (h.failed, q))
    | inr (x, m', q) ↦ ground (arith, q, h)
  ]

  round_stops :
      (expected_id : Text) (t : Tick) (ts : List Tick) (m : Machine) {e : HostError}
      → round api context expected_id t m ≡ stop api context e m
      → HasStopped e m (read_until_response api context expected_id (t ∷ ts) m)
  unfolding read_until_response
  round_stops expected_id t ts m {e} q =
      bind_stopped e m (round api context expected_id t)
        (or_else api context (read_until_response api context expected_id ts) ts)
        (subst (HasStopped e m) (sym q) (stop-HasStopped e m))

  idle_loop :
      (expected_id : Text) (t : Tick) (ts : List Tick) (m : Machine)
      → IsIdle t
      → read_until_response api context expected_id (t ∷ ts) m
        ≡ read_until_response api context expected_id ts m
  unfolding read_until_response
  idle_loop expected_id t ts m idle = ground (arith, idle_round expected_id t m idle)

  idle_stops :
      (expected_id : Text) (front : List Tick) (t : Tick) (back : List Tick) (m : Machine)
      {e : HostError}
      → All IsIdle front
      → round api context expected_id t m ≡ stop api context e m
      → HasStopped e m (read_until_response api context expected_id (front ++ t ∷ back) m)
  idle_stops expected_id [] t back m idle q = round_stops expected_id t back m q
  idle_stops expected_id (i ∷ front) t back m {e} idle q =
      subst (HasStopped e m) (sym (idle_loop expected_id i (front ++ t ∷ back) m idle.0))
        (idle_stops expected_id front t back m idle.1 q)

  -- Behind any idle rounds, a round that sees the cancel token set ends the loop with `cancelled`,
  -- whatever it could have received: it writes `cancel` to the plugin, then waits for the process,
  -- and does nothing else.
  pub read_until_response_cancelled :
      (expected_id : Text) (front : List Tick) (t : Tick) (back : List Tick) (m : Machine)
      → All IsIdle front
      → context.has_cancel_token ≡ true
      → t.is_cancelled ≡ true
      → HasStopped cancelled m (read_until_response api context expected_id (front ++ t ∷ back) m)
  unfolding round
  read_until_response_cancelled expected_id front t back m idle token set =
      idle_stops expected_id front t back m idle (ground arith)

  -- Behind any idle rounds, a round that begins behind the deadline, and is not cancelled, ends the
  -- loop with `timeout`, whatever it could have received: it writes `cancel` to the plugin, then
  -- waits for the process, and does nothing else.
  pub read_until_response_timed_out :
      (expected_id : Text) (front : List Tick) (t : Tick) (back : List Tick) (m : Machine)
      → All IsIdle front
      → (context.has_cancel_token && t.is_cancelled) ≡ false
      → context.deadline < t.now
      → context.deadline ≤ t.later
      → HasStopped timeout m (read_until_response api context expected_id (front ++ t ∷ back) m)
  unfolding round recv_frame receive_failed
  read_until_response_timed_out expected_id front t back m idle free late still =
      idle_stops expected_id front t back m idle (ground arith)

  -- A round that begins behind the deadline.
  abbrev pub IsLate : Tick → Type 0
  IsLate t = (context.deadline < t.now) × (context.deadline ≤ t.later)

  late_round :
      (expected_id : Text) (t : Tick) (m : Machine)
      → IsLate t
      → (round api context expected_id t m).0 ≢ ok none
  unfolding round recv_frame receive_failed
  late_round expected_id t m late =
      ground (arith, stop-HasStopped cancelled m, stop-HasStopped timeout m)

  -- The loop is not still waiting behind a round that began after the deadline: it has returned a
  -- result or failed by then.
  pub read_until_response_ends :
      (expected_id : Text) (ticks : List Tick) (m : Machine)
      → Any IsLate ticks
      → (read_until_response api context expected_id ticks m).0 ≢ ok none
  unfolding read_until_response
  read_until_response_ends expected_id [] m none_late = elim none_late [ ]
  read_until_response_ends expected_id (t ∷ ts) m (inl late) =
      ground (arith, late_round expected_id t m late)
  read_until_response_ends expected_id (t ∷ ts) m (inr rest) =
      ground
        (arith, read_until_response_ends expected_id ts (round api context expected_id t m).1 rest)
