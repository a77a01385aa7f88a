-- ===== src/Host/ReadLoop.antt =====
-- The loop that waits for a response in crates/mh-host/src/lib.rs. What a round sees of the clock,
-- of the channel from the reader's thread, of the process and of the cancel token is a `Tick`; a
-- loop that has used up its ticks is still waiting. Times are nanoseconds.
pub mod Stops
pub mod Spooled
use magazine_core.Base.{
  ℕ, ◌+◌, ◌*◌, min, Bool, true, false, ◌&&◌, List, [], ◌∷◌, Option, none, some, if◌then◌else◌, leb,
  ltb, Result, ok, err, ok_or, guard,
}
use magazine_core.Text.{Text, codes, text_eq}
use magazine_core.Json.{Value, get, get_str, string, object, end}
use magazine_core.Protocol.Framing.{FrameError, eof}
use magazine_core.Protocol.Message.{cancel, member, notification}
use magazine_core.Host.Error.{
  HostError, frame, io, json, protocol, plugin_error, plugin_exited, frame_queue_full, cancelled,
  timeout, no_method_or_id, unexpected_response_id, missing_result,
}
use magazine_core.Host.Requests.{require_jsonrpc}
use magazine_core.Host.Machine.{
  Machine, M, pure, raise, lift, ◌>>=◌, ◌>>◌, shut_down, send, wait_or_terminate, terminate_tree,
}
use magazine_core.Host.Handle.{HostApi, LoopContext, handle_plugin_message}

-- What the channel yields to a receiver that waits.
pub data Received : Type 0 where
  frame_of : Result FrameError Text → Received
  timed_out disconnected : Received

pub record Tick : Type 0 where
  -- The flag of the cancel token.
  pub is_cancelled : Bool
  -- The clock in `recv_deadline`, in `recv_frame`, behind a timeout, and at the start of a fetch.
  pub poll_now : ℕ
  pub now : ℕ
  pub later : ℕ
  pub fetch_now : ℕ
  pub received : Received
  pub overflowed : Bool
  -- `try_wait` on the process.
  pub exited : Result ℕ (Option ℕ)

abbrev child_exited : Result ℕ (Option ℕ) → HostError
child_exited (ok status) = plugin_exited status
child_exited (err e) = io e

unfoldable pub recv_frame : ℕ → Tick → Result HostError Text
recv_frame deadline t =
    if leb t.now deadline
    then elim t.received [
      | frame_of r ↦ elim r [
        | ok payload ↦ ok payload
        | err e ↦ elim e [ eof ↦ err (child_exited t.exited) | other ↦ err (frame other) ]
      ]
      | timed_out ↦ err timeout
      | disconnected ↦ if t.overflowed then err frame_queue_full else err (child_exited t.exited)
    ]
    else err timeout

-- Where the run can be cancelled, the loop looks at the token every 50 milliseconds.
abbrev pub recv_deadline : LoopContext → Tick → ℕ
recv_deadline context t =
    if context.has_cancel_token
    then min (t.poll_now + 50 * 1_000_000) context.deadline
    else context.deadline

abbrev pub should_continue : LoopContext → Tick → Bool
should_continue context t = context.has_cancel_token && ltb t.later context.deadline

abbrev pub cancel_message : Text → Value
cancel_message request_id =
    notification cancel (object (member "request_id" (string request_id) end))

-- `let _ = c`.
abbrev ignoring : M (Unit {0}) → M (Unit {0})
ignoring c m = let (r, m') = c m in (ok tt, m')

module _ (expected_id : Text) where
  unfoldable pub response : Value → Result HostError Value
  response value = elim (get_str (codes "id") value) [
    | none ↦ err (protocol no_method_or_id)
    | some id ↦
        if text_eq id expected_id
        then elim (get (codes "error") value) [
          | some error ↦ err (plugin_error error)
          | none ↦ ok_or (get (codes "result") value) (protocol missing_result)
        ]
        else err (protocol (unexpected_response_id id))
  ]

module _ (api : HostApi) (context : LoopContext) where
  -- Cancel the plugin's work, wait for the process and fail.
  unfoldable pub stop : HostError → M (Option Value)
  stop e = do
    ignoring (send api.to_string (cancel_message context.request_id))
    shut_down wait_or_terminate
    raise e

  unfoldable pub receive_failed : Tick → HostError → M (Option Value)
  receive_failed t timeout = if should_continue context t then pure none else stop timeout
  receive_failed t (plugin_exited status) = raise (plugin_exited status)
  receive_failed t e = do shut_down terminate_tree; raise e

  unfoldable pub handle_payload : Text → Tick → Text → M (Option Value)
  handle_payload expected_id t payload = do
    value ← lift (ok_or (api.from_str payload) json)
    lift (require_jsonrpc value)
    elim (get_str (codes "method") value) [
      | some method ↦ do handle_plugin_message api context method value t.fetch_now; pure none
      | none ↦ do result ← lift (response expected_id value); pure (some result)
    ]

  -- One round; no value means that the loop goes on.
  unfoldable pub round : Text → Tick → M (Option Value)
  round expected_id t =
      if context.has_cancel_token && t.is_cancelled
      then stop cancelled
      else elim (recv_frame (recv_deadline context t) t) [
        | err e ↦ receive_failed t e
        | ok payload ↦ handle_payload expected_id t payload
      ]

  abbrev or_else :
      M (Option (Value × List Tick)) → List Tick → Option Value → M (Option (Value × List Tick))
  or_else continue ts none = continue
  or_else continue ts (some value) = pure (some (value, ts))

  -- The response's result with the ticks left, or no value while the loop is waiting.
  unfoldable pub read_until_response : Text → List Tick → M (Option (Value × List Tick))
  read_until_response expected_id [] = pure none
  read_until_response expected_id (t ∷ ts) =
      let continue = read_until_response expected_id ts in
      round expected_id t >>= or_else continue ts
