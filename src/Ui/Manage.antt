-- ===== src/Ui/Manage.antt =====
-- The discovery runs that the UI server starts, in crates/mh-cli/src/ui.rs: the shared
-- `ManagementState`, the cancel tokens and the threads. Each function here is what one thread does
-- while it holds the lock, or alone. A thread's number is the name of its cancel token too, which
-- the thread and the active run share.
pub mod Steps
pub mod Cancels
use magazine_core.Base.{
  ℕ, zero, suc, ◌+◌, String, Bool, true, false, ◌||◌, ◌&&◌, not, List, Option, none, some, ◌==◌,
  if◌then◌else◌, Result, ok, err,
}
use magazine_core.Text.{Text, codes, text_eq}
use magazine_core.Json.{Value, string, object, number, end}
use magazine_core.Protocol.Message.{member}
use magazine_core.Host.Error.{HostError, cancelled, state}
use magazine_core.Ui.Http.{error_value}

pub record ActiveRun : Type 0 where
  pub run_id : Text
  pub plugin_id : Text
  pub started_at : ℕ
  pub cancel_token : ℕ
  pub cancellable : Bool

pub record CompletedRun : Type 0 where
  pub run_id : Text
  pub plugin_id : Text
  pub status : String
  pub finished_at : ℕ
  pub result : Value

pub record ManagementState : Type 0 where
  pub active : Option ActiveRun
  pub last : Option CompletedRun

-- Where a thread stands: before `mark_run_ingesting`, behind it, with the result of
-- `run_ui_discover_inner`, and at its end.
pub data Phase : Type 0 where
  discovering cleared : Phase
  stopped : Result HostError Value → Phase
  done : Phase

pub record Worker : Type 0 where
  pub run_id : Text
  pub plugin_id : Text
  pub phase : Phase
  -- Whether the thread has written records.
  pub ingested : Bool

pub record System : Type 0 where
  pub management : ManagementState
  -- The flags of the cancel tokens.
  pub tokens : ℕ → Bool
  pub workers : ℕ → Worker
  -- How many threads were spawned; the others stand at their end.
  pub spawned : ℕ

module _ {ℓ} {A : Type ℓ} where
  abbrev pub update : (ℕ → A) → ℕ → A → ℕ → A
  update f i a j = if i == j then a else f j

abbrev no_worker : Worker
no_worker = record { run_id = codes ""; plugin_id = codes ""; phase = done; ingested = false }

abbrev pub first_system : System
first_system = record {
  management = record { active = none; last = none };
  tokens = λ i. false;
  workers = λ i. no_worker;
  spawned = 0;
}

-- `discover_response` with the lock: a second run is refused.
unfoldable pub start_run : Text → Text → ℕ → System → Option System
start_run run_id plugin_id now s = elim s.management.active [
  | some active ↦ none
  | none ↦ some (record {
    management = record s.management {
      active = some (record {
        run_id = run_id;
        plugin_id = plugin_id;
        started_at = now;
        cancel_token = s.spawned;
        cancellable = true;
      });
    };
    tokens = update s.tokens s.spawned false;
    workers =
        update s.workers s.spawned (record {
          run_id = run_id;
          plugin_id = plugin_id;
          phase = discovering;
          ingested = false;
        });
    spawned = s.spawned + 1;
  })
]

-- What `cancel_response` answers, once the request has been read.
pub data CancelOutcome : Type 0 where
  no_active other_run not_cancellable : CancelOutcome
  cancelling : Text → CancelOutcome

abbrev names_other : Option Text → Text → Bool
names_other none run_id = false
names_other (some requested) run_id = not (text_eq requested run_id)

unfoldable pub cancel_run : Option Text → System → CancelOutcome × System
cancel_run requested s = elim s.management.active [
  | none ↦ (no_active, s)
  | some active ↦
      if names_other requested active.run_id
      then (other_run, s)
      else if active.cancellable
      then (
        cancelling active.run_id,
        record s { tokens = update s.tokens active.cancel_token true },
      )
      else (not_cancellable, s)
]

abbrev not_active : HostError
not_active = state (codes "UI run state is not active")

-- `mark_run_ingesting` in the thread with the number `i`.
unfoldable pub mark_run_ingesting : ℕ → System → Result HostError ManagementState
mark_run_ingesting i s = elim s.management.active [
  | none ↦ err not_active
  | some active ↦
      if text_eq active.run_id (s.workers i).run_id
      then if s.tokens active.cancel_token || s.tokens i
        then err cancelled
        else ok (record s.management { active = some (record active { cancellable = false }) })
      else err not_active
]

-- `run_ui_discover` on the result of `run_ui_discover_inner`.
unfoldable pub completed_run :
    Text → Text → ℕ → (HostError → Text) → Result HostError Value → CompletedRun
completed_run run_id plugin_id now display (ok result) = record {
  run_id = run_id;
  plugin_id = plugin_id;
  status = "succeeded";
  finished_at = now;
  result = result;
}
completed_run run_id plugin_id now display (err cancelled) = record {
  run_id = run_id;
  plugin_id = plugin_id;
  status = "cancelled";
  finished_at = now;
  result = error_value (codes "cancelled");
}
completed_run run_id plugin_id now display (err e) = record {
  run_id = run_id;
  plugin_id = plugin_id;
  status = "failed";
  finished_at = now;
  result = error_value (display e);
}

abbrev has_run_id : Option ActiveRun → Text → Bool
has_run_id none run_id = false
has_run_id (some active) run_id = text_eq active.run_id run_id

-- The end of the spawned thread.
unfoldable pub complete_run : Text → CompletedRun → ManagementState → ManagementState
complete_run run_id completed m = record {
  active = if has_run_id m.active run_id then none else m.active;
  last = some completed;
}

unfoldable pub active_status : (ℕ → Bool) → ActiveRun → String
active_status tokens run =
    if tokens run.cancel_token
    then "cancelling"
    else if run.cancellable
    then "running"
    else "ingesting"

unfoldable pub active_run_json : (ℕ → Bool) → ActiveRun → Value
active_run_json tokens run = object (
    member "run_id" (string run.run_id) (
      member "plugin_id" (string run.plugin_id) (
        member "started_at" (number run.started_at)
          (member "status" (string (codes (active_status tokens run))) end))))

unfoldable pub completed_run_json : CompletedRun → Value
completed_run_json run = object (
    member "run_id" (string run.run_id) (
      member "plugin_id" (string run.plugin_id) (
        member "status" (string (codes run.status))
          (member "finished_at" (number run.finished_at) (member "result" run.result end)))))
