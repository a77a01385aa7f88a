-- ===== src/Ui/Manage/Steps.antt =====
-- The steps of the UI server's handlers and threads, in any order.
pub mod Kept
use magazine_core.Base.{ℕ, ◌≡◌, Option, some, Result, ok, err, true}
use magazine_core.Text.{Text}
use magazine_core.Json.{Value}
use magazine_core.Host.Error.{HostError}
use magazine_core.Ui.Manage.{
  ManagementState, Phase, discovering, cleared, stopped, done, System, update, first_system,
  start_run, cancel_run, mark_run_ingesting, completed_run, complete_run,
}

-- The thread with the number `i` goes on to `phase`.
abbrev pub move_worker : System → ℕ → Phase → System
move_worker s i phase = record s {
  workers = update s.workers i (record (s.workers i) { phase = phase });
}

-- What a thread does behind a mark that was made or refused.
abbrev pub after_mark : System → ℕ → Result HostError ManagementState → System
after_mark s i (ok management) = record (move_worker s i cleared) { management = management }
after_mark s i (err e) = move_worker s i (stopped (err e))

pub data Step (s : System) : System → Type 0 where
  -- The two handlers.
  start :
      (run_id plugin_id : Text) (now : ℕ) {t : System}
      → start_run run_id plugin_id now s ≡ some t
      → Step s t
  cancel : (requested : Option Text) {t : System} → (cancel_run requested s).1 ≡ t → Step s t
  -- The run of the plugin, or what stands before it, fails.
  fail :
      (i : ℕ) (e : HostError) {t : System}
      → (s.workers i).phase ≡ discovering
      → move_worker s i (stopped (err e)) ≡ t
      → Step s t
  mark :
      (i : ℕ) {t : System}
      → (s.workers i).phase ≡ discovering
      → after_mark s i (mark_run_ingesting i s) ≡ t
      → Step s t
  -- The database takes the records, or refuses them all.
  ingest :
      (i : ℕ) (result : Value) {t : System}
      → (s.workers i).phase ≡ cleared
      → record s {
        workers =
            update s.workers i
              (record (s.workers i) { phase = stopped (ok result); ingested = true });
      }
        ≡ t
      → Step s t
  refuse :
      (i : ℕ) (e : HostError) {t : System}
      → (s.workers i).phase ≡ cleared
      → move_worker s i (stopped (err e)) ≡ t
      → Step s t
  finish :
      (i : ℕ) (result : Result HostError Value) (now : ℕ) (display : HostError → Text) {t : System}
      → (s.workers i).phase ≡ stopped result
      → record (move_worker s i done) {
        management =
            complete_run
              (s.workers i).run_id
              (completed_run (s.workers i).run_id (s.workers i).plugin_id now display result)
              s.management;
      }
        ≡ t
      → Step s t

pub data Reach : System → Type 0 where
  here : Reach first_system
  next : {s t : System} → Reach s → Step s t → Reach t

-- Any number of further steps.
pub data Steps : System → System → Type 0 where
  stay : {s : System} → Steps s s
  more : {s t u : System} → Step s t → Steps t u → Steps s u
