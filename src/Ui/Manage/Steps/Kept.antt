-- ===== src/Ui/Manage/Steps/Kept.antt =====
-- What holds in each state that the handlers and threads reach.
use magazine_core.Base.{
  ℕ, ◌≡◌, ◌≢◌, ◌<◌, ◌≤◌, refl, Option, none, some, Result, ok, err, true, false, arith, inl, inr,
  Option-cases, Bool-cases, Result-cases, ◌==◌, subst,
}
use magazine_core.Text.{Text}
use magazine_core.Text.Laws.{text_eq_iff}
use magazine_core.Json.{Value}
use magazine_core.Host.Error.{HostError}
use magazine_core.Ui.Manage.{
  ActiveRun, CompletedRun, ManagementState, discovering, cleared, stopped, done, System, update,
  first_system, start_run, cancel_run, mark_run_ingesting, complete_run,
}
use magazine_core.Ui.Manage.Steps.{
  move_worker, after_mark, Step, start, cancel, fail, mark, ingest, refuse, finish, Reach, here,
  next,
}

-- All threads have ended, but for that of the active run.
pub record Inv (s : System) : Type 0 where
  pub idle : s.management.active ≡ none → (i : ℕ) → (s.workers i).phase ≡ done
  pub others :
      (a : ActiveRun)
      → s.management.active ≡ some a
      → (i : ℕ) → i ≢ a.cancel_token
      → (s.workers i).phase ≡ done
  pub named :
      (a : ActiveRun) → s.management.active ≡ some a → (s.workers a.cancel_token).run_id ≡ a.run_id
  pub born : (a : ActiveRun) → s.management.active ≡ some a → a.cancel_token < s.spawned
  pub uncleared :
      (a : ActiveRun)
      → s.management.active ≡ some a
      → a.cancellable ≡ true
      → (s.workers a.cancel_token).phase ≢ cleared
  pub unwritten :
      (a : ActiveRun)
      → s.management.active ≡ some a
      → a.cancellable ≡ true
      → (s.workers a.cancel_token).ingested ≡ false
  pub cleared_free : (i : ℕ) → (s.workers i).phase ≡ cleared → s.tokens i ≡ false
  pub ingested_free : (i : ℕ) → (s.workers i).ingested ≡ true → s.tokens i ≡ false
  pub unborn : (i : ℕ) → s.spawned ≤ i → (s.workers i).ingested ≡ false

first-Inv : Inv first_system
first-Inv = record {
  idle = λ h i. refl;
  others = λ a e i n. refl;
  named = λ a e. absurd (ground (arith, e));
  born = λ a e. absurd (ground (arith, e));
  uncleared = λ a e c. absurd (ground (arith, e));
  unwritten = λ a e c. absurd (ground (arith, e));
  cleared_free = λ i e. refl;
  ingested_free = λ i e. refl;
  unborn = λ i h. refl;
}

start-Inv :
    (run_id plugin_id : Text) (now : ℕ) {s t : System}
    → Inv s
    → start_run run_id plugin_id now s ≡ some t
    → Inv t
unfolding start_run
start-Inv run_id plugin_id now {s} {t} v e = elim (Option-cases s.management.active) [
  | inr (a, h) ↦ absurd (ground (arith, h, e))
  | inl h ↦ record {
    idle = λ k i. ground (arith, h, e, k);
    others = λ a k i n. ground (arith, h, e, k, n, v.idle h i);
    named = λ a k. ground (arith, h, e, k);
    born = λ a k. ground (arith, h, e, k);
    uncleared = λ a k c. ground (arith, h, e, k);
    unwritten = λ a k c. ground (arith, h, e, k);
    cleared_free = λ i k. ground (arith, h, e, k, v.idle h i);
    ingested_free = λ i k. ground (arith, h, e, k, v.ingested_free i);
    unborn = λ i k. ground (arith, h, e, k, v.unborn i);
  }
]

pub cancel-Inv :
    (requested : Option Text) {s t : System} → Inv s → (cancel_run requested s).1 ≡ t → Inv t
unfolding cancel_run
cancel-Inv requested {s} {t} v e = elim (Option-cases s.management.active) [
  | inl h ↦ record {
    idle = λ k i. ground (arith, h, e, k, v.idle h i);
    others = λ a k i n. ground (arith, h, e, k);
    named = λ a k. ground (arith, h, e, k);
    born = λ a k. ground (arith, h, e, k);
    uncleared = λ a k c. ground (arith, h, e, k);
    unwritten = λ a k c. ground (arith, h, e, k);
    cleared_free = λ i k. ground (arith, h, e, k, v.cleared_free i);
    ingested_free = λ i k. ground (arith, h, e, k, v.ingested_free i);
    unborn = λ i k. ground (arith, h, e, k, v.unborn i);
  }
  | inr (r, h) ↦ record {
    idle = λ k i. ground (arith, h, e, k);
    others = λ a k i n. ground (arith, h, e, k, n, v.others r h i);
    named = λ a k. ground (arith, h, e, k, v.named r h);
    born = λ a k. ground (arith, h, e, k, v.born r h);
    uncleared = λ a k c. ground (arith, h, e, k, v.uncleared r h);
    unwritten = λ a k c. ground (arith, h, e, k, v.unwritten r h);
    cleared_free = λ i k. ground (arith, h, e, k, v.cleared_free i, v.uncleared r h);
    ingested_free = λ i k. ground (arith, h, e, k, v.ingested_free i, v.unwritten r h);
    unborn = λ i k. ground (arith, h, e, k, v.unborn i);
  }
]

-- A thread that has not ended is that of the active run.
pub record Owner (s : System) (i : ℕ) : Type 0 where
  pub run : ActiveRun
  pub active : s.management.active ≡ some run
  pub token : i ≡ run.cancel_token

pub owner : {s : System} (i : ℕ) → Inv s → (s.workers i).phase ≢ done → Owner s i
owner {s} i v n = elim (Option-cases s.management.active) [
  | inl h ↦ absurd (n (v.idle h i))
  | inr (r, h) ↦ elim (Bool-cases (i == r.cancel_token)) [
    | inl e ↦ record { run = r; active = h; token = ground (arith, e) }
    | inr e ↦ absurd (n (v.others r h i (ground (arith, e))))
  ]
]

-- A thread stops.
stop-Inv :
    (i : ℕ) (result : Result HostError Value) {s t : System}
    → Inv s
    → (s.workers i).phase ≢ done
    → move_worker s i (stopped result) ≡ t
    → Inv t
stop-Inv i result {s} {t} v n e =
    let o = owner i v n in
    record {
      idle = λ k j. ground (arith, e, k, o.active);
      others = λ a k j m. ground (arith, e, k, m, o.active, o.token, v.others o.run o.active j);
      named = λ a k. ground (arith, e, k, v.named a);
      born = λ a k. ground (arith, e, k, v.born a);
      uncleared = λ a k c. ground (arith, e, k, v.uncleared a);
      unwritten = λ a k c. ground (arith, e, k, v.unwritten a);
      cleared_free = λ j k. ground (arith, e, k, v.cleared_free j);
      ingested_free = λ j k. ground (arith, e, k, v.ingested_free j);
      unborn = λ j k. ground (arith, e, k, v.unborn j);
    }

-- The thread may write: its run is no longer cancellable, and its token is not set.
clear-Inv :
    (i : ℕ) (m : ManagementState) {s t : System}
    → Inv s
    → (s.workers i).phase ≡ discovering
    → mark_run_ingesting i s ≡ ok m
    → after_mark s i (ok m) ≡ t
    → Inv t
unfolding mark_run_ingesting
clear-Inv i m {s} {t} v p q e =
    let o = owner i v (ground (arith, p)) in
    record {
      idle = λ k j. ground (arith, e, k, q, o.active);
      others = λ a k j n. ground (arith, e, k, q, n, o.active, o.token, v.others o.run o.active j);
      named = λ a k. ground (arith, e, k, q, o.active, v.named o.run o.active);
      born = λ a k. ground (arith, e, k, q, o.active, v.born o.run o.active);
      uncleared = λ a k c. ground (arith, e, k, q, o.active);
      unwritten = λ a k c. ground (arith, e, k, q, o.active);
      cleared_free = λ j k. ground (arith, e, k, q, o.active, v.cleared_free j);
      ingested_free = λ j k. ground (arith, e, k, q, o.active, v.ingested_free j);
      unborn = λ j k. ground (arith, e, k, q, o.active, v.unborn j);
    }

mark-Inv :
    (i : ℕ) {s t : System}
    → Inv s
    → (s.workers i).phase ≡ discovering
    → after_mark s i (mark_run_ingesting i s) ≡ t
    → Inv t
mark-Inv i {s} {t} v p e = elim (Result-cases (mark_run_ingesting i s)) [
  | inl (m, q) ↦ clear-Inv i m v p q (subst (λ r. after_mark s i r ≡ t) q e)
  | inr (h, q) ↦ stop-Inv i (err h) v (ground (arith, p)) (ground (arith, q, e))
]

ingest-Inv :
    (i : ℕ) (result : Value) {s t : System}
    → Inv s
    → (s.workers i).phase ≡ cleared
    → record s {
      workers =
          update s.workers i
            (record (s.workers i) { phase = stopped (ok result); ingested = true });
    }
      ≡ t
    → Inv t
ingest-Inv i result {s} {t} v p e =
    let o = owner i v (ground (arith, p)) in
    record {
      idle = λ k j. ground (arith, e, k, o.active);
      others = λ a k j n. ground (arith, e, k, n, o.active, o.token, v.others o.run o.active j);
      named = λ a k. ground (arith, e, k, v.named a);
      born = λ a k. ground (arith, e, k, v.born a);
      uncleared = λ a k c. ground (arith, e, k, v.uncleared a);
      unwritten =
          λ a k c. ground (arith, e, k, c, p, o.active, o.token, v.uncleared a, v.unwritten a);
      cleared_free = λ j k. ground (arith, e, k, v.cleared_free j);
      ingested_free = λ j k. ground (arith, e, k, p, v.cleared_free j, v.ingested_free j);
      unborn = λ j k. ground (arith, e, k, o.active, o.token, v.born o.run o.active, v.unborn j);
    }

-- The thread of the active run ends, and the run with it.
finish-Inv :
    (i : ℕ) (completed : CompletedRun) {s t : System}
    → Inv s
    → (s.workers i).phase ≢ done
    → record (move_worker s i done) {
      management = complete_run (s.workers i).run_id completed s.management;
    }
      ≡ t
    → Inv t
unfolding complete_run
finish-Inv i completed {s} {t} v n e =
    let o = owner i v n in
    let same = text_eq_iff o.run.run_id (s.workers i).run_id in
    record {
      idle = λ k j. ground (arith, e, k, o.active, o.token, v.others o.run o.active j);
      others = λ a k j m. ground (arith, e, k, o.active, o.token, v.others o.run o.active j);
      named = λ a k. ground (arith, e, k, o.active, o.token, same, v.named o.run o.active);
      born = λ a k. ground (arith, e, k, o.active, o.token, same, v.named o.run o.active);
      uncleared = λ a k c. ground (arith, e, k, o.active, o.token, same, v.named o.run o.active);
      unwritten = λ a k c. ground (arith, e, k, o.active, o.token, same, v.named o.run o.active);
      cleared_free = λ j k. ground (arith, e, k, v.cleared_free j);
      ingested_free = λ j k. ground (arith, e, k, v.ingested_free j);
      unborn = λ j k. ground (arith, e, k, v.unborn j);
    }

pub Step-Inv : {s t : System} → Inv s → Step s t → Inv t
Step-Inv v (start run_id plugin_id now e) = start-Inv run_id plugin_id now v e
Step-Inv v (cancel requested e) = cancel-Inv requested v e
Step-Inv v (fail i h p e) = stop-Inv i (err h) v (ground (arith, p)) e
Step-Inv v (mark i p e) = mark-Inv i v p e
Step-Inv v (ingest i result p e) = ingest-Inv i result v p e
Step-Inv v (refuse i h p e) = stop-Inv i (err h) v (ground (arith, p)) e
Step-Inv {s} v (finish i result now display p e) = finish-Inv i _ v (ground (arith, p)) e

pub Reach-Inv : {s : System} → Reach s → Inv s
Reach-Inv here = first-Inv
Reach-Inv (next r step) = Step-Inv (Reach-Inv r) step
