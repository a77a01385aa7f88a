-- ===== src/Ui/Manage/Cancels.antt =====
-- A run whose cancellation was accepted writes nothing.
use magazine_core.Base.{
  ℕ, ◌≡◌, ◌≢◌, ◌<◌, refl, Option, some, true, false, arith, inl, inr, Option-cases, Bool-cases,
  Result-cases,
}
use magazine_core.Text.{Text}
use magazine_core.Ui.Manage.{
  ActiveRun, cancelling, done, System, start_run, cancel_run, mark_run_ingesting,
}
use magazine_core.Ui.Manage.Steps.{
  Step, start, cancel, fail, mark, ingest, refuse, finish, Reach, Steps, stay, more,
}
use magazine_core.Ui.Manage.Steps.Kept.{Inv, owner, Step-Inv, Reach-Inv, cancel-Inv}

-- In every state that the handlers and threads of the server reach, at most one thread has not
-- ended.
pub one_run :
    {s : System}
    → Reach s
    → (i j : ℕ) → (s.workers i).phase ≢ done
    → (s.workers j).phase ≢ done
    → i ≡ j
one_run r i j p q =
    let a = owner i (Reach-Inv r) p in
    let b = owner j (Reach-Inv r) q in ground (arith, a.active, b.active, a.token, b.token)

-- A set token stays set: only a thread that starts has its own reset.
set_Step :
    {s t : System}
    → Inv s
    → Step s t
    → (i : ℕ) → i < s.spawned
    → s.tokens i ≡ true
    → (t.tokens i ≡ true) × (i < t.spawned)
unfolding start_run cancel_run mark_run_ingesting
set_Step {s} v (start run_id plugin_id now e) i h k = elim (Option-cases s.management.active) [
  | inl q ↦ (ground (arith, q, e), ground (arith, q, e))
  | inr (a, q) ↦ absurd (ground (arith, q, e))
]
set_Step {s} v (cancel requested e) i h k = elim (Option-cases s.management.active) [
  | inl q ↦ (ground (arith, q, e), ground (arith, q, e))
  | inr (a, q) ↦ (ground (arith, q, e), ground (arith, q, e))
]
set_Step v (fail i h p e) j l k = (ground (arith, e), ground (arith, e))
set_Step {s} v (mark i p e) j l k = elim (Result-cases (mark_run_ingesting i s)) [
  | inl (m, q) ↦ (ground (arith, q, e), ground (arith, q, e))
  | inr (h, q) ↦ (ground (arith, q, e), ground (arith, q, e))
]
set_Step v (ingest i result p e) j l k = (ground (arith, e), ground (arith, e))
set_Step v (refuse i h p e) j l k = (ground (arith, e), ground (arith, e))
set_Step v (finish i result now display p e) j l k = (ground (arith, e), ground (arith, e))

set_Steps :
    {s t : System}
    → Inv s
    → Steps s t
    → (i : ℕ) → i < s.spawned
    → s.tokens i ≡ true
    → (t.workers i).ingested ≡ false
set_Steps {s} v stay i h k = elim (Bool-cases (s.workers i).ingested) [
  | inl e ↦ absurd (ground (arith, v.ingested_free i e, k))
  | inr e ↦ e
]
set_Steps v (more step steps) i h k =
    let (q, l) = set_Step v step i h k in set_Steps (Step-Inv v step) steps i l q

-- Where the server has accepted the cancellation of its active run, the thread of that run has
-- written no record and never does, whatever handlers and threads do from then on.
pub cancelled_run_writes_nothing :
    {s u : System}
    → Reach s
    → (requested : Option Text) (active : ActiveRun) → s.management.active ≡ some active
    → (cancel_run requested s).0 ≡ cancelling active.run_id
    → Steps (cancel_run requested s).1 u
    → (u.workers active.cancel_token).ingested ≡ false
unfolding cancel_run
cancelled_run_writes_nothing {s} r requested active e accepted steps =
    let v = Reach-Inv r in
    set_Steps (cancel-Inv requested v refl) steps active.cancel_token
      (ground (arith, e, accepted, v.born active e)) (ground (arith, e, accepted))
