-- ===== src/Host/Process/Outcome.antt =====
-- How a plugin's process may end.
use magazine_core.Base.{
  ℕ, ◌+◌, ◌≤◌, ◌<◌, ◌≡◌, refl, ap, ◌⊎◌, subst, List, [], ◌∷◌, ◌++◌, Option, none, some, Any, arith,
  ok, err, inr,
}
use magazine_core.Host.Process.{
  Poll, Signal, terminate, kill, Ended, Reader, join_reader, terminate_from, terminate_tree,
  wait_from, wait_for_exit, gave_up,
}

-- A round that saw the process ended.
abbrev pub HasEnded : Poll → Type 0
HasEnded p = (status : ℕ) × (p.exited ≡ ok (some status))

-- What followed SIGTERM: no signal where a round before the deadline saw the process ended, and
-- SIGKILL where a round came behind the deadline.
abbrev pub Follows : ℕ → List Poll → List Signal → Type 0
Follows deadline polls signals =
    ((signals ≡ []) × Any (λ (p : Poll). HasEnded p × (p.now < deadline)) polls)
    ⊎ ((signals ≡ kill ∷ []) × Any (λ (p : Poll). deadline ≤ p.now) polls)

-- The signals of a termination: none where its first round saw the process ended; else SIGTERM
-- first, and SIGKILL behind it only where the grace passed.
abbrev pub Escalates : ℕ → Poll → List Poll → List Signal → Type 0
Escalates grace first back signals =
    ((signals ≡ []) × HasEnded first)
    ⊎ ((first.exited ≡ ok none)
        × ((rest : List Signal) × (signals ≡ terminate ∷ rest)
            × Follows (first.now + grace) back rest))

-- A process that was given up: a round behind the deadline saw it running, and the termination
-- began with the next round.
pub record GaveUp (grace deadline : ℕ) (polls : List Poll) (signals : List Signal) : Type 0 where
  pub front : List Poll
  pub late : Poll
  pub first : Poll
  pub back : List Poll
  pub rounds : polls ≡ front ++ late ∷ first ∷ back
  pub running : late.exited ≡ ok none
  pub over : deadline ≤ late.now
  pub escalates : Escalates grace first back signals

-- What a wait that has returned has seen.
abbrev Explains : ℕ → ℕ → List Poll → Option (Ended (Option ℕ)) → Type 0
Explains grace deadline polls none = Unit
Explains grace deadline polls (some (signals, err e)) = Unit
Explains grace deadline polls (some (signals, ok (some status))) =
    (signals ≡ []) × Any (λ (p : Poll). p.exited ≡ ok (some status)) polls
Explains grace deadline polls (some (signals, ok none)) = GaveUp grace deadline polls signals

later_round :
    (grace deadline : ℕ) (p : Poll) (polls : List Poll) (o : Option (Ended (Option ℕ)))
    → Explains grace deadline polls o
    → Explains grace deadline (p ∷ polls) o
later_round grace deadline p polls none h = tt
later_round grace deadline p polls (some (signals, err e)) h = tt
later_round grace deadline p polls (some (signals, ok (some status))) h = (h.0, inr h.1)
later_round grace deadline p polls (some (signals, ok none)) h = record {
  front = p ∷ h.front;
  late = h.late;
  first = h.first;
  back = h.back;
  rounds = ap (λ l. p ∷ l) h.rounds;
  running = h.running;
  over = h.over;
  escalates = h.escalates;
}

abbrev AreFollowed : ℕ → List Poll → Option (Ended (Unit {0})) → Type 0
AreFollowed deadline polls (some (signals, ok _)) = Follows deadline polls signals
AreFollowed deadline polls _ = Unit

abbrev AreEscalated : ℕ → List Poll → Option (Ended (Unit {0})) → Type 0
AreEscalated grace (first ∷ back) (some (signals, ok _)) = Escalates grace first back signals
AreEscalated grace [] (some (signals, ok _)) = ⊥
AreEscalated grace polls _ = Unit

gave_up-Explains :
    (grace deadline : ℕ) (late : Poll) (polls : List Poll) (o : Option (Ended (Unit {0})))
    → late.exited ≡ ok none
    → deadline ≤ late.now
    → AreEscalated grace polls o
    → Explains grace deadline (late ∷ polls) (gave_up o)
gave_up-Explains grace deadline late polls none running over h = tt
gave_up-Explains grace deadline late polls (some (signals, err e)) running over h = tt
gave_up-Explains grace deadline late [] (some (signals, ok _)) running over h = absurd h
gave_up-Explains grace deadline late (first ∷ back) (some (signals, ok _)) running over h = record {
  front = [];
  late = late;
  first = first;
  back = back;
  rounds = refl;
  running = running;
  over = over;
  escalates = h;
}

module _ (reader : Reader) where
  terminate_from-Follows :
      (deadline : ℕ) (polls : List Poll)
      → AreFollowed deadline polls (terminate_from reader deadline polls)
  unfolding terminate_from join_reader
  terminate_from-Follows deadline [] = tt
  terminate_from-Follows deadline (p ∷ ps) = ground (arith, terminate_from-Follows deadline ps)

  terminate_tree-Escalates :
      (grace : ℕ) (polls : List Poll) → AreEscalated grace polls (terminate_tree reader grace polls)
  unfolding terminate_tree join_reader
  terminate_tree-Escalates grace [] = tt
  terminate_tree-Escalates grace (p ∷ ps) =
      ground (arith, terminate_from-Follows (p.now + grace) ps)

  wait_from-Explains :
      (grace deadline : ℕ) (polls : List Poll)
      → Explains grace deadline polls (wait_from reader grace deadline polls)
  unfolding wait_from join_reader
  wait_from-Explains grace deadline [] = tt
  wait_from-Explains grace deadline (p ∷ ps) = ground (
    arith,
    later_round grace deadline p ps (wait_from reader grace deadline ps)
        (wait_from-Explains grace deadline ps),
    gave_up-Explains grace deadline p ps (terminate_tree reader grace ps),
    terminate_tree-Escalates grace ps,
  )

-- A wait that returns an exit status saw the process end with it by itself, and sent no signal.
pub wait_for_exit_status :
    (reader : Reader) (grace started : ℕ) (polls : List Poll) (signals : List Signal) (status : ℕ)
    → wait_for_exit reader grace started polls ≡ some (signals, ok (some status))
    → (signals ≡ []) × Any (λ (p : Poll). p.exited ≡ ok (some status)) polls
unfolding wait_for_exit
wait_for_exit_status reader grace started polls signals status e =
    subst (Explains grace (started + grace) polls) e
      (wait_from-Explains reader grace (started + grace) polls)
