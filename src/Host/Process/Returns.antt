-- ===== src/Host/Process/Returns.antt =====
-- When the loops at the end of a process return.
use magazine_core.Base.{
  ℕ, ◌+◌, ◌≤◌, ◌<◌, ◌≢◌, ◌≡◌, true, false, List, [], ◌∷◌, ◌++◌, none, some, ok, All, Any, arith,
  inl, inr,
}
use magazine_core.Host.Process.{
  Poll, Signal, terminate, kill, Reader, join_reader, terminate_from, terminate_tree, wait_from,
  wait_for_exit,
}

-- A round at or behind the deadline.
abbrev pub IsOver : ℕ → Poll → Type 0
IsOver deadline p = deadline ≤ p.now

-- The reader's thread ends, whatever signals were sent.
abbrev pub JoinsAlways : Reader → Type 0
JoinsAlways reader = (sent : List Signal) → reader sent ≡ true

terminate_from_returns :
    (reader : Reader) (deadline : ℕ) (polls : List Poll)
    → JoinsAlways reader
    → Any (IsOver deadline) polls
    → terminate_from reader deadline polls ≢ none
unfolding terminate_from join_reader
terminate_from_returns reader deadline [] joins over = elim over [ ]
terminate_from_returns reader deadline (p ∷ ps) joins (inl late) =
    ground (arith, joins (terminate ∷ []), joins (terminate ∷ kill ∷ []))
terminate_from_returns reader deadline (p ∷ ps) joins (inr over) = ground (
  arith,
  joins (terminate ∷ []),
  joins (terminate ∷ kill ∷ []),
  terminate_from_returns reader deadline ps joins over,
)

terminate_tree_returns :
    (reader : Reader) (grace : ℕ) (first : Poll) (polls : List Poll)
    → JoinsAlways reader
    → Any (IsOver (first.now + grace)) polls
    → terminate_tree reader grace (first ∷ polls) ≢ none
unfolding terminate_tree join_reader
terminate_tree_returns reader grace first polls joins over =
    ground (arith, joins [], terminate_from_returns reader (first.now + grace) polls joins over)

wait_from_returns :
    (reader : Reader) (grace deadline : ℕ) (front : List Poll) (late first : Poll)
    (back : List Poll)
    → JoinsAlways reader
    → All (λ (p : Poll). p.now < deadline) front
    → deadline ≤ late.now
    → Any (IsOver (first.now + grace)) back
    → wait_from reader grace deadline (front ++ late ∷ first ∷ back) ≢ none
unfolding wait_from join_reader
wait_from_returns reader grace deadline [] late first back joins early reached over =
    ground (arith, joins [], terminate_tree_returns reader grace first back joins over)
wait_from_returns reader grace deadline (p ∷ front) late first back joins early reached over =
    ground (
      arith,
      joins [],
      wait_from_returns reader grace deadline front late first back joins early.1 reached over,
    )

-- Where the thread that reads the plugin's output ends, a wait returns: once the clock has passed
-- the grace, at the round `late`, and has passed it again since the first round of the termination
-- behind it, there is a result.
pub wait_for_exit_returns :
    (reader : Reader) (grace started : ℕ) (front : List Poll) (late first : Poll) (back : List Poll)
    → JoinsAlways reader
    → All (λ (p : Poll). p.now < started + grace) front
    → started + grace ≤ late.now
    → Any (IsOver (first.now + grace)) back
    → wait_for_exit reader grace started (front ++ late ∷ first ∷ back) ≢ none
unfolding wait_for_exit
wait_for_exit_returns reader grace started = wait_from_returns reader grace (started + grace)

wait_from_blocks :
    (reader : Reader) (grace deadline : ℕ) (front : List Poll) (last : Poll) (back : List Poll)
    {status : ℕ}
    → reader [] ≡ false
    → All (λ (p : Poll). (p.exited ≡ ok none) × (p.now < deadline)) front
    → last.exited ≡ ok (some status)
    → wait_from reader grace deadline (front ++ last ∷ back) ≡ none
unfolding wait_from join_reader
wait_from_blocks reader grace deadline [] last back holds early ended = ground arith
wait_from_blocks reader grace deadline (p ∷ front) last back holds early ended =
    ground (arith, wait_from_blocks reader grace deadline front last back holds early.1 ended)

-- Where a plugin ends within its grace, and another process holds the pipe of its output so that
-- the reader's thread does not end, the wait does not return, however many rounds there are: the
-- grace does not bound it.
pub wait_for_exit_blocks :
    (reader : Reader) (grace started : ℕ) (front : List Poll) (last : Poll) (back : List Poll)
    {status : ℕ}
    → reader [] ≡ false
    → All (λ (p : Poll). (p.exited ≡ ok none) × (p.now < started + grace)) front
    → last.exited ≡ ok (some status)
    → wait_for_exit reader grace started (front ++ last ∷ back) ≡ none
unfolding wait_for_exit
wait_for_exit_blocks reader grace started = wait_from_blocks reader grace (started + grace)
