-- ===== src/Host/Process.antt =====
-- The end of a plugin's process in crates/mh-host/src/lib.rs. A round of either loop sees the
-- process (`try_wait`) and the clock; no result means that the loop has used up its rounds, or waits
-- for the reader's thread. The wait for the process behind a SIGKILL returns.
pub mod Outcome
pub mod Returns
use magazine_core.Base.{
  ℕ, ◌+◌, Bool, List, [], ◌∷◌, Option, none, some, if◌then◌else◌, leb, ltb, Result, ok, err, ◌>>=◌,
}
use magazine_core.Host.Error.{HostError, io}

pub record Poll : Type 0 where
  pub exited : Result ℕ (Option ℕ)
  pub now : ℕ

-- SIGTERM and SIGKILL to the process group.
pub data Signal : Type 0 where
  terminate kill : Signal

-- The signals that were sent, and the result.
abbrev pub Ended : Type 0 → Type 0
Ended A = List Signal × Result HostError A

abbrev behind : {A : Type 0} → Signal → Option (Ended A) → Option (Ended A)
behind signal none = none
behind signal (some (signals, result)) = some (signal ∷ signals, result)

-- Whether the thread that reads the plugin's output ends, behind the signals that were sent: it does
-- not as long as any process holds the other end of the pipe.
abbrev pub Reader : Type 0
Reader = List Signal → Bool

-- `join_reader`, behind the signals that were sent, and then the result.
unfoldable pub join_reader : {A : Type 0} → Reader → List Signal → A → Option (Ended A)
join_reader reader sent result = if reader sent then some ([], ok result) else none

-- The loop of `terminate_tree` behind SIGTERM.
unfoldable pub terminate_from : Reader → ℕ → List Poll → Option (Ended (Unit {0}))
terminate_from reader deadline [] = none
terminate_from reader deadline (p ∷ ps) =
    let rest = terminate_from reader deadline ps in
    if ltb p.now deadline
    then elim p.exited [
      | err e ↦ some ([], err (io e))
      | ok status ↦ elim status [ some code ↦ join_reader reader (terminate ∷ []) tt | none ↦ rest ]
    ]
    else behind kill (join_reader reader (terminate ∷ kill ∷ []) tt)

unfoldable pub terminate_tree : Reader → ℕ → List Poll → Option (Ended (Unit {0}))
terminate_tree reader grace [] = none
terminate_tree reader grace (p ∷ ps) = elim p.exited [
  | err e ↦ some ([], err (io e))
  | ok status ↦ elim status [
    | some code ↦ join_reader reader [] tt
    | none ↦ behind terminate (terminate_from reader (p.now + grace) ps)
  ]
]

abbrev pub gave_up : Option (Ended (Unit {0})) → Option (Ended (Option ℕ))
gave_up none = none
gave_up (some (signals, result)) = some (signals, result >>= λ done. ok none)

-- The loop of `wait_or_terminate`.
unfoldable pub wait_from : Reader → ℕ → ℕ → List Poll → Option (Ended (Option ℕ))
wait_from reader grace deadline [] = none
wait_from reader grace deadline (p ∷ ps) =
    let rest = wait_from reader grace deadline ps in
    elim p.exited [
      | err e ↦ some ([], err (io e))
      | ok status ↦ elim status [
        | some code ↦ join_reader reader [] (some code)
        | none ↦ if leb deadline p.now then gave_up (terminate_tree reader grace ps) else rest
      ]
    ]

unfoldable pub wait_for_exit : Reader → ℕ → ℕ → List Poll → Option (Ended (Option ℕ))
wait_for_exit reader grace started polls = wait_from reader grace (started + grace) polls
