-- ===== src/Host/Machine.antt =====
-- What a run changes: the plugin's standard input, the messages that went into it, the shutdowns of
-- the process, each with the messages sent before it, and the spool. An action returns or fails, and
-- leaves its changes either way.
use magazine_core.Base.{List, [], ◌∷◌, ◌++◌, ◌≡◌, ◌⊎◌, inl, inr, refl, Result, ok, err}
use magazine_core.Text.{Text}
use magazine_core.Json.{Value}
use magazine_core.Protocol.Framing.{Writer, write_frame, FrameError}
use magazine_core.Protocol.Canonical.{canonical_json}
use magazine_core.Host.Error.{HostError, frame}
use magazine_core.Host.Spool.{RunState, Outcome}

-- `wait_or_terminate` and `terminate_tree`.
pub data Shutdown : Type 0 where
  wait_or_terminate terminate_tree : Shutdown

pub record Machine : Type 0 where
  pub stdin : Writer
  pub sent : List Value
  pub shutdowns : List (Shutdown × List Value)
  pub spool : RunState

abbrev pub M : Type 0 → Type 0
M A = Machine → Result HostError A × Machine

module _ {A : Type 0} where
  abbrev pub pure : A → M A
  pure a m = (ok a, m)

  abbrev pub raise : HostError → M A
  raise e m = (err e, m)

  -- A check that changes nothing.
  abbrev pub lift : Result HostError A → M A
  lift r m = (r, m)

infixl 5 ◌>>=◌ ◌>>◌
abbrev pub ◌>>=◌ : {A B : Type 0} → M A → (A → M B) → M B
◌>>=◌ c f m = let (r, m') = c m in elim r [ ok a ↦ f a m' | err e ↦ (err e, m') ]

abbrev pub ◌>>◌ : {A B : Type 0} → M A → M B → M B
c >> k = c >>= λ _. k

pub outcome-cases :
    {A : Type 0} (o : Result HostError A × Machine)
    → ((a : A) × (m : Machine) × (o ≡ (ok a, m)))
      ⊎ ((e : HostError) × (m : Machine) × (o ≡ (err e, m)))
outcome-cases (ok a, m) = inl (a, m, refl)
outcome-cases (err e, m) = inr (e, m, refl)

-- A method of the spool.
abbrev pub on_spool : (RunState → Outcome) → M (Unit {0})
on_spool f m = let (r, s) = f m.spool in (r, record m { spool = s })

abbrev pub shut_down : Shutdown → M (Unit {0})
shut_down how m = (ok tt, record m { shutdowns = m.shutdowns ++ (how, m.sent) ∷ [] })

-- A message that reached the process is noted in `sent`.
abbrev note_sent :
    Value → Result FrameError (Unit {0}) × Writer → Machine → Result HostError (Unit {0}) × Machine
note_sent value (ok _, w) m = (ok tt, record m { stdin = w; sent = m.sent ++ value ∷ [] })
note_sent value (err e, w) m = (err (frame e), record m { stdin = w })

-- `PluginProcess::send`.
unfoldable pub send : (Value → Text) → Value → M (Unit {0})
send to_string value m = note_sent value (write_frame (canonical_json to_string value) m.stdin) m
