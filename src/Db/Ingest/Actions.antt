-- ===== src/Db/Ingest/Actions.antt =====
-- What stands behind an action that succeeded.
use magazine_core.Base.{◌≡◌, none, Option-cases, ok, Result-cases, arith, inl, inr}
use magazine_core.Text.{Text}
use magazine_core.Db.Tables.{Statement}
use magazine_core.Db.Ingest.{Engine, Transaction, Action, ◌>>=◌, execute}

-- The value and the state between two actions.
pub record Between {A B : Type 0} (first : Action A) (next : A → Action B) (tx : Transaction)
    (b : B) (after : Transaction) : Type 0 where
  pub value : A
  pub middle : Transaction
  pub first_ok : first tx ≡ ok (value, middle)
  pub next_ok : next value middle ≡ ok (b, after)

pub between :
    {A B : Type 0} (first : Action A) (next : A → Action B) (tx : Transaction) {b : B}
    {after : Transaction}
    → (first >>= next) tx ≡ ok (b, after)
    → Between first next tx b after
between first next tx e = elim (Result-cases (first tx)) [
  | inl ((a, middle), q) ↦ record {
    value = a;
    middle = middle;
    first_ok = q;
    next_ok = ground (arith, e, q);
  }
  | inr (h, q) ↦ absurd (ground (arith, e, q))
]

-- A statement that succeeded: what it did, and that it did not fail of itself.
pub record Executed {A : Type 0} (engine : Engine) (statement : Text → Statement A)
    (tx : Transaction) (a : A) (after : Transaction) : Type 0 where
  pub unbroken : engine.fault tx.executed ≡ none
  pub done : statement (engine.now tx.executed) tx.tables ≡ ok (a, after.tables)

pub executed :
    (engine : Engine) {A : Type 0} (statement : Text → Statement A) (tx : Transaction) {a : A}
    {after : Transaction}
    → execute engine statement tx ≡ ok (a, after)
    → Executed engine statement tx a after
unfolding execute
executed engine statement tx e = elim (Option-cases (engine.fault tx.executed)) [
  | inr (m, f) ↦ absurd (ground (arith, e, f))
  | inl f ↦ elim (Result-cases (statement (engine.now tx.executed) tx.tables)) [
    | inr (m, q) ↦ absurd (ground (arith, e, f, q))
    | inl ((a, t), q) ↦ record { unbroken = f; done = ground (arith, e, f, q) }
  ]
]
