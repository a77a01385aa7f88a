-- ===== src/Base/Results.antt =====
-- Rust's `Result`, with the `?` operator as bind.
use mathlib.Core.Path.{◌≡◌, refl}
use mathlib.Core.Bool.{Bool, true, false}
use mathlib.Core.Option.{Option, none, some}
use mathlib.Core.Logic.{◌⊎◌, inl, inr}

pub data Result (E : Type 0) (A : Type 0) : Type 0 where
  ok : A → Result E A
  err : E → Result E A

module _ {E : Type 0} where
  -- `Option::ok_or`.
  abbrev pub ok_or : {A : Type 0} → Option A → E → Result E A
  ok_or none failure = err failure
  ok_or (some value) failure = ok value

  -- An early return of an error where a test fails.
  abbrev pub guard : Bool → E → Result E (Unit {0})
  guard false failure = err failure
  guard true failure = ok tt

  -- The operator `?`, and the same behind a check.
  infixl 5 ◌>>=◌ ◌>>◌
  abbrev pub ◌>>=◌ : {A B : Type 0} → Result E A → (A → Result E B) → Result E B
  err failure >>= next = err failure
  ok value >>= next = next value

  abbrev pub ◌>>◌ : {B : Type 0} → Result E (Unit {0}) → Result E B → Result E B
  check >> rest = check >>= λ _. rest

-- `map_err`.
abbrev pub map_err : {E F A : Type 0} → (E → F) → Result E A → Result F A
map_err f (ok a) = ok a
map_err f (err e) = err (f e)

-- What went before a success has succeeded too.
pub >>=-eq-ok :
    {E A B : Type 0} (first : Result E A) (next : A → Result E B) {last : B}
    → ◌≡◌ {A = Result E B} (first >>= next) (ok last)
    → (value : A) × ◌≡◌ {A = Result E A} first (ok value)
      × ◌≡◌ {A = Result E B} (next value) (ok last)
>>=-eq-ok (err failure) next e = absurd (cc)
>>=-eq-ok (ok value) next e = (value, refl, e)

pub Result-cases :
    {E A : Type 0} (r : Result E A) → ((a : A) × (r ≡ ok a)) ⊎ ((e : E) × (r ≡ err e))
Result-cases (ok a) = inl (a, refl)
Result-cases (err e) = inr (e, refl)
