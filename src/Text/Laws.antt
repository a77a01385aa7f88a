-- ===== src/Text/Laws.antt =====
-- Laws of the text operations.
use magazine_core.Base.{
  sym, ap, ◌∙◌, Bool-cases, all, any, Bool, false, some, ◌++◌, ◌≢◌, All, Option-cases, inl, inr,
  is_empty, refl, ℕ, ◌≡◌, true, [], ◌∷◌, ◌↔◌, arith,
}
use magazine_core.Text.{
  Text, text_eq, ends_with, split_once, trim, trim_end_by, trim_start_by, is_whitespace,
}

pub text_eq_iff : (s t : Text) → (text_eq s t ≡ true) ↔ (s ≡ t)
unfolding text_eq
text_eq_iff [] [] = ground arith
text_eq_iff [] (b ∷ t) = ground arith
text_eq_iff (a ∷ s) [] = ground arith
text_eq_iff (a ∷ s) (b ∷ t) = ground (arith, text_eq_iff s t)

pub split_once-some :
    (sep : ℕ) (s a b : Text)
    → split_once sep s ≡ some (a, b)
    → (s ≡ a ++ sep ∷ b) × All (λ c. c ≢ sep) a
unfolding split_once
split_once-some sep [] a b e = cc
split_once-some sep (c ∷ s) a b e = elim (Option-cases (split_once sep s)) [
  | inl absent ↦ ground (arith, absent)
  | inr ((a', b'), found) ↦ let (p, q) = split_once-some sep s a' b' found in ground (arith, found)
]

pub split_once_at :
    (sep : ℕ) (a b : Text) → All (λ c. c ≢ sep) a → split_once sep (a ++ sep ∷ b) ≡ some (a, b)
unfolding split_once
split_once_at sep [] b h = ground arith
split_once_at sep (c ∷ a) b h = ground (arith, split_once_at sep a b h.1)

pub all_iff : (p : ℕ → Bool) (s : Text) → (all p s ≡ true) ↔ All (λ c. p c ≡ true) s
all_iff p [] = ground arith
all_iff p (c ∷ s) = ground (arith, all_iff p s)

pub any-false_iff : (p : ℕ → Bool) (s : Text) → (any p s ≡ false) ↔ All (λ c. p c ≡ false) s
any-false_iff p [] = ground arith
any-false_iff p (c ∷ s) = ground (arith, any-false_iff p s)

pub All-imp : {P Q : ℕ → Type 0} (s : Text) → ((c : ℕ) → P c → Q c) → All P s → All Q s
All-imp [] f h = tt
All-imp (c ∷ s) f h = (f c h.0, All-imp s f h.1)

-- A text without anything but whitespace.
abbrev pub IsBlank : Text → Type 0
IsBlank = All (λ c. is_whitespace c ≡ true)

trim_end_by-empty : (p : ℕ → Bool) (s : Text) → trim_end_by p s ≡ [] → All (λ c. p c ≡ true) s
unfolding trim_end_by
trim_end_by-empty p [] e = tt
trim_end_by-empty p (c ∷ s) e = ground (arith, trim_end_by-empty p s)

trim_start_by-blank : (p : ℕ → Bool) (s : Text) → All (λ c. p c ≡ true) s → trim_start_by p s ≡ []
unfolding trim_start_by
trim_start_by-blank p [] h = refl
trim_start_by-blank p (c ∷ s) h = ground (arith, trim_start_by-blank p s h.1)

blank_of_trim_start_by :
    (p : ℕ → Bool) (s : Text) → All (λ c. p c ≡ true) (trim_start_by p s) → All (λ c. p c ≡ true) s
unfolding trim_start_by
blank_of_trim_start_by p [] h = tt
blank_of_trim_start_by p (c ∷ s) h = ground (arith, blank_of_trim_start_by p s)

-- `value.trim().is_empty()` tells the blank texts.
pub trim-empty_iff : (s : Text) → (is_empty (trim s) ≡ true) ↔ IsBlank s
unfolding trim
trim-empty_iff s = (
  λ e.
      blank_of_trim_start_by is_whitespace s
        (trim_end_by-empty is_whitespace (trim_start_by is_whitespace s) (eq_of_is_empty _ e)),
  λ h. rw (trim_start_by-blank is_whitespace s h) (unfold trim_end_by in refl),
)
  where
    eq_of_is_empty : (t : Text) → is_empty t ≡ true → t ≡ []
    eq_of_is_empty [] e = refl
    eq_of_is_empty (c ∷ t) e = cc

ends_with_sound : (p s : Text) → ends_with p s ≡ true → (front : Text) × (s ≡ front ++ p)
unfolding ends_with
ends_with_sound [] [] e = ([], refl)
ends_with_sound (a ∷ p) [] e = cc
ends_with_sound p (c ∷ s) e = elim (Bool-cases (text_eq p (c ∷ s))) [
  | inl same ↦ ([], sym ((text_eq_iff p (c ∷ s)).0 same))
  | inr other ↦
      let (front, found) = ends_with_sound p s (ground (arith, other)) in
      (c ∷ front, ap (λ t. c ∷ t) found)
]

ends_with-append : (front p : Text) → ends_with p (front ++ p) ≡ true
unfolding ends_with
ends_with-append [] [] = refl
ends_with-append [] (a ∷ p) = rw ((text_eq_iff (a ∷ p) (a ∷ p)).1 refl)
ends_with-append (c ∷ front) p = ground (arith, ends_with-append front p)

pub ends_with_iff : (p s : Text) → (ends_with p s ≡ true) ↔ ((front : Text) × (s ≡ front ++ p))
ends_with_iff p s =
    (ends_with_sound p s, λ (front, e). ap (ends_with p) e ∙ ends_with-append front p)
