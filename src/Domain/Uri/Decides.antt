-- ===== src/Domain/Uri/Decides.antt =====
-- The absolute URIs that the test accepts, described by their shape.
use magazine_core.Base.{
  ℕ, ◌≤◌, ◌≡◌, ◌≢◌, ◌↔◌, ◌⊎◌, true, false, [], ◌∷◌, ◌++◌, some, All, arith, any, is_empty,
  Option-cases, inl, inr, ◌∙◌, ap,
}
use magazine_core.Text.{Text, split_once, is_ascii_alphabetic, is_whitespace}
use magazine_core.Text.Laws.{split_once-some, split_once_at, all_iff, any-false_iff, All-imp}
use magazine_core.Domain.Uri.{uri_parts, is_absolute_uri, scheme_char, reserved_char}

abbrev IsLetter : ℕ → Type 0
IsLetter c = ((65 ≤ c) × (c ≤ 90)) ⊎ ((97 ≤ c) × (c ≤ 122))

-- A letter, a digit, `+`, `-` or `.`.
abbrev IsSchemeChar : ℕ → Type 0
IsSchemeChar c = IsLetter c ⊎ ((48 ≤ c) × (c ≤ 57)) ⊎ (c ≡ 43) ⊎ (c ≡ 45) ⊎ (c ≡ 46)

-- A scheme that begins with a letter, a colon and something behind it, with no whitespace.
pub record IsAbsoluteUri (value : Text) : Type 0 where
  pub first : ℕ
  pub more : Text
  pub rest : Text
  pub shape : value ≡ (first ∷ more) ++ b':' ∷ rest
  pub letter : IsLetter first
  pub scheme : All IsSchemeChar more
  pub nonempty : rest ≢ []
  pub solid : All (λ c. is_whitespace c ≡ false) value

scheme_char_iff : (c : ℕ) → (scheme_char c ≡ true) ↔ IsSchemeChar c
scheme_char_iff c = ground arith

scheme_char-not_reserved : (c : ℕ) → scheme_char c ≡ true → reserved_char c ≡ false
scheme_char-not_reserved c h = ground arith

not_reserved : (s : Text) → All (λ c. scheme_char c ≡ true) s → any reserved_char s ≡ false
not_reserved s h = (any-false_iff reserved_char s).1 (All-imp s scheme_char-not_reserved h)

IsLetter-iff : (c : ℕ) → (is_ascii_alphabetic c ≡ true) ↔ IsLetter c
IsLetter-iff c = ground arith

uri_parts_sound :
    (value scheme rest : Text)
    → value ≡ scheme ++ b':' ∷ rest
    → uri_parts value scheme rest ≡ true
    → IsAbsoluteUri value
unfolding uri_parts
uri_parts_sound value [] rest shape h = cc
uri_parts_sound value (first ∷ more) rest shape h = record {
  first = first;
  more = more;
  rest = rest;
  shape = shape;
  letter = ground (arith, IsLetter-iff first);
  scheme = All-imp more (λ c. (scheme_char_iff c).0) ((all_iff scheme_char more).0 (ground arith));
  nonempty = ground arith;
  solid = (any-false_iff is_whitespace value).0 (ground arith);
}

uri_parts_complete :
    (value : Text) (u : IsAbsoluteUri value) → uri_parts value (u.first ∷ u.more) u.rest ≡ true
unfolding uri_parts
uri_parts_complete value u =
    let chars = All-imp u.more (λ c. (scheme_char_iff c).1) u.scheme in
    let letter = (IsLetter-iff u.first).1 u.letter in
    let tail = (all_iff scheme_char u.more).1 chars in
    let head : scheme_char u.first ≡ true = ground (arith, letter) in
    let plain = not_reserved (u.first ∷ u.more) (head, chars) in
    let solid = (any-false_iff is_whitespace value).1 u.solid in
    let some_rest : is_empty u.rest ≡ false = ground (arith, u.nonempty) in
    ground (arith, letter, tail, plain, solid, some_rest)

no_colon :
    (first : ℕ) (more : Text)
    → IsLetter first
    → All IsSchemeChar more
    → All (λ c. c ≢ b':') (first ∷ more)
no_colon first more h k = (ground arith, All-imp more (λ c p. ground arith) k)

-- `is_absolute_uri` accepts exactly the texts of this shape.
pub is_absolute_uri_iff : (value : Text) → (is_absolute_uri value ≡ true) ↔ IsAbsoluteUri value
unfolding is_absolute_uri
is_absolute_uri_iff value = (
  λ h. elim (Option-cases (split_once b':' value)) [
    | inl absent ↦ ground (arith, absent)
    | inr ((scheme, rest), found) ↦
        uri_parts_sound value scheme rest (split_once-some b':' value scheme rest found).0
          (ground (arith, found))
  ],
  λ u.
      let found : split_once b':' value ≡ some (u.first ∷ u.more, u.rest) =
        ap (split_once b':') u.shape
        ∙ split_once_at b':' (u.first ∷ u.more) u.rest
            (no_colon u.first u.more u.letter u.scheme) in
      ground (arith, found, uri_parts_complete value u),
)
