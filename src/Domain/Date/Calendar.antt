-- ===== src/Domain/Date/Calendar.antt =====
-- The date test accepts just the printed dates of the Gregorian calendar.
use magazine_core.Base.{
  ℕ, ◌+◌, ◌*◌, ◌-◌, ◌%◌, ◌/◌, ◌^◌, ◌≤◌, ◌<◌, ◌≡◌, ◌≢◌, ◌↔◌, ◌⊎◌, refl, ap, ◌∙◌, sym, true, List, [],
  ◌∷◌, some, arith, All, get_or,
}
use magazine_core.Text.{Text}
use magazine_core.Text.Utf8.{as_bytes, encode_char}
use magazine_core.Text.Number.{parse_uint, parse_digits}
use magazine_core.Domain.Date.{
  is_leap_year, days_in_month, is_valid_yyyy_mm_dd, in_calendar, digits_at, valid_bytes,
}

abbrev IsDigit : ℕ → Type 0
IsDigit c = (48 ≤ c) × (c ≤ 57)

-- A date as `YYYY-MM-DD`.
unfoldable pub format_date : ℕ → ℕ → ℕ → Text
format_date y m d =
    (48 + y / 1000)
    ∷ (48 + y / 100 % 10)
    ∷ (48 + y / 10 % 10)
    ∷ (48 + y % 10)
    ∷ b'-'
    ∷ (48 + m / 10)
    ∷ (48 + m % 10)
    ∷ b'-'
    ∷ (48 + d / 10)
    ∷ (48 + d % 10)
    ∷ []

-- The years with a 29 February.
abbrev pub IsLeap : ℕ → Type 0
IsLeap y = (y % 4 ≡ 0) × ((y % 100 ≢ 0) ⊎ (y % 400 ≡ 0))

-- The days of the months of a common year.
abbrev pub month_lengths : List ℕ
month_lengths = 31 ∷ 28 ∷ 31 ∷ 30 ∷ 31 ∷ 30 ∷ 31 ∷ 31 ∷ 30 ∷ 31 ∷ 30 ∷ 31 ∷ []

-- A day of the Gregorian calendar in the years 0 to 9999.
pub record IsDate (y m d : ℕ) : Type 0 where
  pub year : y < 10000
  pub month : (1 ≤ m) × (m ≤ 12)
  pub first : 1 ≤ d
  pub last : (d ≤ get_or month_lengths (m - 1) 0) ⊎ ((m ≡ 2) × (d ≡ 29) × IsLeap y)

is_leap_year_iff : (y : ℕ) → (is_leap_year y ≡ true) ↔ IsLeap y
unfolding is_leap_year
is_leap_year_iff y = ground arith

le-days_in_month_iff :
    (y m d : ℕ)
    → (1 ≤ m) × (m ≤ 12)
    → (d ≤ days_in_month y m)
      ↔ ((d ≤ get_or month_lengths (m - 1) 0) ⊎ ((m ≡ 2) × (d ≡ 29) × IsLeap y))
unfolding days_in_month
le-days_in_month_iff y m d h = ground (arith, is_leap_year_iff y)

-- The value of a digit, and of two and four of them.
abbrev two : ℕ → ℕ → ℕ
two a b = (a - 48) * 10 + (b - 48)

abbrev four : ℕ → ℕ → ℕ → ℕ → ℕ
four a b c d = ((a - 48) * 10 + (b - 48)) * 100 + two c d

parse_uint-two :
    (a b : ℕ) → IsDigit a → IsDigit b → parse_uint (2 ^ 8) (a ∷ b ∷ []) ≡ some (two a b)
unfolding parse_uint parse_digits
parse_uint-two a b p q = ground arith

parse_uint-four :
    (a b c d : ℕ)
    → IsDigit a
    → IsDigit b
    → IsDigit c
    → IsDigit d
    → parse_uint (2 ^ 16) (a ∷ b ∷ c ∷ d ∷ []) ≡ some (four a b c d)
unfolding parse_uint parse_digits
parse_uint-four a b c d p q r s = ground arith

-- Ten bytes in the shape of a date.
abbrev IsShaped : List ℕ → Type 0
IsShaped (a ∷ b ∷ c ∷ d ∷ e ∷ f ∷ g ∷ h ∷ i ∷ j ∷ []) =
    IsDigit a
    × IsDigit b
    × IsDigit c
    × IsDigit d
    × (e ≡ b'-')
    × IsDigit f
    × IsDigit g
    × (h ≡ b'-')
    × IsDigit i
    × IsDigit j
IsShaped _ = ⊥

valid_bytes_shaped :
    (a b c d f g i j : ℕ)
    → IsDigit a × IsDigit b × IsDigit c × IsDigit d × IsDigit f × IsDigit g × IsDigit i × IsDigit j
    → valid_bytes (a ∷ b ∷ c ∷ d ∷ b'-' ∷ f ∷ g ∷ b'-' ∷ i ∷ j ∷ [])
      ≡ in_calendar (some (four a b c d)) (some (two f g)) (some (two i j))
unfolding valid_bytes digits_at
valid_bytes_shaped a b c d f g i j h = ground (
  arith,
  parse_uint-four a b c d h.0 h.1 h.2 h.3,
  parse_uint-two f g h.4 h.5,
  parse_uint-two i j h.6 h.7,
)

in_calendar_iff :
    (y m d : ℕ) → y < 10000 → (in_calendar (some y) (some m) (some d) ≡ true) ↔ IsDate y m d
unfolding in_calendar
in_calendar_iff y m d h = ground (arith, le-days_in_month_iff y m d)

valid_bytes-IsShaped : (bs : List ℕ) → valid_bytes bs ≡ true → IsShaped bs
unfolding valid_bytes digits_at
valid_bytes-IsShaped (a ∷ b ∷ c ∷ d ∷ e ∷ f ∷ g ∷ h ∷ i ∷ j ∷ []) v = ground arith
valid_bytes-IsShaped (a ∷ b ∷ c ∷ d ∷ e ∷ f ∷ g ∷ h ∷ i ∷ j ∷ k ∷ l) v = ground arith
valid_bytes-IsShaped _ v = cc

-- Bytes below 128 are the characters that they encode.
as_bytes_ascii : (s : Text) → All (λ b. b < 128) (as_bytes s) → as_bytes s ≡ s
unfolding as_bytes encode_char
as_bytes_ascii [] h = refl
as_bytes_ascii (c ∷ s) h = ground (arith, as_bytes_ascii s)

IsShaped-ascii : (bs : List ℕ) → IsShaped bs → All (λ b. b < 128) bs
IsShaped-ascii (a ∷ b ∷ c ∷ d ∷ e ∷ f ∷ g ∷ h ∷ i ∷ j ∷ []) v = omega arith
IsShaped-ascii _ v = ground arith

-- Shaped bytes that pass the test are a printed date.
shaped-IsDate :
    (bs : List ℕ)
    → IsShaped bs
    → valid_bytes bs ≡ true
    → (y m d : ℕ) × IsDate y m d × (bs ≡ format_date y m d)
unfolding format_date
shaped-IsDate (a ∷ b ∷ c ∷ d ∷ e ∷ f ∷ g ∷ h ∷ i ∷ j ∷ []) p v =
    let shaped = valid_bytes_shaped a b c d f g i j (omega arith) in
    (
      four a b c d,
      two f g,
      two i j,
      (in_calendar_iff (four a b c d) (two f g) (two i j) (omega arith)).0 (ground (arith, shaped)),
      ground arith,
    )
shaped-IsDate _ p v = ground arith

-- Characters below 128 are their own bytes.
ascii-as_bytes : (s : Text) → All (λ c. c < 128) s → as_bytes s ≡ s
unfolding as_bytes encode_char
ascii-as_bytes [] h = refl
ascii-as_bytes (c ∷ s) h = ground (arith, ascii-as_bytes s)

IsDate-le : (y m d : ℕ) → IsDate y m d → d ≤ 31
IsDate-le y m d h = ground arith

format_date-ascii : (y m d : ℕ) → IsDate y m d → All (λ c. c < 128) (format_date y m d)
unfolding format_date
format_date-ascii y m d h = omega (arith, IsDate-le y m d h)

format_date_valid : (y m d : ℕ) → IsDate y m d → valid_bytes (format_date y m d) ≡ true
unfolding format_date
format_date_valid y m d h =
    let small = IsDate-le y m d h in
    valid_bytes_shaped (48 + y / 1000) (48 + y / 100 % 10) (48 + y / 10 % 10) (48 + y % 10)
      (48 + m / 10) (48 + m % 10) (48 + d / 10) (48 + d % 10) (omega arith)
    ∙ calendar_at (omega arith) (omega arith) (omega arith)
  where
    calendar_at :
        {y' m' d' : ℕ} → y' ≡ y → m' ≡ m → d' ≡ d → in_calendar (some y') (some m') (some d') ≡ true
    calendar_at p q r = rw (p, q, r) ((in_calendar_iff y m d h.year).1 h)

-- The test accepts a text exactly if it is a day of the calendar, printed as `YYYY-MM-DD`.
pub is_valid_yyyy_mm_dd_iff :
    (value : Text)
    → (is_valid_yyyy_mm_dd value ≡ true)
      ↔ ((y m d : ℕ) × IsDate y m d × (value ≡ format_date y m d))
unfolding is_valid_yyyy_mm_dd
is_valid_yyyy_mm_dd_iff value = (
  λ v.
      let shaped = valid_bytes-IsShaped (as_bytes value) v in
      let same = as_bytes_ascii value (IsShaped-ascii (as_bytes value) shaped) in
      let (y, m, d, date, e) = shaped-IsDate (as_bytes value) shaped v in
      (y, m, d, date, sym same ∙ e),
  λ (y, m, d, date, e).
      ap valid_bytes
        (ap as_bytes e ∙ ascii-as_bytes (format_date y m d) (format_date-ascii y m d date))
      ∙ format_date_valid y m d date,
)
