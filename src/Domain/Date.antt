-- ===== src/Domain/Date.antt =====
-- The date test of crates/mh-domain/src/lib.rs.
pub mod Calendar
use magazine_core.Base.{
  ℕ, zero, suc, ◌+◌, ◌*◌, ◌-◌, ◌%◌, ◌^◌, Bool, true, false, not, ◌&&◌, ◌||◌, List, [], ◌∷◌, Option,
  none, some, ltb, leb, ◌==◌, in_range, if◌then◌else◌, length, take, drop, get_or,
}
use magazine_core.Text.{Text, is_ascii_digit}
use magazine_core.Text.Utf8.{as_bytes}
use magazine_core.Text.Number.{parse_uint}

unfoldable pub is_leap_year : ℕ → Bool
is_leap_year year = (year % 4 == 0 && not (year % 100 == 0)) || year % 400 == 0

unfoldable pub days_in_month : ℕ → ℕ → ℕ
unfolding is_leap_year
days_in_month year month =
    if month == 1
      || month == 3
      || month == 5
      || month == 7
      || month == 8
      || month == 10
      || month == 12
    then 31
    else if month == 4 || month == 6 || month == 9 || month == 11
    then 30
    else if month == 2
    then if is_leap_year year then 29 else 28
    else 0

-- The separators stand in places 4 and 7; the other places hold digits.
digits_at : ℕ → List ℕ → Bool
digits_at i [] = true
digits_at i (b ∷ bs) = (i == 4 || i == 7 || is_ascii_digit b) && digits_at (i + 1) bs

-- The test of the three parsed parts.
in_calendar : Option ℕ → Option ℕ → Option ℕ → Bool
unfolding days_in_month
in_calendar (some year) (some month) (some day) =
    in_range 1 12 month && leb 1 day && leb day (days_in_month year month)
in_calendar _ _ _ = false

-- The tests on the bytes of the text.
valid_bytes : List ℕ → Bool
valid_bytes bytes =
    if not (length bytes == 10)
    then false
    else if not (get_or bytes 4 0 == b'-') || not (get_or bytes 7 0 == b'-')
    then false
    else if not (digits_at 0 bytes)
    then false
    else in_calendar (parse_uint (2 ^ 16) (take 4 bytes))
        (parse_uint (2 ^ 8) (take 2 (drop 5 bytes))) (parse_uint (2 ^ 8) (take 2 (drop 8 bytes)))

unfoldable pub is_valid_yyyy_mm_dd : Text → Bool
unfolding valid_bytes digits_at in_calendar
is_valid_yyyy_mm_dd value = valid_bytes (as_bytes value)
