-- ===== src/Text/Number.antt =====
-- `str::parse` for the unsigned integers: an optional plus sign, then digits, at least one, of a
-- value below `limit`.
use magazine_core.Base.{
  ℕ, ◌+◌, ◌*◌, ◌-◌, ◌<◌, ◌≡◌, ◌&&◌, [], ◌∷◌, Option, none, some, ltb, ◌==◌, if◌then◌else◌, arith,
}
use magazine_core.Text.{Text, is_ascii_digit}

unfoldable pub parse_digits : ℕ → ℕ → Text → Option ℕ
parse_digits limit acc [] = some acc
parse_digits limit acc (d ∷ ds) =
    let next = acc * 10 + (d - b'0') in
    let rest = parse_digits limit next ds in
    if is_ascii_digit d && ltb next limit then rest else none

abbrev parse_nonempty : ℕ → Text → Option ℕ
parse_nonempty limit [] = none
parse_nonempty limit (d ∷ ds) = parse_digits limit 0 (d ∷ ds)

unfoldable pub parse_uint : ℕ → Text → Option ℕ
unfolding parse_digits
parse_uint limit [] = none
parse_uint limit (c ∷ s) =
    if c == b'+' then parse_nonempty limit s else parse_digits limit 0 (c ∷ s)

parse_digits-lt :
    (limit acc : ℕ) (s : Text) (n : ℕ) → acc < limit → parse_digits limit acc s ≡ some n → n < limit
unfolding parse_digits
parse_digits-lt limit acc [] n h e = ground arith
parse_digits-lt limit acc (d ∷ ds) n h e =
    ground (arith, parse_digits-lt limit (acc * 10 + (d - b'0')) ds n)

-- A parsed number fits its type.
pub parse_uint-lt :
    (limit : ℕ) (s : Text) (n : ℕ) → 0 < limit → parse_uint limit s ≡ some n → n < limit
unfolding parse_uint parse_digits
parse_uint-lt limit [] n h e = cc
parse_uint-lt limit (c ∷ []) n h e = ground (arith, parse_digits-lt limit 0 (c ∷ []) n)
parse_uint-lt limit (c ∷ d ∷ s) n h e =
    ground (arith, parse_digits-lt limit 0 (d ∷ s) n, parse_digits-lt limit 0 (c ∷ d ∷ s) n)
