-- ===== src/Text.antt =====
-- Rust's text as the program uses it. A `String` is the list of its characters (Unicode scalar
-- values); its bytes are those of `Text/Utf8.antt`.
pub mod Utf8
pub mod Laws
pub mod Number
pub mod Split
pub mod Lossy
use Prim.Native.Char.{code}
use magazine_core.Base.{
  ℕ, ◌+◌, ◌-◌, String, Bool, true, false, ◌&&◌, ◌||◌, List, [], ◌∷◌, ◌++◌, map, Option, none, some,
  leb, ◌==◌, in_range, if◌then◌else◌, all, any, is_empty,
}
use mathlib.Core.List.{reverse}

abbrev pub Text : Type 0
Text = List ℕ

-- The characters of a literal. `String` has its own `[]` and `∷`.
abbrev pub codes : String → Text
codes String.[] = []
codes (String.◌∷◌ c s) = code c ∷ codes s

-- `==` on texts.
unfoldable pub text_eq : Text → Text → Bool
text_eq [] [] = true
text_eq [] (_ ∷ _) = false
text_eq (_ ∷ _) [] = false
text_eq (a ∷ s) (b ∷ t) = a == b && text_eq s t

-- `char::is_whitespace`: the Unicode property White_Space.
abbrev pub is_whitespace : ℕ → Bool
is_whitespace c =
    in_range 9 13 c
    || c == 32
    || c == 0x85
    || c == 0xa0
    || c == 0x1680
    || in_range 0x2000 0x200a c
    || c == 0x2028
    || c == 0x2029
    || c == 0x202f
    || c == 0x205f
    || c == 0x3000

abbrev pub is_ascii_digit : ℕ → Bool
is_ascii_digit = in_range b'0' b'9'

abbrev pub is_ascii_uppercase : ℕ → Bool
is_ascii_uppercase = in_range b'A' b'Z'

abbrev pub is_ascii_lowercase : ℕ → Bool
is_ascii_lowercase = in_range b'a' b'z'

abbrev pub is_ascii_alphabetic : ℕ → Bool
is_ascii_alphabetic c = is_ascii_uppercase c || is_ascii_lowercase c

abbrev pub is_ascii_alphanumeric : ℕ → Bool
is_ascii_alphanumeric c = is_ascii_alphabetic c || is_ascii_digit c

unfoldable pub to_lower_char : ℕ → ℕ
to_lower_char c = if is_ascii_uppercase c then c + 32 else c

-- `str::to_ascii_lowercase`.
abbrev pub to_ascii_lowercase : Text → Text
to_ascii_lowercase = map to_lower_char

unfoldable pub to_upper_char : ℕ → ℕ
to_upper_char c = if is_ascii_lowercase c then c - 32 else c

-- `str::to_ascii_uppercase`.
abbrev pub to_ascii_uppercase : Text → Text
to_ascii_uppercase = map to_upper_char

unfoldable pub eq_ignore_ascii_case : Text → Text → Bool
unfolding to_lower_char text_eq
eq_ignore_ascii_case s t = text_eq (to_ascii_lowercase s) (to_ascii_lowercase t)

-- The characters after the longest prefix that satisfies `p`.
unfoldable pub trim_start_by : (ℕ → Bool) → Text → Text
trim_start_by p [] = []
trim_start_by p (c ∷ s) = if p c then trim_start_by p s else c ∷ s

-- The text without its longest suffix that satisfies `p`.
unfoldable pub trim_end_by : (ℕ → Bool) → Text → Text
trim_end_by p [] = []
trim_end_by p (c ∷ s) = let rest = trim_end_by p s in if is_empty rest && p c then [] else c ∷ rest

-- `str::trim`.
unfoldable pub trim : Text → Text
unfolding trim_start_by trim_end_by
trim s = trim_end_by is_whitespace (trim_start_by is_whitespace s)

unfoldable pub starts_with : Text → Text → Bool
starts_with [] s = true
starts_with (_ ∷ _) [] = false
starts_with (a ∷ p) (b ∷ s) = a == b && starts_with p s

-- `s.ends_with(p)`.
unfoldable pub ends_with : Text → Text → Bool
unfolding text_eq
ends_with p [] = is_empty p
ends_with p (c ∷ s) = text_eq p (c ∷ s) || ends_with p s

-- `s.contains(p)` for a text.
unfoldable pub contains : Text → Text → Bool
unfolding starts_with
contains p [] = is_empty p
contains p (c ∷ s) = starts_with p (c ∷ s) || contains p s

-- `str::split_once` at a character: what stands before its first occurrence, and after it.
unfoldable pub split_once : ℕ → Text → Option (Text × Text)
split_once sep [] = none
split_once sep (c ∷ s) =
    let rest : Option (Text × Text) = elim (split_once sep s) [
      | none ↦ none
      | some (a, b) ↦ some (c ∷ a, b)
    ] in
    if c == sep then some ([], s) else rest
