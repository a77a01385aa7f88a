-- ===== src/Text/Split.antt =====
-- The ways in which the program cuts a text into parts: `split`, `rsplit_once`, `split_whitespace`
-- and `lines` of Rust's `str`.
use magazine_core.Base.{
  ℕ, Bool, true, false, ◌&&◌, List, [], ◌∷◌, Option, none, some, ◌==◌, if◌then◌else◌,
}
use magazine_core.Text.{Text, is_whitespace}

-- One more character in front of the first part.
abbrev pub push_first : ℕ → List Text → List Text
push_first c [] = (c ∷ []) ∷ []
push_first c (part ∷ parts) = (c ∷ part) ∷ parts

-- `split` at a character: one part more than there are separators.
unfoldable pub split : ℕ → Text → List Text
split sep [] = [] ∷ []
split sep (c ∷ s) = let parts = split sep s in if c == sep then [] ∷ parts else push_first c parts

-- `rsplit_once` at a character: what stands before its last occurrence, and after it.
unfoldable pub rsplit_once : ℕ → Text → Option (Text × Text)
rsplit_once sep [] = none
rsplit_once sep (c ∷ s) = elim (rsplit_once sep s) [
  | none ↦ if c == sep then some ([], s) else none
  | some (a, b) ↦ some (c ∷ a, b)
]

abbrev ends_word : Text → Bool
ends_word [] = true
ends_word (c ∷ s) = is_whitespace c

unfoldable pub split_whitespace : Text → List Text
split_whitespace [] = []
split_whitespace (c ∷ s) =
    let words = split_whitespace s in
    if is_whitespace c then words else if ends_word s then (c ∷ []) ∷ words else push_first c words

abbrev starts_line : Text → Bool
starts_line [] = false
starts_line (c ∷ s) = c == b'\n'

-- `lines`: a line ends at a line feed, with the carriage return before it, or at the end of a text
-- that does not end in a line feed.
unfoldable pub lines : Text → List Text
lines [] = []
lines (c ∷ s) =
    let rest = lines s in
    if c == b'\n'
    then [] ∷ rest
    else if c == b'\r' && starts_line s
    then rest
    else push_first c rest
