-- ===== src/Text/Lossy.antt =====
-- `String::from_utf8_lossy`: each longest prefix of a character that is broken off, and each stray
-- byte, becomes one replacement character.
use magazine_core.Base.{
  ℕ, zero, suc, Bool, ◌&&◌, List, [], ◌∷◌, none, some, leb, ◌==◌, in_range, drop, length,
  if◌then◌else◌,
}
use magazine_core.Text.Utf8.{decode_char, is_tail}

-- The bytes that may follow a first byte of a character of three or four bytes.
abbrev second_of : ℕ → ℕ → Bool
second_of a b =
    if a == 0xe0
    then in_range 0xa0 0xbf b
    else if a == 0xed
    then in_range 0x80 0x9f b
    else if a == 0xf0
    then in_range 0x90 0xbf b
    else if a == 0xf4
    then in_range 0x80 0x8f b
    else is_tail b

abbrev broken_third : Bool → List ℕ → ℕ
broken_third is_long [] = 2
broken_third is_long (c ∷ s) = if is_long && is_tail c then 3 else 2

abbrev broken_second : ℕ → List ℕ → ℕ
broken_second a [] = 1
broken_second a (b ∷ s) = if second_of a b then broken_third (leb 0xf0 a) s else 1

-- How many bytes one replacement stands for, where no character can be read.
unfoldable pub broken : List ℕ → ℕ
broken [] = 0
broken (a ∷ s) = if in_range 0xe0 0xf4 a then broken_second a s else 1

unfoldable pub lossy_from : ℕ → List ℕ → List ℕ
lossy_from zero bytes = []
lossy_from (suc fuel) [] = []
lossy_from (suc fuel) (a ∷ s) = elim (decode_char (a ∷ s)) [
  | some (c, rest) ↦ c ∷ lossy_from fuel rest
  | none ↦ 0xfffd ∷ lossy_from fuel (drop (broken (a ∷ s)) (a ∷ s))
]

-- Each round takes a byte at least.
unfoldable pub from_utf8_lossy : List ℕ → List ℕ
from_utf8_lossy bytes = lossy_from (length bytes) bytes
