-- ===== src/Text/Utf8.antt =====
-- UTF-8, as `str::as_bytes` and `String::from_utf8` of Rust's standard library have it.
pub mod RoundTrip
use magazine_core.Base.{
  ℕ, zero, suc, ◌+◌, ◌*◌, ◌/◌, ◌%◌, ◌-◌, Bool, ◌&&◌, ◌||◌, List, [], ◌∷◌, ◌++◌, Option, none, some,
  ltb, leb, in_range, if◌then◌else◌, length,
}

-- A Unicode scalar value: no surrogate.
abbrev pub is_scalar : ℕ → Bool
is_scalar c = ltb c 0xd800 || in_range 0xe000 0x10ffff c

unfoldable pub encode_char : ℕ → List ℕ
encode_char c =
    if ltb c 0x80
    then c ∷ []
    else if ltb c 0x800
    then (0xc0 + c / 64) ∷ (0x80 + c % 64) ∷ []
    else if ltb c 0x10000
    then (0xe0 + c / 4096) ∷ (0x80 + c / 64 % 64) ∷ (0x80 + c % 64) ∷ []
    else (0xf0 + c / 262144) ∷ (0x80 + c / 4096 % 64) ∷ (0x80 + c / 64 % 64) ∷ (0x80 + c % 64) ∷ []

-- `str::as_bytes`.
unfoldable pub as_bytes : List ℕ → List ℕ
unfolding encode_char
as_bytes [] = []
as_bytes (c ∷ s) = encode_char c ++ as_bytes s

-- A continuation byte.
abbrev pub is_tail : ℕ → Bool
is_tail = in_range 0x80 0xbf

abbrev two_bytes : ℕ → List ℕ → Option (ℕ × List ℕ)
two_bytes a [] = none
two_bytes a (b ∷ s) =
    if in_range 0xc2 0xdf a && is_tail b then some ((a - 0xc0) * 64 + (b - 0x80), s) else none

abbrev three_bytes : ℕ → List ℕ → Option (ℕ × List ℕ)
three_bytes a (b ∷ c ∷ s) =
    let v = (a - 0xe0) * 4096 + (b - 0x80) * 64 + (c - 0x80) in
    if is_tail b && is_tail c && leb 0x800 v && is_scalar v then some (v, s) else none
three_bytes a _ = none

abbrev four_bytes : ℕ → List ℕ → Option (ℕ × List ℕ)
four_bytes a (b ∷ c ∷ d ∷ s) =
    let v = (a - 0xf0) * 262144 + (b - 0x80) * 4096 + (c - 0x80) * 64 + (d - 0x80) in
    if is_tail b && is_tail c && is_tail d && leb 0x10000 v && leb v 0x10ffff
    then some (v, s)
    else none
four_bytes a _ = none

-- The first character of a byte sequence and the bytes after it; overlong forms, surrogates and
-- stray bytes are refused.
unfoldable pub decode_char : List ℕ → Option (ℕ × List ℕ)
decode_char [] = none
decode_char (a ∷ s) =
    if ltb a 0x80
    then some (a, s)
    else if ltb a 0xe0
    then two_bytes a s
    else if ltb a 0xf0
    then three_bytes a s
    else four_bytes a s

abbrev push_char : ℕ → Option (List ℕ) → Option (List ℕ)
push_char c none = none
push_char c (some s) = some (c ∷ s)

unfoldable pub decode_from : ℕ → List ℕ → Option (List ℕ)
decode_from fuel [] = some []
decode_from zero (a ∷ s) = none
decode_from (suc fuel) (a ∷ s) = elim (decode_char (a ∷ s)) [
  | none ↦ none
  | some (c, rest) ↦ push_char c (decode_from fuel rest)
]

-- `String::from_utf8`. Each character takes a byte at least, so as many rounds as bytes suffice.
unfoldable pub from_utf8 : List ℕ → Option (List ℕ)
unfolding decode_from decode_char
from_utf8 bytes = decode_from (length bytes) bytes
