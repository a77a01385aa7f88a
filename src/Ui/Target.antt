-- ===== src/Ui/Target.antt =====
-- The targets and queries of requests in crates/mh-cli/src/ui.rs.
pub mod RoundTrip
use magazine_core.Base.{
  ℕ, ◌+◌, ◌*◌, ◌-◌, ◌^◌, List, [], ◌∷◌, Option, none, some, Bool, ◌==◌, in_range, if◌then◌else◌,
}
use magazine_core.Text.{Text, codes, text_eq, split_once}
use magazine_core.Text.Split.{split}
use magazine_core.Text.Utf8.{as_bytes, from_utf8}
use magazine_core.Text.Number.{parse_uint}

-- What stands before a fragment.
abbrev first_part : List Text → Text → Text
first_part [] whole = whole
first_part (part ∷ parts) whole = part

abbrev without_query : Text → Option (Text × Text) → Text × Option Text
without_query target none = (target, none)
without_query target (some (path, query)) = (path, some query)

unfoldable pub split_target : Text → Text × Option Text
split_target target =
    let bare = first_part (split b'#' target) target in without_query bare (split_once b'?' bare)

unfoldable pub hex : ℕ → Option ℕ
hex byte =
    if in_range b'0' b'9' byte
    then some (byte - b'0')
    else if in_range b'a' b'f' byte
    then some (byte - b'a' + 10)
    else if in_range b'A' b'F' byte
    then some (byte - b'A' + 10)
    else none

abbrev push : ℕ → Option (List ℕ) → Option (List ℕ)
push byte none = none
push byte (some bytes) = some (byte ∷ bytes)

-- An escape with the two digits read, before the rest.
abbrev escaped : Option ℕ → Option ℕ → Option (List ℕ) → Option (List ℕ)
escaped none low rest = none
escaped (some high) none rest = none
escaped (some high) (some low) rest = push (high * 16 + low) rest

-- The loop of `percent_decode` over the bytes.
unfoldable pub decode_bytes : List ℕ → Option (List ℕ)
decode_bytes [] = some []
decode_bytes (a ∷ []) =
    if a == b'+' then some (32 ∷ []) else if a == b'%' then none else some (a ∷ [])
decode_bytes (a ∷ b ∷ []) =
    let rest = decode_bytes (b ∷ []) in
    if a == b'+' then push 32 rest else if a == b'%' then none else push a rest
decode_bytes (a ∷ b ∷ c ∷ s) =
    let rest = decode_bytes (b ∷ c ∷ s) in
    let after = decode_bytes s in
    if a == b'+'
    then push 32 rest
    else if a == b'%'
    then escaped (hex b) (hex c) after
    else push a rest

unfoldable pub percent_decode : Text → Option Text
percent_decode value = elim (decode_bytes (as_bytes value)) [
  | none ↦ none
  | some bytes ↦ from_utf8 bytes
]

-- One `name=value` of a query: its value where the name is the key.
unfoldable pub part_value : Text → Text → Option Text
part_value key part = elim (split_once b'=' part) [
  | none ↦ none
  | some (candidate, value) ↦ elim (percent_decode candidate) [
    | none ↦ none
    | some name ↦ if text_eq name key then percent_decode value else none
  ]
]

abbrev find_value : Text → List Text → Option Text
find_value key [] = none
find_value key (part ∷ parts) = elim (part_value key part) [
  | some value ↦ some value
  | none ↦ find_value key parts
]

unfoldable pub query_value : Option Text → Text → Option Text
query_value none key = none
query_value (some query) key = find_value key (split b'&' query)

unfoldable pub query_u32 : Option Text → Text → Option ℕ
query_u32 query key = elim (query_value query key) [
  | none ↦ none
  | some value ↦ parse_uint (2 ^ 32) value
]
