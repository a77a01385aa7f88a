-- ===== src/Protocol/Canonical.antt =====
-- The canonical encoding of crates/mh-protocol/src/framing.rs: `sort` orders the members of every
-- object by key; writing the JSON text is the library's.
use magazine_core.Base.{ℕ, Bool, true, false, List, [], ◌∷◌, if◌then◌else◌, ltb, ◌==◌, ◌&&◌, ◌||◌}
use magazine_core.Text.{Text}
use magazine_core.Text.Utf8.{as_bytes}
use magazine_core.Json.{
  Value, Items, Fields, null, bool, number, other_number, string, array, object, nil, cons, end,
  field,
}

-- Bytewise order of keys, as `String::cmp` has it.
unfoldable pub bytes_lt : List ℕ → List ℕ → Bool
bytes_lt [] [] = false
bytes_lt [] (_ ∷ _) = true
bytes_lt (_ ∷ _) [] = false
bytes_lt (a ∷ s) (b ∷ t) = ltb a b || (a == b && bytes_lt s t)

abbrev pub key_lt : Text → Text → Bool
key_lt s t = bytes_lt (as_bytes s) (as_bytes t)

-- A member at its place among members in order; the keys of one object differ.
unfoldable pub place : Text → Value → Fields → Fields
place k v end = field k v end
place k v (field j w fs) =
    let rest = place k v fs in if key_lt j k then field j w rest else field k v (field j w fs)

-- `sort`: the members in order of their keys, each value sorted in turn.
unfoldable mutual
  pub sort : Value → Value
  sort (object fs) = object (sort_fields fs)
  sort (array xs) = array (sort_items xs)
  sort null = null
  sort (bool b) = bool b
  sort (number n) = number n
  sort (other_number n) = other_number n
  sort (string s) = string s

  pub sort_items : Items → Items
  sort_items nil = nil
  sort_items (cons x xs) = cons (sort x) (sort_items xs)

  pub sort_fields : Fields → Fields
  sort_fields end = end
  sort_fields (field k v fs) = place k (sort v) (sort_fields fs)

-- `canonical_json`, over the library's writer.
unfoldable pub canonical_json : (Value → Text) → Value → Text
canonical_json to_string value = to_string (sort value)
