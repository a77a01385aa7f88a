-- ===== src/Json.antt =====
-- JSON values as the program handles them: the variants of `serde_json::Value` that it matches on,
-- and the accessors that it calls. An object keeps its members in order of insertion (the workspace
-- asks for `preserve_order`), and no two have one key. Reading and writing JSON text is left to the
-- library, and is a parameter where it is used.
use magazine_core.Base.{ℕ, Bool, true, false, List, [], ◌∷◌, Option, none, some, if◌then◌else◌}
use magazine_core.Text.{Text, text_eq}

mutual
  pub data Value : Type 0 where
    null : Value
    bool : Bool → Value
    -- A number that fits a u64, and any other.
    number : ℕ → Value
    other_number : ℕ → Value
    string : Text → Value
    array : Items → Value
    object : Fields → Value

  pub data Items : Type 0 where
    nil : Items
    cons : Value → Items → Items

  pub data Fields : Type 0 where
    end : Fields
    field : Text → Value → Fields → Fields

abbrev pub members : Items → List Value
members nil = []
members (cons v vs) = v ∷ members vs

unfoldable pub get_field : Text → Fields → Option Value
get_field k end = none
get_field k (field j v fs) = if text_eq k j then some v else get_field k fs

-- `Value::get` with a text.
abbrev pub get : Text → Value → Option Value
get k (object fs) = get_field k fs
get k _ = none

-- `Value::as_str`.
abbrev pub as_str : Value → Option Text
as_str (string s) = some s
as_str _ = none

-- `Value::as_u64`.
abbrev pub as_u64 : Value → Option ℕ
as_u64 (number n) = some n
as_u64 _ = none

-- `Value::as_array`.
abbrev pub as_array : Value → Option (List Value)
as_array (array xs) = some (members xs)
as_array _ = none

-- `value.get(key).and_then(Value::as_str)`.
abbrev pub get_str : Text → Value → Option Text
get_str k v = elim (get k v) [ none ↦ none | some w ↦ as_str w ]

-- `value.get(key).and_then(Value::as_u64)`.
abbrev pub get_u64 : Text → Value → Option ℕ
get_u64 k v = elim (get k v) [ none ↦ none | some w ↦ as_u64 w ]

abbrev pub is_some {ℓ} : {A : Type ℓ} → Option A → Bool
is_some none = false
is_some (some _) = true
