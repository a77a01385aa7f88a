-- ===== src/Ext/Path.antt =====
-- The paths of asset files in crates/mh-cli/src/ui_ext/registry/path.rs. `components` is what the
-- standard library makes of a path on Unix.
pub mod Confined
use magazine_core.Base.{
  ℕ, zero, suc, ◌+◌, ◌*◌, ◌&&◌, ◌||◌, ◌==◌, not, Bool, true, false, String, List, [], ◌∷◌, ◌++◌,
  Option, none, some, any, is_empty, in_range, if◌then◌else◌, Result, ok, err, ok_or, guard, ◌>>=◌,
  ◌>>◌,
}
use magazine_core.Text.{Text, codes, text_eq, starts_with, ends_with, to_ascii_lowercase}
use magazine_core.Text.Split.{split, rsplit_once}
use magazine_core.Text.Utf8.{as_bytes, from_utf8}
use magazine_core.Ui.Target.{hex}

abbrev invalid_escape : Text
invalid_escape = codes "invalid percent escape in asset path"

abbrev push : ℕ → Result Text (List ℕ) → Result Text (List ℕ)
push byte (err e) = err e
push byte (ok bytes) = ok (byte ∷ bytes)

abbrev escape : Option ℕ → Option ℕ → Result Text (List ℕ) → Result Text (List ℕ)
escape none low rest = err invalid_escape
escape (some high) none rest = err invalid_escape
escape (some high) (some low) rest = push (high * 16 + low) rest

abbrev truncated : Text
truncated = codes "truncated percent escape in asset path"

-- The loop of `percent_decode_once`; its `hex` is that of the UI server.
unfoldable pub decode_once : List ℕ → Result Text (List ℕ)
decode_once [] = ok []
decode_once (a ∷ []) = if a == b'%' then err truncated else ok (a ∷ [])
decode_once (a ∷ b ∷ []) =
    let rest = decode_once (b ∷ []) in if a == b'%' then err truncated else push a rest
decode_once (a ∷ b ∷ c ∷ s) =
    let rest = decode_once (b ∷ c ∷ s) in
    let after = decode_once s in if a == b'%' then escape (hex b) (hex c) after else push a rest

unfoldable pub percent_decode_once : Text → Result Text Text
percent_decode_once value = do
  bytes ← decode_once (as_bytes value)
  ok_or (from_utf8 bytes) (codes "asset path is not UTF-8")

abbrev pub is_unclean_char : ℕ → Bool
is_unclean_char c = c == 0 || c == 92 || c == b'%' || c == b'?' || c == b'#'

unfoldable pub is_unclean : Text → Bool
is_unclean decoded =
    is_empty decoded
    || any is_unclean_char decoded
    || starts_with (codes "/") decoded
    || ends_with (codes "/") decoded
    || any is_empty (split b'/' decoded)

-- `Component`, without those of other systems.
pub data Component : Type 0 where
  root_dir cur_dir parent_dir : Component
  normal : Text → Component

-- `Path::components` behind the first part: a single dot is left out.
unfoldable pub later_components : List Text → List Component
later_components [] = []
later_components (part ∷ parts) =
    let rest = later_components parts in
    if is_empty part || text_eq part (codes ".")
    then rest
    else if text_eq part (codes "..")
    then parent_dir ∷ rest
    else normal part ∷ rest

unfoldable pub components : Text → List Component
components path = elim (split b'/' path) [
  | [] ↦ []
  | part ∷ parts ↦
      if starts_with (codes "/") path
      then root_dir ∷ later_components parts
      else if text_eq part (codes ".")
      then cur_dir ∷ later_components parts
      else later_components (part ∷ parts)
]

abbrev pub is_normal : Component → Bool
is_normal (normal _) = true
is_normal _ = false

-- `char::is_control`.
abbrev pub is_control : ℕ → Bool
is_control c = in_range 0 31 c || in_range 127 159 c

abbrev pub has_control : Component → Bool
has_control (normal name) = any is_control name
has_control _ = false

unfoldable pub validate_relative_path : Text → Result Text Text
validate_relative_path requested = do
  decoded ← percent_decode_once requested
  guard (not (is_unclean decoded)) (codes "extension asset must be a clean relative path")
  guard (not (any (λ component. not (is_normal component)) (components decoded)))
      (codes "extension asset contains a non-normal path component")
  guard (not (any has_control (components decoded)))
      (codes "extension asset contains a control character")
  ok decoded

-- The extension behind the last dot of a file's name, which does not start with it.
abbrev extension : Option (Text × Text) → Option Text
extension none = none
extension (some (stem, behind)) = if is_empty stem then none else some behind

unfoldable pub media_type : Text → Option String
media_type name =
    if text_eq name (codes "html")
    then some "text/html; charset=utf-8"
    else if text_eq name (codes "js") || text_eq name (codes "mjs")
    then some "text/javascript; charset=utf-8"
    else if text_eq name (codes "css")
    then some "text/css; charset=utf-8"
    else if text_eq name (codes "json")
    then some "application/json; charset=utf-8"
    else if text_eq name (codes "svg")
    then some "image/svg+xml"
    else if text_eq name (codes "png")
    then some "image/png"
    else if text_eq name (codes "jpg") || text_eq name (codes "jpeg")
    then some "image/jpeg"
    else if text_eq name (codes "gif")
    then some "image/gif"
    else if text_eq name (codes "webp")
    then some "image/webp"
    else if text_eq name (codes "woff")
    then some "font/woff"
    else if text_eq name (codes "woff2")
    then some "font/woff2"
    else none

abbrev last_name : List Component → Option Text
last_name [] = none
last_name (normal name ∷ []) = some name
last_name (root_dir ∷ []) = none
last_name (cur_dir ∷ []) = none
last_name (parent_dir ∷ []) = none
last_name (component ∷ next ∷ rest) = last_name (next ∷ rest)

unfoldable pub asset_content_type : Text → Option String
asset_content_type path = elim (last_name (components path)) [
  | none ↦ none
  | some name ↦ elim (extension (rsplit_once b'.' name)) [
    | none ↦ none
    | some behind ↦ media_type (to_ascii_lowercase behind)
  ]
]
