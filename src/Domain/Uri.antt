-- ===== src/Domain/Uri.antt =====
-- The absolute-URI test of crates/mh-domain/src/lib.rs, and the description that it decides.
pub mod Decides
use magazine_core.Base.{
  ℕ, Bool, true, false, not, ◌&&◌, ◌||◌, ◌≡◌, ◌↔◌, List, [], ◌∷◌, ◌++◌, Option, none, some, ◌==◌,
  any, all, is_empty, if◌then◌else◌, arith,
}
use magazine_core.Text.{Text, split_once, is_ascii_alphabetic, is_ascii_alphanumeric, is_whitespace}

abbrev scheme_char : ℕ → Bool
scheme_char c = is_ascii_alphanumeric c || c == b'+' || c == b'-' || c == b'.'

abbrev reserved_char : ℕ → Bool
reserved_char c = c == b'/' || c == b'?' || c == b'#'

-- The tests behind the one for a colon: `scheme` stands before the first, `rest` behind it.
uri_parts : Text → Text → Text → Bool
uri_parts value [] rest = false
uri_parts value (first ∷ chars) rest =
    if not (is_ascii_alphabetic first)
    then false
    else if not (all scheme_char chars)
    then false
    else if any reserved_char (first ∷ chars)
    then false
    else not (is_empty rest) && not (any is_whitespace value)

unfoldable pub is_absolute_uri : Text → Bool
unfolding uri_parts
is_absolute_uri value = elim (split_once b':' value) [
  | none ↦ false
  | some (scheme, rest) ↦ uri_parts value scheme rest
]
