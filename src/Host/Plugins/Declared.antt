-- ===== src/Host/Plugins/Declared.antt =====
-- When the environment declarations of a manifest have no error.
use magazine_core.Base.{◌≡◌, ◌≢◌, ◌↔◌, true, List, [], ◌∷◌, map, All, Any, any_iff, arith}
use magazine_core.Text.{Text, text_eq, to_ascii_uppercase}
use magazine_core.Text.Laws.{text_eq_iff}
use magazine_core.Host.Plugins.{
  valid_environment_name, member_of, environment_errors_from, Environment, names,
  environment_declaration_errors,
}

-- Member of a list.
abbrev pub IsIn : Text → List Text → Type 0
IsIn k = Any (λ name. k ≡ name)

-- No two members are the same.
abbrev pub AreDistinct : List Text → Type 0
AreDistinct [] = Unit
AreDistinct (k ∷ ks) = All (λ other. other ≢ k) ks × AreDistinct ks

pub member_of-IsIn : (k : Text) (ks : List Text) → (member_of k ks ≡ true) ↔ IsIn k ks
member_of-IsIn k = any_iff (text_eq k) (text_eq_iff k)

-- What the loop accepts behind the names that it has seen.
abbrev AreFresh : List Text → List Text → List Text → Type 0
AreFresh literal_names seen [] = Unit
AreFresh literal_names seen (key ∷ keys) =
    (valid_environment_name key ≡ true)
    × ¬ IsIn (to_ascii_uppercase key) seen
    × ¬ IsIn (to_ascii_uppercase key) literal_names
    × AreFresh literal_names (to_ascii_uppercase key ∷ seen) keys

errors_from-AreFresh :
    (literal_names seen keys : List Text)
    → (environment_errors_from literal_names seen keys ≡ []) ↔ AreFresh literal_names seen keys
unfolding environment_errors_from
errors_from-AreFresh literal_names seen [] = ground arith
errors_from-AreFresh literal_names seen (key ∷ keys) = ground (
  arith,
  member_of-IsIn (to_ascii_uppercase key) seen,
  member_of-IsIn (to_ascii_uppercase key) literal_names,
  errors_from-AreFresh literal_names (to_ascii_uppercase key ∷ seen) keys,
)

-- A manifest may hand on the variables `inherited`: each is a valid name, no two are the same in
-- upper case, and none is set by the manifest itself.
pub record AreInheritable (literal : Environment) (inherited : List Text) : Type 0 where
  pub valid : All (λ key. valid_environment_name key ≡ true) inherited
  pub distinct : AreDistinct (map to_ascii_uppercase inherited)
  pub unset :
      All
        (λ key. ¬ IsIn (to_ascii_uppercase key) (map to_ascii_uppercase (names literal)))
        inherited

-- None of the keys has been seen.
abbrev AreUnseen : List Text → List Text → Type 0
AreUnseen seen keys = All (λ key. ¬ IsIn key seen) (map to_ascii_uppercase keys)

pub unseen_more :
    (k : Text) (seen ks : List Text)
    → All (λ key. ¬ IsIn key (k ∷ seen)) ks
      ↔ (All (λ key. key ≢ k) ks × All (λ key. ¬ IsIn key seen) ks)
unseen_more k seen [] = ground arith
unseen_more k seen (x ∷ ks) = ground (arith, unseen_more k seen ks)

AreFresh-split :
    (literal_names seen keys : List Text)
    → AreFresh literal_names seen keys ↔ (
        All (λ key. valid_environment_name key ≡ true) keys
        × AreDistinct (map to_ascii_uppercase keys)
        × All (λ key. ¬ IsIn (to_ascii_uppercase key) literal_names) keys
        × AreUnseen seen keys)
AreFresh-split literal_names seen [] = ground arith
AreFresh-split literal_names seen (key ∷ keys) = ground (
  arith,
  unseen_more (to_ascii_uppercase key) seen (map to_ascii_uppercase keys),
  AreFresh-split literal_names (to_ascii_uppercase key ∷ seen) keys,
)

nothing_seen : (ks : List Text) → All (λ key. ¬ IsIn key []) ks
nothing_seen [] = tt
nothing_seen (k ∷ ks) = ((λ h. h), nothing_seen ks)

-- The declarations have no error exactly if the variables can be handed on.
pub environment_declaration_errors_iff :
    (literal : Environment) (inherited : List Text)
    → (environment_declaration_errors literal inherited ≡ []) ↔ AreInheritable literal inherited
unfolding environment_declaration_errors
environment_declaration_errors_iff literal inherited = ground (
  arith,
  errors_from-AreFresh (map to_ascii_uppercase (names literal)) [] inherited,
  AreFresh-split (map to_ascii_uppercase (names literal)) [] inherited,
  nothing_seen (map to_ascii_uppercase inherited),
)
