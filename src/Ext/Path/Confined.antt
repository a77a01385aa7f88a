-- ===== src/Ext/Path/Confined.antt =====
-- An asset's path does not leave the directory that it is joined to.
use magazine_core.Base.{
  ◌≡◌, ◌||◌, if◌then◌else◌, sym, ◌∙◌, Bool, false, not, List, [], ◌∷◌, ◌++◌, append_assoc, subst,
  append-nil, any, is_empty, ok, arith, inl, inr, Bool-cases, Result-cases, List-cases,
}
use magazine_core.Text.{Text, codes, text_eq, starts_with}
use magazine_core.Text.Split.{split}
use magazine_core.Ext.Path.{
  Component, is_normal, is_unclean, is_unclean_char, components, later_components,
  percent_decode_once, validate_relative_path,
}

-- The directory above.
unfoldable pub parent : List Text → List Text
parent [] = []
parent (name ∷ []) = []
parent (name ∷ next ∷ names) = name ∷ parent (next ∷ names)

-- Where the parts of a path lead from a directory, as a file system walks them.
unfoldable pub resolve : List Text → List Text → List Text
resolve base [] = base
resolve base (part ∷ parts) =
    resolve
      (if is_empty part || text_eq part (codes ".")
        then base
        else if text_eq part (codes "..")
        then parent base
        else base ++ part ∷ [])
      parts

-- Where a path leads that is joined to a directory, as `Path::join` does it on Unix: an absolute
-- path starts at the root.
unfoldable pub resolve_joined : List Text → Text → List Text
resolve_joined base path =
    resolve (if starts_with (codes "/") path then [] else base) (split b'/' path)

-- The parts lead to a place below the directory.
pub record StaysBelow (base : List Text) (place : List Text) : Type 0 where
  pub names : List Text
  pub leads : place ≡ base ++ names

abbrev pub has_parent : List Component → Bool
has_parent list = any (λ component. not (is_normal component)) list

later-StaysBelow :
    (base parts : List Text)
    → has_parent (later_components parts) ≡ false
    → StaysBelow base (resolve base parts)
unfolding later_components resolve
later-StaysBelow base [] e = record { names = []; leads = sym (append-nil base) }
later-StaysBelow base (part ∷ parts) e =
    elim (Bool-cases (is_empty part || text_eq part (codes "."))) [
      | inl here ↦
          let rest = later-StaysBelow base parts (ground (arith, e, here)) in
          record { names = rest.names; leads = rw here rest.leads }
      | inr named ↦ elim (Bool-cases (text_eq part (codes ".."))) [
        | inl up ↦ absurd (ground (arith, e, named, up))
        | inr down ↦
            let rest =
              later-StaysBelow (base ++ part ∷ []) parts (ground (arith, e, named, down)) in
            record {
              names = part ∷ rest.names;
              leads = rw (named, down) (rest.leads ∙ append_assoc base (part ∷ []) rest.names);
            }
      ]
    ]

parts-StaysBelow :
    (base : List Text) (path : Text)
    → starts_with (codes "/") path ≡ false
    → has_parent (components path) ≡ false
    → StaysBelow base (resolve base (split b'/' path))
unfolding components
parts-StaysBelow base path relative e = elim (List-cases (split b'/' path)) [
  | inl none_left ↦
      rw none_left (record { names = []; leads = unfold resolve in sym (append-nil base) })
  | inr (part, parts, q) ↦ elim (Bool-cases (text_eq part (codes "."))) [
    | inl dot ↦ absurd (ground (arith, e, relative, q, dot))
    | inr other ↦
        rw q (later-StaysBelow base (part ∷ parts) (ground (arith, e, relative, q, other)))
  ]
]

components-StaysBelow :
    (base : List Text) (path : Text)
    → starts_with (codes "/") path ≡ false
    → has_parent (components path) ≡ false
    → StaysBelow base (resolve_joined base path)
unfolding resolve_joined
components-StaysBelow base path relative e = rw relative (parts-StaysBelow base path relative e)

-- An asset path as it is used: it is not empty, it has no backslash, percent sign, question mark,
-- number sign or null character, no part between its slashes is empty, and wherever it is joined to
-- it leads to a place below.
pub record IsConfined (path : Text) : Type 0 where
  pub filled : is_empty path ≡ false
  pub clean : any is_unclean_char path ≡ false
  pub parts_filled : any is_empty (split b'/' path) ≡ false
  pub below : (base : List Text) → StaysBelow base (resolve_joined base path)

-- A requested asset path that is accepted, with its escapes decoded once, is not empty, has no
-- backslash, percent sign, question mark, number sign or null character and no empty part, and
-- leads, joined to any directory, to a place below it.
pub validate_relative_path-IsConfined :
    (requested : Text) {path : Text} → validate_relative_path requested ≡ ok path → IsConfined path
unfolding validate_relative_path is_unclean
validate_relative_path-IsConfined requested {path} e =
    elim (Result-cases (percent_decode_once requested)) [
      | inr (m, d) ↦ absurd (ground (arith, e, d))
      | inl (decoded, d) ↦ elim (Bool-cases (is_unclean decoded)) [
        | inl bad ↦ absurd (ground (arith, e, d, bad))
        | inr good ↦ elim (Bool-cases (has_parent (components decoded))) [
          | inl up ↦ absurd (ground (arith, e, d, good, up))
          | inr down ↦
              let same : decoded ≡ path = ground (arith, e, d, good, down) in
              subst IsConfined same (record {
                filled = ground (arith, good);
                clean = ground (arith, good);
                parts_filled = ground (arith, good);
                below = λ base. components-StaysBelow base decoded (ground (arith, good)) down;
              })
        ]
      ]
    ]
