-- ===== src/Ui/Authority/Loopback.antt =====
-- Which authorities are those of the loopback address.
use magazine_core.Base.{
  ℕ, ◌^◌, ◌≡◌, ◌≢◌, ◌↔◌, ◌⊎◌, refl, ap, true, [], ◌∷◌, ◌++◌, none, some, All, Option-cases, inl,
  inr, arith, ◌∙◌,
}
use magazine_core.Text.{Text, codes, trim, to_ascii_lowercase, eq_ignore_ascii_case}
use magazine_core.Text.Laws.{text_eq_iff}
use magazine_core.Text.Split.{rsplit_once}
use magazine_core.Text.Number.{parse_uint}
use magazine_core.Ui.Authority.{is_loopback_name, authority_is, is_allowed_loopback_authority}

rsplit_once-none : (sep : ℕ) (s : Text) → rsplit_once sep s ≡ none → All (λ c. c ≢ sep) s
unfolding rsplit_once
rsplit_once-none sep [] e = tt
rsplit_once-none sep (c ∷ s) e = ground (arith, rsplit_once-none sep s)

rsplit_once-some :
    (sep : ℕ) (s a b : Text)
    → rsplit_once sep s ≡ some (a, b)
    → (s ≡ a ++ sep ∷ b) × All (λ c. c ≢ sep) b
unfolding rsplit_once
rsplit_once-some sep [] a b e = cc
rsplit_once-some sep (c ∷ s) a b e = elim (Option-cases (rsplit_once sep s)) [
  | inl absent ↦ ground (arith, absent, rsplit_once-none sep s absent)
  | inr ((a', b'), found) ↦ let (p, q) = rsplit_once-some sep s a' b' found in ground (arith, found)
]

rsplit_once_absent : (sep : ℕ) (s : Text) → All (λ c. c ≢ sep) s → rsplit_once sep s ≡ none
unfolding rsplit_once
rsplit_once_absent sep [] h = refl
rsplit_once_absent sep (c ∷ s) h = ground (arith, rsplit_once_absent sep s h.1)

rsplit_once_at :
    (sep : ℕ) (a b : Text) → All (λ c. c ≢ sep) b → rsplit_once sep (a ++ sep ∷ b) ≡ some (a, b)
unfolding rsplit_once
rsplit_once_at sep [] b h = ground (arith, rsplit_once_absent sep b h)
rsplit_once_at sep (c ∷ a) b h = ground (arith, rsplit_once_at sep a b h)

-- The loopback address by number or by name, in any case of letters.
abbrev pub IsLoopbackName : Text → Type 0
IsLoopbackName host =
    (to_ascii_lowercase host ≡ codes "127.0.0.1") ⊎ (to_ascii_lowercase host ≡ codes "localhost")

-- A loopback name with this port behind the last colon, or without a colon for port 80.
abbrev pub IsLoopback : Text → ℕ → Type 0
IsLoopback value port =
    (IsLoopbackName value × All (λ c. c ≢ b':') value × (port ≡ 80))
    ⊎ ((host port_text : Text) × (value ≡ host ++ b':' ∷ port_text)
        × All (λ c. c ≢ b':') port_text
        × IsLoopbackName host
        × (parse_uint (2 ^ 16) port_text ≡ some port))

is_loopback_name_iff : (host : Text) → (is_loopback_name host ≡ true) ↔ IsLoopbackName host
unfolding is_loopback_name eq_ignore_ascii_case
is_loopback_name_iff host = ground (
  arith,
  text_eq_iff (to_ascii_lowercase host) (codes "127.0.0.1"),
  text_eq_iff (to_ascii_lowercase host) (codes "localhost"),
)

authority-IsLoopback :
    (value : Text) (port : ℕ) → authority_is value port ≡ true → IsLoopback value port
unfolding authority_is
authority-IsLoopback value port e = elim (Option-cases (rsplit_once b':' value)) [
  | inl bare ↦ inl (
    (is_loopback_name_iff value).0 (ground (arith, bare)),
    rsplit_once-none b':' value bare,
    ground (arith, bare),
  )
  | inr ((host, port_text), found) ↦ elim (Option-cases (parse_uint (2 ^ 16) port_text)) [
    | inl bad ↦ absurd (ground (arith, found, bad))
    | inr (parsed, good) ↦
        let (cut, last) = rsplit_once-some b':' value host port_text found in
        let same : parsed ≡ port = ground (arith, found, good) in
        inr (
          host,
          port_text,
          cut,
          last,
          (is_loopback_name_iff host).0 (ground (arith, found, good)),
          good ∙ ap (λ (n : ℕ). some n) same,
        )
  ]
]

IsLoopback-authority :
    (value : Text) (port : ℕ) → IsLoopback value port → authority_is value port ≡ true
unfolding authority_is
IsLoopback-authority value port (inl (named, bare, default)) =
    ground (arith, rsplit_once_absent b':' value bare, (is_loopback_name_iff value).1 named)
IsLoopback-authority value port (inr (host, port_text, cut, last, named, parsed)) =
    rw cut
      (ground (arith, rsplit_once_at b':' host port_text last, (is_loopback_name_iff host).1 named))

-- An authority is accepted exactly if, without the whitespace around it, it is a loopback name with
-- the server's port behind the last colon, or without a colon where the port is 80.
pub is_allowed_loopback_authority_iff :
    (value : Text) (port : ℕ)
    → (is_allowed_loopback_authority value port ≡ true) ↔ IsLoopback (trim value) port
unfolding is_allowed_loopback_authority
is_allowed_loopback_authority_iff value port =
    (authority-IsLoopback (trim value) port, IsLoopback-authority (trim value) port)
