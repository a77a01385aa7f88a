-- ===== src/Db/Ingest/Posts.antt =====
-- What an update or an insertion does to the rows of the posts.
use magazine_core.Base.{
  ℕ, ◌+◌, ◌≡◌, ◌≢◌, ◌≤◌, refl, sym, ◌∙◌, ap, List, [], ◌∷◌, ◌++◌, Option, none, some, Option-cases,
  false, Bool-cases, arith, inl, inr, ◌&&◌, if◌then◌else◌,
}
use magazine_core.Text.{Text, text_eq}
use magazine_core.Text.Laws.{text_eq_iff}
use magazine_core.Db.Tables.{PostRow, Tables, find_post, has_key, has_id, update_posts}

-- The row that is found has the key it was looked for by.
pub find_post-key :
    (n u : Text) (rows : List PostRow) (row : PostRow)
    → find_post n u rows ≡ some row
    → (row.source_name ≡ n) × (row.source_url ≡ u)
unfolding find_post
find_post-key n u [] row e = absurd (ground (arith, e))
find_post-key n u (first ∷ rows) row e = elim (Bool-cases (has_key n u first)) [
  | inl h ↦ (
    ground (arith, e, h, text_eq_iff first.source_name n),
    ground (arith, e, h, text_eq_iff first.source_url u),
  )
  | inr h ↦ find_post-key n u rows row (ground (arith, e, h))
]

-- The ids of rows.
abbrev pub ids_of : List PostRow → List ℕ
ids_of [] = []
ids_of (row ∷ rows) = row.id ∷ ids_of rows

pub ids_of-update_posts :
    (id : ℕ) (change : PostRow → PostRow) (rows : List PostRow)
    → ((row : PostRow) → (change row).id ≡ row.id)
    → ids_of (update_posts id change rows) ≡ ids_of rows
unfolding update_posts
ids_of-update_posts id change [] c = refl
ids_of-update_posts id change (row ∷ rows) c =
    ground (arith, c row, ids_of-update_posts id change rows c)

pub ids_of-append :
    (rows : List PostRow) (row : PostRow) → ids_of (rows ++ row ∷ []) ≡ ids_of rows ++ row.id ∷ []
ids_of-append [] row = refl
ids_of-append (first ∷ rows) row = ap (λ l. first.id ∷ l) (ids_of-append rows row)

-- A change of the row with an id, where it keeps the key.
abbrev pub changed_at : ℕ → (PostRow → PostRow) → Option PostRow → Option PostRow
changed_at id change none = none
changed_at id change (some row) = some (if has_id id row then change row else row)

pub find_post-update_posts :
    (n u : Text) (id : ℕ) (change : PostRow → PostRow) (rows : List PostRow)
    → ((row : PostRow) → (change row).source_name ≡ row.source_name)
    → ((row : PostRow) → (change row).source_url ≡ row.source_url)
    → find_post n u (update_posts id change rows) ≡ changed_at id change (find_post n u rows)
unfolding find_post update_posts
find_post-update_posts n u id change [] a b = refl
find_post-update_posts n u id change (row ∷ rows) a b =
    ground (arith, a row, b row, find_post-update_posts n u id change rows a b)

-- A row behind the others is found where none of them is.
abbrev pub or_row : Text → Text → PostRow → Option PostRow → Option PostRow
or_row n u row (some found) = some found
or_row n u row none = if has_key n u row then some row else none

pub find_post-append :
    (n u : Text) (rows : List PostRow) (row : PostRow)
    → find_post n u (rows ++ row ∷ []) ≡ or_row n u row (find_post n u rows)
unfolding find_post
find_post-append n u [] row = refl
find_post-append n u (first ∷ rows) row = ground (arith, find_post-append n u rows row)

-- A row is found still: with its id, and with the time at which its post was first seen.
abbrev pub Survives : PostRow → Option PostRow → Type 0
Survives row found =
    (later : PostRow) × (found ≡ some later)
    × (later.id ≡ row.id)
    × (later.first_seen_at ≡ row.first_seen_at)

pub Survives-changed_at :
    (id : ℕ) (change : PostRow → PostRow) (row : PostRow)
    → ((row : PostRow) → (change row).id ≡ row.id)
    → ((row : PostRow) → (change row).first_seen_at ≡ row.first_seen_at)
    → Survives row (changed_at id change (some row))
Survives-changed_at id change row a b = elim (Bool-cases (has_id id row)) [
  | inl h ↦ (change row, ground (arith, h), a row, b row)
  | inr h ↦ (row, ground (arith, h), refl, refl)
]

-- No two keys share a row's id, and no id is above the largest that was given.
pub record Keyed (t : Tables) : Type 0 where
  pub one_row :
      (n u m v : Text) (row other : PostRow)
      → find_post n u t.posts ≡ some row
      → find_post m v t.posts ≡ some other
      → row.id ≡ other.id
      → row ≡ other
  pub given : (n u : Text) (row : PostRow) → find_post n u t.posts ≡ some row → row.id ≤ t.sequence

-- A key at which the row with the id does not stand.
pub find_post-other :
    {t : Tables} (keyed : Keyed t) (n u m v : Text) (row other : PostRow)
    → find_post n u t.posts ≡ some row
    → find_post m v t.posts ≡ some other
    → (text_eq m n && text_eq v u) ≡ false
    → other.id ≢ row.id
find_post-other {t} keyed n u m v row other e f differ = λ same.
    let q = keyed.one_row n u m v row other e f (sym same) in
    let k = find_post-key n u t.posts row e in
    let l = find_post-key m v t.posts other f in
    ground (
      arith,
      ap (λ (r : PostRow). r.source_name) q,
      ap (λ (r : PostRow). r.source_url) q,
      k,
      l,
      differ,
      text_eq_iff m n,
      text_eq_iff v u,
    )

-- The row that a changed row was.
record Was (id : ℕ) (change : PostRow → PostRow) (found : Option PostRow) (row : PostRow)
    : Type 0 where
  old : PostRow
  was : found ≡ some old
  now : (if has_id id old then change old else old) ≡ row
  same_id : old.id ≡ row.id

changed_at-Was :
    (id : ℕ) (change : PostRow → PostRow) (found : Option PostRow) (row : PostRow)
    → ((old : PostRow) → (change old).id ≡ old.id)
    → changed_at id change found ≡ some row
    → Was id change found row
changed_at-Was id change none row c e = absurd (ground (arith, e))
changed_at-Was id change (some old) row c e = record {
  old = old;
  was = refl;
  now = ground (arith, e);
  same_id = ground (arith, e, c old);
}

pub updated-Keyed :
    (t : Tables) (keyed : Keyed t) (id : ℕ) (change : PostRow → PostRow) {after : Tables}
    → ((row : PostRow) → (change row).source_name ≡ row.source_name)
    → ((row : PostRow) → (change row).source_url ≡ row.source_url)
    → ((row : PostRow) → (change row).id ≡ row.id)
    → after.posts ≡ update_posts id change t.posts
    → after.sequence ≡ t.sequence
    → Keyed after
updated-Keyed t keyed id change {after} a b c e s =
    let before = λ (n u : Text) (row : PostRow) (p : find_post n u after.posts ≡ some row).
      changed_at-Was id change (find_post n u t.posts) row c
        (sym (ap (find_post n u) e ∙ find_post-update_posts n u id change t.posts a b) ∙ p) in
    record {
      one_row = λ n u m v row other p q same.
          let w = before n u row p in
          let x = before m v other q in
          let y =
            keyed.one_row n u m v w.old x.old w.was x.was
              (ground (arith, w.same_id, x.same_id, same)) in
          sym w.now ∙ ap (λ (old : PostRow). if has_id id old then change old else old) y ∙ x.now;
      given = λ n u row p.
          let w = before n u row p in ground (arith, s, w.same_id, keyed.given n u w.old w.was);
    }

pub inserted-Keyed :
    (t : Tables) (keyed : Keyed t) (row : PostRow) {after : Tables}
    → row.id ≡ t.sequence + 1
    → after.posts ≡ t.posts ++ row ∷ []
    → after.sequence ≡ t.sequence + 1
    → Keyed after
inserted-Keyed t keyed new {after} i e s =
    let found = λ (n u : Text). ap (find_post n u) e ∙ find_post-append n u t.posts new in
    record {
      one_row = λ n u m v row other p q same. elim (Option-cases (find_post n u t.posts)) [
        | inl a ↦ elim (Option-cases (find_post m v t.posts)) [
          | inl b ↦ ground (arith, found n u, found m v, p, q, a, b)
          | inr (r, b) ↦
              absurd
                (ground (arith, found n u, found m v, p, q, a, b, same, i, keyed.given m v r b))
        ]
        | inr (o, a) ↦ elim (Option-cases (find_post m v t.posts)) [
          | inl b ↦
              absurd
                (ground (arith, found n u, found m v, p, q, a, b, same, i, keyed.given n u o a))
          | inr (r, b) ↦
              ground (arith, found n u, found m v, p, q, a, b, same, keyed.one_row n u m v o r a b)
        ]
      ];
      given = λ n u row p. elim (Option-cases (find_post n u t.posts)) [
        | inl a ↦ ground (arith, found n u, p, a, i, s)
        | inr (o, a) ↦ ground (arith, found n u, p, a, s, keyed.given n u o a)
      ];
    }
