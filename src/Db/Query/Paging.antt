-- ===== src/Db/Query/Paging.antt =====
-- Rows in the order of their ids, and the pages cut from them.
pub mod Walk
use magazine_core.Base.{
  ℕ, zero, suc, ◌+◌, ◌≡◌, ◌<◌, ◌≤◌, refl, sym, ◌∙◌, ap, subst, min, max, Bool, true, false, ◌&&◌,
  ◌==◌, List, [], ◌∷◌, ◌++◌, append-nil, Option, none, some, length, take, drop, ltb, All,
  if◌then◌else◌, Result, ok, err, arith, inl, inr, Bool-cases, Result-cases, length-take,
  length-append,
}
use magazine_core.Text.{Text}
use magazine_core.Json.{Fields}
use magazine_core.Db.Tables.{PostRow, Tables}
use magazine_core.Db.Ingest.{DbError}
use magazine_core.Db.Query.{order_by, place_by, where_holds}
use magazine_core.Db.Query.Views.{
  ViewPost, ViewPostsPage, asked_source, or_start, page_rows, view_row, view_rows, last_id,
  view_posts_page, view_max_limit,
}

-- Rows in the order of their ids, no two with one id.
abbrev pub Ascending : List PostRow → Type 0
Ascending [] = Unit
Ascending (row ∷ rows) = All (λ (later : PostRow). row.id < later.id) rows × Ascending rows

abbrev pub behind : ℕ → List PostRow → List PostRow
behind id = where_holds (λ row. ltb id row.id)

pub where_holds-All :
    (P : PostRow → Type 0) (p : PostRow → Bool) (rows : List PostRow)
    → All P rows
    → All P (where_holds p rows)
unfolding where_holds
where_holds-All P p [] h = tt
where_holds-All P p (row ∷ rows) (h, hs) = elim (Bool-cases (p row)) [
  | inl e ↦ rw e (h, where_holds-All P p rows hs)
  | inr e ↦ rw e (where_holds-All P p rows hs)
]

pub where_holds-Ascending :
    (p : PostRow → Bool) (rows : List PostRow) → Ascending rows → Ascending (where_holds p rows)
unfolding where_holds
where_holds-Ascending p [] h = tt
where_holds-Ascending p (row ∷ rows) (h, hs) = elim (Bool-cases (p row)) [
  | inl e ↦ rw e (where_holds-All _ p rows h, where_holds-Ascending p rows hs)
  | inr e ↦ rw e (where_holds-Ascending p rows hs)
]

pub order_by-Ascending :
    (rows : List PostRow) → Ascending rows → order_by (λ a b. ltb a.id b.id) rows ≡ rows
unfolding order_by place_by
order_by-Ascending [] h = refl
order_by-Ascending (row ∷ []) h = refl
order_by-Ascending (row ∷ next ∷ rows) h =
    ground (arith, h.0.0, order_by-Ascending (next ∷ rows) h.1)

pub where_holds-and :
    (p q : PostRow → Bool) (rows : List PostRow)
    → where_holds (λ row. p row && q row) rows ≡ where_holds p (where_holds q rows)
unfolding where_holds
where_holds-and p q [] = refl
where_holds-and p q (row ∷ rows) = ground (arith, where_holds-and p q rows)

-- A later start drops more.
pub behind-behind :
    (a b : ℕ) (rows : List PostRow) → a ≤ b → behind b (behind a rows) ≡ behind b rows
unfolding where_holds
behind-behind a b [] h = refl
behind-behind a b (row ∷ rows) h = ground (arith, h, behind-behind a b rows h)

pub behind_whole :
    (a : ℕ) (rows : List PostRow) → All (λ (row : PostRow). a < row.id) rows → behind a rows ≡ rows
unfolding where_holds
behind_whole a [] h = refl
behind_whole a (row ∷ rows) (h, hs) = ground (arith, h, behind_whole a rows hs)

pub behind-above :
    (a : ℕ) (rows : List PostRow) → All (λ (row : PostRow). a < row.id) (behind a rows)
unfolding where_holds
behind-above a [] = tt
behind-above a (row ∷ rows) = elim (Bool-cases (ltb a row.id)) [
  | inl e ↦ rw e (ground (arith, e), behind-above a rows)
  | inr e ↦ rw e (behind-above a rows)
]

-- The id of the last row.
abbrev pub last_row_id : ℕ → List PostRow → ℕ
last_row_id id [] = id
last_row_id id (row ∷ rows) = last_row_id row.id rows

pub last_row_id-above :
    (k a : ℕ) (rows : List PostRow)
    → All (λ (row : PostRow). a < row.id) rows
    → Ascending rows
    → a ≤ last_row_id a (take k rows)
last_row_id-above zero a rows h s = ground arith
last_row_id-above (suc k) a [] h s = ground arith
last_row_id-above (suc k) a (row ∷ rows) h s =
    ground (arith, h.0, last_row_id-above k row.id rows s.0 s.1)

-- Behind the last row of a page stand the rows that follow it.
pub behind-take :
    (k a : ℕ) (rows : List PostRow)
    → All (λ (row : PostRow). a < row.id) rows
    → Ascending rows
    → behind (last_row_id a (take k rows)) rows ≡ drop k rows
unfolding where_holds
behind-take zero a rows h s = behind_whole a rows h
behind-take (suc k) a [] h s = refl
behind-take (suc k) a (row ∷ rows) h s =
    ground (arith, last_row_id-above k row.id rows s.0 s.1, behind-take k row.id rows s.0 s.1)

pub drop-short : (k : ℕ) (rows : List PostRow) → length rows ≤ k → drop k rows ≡ []
drop-short zero [] h = refl
drop-short zero (row ∷ rows) h = absurd (ground (arith, h))
drop-short (suc k) [] h = refl
drop-short (suc k) (row ∷ rows) h = drop-short k rows (omega (arith, h))

pub take-drop : (k : ℕ) (rows : List PostRow) → take k rows ++ drop k rows ≡ rows
take-drop zero rows = refl
take-drop (suc k) [] = refl
take-drop (suc k) (row ∷ rows) = ap (λ (l : List PostRow). row ∷ l) (take-drop k rows)

pub length-drop : (k : ℕ) (rows : List PostRow) → length (drop k rows) + k ≡ max k (length rows)
length-drop zero rows = omega arith
length-drop (suc k) [] = omega arith
length-drop (suc k) (row ∷ rows) = omega (arith, length-drop k rows)

pub where_holds-length :
    (p : PostRow → Bool) (rows : List PostRow) → length (where_holds p rows) ≤ length rows
unfolding where_holds
where_holds-length p [] = omega arith
where_holds-length p (row ∷ rows) = ground (arith, where_holds-length p rows)
