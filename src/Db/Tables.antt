-- ===== src/Db/Tables.antt =====
-- The tables of the migration in crates/mh-db/src/lib.rs, and the SQL statements that write them.
-- A statement runs whole or fails with SQLite's message. A key that a constraint forbids fails.
use magazine_core.Base.{
  ℕ, ◌+◌, ◌^◌, Bool, not, ◌&&◌, ◌==◌, List, [], ◌∷◌, ◌++◌, Option, none, some, any, leb, ltb,
  if◌then◌else◌, Result, ok, err,
}
use magazine_core.Text.{Text, codes, text_eq}

-- A row of `source_posts`.
pub record PostRow : Type 0 where
  pub id : ℕ
  pub source_name : Text
  pub source_url : Text
  pub title : Text
  pub brand_raw : Text
  pub issue_no : Option Text
  pub release_date : Option Text
  pub post_date : Option Text
  pub brand_normalized : Option Text
  pub normalizer_id : Option Text
  pub normalizer_version : Option Text
  pub content_fingerprint : Option Text
  pub extra_json : Text
  pub first_seen_at : Text
  pub last_seen_at : Text
  pub updated_at : Text

-- A row of the four other tables: one value of a post at its position.
pub record ChildRow (A : Type 0) : Type 0 where
  pub source_post_id : ℕ
  pub position : ℕ
  pub value : A

-- The columns of `source_post_external_links` behind the position.
pub record LinkColumns : Type 0 where
  pub url : Text
  pub provider : Option Text
  pub label : Option Text
  pub kind : Option Text
  pub external_id : Option Text
  pub metadata_json : Text

pub record Tables : Type 0 where
  pub posts : List PostRow
  pub performers : List (ChildRow Text)
  pub covers : List (ChildRow Text)
  pub pages : List (ChildRow Text)
  pub links : List (ChildRow LinkColumns)
  -- The largest id that `AUTOINCREMENT` has given.
  pub sequence : ℕ

abbrev pub no_rows : Tables
no_rows = record { posts = []; performers = []; covers = []; pages = []; links = []; sequence = 0 }

-- The table that a statement names.
pub record ChildTable (A : Type 0) : Type 0 where
  pub rows : Tables → List (ChildRow A)
  pub with_rows : List (ChildRow A) → Tables → Tables

abbrev pub source_post_performers : ChildTable Text
source_post_performers = record {
  rows = λ t. t.performers;
  with_rows = λ rows t. record t { performers = rows };
}

abbrev pub source_post_covers : ChildTable Text
source_post_covers = record {
  rows = λ t. t.covers;
  with_rows = λ rows t. record t { covers = rows };
}

abbrev pub source_post_pages : ChildTable Text
source_post_pages = record { rows = λ t. t.pages; with_rows = λ rows t. record t { pages = rows } }

abbrev pub source_post_external_links : ChildTable LinkColumns
source_post_external_links = record {
  rows = λ t. t.links;
  with_rows = λ rows t. record t { links = rows };
}

-- What a statement does with the tables.
abbrev pub Statement : Type 0 → Type 0
Statement A = Tables → Result Text (A × Tables)

abbrev pub has_key : Text → Text → PostRow → Bool
has_key source_name source_url row =
    text_eq row.source_name source_name && text_eq row.source_url source_url

-- The first row of a `SELECT` by the unique key.
unfoldable pub find_post : Text → Text → List PostRow → Option PostRow
find_post source_name source_url [] = none
find_post source_name source_url (row ∷ rows) =
    let later = find_post source_name source_url rows in
    if has_key source_name source_url row then some row else later

abbrev pub has_id : ℕ → PostRow → Bool
has_id id row = row.id == id

-- `UPDATE source_posts SET … WHERE id = ?`.
unfoldable pub update_posts : ℕ → (PostRow → PostRow) → List PostRow → List PostRow
update_posts id change [] = []
update_posts id change (row ∷ rows) =
    (if has_id id row then change row else row) ∷ update_posts id change rows

unfoldable pub update_post : ℕ → (PostRow → PostRow) → Statement (Unit {0})
update_post id change t = ok (tt, record t { posts = update_posts id change t.posts })

-- `INSERT INTO source_posts`, which gives the new row its id. The ids are i64.
unfoldable pub insert_post : PostRow → Statement ℕ
insert_post row t =
    let id = t.sequence + 1 in
    elim (find_post row.source_name row.source_url t.posts) [
      | some _ ↦ err (codes "UNIQUE constraint failed")
      | none ↦
          if leb (2 ^ 63) id
          then err (codes "database or disk is full")
          else ok (id, record t { posts = t.posts ++ record row { id = id } ∷ []; sequence = id })
    ]

module _ {A : Type 0} where
  abbrev pub of_post : ℕ → ChildRow A → Bool
  of_post id row = row.source_post_id == id

  -- The rows behind `DELETE … WHERE source_post_id = ?`.
  unfoldable pub without_post : ℕ → List (ChildRow A) → List (ChildRow A)
  without_post id [] = []
  without_post id (row ∷ rows) =
      let rest = without_post id rows in if of_post id row then rest else row ∷ rest

  unfoldable pub delete_children : ChildTable A → ℕ → Statement (Unit {0})
  delete_children table id t = ok (tt, table.with_rows (without_post id (table.rows t)) t)

  abbrev pub at_place : ℕ → ℕ → ChildRow A → Bool
  at_place id position row = row.source_post_id == id && row.position == position

  -- An `INSERT` into such a table, with its primary key and its foreign key.
  unfoldable pub insert_child : ChildTable A → ChildRow A → Statement (Unit {0})
  insert_child table row t =
      if any (at_place row.source_post_id row.position) (table.rows t)
      then err (codes "UNIQUE constraint failed")
      else if not (any (has_id row.source_post_id) t.posts)
      then err (codes "FOREIGN KEY constraint failed")
      else ok (tt, table.with_rows (table.rows t ++ row ∷ []) t)

  unfoldable pub rows_of_post : ℕ → List (ChildRow A) → List (ChildRow A)
  rows_of_post id [] = []
  rows_of_post id (row ∷ rows) =
      let rest = rows_of_post id rows in if of_post id row then row ∷ rest else rest

  unfoldable pub place_row : ChildRow A → List (ChildRow A) → List (ChildRow A)
  place_row row [] = row ∷ []
  place_row row (other ∷ rows) =
      let rest = place_row row rows in
      if ltb other.position row.position then other ∷ rest else row ∷ other ∷ rows

  -- `ORDER BY position`.
  unfoldable pub in_order : List (ChildRow A) → List (ChildRow A)
  in_order [] = []
  in_order (row ∷ rows) = place_row row (in_order rows)

  unfoldable pub column : List (ChildRow A) → List A
  column [] = []
  column (row ∷ rows) = row.value ∷ column rows

  -- `SELECT … WHERE source_post_id = ? ORDER BY position`.
  unfoldable pub children_of : ℕ → List (ChildRow A) → List A
  children_of id rows = column (in_order (rows_of_post id rows))
