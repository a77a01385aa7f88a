-- ===== src/Db/Ingest/Children.antt =====
-- What the replacement of a post's values leaves in their table.
use magazine_core.Base.{
  ℕ, suc, ◌≡◌, ◌≢◌, refl, ap, ◌∙◌, List, [], ◌∷◌, ◌++◌, append-nil, append_assoc, arith, ok,
}
use magazine_core.Db.Tables.{
  ChildRow, Tables, ChildTable, source_post_performers, source_post_covers, source_post_pages,
  source_post_external_links, without_post, delete_children, insert_child, rows_of_post, place_row,
  in_order, column, children_of,
}
use magazine_core.Db.Ingest.Actions.{between, executed}
use magazine_core.Db.Ingest.{Engine, Transaction, execute, insert_children, replace_values}

-- The rows of a post's values, from a position on.
unfoldable pub placed : {A : Type 0} → ℕ → ℕ → List A → List (ChildRow A)
placed id position [] = []
placed id position (value ∷ values) =
    record { source_post_id = id; position = position; value = value }
    ∷ placed id (suc position) values

module _ {A : Type 0} where
  rows_of_post-append :
      (id : ℕ) (rows others : List (ChildRow A))
      → rows_of_post id (rows ++ others) ≡ rows_of_post id rows ++ rows_of_post id others
  unfolding rows_of_post
  rows_of_post-append id [] others = refl
  rows_of_post-append id (row ∷ rows) others = ground (arith, rows_of_post-append id rows others)

  rows_of_post-without :
      (id : ℕ) (rows : List (ChildRow A)) → rows_of_post id (without_post id rows) ≡ []
  unfolding rows_of_post without_post
  rows_of_post-without id [] = refl
  rows_of_post-without id (row ∷ rows) = ground (arith, rows_of_post-without id rows)

  rows_of_post-without_other :
      (id other : ℕ) (rows : List (ChildRow A))
      → other ≢ id
      → rows_of_post other (without_post id rows) ≡ rows_of_post other rows
  unfolding rows_of_post without_post
  rows_of_post-without_other id other [] n = refl
  rows_of_post-without_other id other (row ∷ rows) n =
      ground (arith, rows_of_post-without_other id other rows n)

  rows_of_post-placed :
      (id position : ℕ) (values : List A)
      → rows_of_post id (placed id position values) ≡ placed id position values
  unfolding rows_of_post placed
  rows_of_post-placed id position [] = refl
  rows_of_post-placed id position (value ∷ values) =
      ground (arith, rows_of_post-placed id (suc position) values)

  rows_of_post-placed_other :
      (id other position : ℕ) (values : List A)
      → other ≢ id
      → rows_of_post other (placed id position values) ≡ []
  unfolding rows_of_post placed
  rows_of_post-placed_other id other position [] n = refl
  rows_of_post-placed_other id other position (value ∷ values) n =
      ground (arith, rows_of_post-placed_other id other (suc position) values n)

  in_order-placed :
      (id position : ℕ) (values : List A)
      → in_order (placed id position values) ≡ placed id position values
  unfolding in_order place_row placed
  in_order-placed id position [] = refl
  in_order-placed id position (value ∷ []) = refl
  in_order-placed id position (value ∷ next ∷ values) =
      ground (arith, in_order-placed id (suc position) (next ∷ values))

  column-placed : (id position : ℕ) (values : List A) → column (placed id position values) ≡ values
  unfolding column placed
  column-placed id position [] = refl
  column-placed id position (value ∷ values) =
      ap (λ l. value ∷ l) (column-placed id (suc position) values)

  -- A post has the values that replaced its own, in their order.
  pub children_of-replaced :
      (id : ℕ) (rows : List (ChildRow A)) (values : List A)
      → children_of id (without_post id rows ++ placed id 0 values) ≡ values
  unfolding children_of
  children_of-replaced id rows values =
      simp
        (
          rows_of_post-append, rows_of_post-without, rows_of_post-placed, in_order-placed,
          column-placed,
        )
        refl

  -- Other posts keep theirs.
  pub children_of-kept :
      (id other : ℕ) (rows : List (ChildRow A)) (values : List A)
      → other ≢ id
      → children_of other (without_post id rows ++ placed id 0 values) ≡ children_of other rows
  unfolding children_of
  children_of-kept id other rows values n =
      rw
        (
          rows_of_post-append other (without_post id rows) (placed id 0 values),
          rows_of_post-without_other id other rows n,
          rows_of_post-placed_other id other 0 values n,
          append-nil (rows_of_post other rows),
        )
        refl

-- A table stands apart from all else in the tables.
pub record Lawful {A : Type 0} (table : ChildTable A) : Type 0 where
  pub rows_with :
      (rows : List (ChildRow A)) (t : Tables) → table.rows (table.with_rows rows t) ≡ rows
  pub with_with :
      (rows others : List (ChildRow A)) (t : Tables)
      → table.with_rows rows (table.with_rows others t) ≡ table.with_rows rows t
  pub with_same : (t : Tables) → table.with_rows (table.rows t) t ≡ t
  pub posts_kept :
      (rows : List (ChildRow A)) (t : Tables) → (table.with_rows rows t).posts ≡ t.posts

pub performers-Lawful : Lawful source_post_performers
performers-Lawful = record {
  rows_with = λ r t. refl;
  with_with = λ r o t. refl;
  with_same = λ t. refl;
  posts_kept = λ r t. refl;
}

pub covers-Lawful : Lawful source_post_covers
covers-Lawful = record {
  rows_with = λ r t. refl;
  with_with = λ r o t. refl;
  with_same = λ t. refl;
  posts_kept = λ r t. refl;
}

pub pages-Lawful : Lawful source_post_pages
pages-Lawful = record {
  rows_with = λ r t. refl;
  with_with = λ r o t. refl;
  with_same = λ t. refl;
  posts_kept = λ r t. refl;
}

pub links-Lawful : Lawful source_post_external_links
links-Lawful = record {
  rows_with = λ r t. refl;
  with_with = λ r o t. refl;
  with_same = λ t. refl;
  posts_kept = λ r t. refl;
}

module _ (engine : Engine) {A : Type 0} (table : ChildTable A) (lawful : Lawful table)
    (id : ℕ) where
  insert_child-rows :
      (row : ChildRow A) (t : Tables) {after : Tables}
      → insert_child table row t ≡ ok (tt, after)
      → after ≡ table.with_rows (table.rows t ++ row ∷ []) t
  unfolding insert_child
  insert_child-rows row t e = ground (arith, e)

  inserted :
      (position : ℕ) (values : List A) (tx : Transaction) {after : Transaction}
      → insert_children engine table id position values tx ≡ ok (tt, after)
      → after.tables ≡ table.with_rows (table.rows tx.tables ++ placed id position values) tx.tables
  unfolding insert_children placed
  inserted position [] tx e =
      ground (arith, e, append-nil (table.rows tx.tables), lawful.with_same tx.tables)
  inserted position (value ∷ values) tx {after} e =
      let row : ChildRow A = record { source_post_id = id; position = position; value = value } in
      let b = between (execute engine (λ now. insert_child table row)) _ tx e in
      let x = executed engine (λ now. insert_child table row) tx b.first_ok in
      let ih = inserted (suc position) values b.middle b.next_ok in
      ih
      ∙ rw
          (
            insert_child-rows row tx.tables x.done,
            lawful.rows_with (table.rows tx.tables ++ row ∷ []) tx.tables,
            lawful.with_with ((table.rows tx.tables ++ row ∷ []) ++ placed id (suc position) values)
                (table.rows tx.tables ++ row ∷ []) tx.tables,
            append_assoc (table.rows tx.tables) (row ∷ []) (placed id (suc position) values),
          )
          refl

  -- The statements of `replace_values` that succeed leave the values as the post's rows.
  pub replaced :
      (values : List A) (tx : Transaction) {after : Transaction}
      → replace_values engine table id values tx ≡ ok (tt, after)
      → after.tables
        ≡ table.with_rows (without_post id (table.rows tx.tables) ++ placed id 0 values) tx.tables
  unfolding replace_values delete_children
  replaced values tx e =
      let b = between (execute engine (λ now. delete_children table id)) _ tx e in
      let x = executed engine (λ now. delete_children table id) tx b.first_ok in
      let rest = without_post id (table.rows tx.tables) in
      let t : b.middle.tables ≡ table.with_rows rest tx.tables = ground (arith, x.done) in
      inserted 0 values b.middle b.next_ok
      ∙ rw
          (
            t,
            lawful.rows_with rest tx.tables,
            lawful.with_with (rest ++ placed id 0 values) rest tx.tables,
          )
          refl
