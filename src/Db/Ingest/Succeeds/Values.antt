-- ===== src/Db/Ingest/Succeeds/Values.antt =====
-- The statements that replace the values of a post succeed.
use magazine_core.Base.{
  ℕ, suc, ◌≡◌, ◌≤◌, refl, ◌∙◌, ap, List, [], ◌∷◌, ◌++◌, none, some, Bool, true, false, Bool-cases,
  arith, inl, inr, ok, any, ◌||◌,
}
use magazine_core.Text.{Text}
use magazine_core.Db.Tables.{
  PostRow, ChildRow, Tables, ChildTable, Statement, find_post, has_key, has_id, without_post,
  at_place, delete_children, insert_child,
}
use magazine_core.Db.Ingest.{
  Engine, Transaction, Action, execute, insert_children, replace_values, ◌>>=◌,
}
use magazine_core.Db.Ingest.Children.{Lawful, replaced}

-- An action that succeeds.
pub record Succeeds {A : Type 0} (action : Action A) (tx : Transaction) : Type 0 where
  pub value : A
  pub after : Transaction
  pub done : action tx ≡ ok (value, after)

pub then_Succeeds :
    {A B : Type 0} (first : Action A) (next : A → Action B) (tx : Transaction)
    (s : Succeeds first tx)
    → Succeeds (next s.value) s.after
    → Succeeds (first >>= next) tx
then_Succeeds first next tx s t = record {
  value = t.value;
  after = t.after;
  done = ground (arith, s.done, t.done);
}

pub has_found :
    (n u : Text) (rows : List PostRow) (row : PostRow)
    → find_post n u rows ≡ some row
    → any (has_id row.id) rows ≡ true
unfolding find_post
has_found n u [] row e = absurd (ground (arith, e))
has_found n u (first ∷ rows) row e = elim (Bool-cases (has_key n u first)) [
  | inl h ↦ ground (arith, e, h)
  | inr h ↦ ground (arith, has_found n u rows row (ground (arith, e, h)))
]

module _ {A : Type 0} where
  none_at_place :
      (id position : ℕ) (rows : List (ChildRow A))
      → any (at_place id position) (without_post id rows) ≡ false
  unfolding without_post
  none_at_place id position [] = refl
  none_at_place id position (row ∷ rows) = ground (arith, none_at_place id position rows)

  any-append :
      (p : ChildRow A → Bool) (rows others : List (ChildRow A))
      → any p (rows ++ others) ≡ (any p rows || any p others)
  any-append p [] others = refl
  any-append p (row ∷ rows) others = ground (arith, any-append p rows others)

module _ (engine : Engine) (unbroken : (n : ℕ) → engine.fault n ≡ none) where
  pub execute-Succeeds :
      {A : Type 0} (statement : Text → Statement A) (tx : Transaction) (a : A) (t : Tables)
      → statement (engine.now tx.executed) tx.tables ≡ ok (a, t)
      → execute engine statement tx ≡ ok (a, record { tables = t; executed = suc tx.executed })
  unfolding execute
  execute-Succeeds statement tx a t e = ground (arith, unbroken tx.executed, e)

  module _ {A : Type 0} (table : ChildTable A) (lawful : Lawful table) (id : ℕ) where
    insert_children-Succeeds :
        (position : ℕ) (values : List A) (tx : Transaction)
        → any (has_id id) tx.tables.posts ≡ true
        → ((p : ℕ) → position ≤ p → any (at_place id p) (table.rows tx.tables) ≡ false)
        → Succeeds (insert_children engine table id position values) tx
    unfolding insert_children insert_child
    insert_children-Succeeds position [] tx there free = record {
      value = tt;
      after = tx;
      done = refl;
    }
    insert_children-Succeeds position (value ∷ values) tx there free =
        let row : ChildRow A = record { source_post_id = id; position = position; value = value } in
        let t = table.with_rows (table.rows tx.tables ++ row ∷ []) tx.tables in
        let e =
          execute-Succeeds (λ now. insert_child table row) tx tt t
            (ground (arith, there, free position)) in
        let next : Transaction = record { tables = t; executed = suc tx.executed } in
        let rest =
          insert_children-Succeeds (suc position) values next
            (rw (lawful.posts_kept (table.rows tx.tables ++ row ∷ []) tx.tables) there)
            (λ p h.
              rw
                (
                  lawful.rows_with (table.rows tx.tables ++ row ∷ []) tx.tables,
                  any-append (at_place id p) (table.rows tx.tables) (row ∷ []),
                )
                (ground (arith, free p, h))) in
        then_Succeeds (execute engine (λ now. insert_child table row))
          (λ _. insert_children engine table id (suc position) values) tx
          (record { value = tt; after = next; done = e }) rest

    pub replace_values-Succeeds :
        (values : List A) (tx : Transaction)
        → any (has_id id) tx.tables.posts ≡ true
        → Succeeds (replace_values engine table id values) tx
    unfolding replace_values delete_children
    replace_values-Succeeds values tx there =
        let rows = without_post id (table.rows tx.tables) in
        let t = table.with_rows rows tx.tables in
        let next : Transaction = record { tables = t; executed = suc tx.executed } in
        let e = execute-Succeeds (λ now. delete_children table id) tx tt t refl in
        then_Succeeds (execute engine (λ now. delete_children table id))
          (λ _. insert_children engine table id 0 values) tx
          (record { value = tt; after = next; done = e })
          (insert_children-Succeeds 0 values next (rw (lawful.posts_kept rows tx.tables) there)
            (λ p h.
              rw (lawful.rows_with rows tx.tables) (none_at_place id p (table.rows tx.tables))))

    pub replaced_posts :
        (values : List A) (tx : Transaction) {after : Transaction}
        → replace_values engine table id values tx ≡ ok (tt, after)
        → after.tables.posts ≡ tx.tables.posts
    replaced_posts values tx e =
        ap (λ (t : Tables). t.posts) (replaced engine table lawful id values tx e)
        ∙ lawful.posts_kept _ tx.tables
