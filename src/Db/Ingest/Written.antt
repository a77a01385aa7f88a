-- ===== src/Db/Ingest/Written.antt =====
-- What the statement that updates or inserts the row of a record leaves.
use magazine_core.Base.{
  ℕ, ◌+◌, ◌≡◌, ◌≢◌, ◌≤◌, refl, sym, ◌∙◌, ap, [], ◌∷◌, ◌++◌, subst, none, some, Option-cases, false,
  not, arith, inl, inr, ◌⊎◌, ok, ◌&&◌,
}
use magazine_core.Text.{Text, text_eq}
use magazine_core.Text.Laws.{text_eq_iff}
use magazine_core.Domain.Record.{SourceRecord}
use magazine_core.Db.Tables.{PostRow, Tables, find_post, update_posts, update_post, insert_post}
use magazine_core.Db.Fingerprint.{content_fingerprint}
use magazine_core.Db.Ingest.{
  Engine, Transaction, execute, write_post, updated_row, new_row, or_else, ◌>>◌, known_release_date,
  same_text, pure,
}
use magazine_core.Db.Ingest.Actions.{between, executed}
use magazine_core.Db.Ingest.Posts.{
  Keyed, changed_at, or_row, Survives, Survives-changed_at, find_post-update_posts,
  find_post-append, find_post-other, updated-Keyed, inserted-Keyed, ids_of, ids_of-update_posts,
  ids_of-append,
}
use magazine_core.Db.Ingest.Stored.{columns_of, given_columns}

-- The post of a record is written: its row has the id, no other row that is found has it, and the
-- other keys and tables are as they were.
pub record Written (engine : Engine) (r : SourceRecord) (before after : Tables) (id : ℕ)
    : Type 0 where
  pub keyed : Keyed after
  pub row : PostRow
  pub there : find_post r.source_name r.source_url after.posts ≡ some row
  pub row_id : row.id ≡ id
  pub columns :
      columns_of row
      ≡ given_columns engine r
          (known_release_date (find_post r.source_name r.source_url before.posts))
  pub others :
      (n u : Text)
      → (text_eq n r.source_name && text_eq u r.source_url) ≡ false
      → find_post n u after.posts ≡ find_post n u before.posts
  pub survives :
      (n u : Text) (other : PostRow)
      → find_post n u before.posts ≡ some other
      → Survives other (find_post n u after.posts)
  pub apart :
      (n u : Text) (other : PostRow)
      → (text_eq n r.source_name && text_eq u r.source_url) ≡ false
      → find_post n u before.posts ≡ some other
      → other.id ≢ id
  pub performers : after.performers ≡ before.performers
  pub covers : after.covers ≡ before.covers
  pub pages : after.pages ≡ before.pages
  pub links : after.links ≡ before.links
  pub sequence : after.sequence ≤ before.sequence + 1
  pub ids :
      ((ids_of after.posts ≡ ids_of before.posts) × (after.sequence ≡ before.sequence))
      ⊎ ((ids_of after.posts ≡ ids_of before.posts ++ (before.sequence + 1) ∷ [])
          × (after.sequence ≡ before.sequence + 1))

update_post-posts :
    (engine : Engine) (post_id : ℕ) (change : Text → PostRow → PostRow) (tx : Transaction) {id : ℕ}
    {after : Transaction}
    → (execute engine (λ now. update_post post_id (change now)) >> pure post_id) tx ≡ ok (id, after)
    → (id ≡ post_id)
      × (after.tables ≡ record tx.tables {
        posts = update_posts post_id (change (engine.now tx.executed)) tx.tables.posts;
      })
unfolding update_post
update_post-posts engine post_id change tx e =
    let b = between (execute engine (λ now. update_post post_id (change now))) _ tx e in
    let x = executed engine (λ now. update_post post_id (change now)) tx b.first_ok in
    (ground (arith, b.next_ok), ground (arith, b.next_ok, x.done))

insert_post-posts :
    (engine : Engine) (row : Text → PostRow) (tx : Transaction) {id : ℕ} {after : Transaction}
    → execute engine (λ now. insert_post (row now)) tx ≡ ok (id, after)
    → (id ≡ tx.tables.sequence + 1)
      × (after.tables ≡ record tx.tables {
        posts =
            tx.tables.posts
            ++ record (row (engine.now tx.executed)) { id = tx.tables.sequence + 1 } ∷ [];
        sequence = tx.tables.sequence + 1;
      })
unfolding insert_post
insert_post-posts engine row tx e =
    let x = executed engine (λ now. insert_post (row now)) tx e in
    let now = engine.now tx.executed in
    elim (Option-cases (find_post (row now).source_name (row now).source_url tx.tables.posts)) [
      | inr (found, f) ↦ absurd (ground (arith, x.done, f))
      | inl f ↦ (ground (arith, x.done, f), ground (arith, x.done, f))
    ]

module _ (engine : Engine) (r : SourceRecord) (tx : Transaction) (keyed : Keyed tx.tables) where
  updated_Written :
      (post : PostRow) {id : ℕ} {after : Transaction}
      → find_post r.source_name r.source_url tx.tables.posts ≡ some post
      → write_post engine r (some post) tx ≡ ok (id, after)
      → Written engine r tx.tables after.tables id
  unfolding write_post updated_row
  updated_Written post {id} {after} e w =
      let date = or_else r.release_date post.release_date in
      let fingerprint = content_fingerprint engine.to_string r date in
      let changed = not (same_text post.content_fingerprint fingerprint) in
      let change = updated_row engine r date fingerprint changed in
      let now = engine.now tx.executed in
      let (i, t) = update_post-posts engine post.id change tx w in
      let found = λ (n u : Text).
        ap (λ (t : Tables). find_post n u t.posts) t
        ∙ find_post-update_posts n u post.id (change now) tx.tables.posts (λ row. refl)
            (λ row. refl) in
      record {
        keyed =
            updated-Keyed tx.tables keyed post.id (change now) (λ row. refl) (λ row. refl)
              (λ row. refl) (ap (λ (t : Tables). t.posts) t) (ap (λ (t : Tables). t.sequence) t);
        row = change now post;
        there = found r.source_name r.source_url ∙ rw e (ground arith);
        row_id = sym i;
        columns = rw e refl;
        others = λ n u differ. found n u ∙ elim (Option-cases (find_post n u tx.tables.posts)) [
          | inl f ↦ rw f refl
          | inr (other, f) ↦ rw f (
              ground
                (arith, find_post-other keyed r.source_name r.source_url n u post other e f differ))
        ];
        survives = λ n u other f.
            subst (Survives other) (sym (found n u ∙ ap (changed_at post.id (change now)) f))
              (Survives-changed_at post.id (change now) other (λ row. refl) (λ row. refl));
        apart = λ n u other differ f.
            ground (
              arith,
              i,
              find_post-other keyed r.source_name r.source_url n u post other e f differ,
            );
        performers = ap (λ (t : Tables). t.performers) t;
        covers = ap (λ (t : Tables). t.covers) t;
        pages = ap (λ (t : Tables). t.pages) t;
        links = ap (λ (t : Tables). t.links) t;
        sequence = ground (arith, ap (λ (t : Tables). t.sequence) t);
        ids = inl (
          ap (λ (t : Tables). ids_of t.posts) t
              ∙ ids_of-update_posts post.id (change now) tx.tables.posts (λ row. refl),
          ap (λ (t : Tables). t.sequence) t,
        );
      }

  inserted_Written :
      {id : ℕ} {after : Transaction}
      → find_post r.source_name r.source_url tx.tables.posts ≡ none
      → write_post engine r none tx ≡ ok (id, after)
      → Written engine r tx.tables after.tables id
  unfolding write_post new_row
  inserted_Written {id} {after} e w =
      let date = or_else r.release_date none in
      let fingerprint = content_fingerprint engine.to_string r date in
      let fresh = new_row engine r date fingerprint in
      let (i, t) = insert_post-posts engine fresh tx w in
      let row : PostRow = record (fresh (engine.now tx.executed)) { id = tx.tables.sequence + 1 } in
      let found = λ (n u : Text).
        ap (λ (t : Tables). find_post n u t.posts) t ∙ find_post-append n u tx.tables.posts row in
      record {
        keyed =
            inserted-Keyed tx.tables keyed row refl (ap (λ (t : Tables). t.posts) t)
              (ap (λ (t : Tables). t.sequence) t);
        row = row;
        there =
            found r.source_name r.source_url
            ∙ rw e (
                ground (
                  arith,
                  text_eq_iff r.source_name r.source_name,
                  text_eq_iff r.source_url r.source_url,
                ));
        row_id = sym i;
        columns = rw e refl;
        others = λ n u differ. found n u ∙ elim (Option-cases (find_post n u tx.tables.posts)) [
          | inl f ↦ rw f (
              ground (
                arith,
                differ,
                text_eq_iff n r.source_name,
                text_eq_iff r.source_name n,
                text_eq_iff u r.source_url,
                text_eq_iff r.source_url u,
              ))
          | inr (other, f) ↦ rw f refl
        ];
        survives = λ n u other f. (other, found n u ∙ ap (or_row n u row) f, refl, refl);
        apart = λ n u other differ f. ground (arith, i, keyed.given n u other f);
        performers = ap (λ (t : Tables). t.performers) t;
        covers = ap (λ (t : Tables). t.covers) t;
        pages = ap (λ (t : Tables). t.pages) t;
        links = ap (λ (t : Tables). t.links) t;
        sequence = ground (arith, ap (λ (t : Tables). t.sequence) t);
        ids = inr (
          ap (λ (t : Tables). ids_of t.posts) t ∙ ids_of-append tx.tables.posts row,
          ap (λ (t : Tables). t.sequence) t,
        );
      }

  pub write_post-Written :
      {id : ℕ} {after : Transaction}
      → write_post engine r (find_post r.source_name r.source_url tx.tables.posts) tx
        ≡ ok (id, after)
      → Written engine r tx.tables after.tables id
  write_post-Written {id} {after} e =
      elim (Option-cases (find_post r.source_name r.source_url tx.tables.posts)) [
        | inl f ↦ inserted_Written f (subst (λ o. write_post engine r o tx ≡ ok (id, after)) f e)
        | inr (post, f) ↦
            updated_Written post f (subst (λ o. write_post engine r o tx ≡ ok (id, after)) f e)
      ]
