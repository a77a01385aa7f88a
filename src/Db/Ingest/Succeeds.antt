-- ===== src/Db/Ingest/Succeeds.antt =====
-- Where no statement fails of itself, a batch of valid records is ingested.
pub mod Values
use magazine_core.Base.{
  ℕ, suc, ◌+◌, ◌^◌, ◌≡◌, ◌<◌, ◌≤◌, refl, sym, ◌∙◌, ap, subst, List, [], ◌∷◌, ◌++◌, none, some,
  Option-cases, Bool, true, false, Bool-cases, arith, inl, inr, ok, length, any, ◌||◌, All,
}
use magazine_core.Text.{Text}
use magazine_core.Domain.Record.{SourceRecord, validate}
use magazine_core.Db.Tables.{
  PostRow, ChildRow, Tables, ChildTable, Statement, find_post, has_key, has_id, without_post,
  at_place, delete_children, insert_child, update_post, insert_post, source_post_performers,
  source_post_covers, source_post_pages, source_post_external_links,
}
use magazine_core.Db.Ingest.{
  Engine, Transaction, Action, execute, existing_post, write_post, insert_children, replace_values,
  ingest_one, ingest_all, ingest_records, ◌>>=◌, link_columns, ◌>>◌, pure, new_row,
}
use magazine_core.Db.Ingest.Posts.{Keyed}
use magazine_core.Db.Ingest.Children.{
  Lawful, performers-Lawful, covers-Lawful, pages-Lawful, links-Lawful, replaced,
}
use magazine_core.Db.Ingest.Written.{write_post-Written}
use magazine_core.Db.Ingest.Refines.{ingest_one-Keyed, ingest_one-sequence}
use magazine_core.Db.Ingest.Succeeds.Values.{
  Succeeds, then_Succeeds, has_found, execute-Succeeds, replace_values-Succeeds, replaced_posts,
}

module _ (engine : Engine) (unbroken : (n : ℕ) → engine.fault n ≡ none) where
  update_post-Succeeds :
      (post_id : ℕ) (change : Text → PostRow → PostRow) (tx : Transaction)
      → Succeeds (execute engine (λ now. update_post post_id (change now)) >> pure post_id) tx
  unfolding update_post
  update_post-Succeeds post_id change tx =
      let e =
        execute-Succeeds engine unbroken (λ now. update_post post_id (change now)) tx tt _ refl in
      then_Succeeds (execute engine (λ now. update_post post_id (change now))) (λ _. pure post_id)
        tx (record { value = tt; after = _; done = e })
        (record { value = post_id; after = _; done = refl })

  insert_post-Succeeds :
      (row : Text → PostRow) (tx : Transaction)
      → ((now : Text) → find_post (row now).source_name (row now).source_url tx.tables.posts ≡ none)
      → tx.tables.sequence + 1 < 2 ^ 63
      → Succeeds (execute engine (λ now. insert_post (row now))) tx
  unfolding insert_post
  insert_post-Succeeds row tx free room =
      let now = engine.now tx.executed in
      record {
        value = _;
        after = _;
        done =
            execute-Succeeds engine unbroken (λ now. insert_post (row now)) tx
              (tx.tables.sequence + 1)
              (record tx.tables {
                posts = tx.tables.posts ++ record (row now) { id = tx.tables.sequence + 1 } ∷ [];
                sequence = tx.tables.sequence + 1;
              })
              (ground (arith, free now, room));
      }

  write_post-Succeeds :
      (r : SourceRecord) (tx : Transaction)
      → tx.tables.sequence + 1 < 2 ^ 63
      → Succeeds (write_post engine r (find_post r.source_name r.source_url tx.tables.posts)) tx
  unfolding write_post new_row
  write_post-Succeeds r tx room =
      elim (Option-cases (find_post r.source_name r.source_url tx.tables.posts)) [
        | inr (post, f) ↦
            subst (λ o. Succeeds (write_post engine r o) tx) (sym f)
              (update_post-Succeeds post.id _ tx)
        | inl f ↦
            subst (λ o. Succeeds (write_post engine r o) tx) (sym f)
              (insert_post-Succeeds _ tx (λ now. f) room)
      ]

  ingest_one-Succeeds :
      (r : SourceRecord) (tx : Transaction)
      → Keyed tx.tables
      → tx.tables.sequence + 1 < 2 ^ 63
      → Succeeds (ingest_one engine r) tx
  unfolding ingest_one existing_post
  ingest_one-Succeeds r tx keyed room =
      let found = find_post r.source_name r.source_url tx.tables.posts in
      let tx₀ : Transaction = record { tables = tx.tables; executed = suc tx.executed } in
      let e₀ =
        execute-Succeeds engine unbroken
          (λ now t. ok (find_post r.source_name r.source_url t.posts, t)) tx found tx.tables refl in
      let s₁ = write_post-Succeeds r tx₀ room in
      let w = write_post-Written engine r tx₀ keyed s₁.done in
      let id = s₁.value in
      let there : any (has_id id) s₁.after.tables.posts ≡ true =
        subst (λ i. any (has_id i) s₁.after.tables.posts ≡ true) w.row_id
          (has_found r.source_name r.source_url s₁.after.tables.posts w.row w.there) in
      let s₂ =
        replace_values-Succeeds engine unbroken source_post_performers performers-Lawful id
          r.performers_raw s₁.after there in
      let there₂ : any (has_id id) s₂.after.tables.posts ≡ true =
        rw
          (replaced_posts engine unbroken source_post_performers performers-Lawful id
            r.performers_raw s₁.after s₂.done)
          there in
      let s₃ =
        replace_values-Succeeds engine unbroken source_post_covers covers-Lawful id r.cover_urls
          s₂.after there₂ in
      let there₃ : any (has_id id) s₃.after.tables.posts ≡ true =
        rw
          (replaced_posts engine unbroken source_post_covers covers-Lawful id r.cover_urls s₂.after
            s₃.done)
          there₂ in
      let s₄ =
        replace_values-Succeeds engine unbroken source_post_pages pages-Lawful id r.page_urls
          s₃.after there₃ in
      let there₄ : any (has_id id) s₄.after.tables.posts ≡ true =
        rw
          (replaced_posts engine unbroken source_post_pages pages-Lawful id r.page_urls s₃.after
            s₄.done)
          there₃ in
      let s₅ =
        replace_values-Succeeds engine unbroken source_post_external_links links-Lawful id
          (link_columns engine r.external_links) s₄.after there₄ in
      then_Succeeds (existing_post engine r) _ tx (record { value = found; after = tx₀; done = e₀ })
        (then_Succeeds (write_post engine r found) _ tx₀ s₁ (
          then_Succeeds (replace_values engine source_post_performers id r.performers_raw) _
            s₁.after s₂
            (then_Succeeds (replace_values engine source_post_covers id r.cover_urls) _ s₂.after s₃
              (then_Succeeds (replace_values engine source_post_pages id r.page_urls) _ s₃.after s₄
                s₅))))

  ingest_all-Succeeds :
      (records : List SourceRecord) (tx : Transaction)
      → Keyed tx.tables
      → All (λ r. validate r ≡ ok tt) records
      → tx.tables.sequence + length records < 2 ^ 63
      → Succeeds (ingest_all engine records) tx
  unfolding ingest_all
  ingest_all-Succeeds [] tx keyed valid room = record { value = tt; after = tx; done = refl }
  ingest_all-Succeeds (r ∷ records) tx keyed valid room =
      let s = ingest_one-Succeeds r tx keyed (ground (arith, room)) in
      let grown = ingest_one-sequence engine r tx keyed s.done in
      let rest =
        ingest_all-Succeeds records s.after (ingest_one-Keyed engine r tx keyed s.done) valid.1
          (ground (arith, room, grown)) in
      record { value = tt; after = rest.after; done = ground (arith, valid.0, s.done, rest.done) }

-- A batch of valid records is accepted by tables whose posts are told apart by their ids, where
-- no statement fails for a reason outside the tables and there are ids left: no constraint of the
-- tables can fail.
pub ingest_records-accepts :
    (engine : Engine) (records : List SourceRecord) (t : Tables)
    → ((n : ℕ) → engine.fault n ≡ none)
    → Keyed t
    → All (λ r. validate r ≡ ok tt) records
    → t.sequence + length records < 2 ^ 63
    → (ingest_records engine records t).0 ≡ ok (length records)
unfolding ingest_records
ingest_records-accepts engine records t unbroken keyed valid room =
    let s =
      ingest_all-Succeeds engine unbroken records (record { tables = t; executed = 1 }) keyed valid
        room in
    ground (arith, unbroken 0, s.done, unbroken s.after.executed)
