-- ===== src/Db/Ingest/Refines.antt =====
-- The transaction does to the tables what the promise says.
use mathlib.Core.Path.{fun_ext}
use magazine_core.Base.{
  ℕ, ◌+◌, ◌≡◌, ◌≢◌, ◌≤◌, refl, sym, ◌∙◌, ap, ◌++◌, subst, Option, none, some, Option-cases,
  Bool-cases, arith, inl, inr, ok, ◌&&◌,
}
use magazine_core.Text.{Text, text_eq}
use magazine_core.Text.Laws.{text_eq_iff}
use magazine_core.Domain.Record.{SourceRecord}
use magazine_core.Db.Tables.{
  PostRow, Tables, find_post, children_of, without_post, source_post_performers, source_post_covers,
  source_post_pages, source_post_external_links,
}
use magazine_core.Db.Ingest.{
  Engine, Transaction, existing_post, write_post, replace_values, link_columns, ingest_one,
  known_release_date,
}
use magazine_core.Db.Ingest.Actions.{between, executed}
use magazine_core.Db.Ingest.Written.{Written, write_post-Written}
use magazine_core.Db.Ingest.Posts.{Keyed, Survives}
use magazine_core.Db.Ingest.Children.{
  placed, children_of-replaced, children_of-kept, replaced, performers-Lawful, covers-Lawful,
  pages-Lawful, links-Lawful,
}
use magazine_core.Db.Ingest.Stored.{
  columns_of, given_columns, read_post, read_found, stored, put, known_date,
}

-- Only the ids and keys of the posts matter.
same_posts-Keyed :
    {t after : Tables} → Keyed t → after.posts ≡ t.posts → after.sequence ≡ t.sequence → Keyed after
same_posts-Keyed keyed e s = record {
  one_row = λ n u m v row other p q same.
      keyed.one_row n u m v row other (sym (ap (find_post n u) e) ∙ p)
        (sym (ap (find_post m v) e) ∙ q) same;
  given = λ n u row p. ground (arith, s, keyed.given n u row (sym (ap (find_post n u) e) ∙ p));
}

-- What `ingest_one` leaves: the row of the record written, and its values replaced.
pub record Ingested (engine : Engine) (r : SourceRecord) (before after : Tables) : Type 0 where
  pub id : ℕ
  pub middle : Tables
  pub written : Written engine r before middle id
  pub posts : after.posts ≡ middle.posts
  pub sequence : after.sequence ≡ middle.sequence
  pub performers :
      after.performers ≡ without_post id before.performers ++ placed id 0 r.performers_raw
  pub covers : after.covers ≡ without_post id before.covers ++ placed id 0 r.cover_urls
  pub pages : after.pages ≡ without_post id before.pages ++ placed id 0 r.page_urls
  pub links :
      after.links
      ≡ without_post id before.links ++ placed id 0 (link_columns engine r.external_links)

known_date-read_found :
    (t : Tables) (found : Option PostRow)
    → known_date (read_found t found) ≡ known_release_date found
known_date-read_found t none = refl
known_date-read_found t (some row) = refl

module _ (engine : Engine) (r : SourceRecord) where
  pub ingest_one-Ingested :
      (tx : Transaction) {after : Transaction}
      → Keyed tx.tables
      → ingest_one engine r tx ≡ ok (tt, after)
      → Ingested engine r tx.tables after.tables
  unfolding ingest_one existing_post
  ingest_one-Ingested tx keyed e =
      let b₀ = between (existing_post engine r) _ tx e in
      let x =
        executed engine (λ now t. ok (find_post r.source_name r.source_url t.posts, t)) tx
          b₀.first_ok in
      let same : tx.tables ≡ b₀.middle.tables = ground (arith, x.done) in
      let found : find_post r.source_name r.source_url b₀.middle.tables.posts ≡ b₀.value =
        ground (arith, x.done) in
      let b₁ = between (write_post engine r b₀.value) _ b₀.middle b₀.next_ok in
      let id = b₁.value in
      let w = write_post-Written engine r b₀.middle (subst Keyed same keyed) (
        subst (λ o. write_post engine r o b₀.middle ≡ ok (id, b₁.middle)) (sym found)
          b₁.first_ok) in
      let b₂ =
        between (replace_values engine source_post_performers id r.performers_raw) _ b₁.middle
          b₁.next_ok in
      let b₃ =
        between (replace_values engine source_post_covers id r.cover_urls) _ b₂.middle b₂.next_ok in
      let b₄ =
        between (replace_values engine source_post_pages id r.page_urls) _ b₃.middle b₃.next_ok in
      let p =
        replaced engine source_post_performers performers-Lawful id r.performers_raw b₁.middle
          b₂.first_ok in
      let c =
        replaced engine source_post_covers covers-Lawful id r.cover_urls b₂.middle b₃.first_ok in
      let g = replaced engine source_post_pages pages-Lawful id r.page_urls b₃.middle b₄.first_ok in
      let l =
        replaced engine source_post_external_links links-Lawful id
          (link_columns engine r.external_links) b₄.middle b₄.next_ok in
      record {
        id = id;
        middle = b₁.middle.tables;
        written = subst (λ t. Written engine r t b₁.middle.tables id) (sym same) w;
        posts = ground (arith, p, c, g, l);
        sequence = ground (arith, p, c, g, l);
        performers = ground (arith, p, c, g, l, w.performers, same);
        covers = ground (arith, p, c, g, l, w.covers, same);
        pages = ground (arith, p, c, g, l, w.pages, same);
        links = ground (arith, p, c, g, l, w.links, same);
      }

  -- The record is read back at its key.
  read_new :
      {before after : Tables} (x : Ingested engine r before after)
      → read_post after x.written.row ≡ record {
        columns =
            given_columns engine r
              (known_release_date (find_post r.source_name r.source_url before.posts));
        performers_raw = r.performers_raw;
        cover_urls = r.cover_urls;
        page_urls = r.page_urls;
        external_links = link_columns engine r.external_links;
      }
  read_new {before} {after} x =
      let id = x.written.row_id in
      let p : children_of x.written.row.id after.performers ≡ r.performers_raw =
        rw (id, x.performers) (children_of-replaced x.id before.performers r.performers_raw) in
      let c : children_of x.written.row.id after.covers ≡ r.cover_urls =
        rw (id, x.covers) (children_of-replaced x.id before.covers r.cover_urls) in
      let g : children_of x.written.row.id after.pages ≡ r.page_urls =
        rw (id, x.pages) (children_of-replaced x.id before.pages r.page_urls) in
      let l : children_of x.written.row.id after.links ≡ link_columns engine r.external_links =
        rw (id, x.links)
          (children_of-replaced x.id before.links (link_columns engine r.external_links)) in
      λ i. record {
        columns = x.written.columns i;
        performers_raw = p i;
        cover_urls = c i;
        page_urls = g i;
        external_links = l i;
      }

  -- Another record is read as before.
  read_other :
      {before after : Tables} (x : Ingested engine r before after) (other : PostRow)
      → other.id ≢ x.id
      → read_post after other ≡ read_post before other
  read_other {before} {after} x other n =
      let p : children_of other.id after.performers ≡ children_of other.id before.performers =
        rw x.performers (children_of-kept x.id other.id before.performers r.performers_raw n) in
      let c : children_of other.id after.covers ≡ children_of other.id before.covers =
        rw x.covers (children_of-kept x.id other.id before.covers r.cover_urls n) in
      let g : children_of other.id after.pages ≡ children_of other.id before.pages =
        rw x.pages (children_of-kept x.id other.id before.pages r.page_urls n) in
      let l : children_of other.id after.links ≡ children_of other.id before.links =
        rw x.links
          (children_of-kept x.id other.id before.links (link_columns engine r.external_links) n) in
      λ i. record {
        columns = columns_of other;
        performers_raw = p i;
        cover_urls = c i;
        page_urls = g i;
        external_links = l i;
      }

  Ingested-put :
      {before after : Tables}
      → Ingested engine r before after
      → (n u : Text) → stored after n u ≡ put engine r (stored before) n u
  Ingested-put {before} {after} x n u =
      elim (Bool-cases (text_eq n r.source_name && text_eq u r.source_url)) [
        | inl same ↦
            let a : n ≡ r.source_name = ground (arith, same, text_eq_iff n r.source_name) in
            let b : u ≡ r.source_url = ground (arith, same, text_eq_iff u r.source_url) in
            let found : find_post n u after.posts ≡ some x.written.row =
              rw (a, b, x.posts) x.written.there in
            rw
              (
                same,
                found,
                known_date-read_found before (find_post r.source_name r.source_url before.posts),
              )
              (ap some (read_new x))
        | inr differ ↦
            let found : find_post n u after.posts ≡ find_post n u before.posts =
              ap (find_post n u) x.posts ∙ x.written.others n u differ in
            elim (Option-cases (find_post n u before.posts)) [
              | inl f ↦ rw (differ, found, f) refl
              | inr (other, f) ↦
                  rw (differ, found, f)
                    (ap some (read_other x other (x.written.apart n u other differ f)))
            ]
      ]

  pub ingest_one-Keyed :
      (tx : Transaction) {after : Transaction}
      → Keyed tx.tables
      → ingest_one engine r tx ≡ ok (tt, after)
      → Keyed after.tables
  ingest_one-Keyed tx keyed e =
      let x = ingest_one-Ingested tx keyed e in same_posts-Keyed x.written.keyed x.posts x.sequence

  -- A post that is known is still there.
  pub ingest_one-Survives :
      (tx : Transaction) {after : Transaction}
      → Keyed tx.tables
      → ingest_one engine r tx ≡ ok (tt, after)
      → (n u : Text) (row : PostRow) → find_post n u tx.tables.posts ≡ some row
      → Survives row (find_post n u after.tables.posts)
  ingest_one-Survives tx keyed e n u row f =
      let x = ingest_one-Ingested tx keyed e in
      subst (Survives row) (sym (ap (find_post n u) x.posts)) (x.written.survives n u row f)

  pub ingest_one-sequence :
      (tx : Transaction) {after : Transaction}
      → Keyed tx.tables
      → ingest_one engine r tx ≡ ok (tt, after)
      → after.tables.sequence ≤ tx.tables.sequence + 1
  ingest_one-sequence tx keyed e =
      let x = ingest_one-Ingested tx keyed e in ground (arith, x.sequence, x.written.sequence)

  -- One record goes into the store as the promise says.
  pub ingest_one-put :
      (tx : Transaction) {after : Transaction}
      → Keyed tx.tables
      → ingest_one engine r tx ≡ ok (tt, after)
      → stored after.tables ≡ put engine r (stored tx.tables)
  ingest_one-put tx keyed e =
      fun_ext (λ n. fun_ext (λ u. Ingested-put (ingest_one-Ingested tx keyed e) n u))
