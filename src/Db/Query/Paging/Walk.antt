-- ===== src/Db/Query/Paging/Walk.antt =====
-- A reader that asks for page after page, each from the id that the one before it names
-- (crates/mh-db/src/lib.rs).
use magazine_core.Base.{
  ℕ, zero, suc, ◌≡◌, ◌<◌, refl, sym, ◌∙◌, ap, min, max, Bool, ◌==◌, List, [], ◌∷◌, ◌++◌, append-nil,
  Option, none, some, length, take, drop, ltb, Result, ok, err, arith, inl, inr, Bool-cases,
  Result-cases, length-take,
}
use magazine_core.Text.{Text}
use magazine_core.Json.{Fields}
use magazine_core.Db.Tables.{PostRow, Tables}
use magazine_core.Db.Ingest.{DbError}
use magazine_core.Db.Query.{order_by, where_holds}
use magazine_core.Db.Query.Views.{
  ViewPost, asked_source, or_start, page_rows, view_rows, last_id, view_posts_page, view_max_limit,
}
use magazine_core.Db.Query.Paging.{
  Ascending, behind, last_row_id, where_holds-Ascending, order_by-Ascending, where_holds-and,
  behind-behind, behind-above, last_row_id-above, behind-take, drop-short, take-drop, length-drop,
  where_holds-All, where_holds-length, behind_whole,
}
use magazine_core.Db.Ingest.Numbered.{Numbered, Numbered-Ascending, Numbered-positive}

-- The posts of two pages.
abbrev pub joined :
    Result DbError (List ViewPost) → Result DbError (List ViewPost) → Result DbError (List ViewPost)
joined (err e) second = err e
joined (ok first) (err e) = err e
joined (ok first) (ok second) = ok (first ++ second)

abbrev joined_later :
    List ViewPost
    → Option (Result DbError (List ViewPost))
    → Option (Result DbError (List ViewPost))
joined_later posts none = none
joined_later posts (some later) = some (joined (ok posts) later)

module _ (parse_json_object : Text → Option Fields) (asked : ℕ) (source_name : Option Text)
    (include_extra : Bool) (t : Tables) where
  -- The posts of all pages behind an id, if the fuel suffices for them.
  unfoldable pub walk_pages : ℕ → Option ℕ → Option (Result DbError (List ViewPost))
  walk_pages zero after_id = none
  walk_pages (suc fuel) after_id =
      elim (view_posts_page parse_json_object asked after_id source_name include_extra t) [
        | err e ↦ some (err e)
        | ok page ↦ elim page.next_after_id [
          | none ↦ some (ok page.posts)
          | some id ↦ joined_later page.posts (walk_pages fuel (some id))
        ]
      ]

  view_rows-append :
      (rows others : List PostRow)
      → view_rows parse_json_object include_extra t (rows ++ others)
        ≡ joined
            (view_rows parse_json_object include_extra t rows)
            (view_rows parse_json_object include_extra t others)
  unfolding view_rows
  view_rows-append [] others =
      elim (Result-cases (view_rows parse_json_object include_extra t others)) [
        | inl (posts, e) ↦ rw e refl
        | inr (h, e) ↦ rw e refl
      ]
  view_rows-append (row ∷ rows) others = ground (arith, view_rows-append rows others)

  view_rows-length :
      (rows : List PostRow) {posts : List ViewPost}
      → view_rows parse_json_object include_extra t rows ≡ ok posts
      → length posts ≡ length rows
  unfolding view_rows
  view_rows-length [] e = ground (arith, e)
  view_rows-length (row ∷ rows) e =
      elim (Result-cases (view_rows parse_json_object include_extra t rows)) [
        | inl (posts, q) ↦ ground (arith, e, q, view_rows-length rows q)
        | inr (h, q) ↦ absurd (ground (arith, e, q))
      ]

  view_rows-last :
      (a : ℕ) (rows : List PostRow) {posts : List ViewPost}
      → view_rows parse_json_object include_extra t rows ≡ ok posts
      → 0 < length rows
      → last_id posts ≡ some (last_row_id a rows)
  unfolding view_rows last_id
  view_rows-last a [] e h = absurd (omega (arith, h))
  view_rows-last a (row ∷ []) e h = ground (arith, e)
  view_rows-last a (row ∷ next ∷ rows) e h =
      elim (Result-cases (view_rows parse_json_object include_extra t (next ∷ rows))) [
        | inl ([], q) ↦ absurd (ground (arith, view_rows-length (next ∷ rows) q))
        | inl (post ∷ posts, q) ↦
            ground (arith, e, q, view_rows-last row.id (next ∷ rows) q (omega arith))
        | inr (h, q) ↦ absurd (ground (arith, e, q))
      ]

  module _ (ascending : Ascending t.posts) where
    abbrev asked_rows : List PostRow
    asked_rows = where_holds (asked_source source_name) t.posts

    page_rows-take :
        (k : ℕ) (after_id : Option ℕ)
        → page_rows k after_id source_name t ≡ take k (behind (or_start after_id) asked_rows)
    unfolding page_rows
    page_rows-take k after_id =
        let rows =
          where_holds-Ascending (λ row. ltb (or_start after_id) row.id) asked_rows
            (where_holds-Ascending (asked_source source_name) t.posts ascending) in
        ap (take k) (
          ap (order_by (λ a b. ltb a.id b.id)) (
            where_holds-and (λ row. ltb (or_start after_id) row.id) (asked_source source_name)
              t.posts)
          ∙ order_by-Ascending (behind (or_start after_id) asked_rows) rows)

    pages_behind :
        (fuel : ℕ) (after_id : Option ℕ)
        → length (behind (or_start after_id) asked_rows) < fuel
        → walk_pages fuel after_id
          ≡ some
              (view_rows parse_json_object include_extra t (behind (or_start after_id) asked_rows))
    unfolding walk_pages view_posts_page
    pages_behind zero after_id h = absurd (omega (arith, h))
    pages_behind (suc fuel) after_id h =
        let k = max 1 (min view_max_limit asked) in
        let a = or_start after_id in
        let rows = behind a asked_rows in
        let read = view_rows parse_json_object include_extra t in
        let page : read (page_rows k after_id source_name t) ≡ read (take k rows) =
          ap read (page_rows-take k after_id) in
        let parts : read rows ≡ joined (read (take k rows)) (read (drop k rows)) =
          ap read (sym (take-drop k rows)) ∙ view_rows-append (take k rows) (drop k rows) in
        let size = length-take k rows in
        let left = length-drop k rows in
        let sorted =
          where_holds-Ascending (λ row. ltb a row.id) asked_rows
            (where_holds-Ascending (asked_source source_name) t.posts ascending) in
        let above = behind-above a asked_rows in
        elim (Result-cases (read (take k rows))) [
          | inr (e, q) ↦ ground (arith, page, parts, q)
          | inl (posts, q) ↦ elim (Bool-cases (length posts == k)) [
            | inl full ↦
                let count = view_rows-length (take k rows) q in
                let b = last_row_id a (take k rows) in
                let last = view_rows-last a (take k rows) q (ground (arith, full, count)) in
                let next : behind b asked_rows ≡ drop k rows =
                  sym (behind-behind a b asked_rows (last_row_id-above k a rows above sorted))
                  ∙ behind-take k a rows above sorted in
                let later =
                  pages_behind fuel (some b)
                    (rw next (ground (arith, full, count, size, left, h))) in
                let later_drop : walk_pages fuel (some b) ≡ some (read (drop k rows)) =
                  later ∙ ap (λ l. some (read l)) next in
                ground (arith, page, parts, q, full, last, later_drop)
            | inr short ↦
                let count = view_rows-length (take k rows) q in
                let none_left : drop k rows ≡ [] =
                  drop-short k rows (ground (arith, short, count, size)) in
                let ends : read (drop k rows) ≡ ok [] =
                  ap read none_left ∙ unfold view_rows in refl in
                ground (arith, page, parts, q, short, ends, append-nil posts)
          ]
        ]

  -- Where the ids of the posts are in order, a reader that starts with no id and asks on while a
  -- page names a next one comes to an end, after at most one page more than there are posts, and
  -- has seen each post once, in the order of the ids, all of them or all of the source it asks
  -- for; it fails only if the stored JSON of one of these posts cannot be read.
  pub walk_pages_complete :
      Numbered t
      → walk_pages (suc (length t.posts)) none
        ≡ some (
            view_rows parse_json_object include_extra t
              (where_holds (asked_source source_name) t.posts))
  walk_pages_complete numbered =
      let rows = where_holds (asked_source source_name) t.posts in
      let all : behind 0 rows ≡ rows = behind_whole 0 rows (
        where_holds-All (λ (row : PostRow). 0 < row.id) (asked_source source_name) t.posts
          (Numbered-positive t numbered)) in
      let few : length (behind 0 rows) < suc (length t.posts) =
        rw all (omega (arith, where_holds-length (asked_source source_name) t.posts)) in
      pages_behind (Numbered-Ascending t numbered) (suc (length t.posts)) none few
      ∙ ap (λ l. some (view_rows parse_json_object include_extra t l)) all
