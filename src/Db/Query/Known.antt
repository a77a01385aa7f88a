-- ===== src/Db/Query/Known.antt =====
-- Which URLs the database knows.
use magazine_core.Base.{◌≡◌, refl, ◌∙◌, Bool, ◌||◌, List, [], ◌∷◌, map, any, arith}
use magazine_core.Text.{Text, text_eq}
use magazine_core.Text.Laws.{text_eq_iff}
use magazine_core.Json.{is_some}
use magazine_core.Db.Tables.{PostRow, Tables, find_post}
use magazine_core.Db.Query.{place_by, order_by, where_holds, of_source, known_source_urls, text_lt}

module _ {A : Type 0} (before : A → A → Bool) (p : A → Bool) where
  any-place_by : (x : A) (ys : List A) → any p (place_by before x ys) ≡ (p x || any p ys)
  unfolding place_by
  any-place_by x [] = refl
  any-place_by x (y ∷ ys) = ground (arith, any-place_by x ys)

  -- An order leaves the members.
  any-order_by : (xs : List A) → any p (order_by before xs) ≡ any p xs
  unfolding order_by
  any-order_by [] = refl
  any-order_by (x ∷ xs) = ground (arith, any-place_by x (order_by before xs), any-order_by xs)

any-urls :
    (n u : Text) (rows : List PostRow)
    → any (text_eq u) (map (λ row. row.source_url) (where_holds (of_source n) rows))
      ≡ is_some (find_post n u rows)
unfolding where_holds find_post
any-urls n u [] = refl
any-urls n u (row ∷ rows) =
    ground (arith, any-urls n u rows, text_eq_iff u row.source_url, text_eq_iff row.source_url u)

-- A source's known URLs are those under which a post of the source is stored.
pub known_source_urls-find_post :
    (n u : Text) (t : Tables)
    → any (text_eq u) (known_source_urls n t) ≡ is_some (find_post n u t.posts)
unfolding known_source_urls
known_source_urls-find_post n u t =
    any-order_by text_lt (text_eq u)
      (map (λ row. row.source_url) (where_holds (of_source n) t.posts))
    ∙ any-urls n u t.posts
