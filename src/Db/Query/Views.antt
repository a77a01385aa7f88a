-- ===== src/Db/Query/Views.antt =====
-- The pages of posts that crates/mh-db/src/lib.rs gives to readers. What the JSON library makes
-- of a stored object is a parameter.
use magazine_core.Base.{
  ℕ, min, max, Bool, true, ◌&&◌, ◌==◌, List, [], ◌∷◌, Option, none, some, length, take, ltb,
  if◌then◌else◌, Result, ok, err,
}
use magazine_core.Text.{Text, codes}
use magazine_core.Json.{Fields}
use magazine_core.Domain.Record.{ExternalLink}
use magazine_core.Db.Tables.{PostRow, LinkColumns, Tables, rows_of_post, children_of, has_id}
use magazine_core.Db.Ingest.{DbError, sqlite}
use magazine_core.Db.Query.{order_by, where_holds, first_row, of_source}

abbrev pub view_max_limit : ℕ
view_max_limit = 200

pub record ViewPostCounts : Type 0 where
  pub covers : ℕ
  pub pages : ℕ
  pub external_links : ℕ

pub record ViewPost : Type 0 where
  pub id : ℕ
  pub source_name : Text
  pub title : Text
  pub brand_raw : Text
  pub issue_no : Option Text
  pub release_date : Option Text
  pub post_date : Option Text
  pub last_seen_at : Text
  pub performers_raw : List Text
  pub counts : ViewPostCounts
  pub extra : Option Fields

pub record ViewPostsPage : Type 0 where
  pub limit : ℕ
  pub after_id : Option ℕ
  pub returned : ℕ
  pub next_after_id : Option ℕ
  pub posts : List ViewPost

abbrev pub asked_source : Option Text → PostRow → Bool
asked_source none row = true
asked_source (some source_name) row = of_source source_name row

abbrev pub or_start : Option ℕ → ℕ
or_start none = 0
or_start (some id) = id

-- The statement's rows. An id below 1 is before all rows, as 0 is.
unfoldable pub page_rows : ℕ → Option ℕ → Option Text → Tables → List PostRow
page_rows limit after_id source_name t = take limit (
    order_by (λ a b. ltb a.id b.id)
      (where_holds (λ row. ltb (or_start after_id) row.id && asked_source source_name row) t.posts))

abbrev pub view_row : Tables → PostRow → Option Fields → ViewPost
view_row t row extra = record {
  id = row.id;
  source_name = row.source_name;
  title = row.title;
  brand_raw = row.brand_raw;
  issue_no = row.issue_no;
  release_date = row.release_date;
  post_date = row.post_date;
  last_seen_at = row.last_seen_at;
  performers_raw = children_of row.id t.performers;
  counts = record {
    covers = length (rows_of_post row.id t.covers);
    pages = length (rows_of_post row.id t.pages);
    external_links = length (rows_of_post row.id t.links);
  };
  extra = extra;
}

abbrev pub bad_json : DbError
bad_json = sqlite (codes "Conversion error from type Text")

unfoldable pub last_id : List ViewPost → Option ℕ
last_id [] = none
last_id (post ∷ []) = some post.id
last_id (post ∷ next ∷ posts) = last_id (next ∷ posts)

module _ (parse_json_object : Text → Option Fields) where
  unfoldable pub view_rows : Bool → Tables → List PostRow → Result DbError (List ViewPost)
  view_rows include_extra t [] = ok []
  view_rows include_extra t (row ∷ rows) =
      let rest = view_rows include_extra t rows in
      let extra : Result DbError (Option Fields) =
        if include_extra
        then elim (parse_json_object row.extra_json) [
          | none ↦ err bad_json
          | some fields ↦ ok (some fields)
        ]
        else ok none in
      elim extra [
        | err e ↦ err e
        | ok fields ↦ elim rest [ err e ↦ err e | ok posts ↦ ok (view_row t row fields ∷ posts) ]
      ]

  unfoldable pub view_posts_page :
      ℕ → Option ℕ → Option Text → Bool → Tables → Result DbError ViewPostsPage
  view_posts_page asked after_id source_name include_extra t =
      let limit = max 1 (min view_max_limit asked) in
      elim (view_rows include_extra t (page_rows limit after_id source_name t)) [
        | err e ↦ err e
        | ok posts ↦ ok (record {
          limit = limit;
          after_id = after_id;
          returned = length posts;
          next_after_id = if length posts == limit then last_id posts else none;
          posts = posts;
        })
      ]

  -- `external_links`.
  unfoldable pub read_links : List LinkColumns → Result DbError (List ExternalLink)
  read_links [] = ok []
  read_links (columns ∷ rest) = elim (parse_json_object columns.metadata_json) [
    | none ↦ err bad_json
    | some metadata ↦ elim (read_links rest) [
      | err e ↦ err e
      | ok links ↦ ok (
          record {
            url = columns.url;
            provider = columns.provider;
            label = columns.label;
            kind = columns.kind;
            external_id = columns.external_id;
            metadata = metadata;
          }
          ∷ links)
    ]
  ]

pub record ViewPostAsset : Type 0 where
  pub id : ℕ
  pub source_name : Text
  pub performers_raw : List Text
  pub cover_urls : List Text
  pub page_urls : List Text
  pub external_links : List ExternalLink

pub record ViewPostAssets : Type 0 where
  pub assets : List ViewPostAsset
  pub missing : List ℕ

module _ (parse_json_object : Text → Option Fields) where
  abbrev with_asset : ViewPostAsset → Result DbError ViewPostAssets → Result DbError ViewPostAssets
  with_asset asset (err e) = err e
  with_asset asset (ok found) = ok (record found { assets = asset ∷ found.assets })

  abbrev with_missing : ℕ → Result DbError ViewPostAssets → Result DbError ViewPostAssets
  with_missing id (err e) = err e
  with_missing id (ok found) = ok (record found { missing = id ∷ found.missing })

  unfoldable pub view_post_assets : List ℕ → Tables → Result DbError ViewPostAssets
  view_post_assets [] t = ok (record { assets = []; missing = [] })
  view_post_assets (id ∷ ids) t =
      let rest = view_post_assets ids t in
      elim (first_row (where_holds (has_id id) t.posts)) [
        | none ↦ with_missing id rest
        | some row ↦ elim (read_links parse_json_object (children_of id t.links)) [
          | err e ↦ err e
          | ok links ↦
              with_asset
                (record {
                  id = id;
                  source_name = row.source_name;
                  performers_raw = children_of id t.performers;
                  cover_urls = children_of id t.covers;
                  page_urls = children_of id t.pages;
                  external_links = links;
                })
                rest
        ]
      ]
