-- ===== src/Db/Query.antt =====
-- The statements of crates/mh-db/src/lib.rs that read.
pub mod Views
pub mod Paging
pub mod Records
pub mod Known
pub mod Ingested
use magazine_core.Base.{
  ℕ, ◌+◌, Bool, true, false, not, ◌&&◌, ◌||◌, ◌==◌, List, [], ◌∷◌, map, Option, none, some, length,
  ltb, any, if◌then◌else◌, Result, ok, err,
}
use magazine_core.Text.{Text, codes, text_eq}
use magazine_core.Text.Utf8.{as_bytes}
use magazine_core.Protocol.Canonical.{bytes_lt}
use magazine_core.Db.Tables.{PostRow, Tables, find_post}
use magazine_core.Db.Ingest.{DbError, sqlite}

-- SQLite's order of texts.
abbrev pub text_lt : Text → Text → Bool
text_lt s t = bytes_lt (as_bytes s) (as_bytes t)

module _ {A : Type 0} where
  unfoldable pub place_by : (A → A → Bool) → A → List A → List A
  place_by before x [] = x ∷ []
  place_by before x (y ∷ ys) =
      let rest = place_by before x ys in if before y x then y ∷ rest else x ∷ y ∷ ys

  -- `ORDER BY`.
  unfoldable pub order_by : (A → A → Bool) → List A → List A
  order_by before [] = []
  order_by before (x ∷ xs) = place_by before x (order_by before xs)

  -- `WHERE`.
  unfoldable pub where_holds : (A → Bool) → List A → List A
  where_holds p [] = []
  where_holds p (x ∷ xs) = let rest = where_holds p xs in if p x then x ∷ rest else rest

  unfoldable pub first_row : List A → Option A
  first_row [] = none
  first_row (x ∷ xs) = some x

abbrev pub of_source : Text → PostRow → Bool
of_source source_name row = text_eq row.source_name source_name

unfoldable pub known_source_urls : Text → Tables → List Text
known_source_urls source_name t =
    order_by text_lt (map (λ row. row.source_url) (where_holds (of_source source_name) t.posts))

pub record SourcePostSummary : Type 0 where
  pub exists : Bool
  pub title : Option Text
  pub last_seen_at : Option Text

unfoldable pub source_post_summary : Text → Text → Tables → Option SourcePostSummary
source_post_summary source_name source_url t = elim (find_post source_name source_url t.posts) [
  | none ↦ none
  | some row ↦
      some (record { exists = true; title = some row.title; last_seen_at = some row.last_seen_at })
]

-- `last_seen_at DESC, id DESC`.
abbrev pub seen_later : PostRow → PostRow → Bool
seen_later a b =
    text_lt b.last_seen_at a.last_seen_at || text_eq a.last_seen_at b.last_seen_at && ltb b.id a.id

unfoldable pub last_seen_at : Text → Tables → Option Text
last_seen_at source_name t =
    elim (first_row (order_by seen_later (where_holds (of_source source_name) t.posts))) [
      | none ↦ none
      | some row ↦ some row.last_seen_at
    ]

-- A row without a fingerprint cannot be read as a text.
unfoldable pub stored_fingerprint : Text → Text → Tables → Result DbError (Option Text)
stored_fingerprint source_name source_url t = elim (find_post source_name source_url t.posts) [
  | none ↦ ok none
  | some row ↦ elim row.content_fingerprint [
    | none ↦ err (sqlite (codes "Invalid column type Null"))
    | some fingerprint ↦ ok (some fingerprint)
  ]
]

pub record SourceSummary : Type 0 where
  pub source_name : Text
  pub records : ℕ
  pub last_seen_at : Option Text

-- The names of a list, each once.
unfoldable pub distinct : List Text → List Text
distinct [] = []
distinct (name ∷ names) =
    let rest = distinct names in if any (text_eq name) rest then rest else name ∷ rest

-- `MAX`.
unfoldable pub max_text : List Text → Option Text
max_text texts = first_row (order_by (λ s t. text_lt t s) texts)

-- `GROUP BY source_name ORDER BY source_name`.
unfoldable pub source_summaries : Tables → List SourceSummary
source_summaries t =
    map
      (λ name. record {
        source_name = name;
        records = length (where_holds (of_source name) t.posts);
        last_seen_at =
            max_text (map (λ row. row.last_seen_at) (where_holds (of_source name) t.posts));
      })
      (order_by text_lt (distinct (map (λ row. row.source_name) t.posts)))

pub record KnownSourceUrls : Type 0 where
  pub source_name : Text
  pub urls : List Text

unfoldable pub known_source_url_state : Option Text → Tables → List KnownSourceUrls
known_source_url_state asked t =
    let sources : List Text = elim asked [
      | some source_name ↦ source_name ∷ []
      | none ↦ map (λ summary. summary.source_name) (source_summaries t)
    ] in
    map (λ name. record { source_name = name; urls = known_source_urls name t }) sources

pub record DbInspection : Type 0 where
  pub schema_version : ℕ
  pub source_posts : ℕ
  pub performers : ℕ
  pub covers : ℕ
  pub pages : ℕ
  pub external_links : ℕ

-- `inspect` on the tables of the migration.
unfoldable pub inspect : Tables → DbInspection
inspect t = record {
  schema_version = 1;
  source_posts = length t.posts;
  performers = length t.performers;
  covers = length t.covers;
  pages = length t.pages;
  external_links = length t.links;
}

pub record UiSummary : Type 0 where
  pub inspection : DbInspection
  pub sources : List SourceSummary
  pub known_source_urls : ℕ

unfoldable pub ui_summary : Tables → UiSummary
ui_summary t = record {
  inspection = inspect t;
  sources = source_summaries t;
  known_source_urls = length t.posts;
}
