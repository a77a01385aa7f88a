-- ===== src/Db/Query/Records.antt =====
-- The pages of records that crates/mh-db/src/lib.rs gives to the UI.
use magazine_core.Base.{
  ℕ, min, max, Bool, ◌&&◌, ◌||◌, List, [], ◌∷◌, Option, none, some, length, take, drop, ltb, Result,
  ok, err,
}
use magazine_core.Text.{Text, text_eq}
use magazine_core.Json.{Fields}
use magazine_core.Domain.Record.{ExternalLink}
use magazine_core.Db.Tables.{PostRow, Tables, children_of}
use magazine_core.Db.Ingest.{DbError}
use magazine_core.Db.Query.{order_by, text_lt}
use magazine_core.Db.Query.Views.{bad_json, read_links}

-- A row of the posts with its extra object and its values.
pub record SourceRecordView : Type 0 where
  pub row : PostRow
  pub extra : Fields
  pub performers_raw : List Text
  pub cover_urls : List Text
  pub page_urls : List Text
  pub external_links : List ExternalLink

pub record SourceRecordPage : Type 0 where
  pub total : ℕ
  pub limit : ℕ
  pub offset : ℕ
  pub records : List SourceRecordView

-- `updated_at DESC, id DESC`.
abbrev updated_later : PostRow → PostRow → Bool
updated_later a b =
    text_lt b.updated_at a.updated_at || text_eq a.updated_at b.updated_at && ltb b.id a.id

module _ (parse_json_object : Text → Option Fields) where
  -- The statement's rows; one whose object cannot be read is an error.
  unfoldable pub with_extra : List PostRow → Result DbError (List (PostRow × Fields))
  with_extra [] = ok []
  with_extra (row ∷ rows) = elim (parse_json_object row.extra_json) [
    | none ↦ err bad_json
    | some extra ↦ elim (with_extra rows) [ err e ↦ err e | ok rest ↦ ok ((row, extra) ∷ rest) ]
  ]

  -- The loop over these rows.
  unfoldable pub with_children :
      Tables → List (PostRow × Fields) → Result DbError (List SourceRecordView)
  with_children t [] = ok []
  with_children t ((row, extra) ∷ rows) =
      elim (read_links parse_json_object (children_of row.id t.links)) [
        | err e ↦ err e
        | ok links ↦ elim (with_children t rows) [
          | err e ↦ err e
          | ok rest ↦ ok (
              record {
                row = row;
                extra = extra;
                performers_raw = children_of row.id t.performers;
                cover_urls = children_of row.id t.covers;
                page_urls = children_of row.id t.pages;
                external_links = links;
              }
              ∷ rest)
        ]
      ]

  unfoldable pub source_record_page : ℕ → ℕ → Tables → Result DbError SourceRecordPage
  source_record_page asked offset t =
      let limit = max 1 (min 200 asked) in
      elim (with_extra (take limit (drop offset (order_by updated_later t.posts)))) [
        | err e ↦ err e
        | ok rows ↦ elim (with_children t rows) [
          | err e ↦ err e
          | ok records ↦
              ok (record {
                total = length t.posts;
                limit = limit;
                offset = offset;
                records = records;
              })
        ]
      ]
