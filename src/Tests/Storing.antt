-- ===== src/Tests/Storing.antt =====
-- Runs of the database in crates/mh-db.
use magazine_core.Base.{
  ℕ, ◌≡◌, ◌↔◌, ◌⊎◌, refl, true, List, [], ◌∷◌, none, some, ok, arith, All, any,
}
use magazine_core.Text.{Text, codes, text_eq}
use magazine_core.Json.{end}
use magazine_core.Domain.Record.{SourceRecord, validate}
use magazine_core.Db.Tables.{PostRow, Tables, no_rows, find_post}
use magazine_core.Db.Ingest.{Engine, ingest_records}
use magazine_core.Db.Ingest.Posts.{Keyed}
use magazine_core.Db.Ingest.Batch.{Taken, ingest_records-refines}
use magazine_core.Db.Ingest.Succeeds.{ingest_records-accepts}
use magazine_core.Db.Ingest.Numbered.{Numbered, ingest_records-Numbered}
use magazine_core.Db.Query.{where_holds, known_source_urls}
use magazine_core.Db.Query.Views.{asked_source, view_rows}
use magazine_core.Db.Query.Paging.Walk.{walk_pages, walk_pages_complete}
use magazine_core.Db.Query.Ingested.{ingested_known}
use magazine_core.Db.Schema.{Schema, ensure_openable_for_init}
use magazine_core.Db.Schema.Closed.{IsBlank, IsCore, ensure_openable_for_init_iff}
use magazine_core.Tests.Records.{issue}

abbrev sound_engine : Engine
sound_engine = record {
  fault = λ n. none;
  now = λ n. codes "2026-01-01";
  to_string = λ value. codes "{}";
}

no_rows-Keyed : Keyed no_rows
unfolding find_post
no_rows-Keyed = record {
  one_row = λ n u m v row other p q same. absurd (ground (arith, p));
  given = λ n u row p. absurd (ground (arith, p));
}

abbrev one_issue : List SourceRecord
one_issue = issue ∷ []

issue_valid : validate issue ≡ ok tt
unfolding validate magazine_core.Domain.Record.validate_required magazine_core.Text.trim
    magazine_core.Domain.Record.validate_absolute_uri magazine_core.Domain.Uri.is_absolute_uri
    magazine_core.Text.split_once magazine_core.Domain.Record.validate_list
    magazine_core.Domain.Record.validate_list_from magazine_core.Domain.Record.validate_links_from
    magazine_core.Domain.Record.validate_date magazine_core.Domain.Date.is_valid_yyyy_mm_dd
    magazine_core.Text.Utf8.as_bytes magazine_core.Text.Number.parse_uint
    magazine_core.Text.Number.parse_digits magazine_core.Domain.Date.days_in_month
    magazine_core.Domain.Date.is_leap_year
issue_valid = refl

accepted : (ingest_records sound_engine one_issue no_rows).0 ≡ ok 1
accepted =
    ingest_records-accepts sound_engine one_issue no_rows (λ n. refl) no_rows-Keyed
      (issue_valid, tt) (omega arith)

ingest_records-accepts_example : (ingest_records sound_engine one_issue no_rows).0 ≡ ok 1
ingest_records-accepts_example =
    ingest_records-accepts sound_engine one_issue no_rows (λ n. refl) no_rows-Keyed
      (issue_valid, tt) (omega arith)

ingest_records-refines_example :
    Taken sound_engine one_issue no_rows (ingest_records sound_engine one_issue no_rows).1
ingest_records-refines_example =
    ingest_records-refines sound_engine one_issue no_rows no_rows-Keyed accepted

ingest_records-Numbered_example :
    Keyed (ingest_records sound_engine one_issue no_rows).1
    × Numbered (ingest_records sound_engine one_issue no_rows).1
ingest_records-Numbered_example =
    ingest_records-Numbered sound_engine one_issue no_rows no_rows-Keyed (omega arith)

ingested_known_example :
    All
      (λ (r : SourceRecord).
        any
          (text_eq r.source_url)
          (known_source_urls r.source_name (ingest_records sound_engine one_issue no_rows).1)
        ≡ true)
      one_issue
ingested_known_example = ingested_known sound_engine one_issue no_rows no_rows-Keyed accepted

-- Two posts, of which the first was removed.
abbrev shelf_row : ℕ → PostRow
shelf_row id = record {
  id = id;
  source_name = codes "shelf";
  source_url = codes "https://a.example/1";
  title = codes "One";
  brand_raw = [];
  issue_no = none;
  release_date = none;
  post_date = none;
  brand_normalized = none;
  normalizer_id = none;
  normalizer_version = none;
  content_fingerprint = none;
  extra_json = codes "{}";
  first_seen_at = [];
  last_seen_at = [];
  updated_at = [];
}

abbrev two_rows : Tables
two_rows = record no_rows { posts = shelf_row 2 ∷ shelf_row 5 ∷ []; sequence = 6 }

walk_pages_complete_example :
    walk_pages (λ text. some end) 1 none true two_rows 3 none
    ≡ some (
        view_rows (λ text. some end) true two_rows (where_holds (asked_source none) two_rows.posts))
walk_pages_complete_example =
    walk_pages_complete (λ text. some end) 1 none true two_rows (omega arith)

abbrev blank_schema : Schema
blank_schema = record { tables = []; max_version = none }

ensure_openable_for_init_iff_example :
    (ensure_openable_for_init blank_schema ≡ ok tt) ↔ (IsBlank blank_schema ⊎ IsCore blank_schema)
ensure_openable_for_init_iff_example = ensure_openable_for_init_iff blank_schema
