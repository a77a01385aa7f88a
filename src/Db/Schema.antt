-- ===== src/Db/Schema.antt =====
-- Which files crates/mh-db/src/lib.rs opens. What it asks of a file's schema is in a `Schema`;
-- SQLite answers each of these questions.
pub mod Closed
use magazine_core.Base.{
  ℕ, zero, suc, ◌+◌, Bool, true, false, not, ◌&&◌, ◌==◌, String, List, [], ◌∷◌, Option, none, some,
  any, is_empty, length, ltb, if◌then◌else◌, Result, ok, err,
}
use magazine_core.Text.{Text, codes, text_eq}
use magazine_core.Db.Tables.{Tables, no_rows}

-- An i64, by its sign.
pub data I64 : Type 0 where
  pos negsuc : ℕ → I64

-- A table with its columns.
abbrev pub Table : Type 0
Table = Text × List Text

pub record Schema : Type 0 where
  -- The tables that are not SQLite's own.
  pub tables : List Table
  -- The versions in `mh_schema_migrations`, where there is such a table.
  pub max_version : Option I64

pub data OpenError : Type 0 where
  database_too_new : I64 → OpenError
  incompatible_schema : Text → List Text → OpenError
  missing_table : Text → OpenError
  needs_migration missing_database unknown_existing_database : OpenError
  unsupported_schema_version : I64 → OpenError

unfoldable pub columns_of_table : Text → List Table → Option (List Text)
columns_of_table name [] = none
columns_of_table name ((table, columns) ∷ tables) =
    let later = columns_of_table name tables in if text_eq table name then some columns else later

abbrev pub migrations : Text
migrations = codes "mh_schema_migrations"

unfoldable pub schema_version : Schema → I64
schema_version schema = elim (columns_of_table migrations schema.tables) [
  | none ↦ pos 0
  | some _ ↦ elim schema.max_version [ none ↦ pos 0 | some version ↦ version ]
]

-- `EXPECTED_CORE_COLUMNS`.
abbrev names : List String → List Text
names [] = []
names (name ∷ rest) = codes name ∷ names rest

abbrev pub expected_core_columns : List Table
expected_core_columns =
    (migrations, names ("version" ∷ "applied_at" ∷ []))
    ∷ (
      codes "source_posts",
      names (
          "id" ∷ "source_name" ∷ "source_url" ∷ "title" ∷ "brand_raw" ∷ "issue_no" ∷ "release_date"
          ∷ "post_date" ∷ "brand_normalized" ∷ "normalizer_id" ∷ "normalizer_version"
          ∷ "content_fingerprint" ∷ "extra_json" ∷ "first_seen_at" ∷ "last_seen_at" ∷ "updated_at"
          ∷ []),
    )
    ∷ (codes "source_post_performers", names ("source_post_id" ∷ "position" ∷ "performer_raw" ∷ []))
    ∷ (codes "source_post_covers", names ("source_post_id" ∷ "position" ∷ "cover_url" ∷ []))
    ∷ (codes "source_post_pages", names ("source_post_id" ∷ "position" ∷ "page_url" ∷ []))
    ∷ (
      codes "source_post_external_links",
      names (
          "source_post_id" ∷ "position" ∷ "url" ∷ "provider" ∷ "label" ∷ "kind" ∷ "external_id"
          ∷ "metadata_json" ∷ []),
    )
    ∷ []

unfoldable pub missing_columns : List Text → List Text → List Text
missing_columns actual [] = []
missing_columns actual (expected ∷ rest) =
    let missing = missing_columns actual rest in
    if any (text_eq expected) actual then missing else expected ∷ missing

unfoldable pub validate_table_columns : Text → List Text → List Text → Result OpenError (Unit {0})
validate_table_columns table actual expected =
    let missing = missing_columns actual expected in
    if is_empty missing then ok tt else err (incompatible_schema table missing)

unfoldable pub validate_schema_tables : List Table → List Table → Result OpenError (Unit {0})
validate_schema_tables tables [] = ok tt
validate_schema_tables tables ((table, columns) ∷ expected) = elim (columns_of_table table tables) [
  | none ↦ err (missing_table table)
  | some actual ↦ elim (validate_table_columns table actual columns) [
    | err e ↦ err e
    | ok _ ↦ validate_schema_tables tables expected
  ]
]

-- `LATEST_SCHEMA_VERSION` is 1.
abbrev later_version : I64 → Bool
later_version (pos n) = ltb 1 n
later_version (negsuc n) = false

unfoldable pub validate_schema_for_version : Schema → I64 → Result OpenError (Unit {0})
validate_schema_for_version schema version =
    let known = validate_schema_tables schema.tables expected_core_columns in
    let other =
      if later_version version
      then err (database_too_new version)
      else err (unsupported_schema_version version) in
    elim version [ pos n ↦ if n == 1 then known else other | negsuc n ↦ other ]

-- The match that both openings make; for a file without tables they differ.
unfoldable pub ensure_openable : Result OpenError (Unit {0}) → Schema → Result OpenError (Unit {0})
ensure_openable without_tables schema =
    let version = schema_version schema in
    let unknown =
      if is_empty schema.tables then without_tables else err unknown_existing_database in
    let known = validate_schema_for_version schema version in
    let other = if later_version version then err (database_too_new version) else known in
    elim version [
      | pos n ↦ if n == 0 then unknown else if n == 1 then known else other
      | negsuc n ↦ other
    ]

unfoldable pub ensure_openable_for_init : Schema → Result OpenError (Unit {0})
ensure_openable_for_init = ensure_openable (ok tt)

unfoldable pub ensure_openable_for_inspect : Schema → Result OpenError (Unit {0})
ensure_openable_for_inspect = ensure_openable (err needs_migration)

-- `open` and `open_read_only` on a file that may not be there.
unfoldable pub open_file : Option Schema → Result OpenError (Unit {0})
open_file none = ok tt
open_file (some schema) = ensure_openable_for_init schema

unfoldable pub open_read_only : Option Schema → Result OpenError (Unit {0})
open_read_only none = err missing_database
open_read_only (some schema) = ensure_openable_for_inspect schema
