-- ===== src/Db/Ingest.antt =====
-- The ingestion of records in crates/mh-db/src/lib.rs: each statement of the transaction runs on
-- the tables that those before it left, and can fail.
pub mod Actions
pub mod Children
pub mod Posts
pub mod Stored
pub mod Written
pub mod Refines
pub mod Batch
pub mod Numbered
pub mod Succeeds
use magazine_core.Base.{
  ℕ, suc, ◌+◌, Bool, true, false, not, List, [], ◌∷◌, Option, none, some, length, if◌then◌else◌,
  Result, ok, err,
}
use magazine_core.Text.{Text, codes, text_eq}
use magazine_core.Json.{Value, object}
use magazine_core.Domain.Record.{SourceRecord, ExternalLink, ValidationError, validate}
use magazine_core.Db.Tables.{
  PostRow, ChildRow, LinkColumns, Tables, ChildTable, Statement, source_post_performers,
  source_post_covers, source_post_pages, source_post_external_links, find_post, update_post,
  insert_post, delete_children, insert_child,
}
use magazine_core.Db.Fingerprint.{content_fingerprint}

-- The errors of statements and records; those of opening a file are in `Schema`.
pub data DbError : Type 0 where
  sqlite : Text → DbError
  validation : ValidationError → DbError

-- What SQLite and the JSON library give the statements: the failure of the nth one, if it fails for
-- a reason outside the tables, its clock, and the text of a value.
pub record Engine : Type 0 where
  pub fault : ℕ → Option Text
  pub now : ℕ → Text
  pub to_string : Value → Text

-- The transaction: its tables, and how many statements it has run.
pub record Transaction : Type 0 where
  pub tables : Tables
  pub executed : ℕ

abbrev pub Action : Type 0 → Type 0
Action A = Transaction → Result DbError (A × Transaction)

infixl 5 ◌>>=◌ ◌>>◌
abbrev pub ◌>>=◌ : {A B : Type 0} → Action A → (A → Action B) → Action B
◌>>=◌ action next tx = elim (action tx) [ err e ↦ err e | ok (a, tx') ↦ next a tx' ]

abbrev pub ◌>>◌ : {A B : Type 0} → Action A → Action B → Action B
action >> next = action >>= λ _. next

abbrev pub pure : {A : Type 0} → A → Action A
pure a tx = ok (a, tx)

abbrev finished : {A : Type 0} → Result Text (A × Tables) → ℕ → Result DbError (A × Transaction)
finished (err e) executed = err (sqlite e)
finished (ok (a, tables)) executed = ok (a, record { tables = tables; executed = executed })

abbrev pub known_release_date : Option PostRow → Option Text
known_release_date none = none
known_release_date (some post) = post.release_date

abbrev pub or_else : Option Text → Option Text → Option Text
or_else none other = other
or_else (some text) other = some text

abbrev pub same_text : Option Text → Text → Bool
same_text none text = false
same_text (some other) text = text_eq other text

module _ (engine : Engine) where
  -- A statement that is given the time.
  unfoldable pub execute : {A : Type 0} → (Text → Statement A) → Action A
  execute statement tx = elim (engine.fault tx.executed) [
    | some e ↦ err (sqlite e)
    | none ↦ finished (statement (engine.now tx.executed) tx.tables) (suc tx.executed)
  ]

  unfoldable pub existing_post : SourceRecord → Action (Option PostRow)
  existing_post r = execute (λ now t. ok (find_post r.source_name r.source_url t.posts, t))

  -- The loops of `replace_values` and `replace_external_links` from a position on.
  unfoldable pub insert_children : {A : Type 0} → ChildTable A → ℕ → ℕ → List A → Action (Unit {0})
  insert_children table id position [] = pure tt
  insert_children table id position (value ∷ values) =
      execute (λ now.
        insert_child table (record { source_post_id = id; position = position; value = value }))
      >> insert_children table id (suc position) values

  unfoldable pub replace_values : {A : Type 0} → ChildTable A → ℕ → List A → Action (Unit {0})
  replace_values table id values =
      execute (λ now. delete_children table id) >> insert_children table id 0 values

  unfoldable pub link_columns : List ExternalLink → List LinkColumns
  link_columns [] = []
  link_columns (link ∷ links) =
      record {
        url = link.url;
        provider = link.provider;
        label = link.label;
        kind = link.kind;
        external_id = link.external_id;
        metadata_json = engine.to_string (object link.metadata);
      }
      ∷ link_columns links

  -- The columns that `UPDATE source_posts` sets.
  unfoldable pub updated_row : SourceRecord → Option Text → Text → Bool → Text → PostRow → PostRow
  updated_row r release_date fingerprint content_changed now row = record row {
    title = r.title;
    brand_raw = r.brand_raw;
    issue_no = r.issue_no;
    release_date = release_date;
    post_date = r.post_date;
    brand_normalized = r.brand_normalized;
    normalizer_id = r.normalizer_id;
    normalizer_version = r.normalizer_version;
    content_fingerprint = some fingerprint;
    extra_json = engine.to_string (object r.extra);
    last_seen_at = now;
    updated_at = if content_changed then now else row.updated_at;
  }

  -- The row of `INSERT INTO source_posts`, before it has its id.
  unfoldable pub new_row : SourceRecord → Option Text → Text → Text → PostRow
  new_row r release_date fingerprint now = record {
    id = 0;
    source_name = r.source_name;
    source_url = r.source_url;
    title = r.title;
    brand_raw = r.brand_raw;
    issue_no = r.issue_no;
    release_date = release_date;
    post_date = r.post_date;
    brand_normalized = r.brand_normalized;
    normalizer_id = r.normalizer_id;
    normalizer_version = r.normalizer_version;
    content_fingerprint = some fingerprint;
    extra_json = engine.to_string (object r.extra);
    first_seen_at = now;
    last_seen_at = now;
    updated_at = now;
  }

  -- The id of the row that was updated or inserted.
  unfoldable pub write_post : SourceRecord → Option PostRow → Action ℕ
  write_post r existing =
      let release_date = or_else r.release_date (known_release_date existing) in
      let fingerprint = content_fingerprint engine.to_string r release_date in
      elim existing [
        | some post ↦
            let content_changed = not (same_text post.content_fingerprint fingerprint) in
            execute (λ now.
              update_post post.id (updated_row r release_date fingerprint content_changed now))
            >> pure post.id
        | none ↦ execute (λ now. insert_post (new_row r release_date fingerprint now))
      ]

  unfoldable pub ingest_one : SourceRecord → Action (Unit {0})
  ingest_one r = do
    existing ← existing_post r
    id ← write_post r existing
    replace_values source_post_performers id r.performers_raw
    replace_values source_post_covers id r.cover_urls
    replace_values source_post_pages id r.page_urls
    replace_values source_post_external_links id (link_columns r.external_links)

  -- The loop over the batch.
  unfoldable pub ingest_all : List SourceRecord → Action (Unit {0})
  ingest_all [] tx = ok (tt, tx)
  ingest_all (r ∷ records) tx = elim (validate r) [
    | err e ↦ err (validation e)
    | ok _ ↦ elim (ingest_one r tx) [ err e ↦ err e | ok (_, tx') ↦ ingest_all records tx' ]
  ]

  -- `transaction` and `commit` are statements too. A transaction that is not committed leaves the
  -- tables as they were.
  unfoldable pub ingest_records : List SourceRecord → Tables → Result DbError ℕ × Tables
  ingest_records records t = elim (engine.fault 0) [
    | some e ↦ (err (sqlite e), t)
    | none ↦ elim (ingest_all records (record { tables = t; executed = 1 })) [
      | err e ↦ (err e, t)
      | ok (_, tx) ↦ elim (engine.fault tx.executed) [
        | some e ↦ (err (sqlite e), t)
        | none ↦ (ok (length records), tx.tables)
      ]
    ]
  ]
