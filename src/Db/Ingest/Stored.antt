-- ===== src/Db/Ingest/Stored.antt =====
-- What the database promises of its records: the content that is stored under each source and URL,
-- whatever the rows, their ids and their order.
use magazine_core.Base.{List, Option, none, some, ◌∷◌, ◌&&◌, if◌then◌else◌, []}
use magazine_core.Text.{Text, text_eq}
use magazine_core.Json.{object}
use magazine_core.Domain.Record.{SourceRecord}
use magazine_core.Db.Tables.{PostRow, LinkColumns, Tables, find_post, children_of}
use magazine_core.Db.Fingerprint.{content_fingerprint}
use magazine_core.Db.Ingest.{Engine, link_columns, or_else}

-- The columns that a record gives.
pub record Columns : Type 0 where
  pub title : Text
  pub brand_raw : Text
  pub issue_no : Option Text
  pub release_date : Option Text
  pub post_date : Option Text
  pub brand_normalized : Option Text
  pub normalizer_id : Option Text
  pub normalizer_version : Option Text
  pub content_fingerprint : Option Text
  pub extra_json : Text

pub record Stored : Type 0 where
  pub columns : Columns
  pub performers_raw : List Text
  pub cover_urls : List Text
  pub page_urls : List Text
  pub external_links : List LinkColumns

-- A store by source and URL.
abbrev pub Store : Type 0
Store = Text → Text → Option Stored

abbrev pub columns_of : PostRow → Columns
columns_of row = record {
  title = row.title;
  brand_raw = row.brand_raw;
  issue_no = row.issue_no;
  release_date = row.release_date;
  post_date = row.post_date;
  brand_normalized = row.brand_normalized;
  normalizer_id = row.normalizer_id;
  normalizer_version = row.normalizer_version;
  content_fingerprint = row.content_fingerprint;
  extra_json = row.extra_json;
}

abbrev pub read_post : Tables → PostRow → Stored
read_post t row = record {
  columns = columns_of row;
  performers_raw = children_of row.id t.performers;
  cover_urls = children_of row.id t.covers;
  page_urls = children_of row.id t.pages;
  external_links = children_of row.id t.links;
}

abbrev pub read_found : Tables → Option PostRow → Option Stored
read_found t none = none
read_found t (some row) = some (read_post t row)

-- The store that the tables stand for.
abbrev pub stored : Tables → Store
stored t n u = read_found t (find_post n u t.posts)

-- The content of a record, over the release date known so far.
abbrev pub given_columns : Engine → SourceRecord → Option Text → Columns
given_columns engine r known =
    let release_date = or_else r.release_date known in
    record {
      title = r.title;
      brand_raw = r.brand_raw;
      issue_no = r.issue_no;
      release_date = release_date;
      post_date = r.post_date;
      brand_normalized = r.brand_normalized;
      normalizer_id = r.normalizer_id;
      normalizer_version = r.normalizer_version;
      content_fingerprint = some (content_fingerprint engine.to_string r release_date);
      extra_json = engine.to_string (object r.extra);
    }

abbrev pub known_date : Option Stored → Option Text
known_date none = none
known_date (some old) = old.columns.release_date

-- A record in place of what stood under its key.
abbrev pub put : Engine → SourceRecord → Store → Store
put engine r store n u =
    if text_eq n r.source_name && text_eq u r.source_url
    then some (record {
      columns = given_columns engine r (known_date (store r.source_name r.source_url));
      performers_raw = r.performers_raw;
      cover_urls = r.cover_urls;
      page_urls = r.page_urls;
      external_links = link_columns engine r.external_links;
    })
    else store n u

abbrev pub put_all : Engine → List SourceRecord → Store → Store
put_all engine [] store = store
put_all engine (r ∷ records) store = put_all engine records (put engine r store)
