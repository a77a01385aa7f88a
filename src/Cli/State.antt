-- ===== src/Cli/State.antt =====
-- What a plugin's state queries get from the database: `DbStateProvider` in crates/mh-
-- cli/src/main.rs.
use magazine_core.Base.{Option, none, some, Result, ok, err, map_err}
use magazine_core.Text.{Text}
use magazine_core.Json.{Value, null, bool, array, object, end}
use magazine_core.Protocol.Message.{member}
use magazine_core.Host.Requests.{StateOperation}
use magazine_core.Db.Tables.{Tables}
use magazine_core.Db.Ingest.{DbError}
use magazine_core.Db.Fingerprint.{texts_value, optional_value}
use magazine_core.Db.Query.{
  SourcePostSummary, known_source_urls, source_post_summary, last_seen_at, stored_fingerprint,
}

unfoldable pub summary_value : Option SourcePostSummary → Value
summary_value none = null
summary_value (some summary) = object (
    member "exists" (bool summary.exists) (
      member "title" (optional_value summary.title)
        (member "last_seen_at" (optional_value summary.last_seen_at) end)))

abbrev fingerprint_value : Result DbError (Option Text) → Result DbError Value
fingerprint_value (err e) = err e
fingerprint_value (ok fingerprint) = ok (optional_value fingerprint)

-- The queries on a database that can be read; `display` is the text of an error.
unfoldable pub query : (DbError → Text) → Tables → StateOperation → Result Text Value
query display t (StateOperation.known_source_urls source_name) =
    ok (array (texts_value (known_source_urls source_name t)))
query display t (StateOperation.source_post_summary source_name source_url) =
    ok (summary_value (source_post_summary source_name source_url t))
query display t (StateOperation.last_seen_at source_name) =
    ok (optional_value (last_seen_at source_name t))
query display t (StateOperation.content_fingerprint source_name source_url) =
    map_err display (fingerprint_value (stored_fingerprint source_name source_url t))
