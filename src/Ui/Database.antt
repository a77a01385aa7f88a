-- ===== src/Ui/Database.antt =====
-- What the UI server of crates/mh-cli/src/ui.rs gets from the database of crates/mh-db/src/lib.rs,
-- with the JSON that is derived from it. A file is not there yet, or is a database of this program.
-- The initialization of a file is an argument.
use magazine_core.Base.{List, [], ◌∷◌, map, Option, none, some, Result, ok, err}
use magazine_core.Text.{Text}
use magazine_core.Json.{Value, Items, Fields, number, string, array, object, nil, cons, end}
use magazine_core.Protocol.Message.{member}
use magazine_core.Db.Tables.{Tables}
use magazine_core.Db.Fingerprint.{texts_value, optional_value, links_value}
use magazine_core.Db.Ingest.{DbError}
use magazine_core.Db.Query.{
  DbInspection, SourceSummary, UiSummary, KnownSourceUrls, ui_summary, known_source_url_state,
}
use magazine_core.Db.Query.Records.{SourceRecordView, SourceRecordPage, source_record_page}
use magazine_core.Ui.Authority.{UiOptions}
use magazine_core.Ui.Routes.Reading.{Backend}

unfoldable pub inspection_value : DbInspection → Value
inspection_value i = object (
    member "schema_version" (number i.schema_version) (
      member "source_posts" (number i.source_posts) (
        member "performers" (number i.performers) (
          member "covers" (number i.covers) (
            member "pages" (number i.pages)
              (member "external_links" (number i.external_links) end))))))

-- An array of the values of a list.
unfoldable pub items : List Value → Items
items [] = nil
items (value ∷ values) = cons value (items values)

unfoldable pub source_value : SourceSummary → Value
source_value s = object (
    member "source_name" (string s.source_name) (
      member "records" (number s.records)
        (member "last_seen_at" (optional_value s.last_seen_at) end)))

unfoldable pub ui_summary_value : UiSummary → Value
ui_summary_value s = object (
    member "inspection" (inspection_value s.inspection) (
      member "sources" (array (items (map source_value s.sources)))
        (member "known_source_urls" (number s.known_source_urls) end)))

unfoldable pub known_value : KnownSourceUrls → Value
known_value k =
    object
      (member "source_name" (string k.source_name) (member "urls" (array (texts_value k.urls)) end))

-- The columns behind `normalizer_version`, and the values.
abbrev later_fields : SourceRecordView → Fields
later_fields r = member "normalizer_version" (optional_value r.row.normalizer_version) (
    member "content_fingerprint" (optional_value r.row.content_fingerprint) (
      member "extra" (object r.extra) (
        member "first_seen_at" (string r.row.first_seen_at) (
          member "last_seen_at" (string r.row.last_seen_at) (
            member "updated_at" (string r.row.updated_at) (
              member "performers_raw" (array (texts_value r.performers_raw)) (
                member "cover_urls" (array (texts_value r.cover_urls)) (
                  member "page_urls" (array (texts_value r.page_urls))
                    (member "external_links" (array (links_value r.external_links)) end)))))))))

unfoldable pub record_value : SourceRecordView → Value
record_value r = object (
    member "id" (number r.row.id) (
      member "source_name" (string r.row.source_name) (
        member "source_url" (string r.row.source_url) (
          member "title" (string r.row.title) (
            member "brand_raw" (string r.row.brand_raw) (
              member "issue_no" (optional_value r.row.issue_no) (
                member "release_date" (optional_value r.row.release_date) (
                  member "post_date" (optional_value r.row.post_date) (
                    member "brand_normalized" (optional_value r.row.brand_normalized) (
                      member "normalizer_id" (optional_value r.row.normalizer_id)
                        (later_fields r)))))))))))

unfoldable pub page_value : SourceRecordPage → Value
page_value p = object (
    member "total" (number p.total) (
      member "limit" (number p.limit) (
        member "offset" (number p.offset)
          (member "records" (array (items (map record_value p.records))) end))))

abbrev page_or_none : Result DbError SourceRecordPage → Option Value
page_or_none (err e) = none
page_or_none (ok page) = some (page_value page)

abbrev pub File : Type 0
File = Option Tables

-- A file that is opened read-only has to be there.
abbrev opened {ℓ} : {A : Type ℓ} → (Tables → Option A) → File → Option A
opened read none = none
opened read (some t) = read t

module _ (parse_json_object : Text → Option Fields) where
  unfoldable pub database_backend :
      (File → Result Text Value × File) → Option Value → (UiOptions → Text) → Backend File
  database_backend init_db plugins page = record {
    ui_summary = opened (λ t. some (ui_summary_value (ui_summary t)));
    source_record_page = λ limit offset.
        opened (λ t. page_or_none (source_record_page parse_json_object limit offset t));
    known_source_url_state = λ asked.
        opened (λ t. some (array (items (map known_value (known_source_url_state asked t)))));
    init_db = init_db;
    inspect_plugin_manifests = plugins;
    index_html = page;
  }
