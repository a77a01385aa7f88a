-- ===== src/Tests/Records.antt =====
-- Runs of crates/mh-domain.
use magazine_core.Base.{ℕ, ◌≡◌, ◌↔◌, [], ◌∷◌, none, some, true, ok}
use magazine_core.Text.{codes}
use magazine_core.Json.{end}
use magazine_core.Domain.Uri.{is_absolute_uri}
use magazine_core.Domain.Uri.Decides.{IsAbsoluteUri, is_absolute_uri_iff}
use magazine_core.Domain.Date.{is_valid_yyyy_mm_dd}
use magazine_core.Domain.Date.Calendar.{IsDate, format_date, is_valid_yyyy_mm_dd_iff}
use magazine_core.Domain.Record.{SourceRecord, validate_for_source}
use magazine_core.Domain.Record.Accepts.{IsValid, validate_for_source_iff}

abbrev pub issue : SourceRecord
issue = record {
  source_name = codes "shelf";
  source_url = codes "https://a.example/1";
  title = codes "One";
  brand_raw = [];
  performers_raw = codes "A" ∷ [];
  cover_urls = [];
  page_urls = codes "https://a.example/1/p" ∷ [];
  external_links = [];
  issue_no = none;
  release_date = some (codes "2024-02-29");
  post_date = none;
  brand_normalized = none;
  normalizer_id = none;
  normalizer_version = none;
  extra = end;
}

validate_for_source_iff_example :
    (validate_for_source issue (codes "shelf") ≡ ok tt)
    ↔ (IsValid issue × (codes "shelf" ≡ codes "shelf"))
validate_for_source_iff_example = validate_for_source_iff issue (codes "shelf")

is_absolute_uri_iff_example :
    (is_absolute_uri (codes "https://a.example/1") ≡ true)
    ↔ IsAbsoluteUri (codes "https://a.example/1")
is_absolute_uri_iff_example = is_absolute_uri_iff (codes "https://a.example/1")

is_valid_yyyy_mm_dd_iff_example :
    (is_valid_yyyy_mm_dd (codes "2024-02-29") ≡ true)
    ↔ ((y m d : ℕ) × IsDate y m d × (codes "2024-02-29" ≡ format_date y m d))
is_valid_yyyy_mm_dd_iff_example = is_valid_yyyy_mm_dd_iff (codes "2024-02-29")
