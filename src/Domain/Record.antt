-- ===== src/Domain/Record.antt =====
-- `SourceRecord`, `ExternalLink` and their validation (crates/mh-domain/src/lib.rs).
pub mod Accepts
use magazine_core.Base.{
  ℕ, zero, suc, ◌+◌, String, Bool, true, false, not, ◌&&◌, List, [], ◌∷◌, Option, none, some,
  is_empty, if◌then◌else◌, Result, ok, err, ◌>>=◌, ◌>>◌, guard,
}
use magazine_core.Text.{Text, text_eq, trim}
use magazine_core.Json.{Fields}
use magazine_core.Domain.Uri.{is_absolute_uri}
use magazine_core.Domain.Date.{is_valid_yyyy_mm_dd}

pub record ExternalLink : Type 0 where
  pub url : Text
  pub provider : Option Text
  pub label : Option Text
  pub kind : Option Text
  pub external_id : Option Text
  pub metadata : Fields

pub record SourceRecord : Type 0 where
  pub source_name : Text
  pub source_url : Text
  pub title : Text
  pub brand_raw : Text
  pub performers_raw : List Text
  pub cover_urls : List Text
  pub page_urls : List Text
  pub external_links : List ExternalLink
  pub issue_no : Option Text
  pub release_date : Option Text
  pub post_date : Option Text
  pub brand_normalized : Option Text
  pub normalizer_id : Option Text
  pub normalizer_version : Option Text
  pub extra : Fields

pub data ValidationError : Type 0 where
  missing_field : String → ValidationError
  invalid_uri : String → Text → ValidationError
  empty_list_item : String → ℕ → ValidationError
  invalid_date : String → Text → ValidationError
  empty_optional_field : String → ℕ → ValidationError
  source_name_mismatch : Text → Text → ValidationError

abbrev pub Validation : Type 0
Validation = Result ValidationError (Unit {0})

-- `value.trim().is_empty()`
abbrev pub is_blank : Text → Bool
is_blank value = is_empty (trim value)

unfoldable pub validate_required : String → Text → Validation
validate_required field value = if is_blank value then err (missing_field field) else ok tt

unfoldable pub validate_absolute_uri : String → Text → Validation
validate_absolute_uri field value =
    if is_absolute_uri value then ok tt else err (invalid_uri field value)

-- The loop of `validate_list` from the item with this index on.
unfoldable pub validate_list_from : ℕ → String → List Text → Bool → Validation
validate_list_from index field [] require_uri = ok tt
validate_list_from index field (value ∷ values) require_uri =
    let rest = validate_list_from (suc index) field values require_uri in
    if is_blank value
    then err (empty_list_item field index)
    else if require_uri
    then validate_absolute_uri field value >> rest
    else rest

unfoldable pub validate_list : String → List Text → Bool → Validation
validate_list = validate_list_from 0

unfoldable pub validate_optional_string : String → ℕ → Option Text → Validation
validate_optional_string field index none = ok tt
validate_optional_string field index (some value) =
    if is_blank value then err (empty_optional_field field index) else ok tt

unfoldable pub validate_date : String → Option Text → Validation
validate_date field none = ok tt
validate_date field (some value) =
    if is_valid_yyyy_mm_dd value then ok tt else err (invalid_date field value)

unfoldable pub validate_link : ℕ → ExternalLink → Validation
validate_link index link = do
  validate_absolute_uri "external_links.url" link.url
  validate_optional_string "external_links.provider" index link.provider
  validate_optional_string "external_links.label" index link.label
  validate_optional_string "external_links.kind" index link.kind
  validate_optional_string "external_links.external_id" index link.external_id

-- The loop over `external_links`.
unfoldable pub validate_links_from : ℕ → List ExternalLink → Validation
validate_links_from index [] = ok tt
validate_links_from index (link ∷ links) =
    validate_link index link >> validate_links_from (suc index) links

unfoldable pub validate : SourceRecord → Validation
validate r = do
  validate_required "source_name" r.source_name
  validate_required "source_url" r.source_url
  validate_required "title" r.title
  validate_absolute_uri "source_url" r.source_url
  validate_list "performers_raw" r.performers_raw false
  validate_list "cover_urls" r.cover_urls true
  validate_list "page_urls" r.page_urls true
  validate_links_from 0 r.external_links
  validate_date "release_date" r.release_date
  validate_date "post_date" r.post_date

unfoldable pub validate_for_source : SourceRecord → Text → Validation
validate_for_source r source_name = do
  validate r
  guard (text_eq r.source_name source_name) (source_name_mismatch source_name r.source_name)
