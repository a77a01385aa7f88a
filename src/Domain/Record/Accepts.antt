-- ===== src/Domain/Record/Accepts.antt =====
-- The records that `validate` accepts, and the item that a list's error names.
use magazine_core.Base.{
  ℕ, suc, ◌+◌, ◌≡◌, ◌↔◌, refl, String, true, false, List, [], ◌∷◌, ◌++◌, some, none, Option, All,
  arith, length, ok, err, ◌>>◌,
}
use magazine_core.Text.{Text}
use magazine_core.Text.Laws.{IsBlank, trim-empty_iff, text_eq_iff}
use magazine_core.Domain.Uri.Decides.{IsAbsoluteUri, is_absolute_uri_iff}
use magazine_core.Domain.Date.Calendar.{IsDate, format_date, is_valid_yyyy_mm_dd_iff}
use magazine_core.Domain.Record.{
  ExternalLink, SourceRecord, empty_list_item, invalid_uri, Validation, validate_required,
  validate_absolute_uri, validate_list_from, validate_list, validate_optional_string, validate_date,
  validate_link, validate_links_from, validate, validate_for_source,
}

abbrev pub IsFilled : Option Text → Type 0
IsFilled none = Unit
IsFilled (some s) = ¬ IsBlank s

-- No date, or a printed day of the calendar.
abbrev pub IsDated : Option Text → Type 0
IsDated none = Unit
IsDated (some s) = (y m d : ℕ) × IsDate y m d × (s ≡ format_date y m d)

pub record IsLink (link : ExternalLink) : Type 0 where
  pub url : IsAbsoluteUri link.url
  pub provider : IsFilled link.provider
  pub label : IsFilled link.label
  pub kind : IsFilled link.kind
  pub external_id : IsFilled link.external_id

-- The contract of a record, field by field.
pub record IsValid (r : SourceRecord) : Type 0 where
  pub source_name : ¬ IsBlank r.source_name
  pub source_url : ¬ IsBlank r.source_url × IsAbsoluteUri r.source_url
  pub title : ¬ IsBlank r.title
  pub performers : All (λ s. ¬ IsBlank s) r.performers_raw
  pub covers : All (λ s. ¬ IsBlank s × IsAbsoluteUri s) r.cover_urls
  pub pages : All (λ s. ¬ IsBlank s × IsAbsoluteUri s) r.page_urls
  pub links : All IsLink r.external_links
  pub release_date : IsDated r.release_date
  pub post_date : IsDated r.post_date

validate_required_iff :
    (field : String) (s : Text) → (validate_required field s ≡ ok tt) ↔ (¬ IsBlank s)
unfolding validate_required
validate_required_iff field s = ground (arith, trim-empty_iff s)

validate_absolute_uri_iff :
    (field : String) (s : Text) → (validate_absolute_uri field s ≡ ok tt) ↔ IsAbsoluteUri s
unfolding validate_absolute_uri
validate_absolute_uri_iff field s = ground (arith, is_absolute_uri_iff s)

validate_optional_string_iff :
    (field : String) (i : ℕ) (o : Option Text)
    → (validate_optional_string field i o ≡ ok tt) ↔ IsFilled o
unfolding validate_optional_string
validate_optional_string_iff field i none = ground arith
validate_optional_string_iff field i (some s) = ground (arith, trim-empty_iff s)

validate_date_iff : (field : String) (o : Option Text) → (validate_date field o ≡ ok tt) ↔ IsDated o
unfolding validate_date
validate_date_iff field none = ground arith
validate_date_iff field (some s) = ground (arith, is_valid_yyyy_mm_dd_iff s)

validate_list_plain_iff :
    (i : ℕ) (field : String) (l : List Text)
    → (validate_list_from i field l false ≡ ok tt) ↔ All (λ s. ¬ IsBlank s) l
unfolding validate_list_from
validate_list_plain_iff i field [] = ground arith
validate_list_plain_iff i field (s ∷ l) =
    ground (arith, trim-empty_iff s, validate_list_plain_iff (suc i) field l)

>>-ok_iff : (m k : Validation) → ((m >> k) ≡ ok tt) ↔ ((m ≡ ok tt) × (k ≡ ok tt))
>>-ok_iff (ok tt) k = (λ e. (refl, e), λ (_, e). e)
>>-ok_iff (err e) k = ground arith

validate_list_uri_iff :
    (i : ℕ) (field : String) (l : List Text)
    → (validate_list_from i field l true ≡ ok tt) ↔ All (λ s. ¬ IsBlank s × IsAbsoluteUri s) l
unfolding validate_list_from
validate_list_uri_iff i field [] = ground arith
validate_list_uri_iff i field (s ∷ l) = ground (
  arith,
  trim-empty_iff s,
  validate_absolute_uri_iff field s,
  >>-ok_iff (validate_absolute_uri field s) (validate_list_from (suc i) field l true),
  validate_list_uri_iff (suc i) field l,
)

validate_link_iff : (i : ℕ) (link : ExternalLink) → (validate_link i link ≡ ok tt) ↔ IsLink link
unfolding validate_link
validate_link_iff i link = ground (
  arith,
  validate_absolute_uri_iff "external_links.url" link.url,
  validate_optional_string_iff "external_links.provider" i link.provider,
  validate_optional_string_iff "external_links.label" i link.label,
  validate_optional_string_iff "external_links.kind" i link.kind,
  validate_optional_string_iff "external_links.external_id" i link.external_id,
)

validate_links_iff :
    (i : ℕ) (links : List ExternalLink) → (validate_links_from i links ≡ ok tt) ↔ All IsLink links
unfolding validate_links_from
validate_links_iff i [] = ground arith
validate_links_iff i (link ∷ links) =
    ground (arith, validate_link_iff i link, validate_links_iff (suc i) links)

-- `validate` accepts exactly the records of the contract.
pub validate_iff : (r : SourceRecord) → (validate r ≡ ok tt) ↔ IsValid r
unfolding validate validate_list
validate_iff r = ground (
  arith,
  validate_required_iff "source_name" r.source_name,
  validate_required_iff "source_url" r.source_url,
  validate_required_iff "title" r.title,
  validate_absolute_uri_iff "source_url" r.source_url,
  validate_list_plain_iff 0 "performers_raw" r.performers_raw,
  validate_list_uri_iff 0 "cover_urls" r.cover_urls,
  validate_list_uri_iff 0 "page_urls" r.page_urls,
  validate_links_iff 0 r.external_links,
  validate_date_iff "release_date" r.release_date,
  validate_date_iff "post_date" r.post_date,
)

-- `validate_for_source` accepts exactly the records of the contract that name the source.
pub validate_for_source_iff :
    (r : SourceRecord) (source_name : Text)
    → (validate_for_source r source_name ≡ ok tt) ↔ (IsValid r × (r.source_name ≡ source_name))
unfolding validate_for_source
validate_for_source_iff r source_name =
    ground (arith, validate_iff r, text_eq_iff r.source_name source_name)

-- A list is refused at its first bad item: the items before it are in order.
pub validate_list_names_first :
    (field : String) (front back : List Text) (bad : Text) (i : ℕ)
    → All (λ s. ¬ IsBlank s × IsAbsoluteUri s) front
    → (IsBlank bad
        → validate_list_from i field (front ++ bad ∷ back) true
          ≡ err (empty_list_item field (i + length front)))
      × (¬ IsBlank bad
          → ¬ IsAbsoluteUri bad
          → validate_list_from i field (front ++ bad ∷ back) true ≡ err (invalid_uri field bad))
unfolding validate_list_from validate_absolute_uri
validate_list_names_first field [] back bad i h =
    ground (arith, trim-empty_iff bad, is_absolute_uri_iff bad)
validate_list_names_first field (s ∷ front) back bad i h = ground (
  arith,
  trim-empty_iff s,
  is_absolute_uri_iff s,
  validate_list_names_first field front back bad (suc i) h.1,
)
