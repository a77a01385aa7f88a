-- ===== src/Db/Query/Ingested.antt =====
-- The records that were ingested are known.
use magazine_core.Base.{
  ℕ, ◌≡◌, refl, sym, subst, ◌∙◌, true, ◌&&◌, List, [], ◌∷◌, Option, none, some, any, All,
  Bool-cases, inl, inr, ok,
}
use magazine_core.Text.{Text, text_eq}
use magazine_core.Text.Laws.{text_eq_iff}
use magazine_core.Json.{is_some}
use magazine_core.Domain.Record.{SourceRecord}
use magazine_core.Db.Tables.{PostRow, Tables, find_post}
use magazine_core.Db.Ingest.{Engine, ingest_records}
use magazine_core.Db.Ingest.Posts.{Keyed}
use magazine_core.Db.Ingest.Stored.{Store, stored, read_found, put, put_all}
use magazine_core.Db.Ingest.Batch.{ingest_records-refines}
use magazine_core.Db.Query.{known_source_urls}
use magazine_core.Db.Query.Known.{known_source_urls-find_post}

module _ (engine : Engine) where
  put_keeps :
      (r : SourceRecord) (store : Store) (n u : Text)
      → is_some (store n u) ≡ true
      → is_some (put engine r store n u) ≡ true
  put_keeps r store n u h = elim (Bool-cases (text_eq n r.source_name && text_eq u r.source_url)) [
    | inl e ↦ rw e refl
    | inr e ↦ rw e h
  ]

  put_all_keeps :
      (records : List SourceRecord) (store : Store) (n u : Text)
      → is_some (store n u) ≡ true
      → is_some (put_all engine records store n u) ≡ true
  put_all_keeps [] store n u h = h
  put_all_keeps (r ∷ records) store n u h =
      put_all_keeps records (put engine r store) n u (put_keeps r store n u h)

  put_has :
      (r : SourceRecord) (store : Store)
      → is_some (put engine r store r.source_name r.source_url) ≡ true
  put_has r store =
      let a = (text_eq_iff r.source_name r.source_name).1 refl in
      let b = (text_eq_iff r.source_url r.source_url).1 refl in rw (a, b) refl

  put_all_has :
      (records : List SourceRecord) (store : Store)
      → All
          (λ (r : SourceRecord).
            is_some (put_all engine records store r.source_name r.source_url) ≡ true)
          records
  put_all_has [] store = tt
  put_all_has (r ∷ records) store = (
    put_all_keeps records (put engine r store) r.source_name r.source_url (put_has r store),
    put_all_has records (put engine r store),
  )

  found_stored :
      (t : Tables) (found : Option PostRow) → is_some (read_found t found) ≡ is_some found
  found_stored t none = refl
  found_stored t (some row) = refl

  All-known :
      (t : Tables) (records : List SourceRecord)
      → All (λ (r : SourceRecord). is_some (stored t r.source_name r.source_url) ≡ true) records
      → All
          (λ (r : SourceRecord).
            any (text_eq r.source_url) (known_source_urls r.source_name t) ≡ true)
          records
  All-known t [] h = tt
  All-known t (r ∷ records) (h, hs) = (
    known_source_urls-find_post r.source_name r.source_url t
        ∙ sym (found_stored t (find_post r.source_name r.source_url t.posts))
        ∙ h,
    All-known t records hs,
  )

  All-stored :
      (s store : Store) (records : List SourceRecord)
      → s ≡ store
      → All (λ (r : SourceRecord). is_some (store r.source_name r.source_url) ≡ true) records
      → All (λ (r : SourceRecord). is_some (s r.source_name r.source_url) ≡ true) records
  All-stored s store records e h =
      subst
        (λ (s : Store).
          All (λ (r : SourceRecord). is_some (s r.source_name r.source_url) ≡ true) records)
        (sym e) h

  -- After a batch that was accepted, by tables whose posts are told apart by their ids, the known
  -- URLs of a record's source have the record's URL, for each record of the batch: a plugin that
  -- asks for them can skip these posts.
  pub ingested_known :
      (records : List SourceRecord) (t : Tables) {count : ℕ}
      → Keyed t
      → (ingest_records engine records t).0 ≡ ok count
      → All
          (λ (r : SourceRecord).
            any
              (text_eq r.source_url)
              (known_source_urls r.source_name (ingest_records engine records t).1)
            ≡ true)
          records
  ingested_known records t keyed e =
      let after = (ingest_records engine records t).1 in
      let taken = ingest_records-refines engine records t keyed e in
      All-known after records (
        All-stored (stored after) (put_all engine records (stored t)) records taken.contents
          (put_all_has records (stored t)))
