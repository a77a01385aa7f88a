-- ===== src/Db/Ingest/Batch.antt =====
-- What a batch of records does to the store.
use magazine_core.Base.{
  some, ℕ, ◌≡◌, refl, ◌∙◌, ap, subst, List, [], ◌∷◌, Option-cases, arith, inl, inr, ok, err,
  Result-cases,
}
use magazine_core.Text.{Text}
use magazine_core.Domain.Record.{SourceRecord, validate}
use magazine_core.Db.Tables.{PostRow, Tables, find_post}
use magazine_core.Db.Ingest.{Engine, Transaction, DbError, ingest_one, ingest_all, ingest_records}
use magazine_core.Db.Ingest.Posts.{Keyed, Survives}
use magazine_core.Db.Ingest.Stored.{stored, put_all}
use magazine_core.Db.Ingest.Refines.{ingest_one-Keyed, ingest_one-put, ingest_one-Survives}

module _ (engine : Engine) where
  -- The batch has gone into the tables, all of it.
  pub record Taken (records : List SourceRecord) (before after : Tables) : Type 0 where
    pub keyed : Keyed after
    pub contents : stored after ≡ put_all engine records (stored before)
    pub survives :
        (n u : Text) (row : PostRow)
        → find_post n u before.posts ≡ some row
        → Survives row (find_post n u after.posts)

  ingest_all-Taken :
      (records : List SourceRecord) (tx : Transaction) {after : Transaction}
      → Keyed tx.tables
      → ingest_all engine records tx ≡ ok (tt, after)
      → Taken records tx.tables after.tables
  unfolding ingest_all
  ingest_all-Taken [] tx {after} keyed e =
      let same : tx ≡ after = ground (arith, e) in
      subst (λ (tx' : Transaction). Taken [] tx.tables tx'.tables) same
        (record { keyed = keyed; contents = refl; survives = λ n u row f. (row, f, refl, refl) })
  ingest_all-Taken (r ∷ records) tx {after} keyed e = elim (Result-cases (validate r)) [
    | inr (h, v) ↦ absurd (ground (arith, e, v))
    | inl (_, v) ↦ elim (Result-cases (ingest_one engine r tx)) [
      | inr (h, q) ↦ absurd (ground (arith, e, v, q))
      | inl ((_, middle), q) ↦
          let left : ingest_all engine records middle ≡ ok (tt, after) = ground (arith, e, v, q) in
          let rest = ingest_all-Taken records middle (ingest_one-Keyed engine r tx keyed q) left in
          record {
            keyed = rest.keyed;
            contents =
                rest.contents ∙ ap (put_all engine records) (ingest_one-put engine r tx keyed q);
            survives = λ n u row f.
                let (next, g, id, first) = ingest_one-Survives engine r tx keyed q n u row f in
                let (later, h, id', first') = rest.survives n u next g in
                (later, h, id' ∙ id, first' ∙ first);
          }
    ]
  ]

  -- Where the rows of the posts are told apart by their ids, a batch that `ingest_records`
  -- accepts has gone into the tables as a whole: the content that they hold under each source and
  -- URL is what the records give one after the other, with the release date known so far where a
  -- record has none; under any other source and URL it is as it was. The content is without ids and
  -- times; but each post that there was is there still, with its id and with the time at which it
  -- was first seen. The rows are still told apart by their ids.
  pub ingest_records-refines :
      (records : List SourceRecord) (t : Tables) {count : ℕ}
      → Keyed t
      → (ingest_records engine records t).0 ≡ ok count
      → Taken records t (ingest_records engine records t).1
  unfolding ingest_records
  ingest_records-refines records t keyed e = elim (Option-cases (engine.fault 0)) [
    | inr (m, f) ↦ absurd (ground (arith, e, f))
    | inl f ↦
        elim (Result-cases (ingest_all engine records (record { tables = t; executed = 1 }))) [
          | inr (h, q) ↦ absurd (ground (arith, e, f, q))
          | inl ((_, tx), q) ↦ elim (Option-cases (engine.fault tx.executed)) [
            | inr (m, g) ↦ absurd (ground (arith, e, f, q, g))
            | inl g ↦
                let committed : tx.tables ≡ (ingest_records engine records t).1 =
                  ground (arith, f, q, g) in
                subst (Taken records t) committed
                  (ingest_all-Taken records (record { tables = t; executed = 1 }) keyed q)
          ]
        ]
  ]

  -- A batch that fails, at whichever record or statement, leaves the tables as they were.
  ingest_records-rolls_back :
      (records : List SourceRecord) (t : Tables) {e : DbError}
      → (ingest_records engine records t).0 ≡ err e
      → (ingest_records engine records t).1 ≡ t
  unfolding ingest_records
  ingest_records-rolls_back records t e = elim (Option-cases (engine.fault 0)) [
    | inr (m, f) ↦ ground (arith, f)
    | inl f ↦
        elim (Result-cases (ingest_all engine records (record { tables = t; executed = 1 }))) [
          | inr (h, q) ↦ ground (arith, f, q)
          | inl ((_, tx), q) ↦ elim (Option-cases (engine.fault tx.executed)) [
            | inr (m, g) ↦ ground (arith, f, q, g)
            | inl g ↦ absurd (ground (arith, e, f, q, g))
          ]
        ]
  ]
