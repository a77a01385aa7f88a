-- ===== src/Db/Ingest/Numbered.antt =====
-- The ids of the posts: each is larger than those before it, and none is larger than the largest
-- that was given.
use magazine_core.Base.{
  ℕ, ◌+◌, ◌≡◌, ◌<◌, ◌≤◌, subst, List, [], ◌∷◌, ◌++◌, All, arith, inl, inr, ok, Result-cases,
  Option-cases,
}
use magazine_core.Domain.Record.{SourceRecord, validate}
use magazine_core.Db.Tables.{PostRow, Tables}
use magazine_core.Db.Ingest.{Engine, Transaction, ingest_one, ingest_all, ingest_records}
use magazine_core.Db.Ingest.Posts.{Keyed, ids_of}
use magazine_core.Db.Ingest.Refines.{ingest_one-Keyed, ingest_one-Ingested}
use magazine_core.Db.Query.Paging.{Ascending}

-- Ids in order, above a first bound and up to a last one.
abbrev pub Between : ℕ → List ℕ → ℕ → Type 0
Between low [] high = low ≤ high
Between low (id ∷ ids) high = (low < id) × Between id ids high

abbrev pub Numbered : Tables → Type 0
Numbered t = Between 0 (ids_of t.posts) t.sequence

Between-append :
    (low : ℕ) (ids : List ℕ) (high : ℕ)
    → Between low ids high
    → Between low (ids ++ (high + 1) ∷ []) (high + 1)
Between-append low [] high h = (omega (arith, h), omega arith)
Between-append low (id ∷ ids) high (h, hs) = (h, Between-append id ids high hs)

Between-above :
    (low : ℕ) (rows : List PostRow) (high : ℕ) (a : ℕ)
    → a ≤ low
    → Between low (ids_of rows) high
    → All (λ (row : PostRow). a < row.id) rows
Between-above low [] high a l h = tt
Between-above low (row ∷ rows) high a l (h, hs) =
    (omega (arith, l, h), Between-above row.id rows high a (omega (arith, l, h)) hs)

Between-Ascending :
    (low : ℕ) (rows : List PostRow) (high : ℕ) → Between low (ids_of rows) high → Ascending rows
Between-Ascending low [] high h = tt
Between-Ascending low (row ∷ rows) high (h, hs) =
    (Between-above row.id rows high row.id (omega arith) hs, Between-Ascending row.id rows high hs)

pub Numbered-Ascending : (t : Tables) → Numbered t → Ascending t.posts
Numbered-Ascending t h = Between-Ascending 0 t.posts t.sequence h

pub Numbered-positive : (t : Tables) → Numbered t → All (λ (row : PostRow). 0 < row.id) t.posts
Numbered-positive t h = Between-above 0 t.posts t.sequence 0 (omega arith) h

still : {t after : Tables} → t ≡ after → Keyed t × Numbered t → Keyed after × Numbered after
still e = subst (λ t. Keyed t × Numbered t) e

module _ (engine : Engine) where
  ingest_one-Numbered :
      (r : SourceRecord) (tx : Transaction) {after : Transaction}
      → Keyed tx.tables
      → Numbered tx.tables
      → ingest_one engine r tx ≡ ok (tt, after)
      → Numbered after.tables
  ingest_one-Numbered r tx keyed h e =
      let x = ingest_one-Ingested engine r tx keyed e in
      elim x.written.ids [
        | inl (ids, s) ↦ rw (x.posts, x.sequence, ids, s) h
        | inr (ids, s) ↦
            rw (x.posts, x.sequence, ids, s)
              (Between-append 0 (ids_of tx.tables.posts) tx.tables.sequence h)
      ]

  ingest_all-Numbered :
      (records : List SourceRecord) (tx : Transaction) {after : Transaction}
      → Keyed tx.tables
      → Numbered tx.tables
      → ingest_all engine records tx ≡ ok (tt, after)
      → Keyed after.tables × Numbered after.tables
  unfolding ingest_all
  ingest_all-Numbered [] tx {after} keyed h e =
      let same : tx ≡ after = ground (arith, e) in
      subst (λ (tx' : Transaction). Keyed tx'.tables × Numbered tx'.tables) same (keyed, h)
  ingest_all-Numbered (r ∷ records) tx {after} keyed h e = elim (Result-cases (validate r)) [
    | inr (m, v) ↦ absurd (ground (arith, e, v))
    | inl (_, v) ↦ elim (Result-cases (ingest_one engine r tx)) [
      | inr (m, q) ↦ absurd (ground (arith, e, v, q))
      | inl ((_, middle), q) ↦
          let left : ingest_all engine records middle ≡ ok (tt, after) = ground (arith, e, v, q) in
          ingest_all-Numbered records middle (ingest_one-Keyed engine r tx keyed q)
            (ingest_one-Numbered r tx keyed h q) left
    ]
  ]

  -- Whatever a batch does, accepted or not, the ids of the posts stay in order, if they were, and
  -- the rows are told apart by them: no id is given twice, and none is larger than the largest
  -- that was given.
  pub ingest_records-Numbered :
      (records : List SourceRecord) (t : Tables)
      → Keyed t
      → Numbered t
      → Keyed (ingest_records engine records t).1 × Numbered (ingest_records engine records t).1
  unfolding ingest_records
  ingest_records-Numbered records t keyed h = elim (Option-cases (engine.fault 0)) [
    | inr (m, f) ↦ still (ground (arith, f)) (keyed, h)
    | inl f ↦
        elim (Result-cases (ingest_all engine records (record { tables = t; executed = 1 }))) [
          | inr (m, q) ↦ still (ground (arith, f, q)) (keyed, h)
          | inl ((_, tx), q) ↦ elim (Option-cases (engine.fault tx.executed)) [
            | inr (m, g) ↦ still (ground (arith, f, q, g)) (keyed, h)
            | inl g ↦
                still (ground (arith, f, q, g))
                  (ingest_all-Numbered records (record { tables = t; executed = 1 }) keyed h q)
          ]
        ]
  ]
