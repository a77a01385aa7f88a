-- ===== src/Db/Schema/Closed.antt =====
-- Files that are not this program's are not opened.
use magazine_core.Base.{
  ℕ, ◌≡◌, ◌⊎◌, ◌↔◌, refl, ap, ◌∙◌, true, ◌==◌, List, [], ◌∷◌, some, any, is_empty, All, ok, arith,
  inl, inr, Bool-cases, Option-cases, List-cases,
}
use magazine_core.Text.{Text, text_eq}
use magazine_core.Db.Schema.{
  I64, pos, negsuc, Table, Schema, columns_of_table, schema_version, expected_core_columns,
  missing_columns, validate_table_columns, validate_schema_tables, validate_schema_for_version,
  ensure_openable, ensure_openable_for_init,
}

-- A table that is there, with all of some columns.
pub record HasTable (tables : List Table) (expected : Table) : Type 0 where
  pub columns : List Text
  pub there : columns_of_table expected.0 tables ≡ some columns
  pub all_columns : All (λ (column : Text). any (text_eq column) columns ≡ true) expected.1

missing_columns-none :
    (actual expected : List Text)
    → is_empty (missing_columns actual expected) ≡ true
    → All (λ (column : Text). any (text_eq column) actual ≡ true) expected
unfolding missing_columns
missing_columns-none actual [] e = tt
missing_columns-none actual (column ∷ expected) e =
    elim (Bool-cases (any (text_eq column) actual)) [
      | inl h ↦ (h, missing_columns-none actual expected (ground (arith, e, h)))
      | inr h ↦ absurd (ground (arith, e, h))
    ]

none-missing_columns :
    (actual expected : List Text)
    → All (λ (column : Text). any (text_eq column) actual ≡ true) expected
    → is_empty (missing_columns actual expected) ≡ true
unfolding missing_columns
none-missing_columns actual [] h = refl
none-missing_columns actual (column ∷ expected) (h, hs) =
    ground (arith, h, none-missing_columns actual expected hs)

valid_tables :
    (tables expected : List Table)
    → validate_schema_tables tables expected ≡ ok tt
    → All (HasTable tables) expected
unfolding validate_schema_tables validate_table_columns
valid_tables tables [] e = tt
valid_tables tables ((table, columns) ∷ expected) e =
    elim (Option-cases (columns_of_table table tables)) [
      | inl f ↦ absurd (ground (arith, e, f))
      | inr (actual, f) ↦ elim (Bool-cases (is_empty (missing_columns actual columns))) [
        | inr m ↦ absurd (ground (arith, e, f, m))
        | inl m ↦ (
          record {
            columns = actual;
            there = f;
            all_columns = missing_columns-none actual columns m;
          },
          valid_tables tables expected (ground (arith, e, f, m)),
        )
      ]
    ]

tables_valid :
    (tables expected : List Table)
    → All (HasTable tables) expected
    → validate_schema_tables tables expected ≡ ok tt
unfolding validate_schema_tables validate_table_columns
tables_valid tables [] h = refl
tables_valid tables ((table, columns) ∷ expected) (h, hs) = ground (
  arith,
  h.there,
  none-missing_columns h.columns columns h.all_columns,
  tables_valid tables expected hs,
)

-- A file of this program: its version, and all its tables with their columns.
pub record IsCore (schema : Schema) : Type 0 where
  pub version : schema_version schema ≡ pos 1
  pub tables : All (HasTable schema.tables) expected_core_columns

-- A file with nothing in it.
pub record IsBlank (schema : Schema) : Type 0 where
  pub version : schema_version schema ≡ pos 0
  pub tables : schema.tables ≡ []

version-cases : (v : I64) → ((n : ℕ) × (v ≡ pos n)) ⊎ ((n : ℕ) × (v ≡ negsuc n))
version-cases (pos n) = inl (n, refl)
version-cases (negsuc n) = inr (n, refl)

opened :
    (schema : Schema) → ensure_openable_for_init schema ≡ ok tt → IsBlank schema ⊎ IsCore schema
unfolding ensure_openable_for_init ensure_openable validate_schema_for_version
opened schema e = elim (version-cases (schema_version schema)) [
  | inr (n, v) ↦ absurd (ground (arith, e, v))
  | inl (n, v) ↦ elim (List-cases schema.tables) [
    | inl t ↦ elim (Bool-cases (n == 0)) [
      | inl z ↦ inl (record { version = v ∙ ap pos (ground (arith, z)); tables = t })
      | inr z ↦ inr (record {
        version = ground (arith, e, v, z);
        tables = valid_tables schema.tables expected_core_columns (ground (arith, e, v, z));
      })
    ]
    | inr (table, rest, t) ↦ elim (Bool-cases (n == 0)) [
      | inl z ↦ absurd (ground (arith, e, v, t, z))
      | inr z ↦ inr (record {
        version = ground (arith, e, v, z);
        tables = valid_tables schema.tables expected_core_columns (ground (arith, e, v, z));
      })
    ]
  ]
]

openable :
    (schema : Schema) → IsBlank schema ⊎ IsCore schema → ensure_openable_for_init schema ≡ ok tt
unfolding ensure_openable_for_init ensure_openable validate_schema_for_version
openable schema (inl h) = ground (arith, h.version, h.tables)
openable schema (inr h) =
    ground (arith, h.version, tables_valid schema.tables expected_core_columns h.tables)

-- An existing file is opened for writing exactly if there is nothing in it, or if it is of this
-- program's version and has each of its tables with all their columns.
pub ensure_openable_for_init_iff :
    (schema : Schema) → (ensure_openable_for_init schema ≡ ok tt) ↔ (IsBlank schema ⊎ IsCore schema)
ensure_openable_for_init_iff schema = (opened schema, openable schema)
