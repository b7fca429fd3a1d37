-- ===== src/Catalog.antt =====
-- src/fleetstream/common/iceberg.py and src/fleetstream/jobs/bootstrap_catalog.py: the statements that create the
-- namespaces and tables, and the smoke test. What SQL does with a statement is a parameter.
pub mod Settled
use Prim.Native.String.{String, ◌++◌}
use fleet_stream_real_time_f.Prelude.{
  ℕ, ◌==◌, ◌>>=◌, Option, none, some, Bool, true, false, List, [], ◌∷◌,
}
use fleet_stream_real_time_f.Config.Parts.{CatalogConfig}
use fleet_stream_real_time_f.Schemas.{columns, spark, bronze_columns, silver_columns}
use fleet_stream_real_time_f.Schemas.Fields.{FieldSpec, quarantine_fields, reconciliation_fields}

abbrev pub bronze_telemetry : String
bronze_telemetry = "telemetry_raw"

abbrev pub silver_telemetry : String
silver_telemetry = "telemetry"

abbrev pub silver_quarantine : String
silver_quarantine = "telemetry_quarantine"

abbrev pub platform_reconciliation : String
platform_reconciliation = "reconciliation"

unfoldable pub table_name : CatalogConfig → String → String → String
table_name c namespace table = c.name ++ ("." ++ (namespace ++ ("." ++ table)))

-- Whether the statement says IF NOT EXISTS; of a table its name, its columns as they are rendered, and the column whose
-- days partition it.
pub data Statement : Type 0 where
  create_namespace : Bool → String → Statement
  create_table : Bool → String → String → String → Statement

abbrev pub table_of : CatalogConfig → String → String → List FieldSpec → String → Statement
table_of c namespace table fields partition =
    create_table true (table_name c namespace table) (columns fields spark "    ") partition

unfoldable pub bootstrap_statements : CatalogConfig → List Statement
unfolding bronze_columns silver_columns columns table_name
bootstrap_statements c =
    create_namespace true (c.name ++ ("." ++ c.bronze))
    ∷ create_namespace true (c.name ++ ("." ++ c.silver))
    ∷ create_namespace true (c.name ++ ("." ++ c.gold))
    ∷ create_namespace true (c.name ++ ("." ++ c.platform))
    ∷ table_of c c.bronze bronze_telemetry bronze_columns "event_time"
    ∷ table_of c c.silver silver_telemetry silver_columns "event_time"
    ∷ table_of c c.silver silver_quarantine quarantine_fields "quarantined_at"
    ∷ table_of c c.platform platform_reconciliation reconciliation_fields "recorded_at"
    ∷ []

-- What the code asks of SQL. `none` is an exception. `create` is for the statements above, the others act on the
-- smoke table.
pub record Sql (C : Type 0) : Type 0 where
  pub create : Statement → C → Option C
  pub drop_if_exists : String → C → Option C
  pub create_smoke : String → C → Option C
  pub insert : String → ℕ → String → C → Option C
  pub select : String → C → Option (List (ℕ × String))
  pub drop : String → C → Option C

module _ {C : Type 0} (sql : Sql C) where
  unfoldable pub create_all : List Statement → C → Option C
  create_all [] c = some c
  create_all (s ∷ statements) c = sql.create s c >>= create_all statements

  unfoldable pub bootstrap : CatalogConfig → C → Option C
  unfolding create_all
  bootstrap cfg c = create_all (bootstrap_statements cfg) c

  -- one row, with the identifier 1
  abbrev pub is_expected : List (ℕ × String) → Bool
  is_expected ((id, note) ∷ []) = id == 1
  is_expected _ = false

  -- the exit code and the catalog; the smoke table stays where the test fails
  abbrev pub concluded : String → C → Bool → Option (ℕ × C)
  concluded smoke c true = sql.drop smoke c >>= λ dropped. some (0, dropped)
  concluded smoke c false = some (1, c)

  unfoldable pub smoke_test : String → C → Option (ℕ × C)
  smoke_test smoke c = sql.drop_if_exists smoke c >>= λ clean.
      sql.create_smoke smoke clean >>= λ created.
      sql.insert smoke 1 "round-trip through MinIO" created >>= λ filled.
      sql.select smoke filled >>= λ rows. concluded smoke filled (is_expected rows)

  -- main, without the listing of tables
  unfoldable pub main : CatalogConfig → C → Option (ℕ × C)
  unfolding bootstrap smoke_test table_name
  main cfg c =
      bootstrap cfg c >>= λ ready. smoke_test (table_name cfg cfg.platform "smoke_test") ready
