-- ===== src/Maintenance/Command.antt =====
-- `main` of src/fleetstream/maintenance/table_maintenance.py, from the parsed arguments on.
use fleet_stream_real_time_f.Prelude.{
  ℕ, String, Option, none, some, Bool, false, List, [], ◌∷◌, map, ◌≡◌, ◌↔◌, All,
}
use fleet_stream_real_time_f.Config.Parts.{CatalogConfig}
use fleet_stream_real_time_f.Catalog.{
  table_name, bronze_telemetry, silver_telemetry, silver_quarantine, platform_reconciliation,
}
use fleet_stream_real_time_f.Maintenance.{
  MaintenanceResult, Statement, Row, Reply, maintain_all, exit_code, IsClean, IsMaintained,
  maintain_all-IsReported,
}

pub record Args : Type 0 where
  pub tables : Option (List String)
  pub target_file_size_mb : ℕ
  pub snapshot_retention_hours : ℕ
  pub orphan_retention_hours : ℕ
  pub skip_orphans : Bool

-- what the parser gives without arguments
abbrev pub default_args : Args
default_args = record {
  tables = none;
  target_file_size_mb = 128;
  snapshot_retention_hours = 72;
  orphan_retention_hours = 24;
  skip_orphans = false;
}

unfoldable pub all_tables : CatalogConfig → List String
unfolding table_name
all_tables c =
    table_name c c.bronze bronze_telemetry
    ∷ table_name c c.silver silver_telemetry
    ∷ table_name c c.silver silver_quarantine
    ∷ table_name c c.platform platform_reconciliation
    ∷ []

-- `args.tables or [...]`: no tables and an empty list of them are both all
unfoldable pub tables_of : CatalogConfig → Option (List String) → List String
unfolding all_tables
tables_of c none = all_tables c
tables_of c (some []) = all_tables c
tables_of c (some (t ∷ tables)) = t ∷ tables

module _ {C : Type 0} (sql : Statement → C → Reply (List Row) × C) where
  -- the results, one for each table, and the catalog after it
  unfoldable pub maintain_tables : ℕ → CatalogConfig → Args → C → List MaintenanceResult × C
  unfolding tables_of
  maintain_tables now cfg args c =
      maintain_all sql now args.target_file_size_mb args.snapshot_retention_hours
        args.orphan_retention_hours args.skip_orphans (tables_of cfg args.tables) c

  -- the exit code
  unfoldable pub main : ℕ → CatalogConfig → Args → C → ℕ
  unfolding maintain_tables
  main now cfg args c = exit_code (maintain_tables now cfg args c).0

  -- The command maintains the tables that it is given, or Bronze, Silver, the quarantine and the counters if it is
  -- given none, each once, in that order and whatever fails, and each result is that of `maintain` on its table; it
  -- ends with exit code 0 exactly when every result has no error, or one whose text is empty.
  pub main-IsReported :
      (now : ℕ) (cfg : CatalogConfig) (args : Args) (c : C)
      → let results = (maintain_tables now cfg args c).0 in
        (map (λ (r : MaintenanceResult). r.table) results ≡ tables_of cfg args.tables)
        × All
            (IsMaintained sql now args.target_file_size_mb args.snapshot_retention_hours
              args.orphan_retention_hours args.skip_orphans)
            results
        × ((main now cfg args c ≡ 0) ↔ All IsClean results)
  unfolding main maintain_tables
  main-IsReported now cfg args c =
      maintain_all-IsReported sql now args.target_file_size_mb args.snapshot_retention_hours
        args.orphan_retention_hours args.skip_orphans (tables_of cfg args.tables) c
