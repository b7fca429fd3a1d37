-- ===== src/Maintenance/Pipeline.antt =====
-- airflow/dags/fleetstream_maintenance.py: the counts of files, and the order of the tasks. What Trino and the
-- catalog are at the time of an attempt is part of what a task finds.
use Prim.Native.String.{◌++◌ as concat}
use fleet_stream_real_time_f.Prelude.{
  ℕ, ◌/◌, String, Option, Bool, true, List, [], ◌∷◌, ◌++◌, map, ◌≡◌, inl, refl, Elem, All,
}
use fleet_stream_real_time_f.Airflow
use fleet_stream_real_time_f.Config.Parts.{CatalogConfig}
use fleet_stream_real_time_f.Maintenance.{
  MaintenanceResult, Statement, Row, Reply, ok, raised, or_zero, IsClean,
}
use fleet_stream_real_time_f.Maintenance.Command.{
  Args, default_args, all_tables, tables_of, maintain_tables, main, main-IsReported,
}

-- the arguments of the container: --skip-orphans
abbrev pub scheduled_args : Args
scheduled_args = record default_args { skip_orphans = true }

-- A table's number of files and their average size; of the average, the whole bytes.
abbrev pub FileQuery : Type 0
FileQuery = String → String → Reply (ℕ × Option ℕ)

abbrev label : String → String → String → String
label schema table suffix = concat schema (concat "." (concat table suffix))

-- what an exception leaves out
unfoldable pub counts_of : String → String → Reply (ℕ × Option ℕ) → List (String × ℕ)
counts_of schema table (ok (files, avg_size)) =
    (label schema table ".files", files)
    ∷ (label schema table ".avg_mb", or_zero avg_size / 1024 / 1024)
    ∷ []
counts_of schema table (raised e) = []

unfoldable pub report_file_counts : FileQuery → List (String × ℕ)
unfolding counts_of
report_file_counts query =
    counts_of "bronze" "telemetry_raw" (query "bronze" "telemetry_raw")
    ++ counts_of "silver" "telemetry" (query "silver" "telemetry")

pub data Task : Type 0 where
  report_file_counts_before : Task
  compact_and_expire : Task
  report_file_counts_after : Task

-- before >> compact >> after
abbrev pub upstream : Task → List Task
upstream report_file_counts_before = []
upstream compact_and_expire = report_file_counts_before ∷ []
upstream report_file_counts_after = compact_and_expire ∷ []

-- What a task finds: whether Trino can be reached, and the catalog with the clock.
pub record Site (C : Type 0) : Type 0 where
  pub is_reachable : Bool
  pub catalog : C
  pub now : ℕ

module _ {C : Type 0} (sql : Statement → C → Reply (List Row) × C) (cfg : CatalogConfig) where
  -- Only the connection makes a count fail; the container succeeds with exit code 0.
  abbrev pub Succeeds : Task → Site C → Type 0
  Succeeds compact_and_expire w = main sql w.now cfg scheduled_args w.catalog ≡ 0
  Succeeds _ w = w.is_reachable ≡ true

  abbrev pub Log : Type 0
  Log = Airflow.Log upstream Succeeds

  -- The job has gone through the four tables, with no error or one without a text, after a count.
  abbrev pub IsMaintained : Log → Type 0
  IsMaintained log =
      ((w : Site C) × Elem (compact_and_expire, w) log
        × (let results = (maintain_tables sql w.now cfg scheduled_args w.catalog).0 in
            (map (λ (r : MaintenanceResult). r.table) results ≡ all_tables cfg)
            × All IsClean results))
      × ((w : Site C) × Elem (report_file_counts_before, w) log)

  -- so it is when the second count is made
  abbrev pub IsBracketed : Log → Type 0
  IsBracketed [] = Unit
  IsBracketed ((report_file_counts_after, w) ∷ log) = IsMaintained log × IsBracketed log
  IsBracketed ((_, w) ∷ log) = IsBracketed log

  maintained :
      (log : Log)
      → Airflow.IsRun upstream Succeeds log
      → Airflow.Done upstream Succeeds log compact_and_expire
      → IsMaintained log
  unfolding tables_of
  maintained log run (w, h) =
      let reported = main-IsReported sql w.now cfg scheduled_args w.catalog in
      (
        (
          w,
          h,
          (
            reported.0,
            reported.2.0 (Airflow.success upstream Succeeds log compact_and_expire w run h),
          ),
        ),
        Airflow.upstream-Done upstream Succeeds log compact_and_expire report_file_counts_before run
            (inl refl) (w, h),
      )

  bracketed : (log : Log) → Airflow.IsRun upstream Succeeds log → IsBracketed log
  bracketed [] run = tt
  bracketed ((report_file_counts_before, w) ∷ log) run = bracketed log run.2
  bracketed ((compact_and_expire, w) ∷ log) run = bracketed log run.2
  bracketed ((report_file_counts_after, w) ∷ log) run =
      (maintained log run.2 run.0.0, bracketed log run.2)

  -- However a run of the maintenance pipeline goes, retries included: when files are counted the second time, the Spark
  -- job has ended with a result for each of Bronze, Silver, the quarantine and the counters, and every result has no
  -- error, or one whose text is empty; and a first count has been made.
  pub run-IsBracketed : (log : Log) → Airflow.Reaches upstream Succeeds log → IsBracketed log
  run-IsBracketed log run = bracketed log (Airflow.IsRun-of upstream Succeeds log run)
