-- ===== src/Tests/Maintaining.antt =====
-- The maintenance command and its pipeline at concrete inputs.
use fleet_stream_real_time_f.Prelude.{ℕ, true, false, [], ◌∷◌, map, ◌≡◌, ◌↔◌, inl, refl, All}
use fleet_stream_real_time_f.Airflow.{Reaches, started, continued, succeeded, failed}
use fleet_stream_real_time_f.Maintenance.{
  MaintenanceResult, maintain_all, maintain, exit_code, has_failed, IsClean, IsMaintained,
  any_failed, compact, expire,
}
use fleet_stream_real_time_f.Maintenance.Command.{
  default_args, tables_of, all_tables, maintain_tables, main, main-IsReported,
}
use fleet_stream_real_time_f.Maintenance.Pipeline.{
  upstream, report_file_counts_before, compact_and_expire, report_file_counts_after, Site, Succeeds,
  Log, IsBracketed, run-IsBracketed,
}
use fleet_stream_real_time_f.Tests.Operating.{answers}
use fleet_stream_real_time_f.Tests.Cataloguing.{catalog}

main-IsReported_example :
    (map
        (λ (r : MaintenanceResult). r.table)
        (maintain_tables answers 1_000_000 catalog default_args 0).0
      ≡ tables_of catalog default_args.tables)
    × All
        (IsMaintained answers 1_000_000 128 72 24 false)
        (maintain_tables answers 1_000_000 catalog default_args 0).0
    × ((main answers 1_000_000 catalog default_args 0 ≡ 0)
        ↔ All IsClean (maintain_tables answers 1_000_000 catalog default_args 0).0)
main-IsReported_example = main-IsReported answers 1_000_000 catalog default_args 0

abbrev site : Site ℕ
site = record { is_reachable = true; catalog = 0; now = 1_000_000 }

abbrev log : Log answers catalog
log =
    (report_file_counts_after, site)
    ∷ (compact_and_expire, site)
    ∷ (report_file_counts_before, site)
    ∷ []

compaction : Succeeds answers catalog compact_and_expire site
unfolding main exit_code maintain_tables maintain_all any_failed maintain compact expire tables_of
    all_tables has_failed
compaction = refl

-- the second count is tried twice
reached : Reaches upstream (Succeeds answers catalog) log
reached =
    continued _ _
      (continued _ _
        (continued _ _ (continued _ _ started (succeeded [] report_file_counts_before site tt refl))
          (succeeded _ compact_and_expire site ((site, inl refl), tt) compaction))
        (failed _ report_file_counts_after ((site, inl refl), tt)))
      (succeeded _ report_file_counts_after site ((site, inl refl), tt) refl)

run-IsBracketed_example : IsBracketed answers catalog log
run-IsBracketed_example = run-IsBracketed answers catalog log reached
