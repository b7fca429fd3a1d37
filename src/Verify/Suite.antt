-- ===== src/Verify/Suite.antt =====
-- `main` of src/fleetstream/jobs/verify.py: all checks in their order, and the exit code.
use fleet_stream_real_time_f.Prelude.Int.{ℤ}
use fleet_stream_real_time_f.Prelude.{
  ℕ, String, Option, none, some, Bool, List, [], ◌∷◌, ◌++◌, length, ◌==◌, if◌then◌else◌,
}
use fleet_stream_real_time_f.Quality.Rules.{Rule}
use fleet_stream_real_time_f.Silver.Rows.{BronzeRow, SilverRow}
use fleet_stream_real_time_f.Silver.Write.{Lake, Call}
use fleet_stream_real_time_f.Verify.Checks.{
  Check, check, Status, failed_checks, check_bronze_has_data, check_duplicates,
  check_row_conservation, check_reconciliation_balances, check_idempotency,
}
use fleet_stream_real_time_f.Verify.Contents.{
  check_quarantine, check_late_events, check_business_questions, RunManifest, check_manifest_rates,
}

-- the exit code of a report
unfoldable pub exit_code : List Check → ℕ
unfolding failed_checks
exit_code report = if length (failed_checks report) == 0 then 0 else 1

module _ (evaluate : ℤ → String → BronzeRow → Option Bool) (rules : List Rule)
    (sha2 : String → String)
    (merge : List SilverRow → List SilverRow → Option (List SilverRow)) where
  -- the checks that only read, that of the manifest given
  unfoldable pub reading_checks : List BronzeRow → Check → Lake → List Check
  reading_checks bronze rates lake =
      check_duplicates bronze lake
      ++ check_row_conservation bronze lake ∷ []
      ++ check_quarantine lake
      ++ check_reconciliation_balances lake.reconciliation
        ∷ check_late_events bronze lake
        ∷ check_business_questions lake
        ∷ rates
        ∷ []

  abbrev pub with_replay : List Check → Option Status × Lake → Option (List Check) × Lake
  with_replay checks (none, lake) = (none, lake)
  with_replay checks (some status, lake) =
      (some (checks ++ check "replay is idempotent" status ∷ []), lake)

  -- the replay comes last, and not at all where the check of the manifest raises
  abbrev pub with_rates :
      Call evaluate rules sha2 merge
      → List BronzeRow
      → Lake
      → Option Check
      → Option (List Check) × Lake
  with_rates call bronze lake none = (none, lake)
  with_rates call bronze lake (some rates) =
      with_replay (check_bronze_has_data bronze ∷ reading_checks bronze rates lake)
        (check_idempotency evaluate rules sha2 merge call bronze lake)

  -- the report, `none` where a check raises, and the tables afterwards
  unfoldable pub verify :
      Call evaluate rules sha2 merge
      → List BronzeRow
      → RunManifest
      → Lake
      → Option (List Check) × Lake
  unfolding reading_checks
  verify call bronze manifest lake =
      if length bronze == 0
      then (some (check_bronze_has_data bronze ∷ []), lake)
      else with_rates call bronze lake (check_manifest_rates manifest lake)
