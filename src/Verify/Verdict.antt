-- ===== src/Verify/Verdict.antt =====
-- The verdict of src/fleetstream/jobs/verify.py on the tables that src/fleetstream/streaming/silver_transform.py has
-- filled from Bronze.
use fleet_stream_real_time_f.Prelude.Int.{ℤ}
use fleet_stream_real_time_f.Prelude.{
  ◌==◌, String, Option, none, some, Bool, List, [], ◌∷◌, ◌++◌, length, ◌≡◌, ◌≢◌, inl, inr, refl, ap,
  Elem, All, All-append, AllDistinct, Bool-cases,
}
use fleet_stream_real_time_f.Quality.Rules.{Rule, rule_names}
use fleet_stream_real_time_f.Quality.Splitting.{Passes}
use fleet_stream_real_time_f.Silver.Rows.{BronzeRow, SilverRow}
use fleet_stream_real_time_f.Silver.Write.{Lake, Call}
use fleet_stream_real_time_f.Silver.Merge.{IsMerge}
use fleet_stream_real_time_f.Silver.Stream.{IsFed, batches}
use fleet_stream_real_time_f.Verify.Checks.{
  Check, check, Status, fail, check_bronze_has_data, check_idempotency, check_duplicates,
  check_row_conservation, check_reconciliation_balances,
}
use fleet_stream_real_time_f.Verify.Contents.{
  RunManifest, count, is_overheating, check_quarantine, check_late_events, check_business_questions,
  check_manifest_rates,
}
use fleet_stream_real_time_f.Verify.Replay.{
  check_idempotency-pass, check_reconciliation_balances-pass, suc_not_zero,
}
use fleet_stream_real_time_f.Verify.Suite.{exit_code, reading_checks, with_replay, verify}
use fleet_stream_real_time_f.Verify.Exit.{IsUnfailed, exit_code_iff}
use fleet_stream_real_time_f.Verify.Passing.{IsConsistent, batches-pass}
use fleet_stream_real_time_f.Verify.Conserved.{IsProcessed, batches-IsConserved}

business_pass : (lake : Lake) → (check_business_questions lake).status ≢ fail
unfolding check_business_questions
business_pass lake = elim (Bool-cases (count is_overheating lake.silver == 0)) [
  | inl none_yet ↦ simp (none_yet) (λ e. cc)
  | inr some_hot ↦ simp (some_hot) (λ e. cc)
]

ingested :
    (b : BronzeRow) (bronze : List BronzeRow) → (check_bronze_has_data (b ∷ bronze)).status ≢ fail
unfolding check_bronze_has_data
ingested b bronze = simp (suc_not_zero (length bronze)) (λ e. cc)

both-IsUnfailed : (xs ys : List Check) → IsUnfailed xs → IsUnfailed ys → IsUnfailed (xs ++ ys)
both-IsUnfailed xs ys = All-append (λ (c : Check). c.status ≢ fail) xs ys

-- no check that reads fails where none of its groups has a failing check
reading_checks-IsUnfailed :
    (evaluate : ℤ → String → BronzeRow → Option Bool) (rules : List Rule) (sha2 : String → String)
    (merge : List SilverRow → List SilverRow → Option (List SilverRow)) (bronze : List BronzeRow)
    (rates : Check) (lake : Lake)
    → IsUnfailed (check_row_conservation bronze lake ∷ check_duplicates bronze lake)
    → IsUnfailed (check_late_events bronze lake ∷ check_quarantine lake)
    → (check_reconciliation_balances lake.reconciliation).status ≢ fail
    → rates.status ≢ fail
    → IsUnfailed (reading_checks evaluate rules sha2 merge bronze rates lake)
unfolding reading_checks
reading_checks-IsUnfailed evaluate rules sha2 merge bronze rates lake conserved passing balanced
      unfailed =
    let counted = check_duplicates bronze lake in
    let kept = check_row_conservation bronze lake ∷ [] in
    let split = check_quarantine lake in
    let last =
      check_reconciliation_balances lake.reconciliation
      ∷ check_late_events bronze lake
      ∷ check_business_questions lake
      ∷ rates
      ∷ [] in
    both-IsUnfailed (counted ++ kept ++ split) last
      (both-IsUnfailed (counted ++ kept) split
        (both-IsUnfailed counted kept conserved.1 (conserved.0, tt)) passing.1)
      (balanced, (passing.0, (business_pass lake, (unfailed, tt))))

module _ (evaluate : ℤ → String → BronzeRow → Option Bool) (rules : List Rule)
    (sha2 : String → String)
    (merge : List SilverRow → List SilverRow → Option (List SilverRow)) where
  -- there is a report, and its exit code is 0
  abbrev pub Succeeds : Option (List Check) → Type 0
  Succeeds result = (report : List Check) × (result ≡ some report) × (exit_code report ≡ 0)

  replay-Succeeds :
      (checks : List Check) (o : Option Status × Lake)
      → IsUnfailed checks
      → o.0 ≢ some fail
      → o.0 ≢ none
      → Succeeds (with_replay evaluate rules sha2 merge checks o).0
  replay-Succeeds checks (none, lake) h failed raised = absurd (raised refl)
  replay-Succeeds checks (some s, lake) h failed raised =
      let report = checks ++ check "replay is idempotent" s ∷ [] in
      (
        report,
        refl,
        (exit_code_iff report).1 (
            All-append (λ (c : Check). c.status ≢ fail) checks (check "replay is idempotent" s ∷ [])
              h (no_fail s failed, tt)),
      )
    where
      no_fail : (s : Status) → some s ≢ some fail → s ≢ fail
      no_fail s h e = h (ap some e)

module _ (evaluate : ℤ → String → BronzeRow → Option Bool) (rules : List Rule)
    (sha2 : String → String) (merge : List SilverRow → List SilverRow → Option (List SilverRow))
    (lawful : IsMerge merge) (distinct : AllDistinct (rule_names rules)) where
  -- With rules of distinct names and a lawful MERGE, after any sequence of batches of rows of Bronze into empty tables
  -- that has processed each row of Bronze at least once, the verification suite ends with exit code 0. The conditions
  -- are that Bronze is not empty, that its rows of one event_id agree on the time and on whether the critical rules
  -- accept them at the times of the batches, that these accept no row without an event_id, and that the check of the run
  -- manifest neither raises nor fails.
  pub verify-Succeeds :
      (IsTime : ℤ → Type 0) (call : Call evaluate rules sha2 merge) (b : BronzeRow)
      (rest : List BronzeRow) (manifest : RunManifest) (rates : Check)
      (calls : List (Call evaluate rules sha2 merge × List BronzeRow)) (lake : Lake)
      → lake.silver ≡ []
      → lake.quarantine ≡ []
      → lake.reconciliation ≡ []
      → IsConsistent evaluate rules IsTime (b ∷ rest)
      → ((c : BronzeRow) (now : ℤ)
          → IsTime now
          → Elem c (b ∷ rest)
          → Passes (evaluate now) rules c
          → (k : String) × (c.reading.event_id ≡ some k))
      → All (IsFed evaluate rules sha2 merge IsTime (b ∷ rest)) calls
      → ((c : BronzeRow) → Elem c (b ∷ rest) → IsProcessed evaluate rules sha2 merge c calls)
      → check_manifest_rates manifest (batches evaluate rules sha2 merge calls lake) ≡ some rates
      → rates.status ≢ fail
      → Succeeds evaluate rules sha2 merge
          (verify evaluate rules sha2 merge call
            (b ∷ rest)
            manifest
            (batches evaluate rules sha2 merge calls lake)).0
  unfolding verify reading_checks
  verify-Succeeds IsTime call b rest manifest rates calls lake no_silver no_quarantine no_counts
        consistent named within complete checked unfailed =
      let bronze = b ∷ rest in
      let tables = batches evaluate rules sha2 merge calls lake in
      let passing =
        batches-pass evaluate rules IsTime bronze sha2 merge lawful distinct consistent calls lake
          within no_silver no_quarantine in
      let conserved =
        batches-IsConserved evaluate rules sha2 merge lawful distinct IsTime bronze calls lake
          no_silver no_quarantine within complete named in
      let replay = check_idempotency-pass evaluate rules sha2 merge lawful call bronze tables in
      rw (suc_not_zero (length rest), checked)
        (replay-Succeeds evaluate rules sha2 merge
          (check_bronze_has_data bronze
            ∷ reading_checks evaluate rules sha2 merge bronze rates tables)
          (check_idempotency evaluate rules sha2 merge call bronze tables)
          (
            ingested b rest,
            reading_checks-IsUnfailed evaluate rules sha2 merge bronze rates tables conserved
                passing
                (check_reconciliation_balances-pass evaluate rules sha2 merge lawful calls lake
                  no_counts)
                unfailed,
          )
          replay.0 replay.1)
