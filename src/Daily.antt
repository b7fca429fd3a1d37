-- ===== src/Daily.antt =====
-- The tasks of airflow/dags/fleetstream_daily.py: what the checks read and return, and the order of the tasks.
pub mod Run
use fleet_stream_real_time_f.Prelude.{
  ℕ, suc, ◌+◌, ◌/◌, ◌==◌, String, str_eq, Option, none, some, Bool, true, false, ◌&&◌, List, [],
  ◌∷◌, length, if◌then◌else◌,
}
use fleet_stream_real_time_f.Prelude.Int.{ℤ, pos, negsuc, ltb_ℤ, ◌+ℤ◌, ◌-ℤ◌}
use fleet_stream_real_time_f.Reconciliation.{Counts}
use fleet_stream_real_time_f.Silver.Rows.{SilverRow, QuarantineRow}
use fleet_stream_real_time_f.Verify.Checks.{count_unbalanced}

-- What a query finds: Silver, the counters of the last two days, the quarantine of the last day, and the time.
pub record Warehouse : Type 0 where
  pub silver : List SilverRow
  pub recent_counts : List Counts
  pub recent_quarantine : List QuarantineRow
  pub now : ℤ

-- MAX_SOURCE_STALENESS, six hours
abbrev pub max_source_staleness : ℤ
max_source_staleness = pos 21_600_000_000

-- max(processed_at)
unfoldable pub latest_processed : ℤ → List SilverRow → ℤ
latest_processed t [] = t
latest_processed t (s ∷ silver) =
    let later = latest_processed s.processed_at silver in
    let same = latest_processed t silver in if ltb_ℤ t s.processed_at then later else same

-- of the result, all but the text of the latest event time
pub record Freshness : Type 0 where
  pub row_count : ℕ
  pub staleness_seconds : Option ℤ

-- int(...) of a time span, which is falsy when it is zero
abbrev pub seconds : ℤ → Option ℤ
seconds (pos n) = if n == 0 then none else some (pos (n / 1_000_000))
seconds (negsuc n) = some (pos 0 -ℤ pos (suc n / 1_000_000))

-- `none` is a ValueError, here and below.
unfoldable pub validated : ℤ → List SilverRow → Option Freshness
unfolding latest_processed ◌-ℤ◌
validated now [] = none
validated now (s ∷ silver) =
    let staleness = now -ℤ latest_processed s.processed_at silver in
    if ltb_ℤ max_source_staleness staleness
    then none
    else some (record { row_count = length (s ∷ silver); staleness_seconds = seconds staleness })

unfoldable pub validate_source_freshness : Warehouse → Option Freshness
unfolding validated
validate_source_freshness w = validated w.now w.silver

pub record Totals : Type 0 where
  pub batches : ℕ
  pub source : ℤ
  pub rejected : ℤ
  pub output : ℤ

-- coalesce(sum(column), 0)
unfoldable pub total : (Counts → ℤ) → List Counts → ℤ
unfolding ◌+ℤ◌
total column [] = pos 0
total column (c ∷ counts) = column c +ℤ total column counts

unfoldable pub check_reconciliation : Warehouse → Option Totals
unfolding total
check_reconciliation w =
    if length w.recent_counts == 0
    then some (record { batches = 0; source = pos 0; rejected = pos 0; output = pos 0 })
    else if count_unbalanced w.recent_counts == 0
    then some (record {
      batches = length w.recent_counts;
      source = total (λ c. c.source_count) w.recent_counts;
      rejected = total (λ c. c.rejected_count) w.recent_counts;
      output = total (λ c. c.output_count) w.recent_counts;
    })
    else none

-- of the report, all but the name of the first rule
pub record Quality : Type 0 where
  pub total_violations : ℕ
  pub rules_fired : ℕ

abbrev pub same_text : Option String → Option String → Bool
same_text none none = true
same_text (some s) (some t) = str_eq s t
same_text _ _ = false

-- a group of GROUP BY rule_name, rule_severity
abbrev pub same_group : QuarantineRow → QuarantineRow → Bool
same_group p q = str_eq p.rule_name q.rule_name && same_text p.rule_severity q.rule_severity

unfoldable pub has_group : QuarantineRow → List QuarantineRow → Bool
has_group p [] = false
has_group p (q ∷ quarantine) =
    let rest = has_group p quarantine in if same_group p q then true else rest

unfoldable pub count_groups : List QuarantineRow → ℕ
unfolding has_group
count_groups [] = 0
count_groups (q ∷ quarantine) =
    let n = count_groups quarantine in if has_group q quarantine then n else suc n

unfoldable pub quality_report : Warehouse → Quality
unfolding count_groups
quality_report w = record {
  total_violations = length w.recent_quarantine;
  rules_fired = count_groups w.recent_quarantine;
}

pub data Task : Type 0 where
  validate_source : Task
  reconcile : Task
  dbt_build : Task
  dbt_test : Task
  report_quality : Task
  publish_summary : Task

-- freshness >> reconciliation >> build >> test >> quality, and the arguments of publish_summary
abbrev pub upstream : Task → List Task
upstream validate_source = []
upstream reconcile = validate_source ∷ []
upstream dbt_build = reconcile ∷ []
upstream dbt_test = dbt_build ∷ []
upstream report_quality = dbt_test ∷ []
upstream publish_summary = validate_source ∷ reconcile ∷ report_quality ∷ []
