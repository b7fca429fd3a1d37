-- ===== src/Daily/Run.antt =====
-- Runs of the graph of airflow/dags/fleetstream_daily.py. Airflow starts a task when all tasks upstream of it
-- have succeeded, and starts it again when it has failed; between two attempts the tables may change.
use fleet_stream_real_time_f.Prelude.{
  ◌==◌, none, false, List, [], ◌∷◌, length, ◌≡◌, ◌≢◌, inl, inr, refl, All, Elem, Bool-cases, arith,
}
use fleet_stream_real_time_f.Prelude.Int.{ℤ, ◌-ℤ◌, ltb_ℤ}
use fleet_stream_real_time_f.Reconciliation.{Counts}
use fleet_stream_real_time_f.Silver.Rows.{SilverRow}
use fleet_stream_real_time_f.Verify.Checks.{count_unbalanced}
use fleet_stream_real_time_f.Airflow
use fleet_stream_real_time_f.Daily.{
  Warehouse, Task, validate_source, reconcile, dbt_build, dbt_test, report_quality, publish_summary,
  upstream, validated, validate_source_freshness, check_reconciliation, latest_processed,
  max_source_staleness,
}

-- what the tasks with checks need to succeed; the others may succeed or fail
abbrev pub Succeeds : Task → Warehouse → Type 0
Succeeds validate_source w = validate_source_freshness w ≢ none
Succeeds reconcile w = check_reconciliation w ≢ none
Succeeds _ w = Unit

abbrev pub Log : Type 0
Log = Airflow.Log upstream Succeeds

abbrev Done : Log → Task → Type 0
Done = Airflow.Done upstream Succeeds

abbrev pub Reaches : Log → Type 0
Reaches = Airflow.Reaches upstream Succeeds

-- Silver has rows, the last of them written at most six hours before.
abbrev pub IsFresh : Warehouse → Type 0
IsFresh w =
    (s : SilverRow) × ((silver : List SilverRow) × (w.silver ≡ s ∷ silver)
      × (ltb_ℤ max_source_staleness (w.now -ℤ latest_processed s.processed_at silver) ≡ false))

-- both checks have passed
abbrev pub IsChecked : Log → Type 0
IsChecked log =
    ((w : Warehouse) × (Elem (reconcile, w) log × (count_unbalanced w.recent_counts ≡ 0)))
    × ((w : Warehouse) × (Elem (validate_source, w) log × IsFresh w))

-- Whatever comes after the two checks came after both had passed.
abbrev pub IsGuarded : Log → Type 0
IsGuarded [] = Unit
IsGuarded ((validate_source, w) ∷ log) = IsGuarded log
IsGuarded ((reconcile, w) ∷ log) = IsGuarded log
IsGuarded ((t, w) ∷ log) = IsChecked log × IsGuarded log

abbrev IsRun : Log → Type 0
IsRun = Airflow.IsRun upstream Succeeds

none_unbalanced : (counts : List Counts) → length counts ≡ 0 → count_unbalanced counts ≡ 0
unfolding count_unbalanced
none_unbalanced [] h = refl
none_unbalanced (c ∷ counts) h = absurd (omega arith)

reconciled : (w : Warehouse) → check_reconciliation w ≢ none → count_unbalanced w.recent_counts ≡ 0
unfolding check_reconciliation
reconciled w ok = elim (Bool-cases (length w.recent_counts == 0)) [
  | inl empty ↦ none_unbalanced w.recent_counts (ground arith)
  | inr counted ↦ elim (Bool-cases (count_unbalanced w.recent_counts == 0)) [
    | inl balanced ↦ ground arith
    | inr unbalanced ↦ absurd (ok (simp (counted, unbalanced) refl))
  ]
]

fresh_rows :
    (now : ℤ) (rows : List SilverRow)
    → validated now rows ≢ none
    → (s : SilverRow) × ((silver : List SilverRow) × (rows ≡ s ∷ silver)
        × (ltb_ℤ max_source_staleness (now -ℤ latest_processed s.processed_at silver) ≡ false))
unfolding validated
fresh_rows now [] ok = absurd (ok refl)
fresh_rows now (s ∷ silver) ok =
    elim (Bool-cases (ltb_ℤ max_source_staleness (now -ℤ latest_processed s.processed_at silver))) [
      | inl stale ↦ absurd (ok (simp (stale) refl))
      | inr fresh ↦ (s, (silver, refl, fresh))
    ]

fresh : (w : Warehouse) → validate_source_freshness w ≢ none → IsFresh w
unfolding validate_source_freshness
fresh w ok = fresh_rows w.now w.silver ok

IsChecked-of : (log : Log) → IsRun log → Done log reconcile → IsChecked log
IsChecked-of log run (w, h) =
    let (v, k) =
      Airflow.upstream-Done upstream Succeeds log reconcile validate_source run (inl refl) (w, h) in
    (
      (w, (h, reconciled w (Airflow.success upstream Succeeds log reconcile w run h))),
      (v, (k, fresh v (Airflow.success upstream Succeeds log validate_source v run k))),
    )

IsGuarded-step :
    (log : Log) (t : Task) (w : Warehouse)
    → IsRun log
    → All (Done log) (upstream t)
    → IsGuarded log
    → IsGuarded ((t, w) ∷ log)
IsGuarded-step log validate_source w run up h = h
IsGuarded-step log reconcile w run up h = h
IsGuarded-step log dbt_build w run up h = (IsChecked-of log run up.0, h)
IsGuarded-step log dbt_test w run up h = (
  IsChecked-of log run
      (Airflow.upstream-Done upstream Succeeds log dbt_build reconcile run (inl refl) up.0),
  h,
)
IsGuarded-step log report_quality w run up h =
    let built =
      Airflow.upstream-Done upstream Succeeds log dbt_test dbt_build run (inl refl) up.0 in
    (
      IsChecked-of log run
          (Airflow.upstream-Done upstream Succeeds log dbt_build reconcile run (inl refl) built),
      h,
    )
IsGuarded-step log publish_summary w run up h = (IsChecked-of log run up.1.0, h)

guarded : (log : Log) → IsRun log → IsGuarded log
guarded [] run = tt
guarded ((t, w) ∷ log) run = IsGuarded-step log t w run.2 run.0 (guarded log run.2)

-- However a run of the daily pipeline goes, with retries and with tables that change meanwhile: when dbt builds or tests
-- models, or a report is made, the freshness check has already passed on a Silver that had rows, the last of them
-- written at most six hours before, and the reconciliation check on counters of which all balanced.
pub run-IsGuarded : (log : Log) → Reaches log → IsGuarded log
run-IsGuarded log run = guarded log (Airflow.IsRun-of upstream Succeeds log run)
