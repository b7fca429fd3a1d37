-- ===== src/Verify/Checks.antt =====
-- The checks of src/fleetstream/jobs/verify.py on the number of rows, on conservation, on reconciliation and
-- on replay, without the texts that they report.
use fleet_stream_real_time_f.Prelude.Int.{ℤ}
use fleet_stream_real_time_f.Prelude.{
  ℕ, suc, ◌+◌, ◌-◌, ◌/◌, ◌==◌, ltb, String, Option, none, some, Bool, true, false, List, [], ◌∷◌,
  map, length, take, if◌then◌else◌,
}
use fleet_stream_real_time_f.Quality.Rules.{Rule}
use fleet_stream_real_time_f.Reconciliation.{Counts, balances}
use fleet_stream_real_time_f.Silver.Rows.{BronzeRow, SilverRow, QuarantineRow}
use fleet_stream_real_time_f.Silver.Newest.{keys}
use fleet_stream_real_time_f.Silver.Write.{contains_key, count_distinct, Lake, Call, write_batch}

pub data Status : Type 0 where
  pass : Status
  fail : Status
  skip : Status

pub record Check : Type 0 where
  pub name : String
  pub status : Status

abbrev pub check : String → Status → Check
check name status = record { name = name; status = status }

abbrev pub is_fail : Status → Bool
is_fail fail = true
is_fail _ = false

-- `Report.failed`
unfoldable pub failed_checks : List Check → List Check
failed_checks [] = []
failed_checks (c ∷ checks) =
    let rest = failed_checks checks in if is_fail c.status then c ∷ rest else rest

-- count(DISTINCT x) leaves NULL out
abbrev pub not_null : List (Option String) → List (Option String)
not_null [] = []
not_null (none ∷ ks) = not_null ks
not_null (some k ∷ ks) = some k ∷ not_null ks

unfoldable pub count_ids : List (Option String) → ℕ
count_ids ks = count_distinct (not_null ks)

abbrev pub bronze_id : BronzeRow → Option String
bronze_id b = b.reading.event_id

unfoldable pub check_bronze_has_data : List BronzeRow → Check
check_bronze_has_data bronze = check "bronze ingested" (if length bronze == 0 then fail else pass)

-- duplicates is a difference of a count and a smaller one
unfoldable pub check_duplicates : List BronzeRow → Lake → List Check
unfolding count_ids
check_duplicates bronze lake =
    let injected = if (length bronze - count_ids (map bronze_id bronze)) == 0 then skip else pass in
    let unique = length lake.silver == count_ids (keys lake.silver) in
    let removed = if length lake.silver == 0 then skip else (if unique then pass else fail) in
    check "duplicates injected" injected ∷ check "silver deduplicated" removed ∷ []

-- coalesce(event_id, quarantine_id)
abbrev pub quarantine_key : QuarantineRow → Option String
quarantine_key q = or_id q.event_id
  where
    or_id : Option String → Option String
    or_id none = some q.quarantine_id
    or_id (some id) = some id

-- max(int(distinct * 0.02), 500)
abbrev pub tolerance : ℕ → ℕ
tolerance distinct = let share = distinct / 50 in if ltb share 500 then 500 else share

unfoldable pub check_row_conservation : List BronzeRow → Lake → Check
unfolding count_ids
check_row_conservation bronze lake =
    let distinct = count_ids (map bronze_id bronze) in
    let accounted = length lake.silver + count_ids (map quarantine_key lake.quarantine) in
    let status = if ltb (tolerance distinct + accounted) distinct then fail else pass in
    check "rows conserved" (if distinct == 0 then skip else status)

unfoldable pub count_unbalanced : List Counts → ℕ
count_unbalanced [] = 0
count_unbalanced (c ∷ table) = let n = count_unbalanced table in if balances c then n else suc n

unfoldable pub check_reconciliation_balances : List Counts → Check
unfolding count_unbalanced
check_reconciliation_balances table =
    if length table == 0
    then check "reconciliation recorded" skip
    else check "reconciliation balances" (if count_unbalanced table == 0 then pass else fail)

-- F.col("event_id").isin(ids): NULL is in no list
abbrev pub is_in : Option String → List (Option String) → Bool
is_in none ids = false
is_in (some k) ids = contains_key (some k) ids

unfoldable pub sampled : List (Option String) → List BronzeRow → List BronzeRow
sampled ids [] = []
sampled ids (b ∷ bronze) =
    let rest = sampled ids bronze in if is_in b.reading.event_id ids then b ∷ rest else rest

module _ (evaluate : ℤ → String → BronzeRow → Option Bool) (rules : List Rule)
    (sha2 : String → String)
    (merge : List SilverRow → List SilverRow → Option (List SilverRow)) where
  -- `none` is an exception of the batch
  abbrev pub compared : ℕ → Bool × Lake → Option Status × Lake
  compared before (false, lake) = (none, lake)
  compared before (true, lake) = (some (if length lake.silver == before then pass else fail), lake)

  abbrev pub replayed :
      Call evaluate rules sha2 merge → List BronzeRow → Lake → Option Status × Lake
  replayed call [] lake = (some skip, lake)
  replayed call (b ∷ replay) lake =
      compared (length lake.silver) (write_batch evaluate rules sha2 merge call (b ∷ replay) lake)

  unfoldable pub check_idempotency :
      Call evaluate rules sha2 merge → List BronzeRow → Lake → Option Status × Lake
  unfolding sampled
  check_idempotency call bronze lake =
      if length lake.silver == 0
      then (some skip, lake)
      else replayed call (sampled (take 500 (keys lake.silver)) bronze) lake
