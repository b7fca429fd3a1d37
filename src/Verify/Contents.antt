-- ===== src/Verify/Contents.antt =====
-- The checks of src/fleetstream/jobs/verify.py on what the rows hold: the attribution of the quarantine, event
-- times, the business question and the manifest of the run, by their status.
use fleet_stream_real_time_f.Prelude.{
  ℕ, suc, ◌*◌, ◌/◌, ◌==◌, ltb, String, str_eq, Option, none, some, Bool, true, false, List, [], ◌∷◌,
  length, if◌then◌else◌,
}
use fleet_stream_real_time_f.Prelude.Int.{ℤ, pos, negsuc, ltb_ℤ, ◌-ℤ◌}
use fleet_stream_real_time_f.Silver.Rows.{BronzeRow, SilverRow, QuarantineRow}
use fleet_stream_real_time_f.Silver.Write.{Lake}
use fleet_stream_real_time_f.Incidents.{is_above}
use fleet_stream_real_time_f.Verify.Checks.{Check, check, pass, fail, skip, count_ids, is_in}

-- SELECT count(*) ... WHERE
unfoldable pub count : {A : Type 0} → (A → Bool) → List A → ℕ
count test [] = 0
count test (x ∷ xs) = let n = count test xs in if test x then suc n else n

abbrev pub is_absent : Option String → Bool
is_absent none = true
is_absent (some s) = false

-- Of the three columns only this one can be NULL: the others are text in the model.
abbrev pub is_unattributed : QuarantineRow → Bool
is_unattributed q = is_absent q.failure_reason

abbrev pub is_rejection : Option String → Bool
is_rejection none = false
is_rejection (some severity) = str_eq severity "critical"

-- SELECT event_id ... WHERE rule_severity = 'critical'; `is_in` leaves NULL out
unfoldable pub rejected_critically : List QuarantineRow → List (Option String)
rejected_critically [] = []
rejected_critically (q ∷ quarantine) =
    let rest = rejected_critically quarantine in
    if is_rejection q.rule_severity then q.event_id ∷ rest else rest

abbrev pub has_leaked : Lake → SilverRow → Bool
has_leaked lake s = is_in s.reading.event_id (rejected_critically lake.quarantine)

unfoldable pub check_quarantine : Lake → List Check
check_quarantine lake =
    if length lake.quarantine == 0
    then check "quarantine populated" skip ∷ []
    else if count is_unattributed lake.quarantine == 0
    then check "quarantine populated" pass
      ∷ check "quarantine is exclusive"
          (if count (has_leaked lake) lake.silver == 0 then pass else fail)
      ∷ []
    else check "quarantine populated" fail ∷ []

-- unix_timestamp: whole seconds
abbrev pub unix_timestamp : ℤ → ℤ
unix_timestamp (pos n) = pos (n / 1_000_000)
unix_timestamp (negsuc n) = negsuc (n / 1_000_000)

-- more than five minutes between the event and its ingestion
abbrev pub is_lagged : SilverRow → Bool
is_lagged s = lags s.reading.event_time
  where
    lags : Option ℤ → Bool
    lags none = false
    lags (some t) = ltb_ℤ (pos 300) (unix_timestamp s.provenance.ingestion_time -ℤ unix_timestamp t)

-- min(event_time), which leaves NULL out
abbrev pub earlier : Option ℤ → Option ℤ → Option ℤ
earlier none b = b
earlier (some s) none = some s
earlier (some s) (some t) = if ltb_ℤ t s then some t else some s

-- the group of an event_id in Bronze
unfoldable pub first_time : String → List BronzeRow → Option ℤ
first_time id [] = none
first_time id (b ∷ bronze) =
    let rest = first_time id bronze in
    if is_in b.reading.event_id (some id ∷ []) then earlier b.reading.event_time rest else rest

-- s.event_time <> b.event_time, where neither is NULL
abbrev pub differ : Option ℤ → Option ℤ → Bool
differ none t = false
differ (some s) none = false
differ (some s) (some t) = if ltb_ℤ s t then true else ltb_ℤ t s

unfoldable pub is_altered : List BronzeRow → SilverRow → Bool
unfolding first_time
is_altered bronze s = altered s.reading.event_id
  where
    altered : Option String → Bool
    altered none = false
    altered (some id) = differ s.reading.event_time (first_time id bronze)

unfoldable pub check_late_events : List BronzeRow → Lake → Check
check_late_events bronze lake =
    if count is_lagged lake.silver == 0
    then check "event_time preserved" skip
    else check "event_time preserved"
        (if count (is_altered bronze) lake.silver == 0 then pass else fail)

abbrev pub is_overheating : SilverRow → Bool
is_overheating s = is_above (pos 100_000_000) s.reading.engine_temperature

unfoldable pub check_business_questions : Lake → Check
check_business_questions lake =
    check "business query answers" (if count is_overheating lake.silver == 0 then skip else pass)

unfoldable pub quarantined_ids : List QuarantineRow → List (Option String)
quarantined_ids [] = []
quarantined_ids (q ∷ quarantine) = q.event_id ∷ quarantined_ids quarantine

-- The manifest of the run: a file that is not there, one of which reading, json.loads or int raises, or the number of
-- injected invalid records that it gives, 0 where it gives none.
pub data RunManifest : Type 0 where
  missing : RunManifest
  malformed : RunManifest
  injected : ℤ → RunManifest

-- `none` is an exception; the ratio is below a half, in exact arithmetic, and below 0 for a negative number
unfoldable pub check_manifest_rates : RunManifest → Lake → Option Check
unfolding count_ids quarantined_ids
check_manifest_rates missing lake = some (check "manifest reconciliation" skip)
check_manifest_rates malformed lake = none
check_manifest_rates (injected (negsuc n)) lake = some (check "manifest reconciliation" fail)
check_manifest_rates (injected (pos expected_invalid)) lake = some (
    if expected_invalid == 0
    then check "manifest reconciliation" skip
    else check "manifest reconciliation" (
        if ltb (2 * count_ids (quarantined_ids lake.quarantine)) expected_invalid
        then fail
        else pass))
