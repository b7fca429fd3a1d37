-- ===== src/Silver/Write.antt =====
-- `enrich` and `write_batch` of src/fleetstream/streaming/silver_transform.py. Parameters are what Spark
-- does: the evaluation of SQL predicates, which may read the clock, MERGE, and sha2.
use Prim.Native.String.{◌++◌ as concat}
use fleet_stream_real_time_f.Prelude.{
  ℕ, suc, String, str_eq, Option, none, some, Bool, true, false, List, [], ◌∷◌, ◌++◌, map, length,
  if◌then◌else◌,
}
use fleet_stream_real_time_f.Prelude.Int.{ℤ, ℤ, pos, ltb_ℤ, ◌-ℤ◌}
use fleet_stream_real_time_f.Quality.Rules.{Rule}
use fleet_stream_real_time_f.Quality.Engine.{Quarantined, split}
use fleet_stream_real_time_f.Reconciliation.{Counts, record_counts}
use fleet_stream_real_time_f.Silver.Rows.{
  BronzeRow, DimVehicle, DimDriver, SilverRow, QuarantineRow,
}
use fleet_stream_real_time_f.Silver.Dedupe.{same_key, dedupe}

-- a left join on a key: the matching rows, or one row of NULLs; NULL matches nothing
abbrev pub matches : {D : Type 0} → (D → String) → Option String → List D → List D
matches id none ds = []
matches id (some k) [] = []
matches id (some k) (d ∷ ds) =
    let rest = matches id (some k) ds in if str_eq (id d) k then d ∷ rest else rest

abbrev pub or_null : {D : Type 0} → List D → List (Option D)
or_null [] = none ∷ []
or_null (d ∷ ds) = some d ∷ map some ds

unfoldable pub left_join : {D : Type 0} → (D → String) → Option String → List D → List (Option D)
left_join id k ds = or_null (matches id k ds)

-- WHEN both are not NULL THEN b < a
unfoldable pub greater : Option ℤ → Option ℤ → Option Bool
greater (some a) (some b) = some (ltb_ℤ b a)
greater _ _ = none

abbrev pub of : {D A : Type 0} → (D → Option A) → Option D → Option A
of field none = none
of field (some d) = field d

-- the columns of one joined row; the thresholds are 100 and 15, and
-- OVERSPEED_RATIO is 1
unfoldable pub enriched_row :
    ℤ → String → BronzeRow → Option DimVehicle → Option DimDriver → SilverRow
unfolding greater
enriched_row now run_id b v d = record {
  reading = b.reading;
  provenance = b.provenance;
  vehicle_type = of (λ x. x.vehicle_type) v;
  manufacturer = of (λ x. x.manufacturer) v;
  vehicle_model = of (λ x. x.vehicle_model) v;
  region = of (λ x. x.region) v;
  fleet_owner = of (λ x. x.fleet_owner) v;
  driver_name = of (λ x. x.driver_name) d;
  driver_category = of (λ x. x.driver_category) d;
  is_overspeed = greater b.reading.speed (of (λ x. x.max_speed_kmh) v);
  is_overheating = greater b.reading.engine_temperature (some (pos 100_000_000));
  is_low_fuel = greater (some (pos 15_000_000)) b.reading.fuel_level;
  processed_at = now;
  silver_run_id = run_id;
}

-- the rows of a batch row, one for each pair of matches
abbrev pub with_drivers :
    ℤ → String → BronzeRow → Option DimVehicle → List (Option DimDriver) → List SilverRow
with_drivers now run_id b v [] = []
with_drivers now run_id b v (d ∷ ds) =
    enriched_row now run_id b v d ∷ with_drivers now run_id b v ds

abbrev pub with_vehicles :
    ℤ → String → BronzeRow → List (Option DimVehicle) → List (Option DimDriver) → List SilverRow
with_vehicles now run_id b [] ds = []
with_vehicles now run_id b (v ∷ vs) ds =
    with_drivers now run_id b v ds ++ with_vehicles now run_id b vs ds

unfoldable pub enrich :
    ℤ → String → List DimVehicle → List DimDriver → List BronzeRow → List SilverRow
unfolding left_join enriched_row
enrich now run_id vehicles drivers [] = []
enrich now run_id vehicles drivers (b ∷ rows) =
    with_vehicles now run_id b (left_join (λ v. v.vehicle_id) b.reading.vehicle_id vehicles)
      (left_join (λ d. d.driver_id) b.reading.driver_id drivers)
    ++ enrich now run_id vehicles drivers rows

-- SELECT DISTINCT event_id, counted: NULL is one value
unfoldable pub contains_key : Option String → List (Option String) → Bool
unfolding same_key
contains_key k [] = false
contains_key k (j ∷ ks) = let rest = contains_key k ks in if same_key k j then true else rest

unfoldable pub count_distinct : List (Option String) → ℕ
unfolding contains_key
count_distinct [] = 0
count_distinct (k ∷ ks) = let n = count_distinct ks in if contains_key k ks then n else suc n

-- The tables that a batch reads and writes.
pub record Lake : Type 0 where
  pub vehicles : List DimVehicle
  pub drivers : List DimDriver
  pub silver : List SilverRow
  pub quarantine : List QuarantineRow
  pub reconciliation : List Counts

abbrev pub text_or_empty : Option String → String
text_or_empty none = ""
text_or_empty (some s) = s

module _ (evaluate : ℤ → String → BronzeRow → Option Bool) (rules : List Rule)
    (sha2 : String → String)
    (merge : List SilverRow → List SilverRow → Option (List SilverRow)) where
  unfoldable pub quarantine_row : (now : ℤ) → String → Quarantined (evaluate now) → QuarantineRow
  quarantine_row now run_id q =
      let r = q.row.reading in
      record {
        quarantine_id = sha2 (concat (text_or_empty r.event_id) (concat "|" q.rule_name));
        event_id = r.event_id;
        vehicle_id = r.vehicle_id;
        event_time = r.event_time;
        rule_name = q.rule_name;
        rule_severity = q.rule_severity;
        failure_reason = q.failure_reason;
        raw_payload = q.row.raw_payload;
        quarantined_at = now;
        run_id = run_id;
      }

  -- What surrounds a batch: the clock, the names of batch and run, and whether the table of counters
  -- accepts its row.
  pub record Call : Type 0 where
    pub now : ℤ
    pub batch_id : ℤ
    pub run_id : String
    pub recordable : Bool

  unfoldable pub rejected_ids : (now : ℤ) → List (Quarantined (evaluate now)) → List (Option String)
  rejected_ids now [] = []
  rejected_ids now (q ∷ qs) = q.row.reading.event_id ∷ rejected_ids now qs

  unfoldable pub batch_counts : Call → ℕ → ℕ → ℕ → Counts
  batch_counts call source rejected output = record {
    run_id = call.run_id;
    stage = "silver";
    source_count = pos source;
    duplicate_count = pos source -ℤ pos rejected -ℤ pos output;
    rejected_count = pos rejected;
    output_count = pos output;
    batch_id = some call.batch_id;
  }

  -- the MERGE and the counters; `none` of the merge is an exception, after the quarantine was written
  abbrev pub finish_batch :
      Call → ℕ → ℕ → List SilverRow → Lake → Option (List SilverRow) → Bool × Lake
  finish_batch call source rejected prepared lake none = (false, lake)
  finish_batch call source rejected prepared lake (some silver) = (
    true,
    record lake {
      silver = silver;
      reconciliation =
          record_counts call.recordable (batch_counts call source rejected (length prepared))
            lake.reconciliation;
    },
  )

  -- Whether the call returned, and the tables after it; the predicates see the clock of the call. Where nothing is rejected, the code leaves out the
  -- append, here one of no rows.
  unfoldable pub write_rows : Call → List BronzeRow → Lake → Bool × Lake
  unfolding rejected_ids
  write_rows call rows lake =
      let (valid, rejected) = split (evaluate call.now) rules rows in
      let rejected_events = count_distinct (rejected_ids call.now rejected) in
      let stored = record lake {
        quarantine = lake.quarantine ++ map (quarantine_row call.now call.run_id) rejected;
      } in
      let prepared = dedupe (enrich call.now call.run_id lake.vehicles lake.drivers valid) in
      finish_batch call (length rows) rejected_events prepared stored (merge lake.silver prepared)

  -- An empty batch changes nothing.
  unfoldable pub write_batch : Call → List BronzeRow → Lake → Bool × Lake
  unfolding write_rows
  write_batch call [] lake = (true, lake)
  write_batch call (b ∷ rows) lake = write_rows call (b ∷ rows) lake
