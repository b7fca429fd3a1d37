-- ===== src/Tests/Batching.antt =====
-- A batch of three rows, two of one event and one that fails a rule, and the theorems of Silver at it.
use fleet_stream_real_time_f.Silver.Counting.{IsRecordOf, IsRecorded, write_batch-quarantine}
use fleet_stream_real_time_f.Prelude.{
  ℕ, String, Option, none, some, Bool, true, false, List, [], ◌∷◌, ◌++◌, ◌≡◌, ◌≢◌, ◌↔◌, AllDistinct,
  inl, inr, refl, Elem, length, ap, if◌then◌else◌,
}
use fleet_stream_real_time_f.Prelude.Int.{ℤ, pos, negsuc, ltb_ℤ}
use fleet_stream_real_time_f.Quality.Rules.{Rule, rule_names}
use fleet_stream_real_time_f.Quality.Engine.{split}
use fleet_stream_real_time_f.Quality.Splitting.{IsPicked, Passes}
use fleet_stream_real_time_f.Quality.Verdicts.{split_valid_iff}
use fleet_stream_real_time_f.Quality.Diversion.{IsAttributed, record_of, split_quarantined_iff}
use fleet_stream_real_time_f.Silver.Rows.{Reading, BronzeRow, QuarantineRow}
use fleet_stream_real_time_f.Silver.Write.{Lake, Call, write_batch}
use fleet_stream_real_time_f.Silver.Batches.{write_batch-returns, write_batch-replay}
use fleet_stream_real_time_f.Tests.Upsert.{upsert, upsert-IsMerge}

abbrev pub reading : String → ℤ → Reading
reading id speed = record {
  event_id = some id;
  vehicle_id = some "V1000";
  driver_id = none;
  trip_id = some "T10000001";
  route_id = some "R005";
  event_time = some (pos 1_700_000_000_000);
  latitude = some (pos 18_520_400);
  longitude = some (pos 73_856_700);
  speed = some speed;
  fuel_level = some (pos 80_000_000);
  engine_temperature = some (pos 90_000_000);
  battery_level = none;
  odometer_km = some (pos 12_000_000);
  schema_version = some "1.0";
}

abbrev pub bronze : ℕ → Reading → BronzeRow
bronze offset r = record {
  reading = r;
  provenance = record {
    ingestion_time = pos 1_700_000_000_500;
    kafka_topic = "fleet.telemetry.raw";
    kafka_partition = 0;
    kafka_offset = offset;
    kafka_timestamp = pos 1_700_000_000_400;
    ingest_run_id = "bronze";
  };
  raw_payload = none;
}

abbrev pub good : BronzeRow
good = bronze 1 (reading "a" (pos 50_000_000))

abbrev pub bad : BronzeRow
bad = bronze 3 (reading "b" (negsuc 9_999_999))

abbrev pub batch : List BronzeRow
batch = good ∷ bronze 2 (reading "a" (pos 50_000_000)) ∷ bad ∷ []

abbrev pub speed_rule : Rule
speed_rule = record {
  name = "speed_non_negative";
  severity = "critical";
  expression = "speed IS NULL OR speed >= 0";
  description = "Negative ground speed is physically impossible.";
  dimension = "validity";
}

abbrev pub rules : List Rule
rules = speed_rule ∷ []

abbrev pub non_negative : Option ℤ → Option Bool
non_negative none = some true
non_negative (some v) = if ltb_ℤ v (pos 0) then some false else some true

-- the one predicate of the rules
abbrev pub evaluate : ℤ → String → BronzeRow → Option Bool
evaluate now expression row = non_negative row.reading.speed

-- batches may run at any time
abbrev pub Anytime : ℤ → Type 0
Anytime now = Unit

abbrev pub first_call : Call evaluate rules (λ s. s) upsert
first_call = record {
  now = pos 1_700_000_001_000;
  batch_id = pos 7;
  run_id = "silver";
  recordable = true;
}

abbrev pub second_call : Call evaluate rules (λ s. s) upsert
second_call = record {
  now = pos 1_700_000_009_000;
  batch_id = pos 7;
  run_id = "again";
  recordable = true;
}

abbrev pub empty_lake : Lake
empty_lake = record {
  vehicles = [];
  drivers = [];
  silver = [];
  quarantine = [];
  reconciliation = [];
}

pub good-Passes : Passes (evaluate (pos 0)) rules good
good-Passes rule e c = refl

id_of : (b : BronzeRow) (c : BronzeRow) → b ≡ c → b.reading.event_id ≡ c.reading.event_id
id_of b c e = ap (λ (x : BronzeRow). x.reading.event_id) e

pub all_named :
    (b : BronzeRow) (now : ℤ)
    → Anytime now
    → Elem b batch
    → Passes (evaluate (pos 0)) rules b
    → (id : String) × (b.reading.event_id ≡ some id)
all_named b now at (inl e) p = ("a", id_of b good e)
all_named b now at (inr (inl e)) p = ("a", id_of b (bronze 2 (reading "a" (pos 50_000_000))) e)
all_named b now at (inr (inr (inl e))) p = ("b", id_of b bad e)
all_named b now at (inr (inr (inr h))) p = absurd h

write_batch-returns_example :
    (write_batch evaluate rules (λ s. s) upsert first_call batch empty_lake).0 ≡ true
write_batch-returns_example =
    write_batch-returns evaluate rules (λ s. s) upsert upsert-IsMerge first_call batch empty_lake

write_batch-replay_example :
    length
      (write_batch evaluate rules
        (λ s. s)
        upsert
        second_call
        batch
        (write_batch evaluate rules (λ s. s) upsert first_call batch empty_lake).1).1.silver
    ≡ length (write_batch evaluate rules (λ s. s) upsert first_call batch empty_lake).1.silver
write_batch-replay_example =
    write_batch-replay evaluate rules (λ s. s) upsert upsert-IsMerge first_call second_call batch
      empty_lake (λ b e passes. (passes, all_named b (pos 0) tt e passes))

one_rule : AllDistinct (rule_names rules)
unfolding rule_names
one_rule = ((λ h. h), tt)

write_batch-quarantine_example :
    (added : List QuarantineRow) × ((write_batch evaluate rules
        (λ s. s)
        upsert
        first_call
        batch
        empty_lake).1.quarantine
      ≡ [] ++ added)
    × ((q : QuarantineRow)
        → Elem q added
        → IsRecorded evaluate rules (λ s. s) upsert upsert-IsMerge first_call batch q)
    × ((rule : Rule) (b : BronzeRow)
        → Elem b batch
        → IsPicked rule rules
        → evaluate first_call.now rule.expression b ≢ some true
        → (q : QuarantineRow) × Elem q added
          × IsRecordOf evaluate rules (λ s. s) upsert upsert-IsMerge first_call rule b q)
write_batch-quarantine_example =
    write_batch-quarantine evaluate rules (λ s. s) upsert upsert-IsMerge one_rule first_call good
      (bronze 2 (reading "a" (pos 50_000_000)) ∷ bad ∷ []) empty_lake

split_valid_iff_example :
    Elem good (split (evaluate (pos 0)) rules batch).0
    ↔ (Elem good batch × Passes (evaluate (pos 0)) rules good)
split_valid_iff_example = split_valid_iff (evaluate (pos 0)) rules good batch

split_quarantined_iff_example :
    Elem
      (record_of (evaluate (pos 0)) rules speed_rule bad)
      (split (evaluate (pos 0)) rules batch).1
    ↔ (Elem bad batch
        × IsAttributed (evaluate (pos 0)) rules (record_of (evaluate (pos 0)) rules speed_rule bad))
unfolding rule_names
split_quarantined_iff_example =
    split_quarantined_iff (evaluate (pos 0)) rules ((λ h. h), tt)
      (record_of (evaluate (pos 0)) rules speed_rule bad) batch
