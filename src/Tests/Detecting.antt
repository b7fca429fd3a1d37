-- ===== src/Tests/Detecting.antt =====
-- A corrupted reading and a clean one on their way to Silver: the theorems at concrete inputs.
use fleet_stream_real_time_f.Prelude.{
  ◌&&◌, String, str_eq, [], ◌∷◌, Option, none, some, Bool, not, ◌≡◌, ◌≢◌, ◌⊎◌, ◌↔◌, true, inl, refl,
  Elem, arith, if◌then◌else◌,
}
use fleet_stream_real_time_f.Prelude.Int.{◌+ℤ◌, ◌≤ℤ◌, ℤ, pos, negsuc, ◌-ℤ◌}
use fleet_stream_real_time_f.Float.Fixed.{fixed, cut}
use fleet_stream_real_time_f.Payload.{TelemetryEvent, Payload, num, to_dict, corrupt}
use fleet_stream_real_time_f.Generator.Corruption.{kind_at}
use fleet_stream_real_time_f.Quality.Engine.{Quarantined, split}
use fleet_stream_real_time_f.Quality.Standard
use fleet_stream_real_time_f.Quality.Standard.{standard_rules}
use fleet_stream_real_time_f.Quality.Diversion.{record_of}
use fleet_stream_real_time_f.Silver.Rows.{Reading, BronzeRow}
use fleet_stream_real_time_f.Bronze.{KafkaMessage, shape, ingest}
use fleet_stream_real_time_f.Schemas.{telemetry_json_schema}
use fleet_stream_real_time_f.Schemas.Conformance.{conforms, passes_schema, to_dict-conforms}
use fleet_stream_real_time_f.Bronze.Accounted.{ingest-accounted}
use fleet_stream_real_time_f.Detection.Sql.{
  Functions, IsSql, or3, is_null, is_not_null, at_least, at_most, within, is_named, one_version,
  is_typed,
}
use fleet_stream_real_time_f.Detection.Wire.{parsed, IsCodec}
use fleet_stream_real_time_f.Detection.Quarantine.{
  standard_rules-AllDistinct, corrupt-IsQuarantined,
}
use fleet_stream_real_time_f.Detection.Clean.{IsPlausible, clean-IsKept}

-- a Spark that finds something at every path, at a time
abbrev pub spark_at : ℤ → Functions
spark_at now = record {
  is_nonblank = λ t. not (str_eq t "");
  json_object = λ value path. value;
  tomorrow = now +ℤ pos 86_400_000_000;
}

-- on a day in 2026
abbrev pub spark : Functions
spark = spark_at (pos 1_788_813_600_000_000)

unfoldable pub select_at : ℤ → String → BronzeRow → Option Bool
select_at now text row =
    if str_eq text Standard.vehicle_id_not_null.expression
    then is_named (spark_at now) row.reading.vehicle_id
    else if str_eq text Standard.event_id_not_null.expression
    then is_named (spark_at now) row.reading.event_id
    else if str_eq text Standard.event_time_not_null.expression
    then is_not_null row.reading.event_time
    else if str_eq text Standard.trip_id_not_null.expression
    then is_named (spark_at now) row.reading.trip_id
    else if str_eq text Standard.speed_type_valid.expression
    then is_typed (spark_at now) "$.speed" row row.reading.speed
    else if str_eq text Standard.fuel_level_type_valid.expression
    then is_typed (spark_at now) "$.fuel_level" row row.reading.fuel_level
    else if str_eq text Standard.engine_temperature_type_valid.expression
    then is_typed (spark_at now) "$.engine_temperature" row row.reading.engine_temperature
    else if str_eq text Standard.speed_non_negative.expression
    then or3 (is_null row.reading.speed) (at_least (pos 0) row.reading.speed)
    else if str_eq text Standard.speed_within_plausible_max.expression
    then or3 (is_null row.reading.speed) (at_most (pos 200_000_000) row.reading.speed)
    else if str_eq text Standard.fuel_level_range.expression
    then within (pos 0) (pos 100_000_000) row.reading.fuel_level
    else if str_eq text Standard.battery_level_range.expression
    then within (pos 0) (pos 100_000_000) row.reading.battery_level
    else if str_eq text Standard.engine_temperature_range.expression
    then within (negsuc 49_999_999) (pos 200_000_000) row.reading.engine_temperature
    else if str_eq text Standard.latitude_range.expression
    then within (negsuc 89_999_999) (pos 90_000_000) row.reading.latitude
    else if str_eq text Standard.longitude_range.expression
    then within (negsuc 179_999_999) (pos 180_000_000) row.reading.longitude
    else if str_eq text Standard.odometer_non_negative.expression
    then or3 (is_null row.reading.odometer_km) (at_least (pos 0) row.reading.odometer_km)
    else if str_eq text Standard.event_time_not_in_future.expression
    then or3 (is_null row.reading.event_time)
        (at_most (spark_at now).tomorrow row.reading.event_time)
    else if str_eq text Standard.event_time_not_ancient.expression
    then or3 (is_null row.reading.event_time)
        (at_least (pos 1_577_836_800_000_000) row.reading.event_time)
    else if str_eq text Standard.schema_version_known.expression
    then or3 (is_null row.reading.schema_version)
        (one_version (spark_at now) row.reading.schema_version)
    else none

pub select_at-IsSql : (now : ℤ) → IsSql (spark_at now) (select_at now)
unfolding select_at
select_at-IsSql now = record {
  vehicle_id_not_null = λ row. refl;
  event_id_not_null = λ row. refl;
  event_time_not_null = λ row. refl;
  trip_id_not_null = λ row. refl;
  speed_type_valid = λ row. refl;
  fuel_level_type_valid = λ row. refl;
  engine_temperature_type_valid = λ row. refl;
  speed_non_negative = λ row. refl;
  speed_within_plausible_max = λ row. refl;
  fuel_level_range = λ row. refl;
  battery_level_range = λ row. refl;
  engine_temperature_range = λ row. refl;
  latitude_range = λ row. refl;
  longitude_range = λ row. refl;
  odometer_non_negative = λ row. refl;
  event_time_not_in_future = λ row. refl;
  event_time_not_ancient = λ row. refl;
  schema_version_known = λ row. refl;
}

abbrev select : String → BronzeRow → Option Bool
select = select_at (pos 1_788_813_600_000_000)

select-IsSql : IsSql spark select
select-IsSql = select_at-IsSql (pos 1_788_813_600_000_000)

abbrev pub event : TelemetryEvent ℤ
event = record {
  event_id = "e1";
  vehicle_id = "V1000";
  driver_id = "D500";
  trip_id = "T1";
  route_id = some "R005";
  event_time = 1_788_800_000_123_456;
  latitude = pos 18_520_400;
  longitude = pos 73_856_700;
  speed = pos 62_340_000;
  fuel_level = pos 71_250_000;
  engine_temperature = pos 88_000_000;
  battery_level = pos 93_100_000;
  odometer_km = pos 15_000_250;
  schema_version = "1.0";
}

-- a codec for one payload
abbrev written : Payload → String
written p = "{}"

abbrev read_as : Payload → Option String → Reading
read_as p value = parsed p

codec : (p : Payload) → IsCodec written (read_as p) spark p
codec p = record { read = λ sent. refl; speed_found = λ sent found. refl }

abbrev sent : Payload → KafkaMessage
sent p = record {
  value = some (written p);
  topic = "telemetry";
  partition = 2;
  offset = 40;
  timestamp = pos 7;
}

abbrev overfull : Payload
overfull = record (to_dict event) { fuel_level = num (pos 142_700_000) }

is_overfull : corrupt (to_dict event) (kind_at 2) ≡ some overfull
unfolding corrupt
is_overfull = refl

corrupt-IsQuarantined_example :
    Elem
      (record_of select standard_rules Standard.fuel_level_range
        (shape (read_as overfull) (pos 9) "run" (sent overfull)))
      (split select standard_rules (ingest (read_as overfull) (pos 9) "run" (sent overfull ∷ []))).1
    × (Elem
          (shape (read_as overfull) (pos 9) "run" (sent overfull))
          (split select standard_rules
            (ingest (read_as overfull) (pos 9) "run" (sent overfull ∷ []))).0
        → ⊥)
corrupt-IsQuarantined_example =
    corrupt-IsQuarantined select written (read_as overfull) spark select-IsSql event 2 overfull
      is_overfull (codec overfull) (pos 9) "run" (sent overfull) (sent overfull ∷ []) (inl refl)
      refl

-- from the time of the event on
abbrev pub HasHappened : ℤ → Type 0
HasHappened now = pos 1_788_800_000_123_000 ≤ℤ now

in_time : (now : ℤ) → HasHappened now → pos 1_788_800_000_123_000 ≤ℤ now +ℤ pos 86_400_000_000
unfolding ◌+ℤ◌
in_time now h = ground arith

pub event_at-IsPlausible : (now : ℤ) → HasHappened now → IsPlausible (spark_at now) event
unfolding cut ◌-ℤ◌
event_at-IsPlausible now h = record {
  event_id = refl;
  vehicle_id = refl;
  trip_id = refl;
  speed = (omega arith, omega arith);
  fuel_level = (omega arith, omega arith);
  battery_level = (omega arith, omega arith);
  engine_temperature = (omega arith, omega arith);
  latitude = (omega arith, omega arith);
  longitude = (omega arith, omega arith);
  odometer_km = omega arith;
  event_time = (omega arith, in_time now h);
  schema_version = refl;
}

event-IsPlausible : IsPlausible spark event
event-IsPlausible = event_at-IsPlausible (pos 1_788_813_600_000_000) (omega arith)

clean-IsKept_example :
    Elem
      (shape (read_as (to_dict event)) (pos 9) "run" (sent (to_dict event)))
      (split select standard_rules
        (ingest (read_as (to_dict event)) (pos 9) "run" (sent (to_dict event) ∷ []))).0
    × ((d : Quarantined select) × Elem d
            (split select standard_rules
              (ingest (read_as (to_dict event)) (pos 9) "run" (sent (to_dict event) ∷ []))).1
          × (d.row ≡ shape (read_as (to_dict event)) (pos 9) "run" (sent (to_dict event)))
        → ⊥)
clean-IsKept_example =
    clean-IsKept select written (read_as (to_dict event)) spark select-IsSql event event-IsPlausible
      (codec (to_dict event)) (pos 9) "run" (sent (to_dict event)) (sent (to_dict event) ∷ [])
      (inl refl) refl

ingest-accounted_example :
    let row = shape (read_as overfull) (pos 9) "run" (sent overfull) in
    let result =
      split select standard_rules (ingest (read_as overfull) (pos 9) "run" (sent overfull ∷ [])) in
    (Elem row result.0 ⊎ ((d : Quarantined select) × Elem d result.1 × (d.row ≡ row)))
    × (Elem row result.0 × ((d : Quarantined select) × Elem d result.1 × (d.row ≡ row)) → ⊥)
ingest-accounted_example =
    ingest-accounted (read_as overfull) select standard_rules standard_rules-AllDistinct (pos 9)
      "run" (sent overfull) (sent overfull ∷ []) (inl refl)

to_dict-conforms_example :
    ((conforms telemetry_json_schema (to_dict event) ≡ true) ↔ (event.route_id ≢ none))
    × (conforms telemetry_json_schema overfull
        ≡ (passes_schema 2 && conforms telemetry_json_schema (to_dict event)))
to_dict-conforms_example = to_dict-conforms event 2 overfull is_overfull
