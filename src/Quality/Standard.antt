-- ===== src/Quality/Standard.antt =====
-- The rules of src/fleetstream/quality/rules.yml, as `load_rules` of src/fleetstream/quality/engine.py
-- gives them.
use fleet_stream_real_time_f.Prelude.{List, [], ◌∷◌}
use fleet_stream_real_time_f.Quality.Rules.{Rule}

abbrev pub vehicle_id_not_null : Rule
vehicle_id_not_null = record {
  name = "vehicle_id_not_null";
  severity = "critical";
  expression = "vehicle_id IS NOT NULL AND length(trim(vehicle_id)) > 0";
  description =
      "Telemetry that cannot be attributed to a vehicle cannot be joined, aggregated or acted on. Catches the null_vehicle_id corruption.";
  dimension = "completeness";
}

abbrev pub event_id_not_null : Rule
event_id_not_null = record {
  name = "event_id_not_null";
  severity = "critical";
  expression = "event_id IS NOT NULL AND length(trim(event_id)) > 0";
  description =
      "event_id is the idempotency key for the whole platform. Without it a record cannot be deduplicated or merged, so it must never reach Silver.";
  dimension = "completeness";
}

abbrev pub event_time_not_null : Rule
event_time_not_null = record {
  name = "event_time_not_null";
  severity = "critical";
  expression = "event_time IS NOT NULL";
  description =
      "event_time drives watermarking and every date partition. A null makes the record untimeable. Catches the missing_event_time corruption.";
  dimension = "completeness";
}

abbrev pub trip_id_not_null : Rule
trip_id_not_null = record {
  name = "trip_id_not_null";
  severity = "critical";
  expression = "trip_id IS NOT NULL AND length(trim(trip_id)) > 0";
  description = "Trip attribution is required for trip-grain facts.";
  dimension = "completeness";
}

abbrev pub speed_type_valid : Rule
speed_type_valid = record {
  name = "speed_type_valid";
  severity = "critical";
  expression = "get_json_object(raw_payload, '$.speed') IS NULL OR speed IS NOT NULL";
  description =
      "The payload carried a speed that could not be parsed as a number. Catches the unparseable_speed corruption, which would otherwise vanish as a null.";
  dimension = "validity";
}

abbrev pub fuel_level_type_valid : Rule
fuel_level_type_valid = record {
  name = "fuel_level_type_valid";
  severity = "critical";
  expression = "get_json_object(raw_payload, '$.fuel_level') IS NULL OR fuel_level IS NOT NULL";
  description = "A present but uncoercible fuel_level must be reported, not nulled.";
  dimension = "validity";
}

abbrev pub engine_temperature_type_valid : Rule
engine_temperature_type_valid = record {
  name = "engine_temperature_type_valid";
  severity = "critical";
  expression =
      "get_json_object(raw_payload, '$.engine_temperature') IS NULL OR engine_temperature IS NOT NULL";
  description = "A present but uncoercible engine_temperature must be reported.";
  dimension = "validity";
}

abbrev pub speed_non_negative : Rule
speed_non_negative = record {
  name = "speed_non_negative";
  severity = "critical";
  expression = "speed IS NULL OR speed >= 0";
  description = "Negative ground speed is physically impossible. Catches negative_speed.";
  dimension = "validity";
}

abbrev pub speed_within_plausible_max : Rule
speed_within_plausible_max = record {
  name = "speed_within_plausible_max";
  severity = "critical";
  expression = "speed IS NULL OR speed <= 200";
  description =
      "No vehicle in this fleet exceeds 200 km/h. Set well above the fastest legitimate overspeed so genuine speeding is analysed, not quarantined.";
  dimension = "validity";
}

abbrev pub fuel_level_range : Rule
fuel_level_range = record {
  name = "fuel_level_range";
  severity = "critical";
  expression = "fuel_level IS NULL OR (fuel_level >= 0 AND fuel_level <= 100)";
  description = "Fuel level is a percentage. Catches fuel_out_of_range.";
  dimension = "validity";
}

abbrev pub battery_level_range : Rule
battery_level_range = record {
  name = "battery_level_range";
  severity = "critical";
  expression = "battery_level IS NULL OR (battery_level >= 0 AND battery_level <= 100)";
  description = "Battery level is a percentage. Catches battery_out_of_range.";
  dimension = "validity";
}

abbrev pub engine_temperature_range : Rule
engine_temperature_range = record {
  name = "engine_temperature_range";
  severity = "critical";
  expression =
      "engine_temperature IS NULL OR (engine_temperature >= -50 AND engine_temperature <= 200)";
  description =
      "Beyond this range the sensor is faulty rather than the engine extraordinary. The upper bound sits above the overheating threshold so real overheating incidents are kept and analysed. Catches absurd_engine_temperature.";
  dimension = "validity";
}

abbrev pub latitude_range : Rule
latitude_range = record {
  name = "latitude_range";
  severity = "critical";
  expression = "latitude IS NULL OR (latitude >= -90 AND latitude <= 90)";
  description = "Valid WGS84 latitude. Catches latitude_out_of_range.";
  dimension = "validity";
}

abbrev pub longitude_range : Rule
longitude_range = record {
  name = "longitude_range";
  severity = "critical";
  expression = "longitude IS NULL OR (longitude >= -180 AND longitude <= 180)";
  description = "Valid WGS84 longitude. Catches longitude_out_of_range.";
  dimension = "validity";
}

abbrev pub odometer_non_negative : Rule
odometer_non_negative = record {
  name = "odometer_non_negative";
  severity = "critical";
  expression = "odometer_km IS NULL OR odometer_km >= 0";
  description = "A lifetime distance cannot be negative.";
  dimension = "validity";
}

abbrev pub event_time_not_in_future : Rule
event_time_not_in_future = record {
  name = "event_time_not_in_future";
  severity = "critical";
  expression = "event_time IS NULL OR event_time <= current_timestamp() + INTERVAL 1 DAY";
  description =
      "Guards against a misconfigured vehicle clock. One day of tolerance absorbs timezone and skew mistakes without admitting records dated years ahead, which would push the watermark forward and cause real events to be dropped as late.";
  dimension = "consistency";
}

abbrev pub event_time_not_ancient : Rule
event_time_not_ancient = record {
  name = "event_time_not_ancient";
  severity = "critical";
  expression = "event_time IS NULL OR event_time >= timestamp'2020-01-01 00:00:00'";
  description =
      "Predates the fleet. Usually an epoch-zero default from a device that failed to acquire time.";
  dimension = "consistency";
}

abbrev pub schema_version_known : Rule
schema_version_known = record {
  name = "schema_version_known";
  severity = "warning";
  expression = "schema_version IS NULL OR schema_version IN ('1.0')";
  description =
      "An unrecognised contract version. A warning rather than critical: the record is probably still usable, and rejecting it outright would turn a producer rollout into an outage. It is surfaced so the mismatch is noticed.";
  dimension = "consistency";
}

abbrev pub standard_rules : List Rule
standard_rules =
    vehicle_id_not_null ∷ event_id_not_null ∷ event_time_not_null ∷ trip_id_not_null
    ∷ speed_type_valid ∷ fuel_level_type_valid ∷ engine_temperature_type_valid ∷ speed_non_negative
    ∷ speed_within_plausible_max ∷ fuel_level_range ∷ battery_level_range ∷ engine_temperature_range
    ∷ latitude_range ∷ longitude_range ∷ odometer_non_negative ∷ event_time_not_in_future
    ∷ event_time_not_ancient ∷ schema_version_known ∷ []
