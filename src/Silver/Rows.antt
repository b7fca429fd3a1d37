-- ===== src/Silver/Rows.antt =====
-- The rows of Bronze, of the dimensions, of Silver and of the quarantine, with the columns of
-- src/fleetstream/common/schemas.py. NULL is `none`; numbers are in millionths, instants in
-- microseconds.
use fleet_stream_real_time_f.Prelude.{ℕ, String, Option, Bool}
use fleet_stream_real_time_f.Prelude.Int.{ℤ}

-- TELEMETRY_FIELDS, all nullable at parse time
pub record Reading : Type 0 where
  pub event_id : Option String
  pub vehicle_id : Option String
  pub driver_id : Option String
  pub trip_id : Option String
  pub route_id : Option String
  pub event_time : Option ℤ
  pub latitude : Option ℤ
  pub longitude : Option ℤ
  pub speed : Option ℤ
  pub fuel_level : Option ℤ
  pub engine_temperature : Option ℤ
  pub battery_level : Option ℤ
  pub odometer_km : Option ℤ
  pub schema_version : Option String

-- BRONZE_METADATA_FIELDS without raw_payload
pub record Provenance : Type 0 where
  pub ingestion_time : ℤ
  pub kafka_topic : String
  pub kafka_partition : ℕ
  pub kafka_offset : ℕ
  pub kafka_timestamp : ℤ
  pub ingest_run_id : String

pub record BronzeRow : Type 0 where
  pub reading : Reading
  pub provenance : Provenance
  pub raw_payload : Option String

-- the columns that `load_dimensions` selects
pub record DimVehicle : Type 0 where
  pub vehicle_id : String
  pub vehicle_type : Option String
  pub manufacturer : Option String
  pub vehicle_model : Option String
  pub region : Option String
  pub fleet_owner : Option String
  pub max_speed_kmh : Option ℤ

pub record DimDriver : Type 0 where
  pub driver_id : String
  pub driver_name : Option String
  pub driver_category : Option String

pub record SilverRow : Type 0 where
  pub reading : Reading
  pub provenance : Provenance
  pub vehicle_type : Option String
  pub manufacturer : Option String
  pub vehicle_model : Option String
  pub region : Option String
  pub fleet_owner : Option String
  pub driver_name : Option String
  pub driver_category : Option String
  pub is_overspeed : Option Bool
  pub is_overheating : Option Bool
  pub is_low_fuel : Option Bool
  pub processed_at : ℤ
  pub silver_run_id : String

pub record QuarantineRow : Type 0 where
  pub quarantine_id : String
  pub event_id : Option String
  pub vehicle_id : Option String
  pub event_time : Option ℤ
  pub rule_name : String
  pub rule_severity : Option String
  pub failure_reason : Option String
  pub raw_payload : Option String
  pub quarantined_at : ℤ
  pub run_id : String

-- the key of Silver
abbrev pub key : SilverRow → Option String
key row = row.reading.event_id
