-- ===== src/Schemas/Fields.antt =====
-- The fields of src/fleetstream/common/schemas.py: the contract of telemetry, and the columns that the tables add.
use fleet_stream_real_time_f.Prelude.{String, Bool, true, false, List, [], ◌∷◌}

pub data JsonType : Type 0 where
  string_type : JsonType
  number_type : JsonType
  integer_type : JsonType
  boolean_type : JsonType
  null_type : JsonType

-- json_type is a list, of one type where the code has no list
pub record FieldSpec : Type 0 where
  pub name : String
  pub spark_type : String
  pub sql_type : String
  pub json_type : List JsonType
  pub required : Bool
  pub description : String

abbrev field : String → String → String → List JsonType → Bool → String → FieldSpec
field name spark_type sql_type json_type required description = record {
  name = name;
  spark_type = spark_type;
  sql_type = sql_type;
  json_type = json_type;
  required = required;
  description = description;
}

abbrev pub telemetry_fields : List FieldSpec
telemetry_fields =
    field "event_id" "STRING" "VARCHAR" (string_type ∷ []) true
      "Globally unique, deterministic event identifier. The idempotency key for the whole platform: Silver MERGEs on it, so a replay cannot create duplicates."
    ∷ field "vehicle_id" "STRING" "VARCHAR" (string_type ∷ []) true
        "Vehicle emitting the event; also the Kafka partition key."
    ∷ field "driver_id" "STRING" "VARCHAR" (string_type ∷ []) true
        "Driver operating the vehicle at event time."
    ∷ field "trip_id" "STRING" "VARCHAR" (string_type ∷ []) true "Trip this event belongs to."
    ∷ field "route_id" "STRING" "VARCHAR" (string_type ∷ []) false
        "Planned route, when the trip follows one."
    ∷ field "event_time" "TIMESTAMP" "TIMESTAMP(6) WITH TIME ZONE" (string_type ∷ []) true
        "When the event actually occurred on the vehicle. Drives watermarking and all date partitioning. Never to be confused with ingestion_time."
    ∷ field "latitude" "DOUBLE" "DOUBLE" (number_type ∷ null_type ∷ []) false
        "WGS84 latitude, -90..90."
    ∷ field "longitude" "DOUBLE" "DOUBLE" (number_type ∷ null_type ∷ []) false
        "WGS84 longitude, -180..180."
    ∷ field "speed" "DOUBLE" "DOUBLE" (number_type ∷ null_type ∷ []) false "Ground speed in km/h."
    ∷ field "fuel_level" "DOUBLE" "DOUBLE" (number_type ∷ null_type ∷ []) false
        "Fuel remaining as a percentage, 0..100."
    ∷ field "engine_temperature" "DOUBLE" "DOUBLE" (number_type ∷ null_type ∷ []) false
        "Engine coolant temperature in Celsius."
    ∷ field "battery_level" "DOUBLE" "DOUBLE" (number_type ∷ null_type ∷ []) false
        "Battery charge as a percentage, 0..100."
    ∷ field "odometer_km" "DOUBLE" "DOUBLE" (number_type ∷ null_type ∷ []) false
        "Lifetime distance in km; monotonically non-decreasing per vehicle."
    ∷ field "schema_version" "STRING" "VARCHAR" (string_type ∷ []) true
        "Contract version the producer emitted against."
    ∷ []

abbrev pub bronze_metadata_fields : List FieldSpec
bronze_metadata_fields =
    field "ingestion_time" "TIMESTAMP" "TIMESTAMP(6) WITH TIME ZONE" (string_type ∷ []) true
      "When the platform received the event."
    ∷ field "kafka_topic" "STRING" "VARCHAR" (string_type ∷ []) true "Source topic."
    ∷ field "kafka_partition" "INT" "INTEGER" (integer_type ∷ []) true
        "Source partition; makes skew analysable from the table itself."
    ∷ field "kafka_offset" "BIGINT" "BIGINT" (integer_type ∷ []) true
        "Source offset, for exact replay positioning."
    ∷ field "kafka_timestamp" "TIMESTAMP" "TIMESTAMP(6) WITH TIME ZONE" (string_type ∷ []) true
        "Broker append time."
    ∷ field "raw_payload" "STRING" "VARCHAR" (string_type ∷ []) true
        "Verbatim source bytes as UTF-8. Retained so a parsing bug is always recoverable."
    ∷ field "ingest_run_id" "STRING" "VARCHAR" (string_type ∷ []) true
        "Streaming query run that wrote the row."
    ∷ []

abbrev pub enrichment_fields : List FieldSpec
enrichment_fields =
    field "vehicle_type" "STRING" "VARCHAR" (string_type ∷ []) false "From dim_vehicle."
    ∷ field "manufacturer" "STRING" "VARCHAR" (string_type ∷ []) false "From dim_vehicle."
    ∷ field "model" "STRING" "VARCHAR" (string_type ∷ []) false "From dim_vehicle."
    ∷ field "region" "STRING" "VARCHAR" (string_type ∷ []) false "From dim_vehicle."
    ∷ field "fleet_owner" "STRING" "VARCHAR" (string_type ∷ []) false "From dim_vehicle."
    ∷ field "driver_name" "STRING" "VARCHAR" (string_type ∷ []) false "From dim_driver."
    ∷ field "driver_category" "STRING" "VARCHAR" (string_type ∷ []) false "From dim_driver."
    ∷ field "is_overspeed" "BOOLEAN" "BOOLEAN" (boolean_type ∷ []) false
        "Speed above the vehicle's limit."
    ∷ field "is_overheating" "BOOLEAN" "BOOLEAN" (boolean_type ∷ []) false
        "Engine temperature above threshold."
    ∷ field "is_low_fuel" "BOOLEAN" "BOOLEAN" (boolean_type ∷ []) false
        "Fuel below the low-fuel threshold."
    ∷ field "processed_at" "TIMESTAMP" "TIMESTAMP(6) WITH TIME ZONE" (string_type ∷ []) true
        "When Silver last wrote this row."
    ∷ field "silver_run_id" "STRING" "VARCHAR" (string_type ∷ []) true
        "Run that last wrote this row."
    ∷ []

abbrev pub quarantine_fields : List FieldSpec
quarantine_fields =
    field "quarantine_id" "STRING" "VARCHAR" (string_type ∷ []) true
      "Surrogate key: event_id + rule_name."
    ∷ field "event_id" "STRING" "VARCHAR" (string_type ∷ []) false
        "May be null - that is itself a rejection reason."
    ∷ field "vehicle_id" "STRING" "VARCHAR" (string_type ∷ []) false "Best-effort, for triage."
    ∷ field "event_time" "TIMESTAMP" "TIMESTAMP(6) WITH TIME ZONE" (string_type ∷ []) false
        "Best-effort, for triage."
    ∷ field "rule_name" "STRING" "VARCHAR" (string_type ∷ []) true
        "Which validation rule rejected the row."
    ∷ field "rule_severity" "STRING" "VARCHAR" (string_type ∷ []) true
        "Severity declared in quality/rules.yml."
    ∷ field "failure_reason" "STRING" "VARCHAR" (string_type ∷ []) true
        "Human-readable explanation with the offending value."
    ∷ field "raw_payload" "STRING" "VARCHAR" (string_type ∷ []) true
        "Verbatim original record, so it can be corrected and replayed."
    ∷ field "quarantined_at" "TIMESTAMP" "TIMESTAMP(6) WITH TIME ZONE" (string_type ∷ []) true
        "When the row was rejected."
    ∷ field "run_id" "STRING" "VARCHAR" (string_type ∷ []) true "Pipeline run that rejected it."
    ∷ []

abbrev pub reconciliation_fields : List FieldSpec
reconciliation_fields =
    field "run_id" "STRING" "VARCHAR" (string_type ∷ []) true "Pipeline run identifier."
    ∷ field "stage" "STRING" "VARCHAR" (string_type ∷ []) true "bronze | silver | gold."
    ∷ field "batch_id" "BIGINT" "BIGINT" (integer_type ∷ []) false
        "Structured Streaming micro-batch id, when applicable."
    ∷ field "source_count" "BIGINT" "BIGINT" (integer_type ∷ []) true "Rows read from the source."
    ∷ field "duplicate_count" "BIGINT" "BIGINT" (integer_type ∷ []) true
        "Rows removed by deduplication."
    ∷ field "rejected_count" "BIGINT" "BIGINT" (integer_type ∷ []) true "Rows sent to quarantine."
    ∷ field "output_count" "BIGINT" "BIGINT" (integer_type ∷ []) true "Rows written to the target."
    ∷ field "recorded_at" "TIMESTAMP" "TIMESTAMP(6) WITH TIME ZONE" (string_type ∷ []) true
        "When the counts were recorded."
    ∷ []
