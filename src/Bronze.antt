-- ===== src/Bronze.antt =====
-- `build_stream` of src/fleetstream/streaming/bronze_ingest.py: what becomes of a Kafka message. The parser of
-- JSON against the schema is a parameter; it gives NULLs for what it cannot read.
pub mod Accounted
use fleet_stream_real_time_f.Prelude.{ℕ, String, Option, List, map}
use fleet_stream_real_time_f.Prelude.Int.{ℤ}
use fleet_stream_real_time_f.Silver.Rows.{Reading, BronzeRow}

pub record KafkaMessage : Type 0 where
  pub value : Option String
  pub topic : String
  pub partition : ℕ
  pub offset : ℕ
  pub timestamp : ℤ

module _ (from_json : Option String → Reading) where
  unfoldable pub shape : ℤ → String → KafkaMessage → BronzeRow
  shape now run_id m = record {
    reading = from_json m.value;
    provenance = record {
      ingestion_time = now;
      kafka_topic = m.topic;
      kafka_partition = m.partition;
      kafka_offset = m.offset;
      kafka_timestamp = m.timestamp;
      ingest_run_id = run_id;
    };
    raw_payload = m.value;
  }

  -- one micro-batch
  unfoldable pub ingest : ℤ → String → List KafkaMessage → List BronzeRow
  unfolding shape
  ingest now run_id messages = map (shape now run_id) messages
