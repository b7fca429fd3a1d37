-- ===== src/Config/Parts.antt =====
-- The parts of the settings in src/fleetstream/common/config.py, with their variables and defaults, and the places
-- that they name.
use Prim.Native.String.append
use Prim.Native.String.{String, ◌++◌}
use fleet_stream_real_time_f.Prelude.{str_eq, Option, ◌≡◌, ◌↔◌, refl, ap, ◌∙◌, if◌then◌else◌}
use fleet_stream_real_time_f.Prelude.Int.{ℤ}
use fleet_stream_real_time_f.Prelude.Numerals.{append_cancel_left}
use fleet_stream_real_time_f.Config.Environment.{Loaded, loaded, ◌>>=◌, env, env_int}

pub record KafkaConfig : Type 0 where
  pub bootstrap_servers : String
  pub telemetry_topic : String
  pub incidents_topic : String
  pub dlq_topic : String
  pub partitions : ℤ

pub record StorageConfig : Type 0 where
  pub endpoint : String
  pub access_key : String
  pub secret_key : String
  pub region : String
  pub bucket : String
  pub checkpoint_root : String

pub record CatalogConfig : Type 0 where
  pub rest_uri : String
  pub name : String
  pub bronze : String
  pub silver : String
  pub gold : String
  pub platform : String

pub record TrinoConfig : Type 0 where
  pub host : String
  pub port : ℤ
  pub user : String

module _ (environ : String → Option String) (strip : String → String)
    (int : String → Option ℤ) where
  abbrev text_of : String → String → String
  text_of = env environ strip int

  unfoldable pub kafka_config : Loaded KafkaConfig
  kafka_config = env_int environ strip int "TELEMETRY_PARTITIONS" 12 >>= λ n. loaded (record {
    bootstrap_servers = text_of "KAFKA_BOOTSTRAP_SERVERS" "localhost:9092";
    telemetry_topic = text_of "TELEMETRY_TOPIC" "fleet.telemetry";
    incidents_topic = text_of "INCIDENTS_TOPIC" "fleet.incidents";
    dlq_topic = text_of "DLQ_TOPIC" "fleet.telemetry.dlq";
    partitions = n;
  })

  unfoldable pub storage_config : StorageConfig
  storage_config = record {
    endpoint = text_of "S3_ENDPOINT" "http://minio:9000";
    access_key = text_of "S3_ACCESS_KEY" "fleetstream";
    secret_key = text_of "S3_SECRET_KEY" "fleetstream-local-secret";
    region = text_of "S3_REGION" "us-east-1";
    bucket = text_of "WAREHOUSE_BUCKET" "fleetstream";
    checkpoint_root = text_of "CHECKPOINT_ROOT" "s3a://fleetstream/checkpoints";
  }

  unfoldable pub catalog_config : CatalogConfig
  catalog_config = record {
    rest_uri = text_of "ICEBERG_REST_URI" "http://iceberg-rest:8181";
    name = text_of "CATALOG_NAME" "fleetstream";
    bronze = "bronze";
    silver = "silver";
    gold = "gold";
    platform = "platform";
  }

  unfoldable pub trino_config : Loaded TrinoConfig
  trino_config = env_int environ strip int "TRINO_PORT" 8080 >>= λ port. loaded (record {
    host = text_of "TRINO_HOST" "trino";
    port = port;
    user = text_of "TRINO_USER" "fleetstream";
  })

unfoldable pub warehouse_uri : StorageConfig → String
warehouse_uri c = "s3://" ++ (c.bucket ++ "/warehouse")

-- s.rstrip("/")
unfoldable pub rstrip_slash : String → String
rstrip_slash String.[] = ""
rstrip_slash (String.◌∷◌ c s) =
    let rest = rstrip_slash s in
    if str_eq rest ""
    then (if str_eq (String.◌∷◌ c "") "/" then "" else String.◌∷◌ c rest)
    else String.◌∷◌ c rest

unfoldable pub checkpoint_uri : StorageConfig → String → String
unfolding rstrip_slash
checkpoint_uri c job = rstrip_slash c.checkpoint_root ++ ("/" ++ job)

rstrip-cons :
    (c : _) (s t : String)
    → rstrip_slash s ≡ rstrip_slash t
    → rstrip_slash (String.◌∷◌ c s) ≡ rstrip_slash (String.◌∷◌ c t)
unfolding rstrip_slash
rstrip-cons c s t e = rw e refl

-- one slash more at the end
rstrip-slash : (s : String) → rstrip_slash (s ++ "/") ≡ rstrip_slash s
unfolding rstrip_slash
rstrip-slash String.[] = ap rstrip_slash (λ i. append.nil "/" i)
rstrip-slash (String.◌∷◌ c s) =
    ap rstrip_slash (λ i. append.cons c s "/" i) ∙ rstrip-cons c (s ++ "/") s (rstrip-slash s)

-- Two jobs have one checkpoint only if they are the same job, under any root; and a slash at the end of the
-- root makes no difference.
pub checkpoint_uri-inj :
    (c : StorageConfig) (job other : String)
    → ((checkpoint_uri c job ≡ checkpoint_uri c other) ↔ (job ≡ other))
      × (checkpoint_uri (record c { checkpoint_root = c.checkpoint_root ++ "/" }) job
          ≡ checkpoint_uri c job)
unfolding checkpoint_uri
checkpoint_uri-inj c job other = (
  (
    (λ e.
        append_cancel_left "/" job other
          (append_cancel_left (rstrip_slash c.checkpoint_root) ("/" ++ job) ("/" ++ other) e)),
    (λ e. ap (λ j. rstrip_slash c.checkpoint_root ++ ("/" ++ j)) e),
  ),
  ap (λ r. r ++ ("/" ++ job)) (rstrip-slash c.checkpoint_root),
)
