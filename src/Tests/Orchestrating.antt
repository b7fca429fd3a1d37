-- ===== src/Tests/Orchestrating.antt =====
-- The settings, the seeded dimensions and a run of the daily pipeline: the theorems at concrete inputs.
use Prim.Native.String.{◌++◌}
use fleet_stream_real_time_f.Prelude.{
  ℕ, String, str_eq, Option, none, some, [], ◌∷◌, ◌≡◌, ◌≢◌, ◌↔◌, inl, refl, Elem, if◌then◌else◌,
  elem_map,
}
use fleet_stream_real_time_f.Prelude.Int.{ℤ, pos, ◌-ℤ◌}
use fleet_stream_real_time_f.Prelude.Text.{decimal}
use fleet_stream_real_time_f.Prelude.Numerals.{number, number-decimal}
use fleet_stream_real_time_f.Float.Fixed.{fixed}
use fleet_stream_real_time_f.Config.Environment.{env_int, IsRead, env_int-IsRead}
use fleet_stream_real_time_f.Config.Parts.{StorageConfig, checkpoint_uri, checkpoint_uri-inj}
use fleet_stream_real_time_f.Reference.{VehicleProfile, DriverProfile}
use fleet_stream_real_time_f.Reference.Build.{build_reference}
use fleet_stream_real_time_f.Silver.Write.{enrich, enriched_row}
use fleet_stream_real_time_f.Silver.Rows.{BronzeRow, SilverRow}
use fleet_stream_real_time_f.Dimensions.{load_dimensions, seed}
use fleet_stream_real_time_f.Dimensions.Joined.{HasAttributes, enrich-seed}
use fleet_stream_real_time_f.Fleet.Identity.{build_reference-hot}
use fleet_stream_real_time_f.Tests.Releasing.{named}
use fleet_stream_real_time_f.Daily.{
  Warehouse, validate_source, reconcile, dbt_build, validated, validate_source_freshness,
  check_reconciliation, latest_processed,
}
use fleet_stream_real_time_f.Airflow.{started, continued, succeeded}
use fleet_stream_real_time_f.Daily.Run.{Log, Reaches, IsGuarded, run-IsGuarded}
use fleet_stream_real_time_f.Tests.Samples.{counting, flat, busy}
use fleet_stream_real_time_f.Tests.Batching.{bronze, reading}

-- `int` of the numerals
abbrev int : String → Option ℤ
int s = signed (number s)
  where
    signed : Option ℕ → Option ℤ
    signed none = none
    signed (some n) = some (pos n)

int-decimal : (n : ℕ) → int (decimal n) ≡ some (pos n)
int-decimal n = rw (number-decimal n) refl

abbrev environ : String → Option String
environ key = if str_eq key "TRINO_PORT" then some "9090" else none

env_int-IsRead_example :
    IsRead environ (λ s. s) int "TRINO_PORT" 8080 (env_int environ (λ s. s) int "TRINO_PORT" 8080)
env_int-IsRead_example = env_int-IsRead environ (λ s. s) int int-decimal "TRINO_PORT" 8080

abbrev storage : StorageConfig
storage = record {
  endpoint = "http://minio:9000";
  access_key = "fleetstream";
  secret_key = "secret";
  region = "us-east-1";
  bucket = "fleetstream";
  checkpoint_root = "s3a://fleetstream/checkpoints";
}

checkpoint_uri-inj_example :
    ((checkpoint_uri storage "bronze" ≡ checkpoint_uri storage "silver")
      ↔ (◌≡◌ {A = String} "bronze" "silver"))
    × (checkpoint_uri (record storage { checkpoint_root = storage.checkpoint_root ++ "/" }) "bronze"
        ≡ checkpoint_uri storage "bronze")
checkpoint_uri-inj_example = checkpoint_uri-inj storage "bronze" "silver"

abbrev warehouse : Warehouse
warehouse = record {
  silver =
      enriched_row (pos 1_000_000) "silver" (bronze 1 (reading "a" (pos 50_000_000))) none none
      ∷ [];
  recent_counts = [];
  recent_quarantine = [];
  now = pos 61_000_000;
}

is_fresh : validate_source_freshness warehouse ≢ none
unfolding validate_source_freshness validated latest_processed ◌-ℤ◌ enriched_row
is_fresh e = cc

is_reconciled : check_reconciliation warehouse ≢ none
unfolding check_reconciliation
is_reconciled e = cc

abbrev log : Log
log = (dbt_build, warehouse) ∷ (reconcile, warehouse) ∷ (validate_source, warehouse) ∷ []

built : Reaches log
built =
    continued _ _
      (continued _ _ (continued _ _ started (succeeded [] validate_source warehouse tt is_fresh))
        (succeeded _ reconcile warehouse ((warehouse, inl refl), tt) is_reconciled))
      (succeeded _ dbt_build warehouse ((warehouse, inl refl), tt) tt)

run-IsGuarded_example : IsGuarded log
run-IsGuarded_example = run-IsGuarded log built

abbrev hot :
    (v : VehicleProfile ℤ) × Elem v (build_reference counting flat 2 20260908 "V9999").vehicles
    × ("V9999" ≡ v.vehicle_id)
hot =
    elem_map (λ (v : VehicleProfile ℤ). v.vehicle_id) "V9999"
      (build_reference counting flat 2 20260908 "V9999").vehicles
      (build_reference-hot counting flat 2 20260908 "V9999" named)

abbrev first_driver : DriverProfile ℤ
first_driver = (build_reference counting flat 2 20260908 "V9999").drivers.first

abbrev reported : BronzeRow
reported = bronze 5 (record (reading "e" (pos 50_000_000)) {
  vehicle_id = some hot.0.vehicle_id;
  driver_id = some first_driver.driver_id;
})

enrich-seed_example :
    let dims = load_dimensions (seed counting flat busy) in
    (row : SilverRow) × (enrich (pos 9) "silver" dims.0 dims.1 (reported ∷ []) ≡ row ∷ [])
    × HasAttributes counting flat busy hot.0 first_driver reported row
enrich-seed_example =
    enrich-seed counting flat busy (pos 9) "silver" reported hot.0 first_driver hot.1 (inl refl)
      refl refl
