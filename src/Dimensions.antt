-- ===== src/Dimensions.antt =====
-- `seed` of src/fleetstream/jobs/seed_dimensions.py: the rows that it writes to the dimension tables, and what
-- `load_dimensions` of src/fleetstream/streaming/silver_transform.py reads from them.
pub mod Joined
use fleet_stream_real_time_f.Prelude.{ℕ, String, Option, some, Bool, List, [], ◌∷◌, map, length}
use fleet_stream_real_time_f.Float.{Float}
use fleet_stream_real_time_f.Random.{Random, members}
use fleet_stream_real_time_f.Config.{SimulatorConfig}
use fleet_stream_real_time_f.Reference.{Trigonometry, Route, VehicleProfile, DriverProfile}
use fleet_stream_real_time_f.Reference.Build.{FleetReference, build_reference}
use fleet_stream_real_time_f.Silver.Rows.{DimVehicle, DimDriver}

-- the three schemas
pub record VehicleRow (R : Type 0) : Type 0 where
  pub vehicle_id : String
  pub vehicle_type : String
  pub manufacturer : String
  pub vehicle_model : String
  pub region : String
  pub fleet_owner : String
  pub max_speed_kmh : R
  pub fuel_capacity_l : R
  pub consumption_l_per_100km : R
  pub overheat_threshold_c : R
  pub has_faulty_cooling : Bool

pub record DriverRow (R : Type 0) : Type 0 where
  pub driver_id : String
  pub driver_name : String
  pub driver_category : String
  pub license_type : String
  pub aggression_index : R

pub record RouteRow (R : Type 0) : Type 0 where
  pub route_id : String
  pub route_name : String
  pub distance_km : R
  pub waypoint_count : ℕ
  pub origin_latitude : R
  pub origin_longitude : R
  pub destination_latitude : R
  pub destination_longitude : R

-- the tables after the overwrite, and the counts that are reported
pub record Seeded (R : Type 0) : Type 0 where
  pub dim_vehicle : List (VehicleRow R)
  pub dim_driver : List (DriverRow R)
  pub dim_route : List (RouteRow R)
  pub counts : List (String × ℕ)

-- xs[-1]
abbrev pub last : {A : Type 0} → A → List A → A
last a [] = a
last a (x ∷ xs) = last x xs

unfoldable pub vehicle_row : {R : Type 0} → VehicleProfile R → VehicleRow R
vehicle_row v = record {
  vehicle_id = v.vehicle_id;
  vehicle_type = v.vehicle_type;
  manufacturer = v.manufacturer;
  vehicle_model = v.vehicle_model;
  region = v.region;
  fleet_owner = v.fleet_owner;
  max_speed_kmh = v.max_speed_kmh;
  fuel_capacity_l = v.fuel_capacity_l;
  consumption_l_per_100km = v.consumption_l_per_100km;
  overheat_threshold_c = v.overheat_threshold_c;
  has_faulty_cooling = v.faulty_cooling;
}

unfoldable pub driver_row : {R : Type 0} → DriverProfile R → DriverRow R
driver_row d = record {
  driver_id = d.driver_id;
  driver_name = d.driver_name;
  driver_category = d.driver_category;
  license_type = d.license_type;
  aggression_index = d.aggression;
}

unfoldable pub route_row : {R : Type 0} → Route R → RouteRow R
route_row r =
    let origin = r.waypoints.first in
    let destination = last r.waypoints.first r.waypoints.rest in
    record {
      route_id = r.route_id;
      route_name = r.route_name;
      distance_km = r.distance_km;
      waypoint_count = length (members r.waypoints);
      origin_latitude = origin.0;
      origin_longitude = origin.1;
      destination_latitude = destination.0;
      destination_longitude = destination.1;
    }

abbrev pub seeded : {R : Type 0} → FleetReference R → Seeded R
seeded reference =
    let vehicles = map vehicle_row reference.vehicles in
    let drivers = map driver_row (members reference.drivers) in
    let routes = map route_row (members reference.routes) in
    record {
      dim_vehicle = vehicles;
      dim_driver = drivers;
      dim_route = routes;
      counts =
          ("dim_vehicle", length vehicles)
          ∷ ("dim_driver", length drivers)
          ∷ ("dim_route", length routes)
          ∷ [];
    }

unfoldable pub seed :
    {R G : Type 0} ⦃f : Float R⦄ → Random R G → Trigonometry R → SimulatorConfig R → Seeded R
seed r m cfg = seeded (build_reference r m cfg.vehicle_count cfg.seed cfg.hot_vehicle)

-- the columns that the enrichment selects; a DOUBLE is in millionths
unfoldable pub vehicle_columns : {R : Type 0} ⦃f : Float R⦄ → VehicleRow R → DimVehicle
vehicle_columns ⦃f⦄ v = record {
  vehicle_id = v.vehicle_id;
  vehicle_type = some v.vehicle_type;
  manufacturer = some v.manufacturer;
  vehicle_model = some v.vehicle_model;
  region = some v.region;
  fleet_owner = some v.fleet_owner;
  max_speed_kmh = some (f.round v.max_speed_kmh 6);
}

unfoldable pub driver_columns : {R : Type 0} → DriverRow R → DimDriver
driver_columns d = record {
  driver_id = d.driver_id;
  driver_name = some d.driver_name;
  driver_category = some d.driver_category;
}

unfoldable pub load_dimensions :
    {R : Type 0} ⦃f : Float R⦄ → Seeded R → List DimVehicle × List DimDriver
unfolding vehicle_columns driver_columns
load_dimensions tables =
    (map vehicle_columns tables.dim_vehicle, map driver_columns tables.dim_driver)
