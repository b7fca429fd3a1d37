-- ===== src/Reference/Build.antt =====
-- `build_routes` and `build_reference` of src/fleetstream/simulator/reference.py: the fleet, its drivers and
-- its routes, drawn from a seed. int(n * 1.3) is n * 13 / 10, rounded down, as it is on doubles.
use Prim.Native.String.{◌++◌}
use fleet_stream_real_time_f.Prelude.{
  ℕ, zero, suc, ◌+◌, ◌-◌, ◌*◌, ◌/◌, String, str_eq, List, [], ◌∷◌, ◌++◌ as append, length, Bool,
  true, false, ◌||◌, if◌then◌else◌,
}
use fleet_stream_real_time_f.Prelude.Text.{decimal}
use fleet_stream_real_time_f.Float.{Float, lt}
use fleet_stream_real_time_f.Random.{Random, Choices, choice}
use fleet_stream_real_time_f.Reference.Geometry.{
  Trigonometry, Point, Route, VehicleProfile, DriverProfile, haversine_km,
}
use fleet_stream_real_time_f.Reference.Tables.{
  vehicle_types, manufacturers, regions, fleet_owners, driver_categories, license_types,
  first_names, last_names, route_seeds, aggression_by_category,
}

-- `by_vehicle` is looked up by the keys that `vehicles` has.
pub record FleetReference (R : Type 0) : Type 0 where
  pub vehicles : List (VehicleProfile R)
  pub drivers : Choices (DriverProfile R)
  pub routes : Choices (Route R)

module _ {R : Type 0} ⦃f : Float R⦄ where
  open f use {lit, add, mul, rounded}

  module _ (m : Trigonometry R) where
    -- `_route_distance`: `sum` starts from 0
    unfoldable pub route_distance_from : R → Point R → List (Point R) → R
    unfolding haversine_km
    route_distance_from so_far a [] = so_far
    route_distance_from so_far a (b ∷ rest) =
        route_distance_from (add so_far (haversine_km m a b)) b rest

    abbrev pub build_route : String × String × Choices (Point R) → Route R
    build_route (rid, name, wps) = record {
      route_id = rid;
      route_name = name;
      waypoints = wps;
      distance_km = rounded (route_distance_from (lit 0 0) wps.first wps.rest) 2;
    }

    abbrev pub build_each : List (String × String × Choices (Point R)) → List (Route R)
    build_each [] = []
    build_each (s ∷ seeds) = build_route s ∷ build_each seeds

    unfoldable pub build_routes : Choices (Route R)
    unfolding route_distance_from
    build_routes = record {
      first = build_route route_seeds.first;
      rest = build_each route_seeds.rest;
    }

  module _ {G : Type 0} (r : Random R G) where
    -- one round of the loop over the vehicles: its draws in the order of the code
    unfoldable pub build_vehicle : ℕ → G → VehicleProfile R × G
    unfolding choice
    build_vehicle i g0 =
        let (kind, g1) = choice r vehicle_types g0 in
        let (maker, g2) = choice r manufacturers g1 in
        let (model, g3) = choice r maker.1 g2 in
        let (region, g4) = choice r regions g3 in
        let (owner, g5) = choice r fleet_owners g4 in
        let (consumption, g6) = r.uniform (lit 7 0) (lit 34 0) g5 in
        let (chance, g7) = r.random g6 in
        (
          record {
            vehicle_id = "V" ++ decimal (1000 + i);
            vehicle_type = kind.0;
            manufacturer = maker.0;
            vehicle_model = model;
            region = region;
            fleet_owner = owner;
            max_speed_kmh = kind.1;
            fuel_capacity_l = kind.2;
            consumption_l_per_100km = rounded consumption 2;
            overheat_threshold_c = lit 100 0;
            faulty_cooling = lt chance (lit 6 2);
          },
          g7,
        )

    -- `range(vehicle_count)`, with `left` rounds to go
    unfoldable pub build_vehicles : ℕ → ℕ → G → List (VehicleProfile R) × G
    unfolding build_vehicle
    build_vehicles zero i g = ([], g)
    build_vehicles (suc left) i g =
        let (v, g1) = build_vehicle i g in
        let (rest, g2) = build_vehicles left (i + 1) g1 in (v ∷ rest, g2)

    unfoldable pub is_used : String → List (VehicleProfile R) → Bool
    is_used id [] = false
    is_used id (v ∷ vehicles) = str_eq v.vehicle_id id || is_used id vehicles

    -- the vehicle that is appended: type 1, manufacturer 0, and the first of the other tables
    abbrev pub hot_profile : String → VehicleProfile R
    hot_profile id = record {
      vehicle_id = id;
      vehicle_type = "box_truck";
      manufacturer = manufacturers.first.0;
      vehicle_model = manufacturers.first.1.first;
      region = regions.first;
      fleet_owner = fleet_owners.first;
      max_speed_kmh = lit 100 0;
      fuel_capacity_l = lit 150 0;
      consumption_l_per_100km = lit 18 0;
      overheat_threshold_c = lit 100 0;
      faulty_cooling = true;
    }

    -- an absent hot vehicle is the empty text, which counts as false as None does
    unfoldable pub with_hot : String → List (VehicleProfile R) → List (VehicleProfile R)
    unfolding is_used
    with_hot id vehicles =
        if str_eq id "" || is_used id vehicles
        then vehicles
        else append vehicles (hot_profile id ∷ [])

    unfoldable pub build_driver : ℕ → G → DriverProfile R × G
    unfolding choice
    build_driver i g0 =
        let (category, g1) = choice r driver_categories g0 in
        let (first, g2) = choice r first_names g1 in
        let (last, g3) = choice r last_names g2 in
        let (license, g4) = choice r license_types g3 in
        let (factor, g5) = r.uniform (lit 7 1) (lit 14 1) g4 in
        (
          record {
            driver_id = "D" ++ decimal (500 + i);
            driver_name = first ++ (" " ++ last);
            driver_category = category;
            license_type = license;
            aggression = rounded (mul (aggression_by_category category) factor) 3;
          },
          g5,
        )

    unfoldable pub build_drivers : ℕ → ℕ → G → List (DriverProfile R) × G
    unfolding build_driver
    build_drivers zero i g = ([], g)
    build_drivers (suc left) i g =
        let (d, g1) = build_driver i g in
        let (rest, g2) = build_drivers left (i + 1) g1 in (d ∷ rest, g2)

    -- max(1, int(n * 1.3)): the first driver, and that many more
    abbrev pub more_drivers : ℕ → ℕ
    more_drivers n = n * 13 / 10 - 1

    unfoldable pub build_reference : Trigonometry R → ℕ → ℕ → String → FleetReference R
    unfolding build_vehicles with_hot build_drivers build_routes
    build_reference m vehicle_count seed hot_vehicle =
        let (made, g1) = build_vehicles vehicle_count 0 (r.seeded seed) in
        let vehicles = with_hot hot_vehicle made in
        let (first, g2) = build_driver 0 g1 in
        let (rest, g3) = build_drivers (more_drivers (length vehicles)) 1 g2 in
        record {
          vehicles = vehicles;
          drivers = record { first = first; rest = rest };
          routes = build_routes m;
        }
