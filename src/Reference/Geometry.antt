-- ===== src/Reference/Geometry.antt =====
-- src/fleetstream/simulator/reference.py: the profiles and the geometry of routes.
use fleet_stream_real_time_f.Prelude.{String, List, [], ◌∷◌, Bool}
use fleet_stream_real_time_f.Float.{Float, fmin, fmax}
use fleet_stream_real_time_f.Random.{Choices}

-- What the code takes from the module `math`, and powers of two.
pub record Trigonometry (R : Type 0) : Type 0 where
  pub radians : R → R
  pub sin : R → R
  pub cos : R → R
  pub asin : R → R
  pub sqrt : R → R
  pub square : R → R

abbrev pub Point : Type 0 → Type 0
Point R = R × R

-- A route has at least one waypoint.
pub record Route (R : Type 0) : Type 0 where
  pub route_id : String
  pub route_name : String
  pub waypoints : Choices (Point R)
  pub distance_km : R

pub record VehicleProfile (R : Type 0) : Type 0 where
  pub vehicle_id : String
  pub vehicle_type : String
  pub manufacturer : String
  pub vehicle_model : String
  pub region : String
  pub fleet_owner : String
  pub max_speed_kmh : R
  pub fuel_capacity_l : R
  pub consumption_l_per_100km : R
  pub overheat_threshold_c : R
  pub faulty_cooling : Bool

pub record DriverProfile (R : Type 0) : Type 0 where
  pub driver_id : String
  pub driver_name : String
  pub driver_category : String
  pub license_type : String
  pub aggression : R

module _ {R : Type 0} ⦃f : Float R⦄ (m : Trigonometry R) where
  open f use {lit, add, sub, mul, div, le}
  open m use {radians, sin, cos, asin, sqrt, square}

  unfoldable pub haversine_km : Point R → Point R → R
  haversine_km a b =
      let lat1 = radians a.0 in
      let lon1 = radians a.1 in
      let lat2 = radians b.0 in
      let lon2 = radians b.1 in
      let dlat = sub lat2 lat1 in
      let dlon = sub lon2 lon1 in
      let h =
        add (square (sin (div dlat (lit 2 0))))
          (mul (mul (cos lat1) (cos lat2)) (square (sin (div dlon (lit 2 0))))) in
      mul (mul (lit 2 0) (lit 63_710_088 4)) (asin (sqrt h))

  -- the distances from the start, given that of the first waypoint
  unfoldable pub cumulative_from : R → Point R → List (Point R) → List R
  unfolding haversine_km
  cumulative_from so_far a [] = []
  cumulative_from so_far a (b ∷ rest) =
      let next = add so_far (haversine_km a b) in next ∷ cumulative_from next b rest

  -- `_cumulative_distances`
  unfoldable pub cumulative_distances : Route R → Choices R
  unfolding cumulative_from
  cumulative_distances route = record {
    first = lit 0 0;
    rest = cumulative_from (lit 0 0) route.waypoints.first route.waypoints.rest;
  }

module _ {R : Type 0} ⦃f : Float R⦄ where
  open f use {lit, add, sub, mul, div, le}

  unfoldable pub interpolate : Point R → Point R → R → Point R
  interpolate a b t =
      let s = fmin (lit 1 0) (fmax (lit 0 0) t) in
      (add a.0 (mul (sub b.0 a.0) s), add a.1 (mul (sub b.1 a.1) s))

abbrev pub last_of : {A : Type 0} → A → List A → A
last_of a [] = a
last_of a (b ∷ rest) = last_of b rest

-- `_ROUTE_CUMULATIVE`, by route_id
abbrev pub Cache : Type 0 → Type 0
Cache R = List (String × Choices R)
