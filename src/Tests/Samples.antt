-- ===== src/Tests/Samples.antt =====
-- Concrete inputs: a small fleet on decimals of six places, with draws from a counter.
use Prim.Native.Nat.{◌%◌}
use fleet_stream_real_time_f.Prelude.{ℕ, ◌+◌, ◌*◌, String, List, [], ◌∷◌, ◌≡◌, true, false, arith}
use fleet_stream_real_time_f.Prelude.Int.{ℤ, pos}
use fleet_stream_real_time_f.Float.Fixed.{fixed, fixed-IsLawful, leb_ℤ}
use fleet_stream_real_time_f.Random.{Random, Choices, IsInRange}
use fleet_stream_real_time_f.Config.{SimulatorConfig}
use fleet_stream_real_time_f.Reference.{Trigonometry, Route, VehicleProfile, DriverProfile}
use fleet_stream_real_time_f.Vehicle.State.{Uuid5}

-- Draws that walk through [0, 1); a uniform draw is its lower end.
abbrev pub counting : Random ℤ ℕ
counting = record {
  seeded = λ n. n;
  seeded_text = λ s. 7;
  random = λ g. (pos (g * 370_000 % 1_000_000), g + 1);
  uniform = λ a b g. (a, g + 1);
  gauss = λ mu sigma g. (mu, g + 1);
  position = λ n g. (g % n, g + 1);
}

random_below_one : (g : ℕ) → leb_ℤ (pos 1_000_000) (pos (g * 370_000 % 1_000_000)) ≡ false
random_below_one g = ground arith

pub counting-IsInRange : IsInRange ℤ ℕ counting
counting-IsInRange = record {
  random_nonneg = λ g. ground arith;
  random_below = λ g. ground (arith, random_below_one g);
  uniform-ge = λ a b g h. fixed-IsLawful.le_refl a;
  uniform-le = λ a b g h. h;
}

-- A flat world: angles are distances.
abbrev pub flat : Trigonometry ℤ
flat = record {
  radians = λ x. x;
  sin = λ x. x;
  cos = λ x. pos 1_000_000;
  asin = λ x. x;
  sqrt = λ x. x;
  square = λ x. fixed.mul x x;
}

abbrev pub plain : Uuid5
plain s = s

abbrev pub loop_route : Route ℤ
loop_route = record {
  route_id = "R005";
  route_name = "Pune City Distribution Loop";
  waypoints = record {
    first = (pos 18_520_400, pos 73_856_700);
    rest = (pos 18_560_000, pos 73_910_000) ∷ (pos 18_520_400, pos 73_856_700) ∷ [];
  };
  distance_km = pos 40_000_000;
}

abbrev pub van : String → VehicleProfile ℤ
van id = record {
  vehicle_id = id;
  vehicle_type = "panel_van";
  manufacturer = "Tata Motors";
  vehicle_model = "Ace";
  region = "Pune";
  fleet_owner = "FleetStream Logistics";
  max_speed_kmh = pos 120_000_000;
  fuel_capacity_l = pos 70_000_000;
  consumption_l_per_100km = pos 18_000_000;
  overheat_threshold_c = pos 100_000_000;
  faulty_cooling = true;
}

abbrev pub amit : DriverProfile ℤ
amit = record {
  driver_id = "D500";
  driver_name = "Amit Sharma";
  driver_category = "senior";
  license_type = "LMV";
  aggression = pos 600_000;
}

abbrev pub one_route : Choices (Route ℤ)
one_route = record { first = loop_route; rest = [] }

abbrev pub one_driver : Choices (DriverProfile ℤ)
one_driver = record { first = amit; rest = [] }

abbrev pub vans : List (VehicleProfile ℤ)
vans = van "V1000" ∷ van "V9999" ∷ []

abbrev pub busy : SimulatorConfig ℤ
busy = record {
  vehicle_count = 2;
  events_per_vehicle_per_min = 10;
  speedup = pos 60_000_000;
  seed = 20260908;
  duplicate_rate = pos 900_000;
  late_rate = pos 300_000;
  invalid_rate = pos 300_000;
  hot_vehicle = "V9999";
  hot_vehicle_multiplier = pos 3;
}
