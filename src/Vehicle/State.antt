-- ===== src/Vehicle/State.antt =====
-- src/fleetstream/simulator/vehicle.py: `VehicleSimulator` and its methods.
use Prim.Native.String.{◌++◌}
use fleet_stream_real_time_f.Prelude.{ℕ, ◌+◌, String, Option, none, some, if◌then◌else◌}
use fleet_stream_real_time_f.Prelude.Text.{decimal, decimal_04, tail}
use fleet_stream_real_time_f.Float.{Float, lt, fmin, fmax}
use fleet_stream_real_time_f.Random.{Random, Choices, choice}
use fleet_stream_real_time_f.Reference.{Route, VehicleProfile, DriverProfile}

pub data VehicleStatus : Type 0 where
  parked driving : VehicleStatus

pub record VehicleSimulator (R G : Type 0) : Type 0 where
  pub profile : VehicleProfile R
  pub rng : G
  pub routes : Choices (Route R)
  pub drivers : Choices (DriverProfile R)
  pub status : VehicleStatus
  pub trip_seq : ℕ
  pub event_seq : ℕ
  pub trip_id : String
  pub route : Option (Route R)
  pub driver : Option (DriverProfile R)
  pub progress_km : R
  pub odometer_km : R
  pub fuel_l : R
  pub engine_temp_c : R
  pub battery_level : R
  pub speed_kmh : R
  pub resume_at : Option ℕ

-- `uuid.uuid5` under EVENT_NAMESPACE, as text.
abbrev pub Uuid5 : Type 0
Uuid5 = String → String

unfoldable pub deterministic_event_id : Uuid5 → String → String → ℕ → String
deterministic_event_id uuid5 vehicle_id trip_id sequence =
    uuid5 (vehicle_id ++ ("|" ++ (trip_id ++ ("|" ++ decimal sequence))))

module _ {R G : Type 0} ⦃f : Float R⦄ (r : Random R G) where
  open f use {lit, neg, add, sub, mul, div, le, micros, rounded}
  open r use {random, uniform, gauss}

  abbrev pub Sim : Type 0
  Sim = VehicleSimulator R G

  -- the defaults of the dataclass, then `__post_init__`
  unfoldable pub new_simulator :
      VehicleProfile R → G → Choices (Route R) → Choices (DriverProfile R) → Sim
  new_simulator profile rng routes drivers =
      let (share, g1) = uniform (lit 55 2) (lit 1 0) rng in
      let (reading, g2) = uniform (lit 15_000 0) (lit 240_000 0) g1 in
      let (warmth, g3) = uniform (neg (lit 3 0)) (lit 6 0) g2 in
      let (charge, g4) = uniform (lit 88 0) (lit 100 0) g3 in
      record {
        profile = profile;
        rng = g4;
        routes = routes;
        drivers = drivers;
        status = parked;
        trip_seq = 0;
        event_seq = 0;
        trip_id = "";
        route = none;
        driver = none;
        progress_km = lit 0 0;
        odometer_km = rounded reading 1;
        fuel_l = mul profile.fuel_capacity_l share;
        engine_temp_c = add (lit 32 0) warmth;
        battery_level = charge;
        speed_kmh = lit 0 0;
        resume_at = none;
      }

  unfoldable pub start_trip : Sim → Sim
  unfolding choice
  start_trip s =
      let seq = s.trip_seq + 1 in
      let (route, g1) = choice r s.routes s.rng in
      let (driver, g2) = choice r s.drivers g1 in
      record s {
        trip_seq = seq;
        event_seq = 0;
        trip_id = "T" ++ (tail s.profile.vehicle_id ++ decimal_04 seq);
        rng = g2;
        route = some route;
        driver = some driver;
        progress_km = lit 0 0;
        status = driving;
        engine_temp_c = fmax s.engine_temp_c (lit 40 0);
        resume_at = none;
      }

  refuel : Sim → Sim
  refuel s =
      let (share, g) = uniform (lit 9 1) (lit 1 0) s.rng in
      record s { fuel_l = mul s.profile.fuel_capacity_l share; rng = g }

  unfoldable pub end_trip : ℕ → Sim → Sim
  unfolding refuel
  end_trip now s =
      let (rest, g) = uniform (lit 20 0) (lit 90 0) s.rng in
      let resting = record s {
        status = parked;
        speed_kmh = lit 0 0;
        rng = g;
        resume_at = some (now + micros (mul rest (lit 60 0)));
      } in
      if lt s.fuel_l (mul s.profile.fuel_capacity_l (lit 15 2)) then refuel resting else resting

  unfoldable pub target_speed : VehicleProfile R → DriverProfile R → G → R × G
  target_speed profile driver g =
      let limit = profile.max_speed_kmh in
      let (share, g1) = uniform (lit 55 2) (lit 85 2) g in
      let (chance, g2) = random g1 in
      let (excess, g3) = uniform (lit 102 2) (lit 125 2) g2 in
      if lt chance (mul (lit 6 2) driver.aggression)
      then (mul limit excess, g3)
      else (mul limit share, g2)

  -- `_update_temperature` of a vehicle that moves
  unfoldable pub warm_up : VehicleProfile R → R → R → R → G → R × G
  warm_up profile speed dt temp g =
      let base = if profile.faulty_cooling then lit 95 0 else lit 88 0 in
      let target = add base (mul (div speed (fmax profile.max_speed_kmh (lit 1 0))) (lit 3 0)) in
      let (noise, g1) = gauss (lit 0 0) (lit 35 2) g in
      let drifted = add (add temp (mul (mul (sub target temp) (lit 4 3)) dt)) noise in
      let capped = fmin drifted (lit 125 0) in
      let (chance, g2) = random g1 in
      let (spike, g3) = uniform (lit 8 0) (lit 22 0) g2 in
      if lt chance (if profile.faulty_cooling then lit 25 4 else lit 4 5)
      then (add capped spike, g3)
      else (capped, g2)

  -- `_update_temperature` of a vehicle that stands
  unfoldable pub cool_down : R → R → R
  cool_down dt temp = add temp (mul (mul (sub (lit 32 0) temp) (lit 2 3)) dt)
