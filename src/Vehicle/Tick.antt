-- ===== src/Vehicle/Tick.antt =====
-- `VehicleSimulator.tick` of src/fleetstream/simulator/vehicle.py.
use fleet_stream_real_time_f.Prelude.{
  ℕ, ◌+◌, Option, none, some, Bool, true, leb, ◌||◌, ◌&&◌, if◌then◌else◌,
}
use fleet_stream_real_time_f.Float.{Float, fmin, fmax}
use fleet_stream_real_time_f.Random.{Random}
use fleet_stream_real_time_f.Reference.{Trigonometry, Route, DriverProfile}
use fleet_stream_real_time_f.Payload.{TelemetryEvent}
use fleet_stream_real_time_f.Vehicle.Position.{position_at}
use fleet_stream_real_time_f.Vehicle.State.{
  VehicleStatus, parked, driving, VehicleSimulator, Uuid5, deterministic_event_id, start_trip,
  end_trip, target_speed, warm_up, cool_down,
}

-- `None`, or an instant that has come
unfoldable pub due : Option ℕ → ℕ → Bool
due none now = true
due (some t) now = leb t now

module _ {R G : Type 0} ⦃f : Float R⦄ (r : Random R G) where
  open f use {lit, add, sub, mul, div, le}
  open r use {gauss}

  -- the physics of a driving vehicle, up to its battery
  unfoldable pub drive : R → DriverProfile R → VehicleSimulator R G → VehicleSimulator R G
  unfolding target_speed warm_up
  drive dt driver s =
      let (target, g1) = target_speed r s.profile driver s.rng in
      let (noise, g2) = gauss (lit 0 0) (lit 4 0) g1 in
      let speed = fmax (lit 0 0) (add target noise) in
      let distance = mul speed (div dt (lit 3600 0)) in
      let burn = div (mul distance s.profile.consumption_l_per_100km) (lit 100 0) in
      let (temp, g3) = warm_up r s.profile speed dt s.engine_temp_c g2 in
      record s {
        speed_kmh = speed;
        progress_km = add s.progress_km distance;
        odometer_km = add s.odometer_km distance;
        fuel_l = fmax (lit 0 0) (sub s.fuel_l burn);
        engine_temp_c = temp;
        battery_level = fmin (lit 100 0) (add s.battery_level (div (mul (lit 2 2) dt) (lit 60 0)));
        rng = g3;
      }

  -- out of route, or out of fuel
  unfoldable pub finish : ℕ → Route R → VehicleSimulator R G → VehicleSimulator R G
  finish now route s =
      if le route.distance_km s.progress_km || le s.fuel_l (lit 0 0) then end_trip r now s else s

  module _ (m : Trigonometry R) (uuid5 : Uuid5) where
    unfoldable pub reading :
        ℕ
        → Route R
        → DriverProfile R
        → VehicleSimulator R G
        → TelemetryEvent R × VehicleSimulator R G
    unfolding deterministic_event_id
    reading now route driver s =
        let (lat, lon) = position_at m route s.progress_km in
        let (north, g1) = gauss (lit 0 0) (lit 4 5) s.rng in
        let (east, g2) = gauss (lit 0 0) (lit 4 5) g1 in
        (
          record {
            event_id = deterministic_event_id uuid5 s.profile.vehicle_id s.trip_id s.event_seq;
            vehicle_id = s.profile.vehicle_id;
            driver_id = driver.driver_id;
            trip_id = s.trip_id;
            route_id = some route.route_id;
            event_time = now;
            latitude = add lat north;
            longitude = add lon east;
            speed = s.speed_kmh;
            fuel_level = mul (div s.fuel_l s.profile.fuel_capacity_l) (lit 100 0);
            engine_temperature = s.engine_temp_c;
            battery_level = s.battery_level;
            odometer_km = s.odometer_km;
            schema_version = "1.0";
          },
          record s { event_seq = s.event_seq + 1; rng = g2 },
        )

    -- `none` is the AssertionError of a driving vehicle with no route or driver, and the ZeroDivisionError of one with a
    -- tank of no capacity.
    unfoldable pub drive_on :
        ℕ
        → R
        → Option (Route R)
        → Option (DriverProfile R)
        → VehicleSimulator R G
        → Option (Option (TelemetryEvent R) × VehicleSimulator R G)
    drive_on now dt (some route) (some driver) s =
        let (event, s') = reading now route driver (drive dt driver s) in
        if le s.profile.fuel_capacity_l (lit 0 0) && le (lit 0 0) s.profile.fuel_capacity_l
        then none
        else some (some event, finish now route s')
    drive_on now dt _ _ s = none

    unfoldable pub rest_or_drive :
        ℕ
        → R
        → VehicleStatus
        → VehicleSimulator R G
        → Option (Option (TelemetryEvent R) × VehicleSimulator R G)
    rest_or_drive now dt driving s = drive_on now dt s.route s.driver s
    rest_or_drive now dt parked s =
        let started = start_trip r s in
        if due s.resume_at now
        then drive_on now dt started.route started.driver started
        else some (none, record s { engine_temp_c = cool_down r dt s.engine_temp_c })

    unfoldable pub tick :
        ℕ → R → VehicleSimulator R G → Option (Option (TelemetryEvent R) × VehicleSimulator R G)
    tick now dt s = rest_or_drive now dt s.status s
