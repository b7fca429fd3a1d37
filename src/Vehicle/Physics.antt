-- ===== src/Vehicle/Physics.antt =====
-- The quantities of a vehicle across a tick: what a trip may do to fuel, battery and odometer.
use fleet_stream_real_time_f.Prelude.{
  ℕ, ◌+◌, ◌||◌, Advances, Advances-map, ◌≡◌, refl, inl, inr, Option, some, arith, Bool-cases,
}
use fleet_stream_real_time_f.Float.{Float, lt, ◌≼◌, IsLawful}
use fleet_stream_real_time_f.Float.Laws.{lit_nonneg}
use fleet_stream_real_time_f.Random.{Random, IsInRange}
use fleet_stream_real_time_f.Reference.{Trigonometry, Route, DriverProfile}
use fleet_stream_real_time_f.Vehicle.State.{
  VehicleStatus, parked, driving, VehicleSimulator, Uuid5, start_trip, end_trip, cool_down,
}
use fleet_stream_real_time_f.Vehicle.Tick.{
  drive, reading, finish, drive_on, rest_or_drive, tick, due,
}
use fleet_stream_real_time_f.Vehicle.Drive.{IsSound, drive-IsDriven, drive-IsSound}

module _ {R G : Type 0} ⦃f : Float R⦄ where
  open f use {lit, add, sub, mul, div, le}

  module _ (l : IsLawful R) (r : Random R G) where
    -- A tick from `s` to `s'`: the odometer does not fall, and fuel does not rise unless the trip is over.
    pub record IsTick (s s' : VehicleSimulator R G) : Type 0 where
      pub sound : IsSound s'
      pub odometer : s.odometer_km ≼ s'.odometer_km
      pub fuel : s'.status ≡ driving → s'.fuel_l ≼ s.fuel_l

    module _ (ranges : IsInRange R G r) where
      refuelled :
          (tank a : R) (g : G)
          → lit 0 0 ≼ tank
          → lit 0 0 ≼ a
          → a ≼ lit 1 0
          → (lit 0 0 ≼ mul tank (r.uniform a (lit 1 0) g).0)
            × (mul tank (r.uniform a (lit 1 0) g).0 ≼ tank)
      refuelled tank a g h k w =
          let low = l.le_trans _ _ _ k (ranges.uniform-ge a (lit 1 0) g w) in
          (l.mul_nonneg _ _ h low, l.mul-le _ _ h low (ranges.uniform-le a (lit 1 0) g w))

      -- a vehicle that parks, with the tank as given
      parked-IsTick :
          (s : VehicleSimulator R G) (fuel speed : R) (g : G) (resume : Option ℕ)
          → IsSound s
          → lit 0 0 ≼ fuel
          → fuel ≼ s.profile.fuel_capacity_l
          → IsTick s (record s {
            status = parked;
            speed_kmh = speed;
            rng = g;
            resume_at = resume;
            fuel_l = fuel;
          })
      parked-IsTick s fuel speed g resume i h k = record {
        sound = record {
          capacity_nonneg = i.capacity_nonneg;
          capacity_positive = i.capacity_positive;
          consumption_nonneg = i.consumption_nonneg;
          fuel_nonneg = h;
          fuel-le = k;
          battery_nonneg = i.battery_nonneg;
          battery-le = i.battery-le;
          odometer_nonneg = i.odometer_nonneg;
          progress_nonneg = i.progress_nonneg;
          has_route = λ e. cc;
          has_driver = λ e. cc;
        };
        odometer = l.le_refl _;
        fuel = λ e. cc;
      }

      end_trip-IsTick :
          (now : ℕ) (s : VehicleSimulator R G) → IsSound s → IsTick s (end_trip r now s)
      unfolding end_trip
      end_trip-IsTick now s i =
          let (rest, g) = r.uniform (lit 20 0) (lit 90 0) s.rng in
          let resume = some (now + f.micros (mul rest (lit 60 0))) in
          elim (Bool-cases (lt s.fuel_l (mul s.profile.fuel_capacity_l (lit 15 2)))) [
            | inl low ↦
                let full =
                  refuelled s.profile.fuel_capacity_l (lit 9 1) g i.capacity_nonneg
                    (lit_nonneg l 9 1) (l.lit_le 9 1 1 0 (omega arith)) in
                rw low (
                  parked-IsTick s _ (lit 0 0) (r.uniform (lit 9 1) (lit 1 0) g).1 resume i full.0
                    full.1)
            | inr enough ↦
                rw enough (parked-IsTick s s.fuel_l (lit 0 0) g resume i i.fuel_nonneg i.fuel-le)
          ]

      finish-IsTick :
          (now : ℕ) (route : Route R) (s : VehicleSimulator R G)
          → IsSound s
          → IsTick s (finish r now route s)
      unfolding finish
      finish-IsTick now route s i =
          elim (Bool-cases (le route.distance_km s.progress_km || le s.fuel_l (lit 0 0))) [
            | inl over ↦ rw over (end_trip-IsTick now s i)
            | inr going ↦
                rw going (record { sound = i; odometer = l.le_refl _; fuel = λ e. l.le_refl _ })
          ]

      IsTick-trans :
          (s t u : VehicleSimulator R G)
          → s.odometer_km ≼ t.odometer_km
          → t.fuel_l ≼ s.fuel_l
          → IsTick t u
          → IsTick s u
      IsTick-trans s t u h k i = record {
        sound = i.sound;
        odometer = l.le_trans _ _ _ h i.odometer;
        fuel = λ e. l.le_trans _ _ _ (i.fuel e) k;
      }

      start_trip-IsSound : (s : VehicleSimulator R G) → IsSound s → IsSound (start_trip r s)
      unfolding start_trip
      start_trip-IsSound s i = record {
        capacity_nonneg = i.capacity_nonneg;
        capacity_positive = i.capacity_positive;
        consumption_nonneg = i.consumption_nonneg;
        fuel_nonneg = i.fuel_nonneg;
        fuel-le = i.fuel-le;
        battery_nonneg = i.battery_nonneg;
        battery-le = i.battery-le;
        odometer_nonneg = i.odometer_nonneg;
        progress_nonneg = l.le_refl _;
        has_route = λ e. (_, refl);
        has_driver = λ e. (_, refl);
      }

      module _ (m : Trigonometry R) (uuid5 : Uuid5) where
        reading-IsSound :
            (now : ℕ) (route : Route R) (driver : DriverProfile R) (s : VehicleSimulator R G)
            → IsSound s
            → IsSound (reading r m uuid5 now route driver s).1
        unfolding reading
        reading-IsSound now route driver s i = record {
          capacity_nonneg = i.capacity_nonneg;
          capacity_positive = i.capacity_positive;
          consumption_nonneg = i.consumption_nonneg;
          fuel_nonneg = i.fuel_nonneg;
          fuel-le = i.fuel-le;
          battery_nonneg = i.battery_nonneg;
          battery-le = i.battery-le;
          odometer_nonneg = i.odometer_nonneg;
          progress_nonneg = i.progress_nonneg;
          has_route = i.has_route;
          has_driver = i.has_driver;
        }

        module _ (dt : R) (forward : lit 0 0 ≼ dt) where
          drive_on-IsTick :
              (now : ℕ) (route : Route R) (driver : DriverProfile R) (s : VehicleSimulator R G)
              → IsSound s
              → Advances (IsTick s) (drive_on r m uuid5 now dt (some route) (some driver) s)
          unfolding drive_on
          drive_on-IsTick now route driver s i =
              let moved = drive r dt driver s in
              let driven = drive-IsDriven l r dt driver s forward i in
              let told = (reading r m uuid5 now route driver moved).1 in
              rw (i.capacity_positive) (
                IsTick-trans s told (finish r now route told) (unfold reading in driven.odometer)
                  (unfold reading in driven.fuel)
                  (finish-IsTick now route told (
                    reading-IsSound now route driver moved
                      (drive-IsSound l r dt driver s driven i))))

          start-IsTick :
              (now : ℕ) (s : VehicleSimulator R G)
              → IsSound s
              → let started = start_trip r s in
                Advances (IsTick s) (drive_on r m uuid5 now dt started.route started.driver started)
          unfolding start_trip
          start-IsTick now s i =
              Advances-map (IsTick (start_trip r s)) (IsTick s) _
                (λ u. IsTick-trans s (start_trip r s) u (l.le_refl _) (l.le_refl _))
                (drive_on-IsTick now _ _ (start_trip r s) (start_trip-IsSound s i))

          cooled-IsTick :
              (temp : R) (s : VehicleSimulator R G)
              → s.status ≡ parked
              → IsSound s
              → IsTick s (record s { engine_temp_c = temp })
          cooled-IsTick temp s e i = record {
            sound = record {
              capacity_nonneg = i.capacity_nonneg;
              capacity_positive = i.capacity_positive;
              consumption_nonneg = i.consumption_nonneg;
              fuel_nonneg = i.fuel_nonneg;
              fuel-le = i.fuel-le;
              battery_nonneg = i.battery_nonneg;
              battery-le = i.battery-le;
              odometer_nonneg = i.odometer_nonneg;
              progress_nonneg = i.progress_nonneg;
              has_route = i.has_route;
              has_driver = i.has_driver;
            };
            odometer = l.le_refl _;
            fuel = λ _. l.le_refl _;
          }

          rest_or_drive-IsTick :
              (now : ℕ) (status : VehicleStatus) (s : VehicleSimulator R G)
              → s.status ≡ status
              → IsSound s
              → Advances (IsTick s) (rest_or_drive r m uuid5 now dt status s)
          unfolding rest_or_drive
          rest_or_drive-IsTick now driving s e i =
              let (route, has_route) = i.has_route e in
              let (driver, has_driver) = i.has_driver e in
              simp (has_route, has_driver) (drive_on-IsTick now route driver s i)
          rest_or_drive-IsTick now parked s e i =
              let started = start_trip r s in
              elim (Bool-cases (due s.resume_at now)) [
                | inl ready ↦ rw ready (start-IsTick now s i)
                | inr early ↦ rw early (cooled-IsTick (cool_down r dt s.engine_temp_c) s e i)
              ]

          -- A tick of a sound vehicle, one with a tank above 0, over a time that is not negative, returns. The vehicle stays sound, its
          -- odometer does not fall, and its fuel does not rise unless the vehicle is parked after it.
          pub tick-IsTick :
              (now : ℕ) (s : VehicleSimulator R G)
              → IsSound s
              → Advances (IsTick s) (tick r m uuid5 now dt s)
          unfolding tick
          tick-IsTick now s i = rest_or_drive-IsTick now s.status s refl i
