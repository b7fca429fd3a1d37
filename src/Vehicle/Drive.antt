-- ===== src/Vehicle/Drive.antt =====
-- The quantities of a vehicle while it drives: fuel, battery, odometer and progress.
use fleet_stream_real_time_f.Prelude.{◌≡◌, refl, some, false}
use fleet_stream_real_time_f.Float.{Float, fmax, fmin, ◌≼◌, IsLawful}
use fleet_stream_real_time_f.Float.Laws.{
  fmax_bound, le-fmax_left, fmin-le_left, fmin_bound, add_nonneg, lit_nonneg,
}
use fleet_stream_real_time_f.Random.{Random}
use fleet_stream_real_time_f.Reference.{Route, DriverProfile}
use fleet_stream_real_time_f.Vehicle.State.{driving, VehicleSimulator}
use fleet_stream_real_time_f.Vehicle.Tick.{drive}

module _ {R G : Type 0} ⦃f : Float R⦄ where
  open f use {lit, add, sub, mul, div, le}

  -- There is a tank, tank and battery are within their limits, nothing runs backwards, a driving vehicle has a route and
  -- a driver.
  pub record IsSound (s : VehicleSimulator R G) : Type 0 where
    pub capacity_nonneg : lit 0 0 ≼ s.profile.fuel_capacity_l
    pub capacity_positive : le s.profile.fuel_capacity_l (lit 0 0) ≡ false
    pub consumption_nonneg : lit 0 0 ≼ s.profile.consumption_l_per_100km
    pub fuel_nonneg : lit 0 0 ≼ s.fuel_l
    pub fuel-le : s.fuel_l ≼ s.profile.fuel_capacity_l
    pub battery_nonneg : lit 0 0 ≼ s.battery_level
    pub battery-le : s.battery_level ≼ lit 100 0
    pub odometer_nonneg : lit 0 0 ≼ s.odometer_km
    pub progress_nonneg : lit 0 0 ≼ s.progress_km
    pub has_route : s.status ≡ driving → (route : Route R) × (s.route ≡ some route)
    pub has_driver : s.status ≡ driving → (driver : DriverProfile R) × (s.driver ≡ some driver)

  module _ (l : IsLawful R) (r : Random R G) where
    -- What `drive` does over `dt` seconds, `dt` not negative.
    pub record IsDriven (s s' : VehicleSimulator R G) : Type 0 where
      pub same_profile : s'.profile ≡ s.profile
      pub odometer : s.odometer_km ≼ s'.odometer_km
      pub progress : s.progress_km ≼ s'.progress_km
      pub fuel : s'.fuel_l ≼ s.fuel_l
      pub fuel_nonneg : lit 0 0 ≼ s'.fuel_l
      pub battery_nonneg : lit 0 0 ≼ s'.battery_level
      pub battery-le : s'.battery_level ≼ lit 100 0

    travelled_nonneg :
        (speed dt : R) → lit 0 0 ≼ dt → lit 0 0 ≼ mul (fmax (lit 0 0) speed) (div dt (lit 3600 0))
    travelled_nonneg speed dt h =
        l.mul_nonneg _ _ (le-fmax_left l (lit 0 0) speed) (l.div_nonneg _ _ h (lit_nonneg l 3600 0))

    burnt_fuel :
        (fuel burn : R) → lit 0 0 ≼ fuel → lit 0 0 ≼ burn → fmax (lit 0 0) (sub fuel burn) ≼ fuel
    burnt_fuel fuel burn h k = fmax_bound l (lit 0 0) _ fuel h (l.sub-le fuel burn k)

    charged :
        (level dt : R)
        → lit 0 0 ≼ level
        → lit 0 0 ≼ dt
        → lit 0 0 ≼ fmin (lit 100 0) (add level (div (mul (lit 2 2) dt) (lit 60 0)))
    charged level dt h k = fmin_bound l (lit 100 0) _ (lit 0 0) (lit_nonneg l 100 0) (
        add_nonneg l _ _ h
          (l.div_nonneg _ _ (l.mul_nonneg _ _ (lit_nonneg l 2 2) k) (lit_nonneg l 60 0)))

    pub drive-IsDriven :
        (dt : R) (driver : DriverProfile R) (s : VehicleSimulator R G)
        → lit 0 0 ≼ dt
        → IsSound s
        → IsDriven s (drive r dt driver s)
    unfolding drive
    drive-IsDriven dt driver s h i = record {
      same_profile = refl;
      odometer = l.le-add s.odometer_km _ (travelled_nonneg _ dt h);
      progress = l.le-add s.progress_km _ (travelled_nonneg _ dt h);
      fuel = burnt_fuel s.fuel_l _ i.fuel_nonneg (
          l.div_nonneg _ _ (l.mul_nonneg _ _ (travelled_nonneg _ dt h) i.consumption_nonneg)
            (lit_nonneg l 100 0));
      fuel_nonneg = le-fmax_left l (lit 0 0) _;
      battery_nonneg = charged s.battery_level dt i.battery_nonneg h;
      battery-le = fmin-le_left l (lit 100 0) _;
    }

    pub drive-IsSound :
        (dt : R) (driver : DriverProfile R) (s : VehicleSimulator R G)
        → IsDriven s (drive r dt driver s)
        → IsSound s
        → IsSound (drive r dt driver s)
    unfolding drive
    drive-IsSound dt driver s d i = record {
      capacity_nonneg = i.capacity_nonneg;
      capacity_positive = i.capacity_positive;
      consumption_nonneg = i.consumption_nonneg;
      fuel_nonneg = d.fuel_nonneg;
      fuel-le = l.le_trans _ _ _ d.fuel i.fuel-le;
      battery_nonneg = d.battery_nonneg;
      battery-le = d.battery-le;
      odometer_nonneg = l.le_trans _ _ _ i.odometer_nonneg d.odometer;
      progress_nonneg = l.le_trans _ _ _ i.progress_nonneg d.progress;
      has_route = i.has_route;
      has_driver = i.has_driver;
    }
