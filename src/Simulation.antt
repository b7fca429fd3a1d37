-- ===== src/Simulation.antt =====
-- The whole simulator: `TelemetryGenerator` of src/fleetstream/simulator/generator.py over the
-- vehicles of src/fleetstream/simulator/vehicle.py.
use fleet_stream_real_time_f.Prelude.{ℕ, List, All, Option, ◌≡◌, [], length, Advances, Advances-map}
use fleet_stream_real_time_f.Float.{Float, ◌≼◌, IsLawful}
use fleet_stream_real_time_f.Random.{Random, Choices, IsInRange}
use fleet_stream_real_time_f.Config.{SimulatorConfig}
use fleet_stream_real_time_f.Payload.{TelemetryEvent}
use fleet_stream_real_time_f.Reference.{Trigonometry, Route, VehicleProfile, DriverProfile}
use fleet_stream_real_time_f.Vehicle.State.{VehicleSimulator, Uuid5}
use fleet_stream_real_time_f.Vehicle.Tick
use fleet_stream_real_time_f.Vehicle.Drive.{IsSound}
use fleet_stream_real_time_f.Vehicle.Physics.{IsTick, tick-IsTick}
use fleet_stream_real_time_f.Vehicle.Fleet.{IsSane, build_simulators, build_simulators-IsSound}
use fleet_stream_real_time_f.Generator.State.{start, total_produced}
use fleet_stream_real_time_f.Generator.Stream.{Fleet, run}
use fleet_stream_real_time_f.Generator.Accounts.{Returns}
use fleet_stream_real_time_f.Generator.Origin.{IsMade, run-AreMade, Returns-IsMade}
use fleet_stream_real_time_f.Generator.Conservation.{run_conserves}

module _ {R G : Type 0} ⦃f : Float R⦄ (r : Random R G) (m : Trigonometry R) (uuid5 : Uuid5) where
  -- a vehicle's tick, as the generator calls it
  abbrev pub advance :
      ℕ → R → VehicleSimulator R G → Option (Option (TelemetryEvent R) × VehicleSimulator R G)
  advance = Tick.tick r m uuid5

  -- `TelemetryGenerator(config, reference, start_time)`
  unfoldable pub new_fleet :
      SimulatorConfig R
      → List (VehicleProfile R)
      → Choices (DriverProfile R)
      → Choices (Route R)
      → ℕ
      → Fleet r advance
  new_fleet config vehicles drivers routes start_time =
      (start r config start_time, build_simulators r vehicles drivers routes config.seed)

  module _ (l : IsLawful R) (ranges : IsInRange R G r) where
    pub advance-IsSound :
        (now : ℕ) (dt : R) (s : VehicleSimulator R G)
        → f.lit 0 0 ≼ dt
        → IsSound s
        → Advances IsSound (advance now dt s)
    advance-IsSound now dt s forward i =
        Advances-map (IsTick l r s) IsSound (advance now dt s) (λ s' t. t.sound)
          (tick-IsTick l r ranges m uuid5 dt forward now s i)

    -- For vehicles with a tank above 0 and a consumption that is not negative, a run of the generator of any length raises nothing; it yields as many
    -- records as its counters' total says, and leaves no late event behind.
    pub simulate_conserves :
        (n : ℕ) (config : SimulatorConfig R) (vehicles : List (VehicleProfile R))
        (drivers : Choices (DriverProfile R)) (routes : Choices (Route R)) (start_time : ℕ)
        → All IsSane vehicles
        → Returns
            (λ out p. (length out ≡ total_produced p.0.stats) × (p.0.late_heap ≡ []))
            (run r advance n (new_fleet config vehicles drivers routes start_time))
    unfolding new_fleet
    simulate_conserves n config vehicles drivers routes start_time sane =
        run_conserves l r advance IsSound advance-IsSound n config start_time _
          (build_simulators-IsSound r l ranges vehicles drivers routes config.seed sane)

    -- For vehicles with a tank above 0 and a consumption that is not negative, a run of the generator of any length raises nothing, and each record that it yields, held back
    -- or sent twice or not, has as its key the vehicle of a reading that a tick of a vehicle returned, and carries that
    -- reading as it is, or as one of the corruptions makes it.
    pub simulate-IsMade :
        (n : ℕ) (config : SimulatorConfig R) (vehicles : List (VehicleProfile R))
        (drivers : Choices (DriverProfile R)) (routes : Choices (Route R)) (start_time : ℕ)
        → All IsSane vehicles
        → Returns
            (λ out _. All (IsMade r advance) out)
            (run r advance n (new_fleet config vehicles drivers routes start_time))
    unfolding new_fleet start
    simulate-IsMade n config vehicles drivers routes start_time sane =
        let fleet = new_fleet config vehicles drivers routes start_time in
        Returns-IsMade r advance _ (run r advance n fleet)
          (simulate_conserves n config vehicles drivers routes start_time sane)
          (run-AreMade r advance n fleet tt)
