-- ===== src/Fleet/Punctual.antt =====
-- The events held back by `TelemetryGenerator` of src/fleetstream/simulator/generator.py, over the fleet of
-- `build_reference`.
use fleet_stream_real_time_f.Prelude.{ℕ}
use fleet_stream_real_time_f.Float.{Float, IsLawful}
use fleet_stream_real_time_f.Random.{Random, IsInRange}
use fleet_stream_real_time_f.Config.{SimulatorConfig}
use fleet_stream_real_time_f.Reference.{Trigonometry}
use fleet_stream_real_time_f.Reference.Build.{build_reference}
use fleet_stream_real_time_f.Vehicle.State.{Uuid5}
use fleet_stream_real_time_f.Vehicle.Drive.{IsSound}
use fleet_stream_real_time_f.Vehicle.Fleet.{build_simulators-IsSound}
use fleet_stream_real_time_f.Generator.State.{start}
use fleet_stream_real_time_f.Generator.Stream.{Fleet, ticks}
use fleet_stream_real_time_f.Generator.Accounts.{Returns}
use fleet_stream_real_time_f.Generator.Punctual.{IsTimed}
use fleet_stream_real_time_f.Generator.Release.{IsFleetPunctual, ticks-IsPunctual}
use fleet_stream_real_time_f.Simulation.{advance, new_fleet, advance-IsSound}
use fleet_stream_real_time_f.Fleet.Sane.{build_reference-IsSane}

module _ {R G : Type 0} ⦃f : Float R⦄ (l : IsLawful R) (timed : IsTimed R) (r : Random R G)
    (ranges : IsInRange R G r) (m : Trigonometry R) (uuid5 : Uuid5) where
  abbrev pub IsInTime : Fleet r (advance r m uuid5) → Type 0
  IsInTime =
      IsFleetPunctual l timed r ranges (advance r m uuid5) IsSound
        (advance-IsSound r m uuid5 l ranges)

  -- Whatever the configuration, after any number of ticks the generator has raised nothing, the events it
  -- holds back are in the order of their release, none of them was due when the last tick released the events that
  -- were, and none is more than 20 minutes ahead.
  pub ticks-IsInTime :
      (cfg : SimulatorConfig R) (start_time n : ℕ)
      → let fleet = build_reference r m cfg.vehicle_count cfg.seed cfg.hot_vehicle in
        Returns
          (λ _. IsInTime)
          (ticks r
            (advance r m uuid5)
            n
            (new_fleet r m uuid5 cfg fleet.vehicles fleet.drivers fleet.routes start_time))
  unfolding new_fleet start
  ticks-IsInTime cfg start_time n =
      let fleet = build_reference r m cfg.vehicle_count cfg.seed cfg.hot_vehicle in
      ticks-IsPunctual l timed r ranges (advance r m uuid5) IsSound
        (advance-IsSound r m uuid5 l ranges) n _
        (
          (tt, tt),
          build_simulators-IsSound r l ranges fleet.vehicles fleet.drivers fleet.routes cfg.seed
              (build_reference-IsSane l r ranges m cfg.vehicle_count cfg.seed cfg.hot_vehicle),
        )
