-- ===== src/Producer/Program.antt =====
-- `run` of src/fleetstream/simulator/producer.py with the fleet that it builds.
use fleet_stream_real_time_f.Prelude.{
  ℕ, ◌+◌, ◌-◌, ◌*◌, ◌≡◌, leb, ltb, length, Bool, Option, none, some, if◌then◌else◌,
}
use fleet_stream_real_time_f.Prelude.Int.{ℤ, pos, negsuc}
use fleet_stream_real_time_f.Float.{Float, IsLawful}
use fleet_stream_real_time_f.Random.{Random, IsInRange}
use fleet_stream_real_time_f.Config.{SimulatorConfig}
use fleet_stream_real_time_f.Reference.{Trigonometry}
use fleet_stream_real_time_f.Reference.Build.{build_reference}
use fleet_stream_real_time_f.Vehicle.State.{Uuid5}
use fleet_stream_real_time_f.Generator.State.{tick_micros}
use fleet_stream_real_time_f.Simulation.{advance, new_fleet}
use fleet_stream_real_time_f.Fleet.Sane.{build_reference-IsSane}
use fleet_stream_real_time_f.Producer.Loop.{Client, Outcome, produce_run}
use fleet_stream_real_time_f.Producer.Exit.{Gives, IsAccounted, IsTaking, produce_run-IsAccounted}

module _ {R G B : Type 0} ⦃f : Float R⦄ (r : Random R G) (m : Trigonometry R) (uuid5 : Uuid5)
    (client : Client B) (shutdown : ℕ → Bool) where
  -- The clock says `now`; the span of the run lies before it, that of a negative number of ticks after it. The instants
  -- that are modelled lie from the epoch to the end of the year 9999; `none` is a start that does not.
  unfoldable pub start_of : ℕ → ℤ → Option ℕ
  start_of now (pos ticks) =
      let span = ticks * tick_micros in if leb span now then some (now - span) else none
  start_of now (negsuc ticks) =
      let late = now + (ticks + 1) * tick_micros in
      if ltb late 253_402_300_800_000_000 then some late else none

  abbrev pub produce_from : Bool → ℤ → SimulatorConfig R → B → Option ℕ → Option (Outcome R B)
  produce_from wanted ticks cfg b none = none
  produce_from wanted ticks cfg b (some start_time) =
      let reference = build_reference r m cfg.vehicle_count cfg.seed cfg.hot_vehicle in
      produce_run r (advance r m uuid5) client shutdown wanted ticks (length reference.vehicles)
        start_time b
        (new_fleet r m uuid5 cfg reference.vehicles reference.drivers reference.routes start_time)

  unfoldable pub produce : Bool → ℤ → ℕ → SimulatorConfig R → B → Option (Outcome R B)
  unfolding start_of
  produce wanted ticks now cfg b = produce_from wanted ticks cfg b (start_of now ticks)

  module _ (takes : IsTaking client) (l : IsLawful R) (ranges : IsInRange R G r) where
    -- For any configuration, a number of ticks whose start can be modelled, a client that takes every record and a
    -- manifest that can be written, and whenever it is told to stop, the producer raises nothing and sends all records that the generator counts. Its exit code is 0 exactly when no record is
    -- outstanding after the flush, and a manifest has as many records as its counters' total says.
    pub produce-IsAccounted :
        (wanted : Bool) (ticks : ℤ) (now start_time : ℕ) (cfg : SimulatorConfig R) (b : B)
        → start_of now ticks ≡ some start_time
        → Gives IsAccounted (produce wanted ticks now cfg b)
    unfolding produce
    produce-IsAccounted wanted ticks now start_time cfg b e = rw e (
        produce_run-IsAccounted r m uuid5 l ranges client takes shutdown wanted ticks _ cfg _ _ _ _
          b (build_reference-IsSane l r ranges m cfg.vehicle_count cfg.seed cfg.hot_vehicle))
