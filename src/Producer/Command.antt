-- ===== src/Producer/Command.antt =====
-- `main` of src/fleetstream/simulator/producer.py, from the parsed arguments on. `int` of a float is a parameter that
-- raises for infinities and NaN.
use fleet_stream_real_time_f.Prelude.{ℕ, ◌≤◌, ◌≡◌, Option, none, some, ◌>>=◌, Bool, not}
use fleet_stream_real_time_f.Prelude.Int.{ℤ, pos}
use fleet_stream_real_time_f.Float.{Float, fmax}
use fleet_stream_real_time_f.Random.{Random}
use fleet_stream_real_time_f.Config.{SimulatorConfig}
use fleet_stream_real_time_f.Reference.{Trigonometry}
use fleet_stream_real_time_f.Vehicle.State.{Uuid5}
use fleet_stream_real_time_f.Generator.State.{at_least_one}
use fleet_stream_real_time_f.Producer.Loop.{Client, Outcome}
use fleet_stream_real_time_f.Producer.Program.{produce}

pub record Args (R : Type 0) : Type 0 where
  pub minutes : R
  pub ticks : Option ℤ
  pub no_manifest : Bool

module _ {R : Type 0} ⦃f : Float R⦄ (int : R → Option ℤ) where
  -- TICK_SECONDS / max(speedup, 1e-9)
  abbrev pub real_seconds_per_tick : SimulatorConfig R → R
  real_seconds_per_tick cfg = f.div (f.lit 6 0) (fmax cfg.speedup (f.lit 1 9))

  abbrev at_least : Option ℤ → Option ℤ
  at_least none = none
  at_least (some z) = some (pos (at_least_one z))

  abbrev ticks_or : Option ℤ → Option ℤ → Option ℤ
  ticks_or computed none = computed
  ticks_or computed (some ticks) = some ticks

  unfoldable pub ticks_of : SimulatorConfig R → Args R → Option ℤ
  unfolding at_least_one
  ticks_of cfg args =
      ticks_or
        (at_least (int (f.div (f.mul args.minutes (f.lit 60 0)) (real_seconds_per_tick cfg))))
        args.ticks

module _ {R G B : Type 0} ⦃f : Float R⦄ (int : R → Option ℤ) (r : Random R G) (m : Trigonometry R)
    (uuid5 : Uuid5) (client : Client B) (shutdown : ℕ → Bool) where
  unfoldable pub main : ℕ → SimulatorConfig R → Args R → B → Option (Outcome R B)
  unfolding ticks_of
  main now cfg args b = ticks_of int cfg args >>= λ ticks.
      produce r m uuid5 client shutdown (not args.no_manifest) ticks now cfg b

  -- the number given, or one at least
  abbrev pub IsTicked : Option ℤ → ℤ → Type 0
  IsTicked none ticks = (n : ℕ) × (ticks ≡ pos n) × (1 ≤ n)
  IsTicked (some z) ticks = ticks ≡ z
