-- ===== src/Generator/Stream.antt =====
-- src/fleetstream/simulator/generator.py: `_process`, `tick`, `run`.
use fleet_stream_real_time_f.Prelude.{
  ℕ, zero, suc, ◌+◌, String, Option, none, some, List, [], ◌∷◌, if◌then◌else◌,
}
use fleet_stream_real_time_f.Float.{Float, lt}
use fleet_stream_real_time_f.Random.{Random, choice}
use fleet_stream_real_time_f.Payload.{TelemetryEvent, Payload, to_dict, corrupt, corruptions}
use fleet_stream_real_time_f.Generator.State.{
  Generator, Yield, ◌>>=◌, tick_micros, count_clean, count_duplicate, count_invalid, count_hot,
  drain_late, flush_late, emit_multiplier, schedule_late,
}

module _ {R G : Type 0} ⦃f : Float R⦄ (r : Random R G) where
  abbrev pub send_as : {S : Type 0} → String → S → Option Payload → Yield S
  send_as key g none = none
  send_as key g (some p) = some ((key, p) ∷ [], g)

  unfoldable pub send_invalid : String → Payload → Generator R G → Yield (Generator R G)
  unfolding choice
  send_invalid key payload g =
      let (kind, rng) = choice r corruptions g.rng in
      send_as key (count_invalid (record g { rng = rng })) (corrupt payload kind)

  unfoldable pub send_clean : String → Payload → Generator R G → Yield (Generator R G)
  send_clean key payload g =
      let (draw, rng) = r.random g.rng in
      if lt draw g.config.duplicate_rate
      then some (
        (key, payload) ∷ (key, payload) ∷ [],
        count_duplicate (count_clean (record g { rng = rng })),
      )
      else some ((key, payload) ∷ [], count_clean (record g { rng = rng }))

  unfoldable pub send_valid : String → Payload → Generator R G → Yield (Generator R G)
  send_valid key payload g =
      let (draw, rng) = r.random g.rng in
      if lt draw g.config.late_rate
      then some ([], schedule_late r payload key (record g { rng = rng }))
      else send_clean key payload (record g { rng = rng })

  -- the draws of the three tests, each made only where the code makes it
  unfoldable pub process_counted : TelemetryEvent R → Generator R G → Yield (Generator R G)
  process_counted e g =
      let (draw, rng) = r.random g.rng in
      if lt draw g.config.invalid_rate
      then send_invalid e.vehicle_id (to_dict e) (record g { rng = rng })
      else send_valid e.vehicle_id (to_dict e) (record g { rng = rng })

  unfoldable pub process : TelemetryEvent R → Generator R G → Yield (Generator R G)
  unfolding process_counted
  process e g = process_counted e (count_hot e g)

  -- A simulator's `tick`: the instant and the seconds that have passed, `none` for an exception.
  module _ {S : Type 0} (advance : ℕ → R → S → Option (Option (TelemetryEvent R) × S)) where
    abbrev pub process_some : Option (TelemetryEvent R) → Generator R G → Yield (Generator R G)
    process_some none g = some ([], g)
    process_some (some e) g = process e g

    abbrev pub with_simulator : S → Yield (Generator R G) → Yield (Generator R G × S)
    with_simulator s none = none
    with_simulator s (some (out, g)) = some (out, (g, s))

    abbrev pub process_reading :
        Option (Option (TelemetryEvent R) × S) → Generator R G → Yield (Generator R G × S)
    process_reading none g = none
    process_reading (some (reading, s)) g = with_simulator s (process_some reading g)

    -- `for i in range(multiplier)`, with `left` rounds to go
    unfoldable pub sub_ticks : R → ℕ → ℕ → Generator R G × S → Yield (Generator R G × S)
    sub_ticks sub_dt zero i (g, s) = some ([], (g, s))
    sub_ticks sub_dt (suc left) i (g, s) =
        let moment = g.sim_time + f.micros (f.mul sub_dt (f.lit i 0)) in
        process_reading (advance moment sub_dt s) g >>= sub_ticks sub_dt left (i + 1)

    -- one vehicle's part of a tick: TICK_SECONDS shared out among its readings
    unfoldable pub tick_vehicle : String → Generator R G × S → Yield (Generator R G × S)
    unfolding sub_ticks
    tick_vehicle vehicle_id (g, s) =
        let multiplier = emit_multiplier g vehicle_id in
        sub_ticks (f.div (f.lit 6 0) (f.lit multiplier 0)) multiplier 0 (g, s)

    abbrev pub Fleet : Type 0
    Fleet = Generator R G × List (String × S)

    abbrev pub with_vehicle : String → S → Fleet → Yield Fleet
    with_vehicle vehicle_id s (g, rest) = some ([], (g, (vehicle_id, s) ∷ rest))

    unfoldable pub tick_vehicles : List (String × S) → Generator R G → Yield Fleet
    tick_vehicles [] g = some ([], (g, []))
    tick_vehicles ((vehicle_id, s) ∷ rest) g = tick_vehicle vehicle_id (g, s) >>= λ p.
        tick_vehicles rest p.0 >>= with_vehicle vehicle_id p.1

    abbrev pub end_tick : Fleet → Yield Fleet
    end_tick (g, fleet) = drain_late g >>= λ g'.
        some ([], (record g' { sim_time = g'.sim_time + tick_micros }, fleet))

    unfoldable pub tick : Fleet → Yield Fleet
    unfolding tick_vehicles
    tick (g, fleet) = tick_vehicles fleet g >>= end_tick

    unfoldable pub ticks : ℕ → Fleet → Yield Fleet
    ticks zero s = some ([], s)
    ticks (suc n) s = tick s >>= ticks n

    abbrev pub end_run : Fleet → Yield Fleet
    end_run p = flush_late p.0 >>= λ g. some ([], (g, p.1))

    unfoldable pub run : ℕ → Fleet → Yield Fleet
    unfolding ticks
    run n s = ticks n s >>= end_run
