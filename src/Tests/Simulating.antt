-- ===== src/Tests/Simulating.antt =====
-- Runs of the simulator, and its theorems at concrete inputs.
use fleet_stream_real_time_f.Prelude.{
  true, All, ℕ, String, ◌≡◌, refl, List, [], Option, none, some, length, Advances, ◌∷◌, ◌↔◌, ◌≤◌,
}
use fleet_stream_real_time_f.Prelude.Int.{ℤ, pos}
use fleet_stream_real_time_f.Float.Fixed.{fixed, fixed-IsLawful}
use fleet_stream_real_time_f.Vehicle.State.{VehicleSimulator, new_simulator}
use fleet_stream_real_time_f.Vehicle.Tick.{tick}
use fleet_stream_real_time_f.Vehicle.Physics.{IsTick, tick-IsTick}
use fleet_stream_real_time_f.Vehicle.Fleet.{IsSane, new_simulator-IsSound}
use fleet_stream_real_time_f.Generator.State.{total_produced, Message, InjectionStats, Yield}
use fleet_stream_real_time_f.Generator.Stream.{run, Fleet}
use fleet_stream_real_time_f.Generator.Accounts.{Returns}
use fleet_stream_real_time_f.Generator.Origin.{IsMade}
use fleet_stream_real_time_f.Simulation.{advance, new_fleet, simulate_conserves, simulate-IsMade}
use fleet_stream_real_time_f.Config.{post_init, IsRate, post_init_iff}
use fleet_stream_real_time_f.Producer.Loop.{Client}
use fleet_stream_real_time_f.Tests.Samples.{
  counting, counting-IsInRange, flat, plain, van, vans, busy, one_route, one_driver,
}
use fleet_stream_real_time_f.Generator.Stream.{
  tick as tick_all, tick_vehicle, process, send_invalid, process_counted, send_clean, send_valid,
  sub_ticks, tick_vehicles, ticks,
}
use fleet_stream_real_time_f.Generator.State.{
  emit_multiplier, start, count_hot, at_least_one, drain_late, flush_late, pop_all, pop_due,
  schedule_late,
}
use fleet_stream_real_time_f.Generator.Heap.{before, heappush}
use fleet_stream_real_time_f.Vehicle.Fleet.{build_simulators, put}
use fleet_stream_real_time_f.Vehicle.Tick.{rest_or_drive, due, drive_on, reading, drive, finish}
use fleet_stream_real_time_f.Vehicle.State.{
  start_trip, cool_down, deterministic_event_id, end_trip, target_speed, warm_up,
}
use fleet_stream_real_time_f.Vehicle.Position.{locate, position_along, position_at}
use fleet_stream_real_time_f.Payload.{corrupt, negate_speed, speed_or_ten, to_dict}
use fleet_stream_real_time_f.Prelude.Int.{◌-ℤ◌, ◌+ℤ◌}
use fleet_stream_real_time_f.Prelude.Text.{decimal, decimal_04, decimal_from, digit, tail}
use fleet_stream_real_time_f.Random.{choice}
use fleet_stream_real_time_f.Reference.{
  cumulative_distances, cumulative_from, haversine_km, interpolate,
}
use fleet_stream_real_time_f.Float.Fixed.{cut}

van-IsSane : (id : String) → IsSane (van id)
van-IsSane id = record {
  capacity_nonneg = refl;
  capacity_positive = refl;
  consumption_nonneg = refl;
}

simulate_conserves_example :
    Returns
      (λ out p. (length out ≡ total_produced p.0.stats) × (p.0.late_heap ≡ []))
      (run counting
        (advance counting flat plain)
        2
        (new_fleet counting flat plain busy vans one_driver one_route 1_000_000))
simulate_conserves_example =
    simulate_conserves counting flat plain fixed-IsLawful counting-IsInRange 2 busy vans one_driver
      one_route 1_000_000 (van-IsSane "V1000", (van-IsSane "V9999", tt))

simulate-IsMade_example :
    Returns
      (λ out _. All (IsMade counting (advance counting flat plain)) out)
      (run counting
        (advance counting flat plain)
        2
        (new_fleet counting flat plain busy vans one_driver one_route 1_000_000))
simulate-IsMade_example =
    simulate-IsMade counting flat plain fixed-IsLawful counting-IsInRange 2 busy vans one_driver
      one_route 1_000_000 (van-IsSane "V1000", (van-IsSane "V9999", tt))

abbrev new_van : VehicleSimulator ℤ ℕ
new_van = new_simulator counting (van "V1000") 7 one_route one_driver

tick-IsTick_example :
    Advances
      (IsTick fixed-IsLawful counting new_van)
      (tick counting flat plain 0 (pos 6_000_000) new_van)
tick-IsTick_example =
    tick-IsTick fixed-IsLawful counting counting-IsInRange flat plain (pos 6_000_000) refl 0 new_van
      (new_simulator-IsSound counting fixed-IsLawful counting-IsInRange (van "V1000") 7 one_route
        one_driver (van-IsSane "V1000"))

-- a broker that delivers all at once
abbrev pub queueing : Client (List Message)
queueing = record {
  produce = λ m queue. some (m ∷ queue);
  flush = λ queue. (0, queue);
  is_writable = true;
}

post_init_iff_example : (post_init busy ≡ none) ↔ (
    IsRate busy.duplicate_rate
    × IsRate busy.late_rate
    × IsRate busy.invalid_rate
    × (1 ≤ busy.vehicle_count))
post_init_iff_example = post_init_iff busy

abbrev counts : List Message → Fleet counting (advance counting flat plain) → ℕ × InjectionStats
counts out p = (length out, p.0.stats)

abbrev summary : Yield (Fleet counting (advance counting flat plain)) → Option (ℕ × InjectionStats)
summary none = none
summary (some (out, p)) = some (counts out p)

-- Two ticks of two vans, the second of which reports three times a tick: every kind of record is among them.
runs_as_written :
    summary (
      run counting
        (advance counting flat plain)
        2
        (new_fleet counting flat plain busy vans one_driver one_route 1_000_000))
    ≡ some (10, record { clean = 5; duplicates = 2; late = 3; invalid = 3; hot_vehicle = 6 })
unfolding new_fleet run new_simulator tick tick_all tick_vehicle process send_invalid
    process_counted send_clean send_valid sub_ticks tick_vehicles ticks emit_multiplier start
    count_hot at_least_one drain_late flush_late pop_all pop_due schedule_late before heappush
    build_simulators put rest_or_drive due drive_on reading drive finish start_trip cool_down
    deterministic_event_id end_trip target_speed warm_up locate position_along position_at corrupt
    negate_speed speed_or_ten to_dict ◌-ℤ◌ ◌+ℤ◌ decimal decimal_04 decimal_from digit tail choice
    cumulative_distances cumulative_from haversine_km interpolate cut
runs_as_written = refl
