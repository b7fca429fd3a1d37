-- ===== src/Generator/Release.antt =====
-- Whole ticks of the generator of src/fleetstream/simulator/generator.py, and the events that they leave in
-- the buffer.
use fleet_stream_real_time_f.Prelude.{
  ℕ, zero, suc, ◌+◌, ◌≤◌, ◌<◌, refl, String, Option, none, some, List, [], ◌∷◌, All, All-map, arith,
  Advances,
}
use fleet_stream_real_time_f.Float.{Float, ◌≼◌, IsLawful}
use fleet_stream_real_time_f.Float.Laws.{lit_nonneg}
use fleet_stream_real_time_f.Random.{Random, IsInRange}
use fleet_stream_real_time_f.Payload.{TelemetryEvent}
use fleet_stream_real_time_f.Generator.Heap.{PendingLate}
use fleet_stream_real_time_f.Generator.State.{
  Generator, Yield, tick_micros, pop_due, drain_late, emit_multiplier,
}
use fleet_stream_real_time_f.Generator.Stream.{
  Fleet, process, process_reading, with_simulator, sub_ticks, tick_vehicle, tick_vehicles, end_tick,
  tick, ticks,
}
use fleet_stream_real_time_f.Generator.Accounts.{Returns, bind-Returns}
use fleet_stream_real_time_f.Generator.Order.{pop_due-IsOrdered, All-pop_due, pop_due-late}
use fleet_stream_real_time_f.Generator.Punctual.{
  IsTimed, minutes, IsPending, Holds, IsPunctual, process-Holds,
}

module _ {R G S : Type 0} ⦃f : Float R⦄ (l : IsLawful R) (timed : IsTimed R) (r : Random R G)
    (ranges : IsInRange R G r) (advance : ℕ → R → S → Option (Option (TelemetryEvent R) × S))
    (Inv : S → Type 0)
    (keeps : (t : ℕ) (dt : R) (s : S)
      → f.lit 0 0 ≼ dt
      → Inv s
      → Advances Inv (advance t dt s)) where
  abbrev IsUnderway : ℕ → Generator R G × S → Type 0
  IsUnderway t p = Holds t p.0 × Inv p.1

  abbrev IsFleetUnderway : ℕ → Fleet r advance → Type 0
  IsFleetUnderway t p = Holds t p.0 × All (λ v. Inv v.1) p.1

  abbrev pub IsFleetPunctual : Fleet r advance → Type 0
  IsFleetPunctual p = IsPunctual p.0 × All (λ v. Inv v.1) p.1

  with_simulator-IsUnderway :
      (t : ℕ) (s : S) (y : Yield (Generator R G))
      → Returns (λ _. Holds t) y
      → Inv s
      → Returns (λ _. IsUnderway t) (with_simulator r advance s y)
  with_simulator-IsUnderway t s none h i = h
  with_simulator-IsUnderway t s (some (out, g)) h i = (h, i)

  process_reading-IsUnderway :
      (t : ℕ) (g : Generator R G) (o : Option (Option (TelemetryEvent R) × S))
      → Holds t g
      → Advances Inv o
      → Returns (λ _. IsUnderway t) (process_reading r advance o g)
  process_reading-IsUnderway t g none h i = i
  process_reading-IsUnderway t g (some (none, s)) h i = (h, i)
  process_reading-IsUnderway t g (some (some e, s)) h i =
      with_simulator-IsUnderway t s (process r e g) (process-Holds l timed r ranges t e g h) i

  sub_ticks-IsUnderway :
      (t : ℕ) (sub_dt : R) (left i : ℕ) (g : Generator R G) (s : S)
      → f.lit 0 0 ≼ sub_dt
      → Holds t g
      → Inv s
      → Returns (λ _. IsUnderway t) (sub_ticks r advance sub_dt left i (g, s))
  unfolding sub_ticks
  sub_ticks-IsUnderway t sub_dt zero i g s w h k = (h, k)
  sub_ticks-IsUnderway t sub_dt (suc left) i g s w h k =
      let moment = g.sim_time + f.micros (f.mul sub_dt (f.lit i 0)) in
      bind-Returns (IsUnderway t) (IsUnderway t) _ (sub_ticks r advance sub_dt left (i + 1))
        (process_reading-IsUnderway t g (advance moment sub_dt s) h (keeps moment sub_dt s w k))
        (λ p u. sub_ticks-IsUnderway t sub_dt left (i + 1) p.0 p.1 w u.0 u.1)

  tick_vehicles-IsUnderway :
      (t : ℕ) (fleet : List (String × S)) (g : Generator R G)
      → Holds t g
      → All (λ v. Inv v.1) fleet
      → Returns (λ _. IsFleetUnderway t) (tick_vehicles r advance fleet g)
  unfolding tick_vehicles tick_vehicle
  tick_vehicles-IsUnderway t [] g h k = (h, tt)
  tick_vehicles-IsUnderway t ((vehicle_id, s) ∷ rest) g h k =
      bind-Returns (IsUnderway t) (IsFleetUnderway t) _ _
        (sub_ticks-IsUnderway t _ (emit_multiplier g vehicle_id) 0 g s
          (l.div_nonneg _ _ (lit_nonneg l 6 0) (lit_nonneg l (emit_multiplier g vehicle_id) 0)) h
          k.0)
        λ p u.
          bind-Returns (IsFleetUnderway t) (IsFleetUnderway t) _ _
            (tick_vehicles-IsUnderway t rest p.0 u.0 k.1) λ q v. (v.0, (u.1, v.1))

  -- releasing what is due, and the step of the clock
  end_tick-IsPunctual :
      (t : ℕ) (p : Fleet r advance)
      → IsFleetUnderway t p
      → Returns (λ _. IsFleetPunctual) (end_tick r advance p)
  unfolding drain_late
  end_tick-IsPunctual t (g, fleet) ((same, ordered, bounded), k) =
      let left = (pop_due g.sim_time g.late_heap).1 in
      (
        (
          pop_due-IsOrdered g.sim_time g.late_heap ordered,
          both left (pop_due-late g.sim_time g.late_heap ordered)
              (All-pop_due (λ p. p.release_at ≤ t + minutes 20) g.sim_time g.late_heap bounded),
        ),
        k,
      )
    where
      both :
          (heap : List PendingLate)
          → All (λ p. g.sim_time < p.release_at) heap
          → All (λ p. p.release_at ≤ t + minutes 20) heap
          → All (IsPending (g.sim_time + tick_micros)) heap
      both [] a b = tt
      both (p ∷ heap) a b = ((omega arith, omega arith), both heap a.1 b.1)

  pub tick-IsPunctual :
      (p : Fleet r advance) → IsFleetPunctual p → Returns (λ _. IsFleetPunctual) (tick r advance p)
  unfolding tick
  tick-IsPunctual (g, fleet) ((ordered, pending), k) =
      bind-Returns (IsFleetUnderway g.sim_time) IsFleetPunctual _ (end_tick r advance)
        (tick_vehicles-IsUnderway g.sim_time fleet g
          (
            refl,
            ordered,
            All-map (IsPending g.sim_time) (λ p. p.release_at ≤ g.sim_time + minutes 20) g.late_heap
                (λ p h. h.1) pending,
          )
          k)
        (end_tick-IsPunctual g.sim_time)

  -- After any number of ticks, the events held back are in the order of their release; none of them was
  -- due when the last tick released the events that were, and none is more than 20 minutes ahead.
  pub ticks-IsPunctual :
      (n : ℕ) (p : Fleet r advance)
      → IsFleetPunctual p
      → Returns (λ _. IsFleetPunctual) (ticks r advance n p)
  unfolding ticks
  ticks-IsPunctual zero p h = h
  ticks-IsPunctual (suc n) p h =
      bind-Returns IsFleetPunctual IsFleetPunctual _ (ticks r advance n) (tick-IsPunctual p h)
        (ticks-IsPunctual n)
