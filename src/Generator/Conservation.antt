-- ===== src/Generator/Conservation.antt =====
-- Whole ticks and runs: the records on the wire against the counters.
use fleet_stream_real_time_f.Prelude.{
  ℕ, zero, suc, ◌+◌, ◌≡◌, refl, List, [], ◌∷◌, Option, none, some, String, length, All, ap, arith,
  Advances,
}
use fleet_stream_real_time_f.Float.{Float, ◌≼◌, IsLawful}
use fleet_stream_real_time_f.Float.Laws.{lit_nonneg}
use fleet_stream_real_time_f.Random.{Random}
use fleet_stream_real_time_f.Config.{SimulatorConfig}
use fleet_stream_real_time_f.Generator.Heap.{PendingLate}
use fleet_stream_real_time_f.Payload.{TelemetryEvent}
use fleet_stream_real_time_f.Generator.State.{
  Generator, Message, Yield, total_produced, drain_late, flush_late, start, emit_multiplier,
}
use fleet_stream_real_time_f.Generator.Stream.{
  Fleet, process, process_reading, with_simulator, end_tick, sub_ticks, tick_vehicle, tick_vehicles,
  tick, ticks, end_run, run,
}
use fleet_stream_real_time_f.Generator.Accounts.{
  Books, books, Returns, Returns-map, Keeps, bind-Keeps,
}
use fleet_stream_real_time_f.Generator.Balance.{
  Balances, process-Balances, drain_late-Balances, flush_late-Balances,
}

module _ {R G : Type 0} (g : Generator R G) where
  Balances-Keeps :
      (y : Yield (Generator R G)) → Balances g y → Returns (Keeps books (λ _. Unit {0}) (books g)) y
  Balances-Keeps none h = h
  Balances-Keeps (some (out, g')) h = (h, tt)

  flush_late-Keeps : Returns (Keeps books (λ g'. g'.late_heap ≡ []) (books g)) (flush_late g)
  unfolding flush_late
  flush_late-Keeps = (unfold flush_late in flush_late-Balances g, refl)

module _ {R G S : Type 0} ⦃f : Float R⦄ (l : IsLawful R) (r : Random R G)
    (advance : ℕ → R → S → Option (Option (TelemetryEvent R) × S)) (Inv : S → Type 0)
    (keeps : (t : ℕ) (dt : R) (s : S)
      → f.lit 0 0 ≼ dt
      → Inv s
      → Advances Inv (advance t dt s)) where
  abbrev ledger : Generator R G × S → Books
  ledger p = books p.0

  abbrev IsReady : Generator R G × S → Type 0
  IsReady p = Inv p.1

  abbrev pub fleet_ledger : Fleet r advance → Books
  fleet_ledger p = books p.0

  abbrev pub IsFleetReady : Fleet r advance → Type 0
  IsFleetReady p = All (λ v. Inv v.1) p.1

  with_simulator-Keeps :
      (g : Generator R G) (s : S) (y : Yield (Generator R G))
      → Balances g y
      → Inv s
      → Returns (Keeps ledger IsReady (books g)) (with_simulator r advance s y)
  with_simulator-Keeps g s none h i = h
  with_simulator-Keeps g s (some (out, g')) h i = (h, i)

  process_reading-Keeps :
      (g : Generator R G) (o : Option (Option (TelemetryEvent R) × S))
      → Advances Inv o
      → Returns (Keeps ledger IsReady (books g)) (process_reading r advance o g)
  process_reading-Keeps g none h = h
  process_reading-Keeps g (some (none, s)) h = (omega arith, h)
  process_reading-Keeps g (some (some e, s)) h =
      with_simulator-Keeps g s (process r e g) (process-Balances r e g) h

  sub_ticks-Keeps :
      (sub_dt : R) (left i : ℕ) (g : Generator R G) (s : S)
      → f.lit 0 0 ≼ sub_dt
      → Inv s
      → Returns (Keeps ledger IsReady (books g)) (sub_ticks r advance sub_dt left i (g, s))
  unfolding sub_ticks
  sub_ticks-Keeps sub_dt zero i g s w h = (omega arith, h)
  sub_ticks-Keeps sub_dt (suc left) i g s w h =
      let moment = g.sim_time + f.micros (f.mul sub_dt (f.lit i 0)) in
      bind-Keeps ledger IsReady ledger IsReady (books g) _ (sub_ticks r advance sub_dt left (i + 1))
        (process_reading-Keeps g (advance moment sub_dt s) (keeps moment sub_dt s w h))
        (λ p k. sub_ticks-Keeps sub_dt left (i + 1) p.0 p.1 w k)

  tick_vehicles-Keeps :
      (fleet : List (String × S)) (g : Generator R G)
      → All (λ v. Inv v.1) fleet
      → Returns (Keeps fleet_ledger IsFleetReady (books g)) (tick_vehicles r advance fleet g)
  unfolding tick_vehicles tick_vehicle
  tick_vehicles-Keeps [] g h = (omega arith, tt)
  tick_vehicles-Keeps ((vehicle_id, s) ∷ rest) g h =
      bind-Keeps ledger IsReady fleet_ledger IsFleetReady (books g) _ _
        (sub_ticks-Keeps _ (emit_multiplier g vehicle_id) 0 g s
          (l.div_nonneg _ _ (lit_nonneg l 6 0) (lit_nonneg l (emit_multiplier g vehicle_id) 0)) h.0)
        λ p k.
          bind-Keeps fleet_ledger IsFleetReady fleet_ledger IsFleetReady (books p.0) _ _
            (tick_vehicles-Keeps rest p.0 h.1) λ q ks. (omega arith, (k, ks))

  end_tick-Keeps :
      (p : Fleet r advance)
      → IsFleetReady p
      → Returns (Keeps fleet_ledger IsFleetReady (fleet_ledger p)) (end_tick r advance p)
  end_tick-Keeps (g, fleet) h =
      bind-Keeps books (λ _. Unit {0}) fleet_ledger IsFleetReady (books g) (drain_late g) _
        (Balances-Keeps g (drain_late g) (drain_late-Balances g)) λ g' _. (omega arith, h)

  pub tick-Keeps :
      (p : Fleet r advance)
      → IsFleetReady p
      → Returns (Keeps fleet_ledger IsFleetReady (fleet_ledger p)) (tick r advance p)
  unfolding tick
  tick-Keeps (g, fleet) h =
      bind-Keeps fleet_ledger IsFleetReady fleet_ledger IsFleetReady (books g) _
        (end_tick r advance) (tick_vehicles-Keeps fleet g h) end_tick-Keeps

  ticks-Keeps :
      (n : ℕ) (p : Fleet r advance)
      → IsFleetReady p
      → Returns (Keeps fleet_ledger IsFleetReady (fleet_ledger p)) (ticks r advance n p)
  unfolding ticks
  ticks-Keeps zero p h = (omega arith, h)
  ticks-Keeps (suc n) p h =
      bind-Keeps fleet_ledger IsFleetReady fleet_ledger IsFleetReady (fleet_ledger p) _
        (ticks r advance n) (tick-Keeps p h) (ticks-Keeps n)

  abbrev pub IsFlushed : Fleet r advance → Type 0
  IsFlushed p = (p.0.late_heap ≡ []) × IsFleetReady p

  -- the flush that ends a run
  pub end_run-Keeps :
      (p : Fleet r advance)
      → IsFleetReady p
      → Returns (Keeps fleet_ledger IsFlushed (fleet_ledger p)) (end_run r advance p)
  end_run-Keeps p h =
      bind-Keeps books (λ g. g.late_heap ≡ []) fleet_ledger IsFlushed (fleet_ledger p)
        (flush_late p.0) _ (flush_late-Keeps p.0) λ g e. (omega arith, (e, h))

  run-Keeps :
      (n : ℕ) (p : Fleet r advance)
      → IsFleetReady p
      → Returns (Keeps fleet_ledger IsFlushed (fleet_ledger p)) (run r advance n p)
  unfolding run
  run-Keeps n p h =
      bind-Keeps fleet_ledger IsFleetReady fleet_ledger IsFlushed (fleet_ledger p) _
        (end_run r advance) (ticks-Keeps n p h) end_run-Keeps

  -- From a new generator, books that are settled and an empty buffer say that the records sent are those
  -- counted.
  abbrev pub IsConserved : List Message → Fleet r advance → Type 0
  IsConserved out p = (length out ≡ total_produced p.0.stats) × (p.0.late_heap ≡ [])

  pub IsConserved-of_Keeps :
      (config : SimulatorConfig R) (start_time : ℕ) (y : Yield (Fleet r advance))
      → Returns (Keeps fleet_ledger IsFlushed (books (start r config start_time))) y
      → Returns IsConserved y
  unfolding start total_produced
  IsConserved-of_Keeps config start_time y =
      Returns-map (Keeps fleet_ledger IsFlushed (books (start r config start_time))) IsConserved y
        λ out p h. (omega (arith, ap (length {A = PendingLate}) h.1.0), h.1.0)

  -- A run of any number of ticks from a new generator, over simulators whose ticks do not fail,
  -- returns; as many records are yielded as the counters' total says, and no late event is left in
  -- the buffer.
  pub run_conserves :
      (n : ℕ) (config : SimulatorConfig R) (start_time : ℕ) (fleet : List (String × S))
      → All (λ v. Inv v.1) fleet
      → Returns IsConserved (run r advance n (start r config start_time, fleet))
  run_conserves n config start_time fleet ready =
      IsConserved-of_Keeps config start_time _
        (run-Keeps n (start r config start_time, fleet) ready)
