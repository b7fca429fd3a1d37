-- ===== src/Generator/Origin.antt =====
-- Where the records come from that the generator of src/fleetstream/simulator/generator.py yields.
use fleet_stream_real_time_f.Prelude.{
  ℕ, zero, suc, ◌+◌, ◌≡◌, ◌⊎◌, inl, inr, refl, String, str_eq, Option, none, some, List, [], ◌∷◌,
  All, All-append, Bool-cases, leb,
}
use fleet_stream_real_time_f.Float.{Float, lt}
use fleet_stream_real_time_f.Random.{Random, choice}
use fleet_stream_real_time_f.Payload.{TelemetryEvent, Payload, to_dict, corrupt}
use fleet_stream_real_time_f.Generator.Heap.{PendingLate}
use fleet_stream_real_time_f.Generator.Corruption.{kind_at}
use fleet_stream_real_time_f.Generator.Accounts.{Returns}
use fleet_stream_real_time_f.Generator.Order.{All-heappush, All-pop_due}
use fleet_stream_real_time_f.Generator.State.{
  Generator, Message, Yield, tick_micros, prepend, ◌>>=◌, pop_due, pop_all, count_hot,
  count_invalid, drain_late, flush_late, emit_multiplier, schedule_late,
}
use fleet_stream_real_time_f.Generator.Stream.{
  Fleet, send_as, send_invalid, send_clean, send_valid, process_counted, process, process_reading,
  with_simulator, sub_ticks, tick_vehicle, tick_vehicles, end_tick, tick, ticks, end_run, run,
}

module _ {R G S : Type 0} ⦃f : Float R⦄ (r : Random R G)
    (advance : ℕ → R → S → Option (Option (TelemetryEvent R) × S)) where
  -- a reading that the tick of a simulator has returned
  abbrev pub IsReturned : TelemetryEvent R → Type 0
  IsReturned e = (now : ℕ) × (dt : R) × (s : S) × (s' : S) × (advance now dt s ≡ some (some e, s'))

  -- The record has the vehicle of a returned reading as its key, and carries that reading as it is or one of the
  -- corruptions of it.
  abbrev pub IsMade : Message → Type 0
  IsMade (key, payload) =
      (e : TelemetryEvent R) × IsReturned e
      × (key ≡ e.vehicle_id)
      × ((payload ≡ to_dict e) ⊎ ((i : ℕ) × (corrupt (to_dict e) (kind_at i) ≡ some payload)))

  -- an event held back, and what it will be on the wire
  abbrev IsHeld : PendingLate → Type 0
  IsHeld p = IsMade (p.key, p.payload)

  -- What a call yields, and what it leaves in the buffer, is made so.
  abbrev pub AreMade : {T : Type 0} → (T → Generator R G) → Yield T → Type 0
  AreMade generator none = Unit
  AreMade generator (some (out, s)) = All IsMade out × All IsHeld (generator s).late_heap

  prepend-AreMade :
      {T : Type 0} (generator : T → Generator R G) (out : List Message) (y : Yield T)
      → All IsMade out
      → AreMade generator y
      → AreMade generator (prepend out y)
  prepend-AreMade generator out none h k = tt
  prepend-AreMade generator out (some (more, t)) h k = (All-append IsMade out more h k.0, k.1)

  bind-AreMade :
      {S T : Type 0} (from : S → Generator R G) (to : T → Generator R G) (m : Yield S)
      (k : S → Yield T)
      → AreMade from m
      → ((s : S) → All IsHeld (from s).late_heap → AreMade to (k s))
      → AreMade to (m >>= k)
  bind-AreMade from to none k h step = tt
  bind-AreMade from to (some (out, s)) k h step = prepend-AreMade to out (k s) h.0 (step s h.1)

  abbrev self : Generator R G → Generator R G
  self g = g

  module _ (e : TelemetryEvent R) (returned : IsReturned e) where
    intact : IsMade (e.vehicle_id, to_dict e)
    intact = (e, returned, refl, inl refl)

    sent-AreMade :
        (i : ℕ) (g : Generator R G) (o : Option Payload)
        → corrupt (to_dict e) (kind_at i) ≡ o
        → All IsHeld g.late_heap
        → AreMade self (send_as r e.vehicle_id (count_invalid g) o)
    sent-AreMade i g none made h = tt
    sent-AreMade i g (some q) made h = (((e, returned, refl, inr (i, made)), tt), h)

    send_invalid-AreMade :
        (g : Generator R G)
        → All IsHeld g.late_heap
        → AreMade self (send_invalid r e.vehicle_id (to_dict e) g)
    unfolding send_invalid choice
    send_invalid-AreMade g h =
        let (i, rng) = r.position 9 g.rng in
        sent-AreMade i (record g { rng = rng }) (corrupt (to_dict e) (kind_at i)) refl h

    send_clean-AreMade :
        (g : Generator R G)
        → All IsHeld g.late_heap
        → AreMade self (send_clean r e.vehicle_id (to_dict e) g)
    unfolding send_clean
    send_clean-AreMade g h = elim (Bool-cases (lt (r.random g.rng).0 g.config.duplicate_rate)) [
      | inl twice ↦ rw twice ((intact, (intact, tt)), h)
      | inr once ↦ rw once ((intact, tt), h)
    ]

    send_valid-AreMade :
        (g : Generator R G)
        → All IsHeld g.late_heap
        → AreMade self (send_valid r e.vehicle_id (to_dict e) g)
    unfolding send_valid schedule_late
    send_valid-AreMade g h =
        let g' = record g { rng = (r.random g.rng).1 } in
        elim (Bool-cases (lt (r.random g.rng).0 g.config.late_rate)) [
          | inl late ↦ rw late (tt, All-heappush IsHeld g.late_heap _ h intact)
          | inr on_time ↦ rw on_time (send_clean-AreMade g' h)
        ]

    process_counted-AreMade :
        (g : Generator R G) → All IsHeld g.late_heap → AreMade self (process_counted r e g)
    unfolding process_counted
    process_counted-AreMade g h =
        let g' = record g { rng = (r.random g.rng).1 } in
        elim (Bool-cases (lt (r.random g.rng).0 g.config.invalid_rate)) [
          | inl bad ↦ rw bad (send_invalid-AreMade g' h)
          | inr good ↦ rw good (send_valid-AreMade g' h)
        ]

    process-AreMade : (g : Generator R G) → All IsHeld g.late_heap → AreMade self (process r e g)
    unfolding process count_hot
    process-AreMade g h = elim (Bool-cases (str_eq e.vehicle_id g.config.hot_vehicle)) [
      | inl hot ↦ rw hot (process_counted-AreMade _ h)
      | inr other ↦ rw other (process_counted-AreMade g h)
    ]

  abbrev of_one : Generator R G × S → Generator R G
  of_one p = p.0

  abbrev pub of_fleet : Fleet r advance → Generator R G
  of_fleet p = p.0

  with_simulator-AreMade :
      (s : S) (y : Yield (Generator R G))
      → AreMade self y
      → AreMade of_one (with_simulator r advance s y)
  with_simulator-AreMade s none h = h
  with_simulator-AreMade s (some (out, g)) h = h

  process_reading-AreMade :
      (now : ℕ) (dt : R) (s : S) (g : Generator R G) (o : Option (Option (TelemetryEvent R) × S))
      → advance now dt s ≡ o
      → All IsHeld g.late_heap
      → AreMade of_one (process_reading r advance o g)
  process_reading-AreMade now dt s g none e h = tt
  process_reading-AreMade now dt s g (some (none, s')) e h = (tt, h)
  process_reading-AreMade now dt s g (some (some event, s')) e h =
      with_simulator-AreMade s' (process r event g) (process-AreMade event (now, dt, s, s', e) g h)

  sub_ticks-AreMade :
      (sub_dt : R) (left i : ℕ) (g : Generator R G) (s : S)
      → All IsHeld g.late_heap
      → AreMade of_one (sub_ticks r advance sub_dt left i (g, s))
  unfolding sub_ticks
  sub_ticks-AreMade sub_dt zero i g s h = (tt, h)
  sub_ticks-AreMade sub_dt (suc left) i g s h =
      let moment = g.sim_time + f.micros (f.mul sub_dt (f.lit i 0)) in
      bind-AreMade of_one of_one _ (sub_ticks r advance sub_dt left (i + 1))
        (process_reading-AreMade moment sub_dt s g (advance moment sub_dt s) refl h)
        (λ p k. sub_ticks-AreMade sub_dt left (i + 1) p.0 p.1 k)

  tick_vehicles-AreMade :
      (fleet : List (String × S)) (g : Generator R G)
      → All IsHeld g.late_heap
      → AreMade of_fleet (tick_vehicles r advance fleet g)
  unfolding tick_vehicles tick_vehicle
  tick_vehicles-AreMade [] g h = (tt, h)
  tick_vehicles-AreMade ((vehicle_id, s) ∷ rest) g h =
      bind-AreMade of_one of_fleet _ _ (sub_ticks-AreMade _ (emit_multiplier g vehicle_id) 0 g s h)
        λ p k.
          bind-AreMade of_fleet of_fleet _ _ (tick_vehicles-AreMade rest p.0 k) λ q k'. (tt, k')

  popped-AreMade :
      (now : ℕ) (heap : List PendingLate) → All IsHeld heap → All IsMade (pop_due now heap).0
  unfolding pop_due
  popped-AreMade now [] h = tt
  popped-AreMade now (p ∷ heap) h = elim (Bool-cases (leb p.release_at now)) [
    | inl due ↦ rw due (h.0, popped-AreMade now heap h.1)
    | inr early ↦ rw early tt
  ]

  all-AreMade : (heap : List PendingLate) → All IsHeld heap → All IsMade (pop_all heap)
  unfolding pop_all
  all-AreMade [] h = tt
  all-AreMade (p ∷ heap) h = (h.0, all-AreMade heap h.1)

  end_tick-AreMade :
      (p : Fleet r advance) → All IsHeld p.0.late_heap → AreMade of_fleet (end_tick r advance p)
  unfolding drain_late
  end_tick-AreMade (g, fleet) h =
      bind-AreMade self of_fleet (drain_late g)
        (λ g'. some ([], (record g' { sim_time = g'.sim_time + tick_micros }, fleet)))
        (popped-AreMade g.sim_time g.late_heap h, All-pop_due IsHeld g.sim_time g.late_heap h)
        λ g' k. (tt, k)

  tick-AreMade :
      (p : Fleet r advance) → All IsHeld p.0.late_heap → AreMade of_fleet (tick r advance p)
  unfolding tick
  tick-AreMade (g, fleet) h =
      bind-AreMade of_fleet of_fleet _ (end_tick r advance) (tick_vehicles-AreMade fleet g h)
        end_tick-AreMade

  ticks-AreMade :
      (n : ℕ) (p : Fleet r advance)
      → All IsHeld p.0.late_heap
      → AreMade of_fleet (ticks r advance n p)
  unfolding ticks
  ticks-AreMade zero p h = (tt, h)
  ticks-AreMade (suc n) p h =
      bind-AreMade of_fleet of_fleet _ (ticks r advance n) (tick-AreMade p h) (ticks-AreMade n)

  end_run-AreMade :
      (p : Fleet r advance) → All IsHeld p.0.late_heap → AreMade of_fleet (end_run r advance p)
  unfolding flush_late
  end_run-AreMade (g, fleet) h =
      bind-AreMade self of_fleet (flush_late g) (λ g'. some ([], (g', fleet)))
        (all-AreMade g.late_heap h, tt) λ g' k. (tt, k)

  pub run-AreMade :
      (n : ℕ) (p : Fleet r advance)
      → All IsHeld p.0.late_heap
      → AreMade of_fleet (run r advance n p)
  unfolding run
  run-AreMade n p h =
      bind-AreMade of_fleet of_fleet _ (end_run r advance) (ticks-AreMade n p h) end_run-AreMade

  pub Returns-IsMade :
      (P : List Message → Fleet r advance → Type 0) (y : Yield (Fleet r advance))
      → Returns P y
      → AreMade of_fleet y
      → Returns (λ out _. All IsMade out) y
  Returns-IsMade P none h made = h
  Returns-IsMade P (some (out, p)) h made = made.0
