-- ===== src/Generator/Punctual.antt =====
-- When the generator of src/fleetstream/simulator/generator.py releases the events that it holds back.
use fleet_stream_real_time_f.Prelude.{
  ℕ, ◌+◌, ◌*◌, ◌≤◌, ◌<◌, ◌≡◌, refl, String, Option, none, some, str_eq, All, arith, Bool-cases, inl,
  inr,
}
use fleet_stream_real_time_f.Float.{Float, lt, ◌≼◌, IsLawful}
use fleet_stream_real_time_f.Random.{Random, IsInRange, choice}
use fleet_stream_real_time_f.Prelude.Int.{ℤ}
use fleet_stream_real_time_f.Payload.{TelemetryEvent, Payload, to_dict, num}
use fleet_stream_real_time_f.Generator.Heap.{PendingLate}
use fleet_stream_real_time_f.Generator.Corruption.{corrupt-kind_at}
use fleet_stream_real_time_f.Generator.State.{
  Generator, tick_micros, count_hot, count_invalid, schedule_late,
}
use fleet_stream_real_time_f.Generator.Stream.{
  send_as, send_invalid, send_clean, send_valid, process_counted, process,
}
use fleet_stream_real_time_f.Generator.Accounts.{Returns}
use fleet_stream_real_time_f.Generator.Order.{IsOrdered, All-heappush, heappush-IsOrdered}

-- minutes, in microseconds
abbrev pub minutes : ℕ → ℕ
minutes n = n * 60_000_000

-- timedelta(minutes=x) lies between the spans of the whole numbers that x lies between.
pub record IsTimed (R : Type 0) ⦃f : Float R⦄ : Type 0 where
  pub micros-ge : (x : R) (n : ℕ) → f.lit n 0 ≼ x → minutes n ≤ f.micros (f.mul x (f.lit 60 0))
  pub micros-le : (x : R) (n : ℕ) → x ≼ f.lit n 0 → f.micros (f.mul x (f.lit 60 0)) ≤ minutes n

-- Between ticks: the event was not due when the last tick released the events that were, and it is at
-- most 20 minutes ahead.
abbrev pub IsPending : ℕ → PendingLate → Type 0
IsPending now p = (now < p.release_at + tick_micros) × (p.release_at ≤ now + minutes 20)

module _ {R G : Type 0} where
  -- during the tick that begins at `t`
  abbrev pub Holds : ℕ → Generator R G → Type 0
  Holds t g =
      (g.sim_time ≡ t)
      × IsOrdered g.late_heap
      × All (λ p. p.release_at ≤ t + minutes 20) g.late_heap

  -- between ticks
  abbrev pub IsPunctual : Generator R G → Type 0
  IsPunctual g = IsOrdered g.late_heap × All (IsPending g.sim_time) g.late_heap

  module _ ⦃f : Float R⦄ (l : IsLawful R) (timed : IsTimed R) (r : Random R G)
      (ranges : IsInRange R G r) (t : ℕ) where
    schedule_late-Holds :
        (payload : Payload) (key : String) (g : Generator R G)
        → Holds t g
        → Holds t (schedule_late r payload key g)
    unfolding schedule_late
    schedule_late-Holds payload key g (same, ordered, bounded) =
        let delay = (r.uniform (f.lit 5 0) (f.lit 20 0) g.rng).0 in
        let at_most =
          timed.micros-le delay 20
            (ranges.uniform-le _ _ g.rng (l.lit_le 5 0 20 0 (omega arith))) in
        (
          same,
          heappush-IsOrdered g.late_heap _ ordered,
          All-heappush (λ p. p.release_at ≤ t + minutes 20) g.late_heap _ bounded (omega arith),
        )

    send_clean-Holds :
        (key : String) (payload : Payload) (g : Generator R G)
        → Holds t g
        → Returns (λ _. Holds t) (send_clean r key payload g)
    unfolding send_clean
    send_clean-Holds key payload g h =
        elim (Bool-cases (lt (r.random g.rng).0 g.config.duplicate_rate)) [
          | inl twice ↦ rw twice h
          | inr once ↦ rw once h
        ]

    send_valid-Holds :
        (key : String) (payload : Payload) (g : Generator R G)
        → Holds t g
        → Returns (λ _. Holds t) (send_valid r key payload g)
    unfolding send_valid
    send_valid-Holds key payload g h =
        let g' = record g { rng = (r.random g.rng).1 } in
        elim (Bool-cases (lt (r.random g.rng).0 g.config.late_rate)) [
          | inl late ↦ rw late (schedule_late-Holds payload key g' h)
          | inr on_time ↦ rw on_time (send_clean-Holds key payload g' h)
        ]

    sent-Holds :
        (key : String) (g : Generator R G) (o : Option Payload) (q : Payload)
        → o ≡ some q
        → Holds t g
        → Returns (λ _. Holds t) (send_as r key (count_invalid g) o)
    sent-Holds key g none q e h = cc
    sent-Holds key g (some p) q e h = h

    send_invalid-Holds :
        (key : String) (payload : Payload) (z : ℤ) (g : Generator R G)
        → payload.speed ≡ num z
        → Holds t g
        → Returns (λ _. Holds t) (send_invalid r key payload g)
    unfolding send_invalid choice
    send_invalid-Holds key payload z g e h =
        let (i, rng) = r.position 9 g.rng in
        let (q, made) = corrupt-kind_at payload z e i in
        sent-Holds key (record g { rng = rng }) _ q made h

    process_counted-Holds :
        (e : TelemetryEvent R) (g : Generator R G)
        → Holds t g
        → Returns (λ _. Holds t) (process_counted r e g)
    unfolding process_counted to_dict
    process_counted-Holds e g h =
        let g' = record g { rng = (r.random g.rng).1 } in
        elim (Bool-cases (lt (r.random g.rng).0 g.config.invalid_rate)) [
          | inl bad ↦
              rw bad (send_invalid-Holds e.vehicle_id (to_dict e) (f.round e.speed 2) g' refl h)
          | inr good ↦ rw good (send_valid-Holds e.vehicle_id (to_dict e) g' h)
        ]

    count_hot-Holds :
        (e : TelemetryEvent R) (g : Generator R G) → Holds t g → Holds t (count_hot e g)
    unfolding count_hot
    count_hot-Holds e g h = elim (Bool-cases (str_eq e.vehicle_id g.config.hot_vehicle)) [
      | inl hot ↦ rw hot h
      | inr other ↦ rw other h
    ]

    pub process-Holds :
        (e : TelemetryEvent R) (g : Generator R G)
        → Holds t g
        → Returns (λ _. Holds t) (process r e g)
    unfolding process
    process-Holds e g h = process_counted-Holds e (count_hot e g) (count_hot-Holds e g h)
