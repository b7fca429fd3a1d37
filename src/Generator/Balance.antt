-- ===== src/Generator/Balance.antt =====
-- Every operation of the generator settles its books, and none of them fails.
use fleet_stream_real_time_f.Prelude.{
  ℕ, ◌+◌, ◌≡◌, refl, List, [], ◌∷◌, Option, none, some, String, length, arith, Bool-cases, inl, inr,
}
use mathlib.Core.Path.{subst}
use fleet_stream_real_time_f.Float.{Float, lt}
use fleet_stream_real_time_f.Random.{Random, choice}
use fleet_stream_real_time_f.Payload.{TelemetryEvent, Payload, to_dict, num}
use fleet_stream_real_time_f.Prelude.Int.{ℤ}
use fleet_stream_real_time_f.Generator.Heap.{PendingLate, length-heappush}
use fleet_stream_real_time_f.Generator.Corruption.{corrupt-kind_at}
use fleet_stream_real_time_f.Generator.State.{
  Generator, Yield, total_produced, count_hot, count_invalid, pop_due, pop_all, drain_late,
  flush_late, schedule_late,
}
use fleet_stream_real_time_f.Generator.Stream.{
  send_as, send_invalid, send_clean, send_valid, process, process_counted,
}
use fleet_stream_real_time_f.Generator.Accounts.{books, Settles, Returns}

length-pop_due :
    (now : ℕ) (heap : List PendingLate)
    → length (pop_due now heap).0 + length (pop_due now heap).1 ≡ length heap
unfolding pop_due
length-pop_due now [] = refl
length-pop_due now (p ∷ heap) = ground (arith, length-pop_due now heap)

length-pop_all : (heap : List PendingLate) → length (pop_all heap) ≡ length heap
unfolding pop_all
length-pop_all [] = refl
length-pop_all (p ∷ heap) = omega (arith, length-pop_all heap)

-- The books of `g` are settled by what a call yields.
abbrev pub Balances : {R G : Type 0} → Generator R G → Yield (Generator R G) → Type 0
Balances g = Returns (λ out g'. Settles (books g) out (books g'))

module _ {R G : Type 0} where
  pub drain_late-Balances : (g : Generator R G) → Balances g (drain_late g)
  unfolding drain_late
  drain_late-Balances g = omega (arith, length-pop_due g.sim_time g.late_heap)

  pub flush_late-Balances : (g : Generator R G) → Balances g (flush_late g)
  unfolding flush_late
  flush_late-Balances g = omega (arith, length-pop_all g.late_heap)

  module _ ⦃f : Float R⦄ (r : Random R G) where
    schedule_late-Balances :
        (payload : Payload) (key : String) (g : Generator R G)
        → Balances g (some ([], schedule_late r payload key g))
    unfolding schedule_late total_produced
    schedule_late-Balances payload key g = omega (arith, length-heappush)

    send_clean-Balances :
        (key : String) (payload : Payload) (g : Generator R G)
        → Balances g (send_clean r key payload g)
    unfolding send_clean total_produced
    send_clean-Balances key payload g = ground arith

    send_valid-Balances :
        (key : String) (payload : Payload) (g : Generator R G)
        → Balances g (send_valid r key payload g)
    unfolding send_valid
    send_valid-Balances key payload g =
        let g' = record g { rng = (r.random g.rng).1 } in
        elim (Bool-cases (lt (r.random g.rng).0 g.config.late_rate)) [
          | inl late ↦ rw late (schedule_late-Balances payload key g')
          | inr on_time ↦ rw on_time (send_clean-Balances key payload g')
        ]

    sent-Balances :
        (key : String) (g : Generator R G) (o : Option Payload) (q : Payload)
        → o ≡ some q
        → Balances g (send_as r key (count_invalid g) o)
    unfolding total_produced
    sent-Balances key g none q e = cc
    sent-Balances key g (some p) q e = omega arith

    send_invalid-Balances :
        (key : String) (payload : Payload) (z : ℤ) (g : Generator R G)
        → payload.speed ≡ num z
        → Balances g (send_invalid r key payload g)
    unfolding send_invalid choice
    send_invalid-Balances key payload z g h =
        let (i, rng) = r.position 9 g.rng in
        let (q, e) = corrupt-kind_at payload z h i in
        sent-Balances key (record g { rng = rng }) _ q e

    process_counted-Balances :
        (e : TelemetryEvent R) (g : Generator R G) → Balances g (process_counted r e g)
    unfolding process_counted to_dict
    process_counted-Balances e g =
        let g' = record g { rng = (r.random g.rng).1 } in
        elim (Bool-cases (lt (r.random g.rng).0 g.config.invalid_rate)) [
          | inl bad ↦
              rw bad (send_invalid-Balances e.vehicle_id (to_dict e) (f.round e.speed 2) g' refl)
          | inr good ↦ rw good (send_valid-Balances e.vehicle_id (to_dict e) g')
        ]

    books-count_hot : (e : TelemetryEvent R) (g : Generator R G) → books (count_hot e g) ≡ books g
    unfolding count_hot total_produced
    books-count_hot e g = ground arith

    -- A reading is counted exactly when it is sent or buffered, and never makes the generator fail.
    pub process-Balances : (e : TelemetryEvent R) (g : Generator R G) → Balances g (process r e g)
    unfolding process
    process-Balances e g =
        subst
          (λ b. Returns (λ out g'. Settles b out (books g')) (process_counted r e (count_hot e g)))
          (books-count_hot e g) (process_counted-Balances e (count_hot e g))
