-- ===== src/Generator/State.antt =====
-- src/fleetstream/simulator/generator.py: the counters, the state and the late buffer. What a Python
-- generator yields is a list; `none` is an exception.
use Prim.Native.Nat.{bit_xor}
use fleet_stream_real_time_f.Prelude.{
  ℕ, zero, suc, ◌+◌, String, str_eq, length, Option, none, some, List, [], ◌∷◌, ◌++◌, leb,
  if◌then◌else◌,
}
use fleet_stream_real_time_f.Prelude.Int.{ℤ, pos, negsuc}
use fleet_stream_real_time_f.Float.{Float}
use fleet_stream_real_time_f.Random.{Random}
use fleet_stream_real_time_f.Config.{SimulatorConfig}
use fleet_stream_real_time_f.Payload.{TelemetryEvent, Payload}
use fleet_stream_real_time_f.Generator.Heap.{PendingLate, heappush}

pub record InjectionStats : Type 0 where
  pub clean : ℕ
  pub duplicates : ℕ
  pub late : ℕ
  pub invalid : ℕ
  pub hot_vehicle : ℕ

abbrev pub no_stats : InjectionStats
no_stats = record { clean = 0; duplicates = 0; late = 0; invalid = 0; hot_vehicle = 0 }

unfoldable pub total_produced : InjectionStats → ℕ
total_produced s = s.clean + s.duplicates + s.invalid

unfoldable pub distinct_valid : InjectionStats → ℕ
distinct_valid s = s.clean

-- A record on the wire: its key and its payload.
abbrev pub Message : Type 0
Message = String × Payload

-- TICK_SECONDS, in microseconds
abbrev pub tick_micros : ℕ
tick_micros = 6_000_000

-- The generator's own state; the simulators stand beside it.
pub record Generator (R G : Type 0) : Type 0 where
  pub config : SimulatorConfig R
  pub sim_time : ℕ
  pub stats : InjectionStats
  pub rng : G
  pub late_heap : List PendingLate
  pub counter : ℕ

-- What a call yields, and the state it leaves.
abbrev pub Yield : Type 0 → Type 0
Yield S = Option (List Message × S)

abbrev pub prepend : {S : Type 0} → List Message → Yield S → Yield S
prepend out none = none
prepend out (some (rest, s)) = some (out ++ rest, s)

-- `yield from m`, then the rest
infixl 5 ◌>>=◌
abbrev pub ◌>>=◌ : {S T : Type 0} → Yield S → (S → Yield T) → Yield T
none >>= k = none
some (out, s) >>= k = prepend out (k s)

unfoldable pub pop_due : ℕ → List PendingLate → List Message × List PendingLate
pop_due now [] = ([], [])
pop_due now (p ∷ heap) =
    let (out, left) = pop_due now heap in
    if leb p.release_at now then ((p.key, p.payload) ∷ out, left) else ([], p ∷ heap)

unfoldable pub pop_all : List PendingLate → List Message
pop_all [] = []
pop_all (p ∷ heap) = (p.key, p.payload) ∷ pop_all heap

-- max(1, multiplier)
unfoldable pub at_least_one : ℤ → ℕ
at_least_one (pos zero) = 1
at_least_one (pos (suc n)) = suc n
at_least_one (negsuc n) = 1

module _ {R G : Type 0} where
  -- `__init__`; the simulators are built beside it
  unfoldable pub start : Random R G → SimulatorConfig R → ℕ → Generator R G
  start r config start_time = record {
    config = config;
    sim_time = start_time;
    stats = no_stats;
    rng = r.seeded (bit_xor config.seed 0x5EED);
    late_heap = [];
    counter = 0;
  }

  abbrev pub count_clean : Generator R G → Generator R G
  count_clean g = record g { stats = record g.stats { clean = g.stats.clean + 1 } }

  abbrev pub count_duplicate : Generator R G → Generator R G
  count_duplicate g = record g { stats = record g.stats { duplicates = g.stats.duplicates + 1 } }

  abbrev pub count_invalid : Generator R G → Generator R G
  count_invalid g = record g { stats = record g.stats { invalid = g.stats.invalid + 1 } }

  unfoldable pub count_hot : TelemetryEvent R → Generator R G → Generator R G
  count_hot e g =
      if str_eq e.vehicle_id g.config.hot_vehicle
      then record g { stats = record g.stats { hot_vehicle = g.stats.hot_vehicle + 1 } }
      else g

  unfoldable pub drain_late : Generator R G → Yield (Generator R G)
  unfolding pop_due
  drain_late g =
      let (out, left) = pop_due g.sim_time g.late_heap in some (out, record g { late_heap = left })

  unfoldable pub flush_late : Generator R G → Yield (Generator R G)
  unfolding pop_all
  flush_late g = some (pop_all g.late_heap, record g { late_heap = [] })

  unfoldable pub pending_late : Generator R G → ℕ
  pending_late g = length g.late_heap

  unfoldable pub emit_multiplier : Generator R G → String → ℕ
  unfolding at_least_one
  emit_multiplier g vehicle_id =
      if str_eq vehicle_id g.config.hot_vehicle
      then at_least_one g.config.hot_vehicle_multiplier
      else 1

  -- The delay is a number of seconds: between 5 and 20 minutes.
  unfoldable pub schedule_late :
      ⦃f : Float R⦄ → Random R G → Payload → String → Generator R G → Generator R G
  schedule_late ⦃f⦄ r payload key g =
      let (delay, rng) = r.uniform (f.lit 5 0) (f.lit 20 0) g.rng in
      record g {
        rng = rng;
        late_heap = heappush g.late_heap (record {
          release_at = g.sim_time + f.micros (f.mul delay (f.lit 60 0));
          sequence = g.counter;
          payload = payload;
          key = key;
        });
        counter = g.counter + 1;
        stats = record g.stats { clean = g.stats.clean + 1; late = g.stats.late + 1 };
      }
