-- ===== src/Producer/Loop.antt =====
-- `run` of src/fleetstream/simulator/producer.py. The Kafka client is a state with two operations: one
-- takes a record into its queue and serves callbacks, as `produce` and `poll` do, or raises BufferError, the other
-- waits and says how many records are outstanding. What `_handle_signal` sets is read before each tick. Pacing by sleep
-- and logging are left out.
use fleet_stream_real_time_f.Prelude.{
  ℕ, zero, suc, ◌+◌, ◌==◌, String, Option, none, some, ◌>>=◌, Bool, not, ◌&&◌, List, [], ◌∷◌,
  if◌then◌else◌,
}
use fleet_stream_real_time_f.Prelude.Int.{ℤ, pos, negsuc}
use fleet_stream_real_time_f.Float.{Float}
use fleet_stream_real_time_f.Random.{Random}
use fleet_stream_real_time_f.Payload.{TelemetryEvent}
use fleet_stream_real_time_f.Generator.State.{Message, Yield, InjectionStats, total_produced}
use fleet_stream_real_time_f.Generator.Stream.{Fleet, tick, end_run}

pub record Client (B : Type 0) : Type 0 where
  pub produce : Message → B → Option B
  pub flush : B → ℕ × B
  -- whether the file of the manifest can be written
  pub is_writable : Bool

-- the run manifest, without the times that are formatted and the topic
pub record Manifest (R : Type 0) : Type 0 where
  pub seed : ℕ
  pub vehicle_count : ℕ
  pub ticks : ℤ
  pub sim_start : ℕ
  pub sim_end : ℕ
  pub records_sent : ℕ
  pub hot_vehicle : String
  pub duplicate_rate : R
  pub late_rate : R
  pub invalid_rate : R
  pub stats : InjectionStats

-- What `run` leaves: the exit code, the manifest if one is written, and what it had counted.
pub record Outcome (R B : Type 0) : Type 0 where
  pub exit_code : ℕ
  pub manifest : Option (Manifest R)
  pub sent : ℕ
  pub outstanding : ℕ
  pub stats : InjectionStats
  pub client : B

module _ {R G S B : Type 0} ⦃f : Float R⦄ (r : Random R G)
    (advance : ℕ → R → S → Option (Option (TelemetryEvent R) × S)) (client : Client B)
    (shutdown : ℕ → Bool) where
  -- the records of one generator, with the count of those sent
  unfoldable pub send_all : List Message → ℕ × B → Option (ℕ × B)
  send_all [] (sent, b) = some (sent, b)
  send_all (m ∷ out) (sent, b) = client.produce m b >>= λ b1. send_all out (sent + 1, b1)

  abbrev pub Progress : Type 0
  Progress = (ℕ × B) × Fleet r advance

  abbrev pub sending : ℕ × B → Yield (Fleet r advance) → Option Progress
  sending acc none = none
  sending acc (some (out, p)) = send_all out acc >>= λ after. some (after, p)

  abbrev pub then_go : Option Progress → (Progress → Option Progress) → Option Progress
  then_go none k = none
  then_go (some q) k = k q

  -- the loop over the ticks, `left` of them to go
  unfoldable pub produce_ticks : ℕ → ℕ → Progress → Option Progress
  unfolding send_all
  produce_ticks zero index q = some q
  produce_ticks (suc left) index q =
      let rest = then_go (sending q.0 (tick r advance q.1)) (produce_ticks left (index + 1)) in
      if shutdown index then some q else rest

  abbrev pub manifest_of : ℤ → ℕ → ℕ → ℕ → Fleet r advance → Manifest R
  manifest_of ticks vehicle_count start_time sent p =
      let cfg = p.0.config in
      record {
        seed = cfg.seed;
        vehicle_count = vehicle_count;
        ticks = ticks;
        sim_start = start_time;
        sim_end = p.0.sim_time;
        records_sent = sent;
        hot_vehicle = cfg.hot_vehicle;
        duplicate_rate = cfg.duplicate_rate;
        late_rate = cfg.late_rate;
        invalid_rate = cfg.invalid_rate;
        stats = p.0.stats;
      }

  abbrev pub outcome : ℕ → Option (Manifest R) → ℕ → ℕ × B → Fleet r advance → Outcome R B
  outcome exit_code manifest sent (outstanding, b) p = record {
    exit_code = exit_code;
    manifest = manifest;
    sent = sent;
    outstanding = outstanding;
    stats = p.0.stats;
    client = b;
  }

  -- from `producer.flush` to the end; `none` is a manifest that is wanted and cannot be written
  unfoldable pub conclude : Bool → ℤ → ℕ → ℕ → Progress → Option (Outcome R B)
  conclude wanted ticks vehicle_count start_time ((sent, b), p) =
      let flushed = client.flush b in
      let manifest =
        if wanted then some (manifest_of ticks vehicle_count start_time sent p) else none in
      if flushed.0 == 0
      then (if sent == total_produced p.0.stats
          then (if wanted && not client.is_writable
              then none
              else some (outcome 0 manifest sent flushed p))
          else some (outcome 1 none sent flushed p))
      else some (outcome 1 none sent flushed p)

  abbrev pub concluded : Bool → ℤ → ℕ → ℕ → Option Progress → Option (Outcome R B)
  concluded wanted ticks vehicle_count start_time none = none
  concluded wanted ticks vehicle_count start_time (some q) =
      conclude wanted ticks vehicle_count start_time q

  -- `run`, on the generator that it builds
  -- `range` of a negative number is empty
  abbrev pub rounds : ℤ → ℕ
  rounds (pos n) = n
  rounds (negsuc n) = 0

  unfoldable pub produce_run : Bool → ℤ → ℕ → ℕ → B → Fleet r advance → Option (Outcome R B)
  unfolding produce_ticks conclude
  produce_run wanted ticks vehicle_count start_time b p =
      concluded wanted ticks vehicle_count start_time (
        then_go (produce_ticks (rounds ticks) 0 ((0, b), p))
          λ q. sending q.0 (end_run r advance q.1))
