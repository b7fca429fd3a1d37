-- ===== src/Producer/Exit.antt =====
-- How a run of the producer of src/fleetstream/simulator/producer.py ends.
use fleet_stream_real_time_f.Prelude.{
  ℕ, zero, suc, ◌+◌, ◌≡◌, ◌==◌, ◌↔◌, inl, inr, refl, ap, ◌∙◌, ◌>>=◌, ◌&&◌, Option, none, some, Bool,
  true, false, List, [], ◌∷◌, length, All, Advances, arith, Bool-cases, if◌then◌else◌,
}
use fleet_stream_real_time_f.Prelude.Int.{ℤ}
use fleet_stream_real_time_f.Float.{Float, ◌≼◌, IsLawful}
use fleet_stream_real_time_f.Random.{Random, Choices, IsInRange}
use fleet_stream_real_time_f.Config.{SimulatorConfig}
use fleet_stream_real_time_f.Payload.{TelemetryEvent}
use fleet_stream_real_time_f.Reference.{Trigonometry, Route, VehicleProfile, DriverProfile}
use fleet_stream_real_time_f.Vehicle.State.{Uuid5}
use fleet_stream_real_time_f.Vehicle.Drive.{IsSound}
use fleet_stream_real_time_f.Vehicle.Fleet.{IsSane, build_simulators-IsSound}
use fleet_stream_real_time_f.Generator.Heap.{PendingLate}
use fleet_stream_real_time_f.Generator.State.{Message, Yield, total_produced, start}
use fleet_stream_real_time_f.Generator.Stream.{Fleet, tick, end_run}
use fleet_stream_real_time_f.Generator.Accounts.{Returns, Keeps}
use fleet_stream_real_time_f.Generator.Conservation.{
  fleet_ledger, IsFleetReady, IsFlushed, tick-Keeps, end_run-Keeps,
}
use fleet_stream_real_time_f.Simulation.{advance, new_fleet, advance-IsSound}
use fleet_stream_real_time_f.Producer.Loop.{
  Client, Manifest, Outcome, Progress, send_all, sending, then_go, produce_ticks, conclude,
  concluded, rounds, produce_run,
}

abbrev pub Gives : {A : Type 0} → (A → Type 0) → Option A → Type 0
Gives P none = ⊥
Gives P (some a) = P a

-- no manifest, or one with as many records as its counters say
abbrev pub IsTrue : {R : Type 0} → Option (Manifest R) → Type 0
IsTrue none = Unit
IsTrue (some m) = m.records_sent ≡ total_produced m.stats

-- All that was counted was sent; only outstanding records make the run fail; a manifest says what
-- was sent.
abbrev pub IsAccounted : {R B : Type 0} → Outcome R B → Type 0
IsAccounted o =
    (o.sent ≡ total_produced o.stats)
    × ((o.exit_code ≡ 0) ↔ (o.outstanding ≡ 0))
    × IsTrue o.manifest

-- a client whose queue has room for every record, and a manifest that can be written
abbrev pub IsTaking : {B : Type 0} → Client B → Type 0
IsTaking {B} client =
    ((m : Message) (b : B) → (c : B) × (client.produce m b ≡ some c)) × (client.is_writable ≡ true)

equal : (a b : ℕ) → a ≡ b → (a == b) ≡ true
equal a b h = ground arith

zero_of : (n : ℕ) → (n == 0) ≡ true → n ≡ 0
zero_of n h = ground arith

not_zero : (n : ℕ) → (n == 0) ≡ false → n ≡ 0 → ⊥
not_zero n h e = ground arith

module _ {R G S B : Type 0} ⦃f : Float R⦄ (l : IsLawful R) (r : Random R G)
    (step : ℕ → R → S → Option (Option (TelemetryEvent R) × S)) (Inv : S → Type 0)
    (keeps : (t : ℕ) (dt : R) (s : S) → f.lit 0 0 ≼ dt → Inv s → Advances Inv (step t dt s))
    (client : Client B) (takes : IsTaking client) (shutdown : ℕ → Bool) where
  -- records sent and records held are those counted
  abbrev IsEven : ℕ → Fleet r step → Type 0
  IsEven sent p = sent + length p.0.late_heap ≡ total_produced p.0.stats

  abbrev IsUnderway : Progress r step client shutdown → Type 0
  IsUnderway q = IsEven q.0.0 q.1 × IsFleetReady l r step Inv keeps q.1

  abbrev IsOver : Progress r step client shutdown → Type 0
  IsOver q = q.0.0 ≡ total_produced q.1.0.stats

  sent-send_all :
      (out : List Message) (acc : ℕ × B)
      → (after : ℕ × B) × (send_all r step client shutdown out acc ≡ some after)
        × (after.0 ≡ acc.0 + length out)
  unfolding send_all
  sent-send_all [] acc = (acc, refl, omega arith)
  sent-send_all (m ∷ out) acc =
      let (c, e) = takes.0 m acc.1 in
      let (after, same, count) = sent-send_all out (acc.0 + 1, c) in
      (
        after,
        ap (λ o. o >>= λ b. send_all r step client shutdown out (acc.0 + 1, b)) e ∙ same,
        omega (arith, count),
      )

  sending-IsUnderway :
      (q : Progress r step client shutdown) (y : Yield (Fleet r step))
      → IsUnderway q
      → Returns
          (Keeps
            (fleet_ledger l r step Inv keeps)
            (IsFleetReady l r step Inv keeps)
            (fleet_ledger l r step Inv keeps q.1))
          y
      → Gives IsUnderway (sending r step client shutdown q.0 y)
  unfolding total_produced
  sending-IsUnderway q none h k = k
  sending-IsUnderway q (some (out, p)) h k =
      let (after, same, count) = sent-send_all out q.0 in
      rw same (omega (arith, count, h.0, k.0), k.1)

  sending-IsOver :
      (q : Progress r step client shutdown) (y : Yield (Fleet r step))
      → IsUnderway q
      → Returns
          (Keeps
            (fleet_ledger l r step Inv keeps)
            (IsFlushed l r step Inv keeps)
            (fleet_ledger l r step Inv keeps q.1))
          y
      → Gives IsOver (sending r step client shutdown q.0 y)
  unfolding total_produced
  sending-IsOver q none h k = k
  sending-IsOver q (some (out, p)) h k =
      let (after, same, count) = sent-send_all out q.0 in
      rw same (omega (arith, count, h.0, k.0, ap (length {A = PendingLate}) k.1.0))

  then_go-Gives :
      (P Q : Progress r step client shutdown → Type 0)
      (o : Option (Progress r step client shutdown))
      (k : Progress r step client shutdown → Option (Progress r step client shutdown))
      → Gives P o
      → ((q : Progress r step client shutdown) → P q → Gives Q (k q))
      → Gives Q (then_go r step client shutdown o k)
  then_go-Gives P Q none k h imp = h
  then_go-Gives P Q (some q) k h imp = imp q h

  produce_ticks-IsUnderway :
      (left index : ℕ) (q : Progress r step client shutdown)
      → IsUnderway q
      → Gives IsUnderway (produce_ticks r step client shutdown left index q)
  unfolding produce_ticks
  produce_ticks-IsUnderway zero index q h = h
  produce_ticks-IsUnderway (suc left) index q h = elim (Bool-cases (shutdown index)) [
    | inl stop ↦ rw stop h
    | inr go ↦ rw go (
        then_go-Gives IsUnderway IsUnderway _ _
          (sending-IsUnderway q (tick r step q.1) h (tick-Keeps l r step Inv keeps q.1 h.1))
          (produce_ticks-IsUnderway left (index + 1)))
  ]

  manifest-IsTrue :
      (wanted : Bool) (written : Manifest R)
      → written.records_sent ≡ total_produced written.stats
      → IsTrue (if wanted then some written else none)
  manifest-IsTrue true written h = h
  manifest-IsTrue false written h = tt

  conclude-IsAccounted :
      (wanted : Bool) (ticks : ℤ) (vehicle_count start_time : ℕ)
      (q : Progress r step client shutdown)
      → IsOver q
      → Gives IsAccounted (conclude r step client shutdown wanted ticks vehicle_count start_time q)
  unfolding conclude
  conclude-IsAccounted wanted ticks vehicle_count start_time ((sent, b), p) h =
      elim (Bool-cases ((client.flush b).0 == 0)) [
        | inl delivered ↦
            simp (delivered, equal sent _ h, takes.1, never wanted)
              (h, (λ _. zero_of _ delivered, λ _. refl), manifest-IsTrue wanted _ h)
        | inr pending ↦
            simp (pending) (h, (λ e. omega arith, λ e. absurd (not_zero _ pending e)), tt)
      ]
    where
      never : (b : Bool) → (b && false) ≡ false
      never true = refl
      never false = refl

  concluded-IsAccounted :
      (wanted : Bool) (ticks : ℤ) (vehicle_count start_time : ℕ)
      (o : Option (Progress r step client shutdown))
      → Gives IsOver o
      → Gives IsAccounted (concluded r step client shutdown wanted ticks vehicle_count start_time o)
  concluded-IsAccounted wanted ticks vehicle_count start_time none h = h
  concluded-IsAccounted wanted ticks vehicle_count start_time (some q) h =
      conclude-IsAccounted wanted ticks vehicle_count start_time q h

  run-IsAccounted :
      (wanted : Bool) (ticks : ℤ) (vehicle_count start_time : ℕ) (b : B) (p : Fleet r step)
      → IsUnderway ((0, b), p)
      → Gives IsAccounted
          (produce_run r step client shutdown wanted ticks vehicle_count start_time b p)
  unfolding produce_run
  run-IsAccounted wanted ticks vehicle_count start_time b p h =
      concluded-IsAccounted wanted ticks vehicle_count start_time _ (
        then_go-Gives IsUnderway IsOver
          (produce_ticks r step client shutdown (rounds r step client shutdown ticks) 0 ((0, b), p))
          _ (produce_ticks-IsUnderway (rounds r step client shutdown ticks) 0 ((0, b), p) h)
          λ q u. sending-IsOver q (end_run r step q.1) u (end_run-Keeps l r step Inv keeps q.1 u.1))

module _ {R G B : Type 0} ⦃f : Float R⦄ (r : Random R G) (m : Trigonometry R) (uuid5 : Uuid5)
    (l : IsLawful R) (ranges : IsInRange R G r) (client : Client B) (takes : IsTaking client)
    (shutdown : ℕ → Bool) where
  -- For sane vehicles and a client that takes every record, whenever the run is told to stop, the producer ends with all records sent that the
  -- generator counted. The exit code is 0 exactly when the client has no outstanding record after its
  -- flush: the comparison of the two counts never fails. A manifest has as many records as its counters'
  -- total says.
  pub produce_run-IsAccounted :
      (wanted : Bool) (ticks : ℤ) (vehicle_count : ℕ) (config : SimulatorConfig R)
      (vehicles : List (VehicleProfile R)) (drivers : Choices (DriverProfile R))
      (routes : Choices (Route R)) (start_time : ℕ) (b : B)
      → All IsSane vehicles
      → Gives IsAccounted (
          produce_run r
            (advance r m uuid5)
            client
            shutdown
            wanted
            ticks
            vehicle_count
            start_time
            b
            (new_fleet r m uuid5 config vehicles drivers routes start_time))
  unfolding new_fleet start total_produced
  produce_run-IsAccounted wanted ticks vehicle_count config vehicles drivers routes start_time b
        sane =
      run-IsAccounted l r (advance r m uuid5) IsSound (advance-IsSound r m uuid5 l ranges) client
        takes shutdown wanted ticks vehicle_count start_time b _
        (omega arith, build_simulators-IsSound r l ranges vehicles drivers routes config.seed sane)
