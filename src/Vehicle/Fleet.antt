-- ===== src/Vehicle/Fleet.antt =====
-- `build_simulators` of src/fleetstream/simulator/vehicle.py, and the state that it starts from.
use Prim.Native.String.{◌++◌}
use fleet_stream_real_time_f.Prelude.{
  ◌≡◌, false, ℕ, String, str_eq, List, [], ◌∷◌, All, arith, if◌then◌else◌, Bool-cases, inl, inr,
}
use fleet_stream_real_time_f.Prelude.Text.{decimal}
use fleet_stream_real_time_f.Float.{Float, ◌≼◌, IsLawful}
use fleet_stream_real_time_f.Float.Laws.{lit_nonneg}
use fleet_stream_real_time_f.Random.{Random, Choices, IsInRange}
use fleet_stream_real_time_f.Reference.{Route, VehicleProfile, DriverProfile}
use fleet_stream_real_time_f.Vehicle.State.{VehicleSimulator, new_simulator}
use fleet_stream_real_time_f.Vehicle.Drive.{IsSound}

-- d[key] = value, in a dict that keeps the order of first insertion
module _ {A : Type 0} where
  unfoldable pub put : String → A → List (String × A) → List (String × A)
  put key value [] = (key, value) ∷ []
  put key value ((k, v) ∷ rest) =
      if str_eq k key then (k, value) ∷ rest else (k, v) ∷ put key value rest

  pub All-put :
      (P : A → Type 0) (key : String) (value : A) (entries : List (String × A))
      → P value
      → All (λ e. P e.1) entries
      → All (λ e. P e.1) (put key value entries)
  unfolding put
  All-put P key value [] h hs = (h, hs)
  All-put P key value ((k, v) ∷ rest) h hs = elim (Bool-cases (str_eq k key)) [
    | inl same ↦ rw same (h, hs.1)
    | inr other ↦ rw other (hs.0, All-put P key value rest h hs.1)
  ]

-- A tank that holds something, and a consumption that is not negative.
pub record IsSane {R : Type 0} ⦃f : Float R⦄ (profile : VehicleProfile R) : Type 0 where
  pub capacity_nonneg : f.lit 0 0 ≼ profile.fuel_capacity_l
  pub capacity_positive : f.le profile.fuel_capacity_l (f.lit 0 0) ≡ false
  pub consumption_nonneg : f.lit 0 0 ≼ profile.consumption_l_per_100km

module _ {R G : Type 0} ⦃f : Float R⦄ (r : Random R G) where
  add_simulators :
      List (VehicleProfile R)
      → Choices (DriverProfile R)
      → Choices (Route R)
      → ℕ
      → List (String × VehicleSimulator R G)
      → List (String × VehicleSimulator R G)
  add_simulators [] drivers routes seed simulators = simulators
  add_simulators (profile ∷ vehicles) drivers routes seed simulators =
      let rng = r.seeded_text (decimal seed ++ (":" ++ profile.vehicle_id)) in
      add_simulators vehicles drivers routes seed
        (put profile.vehicle_id (new_simulator r profile rng routes drivers) simulators)

  unfoldable pub build_simulators :
      List (VehicleProfile R)
      → Choices (DriverProfile R)
      → Choices (Route R)
      → ℕ
      → List (String × VehicleSimulator R G)
  unfolding add_simulators
  build_simulators vehicles drivers routes seed = add_simulators vehicles drivers routes seed []

  module _ (l : IsLawful R) (ranges : IsInRange R G r) where
    ranged :
        (m d n e : ℕ) (g : G)
        → f.lit m d ≼ f.lit n e
        → (f.lit 0 0 ≼ (r.uniform (f.lit m d) (f.lit n e) g).0)
          × ((r.uniform (f.lit m d) (f.lit n e) g).0 ≼ f.lit n e)
    ranged m d n e g h =
        (l.le_trans _ _ _ (lit_nonneg l m d) (ranges.uniform-ge _ _ g h), ranges.uniform-le _ _ g h)

    pub new_simulator-IsSound :
        (profile : VehicleProfile R) (g : G) (routes : Choices (Route R))
        (drivers : Choices (DriverProfile R))
        → IsSane profile
        → IsSound (new_simulator r profile g routes drivers)
    unfolding new_simulator
    new_simulator-IsSound profile g routes drivers i =
        let share = ranged 55 2 1 0 g (l.lit_le 55 2 1 0 (omega arith)) in
        let g1 = (r.uniform (f.lit 55 2) (f.lit 1 0) g).1 in
        let g2 = (r.uniform (f.lit 15_000 0) (f.lit 240_000 0) g1).1 in
        let g3 = (r.uniform (f.neg (f.lit 3 0)) (f.lit 6 0) g2).1 in
        let reading = ranged 15_000 0 240_000 0 g1 (l.lit_le 15_000 0 240_000 0 (omega arith)) in
        let charge = ranged 88 0 100 0 g3 (l.lit_le 88 0 100 0 (omega arith)) in
        record {
          capacity_nonneg = i.capacity_nonneg;
          capacity_positive = i.capacity_positive;
          consumption_nonneg = i.consumption_nonneg;
          fuel_nonneg = l.mul_nonneg _ _ i.capacity_nonneg share.0;
          fuel-le = l.mul-le _ _ i.capacity_nonneg share.0 share.1;
          battery_nonneg = charge.0;
          battery-le = charge.1;
          odometer_nonneg = l.rounded_nonneg _ 1 reading.0;
          progress_nonneg = l.le_refl _;
          has_route = λ e. cc;
          has_driver = λ e. cc;
        }

    add_simulators-IsSound :
        (vehicles : List (VehicleProfile R)) (drivers : Choices (DriverProfile R))
        (routes : Choices (Route R)) (seed : ℕ) (simulators : List (String × VehicleSimulator R G))
        → All IsSane vehicles
        → All (λ v. IsSound v.1) simulators
        → All (λ v. IsSound v.1) (add_simulators vehicles drivers routes seed simulators)
    unfolding add_simulators
    add_simulators-IsSound [] drivers routes seed simulators h k = k
    add_simulators-IsSound (profile ∷ vehicles) drivers routes seed simulators h k =
        add_simulators-IsSound vehicles drivers routes seed _ h.1 (
          All-put IsSound profile.vehicle_id _ simulators
            (new_simulator-IsSound profile _ routes drivers h.0) k)

    -- Every simulator of a fleet of sane profiles starts sound.
    pub build_simulators-IsSound :
        (vehicles : List (VehicleProfile R)) (drivers : Choices (DriverProfile R))
        (routes : Choices (Route R)) (seed : ℕ)
        → All IsSane vehicles
        → All (λ v. IsSound v.1) (build_simulators vehicles drivers routes seed)
    unfolding build_simulators
    build_simulators-IsSound vehicles drivers routes seed h =
        add_simulators-IsSound vehicles drivers routes seed [] h tt
