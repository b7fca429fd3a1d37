-- ===== src/Fleet/Sane.antt =====
-- The vehicles of `build_reference` of src/fleetstream/simulator/reference.py in the simulator: what is proved
-- of sane vehicles holds of them, whatever the configuration.
use fleet_stream_real_time_f.Prelude.{
  ◌≤◌, ◌≡◌, ℕ, zero, suc, ◌+◌, String, List, [], ◌∷◌, ◌++◌ as append, get_or, All, All-append, Bool,
  true, false, arith, if◌then◌else◌,
}
use fleet_stream_real_time_f.Float.{Float, ◌≼◌, IsLawful}
use fleet_stream_real_time_f.Float.Laws.{lit_nonneg}
use fleet_stream_real_time_f.Random.{Random, members, choice, IsInRange}
use fleet_stream_real_time_f.Reference.{Trigonometry, VehicleProfile}
use fleet_stream_real_time_f.Reference.Tables.{vehicle_types}
use fleet_stream_real_time_f.Reference.Build.{
  build_vehicle, build_vehicles, hot_profile, with_hot, build_reference,
}
use fleet_stream_real_time_f.Vehicle.Fleet.{IsSane}

All-get_or :
    {A : Type 0} (P : A → Type 0) (xs : List A) (i : ℕ) (d : A) → All P xs → P d → P (get_or xs i d)
All-get_or P [] i d h k = k
All-get_or P (x ∷ xs) zero d h k = h.0
All-get_or P (x ∷ xs) (suc i) d h k = All-get_or P xs i d h.1 k

module _ {R G : Type 0} ⦃f : Float R⦄ (l : IsLawful R) (r : Random R G)
    (ranges : IsInRange R G r) where
  -- a type of vehicle whose tank holds something
  abbrev IsTanked : String × R × R → Type 0
  IsTanked kind = (f.lit 0 0 ≼ kind.2) × (f.le kind.2 (f.lit 0 0) ≡ false)

  tank : (n : ℕ) → 1 ≤ n → (f.lit 0 0 ≼ f.lit n 0) × (f.le (f.lit n 0) (f.lit 0 0) ≡ false)
  tank n h = (lit_nonneg l n 0, l.lit_positive n h)

  types-IsTanked : All IsTanked (members vehicle_types)
  types-IsTanked = (
    tank 70 (omega arith),
    (
      tank 150 (omega arith),
      (tank 400 (omega arith), (tank 90 (omega arith), (tank 60 (omega arith), tt))),
    ),
  )

  choice-IsTanked : (g : G) → IsTanked (choice r vehicle_types g).0
  unfolding choice
  choice-IsTanked g =
      All-get_or IsTanked (members vehicle_types) _ vehicle_types.first types-IsTanked
        types-IsTanked.0

  build_vehicle-IsSane : (i : ℕ) (g : G) → IsSane (build_vehicle r i g).0
  unfolding build_vehicle
  build_vehicle-IsSane i g = record {
    capacity_nonneg = (choice-IsTanked g).0;
    capacity_positive = (choice-IsTanked g).1;
    consumption_nonneg = l.rounded_nonneg _ 2 (
        l.le_trans _ _ _ (lit_nonneg l 7 0)
          (ranges.uniform-ge _ _ _ (l.lit_le 7 0 34 0 (omega arith))));
  }

  build_vehicles-IsSane : (left i : ℕ) (g : G) → All IsSane (build_vehicles r left i g).0
  unfolding build_vehicles
  build_vehicles-IsSane zero i g = tt
  build_vehicles-IsSane (suc left) i g =
      (build_vehicle-IsSane i g, build_vehicles-IsSane left (i + 1) _)

  hot_profile-IsSane : (id : String) → IsSane (hot_profile r id)
  hot_profile-IsSane id = record {
    capacity_nonneg = lit_nonneg l 150 0;
    capacity_positive = l.lit_positive 150 (omega arith);
    consumption_nonneg = lit_nonneg l 18 0;
  }

  extended-IsSane :
      (id : String) (vehicles : List (VehicleProfile R)) (b : Bool)
      → All IsSane vehicles
      → All IsSane (if b then vehicles else append vehicles (hot_profile r id ∷ []))
  extended-IsSane id vehicles true h = h
  extended-IsSane id vehicles false h =
      All-append IsSane vehicles (hot_profile r id ∷ []) h (hot_profile-IsSane id, tt)

  with_hot-IsSane :
      (id : String) (vehicles : List (VehicleProfile R))
      → All IsSane vehicles
      → All IsSane (with_hot r id vehicles)
  unfolding with_hot
  with_hot-IsSane id vehicles h = extended-IsSane id vehicles _ h

  -- Every vehicle of a fleet has a tank that holds something and a consumption that is not negative.
  pub build_reference-IsSane :
      (m : Trigonometry R) (vehicle_count seed : ℕ) (hot_vehicle : String)
      → All IsSane (build_reference r m vehicle_count seed hot_vehicle).vehicles
  unfolding build_reference
  build_reference-IsSane m vehicle_count seed hot_vehicle =
      with_hot-IsSane hot_vehicle _ (build_vehicles-IsSane vehicle_count 0 _)
