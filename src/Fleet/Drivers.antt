-- ===== src/Fleet/Drivers.antt =====
-- The identifiers of the drivers that src/fleetstream/simulator/reference.py builds.
use Prim.Native.String.{◌++◌}
use fleet_stream_real_time_f.Prelude.{
  ℕ, zero, suc, ◌+◌, ◌≤◌, String, List, map, length, ◌≡◌, inl, inr, refl, sym, ◌∙◌, Elem,
  AllDistinct, arith,
}
use fleet_stream_real_time_f.Prelude.Text.{decimal}
use fleet_stream_real_time_f.Prelude.Numerals.{decimal_inj, append_cancel_left}
use fleet_stream_real_time_f.Float.{Float}
use fleet_stream_real_time_f.Random.{Random, members}
use fleet_stream_real_time_f.Reference.{Trigonometry, DriverProfile}
use fleet_stream_real_time_f.Reference.Build.{
  build_driver, build_drivers, more_drivers, build_vehicles, with_hot, build_reference,
}

abbrev driver_number : ℕ → String
driver_number k = "D" ++ decimal (500 + k)

driver_number_inj : (a b : ℕ) → driver_number a ≡ driver_number b → a ≡ b
driver_number_inj a b e =
    let same =
      decimal_inj (500 + a) (500 + b)
        (append_cancel_left "D" (decimal (500 + a)) (decimal (500 + b)) e) in
    omega arith

module _ {R G : Type 0} ⦃f : Float R⦄ (r : Random R G) where
  abbrev pub driver_ids : List (DriverProfile R) → List String
  driver_ids = map (λ d. d.driver_id)

  driver_id-build_driver : (i : ℕ) (g : G) → (build_driver r i g).0.driver_id ≡ driver_number i
  unfolding build_driver
  driver_id-build_driver i g = refl

  numbered_from :
      (id : String) (left i : ℕ) (g : G)
      → Elem id (driver_ids (build_drivers r left i g).0)
      → (k : ℕ) × (i ≤ k) × (id ≡ driver_number k)
  unfolding build_drivers
  numbered_from id zero i g h = absurd h
  numbered_from id (suc left) i g (inl e) = (i, omega arith, e ∙ driver_id-build_driver i g)
  numbered_from id (suc left) i g (inr h) =
      let (k, p, e) = numbered_from id left (i + 1) (build_driver r i g).1 h in (k, omega arith, e)

  -- a driver before those that are numbered from the next number on
  apart :
      (left i : ℕ) (g h : G)
      → Elem (build_driver r i h).0.driver_id (driver_ids (build_drivers r left (i + 1) g).0)
      → ⊥
  apart left i g h e =
      let (k, p, same) = numbered_from (build_driver r i h).0.driver_id left (i + 1) g e in
      let equal = driver_number_inj i k (sym (driver_id-build_driver i h) ∙ same) in
      absurd (omega arith)

  build_drivers-AllDistinct :
      (left i : ℕ) (g : G) → AllDistinct (driver_ids (build_drivers r left i g).0)
  unfolding build_drivers
  build_drivers-AllDistinct zero i g = tt
  build_drivers-AllDistinct (suc left) i g = (
    apart left i (build_driver r i g).1 g,
    build_drivers-AllDistinct left (i + 1) (build_driver r i g).1,
  )

  -- No two drivers have one identifier.
  pub drivers-AllDistinct :
      (m : Trigonometry R) (vehicle_count seed : ℕ) (hot_vehicle : String)
      → AllDistinct
          (driver_ids (members (build_reference r m vehicle_count seed hot_vehicle).drivers))
  unfolding build_reference
  drivers-AllDistinct m vehicle_count seed hot_vehicle =
      let (made, g1) = build_vehicles r vehicle_count 0 (r.seeded seed) in
      let extra = more_drivers r (length (with_hot r hot_vehicle made)) in
      let g2 = (build_driver r 0 g1).1 in
      (apart extra 0 g2 g1, build_drivers-AllDistinct extra 1 g2)
