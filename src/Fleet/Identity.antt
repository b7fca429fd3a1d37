-- ===== src/Fleet/Identity.antt =====
-- The vehicles of `build_reference` of src/fleetstream/simulator/reference.py by their identifiers.
use mathlib.Core.Path.{subst}
use Prim.Native.String.{◌++◌}
use fleet_stream_real_time_f.Prelude.{
  contrary, ℕ, zero, suc, ◌+◌, ◌*◌, ◌/◌, ◌≤◌, ◌≡◌, ◌≢◌, ◌⊎◌, inl, inr, refl, sym, ap, ◌∙◌, String,
  str_eq, eq_iff, List, [], ◌∷◌, ◌++◌ as append, map, length, length-append, Elem,
  Elem-append_right, elem_append, AllDistinct, true, arith, Bool-cases,
}
use fleet_stream_real_time_f.Prelude.Text.{decimal}
use fleet_stream_real_time_f.Prelude.Numerals.{decimal_inj, append_cancel_left}
use fleet_stream_real_time_f.Float.{Float}
use fleet_stream_real_time_f.Random.{Random, members}
use fleet_stream_real_time_f.Reference.{Trigonometry, VehicleProfile}
use fleet_stream_real_time_f.Reference.Build.{
  build_vehicle, build_vehicles, is_used, hot_profile, with_hot, build_driver, build_drivers,
  more_drivers, build_reference,
}

-- the identifier of the vehicle with index k
abbrev generated_id : ℕ → String
generated_id k = "V" ++ decimal (1000 + k)

generated_id_inj : (a b : ℕ) → generated_id a ≡ generated_id b → a ≡ b
generated_id_inj a b e =
    let same =
      decimal_inj (1000 + a) (1000 + b)
        (append_cancel_left "V" (decimal (1000 + a)) (decimal (1000 + b)) e) in
    omega arith

module _ {R G : Type 0} ⦃f : Float R⦄ (r : Random R G) where
  abbrev pub ids : List (VehicleProfile R) → List String
  ids = map (λ v. v.vehicle_id)

  ids_from :
      (id : String) (left i : ℕ) (g : G)
      → Elem id (ids (build_vehicles r left i g).0)
      → (k : ℕ) × (i ≤ k) × (id ≡ generated_id k)
  unfolding build_vehicles
  ids_from id zero i g h = absurd h
  ids_from id (suc left) i g (inl e) = (i, omega arith, e)
  ids_from id (suc left) i g (inr h) =
      let (k, p, e) = ids_from id left (i + 1) (build_vehicle r i g).1 h in (k, omega arith, e)

  build_vehicles-AllDistinct :
      (left i : ℕ) (g : G) → AllDistinct (ids (build_vehicles r left i g).0)
  unfolding build_vehicles
  build_vehicles-AllDistinct zero i g = tt
  build_vehicles-AllDistinct (suc left) i g = (
    λ h.
        let (k, p, e) = ids_from (generated_id i) left (i + 1) (build_vehicle r i g).1 h in
        let same = generated_id_inj i k e in absurd (omega arith),
    build_vehicles-AllDistinct left (i + 1) (build_vehicle r i g).1,
  )

  length-build_vehicles : (left i : ℕ) (g : G) → length (build_vehicles r left i g).0 ≡ left
  unfolding build_vehicles
  length-build_vehicles zero i g = refl
  length-build_vehicles (suc left) i g =
      ap suc (length-build_vehicles left (i + 1) (build_vehicle r i g).1)

  is_used_lem :
      (id : String) (vehicles : List (VehicleProfile R))
      → is_used r id vehicles ≡ true
      → Elem id (ids vehicles)
  unfolding is_used
  is_used_lem id [] h = cc
  is_used_lem id (v ∷ vehicles) h = elim (Bool-cases (str_eq v.vehicle_id id)) [
    | inl same ↦ inl (sym ((eq_iff v.vehicle_id id).0 same))
    | inr other ↦ inr (is_used_lem id vehicles (simp (other) at h))
  ]

  elem_used :
      (id : String) (vehicles : List (VehicleProfile R))
      → Elem id (ids vehicles)
      → is_used r id vehicles ≡ true
  unfolding is_used
  elem_used id [] h = absurd h
  elem_used id (v ∷ vehicles) (inl e) = rw ((eq_iff v.vehicle_id id).1 (sym e)) refl
  elem_used id (v ∷ vehicles) (inr h) = ground (arith, elem_used id vehicles h)

  append-AllDistinct :
      (xs : List String) (y : String)
      → AllDistinct xs
      → (Elem y xs → ⊥)
      → AllDistinct (append xs (y ∷ []))
  append-AllDistinct [] y d n = ((λ h. h), tt)
  append-AllDistinct (x ∷ xs) y d n = (
    (λ h. elim (elem_append x xs (y ∷ []) h) [
      | inl old ↦ d.0 old
      | inr (inl e) ↦ n (inl (sym e))
      | inr (inr none) ↦ none
    ]),
    append-AllDistinct xs y d.1 (λ h. n (inr h)),
  )

  ids-append : (xs ys : List (VehicleProfile R)) → ids (append xs ys) ≡ append (ids xs) (ids ys)
  ids-append [] ys = refl
  ids-append (x ∷ xs) ys = ap (λ rest. x.vehicle_id ∷ rest) (ids-append xs ys)

  -- what `with_hot` adds
  abbrev IsExtended : String → List (VehicleProfile R) → List (VehicleProfile R) → Type 0
  IsExtended id vehicles out =
      ((out ≡ vehicles) × ((id ≡ "") ⊎ Elem id (ids vehicles)))
      ⊎ ((Elem id (ids vehicles) → ⊥) × (out ≡ append vehicles (hot_profile r id ∷ [])))

  with_hot-IsExtended :
      (id : String) (vehicles : List (VehicleProfile R))
      → IsExtended id vehicles (with_hot r id vehicles)
  unfolding with_hot
  with_hot-IsExtended id vehicles = elim (Bool-cases (str_eq id "")) [
    | inl absent ↦ inl (rw absent refl, inl ((eq_iff id "").0 absent))
    | inr given ↦ elim (Bool-cases (is_used r id vehicles)) [
      | inl used ↦ inl (rw (given, used) refl, inr (is_used_lem id vehicles used))
      | inr new ↦ inr (λ h. contrary (elem_used id vehicles h) new, rw (given, new) refl)
    ]
  ]

  with_hot-AllDistinct :
      (id : String) (vehicles : List (VehicleProfile R))
      → AllDistinct (ids vehicles)
      → AllDistinct (ids (with_hot r id vehicles))
  with_hot-AllDistinct id vehicles d = elim (with_hot-IsExtended id vehicles) [
    | inl (same, _) ↦ subst (λ out. AllDistinct (ids out)) (sym same) d
    | inr (new, more) ↦
        subst (λ out. AllDistinct (ids out)) (sym more)
          (subst AllDistinct (sym (ids-append vehicles (hot_profile r id ∷ [])))
            (append-AllDistinct (ids vehicles) id d new))
  ]

  elem_with_hot :
      (id : String) (vehicles : List (VehicleProfile R))
      → id ≢ ""
      → Elem id (ids (with_hot r id vehicles))
  elem_with_hot id vehicles given = elim (with_hot-IsExtended id vehicles) [
    | inl (same, inl empty) ↦ absurd (given empty)
    | inl (same, inr old) ↦ subst (λ out. Elem id (ids out)) (sym same) old
    | inr (new, more) ↦
        subst (λ out. Elem id (ids out)) (sym more)
          (subst (Elem id) (sym (ids-append vehicles (hot_profile r id ∷ [])))
            (Elem-append_right id (ids vehicles) (id ∷ []) (inl refl)))
  ]

  length-with_hot :
      (id : String) (vehicles : List (VehicleProfile R))
      → (length vehicles ≤ length (with_hot r id vehicles))
        × (length (with_hot r id vehicles) ≤ length vehicles + 1)
  length-with_hot id vehicles = elim (with_hot-IsExtended id vehicles) [
    | inl (same, _) ↦ let e = ap (length {A = VehicleProfile R}) same in (omega arith, omega arith)
    | inr (_, more) ↦
        let e =
          ap (length {A = VehicleProfile R}) more
          ∙ length-append vehicles (hot_profile r id ∷ []) in
        (omega arith, omega arith)
  ]

  length-build_drivers : (left i : ℕ) (g : G) → length (build_drivers r left i g).0 ≡ left
  unfolding build_drivers
  length-build_drivers zero i g = refl
  length-build_drivers (suc left) i g = ap suc (length-build_drivers left (i + 1) _)

  module _ (m : Trigonometry R) (vehicle_count seed : ℕ) (hot_vehicle : String) where
    -- No two vehicles of the fleet have one identifier, the hot vehicle included.
    pub build_reference-AllDistinct :
        AllDistinct (ids (build_reference r m vehicle_count seed hot_vehicle).vehicles)
    unfolding build_reference
    build_reference-AllDistinct =
        with_hot-AllDistinct hot_vehicle _ (build_vehicles-AllDistinct vehicle_count 0 _)

    -- A hot vehicle that is named is a vehicle of the fleet.
    pub build_reference-hot :
        hot_vehicle ≢ ""
        → Elem hot_vehicle (ids (build_reference r m vehicle_count seed hot_vehicle).vehicles)
    unfolding build_reference
    build_reference-hot = elem_with_hot hot_vehicle _

    -- With at least one vehicle asked for, the fleet has that many or one more; it has 13 drivers for 10
    -- vehicles, rounded down, and so no fewer drivers than vehicles.
    pub build_reference-counts :
        1 ≤ vehicle_count
        → let fleet = build_reference r m vehicle_count seed hot_vehicle in
          (vehicle_count ≤ length fleet.vehicles)
          × (length fleet.vehicles ≤ vehicle_count + 1)
          × (length (members fleet.drivers) ≡ length fleet.vehicles * 13 / 10)
          × (length fleet.vehicles ≤ length (members fleet.drivers))
    unfolding build_reference
    build_reference-counts h =
        let made = (build_vehicles r vehicle_count 0 (r.seeded seed)).0 in
        let fleet = with_hot r hot_vehicle made in
        let sizes = length-build_vehicles vehicle_count 0 (r.seeded seed) in
        let extended = length-with_hot hot_vehicle made in
        let drivers =
          length-build_drivers (more_drivers r (length fleet)) 1
            (build_driver r 0 (build_vehicles r vehicle_count 0 (r.seeded seed)).1).1 in
        (omega arith, omega arith, omega arith, omega arith)
