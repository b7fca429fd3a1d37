-- ===== src/Dimensions/Joined.antt =====
-- The enrichment of src/fleetstream/streaming/silver_transform.py against the dimensions that
-- src/fleetstream/jobs/seed_dimensions.py writes.
use mathlib.Core.Path.{subst}
use fleet_stream_real_time_f.Prelude.{
  String, str_eq, eq_iff, some, List, [], ◌∷◌, map, ◌≡◌, inl, inr, refl, sym, ap, ◌∙◌, Elem,
  Elem-map, AllDistinct, Bool-cases,
}
use fleet_stream_real_time_f.Float.{Float}
use fleet_stream_real_time_f.Random.{Random, members}
use fleet_stream_real_time_f.Config.{SimulatorConfig}
use fleet_stream_real_time_f.Reference.{Trigonometry, VehicleProfile, DriverProfile}
use fleet_stream_real_time_f.Reference.Build.{FleetReference, build_reference}
use fleet_stream_real_time_f.Silver.Write.{
  matches, or_null, left_join, greater, enriched_row, with_vehicles, enrich,
}
use fleet_stream_real_time_f.Fleet.Identity.{ids, build_reference-AllDistinct}
use fleet_stream_real_time_f.Fleet.Drivers.{driver_ids, drivers-AllDistinct}
use fleet_stream_real_time_f.Silver.Rows.{BronzeRow, SilverRow}
use fleet_stream_real_time_f.Prelude.Int.{ℤ, ltb_ℤ}
use fleet_stream_real_time_f.Prelude.{◌++◌ as append}
use fleet_stream_real_time_f.Dimensions.{
  driver_row, driver_columns, vehicle_row, vehicle_columns, load_dimensions, seed,
}

-- a key that no row has
matches-none :
    {D : Type 0} (id : D → String) (k : String) (ds : List D)
    → (Elem k (map id ds) → ⊥)
    → matches id (some k) ds ≡ []
matches-none id k [] h = refl
matches-none id k (d ∷ ds) h = elim (Bool-cases (str_eq (id d) k)) [
  | inl same ↦ absurd (h (inl (sym ((eq_iff (id d) k).0 same))))
  | inr other ↦ simp (other) (matches-none id k ds λ e. h (inr e))
]

-- a key that one row has
matches-one :
    {D : Type 0} (id : D → String) (d : D) (ds : List D)
    → AllDistinct (map id ds)
    → Elem d ds
    → matches id (some (id d)) ds ≡ d ∷ []
matches-one id d [] distinct h = absurd h
matches-one id d (x ∷ ds) distinct (inl e) = simp ((eq_iff (id x) (id d)).1 (ap id (sym e))) (
    ap (λ rest. x ∷ rest)
      (matches-none id (id d) ds
        λ here. distinct.0 (subst (λ k. Elem k (map id ds)) (ap id e) here))
    ∙ ap (λ y. y ∷ []) (sym e))
matches-one id d (x ∷ ds) distinct (inr e) = elim (Bool-cases (str_eq (id x) (id d))) [
  | inl same ↦ absurd (
      distinct.0 (
        subst (λ k. Elem k (map id ds)) (sym ((eq_iff (id x) (id d)).0 same)) (Elem-map id d ds e)))
  | inr other ↦ simp (other) (matches-one id d ds distinct.1 e)
]

module _ {R G : Type 0} ⦃f : Float R⦄ (r : Random R G) (m : Trigonometry R) where
  columns-ids :
      (vs : List (VehicleProfile R))
      → map (λ d. d.vehicle_id) (map vehicle_columns (map vehicle_row vs)) ≡ ids r vs
  unfolding vehicle_columns vehicle_row
  columns-ids [] = refl
  columns-ids (v ∷ vs) = ap (λ rest. v.vehicle_id ∷ rest) (columns-ids vs)

  columns-driver_ids :
      (ds : List (DriverProfile R))
      → map (λ d. d.driver_id) (map driver_columns (map driver_row ds)) ≡ driver_ids r ds
  unfolding driver_columns driver_row
  columns-driver_ids [] = refl
  columns-driver_ids (d ∷ ds) = ap (λ rest. d.driver_id ∷ rest) (columns-driver_ids ds)

  module _ (cfg : SimulatorConfig R) where
    abbrev fleet : FleetReference R
    fleet = build_reference r m cfg.vehicle_count cfg.seed cfg.hot_vehicle

    seed-left_join :
        (v : VehicleProfile R)
        → Elem v fleet.vehicles
        → left_join (λ d. d.vehicle_id) (some v.vehicle_id) (load_dimensions (seed r m cfg)).0
          ≡ some (vehicle_columns (vehicle_row v)) ∷ []
    unfolding left_join seed load_dimensions vehicle_columns vehicle_row
    seed-left_join v h =
        let rows = map vehicle_row fleet.vehicles in
        let distinct =
          subst AllDistinct (sym (columns-ids fleet.vehicles))
            (build_reference-AllDistinct r m cfg.vehicle_count cfg.seed cfg.hot_vehicle) in
        ap or_null (
          matches-one (λ d. d.vehicle_id) (vehicle_columns (vehicle_row v))
            (map vehicle_columns rows) distinct
            (Elem-map vehicle_columns (vehicle_row v) rows
              (Elem-map vehicle_row v fleet.vehicles h)))

    driver-left_join :
        (d : DriverProfile R)
        → Elem d (members fleet.drivers)
        → left_join (λ x. x.driver_id) (some d.driver_id) (load_dimensions (seed r m cfg)).1
          ≡ some (driver_columns (driver_row d)) ∷ []
    unfolding left_join seed load_dimensions driver_columns driver_row
    driver-left_join d h =
        let rows = map driver_row (members fleet.drivers) in
        let distinct =
          subst AllDistinct (sym (columns-driver_ids (members fleet.drivers)))
            (drivers-AllDistinct r m cfg.vehicle_count cfg.seed cfg.hot_vehicle) in
        ap or_null (
          matches-one (λ x. x.driver_id) (driver_columns (driver_row d)) (map driver_columns rows)
            distinct
            (Elem-map driver_columns (driver_row d) rows
              (Elem-map driver_row d (members fleet.drivers) h)))

    enrich_once :
        (now : ℤ) (run_id : String) (b : BronzeRow) (v : VehicleProfile R) (d : DriverProfile R)
        → Elem v fleet.vehicles
        → Elem d (members fleet.drivers)
        → b.reading.vehicle_id ≡ some v.vehicle_id
        → b.reading.driver_id ≡ some d.driver_id
        → let dims = load_dimensions (seed r m cfg) in
          enrich now run_id dims.0 dims.1 (b ∷ [])
          ≡ enriched_row now run_id b
              (some (vehicle_columns (vehicle_row v)))
              (some (driver_columns (driver_row d)))
            ∷ []
    unfolding enrich
    enrich_once now run_id b v d of_fleet of_drivers by_vehicle by_driver =
        let vehicles = (load_dimensions (seed r m cfg)).0 in
        let drivers = (load_dimensions (seed r m cfg)).1 in
        let found =
          ap (λ k. left_join (λ x. x.vehicle_id) k vehicles) by_vehicle
          ∙ seed-left_join v of_fleet in
        let driven =
          ap (λ k. left_join (λ x. x.driver_id) k drivers) by_driver
          ∙ driver-left_join d of_drivers in
        ap
          (λ vs.
            append
              (with_vehicles now run_id b vs
                (left_join (λ x. x.driver_id) b.reading.driver_id drivers))
              [])
          found
        ∙ ap
            (λ ds.
              append (with_vehicles now run_id b (some (vehicle_columns (vehicle_row v)) ∷ []) ds)
                [])
            driven

    -- the attributes that a row of Silver has of a vehicle and a driver of the simulator; speeds are in millionths
    abbrev pub HasAttributes : VehicleProfile R → DriverProfile R → BronzeRow → SilverRow → Type 0
    HasAttributes v d b row =
        (row.reading ≡ b.reading)
        × ((row.vehicle_type ≡ some v.vehicle_type)
            × (row.manufacturer ≡ some v.manufacturer)
            × (row.vehicle_model ≡ some v.vehicle_model)
            × (row.region ≡ some v.region)
            × (row.fleet_owner ≡ some v.fleet_owner))
        × ((row.driver_name ≡ some d.driver_name) × (row.driver_category ≡ some d.driver_category))
        × ((speed : ℤ)
            → b.reading.speed ≡ some speed
            → row.is_overspeed ≡ some (ltb_ℤ (f.round v.max_speed_kmh 6) speed))

    enriched-HasAttributes :
        (now : ℤ) (run_id : String) (b : BronzeRow) (v : VehicleProfile R) (d : DriverProfile R)
        → HasAttributes v d b (
            enriched_row now run_id b
              (some (vehicle_columns (vehicle_row v)))
              (some (driver_columns (driver_row d))))
    unfolding enriched_row greater vehicle_columns vehicle_row driver_columns driver_row
    enriched-HasAttributes now run_id b v d =
        (refl, (refl, refl, refl, refl, refl), (refl, refl), λ speed e. rw e refl)

    -- Against the dimensions that are seeded from a configuration, the enrichment makes of a reading of any vehicle of
    -- the simulated fleet, the hot one included, and any of its drivers exactly one row. It has the reading, the type,
    -- manufacturer, model, region and owner of that vehicle, the name and category of that driver, and says of a speed
    -- whether it is above what the vehicle may go.
    pub enrich-seed :
        (now : ℤ) (run_id : String) (b : BronzeRow) (v : VehicleProfile R) (d : DriverProfile R)
        → Elem v fleet.vehicles
        → Elem d (members fleet.drivers)
        → b.reading.vehicle_id ≡ some v.vehicle_id
        → b.reading.driver_id ≡ some d.driver_id
        → let dims = load_dimensions (seed r m cfg) in
          (row : SilverRow) × (enrich now run_id dims.0 dims.1 (b ∷ []) ≡ row ∷ [])
          × HasAttributes v d b row
    enrich-seed now run_id b v d of_fleet of_drivers by_vehicle by_driver = (
      enriched_row now run_id b (some (vehicle_columns (vehicle_row v)))
          (some (driver_columns (driver_row d))),
      enrich_once now run_id b v d of_fleet of_drivers by_vehicle by_driver,
      enriched-HasAttributes now run_id b v d,
    )
