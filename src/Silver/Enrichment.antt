-- ===== src/Silver/Enrichment.antt =====
-- The rows that `enrich` makes of a batch: none is lost, and each carries the reading of its row.
use mathlib.Core.Path.{subst}
use mathlib.Core.Option.{some_inj}
use fleet_stream_real_time_f.Prelude.{
  Bool-cases, elem_map, eq_iff, str_eq, String, Option, none, some, List, [], ◌∷◌, map, ◌≡◌, inl,
  inr, refl, sym, ap, ◌∙◌, Elem, Elem-append_left, Elem-append_right, elem_append,
}
use fleet_stream_real_time_f.Prelude.Int.{ℤ, pos, ltb_ℤ}
use fleet_stream_real_time_f.Silver.Rows.{BronzeRow, DimVehicle, DimDriver, SilverRow}
use fleet_stream_real_time_f.Silver.Write.{
  left_join, or_null, matches, enriched_row, greater, with_drivers, with_vehicles, enrich,
}

first_of_join :
    {D : Type 0} (found : List D)
    → (d : Option D) × (rest : List (Option D)) × (or_null found ≡ d ∷ rest)
first_of_join [] = (none, [], refl)
first_of_join (d ∷ more) = (some d, map some more, refl)

-- a join has at least one row
joined :
    {D : Type 0} (id : D → String) (k : Option String) (ds : List D)
    → (d : Option D) × (rest : List (Option D)) × (left_join id k ds ≡ d ∷ rest)
unfolding left_join
joined id k ds = first_of_join (matches id k ds)

abbrev found_vehicles : List DimVehicle → BronzeRow → List (Option DimVehicle)
found_vehicles vehicles b = left_join (λ v. v.vehicle_id) b.reading.vehicle_id vehicles

abbrev found_drivers : List DimDriver → BronzeRow → List (Option DimDriver)
found_drivers drivers b = left_join (λ d. d.driver_id) b.reading.driver_id drivers

-- what a left join finds: a row with the key, or nothing where there is none
abbrev pub IsJoined : {D : Type 0} → (D → String) → Option String → List D → Option D → Type 0
IsJoined id k ds none = (x : _) → Elem x ds → k ≡ some (id x) → ⊥
IsJoined id k ds (some d) = Elem d ds × (k ≡ some (id d))

matches-IsJoined :
    {D : Type 0} (id : D → String) (k : Option String) (ds : List D) (d : D)
    → Elem d (matches id k ds)
    → IsJoined id k ds (some d)
matches-IsJoined id none ds d h = absurd h
matches-IsJoined id (some k) [] d h = absurd h
matches-IsJoined id (some k) (x ∷ ds) d h = elim (Bool-cases (str_eq (id x) k)) [
  | inl same ↦ elim (simp (same) at h) [
    | inl e ↦ (inl e, ap some (sym ((eq_iff (id x) k).0 same) ∙ ap id (sym e)))
    | inr later ↦ let (there, p) = matches-IsJoined id (some k) ds d later in (inr there, p)
  ]
  | inr other ↦
      let (there, p) = matches-IsJoined id (some k) ds d (simp (other) at h) in (inr there, p)
]

matches-all :
    {D : Type 0} (id : D → String) (k : String) (ds : List D) (d : D)
    → Elem d ds
    → k ≡ id d
    → Elem d (matches id (some k) ds)
matches-all id k [] d h e = absurd h
matches-all id k (x ∷ ds) d (inl h) e = simp ((eq_iff (id x) k).1 (sym (e ∙ ap id h))) (inl h)
matches-all id k (x ∷ ds) d (inr h) e = elim (Bool-cases (str_eq (id x) k)) [
  | inl same ↦ simp (same) (inr (matches-all id k ds d h e))
  | inr other ↦ simp (other) (matches-all id k ds d h e)
]

or_null-IsJoined :
    {D : Type 0} (id : D → String) (k : Option String) (ds found : List D)
    → ((d : D) → Elem d found → IsJoined id k ds (some d))
    → (found ≡ [] → IsJoined id k ds none)
    → (x : Option D) → Elem x (or_null found)
    → IsJoined id k ds x
or_null-IsJoined id k ds [] h empty x (inl e) = subst (IsJoined id k ds) (sym e) (empty refl)
or_null-IsJoined id k ds [] h empty x (inr e) = absurd e
or_null-IsJoined id k ds (d ∷ more) h empty x (inl e) =
    subst (IsJoined id k ds) (sym e) (h d (inl refl))
or_null-IsJoined id k ds (d ∷ more) h empty x (inr e) =
    let (y, there, same) = elem_map some x more e in
    subst (IsJoined id k ds) (sym same) (h y (inr there))

nothing_found :
    {D : Type 0} (id : D → String) (k : Option String) (ds : List D)
    → matches id k ds ≡ []
    → IsJoined id k ds none
nothing_found id none ds e x h p = none_some p
  where
    none_some : {A : Type 0} {a : A} → none ≡ some a → ⊥
    none_some q = cc
nothing_found id (some k) ds e x h p = subst (Elem x) e (matches-all id k ds x h (some_inj.0 p))

left_join-IsJoined :
    {D : Type 0} (id : D → String) (k : Option String) (ds : List D) (x : Option D)
    → Elem x (left_join id k ds)
    → IsJoined id k ds x
unfolding left_join
left_join-IsJoined id k ds x h =
    or_null-IsJoined id k ds (matches id k ds) (matches-IsJoined id k ds) (nothing_found id k ds) x
      h

-- The columns of a row of Silver, from those of Bronze and the dimensions.
pub record IsAttributed (now : ℤ) (run_id : String) (b : BronzeRow) (v : Option DimVehicle)
    (d : Option DimDriver) (row : SilverRow) : Type 0 where
  pub reading : row.reading ≡ b.reading
  pub provenance : row.provenance ≡ b.provenance
  pub of_vehicle :
      (x : DimVehicle)
      → v ≡ some x
      → (row.vehicle_type ≡ x.vehicle_type)
        × (row.manufacturer ≡ x.manufacturer)
        × (row.vehicle_model ≡ x.vehicle_model)
        × (row.region ≡ x.region)
        × (row.fleet_owner ≡ x.fleet_owner)
  pub of_driver :
      (x : DimDriver)
      → d ≡ some x
      → (row.driver_name ≡ x.driver_name) × (row.driver_category ≡ x.driver_category)
  pub no_vehicle :
      v ≡ none
      → (row.vehicle_type ≡ none)
        × (row.manufacturer ≡ none)
        × (row.vehicle_model ≡ none)
        × (row.region ≡ none)
        × (row.fleet_owner ≡ none)
        × (row.is_overspeed ≡ none)
  pub no_driver : d ≡ none → (row.driver_name ≡ none) × (row.driver_category ≡ none)
  -- faster than the vehicle may go, hotter than 100 degrees, less than 15 percent
  pub is_overspeed :
      (x : DimVehicle) (limit speed : ℤ)
      → v ≡ some x
      → x.max_speed_kmh ≡ some limit
      → b.reading.speed ≡ some speed
      → row.is_overspeed ≡ some (ltb_ℤ limit speed)
  pub is_overheating :
      (heat : ℤ)
      → b.reading.engine_temperature ≡ some heat
      → row.is_overheating ≡ some (ltb_ℤ (pos 100_000_000) heat)
  pub is_low_fuel :
      (level : ℤ)
      → b.reading.fuel_level ≡ some level
      → row.is_low_fuel ≡ some (ltb_ℤ level (pos 15_000_000))
  pub processed_at : row.processed_at ≡ now
  pub silver_run_id : row.silver_run_id ≡ run_id

pub enriched_row-IsAttributed :
    (now : ℤ) (run_id : String) (b : BronzeRow) (v : Option DimVehicle) (d : Option DimDriver)
    → IsAttributed now run_id b v d (enriched_row now run_id b v d)
unfolding enriched_row greater
enriched_row-IsAttributed now run_id b v d = record {
  reading = refl;
  provenance = refl;
  of_vehicle = λ x e. rw e (refl, refl, refl, refl, refl);
  of_driver = λ x e. rw e (refl, refl);
  no_vehicle = λ e. rw e (refl, refl, refl, refl, refl, unbounded b.reading.speed);
  no_driver = λ e. rw e (refl, refl);
  is_overspeed = λ x limit speed e p q. rw (e, q, p) refl;
  is_overheating = λ heat e. rw e refl;
  is_low_fuel = λ level e. rw e refl;
  processed_at = refl;
  silver_run_id = refl;
}
  where
    unbounded : (speed : Option ℤ) → greater speed none ≡ none
    unbounded none = refl
    unbounded (some s) = refl

module _ (now : ℤ) (run_id : String) where
  -- the row of b with one vehicle and one driver
  abbrev pub IsEnriched : List DimVehicle → List DimDriver → SilverRow → BronzeRow → Type 0
  IsEnriched vehicles drivers row b =
      (v : Option DimVehicle) × (d : Option DimDriver) × IsJoined (λ x. x.vehicle_id)
        b.reading.vehicle_id vehicles v
      × IsJoined (λ x. x.driver_id) b.reading.driver_id drivers d
      × (row ≡ enriched_row now run_id b v d)

  with_drivers-found :
      (row : SilverRow) (b : BronzeRow) (v : Option DimVehicle) (ds : List (Option DimDriver))
      → Elem row (with_drivers now run_id b v ds)
      → (d : Option DimDriver) × Elem d ds × (row ≡ enriched_row now run_id b v d)
  with_drivers-found row b v [] h = absurd h
  with_drivers-found row b v (d ∷ ds) (inl e) = (d, inl refl, e)
  with_drivers-found row b v (d ∷ ds) (inr h) =
      let (x, there, same) = with_drivers-found row b v ds h in (x, inr there, same)

  with_vehicles-found :
      (row : SilverRow) (b : BronzeRow) (vs : List (Option DimVehicle))
      (ds : List (Option DimDriver))
      → Elem row (with_vehicles now run_id b vs ds)
      → (v : Option DimVehicle) × (d : Option DimDriver) × Elem v vs
        × Elem d ds
        × (row ≡ enriched_row now run_id b v d)
  with_vehicles-found row b [] ds h = absurd h
  with_vehicles-found row b (v ∷ vs) ds h =
      elim (elem_append row (with_drivers now run_id b v ds) _ h) [
        | inl here ↦
            let (d, there, same) = with_drivers-found row b v ds here in
            (v, d, inl refl, there, same)
        | inr later ↦
            let (x, d, among, there, same) = with_vehicles-found row b vs ds later in
            (x, d, inr among, there, same)
      ]

  -- Each enriched row is that of a row of the batch.
  pub enrich_from :
      (vehicles : List DimVehicle) (drivers : List DimDriver) (row : SilverRow)
      (rows : List BronzeRow)
      → Elem row (enrich now run_id vehicles drivers rows)
      → (b : BronzeRow) × Elem b rows × IsEnriched vehicles drivers row b
  unfolding enrich
  enrich_from vehicles drivers row [] h = absurd h
  enrich_from vehicles drivers row (b ∷ rows) h =
      elim (elem_append row
        (with_vehicles now run_id b (found_vehicles vehicles b) (found_drivers drivers b)) _ h) [
          | inl here ↦
              let (v, d, among, there, same) =
                with_vehicles-found row b (found_vehicles vehicles b) (found_drivers drivers b)
                  here in
              (
                b,
                inl refl,
                (
                  v,
                  d,
                  left_join-IsJoined (λ x. x.vehicle_id) b.reading.vehicle_id vehicles v among,
                  left_join-IsJoined (λ x. x.driver_id) b.reading.driver_id drivers d there,
                  same,
                ),
              )
          | inr later ↦
              let (c, e, same) = enrich_from vehicles drivers row rows later in (c, inr e, same)
        ]

  enriched_row-reading :
      (b : BronzeRow) (v : Option DimVehicle) (d : Option DimDriver)
      → (enriched_row now run_id b v d).reading ≡ b.reading
  unfolding enriched_row
  enriched_row-reading b v d = refl

  -- Each enriched row has the reading of a row of the batch.
  pub enrich_source :
      (vehicles : List DimVehicle) (drivers : List DimDriver) (row : SilverRow)
      (rows : List BronzeRow)
      → Elem row (enrich now run_id vehicles drivers rows)
      → (b : BronzeRow) × Elem b rows × (row.reading ≡ b.reading)
  enrich_source vehicles drivers row rows h =
      let (b, e, (v, d, _, _, same)) = enrich_from vehicles drivers row rows h in
      (b, e, ap (λ (r : SilverRow). r.reading) same ∙ enriched_row-reading b v d)

  first_row :
      (b : BronzeRow) (vs : List (Option DimVehicle)) (ds : List (Option DimDriver))
      (v : (x : Option DimVehicle) × (rest : List (Option DimVehicle)) × (vs ≡ x ∷ rest))
      (d : (x : Option DimDriver) × (rest : List (Option DimDriver)) × (ds ≡ x ∷ rest))
      → Elem (enriched_row now run_id b v.0 d.0) (with_vehicles now run_id b vs ds)
  first_row b vs ds (v, more, e) (d, others, p) = rw (e, p) (inl refl)

  -- Every row of the batch has an enriched row.
  pub enrich_each :
      (vehicles : List DimVehicle) (drivers : List DimDriver) (b : BronzeRow)
      (rows : List BronzeRow)
      → Elem b rows
      → (v : Option DimVehicle) × (d : Option DimDriver) × Elem
          (enriched_row now run_id b v d)
          (enrich now run_id vehicles drivers rows)
  unfolding enrich
  enrich_each vehicles drivers b [] h = absurd h
  enrich_each vehicles drivers b (c ∷ rows) (inl e) =
      let v = joined (λ x. x.vehicle_id) c.reading.vehicle_id vehicles in
      let d = joined (λ x. x.driver_id) c.reading.driver_id drivers in
      (
        v.0,
        d.0,
        subst
            (λ x.
              Elem (enriched_row now run_id x v.0 d.0)
                (enrich now run_id vehicles drivers (c ∷ rows)))
            (sym e)
            (Elem-append_left _ _ _
              (first_row c (found_vehicles vehicles c) (found_drivers drivers c) v d)),
      )
  enrich_each vehicles drivers b (c ∷ rows) (inr h) =
      let (v, d, e) = enrich_each vehicles drivers b rows h in (v, d, Elem-append_right _ _ _ e)

  -- Every row of the batch has an enriched row: a vehicle or driver that is unknown loses nothing.
  pub enrich_covers :
      (vehicles : List DimVehicle) (drivers : List DimDriver) (b : BronzeRow)
      (rows : List BronzeRow)
      → Elem b rows
      → (row : SilverRow) × Elem row (enrich now run_id vehicles drivers rows)
        × (row.reading ≡ b.reading)
  enrich_covers vehicles drivers b rows h =
      let (v, d, e) = enrich_each vehicles drivers b rows h in
      (enriched_row now run_id b v d, e, enriched_row-reading b v d)
