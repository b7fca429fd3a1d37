-- ===== src/Schemas/Conformance.antt =====
-- The records of src/fleetstream/simulator/vehicle.py against the JSON Schema of
-- src/fleetstream/common/schemas.py.
use mathlib.Core.Path.{subst}
use mathlib.Core.Option.{some_inj}
use fleet_stream_real_time_f.Prelude.{
  ℕ, zero, suc, String, str_eq, Option, none, some, Bool, true, false, ◌&&◌, ◌||◌, List, [], ◌∷◌,
  ◌≡◌, ◌↔◌, ◌≢◌, refl, sym, ap, ◌∙◌, get_or, if◌then◌else◌,
}
use fleet_stream_real_time_f.Prelude.Int.{ℤ}
use fleet_stream_real_time_f.Float.{Float}
use fleet_stream_real_time_f.Payload.{
  TelemetryEvent, Payload, Json, null, num, text, stamp, to_dict, corrupt, speed_or_ten,
  negate_speed,
}
use fleet_stream_real_time_f.Generator.Corruption.{kind_at, speed_or_ten_num}
use fleet_stream_real_time_f.Schemas.Fields.{JsonType, string_type, number_type, null_type}
use fleet_stream_real_time_f.Schemas.{JsonSchema, Property, telemetry_json_schema, required_names}

-- the members of the JSON object, in the order of `to_dict`
abbrev pub members_of : Payload → List (String × Json)
members_of p =
    ("event_id", p.event_id)
    ∷ ("vehicle_id", p.vehicle_id)
    ∷ ("driver_id", p.driver_id)
    ∷ ("trip_id", p.trip_id)
    ∷ ("route_id", p.route_id)
    ∷ ("event_time", p.event_time)
    ∷ ("latitude", p.latitude)
    ∷ ("longitude", p.longitude)
    ∷ ("speed", p.speed)
    ∷ ("fuel_level", p.fuel_level)
    ∷ ("engine_temperature", p.engine_temperature)
    ∷ ("battery_level", p.battery_level)
    ∷ ("odometer_km", p.odometer_km)
    ∷ ("schema_version", p.schema_version)
    ∷ []

abbrev pub is_of : JsonType → Json → Bool
is_of string_type (text s) = true
is_of string_type (stamp t) = true
is_of number_type (num z) = true
is_of null_type null = true
is_of _ _ = false

abbrev pub is_of_one : List JsonType → Json → Bool
is_of_one [] j = false
is_of_one (t ∷ types) j = is_of t j || is_of_one types j

-- whether a member is a property, and of its type
abbrev pub admits : List Property → String → Json → Bool
admits [] name j = false
admits (p ∷ properties) name j =
    let rest = admits properties name j in
    if str_eq p.name name then is_of_one p.json_type j else rest

abbrev pub all_admitted : List Property → List (String × Json) → Bool
all_admitted properties [] = true
all_admitted properties ((name, j) ∷ members) =
    admits properties name j && all_admitted properties members

abbrev pub has_member : String → List (String × Json) → Bool
has_member name [] = false
has_member name ((n, j) ∷ members) = str_eq n name || has_member name members

abbrev pub has_all : List String → List (String × Json) → Bool
has_all [] members = true
has_all (name ∷ names) members = has_member name members && has_all names members

-- What JSON Schema asks of an object where no other properties are allowed.
abbrev pub conforms : JsonSchema → Payload → Bool
conforms schema p =
    has_all schema.required (members_of p) && all_admitted schema.properties (members_of p)

-- which corruptions a validation against the schema lets through, in the order of CORRUPTIONS
abbrev pub passes_schema : ℕ → Bool
passes_schema i =
    get_or (false ∷ true ∷ true ∷ true ∷ true ∷ true ∷ false ∷ true ∷ false ∷ []) i false

and_false : (b : Bool) → (b && false) ≡ false
and_false true = refl
and_false false = refl

module _ {R : Type 0} ⦃f : Float R⦄ (e : TelemetryEvent R) where
  with_route :
      (id : String) → e.route_id ≡ some id → conforms telemetry_json_schema (to_dict e) ≡ true
  unfolding telemetry_json_schema required_names to_dict
  with_route id h = rw h refl

  without_route : e.route_id ≡ none → conforms telemetry_json_schema (to_dict e) ≡ false
  unfolding telemetry_json_schema required_names to_dict
  without_route h = rw h refl

  abbrev IsJudged : ℕ → Payload → Type 0
  IsJudged i q =
      conforms telemetry_json_schema q
      ≡ (passes_schema i && conforms telemetry_json_schema (to_dict e))

  negated :
      (q : Payload) (v : ℤ)
      → speed_or_ten (to_dict e).speed ≡ some v
      → corrupt (to_dict e) "negative_speed" ≡ some q
      → IsJudged 1 q
  unfolding corrupt negate_speed telemetry_json_schema required_names to_dict
  negated q v o h = subst (IsJudged 1) (some_inj.0 (ap (negate_speed (to_dict e)) (sym o) ∙ h)) refl

  judged : (i : ℕ) (q : Payload) → corrupt (to_dict e) (kind_at i) ≡ some q → IsJudged i q
  unfolding corrupt telemetry_json_schema required_names to_dict
  judged zero q h = subst (IsJudged 0) (some_inj.0 h) refl
  judged (suc zero) q h = let (v, o) = speed_or_ten_num (f.round e.speed 2) in negated q v o h
  judged (suc (suc zero)) q h = subst (IsJudged 2) (some_inj.0 h) refl
  judged (suc (suc (suc zero))) q h = subst (IsJudged 3) (some_inj.0 h) refl
  judged (suc (suc (suc (suc zero)))) q h = subst (IsJudged 4) (some_inj.0 h) refl
  judged (suc (suc (suc (suc (suc zero))))) q h = subst (IsJudged 5) (some_inj.0 h) refl
  judged (suc (suc (suc (suc (suc (suc zero)))))) q h =
      subst (IsJudged 6) (some_inj.0 h) (and_false _)
  judged (suc (suc (suc (suc (suc (suc (suc zero))))))) q h = subst (IsJudged 7) (some_inj.0 h) refl
  judged (suc (suc (suc (suc (suc (suc (suc (suc zero)))))))) q h =
      subst (IsJudged 8) (some_inj.0 h) (and_false _)
  judged (suc (suc (suc (suc (suc (suc (suc (suc (suc i))))))))) q h =
      subst (IsJudged 9) (some_inj.0 h) refl

  conforms_route :
      (o : Option String)
      → e.route_id ≡ o
      → conforms telemetry_json_schema (to_dict e) ≡ true
      → o ≢ none
  conforms_route none h c same = true_false (sym c ∙ without_route h)
    where
      true_false : true ≡ false → ⊥
      true_false x = cc
  conforms_route (some id) h c same = cc

  route_conforms :
      (o : Option String)
      → e.route_id ≡ o
      → o ≢ none
      → conforms telemetry_json_schema (to_dict e) ≡ true
  route_conforms none h some_route = absurd (some_route refl)
  route_conforms (some id) h some_route = with_route id h

  -- A record that the simulator sends conforms to the JSON Schema of the contract exactly when it has a route: the
  -- schema has no null for the route, though the field is optional. A corruption of it conforms exactly when the record
  -- does and the kind is one of the six that keep the types, the values out of range among them.
  pub to_dict-conforms :
      (i : ℕ) (q : Payload)
      → corrupt (to_dict e) (kind_at i) ≡ some q
      → ((conforms telemetry_json_schema (to_dict e) ≡ true) ↔ (e.route_id ≢ none))
        × (conforms telemetry_json_schema q
            ≡ (passes_schema i && conforms telemetry_json_schema (to_dict e)))
  to_dict-conforms i q h =
      ((conforms_route e.route_id refl, route_conforms e.route_id refl), judged i q h)
