-- ===== src/Detection/Clean.antt =====
-- The way of a reading that is not corrupted through Bronze and the rules of
-- src/fleetstream/quality/rules.yml.
use mathlib.Core.Path.{subst}
use fleet_stream_real_time_f.Prelude.{
  ◌*◌, ◌/◌, String, List, [], ◌∷◌, Option, none, some, Bool, true, false, ◌≡◌, inl, inr, refl, sym,
  ap, ◌∙◌, All, Elem, Elem-map, arith,
}
use fleet_stream_real_time_f.Prelude.Int.{ℤ, pos, negsuc, ◌≤ℤ◌}
use fleet_stream_real_time_f.Float.{Float}
use fleet_stream_real_time_f.Payload.{TelemetryEvent, Payload, to_dict}
use fleet_stream_real_time_f.Quality.Rules.{Rule}
use fleet_stream_real_time_f.Quality.Engine.{Quarantined, split}
use fleet_stream_real_time_f.Quality.Standard
use fleet_stream_real_time_f.Quality.Standard.{standard_rules}
use fleet_stream_real_time_f.Quality.Verdicts.{split_valid_iff}
use fleet_stream_real_time_f.Silver.Rows.{Reading, BronzeRow}
use fleet_stream_real_time_f.Bronze.Accounted.{apart}
use fleet_stream_real_time_f.Bronze.{KafkaMessage, shape, ingest}
use fleet_stream_real_time_f.Detection.Sql.{
  Functions, IsSql, or3, and3, at_least, at_most, within, is_named, is_null, is_not_null,
  one_version, is_typed,
}
use fleet_stream_real_time_f.Detection.Wire.{parsed, IsCodec}
use fleet_stream_real_time_f.Detection.Caught.{is_text-optional}
use fleet_stream_real_time_f.Detection.Quarantine.{standard_rules-AllDistinct}

module _ (s : Functions) {R : Type 0} ⦃f : Float R⦄ where
  -- A reading as the rules want one, after rounding.
  pub record IsPlausible (e : TelemetryEvent R) : Type 0 where
    pub event_id : s.is_nonblank e.event_id ≡ true
    pub vehicle_id : s.is_nonblank e.vehicle_id ≡ true
    pub trip_id : s.is_nonblank e.trip_id ≡ true
    pub speed : (pos 0 ≤ℤ f.round e.speed 2) × (f.round e.speed 2 ≤ℤ pos 200_000_000)
    pub fuel_level : (pos 0 ≤ℤ f.round e.fuel_level 2) × (f.round e.fuel_level 2 ≤ℤ pos 100_000_000)
    pub battery_level :
        (pos 0 ≤ℤ f.round e.battery_level 2) × (f.round e.battery_level 2 ≤ℤ pos 100_000_000)
    pub engine_temperature :
        (negsuc 49_999_999 ≤ℤ f.round e.engine_temperature 2)
        × (f.round e.engine_temperature 2 ≤ℤ pos 200_000_000)
    pub latitude :
        (negsuc 89_999_999 ≤ℤ f.round e.latitude 6) × (f.round e.latitude 6 ≤ℤ pos 90_000_000)
    pub longitude :
        (negsuc 179_999_999 ≤ℤ f.round e.longitude 6) × (f.round e.longitude 6 ≤ℤ pos 180_000_000)
    pub odometer_km : pos 0 ≤ℤ f.round e.odometer_km 3
    pub event_time :
        (pos 1_577_836_800_000_000 ≤ℤ pos (e.event_time / 1000 * 1000))
        × (pos (e.event_time / 1000 * 1000) ≤ℤ s.tomorrow)
    pub schema_version : e.schema_version ≡ "1.0"

at_least-true : (t v : ℤ) → t ≤ℤ v → at_least t (some v) ≡ some true
at_least-true t v h = ground arith

at_most-true : (t v : ℤ) → v ≤ℤ t → at_most t (some v) ≡ some true
at_most-true t v h = ground arith

within-true : (low high v : ℤ) → (low ≤ℤ v) × (v ≤ℤ high) → within low high (some v) ≡ some true
within-true low high v (l, h) =
    ap (λ b. and3 b (at_most high (some v))) (at_least-true low v l) ∙ at_most-true high v h

or3-true : (b : Option Bool) → or3 b (some true) ≡ some true
or3-true none = refl
or3-true (some true) = refl
or3-true (some false) = refl

infixr 4 ◌▹◌
◌▹◌ : {A B : Type 0} → A → B → A × B
a ▹ b = (a, b)

All-Elem :
    (P : Rule → Type 0) (rules : List Rule) → All P rules → (rule : Rule) → Elem rule rules → P rule
All-Elem P [] all rule e = absurd e
All-Elem P (r ∷ rules) all rule (inl e) = subst P (sym e) all.0
All-Elem P (r ∷ rules) all rule (inr e) = All-Elem P rules all.1 rule e

module _ (evaluate : String → BronzeRow → Option Bool) (dumps : Payload → String)
    (from_json : Option String → Reading) (s : Functions) (sql : IsSql s evaluate) {R : Type 0}
    ⦃f : Float R⦄ (e : TelemetryEvent R) (plausible : IsPlausible s e) where
  module _ (row : BronzeRow) (read : row.reading ≡ parsed (to_dict e)) where
    holds :
        (rule : Rule) (sees : Reading → Option Bool)
        → evaluate rule.expression row ≡ sees row.reading
        → sees (parsed (to_dict e)) ≡ some true
        → evaluate rule.expression row ≡ some true
    holds rule sees eq h = eq ∙ ap sees read ∙ h

    passes : All (λ (rule : Rule). evaluate rule.expression row ≡ some true) standard_rules
    unfolding to_dict parsed
    passes =
        holds Standard.vehicle_id_not_null (λ r. is_named s r.vehicle_id)
          (sql.vehicle_id_not_null row) (ap some plausible.vehicle_id)
        ▹ holds Standard.event_id_not_null (λ r. is_named s r.event_id) (sql.event_id_not_null row)
            (ap some plausible.event_id)
        ▹ holds Standard.event_time_not_null (λ r. is_not_null r.event_time)
            (sql.event_time_not_null row) refl
        ▹ holds Standard.trip_id_not_null (λ r. is_named s r.trip_id) (sql.trip_id_not_null row)
            (ap some plausible.trip_id)
        ▹ holds Standard.speed_type_valid (λ r. is_typed s "$.speed" row r.speed)
            (sql.speed_type_valid row) (or3-true _)
        ▹ holds Standard.fuel_level_type_valid (λ r. is_typed s "$.fuel_level" row r.fuel_level)
            (sql.fuel_level_type_valid row) (or3-true _)
        ▹ holds Standard.engine_temperature_type_valid
            (λ r. is_typed s "$.engine_temperature" row r.engine_temperature)
            (sql.engine_temperature_type_valid row) (or3-true _)
        ▹ holds Standard.speed_non_negative (λ r. or3 (is_null r.speed) (at_least (pos 0) r.speed))
            (sql.speed_non_negative row)
            (at_least-true (pos 0) (f.round e.speed 2) plausible.speed.0)
        ▹ holds Standard.speed_within_plausible_max
            (λ r. or3 (is_null r.speed) (at_most (pos 200_000_000) r.speed))
            (sql.speed_within_plausible_max row)
            (at_most-true (pos 200_000_000) (f.round e.speed 2) plausible.speed.1)
        ▹ holds Standard.fuel_level_range (λ r. within (pos 0) (pos 100_000_000) r.fuel_level)
            (sql.fuel_level_range row)
            (within-true (pos 0) (pos 100_000_000) (f.round e.fuel_level 2) plausible.fuel_level)
        ▹ holds Standard.battery_level_range (λ r. within (pos 0) (pos 100_000_000) r.battery_level)
            (sql.battery_level_range row)
            (within-true (pos 0) (pos 100_000_000) (f.round e.battery_level 2)
              plausible.battery_level)
        ▹ holds Standard.engine_temperature_range
            (λ r. within (negsuc 49_999_999) (pos 200_000_000) r.engine_temperature)
            (sql.engine_temperature_range row)
            (within-true (negsuc 49_999_999) (pos 200_000_000) (f.round e.engine_temperature 2)
              plausible.engine_temperature)
        ▹ holds Standard.latitude_range
            (λ r. within (negsuc 89_999_999) (pos 90_000_000) r.latitude) (sql.latitude_range row)
            (within-true (negsuc 89_999_999) (pos 90_000_000) (f.round e.latitude 6)
              plausible.latitude)
        ▹ holds Standard.longitude_range
            (λ r. within (negsuc 179_999_999) (pos 180_000_000) r.longitude)
            (sql.longitude_range row)
            (within-true (negsuc 179_999_999) (pos 180_000_000) (f.round e.longitude 6)
              plausible.longitude)
        ▹ holds Standard.odometer_non_negative
            (λ r. or3 (is_null r.odometer_km) (at_least (pos 0) r.odometer_km))
            (sql.odometer_non_negative row)
            (at_least-true (pos 0) (f.round e.odometer_km 3) plausible.odometer_km)
        ▹ holds Standard.event_time_not_in_future
            (λ r. or3 (is_null r.event_time) (at_most s.tomorrow r.event_time))
            (sql.event_time_not_in_future row)
            (at_most-true s.tomorrow (pos (e.event_time / 1000 * 1000)) plausible.event_time.1)
        ▹ holds Standard.event_time_not_ancient
            (λ r. or3 (is_null r.event_time) (at_least (pos 1_577_836_800_000_000) r.event_time))
            (sql.event_time_not_ancient row)
            (at_least-true (pos 1_577_836_800_000_000) (pos (e.event_time / 1000 * 1000))
              plausible.event_time.0)
        ▹ holds Standard.schema_version_known
            (λ r. or3 (is_null r.schema_version) (one_version s r.schema_version))
            (sql.schema_version_known row)
            (ap (λ v. one_version s (some v)) plausible.schema_version)
        ▹ tt

  -- A plausible reading that is sent as it is passes the rules of the repository: its row goes on to Silver, and
  -- no row is quarantined that is equal to it. The conditions are its ranges after rounding, and that the
  -- JSON libraries and SQL read as documented.
  pub clean-IsKept :
      IsCodec dumps from_json s (to_dict e)
      → (now : ℤ) (run_id : String) (m : KafkaMessage) (messages : List KafkaMessage)
      → Elem m messages
      → m.value ≡ some (dumps (to_dict e))
      → Elem
          (shape from_json now run_id m)
          (split evaluate standard_rules (ingest from_json now run_id messages)).0
        × ((d : Quarantined evaluate) × Elem d
                (split evaluate standard_rules (ingest from_json now run_id messages)).1
              × (d.row ≡ shape from_json now run_id m)
            → ⊥)
  unfolding shape ingest to_dict
  clean-IsKept codec now run_id m messages here carried =
      let row = shape from_json now run_id m in
      let rows = ingest from_json now run_id messages in
      let read = ap from_json carried ∙ codec.read (is_text-optional e.route_id) in
      let all =
        All-Elem (λ (rule : Rule). evaluate rule.expression row ≡ some true) standard_rules
          (passes row read) in
      let landed = Elem-map (shape from_json now run_id) m messages here in
      let kept =
        (split_valid_iff evaluate standard_rules row rows).1 (landed, λ rule e c. all rule e) in
      (
        kept,
        λ diverted.
            apart evaluate standard_rules standard_rules-AllDistinct row rows landed
              (kept, diverted),
      )
