-- ===== src/Detection/Caught.antt =====
-- The corruptions of src/fleetstream/simulator/generator.py, each with the rule of
-- src/fleetstream/quality/rules.yml that is to catch it.
use mathlib.Core.Path.{subst}
use mathlib.Core.Option.{some_inj}
use fleet_stream_real_time_f.Prelude.{
  ℕ, zero, suc, String, Option, none, some, [], ◌∷◌, Bool, true, false, ◌≡◌, refl, sym, ap, ◌∙◌,
  get_or, arith,
}
use fleet_stream_real_time_f.Prelude.Int.{ℤ, pos, negsuc, ◌-ℤ◌}
use fleet_stream_real_time_f.Float.{Float}
use fleet_stream_real_time_f.Payload.{
  TelemetryEvent, Payload, null, num, text, optional_text, to_dict, corrupt, speed_or_ten,
  negate_speed, minus, tenths, magnitude,
}
use fleet_stream_real_time_f.Generator.Corruption.{kind_at, speed_or_ten_num}
use fleet_stream_real_time_f.Quality.Rules.{Rule}
use fleet_stream_real_time_f.Quality.Standard
use fleet_stream_real_time_f.Silver.Rows.{Reading, BronzeRow}
use fleet_stream_real_time_f.Detection.Sql.{
  Functions, IsSql, at_least, is_null, is_not_null, is_named, or3, within,
}
use fleet_stream_real_time_f.Detection.Wire.{parsed, is_text, as_double, IsSent, IsCodec}

-- the rule that is to catch the corruption at a position of CORRUPTIONS
abbrev pub catching : ℕ → Rule
catching i =
    get_or
      (Standard.vehicle_id_not_null ∷ Standard.speed_non_negative ∷ Standard.fuel_level_range
        ∷ Standard.latitude_range ∷ Standard.longitude_range ∷ Standard.battery_level_range
        ∷ Standard.event_time_not_null ∷ Standard.engine_temperature_range
        ∷ Standard.speed_type_valid ∷ [])
      i Standard.vehicle_id_not_null

pub is_text-optional : (o : Option String) → is_text (optional_text o) ≡ true
is_text-optional none = refl
is_text-optional (some s) = refl

below_zero : (n : ℕ) → at_least (pos 0) (some (minus (pos n) -ℤ tenths 5 0)) ≡ some false
unfolding ◌-ℤ◌
below_zero zero = refl
below_zero (suc n) = ground arith

module _ (evaluate : String → BronzeRow → Option Bool) (dumps : Payload → String)
    (from_json : Option String → Reading) (s : Functions) (sql : IsSql s evaluate)
    (row : BronzeRow) where
  -- The row is that of a message with this payload.
  abbrev IsCarried : Payload → Type 0
  IsCarried q = (row.raw_payload ≡ some (dumps q)) × (row.reading ≡ from_json row.raw_payload)

  module _ (q : Payload) (codec : IsCodec dumps from_json s q) (carried : IsCarried q)
      (sent : IsSent q) where
    reading : row.reading ≡ parsed q
    reading = carried.1 ∙ ap from_json carried.0 ∙ codec.read sent

    refuted :
        (rule : Rule) (sees : Reading → Option Bool)
        → evaluate rule.expression row ≡ sees row.reading
        → sees (parsed q) ≡ some false
        → evaluate rule.expression row ≡ some false
    refuted rule sees e h = e ∙ ap sees reading ∙ h

    untyped :
        q.speed ≡ text "seventy-two"
        → evaluate Standard.speed_type_valid.expression row ≡ some false
    unfolding parsed
    untyped h =
        let found = codec.speed_found sent λ e. cc in
        let seen : is_null (s.json_object row.raw_payload "$.speed") ≡ some false =
          rw carried.0 found in
        let unread : row.reading.speed ≡ none =
          ap (λ (r : Reading). r.speed) reading ∙ ap as_double h in
        sql.speed_type_valid row
        ∙ ap (λ b. or3 b (is_not_null row.reading.speed)) seen
        ∙ ap is_not_null unread

  -- The message is refuted by the rule for its corruption.
  abbrev IsRefuted : ℕ → Payload → Type 0
  IsRefuted i q =
      IsCodec dumps from_json s q → IsCarried q → evaluate (catching i).expression row ≡ some false

  module _ {R : Type 0} ⦃f : Float R⦄ (e : TelemetryEvent R) where
    outside :
        (q : Payload) (rule : Rule) (sees : Reading → Option Bool)
        → evaluate rule.expression row ≡ sees row.reading
        → sees (parsed q) ≡ some false
        → IsSent q
        → IsCodec dumps from_json s q
        → IsCarried q
        → evaluate rule.expression row ≡ some false
    outside q rule sees e h sent codec carried = refuted q codec carried sent rule sees e h

    negated :
        (q : Payload) (v : ℤ)
        → speed_or_ten (to_dict e).speed ≡ some v
        → corrupt (to_dict e) "negative_speed" ≡ some q
        → IsRefuted 1 q
    unfolding corrupt negate_speed to_dict parsed
    negated q v o h = subst (IsRefuted 1) (some_inj.0 (ap (negate_speed (to_dict e)) (sym o) ∙ h)) (
        outside (record (to_dict e) { speed = num (minus (pos (magnitude v)) -ℤ tenths 5 0) })
          Standard.speed_non_negative (λ r. or3 (is_null r.speed) (at_least (pos 0) r.speed))
          (sql.speed_non_negative row) (below_zero (magnitude v)) (is_text-optional e.route_id))

    -- What the message carries is refuted by the rule for its corruption.
    pub refuted_by :
        (i : ℕ) (q : Payload) → corrupt (to_dict e) (kind_at i) ≡ some q → IsRefuted i q
    unfolding corrupt to_dict parsed
    refuted_by zero q h = subst (IsRefuted 0) (some_inj.0 h) (
        outside (record (to_dict e) { vehicle_id = null }) Standard.vehicle_id_not_null
          (λ r. is_named s r.vehicle_id) (sql.vehicle_id_not_null row) refl
          (is_text-optional e.route_id))
    refuted_by (suc zero) q h = let (v, o) = speed_or_ten_num (f.round e.speed 2) in negated q v o h
    refuted_by (suc (suc zero)) q h = subst (IsRefuted 2) (some_inj.0 h) (
        outside (record (to_dict e) { fuel_level = num (tenths 142 7) }) Standard.fuel_level_range
          (λ r. within (pos 0) (pos 100_000_000) r.fuel_level) (sql.fuel_level_range row) refl
          (is_text-optional e.route_id))
    refuted_by (suc (suc (suc zero))) q h = subst (IsRefuted 3) (some_inj.0 h) (
        outside (record (to_dict e) { latitude = num (tenths 118 4) }) Standard.latitude_range
          (λ r. within (negsuc 89_999_999) (pos 90_000_000) r.latitude) (sql.latitude_range row)
          refl (is_text-optional e.route_id))
    refuted_by (suc (suc (suc (suc zero)))) q h = subst (IsRefuted 4) (some_inj.0 h) (
        outside (record (to_dict e) { longitude = num (minus (tenths 241 9)) })
          Standard.longitude_range (λ r. within (negsuc 179_999_999) (pos 180_000_000) r.longitude)
          (sql.longitude_range row) refl (is_text-optional e.route_id))
    refuted_by (suc (suc (suc (suc (suc zero))))) q h = subst (IsRefuted 5) (some_inj.0 h) (
        outside (record (to_dict e) { battery_level = num (minus (tenths 12 5)) })
          Standard.battery_level_range (λ r. within (pos 0) (pos 100_000_000) r.battery_level)
          (sql.battery_level_range row) refl (is_text-optional e.route_id))
    refuted_by (suc (suc (suc (suc (suc (suc zero)))))) q h = subst (IsRefuted 6) (some_inj.0 h) (
        outside (record (to_dict e) { event_time = null }) Standard.event_time_not_null
          (λ r. is_not_null r.event_time) (sql.event_time_not_null row) refl
          (is_text-optional e.route_id))
    refuted_by (suc (suc (suc (suc (suc (suc (suc zero))))))) q h =
        subst (IsRefuted 7) (some_inj.0 h) (
          outside (record (to_dict e) { engine_temperature = num (tenths 934 0) })
            Standard.engine_temperature_range
            (λ r. within (negsuc 49_999_999) (pos 200_000_000) r.engine_temperature)
            (sql.engine_temperature_range row) refl (is_text-optional e.route_id))
    refuted_by (suc (suc (suc (suc (suc (suc (suc (suc zero)))))))) q h =
        subst (IsRefuted 8) (some_inj.0 h) λ codec carried.
          untyped (record (to_dict e) { speed = text "seventy-two" }) codec carried
            (is_text-optional e.route_id) refl
    refuted_by (suc (suc (suc (suc (suc (suc (suc (suc (suc i))))))))) q h =
        subst (IsRefuted 0) (some_inj.0 h) (
          outside (record (to_dict e) { vehicle_id = null }) Standard.vehicle_id_not_null
            (λ r. is_named s r.vehicle_id) (sql.vehicle_id_not_null row) refl
            (is_text-optional e.route_id))
