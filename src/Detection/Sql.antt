-- ===== src/Detection/Sql.antt =====
-- The predicates of src/fleetstream/quality/rules.yml, in the three-valued logic of SQL: NULL is `none`.
use fleet_stream_real_time_f.Prelude.{
  String, str_eq, Option, none, some, Bool, true, false, not, ◌≡◌,
}
use fleet_stream_real_time_f.Prelude.Int.{ℤ, pos, negsuc, ltb_ℤ}
use fleet_stream_real_time_f.Quality.Standard
use fleet_stream_real_time_f.Silver.Rows.{BronzeRow}

abbrev pub or3 : Option Bool → Option Bool → Option Bool
or3 (some true) b = some true
or3 (some false) b = b
or3 none (some true) = some true
or3 none _ = none

abbrev pub and3 : Option Bool → Option Bool → Option Bool
and3 (some false) b = some false
and3 (some true) b = b
and3 none (some false) = some false
and3 none _ = none

abbrev pub is_null : {A : Type 0} → Option A → Option Bool
is_null none = some true
is_null (some a) = some false

abbrev pub is_not_null : {A : Type 0} → Option A → Option Bool
is_not_null none = some false
is_not_null (some a) = some true

-- column >= t, and column <= t
abbrev pub at_least : ℤ → Option ℤ → Option Bool
at_least t none = none
at_least t (some v) = some (not (ltb_ℤ v t))

abbrev pub at_most : ℤ → Option ℤ → Option Bool
at_most t none = none
at_most t (some v) = some (not (ltb_ℤ t v))

abbrev pub within : ℤ → ℤ → Option ℤ → Option Bool
within low high v = or3 (is_null v) (and3 (at_least low v) (at_most high v))

-- What Spark does beside the comparisons: whether a text has a character that is no space, what stands at a
-- path of a JSON text, and the clock.
pub record Functions : Type 0 where
  pub is_nonblank : String → Bool
  pub json_object : Option String → String → Option String
  pub tomorrow : ℤ

module _ (s : Functions) where
  abbrev pub nonblank : Option String → Option Bool
  nonblank none = none
  nonblank (some t) = some (s.is_nonblank t)

  abbrev pub is_named : Option String → Option Bool
  is_named id = and3 (is_not_null id) (nonblank id)

  abbrev pub one_version : Option String → Option Bool
  one_version none = none
  one_version (some v) = some (str_eq v "1.0")

  -- a column that is NULL only where the payload has no value for it
  abbrev pub is_typed : String → BronzeRow → Option ℤ → Option Bool
  is_typed path row v = or3 (is_null (s.json_object row.raw_payload path)) (is_not_null v)

  -- The evaluation of the predicates, each as its SQL reads.
  pub record IsSql (evaluate : String → BronzeRow → Option Bool) : Type 0 where
    pub vehicle_id_not_null :
        (row : BronzeRow)
        → evaluate Standard.vehicle_id_not_null.expression row ≡ is_named row.reading.vehicle_id
    pub event_id_not_null :
        (row : BronzeRow)
        → evaluate Standard.event_id_not_null.expression row ≡ is_named row.reading.event_id
    pub event_time_not_null :
        (row : BronzeRow)
        → evaluate Standard.event_time_not_null.expression row ≡ is_not_null row.reading.event_time
    pub trip_id_not_null :
        (row : BronzeRow)
        → evaluate Standard.trip_id_not_null.expression row ≡ is_named row.reading.trip_id
    pub speed_type_valid :
        (row : BronzeRow)
        → evaluate Standard.speed_type_valid.expression row
          ≡ is_typed "$.speed" row row.reading.speed
    pub fuel_level_type_valid :
        (row : BronzeRow)
        → evaluate Standard.fuel_level_type_valid.expression row
          ≡ is_typed "$.fuel_level" row row.reading.fuel_level
    pub engine_temperature_type_valid :
        (row : BronzeRow)
        → evaluate Standard.engine_temperature_type_valid.expression row
          ≡ is_typed "$.engine_temperature" row row.reading.engine_temperature
    pub speed_non_negative :
        (row : BronzeRow)
        → evaluate Standard.speed_non_negative.expression row
          ≡ or3 (is_null row.reading.speed) (at_least (pos 0) row.reading.speed)
    pub speed_within_plausible_max :
        (row : BronzeRow)
        → evaluate Standard.speed_within_plausible_max.expression row
          ≡ or3 (is_null row.reading.speed) (at_most (pos 200_000_000) row.reading.speed)
    pub fuel_level_range :
        (row : BronzeRow)
        → evaluate Standard.fuel_level_range.expression row
          ≡ within (pos 0) (pos 100_000_000) row.reading.fuel_level
    pub battery_level_range :
        (row : BronzeRow)
        → evaluate Standard.battery_level_range.expression row
          ≡ within (pos 0) (pos 100_000_000) row.reading.battery_level
    pub engine_temperature_range :
        (row : BronzeRow)
        → evaluate Standard.engine_temperature_range.expression row
          ≡ within (negsuc 49_999_999) (pos 200_000_000) row.reading.engine_temperature
    pub latitude_range :
        (row : BronzeRow)
        → evaluate Standard.latitude_range.expression row
          ≡ within (negsuc 89_999_999) (pos 90_000_000) row.reading.latitude
    pub longitude_range :
        (row : BronzeRow)
        → evaluate Standard.longitude_range.expression row
          ≡ within (negsuc 179_999_999) (pos 180_000_000) row.reading.longitude
    pub odometer_non_negative :
        (row : BronzeRow)
        → evaluate Standard.odometer_non_negative.expression row
          ≡ or3 (is_null row.reading.odometer_km) (at_least (pos 0) row.reading.odometer_km)
    pub event_time_not_in_future :
        (row : BronzeRow)
        → evaluate Standard.event_time_not_in_future.expression row
          ≡ or3 (is_null row.reading.event_time) (at_most s.tomorrow row.reading.event_time)
    pub event_time_not_ancient :
        (row : BronzeRow)
        → evaluate Standard.event_time_not_ancient.expression row
          ≡ or3
              (is_null row.reading.event_time)
              (at_least (pos 1_577_836_800_000_000) row.reading.event_time)
    pub schema_version_known :
        (row : BronzeRow)
        → evaluate Standard.schema_version_known.expression row
          ≡ or3 (is_null row.reading.schema_version) (one_version row.reading.schema_version)
