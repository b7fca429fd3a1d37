-- ===== src/Payload.antt =====
-- The telemetry record on the wire: `TelemetryEvent` and `to_dict` of
-- src/fleetstream/simulator/vehicle.py, `corrupt` of src/fleetstream/simulator/generator.py.
use fleet_stream_real_time_f.Prelude.{
  ℕ, suc, ◌+◌, ◌*◌, ◌/◌, zero, String, str_eq, Option, none, some, [], ◌∷◌, if◌then◌else◌,
}
use fleet_stream_real_time_f.Prelude.Int.{ℤ, pos, negsuc, pos_part, neg_part, ◌-ℤ◌}
use fleet_stream_real_time_f.Float.{Float}
use fleet_stream_real_time_f.Random.{Choices}

-- A reading, before it is put on the wire. Instants are microseconds.
pub record TelemetryEvent (R : Type 0) : Type 0 where
  pub event_id : String
  pub vehicle_id : String
  pub driver_id : String
  pub trip_id : String
  pub route_id : Option String
  pub event_time : ℕ
  pub latitude : R
  pub longitude : R
  pub speed : R
  pub fuel_level : R
  pub engine_temperature : R
  pub battery_level : R
  pub odometer_km : R
  pub schema_version : String

-- A value of the JSON mapping. Numbers are decimals of at most six places, in millionths; `stamp`
-- is the ISO-8601 text of an instant, in milliseconds.
pub data Json : Type 0 where
  null : Json
  num : ℤ → Json
  text : String → Json
  stamp : ℕ → Json

pub record Payload : Type 0 where
  pub event_id : Json
  pub vehicle_id : Json
  pub driver_id : Json
  pub trip_id : Json
  pub route_id : Json
  pub event_time : Json
  pub latitude : Json
  pub longitude : Json
  pub speed : Json
  pub fuel_level : Json
  pub engine_temperature : Json
  pub battery_level : Json
  pub odometer_km : Json
  pub schema_version : Json

abbrev pub optional_text : Option String → Json
optional_text none = null
optional_text (some s) = text s

unfoldable pub to_dict : {R : Type 0} ⦃f : Float R⦄ → TelemetryEvent R → Payload
to_dict ⦃f⦄ e = record {
  event_id = text e.event_id;
  vehicle_id = text e.vehicle_id;
  driver_id = text e.driver_id;
  trip_id = text e.trip_id;
  route_id = optional_text e.route_id;
  event_time = stamp (e.event_time / 1000);
  latitude = num (f.round e.latitude 6);
  longitude = num (f.round e.longitude 6);
  speed = num (f.round e.speed 2);
  fuel_level = num (f.round e.fuel_level 2);
  engine_temperature = num (f.round e.engine_temperature 2);
  battery_level = num (f.round e.battery_level 2);
  odometer_km = num (f.round e.odometer_km 3);
  schema_version = text e.schema_version;
}

-- The decimal with the given whole part and tenths.
abbrev pub tenths : ℕ → ℕ → ℤ
tenths n t = pos (n * 1_000_000 + t * 100_000)

abbrev pub minus : ℤ → ℤ
minus z = ◌-ℤ◌ (pos 0) z

-- float(p.get("speed") or 10.0), where the speed is no text: float() of a text may raise.
unfoldable pub speed_or_ten : Json → Option ℤ
speed_or_ten null = some (tenths 10 0)
speed_or_ten (num (pos n)) = elim n [ zero ↦ some (tenths 10 0) | suc m ↦ some (pos (suc m)) ]
speed_or_ten (num (negsuc n)) = some (negsuc n)
speed_or_ten (text s) = none
speed_or_ten (stamp t) = none

abbrev pub magnitude : ℤ → ℕ
magnitude z = pos_part z + neg_part z

unfoldable pub negate_speed : Payload → Option ℤ → Option Payload
unfolding ◌-ℤ◌
negate_speed p none = none
negate_speed p (some v) = some (record p { speed = num (minus (pos (magnitude v)) -ℤ tenths 5 0) })

abbrev pub corruptions : Choices String
corruptions = record {
  first = "null_vehicle_id";
  rest =
      "negative_speed" ∷ "fuel_out_of_range" ∷ "latitude_out_of_range" ∷ "longitude_out_of_range"
      ∷ "battery_out_of_range" ∷ "missing_event_time" ∷ "absurd_engine_temperature"
      ∷ "unparseable_speed" ∷ [];
}

-- `none` is a ValueError: an unknown kind, or a speed that is no number.
unfoldable pub corrupt : Payload → String → Option Payload
unfolding speed_or_ten negate_speed ◌-ℤ◌
corrupt p kind =
    if str_eq kind "null_vehicle_id"
    then some (record p { vehicle_id = null })
    else if str_eq kind "negative_speed"
    then negate_speed p (speed_or_ten p.speed)
    else if str_eq kind "fuel_out_of_range"
    then some (record p { fuel_level = num (tenths 142 7) })
    else if str_eq kind "latitude_out_of_range"
    then some (record p { latitude = num (tenths 118 4) })
    else if str_eq kind "longitude_out_of_range"
    then some (record p { longitude = num (minus (tenths 241 9)) })
    else if str_eq kind "battery_out_of_range"
    then some (record p { battery_level = num (minus (tenths 12 5)) })
    else if str_eq kind "missing_event_time"
    then some (record p { event_time = null })
    else if str_eq kind "absurd_engine_temperature"
    then some (record p { engine_temperature = num (tenths 934 0) })
    else if str_eq kind "unparseable_speed"
    then some (record p { speed = text "seventy-two" })
    else none
