-- ===== src/Detection/Wire.antt =====
-- What a payload that the producer sends becomes in Bronze: json.dumps of src/fleetstream/simulator/producer.py,
-- then from_json against the schema of src/fleetstream/common/schemas.py.
use fleet_stream_real_time_f.Prelude.{
  ◌*◌, String, str_eq, Option, none, some, Bool, true, false, ◌&&◌, ◌≡◌, ◌≢◌,
}
use fleet_stream_real_time_f.Prelude.Int.{ℤ, pos}
use fleet_stream_real_time_f.Payload.{Json, null, num, text, stamp, Payload}
use fleet_stream_real_time_f.Silver.Rows.{Reading}
use fleet_stream_real_time_f.Detection.Sql.{Functions, is_null}

-- Columns of type STRING, DOUBLE and TIMESTAMP, of the values that a payload of the simulator has there: a
-- number that is sent as a text, which is none, is NULL.
abbrev pub as_string : Json → Option String
as_string (text s) = some s
as_string _ = none

abbrev pub as_double : Json → Option ℤ
as_double (num z) = some z
as_double _ = none

abbrev pub as_timestamp : Json → Option ℤ
as_timestamp (stamp t) = some (pos (t * 1000))
as_timestamp _ = none

unfoldable pub parsed : Payload → Reading
parsed p = record {
  event_id = as_string p.event_id;
  vehicle_id = as_string p.vehicle_id;
  driver_id = as_string p.driver_id;
  trip_id = as_string p.trip_id;
  route_id = as_string p.route_id;
  event_time = as_timestamp p.event_time;
  latitude = as_double p.latitude;
  longitude = as_double p.longitude;
  speed = as_double p.speed;
  fuel_level = as_double p.fuel_level;
  engine_temperature = as_double p.engine_temperature;
  battery_level = as_double p.battery_level;
  odometer_km = as_double p.odometer_km;
  schema_version = as_string p.schema_version;
}

-- The values that the columns can have on this way.
abbrev pub is_text : Json → Bool
is_text null = true
is_text (text s) = true
is_text _ = false

abbrev is_number : Json → Bool
is_number null = true
is_number (num z) = true
is_number (text s) = str_eq s "seventy-two"
is_number _ = false

abbrev is_stamp : Json → Bool
is_stamp null = true
is_stamp (stamp t) = true
is_stamp _ = false

abbrev is_sent : Payload → Bool
is_sent p =
    is_text p.event_id
    && (is_text p.vehicle_id
        && (is_text p.driver_id
            && (is_text p.trip_id
                && (is_text p.schema_version
                    && (is_stamp p.event_time
                        && (is_number p.latitude
                            && (is_number p.longitude
                                && (is_number p.speed
                                    && (is_number p.fuel_level
                                        && (is_number p.engine_temperature
                                            && (is_number p.battery_level
                                                && (is_number p.odometer_km
                                                    && is_text p.route_id))))))))))))

abbrev pub IsSent : Payload → Type 0
IsSent p = is_sent p ≡ true

-- What the two libraries do with a payload, and what get_json_object finds in its text.
pub record IsCodec (dumps : Payload → String) (from_json : Option String → Reading) (s : Functions)
    (p : Payload) : Type 0 where
  pub read : IsSent p → from_json (some (dumps p)) ≡ parsed p
  pub speed_found :
      IsSent p → p.speed ≢ null → is_null (s.json_object (some (dumps p)) "$.speed") ≡ some false
