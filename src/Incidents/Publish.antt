-- ===== src/Incidents/Publish.antt =====
-- The query of `main` in src/fleetstream/streaming/incident_detector.py: from messages of telemetry to messages of
-- incidents. The parser of JSON is a parameter, and what is published is the incident that becomes its text.
use mathlib.Core.Path.{subst}
use fleet_stream_real_time_f.Prelude.{
  String, Option, List, map, ◌≡◌, sym, ap, Elem, Elem-map, elem_map,
}
use fleet_stream_real_time_f.Prelude.Int.{ℤ}
use fleet_stream_real_time_f.Silver.Rows.{Reading}
use fleet_stream_real_time_f.Bronze.{KafkaMessage}
use fleet_stream_real_time_f.Incidents.{
  IncidentType, Severity, Incident, IsIncident, IsOfType, IsClassified, detect, detect-reports,
  detect-IsClassified,
}

-- the columns that are published
pub record IncidentPayload : Type 0 where
  pub event_id : Option String
  pub vehicle_id : Option String
  pub driver_id : Option String
  pub trip_id : Option String
  pub event_time : Option ℤ
  pub incident_type : IncidentType
  pub severity : Severity
  pub speed : Option ℤ
  pub engine_temperature : Option ℤ
  pub fuel_level : Option ℤ
  pub battery_level : Option ℤ
  pub latitude : Option ℤ
  pub longitude : Option ℤ
  pub detected_at : ℤ

unfoldable pub payload : Incident → IncidentPayload
payload i =
    let r = i.reading in
    record {
      event_id = r.event_id;
      vehicle_id = r.vehicle_id;
      driver_id = r.driver_id;
      trip_id = r.trip_id;
      event_time = r.event_time;
      incident_type = i.incident_type;
      severity = i.severity;
      speed = r.speed;
      engine_temperature = r.engine_temperature;
      fuel_level = r.fuel_level;
      battery_level = r.battery_level;
      latitude = r.latitude;
      longitude = r.longitude;
      detected_at = i.detected_at;
    }

-- a message for the topic of incidents
pub record Published : Type 0 where
  pub key : Option String
  pub value : IncidentPayload

-- keyed by the vehicle
unfoldable pub keyed : Incident → Published
unfolding payload
keyed i = record { key = i.reading.vehicle_id; value = payload i }

module _ (from_json : Option String → Reading) where
  abbrev pub parse : KafkaMessage → Reading
  parse m = from_json m.value

  unfoldable pub publish : ℤ → List KafkaMessage → List Published
  unfolding detect
  publish now messages = map keyed (detect now (map parse messages))

  elem_publish :
      (now : ℤ) (i : Incident) (messages : List KafkaMessage)
      → Elem i (detect now (map parse messages))
      → Elem (keyed i) (publish now messages)
  unfolding publish
  elem_publish now i messages h = Elem-map keyed i (detect now (map parse messages)) h

  -- What is published of a message: under its vehicle, its columns, and the first type that applies to it with the
  -- severity of that type.
  abbrev pub IsReportOf : KafkaMessage → Published → Type 0
  IsReportOf m p =
      let r = from_json m.value in
      let v = p.value in
      (p.key ≡ r.vehicle_id)
      × ((v.event_id ≡ r.event_id)
          × (v.vehicle_id ≡ r.vehicle_id)
          × (v.driver_id ≡ r.driver_id)
          × (v.trip_id ≡ r.trip_id)
          × (v.event_time ≡ r.event_time))
      × ((v.speed ≡ r.speed)
          × (v.engine_temperature ≡ r.engine_temperature)
          × (v.fuel_level ≡ r.fuel_level)
          × (v.battery_level ≡ r.battery_level)
          × (v.latitude ≡ r.latitude)
          × (v.longitude ≡ r.longitude))
      × IsOfType r v.incident_type v.severity

  -- the report of an incident
  keyed-IsReportOf :
      (m : KafkaMessage) (i : Incident)
      → i.reading ≡ from_json m.value
      → IsClassified i
      → IsReportOf m (keyed i)
  unfolding keyed payload
  keyed-IsReportOf m i same classified =
      let of_reading : (field : Reading → Option String)
          → field i.reading ≡ field (from_json m.value) =
        λ field. ap field same in
      let of_number : (field : Reading → Option ℤ) → field i.reading ≡ field (from_json m.value) =
        λ field. ap field same in
      (
        of_reading (λ r. r.vehicle_id),
        (
          of_reading (λ r. r.event_id),
          of_reading (λ r. r.vehicle_id),
          of_reading (λ r. r.driver_id),
          of_reading (λ r. r.trip_id),
          of_number (λ r. r.event_time),
        ),
        (
          of_number (λ r. r.speed),
          of_number (λ r. r.engine_temperature),
          of_number (λ r. r.fuel_level),
          of_number (λ r. r.battery_level),
          of_number (λ r. r.latitude),
          of_number (λ r. r.longitude),
        ),
        subst (λ r. IsOfType r i.incident_type i.severity) same classified,
      )

  -- What is published reports, under its vehicle as key and with its columns, a message whose reading is hot, fast, or
  -- low on fuel or battery: the type is the first that applies, in the order hotter than 115 degrees, hotter than 100,
  -- faster than 140 km/h, fuel below 10 percent, battery below 20, and the severity critical, high, high, medium, medium.
  pub publish-IsClassified :
      (now : ℤ) (p : Published) (messages : List KafkaMessage)
      → Elem p (publish now messages)
      → (m : KafkaMessage) × Elem m messages × IsReportOf m p
  unfolding publish
  publish-IsClassified now p messages h =
      let (i, e, same) = elem_map keyed p (detect now (map parse messages)) h in
      let (in_parsed, classified) = detect-IsClassified now i (map parse messages) e in
      let (m, there, read) = elem_map parse i.reading messages in_parsed in
      (m, there, subst (IsReportOf m) (sym same) (keyed-IsReportOf m i read classified))

  -- Of every message whose reading is hot, fast, or low on fuel or battery, a report is published, under its vehicle as
  -- key and with its columns, the first type that applies and the severity of that type.
  pub publish-reports :
      (now : ℤ) (m : KafkaMessage) (messages : List KafkaMessage)
      → Elem m messages
      → IsIncident (parse m)
      → (p : Published) × Elem p (publish now messages) × IsReportOf m p
  publish-reports now m messages there incident =
      let (i, e, same) =
        detect-reports now (parse m) (map parse messages) (Elem-map parse m messages there)
          incident in
      let (_, classified) = detect-IsClassified now i (map parse messages) e in
      (keyed i, elem_publish now i messages e, keyed-IsReportOf m i same classified)
