-- ===== src/Tests/Operating.antt =====
-- Incidents and maintenance at concrete inputs.
use fleet_stream_real_time_f.Prelude.{
  if◌then◌else◌, str_eq, Option, none, ℕ, suc, String, some, false, List, [], ◌∷◌, ◌≡◌, inl, inr,
  refl, Elem,
}
use fleet_stream_real_time_f.Prelude.Int.{pos}
use fleet_stream_real_time_f.Silver.Rows.{Reading}
use fleet_stream_real_time_f.Incidents.{
  Incident, engine_critical_overheat, detect, incident_type, severity, critical,
}
use fleet_stream_real_time_f.Bronze.{KafkaMessage}
use fleet_stream_real_time_f.Incidents.Publish.{
  Published, IsReportOf, keyed, publish, publish-reports, publish-IsClassified,
}
use fleet_stream_real_time_f.Maintenance.{
  Statement, Reply, ok, raised, Row, maintain_all, exit_code, silent_failure,
}
use fleet_stream_real_time_f.Tests.Batching.{reading}

abbrev hot : Reading
hot = record (reading "h" (pos 50_000_000)) { engine_temperature = some (pos 120_000_000) }

abbrev normal : Reading
normal = reading "n" (pos 50_000_000)

abbrev carrying : String → KafkaMessage
carrying value = record {
  value = some value;
  topic = "fleet.telemetry.raw";
  partition = 0;
  offset = 5;
  timestamp = pos 0;
}

abbrev read_as : Option String → Reading
read_as none = normal
read_as (some s) = if str_eq s "hot" then hot else normal

abbrev messages : List KafkaMessage
messages = carrying "normal" ∷ carrying "hot" ∷ []

publish-reports_example :
    (p : Published) × Elem p (publish read_as (pos 0) messages)
    × IsReportOf read_as (carrying "hot") p
publish-reports_example =
    publish-reports read_as (pos 0) (carrying "hot") messages (inr (inl refl)) (inl refl)

abbrev alarm : Incident
alarm = record {
  reading = hot;
  incident_type = engine_critical_overheat;
  severity = critical;
  detected_at = pos 0;
}

alarm_published : Elem (keyed alarm) (publish read_as (pos 0) messages)
unfolding publish keyed detect incident_type severity
alarm_published = inl refl

publish-IsClassified_example :
    (m : KafkaMessage) × Elem m messages × IsReportOf read_as m (keyed alarm)
publish-IsClassified_example =
    publish-IsClassified read_as (pos 0) (keyed alarm) messages alarm_published

-- a catalog that answers every statement and counts them
abbrev pub answers : Statement → ℕ → Reply (List Row) × ℕ
answers s n = (ok ((some 7, some 2) ∷ []), suc n)

abbrev refuses : Statement → ℕ → Reply (List Row) × ℕ
refuses s n = (raised "", suc n)

abbrev two_tables : List String
two_tables = "fleetstream.bronze.telemetry" ∷ "fleetstream.silver.telemetry" ∷ []

silent_failure_example :
    exit_code (maintain_all refuses 1_000_000 128 72 24 false two_tables 0).0 ≡ 0
silent_failure_example = silent_failure refuses (λ s c. refl) 1_000_000 128 72 24 false two_tables 0
