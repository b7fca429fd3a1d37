-- ===== src/Incidents.antt =====
-- `detect` of src/fleetstream/streaming/incident_detector.py. A comparison with NULL is not TRUE, so
-- that `F.when` passes over it.
pub mod Publish
use mathlib.Core.Path.{subst}
use fleet_stream_real_time_f.Prelude.{
  Option, none, some, Bool, true, false, List, [], ◌∷◌, ◌≡◌, ◌⊎◌, ◌↔◌, inl, inr, refl, sym, ap, ◌∙◌,
  Elem, arith, if◌then◌else◌,
}
use fleet_stream_real_time_f.Prelude.Int.{ℤ, pos, ltb_ℤ}
use fleet_stream_real_time_f.Silver.Rows.{Reading}

-- the incident types, by the names that the code gives them
pub data IncidentType : Type 0 where
  engine_critical_overheat : IncidentType
  engine_overheat : IncidentType
  severe_overspeed : IncidentType
  low_fuel : IncidentType
  low_battery : IncidentType

pub data Severity : Type 0 where
  critical : Severity
  high : Severity
  medium : Severity

-- column > t, and column < t
abbrev pub is_above : ℤ → Option ℤ → Bool
is_above t none = false
is_above t (some v) = ltb_ℤ t v

abbrev pub is_below : ℤ → Option ℤ → Bool
is_below t none = false
is_below t (some v) = ltb_ℤ v t

unfoldable pub incident_type : Reading → Option IncidentType
incident_type r =
    if is_above (pos 115_000_000) r.engine_temperature
    then some engine_critical_overheat
    else if is_above (pos 100_000_000) r.engine_temperature
    then some engine_overheat
    else if is_above (pos 140_000_000) r.speed
    then some severe_overspeed
    else if is_below (pos 10_000_000) r.fuel_level
    then some low_fuel
    else if is_below (pos 20_000_000) r.battery_level
    then some low_battery
    else none

unfoldable pub severity : IncidentType → Severity
severity engine_critical_overheat = critical
severity engine_overheat = high
severity severe_overspeed = high
severity low_fuel = medium
severity low_battery = medium

pub record Incident : Type 0 where
  pub reading : Reading
  pub incident_type : IncidentType
  pub severity : Severity
  pub detected_at : ℤ

abbrev pub classified : ℤ → Reading → Option IncidentType → List Incident → List Incident
classified now r none rest = rest
classified now r (some t) rest =
    record { reading = r; incident_type = t; severity = severity t; detected_at = now } ∷ rest

unfoldable pub detect : ℤ → List Reading → List Incident
unfolding incident_type severity
detect now [] = []
detect now (r ∷ parsed) = classified now r (incident_type r) (detect now parsed)

-- A reading is reported if it is hot, fast, or low on fuel or battery.
abbrev pub IsIncident : Reading → Type 0
IsIncident r =
    (is_above (pos 100_000_000) r.engine_temperature ≡ true)
    ⊎ (is_above (pos 140_000_000) r.speed ≡ true)
    ⊎ (is_below (pos 10_000_000) r.fuel_level ≡ true)
    ⊎ (is_below (pos 20_000_000) r.battery_level ≡ true)

abbrev ranked : Bool → Bool → Bool → Bool → Bool → Option IncidentType
ranked a b c d e =
    if a
    then some engine_critical_overheat
    else if b
    then some engine_overheat
    else if c
    then some severe_overspeed
    else if d
    then some low_fuel
    else if e
    then some low_battery
    else none

some-ranked :
    (a b c d e : Bool)
    → (b ≡ true) ⊎ (c ≡ true) ⊎ (d ≡ true) ⊎ (e ≡ true)
    → (t : IncidentType) × (ranked a b c d e ≡ some t)
some-ranked true b c d e h = (engine_critical_overheat, refl)
some-ranked false true c d e h = (engine_overheat, refl)
some-ranked false false true d e h = (severe_overspeed, refl)
some-ranked false false false true e h = (low_fuel, refl)
some-ranked false false false false true h = (low_battery, refl)
some-ranked false false false false false h = absurd (none_of h)
  where
    none_of : (false ≡ true) ⊎ (false ≡ true) ⊎ (false ≡ true) ⊎ (false ≡ true) → ⊥
    none_of (inl e) = cc
    none_of (inr (inl e)) = cc
    none_of (inr (inr (inl e))) = cc
    none_of (inr (inr (inr e))) = cc

some_eq : {a b : IncidentType} → some a ≡ some b → a ≡ b
some_eq e = cc

-- the first type that applies, and its severity
abbrev pub IsFirst : Bool → Bool → Bool → Bool → Bool → IncidentType → Severity → Type 0
IsFirst a b c d e t s =
    ((a ≡ true) × (t ≡ engine_critical_overheat) × (s ≡ critical))
    ⊎ ((a ≡ false) × (b ≡ true) × (t ≡ engine_overheat) × (s ≡ high))
    ⊎ ((a ≡ false) × (b ≡ false) × (c ≡ true) × (t ≡ severe_overspeed) × (s ≡ high))
    ⊎ ((a ≡ false) × (b ≡ false) × (c ≡ false) × (d ≡ true) × (t ≡ low_fuel) × (s ≡ medium))
    ⊎ ((a ≡ false)
        × (b ≡ false)
        × (c ≡ false)
        × (d ≡ false)
        × (e ≡ true)
        × (t ≡ low_battery)
        × (s ≡ medium))

ranked-IsFirst :
    (a b c d e : Bool) (t : IncidentType)
    → ranked a b c d e ≡ some t
    → IsFirst a b c d e t (severity t)
unfolding severity
ranked-IsFirst true b c d e t h = let p = sym (some_eq h) in inl (refl, p, ap severity p)
ranked-IsFirst false true c d e t h =
    let p = sym (some_eq h) in inr (inl (refl, refl, p, ap severity p))
ranked-IsFirst false false true d e t h =
    let p = sym (some_eq h) in inr (inr (inl (refl, refl, refl, p, ap severity p)))
ranked-IsFirst false false false true e t h =
    let p = sym (some_eq h) in inr (inr (inr (inl (refl, refl, refl, refl, p, ap severity p))))
ranked-IsFirst false false false false true t h =
    let p = sym (some_eq h) in
    inr (inr (inr (inr (refl, refl, refl, refl, refl, p, ap severity p))))
ranked-IsFirst false false false false false t h = cc

IsIncident-incident_type :
    (r : Reading) → IsIncident r → (t : IncidentType) × (incident_type r ≡ some t)
unfolding incident_type
IsIncident-incident_type r h =
    some-ranked (is_above (pos 115_000_000) r.engine_temperature) _ _ _ _ h

-- Hotter than 115 degrees, hotter than 100, faster than 140 km/h, fuel below 10 percent, battery below 20.
abbrev pub IsOfType : Reading → IncidentType → Severity → Type 0
IsOfType r =
    IsFirst (is_above (pos 115_000_000) r.engine_temperature)
      (is_above (pos 100_000_000) r.engine_temperature) (is_above (pos 140_000_000) r.speed)
      (is_below (pos 10_000_000) r.fuel_level) (is_below (pos 20_000_000) r.battery_level)

incident_type-IsOfType :
    (r : Reading) (t : IncidentType) → incident_type r ≡ some t → IsOfType r t (severity t)
unfolding incident_type
incident_type-IsOfType r t h =
    ranked-IsFirst (is_above (pos 115_000_000) r.engine_temperature) _ _ _ _ t h

-- what an incident says of its reading
abbrev pub IsClassified : Incident → Type 0
IsClassified i = IsOfType i.reading i.incident_type i.severity

classified-reports :
    (now : ℤ) (r : Reading) (o : Option IncidentType) (rest : List Incident) (t : IncidentType)
    → o ≡ some t
    → (i : Incident) × Elem i (classified now r o rest) × (i.reading ≡ r)
classified-reports now r none rest t h = cc
classified-reports now r (some u) rest t h = (
  record { reading = r; incident_type = u; severity = severity u; detected_at = now },
  inl refl,
  refl,
)

classified_later :
    (now : ℤ) (r : Reading) (o : Option IncidentType) (rest : List Incident) (i : Incident)
    → Elem i rest
    → Elem i (classified now r o rest)
classified_later now r none rest i h = h
classified_later now r (some u) rest i h = inr h

-- Every reading that is hot, fast, or low on fuel or battery is reported.
pub detect-reports :
    (now : ℤ) (r : Reading) (parsed : List Reading)
    → Elem r parsed
    → IsIncident r
    → (i : Incident) × Elem i (detect now parsed) × (i.reading ≡ r)
unfolding detect
detect-reports now r [] h k = absurd h
detect-reports now r (x ∷ parsed) (inl e) k =
    let (t, p) = IsIncident-incident_type r k in
    let (i, here, same) =
      classified-reports now x (incident_type x) (detect now parsed) t
        (ap incident_type (sym e) ∙ p) in
    (i, here, same ∙ sym e)
detect-reports now r (x ∷ parsed) (inr h) k =
    let (i, there, same) = detect-reports now r parsed h k in
    (i, classified_later now x (incident_type x) (detect now parsed) i there, same)

made-IsClassified :
    (now : ℤ) (r : Reading) (t : IncidentType)
    → incident_type r ≡ some t
    → IsClassified
        (record { reading = r; incident_type = t; severity = severity t; detected_at = now })
made-IsClassified now r t h = incident_type-IsOfType r t h

from_classified :
    (now : ℤ) (r : Reading) (o : Option IncidentType) (rest : List Incident) (parsed : List Reading)
    (i : Incident)
    → incident_type r ≡ o
    → (Elem i rest → Elem i.reading parsed × IsClassified i)
    → Elem i (classified now r o rest)
    → Elem i.reading (r ∷ parsed) × IsClassified i
from_classified now r none rest parsed i e ih h = (inr (ih h).0, (ih h).1)
from_classified now r (some t) rest parsed i e ih (inl k) = (
  inl (ap (λ (x : Incident). x.reading) k),
  subst IsClassified (sym k) (made-IsClassified now r t e),
)
from_classified now r (some t) rest parsed i e ih (inr k) = (inr (ih k).0, (ih k).1)

-- What is reported is a reading of the input, under the first type that applies and with its severity.
pub detect-IsClassified :
    (now : ℤ) (i : Incident) (parsed : List Reading)
    → Elem i (detect now parsed)
    → Elem i.reading parsed × IsClassified i
unfolding detect
detect-IsClassified now i [] h = absurd h
detect-IsClassified now i (r ∷ parsed) h =
    from_classified now r (incident_type r) (detect now parsed) parsed i refl
      (detect-IsClassified now i parsed) h
