-- ===== src/Schemas.antt =====
-- src/fleetstream/common/schemas.py: the representations that are derived from the list of fields.
pub mod Fields
pub mod Conformance
use Prim.Native.String.{String, ◌++◌}
use fleet_stream_real_time_f.Prelude.{
  ℕ, zero, suc, ◌-◌, str_eq, ltb, Option, none, some, Bool, true, false, not, List, [], ◌∷◌,
  ◌++◌ as append, map, if◌then◌else◌,
}
use fleet_stream_real_time_f.Schemas.Fields.{
  FieldSpec, JsonType, telemetry_fields, bronze_metadata_fields, enrichment_fields,
  quarantine_fields, reconciliation_fields,
}

-- separator.join(texts)
unfoldable pub join : String → List String → String
join separator [] = ""
join separator (t ∷ []) = t
join separator (t ∷ (u ∷ texts)) = t ++ (separator ++ join separator (u ∷ texts))

-- `spark_ddl` of a field
abbrev pub spark_ddl : FieldSpec → String
spark_ddl f = f.name ++ (" " ++ f.spark_type)

unfoldable pub telemetry_ddl : String
unfolding join
telemetry_ddl = join ", " (map spark_ddl telemetry_fields)

unfoldable pub bronze_ddl : String
unfolding join
bronze_ddl = join ", " (map spark_ddl (append telemetry_fields bronze_metadata_fields))

-- len, and s.ljust(width)
abbrev pub characters : String → ℕ
characters String.[] = 0
characters (String.◌∷◌ c s) = suc (characters s)

abbrev pub spaces : ℕ → String
spaces zero = ""
spaces (suc n) = " " ++ spaces n

abbrev pub ljust : String → ℕ → String
ljust s width = s ++ spaces (width - characters s)

abbrev pub widest : ℕ → List FieldSpec → ℕ
widest n [] = n
widest n (f ∷ fields) = widest (if ltb n (characters f.name) then characters f.name else n) fields

pub data Dialect : Type 0 where
  spark : Dialect
  ansi : Dialect

abbrev pub column_type : Dialect → FieldSpec → String
column_type spark f = f.spark_type
column_type ansi f = f.sql_type

unfoldable pub columns : List FieldSpec → Dialect → String → String
unfolding join
columns fields dialect indent =
    join ",\n" (
      map (λ f. indent ++ (ljust f.name (widest 0 fields) ++ (" " ++ column_type dialect f)))
        fields)

-- Silver has the columns of Bronze but for the raw payload, and those of the enrichment.
unfoldable pub without : String → List FieldSpec → List FieldSpec
without name [] = []
without name (f ∷ fields) =
    let rest = without name fields in if str_eq f.name name then rest else f ∷ rest

unfoldable pub bronze_columns : List FieldSpec
bronze_columns = append telemetry_fields bronze_metadata_fields

unfoldable pub silver_columns : List FieldSpec
unfolding without
silver_columns =
    append telemetry_fields
      (append (without "raw_payload" bronze_metadata_fields) enrichment_fields)

-- One property of the JSON Schema; only the event time has a format.
pub record Property : Type 0 where
  pub name : String
  pub json_type : List JsonType
  pub description : String
  pub format : Option String

pub record JsonSchema : Type 0 where
  pub properties : List Property
  pub required : List String
  pub additional_properties : Bool

abbrev pub property : FieldSpec → Property
property f = record {
  name = f.name;
  json_type = f.json_type;
  description = f.description;
  format = if str_eq f.name "event_time" then some "date-time" else none;
}

unfoldable pub required_names : List FieldSpec → List String
required_names [] = []
required_names (f ∷ fields) =
    let rest = required_names fields in if f.required then f.name ∷ rest else rest

unfoldable pub telemetry_json_schema : JsonSchema
unfolding required_names
telemetry_json_schema = record {
  properties = map property telemetry_fields;
  required = required_names telemetry_fields;
  additional_properties = false;
}
