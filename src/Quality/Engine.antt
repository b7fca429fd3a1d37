-- ===== src/Quality/Engine.antt =====
-- src/fleetstream/quality/engine.py: `_failed_rule_names`, `apply_rules` and `split`. A DataFrame is the
-- list of its rows; the evaluation of a SQL predicate is a parameter, its NULL is `none`.
use fleet_stream_real_time_f.Prelude.{
  String, str_eq, List, [], ◌∷◌, ◌++◌, Option, none, some, Bool, true, false, not, if◌then◌else◌,
}
use fleet_stream_real_time_f.Quality.Rules.{Rule, select_critical, select_warnings}

-- F.coalesce(b, F.lit(False))
unfoldable pub coalesce_false : Option Bool → Bool
coalesce_false none = false
coalesce_false (some b) = b

-- a map from rule names, as `F.create_map` builds it from the rules
unfoldable pub look_up : (Rule → String) → List Rule → String → Option String
look_up value [] name = none
look_up value (r ∷ rules) name =
    if str_eq r.name name then some (value r) else look_up value rules name

abbrev pub is_empty : List String → Bool
is_empty [] = true
is_empty (x ∷ xs) = false

module _ {Row : Type 0} (evaluate : String → Row → Option Bool) where
  unfoldable pub fails : Rule → Row → Bool
  unfolding coalesce_false
  fails rule row = not (coalesce_false (evaluate rule.expression row))

  unfoldable pub failed_rule_names : List Rule → Row → List String
  unfolding fails
  failed_rule_names [] row = []
  failed_rule_names (rule ∷ rules) row =
      let rest = failed_rule_names rules row in if fails rule row then rule.name ∷ rest else rest

  -- a row with the columns that the engine adds
  pub record Annotated : Type 0 where
    pub row : Row
    pub failed_rules : List String
    pub warnings : List String
    pub is_valid : Bool

  unfoldable pub apply_rules : List Rule → List Row → List Annotated
  unfolding failed_rule_names
  apply_rules rules [] = []
  apply_rules rules (row ∷ rows) =
      let failed = failed_rule_names (select_critical rules) row in
      record {
        row = row;
        failed_rules = failed;
        warnings = failed_rule_names (select_warnings rules) row;
        is_valid = is_empty failed;
      }
      ∷ apply_rules rules rows

  pub record Quarantined : Type 0 where
    pub row : Row
    pub rule_name : String
    pub rule_severity : Option String
    pub failure_reason : Option String

  unfoldable pub valid_rows : List Annotated → List Row
  valid_rows [] = []
  valid_rows (a ∷ rest) = let more = valid_rows rest in if a.is_valid then a.row ∷ more else more

  -- one row for each failed rule
  unfoldable pub explode : List Rule → Row → List String → List Quarantined
  explode rules row [] = []
  explode rules row (name ∷ names) =
      record {
        row = row;
        rule_name = name;
        rule_severity = look_up (λ r. r.severity) rules name;
        failure_reason = look_up (λ r. r.description) rules name;
      }
      ∷ explode rules row names

  unfoldable pub quarantined_rows : List Rule → List Annotated → List Quarantined
  unfolding explode look_up
  quarantined_rows rules [] = []
  quarantined_rows rules (a ∷ rest) =
      let more = quarantined_rows rules rest in
      if a.is_valid then more else explode rules a.row a.failed_rules ++ more

  unfoldable pub split : List Rule → List Row → List Row × List Quarantined
  unfolding apply_rules valid_rows quarantined_rows
  split rules rows =
      let annotated = apply_rules rules rows in
      (valid_rows annotated, quarantined_rows rules annotated)
