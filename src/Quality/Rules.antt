-- ===== src/Quality/Rules.antt =====
-- src/fleetstream/quality/engine.py: rules, rule sets, and `_parse`, which loads them.
use fleet_stream_real_time_f.Prelude.{
  ℕ, ◌+◌, String, str_eq, List, [], ◌∷◌, Option, none, some, Bool, false, ◌||◌, if◌then◌else◌,
}

pub record Rule : Type 0 where
  pub name : String
  pub severity : String
  pub expression : String
  pub description : String
  pub dimension : String

unfoldable pub is_critical : Rule → Bool
is_critical r = str_eq r.severity "critical"

pub record RuleSet : Type 0 where
  pub version : ℕ
  pub rules : List Rule

unfoldable pub select_critical : List Rule → List Rule
unfolding is_critical
select_critical [] = []
select_critical (r ∷ rules) =
    let rest = select_critical rules in if is_critical r then r ∷ rest else rest

unfoldable pub select_warnings : List Rule → List Rule
unfolding is_critical
select_warnings [] = []
select_warnings (r ∷ rules) =
    let rest = select_warnings rules in if is_critical r then rest else r ∷ rest

-- `none` is the KeyError of `by_name`
unfoldable pub by_name : List Rule → String → Option Rule
by_name [] name = none
by_name (r ∷ rules) name = if str_eq r.name name then some r else by_name rules name

unfoldable pub rule_names : List Rule → List String
rule_names [] = []
rule_names (r ∷ rules) = r.name ∷ rule_names rules

-- The errors of `_parse`, each a RuleSetError.
pub data RuleSetError : Type 0 where
  not_a_mapping : RuleSetError
  entry_not_a_mapping : ℕ → RuleSetError
  missing_keys : ℕ → RuleSetError
  duplicate_name : String → RuleSetError
  unknown_severity : String → String → RuleSetError
  no_rules : RuleSetError

pub data Parsed (A : Type 0) : Type 0 where
  ok : A → Parsed A
  err : RuleSetError → Parsed A

infixl 5 ◌>>=◌
abbrev pub ◌>>=◌ : {A B : Type 0} → Parsed A → (A → Parsed B) → Parsed B
ok a >>= k = k a
err e >>= k = err e

-- One mapping of the YAML list; `none` is an absent key, the texts are what `str` makes of the
-- values.
pub record RawRule : Type 0 where
  pub name : Option String
  pub severity : Option String
  pub expression : Option String
  pub description : Option String
  pub dimension : Option String

-- A mapping with a key 'rules'; an entry that is no mapping is `none`.
pub record RawRules : Type 0 where
  pub version : Option ℕ
  pub rules : List (Option RawRule)

unfoldable pub contains : List String → String → Bool
contains [] a = false
contains (x ∷ xs) a = str_eq x a || contains xs a

abbrev pub or_else : Option String → String → String
or_else none d = d
or_else (some s) d = s

unfoldable pub is_severity : String → Bool
is_severity s = str_eq s "critical" || str_eq s "warning"

-- `str.strip`, `str.lower` and `" ".join(s.split())`
module _ (strip lower squash : String → String) where
  abbrev pub make_rule : String → String → String → RawRule → Rule
  make_rule name severity expression raw = record {
    name = name;
    severity = severity;
    expression = strip expression;
    description = squash (or_else raw.description "");
    dimension = lower (strip (or_else raw.dimension "validity"));
  }

  -- the checks of one entry, in the order of the code
  unfoldable pub checked_rule : List String → String → String → String → RawRule → Parsed Rule
  unfolding contains is_severity
  checked_rule seen name severity expression raw =
      if contains seen name
      then err (duplicate_name name)
      else if is_severity severity
      then ok (make_rule name severity expression raw)
      else err (unknown_severity name severity)

  abbrev pub keyed :
      ℕ → List String → RawRule → Option String → Option String → Option String → Parsed Rule
  keyed index seen raw (some name) (some severity) (some expression) =
      checked_rule seen (strip name) (lower (strip severity)) expression raw
  keyed index seen raw _ _ _ = err (missing_keys index)

  unfoldable pub parse_entry : ℕ → List String → Option RawRule → Parsed Rule
  unfolding checked_rule
  parse_entry index seen none = err (entry_not_a_mapping index)
  parse_entry index seen (some raw) = keyed index seen raw raw.name raw.severity raw.expression

  -- the loop, with the names seen so far
  unfoldable pub parse_entries : ℕ → List String → List (Option RawRule) → Parsed (List Rule)
  unfolding parse_entry
  parse_entries index seen [] = ok []
  parse_entries index seen (entry ∷ entries) = parse_entry index seen entry >>= λ rule.
      parse_entries (index + 1) (rule.name ∷ seen) entries >>= λ rules. ok (rule ∷ rules)

  abbrev pub some_rules : ℕ → List Rule → Parsed RuleSet
  some_rules version [] = err no_rules
  some_rules version (r ∷ rules) = ok (record { version = version; rules = r ∷ rules })

  abbrev pub version_of : Option ℕ → ℕ
  version_of none = 1
  version_of (some v) = v

  -- `none` is no mapping, or a mapping with no key 'rules'
  unfoldable pub parse : Option RawRules → Parsed RuleSet
  unfolding parse_entries
  parse none = err not_a_mapping
  parse (some raw) = parse_entries 0 [] raw.rules >>= some_rules (version_of raw.version)
