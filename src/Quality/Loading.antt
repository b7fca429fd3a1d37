-- ===== src/Quality/Loading.antt =====
-- What `_parse` accepts: no entry is dropped, names are distinct, severities are known.
use mathlib.Core.Path.{subst}
use fleet_stream_real_time_f.Prelude.{
  ℕ, ◌+◌, String, eq_iff, List, [], ◌∷◌, Option, none, some, true, false, ◌≡◌, ◌≢◌, inl, inr, refl,
  All, Elem, AllDistinct, length, arith, Bool-cases,
}
use fleet_stream_real_time_f.Quality.Rules.{
  Rule, RuleSet, RawRule, RawRules, Parsed, ok, err, ◌>>=◌, contains, is_severity, rule_names,
  checked_rule, keyed, parse_entry, parse_entries, some_rules, version_of, parse,
}

-- What holds of the result, if there is one.
abbrev pub Gives : {A : Type 0} → (A → Type 0) → Parsed A → Type 0
Gives P (ok a) = P a
Gives P (err e) = Unit

Gives-bind :
    {A B : Type 0} (P : A → Type 0) (Q : B → Type 0) (m : Parsed A) (k : A → Parsed B)
    → Gives P m
    → ((a : A) → P a → Gives Q (k a))
    → Gives Q (m >>= k)
Gives-bind P Q (ok a) k h step = step a h
Gives-bind P Q (err e) k h step = tt

-- a rule that may follow rules of the given names
pub record IsFresh (seen : List String) (rule : Rule) : Type 0 where
  pub unseen : contains seen rule.name ≡ false
  pub severity : is_severity rule.severity ≡ true

abbrev pub IsLoaded : List String → ℕ → List Rule → Type 0
IsLoaded seen n rules =
    (length rules ≡ n) × All (IsFresh seen) rules × AllDistinct (rule_names rules)

fresh-not_elem :
    (name : String) (seen : List String) (rules : List Rule)
    → All (IsFresh (name ∷ seen)) rules
    → Elem name (rule_names rules)
    → ⊥
unfolding rule_names contains
fresh-not_elem name seen [] h e = e
fresh-not_elem name seen (r ∷ rules) h (inl e) =
    ground (arith, h.0.unseen, (eq_iff name r.name).1 e)
fresh-not_elem name seen (r ∷ rules) h (inr e) = fresh-not_elem name seen rules h.1 e

IsFresh-of_more :
    (name : String) (seen : List String) (rules : List Rule)
    → All (IsFresh (name ∷ seen)) rules
    → All (IsFresh seen) rules
unfolding contains
IsFresh-of_more name seen [] h = tt
IsFresh-of_more name seen (r ∷ rules) h = (
  record { unseen = ground (arith, h.0.unseen); severity = h.0.severity },
  IsFresh-of_more name seen rules h.1,
)

module _ (strip lower squash : String → String) where
  checked_rule-IsFresh :
      (seen : List String) (name severity expression : String) (raw : RawRule)
      → Gives (IsFresh seen) (checked_rule strip lower squash seen name severity expression raw)
  unfolding checked_rule
  checked_rule-IsFresh seen name severity expression raw = elim (Bool-cases (contains seen name)) [
    | inl old ↦ rw old tt
    | inr new ↦ elim (Bool-cases (is_severity severity)) [
      | inl known ↦ rw (new, known) (record { unseen = new; severity = known })
      | inr unknown ↦ rw (new, unknown) tt
    ]
  ]

  keyed-IsFresh :
      (index : ℕ) (seen : List String) (raw : RawRule) (name severity expression : Option String)
      → Gives (IsFresh seen) (keyed strip lower squash index seen raw name severity expression)
  keyed-IsFresh index seen raw (some name) (some severity) (some expression) =
      checked_rule-IsFresh seen (strip name) (lower (strip severity)) expression raw
  keyed-IsFresh index seen raw none _ _ = tt
  keyed-IsFresh index seen raw (some name) none _ = tt
  keyed-IsFresh index seen raw (some name) (some severity) none = tt

  parse_entry-IsFresh :
      (index : ℕ) (seen : List String) (entry : Option RawRule)
      → Gives (IsFresh seen) (parse_entry strip lower squash index seen entry)
  unfolding parse_entry
  parse_entry-IsFresh index seen none = tt
  parse_entry-IsFresh index seen (some raw) =
      keyed-IsFresh index seen raw raw.name raw.severity raw.expression

  parse_entries-IsLoaded :
      (index : ℕ) (seen : List String) (entries : List (Option RawRule))
      → Gives (IsLoaded seen (length entries)) (parse_entries strip lower squash index seen entries)
  unfolding parse_entries rule_names
  parse_entries-IsLoaded index seen [] = (refl, tt, tt)
  parse_entries-IsLoaded index seen (entry ∷ entries) =
      Gives-bind (IsFresh seen) (IsLoaded seen (length (entry ∷ entries))) _ _
        (parse_entry-IsFresh index seen entry)
        λ rule fresh.
          Gives-bind (IsLoaded (rule.name ∷ seen) (length entries))
            (IsLoaded seen (length (entry ∷ entries))) _ _
            (parse_entries-IsLoaded (index + 1) (rule.name ∷ seen) entries)
            λ rules h. (
              omega (arith, h.0),
              (fresh, IsFresh-of_more rule.name seen rules h.1),
              (fresh-not_elem rule.name seen rules h.1, h.2),
            )

  abbrev pub IsAccepted : List (Option RawRule) → RuleSet → Type 0
  IsAccepted entries set =
      (length set.rules ≡ length entries)
      × (set.rules ≢ [])
      × AllDistinct (rule_names set.rules)
      × All (λ rule. is_severity rule.severity ≡ true) set.rules

  severities :
      (seen : List String) (rules : List Rule)
      → All (IsFresh seen) rules
      → All (λ rule. is_severity rule.severity ≡ true) rules
  severities seen [] h = tt
  severities seen (r ∷ rules) h = (h.0.severity, severities seen rules h.1)

  some_rules-IsAccepted :
      (version : ℕ) (entries : List (Option RawRule)) (rules : List Rule)
      → IsLoaded [] (length entries) rules
      → Gives (IsAccepted entries) (some_rules strip lower squash version rules)
  some_rules-IsAccepted version entries [] h = tt
  some_rules-IsAccepted version entries (r ∷ rules) h =
      (h.0, (λ e. cc), h.2, severities [] (r ∷ rules) h.1)

  -- A rule set that loads has one rule for each entry of the file, at least one, with distinct
  -- names and with severities that are critical or warning.
  pub parse-IsAccepted :
      (raw : RawRules) (set : RuleSet)
      → parse strip lower squash (some raw) ≡ ok set
      → IsAccepted raw.rules set
  unfolding parse
  parse-IsAccepted raw set h = subst (Gives (IsAccepted raw.rules)) h (
      Gives-bind (IsLoaded [] (length raw.rules)) (IsAccepted raw.rules) _ _
        (parse_entries-IsLoaded 0 [] raw.rules)
        (some_rules-IsAccepted (version_of strip lower squash raw.version) raw.rules))
