-- ===== src/Quality/Splitting.antt =====
-- Critical rules, the rules that a row fails, and the names that the engine collects of them.
use fleet_stream_real_time_f.Prelude.{
  String, List, [], ◌∷◌, Option, some, Bool, true, false, ◌≡◌, ◌≢◌, inl, inr, refl, sym, ap, ◌∙◌,
  Elem, arith, Bool-cases, if◌then◌else◌,
}
use fleet_stream_real_time_f.Quality.Rules.{Rule, is_critical, select_critical}
use fleet_stream_real_time_f.Quality.Engine.{fails, failed_rule_names}

-- the critical rules, in order
abbrev pub IsPicked : Rule → List Rule → Type 0
IsPicked rule rules = Elem rule rules × (is_critical rule ≡ true)

keep-IsPicked :
    (rule r : Rule) (rules rest : List Rule) (b : Bool)
    → is_critical r ≡ b
    → (Elem rule rest → IsPicked rule rules)
    → Elem rule (if b then r ∷ rest else rest)
    → IsPicked rule (r ∷ rules)
keep-IsPicked rule r rules rest true c ih (inl e) = (inl e, ap is_critical e ∙ c)
keep-IsPicked rule r rules rest true c ih (inr e) = (inr (ih e).0, (ih e).1)
keep-IsPicked rule r rules rest false c ih e = (inr (ih e).0, (ih e).1)

pub critical_of_elem :
    (rule : Rule) (rules : List Rule) → Elem rule (select_critical rules) → IsPicked rule rules
unfolding select_critical
critical_of_elem rule [] h = absurd h
critical_of_elem rule (r ∷ rules) h =
    keep-IsPicked rule r rules (select_critical rules) (is_critical r) refl
      (critical_of_elem rule rules) h

pub elem_critical :
    (rule : Rule) (rules : List Rule)
    → Elem rule rules
    → is_critical rule ≡ true
    → Elem rule (select_critical rules)
unfolding select_critical
elem_critical rule [] h c = absurd h
elem_critical rule (r ∷ rules) (inl e) c = rw (ap is_critical (sym e) ∙ c) (inl e)
elem_critical rule (r ∷ rules) (inr e) c = elim (Bool-cases (is_critical r)) [
  | inl critical ↦ rw critical (inr (elem_critical rule rules e c))
  | inr other ↦ rw other (elem_critical rule rules e c)
]

module _ {Row : Type 0} (evaluate : String → Row → Option Bool) where
  pub fails-eq_false :
      (rule : Rule) (row : Row)
      → fails evaluate rule row ≡ false
      → evaluate rule.expression row ≡ some true
  unfolding fails
  fails-eq_false rule row h = ground arith

  pub fails-eq_true :
      (rule : Rule) (row : Row)
      → fails evaluate rule row ≡ true
      → evaluate rule.expression row ≢ some true
  unfolding fails
  fails-eq_true rule row h e = ground arith

  pub not_fails :
      (rule : Rule) (row : Row)
      → evaluate rule.expression row ≡ some true
      → fails evaluate rule row ≡ false
  unfolding fails
  not_fails rule row h = rw h

  pub must_fail :
      (rule : Rule) (row : Row)
      → evaluate rule.expression row ≢ some true
      → fails evaluate rule row ≡ true
  must_fail rule row h = elim (Bool-cases (fails evaluate rule row)) [
    | inl bad ↦ bad
    | inr good ↦ absurd (h (fails-eq_false rule row good))
  ]

  -- a name in the array of failed rules is that of a rule that fails
  pub failed_rule :
      (name : String) (rules : List Rule) (row : Row)
      → Elem name (failed_rule_names evaluate rules row)
      → (rule : Rule) × Elem rule rules × (name ≡ rule.name) × (fails evaluate rule row ≡ true)
  unfolding failed_rule_names
  failed_rule name [] row h = absurd h
  failed_rule name (r ∷ rules) row h = elim (Bool-cases (fails evaluate r row)) [
    | inl bad ↦ from_cons r bad (failed_rule name rules row) (rw bad at h)
    | inr good ↦
        let (rule, e, n, b) = failed_rule name rules row (rw good at h) in (rule, inr e, n, b)
  ]
    where
      from_cons :
          (r : Rule)
          → fails evaluate r row ≡ true
          → (Elem name (failed_rule_names evaluate rules row)
              → (rule : Rule) × Elem rule rules
                × (name ≡ rule.name)
                × (fails evaluate rule row ≡ true))
          → Elem name (r.name ∷ failed_rule_names evaluate rules row)
          → (rule : Rule) × Elem rule (r ∷ rules)
            × (name ≡ rule.name)
            × (fails evaluate rule row ≡ true)
      from_cons r bad ih (inl e) = (r, inl refl, e, bad)
      from_cons r bad ih (inr e) = let (rule, e', n, b) = ih e in (rule, inr e', n, b)

  pub elem_failed :
      (rule : Rule) (rules : List Rule) (row : Row)
      → Elem rule rules
      → fails evaluate rule row ≡ true
      → Elem rule.name (failed_rule_names evaluate rules row)
  unfolding failed_rule_names
  elem_failed rule [] row h bad = absurd h
  elem_failed rule (r ∷ rules) row (inl e) bad =
      rw (ap (λ x. fails evaluate x row) (sym e) ∙ bad) (inl (ap (λ (x : Rule). x.name) e))
  elem_failed rule (r ∷ rules) row (inr e) bad = elim (Bool-cases (fails evaluate r row)) [
    | inl worse ↦ rw worse (inr (elem_failed rule rules row e bad))
    | inr good ↦ rw good (elem_failed rule rules row e bad)
  ]

  -- Every critical predicate is TRUE of the row: neither false nor NULL.
  abbrev pub Passes : List Rule → Row → Type 0
  Passes rules row =
      (rule : Rule)
      → Elem rule rules
      → is_critical rule ≡ true
      → evaluate rule.expression row ≡ some true
