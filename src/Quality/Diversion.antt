-- ===== src/Quality/Diversion.antt =====
-- The rows that `split` diverts to the quarantine: one for each critical rule that a row fails.
use mathlib.Core.Path.{subst}
use fleet_stream_real_time_f.Prelude.{
  String, eq_iff, List, [], ◌∷◌, ◌++◌, Option, some, Bool, true, false, ◌≡◌, ◌≢◌, ◌↔◌, inl, inr,
  refl, sym, ap, ◌∙◌, Elem, Elem-append_left, Elem-append_right, elem_append, AllDistinct,
  Bool-cases, if◌then◌else◌,
}
use fleet_stream_real_time_f.Quality.Rules.{Rule, is_critical, select_critical, rule_names}
use fleet_stream_real_time_f.Quality.Engine.{look_up, is_empty, Quarantined, explode, split}
use fleet_stream_real_time_f.Quality.Splitting.{
  IsPicked, critical_of_elem, elem_critical, fails-eq_true, must_fail, failed_rule, elem_failed,
}
use fleet_stream_real_time_f.Quality.Verdicts.{look_up-elem, elem_of_not_empty, failed}

critical_severity : (rule : Rule) → is_critical rule ≡ true → rule.severity ≡ "critical"
unfolding is_critical
critical_severity rule c = (eq_iff rule.severity "critical").0 c

module _ {Row : Type 0} (evaluate : String → Row → Option Bool) (rules : List Rule) where
  abbrev Diverted : Type 0
  Diverted = Quarantined evaluate

  -- what `explode` makes of a name
  abbrev entry : Row → String → Diverted
  entry row name = record {
    row = row;
    rule_name = name;
    rule_severity = look_up (λ r. r.severity) rules name;
    failure_reason = look_up (λ r. r.description) rules name;
  }

  -- the record that a failed rule is to leave
  abbrev pub record_of : Rule → Row → Diverted
  record_of rule row = record {
    row = row;
    rule_name = rule.name;
    rule_severity = some "critical";
    failure_reason = some rule.description;
  }

  -- The row fails a critical rule, and the record says so.
  abbrev pub IsAttributed : Diverted → Type 0
  IsAttributed q =
      (rule : Rule) × IsPicked rule rules
      × (evaluate rule.expression q.row ≢ some true)
      × (q ≡ record_of rule q.row)

  explode-entry :
      (q : Diverted) (row : Row) (names : List String)
      → Elem q (explode evaluate rules row names)
      → (name : String) × Elem name names × (q ≡ entry row name)
  unfolding explode
  explode-entry q row [] h = absurd h
  explode-entry q row (n ∷ names) (inl e) = (n, inl refl, e)
  explode-entry q row (n ∷ names) (inr h) =
      let (m, e, p) = explode-entry q row names h in (m, inr e, p)

  entry_explode :
      (name : String) (row : Row) (names : List String)
      → Elem name names
      → Elem (entry row name) (explode evaluate rules row names)
  unfolding explode
  entry_explode name row [] h = absurd h
  entry_explode name row (n ∷ names) (inl e) = inl (ap (entry row) e)
  entry_explode name row (n ∷ names) (inr h) = inr (entry_explode name row names h)

  module _ (distinct : AllDistinct (rule_names rules)) where
    entry-record_of :
        (rule : Rule) (row : Row) → IsPicked rule rules → entry row rule.name ≡ record_of rule row
    entry-record_of rule row (e, c) = λ i. record {
      row = row;
      rule_name = rule.name;
      rule_severity =
          (look_up-elem (λ r. r.severity) rule rules distinct e
              ∙ ap some (critical_severity rule c))
            i;
      failure_reason = look_up-elem (λ r. r.description) rule rules distinct e i;
    }

    attributed :
        (q : Diverted) (row : Row)
        → Elem q (explode evaluate rules row (failed evaluate rules row))
        → (q.row ≡ row) × IsAttributed q
    attributed q row h =
        let (name, e, p) = explode-entry q row (failed evaluate rules row) h in
        let (rule, in_critical, n, bad) = failed_rule evaluate name (select_critical rules) row e in
        let picked = critical_of_elem rule rules in_critical in
        let same = ap (λ (x : Diverted). x.row) p in
        let at_row =
          subst (λ x. (evaluate rule.expression x ≢ some true) × (q ≡ record_of rule x)) (sym same)
            (
              fails-eq_true evaluate rule row bad,
              p ∙ ap (entry row) n ∙ entry-record_of rule row picked,
            ) in
        (same, (rule, picked, at_row.0, at_row.1))

    diverted_from :
        (q : Diverted) (x : Row) (rows : List Row) (more : List Diverted) (b : Bool)
        → (Elem q more → Elem q.row rows × IsAttributed q)
        → Elem q (if b then more else explode evaluate rules x (failed evaluate rules x) ++ more)
        → Elem q.row (x ∷ rows) × IsAttributed q
    diverted_from q x rows more true ih h = (inr (ih h).0, (ih h).1)
    diverted_from q x rows more false ih h =
        elim (elem_append q (explode evaluate rules x (failed evaluate rules x)) more h) [
          | inl here ↦ let (e, a) = attributed q x here in (inl e, a)
          | inr later ↦ (inr (ih later).0, (ih later).1)
        ]

    diverted :
        (q : Diverted) (rows : List Row)
        → Elem q (split evaluate rules rows).1
        → Elem q.row rows × IsAttributed q
    unfolding split
    diverted q [] h = absurd h
    diverted q (x ∷ rows) h =
        diverted_from q x rows _ (is_empty (failed evaluate rules x)) (diverted q rows) h

    abbrev Fails : Rule → Row → Type 0
    Fails rule row = evaluate rule.expression row ≢ some true

    named :
        (rule : Rule) (row : Row)
        → IsPicked rule rules
        → Fails rule row
        → Elem rule.name (failed evaluate rules row)
    named rule row p f =
        elem_failed evaluate rule (select_critical rules) row (elem_critical rule rules p.0 p.1)
          (must_fail evaluate rule row f)

    divert :
        (rule : Rule) (row : Row) (rows : List Row)
        → Elem row rows
        → IsPicked rule rules
        → evaluate rule.expression row ≢ some true
        → Elem (record_of rule row) (split evaluate rules rows).1
    unfolding split
    divert rule row [] h p f = absurd h
    divert rule row (x ∷ rows) (inl e) p f =
        elim (Bool-cases (is_empty (failed evaluate rules x))) [
          | inl good ↦ absurd (
              elem_of_not_empty (failed evaluate rules x) rule.name good
                (named rule x p (subst (Fails rule) e f)))
          | inr bad ↦ rw bad (
              Elem-append_left (record_of rule row) _ _ (
                subst
                  (λ y.
                    Elem (record_of rule y) (explode evaluate rules x (failed evaluate rules x)))
                  (sym e)
                  (subst (λ y. Elem y (explode evaluate rules x (failed evaluate rules x)))
                    (entry-record_of rule x p)
                    (entry_explode rule.name x (failed evaluate rules x)
                      (named rule x p (subst (Fails rule) e f))))))
        ]
    divert rule row (x ∷ rows) (inr e) p f =
        elim (Bool-cases (is_empty (failed evaluate rules x))) [
          | inl good ↦ rw good (divert rule row rows e p f)
          | inr bad ↦
              rw bad (Elem-append_right (record_of rule row) _ _ (divert rule row rows e p f))
        ]

    -- With distinct names, a record is quarantined exactly when its row is in the batch and it is the record
    -- of a critical rule whose predicate is not TRUE of that row: it names the rule, and carries the rule's
    -- severity and description.
    pub split_quarantined_iff :
        (q : Diverted) (rows : List Row)
        → Elem q (split evaluate rules rows).1 ↔ (Elem q.row rows × IsAttributed q)
    split_quarantined_iff q rows = (
      diverted q rows,
      λ (e, (rule, p, f, same)).
          subst (λ x. Elem x (split evaluate rules rows).1) (sym same)
            (divert rule q.row rows e p f),
    )
