-- ===== src/Quality/Verdicts.antt =====
-- What `split` keeps and what it diverts.
use mathlib.Core.Path.{subst}
use fleet_stream_real_time_f.Prelude.{
  String, str_eq, eq_iff, List, [], ◌∷◌, Option, some, Bool, true, false, ◌≡◌, ◌↔◌, inl, inr, refl,
  sym, ap, Elem, AllDistinct, Bool-cases, if◌then◌else◌,
}
use fleet_stream_real_time_f.Quality.Rules.{Rule, select_critical, rule_names}
use fleet_stream_real_time_f.Quality.Engine.{look_up, is_empty, fails, failed_rule_names, split}
use fleet_stream_real_time_f.Quality.Splitting.{
  critical_of_elem, elem_critical, fails-eq_false, fails-eq_true, failed_rule, elem_failed, Passes,
}

pub elem_of_not_empty :
    (names : List String) (name : String) → is_empty names ≡ true → Elem name names → ⊥
elem_of_not_empty [] name h e = e
elem_of_not_empty (x ∷ names) name h e = cc

empty_of_no_elem :
    (names : List String) → ((name : String) → Elem name names → ⊥) → is_empty names ≡ true
empty_of_no_elem [] h = refl
empty_of_no_elem (x ∷ names) h = absurd (h x (inl refl))

name_elem : (rule : Rule) (rules : List Rule) → Elem rule rules → Elem rule.name (rule_names rules)
unfolding rule_names
name_elem rule [] h = h
name_elem rule (r ∷ rules) (inl e) = inl (ap (λ (x : Rule). x.name) e)
name_elem rule (r ∷ rules) (inr e) = inr (name_elem rule rules e)

pub look_up-elem :
    (value : Rule → String) (rule : Rule) (rules : List Rule)
    → AllDistinct (rule_names rules)
    → Elem rule rules
    → look_up value rules rule.name ≡ some (value rule)
unfolding look_up rule_names
look_up-elem value rule [] d h = absurd h
look_up-elem value rule (r ∷ rules) d (inl e) =
    rw ((eq_iff r.name rule.name).1 (ap (λ (x : Rule). x.name) (sym e)))
      (ap (λ (x : Rule). some (value x)) (sym e))
look_up-elem value rule (r ∷ rules) d (inr e) = elim (Bool-cases (str_eq r.name rule.name)) [
  | inl same ↦ absurd (
      d.0 (
        subst (λ n. Elem n (rule_names rules)) (sym ((eq_iff r.name rule.name).0 same))
          (name_elem rule rules e)))
  | inr other ↦ rw other (look_up-elem value rule rules d.1 e)
]

module _ {Row : Type 0} (evaluate : String → Row → Option Bool) (rules : List Rule) where
  abbrev pub failed : Row → List String
  failed row = failed_rule_names evaluate (select_critical rules) row

  pub Passes-of_empty : (row : Row) → is_empty (failed row) ≡ true → Passes evaluate rules row
  Passes-of_empty row h rule e c = elim (Bool-cases (fails evaluate rule row)) [
    | inl bad ↦ absurd (
        elem_of_not_empty (failed row) rule.name h (
          elem_failed evaluate rule (select_critical rules) row (elem_critical rule rules e c) bad))
    | inr good ↦ fails-eq_false evaluate rule row good
  ]

  empty_of_Passes : (row : Row) → Passes evaluate rules row → is_empty (failed row) ≡ true
  empty_of_Passes row p = empty_of_no_elem (failed row) λ name e.
      let (rule, in_critical, _, bad) = failed_rule evaluate name (select_critical rules) row e in
      let (in_rules, c) = critical_of_elem rule rules in_critical in
      fails-eq_true evaluate rule row bad (p rule in_rules c)

  kept :
      (row x : Row) (rows valid : List Row) (b : Bool)
      → is_empty (failed x) ≡ b
      → (Elem row valid → Elem row rows × Passes evaluate rules row)
      → Elem row (if b then x ∷ valid else valid)
      → Elem row (x ∷ rows) × Passes evaluate rules row
  kept row x rows valid true h ih (inl e) =
      (inl e, subst (Passes evaluate rules) (sym e) (Passes-of_empty x h))
  kept row x rows valid true h ih (inr e) = (inr (ih e).0, (ih e).1)
  kept row x rows valid false h ih e = (inr (ih e).0, (ih e).1)

  valid_sound :
      (row : Row) (rows : List Row)
      → Elem row (split evaluate rules rows).0
      → Elem row rows × Passes evaluate rules row
  unfolding split
  valid_sound row [] h = absurd h
  valid_sound row (x ∷ rows) h =
      kept row x rows _ (is_empty (failed x)) refl (valid_sound row rows) h

  valid_complete :
      (row : Row) (rows : List Row)
      → Elem row rows
      → Passes evaluate rules row
      → Elem row (split evaluate rules rows).0
  unfolding split
  valid_complete row [] h p = absurd h
  valid_complete row (x ∷ rows) (inl e) p =
      rw (empty_of_Passes x (subst (Passes evaluate rules) e p)) (inl e)
  valid_complete row (x ∷ rows) (inr e) p = elim (Bool-cases (is_empty (failed x))) [
    | inl good ↦ rw good (inr (valid_complete row rows e p))
    | inr bad ↦ rw bad (valid_complete row rows e p)
  ]

  -- A row is passed on exactly when it is a row of the batch of which every critical predicate is
  -- TRUE; a predicate that is NULL counts as failed.
  pub split_valid_iff :
      (row : Row) (rows : List Row)
      → Elem row (split evaluate rules rows).0 ↔ (Elem row rows × Passes evaluate rules row)
  split_valid_iff row rows = (valid_sound row rows, λ h. valid_complete row rows h.0 h.1)
