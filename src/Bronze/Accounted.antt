-- ===== src/Bronze/Accounted.antt =====
-- The messages that src/fleetstream/streaming/bronze_ingest.py lands, in the hands of `split` of
-- src/fleetstream/quality/engine.py.
use fleet_stream_real_time_f.Prelude.{
  String, List, [], ◌∷◌, Option, Bool, false, ◌≡◌, ◌⊎◌, inl, inr, refl, ap, ◌∙◌, Elem, Elem-map,
  AllDistinct, Bool-cases,
}
use fleet_stream_real_time_f.Prelude.Int.{ℤ}
use fleet_stream_real_time_f.Quality.Rules.{Rule, rule_names, select_critical}
use fleet_stream_real_time_f.Quality.Engine.{Quarantined, is_empty, split}
use fleet_stream_real_time_f.Quality.Splitting.{critical_of_elem, fails-eq_true, failed_rule}
use fleet_stream_real_time_f.Quality.Verdicts.{failed, Passes-of_empty, split_valid_iff}
use fleet_stream_real_time_f.Quality.Diversion.{record_of, split_quarantined_iff}
use fleet_stream_real_time_f.Silver.Rows.{Reading, BronzeRow}
use fleet_stream_real_time_f.Bronze.{KafkaMessage, shape, ingest}

some_elem : (names : List String) → is_empty names ≡ false → (name : String) × Elem name names
some_elem [] h = cc
some_elem (x ∷ names) h = (x, inl refl)

module _ {Row : Type 0} (evaluate : String → Row → Option Bool) (rules : List Rule)
    (distinct : AllDistinct (rule_names rules)) (row : Row) (rows : List Row)
    (here : Elem row rows) where
  abbrev pub IsDiverted : Type 0
  IsDiverted = (d : Quarantined evaluate) × Elem d (split evaluate rules rows).1 × (d.row ≡ row)

  diverted_of : is_empty (failed evaluate rules row) ≡ false → IsDiverted
  diverted_of bad =
      let (name, e) = some_elem (failed evaluate rules row) bad in
      let (rule, in_critical, _, fails) = failed_rule evaluate name (select_critical rules) row e in
      (
        record_of evaluate rules rule row,
        (split_quarantined_iff evaluate rules distinct (record_of evaluate rules rule row) rows).1 (
          here,
          (
            rule,
            critical_of_elem rule rules in_critical,
            fails-eq_true evaluate rule row fails,
            refl,
          ),
        ),
        refl,
      )

  pub routed : Elem row (split evaluate rules rows).0 ⊎ IsDiverted
  routed = elim (Bool-cases (is_empty (failed evaluate rules row))) [
    | inl good ↦ inl (
        (split_valid_iff evaluate rules row rows).1 (here, Passes-of_empty evaluate rules row good))
    | inr bad ↦ inr (diverted_of bad)
  ]

  pub apart : Elem row (split evaluate rules rows).0 × IsDiverted → ⊥
  apart (kept, (d, diverted, same)) =
      let (_, passes) = (split_valid_iff evaluate rules row rows).0 kept in
      let (_, (rule, picked, bad, _)) =
        (split_quarantined_iff evaluate rules distinct d rows).0 diverted in
      bad (ap (evaluate rule.expression) same ∙ passes rule picked.0 picked.1)

module _ (from_json : Option String → Reading) (evaluate : String → BronzeRow → Option Bool)
    (rules : List Rule) (distinct : AllDistinct (rule_names rules)) where
  -- Of a batch of Kafka messages, all ingested and given to `split` as they are, with rules of distinct names: the row of
  -- each message, a malformed or empty one included, is among the valid rows or has a quarantine record, and not both.
  pub ingest-accounted :
      (now : ℤ) (run_id : String) (m : KafkaMessage) (messages : List KafkaMessage)
      → Elem m messages
      → let row = shape from_json now run_id m in
        let result = split evaluate rules (ingest from_json now run_id messages) in
        (Elem row result.0 ⊎ ((d : Quarantined evaluate) × Elem d result.1 × (d.row ≡ row)))
        × (Elem row result.0 × ((d : Quarantined evaluate) × Elem d result.1 × (d.row ≡ row)) → ⊥)
  unfolding ingest
  ingest-accounted now run_id m messages here =
      let row = shape from_json now run_id m in
      let rows = ingest from_json now run_id messages in
      let landed = Elem-map (shape from_json now run_id) m messages here in
      (
        routed evaluate rules distinct row rows landed,
        apart evaluate rules distinct row rows landed,
      )
