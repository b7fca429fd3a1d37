-- ===== src/Detection/Quarantine.antt =====
-- The way of a corruption of src/fleetstream/simulator/generator.py through Bronze into the quarantine.
use fleet_stream_real_time_f.Prelude.{
  ℕ, zero, suc, String, str_eq, eq_iff, List, [], ◌∷◌, Option, some, Bool, true, false, not, ◌&&◌,
  ◌||◌, ◌≡◌, inl, inr, refl, sym, ◌∙◌, Elem, Elem-map, AllDistinct, Bool-cases,
}
use fleet_stream_real_time_f.Prelude.Int.{ℤ}
use fleet_stream_real_time_f.Float.{Float}
use fleet_stream_real_time_f.Payload.{TelemetryEvent, Payload, to_dict, corrupt}
use fleet_stream_real_time_f.Generator.Corruption.{kind_at}
use fleet_stream_real_time_f.Quality.Rules.{contains, rule_names, is_critical}
use fleet_stream_real_time_f.Quality.Engine.{split}
use fleet_stream_real_time_f.Quality.Standard.{standard_rules}
use fleet_stream_real_time_f.Quality.Splitting.{IsPicked}
use fleet_stream_real_time_f.Quality.Verdicts.{split_valid_iff}
use fleet_stream_real_time_f.Quality.Diversion.{record_of, split_quarantined_iff}
use fleet_stream_real_time_f.Silver.Rows.{Reading, BronzeRow}
use fleet_stream_real_time_f.Bronze.{KafkaMessage, shape, ingest}
use fleet_stream_real_time_f.Detection.Sql.{Functions, IsSql}
use fleet_stream_real_time_f.Detection.Wire.{IsCodec}
use fleet_stream_real_time_f.Detection.Caught.{catching, refuted_by}

contains-Elem : (name : String) (names : List String) → Elem name names → contains names name ≡ true
unfolding contains
contains-Elem name [] e = absurd e
contains-Elem name (x ∷ names) (inl e) = rw ((eq_iff x name).1 (sym e)) refl
contains-Elem name (x ∷ names) (inr e) = rw (contains-Elem name names e) (or_true (str_eq x name))
  where
    or_true : (b : Bool) → (b || true) ≡ true
    or_true true = refl
    or_true false = refl

unfoldable are_distinct : List String → Bool
unfolding contains
are_distinct [] = true
are_distinct (x ∷ names) = not (contains names x) && are_distinct names

AllDistinct-of : (names : List String) → are_distinct names ≡ true → AllDistinct names
unfolding are_distinct
AllDistinct-of [] h = tt
AllDistinct-of (x ∷ names) h = elim (Bool-cases (contains names x)) [
  | inl twice ↦ absurd (false_lem (rw twice at h))
  | inr once ↦
      (λ e. false_lem (sym once ∙ contains-Elem x names e), AllDistinct-of names (rw once at h))
]
  where
    false_lem : false ≡ true → ⊥
    false_lem e = cc

pub standard_rules-AllDistinct : AllDistinct (rule_names standard_rules)
unfolding rule_names are_distinct
standard_rules-AllDistinct = AllDistinct-of (rule_names standard_rules) refl

catching-IsPicked : (i : ℕ) → IsPicked (catching i) standard_rules
unfolding is_critical
catching-IsPicked zero = (inl refl, refl)
catching-IsPicked (suc zero) = (inr (inr (inr (inr (inr (inr (inr (inl refl))))))), refl)
catching-IsPicked (suc (suc zero)) =
    (inr (inr (inr (inr (inr (inr (inr (inr (inr (inl refl))))))))), refl)
catching-IsPicked (suc (suc (suc zero))) =
    (inr (inr (inr (inr (inr (inr (inr (inr (inr (inr (inr (inr (inl refl)))))))))))), refl)
catching-IsPicked (suc (suc (suc (suc zero)))) =
    (inr (inr (inr (inr (inr (inr (inr (inr (inr (inr (inr (inr (inr (inl refl))))))))))))), refl)
catching-IsPicked (suc (suc (suc (suc (suc zero))))) =
    (inr (inr (inr (inr (inr (inr (inr (inr (inr (inr (inl refl)))))))))), refl)
catching-IsPicked (suc (suc (suc (suc (suc (suc zero)))))) = (inr (inr (inl refl)), refl)
catching-IsPicked (suc (suc (suc (suc (suc (suc (suc zero))))))) =
    (inr (inr (inr (inr (inr (inr (inr (inr (inr (inr (inr (inl refl))))))))))), refl)
catching-IsPicked (suc (suc (suc (suc (suc (suc (suc (suc zero)))))))) =
    (inr (inr (inr (inr (inl refl)))), refl)
catching-IsPicked (suc (suc (suc (suc (suc (suc (suc (suc (suc i))))))))) = (inl refl, refl)

module _ (evaluate : String → BronzeRow → Option Bool) (dumps : Payload → String)
    (from_json : Option String → Reading) (s : Functions) (sql : IsSql s evaluate) {R : Type 0}
    ⦃f : Float R⦄ where
  -- A reading that is corrupted, sent, ingested in a batch and validated with the rules of the repository
  -- is quarantined under the rule for its corruption, with that rule's description as the reason, and is not
  -- passed on to Silver. The condition is that the JSON libraries and SQL read as documented.
  pub corrupt-IsQuarantined :
      (e : TelemetryEvent R) (i : ℕ) (q : Payload)
      → corrupt (to_dict e) (kind_at i) ≡ some q
      → IsCodec dumps from_json s q
      → (now : ℤ) (run_id : String) (m : KafkaMessage) (messages : List KafkaMessage)
      → Elem m messages
      → m.value ≡ some (dumps q)
      → Elem
          (record_of evaluate standard_rules (catching i) (shape from_json now run_id m))
          (split evaluate standard_rules (ingest from_json now run_id messages)).1
        × (Elem
              (shape from_json now run_id m)
              (split evaluate standard_rules (ingest from_json now run_id messages)).0
            → ⊥)
  unfolding ingest
  corrupt-IsQuarantined e i q corrupted codec now run_id m messages here carried =
      let row = shape from_json now run_id m in
      let rows = ingest from_json now run_id messages in
      let bad =
        refuted_by evaluate dumps from_json s sql row e i q corrupted codec
          (carried_by now run_id m carried) in
      let ingested = Elem-map (shape from_json now run_id) m messages here in
      let picked = catching-IsPicked i in
      (
        (split_quarantined_iff evaluate standard_rules standard_rules-AllDistinct
              (record_of evaluate standard_rules (catching i) row) rows).1
            (ingested, (catching i, picked, (λ good. cc), refl)),
        λ kept.
            let (_, passes) = (split_valid_iff evaluate standard_rules row rows).0 kept in
            let good = passes (catching i) picked.0 picked.1 in cc,
      )
    where
      carried_by :
          (now : ℤ) (run_id : String) (m : KafkaMessage)
          → m.value ≡ some (dumps q)
          → ((shape from_json now run_id m).raw_payload ≡ some (dumps q))
            × ((shape from_json now run_id m).reading
                ≡ from_json (shape from_json now run_id m).raw_payload)
      carried_by now run_id m h = (h, refl)
