-- ===== src/Silver/Counting.antt =====
-- What `write_batch` of src/fleetstream/streaming/silver_transform.py adds to the quarantine, and the counters
-- that it records.
use mathlib.Core.Path.{subst}
use Prim.Native.String.{◌++◌ as concat}
use fleet_stream_real_time_f.Prelude.{
  ℕ, String, Option, some, Bool, true, List, ◌∷◌, ◌++◌, map, ◌≡◌, ◌≢◌, refl, sym, ap, ◌∙◌, Elem,
  Elem-map, elem_map, AllDistinct, arith,
}
use fleet_stream_real_time_f.Quality.Splitting.{IsPicked}
use fleet_stream_real_time_f.Quality.Diversion.{record_of, split_quarantined_iff}
use fleet_stream_real_time_f.Prelude.Int.{ℤ, ◌-ℤ◌}
use fleet_stream_real_time_f.Quality.Rules.{Rule, rule_names}
use fleet_stream_real_time_f.Quality.Engine.{split}
use fleet_stream_real_time_f.Reconciliation.{balances}
use fleet_stream_real_time_f.Silver.Rows.{BronzeRow, SilverRow, QuarantineRow}
use fleet_stream_real_time_f.Silver.Newest.{dedupe-AllDistinct}
use fleet_stream_real_time_f.Silver.Write.{
  Lake, Call, text_or_empty, batch_counts, quarantine_row, write_rows, write_batch,
}
use fleet_stream_real_time_f.Silver.Merge.{IsMerge}
use fleet_stream_real_time_f.Silver.Batches.{prepared, write}

module _ (evaluate : ℤ → String → BronzeRow → Option Bool) (rules : List Rule)
    (sha2 : String → String)
    (merge : List SilverRow → List SilverRow → Option (List SilverRow)) where
  -- The counters that a batch records balance whatever was counted: the duplicates are computed as the
  -- rows that the others leave unexplained.
  pub batch_counts-balances :
      (call : Call evaluate rules sha2 merge) (source rejected output : ℕ)
      → balances (batch_counts evaluate rules sha2 merge call source rejected output) ≡ true
  unfolding balances batch_counts ◌-ℤ◌
  batch_counts-balances call source rejected output = ground arith

module _ (evaluate : ℤ → String → BronzeRow → Option Bool) (rules : List Rule)
    (sha2 : String → String) (merge : List SilverRow → List SilverRow → Option (List SilverRow))
    (lawful : IsMerge merge) where
  abbrev pub records : Call evaluate rules sha2 merge → List BronzeRow → List QuarantineRow
  records call rows =
      map (quarantine_row evaluate rules sha2 merge call.now call.run_id)
        (split (evaluate call.now) rules rows).1

  pub appended :
      (call : Call evaluate rules sha2 merge) (c : BronzeRow) (rows : List BronzeRow) (lake : Lake)
      → (write evaluate rules sha2 merge lawful call (c ∷ rows) lake).1.quarantine
        ≡ lake.quarantine ++ records call (c ∷ rows)
  unfolding write_batch write_rows
  appended call c rows lake =
      let (result, e) =
        lawful.accepts lake.silver (prepared evaluate rules sha2 merge lawful call (c ∷ rows) lake)
          (dedupe-AllDistinct _) in
      rw e refl

  -- what the quarantine is to hold of a row that fails a rule
  abbrev pub IsRecordOf : Call evaluate rules sha2 merge → Rule → BronzeRow → QuarantineRow → Type 0
  IsRecordOf call rule b q =
      (q.quarantine_id ≡ sha2 (concat (text_or_empty b.reading.event_id) (concat "|" rule.name)))
      × (q.event_id ≡ b.reading.event_id)
      × (q.vehicle_id ≡ b.reading.vehicle_id)
      × (q.event_time ≡ b.reading.event_time)
      × (q.rule_name ≡ rule.name)
      × (q.rule_severity ≡ some "critical")
      × (q.failure_reason ≡ some rule.description)
      × (q.raw_payload ≡ b.raw_payload)
      × (q.quarantined_at ≡ call.now)
      × (q.run_id ≡ call.run_id)

  -- it is the record of a row of the batch and a critical rule that the row fails
  abbrev pub IsRecorded : Call evaluate rules sha2 merge → List BronzeRow → QuarantineRow → Type 0
  IsRecorded call rows q =
      (rule : Rule) × (b : BronzeRow) × Elem b rows
      × IsPicked rule rules
      × (evaluate call.now rule.expression b ≢ some true)
      × IsRecordOf call rule b q

  recorded_of :
      (call : Call evaluate rules sha2 merge) (rule : Rule) (b : BronzeRow)
      → IsRecordOf call rule b (
          quarantine_row evaluate rules sha2 merge call.now call.run_id
            (record_of (evaluate call.now) rules rule b))
  unfolding quarantine_row
  recorded_of call rule b = (refl, refl, refl, refl, refl, refl, refl, refl, refl, refl)

  module _ (distinct : AllDistinct (rule_names rules)) where
    records-IsRecorded :
        (call : Call evaluate rules sha2 merge) (rows : List BronzeRow) (q : QuarantineRow)
        → Elem q (records call rows)
        → IsRecorded call rows q
    records-IsRecorded call rows q h =
        let make = quarantine_row evaluate rules sha2 merge call.now call.run_id in
        let (d, e, same) = elem_map make q (split (evaluate call.now) rules rows).1 h in
        let (in_rows, (rule, picked, bad, named)) =
          (split_quarantined_iff (evaluate call.now) rules distinct d rows).0 e in
        (
          rule,
          d.row,
          in_rows,
          picked,
          bad,
          subst (IsRecordOf call rule d.row) (sym (same ∙ ap make named))
              (recorded_of call rule d.row),
        )

    recorded-Elem :
        (call : Call evaluate rules sha2 merge) (rows : List BronzeRow) (rule : Rule)
        (b : BronzeRow)
        → Elem b rows
        → IsPicked rule rules
        → evaluate call.now rule.expression b ≢ some true
        → (q : QuarantineRow) × Elem q (records call rows) × IsRecordOf call rule b q
    recorded-Elem call rows rule b there picked bad =
        let make = quarantine_row evaluate rules sha2 merge call.now call.run_id in
        let d = record_of (evaluate call.now) rules rule b in
        (
          make d,
          Elem-map make d (split (evaluate call.now) rules rows).1 (
              (split_quarantined_iff (evaluate call.now) rules distinct d rows).1
                (there, (rule, picked, bad, refl))),
          recorded_of call rule b,
        )

    -- With rules of distinct names and a lawful MERGE, a batch that has rows keeps what the quarantine holds and adds
    -- to it a record for every row and every critical rule that the row fails at the time of the batch, and no other:
    -- with the identifiers, time and payload of the row, the name and description of the rule, the time and run.
    pub write_batch-quarantine :
        (call : Call evaluate rules sha2 merge) (c : BronzeRow) (rows : List BronzeRow)
        (lake : Lake)
        → (added : List QuarantineRow) × ((write evaluate rules sha2 merge lawful call
              (c ∷ rows)
              lake).1.quarantine
            ≡ lake.quarantine ++ added)
          × ((q : QuarantineRow) → Elem q added → IsRecorded call (c ∷ rows) q)
          × ((rule : Rule) (b : BronzeRow)
              → Elem b (c ∷ rows)
              → IsPicked rule rules
              → evaluate call.now rule.expression b ≢ some true
              → (q : QuarantineRow) × Elem q added × IsRecordOf call rule b q)
    write_batch-quarantine call c rows lake = (
      records call (c ∷ rows),
      appended call c rows lake,
      records-IsRecorded call (c ∷ rows),
      recorded-Elem call (c ∷ rows),
    )
