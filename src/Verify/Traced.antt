-- ===== src/Verify/Traced.antt =====
-- Where the rows of Silver and of the quarantine come from, after any sequence of batches of
-- src/fleetstream/streaming/silver_transform.py.
use mathlib.Core.Path.{subst}
use fleet_stream_real_time_f.Prelude.Int.{ℤ}
use fleet_stream_real_time_f.Prelude.{
  String, Option, some, Bool, List, [], ◌∷◌, ◌≡◌, inl, inr, ap, ◌∙◌, Elem, elem_append, elem_map,
  All, AllDistinct,
}
use fleet_stream_real_time_f.Quality.Rules.{Rule, rule_names}
use fleet_stream_real_time_f.Quality.Engine.{Quarantined, split}
use fleet_stream_real_time_f.Quality.Splitting.{Passes}
use fleet_stream_real_time_f.Quality.Diversion.{split_quarantined_iff}
use fleet_stream_real_time_f.Silver.Rows.{BronzeRow, SilverRow, QuarantineRow}
use fleet_stream_real_time_f.Silver.Write.{Lake, Call, write_batch, quarantine_row}
use fleet_stream_real_time_f.Silver.Merge.{IsMerge}
use fleet_stream_real_time_f.Silver.Batches.{write_batch-source}
use fleet_stream_real_time_f.Silver.Counting.{records, appended}
use fleet_stream_real_time_f.Silver.Stream.{IsFed, batches}

module _ (evaluate : ℤ → String → BronzeRow → Option Bool) (rules : List Rule) (IsTime : ℤ → Type 0)
    (bronze : List BronzeRow) where
  -- a row of Bronze that every critical rule accepts at some time, with this reading
  abbrev pub IsFrom : SilverRow → Type 0
  IsFrom s =
      (b : BronzeRow) × Elem b bronze
      × ((now : ℤ) × IsTime now × Passes (evaluate now) rules b)
      × (s.reading ≡ b.reading)

  -- a row of Bronze that a critical rule rejects at some time, with this event_id; and the reason is known
  abbrev pub IsRejected : QuarantineRow → Type 0
  IsRejected q =
      (b : BronzeRow) × Elem b bronze
      × ((now : ℤ) × IsTime now × (Passes (evaluate now) rules b → ⊥))
      × (q.event_id ≡ b.reading.event_id)
      × ((reason : String) × (q.failure_reason ≡ some reason))

  pub record IsTraced (lake : Lake) : Type 0 where
    pub silver : (s : SilverRow) → Elem s lake.silver → IsFrom s
    pub quarantine : (q : QuarantineRow) → Elem q lake.quarantine → IsRejected q

module _ (evaluate : ℤ → String → BronzeRow → Option Bool) (rules : List Rule)
    (sha2 : String → String) (merge : List SilverRow → List SilverRow → Option (List SilverRow))
    (lawful : IsMerge merge) (distinct : AllDistinct (rule_names rules)) (IsTime : ℤ → Type 0)
    (bronze : List BronzeRow) where
  abbrev Within : List BronzeRow → Type 0
  Within rows = (b : BronzeRow) → Elem b rows → Elem b bronze

  record-IsRejected :
      (call : Call evaluate rules sha2 merge) (rows : List BronzeRow) (q : QuarantineRow)
      → IsTime call.now
      → Within rows
      → Elem q (records evaluate rules sha2 merge lawful call rows)
      → IsRejected evaluate rules IsTime bronze q
  unfolding quarantine_row
  record-IsRejected call rows q at within h =
      let (d, e, same) =
        elem_map (quarantine_row evaluate rules sha2 merge call.now call.run_id) q
          (split (evaluate call.now) rules rows).1 h in
      let (in_rows, (rule, picked, bad, named)) =
        (split_quarantined_iff (evaluate call.now) rules distinct d rows).0 e in
      (
        d.row,
        within d.row in_rows,
        (call.now, at, λ passes. bad (passes rule picked.0 picked.1)),
        ap (λ (x : QuarantineRow). x.event_id) same,
        (
          rule.description,
          ap (λ (x : QuarantineRow). x.failure_reason) same
              ∙ ap (λ (x : Quarantined (evaluate call.now)). x.failure_reason) named,
        ),
      )

  quarantine-IsRejected :
      (call : Call evaluate rules sha2 merge) (rows : List BronzeRow) (lake : Lake)
      (q : QuarantineRow)
      → IsTime call.now
      → Within rows
      → IsTraced evaluate rules IsTime bronze lake
      → Elem q (write_batch evaluate rules sha2 merge call rows lake).1.quarantine
      → IsRejected evaluate rules IsTime bronze q
  unfolding write_batch
  quarantine-IsRejected call [] lake q at within traced h = traced.quarantine q h
  quarantine-IsRejected call (c ∷ rows) lake q at within traced h =
      let grown = subst (Elem q) (appended evaluate rules sha2 merge lawful call c rows lake) h in
      elim (elem_append q lake.quarantine (records evaluate rules sha2 merge lawful call (c ∷ rows))
        grown) [
          | inl old ↦ traced.quarantine q old
          | inr new ↦ record-IsRejected call (c ∷ rows) q at within new
        ]

  write_batch-IsTraced :
      (call : Call evaluate rules sha2 merge) (rows : List BronzeRow) (lake : Lake)
      → IsTime call.now
      → Within rows
      → IsTraced evaluate rules IsTime bronze lake
      → IsTraced evaluate rules IsTime bronze
          (write_batch evaluate rules sha2 merge call rows lake).1
  write_batch-IsTraced call rows lake at within traced = record {
    silver = λ s h. elim (write_batch-source evaluate rules sha2 merge lawful call rows lake s h) [
      | inl old ↦ traced.silver s old
      | inr (b, e, passes, same) ↦ (b, within b e, (call.now, at, passes), same)
    ];
    quarantine = λ q h. quarantine-IsRejected call rows lake q at within traced h;
  }

  pub batches-IsTraced :
      (calls : List (Call evaluate rules sha2 merge × List BronzeRow)) (lake : Lake)
      → All (IsFed evaluate rules sha2 merge IsTime bronze) calls
      → IsTraced evaluate rules IsTime bronze lake
      → IsTraced evaluate rules IsTime bronze (batches evaluate rules sha2 merge calls lake)
  batches-IsTraced [] lake within traced = traced
  batches-IsTraced ((call, rows) ∷ more) lake within traced =
      batches-IsTraced more (write_batch evaluate rules sha2 merge call rows lake).1 within.1
        (write_batch-IsTraced call rows lake within.0.0 within.0.1 traced)
