-- ===== src/Verify/Conserved.antt =====
-- What the checks of conservation and of duplicates in src/fleetstream/jobs/verify.py find in tables that batches
-- from Bronze have filled.
use mathlib.Core.Path.{subst}
use fleet_stream_real_time_f.Prelude.Int.{ℤ}
use fleet_stream_real_time_f.Prelude.{
  ◌+◌, ◌≤◌, String, Option, some, Bool, List, [], ◌∷◌, map, length, length-map, ◌≡◌, ◌≢◌, ◌⊎◌, inl,
  inr, sym, ap, ◌∙◌, Elem, Elem-map, elem_map, Elem-append_left, Elem-append_right, All,
  AllDistinct,
}
use fleet_stream_real_time_f.Quality.Rules.{Rule, rule_names}
use fleet_stream_real_time_f.Quality.Engine.{Quarantined, split}
use fleet_stream_real_time_f.Quality.Splitting.{Passes}
use fleet_stream_real_time_f.Quality.Verdicts.{split_valid_iff}
use fleet_stream_real_time_f.Bronze.Accounted.{routed}
use fleet_stream_real_time_f.Silver.Rows.{BronzeRow, SilverRow, QuarantineRow, key}
use fleet_stream_real_time_f.Silver.Newest.{keys}
use fleet_stream_real_time_f.Silver.Distinct.{count_distinct-all, count_distinct-le}
use fleet_stream_real_time_f.Silver.Write.{count_distinct, Lake, Call, write_batch, quarantine_row}
use fleet_stream_real_time_f.Silver.Merge.{IsMerge}
use fleet_stream_real_time_f.Silver.Counting.{appended}
use fleet_stream_real_time_f.Silver.Stream.{IsFed, batches}
use fleet_stream_real_time_f.Silver.Sequence.{Offers, batches-keys_iff}
use fleet_stream_real_time_f.Silver.Unique.{count_key-empty, batches-count}
use fleet_stream_real_time_f.Verify.Checks.{
  Check, fail, not_null, count_ids, bronze_id, quarantine_key, check_row_conservation,
  check_duplicates,
}
use fleet_stream_real_time_f.Verify.Counted.{
  not_null-Elem, Elem-not_null, AreNamed, not_null_same, keys-AllDistinct, duplicates_pass,
  conservation_pass, quarantine_key-some,
}
use fleet_stream_real_time_f.Verify.Traced.{batches-IsTraced}

module _ (evaluate : ℤ → String → BronzeRow → Option Bool) (rules : List Rule)
    (sha2 : String → String)
    (merge : List SilverRow → List SilverRow → Option (List SilverRow)) where
  -- one of the batches has the row
  abbrev pub IsProcessed :
      BronzeRow → List (Call evaluate rules sha2 merge × List BronzeRow) → Type 0
  IsProcessed b [] = ⊥
  IsProcessed b ((call, rows) ∷ more) = Elem b rows ⊎ IsProcessed b more

module _ (evaluate : ℤ → String → BronzeRow → Option Bool) (rules : List Rule)
    (sha2 : String → String) (merge : List SilverRow → List SilverRow → Option (List SilverRow))
    (lawful : IsMerge merge) (distinct : AllDistinct (rule_names rules)) (b : BronzeRow)
    (k : String) (named : b.reading.event_id ≡ some k) where
  -- the event of the row is in the quarantine
  abbrev IsStored : Lake → Type 0
  IsStored lake = (q : QuarantineRow) × Elem q lake.quarantine × (q.event_id ≡ some k)

  write_batch-IsStored :
      (call : Call evaluate rules sha2 merge) (rows : List BronzeRow) (lake : Lake)
      → IsStored lake
      → IsStored (write_batch evaluate rules sha2 merge call rows lake).1
  unfolding write_batch
  write_batch-IsStored call [] lake h = h
  write_batch-IsStored call (c ∷ rows) lake (q, e, same) = (
    q,
    subst (Elem q) (sym (appended evaluate rules sha2 merge lawful call c rows lake))
        (Elem-append_left q lake.quarantine _ e),
    same,
  )

  diverted-IsStored :
      (call : Call evaluate rules sha2 merge) (rows : List BronzeRow) (lake : Lake)
      → Elem b rows
      → ((d : Quarantined (evaluate call.now)) × Elem d (split (evaluate call.now) rules rows).1
          × (d.row ≡ b))
      → IsStored (write_batch evaluate rules sha2 merge call rows lake).1
  unfolding quarantine_row
  diverted-IsStored call [] lake here h = absurd here
  diverted-IsStored call (c ∷ rows) lake here (d, e, same) =
      let q = quarantine_row evaluate rules sha2 merge call.now call.run_id d in
      (
        q,
        subst (Elem q) (sym (appended evaluate rules sha2 merge lawful call c rows lake)) (
            Elem-append_right q lake.quarantine _ (
              Elem-map (quarantine_row evaluate rules sha2 merge call.now call.run_id) d
                (split (evaluate call.now) rules (c ∷ rows)).1 e)),
        ap (λ (x : BronzeRow). x.reading.event_id) same ∙ named,
      )

  batches-IsStored :
      (calls : List (Call evaluate rules sha2 merge × List BronzeRow)) (lake : Lake)
      → IsStored lake
      → IsStored (batches evaluate rules sha2 merge calls lake)
  batches-IsStored [] lake h = h
  batches-IsStored ((call, rows) ∷ more) lake h =
      batches-IsStored more (write_batch evaluate rules sha2 merge call rows lake).1
        (write_batch-IsStored call rows lake h)

  -- a row that was processed is offered to Silver or stored in the quarantine
  processed :
      (calls : List (Call evaluate rules sha2 merge × List BronzeRow)) (lake : Lake)
      → IsProcessed evaluate rules sha2 merge b calls
      → Offers evaluate rules sha2 merge k calls
        ⊎ IsStored (batches evaluate rules sha2 merge calls lake)
  processed [] lake h = absurd h
  processed ((call, rows) ∷ more) lake (inr later) =
      elim (processed more (write_batch evaluate rules sha2 merge call rows lake).1 later) [
        | inl offered ↦ inl (inr offered)
        | inr stored ↦ inr stored
      ]
  processed ((call, rows) ∷ more) lake (inl here) =
      elim (routed (evaluate call.now) rules distinct b rows here) [
        | inl kept ↦
            inl (
              inl (b, here, (named, ((split_valid_iff (evaluate call.now) rules b rows).0 kept).1)))
        | inr diverted ↦ inr (
            batches-IsStored more (write_batch evaluate rules sha2 merge call rows lake).1
              (diverted-IsStored call rows lake here diverted))
      ]

module _ (evaluate : ℤ → String → BronzeRow → Option Bool) (rules : List Rule)
    (sha2 : String → String) (merge : List SilverRow → List SilverRow → Option (List SilverRow))
    (lawful : IsMerge merge) (distinct : AllDistinct (rule_names rules)) (IsTime : ℤ → Type 0)
    (bronze : List BronzeRow) (calls : List (Call evaluate rules sha2 merge × List BronzeRow))
    (lake : Lake) (no_silver : lake.silver ≡ []) where
  abbrev tables : Lake
  tables = batches evaluate rules sha2 merge calls lake

  accounted :
      ((b : BronzeRow) → Elem b bronze → IsProcessed evaluate rules sha2 merge b calls)
      → (j : Option String) → Elem j (not_null (map bronze_id bronze))
      → Elem j (keys tables.silver) ⊎ Elem j (not_null (map quarantine_key tables.quarantine))
  accounted complete j h =
      let (k, e, there) = not_null-Elem j (map bronze_id bronze) h in
      let (b, in_bronze, named) = elem_map bronze_id (some k) bronze there in
      elim (processed evaluate rules sha2 merge lawful distinct b k (sym named) calls lake
        (complete b in_bronze)) [
          | inl offered ↦ inl (
              subst (λ i. Elem i (keys tables.silver)) (sym e)
                ((batches-keys_iff evaluate rules sha2 merge lawful k calls lake).1 (inr offered)))
          | inr (q, in_quarantine, same) ↦ inr (
              subst (λ i. Elem i (not_null (map quarantine_key tables.quarantine))) (sym e)
                (Elem-not_null k (map quarantine_key tables.quarantine) (
                  subst (λ i. Elem i (map quarantine_key tables.quarantine))
                    (quarantine_key-some q k same)
                    (Elem-map quarantine_key q tables.quarantine in_quarantine))))
        ]

  counted_once :
      ((b : BronzeRow) (now : ℤ)
        → IsTime now
        → Elem b bronze
        → Passes (evaluate now) rules b
        → (k : String) × (b.reading.event_id ≡ some k))
      → ((s : SilverRow)
          → Elem s tables.silver
          → (b : BronzeRow) × Elem b bronze
            × ((now : ℤ) × IsTime now × Passes (evaluate now) rules b)
            × (s.reading ≡ b.reading))
      → length tables.silver ≡ count_ids (keys tables.silver)
  unfolding count_ids
  counted_once named from =
      let are_named : AreNamed tables.silver = λ s e.
        let (b, there, (now, at, passes), read) = from s e in
        let (k, id) = named b now at there passes in (k, ap (λ r. r.event_id) read ∙ id) in
      let once = λ (k : String).
        batches-count evaluate rules sha2 merge lawful k calls lake
          (count_key-empty k lake.silver no_silver) in
      sym (
        ap count_distinct (not_null_same tables.silver are_named)
        ∙ count_distinct-all (keys tables.silver) (keys-AllDistinct tables.silver are_named once)
        ∙ length-map tables.silver key)

  pub batches-IsConserved :
      lake.quarantine ≡ []
      → All (IsFed evaluate rules sha2 merge IsTime bronze) calls
      → ((b : BronzeRow) → Elem b bronze → IsProcessed evaluate rules sha2 merge b calls)
      → ((b : BronzeRow) (now : ℤ)
          → IsTime now
          → Elem b bronze
          → Passes (evaluate now) rules b
          → (k : String) × (b.reading.event_id ≡ some k))
      → All
          (λ (c : Check). c.status ≢ fail)
          (check_row_conservation bronze (batches evaluate rules sha2 merge calls lake)
            ∷ check_duplicates bronze (batches evaluate rules sha2 merge calls lake))
  unfolding count_ids
  batches-IsConserved no_quarantine within complete named =
      let traced =
        batches-IsTraced evaluate rules sha2 merge lawful distinct IsTime bronze calls lake within
          (record {
            silver = λ s e. absurd (subst (Elem s) no_silver e);
            quarantine = λ q e. absurd (subst (Elem q) no_quarantine e);
          }) in
      (
        conservation_pass bronze tables (
            subst
              (λ n.
                count_ids (map bronze_id bronze)
                ≤ n + count_ids (map quarantine_key tables.quarantine))
              (length-map tables.silver key)
              (count_distinct-le (not_null (map bronze_id bronze)) (keys tables.silver)
                (not_null (map quarantine_key tables.quarantine)) (accounted complete))),
        duplicates_pass bronze tables (counted_once named traced.silver),
      )
