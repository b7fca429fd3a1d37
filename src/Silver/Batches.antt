-- ===== src/Silver/Batches.antt =====
-- What `write_batch` of src/fleetstream/streaming/silver_transform.py leaves in the tables.
use mathlib.Core.Path.{subst}
use fleet_stream_real_time_f.Prelude.Int.{ℤ}
use fleet_stream_real_time_f.Silver.Newest.{row_of_key}
use fleet_stream_real_time_f.Silver.Merge.{is_known_elem, is_known-some}
use fleet_stream_real_time_f.Prelude.{
  ◌+◌, String, Option, some, Bool, true, List, [], ◌∷◌, ◌≡◌, ◌⊎◌, inl, inr, refl, ap, ◌∙◌, Elem,
  Elem-map, length, arith, Bool-cases,
}
use fleet_stream_real_time_f.Quality.Rules.{Rule}
use fleet_stream_real_time_f.Quality.Engine.{split}
use fleet_stream_real_time_f.Quality.Splitting.{Passes}
use fleet_stream_real_time_f.Quality.Verdicts.{split_valid_iff}
use fleet_stream_real_time_f.Silver.Rows.{BronzeRow, SilverRow, key}
use fleet_stream_real_time_f.Silver.Dedupe.{dedupe}
use fleet_stream_real_time_f.Silver.Newest.{keys, dedupe-AllDistinct, dedupe-Elem, keys-dedupe}
use fleet_stream_real_time_f.Silver.Write.{enrich, Lake, Call, write_rows, write_batch}
use fleet_stream_real_time_f.Silver.Merge.{is_known, count_new, IsMerge, count_new_known}
use fleet_stream_real_time_f.Silver.Enrichment.{enrich_source, enrich_covers}

module _ (evaluate : ℤ → String → BronzeRow → Option Bool) (rules : List Rule)
    (sha2 : String → String) (merge : List SilverRow → List SilverRow → Option (List SilverRow))
    (lawful : IsMerge merge) where
  abbrev pub enriched : Call evaluate rules sha2 merge → List BronzeRow → Lake → List SilverRow
  enriched call rows lake =
      enrich call.now call.run_id lake.vehicles lake.drivers
        (split (evaluate call.now) rules rows).0

  -- the rows that a batch merges into Silver
  abbrev pub prepared : Call evaluate rules sha2 merge → List BronzeRow → Lake → List SilverRow
  prepared call rows lake = dedupe (enriched call rows lake)

  abbrev pub write : Call evaluate rules sha2 merge → List BronzeRow → Lake → Bool × Lake
  write = write_batch evaluate rules sha2 merge

  pub merged :
      (call : Call evaluate rules sha2 merge) (b : BronzeRow) (rows : List BronzeRow) (lake : Lake)
      → ((write call (b ∷ rows) lake).0 ≡ true)
        × (merge lake.silver (prepared call (b ∷ rows) lake)
            ≡ some (write call (b ∷ rows) lake).1.silver)
  unfolding write_batch write_rows
  merged call b rows lake =
      let (result, e) =
        lawful.accepts lake.silver (prepared call (b ∷ rows) lake) (dedupe-AllDistinct _) in
      rw e (refl, refl)

  -- a row that the MERGE is given is in Silver afterwards, under its key
  stored_key :
      (call : Call evaluate rules sha2 merge) (c : BronzeRow) (rows : List BronzeRow) (lake : Lake)
      (k : Option String)
      → Elem k (keys (prepared call (c ∷ rows) lake))
      → Elem k (keys (write call (c ∷ rows) lake).1.silver)
  stored_key call c rows lake k h =
      let (row, e, same) = row_of_key k (prepared call (c ∷ rows) lake) h in
      subst (λ j. Elem j (keys (write call (c ∷ rows) lake).1.silver)) same
        (Elem-map key row (write call (c ∷ rows) lake).1.silver
          ((lawful.rows _ _ _ (dedupe-AllDistinct _) (merged call c rows lake).1 row).1 (inl e)))

  -- With a lawful MERGE, every row of Silver after a batch stood there before it, or has the reading of a
  -- row of the batch of which every critical predicate is TRUE.
  pub write_batch-source :
      (call : Call evaluate rules sha2 merge) (rows : List BronzeRow) (lake : Lake)
      (row : SilverRow)
      → Elem row (write call rows lake).1.silver
      → Elem row lake.silver
        ⊎ ((b : BronzeRow) × Elem b rows
            × Passes (evaluate call.now) rules b
            × (row.reading ≡ b.reading))
  unfolding write_batch
  write_batch-source call [] lake row h = inl h
  write_batch-source call (c ∷ rows) lake row h =
      elim ((lawful.rows _ _ _ (dedupe-AllDistinct _) (merged call c rows lake).1 row).0 h) [
        | inl new ↦
            let (b, e, same) =
              enrich_source call.now call.run_id lake.vehicles lake.drivers row _
                (dedupe-Elem row _ new) in
            let (in_batch, passes) = (split_valid_iff (evaluate call.now) rules b (c ∷ rows)).0 e in
            inr (b, in_batch, passes, same)
        | inr (old, _) ↦ inl old
      ]

  -- the event_id of every row that the critical rules accept is merged
  pub keys-prepared :
      (call : Call evaluate rules sha2 merge) (rows : List BronzeRow) (lake : Lake) (b : BronzeRow)
      → Elem b rows
      → Passes (evaluate call.now) rules b
      → Elem b.reading.event_id (keys (prepared call rows lake))
  keys-prepared call rows lake b h p =
      let (row, e, same) =
        enrich_covers call.now call.run_id lake.vehicles lake.drivers b _
          ((split_valid_iff (evaluate call.now) rules b rows).1 (h, p)) in
      keys-dedupe b.reading.event_id (enriched call rows lake)
        (subst (λ r. Elem r.event_id (keys (enriched call rows lake))) same (Elem-map key row _ e))

  -- With a lawful MERGE, the event_id of every row of a batch of which every critical predicate is TRUE is
  -- among those of Silver after the batch, its vehicle and driver known or not.
  pub write_batch-covers :
      (call : Call evaluate rules sha2 merge) (rows : List BronzeRow) (lake : Lake) (b : BronzeRow)
      → Elem b rows
      → Passes (evaluate call.now) rules b
      → Elem b.reading.event_id (keys (write call rows lake).1.silver)
  write_batch-covers call [] lake b h p = absurd h
  write_batch-covers call (c ∷ rows) lake b h p =
      stored_key call c rows lake b.reading.event_id (keys-prepared call (c ∷ rows) lake b h p)

  -- With a lawful MERGE, a batch returns normally.
  pub write_batch-returns :
      (call : Call evaluate rules sha2 merge) (rows : List BronzeRow) (lake : Lake)
      → (write call rows lake).0 ≡ true
  unfolding write_batch
  write_batch-returns call [] lake = refl
  write_batch-returns call (c ∷ rows) lake = (merged call c rows lake).0

  -- With a lawful MERGE, every event_id of Silver before a batch is among those of Silver after it.
  pub write_batch-keeps :
      (call : Call evaluate rules sha2 merge) (rows : List BronzeRow) (lake : Lake)
      (k : Option String)
      → Elem k (keys lake.silver)
      → Elem k (keys (write call rows lake).1.silver)
  unfolding write_batch
  write_batch-keeps call [] lake k h = h
  write_batch-keeps call (c ∷ rows) lake k h =
      let (row, e, same) = row_of_key k lake.silver h in
      elim (Bool-cases (is_known (key row) (prepared call (c ∷ rows) lake))) [
        | inl known ↦ stored_key call c rows lake k (
            subst (λ j. Elem j (keys (prepared call (c ∷ rows) lake))) same
              (is_known_elem (key row) (prepared call (c ∷ rows) lake) known))
        | inr unknown ↦
            subst (λ j. Elem j (keys (write call (c ∷ rows) lake).1.silver)) same
              (Elem-map key row (write call (c ∷ rows) lake).1.silver (
                (lawful.rows _ _ _ (dedupe-AllDistinct _) (merged call c rows lake).1 row).1
                  (inr (e, unknown))))
      ]

  -- With a lawful MERGE, a batch that is processed a second time directly after the first, perhaps under
  -- another run id and at another time, does not change the number of rows of Silver, provided each of its rows of
  -- which every critical predicate is TRUE the second time has an event_id, and every one was TRUE the first time.
  pub write_batch-replay :
      (first second : Call evaluate rules sha2 merge) (rows : List BronzeRow) (lake : Lake)
      → ((b : BronzeRow)
          → Elem b rows
          → Passes (evaluate second.now) rules b
          → Passes (evaluate first.now) rules b × ((id : String) × (b.reading.event_id ≡ some id)))
      → length (write second rows (write first rows lake).1).1.silver
        ≡ length (write first rows lake).1.silver
  unfolding write_batch
  write_batch-replay first second [] lake named = refl
  write_batch-replay first second (c ∷ rows) lake named =
      omega (arith, size, count_new_known stored.silver (prepared second (c ∷ rows) stored) known)
    where
      stored : Lake
      stored = (write first (c ∷ rows) lake).1

      size :
          length (write second (c ∷ rows) stored).1.silver
          ≡ length stored.silver + count_new stored.silver (prepared second (c ∷ rows) stored)
      size = lawful.size _ _ _ (merged second c rows stored).1

      known :
          (s : SilverRow)
          → Elem s (prepared second (c ∷ rows) stored)
          → is_known (key s) stored.silver ≡ true
      known s h =
          let (b, e, same) =
            enrich_source second.now second.run_id stored.vehicles stored.drivers s _
              (dedupe-Elem s _ h) in
          let (in_batch, passes) = (split_valid_iff (evaluate second.now) rules b (c ∷ rows)).0 e in
          let (earlier, (id, p)) = named b in_batch passes in
          is_known-some id s stored.silver (ap (λ r. r.event_id) same ∙ p) (
            subst (λ k. Elem k (keys stored.silver)) p
              (write_batch-covers first (c ∷ rows) lake b in_batch earlier))
