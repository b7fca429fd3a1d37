-- ===== src/Silver/Sequence.antt =====
-- What sequences of batches of src/fleetstream/streaming/silver_transform.py leave in Silver, as they are and
-- behind the watermark of `build_stream`.
use mathlib.Core.Path.{subst}
use fleet_stream_real_time_f.Prelude.{
  String, Option, some, Bool, true, List, [], ◌∷◌, ◌≡◌, ◌⊎◌, ◌↔◌, inl, inr, sym, ap, ◌∙◌, Elem,
  Elem-map, elem_map, All, All-map,
}
use fleet_stream_real_time_f.Prelude.Int.{ℤ, ltb_ℤ}
use fleet_stream_real_time_f.Quality.Rules.{Rule}
use fleet_stream_real_time_f.Quality.Splitting.{Passes}
use fleet_stream_real_time_f.Silver.Rows.{BronzeRow, SilverRow, key}
use fleet_stream_real_time_f.Silver.Newest.{keys, row_of_key}
use fleet_stream_real_time_f.Silver.Write.{Lake, Call, write_batch}
use fleet_stream_real_time_f.Silver.Merge.{IsMerge}
use fleet_stream_real_time_f.Silver.Batches.{
  write_batch-source, write_batch-covers, write_batch-keeps,
}
use fleet_stream_real_time_f.Silver.Stream.{
  watermark, IsDelivered, IsDeduplication, IsFed, batches, build_stream, transform,
}

module _ (evaluate : ℤ → String → BronzeRow → Option Bool) (rules : List Rule)
    (sha2 : String → String)
    (merge : List SilverRow → List SilverRow → Option (List SilverRow)) where
  -- A row arrives for which Q holds, Q being told what arrived before.
  abbrev pub Arrives :
      (List (List BronzeRow) → ℤ → BronzeRow → Type 0)
      → List (List BronzeRow)
      → List (Call evaluate rules sha2 merge × List BronzeRow)
      → Type 0
  Arrives Q earlier [] = ⊥
  Arrives Q earlier ((call, rows) ∷ more) =
      ((b : BronzeRow) × Elem b rows × Q earlier call.now b) ⊎ Arrives Q (rows ∷ earlier) more

  -- it has the event_id, and every critical predicate is TRUE of it at this time
  abbrev pub IsValidAs : String → ℤ → BronzeRow → Type 0
  IsValidAs k now b = (b.reading.event_id ≡ some k) × Passes (evaluate now) rules b

  -- one of the batches has such a row
  abbrev pub Offers : String → List (Call evaluate rules sha2 merge × List BronzeRow) → Type 0
  Offers k [] = ⊥
  Offers k ((call, rows) ∷ more) =
      ((b : BronzeRow) × Elem b rows × IsValidAs k call.now b) ⊎ Offers k more

  -- newer than the watermark
  abbrev pub IsInTime : String → List (List BronzeRow) → ℤ → BronzeRow → Type 0
  IsInTime k earlier now b =
      IsValidAs k now b
      × ((t : _) × (b.reading.event_time ≡ some t) × (ltb_ℤ (watermark earlier) t ≡ true))

  -- not older than the watermark
  abbrev pub IsNotLate : String → List (List BronzeRow) → ℤ → BronzeRow → Type 0
  IsNotLate k earlier now b =
      IsValidAs k now b
      × ((t : _) → b.reading.event_time ≡ some t → ltb_ℤ t (watermark earlier) ≡ true → ⊥)

module _ (evaluate : ℤ → String → BronzeRow → Option Bool) (rules : List Rule)
    (sha2 : String → String) (merge : List SilverRow → List SilverRow → Option (List SilverRow))
    (lawful : IsMerge merge) (k : String) where
  key-source :
      (call : Call evaluate rules sha2 merge) (rows : List BronzeRow) (lake : Lake)
      → Elem (some k) (keys (write_batch evaluate rules sha2 merge call rows lake).1.silver)
      → Elem (some k) (keys lake.silver)
        ⊎ ((b : BronzeRow) × Elem b rows × IsValidAs evaluate rules sha2 merge k call.now b)
  key-source call rows lake h =
      let (row, e, same) =
        row_of_key (some k) (write_batch evaluate rules sha2 merge call rows lake).1.silver h in
      elim (write_batch-source evaluate rules sha2 merge lawful call rows lake row e) [
        | inl old ↦
            inl (subst (λ j. Elem j (keys lake.silver)) same (Elem-map key row lake.silver old))
        | inr (b, there, passes, read) ↦
            inr (b, there, (sym (ap (λ r. r.event_id) read) ∙ same, passes))
      ]

  key-covers :
      (call : Call evaluate rules sha2 merge) (rows : List BronzeRow) (lake : Lake)
      → ((b : BronzeRow) × Elem b rows × IsValidAs evaluate rules sha2 merge k call.now b)
      → Elem (some k) (keys (write_batch evaluate rules sha2 merge call rows lake).1.silver)
  key-covers call rows lake (b, e, (named, passes)) =
      subst (λ j. Elem j (keys (write_batch evaluate rules sha2 merge call rows lake).1.silver))
        named (write_batch-covers evaluate rules sha2 merge lawful call rows lake b e passes)

  keys-batches :
      (calls : List (Call evaluate rules sha2 merge × List BronzeRow)) (lake : Lake)
      → Elem (some k) (keys lake.silver) ⊎ Offers evaluate rules sha2 merge k calls
      → Elem (some k) (keys (batches evaluate rules sha2 merge calls lake).silver)
  keys-batches [] lake (inl h) = h
  keys-batches [] lake (inr h) = absurd h
  keys-batches ((call, rows) ∷ more) lake (inl h) =
      keys-batches more (write_batch evaluate rules sha2 merge call rows lake).1
        (inl (write_batch-keeps evaluate rules sha2 merge lawful call rows lake (some k) h))
  keys-batches ((call, rows) ∷ more) lake (inr (inl here)) =
      keys-batches more (write_batch evaluate rules sha2 merge call rows lake).1
        (inl (key-covers call rows lake here))
  keys-batches ((call, rows) ∷ more) lake (inr (inr later)) =
      keys-batches more (write_batch evaluate rules sha2 merge call rows lake).1 (inr later)

  batches-keys :
      (calls : List (Call evaluate rules sha2 merge × List BronzeRow)) (lake : Lake)
      → Elem (some k) (keys (batches evaluate rules sha2 merge calls lake).silver)
      → Elem (some k) (keys lake.silver) ⊎ Offers evaluate rules sha2 merge k calls
  batches-keys [] lake h = inl h
  batches-keys ((call, rows) ∷ more) lake h =
      elim (batches-keys more (write_batch evaluate rules sha2 merge call rows lake).1 h) [
        | inr later ↦ inr (inr later)
        | inl before ↦ elim (key-source call rows lake before) [
          | inl old ↦ inl old
          | inr here ↦ inr (inl here)
        ]
      ]

  -- With a lawful MERGE, after any sequence of batches an event_id is in Silver exactly when it was there before or
  -- one of the batches has a row with it of which every critical predicate is TRUE: the order of the batches, and
  -- how often each is processed, do not matter.
  pub batches-keys_iff :
      (calls : List (Call evaluate rules sha2 merge × List BronzeRow)) (lake : Lake)
      → Elem (some k) (keys (batches evaluate rules sha2 merge calls lake).silver)
        ↔ (Elem (some k) (keys lake.silver) ⊎ Offers evaluate rules sha2 merge k calls)
  batches-keys_iff calls lake = (batches-keys calls lake, keys-batches calls lake)

  module _ (deliver : List (List BronzeRow) → List BronzeRow → List BronzeRow)
      (documented : IsDeduplication deliver) where
    Offers-Arrives :
        (earlier : List (List BronzeRow))
        (arrivals : List (Call evaluate rules sha2 merge × List BronzeRow))
        → Offers evaluate rules sha2 merge k
            (build_stream evaluate rules sha2 merge deliver earlier arrivals)
        → Arrives evaluate rules sha2 merge (IsNotLate evaluate rules sha2 merge k) earlier arrivals
    unfolding build_stream
    Offers-Arrives earlier [] h = h
    Offers-Arrives earlier ((call, rows) ∷ more) (inl (b, e, valid)) =
        inl (
          b,
          documented.genuine earlier rows b e,
          (valid, λ t. documented.timely earlier rows b t e),
        )
    Offers-Arrives earlier ((call, rows) ∷ more) (inr later) =
        inr (Offers-Arrives (rows ∷ earlier) more later)

    -- whenever a row of the batch has the event_id, it is valid
    abbrev AreValid : Call evaluate rules sha2 merge × List BronzeRow → Type 0
    AreValid c =
        (b : BronzeRow)
        → Elem b c.1
        → b.reading.event_id ≡ some k
        → Passes (evaluate c.0.now) rules b

    split_delivery :
        (call : Call evaluate rules sha2 merge) (earlier : List (List BronzeRow))
        (rows : List BronzeRow) (more : List (Call evaluate rules sha2 merge × List BronzeRow))
        → AreValid (call, rows)
        → IsDelivered deliver k (rows ∷ earlier)
        → IsDelivered deliver k earlier
          ⊎ Offers evaluate rules sha2 merge k
              (build_stream evaluate rules sha2 merge deliver earlier ((call, rows) ∷ more))
    unfolding build_stream
    split_delivery call earlier rows more valid (inr before) = inl before
    split_delivery call earlier rows more valid (inl now) =
        let (b, e, named) =
          elem_map (λ (x : BronzeRow). x.reading.event_id) (some k) (deliver earlier rows) now in
        inr (inl (b, e, (sym named, valid b (documented.genuine earlier rows b e) (sym named))))

    Arrives-Offers :
        (earlier : List (List BronzeRow))
        (arrivals : List (Call evaluate rules sha2 merge × List BronzeRow))
        → All AreValid arrivals
        → Arrives evaluate rules sha2 merge (IsInTime evaluate rules sha2 merge k) earlier arrivals
        → IsDelivered deliver k earlier
          ⊎ Offers evaluate rules sha2 merge k
              (build_stream evaluate rules sha2 merge deliver earlier arrivals)
    unfolding build_stream
    Arrives-Offers earlier [] valid h = absurd h
    Arrives-Offers earlier ((call, rows) ∷ more) valid
          (inl (b, e, ((named, passes), (t, at, newer)))) =
        split_delivery call earlier rows more valid.0
          (documented.covers earlier rows b k t e named at newer)
    Arrives-Offers earlier ((call, rows) ∷ more) valid (inr later) =
        elim (Arrives-Offers (rows ∷ earlier) more valid.1 later) [
          | inl before ↦ split_delivery call earlier rows more valid.0 before
          | inr offered ↦ inr (inr offered)
        ]

    arrived :
        (IsTime : ℤ → Type 0) (bronze : List BronzeRow) (earlier : List (List BronzeRow))
        (arrivals : List (Call evaluate rules sha2 merge × List BronzeRow))
        → All (IsFed evaluate rules sha2 merge IsTime bronze) arrivals
        → Arrives evaluate rules sha2 merge (IsInTime evaluate rules sha2 merge k) earlier arrivals
        → (b : BronzeRow) × Elem b bronze
          × ((now : ℤ) × IsTime now × IsValidAs evaluate rules sha2 merge k now b)
    arrived IsTime bronze earlier [] within h = absurd h
    arrived IsTime bronze earlier ((call, rows) ∷ more) within (inl (b, e, (valid, newer))) =
        (b, within.0.1 b e, (call.now, within.0.0, valid))
    arrived IsTime bronze earlier ((call, rows) ∷ more) within (inr later) =
        arrived IsTime bronze (rows ∷ earlier) more within.1 later

    -- With a lawful MERGE, when what Spark documents of deduplication within a watermark holds, and when the critical
    -- rules accept, at all times at which batches run, all rows of Bronze that have the event_id or none of them: the event_id is in Silver once a row with
    -- it that they accept has arrived newer than the watermark of its time; and it is there only if such a row has
    -- arrived not older than that watermark, ten minutes behind the newest event time before it.
    pub transform-IsBounded :
        (IsTime : ℤ → Type 0) (bronze : List BronzeRow)
        (arrivals : List (Call evaluate rules sha2 merge × List BronzeRow)) (lake : Lake)
        → lake.silver ≡ []
        → All (IsFed evaluate rules sha2 merge IsTime bronze) arrivals
        → ((b c : BronzeRow) (now then : ℤ)
            → IsTime now
            → IsTime then
            → Elem b bronze
            → Elem c bronze
            → b.reading.event_id ≡ some k
            → c.reading.event_id ≡ some k
            → Passes (evaluate now) rules b
            → Passes (evaluate then) rules c)
        → let ids = keys (transform evaluate rules sha2 merge deliver arrivals lake).silver in
          (Arrives evaluate rules sha2 merge (IsInTime evaluate rules sha2 merge k) [] arrivals
            → Elem (some k) ids)
          × (Elem (some k) ids
              → Arrives evaluate rules sha2 merge
                  (IsNotLate evaluate rules sha2 merge k)
                  []
                  arrivals)
    unfolding transform
    transform-IsBounded IsTime bronze arrivals lake empty within agree = (
      (λ h.
          let (c, there, (now, at, (named, passes))) = arrived IsTime bronze [] arrivals within h in
          let valid =
            All-map (IsFed evaluate rules sha2 merge IsTime bronze) AreValid arrivals
              (λ x inside b e same.
                agree c b now x.0.now at inside.0 there (inside.1 b e) named same passes)
              within in
          elim (Arrives-Offers [] arrivals valid h) [
            | inl none_before ↦ absurd none_before
            | inr offered ↦
                keys-batches (build_stream evaluate rules sha2 merge deliver [] arrivals) lake
                  (inr offered)
          ]),
      (λ h.
          elim (batches-keys (build_stream evaluate rules sha2 merge deliver [] arrivals) lake h) [
            | inl old ↦ absurd (subst (λ rows. Elem (some k) (keys rows)) empty old)
            | inr offered ↦ Offers-Arrives [] arrivals offered
          ]),
    )
