-- ===== src/Delivery.antt =====
-- From the simulator to Silver: what src/fleetstream/streaming/bronze_ingest.py and
-- src/fleetstream/streaming/silver_transform.py, with the rules of src/fleetstream/quality/rules.yml, make of the
-- messages that src/fleetstream/simulator/generator.py makes.
use mathlib.Core.Path.{subst}
use mathlib.Core.Option.{some_inj}
use fleet_stream_real_time_f.Prelude.{
  ℕ, String, Option, some, Bool, true, List, [], ◌∷◌, ◌≡◌, ◌≤◌, ◌⊎◌, inl, inr, refl, sym, ap, ◌∙◌,
  Elem, All, arith,
}
use fleet_stream_real_time_f.Prelude.Int.{ℤ, ltb_ℤ}
use fleet_stream_real_time_f.Float.{Float}
use fleet_stream_real_time_f.Payload.{TelemetryEvent, Payload, to_dict, corrupt}
use fleet_stream_real_time_f.Generator.Corruption.{kind_at}
use fleet_stream_real_time_f.Quality.Standard.{standard_rules}
use fleet_stream_real_time_f.Quality.Splitting.{Passes}
use fleet_stream_real_time_f.Quality.Verdicts.{split_valid_iff}
use fleet_stream_real_time_f.Silver.Rows.{Reading, BronzeRow, SilverRow}
use fleet_stream_real_time_f.Silver.Write.{Lake, Call}
use fleet_stream_real_time_f.Silver.Merge.{count_key, IsMerge}
use fleet_stream_real_time_f.Silver.Stream.{
  watermark, IsDeduplication, IsFed, build_stream, transform,
}
use fleet_stream_real_time_f.Silver.Sequence.{Arrives, Offers, IsInTime, transform-IsBounded}
use fleet_stream_real_time_f.Silver.Unique.{count_key-some, batches-IsExact}
use fleet_stream_real_time_f.Bronze.{KafkaMessage, shape, ingest}
use fleet_stream_real_time_f.Detection.Sql.{Functions, IsSql}
use fleet_stream_real_time_f.Detection.Wire.{parsed, IsCodec}
use fleet_stream_real_time_f.Detection.Caught.{is_text-optional}
use fleet_stream_real_time_f.Detection.Clean.{IsPlausible, clean-IsKept}
use fleet_stream_real_time_f.Detection.Quarantine.{corrupt-IsQuarantined}

module _ (dumps : Payload → String) (from_json : Option String → Reading) (s : ℤ → Functions)
    (IsTime : ℤ → Type 0) where
  -- the message carries a payload, and the JSON libraries read it as documented
  abbrev pub IsCarrying : KafkaMessage → Payload → Type 0
  IsCarrying m p = (m.value ≡ some (dumps p)) × ((now : ℤ) → IsCodec dumps from_json (s now) p)

  -- it carries a reading with this event_id that is plausible at all of the times
  abbrev pub IsIntact : (R : Type 0) ⦃f : Float R⦄ → String → KafkaMessage → Type 0
  IsIntact R k m =
      (e : TelemetryEvent R) × ((now : ℤ) → IsTime now → IsPlausible (s now) e)
      × (e.event_id ≡ k)
      × IsCarrying m (to_dict e)

  -- it carries a reading that was corrupted
  abbrev pub IsSpoiled : (R : Type 0) ⦃f : Float R⦄ → KafkaMessage → Type 0
  IsSpoiled R m =
      (e : TelemetryEvent R) × (i : ℕ) × (q : Payload) × (corrupt (to_dict e) (kind_at i) ≡ some q)
      × IsCarrying m q

alone :
    (from_json : Option String → Reading) (now : ℤ) (run_id : String) (m : KafkaMessage)
    → Elem (shape from_json now run_id m) (ingest from_json now run_id (m ∷ []))
unfolding ingest
alone from_json now run_id m = inl refl

module _ (dumps : Payload → String) (from_json : Option String → Reading) (s : ℤ → Functions)
    (IsTime : ℤ → Type 0) (evaluate : ℤ → String → BronzeRow → Option Bool)
    (sql : (now : ℤ) → IsSql (s now) (evaluate now)) (R : Type 0) ⦃f : Float R⦄ where
  event_id-shape :
      (m : KafkaMessage) (at : ℤ) (run_id : String) (e : TelemetryEvent R)
      → IsCarrying dumps from_json s IsTime m (to_dict e)
      → (shape from_json at run_id m).reading.event_id ≡ some e.event_id
  unfolding shape to_dict parsed
  event_id-shape m at run_id e (carried, codec) =
      ap (λ (r : Reading). r.event_id)
        (ap from_json carried ∙ (codec at).read (is_text-optional e.route_id))

  shape-Passes :
      (now : ℤ) (k : String) (m : KafkaMessage) (at : ℤ) (run_id : String)
      → IsTime now
      → IsIntact dumps from_json s IsTime R k m
      → Passes (evaluate now) standard_rules (shape from_json at run_id m)
  shape-Passes now k m at run_id timed (e, plausible, named, (carried, codec)) =
      let kept =
        clean-IsKept (evaluate now) dumps from_json (s now) (sql now) e (plausible now timed)
          (codec now) at run_id m (m ∷ []) (inl refl) carried in
      ((split_valid_iff (evaluate now) standard_rules (shape from_json at run_id m)
          (ingest from_json at run_id (m ∷ []))).0
        kept.0).1

  spoiled-fails :
      (now : ℤ) (m : KafkaMessage) (at : ℤ) (run_id : String)
      → IsSpoiled dumps from_json s IsTime R m
      → Passes (evaluate now) standard_rules (shape from_json at run_id m)
      → ⊥
  spoiled-fails now m at run_id (e, i, q, corrupted, (carried, codec)) passes =
      (corrupt-IsQuarantined (evaluate now) dumps from_json (s now) (sql now) e i q corrupted
          (codec now) at run_id m (m ∷ []) (inl refl) carried).1
        ((split_valid_iff (evaluate now) standard_rules (shape from_json at run_id m)
            (ingest from_json at run_id (m ∷ []))).1
          (alone from_json at run_id m, passes))

  -- the row of a message of the topic
  abbrev pub IsLanded : List KafkaMessage → BronzeRow → Type 0
  IsLanded topic b =
      (m : KafkaMessage) × (at : ℤ) × (run_id : String) × Elem m topic
      × (b ≡ shape from_json at run_id m)

  -- the row of an intact message, newer than the watermark
  abbrev pub IsPrompt : List KafkaMessage → String → List (List BronzeRow) → ℤ → BronzeRow → Type 0
  IsPrompt topic k earlier now b =
      ((m : KafkaMessage) × (at : ℤ) × (run_id : String) × IsIntact dumps from_json s IsTime R k m
        × (b ≡ shape from_json at run_id m))
      × ((t : ℤ) × (b.reading.event_time ≡ some t) × (ltb_ℤ (watermark earlier) t ≡ true))

  -- it carries an intact reading or a corrupted one
  abbrev pub IsMessage : KafkaMessage → Type 0
  IsMessage m =
      ((j : String) × IsIntact dumps from_json s IsTime R j m)
      ⊎ IsSpoiled dumps from_json s IsTime R m

  module _ (sha2 : String → String)
      (merge : List SilverRow → List SilverRow → Option (List SilverRow)) (lawful : IsMerge merge)
      (topic : List KafkaMessage) (sent : (m : KafkaMessage) → Elem m topic → IsMessage m)
      (k : String) where
    -- a row with the event_id that the rules accept at some time is that of an intact message
    intact_of :
        (now : ℤ) (b : BronzeRow)
        → IsLanded topic b
        → b.reading.event_id ≡ some k
        → Passes (evaluate now) standard_rules b
        → (m : KafkaMessage) × Elem m topic × IsIntact dumps from_json s IsTime R k m
    intact_of now b (m, at, run_id, on_topic, same) named passes = elim (sent m on_topic) [
      | inl (j, (e, plausible, made, carrying)) ↦
          let mine =
            sym (event_id-shape m at run_id e carrying)
            ∙ ap (λ (x : BronzeRow). x.reading.event_id) (sym same)
            ∙ named in
          (m, on_topic, (e, plausible, some_inj.0 mine, carrying))
      | inr spoiled ↦ absurd (
          spoiled-fails now m at run_id spoiled
            (subst (Passes (evaluate now) standard_rules) same passes))
    ]

    offered_by :
        (deliver : List (List BronzeRow) → List BronzeRow → List BronzeRow)
        (documented : IsDeduplication deliver) (bronze : List BronzeRow)
        (earlier : List (List BronzeRow))
        (arrivals : List (Call evaluate standard_rules sha2 merge × List BronzeRow))
        → ((b : BronzeRow) → Elem b bronze → IsLanded topic b)
        → All (IsFed evaluate standard_rules sha2 merge IsTime bronze) arrivals
        → Offers evaluate standard_rules sha2 merge k
            (build_stream evaluate standard_rules sha2 merge deliver earlier arrivals)
        → (m : KafkaMessage) × Elem m topic × IsIntact dumps from_json s IsTime R k m
    unfolding build_stream
    offered_by deliver documented bronze earlier [] landed fed h = absurd h
    offered_by deliver documented bronze earlier ((call, rows) ∷ more) landed fed (inr later) =
        offered_by deliver documented bronze (rows ∷ earlier) more landed fed.1 later
    offered_by deliver documented bronze earlier ((call, rows) ∷ more) landed fed
          (inl (b, here, (named, passes))) =
        intact_of call.now b (landed b (fed.0.1 b (documented.genuine earlier rows b here))) named
          passes

    in_time :
        (bronze : List BronzeRow) (earlier : List (List BronzeRow))
        (arrivals : List (Call evaluate standard_rules sha2 merge × List BronzeRow))
        → All (IsFed evaluate standard_rules sha2 merge IsTime bronze) arrivals
        → Arrives evaluate standard_rules sha2 merge (IsPrompt topic k) earlier arrivals
        → Arrives evaluate standard_rules sha2 merge
            (IsInTime evaluate standard_rules sha2 merge k)
            earlier
            arrivals
    in_time bronze earlier [] fed h = h
    in_time bronze earlier ((call, rows) ∷ more) fed (inr later) =
        inr (in_time bronze (rows ∷ earlier) more fed.1 later)
    in_time bronze earlier ((call, rows) ∷ more) fed
          (inl (b, here, ((m, at, run_id, intact, same), newer))) =
        let (e, plausible, named, carrying) = intact in
        inl (
          b,
          here,
          (
            (
              ap (λ (x : BronzeRow). x.reading.event_id) same
                  ∙ event_id-shape m at run_id e carrying
                  ∙ ap some named,
              subst (Passes (evaluate call.now) standard_rules) (sym same)
                  (shape-Passes call.now k m at run_id fed.0.0 intact),
            ),
            newer,
          ),
        )

    pub topic-IsDelivered :
        ((m n : KafkaMessage)
          → Elem n topic
          → IsIntact dumps from_json s IsTime R k m
          → (from_json n.value).event_id ≡ some k
          → IsIntact dumps from_json s IsTime R k n)
        → (deliver : List (List BronzeRow) → List BronzeRow → List BronzeRow)
          (documented : IsDeduplication deliver) (bronze : List BronzeRow)
          (arrivals : List (Call evaluate standard_rules sha2 merge × List BronzeRow)) (lake : Lake)
        → lake.silver ≡ []
        → ((b : BronzeRow) → Elem b bronze → IsLanded topic b)
        → All (IsFed evaluate standard_rules sha2 merge IsTime bronze) arrivals
        → let silver =
            (transform evaluate standard_rules sha2 merge deliver arrivals lake).silver in
          (count_key k silver ≤ 1)
          × ((count_key k silver ≡ 1
                → (m : KafkaMessage) × Elem m topic × IsIntact dumps from_json s IsTime R k m)
              × (Arrives evaluate standard_rules sha2 merge (IsPrompt topic k) [] arrivals
                  → count_key k silver ≡ 1))
    unfolding transform shape
    topic-IsDelivered whole deliver documented bronze arrivals lake empty landed fed =
        let calls = build_stream evaluate standard_rules sha2 merge deliver [] arrivals in
        let silver = (transform evaluate standard_rules sha2 merge deliver arrivals lake).silver in
        let (once, exact) =
          batches-IsExact evaluate standard_rules sha2 merge lawful k calls lake empty in
        let agree : (b c : BronzeRow) (now then : ℤ)
            → IsTime now
            → IsTime then
            → Elem b bronze
            → Elem c bronze
            → b.reading.event_id ≡ some k
            → c.reading.event_id ≡ some k
            → Passes (evaluate now) standard_rules b
            → Passes (evaluate then) standard_rules c =
          λ b c now then at later in_bronze c_in_bronze named c_named passes.
            let (m, _, intact) = intact_of now b (landed b in_bronze) named passes in
            let (n, landed_at, run_id, on_topic, same) = landed c c_in_bronze in
            subst (Passes (evaluate then) standard_rules) (sym same) (
              shape-Passes then k n landed_at run_id later (
                whole m n on_topic intact
                  (ap (λ (x : BronzeRow). x.reading.event_id) (sym same) ∙ c_named))) in
        let bounded =
          transform-IsBounded evaluate standard_rules sha2 merge lawful k deliver documented IsTime
            bronze arrivals lake empty fed agree in
        (
          once,
          (
            (λ one. offered_by deliver documented bronze [] arrivals landed fed (exact.0 one)),
            (λ prompt.
                let stored =
                  count_key-some k silver (bounded.0 (in_time bronze [] arrivals fed prompt)) in
                omega (arith, once, stored)),
          ),
        )
