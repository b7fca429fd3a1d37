-- ===== src/Tests/Delivering.antt =====
-- Three messages on their way to Silver, one of them corrupted and one sent twice.
use mathlib.Core.Path.{subst}
use mathlib.Core.Option.{some_inj}
use fleet_stream_real_time_f.Prelude.{
  contrary, ◌≤◌, ℕ, String, str_eq, Option, none, some, true, List, [], ◌∷◌, ◌≡◌, sym, ap, ◌∙◌,
  arith, inl, inr, refl, Elem, All, if◌then◌else◌,
}
use fleet_stream_real_time_f.Prelude.Int.{ℤ, pos}
use fleet_stream_real_time_f.Float.Fixed.{fixed}
use fleet_stream_real_time_f.Payload.{TelemetryEvent, Json, text, num, Payload, to_dict, corrupt}
use fleet_stream_real_time_f.Generator.Corruption.{kind_at}
use fleet_stream_real_time_f.Quality.Standard.{standard_rules}
use fleet_stream_real_time_f.Silver.Rows.{Reading, BronzeRow}
use fleet_stream_real_time_f.Silver.Write.{Call}
use fleet_stream_real_time_f.Silver.Merge.{count_key}
use fleet_stream_real_time_f.Silver.Stream.{watermark, IsFed, transform}
use fleet_stream_real_time_f.Silver.Sequence.{Arrives}
use fleet_stream_real_time_f.Bronze.{KafkaMessage, shape}
use fleet_stream_real_time_f.Detection.Wire.{parsed}
use fleet_stream_real_time_f.Delivery.{
  IsIntact, IsSpoiled, IsMessage, IsLanded, IsPrompt, topic-IsDelivered,
}
use fleet_stream_real_time_f.Tests.Upsert.{upsert, upsert-IsMerge}
use fleet_stream_real_time_f.Tests.Batching.{empty_lake}
use fleet_stream_real_time_f.Tests.Detecting.{
  spark_at, select_at, select_at-IsSql, event, HasHappened, event_at-IsPlausible,
}
use fleet_stream_real_time_f.Tests.Streaming.{deliver, documented}

abbrev other : TelemetryEvent ℤ
other = record event { event_id = "e2" }

abbrev overfull : Payload
overfull = record (to_dict other) { fuel_level = num (pos 142_700_000) }

is_overfull : corrupt (to_dict other) (kind_at 2) ≡ some overfull
unfolding corrupt
is_overfull = refl

abbrev text_of : Json → String
text_of (text t) = t
text_of _ = ""

-- a codec that writes the event_id
abbrev dumps : Payload → String
dumps p = text_of p.event_id

abbrev from_json : Option String → Reading
from_json none = parsed (to_dict event)
from_json (some t) = if str_eq t "e2" then parsed overfull else parsed (to_dict event)

abbrev message : String → ℕ → KafkaMessage
message value offset = record {
  value = some value;
  topic = "telemetry";
  partition = 2;
  offset = offset;
  timestamp = pos 7;
}

abbrev topic : List KafkaMessage
topic = message "e1" 40 ∷ message "e2" 41 ∷ message "e1" 42 ∷ []

abbrev call : Call select_at standard_rules (λ s. s) upsert
call = record {
  now = pos 1_788_800_000_200_000;
  batch_id = pos 1;
  run_id = "silver";
  recordable = true;
}

abbrev row : KafkaMessage → BronzeRow
row m = shape from_json (pos 8) "run" m

abbrev calls : List (Call select_at standard_rules (λ s. s) upsert × List BronzeRow)
calls =
    (call, row (message "e1" 40) ∷ row (message "e2" 41) ∷ [])
    ∷ (call, row (message "e1" 42) ∷ row (message "e1" 40) ∷ [])
    ∷ []

intact : (offset : ℕ) → IsIntact dumps from_json spark_at HasHappened ℤ "e1" (message "e1" offset)
unfolding to_dict
intact offset = (
  event,
  event_at-IsPlausible,
  refl,
  (refl, λ now. record { read = λ _. refl; speed_found = λ _ _. refl }),
)

spoiled : (offset : ℕ) → IsSpoiled dumps from_json spark_at HasHappened ℤ (message "e2" offset)
unfolding to_dict
spoiled offset = (
  other,
  2,
  overfull,
  is_overfull,
  (refl, λ now. record { read = λ _. refl; speed_found = λ _ _. refl }),
)

abbrev IsSent : KafkaMessage → Type 0
IsSent m = IsMessage dumps from_json spark_at HasHappened select_at select_at-IsSql ℤ m

sent : (m : KafkaMessage) → Elem m topic → IsSent m
sent m (inl e) = subst IsSent (sym e) (inl ("e1", intact 40))
sent m (inr (inl e)) = subst IsSent (sym e) (inr (spoiled 41))
sent m (inr (inr (inl e))) = subst IsSent (sym e) (inl ("e1", intact 42))
sent m (inr (inr (inr h))) = absurd h

-- the only corrupted message has another event_id
whole :
    (m n : KafkaMessage)
    → Elem n topic
    → IsIntact dumps from_json spark_at HasHappened ℤ "e1" m
    → (from_json n.value).event_id ≡ some "e1"
    → IsIntact dumps from_json spark_at HasHappened ℤ "e1" n
unfolding to_dict parsed
whole m n (inl e) _ _ =
    subst (IsIntact dumps from_json spark_at HasHappened ℤ "e1") (sym e) (intact 40)
whole m n (inr (inl e)) _ named =
    absurd (clash (ap (λ (x : KafkaMessage). (from_json x.value).event_id) (sym e) ∙ named))
  where
    clash : (from_json (some "e2")).event_id ≡ some "e1" → ⊥
    clash h = contrary (ap (λ t. str_eq t "e1") (some_inj.0 h)) refl
whole m n (inr (inr (inl e))) _ _ =
    subst (IsIntact dumps from_json spark_at HasHappened ℤ "e1") (sym e) (intact 42)
whole m n (inr (inr (inr h))) _ _ = absurd h

abbrev bronze : List BronzeRow
bronze = row (message "e1" 40) ∷ row (message "e2" 41) ∷ row (message "e1" 42) ∷ []

abbrev Landed : BronzeRow → Type 0
Landed = IsLanded dumps from_json spark_at HasHappened select_at select_at-IsSql ℤ topic

landed : (b : BronzeRow) → Elem b bronze → Landed b
landed b (inl e) = (message "e1" 40, pos 8, "run", inl refl, e)
landed b (inr (inl e)) = (message "e2" 41, pos 8, "run", inr (inl refl), e)
landed b (inr (inr (inl e))) = (message "e1" 42, pos 8, "run", inr (inr (inl refl)), e)
landed b (inr (inr (inr h))) = absurd h

fed : All (IsFed select_at standard_rules (λ s. s) upsert HasHappened bronze) calls
fed = ((omega arith, first), ((omega arith, second), tt))
  where
    first :
        (b : BronzeRow)
        → Elem b (row (message "e1" 40) ∷ row (message "e2" 41) ∷ [])
        → Elem b bronze
    first b (inl e) = inl e
    first b (inr (inl e)) = inr (inl e)
    first b (inr (inr h)) = absurd h

    second :
        (b : BronzeRow)
        → Elem b (row (message "e1" 42) ∷ row (message "e1" 40) ∷ [])
        → Elem b bronze
    second b (inl e) = inr (inr (inl e))
    second b (inr (inl e)) = inl e
    second b (inr (inr h)) = absurd h

topic-IsDelivered_example :
    let silver =
      (transform select_at standard_rules (λ s. s) upsert deliver calls empty_lake).silver in
    (count_key "e1" silver ≤ 1)
    × ((count_key "e1" silver ≡ 1
          → (m : KafkaMessage) × Elem m topic
            × IsIntact dumps from_json spark_at HasHappened ℤ "e1" m)
        × (Arrives select_at standard_rules
              (λ s. s)
              upsert
              (IsPrompt dumps from_json spark_at HasHappened select_at select_at-IsSql ℤ topic "e1")
              []
              calls
            → count_key "e1" silver ≡ 1))
topic-IsDelivered_example =
    topic-IsDelivered dumps from_json spark_at HasHappened select_at select_at-IsSql ℤ (λ s. s)
      upsert upsert-IsMerge topic sent "e1" whole deliver documented bronze calls empty_lake refl
      landed fed

-- the event that was sent twice and arrived three times is in Silver once
stored_once :
    count_key "e1"
      (transform select_at standard_rules (λ s. s) upsert deliver calls empty_lake).silver
    ≡ 1
unfolding watermark to_dict shape parsed
stored_once = topic-IsDelivered_example.1.1 (
    inl (
      row (message "e1" 40),
      inl refl,
      ((message "e1" 40, pos 8, "run", intact 40, refl), (pos 1_788_800_000_123_000, refl, refl)),
    ))
