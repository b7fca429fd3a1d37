-- ===== src/Tests/Streaming.antt =====
-- Sequences of batches at concrete rows, and a deduplication that has the laws of Silver.Stream.
use mathlib.Core.Path.{subst}
use fleet_stream_real_time_f.Prelude.{
  ◌≤◌, ◌↔◌, contrary, arith, sym, ap, ◌∙◌, Option, none, some, Bool, true, false, List, [], ◌∷◌,
  ◌≡◌, inl, inr, refl, Elem, Elem-map, Bool-cases, if◌then◌else◌,
}
use fleet_stream_real_time_f.Prelude.Int.{ℤ, pos, ltb_ℤ}
use fleet_stream_real_time_f.Silver.Rows.{BronzeRow}
use fleet_stream_real_time_f.Silver.Newest.{keys}
use fleet_stream_real_time_f.Silver.Merge.{count_key}
use fleet_stream_real_time_f.Silver.Stream.{
  watermark, event_ids, IsDeduplication, batches, transform,
}
use fleet_stream_real_time_f.Silver.Sequence.{
  Arrives, Offers, IsInTime, IsNotLate, transform-IsBounded,
}
use fleet_stream_real_time_f.Silver.Unique.{batches-IsExact}
use fleet_stream_real_time_f.Tests.Upsert.{upsert, upsert-IsMerge}
use fleet_stream_real_time_f.Tests.Batching.{
  Anytime, evaluate, rules, batch, good, good-Passes, empty_lake,
}
use fleet_stream_real_time_f.Tests.Reporting.{consistent, calls, within}

abbrev is_late : ℤ → Option ℤ → Bool
is_late w none = false
is_late w (some t) = ltb_ℤ t w

-- too late rows are dropped, and no others
unfoldable pub on_time : ℤ → List BronzeRow → List BronzeRow
on_time w [] = []
on_time w (b ∷ rows) =
    let rest = on_time w rows in if is_late w b.reading.event_time then rest else b ∷ rest

on_time-Elem :
    (w : ℤ) (b : BronzeRow) (rows : List BronzeRow)
    → Elem b (on_time w rows)
    → Elem b rows × (is_late w b.reading.event_time ≡ false)
unfolding on_time
on_time-Elem w b [] h = absurd h
on_time-Elem w b (x ∷ rows) h = elim (Bool-cases (is_late w x.reading.event_time)) [
  | inl late ↦ let (e, timely) = on_time-Elem w b rows (simp (late) at h) in (inr e, timely)
  | inr timely ↦ elim (simp (timely) at h) [
    | inl e ↦ (inl e, rw e timely)
    | inr later ↦ let (e, also) = on_time-Elem w b rows later in (inr e, also)
  ]
]

elem_on_time :
    (w : ℤ) (b : BronzeRow) (rows : List BronzeRow)
    → Elem b rows
    → is_late w b.reading.event_time ≡ false
    → Elem b (on_time w rows)
unfolding on_time
elem_on_time w b [] h timely = absurd h
elem_on_time w b (x ∷ rows) (inl e) timely =
    rw (ap (λ (y : BronzeRow). is_late w y.reading.event_time) (sym e) ∙ timely) (inl e)
elem_on_time w b (x ∷ rows) (inr h) timely = elim (Bool-cases (is_late w x.reading.event_time)) [
  | inl late ↦ rw late (elem_on_time w b rows h timely)
  | inr kept ↦ rw kept (inr (elem_on_time w b rows h timely))
]

some_eq : {s t : ℤ} → some s ≡ some t → s ≡ t
some_eq e = cc

late_of : (w t : ℤ) (o : Option ℤ) → o ≡ some t → ltb_ℤ t w ≡ true → is_late w o ≡ false → ⊥
late_of w t none at late timely = cc
late_of w t (some s) at late timely =
    contrary (subst (λ x. ltb_ℤ x w ≡ true) (sym (some_eq at)) late) timely

timely_of : (w t : ℤ) (o : Option ℤ) → o ≡ some t → ltb_ℤ w t ≡ true → is_late w o ≡ false
timely_of w t none at newer = refl
timely_of w t (some s) at newer =
    subst (λ x. ltb_ℤ x w ≡ false) (sym (some_eq at)) (asymm w t newer)
  where
    asymm : (w t : ℤ) → ltb_ℤ w t ≡ true → ltb_ℤ t w ≡ false
    asymm w t h = ground arith

abbrev pub deliver : List (List BronzeRow) → List BronzeRow → List BronzeRow
deliver earlier rows = on_time (watermark earlier) rows

pub documented : IsDeduplication deliver
documented = record {
  genuine = λ earlier rows b h. (on_time-Elem (watermark earlier) b rows h).0;
  timely = λ earlier rows b t h at late.
      late_of (watermark earlier) t b.reading.event_time at late
        (on_time-Elem (watermark earlier) b rows h).1;
  covers = λ earlier rows b k t h named at newer. inl (
      subst (λ j. Elem j (event_ids (deliver earlier rows))) named
        (Elem-map (λ (x : BronzeRow). x.reading.event_id) b (deliver earlier rows)
          (elem_on_time (watermark earlier) b rows h
            (timely_of (watermark earlier) t b.reading.event_time at newer))));
}

transform-IsBounded_example :
    let ids = keys (transform evaluate rules (λ s. s) upsert deliver calls empty_lake).silver in
    (Arrives evaluate rules (λ s. s) upsert (IsInTime evaluate rules (λ s. s) upsert "a") [] calls
      → Elem (some "a") ids)
    × (Elem (some "a") ids
        → Arrives evaluate rules
            (λ s. s)
            upsert
            (IsNotLate evaluate rules (λ s. s) upsert "a")
            []
            calls)
transform-IsBounded_example =
    transform-IsBounded evaluate rules (λ s. s) upsert upsert-IsMerge "a" deliver documented Anytime
      batch calls empty_lake refl within
      (λ b c now until at later e f p q. (consistent "a" b c now until at later e f p q).1)

-- a first row of a stream is never late
stored :
    Elem
      (some "a")
      (keys (transform evaluate rules (λ s. s) upsert deliver calls empty_lake).silver)
unfolding watermark
stored =
    transform-IsBounded_example.0
      (inl (good, inl refl, ((refl, good-Passes), (pos 1_700_000_000_000, refl, refl))))

batches-IsExact_example :
    let silver = (batches evaluate rules (λ s. s) upsert calls empty_lake).silver in
    (count_key "a" silver ≤ 1)
    × ((count_key "a" silver ≡ 1) ↔ Offers evaluate rules (λ s. s) upsert "a" calls)
batches-IsExact_example =
    batches-IsExact evaluate rules (λ s. s) upsert upsert-IsMerge "a" calls empty_lake refl
