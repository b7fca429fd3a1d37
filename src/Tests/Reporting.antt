-- ===== src/Tests/Reporting.antt =====
-- The verification suite at concrete tables.
use mathlib.Core.Path.{subst}
use fleet_stream_real_time_f.Prelude.{
  ℕ, String, str_eq, Bool, true, false, Option, none, some, List, [], ◌∷◌, ◌≡◌, ◌⊎◌, inl, inr, refl,
  sym, ap, ◌∙◌, Elem, All, AllDistinct,
}
use fleet_stream_real_time_f.Prelude.Int.{pos}
use fleet_stream_real_time_f.Quality.Rules.{rule_names, is_critical}
use fleet_stream_real_time_f.Quality.Splitting.{Passes}
use fleet_stream_real_time_f.Silver.Rows.{BronzeRow}
use fleet_stream_real_time_f.Silver.Write.{Call}
use fleet_stream_real_time_f.Verify.Checks.{check, skip}
use fleet_stream_real_time_f.Verify.Suite.{verify}
use fleet_stream_real_time_f.Silver.Stream.{IsFed, batches}
use fleet_stream_real_time_f.Verify.Passing.{IsConsistent}
use fleet_stream_real_time_f.Verify.Verdict.{Succeeds, verify-Succeeds}
use fleet_stream_real_time_f.Verify.Contents.{missing, check_manifest_rates}
use fleet_stream_real_time_f.Tests.Upsert.{upsert, upsert-IsMerge}
use fleet_stream_real_time_f.Tests.Batching.{
  all_named, Anytime, evaluate, rules, speed_rule, batch, good, bad, bronze, reading, first_call,
  second_call, empty_lake,
}

distinct : AllDistinct (rule_names rules)
unfolding rule_names
distinct = ((λ h. h), tt)

-- The rows of "a" pass, those of "b" do not; all have one time.
abbrev IsSorted : BronzeRow → Type 0
IsSorted b =
    (b.reading.event_time ≡ some (pos 1_700_000_000_000))
    × (((b.reading.event_id ≡ some "a") × Passes (evaluate (pos 0)) rules b)
        ⊎ ((b.reading.event_id ≡ some "b") × (Passes (evaluate (pos 0)) rules b → ⊥)))

good-Passes : (n : ℕ) → Passes (evaluate (pos 0)) rules (bronze n (reading "a" (pos 50_000_000)))
good-Passes n rule e c = refl

bad_fails : Passes (evaluate (pos 0)) rules bad → ⊥
unfolding is_critical
bad_fails passes = refuted (passes speed_rule (inl refl) refl)
  where
    refuted : evaluate (pos 0) speed_rule.expression bad ≡ some true → ⊥
    refuted e = cc

sorted : (b : BronzeRow) → Elem b batch → IsSorted b
sorted b (inl e) = subst IsSorted (sym e) (refl, inl (refl, good-Passes 1))
sorted b (inr (inl e)) = subst IsSorted (sym e) (refl, inl (refl, good-Passes 2))
sorted b (inr (inr (inl e))) = subst IsSorted (sym e) (refl, inr (refl, bad_fails))
sorted b (inr (inr (inr h))) = absurd h

apart :
    (k : String) (o p : Option String) → o ≡ some k → p ≡ some k → o ≡ some "a" → p ≡ some "b" → ⊥
apart k o p e h x y = clash (sym x ∙ e ∙ sym h ∙ y)
  where
    clash : ◌≡◌ {A = Option String} (some "a") (some "b") → ⊥
    clash z = true_false (ap is_a z)
      where
        is_a : Option String → Bool
        is_a none = false
        is_a (some s) = str_eq s "a"

        true_false : true ≡ false → ⊥
        true_false h = cc

pub consistent : IsConsistent evaluate rules Anytime batch
consistent k b c now then _ _ in_batch c_in_batch named c_named =
    let (time, verdict) = sorted b in_batch in
    let (c_time, c_verdict) = sorted c c_in_batch in (time ∙ sym c_time, agree verdict c_verdict)
  where
    agree :
        ((b.reading.event_id ≡ some "a") × Passes (evaluate (pos 0)) rules b)
          ⊎ ((b.reading.event_id ≡ some "b") × (Passes (evaluate (pos 0)) rules b → ⊥))
        → ((c.reading.event_id ≡ some "a") × Passes (evaluate (pos 0)) rules c)
          ⊎ ((c.reading.event_id ≡ some "b") × (Passes (evaluate (pos 0)) rules c → ⊥))
        → Passes (evaluate (pos 0)) rules b
        → Passes (evaluate (pos 0)) rules c
    agree _ (inl (c_id, c_passes)) passes = c_passes
    agree (inl (id, _)) (inr (c_id, _)) passes =
        absurd (apart k b.reading.event_id c.reading.event_id named c_named id c_id)
    agree (inr (_, fails)) (inr _) passes = absurd (fails passes)

abbrev pub calls : List (Call evaluate rules (λ s. s) upsert × List BronzeRow)
calls = (first_call, batch) ∷ (second_call, batch) ∷ []

pub within : All (IsFed evaluate rules (λ s. s) upsert Anytime batch) calls
within = ((tt, λ b h. h), ((tt, λ b h. h), tt))

verify-Succeeds_example :
    Succeeds evaluate rules
      (λ s. s)
      upsert
      (verify evaluate rules
        (λ s. s)
        upsert
        second_call
        batch
        missing
        (batches evaluate rules (λ s. s) upsert calls empty_lake)).0
unfolding check_manifest_rates
verify-Succeeds_example =
    verify-Succeeds evaluate rules (λ s. s) upsert upsert-IsMerge distinct Anytime second_call good
      (bronze 2 (reading "a" (pos 50_000_000)) ∷ bad ∷ []) missing
      (check "manifest reconciliation" skip) calls empty_lake refl refl refl consistent all_named
      within (λ b h. inl h) refl λ e. cc
