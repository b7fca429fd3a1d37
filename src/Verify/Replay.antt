-- ===== src/Verify/Replay.antt =====
-- What the checks of src/fleetstream/jobs/verify.py can find in tables that `write_batch` has written.
use mathlib.Core.Path.{subst}
use fleet_stream_real_time_f.Prelude.Int.{ℤ}
use fleet_stream_real_time_f.Silver.Counting.{batch_counts-balances}
use fleet_stream_real_time_f.Silver.Merge.{is_known-some, contains_key_elem}
use fleet_stream_real_time_f.Prelude.{
  ℕ, zero, suc, ◌+◌, ◌==◌, String, Option, none, some, Bool, true, false, List, [], ◌∷◌, length,
  take, ◌≡◌, ◌≢◌, inl, inr, refl, sym, ap, ◌∙◌, Elem, All, All-append, arith, Bool-cases,
}
use fleet_stream_real_time_f.Quality.Rules.{Rule}
use fleet_stream_real_time_f.Quality.Verdicts.{split_valid_iff}
use fleet_stream_real_time_f.Reconciliation.{Counts, balances, record_counts}
use fleet_stream_real_time_f.Silver.Rows.{BronzeRow, SilverRow, key}
use fleet_stream_real_time_f.Silver.Newest.{keys, dedupe-AllDistinct, dedupe-Elem}
use fleet_stream_real_time_f.Silver.Write.{Lake, Call, write_rows, write_batch}
use fleet_stream_real_time_f.Silver.Merge.{is_known, count_new, IsMerge, count_new_known}
use fleet_stream_real_time_f.Silver.Enrichment.{enrich_source}
use fleet_stream_real_time_f.Silver.Batches.{prepared, merged}
use fleet_stream_real_time_f.Silver.Stream.{batches}
use fleet_stream_real_time_f.Verify.Checks.{
  Status, pass, fail, is_in, sampled, count_unbalanced, check_reconciliation_balances, compared,
  replayed, check_idempotency,
}

elem_take : {A : Type 0} (a : A) (n : ℕ) (xs : List A) → Elem a (take n xs) → Elem a xs
elem_take a zero xs h = absurd h
elem_take a (suc n) [] h = absurd h
elem_take a (suc n) (x ∷ xs) (inl e) = inl e
elem_take a (suc n) (x ∷ xs) (inr h) = inr (elem_take a n xs h)

-- the row has an event_id, that of a row among those given
abbrev IsKnownTo : List (Option String) → BronzeRow → Type 0
IsKnownTo ids b = (k : String) × (b.reading.event_id ≡ some k) × Elem (some k) ids

pub known_of :
    (k : Option String) (ids : List (Option String))
    → is_in k ids ≡ true
    → (j : String) × (k ≡ some j) × Elem (some j) ids
known_of none ids h = cc
known_of (some k) ids h = (k, refl, contains_key_elem (some k) ids h)

sampled-IsKnownTo :
    (ids : List (Option String)) (b : BronzeRow) (bronze : List BronzeRow)
    → Elem b (sampled ids bronze)
    → IsKnownTo ids b
unfolding sampled
sampled-IsKnownTo ids b [] h = absurd h
sampled-IsKnownTo ids b (x ∷ bronze) h = elim (Bool-cases (is_in x.reading.event_id ids)) [
  | inl found ↦ elim (simp (found) at h) [
    | inl e ↦ subst (IsKnownTo ids) (sym e) (known_of x.reading.event_id ids found)
    | inr later ↦ sampled-IsKnownTo ids b bronze later
  ]
  | inr absent ↦ sampled-IsKnownTo ids b bronze (simp (absent) at h)
]

unbalanced_none :
    (table : List Counts) → All (λ c. balances c ≡ true) table → count_unbalanced table ≡ 0
unfolding count_unbalanced
unbalanced_none [] h = refl
unbalanced_none (c ∷ table) h = rw (h.0) (unbalanced_none table h.1)

pub suc_not_zero : (n : ℕ) → (suc n == 0) ≡ false
suc_not_zero n = ground arith

check_passes :
    (c : Counts) (table : List Counts)
    → All (λ c. balances c ≡ true) (c ∷ table)
    → (check_reconciliation_balances (c ∷ table)).status ≡ pass
unfolding check_reconciliation_balances
check_passes c table h = rw (h.0, unbalanced_none table h.1, suc_not_zero (length table)) refl

pass_not_fail : {s : Status} → s ≡ pass → s ≢ fail
pass_not_fail p e = cc

not_failed :
    (table : List Counts)
    → All (λ c. balances c ≡ true) table
    → (check_reconciliation_balances table).status ≢ fail
unfolding check_reconciliation_balances
not_failed [] h = λ e. cc
not_failed (c ∷ table) h =
    pass_not_fail (unfold check_reconciliation_balances in check_passes c table h)

equal : (a b : ℕ) → a ≡ b → (a == b) ≡ true
equal a b h = ground arith

recorded :
    (appends : Bool) (c : Counts) (table : List Counts)
    → balances c ≡ true
    → All (λ c. balances c ≡ true) table
    → All (λ c. balances c ≡ true) (record_counts appends c table)
unfolding record_counts
recorded true c table e h = All-append (λ c. balances c ≡ true) table (c ∷ []) h (e, tt)
recorded false c table e h = h

module _ (evaluate : ℤ → String → BronzeRow → Option Bool) (rules : List Rule)
    (sha2 : String → String) (merge : List SilverRow → List SilverRow → Option (List SilverRow))
    (lawful : IsMerge merge) where
  known_batch :
      (call : Call evaluate rules sha2 merge) (b : BronzeRow) (rows : List BronzeRow) (lake : Lake)
      → ((c : BronzeRow) → Elem c (b ∷ rows) → IsKnownTo (keys lake.silver) c)
      → length (write_batch evaluate rules sha2 merge call (b ∷ rows) lake).1.silver
        ≡ length lake.silver
  known_batch call b rows lake named = omega (arith, size, count_new_known lake.silver source known)
    where
      source : List SilverRow
      source = prepared evaluate rules sha2 merge lawful call (b ∷ rows) lake

      size :
          length (write_batch evaluate rules sha2 merge call (b ∷ rows) lake).1.silver
          ≡ length lake.silver + count_new lake.silver source
      size = lawful.size _ _ _ (merged evaluate rules sha2 merge lawful call b rows lake).1

      known : (s : SilverRow) → Elem s source → is_known (key s) lake.silver ≡ true
      known s h =
          let (c, e, same) =
            enrich_source call.now call.run_id lake.vehicles lake.drivers s _ (dedupe-Elem s _ h) in
          let (in_batch, passes) = (split_valid_iff (evaluate call.now) rules c (b ∷ rows)).0 e in
          let (id, p, there) = named c in_batch in
          is_known-some id s lake.silver (ap (λ r. r.event_id) same ∙ p) there

  compared_pass :
      (before : ℕ) (o : Bool × Lake)
      → o.0 ≡ true
      → length o.1.silver ≡ before
      → (compared evaluate rules sha2 merge before o).0 ≡ some pass
  compared_pass before (false, lake) h e = cc
  compared_pass before (true, lake) h e = rw (equal (length lake.silver) before e) refl

  passed : {o : Option Status} → o ≡ some pass → (o ≢ some fail) × (o ≢ none)
  passed h = ((λ e. cc), λ e. cc)

  replayed-pass :
      (call : Call evaluate rules sha2 merge) (replay : List BronzeRow) (lake : Lake)
      → ((c : BronzeRow) → Elem c replay → IsKnownTo (keys lake.silver) c)
      → ((replayed evaluate rules sha2 merge call replay lake).0 ≢ some fail)
        × ((replayed evaluate rules sha2 merge call replay lake).0 ≢ none)
  replayed-pass call [] lake named = ((λ e. cc), λ e. cc)
  replayed-pass call (b ∷ rows) lake named = passed (
      compared_pass (length lake.silver)
        (write_batch evaluate rules sha2 merge call (b ∷ rows) lake)
        (merged evaluate rules sha2 merge lawful call b rows lake).0
        (known_batch call b rows lake named))

  -- With a lawful MERGE, the check that replays rows of Bronze whose event_id is in Silver neither fails
  -- nor raises, whatever the two tables hold.
  pub check_idempotency-pass :
      (call : Call evaluate rules sha2 merge) (bronze : List BronzeRow) (lake : Lake)
      → ((check_idempotency evaluate rules sha2 merge call bronze lake).0 ≢ some fail)
        × ((check_idempotency evaluate rules sha2 merge call bronze lake).0 ≢ none)
  unfolding check_idempotency
  check_idempotency-pass call bronze lake = elim (Bool-cases (length lake.silver == 0)) [
    | inl empty ↦ simp (empty) ((λ e. cc), λ e. cc)
    | inr full ↦ simp (full) (
        replayed-pass call (sampled (take 500 (keys lake.silver)) bronze) lake λ c h.
          let (k, e, there) = sampled-IsKnownTo (take 500 (keys lake.silver)) c bronze h in
          (k, e, elem_take (some k) 500 (keys lake.silver) there))
  ]

  balanced_after :
      (call : Call evaluate rules sha2 merge) (rows : List BronzeRow) (lake : Lake)
      → All (λ c. balances c ≡ true) lake.reconciliation
      → All
          (λ c. balances c ≡ true)
          (write_batch evaluate rules sha2 merge call rows lake).1.reconciliation
  unfolding write_batch write_rows
  balanced_after call [] lake h = h
  balanced_after call (b ∷ rows) lake h =
      let (result, e) =
        lawful.accepts lake.silver (prepared evaluate rules sha2 merge lawful call (b ∷ rows) lake)
          (dedupe-AllDistinct _) in
      rw e (
        recorded call.recordable _ lake.reconciliation
          (batch_counts-balances evaluate rules sha2 merge call _ _ _) h)

  balanced_batches :
      (calls : List (Call evaluate rules sha2 merge × List BronzeRow)) (lake : Lake)
      → All (λ c. balances c ≡ true) lake.reconciliation
      → All (λ c. balances c ≡ true) (batches evaluate rules sha2 merge calls lake).reconciliation
  balanced_batches [] lake h = h
  balanced_batches ((call, rows) ∷ more) lake h =
      balanced_batches more (write_batch evaluate rules sha2 merge call rows lake).1
        (balanced_after call rows lake h)

  -- With a lawful MERGE, after any sequence of batches from a table of counters without rows, the check of
  -- the counters does not fail.
  pub check_reconciliation_balances-pass :
      (calls : List (Call evaluate rules sha2 merge × List BronzeRow)) (lake : Lake)
      → lake.reconciliation ≡ []
      → (check_reconciliation_balances
          (batches evaluate rules sha2 merge calls lake).reconciliation).status
        ≢ fail
  check_reconciliation_balances-pass calls lake h =
      not_failed (batches evaluate rules sha2 merge calls lake).reconciliation
        (balanced_batches calls lake (subst (All (λ c. balances c ≡ true)) (sym h) tt))
