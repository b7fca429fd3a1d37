-- ===== src/Verify/Counted.antt =====
-- When the checks of conservation and of duplicates in src/fleetstream/jobs/verify.py do not fail: by the numbers that
-- they compare.
use mathlib.Core.Path.{subst}
use fleet_stream_real_time_f.Prelude.{
  contrary, ◌-◌, if◌then◌else◌, ℕ, suc, ◌+◌, ◌≤◌, ◌==◌, ltb, String, Option, none, some, Bool, true,
  false, List, [], ◌∷◌, map, length, ◌≡◌, ◌≢◌, inl, inr, refl, sym, ap, Elem, All, AllDistinct,
  arith,
}
use fleet_stream_real_time_f.Silver.Rows.{BronzeRow, SilverRow, QuarantineRow, key}
use fleet_stream_real_time_f.Silver.Newest.{keys, same_key_iff}
use fleet_stream_real_time_f.Silver.Dedupe.{same_key}
use fleet_stream_real_time_f.Silver.Write.{Lake}
use fleet_stream_real_time_f.Silver.Merge.{count_key}
use fleet_stream_real_time_f.Silver.Unique.{count_key-some}
use fleet_stream_real_time_f.Verify.Checks.{
  Check, pass, fail, skip, not_null, count_ids, bronze_id, quarantine_key, tolerance,
  check_row_conservation, check_duplicates,
}

pub not_null-Elem :
    (j : Option String) (ks : List (Option String))
    → Elem j (not_null ks)
    → (k : String) × (j ≡ some k) × Elem (some k) ks
not_null-Elem j [] h = absurd h
not_null-Elem j (none ∷ ks) h = let (k, e, there) = not_null-Elem j ks h in (k, e, inr there)
not_null-Elem j (some k ∷ ks) (inl e) = (k, e, inl refl)
not_null-Elem j (some k ∷ ks) (inr h) =
    let (i, e, there) = not_null-Elem j ks h in (i, e, inr there)

pub Elem-not_null :
    (k : String) (ks : List (Option String)) → Elem (some k) ks → Elem (some k) (not_null ks)
Elem-not_null k [] h = absurd h
Elem-not_null k (none ∷ ks) (inl e) = cc
Elem-not_null k (none ∷ ks) (inr h) = Elem-not_null k ks h
Elem-not_null k (some j ∷ ks) (inl e) = inl e
Elem-not_null k (some j ∷ ks) (inr h) = inr (Elem-not_null k ks h)

abbrev pub AreNamed : List SilverRow → Type 0
AreNamed rows = (s : SilverRow) → Elem s rows → (k : String) × (key s ≡ some k)

not_null_named :
    (o : Option String) (ks : List (Option String)) (k : String)
    → o ≡ some k
    → not_null ks ≡ ks
    → not_null (o ∷ ks) ≡ o ∷ ks
not_null_named none ks k e h = cc
not_null_named (some j) ks k e h = ap (λ l. some j ∷ l) h

pub not_null_same : (rows : List SilverRow) → AreNamed rows → not_null (keys rows) ≡ keys rows
not_null_same [] named = refl
not_null_same (s ∷ rows) named =
    let (k, e) = named s (inl refl) in
    not_null_named (key s) (keys rows) k e (not_null_same rows λ t h. named t (inr h))

-- a key that stands once at the head does not stand behind it
count_key-only :
    (k : String) (s : SilverRow) (rows : List SilverRow)
    → same_key (some k) (key s) ≡ true
    → count_key k (s ∷ rows) ≤ 1
    → count_key k rows ≡ 0
unfolding count_key
count_key-only k s rows same h =
    let fewer : suc (count_key k rows) ≤ 1 = simp (same) at h in omega arith

count_key-tail :
    (k : String) (s : SilverRow) (rows : List SilverRow)
    → count_key k (s ∷ rows) ≤ 1
    → count_key k rows ≤ 1
unfolding count_key
count_key-tail k s rows h = ground arith

pub keys-AllDistinct :
    (rows : List SilverRow)
    → AreNamed rows
    → ((k : String) → count_key k rows ≤ 1)
    → AllDistinct (keys rows)
keys-AllDistinct [] named once = tt
keys-AllDistinct (s ∷ rows) named once =
    let (k, e) = named s (inl refl) in
    let gone = count_key-only k s rows ((same_key_iff (some k) (key s)).1 (sym e)) (once k) in
    (
      (λ h.
          let there = count_key-some k rows (subst (λ j. Elem j (keys rows)) e h) in
          absurd (omega arith)),
      keys-AllDistinct rows (λ t h. named t (inr h)) (λ j. count_key-tail j s rows (once j)),
    )

skip_or_pass : (a : Bool) → (if a then skip else pass) ≢ fail
skip_or_pass true e = cc
skip_or_pass false e = cc

skip_or_true : (a b : Bool) → b ≡ true → (if a then skip else (if b then pass else fail)) ≢ fail
skip_or_true true b h e = cc
skip_or_true false true h e = cc
skip_or_true false false h e = contrary h refl

skip_or_false : (a b : Bool) → b ≡ false → (if a then skip else (if b then fail else pass)) ≢ fail
skip_or_false true b h e = cc
skip_or_false false true h e = contrary refl h
skip_or_false false false h e = cc

equal : (a b : ℕ) → a ≡ b → (a == b) ≡ true
equal a b h = ground arith

not_above : (t d a : ℕ) → d ≤ a → ltb (t + a) d ≡ false
not_above t d a h = ground arith

pub duplicates_pass :
    (bronze : List BronzeRow) (lake : Lake)
    → length lake.silver ≡ count_ids (keys lake.silver)
    → All (λ (c : Check). c.status ≢ fail) (check_duplicates bronze lake)
unfolding check_duplicates
duplicates_pass bronze lake same = (
  skip_or_pass ((length bronze - count_ids (map bronze_id bronze)) == 0),
  (
    skip_or_true (length lake.silver == 0) (length lake.silver == count_ids (keys lake.silver))
        (equal (length lake.silver) (count_ids (keys lake.silver)) same),
    tt,
  ),
)

pub conservation_pass :
    (bronze : List BronzeRow) (lake : Lake)
    → count_ids (map bronze_id bronze)
      ≤ length lake.silver + count_ids (map quarantine_key lake.quarantine)
    → (check_row_conservation bronze lake).status ≢ fail
unfolding check_row_conservation
conservation_pass bronze lake enough =
    let distinct = count_ids (map bronze_id bronze) in
    skip_or_false (distinct == 0) _ (not_above (tolerance distinct) distinct _ enough)

pub quarantine_key-some :
    (q : QuarantineRow) (k : String) → q.event_id ≡ some k → quarantine_key q ≡ some k
quarantine_key-some q k e = rw e refl
