-- ===== src/Silver/Newest.antt =====
-- What `_dedupe_within_batch` leaves: one row for each event_id, from among the rows given.
use mathlib.Core.Path.{subst}
use fleet_stream_real_time_f.Prelude.{
  contrary, String, eq_iff, Option, none, some, Bool, true, false, List, [], ◌∷◌, map, ◌≡◌, ◌≤◌,
  ◌⊎◌, inl, inr, refl, sym, ap, ◌∙◌, ◌+◌, Elem, AllDistinct, length, arith, Bool-cases,
  if◌then◌else◌, ◌↔◌,
}
use fleet_stream_real_time_f.Silver.Rows.{SilverRow, key}
use fleet_stream_real_time_f.Silver.Dedupe.{same_key, precedes, keep_newest, dedupe}

pub same_key_iff : (a b : Option String) → (same_key a b ≡ true) ↔ (a ≡ b)
unfolding same_key
same_key_iff none none = (λ _. refl, λ _. refl)
same_key_iff (some a) (some b) = (λ h. ap some ((eq_iff a b).0 h), λ h. (eq_iff a b).1 (cc))
same_key_iff none (some b) = (λ h. cc, λ h. cc)
same_key_iff (some a) none = (λ h. cc, λ h. cc)

abbrev pub keys : List SilverRow → List (Option String)
keys = map key

-- Two rows of one key leave one of them; a row of another key is passed over.
abbrev Kept : SilverRow → SilverRow → List SilverRow → List SilverRow → Type 0
Kept r x xs out =
    ((n : SilverRow) × (key r ≡ key x) × (key n ≡ key x) × ((n ≡ r) ⊎ (n ≡ x)) × (out ≡ n ∷ xs))
    ⊎ (¬ (key r ≡ key x)) × (out ≡ x ∷ keep_newest r xs)

one_of :
    (r x : SilverRow) (xs : List SilverRow) (b : Bool)
    → key r ≡ key x
    → Kept r x xs ((if b then r else x) ∷ xs)
one_of r x xs true e = inl (r, e, e, inl refl, refl)
one_of r x xs false e = inl (x, e, refl, inr refl, refl)

keep_newest-Kept : (r x : SilverRow) (xs : List SilverRow) → Kept r x xs (keep_newest r (x ∷ xs))
unfolding keep_newest
keep_newest-Kept r x xs = elim (Bool-cases (same_key (key r) (key x))) [
  | inl same ↦ rw same (one_of r x xs (precedes r x) ((same_key_iff (key r) (key x)).0 same))
  | inr other ↦ rw other (inr (λ e. contrary ((same_key_iff (key r) (key x)).1 e) other, refl))
]

keep_newest-nil : (r : SilverRow) → keep_newest r [] ≡ r ∷ []
unfolding keep_newest
keep_newest-nil r = refl

pub keys-keep_newest :
    (k : Option String) (r : SilverRow) (rows : List SilverRow)
    → Elem k (keys (keep_newest r rows))
    → (k ≡ key r) ⊎ Elem k (keys rows)
keys-keep_newest k r [] h = subst (λ out. Elem k (keys out)) (keep_newest-nil r) h
keys-keep_newest k r (x ∷ xs) h = elim (keep_newest-Kept r x xs) [
  | inl (n, e, same, from, out) ↦ first n same (subst (λ o. Elem k (keys o)) out h)
  | inr (differ, out) ↦ later (keys-keep_newest k r xs) (subst (λ o. Elem k (keys o)) out h)
]
  where
    first :
        (n : SilverRow)
        → key n ≡ key x
        → (k ≡ key n) ⊎ Elem k (keys xs)
        → (k ≡ key r) ⊎ Elem k (keys (x ∷ xs))
    first n e (inl p) = inr (inl (p ∙ e))
    first n e (inr p) = inr (inr p)

    later :
        (Elem k (keys (keep_newest r xs)) → (k ≡ key r) ⊎ Elem k (keys xs))
        → (k ≡ key x) ⊎ Elem k (keys (keep_newest r xs))
        → (k ≡ key r) ⊎ Elem k (keys (x ∷ xs))
    later ih (inl p) = inr (inl p)
    later ih (inr p) = elim (ih p) [ inl q ↦ inl q | inr q ↦ inr (inr q) ]

keep_newest-keys :
    (k : Option String) (r : SilverRow) (rows : List SilverRow)
    → (k ≡ key r) ⊎ Elem k (keys rows)
    → Elem k (keys (keep_newest r rows))
keep_newest-keys k r [] h = subst (λ out. Elem k (keys out)) (sym (keep_newest-nil r)) h
keep_newest-keys k r (x ∷ xs) h = elim (keep_newest-Kept r x xs) [
  | inl (n, e, same, from, out) ↦ subst (λ o. Elem k (keys o)) (sym out) (first n e same h)
  | inr (differ, out) ↦ subst (λ o. Elem k (keys o)) (sym out) (later (keep_newest-keys k r xs) h)
]
  where
    first :
        (n : SilverRow)
        → key r ≡ key x
        → key n ≡ key x
        → (k ≡ key r) ⊎ Elem k (keys (x ∷ xs))
        → (k ≡ key n) ⊎ Elem k (keys xs)
    first n e same (inl p) = inl (p ∙ e ∙ sym same)
    first n e same (inr (inl p)) = inl (p ∙ sym same)
    first n e same (inr (inr p)) = inr p

    later :
        ((k ≡ key r) ⊎ Elem k (keys xs) → Elem k (keys (keep_newest r xs)))
        → (k ≡ key r) ⊎ Elem k (keys (x ∷ xs))
        → (k ≡ key x) ⊎ Elem k (keys (keep_newest r xs))
    later ih (inl p) = inr (ih (inl p))
    later ih (inr (inl p)) = inl p
    later ih (inr (inr p)) = inr (ih (inr p))

keep_newest-Elem :
    (row r : SilverRow) (rows : List SilverRow)
    → Elem row (keep_newest r rows)
    → (row ≡ r) ⊎ Elem row rows
keep_newest-Elem row r [] h = subst (Elem row) (keep_newest-nil r) h
keep_newest-Elem row r (x ∷ xs) h = elim (keep_newest-Kept r x xs) [
  | inl (n, e, same, from, out) ↦ first n from (subst (Elem row) out h)
  | inr (differ, out) ↦ later (keep_newest-Elem row r xs) (subst (Elem row) out h)
]
  where
    first :
        (n : SilverRow)
        → (n ≡ r) ⊎ (n ≡ x)
        → (row ≡ n) ⊎ Elem row xs
        → (row ≡ r) ⊎ Elem row (x ∷ xs)
    first n (inl e) (inl p) = inl (p ∙ e)
    first n (inr e) (inl p) = inr (inl (p ∙ e))
    first n from (inr p) = inr (inr p)

    later :
        (Elem row (keep_newest r xs) → (row ≡ r) ⊎ Elem row xs)
        → (row ≡ x) ⊎ Elem row (keep_newest r xs)
        → (row ≡ r) ⊎ Elem row (x ∷ xs)
    later ih (inl p) = inr (inl p)
    later ih (inr p) = elim (ih p) [ inl q ↦ inl q | inr q ↦ inr (inr q) ]

keep_newest-AllDistinct :
    (r : SilverRow) (rows : List SilverRow)
    → AllDistinct (keys rows)
    → AllDistinct (keys (keep_newest r rows))
keep_newest-AllDistinct r [] d =
    subst (λ o. AllDistinct (keys o)) (sym (keep_newest-nil r)) ((λ h. h), tt)
keep_newest-AllDistinct r (x ∷ xs) d = elim (keep_newest-Kept r x xs) [
  | inl (n, e, same, from, out) ↦
      subst (λ o. AllDistinct (keys o)) (sym out)
        ((λ h. d.0 (subst (λ k. Elem k (keys xs)) same h)), d.1)
  | inr (differ, out) ↦
      subst (λ o. AllDistinct (keys o)) (sym out)
        (
          (λ h. elim (keys-keep_newest (key x) r xs h) [ inl p ↦ differ (sym p) | inr p ↦ d.0 p ]),
          keep_newest-AllDistinct r xs d.1,
        )
]

keep_newest-length :
    (r : SilverRow) (rows : List SilverRow) → length (keep_newest r rows) ≤ length rows + 1
unfolding keep_newest
keep_newest-length r [] = omega arith
keep_newest-length r (x ∷ xs) = ground (arith, keep_newest-length r xs)

-- After deduplication no event_id, NULL among them, stands twice.
pub dedupe-AllDistinct : (rows : List SilverRow) → AllDistinct (keys (dedupe rows))
unfolding dedupe
dedupe-AllDistinct [] = tt
dedupe-AllDistinct (r ∷ rows) = keep_newest-AllDistinct r (dedupe rows) (dedupe-AllDistinct rows)

pub dedupe-Elem : (row : SilverRow) (rows : List SilverRow) → Elem row (dedupe rows) → Elem row rows
unfolding dedupe
dedupe-Elem row [] h = h
dedupe-Elem row (r ∷ rows) h = elim (keep_newest-Elem row r (dedupe rows) h) [
  | inl e ↦ inl e
  | inr later ↦ inr (dedupe-Elem row rows later)
]

-- Every event_id of the rows given is an event_id of the rows that deduplication leaves.
pub keys-dedupe :
    (k : Option String) (rows : List SilverRow) → Elem k (keys rows) → Elem k (keys (dedupe rows))
unfolding dedupe
keys-dedupe k [] h = h
keys-dedupe k (r ∷ rows) (inl e) = keep_newest-keys k r (dedupe rows) (inl e)
keys-dedupe k (r ∷ rows) (inr h) = keep_newest-keys k r (dedupe rows) (inr (keys-dedupe k rows h))

pub length-dedupe : (rows : List SilverRow) → length (dedupe rows) ≤ length rows
unfolding dedupe
length-dedupe [] = omega arith
length-dedupe (r ∷ rows) = omega (arith, keep_newest-length r (dedupe rows), length-dedupe rows)

pub row_of_key :
    (k : Option String) (rows : List SilverRow)
    → Elem k (keys rows)
    → (row : SilverRow) × Elem row rows × (key row ≡ k)
row_of_key k [] h = absurd h
row_of_key k (r ∷ rows) (inl e) = (r, inl refl, sym e)
row_of_key k (r ∷ rows) (inr h) = let (row, e, p) = row_of_key k rows h in (row, inr e, p)
