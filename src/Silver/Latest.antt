-- ===== src/Silver/Latest.antt =====
-- Which rows `_dedupe_within_batch` of src/fleetstream/streaming/silver_transform.py leaves: the newest.
use mathlib.Core.Path.{subst}
use fleet_stream_real_time_f.Silver.Newest.{row_of_key}
use fleet_stream_real_time_f.Prelude.{
  contrary, ◌≤◌, Bool, true, false, List, [], ◌∷◌, ◌≡◌, ◌⊎◌, inl, inr, refl, sym, ap, ◌∙◌, Elem,
  Elem-map, AllDistinct, arith, Bool-cases, if◌then◌else◌,
}
use fleet_stream_real_time_f.Prelude.Int.{ltb_ℤ}
use fleet_stream_real_time_f.Silver.Rows.{Provenance, SilverRow, key}
use fleet_stream_real_time_f.Silver.Dedupe.{same_key, precedes, keep_newest, dedupe}
use fleet_stream_real_time_f.Silver.Newest.{
  keys, same_key_iff, keys-keep_newest, dedupe-AllDistinct, dedupe-Elem, keys-dedupe,
}

precedes_irrefl : (a : SilverRow) → precedes a a ≡ false
unfolding precedes
precedes_irrefl a = ground arith

precedes_asymm : (a b : SilverRow) → precedes a b ≡ true → precedes b a ≡ false
unfolding precedes
precedes_asymm a b h = ground arith

precedes_between :
    (a b c : SilverRow) → precedes a b ≡ false → precedes b c ≡ false → precedes a c ≡ false
unfolding precedes
precedes_between a b c h k = ground arith

-- rows with distinct keys and one key are one row
same_of_key :
    (a b : SilverRow) (rows : List SilverRow)
    → AllDistinct (keys rows)
    → Elem a rows
    → Elem b rows
    → key a ≡ key b
    → a ≡ b
same_of_key a b [] d h k e = absurd h
same_of_key a b (r ∷ rows) d (inl h) (inl k) e = h ∙ sym k
same_of_key a b (r ∷ rows) d (inl h) (inr k) e =
    absurd (d.0 (subst (λ j. Elem j (keys rows)) (sym e ∙ ap key h) (Elem-map key b rows k)))
same_of_key a b (r ∷ rows) d (inr h) (inl k) e =
    absurd (d.0 (subst (λ j. Elem j (keys rows)) (e ∙ ap key k) (Elem-map key a rows h)))
same_of_key a b (r ∷ rows) d (inr h) (inr k) e = same_of_key a b rows d.1 h k e

abbrev IsBest : SilverRow → SilverRow → List SilverRow → Type 0
IsBest row r xs = (o : SilverRow) → (o ≡ r) ⊎ Elem o xs → key o ≡ key row → precedes o row ≡ false

as_itself : (o row : SilverRow) → o ≡ row → precedes o row ≡ false
as_itself o row e = subst (λ x. precedes x row ≡ false) (sym e) (precedes_irrefl row)

-- of two rows with one key, the better one
winner :
    (r x : SilverRow) (b : Bool)
    → precedes r x ≡ b
    → (precedes r (if b then r else x) ≡ false) × (precedes x (if b then r else x) ≡ false)
winner r x true h = (precedes_irrefl r, precedes_asymm r x h)
winner r x false h = (h, precedes_irrefl x)

winner_key : (r x : SilverRow) (b : Bool) → key r ≡ key x → key (if b then r else x) ≡ key x
winner_key r x true e = e
winner_key r x false e = refl

absent :
    (row x : SilverRow) (xs : List SilverRow)
    → AllDistinct (keys (x ∷ xs))
    → Elem row xs
    → key row ≡ key x
    → ⊥
absent row x xs d h e = d.0 (subst (λ j. Elem j (keys xs)) e (Elem-map key row xs h))

matched-IsBest :
    (row r x w : SilverRow) (xs : List SilverRow)
    → AllDistinct (keys (x ∷ xs))
    → key r ≡ key x
    → key w ≡ key x
    → precedes r w ≡ false
    → precedes x w ≡ false
    → Elem row (w ∷ xs)
    → IsBest row r (x ∷ xs)
matched-IsBest row r x w xs d e f p q (inl h) o (inl k) same =
    subst (λ y. precedes o y ≡ false) (sym h) (subst (λ y. precedes y w ≡ false) (sym k) p)
matched-IsBest row r x w xs d e f p q (inl h) o (inr (inl k)) same =
    subst (λ y. precedes o y ≡ false) (sym h) (subst (λ y. precedes y w ≡ false) (sym k) q)
matched-IsBest row r x w xs d e f p q (inl h) o (inr (inr k)) same =
    absurd (absent o x xs d k (same ∙ ap key h ∙ f))
matched-IsBest row r x w xs d e f p q (inr h) o (inl k) same =
    absurd (absent row x xs d h (sym same ∙ ap key k ∙ e))
matched-IsBest row r x w xs d e f p q (inr h) o (inr (inl k)) same =
    absurd (absent row x xs d h (sym same ∙ ap key k))
matched-IsBest row r x w xs d e f p q (inr h) o (inr (inr k)) same =
    as_itself o row (same_of_key o row xs d.1 k h same)

passed-IsBest :
    (row r x : SilverRow) (xs : List SilverRow)
    → AllDistinct (keys (x ∷ xs))
    → (key r ≡ key x → ⊥)
    → (Elem row (keep_newest r xs) → IsBest row r xs)
    → Elem row (x ∷ keep_newest r xs)
    → IsBest row r (x ∷ xs)
passed-IsBest row r x xs d differ ih (inl h) o (inl k) same =
    absurd (differ (sym (ap key k) ∙ same ∙ ap key h))
passed-IsBest row r x xs d differ ih (inl h) o (inr (inl k)) same = as_itself o row (k ∙ sym h)
passed-IsBest row r x xs d differ ih (inl h) o (inr (inr k)) same =
    absurd (absent o x xs d k (same ∙ ap key h))
passed-IsBest row r x xs d differ ih (inr h) o (inl k) same = ih h o (inl k) same
passed-IsBest row r x xs d differ ih (inr h) o (inr (inr k)) same = ih h o (inr k) same
passed-IsBest row r x xs d differ ih (inr h) o (inr (inl k)) same =
    absurd (elim (keys-keep_newest (key row) r xs (Elem-map key row (keep_newest r xs) h)) [
      | inl e ↦ differ (sym e ∙ sym same ∙ ap key k)
      | inr later ↦ d.0 (subst (λ j. Elem j (keys xs)) (sym same ∙ ap key k) later)
    ])

alone-IsBest : (row r : SilverRow) → Elem row (r ∷ []) → IsBest row r []
alone-IsBest row r (inl h) o (inl k) same = as_itself o row (k ∙ sym h)
alone-IsBest row r (inr h) o k same = absurd h
alone-IsBest row r (inl h) o (inr k) same = absurd k

keep_newest-IsBest :
    (row r : SilverRow) (xs : List SilverRow)
    → AllDistinct (keys xs)
    → Elem row (keep_newest r xs)
    → IsBest row r xs
unfolding keep_newest
keep_newest-IsBest row r [] d h = alone-IsBest row r h
keep_newest-IsBest row r (x ∷ xs) d h = elim (Bool-cases (same_key (key r) (key x))) [
  | inl matched ↦
      let e = (same_key_iff (key r) (key x)).0 matched in
      let w = winner r x (precedes r x) refl in
      matched-IsBest row r x _ xs d e (winner_key r x (precedes r x) e) w.0 w.1
        (simp (matched) at h)
  | inr other ↦
      passed-IsBest row r x xs d (λ e. contrary ((same_key_iff (key r) (key x)).1 e) other)
        (keep_newest-IsBest row r xs d.1) (simp (other) at h)
]

-- no row given precedes the one of its key that deduplication leaves
pub dedupe-IsNewest :
    (row other : SilverRow) (rows : List SilverRow)
    → Elem row (dedupe rows)
    → Elem other rows
    → key other ≡ key row
    → precedes other row ≡ false
unfolding dedupe
dedupe-IsNewest row other [] h k same = absurd h
dedupe-IsNewest row other (r ∷ rows) h (inl k) same =
    keep_newest-IsBest row r (dedupe rows) (dedupe-AllDistinct rows) h other (inl k) same
dedupe-IsNewest row other (r ∷ rows) h (inr k) same =
    let (x, e, p) =
      row_of_key (key other) (dedupe rows)
        (keys-dedupe (key other) rows (Elem-map key other rows k)) in
    precedes_between other x row (dedupe-IsNewest x other rows e k (sym p))
      (keep_newest-IsBest row r (dedupe rows) (dedupe-AllDistinct rows) h x (inr e) (p ∙ same))

-- ingested later, or at the same time with an offset that is not lower
abbrev pub IsAsNew : Provenance → Provenance → Type 0
IsAsNew s t =
    (ltb_ℤ t.ingestion_time s.ingestion_time ≡ true)
    ⊎ ((s.ingestion_time ≡ t.ingestion_time) × (t.kafka_offset ≤ s.kafka_offset))

pub IsAsNew-of :
    (row other : SilverRow) → precedes other row ≡ false → IsAsNew row.provenance other.provenance
unfolding precedes
IsAsNew-of row other h =
    elim (Bool-cases (ltb_ℤ other.provenance.ingestion_time row.provenance.ingestion_time)) [
      | inl later ↦ inl later
      | inr not_later ↦ inr (ground arith, ground arith)
    ]

-- Deduplication leaves for every row given exactly one row of its event_id, one of those given, and none of those given
-- with that event_id was ingested later, or at the same time at a higher offset. NULL counts as one event_id.
pub dedupe-IsLatest :
    (rows : List SilverRow)
    → AllDistinct (keys (dedupe rows))
      × ((other : SilverRow)
          → Elem other rows
          → (row : SilverRow) × Elem row (dedupe rows)
            × Elem row rows
            × (key row ≡ key other)
            × ((x : SilverRow)
                → Elem x rows
                → key x ≡ key other
                → IsAsNew row.provenance x.provenance))
dedupe-IsLatest rows = (
  dedupe-AllDistinct rows,
  λ other h.
      let (row, e, same) =
        row_of_key (key other) (dedupe rows)
          (keys-dedupe (key other) rows (Elem-map key other rows h)) in
      (
        row,
        e,
        dedupe-Elem row rows e,
        same,
        λ x k equal. IsAsNew-of row x (dedupe-IsNewest row x rows e k (equal ∙ sym same)),
      ),
)
