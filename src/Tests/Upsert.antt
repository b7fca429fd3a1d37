-- ===== src/Tests/Upsert.antt =====
-- A MERGE by lists, that has the laws of Silver.Merge.
use mathlib.Core.Path.{subst}
use fleet_stream_real_time_f.Silver.Newest.{row_of_key}
use fleet_stream_real_time_f.Silver.Merge.{is_known_elem}
use fleet_stream_real_time_f.Prelude.{
  contrary, String, str_eq, eq_iff, Option, none, some, Bool, true, false, List, [], ◌∷◌, ◌++◌, map,
  ◌≡◌, ◌⊎◌, ◌↔◌, inl, inr, refl, sym, ap, ◌∙◌, Elem, Elem-append_left, Elem-append_right, Elem-map,
  elem_append, AllDistinct, length, ◌+◌, length-append, length-map, arith, Bool-cases,
  if◌then◌else◌,
}
use fleet_stream_real_time_f.Silver.Rows.{SilverRow, key}
use fleet_stream_real_time_f.Silver.Newest.{keys, same_key_iff}
use fleet_stream_real_time_f.Silver.Dedupe.{same_key}
use fleet_stream_real_time_f.Silver.Write.{contains_key}
use fleet_stream_real_time_f.Silver.Merge.{
  count_key, is_known, count_new, IsMerge, contains_key-Elem,
}

-- ON t.event_id = s.event_id
unfoldable joins : Option String → Option String → Bool
joins (some a) (some b) = str_eq a b
joins _ _ = false

unfoldable update : SilverRow → List SilverRow → SilverRow
unfolding joins
update r [] = r
update r (s ∷ source) = let rest = update r source in if joins (key r) (key s) then s else rest

unfoldable insert : List SilverRow → List SilverRow → List SilverRow
insert target [] = []
insert target (s ∷ source) =
    let rest = insert target source in if is_known (key s) target then rest else s ∷ rest

unfoldable pub upsert : List SilverRow → List SilverRow → Option (List SilverRow)
unfolding update insert
upsert target source = some (map (λ r. update r source) target ++ insert target source)

joins_eq : (a b : Option String) → joins a b ≡ true → a ≡ b
unfolding joins
joins_eq (some a) (some b) h = ap some ((eq_iff a b).0 h)
joins_eq none b h = cc
joins_eq (some a) none h = cc

joins-some : (k : String) (a b : Option String) → a ≡ some k → b ≡ some k → joins a b ≡ true
unfolding joins
joins-some k a b p q = rw (p, q) ((eq_iff k k).1 refl)

joins-same_key : (k : String) (b : Option String) → joins (some k) b ≡ same_key (some k) b
unfolding joins same_key
joins-same_key k none = refl
joins-same_key k (some b) = refl

unknown_later :
    (k : Option String) (s : SilverRow) (source : List SilverRow)
    → joins k (key s) ≡ false
    → is_known k source ≡ false
    → is_known k (s ∷ source) ≡ false
unfolding contains_key
unknown_later none s source j h = refl
unknown_later (some k) s source j h = rw (sym (joins-same_key k (key s)) ∙ j) h

nothing : (k : Option String) → is_known k [] ≡ false
unfolding contains_key
nothing none = refl
nothing (some k) = refl

known_later :
    (k : Option String) (s : SilverRow) (source : List SilverRow)
    → is_known k source ≡ true
    → is_known k (s ∷ source) ≡ true
known_later none s source h = h
known_later (some k) s source h =
    contains_key-Elem (some k) (keys (s ∷ source)) (inr (is_known_elem (some k) source h))

known_here :
    (a : Option String) (s : SilverRow) (source : List SilverRow)
    → joins a (key s) ≡ true
    → is_known a (s ∷ source) ≡ true
unfolding joins
known_here none s source h = h
known_here (some k) s source h =
    contains_key-Elem (some k) (keys (s ∷ source)) (inl (joins_eq (some k) (key s) h))

update_other :
    (r s : SilverRow) (source : List SilverRow)
    → joins (key r) (key s) ≡ false
    → update r (s ∷ source) ≡ update r source
unfolding update
update_other r s source h = rw h refl

-- a target row is replaced, or nothing matches it
updated :
    (r : SilverRow) (source : List SilverRow)
    → Elem (update r source) source ⊎ ((update r source ≡ r) × (is_known (key r) source ≡ false))
unfolding update
updated r [] = inr (refl, nothing (key r))
updated r (s ∷ source) = elim (Bool-cases (joins (key r) (key s))) [
  | inl matched ↦ rw matched (inl (inl refl))
  | inr other ↦
      subst (λ u. Elem u (s ∷ source) ⊎ ((u ≡ r) × (is_known (key r) (s ∷ source) ≡ false)))
        (sym (update_other r s source other))
        (elim (updated r source) [
          | inl later ↦ inl (inr later)
          | inr (same, unknown) ↦ inr (same, unknown_later (key r) s source other unknown)
        ])
]

-- a match is the one source row with its key
update_matched :
    (k : String) (r row : SilverRow) (source : List SilverRow)
    → AllDistinct (keys source)
    → Elem row source
    → key row ≡ some k
    → key r ≡ some k
    → update r source ≡ row
unfolding update
update_matched k r row [] d h p q = absurd h
update_matched k r row (s ∷ source) d (inl e) p q =
    rw (joins-some k (key r) (key s) q (ap key (sym e) ∙ p)) (sym e)
update_matched k r row (s ∷ source) d (inr h) p q = elim (Bool-cases (joins (key r) (key s))) [
  | inl matched ↦ absurd (
      d.0 (
        subst (λ j. Elem j (keys source)) (p ∙ sym q ∙ joins_eq (key r) (key s) matched)
          (Elem-map key row source h)))
  | inr other ↦ rw other (update_matched k r row source d.1 h p q)
]

update_unmatched :
    (r : SilverRow) (source : List SilverRow)
    → is_known (key r) source ≡ false
    → update r source ≡ r
unfolding update
update_unmatched r [] h = refl
update_unmatched r (s ∷ source) h = elim (Bool-cases (joins (key r) (key s))) [
  | inl matched ↦ absurd (contrary (known_here (key r) s source matched) h)
  | inr other ↦ rw other (elim (Bool-cases (is_known (key r) source)) [
    | inl known ↦ absurd (contrary (known_later (key r) s source known) h)
    | inr unknown ↦ update_unmatched r source unknown
  ])
]

known_key :
    (k : Option String) (rows : List SilverRow)
    → is_known k rows ≡ true
    → (j : String) × (k ≡ some j)
known_key none rows h = absurd (contrary h refl)
known_key (some j) rows h = (j, refl)

updates_from :
    (row : SilverRow) (target source : List SilverRow)
    → Elem row (map (λ r. update r source) target)
    → Elem row source ⊎ (Elem row target × (is_known (key row) source ≡ false))
updates_from row [] source h = absurd h
updates_from row (r ∷ target) source (inl e) = elim (updated r source) [
  | inl new ↦ inl (subst (λ x. Elem x source) (sym e) new)
  | inr (same, unknown) ↦
      inr (inl (e ∙ same), subst (λ x. is_known (key x) source ≡ false) (sym (e ∙ same)) unknown)
]
updates_from row (r ∷ target) source (inr h) = elim (updates_from row target source h) [
  | inl new ↦ inl new
  | inr (old, unknown) ↦ inr (inr old, unknown)
]

inserts_from :
    (row : SilverRow) (target source : List SilverRow)
    → Elem row (insert target source)
    → Elem row source
unfolding insert
inserts_from row target [] h = h
inserts_from row target (s ∷ source) h = elim (Bool-cases (is_known (key s) target)) [
  | inl known ↦ inr (inserts_from row target source (simp (known) at h))
  | inr new ↦ elim (simp (new) at h) [
    | inl e ↦ inl e
    | inr later ↦ inr (inserts_from row target source later)
  ]
]

inserts_new :
    (row : SilverRow) (target source : List SilverRow)
    → Elem row source
    → is_known (key row) target ≡ false
    → Elem row (insert target source)
unfolding insert
inserts_new row target [] h n = absurd h
inserts_new row target (s ∷ source) (inl e) n =
    rw (subst (λ x. is_known (key x) target ≡ false) e n) (inl e)
inserts_new row target (s ∷ source) (inr h) n = elim (Bool-cases (is_known (key s) target)) [
  | inl known ↦ rw known (inserts_new row target source h n)
  | inr new ↦ rw new (inr (inserts_new row target source h n))
]

length-insert :
    (target source : List SilverRow) → length (insert target source) ≡ count_new target source
unfolding insert count_new
length-insert target [] = refl
length-insert target (s ∷ source) = ground (arith, length-insert target source)

upsert_rows :
    (target source : List SilverRow)
    → AllDistinct (keys source)
    → (row : SilverRow)
    → Elem row (map (λ r. update r source) target ++ insert target source)
      ↔ (Elem row source ⊎ (Elem row target × (is_known (key row) source ≡ false)))
upsert_rows target source d row = (from, to)
  where
    from :
        Elem row (map (λ r. update r source) target ++ insert target source)
        → Elem row source ⊎ (Elem row target × (is_known (key row) source ≡ false))
    from h = elim (elem_append row (map (λ r. update r source) target) (insert target source) h) [
      | inl l ↦ updates_from row target source l
      | inr r ↦ inl (inserts_from row target source r)
    ]

    to :
        Elem row source ⊎ (Elem row target × (is_known (key row) source ≡ false))
        → Elem row (map (λ r. update r source) target ++ insert target source)
    to (inl new) = elim (Bool-cases (is_known (key row) target)) [
      | inl known ↦
          let (k, p) = known_key (key row) target known in
          let (r, e, q) = row_of_key (key row) target (is_known_elem (key row) target known) in
          Elem-append_left row _ (insert target source) (
            subst (λ x. Elem x (map (λ t. update t source) target))
              (update_matched k r row source d new p (q ∙ p))
              (Elem-map (λ t. update t source) r target e))
      | inr unknown ↦
          Elem-append_right row (map (λ r. update r source) target) _
            (inserts_new row target source new unknown)
    ]
    to (inr (old, unknown)) = Elem-append_left row _ (insert target source) (
        subst (λ x. Elem x (map (λ t. update t source) target))
          (update_unmatched row source unknown) (Elem-map (λ t. update t source) row target old))

count_key-append :
    (k : String) (xs ys : List SilverRow) → count_key k (xs ++ ys) ≡ count_key k xs + count_key k ys
unfolding count_key
count_key-append k [] ys = omega arith
count_key-append k (x ∷ xs) ys = ground (arith, count_key-append k xs ys)

key-update : (r : SilverRow) (source : List SilverRow) → key (update r source) ≡ key r
unfolding update
key-update r [] = refl
key-update r (s ∷ source) = elim (Bool-cases (joins (key r) (key s))) [
  | inl matched ↦ rw matched (sym (joins_eq (key r) (key s) matched))
  | inr other ↦ rw other (key-update r source)
]

count_key-updates :
    (k : String) (target source : List SilverRow)
    → count_key k (map (λ r. update r source) target) ≡ count_key k target
unfolding count_key
count_key-updates k [] source = refl
count_key-updates k (r ∷ target) source =
    rw (key-update r source, count_key-updates k target source) refl

pub count_key-unknown :
    (k : String) (rows : List SilverRow) → is_known (some k) rows ≡ false → count_key k rows ≡ 0
unfolding count_key contains_key
count_key-unknown k [] h = refl
count_key-unknown k (r ∷ rows) h = elim (Bool-cases (same_key (some k) (key r))) [
  | inl same ↦ absurd (contrary refl (simp (same) at h))
  | inr other ↦ rw other (count_key-unknown k rows (simp (other) at h))
]

abbrev Inserted : String → List SilverRow → List SilverRow → Type 0
Inserted k target source =
    count_key k (insert target source)
    ≡ (if is_known (some k) target then 0 else count_key k source)

-- a source row of the key is inserted exactly when the target has none
insert_own :
    (k : String) (target : List SilverRow) (s : SilverRow) (source : List SilverRow)
    → some k ≡ key s
    → same_key (some k) (key s) ≡ true
    → Inserted k target source
    → Inserted k target (s ∷ source)
unfolding insert count_key
insert_own k target s source e same ih = elim (Bool-cases (is_known (some k) target)) [
  | inl known ↦ rw (ap (λ j. is_known j target) (sym e) ∙ known, ih, known) refl
  | inr new ↦ rw (ap (λ j. is_known j target) (sym e) ∙ new, same, ih, new) refl
]

count_key-insert :
    (k : String) (target source : List SilverRow)
    → count_key k (insert target source)
      ≡ (if is_known (some k) target then 0 else count_key k source)
unfolding insert count_key
count_key-insert k target [] = ground arith
count_key-insert k target (s ∷ source) = elim (Bool-cases (same_key (some k) (key s))) [
  | inl same ↦
      insert_own k target s source ((same_key_iff (some k) (key s)).0 same) same
        (count_key-insert k target source)
  | inr other ↦ elim (Bool-cases (is_known (key s) target)) [
    | inl known ↦ rw (known, other) (count_key-insert k target source)
    | inr new ↦ rw (new, other) (count_key-insert k target source)
  ]
]

count_key-upsert :
    (k : String) (target source : List SilverRow)
    → count_key k (map (λ r. update r source) target) + count_key k (insert target source)
      ≡ (if is_known (some k) target then count_key k target else count_key k source)
count_key-upsert k target source = elim (Bool-cases (is_known (some k) target)) [
  | inl known ↦
      rw (known, count_key-updates k target source, count_key-insert k target source, known)
        (omega arith)
  | inr unknown ↦
      rw
        (
          unknown,
          count_key-updates k target source,
          count_key-insert k target source,
          unknown,
          count_key-unknown k target unknown,
        )
        (omega arith)
]

some_eq : {a b : List SilverRow} → some a ≡ some b → a ≡ b
some_eq e = cc

pub upsert-IsMerge : IsMerge upsert
unfolding upsert
upsert-IsMerge = record {
  accepts = λ target source d. (map (λ r. update r source) target ++ insert target source, refl);
  rows = λ target source result d e row.
      subst
        (λ out.
          Elem row out
          ↔ (Elem row source ⊎ (Elem row target × (is_known (key row) source ≡ false))))
        (some_eq e) (upsert_rows target source d row);
  size = λ target source result e.
      ap length (sym (some_eq e))
      ∙ length-append (map (λ r. update r source) target) (insert target source)
      ∙ (omega (arith, length-map target (λ r. update r source), length-insert target source));
  copies = λ target source result e k.
      ap (count_key k) (sym (some_eq e))
      ∙ count_key-append k (map (λ r. update r source) target) (insert target source)
      ∙ count_key-upsert k target source;
}
