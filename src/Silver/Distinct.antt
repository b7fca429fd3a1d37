-- ===== src/Silver/Distinct.antt =====
-- What the counts of distinct values in src/fleetstream/streaming/silver_transform.py and
-- src/fleetstream/jobs/verify.py are: the lengths of lists in which no value stands twice.
use mathlib.Core.Path.{subst}
use fleet_stream_real_time_f.Prelude.{
  contrary, ◌+◌, ◌≤◌, String, Option, List, [], ◌∷◌, ◌++◌, length, ◌≡◌, ◌⊎◌, inl, inr, refl, sym,
  ◌∙◌, Elem, Elem-append_left, Elem-append_right, AllDistinct, length-append, arith, Bool-cases,
  if◌then◌else◌,
}
use fleet_stream_real_time_f.Silver.Write.{contains_key, count_distinct}
use fleet_stream_real_time_f.Silver.Merge.{contains_key-Elem, contains_key_elem}

-- the list without the element at this place
remove_at : {A : Type 0} (a : A) (xs : List A) → Elem a xs → List A
remove_at a [] h = []
remove_at a (x ∷ xs) (inl e) = xs
remove_at a (x ∷ xs) (inr h) = x ∷ remove_at a xs h

length-remove_at :
    {A : Type 0} (a : A) (xs : List A) (h : Elem a xs) → length xs ≡ length (remove_at a xs h) + 1
unfolding remove_at
length-remove_at a [] h = absurd h
length-remove_at a (x ∷ xs) (inl e) = omega arith
length-remove_at a (x ∷ xs) (inr h) = omega (arith, length-remove_at a xs h)

Elem-remove_at :
    {A : Type 0} (a b : A) (xs : List A) (h : Elem a xs)
    → (b ≡ a → ⊥)
    → Elem b xs
    → Elem b (remove_at a xs h)
unfolding remove_at
Elem-remove_at a b [] h differ k = absurd h
Elem-remove_at a b (x ∷ xs) (inl e) differ (inl k) = absurd (differ (k ∙ sym e))
Elem-remove_at a b (x ∷ xs) (inl e) differ (inr k) = k
Elem-remove_at a b (x ∷ xs) (inr h) differ (inl k) = inl k
Elem-remove_at a b (x ∷ xs) (inr h) differ (inr k) = inr (Elem-remove_at a b xs h differ k)

-- A list without repetitions is no longer than one that has all its elements.
pub length-le :
    {A : Type 0} (xs ys : List A)
    → AllDistinct xs
    → ((a : A) → Elem a xs → Elem a ys)
    → length xs ≤ length ys
length-le [] ys d within = omega arith
length-le (x ∷ xs) ys d within =
    let here = within x (inl refl) in
    omega (
      arith,
      length-remove_at x ys here,
      length-le xs (remove_at x ys here) d.1 λ a h.
          Elem-remove_at x a ys here (λ e. d.0 (subst (λ b. Elem b xs) e h)) (within a (inr h)),
    )

-- each value once
unfoldable pub distinct_of : List (Option String) → List (Option String)
unfolding contains_key
distinct_of [] = []
distinct_of (k ∷ ks) = let rest = distinct_of ks in if contains_key k ks then rest else k ∷ rest

pub length-distinct_of : (ks : List (Option String)) → length (distinct_of ks) ≡ count_distinct ks
unfolding distinct_of count_distinct
length-distinct_of [] = refl
length-distinct_of (k ∷ ks) = ground (arith, length-distinct_of ks)

pub distinct_of-Elem :
    (j : Option String) (ks : List (Option String)) → Elem j (distinct_of ks) → Elem j ks
unfolding distinct_of
distinct_of-Elem j [] h = h
distinct_of-Elem j (k ∷ ks) h = elim (Bool-cases (contains_key k ks)) [
  | inl again ↦ inr (distinct_of-Elem j ks (simp (again) at h))
  | inr new ↦ elim (simp (new) at h) [
    | inl e ↦ inl e
    | inr later ↦ inr (distinct_of-Elem j ks later)
  ]
]

pub Elem-distinct_of :
    (j : Option String) (ks : List (Option String)) → Elem j ks → Elem j (distinct_of ks)
unfolding distinct_of
Elem-distinct_of j [] h = h
Elem-distinct_of j (k ∷ ks) h = elim (Bool-cases (contains_key k ks)) [
  | inl again ↦ rw again (elim h [
    | inl e ↦ Elem-distinct_of j ks (subst (λ x. Elem x ks) (sym e) (contains_key_elem k ks again))
    | inr later ↦ Elem-distinct_of j ks later
  ])
  | inr new ↦ rw new (elim h [ inl e ↦ inl e | inr later ↦ inr (Elem-distinct_of j ks later) ])
]

pub distinct_of-AllDistinct : (ks : List (Option String)) → AllDistinct (distinct_of ks)
unfolding distinct_of
distinct_of-AllDistinct [] = tt
distinct_of-AllDistinct (k ∷ ks) = elim (Bool-cases (contains_key k ks)) [
  | inl again ↦ rw again (distinct_of-AllDistinct ks)
  | inr new ↦ rw new (
    (λ h. contrary (contains_key-Elem k ks (distinct_of-Elem k ks h)) new),
    distinct_of-AllDistinct ks,
  )
]

-- without repetitions, all are counted
pub count_distinct-all :
    (ks : List (Option String)) → AllDistinct ks → count_distinct ks ≡ length ks
unfolding count_distinct
count_distinct-all [] d = refl
count_distinct-all (k ∷ ks) d = elim (Bool-cases (contains_key k ks)) [
  | inl again ↦ absurd (d.0 (contains_key_elem k ks again))
  | inr new ↦ rw (new, count_distinct-all ks d.1) refl
]

-- Values that are all among those of two lists: the length of one, and the distinct values of the other, are not
-- exceeded.
pub count_distinct-le :
    (ks xs ys : List (Option String))
    → ((k : Option String) → Elem k ks → Elem k xs ⊎ Elem k ys)
    → count_distinct ks ≤ length xs + count_distinct ys
count_distinct-le ks xs ys among = omega (
  arith,
  length-distinct_of ks,
  length-distinct_of ys,
  length-append xs (distinct_of ys),
  length-le (distinct_of ks) (xs ++ distinct_of ys) (distinct_of-AllDistinct ks) λ k h.
      elim (among k (distinct_of-Elem k ks h)) [
        | inl e ↦ Elem-append_left k xs (distinct_of ys) e
        | inr e ↦ Elem-append_right k xs (distinct_of ys) (Elem-distinct_of k ys e)
      ],
)
