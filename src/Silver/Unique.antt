-- ===== src/Silver/Unique.antt =====
-- How often an event_id stands in Silver after the batches of src/fleetstream/streaming/silver_transform.py.
use mathlib.Core.Path.{subst}
use fleet_stream_real_time_f.Prelude.Int.{ℤ}
use fleet_stream_real_time_f.Prelude.{
  ◌≤◌, String, Option, some, Bool, List, [], ◌∷◌, ◌≡◌, ◌↔◌, inl, inr, refl, Elem, AllDistinct,
  arith, Bool-cases,
}
use fleet_stream_real_time_f.Quality.Rules.{Rule}
use fleet_stream_real_time_f.Silver.Rows.{BronzeRow, SilverRow, key}
use fleet_stream_real_time_f.Silver.Newest.{keys, same_key_iff, dedupe-AllDistinct}
use fleet_stream_real_time_f.Silver.Dedupe.{same_key}
use fleet_stream_real_time_f.Silver.Write.{Lake, Call, write_batch}
use fleet_stream_real_time_f.Silver.Merge.{count_key, is_known, IsMerge}
use fleet_stream_real_time_f.Silver.Batches.{prepared, merged}
use fleet_stream_real_time_f.Silver.Stream.{batches}
use fleet_stream_real_time_f.Silver.Sequence.{Offers, batches-keys_iff}

pub count_key-some :
    (k : String) (rows : List SilverRow) → Elem (some k) (keys rows) → 1 ≤ count_key k rows
unfolding count_key
count_key-some k [] h = absurd h
count_key-some k (r ∷ rows) (inl e) = rw ((same_key_iff (some k) (key r)).1 e) (omega arith)
count_key-some k (r ∷ rows) (inr h) = ground (arith, count_key-some k rows h)

some-count_key :
    (k : String) (rows : List SilverRow) → count_key k rows ≡ 1 → Elem (some k) (keys rows)
unfolding count_key
some-count_key k [] h = absurd (omega arith)
some-count_key k (r ∷ rows) h = elim (Bool-cases (same_key (some k) (key r))) [
  | inl same ↦ inl ((same_key_iff (some k) (key r)).0 same)
  | inr other ↦ inr (some-count_key k rows (simp (other) at h))
]

count_key-none :
    (k : String) (rows : List SilverRow) → (Elem (some k) (keys rows) → ⊥) → count_key k rows ≡ 0
unfolding count_key
count_key-none k [] h = refl
count_key-none k (r ∷ rows) h = elim (Bool-cases (same_key (some k) (key r))) [
  | inl same ↦ absurd (h (inl ((same_key_iff (some k) (key r)).0 same)))
  | inr other ↦ rw other (count_key-none k rows (λ e. h (inr e)))
]

count_key-distinct :
    (k : String) (rows : List SilverRow) → AllDistinct (keys rows) → count_key k rows ≤ 1
unfolding count_key
count_key-distinct k [] d = omega arith
count_key-distinct k (r ∷ rows) d = elim (Bool-cases (same_key (some k) (key r))) [
  | inl same ↦
      let e = (same_key_iff (some k) (key r)).0 same in
      rw (same, count_key-none k rows (λ h. d.0 (subst (λ j. Elem j (keys rows)) e h)))
        (omega arith)
  | inr other ↦ rw other (count_key-distinct k rows d.1)
]

pub count_key-empty : (k : String) (rows : List SilverRow) → rows ≡ [] → count_key k rows ≤ 1
unfolding count_key
count_key-empty k [] e = omega arith
count_key-empty k (r ∷ rows) e = cc

module _ (evaluate : ℤ → String → BronzeRow → Option Bool) (rules : List Rule)
    (sha2 : String → String) (merge : List SilverRow → List SilverRow → Option (List SilverRow))
    (lawful : IsMerge merge) (k : String) where
  write_batch-count :
      (call : Call evaluate rules sha2 merge) (rows : List BronzeRow) (lake : Lake)
      → count_key k lake.silver ≤ 1
      → count_key k (write_batch evaluate rules sha2 merge call rows lake).1.silver ≤ 1
  unfolding write_batch
  write_batch-count call [] lake h = h
  write_batch-count call (b ∷ rows) lake h =
      let source = prepared evaluate rules sha2 merge lawful call (b ∷ rows) lake in
      rw
        (lawful.copies lake.silver source _
          (merged evaluate rules sha2 merge lawful call b rows lake).1 k)
        (elim (Bool-cases (is_known (some k) lake.silver)) [
          | inl known ↦ rw known h
          | inr new ↦ rw new (count_key-distinct k source (dedupe-AllDistinct _))
        ])

  pub batches-count :
      (calls : List (Call evaluate rules sha2 merge × List BronzeRow)) (lake : Lake)
      → count_key k lake.silver ≤ 1
      → count_key k (batches evaluate rules sha2 merge calls lake).silver ≤ 1
  batches-count [] lake h = h
  batches-count ((call, rows) ∷ more) lake h =
      batches-count more (write_batch evaluate rules sha2 merge call rows lake).1
        (write_batch-count call rows lake h)

  -- With a lawful MERGE, after any sequence of batches from an empty Silver, an event_id stands in it at most once, and
  -- it does exactly when some batch has a row with it of which every critical predicate is TRUE at the time of the batch.
  pub batches-IsExact :
      (calls : List (Call evaluate rules sha2 merge × List BronzeRow)) (lake : Lake)
      → lake.silver ≡ []
      → let silver = (batches evaluate rules sha2 merge calls lake).silver in
        (count_key k silver ≤ 1)
        × ((count_key k silver ≡ 1) ↔ Offers evaluate rules sha2 merge k calls)
  batches-IsExact calls lake empty =
      let silver = (batches evaluate rules sha2 merge calls lake).silver in
      let iff = batches-keys_iff evaluate rules sha2 merge lawful k calls lake in
      let most = batches-count calls lake (count_key-empty k lake.silver empty) in
      (
        most,
        (
          (λ one. elim (iff.0 (some-count_key k silver one)) [
            | inl old ↦ absurd (subst (λ rows. Elem (some k) (keys rows)) empty old)
            | inr offered ↦ offered
          ]),
          (λ offered. let least = count_key-some k silver (iff.1 (inr offered)) in omega arith),
        ),
      )
