-- ===== src/Silver/Merge.antt =====
-- `MERGE INTO target USING source ON t.event_id = s.event_id`, that updates all columns of a match and
-- inserts the rest: what Iceberg documents of it.
use fleet_stream_real_time_f.Prelude.{
  Bool-cases, ℕ, suc, ◌+◌, String, Option, none, some, Bool, true, false, List, [], ◌∷◌, length,
  ◌≡◌, ◌⊎◌, ◌↔◌, inl, inr, refl, Elem, AllDistinct, arith, if◌then◌else◌,
}
use fleet_stream_real_time_f.Silver.Rows.{SilverRow, key}
use fleet_stream_real_time_f.Silver.Newest.{keys, same_key_iff}
use fleet_stream_real_time_f.Silver.Dedupe.{same_key}
use fleet_stream_real_time_f.Silver.Write.{contains_key}

-- a key that the ON condition finds among the rows: NULL equals nothing
abbrev pub is_known : Option String → List SilverRow → Bool
is_known none rows = false
is_known (some k) rows = contains_key (some k) (keys rows)

unfoldable pub count_new : List SilverRow → List SilverRow → ℕ
count_new target [] = 0
count_new target (s ∷ source) =
    let n = count_new target source in if is_known (key s) target then n else suc n

-- how many rows have the key
unfoldable pub count_key : String → List SilverRow → ℕ
unfolding same_key
count_key k [] = 0
count_key k (r ∷ rows) = let n = count_key k rows in if same_key (some k) (key r) then suc n else n

pub record IsMerge (merge : List SilverRow → List SilverRow → Option (List SilverRow))
    : Type 0 where
  -- it aborts only if two source rows have one key
  pub accepts :
      (target source : List SilverRow)
      → AllDistinct (keys source)
      → (result : List SilverRow) × (merge target source ≡ some result)
  -- the rows after it: those of the source, and those of the target that it does not match
  pub rows :
      (target source result : List SilverRow)
      → AllDistinct (keys source)
      → merge target source ≡ some result
      → (row : SilverRow)
      → Elem row result
        ↔ (Elem row source ⊎ (Elem row target × (is_known (key row) source ≡ false)))
  -- matched rows are updated in place
  pub size :
      (target source result : List SilverRow)
      → merge target source ≡ some result
      → length result ≡ length target + count_new target source
  -- a matched row keeps its place, and each unmatched one is inserted
  pub copies :
      (target source result : List SilverRow)
      → merge target source ≡ some result
      → (k : String)
      → count_key k result
        ≡ (if is_known (some k) target then count_key k target else count_key k source)

pub contains_key-Elem :
    (k : Option String) (ks : List (Option String)) → Elem k ks → contains_key k ks ≡ true
unfolding contains_key
contains_key-Elem k [] h = absurd h
contains_key-Elem k (j ∷ ks) (inl e) = rw ((same_key_iff k j).1 e)
contains_key-Elem k (j ∷ ks) (inr h) = ground (arith, contains_key-Elem k ks h)

-- A source whose keys are all known adds no row.
pub count_new_known :
    (target source : List SilverRow)
    → ((s : SilverRow) → Elem s source → is_known (key s) target ≡ true)
    → count_new target source ≡ 0
unfolding count_new
count_new_known target [] h = refl
count_new_known target (s ∷ source) h =
    rw (h s (inl refl)) (count_new_known target source (λ r e. h r (inr e)))

pub contains_key_elem :
    (k : Option String) (ks : List (Option String)) → contains_key k ks ≡ true → Elem k ks
unfolding contains_key
contains_key_elem k [] h = cc
contains_key_elem k (j ∷ ks) h = elim (Bool-cases (same_key k j)) [
  | inl same ↦ inl ((same_key_iff k j).0 same)
  | inr other ↦ inr (contains_key_elem k ks (simp (other) at h))
]

pub is_known_elem :
    (k : Option String) (rows : List SilverRow) → is_known k rows ≡ true → Elem k (keys rows)
is_known_elem none rows h = cc
is_known_elem (some k) rows h = contains_key_elem (some k) (keys rows) h

pub is_known-some :
    (k : String) (row : SilverRow) (rows : List SilverRow)
    → key row ≡ some k
    → Elem (some k) (keys rows)
    → is_known (key row) rows ≡ true
is_known-some k row rows e h = rw e (contains_key-Elem (some k) (keys rows) h)
