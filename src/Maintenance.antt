-- ===== src/Maintenance.antt =====
-- src/fleetstream/maintenance/table_maintenance.py. The catalog is a state with a call of Spark SQL, that
-- gives rows of two columns or an exception with its text.
pub mod Order
pub mod Command
pub mod Pipeline
use fleet_stream_real_time_f.Prelude.{
  contrary, ℕ, ◌-◌, ◌*◌, ◌≡◌, ◌↔◌, refl, ap, String, str_eq, eq_iff, Option, none, some, Bool, true,
  false, List, [], ◌∷◌, map, length, ◌⊎◌, All, All-map, inl, inr, arith, Bool-cases, if◌then◌else◌,
}

pub record MaintenanceResult : Type 0 where
  pub table : String
  pub rewritten_files : ℕ
  pub added_files : ℕ
  pub expired_snapshots : ℕ
  pub removed_orphans : ℕ
  pub error : Option String

-- the statements, with what the code puts into their text
pub data Statement : Type 0 where
  rewrite_data_files : String → ℕ → Statement
  expire_snapshots : String → ℕ → Statement
  remove_orphan_files : String → ℕ → Statement

abbrev pub Row : Type 0
Row = Option ℕ × Option ℕ

pub data Reply (A : Type 0) : Type 0 where
  ok : A → Reply A
  raised : String → Reply A

abbrev pub or_zero : Option ℕ → ℕ
or_zero none = 0
or_zero (some n) = n

abbrev pub first_row : List Row → ℕ × ℕ
first_row [] = (0, 0)
first_row ((a, b) ∷ rows) = (or_zero a, or_zero b)

module _ {C : Type 0} (sql : Statement → C → Reply (List Row) × C) where
  abbrev pub replied : {A : Type 0} → (List Row → A) → Reply (List Row) × C → Reply A × C
  replied k (ok rows, c) = (ok (k rows), c)
  replied k (raised e, c) = (raised e, c)

  unfoldable pub compact : String → ℕ → C → Reply (ℕ × ℕ) × C
  compact table target_mb c =
      replied first_row (sql (rewrite_data_files table (target_mb * 1024 * 1024)) c)

  -- instants are in seconds, `now` is the clock
  unfoldable pub expire : ℕ → String → ℕ → C → Reply ℕ × C
  expire now table retention_hours c =
      replied (λ rows. (first_row rows).0)
        (sql (expire_snapshots table (now - retention_hours * 3600)) c)

  unfoldable pub remove_orphans : ℕ → String → ℕ → C → Reply ℕ × C
  remove_orphans now table retention_hours c =
      replied length (sql (remove_orphan_files table (now - retention_hours * 3600)) c)

  abbrev pub orphans_removed : MaintenanceResult → Reply ℕ × C → MaintenanceResult × C
  orphans_removed result (ok n, c) = (record result { removed_orphans = n }, c)
  orphans_removed result (raised e, c) = (record result { error = some e }, c)

  abbrev pub expired : ℕ → ℕ → Bool → MaintenanceResult → Reply ℕ × C → MaintenanceResult × C
  expired now orphan_hours skip_orphans result (ok n, c) =
      let done = record result { expired_snapshots = n } in
      if skip_orphans
      then (done, c)
      else orphans_removed done (remove_orphans now result.table orphan_hours c)
  expired now orphan_hours skip_orphans result (raised e, c) = (record result { error = some e }, c)

  abbrev pub compacted :
      ℕ → ℕ → ℕ → Bool → MaintenanceResult → Reply (ℕ × ℕ) × C → MaintenanceResult × C
  compacted now snapshot_hours orphan_hours skip_orphans result (ok (rewritten, added), c) =
      let done = record result { rewritten_files = rewritten; added_files = added } in
      expired now orphan_hours skip_orphans done (expire now result.table snapshot_hours c)
  compacted now snapshot_hours orphan_hours skip_orphans result (raised e, c) =
      (record result { error = some e }, c)

  abbrev pub new_result : String → MaintenanceResult
  new_result table = record {
    table = table;
    rewritten_files = 0;
    added_files = 0;
    expired_snapshots = 0;
    removed_orphans = 0;
    error = none;
  }

  -- an exception ends the steps and is kept in the result
  unfoldable pub maintain : ℕ → ℕ → ℕ → ℕ → Bool → String → C → MaintenanceResult × C
  unfolding compact expire remove_orphans
  maintain now target_mb snapshot_hours orphan_hours skip_orphans table c =
      compacted now snapshot_hours orphan_hours skip_orphans (new_result table)
        (compact table target_mb c)

  -- the comprehension of `main`
  unfoldable pub maintain_all : ℕ → ℕ → ℕ → ℕ → Bool → List String → C → List MaintenanceResult × C
  unfolding maintain
  maintain_all now target_mb snapshot_hours orphan_hours skip_orphans [] c = ([], c)
  maintain_all now target_mb snapshot_hours orphan_hours skip_orphans (table ∷ tables) c =
      let (result, c1) = maintain now target_mb snapshot_hours orphan_hours skip_orphans table c in
      let (results, c2) =
        maintain_all now target_mb snapshot_hours orphan_hours skip_orphans tables c1 in
      (result ∷ results, c2)

-- `if r.error`: an error with an empty text counts as none
unfoldable pub has_failed : Option String → Bool
has_failed none = false
has_failed (some e) = if str_eq e "" then false else true

unfoldable pub any_failed : List MaintenanceResult → Bool
any_failed [] = false
any_failed (r ∷ results) =
    let rest = any_failed results in if has_failed r.error then true else rest

unfoldable pub exit_code : List MaintenanceResult → ℕ
exit_code results = if any_failed results then 1 else 0

-- no error, or one without a text
abbrev pub IsClean : MaintenanceResult → Type 0
IsClean r = (r.error ≡ none) ⊎ (r.error ≡ some "")

clean_of : (o : Option String) → has_failed o ≡ false → (o ≡ none) ⊎ (o ≡ some "")
unfolding has_failed
clean_of none h = inl refl
clean_of (some e) h = elim (Bool-cases (str_eq e "")) [
  | inl empty ↦ inr (ap some ((eq_iff e "").0 empty))
  | inr other ↦ absurd (contrary refl (simp (other) at h))
]

of_clean : (o : Option String) → (o ≡ none) ⊎ (o ≡ some "") → has_failed o ≡ false
unfolding has_failed
of_clean o (inl e) = ap has_failed e
of_clean o (inr e) = ap has_failed e

none_failed :
    (results : List MaintenanceResult)
    → any_failed results ≡ false
    → All (λ r. has_failed r.error ≡ false) results
unfolding any_failed
none_failed [] h = tt
none_failed (r ∷ results) h = elim (Bool-cases (has_failed r.error)) [
  | inl bad ↦ absurd (contrary (rw bad refl) h)
  | inr good ↦ (good, none_failed results (simp (good) at h))
]

any_failed_none :
    (results : List MaintenanceResult)
    → All (λ r. has_failed r.error ≡ false) results
    → any_failed results ≡ false
unfolding any_failed
any_failed_none [] h = refl
any_failed_none (r ∷ results) h = rw (h.0) (any_failed_none results h.1)

exit_code-none :
    (results : List MaintenanceResult) → exit_code results ≡ 0 → any_failed results ≡ false
unfolding exit_code
exit_code-none results h = ground arith

none-exit_code :
    (results : List MaintenanceResult) → any_failed results ≡ false → exit_code results ≡ 0
unfolding exit_code
none-exit_code results h = rw h refl

abbrev failure : {A : Type 0} → String → Reply A
failure e = raised e

text_of : {A : Type 0} {e : String} → failure {A = A} e ≡ raised "" → e ≡ ""
text_of h = cc

empty_text : (e : String) → e ≡ "" → has_failed (some e) ≡ false
unfolding has_failed
empty_text e h = rw ((eq_iff e "").1 h) refl

module _ {C : Type 0} (sql : Statement → C → Reply (List Row) × C) where
  table-orphans_removed :
      (result : MaintenanceResult) (reply : Reply ℕ × C)
      → (orphans_removed sql result reply).0.table ≡ result.table
  table-orphans_removed result (ok n, c) = refl
  table-orphans_removed result (raised e, c) = refl

  table-expired :
      (now orphan_hours : ℕ) (skip_orphans : Bool) (result : MaintenanceResult)
      (reply : Reply ℕ × C)
      → (expired sql now orphan_hours skip_orphans result reply).0.table ≡ result.table
  table-expired now orphan_hours true result (ok n, c) = refl
  table-expired now orphan_hours false result (ok n, c) =
      table-orphans_removed (record result { expired_snapshots = n })
        (remove_orphans sql now result.table orphan_hours c)
  table-expired now orphan_hours skip_orphans result (raised e, c) = refl

  table-compacted :
      (now snapshot_hours orphan_hours : ℕ) (skip_orphans : Bool) (result : MaintenanceResult)
      (reply : Reply (ℕ × ℕ) × C)
      → (compacted sql now snapshot_hours orphan_hours skip_orphans result reply).0.table
        ≡ result.table
  table-compacted now snapshot_hours orphan_hours skip_orphans result (ok (a, b), c) =
      table-expired now orphan_hours skip_orphans
        (record result { rewritten_files = a; added_files = b })
        (expire sql now result.table snapshot_hours c)
  table-compacted now snapshot_hours orphan_hours skip_orphans result (raised e, c) = refl

  tables-maintain_all :
      (now target_mb snapshot_hours orphan_hours : ℕ) (skip_orphans : Bool) (tables : List String)
      (c : C)
      → map
          (λ (r : MaintenanceResult). r.table)
          (maintain_all sql now target_mb snapshot_hours orphan_hours skip_orphans tables c).0
        ≡ tables
  unfolding maintain_all
  tables-maintain_all now target_mb snapshot_hours orphan_hours skip_orphans [] c = refl
  tables-maintain_all now target_mb snapshot_hours orphan_hours skip_orphans (table ∷ tables) c =
      λ i.
        table-compacted now snapshot_hours orphan_hours skip_orphans (new_result sql table)
          (compact sql table target_mb c) i
        ∷ tables-maintain_all now target_mb snapshot_hours orphan_hours skip_orphans tables
            (compacted sql now snapshot_hours orphan_hours skip_orphans (new_result sql table)
              (compact sql table target_mb c)).1
            i

  -- the result is that of maintaining its table, with the catalog as it was
  abbrev pub IsMaintained : ℕ → ℕ → ℕ → ℕ → Bool → MaintenanceResult → Type 0
  IsMaintained now target_mb snapshot_hours orphan_hours skip_orphans r =
      (table : String) × (c : C) × ((maintain sql now target_mb snapshot_hours orphan_hours
          skip_orphans table c).0
        ≡ r)

  all-IsMaintained :
      (now target_mb snapshot_hours orphan_hours : ℕ) (skip_orphans : Bool) (tables : List String)
      (c : C)
      → All
          (IsMaintained now target_mb snapshot_hours orphan_hours skip_orphans)
          (maintain_all sql now target_mb snapshot_hours orphan_hours skip_orphans tables c).0
  unfolding maintain_all
  all-IsMaintained now target_mb snapshot_hours orphan_hours skip_orphans [] c = tt
  all-IsMaintained now target_mb snapshot_hours orphan_hours skip_orphans (table ∷ tables) c = (
    (table, c, refl),
    all-IsMaintained now target_mb snapshot_hours orphan_hours skip_orphans tables _,
  )

  -- Whatever statement fails, every table is maintained, in the order given, and has its result. The exit
  -- code is 0 exactly when no result has an error with a text.
  pub maintain_all-IsReported :
      (now target_mb snapshot_hours orphan_hours : ℕ) (skip_orphans : Bool) (tables : List String)
      (c : C)
      → let results =
          (maintain_all sql now target_mb snapshot_hours orphan_hours skip_orphans tables c).0 in
        (map (λ (r : MaintenanceResult). r.table) results ≡ tables)
        × All (IsMaintained now target_mb snapshot_hours orphan_hours skip_orphans) results
        × ((exit_code results ≡ 0) ↔ All IsClean results)
  maintain_all-IsReported now target_mb snapshot_hours orphan_hours skip_orphans tables c = (
    tables-maintain_all now target_mb snapshot_hours orphan_hours skip_orphans tables c,
    all-IsMaintained now target_mb snapshot_hours orphan_hours skip_orphans tables c,
    (
      (λ h.
          All-map (λ r. has_failed r.error ≡ false) IsClean _
            (λ (r : MaintenanceResult) e. clean_of r.error e) (none_failed _ (exit_code-none _ h))),
      λ h. none-exit_code _ (
          any_failed_none _ (
            All-map IsClean (λ r. has_failed r.error ≡ false) _
              (λ (r : MaintenanceResult) e. of_clean r.error e) h)),
    ),
  )

  raised-replied :
      {A : Type 0} (k : List Row → A) (reply : Reply (List Row) × C)
      → reply.0 ≡ raised ""
      → (replied sql k reply).0 ≡ raised ""
  raised-replied k (ok rows, c) h = cc
  raised-replied k (raised e, c) h = ap failure (text_of h)

  silent_result :
      (result : MaintenanceResult) (now snapshot_hours orphan_hours : ℕ) (skip_orphans : Bool)
      (reply : Reply (ℕ × ℕ) × C)
      → reply.0 ≡ raised ""
      → has_failed (compacted sql now snapshot_hours orphan_hours skip_orphans result reply).0.error
        ≡ false
  silent_result result now snapshot_hours orphan_hours skip_orphans (ok p, c) h = cc
  silent_result result now snapshot_hours orphan_hours skip_orphans (raised e, c) h =
      empty_text e (text_of h)

  module _ (silent : (s : Statement) (c : C) → (sql s c).0 ≡ raised "") where
    All-silent :
        (now target_mb snapshot_hours orphan_hours : ℕ) (skip_orphans : Bool) (tables : List String)
        (c : C)
        → All
            (λ (r : MaintenanceResult). has_failed r.error ≡ false)
            (maintain_all sql now target_mb snapshot_hours orphan_hours skip_orphans tables c).0
    unfolding maintain_all compact
    All-silent now target_mb snapshot_hours orphan_hours skip_orphans [] c = tt
    All-silent now target_mb snapshot_hours orphan_hours skip_orphans (table ∷ tables) c = (
      silent_result (new_result sql table) now snapshot_hours orphan_hours skip_orphans _ (
          raised-replied first_row (sql (rewrite_data_files table (target_mb * 1024 * 1024)) c)
            (silent _ c)),
      All-silent now target_mb snapshot_hours orphan_hours skip_orphans tables _,
    )

    -- If every statement raises an exception whose text is empty, the exit code is 0 for any tables.
    pub silent_failure :
        (now target_mb snapshot_hours orphan_hours : ℕ) (skip_orphans : Bool) (tables : List String)
        (c : C)
        → exit_code
            (maintain_all sql now target_mb snapshot_hours orphan_hours skip_orphans tables c).0
          ≡ 0
    silent_failure now target_mb snapshot_hours orphan_hours skip_orphans tables c =
        none-exit_code _ (
          any_failed_none _
            (All-silent now target_mb snapshot_hours orphan_hours skip_orphans tables c))
