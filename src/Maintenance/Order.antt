-- ===== src/Maintenance/Order.antt =====
-- The statements that `maintain` of src/fleetstream/maintenance/table_maintenance.py issues, in their order.
use fleet_stream_real_time_f.Prelude.{
  ℕ, ◌-◌, ◌*◌, String, Option, none, some, Bool, true, false, List, [], ◌∷◌, ◌++◌, ◌≡◌, ◌⊎◌,
}
use fleet_stream_real_time_f.Maintenance.{
  MaintenanceResult, Statement, rewrite_data_files, expire_snapshots, remove_orphan_files, Row,
  Reply, ok, raised,
}

-- the text of an exception
abbrev pub error_of : {A : Type 0} → Reply A → Option String
error_of (ok a) = none
error_of (raised e) = some e

abbrev pub Log : Type 0
Log = List (Statement × Option String)

module _ {C : Type 0} (sql : Statement → C → Reply (List Row) × C) where
  -- the catalog with a record of what it was asked, and of what it raised
  abbrev pub recorded : Statement → Log × C → Reply (List Row) × (Log × C)
  recorded s (log, c) = let (reply, c') = sql s c in (reply, (log ++ (s, error_of reply) ∷ [], c'))

  -- One, two or three statements: the compaction; the expiry after it, unless it raised; and the removal of orphans
  -- after both, unless one raised or it is to be skipped. The error is that of the last.
  abbrev pub IsInOrder : ℕ → ℕ → ℕ → ℕ → Bool → String → MaintenanceResult × (Log × C) → Type 0
  IsInOrder now target_mb snapshot_hours orphan_hours skip_orphans table (result, (log, c)) =
      let rewrite = rewrite_data_files table (target_mb * 1024 * 1024) in
      let expiry = expire_snapshots table (now - snapshot_hours * 3600) in
      let removal = remove_orphan_files table (now - orphan_hours * 3600) in
      ((e : String) × (log ≡ (rewrite, some e) ∷ []) × (result.error ≡ some e))
      ⊎ ((e : String) × (log ≡ (rewrite, none) ∷ (expiry, some e) ∷ []) × (result.error ≡ some e))
      ⊎ ((log ≡ (rewrite, none) ∷ (expiry, none) ∷ [])
          × (skip_orphans ≡ true)
          × (result.error ≡ none))
      ⊎ ((o : Option String) × (log ≡ (rewrite, none) ∷ (expiry, none) ∷ (removal, o) ∷ [])
          × (skip_orphans ≡ false)
          × (result.error ≡ o))
