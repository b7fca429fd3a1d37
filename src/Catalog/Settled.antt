-- ===== src/Catalog/Settled.antt =====
-- That src/fleetstream/common/iceberg.py can run any number of times.
use mathlib.Core.Path.{subst}
use mathlib.Core.Option.{some_inj}
use Prim.Native.String.{String, ◌++◌}
use fleet_stream_real_time_f.Prelude.{
  ℕ, ◌>>=◌, Bool, true, Option, none, some, List, [], ◌∷◌, ◌≡◌, refl, sym, ap, ◌∙◌, All,
}
use fleet_stream_real_time_f.Config.Parts.{CatalogConfig}
use fleet_stream_real_time_f.Catalog.{
  Statement, create_namespace, create_table, Sql, table_name, bootstrap_statements, create_all,
  bootstrap, is_expected, concluded, smoke_test, main,
}

module _ {C : Type 0} (sql : Sql C) where
  -- what the statement would create is there: it does nothing
  abbrev pub IsSettled : C → Statement → Type 0
  IsSettled c s = sql.create s c ≡ some c

  abbrev pub is_guarded : Statement → Bool
  is_guarded (create_namespace guard name) = guard
  is_guarded (create_table guard name columns partition) = guard

  -- such a table is there
  abbrev pub IsPresent : C → String → Type 0
  IsPresent c name =
      (columns : String) × (partition : String) × IsSettled c
        (create_table true name columns partition)

  -- What IF NOT EXISTS means, and that a statement on one table leaves the others. Rows are as they were inserted.
  pub record IsSql : Type 0 where
    pub settles :
        (s : Statement) (c d : C) → is_guarded s ≡ true → sql.create s c ≡ some d → IsSettled d s
    pub create_keeps :
        (s t : Statement) (c d : C) → IsSettled c s → sql.create t c ≡ some d → IsSettled d s
    pub reads :
        (table note : String) (id : ℕ) (b c d e : C)
        → sql.drop_if_exists table b ≡ some c
        → sql.create_smoke table c ≡ some d
        → sql.insert table id note d ≡ some e
        → sql.select table e ≡ some ((id, note) ∷ [])

  -- a chain that gives a result did not stop at its first link
  bind-some :
      {A B : Type 0} (o : Option A) (k : A → Option B) (b : B)
      → (o >>= k) ≡ some b
      → (a : A) × (o ≡ some a) × (k a ≡ some b)
  bind-some none k b h = cc
  bind-some (some a) k b h = (a, refl, h)

  create_all-settled :
      (statements : List Statement) (c : C)
      → All (IsSettled c) statements
      → create_all sql statements c ≡ some c
  unfolding create_all
  create_all-settled [] c h = refl
  create_all-settled (s ∷ statements) c h = rw (h.0) (create_all-settled statements c h.1)

  module _ (lawful : IsSql) where
    IsSettled-later :
        (s : Statement) (todo : List Statement) (c d : C)
        → IsSettled c s
        → create_all sql todo c ≡ some d
        → IsSettled d s
    unfolding create_all
    IsSettled-later s [] c d h e = subst (λ x. IsSettled x s) (some_inj.0 e) h
    IsSettled-later s (t ∷ todo) c d h e =
        let (b, created, rest) = bind-some (sql.create t c) (create_all sql todo) d e in
        IsSettled-later s todo b d (lawful.create_keeps s t c b h created) rest

    create_all-IsSettled :
        (todo : List Statement) (c d : C)
        → All (λ s. is_guarded s ≡ true) todo
        → create_all sql todo c ≡ some d
        → All (IsSettled d) todo
    unfolding create_all
    create_all-IsSettled [] c d guarded e = tt
    create_all-IsSettled (t ∷ todo) c d guarded e =
        let (b, created, rest) = bind-some (sql.create t c) (create_all sql todo) d e in
        (
          IsSettled-later t todo b d (lawful.settles t c b guarded.0 created) rest,
          create_all-IsSettled todo b d guarded.1 rest,
        )

    smoke_test-passes :
        (smoke : String) (c : C) (p : ℕ × C) → smoke_test sql smoke c ≡ some p → p.0 ≡ 0
    unfolding smoke_test
    smoke_test-passes smoke c p h =
        let (clean, dropped, h1) = bind-some (sql.drop_if_exists smoke c) _ p h in
        let (created, made, h2) = bind-some (sql.create_smoke smoke clean) _ p h1 in
        let (filled, inserted, h3) =
          bind-some (sql.insert smoke 1 "round-trip through MinIO" created) _ p h2 in
        let (rows, selected, h4) = bind-some (sql.select smoke filled) _ p h3 in
        let read =
          lawful.reads smoke "round-trip through MinIO" 1 c clean created filled dropped made
            inserted in
        let expected = ap (is_expected sql) (some_inj.0 (sym selected ∙ read)) in
        let passed = sym (ap (concluded sql smoke filled) expected) ∙ h4 in
        let (left, _, e) = bind-some (sql.drop smoke filled) _ p passed in
        sym (ap (λ x. x.0) (some_inj.0 e))

    -- Where SQL keeps to IF NOT EXISTS: once the bootstrap has succeeded, it succeeds again and changes nothing, and the
    -- four namespaces and the tables of Bronze, Silver, the quarantine and the counters are there. The bootstrap job,
    -- which adds the smoke test, ends with exit code 0 whenever no statement raises.
    pub bootstrap-IsSettled :
        (cfg : CatalogConfig) (c d : C) (p : ℕ × C)
        → bootstrap sql cfg c ≡ some d
        → main sql cfg c ≡ some p
        → (bootstrap sql cfg d ≡ some d)
          × (p.0 ≡ 0)
          × All
              (λ namespace. IsSettled d (create_namespace true (cfg.name ++ ("." ++ namespace))))
              (cfg.bronze ∷ cfg.silver ∷ cfg.gold ∷ cfg.platform ∷ [])
          × (IsPresent d (table_name cfg cfg.bronze "telemetry_raw")
              × IsPresent d (table_name cfg cfg.silver "telemetry")
              × IsPresent d (table_name cfg cfg.silver "telemetry_quarantine")
              × IsPresent d (table_name cfg cfg.platform "reconciliation"))
    unfolding bootstrap main bootstrap_statements
    bootstrap-IsSettled cfg c d p h k =
        let (ready, _, tested) =
          bind-some (bootstrap sql cfg c)
            (smoke_test sql (table_name cfg cfg.platform "smoke_test")) p k in
        let settled =
          create_all-IsSettled (bootstrap_statements cfg) c d
            (refl, (refl, (refl, (refl, (refl, (refl, (refl, (refl, tt)))))))) h in
        let tables = settled.1.1.1.1 in
        (
          create_all-settled (bootstrap_statements cfg) d settled,
          smoke_test-passes (table_name cfg cfg.platform "smoke_test") ready p tested,
          (settled.0, (settled.1.0, (settled.1.1.0, (settled.1.1.1.0, tt)))),
          ((_, _, tables.0), (_, _, tables.1.0), (_, _, tables.1.1.0), (_, _, tables.1.1.1.0)),
        )
