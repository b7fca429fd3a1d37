-- ===== src/Tests/Cataloguing.antt =====
-- The bootstrap against a catalog that is a list of the names it has.
use mathlib.Core.Path.{subst}
use mathlib.Core.Option.{some_inj}
use Prim.Native.String.{String, ◌++◌ as concat}
use fleet_stream_real_time_f.Prelude.{
  ℕ, str_eq, eq_iff, Option, none, some, Bool, true, false, ◌||◌, List, [], ◌∷◌, ◌≡◌, All, refl,
  sym, ap, Bool-cases, inl, inr, if◌then◌else◌,
}
use fleet_stream_real_time_f.Config.Parts.{CatalogConfig}
use fleet_stream_real_time_f.Catalog.{
  Statement, create_namespace, create_table, Sql, table_name, bootstrap_statements, create_all,
  bootstrap, smoke_test, main,
}
use fleet_stream_real_time_f.Catalog.Settled.{IsSql, IsPresent, IsSettled, bootstrap-IsSettled}

-- the names that were created, and the rows of the smoke table
abbrev Tables : Type 0
Tables = List String × List (ℕ × String)

abbrev name_of : Statement → String
name_of (create_namespace guard name) = name
name_of (create_table guard name columns partition) = name

unfoldable knows : String → List String → Bool
knows name [] = false
knows name (n ∷ names) = str_eq n name || knows name names

abbrev add : String → List String → List String
add name names = if knows name names then names else name ∷ names

abbrev listing : Sql Tables
listing = record {
  create = λ s c. some (add (name_of s) c.0, c.1);
  drop_if_exists = λ table c. some (c.0, []);
  create_smoke = λ table c. some (c.0, []);
  insert = λ table id note c. some (c.0, (id, note) ∷ []);
  select = λ table c. some c.1;
  drop = λ table c. some (c.0, []);
}

or_true : (b : Bool) → (b || true) ≡ true
or_true true = refl
or_true false = refl

knows-add : (name : String) (names : List String) → knows name (add name names) ≡ true
unfolding knows
knows-add name names = elim (Bool-cases (knows name names)) [
  | inl known ↦ simp (known) refl
  | inr new ↦ simp (new, (eq_iff name name).1 refl) refl
]

-- what is known stays known
knows-other :
    (name other : String) (names : List String)
    → knows name names ≡ true
    → knows name (add other names) ≡ true
unfolding knows
knows-other name other names h = elim (Bool-cases (knows other names)) [
  | inl known ↦ simp (known, h) refl
  | inr new ↦ simp (new, h) (or_true (str_eq other name))
]

IsSettled-of : (s : Statement) (c : Tables) → knows (name_of s) c.0 ≡ true → IsSettled listing c s
IsSettled-of s (names, rows) h = simp (h) refl

known_of_settled :
    (s : Statement) (c : Tables) → IsSettled listing c s → knows (name_of s) c.0 ≡ true
known_of_settled s c h =
    subst (λ (names : List String). knows (name_of s) names ≡ true)
      (ap (λ (x : Tables). x.0) (some_inj.0 h)) (knows-add (name_of s) c.0)

listing-IsSql : IsSql listing
listing-IsSql = record {
  settles = λ s c d guarded h.
      subst (λ x. IsSettled listing x s) (some_inj.0 h)
        (IsSettled-of s (add (name_of s) c.0, c.1) (knows-add (name_of s) c.0));
  create_keeps = λ s t c d h k.
      subst (λ x. IsSettled listing x s) (some_inj.0 k)
        (IsSettled-of s (add (name_of t) c.0, c.1)
          (knows-other (name_of s) (name_of t) c.0 (known_of_settled s c h)));
  reads = λ table note id b c d e x y z. sym (ap (λ (o : Option Tables). rows_of o) z);
}
  where
    rows_of : Option Tables → Option (List (ℕ × String))
    rows_of none = none
    rows_of (some c) = some c.1

abbrev pub catalog : CatalogConfig
catalog = record {
  rest_uri = "http://iceberg-rest:8181";
  name = "fleetstream";
  bronze = "bronze";
  silver = "silver";
  gold = "gold";
  platform = "platform";
}

abbrev names : List String
names =
    "fleetstream.platform.reconciliation" ∷ "fleetstream.silver.telemetry_quarantine"
    ∷ "fleetstream.silver.telemetry" ∷ "fleetstream.bronze.telemetry_raw" ∷ "fleetstream.platform"
    ∷ "fleetstream.gold" ∷ "fleetstream.silver" ∷ "fleetstream.bronze" ∷ []

bootstrapped : bootstrap listing catalog ([], []) ≡ some (names, [])
unfolding bootstrap create_all bootstrap_statements table_name knows
bootstrapped = refl

ended : main listing catalog ([], []) ≡ some (0, (names, []))
unfolding main bootstrap create_all bootstrap_statements smoke_test table_name knows
ended = refl

bootstrap-IsSettled_example :
    (bootstrap listing catalog (names, []) ≡ some (names, []))
    × (◌≡◌ {A = ℕ} 0 0)
    × All
        (λ namespace.
          IsSettled listing
            (names, [])
            (create_namespace true (concat catalog.name (concat "." namespace))))
        (catalog.bronze ∷ catalog.silver ∷ catalog.gold ∷ catalog.platform ∷ [])
    × (IsPresent listing (names, []) (table_name catalog catalog.bronze "telemetry_raw")
        × IsPresent listing (names, []) (table_name catalog catalog.silver "telemetry")
        × IsPresent listing (names, []) (table_name catalog catalog.silver "telemetry_quarantine")
        × IsPresent listing (names, []) (table_name catalog catalog.platform "reconciliation"))
bootstrap-IsSettled_example =
    bootstrap-IsSettled listing listing-IsSql catalog ([], []) (names, []) (0, (names, []))
      bootstrapped ended
