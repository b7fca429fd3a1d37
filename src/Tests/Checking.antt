-- ===== src/Tests/Checking.antt =====
-- Rules that load, a position, and rows of one event: the theorems about them at concrete inputs.
use fleet_stream_real_time_f.Prelude.{
  ◌∙◌, sym, AllDistinct, ℕ, String, none, some, List, [], ◌∷◌, ◌≡◌, refl, Elem,
}
use fleet_stream_real_time_f.Prelude.Int.{pos}
use fleet_stream_real_time_f.Float.Fixed.{fixed}
use fleet_stream_real_time_f.Quality.Rules.{
  RuleSet, RawRule, RawRules, ok, parse, parse_entries, parse_entry, checked_rule, contains,
  is_severity,
}
use fleet_stream_real_time_f.Quality.Loading.{IsAccepted, parse-IsAccepted}
use fleet_stream_real_time_f.Vehicle.Position.{
  IsCoherent, position_at, position_at_cached, position_at_cached_lem,
}
use fleet_stream_real_time_f.Silver.Rows.{SilverRow, key}
use fleet_stream_real_time_f.Silver.Dedupe.{precedes, dedupe, keep_newest, same_key}
use fleet_stream_real_time_f.Silver.Latest.{IsAsNew, dedupe-IsLatest}
use fleet_stream_real_time_f.Silver.Newest.{keys}
use fleet_stream_real_time_f.Silver.Write.{enriched_row}
use fleet_stream_real_time_f.Tests.Samples.{flat, loop_route}
use fleet_stream_real_time_f.Tests.Batching.{bronze, reading, speed_rule}

abbrev as_is : String → String
as_is s = s

abbrev raw_rule : RawRule
raw_rule = record {
  name = some speed_rule.name;
  severity = some "critical";
  expression = some speed_rule.expression;
  description = some speed_rule.description;
  dimension = none;
}

abbrev raw_rules : RawRules
raw_rules = record { version = some 1; rules = some raw_rule ∷ [] }

abbrev one_rule : RuleSet
one_rule = record { version = 1; rules = speed_rule ∷ [] }

parses : parse as_is as_is as_is (some raw_rules) ≡ ok one_rule
unfolding parse parse_entries parse_entry checked_rule contains is_severity
parses = refl

parse-IsAccepted_example : IsAccepted as_is as_is as_is raw_rules.rules one_rule
parse-IsAccepted_example = parse-IsAccepted as_is as_is as_is raw_rules one_rule parses

position_at_cached_lem_example :
    ((position_at_cached flat [] loop_route (pos 6_000_000)).0
      ≡ position_at flat loop_route (pos 6_000_000))
    × IsCoherent flat
        (λ r. r ≡ loop_route)
        (position_at_cached flat [] loop_route (pos 6_000_000)).1
position_at_cached_lem_example =
    position_at_cached_lem flat (λ r. r ≡ loop_route) (λ r q h k _. h ∙ sym k) [] loop_route
      (pos 6_000_000) refl tt

abbrev silver : ℕ → SilverRow
silver offset =
    enriched_row (pos 0) "silver" (bronze offset (reading "a" (pos 50_000_000))) none none

abbrev delivered : List SilverRow
delivered = silver 1 ∷ silver 4 ∷ silver 2 ∷ []

is_newest : dedupe delivered ≡ silver 4 ∷ []
unfolding dedupe keep_newest precedes same_key enriched_row
is_newest = refl

dedupe-IsLatest_example :
    AllDistinct (keys (dedupe delivered))
    × ((other : SilverRow)
        → Elem other delivered
        → (row : SilverRow) × Elem row (dedupe delivered)
          × Elem row delivered
          × (key row ≡ key other)
          × ((x : SilverRow)
              → Elem x delivered
              → key x ≡ key other
              → IsAsNew row.provenance x.provenance))
dedupe-IsLatest_example = dedupe-IsLatest delivered
