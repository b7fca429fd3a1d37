-- ===== src/Reconciliation.antt =====
-- src/fleetstream/quality/reconciliation.py: the counters of one stage of one run.
use fleet_stream_real_time_f.Prelude.{
  String, Option, Bool, true, List, [], ◌∷◌, ◌++◌, ◌≡◌, ◌↔◌, ◌==◌, ◌+◌, arith, if◌then◌else◌,
}
use fleet_stream_real_time_f.Prelude.Int.{ℤ, pos, pos_part, neg_part, ◌-ℤ◌}

-- Counts are integers: a caller may compute a negative one.
pub record Counts : Type 0 where
  pub run_id : String
  pub stage : String
  pub source_count : ℤ
  pub duplicate_count : ℤ
  pub rejected_count : ℤ
  pub output_count : ℤ
  pub batch_id : Option ℤ

abbrev pub is_eq_ℤ : ℤ → ℤ → Bool
is_eq_ℤ a b = (pos_part a + neg_part b) == (pos_part b + neg_part a)

unfoldable pub balances : Counts → Bool
balances c = is_eq_ℤ (c.source_count -ℤ c.duplicate_count -ℤ c.rejected_count) c.output_count

unfoldable pub unaccounted : Counts → ℤ
unaccounted c = c.source_count -ℤ c.duplicate_count -ℤ c.rejected_count -ℤ c.output_count

-- `record`: the table after the call. A failure of the append is logged and never raised.
unfoldable pub record_counts : Bool → Counts → List Counts → List Counts
record_counts appends c table = if appends then table ++ c ∷ [] else table

pub is_eq_ℤ_iff : (a b : ℤ) → (is_eq_ℤ a b ≡ true) ↔ (a -ℤ b ≡ pos 0)
unfolding ◌-ℤ◌
is_eq_ℤ_iff a b = (λ h. ground arith, λ h. ground arith)

-- Counts balance exactly when no row is unaccounted for.
pub balances_iff : (c : Counts) → (balances c ≡ true) ↔ (unaccounted c ≡ pos 0)
unfolding balances unaccounted
balances_iff c =
    is_eq_ℤ_iff (c.source_count -ℤ c.duplicate_count -ℤ c.rejected_count) c.output_count
