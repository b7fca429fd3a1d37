-- ===== src/Float/Laws.antt =====
-- Consequences of the laws of doubles, for `max`, `min` and literals.
use fleet_stream_real_time_f.Prelude.{ℕ, ◌≡◌, true, false, arith}
use fleet_stream_real_time_f.Float.{Float, lt, fmax, fmin, ◌≼◌, IsLawful}

module _ {R : Type 0} ⦃f : Float R⦄ (l : IsLawful R) where
  open f use {lit, add, le}

  -- what is not above is below
  pub le_of_not_le : (a b : R) → le a b ≡ false → b ≼ a
  le_of_not_le a b h = ground (arith, l.le_total a b)

  pub lt_le : (a b : R) → lt a b ≡ true → a ≼ b
  lt_le a b h = le_of_not_le b a (ground arith)

  pub fmax_bound : (a b c : R) → a ≼ c → b ≼ c → fmax a b ≼ c
  fmax_bound a b c h k = ground arith

  pub le-fmax_left : (a b : R) → a ≼ fmax a b
  le-fmax_left a b = ground (arith, l.le_refl a, l.le_total a b)

  pub fmin-le_left : (a b : R) → fmin a b ≼ a
  fmin-le_left a b = ground (arith, l.le_refl a, l.le_total a b)

  pub fmin_bound : (a b c : R) → c ≼ a → c ≼ b → c ≼ fmin a b
  fmin_bound a b c h k = ground arith

  pub add_nonneg : (a d : R) → lit 0 0 ≼ a → lit 0 0 ≼ d → lit 0 0 ≼ add a d
  add_nonneg a d h k = l.le_trans _ _ _ h (l.le-add a d k)

  pub lit_nonneg : (m d : ℕ) → lit 0 0 ≼ lit m d
  lit_nonneg m d = l.lit_le 0 0 m d (omega arith)
