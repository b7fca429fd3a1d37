-- ===== src/Float.antt =====
-- What the simulator does with a Python `float`: the operations as an interface, and the laws of
-- finite IEEE doubles that its correctness rests on.
pub mod Laws
pub mod Fixed
use fleet_stream_real_time_f.Prelude.{
  ℕ, ◌*◌, ◌^◌, ◌≤◌, ◌≡◌, ◌⊎◌, Bool, true, false, not, if◌then◌else◌,
}
use fleet_stream_real_time_f.Prelude.Int.{ℤ}

pub record Float (R : Type 0) : Type 0 where
  -- the literal m / 10 ^ d
  pub lit : ℕ → ℕ → R
  pub neg : R → R
  pub add : R → R → R
  pub sub : R → R → R
  pub mul : R → R → R
  pub div : R → R → R
  pub le : R → R → Bool
  -- round(x, digits), in millionths
  pub round : R → ℕ → ℤ
  -- round(x, digits), as a double again
  pub rounded : R → ℕ → R
  -- timedelta(seconds=x), in microseconds, for x that is not negative
  pub micros : R → ℕ

module _ {R : Type 0} ⦃f : Float R⦄ where
  -- a < b
  abbrev pub lt : R → R → Bool
  lt a b = not (f.le b a)

  -- Python's max(a, b) and min(a, b)
  abbrev pub fmax : R → R → R
  fmax a b = if lt a b then b else a

  abbrev pub fmin : R → R → R
  fmin a b = if lt b a then b else a

infix 4 ◌≼◌
abbrev pub ◌≼◌ : {R : Type 0} ⦃f : Float R⦄ → R → R → Type 0
◌≼◌ ⦃f⦄ a b = f.le a b ≡ true

-- Finite doubles: a total order, and rounding that is monotone.
pub record IsLawful (R : Type 0) ⦃f : Float R⦄ : Type 0 where
  pub le_refl : (a : R) → a ≼ a
  pub le_trans : (a b c : R) → a ≼ b → b ≼ c → a ≼ c
  pub le_total : (a b : R) → (a ≼ b) ⊎ (b ≼ a)
  pub lit_le : (m d n e : ℕ) → m * 10 ^ e ≤ n * 10 ^ d → f.lit m d ≼ f.lit n e
  pub lit_positive : (m : ℕ) → 1 ≤ m → f.le (f.lit m 0) (f.lit 0 0) ≡ false
  pub le-add : (a d : R) → f.lit 0 0 ≼ d → a ≼ f.add a d
  pub sub-le : (a d : R) → f.lit 0 0 ≼ d → f.sub a d ≼ a
  pub mul_nonneg : (a b : R) → f.lit 0 0 ≼ a → f.lit 0 0 ≼ b → f.lit 0 0 ≼ f.mul a b
  pub mul-le : (a b : R) → f.lit 0 0 ≼ a → f.lit 0 0 ≼ b → b ≼ f.lit 1 0 → f.mul a b ≼ a
  pub div_nonneg : (a b : R) → f.lit 0 0 ≼ a → f.lit 0 0 ≼ b → f.lit 0 0 ≼ f.div a b
  pub rounded_nonneg : (a : R) (d : ℕ) → f.lit 0 0 ≼ a → f.lit 0 0 ≼ f.rounded a d
