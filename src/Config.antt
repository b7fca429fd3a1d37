-- ===== src/Config.antt =====
-- `SimulatorConfig` of src/fleetstream/common/config.py.
pub mod Environment
pub mod Parts
use fleet_stream_real_time_f.Prelude.{
  ℕ, String, Bool, true, false, ◌&&◌, ◌≡◌, ◌≤◌, Option, none, some, ltb, arith, refl, ◌↔◌,
  if◌then◌else◌,
}
use fleet_stream_real_time_f.Float.{Float, ◌≼◌}
use fleet_stream_real_time_f.Prelude.Int.{ℤ}

pub record SimulatorConfig (R : Type 0) : Type 0 where
  pub vehicle_count : ℕ
  pub events_per_vehicle_per_min : ℕ
  pub speedup : R
  pub seed : ℕ
  pub duplicate_rate : R
  pub late_rate : R
  pub invalid_rate : R
  pub hot_vehicle : String
  pub hot_vehicle_multiplier : ℤ

-- What `__post_init__` raises, a ValueError each: a rate out of range, or no vehicle.
pub data ConfigError : Type 0 where
  rate_out_of_range : String → ConfigError
  too_few_vehicles : ConfigError

checked :
    (a b c d : Bool)
    → (if a
        then (if b
            then (if c
                then (if d then some too_few_vehicles else none)
                else some (rate_out_of_range "invalid_rate"))
            else some (rate_out_of_range "late_rate"))
        else some (rate_out_of_range "duplicate_rate"))
      ≡ none
    → (a ≡ true) × (b ≡ true) × (c ≡ true) × (d ≡ false)
checked true true true false h = (refl, refl, refl, refl)
checked true true true true h = cc
checked true true false d h = cc
checked true false c d h = cc
checked false b c d h = cc

at_least : (n : ℕ) → ltb n 1 ≡ false → 1 ≤ n
at_least n h = ground arith

not_below : (n : ℕ) → 1 ≤ n → ltb n 1 ≡ false
not_below n h = ground arith

module _ {R : Type 0} ⦃f : Float R⦄ where
  -- 0.0 <= value <= 1.0
  abbrev pub is_rate : R → Bool
  is_rate value = f.le (f.lit 0 0) value && f.le value (f.lit 1 0)

  -- `none` if the object is built
  unfoldable pub post_init : SimulatorConfig R → Option ConfigError
  post_init c =
      if is_rate c.duplicate_rate
      then (if is_rate c.late_rate
          then (if is_rate c.invalid_rate
              then (if ltb c.vehicle_count 1 then some too_few_vehicles else none)
              else some (rate_out_of_range "invalid_rate"))
          else some (rate_out_of_range "late_rate"))
      else some (rate_out_of_range "duplicate_rate")

  abbrev pub IsRate : R → Type 0
  IsRate v = (f.lit 0 0 ≼ v) × (v ≼ f.lit 1 0)

  IsRate-of : (v : R) → is_rate v ≡ true → IsRate v
  IsRate-of v h = (ground arith, ground arith)

  of_rate : (v : R) → IsRate v → is_rate v ≡ true
  of_rate v h = rw (h.0, h.1) refl

  -- A simulator configuration is built exactly when its three rates are between 0 and 1 and it has at least
  -- one vehicle.
  pub post_init_iff :
      (c : SimulatorConfig R)
      → (post_init c ≡ none) ↔ (
          IsRate c.duplicate_rate
          × IsRate c.late_rate
          × IsRate c.invalid_rate
          × (1 ≤ c.vehicle_count))
  unfolding post_init
  post_init_iff c = (
    λ h.
        let (d, l, i, n) =
          checked (is_rate c.duplicate_rate) (is_rate c.late_rate) (is_rate c.invalid_rate)
            (ltb c.vehicle_count 1) h in
        (
          IsRate-of c.duplicate_rate d,
          IsRate-of c.late_rate l,
          IsRate-of c.invalid_rate i,
          at_least c.vehicle_count n,
        ),
    λ (d, l, i, n).
        rw
          (
            of_rate c.duplicate_rate d,
            of_rate c.late_rate l,
            of_rate c.invalid_rate i,
            not_below c.vehicle_count n,
          )
          refl,
  )
