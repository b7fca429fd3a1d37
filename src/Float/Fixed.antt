-- ===== src/Float/Fixed.antt =====
-- A concrete arithmetic that meets the laws of `Float`: decimals with six places, products and quotients
-- cut off. The examples run on it.
use native.Mathlib.Nat.{
  pow-zero, pow-suc, le-div_iff_mul-le, le_of_mul-le-mul_right, mul-le-mul_right, div-mul-le_self,
}
use fleet_stream_real_time_f.Prelude.{
  ℕ, zero, suc, ◌+◌, ◌-◌, ◌*◌, ◌/◌, ◌^◌, ◌≤◌, ◌<◌, ◌≡◌, Bool, true, arith, leb, leb→le,
}
use fleet_stream_real_time_f.Prelude.Int.{ℤ, pos, negsuc, pos_part, neg_part, ◌+ℤ◌, ◌-ℤ◌}
use fleet_stream_real_time_f.Float.{Float, IsLawful}

abbrev pub unit : ℕ
unit = 1_000_000

-- whether a is at most b
abbrev pub leb_ℤ : ℤ → ℤ → Bool
leb_ℤ a b = leb (pos_part a + neg_part b) (pos_part b + neg_part a)

abbrev pub scaled : ℕ → ℕ → ℕ
scaled m d = m * unit / 10 ^ d

abbrev pub negated : ℤ → ℤ
negated a = pos 0 -ℤ a

-- a quotient by zero is zero
abbrev pub times : ℤ → ℤ → ℤ
times (pos a) (pos b) = pos (a * b / unit)
times (pos a) (negsuc b) = pos 0 -ℤ pos (a * suc b / unit)
times (negsuc a) (pos b) = pos 0 -ℤ pos (suc a * b / unit)
times (negsuc a) (negsuc b) = pos (suc a * suc b / unit)

abbrev pub over : ℤ → ℤ → ℤ
over (pos a) (pos b) = pos (a * unit / b)
over (pos a) (negsuc b) = pos 0 -ℤ pos (a * unit / suc b)
over (negsuc a) (pos b) = pos 0 -ℤ pos (suc a * unit / b)
over (negsuc a) (negsuc b) = pos (suc a * unit / suc b)

-- cut off after the given number of places, at most six
unfoldable pub cut : ℤ → ℕ → ℤ
cut (pos a) d = pos (a / 10 ^ (6 - d) * 10 ^ (6 - d))
cut (negsuc a) d = pos 0 -ℤ pos (suc a / 10 ^ (6 - d) * 10 ^ (6 - d))

instance abbrev pub fixed : Float ℤ
fixed = record {
  lit = λ m d. pos (scaled m d);
  neg = negated;
  add = λ a b. a +ℤ b;
  sub = λ a b. a -ℤ b;
  mul = times;
  div = over;
  le = leb_ℤ;
  round = cut;
  rounded = cut;
  micros = pos_part;
}

pow_pos : (d : ℕ) → 0 < 10 ^ d
pow_pos zero = omega (arith, pow-zero 10)
pow_pos (suc d) = omega (arith, pow-suc 10 d, pow_pos d)

quotient_mono : (m n p q : ℕ) → 0 < p → 0 < q → m * q ≤ n * p → m * unit / p ≤ n * unit / q
quotient_mono m n p q hp hq h =
    let a = m * unit / p in
    (le-div_iff_mul-le hq).1 (
      le_of_mul-le-mul_right
        (omega (arith, mul-le-mul_right q (div-mul-le_self (m * unit) p), mul-le-mul_right unit h))
        hp)

scaled_mono : (m d n e : ℕ) → m * 10 ^ e ≤ n * 10 ^ d → scaled m d ≤ scaled n e
scaled_mono m d n e h = quotient_mono m n (10 ^ d) (10 ^ e) (pow_pos d) (pow_pos e) h

mul-le_lem : (a b : ℕ) → b ≤ unit → a * b / unit ≤ a
mul-le_lem a b h = grind arith

mul-le_ℤ :
    (a b : ℤ)
    → leb_ℤ (pos 0) a ≡ true
    → leb_ℤ (pos 0) b ≡ true
    → leb_ℤ b (pos unit) ≡ true
    → leb_ℤ (times a b) a ≡ true
mul-le_ℤ (pos a) (pos b) h k w =
    ground (arith, mul-le_lem a b (omega (arith, leb→le (b + 0) (unit + 0) w)))
mul-le_ℤ (pos a) (negsuc b) h k w = ground arith
mul-le_ℤ (negsuc a) b h k w = ground arith

pub fixed-IsLawful : IsLawful ℤ
unfolding ◌+ℤ◌ ◌-ℤ◌ cut
fixed-IsLawful = record {
  le_refl = λ a. ground arith;
  le_trans = λ a b c h k. ground arith;
  le_total = λ a b. ground arith;
  lit_le = λ m d n e h. ground (arith, scaled_mono m d n e h);
  lit_positive = λ m h. ground arith;
  le-add = λ a d h. ground arith;
  sub-le = λ a d h. ground arith;
  mul_nonneg = λ a b h k. ground arith;
  mul-le = mul-le_ℤ;
  div_nonneg = λ a b h k. ground arith;
  rounded_nonneg = λ a d h. ground arith;
}
