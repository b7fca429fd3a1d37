-- ===== src/Prelude/Numerals.antt =====
-- Reading back the numerals that `decimal` writes, so that they differ for different numbers.
use Prim.Native.Nat.{ℕ, zero, suc, ◌+◌, ◌-◌, ◌*◌, ◌/◌, ◌%◌, ◌<◌}
use Prim.Native.Char.{Char, code}
use Prim.Native.String.append
use Prim.Native.String.{String, ◌++◌}
use mathlib.Core.Bool.{◌&&◌}
use mathlib.Core.Option.{Option, none, some}
use mathlib.Core.Path.{◌≡◌, refl, sym, ap, ◌∙◌}
use mathlib.Core.Logic.{inl, inr}
use native.Mathlib.Omega.{arith}
use fleet_stream_real_time_f.Prelude.Tests.{ltb, leb, if◌then◌else◌, Bool-cases}
use fleet_stream_real_time_f.Prelude.Text.{digit, decimal_from, decimal}

-- the number that digits continue
unfoldable pub scan : ℕ → String → Option ℕ
scan n String.[] = some n
scan n (String.◌∷◌ c s) =
    let rest = scan (10 * n + (code c - 48)) s in
    if leb 48 (code c) && leb (code c) 57 then rest else none

abbrev pub number : String → Option ℕ
number s = scan 0 s

-- the code of a text of one character, and 0 of any other
abbrev letter_code : String → ℕ
letter_code String.[] = 0
letter_code (String.◌∷◌ c String.[]) = code c
letter_code (String.◌∷◌ c (String.◌∷◌ b s)) = 0

lead : (c : Char) (s : String) → String.◌∷◌ c String.[] ++ s ≡ String.◌∷◌ c s
lead c s = (λ i. append.cons c String.[] s i) ∙ ap (String.◌∷◌ c) (λ i. append.nil s i)

scan_step :
    (n d : ℕ) (c : Char) (s : String)
    → code c ≡ 48 + d
    → d < 10
    → scan n (String.◌∷◌ c s) ≡ scan (10 * n + d) s
unfolding scan
scan_step n d c s e h = ground arith

scan-letter :
    (n d : ℕ) (w s : String)
    → letter_code w ≡ 48 + d
    → d < 10
    → scan n (w ++ s) ≡ scan (10 * n + d) s
scan-letter n d String.[] s e h = absurd (omega arith)
scan-letter n d (String.◌∷◌ c String.[]) s e h = ap (scan n) (lead c s) ∙ scan_step n d c s e h
scan-letter n d (String.◌∷◌ c (String.◌∷◌ b w)) s e h = absurd (omega arith)

scan-digit : (n d : ℕ) (s : String) → d < 10 → scan n (digit d ++ s) ≡ scan (10 * n + d) s
unfolding digit
scan-digit n zero s h = scan-letter n 0 "0" s refl (omega arith)
scan-digit n (suc zero) s h = scan-letter n 1 "1" s refl (omega arith)
scan-digit n (suc (suc zero)) s h = scan-letter n 2 "2" s refl (omega arith)
scan-digit n (suc (suc (suc zero))) s h = scan-letter n 3 "3" s refl (omega arith)
scan-digit n (suc (suc (suc (suc zero)))) s h = scan-letter n 4 "4" s refl (omega arith)
scan-digit n (suc (suc (suc (suc (suc zero))))) s h = scan-letter n 5 "5" s refl (omega arith)
scan-digit n (suc (suc (suc (suc (suc (suc zero)))))) s h = scan-letter n 6 "6" s refl (omega arith)
scan-digit n (suc (suc (suc (suc (suc (suc (suc zero))))))) s h =
    scan-letter n 7 "7" s refl (omega arith)
scan-digit n (suc (suc (suc (suc (suc (suc (suc (suc zero)))))))) s h =
    scan-letter n 8 "8" s refl (omega arith)
scan-digit n (suc (suc (suc (suc (suc (suc (suc (suc (suc zero))))))))) s h =
    scan-letter n 9 "9" s refl (omega arith)
scan-digit n (suc (suc (suc (suc (suc (suc (suc (suc (suc (suc d)))))))))) s h =
    absurd (omega arith)

scan-decimal_from :
    (fuel n : ℕ) (rest : String) → n < fuel → scan 0 (decimal_from fuel n rest) ≡ scan n rest
unfolding decimal_from
scan-decimal_from zero n rest h = absurd (omega arith)
scan-decimal_from (suc fuel) n rest h = elim (Bool-cases (ltb n 10)) [
  | inl small ↦
      simp (small) (scan-digit 0 n rest (ground arith) ∙ ap (λ k. scan k rest) (omega arith))
  | inr large ↦ simp (large) (
      scan-decimal_from fuel (n / 10) (digit (n % 10) ++ rest) (ground arith)
      ∙ scan-digit (n / 10) (n % 10) rest (omega arith)
      ∙ ap (λ k. scan k rest) (omega arith))
]

-- A numeral reads back as its number.
pub number-decimal : (n : ℕ) → number (decimal n) ≡ some n
unfolding decimal scan
number-decimal n = scan-decimal_from (n + 1) n "" (omega arith)

some_eq : {a b : ℕ} → some a ≡ some b → a ≡ b
some_eq e = cc

pub decimal_inj : (a b : ℕ) → decimal a ≡ decimal b → a ≡ b
decimal_inj a b e = some_eq (sym (number-decimal a) ∙ ap number e ∙ number-decimal b)

cons_eq : {c d : Char} {s t : String} → String.◌∷◌ c s ≡ String.◌∷◌ d t → s ≡ t
cons_eq e = cc

pub append_cancel_left : (w s t : String) → w ++ s ≡ w ++ t → s ≡ t
append_cancel_left String.[] s t e = sym (λ i. append.nil s i) ∙ e ∙ (λ i. append.nil t i)
append_cancel_left (String.◌∷◌ c w) s t e =
    append_cancel_left w s t
      (cons_eq (sym (λ i. append.cons c w s i) ∙ e ∙ (λ i. append.cons c w t i)))
