-- ===== src/Prelude/Text.antt =====
-- Decimal numerals and pieces of texts, as f-strings write them.
use Prim.Native.Nat.{ℕ, zero, suc, ◌/◌, ◌%◌, ◌+◌}
use Prim.Native.String.{String, ◌++◌}
use mathlib.Core.List.{[], ◌∷◌}
use mathlib.Core.Path.{◌≡◌, refl}
use fleet_stream_real_time_f.Prelude.Tests.{ltb, if◌then◌else◌}
use fleet_stream_real_time_f.Prelude.Lists.{get_or}

unfoldable pub digit : ℕ → String
digit d = get_or ("0" ∷ "1" ∷ "2" ∷ "3" ∷ "4" ∷ "5" ∷ "6" ∷ "7" ∷ "8" ∷ "9" ∷ []) d ""

-- A number has at most as many digits as its successor counts.
unfoldable pub decimal_from : ℕ → ℕ → String → String
unfolding digit
decimal_from zero n rest = rest
decimal_from (suc fuel) n rest =
    let more = decimal_from fuel (n / 10) (digit (n % 10) ++ rest) in
    if ltb n 10 then digit n ++ rest else more

-- str(n)
unfoldable pub decimal : ℕ → String
unfolding decimal_from
decimal n = decimal_from (n + 1) n ""

-- f"{n:04d}"
unfoldable pub decimal_04 : ℕ → String
unfolding decimal
decimal_04 n =
    if ltb n 10
    then "000" ++ decimal n
    else if ltb n 100
    then "00" ++ decimal n
    else if ltb n 1000
    then "0" ++ decimal n
    else decimal n

-- s[1:]
unfoldable pub tail : String → String
tail String.[] = ""
tail (String.◌∷◌ c s) = s

formats : (decimal_04 42 ≡ "0042") × (decimal_04 12345 ≡ "12345") × (tail "V1007" ≡ "1007")
unfolding decimal_04 tail
formats = (refl, refl, refl)
