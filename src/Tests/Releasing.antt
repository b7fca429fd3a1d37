-- ===== src/Tests/Releasing.antt =====
-- The fleet of `build_reference`, its producer and its late events: the theorems at concrete inputs.
use fleet_stream_real_time_f.Prelude.{
  ℕ, ◌*◌, ◌/◌, ◌≤◌, ◌≡◌, ◌≢◌, String, Option, none, some, length, false, AllDistinct, arith,
}
use fleet_stream_real_time_f.Prelude.Int.{ℤ, pos, negsuc, pos_part, ◌-ℤ◌}
use fleet_stream_real_time_f.Float.{◌≼◌}
use fleet_stream_real_time_f.Float.Fixed.{fixed, fixed-IsLawful}
use fleet_stream_real_time_f.Random.{members}
use fleet_stream_real_time_f.Reference.Build.{build_reference}
use fleet_stream_real_time_f.Generator.Stream.{ticks}
use fleet_stream_real_time_f.Generator.Accounts.{Returns}
use fleet_stream_real_time_f.Generator.Punctual.{IsTimed}
use fleet_stream_real_time_f.Simulation.{advance, new_fleet}
use fleet_stream_real_time_f.Fleet.Identity.{
  ids, build_reference-AllDistinct, build_reference-counts,
}
use fleet_stream_real_time_f.Fleet.Punctual.{IsInTime, ticks-IsInTime}
use fleet_stream_real_time_f.Producer.Command.{Args}
use fleet_stream_real_time_f.Tests.Samples.{counting, counting-IsInRange, flat, plain, busy}

at_least_minutes :
    (x : ℤ) (n : ℕ) → fixed.lit n 0 ≼ x → n * 60_000_000 ≤ pos_part (fixed.mul x (pos 60_000_000))
unfolding ◌-ℤ◌
at_least_minutes (pos a) n h = ground arith
at_least_minutes (negsuc a) n h = ground arith

at_most_minutes :
    (x : ℤ) (n : ℕ) → x ≼ fixed.lit n 0 → pos_part (fixed.mul x (pos 60_000_000)) ≤ n * 60_000_000
unfolding ◌-ℤ◌
at_most_minutes (pos a) n h = ground arith
at_most_minutes (negsuc a) n h = ground arith

fixed-IsTimed : IsTimed ℤ
fixed-IsTimed = record { micros-ge = at_least_minutes; micros-le = at_most_minutes }

build_reference-AllDistinct_example :
    AllDistinct (ids counting (build_reference counting flat 12 7 "V9999").vehicles)
build_reference-AllDistinct_example = build_reference-AllDistinct counting flat 12 7 "V9999"

pub named : ◌≢◌ {A = String} "V9999" ""
named e = cc

build_reference-counts_example :
    let fleet = build_reference counting flat 12 7 "V9999" in
    (12 ≤ length fleet.vehicles)
    × (length fleet.vehicles ≤ 13)
    × (length (members fleet.drivers) ≡ length fleet.vehicles * 13 / 10)
    × (length fleet.vehicles ≤ length (members fleet.drivers))
build_reference-counts_example = build_reference-counts counting flat 12 7 "V9999" (omega arith)

ticks-IsInTime_example :
    let fleet = build_reference counting flat 2 20260908 "V9999" in
    Returns
      (λ _. IsInTime fixed-IsLawful fixed-IsTimed counting counting-IsInRange flat plain)
      (ticks counting
        (advance counting flat plain)
        2
        (new_fleet counting flat plain busy fleet.vehicles fleet.drivers fleet.routes 1_000_000))
ticks-IsInTime_example =
    ticks-IsInTime fixed-IsLawful fixed-IsTimed counting counting-IsInRange flat plain busy
      1_000_000 2

-- int of a decimal of six places that is not negative
abbrev whole : ℤ → Option ℤ
whole z = some (pos (pos_part z / 1_000_000))

abbrev no_ticks : Args ℤ
no_ticks = record { minutes = pos 100_000; ticks = none; no_manifest = false }
