-- ===== src/Generator/Corruption.antt =====
-- The draw of a corruption never fails: `choice` stays inside the tuple, and the speed of a reading
-- is a number.
use fleet_stream_real_time_f.Prelude.{
  ℕ, zero, suc, ◌≡◌, refl, Option, none, some, get_or, String, ap, ◌∙◌,
}
use fleet_stream_real_time_f.Prelude.Int.{ℤ, pos, negsuc}
use fleet_stream_real_time_f.Random.{members}
use fleet_stream_real_time_f.Payload.{
  Payload, corrupt, corruptions, num, speed_or_ten, negate_speed,
}

abbrev pub kind_at : ℕ → String
kind_at i = get_or (members corruptions) i corruptions.first

pub speed_or_ten_num : (z : ℤ) → (v : ℤ) × (speed_or_ten (num z) ≡ some v)
unfolding speed_or_ten
speed_or_ten_num (pos zero) = (_, refl)
speed_or_ten_num (pos (suc n)) = (_, refl)
speed_or_ten_num (negsuc n) = (_, refl)

negate_speed-some :
    (p : Payload) (o : Option ℤ) (v : ℤ) → o ≡ some v → (q : Payload) × (negate_speed p o ≡ some q)
unfolding negate_speed
negate_speed-some p none v h = cc
negate_speed-some p (some w) v h = (_, refl)

negated :
    (p : Payload) (z : ℤ) → p.speed ≡ num z → (q : Payload) × (corrupt p "negative_speed" ≡ some q)
unfolding corrupt
negated p z h =
    let (v, e) = speed_or_ten_num z in
    negate_speed-some p (speed_or_ten p.speed) v (ap speed_or_ten h ∙ e)

-- Any position that a draw gives is a kind that `corrupt` knows.
pub corrupt-kind_at :
    (p : Payload) (z : ℤ)
    → p.speed ≡ num z
    → (i : ℕ) → (q : Payload) × (corrupt p (kind_at i) ≡ some q)
unfolding corrupt
corrupt-kind_at p z h zero = (_, refl)
corrupt-kind_at p z h (suc zero) = negated p z h
corrupt-kind_at p z h (suc (suc zero)) = (_, refl)
corrupt-kind_at p z h (suc (suc (suc zero))) = (_, refl)
corrupt-kind_at p z h (suc (suc (suc (suc zero)))) = (_, refl)
corrupt-kind_at p z h (suc (suc (suc (suc (suc zero))))) = (_, refl)
corrupt-kind_at p z h (suc (suc (suc (suc (suc (suc zero)))))) = (_, refl)
corrupt-kind_at p z h (suc (suc (suc (suc (suc (suc (suc zero))))))) = (_, refl)
corrupt-kind_at p z h (suc (suc (suc (suc (suc (suc (suc (suc zero)))))))) = (_, refl)
corrupt-kind_at p z h (suc (suc (suc (suc (suc (suc (suc (suc (suc i))))))))) = (_, refl)
