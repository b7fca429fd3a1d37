-- ===== src/Random.antt =====
-- Python's `random.Random`, as the simulator uses it: a generator state that every draw replaces.
-- The quality of the draws is not modelled, their documented ranges are laws.
use fleet_stream_real_time_f.Prelude.{ℕ, suc, ◌≡◌, List, ◌∷◌, true, length, get_or, String}
use fleet_stream_real_time_f.Float.{Float, lt, ◌≼◌}

pub record Random (R : Type 0) (G : Type 0) : Type 0 where
  -- Random(n) and Random(text)
  pub seeded : ℕ → G
  pub seeded_text : String → G
  pub random : G → R × G
  pub uniform : R → R → G → R × G
  pub gauss : R → R → G → R × G
  -- the position that choice() takes in a sequence of the given length
  pub position : ℕ → G → ℕ × G

-- A sequence with at least one element: choice() raises on an empty one.
pub record Choices (A : Type 0) : Type 0 where
  pub first : A
  pub rest : List A

abbrev pub members : {A : Type 0} → Choices A → List A
members c = c.first ∷ c.rest

-- rng.choice(c)
unfoldable pub choice : {R G A : Type 0} → Random R G → Choices A → G → A × G
choice r c g =
    let (i, g') = r.position (suc (length c.rest)) g in (get_or (members c) i c.first, g')

pub record IsInRange (R G : Type 0) ⦃f : Float R⦄ (r : Random R G) : Type 0 where
  pub random_nonneg : (g : G) → f.lit 0 0 ≼ (r.random g).0
  pub random_below : (g : G) → lt (r.random g).0 (f.lit 1 0) ≡ true
  pub uniform-ge : (a b : R) (g : G) → a ≼ b → a ≼ (r.uniform a b g).0
  pub uniform-le : (a b : R) (g : G) → a ≼ b → (r.uniform a b g).0 ≼ b
