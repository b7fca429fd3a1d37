-- ===== src/Config/Environment.antt =====
-- The reading of the environment in src/fleetstream/common/config.py. The environment is a function; str.strip
-- and int are parameters.
use fleet_stream_real_time_f.Prelude.{
  ℕ, String, str_eq, eq_iff, Option, none, some, true, false, ◌≡◌, ◌≢◌, ◌⊎◌, inl, inr, refl, sym,
  ◌∙◌, Bool-cases, if◌then◌else◌,
}
use fleet_stream_real_time_f.Prelude.Int.{ℤ, pos}
use fleet_stream_real_time_f.Prelude.Text.{decimal}

-- A value, or the ValueError that names the variable and its text.
pub data Loaded (A : Type 0) : Type 0 where
  loaded : A → Loaded A
  not_an_integer : String → String → Loaded A

infixl 5 ◌>>=◌
abbrev pub ◌>>=◌ : {A B : Type 0} → Loaded A → (A → Loaded B) → Loaded B
loaded a >>= k = k a
not_an_integer key raw >>= k = not_an_integer key raw

abbrev or_empty : Option String → String
or_empty none = ""
or_empty (some v) = v

module _ (environ : String → Option String) (strip : String → String)
    (int : String → Option ℤ) where
  abbrev pub value_of : String → String
  value_of key = strip (or_empty (environ key))

  unfoldable pub env : String → String → String
  env key default = if str_eq (value_of key) "" then default else value_of key

  abbrev pub integer : String → String → Option ℤ → Loaded ℤ
  integer key raw none = not_an_integer key raw
  integer key raw (some n) = loaded n

  unfoldable pub env_int : String → ℕ → Loaded ℤ
  unfolding env
  env_int key default = let raw = env key (decimal default) in integer key raw (int raw)

  -- What the variable gives: the default where it is not set or blank, else its text as `int` reads it.
  abbrev pub IsRead : String → ℕ → Loaded ℤ → Type 0
  IsRead key default result =
      ((value_of key ≡ "") × (result ≡ loaded (pos default)))
      ⊎ ((n : ℤ) × (value_of key ≢ "") × (int (value_of key) ≡ some n) × (result ≡ loaded n))
      ⊎ ((value_of key ≢ "")
          × (int (value_of key) ≡ none)
          × (result ≡ not_an_integer key (value_of key)))

  module _ (roundtrip : (n : ℕ) → int (decimal n) ≡ some (pos n)) where
    set_as :
        (key : String) (o : Option ℤ)
        → value_of key ≢ ""
        → int (value_of key) ≡ o
        → ((n : ℤ) × (value_of key ≢ "")
            × (int (value_of key) ≡ some n)
            × (integer key (value_of key) o ≡ loaded n))
          ⊎ ((value_of key ≢ "")
              × (int (value_of key) ≡ none)
              × (integer key (value_of key) o ≡ not_an_integer key (value_of key)))
    set_as key none set e = inr (set, e, refl)
    set_as key (some n) set e = inl (n, set, e, refl)

    -- An integer setting is the default where its variable is not set or blank: the default comes back from the
    -- trip through `str` and `int`. Else it is what `int` makes of the stripped text; where `int` refuses, the
    -- error names the variable and that text.
    pub env_int-IsRead : (key : String) (default : ℕ) → IsRead key default (env_int key default)
    unfolding env_int
    env_int-IsRead key default = elim (Bool-cases (str_eq (value_of key) "")) [
      | inl blank ↦ inl ((eq_iff (value_of key) "").0 blank, simp (blank, roundtrip default) refl)
      | inr set ↦ inr (simp (set) (set_as key (int (value_of key)) (λ e. not_blank e set) refl))
    ]
      where
        not_blank : value_of key ≡ "" → str_eq (value_of key) "" ≡ false → ⊥
        not_blank e set = false_true (sym set ∙ (eq_iff (value_of key) "").1 e)
          where
            false_true : false ≡ true → ⊥
            false_true h = cc
