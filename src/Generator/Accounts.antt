-- ===== src/Generator/Accounts.antt =====
-- What a step of the generator yields, and what it keeps back, against its counters.
use fleet_stream_real_time_f.Prelude.{
  ℕ, ◌+◌, ◌≡◌, List, ◌++◌, none, some, length, length-append, arith,
}
use fleet_stream_real_time_f.Generator.State.{
  Generator, Message, Yield, prepend, ◌>>=◌, total_produced,
}

-- The call returns, with a result and a state of which `P` holds.
abbrev pub Returns : {S : Type 0} → (List Message → S → Type 0) → Yield S → Type 0
Returns P none = ⊥
Returns P (some (out, s)) = P out s

-- The counters and the buffer of a state: records produced, records held back.
pub record Books : Type 0 where
  pub produced : ℕ
  pub held : ℕ

abbrev pub books : {R G : Type 0} → Generator R G → Books
books g = record { produced = total_produced g.stats; held = length g.late_heap }

-- Records sent and records newly held back are as many as were newly counted.
abbrev pub Settles : Books → List Message → Books → Type 0
Settles before out after = length out + before.produced + after.held ≡ after.produced + before.held

pub Settles-append :
    (a b c : Books) (out more : List Message)
    → Settles a out b
    → Settles b more c
    → Settles a (out ++ more) c
Settles-append a b c out more h k = omega (arith, length-append out more)

-- The books of a state are settled with those before the call, and the state is well formed.
abbrev pub Keeps : {S : Type 0} → (S → Books) → (S → Type 0) → Books → List Message → S → Type 0
Keeps ledger Inv before out s = Settles before out (ledger s) × Inv s

prepend-Keeps :
    {T : Type 0} (ledger : T → Books) (Inv : T → Type 0) (a b : Books) (out : List Message)
    (y : Yield T)
    → Settles a out b
    → Returns (Keeps ledger Inv b) y
    → Returns (Keeps ledger Inv a) (prepend out y)
prepend-Keeps ledger Inv a b out none h k = k
prepend-Keeps ledger Inv a b out (some (more, t)) h k =
    (Settles-append a b (ledger t) out more h k.0, k.1)

-- The rule for a bind.
pub bind-Keeps :
    {S T : Type 0} (l : S → Books) (Inv : S → Type 0) (l' : T → Books) (Inv' : T → Type 0)
    (a : Books) (m : Yield S) (k : S → Yield T)
    → Returns (Keeps l Inv a) m
    → ((s : S) → Inv s → Returns (Keeps l' Inv' (l s)) (k s))
    → Returns (Keeps l' Inv' a) (m >>= k)
bind-Keeps l Inv l' Inv' a none k h step = h
bind-Keeps l Inv l' Inv' a (some (out, s)) k h step =
    prepend-Keeps l' Inv' a (l s) out (k s) h.0 (step s h.1)

pub Returns-map :
    {S : Type 0} (P Q : List Message → S → Type 0) (y : Yield S)
    → ((out : List Message) (s : S) → P out s → Q out s)
    → Returns P y
    → Returns Q y
Returns-map P Q none imp h = h
Returns-map P Q (some (out, s)) imp h = imp out s h

prepend-Returns :
    {T : Type 0} (Q : T → Type 0) (out : List Message) (y : Yield T)
    → Returns (λ _. Q) y
    → Returns (λ _. Q) (prepend out y)
prepend-Returns Q out none h = h
prepend-Returns Q out (some (more, t)) h = h

-- The rule for a bind, of properties of the state alone.
pub bind-Returns :
    {S T : Type 0} (P : S → Type 0) (Q : T → Type 0) (m : Yield S) (k : S → Yield T)
    → Returns (λ _. P) m
    → ((s : S) → P s → Returns (λ _. Q) (k s))
    → Returns (λ _. Q) (m >>= k)
bind-Returns P Q none k h step = h
bind-Returns P Q (some (out, s)) k h step = prepend-Returns Q out (k s) (step s h)
