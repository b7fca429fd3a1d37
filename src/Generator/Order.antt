-- ===== src/Generator/Order.antt =====
-- The order of the late events in the buffer: what is pushed keeps it, and what is popped leaves nothing that
-- is due.
use fleet_stream_real_time_f.Prelude.{
  ℕ, ◌≤◌, ◌<◌, ◌≡◌, true, false, List, [], ◌∷◌, leb, All, All-map, arith, Bool-cases, inl, inr,
}
use fleet_stream_real_time_f.Generator.Heap.{PendingLate, before, heappush}
use fleet_stream_real_time_f.Generator.State.{pop_due}

-- earlier entries are released no later
abbrev pub IsOrdered : List PendingLate → Type 0
IsOrdered [] = Unit
IsOrdered (p ∷ heap) = All (λ q. p.release_at ≤ q.release_at) heap × IsOrdered heap

pub All-heappush :
    (P : PendingLate → Type 0) (heap : List PendingLate) (p : PendingLate)
    → All P heap
    → P p
    → All P (heappush heap p)
unfolding heappush
All-heappush P [] p h k = (k, tt)
All-heappush P (q ∷ heap) p h k = elim (Bool-cases (before p q)) [
  | inl first ↦ rw first (k, h)
  | inr later ↦ rw later (h.0, All-heappush P heap p h.1 k)
]

before-le : (p q : PendingLate) → before p q ≡ true → p.release_at ≤ q.release_at
unfolding before
before-le p q h = ground arith

not_before-le : (p q : PendingLate) → before p q ≡ false → q.release_at ≤ p.release_at
unfolding before
not_before-le p q h = ground arith

pub heappush-IsOrdered :
    (heap : List PendingLate) (p : PendingLate) → IsOrdered heap → IsOrdered (heappush heap p)
unfolding heappush
heappush-IsOrdered [] p h = (tt, tt)
heappush-IsOrdered (q ∷ heap) p h = elim (Bool-cases (before p q)) [
  | inl first ↦
      let e = before-le p q first in
      rw first (
        (
          e,
          All-map (λ x. q.release_at ≤ x.release_at) (λ x. p.release_at ≤ x.release_at) heap
              (λ x k. omega arith) h.0,
        ),
        h,
      )
  | inr later ↦ rw later (
    All-heappush (λ x. q.release_at ≤ x.release_at) heap p h.0 (not_before-le p q later),
    heappush-IsOrdered heap p h.1,
  )
]

pub pop_due-IsOrdered :
    (now : ℕ) (heap : List PendingLate) → IsOrdered heap → IsOrdered (pop_due now heap).1
unfolding pop_due
pop_due-IsOrdered now [] h = tt
pop_due-IsOrdered now (p ∷ heap) h = elim (Bool-cases (leb p.release_at now)) [
  | inl due ↦ rw due (pop_due-IsOrdered now heap h.1)
  | inr early ↦ rw early h
]

pub All-pop_due :
    (P : PendingLate → Type 0) (now : ℕ) (heap : List PendingLate)
    → All P heap
    → All P (pop_due now heap).1
unfolding pop_due
All-pop_due P now [] h = tt
All-pop_due P now (p ∷ heap) h = elim (Bool-cases (leb p.release_at now)) [
  | inl due ↦ rw due (All-pop_due P now heap h.1)
  | inr early ↦ rw early h
]

-- Of an ordered buffer nothing that is due is left.
pub pop_due-late :
    (now : ℕ) (heap : List PendingLate)
    → IsOrdered heap
    → All (λ p. now < p.release_at) (pop_due now heap).1
unfolding pop_due
pop_due-late now [] h = tt
pop_due-late now (p ∷ heap) h = elim (Bool-cases (leb p.release_at now)) [
  | inl due ↦ rw due (pop_due-late now heap h.1)
  | inr early ↦
      let e : now < p.release_at = ground arith in
      rw early (
        e,
        All-map (λ x. p.release_at ≤ x.release_at) (λ x. now < x.release_at) heap
            (λ x k. omega arith) h.0,
      )
]
