-- ===== src/Generator/Heap.antt =====
-- The buffer of late events (`_PendingLate` and its heap): a priority queue by release time, then by
-- sequence number, as `heapq` orders it. It is kept as the list of its entries in that order.
use fleet_stream_real_time_f.Prelude.{
  ℕ, ◌+◌, String, ◌≡◌, List, [], ◌∷◌, Bool, arith, ltb, ◌==◌, length, if◌then◌else◌, ◌&&◌, ◌||◌,
}
use fleet_stream_real_time_f.Payload.{Payload}

pub record PendingLate : Type 0 where
  pub release_at : ℕ
  pub sequence : ℕ
  pub payload : Payload
  pub key : String

-- the order of the dataclass: payload and key are not compared
unfoldable pub before : PendingLate → PendingLate → Bool
before p q =
    ltb p.release_at q.release_at || (p.release_at == q.release_at && ltb p.sequence q.sequence)

unfoldable pub heappush : List PendingLate → PendingLate → List PendingLate
unfolding before
heappush [] p = p ∷ []
heappush (q ∷ heap) p = if before p q then p ∷ q ∷ heap else q ∷ heappush heap p

pub length-heappush :
    (heap : List PendingLate) (p : PendingLate) → length (heappush heap p) ≡ length heap + 1
unfolding heappush
length-heappush [] p = omega arith
length-heappush (q ∷ heap) p = ground (arith, length-heappush heap p)
