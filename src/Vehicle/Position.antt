-- ===== src/Vehicle/Position.antt =====
-- `position_at` of src/fleetstream/simulator/vehicle.py, and its table of cumulative distances.
use mathlib.Core.Option.{some_inj}
use fleet_stream_real_time_f.Prelude.{
  eq_iff, sym, ◌∙◌, inl, inr, Bool-cases, str_eq, ◌≡◌, refl, ap, List, [], ◌∷◌, Option, none, some,
  ◌&&◌, All, if◌then◌else◌,
}
use fleet_stream_real_time_f.Float.{Float}
use fleet_stream_real_time_f.Random.{Choices}
use fleet_stream_real_time_f.Reference.{
  Trigonometry, Point, Route, cumulative_distances, interpolate, last_of, Cache,
}

module _ {R : Type 0} ⦃f : Float R⦄ where
  open f use {lit, sub, div, le}

  -- the loop over the segments: the distances and the waypoints of the two ends, and what follows
  unfoldable pub locate : R → R → List R → Point R → List (Point R) → Option (Point R)
  locate progress c0 [] w0 ws = none
  locate progress c0 (c1 ∷ cs) w0 [] = none
  locate progress c0 (c1 ∷ cs) w0 (w1 ∷ ws) =
      let span = sub c1 c0 in
      let t =
        if le span (lit 0 0) && le (lit 0 0) span then lit 0 0 else div (sub progress c0) span in
      if le c0 progress && le progress c1
      then some (interpolate w0 w1 t)
      else locate progress c1 cs w1 ws

  abbrev or_last : Option (Point R) → Point R → Point R
  or_last none w = w
  or_last (some p) w = p

  -- with the cumulative distances at hand
  unfoldable pub position_along : Choices R → Route R → R → Point R
  unfolding locate
  position_along cumulative route progress =
      let first = route.waypoints.first in
      let last = last_of first route.waypoints.rest in
      if le progress (lit 0 0)
      then first
      else if le (last_of cumulative.first cumulative.rest) progress
      then last
      else or_last (locate progress cumulative.first cumulative.rest first route.waypoints.rest)
          last

  module _ (m : Trigonometry R) where
    unfoldable pub position_at : Route R → R → Point R
    unfolding position_along
    position_at route progress = position_along (cumulative_distances m route) route progress

    abbrev cached : Route R → Cache R → Option (Choices R)
    cached route [] = none
    cached route ((id, c) ∷ rest) = if str_eq id route.route_id then some c else cached route rest

    abbrev locate_in : Cache R → Route R → R → Option (Choices R) → Point R × Cache R
    locate_in cache route progress none =
        let c = cumulative_distances m route in
        (position_along c route progress, (route.route_id, c) ∷ cache)
    locate_in cache route progress (some c) = (position_along c route progress, cache)

    -- as the code calls it: with the table that it fills
    unfoldable pub position_at_cached : Cache R → Route R → R → Point R × Cache R
    unfolding position_along
    position_at_cached cache route progress = locate_in cache route progress (cached route cache)

    module _ (IsKnown : Route R → Type 0) where
      -- Every entry is the distances of the known route that it is named after.
      abbrev pub IsCoherent : Cache R → Type 0
      IsCoherent = All (λ e.
          (route : Route R)
          → IsKnown route
          → e.0 ≡ route.route_id
          → e.1 ≡ cumulative_distances m route)

      cached-IsCoherent :
          (route : Route R) (cache : Cache R) (c : Choices R)
          → IsKnown route
          → IsCoherent cache
          → cached route cache ≡ some c
          → c ≡ cumulative_distances m route
      cached-IsCoherent route [] c known h e = cc
      cached-IsCoherent route ((id, d) ∷ rest) c known h e =
          elim (Bool-cases (str_eq id route.route_id)) [
            | inl same ↦
                sym (some_inj.0 (simp (same) at e))
                ∙ h.0 route known ((eq_iff id route.route_id).0 same)
            | inr other ↦ cached-IsCoherent route rest c known h.1 (simp (other) at e)
          ]

      module _
          (unique : (r q : Route R) → IsKnown r → IsKnown q → r.route_id ≡ q.route_id → r ≡ q) where
        locate_in_lem :
            (cache : Cache R) (route : Route R) (progress : R) (o : Option (Choices R))
            → IsKnown route
            → IsCoherent cache
            → ((c : Choices R) → o ≡ some c → c ≡ cumulative_distances m route)
            → ((locate_in cache route progress o).0 ≡ position_at route progress)
              × IsCoherent (locate_in cache route progress o).1
        unfolding position_at
        locate_in_lem cache route progress none known h k =
            (refl, (λ q q_known e. ap (cumulative_distances m) (unique route q known q_known e), h))
        locate_in_lem cache route progress (some c) known h k =
            (ap (λ x. position_along x route progress) (k c refl), h)

        -- For routes that are told apart by their identifiers and a table that has under each identifier, if anything,
        -- the distances of its route: the answer is that of the distances computed anew, and the table stays so, for
        -- all the routes.
        pub position_at_cached_lem :
            (cache : Cache R) (route : Route R) (progress : R)
            → IsKnown route
            → IsCoherent cache
            → ((position_at_cached cache route progress).0 ≡ position_at route progress)
              × IsCoherent (position_at_cached cache route progress).1
        unfolding position_at_cached
        position_at_cached_lem cache route progress known h =
            locate_in_lem cache route progress (cached route cache) known h
              λ c e. cached-IsCoherent route cache c known h e
