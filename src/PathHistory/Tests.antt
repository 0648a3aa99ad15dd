-- ===== src/PathHistory/Tests.antt =====
-- The theorems on the path history at an array of two points.
use s_ldm.PathHistory.Iterate.{initializer, read_points}
use s_ldm.PathHistory.Iterate.Points.{skipped, index_before, read_points_lem}
use s_ldm.Common.{
  List, length, get_elem?, ltb, none, ◌+◌, ℕ, ◌-◌, ◌≡◌, refl, some, if◌then◌else◌, arith,
}
use s_ldm.PathHistory.{PhData, PhPoints, PhpRetval, new_with, insert, slot}
use s_ldm.PathHistory.Ring.{IsRing, IsInserted, insert-IsInserted}
use s_ldm.Samples.{nat_double, vehicle, no_points, no_points-IsRing}

insert-IsInserted_example :
    (r : PhpRetval × PhPoints ℕ) × (insert (vehicle 7 45 9 1000) no_points ≡ some r)
    × IsInserted (vehicle 7 45 9 1000) no_points r
insert-IsInserted_example = insert-IsInserted (vehicle 7 45 9 1000) no_points no_points-IsRing

-- one point in an array of two, with the first slot next
abbrev wrapped : PhPoints ℕ
wrapped = record no_points { size = 1; oldest_idx = 1 }

wrapped-IsRing : IsRing wrapped
unfolding new_with
wrapped-IsRing = record {
  memory = refl;
  next = omega arith;
  oldest = omega arith;
  bounded = omega arith;
}

read_points_lem_example :
    (points : List (PhData ℕ)) × (read_points (wrapped.size + 1) wrapped initializer ≡ some points)
    × (length points ≡ wrapped.size - skipped wrapped)
    × ((j : ℕ)
        → get_elem? points j ≡ (
            if ltb j (wrapped.size - skipped wrapped)
            then slot (index_before wrapped (skipped wrapped + 1 + j)) wrapped.data_array
            else none))
read_points_lem_example = read_points_lem wrapped wrapped-IsRing
