-- ===== src/PathHistory.antt =====
-- src/PHpoints.cpp: the points that a vehicle has passed, in a cyclic array. The array is reserved and
-- never resized: its memory is a list as long as the reservation, with what it held before, and an
-- access past it is `none`. An `int` is a natural here: no index or size below is negative.
pub mod Access
pub mod Ring
pub mod Iterate
pub mod Stored
mod Tests
use s_ldm.Common.{
  ℕ, zero, suc, ◌+◌, ◌-◌, ◌%◌, Bool, true, false, not, ◌&&◌, ◌||◌, Option, none, some, List, [],
  ◌∷◌, ◌==◌, ltb, if◌then◌else◌,
}
use s_ldm.Decoder.Bytes.{◌>>=◌}
use s_ldm.Double.{Double}
use s_ldm.Ldm.Scan.{haversine_dist}
use s_ldm.Vehicle.{VehicleData}

-- `PHData_t`
pub record PhData (D : Type 0) : Type 0 where
  pub lat : D
  pub lon : D
  pub elev : D
  pub heading : D
  pub point_distance : D

pub record PhPoints (D : Type 0) : Type 0 where
  pub distance_limit : D
  pub min_dist_m : D
  pub max_dist_m : D
  pub max_heading_diff_degs : D
  pub next_idx : ℕ
  pub oldest_idx : ℕ
  pub stored_distance : D
  pub size : ℕ
  pub reserved_size : ℕ
  pub data_array : List (PhData D)
  pub remove_only_one : Bool
  pub iterate_full : Bool

-- `PHpoints_retval_t`
pub data PhpRetval : Type 0 where
  php_inserted php_skipped php_continue_iteration php_terminate_iteration php_error : PhpRetval

module _ {ℓ} {A : Type ℓ} where
  unfoldable pub slot : ℕ → List A → Option A
  slot i [] = none
  slot zero (a ∷ xs) = some a
  slot (suc i) (a ∷ xs) = slot i xs

  unfoldable pub set_slot : ℕ → A → List A → Option (List A)
  set_slot i b [] = none
  set_slot zero b (a ∷ xs) = some (b ∷ xs)
  set_slot (suc i) b (a ∷ xs) = do rest ← set_slot i b xs; some (a ∷ rest)

module _ {D : Type 0} ⦃dbl : Double D⦄ where
  -- The constructor with parameters: `reserved_size` is what the cast of `ceil` of the distance limit
  -- by the minimum distance gives, and the stored distance and the array start with what their
  -- memory held.
  unfoldable pub new_with :
      (distance_limit min_dist_m max_dist_m max_heading_diff_degs : D) (reserved_size : ℕ)
      (stored_distance : D) (memory : List (PhData D))
      → PhPoints D
  new_with distance_limit min_dist_m max_dist_m max_heading_diff_degs reserved_size stored_distance
        memory =
      record {
        distance_limit = distance_limit;
        min_dist_m = min_dist_m;
        max_dist_m = max_dist_m;
        max_heading_diff_degs = max_heading_diff_degs;
        next_idx = 0;
        oldest_idx = 0;
        stored_distance = stored_distance;
        size = 0;
        reserved_size = reserved_size;
        data_array = memory;
        remove_only_one = false;
        iterate_full = false;
      }

  -- `PHpoints()`
  unfoldable pub new : (stored_distance : D) (memory : List (PhData D)) → PhPoints D
  unfolding new_with
  new = new_with (dbl.of_ℕ 300) (dbl.of_ℕ 1) (dbl.of_ℕ 20) (dbl.of_ℕ 10) 300

  unfoldable pub ang_diff : D → D → D
  ang_diff ang1 ang2 =
      let d = dbl.sub ang1 ang2 in
      if dbl.lt (dbl.of_ℕ 180) d
      then dbl.sub d (dbl.of_ℕ 360)
      else (if dbl.lt d (dbl.sub (dbl.of_ℕ 0) (dbl.of_ℕ 180)) then dbl.add d (dbl.of_ℕ 360) else d)

  -- the index of the point before
  unfoldable pub prev_idx : PhPoints D → ℕ
  prev_idx p = if p.next_idx == 0 then p.size - 1 else p.next_idx - 1

  -- the body of both loops that remove the oldest point
  unfoldable pub drop_oldest : PhPoints D → Option (PhPoints D)
  drop_oldest p = do
    oldest ← slot p.oldest_idx p.data_array
    some (record p {
      stored_distance = dbl.sub p.stored_distance oldest.point_distance;
      size = p.size - 1;
      oldest_idx = (p.oldest_idx + 1) % p.reserved_size;
    })

  -- there are more points than the distance limit asks for
  abbrev pub is_long : PhPoints D → Bool
  is_long p = dbl.le p.distance_limit p.stored_distance

  -- the `while` loop; the first argument bounds the size, which goes down with each round
  unfoldable pub drop_while : ℕ → PhPoints D → Option (PhPoints D)
  drop_while zero p = some p
  drop_while (suc n) p =
      let rest = drop_oldest p >>= λ p'. drop_while n p' in
      if is_long p && ltb 1 p.size then rest else some p

  unfoldable pub make_room : PhPoints D → Option (PhPoints D)
  make_room p =
      if p.remove_only_one
      then (if is_long p then drop_oldest p else some p)
      else drop_while p.size p

  -- what is stored of an update
  abbrev pub point_of : VehicleData D → D → PhData D
  point_of v point_dist = record {
    lat = v.lat;
    lon = v.lon;
    elev = v.elevation;
    heading = v.heading;
    point_distance = point_dist;
  }

  -- the end of `insert`
  unfoldable pub append_point : VehicleData D → (point_dist : D) → PhPoints D → Option (PhPoints D)
  append_point v point_dist p = do
    filled ← set_slot p.next_idx (point_of v point_dist) p.data_array
    some (record p {
      data_array = filled;
      size = if ltb p.size p.reserved_size then p.size + 1 else p.size;
      next_idx = (p.next_idx + 1) % p.reserved_size;
    })

  -- the test of a point that is too near to the one before, or too near for its heading
  unfoldable pub is_skipped : PhPoints D → VehicleData D → PhData D → (point_dist : D) → Bool
  is_skipped p v prev point_dist =
      dbl.lt point_dist p.max_dist_m
      && (dbl.lt point_dist p.min_dist_m
          || dbl.lt (dbl.fabs (ang_diff prev.heading v.heading)) p.max_heading_diff_degs)

  unfoldable pub insert : VehicleData D → PhPoints D → Option (PhpRetval × PhPoints D)
  insert v p =
      if ltb 0 p.size
      then (do
        prev ← slot (prev_idx p) p.data_array
        let point_dist = haversine_dist prev.lat prev.lon v.lat v.lon
        if is_skipped p v prev point_dist then some (php_skipped, p) else (do
          shorter ← make_room p
          done ←
              append_point v point_dist
                (record shorter { stored_distance = dbl.add shorter.stored_distance point_dist })
          some (php_inserted, done)))
      else (do done ← append_point v (dbl.of_ℕ 0) p; some (php_inserted, done))

module _ {D : Type 0} where
  -- `switchRemoveOnlyOne`
  unfoldable pub switch_remove_only_one : PhPoints D → Bool × PhPoints D
  switch_remove_only_one p =
      (not p.remove_only_one, record p { remove_only_one = not p.remove_only_one })

  -- `clear`: the memory stays, and so does the stored distance
  unfoldable pub clear : PhPoints D → PhPoints D
  clear p = record p { size = 0; next_idx = 0; oldest_idx = 0 }

  -- the setters of the header file
  unfoldable pub set_ph_max_dist : D → PhPoints D → PhPoints D
  set_ph_max_dist max_distance_meters p = record p { max_dist_m = max_distance_meters }

  unfoldable pub set_ph_max_heading_diff : D → PhPoints D → PhPoints D
  set_ph_max_heading_diff degs p = record p { max_heading_diff_degs = degs }

  unfoldable pub set_iterate_full : Bool → PhPoints D → PhPoints D
  set_iterate_full iterate_full p = record p { iterate_full = iterate_full }
