-- ===== src/PathHistory/Stored.antt =====
-- The path histories of the database: the arrays whose indices are inside, with `PHpoints::insert`.
use s_ldm.Common.{◌≡◌, some, List, length, arith}
use s_ldm.Double.{Double}
use s_ldm.Ldm.{History}
use s_ldm.PathHistory.{PhData, PhPoints, PhpRetval, new, new_with, insert}
use s_ldm.PathHistory.Ring.{IsRing, insert-IsInserted}
use s_ldm.Vehicle.{VehicleData}

abbrev pub RingPoints : Type 0 → Type 0
RingPoints D = (p : PhPoints D) × IsRing p

module _ {D : Type 0} ⦃dbl : Double D⦄ where
  -- the result of `insert`, which makes no access past the array
  unfoldable pub record_ring : VehicleData D → RingPoints D → RingPoints D
  record_ring v (p, ring) =
      let (r, e, inserted) = insert-IsInserted v p ring in (r.1, inserted.ring)

  -- The points that the database keeps are those that `insert` leaves.
  pub record_ring-insert :
      (v : VehicleData D) (p : RingPoints D)
      → (status : PhpRetval) × (insert v p.0 ≡ some (status, (record_ring v p).0))
  unfolding record_ring
  record_ring-insert v (p, ring) = let (r, e, inserted) = insert-IsInserted v p ring in (r.0, e)

  -- `PHpoints()` on a memory for 300 points
  unfoldable pub new_ring :
      (stored_distance : D) (memory : List (PhData D)) → length memory ≡ 300 → RingPoints D
  unfolding new new_with
  new_ring stored_distance memory full = (
    new stored_distance memory,
    record { memory = full; next = omega arith; oldest = omega arith; bounded = omega arith },
  )

  abbrev pub ring_history :
      (stored_distance : D) (memory : List (PhData D))
      → length memory ≡ 300
      → History D (RingPoints D)
  ring_history stored_distance memory full = record {
    create = new_ring stored_distance memory full;
    record_point = record_ring;
  }
