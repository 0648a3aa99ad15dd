-- ===== src/Ldm/Insert.antt =====
-- `LDMMap::insert` in its two branches: the vehicle is new, or it is there.
pub mod Valid
pub mod Effect
use s_ldm.Common.{ℕ, ◌+◌, ◌≡◌, ◌≢◌, none, some, arith}
use s_ldm.Dict
use s_ldm.Dict.Laws.{find-assign}
use s_ldm.Ldm.{
  Entry, entry, LdmMap, ok, updated, History, entry_at, key_upper, key_lower, place, add_point,
  insert, increment, uint64_max,
}
use s_ldm.Ldm.Write.{lower_at, write}
use s_ldm.Vehicle.{VehicleData}

module _ {D P : Type 0} ⦃hist : History D P⦄ (v : VehicleData D) (s : LdmMap D P) where
  abbrev pub up : ℕ
  up = key_upper v.station_id

  abbrev pub low : ℕ
  low = key_lower v.station_id

  -- the states that `insert` leaves: for a new entry, and for one that is there
  abbrev pub with_new : LdmMap D P
  with_new = record s {
    ldmmap = write up low (entry v s.next) s.ldmmap;
    card = increment s.card;
    heap =
        Dict.assign s.next (hist.record_point v hist.create)
          (Dict.assign s.next hist.create s.heap);
    next = s.next + 1;
  }

  abbrev pub with_point : ℕ → P → LdmMap D P
  with_point p h = record s {
    ldmmap = write up low (entry v p) s.ldmmap;
    heap = Dict.assign p (hist.record_point v h) s.heap;
  }

  pub insert_new :
      s.card ≢ uint64_max → entry_at s.ldmmap up low ≡ none → insert v s ≡ some (ok, with_new)
  unfolding insert place add_point entry_at
  insert_new room absent = ground (
    arith,
    find-assign up up (Dict.assign low (entry v s.next) (lower_at up s.ldmmap)) s.ldmmap,
    find-assign low low (entry v s.next) (lower_at up s.ldmmap),
    find-assign s.next s.next hist.create s.heap,
  )

  pub insert_present :
      (e : Entry D) (h : P)
      → s.card ≢ uint64_max
      → entry_at s.ldmmap up low ≡ some e
      → Dict.find e.ph_data s.heap ≡ some h
      → insert v s ≡ some (updated, with_point e.ph_data h)
  unfolding insert place add_point entry_at
  insert_present e h room there object = ground (
    arith,
    find-assign up up (Dict.assign low (entry v e.ph_data) (lower_at up s.ldmmap)) s.ldmmap,
    find-assign low low (entry v e.ph_data) (lower_at up s.ldmmap),
  )
