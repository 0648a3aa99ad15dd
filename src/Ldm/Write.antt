-- ===== src/Ldm/Write.antt =====
-- A write of one entry, through both maps.
use s_ldm.Common.{
  ℕ, ◌+◌, ◌≤◌, ◌≡◌, none, some, [], false, ◌==◌, if◌then◌else◌, length, is_some, arith, ◌&&◌,
}
use s_ldm.Dict
use s_ldm.Dict.{Dict}
use s_ldm.Dict.Laws.{find-assign, count-assign, length-assign}
use s_ldm.Dict.Totals.{total-assign, weight-le-total, two-le-total}
use s_ldm.Ldm.{Entry, entry_at, key_upper, key_lower}
use s_ldm.Ldm.Invariant.{entries, points, pointers}

module _ {D : Type 0} where
  -- the lower map at a key, empty if there is none
  abbrev pub lower_at : ℕ → Dict (Dict (Entry D)) → Dict (Entry D)
  lower_at up m = elim (Dict.find up m) [ none ↦ [] | some lower ↦ lower ]

  -- the map after a write of one entry
  abbrev pub write : (up low : ℕ) → Entry D → Dict (Dict (Entry D)) → Dict (Dict (Entry D))
  write up low e m = Dict.assign up (Dict.assign low e (lower_at up m)) m

  pub entry_at-write :
      (up low : ℕ) (e : Entry D) (m : Dict (Dict (Entry D))) (up' low' : ℕ)
      → entry_at (write up low e m) up' low'
        ≡ (if up == up' && low == low' then some e else entry_at m up' low')
  unfolding entry_at Dict.find
  entry_at-write up low e m up' low' = ground (
    arith,
    find-assign up up' (Dict.assign low e (lower_at up m)) m,
    find-assign low low' e (lower_at up m),
  )

  pub entries-write :
      (up low : ℕ) (e : Entry D) (m : Dict (Dict (Entry D)))
      → entries (write up low e m) ≡ entries m + (if is_some (entry_at m up low) then 0 else 1)
  unfolding entry_at Dict.find
  entries-write up low e m = ground (
    arith,
    total-assign length up (Dict.assign low e (lower_at up m)) m,
    length-assign low e (lower_at up m),
  )

  pub pointers-write :
      (p up low : ℕ) (e : Entry D) (m : Dict (Dict (Entry D)))
      → pointers p (write up low e m) + Dict.weight? (points p) (entry_at m up low)
        ≡ pointers p m + points p e
  unfolding entry_at Dict.find Dict.total
  pointers-write p up low e m = ground (
    arith,
    total-assign (Dict.total (points p)) up (Dict.assign low e (lower_at up m)) m,
    total-assign (points p) low e (lower_at up m),
  )

  pub entry_at-pointers :
      (p up low : ℕ) (m : Dict (Dict (Entry D)))
      → Dict.weight? (points p) (entry_at m up low) ≤ pointers p m
  unfolding entry_at
  entry_at-pointers p up low m = ground (
    arith,
    weight-le-total (Dict.total (points p)) up m,
    weight-le-total (points p) low (lower_at up m),
  )

  pub upper_distinct-write :
      (up low : ℕ) (e : Entry D) (m : Dict (Dict (Entry D)))
      → ((k : ℕ) → Dict.count k m ≤ 1)
      → (k : ℕ) → Dict.count k (write up low e m) ≤ 1
  upper_distinct-write up low e m h k =
      ground (arith, h k, count-assign up k (Dict.assign low e (lower_at up m)) m)

  pub lower_distinct-write :
      (up low : ℕ) (e : Entry D) (m : Dict (Dict (Entry D)))
      → ((k : ℕ) (lower : Dict (Entry D)) (j : ℕ)
          → Dict.find k m ≡ some lower
          → Dict.count j lower ≤ 1)
      → (k : ℕ) (lower : Dict (Entry D)) (j : ℕ) → Dict.find k (write up low e m) ≡ some lower
      → Dict.count j lower ≤ 1
  unfolding Dict.count
  lower_distinct-write up low e m h k lower j f = ground (
    arith,
    find-assign up k (Dict.assign low e (lower_at up m)) m,
    h k lower j,
    h up (lower_at up m) j,
    count-assign low j e (lower_at up m),
  )

  pub filed-write :
      (up low : ℕ) (e : Entry D) (m : Dict (Dict (Entry D)))
      → (up ≡ key_upper e.veh_data.station_id) × (low ≡ key_lower e.veh_data.station_id)
      → ((u l : ℕ) (d : Entry D)
          → entry_at m u l ≡ some d
          → (u ≡ key_upper d.veh_data.station_id) × (l ≡ key_lower d.veh_data.station_id))
      → (u l : ℕ) (d : Entry D) → entry_at (write up low e m) u l ≡ some d
      → (u ≡ key_upper d.veh_data.station_id) × (l ≡ key_lower d.veh_data.station_id)
  filed-write up low e m own h u l d f = ground (arith, entry_at-write up low e m u l, h u l d)

  -- Two entries at different places do not both point to an object that one entry points to.
  pub entry_at-apart :
      (p up low up' low' : ℕ) (m : Dict (Dict (Entry D)))
      → (up == up' && low == low') ≡ false
      → Dict.weight? (points p) (entry_at m up low) + Dict.weight? (points p) (entry_at m up' low')
        ≤ pointers p m
  unfolding entry_at
  entry_at-apart p up low up' low' m h = ground (
    arith,
    two-le-total (Dict.total (points p)) up up' m,
    two-le-total (points p) low low' (lower_at up m),
    weight-le-total (Dict.total (points p)) up m,
    weight-le-total (points p) low (lower_at up m),
    weight-le-total (points p) low' (lower_at up' m),
  )
