-- ===== src/Ldm.antt =====
-- include/LDMmap.h and src/LDMmap.cpp: the vehicle database, a map of maps under the upper and the
-- lower half of the station ID. The locks are left out: a call runs alone. `new` does not fail. The
-- path histories are objects on a heap that the entries point to; `none` is a fault, a read through
-- a pointer that points to no object.
pub mod Scan
pub mod Invariant
pub mod Write
pub mod Insert
pub mod Remove
pub mod Aging
pub mod Contents
pub mod Listing
mod Tests
use s_ldm.Common.{ℕ, ◌+◌, ◌-◌, ◌/◌, ◌%◌, ◌^◌, Option, none, some, [], ◌∷◌, ◌==◌, if◌then◌else◌}
use s_ldm.Dict
use s_ldm.Dict.{Dict}
use s_ldm.Vehicle.{VehicleData}

-- `LDMMap_error_t`
pub data LdmMapError : Type 0 where
  ok updated item_not_found map_full unknown_error : LdmMapError

-- What the database asks of a path history: `new PHpoints()` and `PHpoints::insert`.
pub record History (D P : Type 0) : Type 0 where
  pub create : P
  pub record_point : VehicleData D → P → P

-- `returnedVehicleData_t`; `ph_data` is a pointer
pub record Entry (D : Type 0) : Type 0 where
  pub veh_data : VehicleData D
  pub ph_data : ℕ

-- the members of `LDMMap`, with the heap of the path histories
pub record LdmMap (D P : Type 0) : Type 0 where
  pub ldmmap : Dict (Dict (Entry D))
  pub card : ℕ
  pub central_lat : D
  pub central_lon : D
  pub heap : Dict P
  pub next : ℕ

abbrev pub uint64_max : ℕ
uint64_max = 2 ^ 64 - 1

-- `m_card++` and `m_card--` on a `uint64_t`
abbrev pub increment : ℕ → ℕ
increment n = (n + 1) % 2 ^ 64

abbrev pub decrement : ℕ → ℕ
decrement n = (n + 2 ^ 64 - 1) % 2 ^ 64

-- `DEFINE_KEYS`: the halves of the low 32 bits
abbrev pub key_upper : ℕ → ℕ
key_upper station_id = station_id / 2 ^ 16 % 2 ^ 16

abbrev pub key_lower : ℕ → ℕ
key_lower station_id = station_id % 2 ^ 16

module _ {D : Type 0} where
  -- `m_ldmmap[key_upper].second[key_lower]`, where both are there
  unfoldable pub entry_at : Dict (Dict (Entry D)) → ℕ → ℕ → Option (Entry D)
  entry_at m up low = elim (Dict.find up m) [ none ↦ none | some lower ↦ Dict.find low lower ]

  abbrev pub entry : VehicleData D → ℕ → Entry D
  entry v p = record { veh_data = v; ph_data = p }

module _ {D P : Type 0} where
  -- `LDMMap()`, where `zero` is 0.0
  unfoldable pub new : D → LdmMap D P
  new zero = record {
    ldmmap = [];
    card = 0;
    central_lat = zero;
    central_lon = zero;
    heap = [];
    next = 0;
  }

  unfoldable pub lookup : ℕ → LdmMap D P → LdmMapError × Option (Entry D)
  lookup station_id s = elim (Dict.find (key_upper station_id) s.ldmmap) [
    | none ↦ (item_not_found, none)
    | some lower ↦ elim (Dict.find (key_lower station_id) lower) [
      | none ↦ (item_not_found, none)
      | some e ↦ (ok, some e)
    ]
  ]

  -- The lower map is searched under `key_lower`, and `erase` is given the station ID itself, as a
  -- `uint32_t`.
  unfoldable pub remove : ℕ → LdmMap D P → LdmMapError × LdmMap D P
  remove station_id s = elim (Dict.find (key_upper station_id) s.ldmmap) [
    | none ↦ (item_not_found, s)
    | some lower ↦ elim (Dict.find (key_lower station_id) lower) [
      | none ↦ (item_not_found, s)
      | some e ↦ (
        ok,
        record s {
          ldmmap =
              Dict.assign (key_upper station_id) (Dict.erase (station_id % 2 ^ 32) lower) s.ldmmap;
          card = decrement s.card;
        },
      )
    ]
  ]

  unfoldable pub set_central_lat_lon : D → D → LdmMap D P → LdmMap D P
  set_central_lat_lon lat lon s = record s { central_lat = lat; central_lon = lon }

  unfoldable pub get_central_lat_lon : LdmMap D P → D × D
  get_central_lat_lon s = (s.central_lat, s.central_lon)

  -- `phData->clear(); delete phData` for the entries of one lower map
  unfoldable pub free_lower : Dict (Entry D) → Dict P → Option (Dict P)
  free_lower [] heap = some heap
  free_lower ((k, e) ∷ lower) heap = elim (Dict.find e.ph_data heap) [
    | none ↦ none
    | some p ↦ free_lower lower (Dict.erase e.ph_data heap)
  ]

  unfoldable pub free_all : Dict (Dict (Entry D)) → Dict P → Option (Dict P)
  unfolding free_lower
  free_all [] heap = some heap
  free_all ((k, lower) ∷ m) heap = elim (free_lower lower heap) [
    | none ↦ none
    | some rest ↦ free_all m rest
  ]

  unfoldable pub clear : LdmMap D P → Option (LdmMap D P)
  unfolding free_all
  clear s = elim (free_all s.ldmmap s.heap) [
    | none ↦ none
    | some rest ↦ some (record s { ldmmap = []; card = 0; heap = rest })
  ]

module _ {D P : Type 0} ⦃hist : History D P⦄ where
  -- the branches of `insert` up to the insertion of the point
  unfoldable pub place : VehicleData D → (up low : ℕ) → LdmMap D P → LdmMapError × LdmMap D P
  place v up low s =
      let fresh : Dict (Entry D) → LdmMapError × LdmMap D P = λ lower. (
        ok,
        record s {
          ldmmap = Dict.assign up (Dict.assign low (entry v s.next) lower) s.ldmmap;
          card = increment s.card;
          heap = Dict.assign s.next hist.create s.heap;
          next = s.next + 1;
        },
      ) in
      elim (Dict.find up s.ldmmap) [
        | none ↦ fresh []
        | some lower ↦ elim (Dict.find low lower) [
          | none ↦ fresh lower
          | some e ↦ (
            updated,
            record s {
              ldmmap = Dict.assign up (Dict.assign low (entry v e.ph_data) lower) s.ldmmap;
            },
          )
        ]
      ]

  -- `m_ldmmap[key_upper].second[key_lower].phData->insert(newVehicleData)`
  unfoldable pub add_point : VehicleData D → (up low : ℕ) → LdmMap D P → Option (LdmMap D P)
  unfolding entry_at
  add_point v up low s = elim (entry_at s.ldmmap up low) [
    | none ↦ none
    | some e ↦ elim (Dict.find e.ph_data s.heap) [
      | none ↦ none
      | some p ↦ some (record s { heap = Dict.assign e.ph_data (hist.record_point v p) s.heap })
    ]
  ]

  unfoldable pub insert : VehicleData D → LdmMap D P → Option (LdmMapError × LdmMap D P)
  insert v s =
      if s.card == uint64_max
      then some (map_full, s)
      else let up = key_upper v.station_id in
        let low = key_lower v.station_id in
        let (status, placed) = place v up low s in
        elim (add_point v up low placed) [ none ↦ none | some done ↦ some (status, done) ]
