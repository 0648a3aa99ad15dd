-- ===== src/JsonServer.antt =====
-- include/JSONserver.h and src/JSONserver.cpp: the server for clients on the same machine. The
-- sockets and the JSON library are outside of the model: what is sent is a record of its fields.
mod Tests
pub mod Serve
pub mod Thread
pub mod Lifecycle
pub mod Content
use s_ldm.Common.{
  ℕ, ◌+◌, ◌-◌, ◌%◌, ◌^◌, Bool, true, false, Option, none, some, List, [], ◌∷◌, map, if◌then◌else◌,
}
use s_ldm.Decoder.Bytes.{◌>>=◌}
use s_ldm.Dict
use s_ldm.Double.{Double}
use s_ldm.Ldm.{Entry, LdmMap, LdmMapError, ok}
use s_ldm.Ldm.Scan.{haversine_dist, range_select}
use s_ldm.Numeral.{Text}
use s_ldm.Options.{codes}
use s_ldm.PathHistory.{PhData, PhPoints}
use s_ldm.PathHistory.Iterate.{initializer, read_points}
use s_ldm.Utils.{exterior_lights_bit_to_string}
use s_ldm.Vehicle.{VehicleData, OptionalDataItem}

-- The object for one vehicle. A length or width is `none` for the text "unavailable"; the points of
-- the path history are the numbers that `std::to_string` is given.
pub record VehicleJson (D : Type 0) : Type 0 where
  pub station_id : ℕ
  pub lat : D
  pub lon : D
  pub speed_ms : D
  pub turnindicator : Text
  pub cam_tstamp : ℕ
  pub gn_tstamp : ℕ
  pub relative_dist_to_reference_m : D
  pub station_type : ℕ
  pub heading : D
  pub time_since_generation_tstamp : ℕ
  pub car_len_mm : Option ℕ
  pub car_wid_mm : Option ℕ
  pub ph_points_lat : List D
  pub ph_points_lon : List D

-- the whole answer; a field that is not set is `none`
pub record SldmJson (D : Type 0) : Type 0 where
  pub generation_tstamp : ℕ
  pub reference_lat : D
  pub reference_lon : D
  pub return_code : Option Text
  pub error : Option Text
  pub vehicles : Option (List (VehicleJson D))

-- a difference of two `uint64_t`
unfoldable pub elapsed : (now then_ : ℕ) → ℕ
elapsed now then_ = (now + 2 ^ 64 - then_) % 2 ^ 64

unfoldable pub turn_indicator : OptionalDataItem ℕ → Text
turn_indicator none = codes "unavailable"
turn_indicator (some lights) = exterior_lights_bit_to_string lights

module _ {D : Type 0} where
  -- all points of a history; the pointer leads into the heap of the database
  unfoldable pub history_points : LdmMap D (PhPoints D) → ℕ → Option (List (PhData D))
  history_points s ph_data =
      Dict.find ph_data s.heap >>= λ p. read_points (p.size + 1) p initializer

  -- the fields of a vehicle
  unfoldable pub vehicle_json :
      Entry D → (relative_dist_m : D) → (diff_ref_tstamp : ℕ) → List (PhData D) → VehicleJson D
  unfolding turn_indicator
  vehicle_json e relative_dist_m diff_ref_tstamp points =
      let v = e.veh_data in
      record {
        station_id = v.station_id;
        lat = v.lat;
        lon = v.lon;
        speed_ms = v.speed_ms;
        turnindicator = turn_indicator v.exterior_lights;
        cam_tstamp = v.cam_timestamp % 2 ^ 16;
        gn_tstamp = v.gn_timestamp;
        relative_dist_to_reference_m = relative_dist_m;
        station_type = v.station_type;
        heading = v.heading;
        time_since_generation_tstamp = diff_ref_tstamp;
        car_len_mm = v.vehicle_length;
        car_wid_mm = v.vehicle_width;
        ph_points_lat = map (λ (d : PhData D). d.lat) points;
        ph_points_lon = map (λ (d : PhData D). d.lon) points;
      }

  -- `make_vehicle`
  unfoldable pub make_vehicle :
      LdmMap D (PhPoints D)
      → Entry D
      → (relative_dist_m : D) → (diff_ref_tstamp : ℕ) → Option (VehicleJson D)
  unfolding history_points vehicle_json
  make_vehicle s e relative_dist_m diff_ref_tstamp = history_points s e.ph_data >>= λ points.
      some (vehicle_json e relative_dist_m diff_ref_tstamp points)

module _ {D : Type 0} ⦃dbl : Double D⦄ where
  -- the loop over the vehicles
  unfoldable pub make_vehicles :
      LdmMap D (PhPoints D)
      → (now_us : ℕ) (lat lon : D) → List (Entry D)
      → Option (List (VehicleJson D))
  unfolding make_vehicle elapsed
  make_vehicles s now_us lat lon [] = some []
  make_vehicles s now_us lat lon (e ∷ es) =
      let v = e.veh_data in
      make_vehicle s e (haversine_dist lat lon v.lat v.lon) (elapsed now_us v.timestamp_us)
      >>= λ json. make_vehicles s now_us lat lon es >>= λ rest. some (json ∷ rest)

  -- `make_SLDM_json`; `default_range` is `m_range_m`
  unfoldable pub make_sldm_json :
      (default_range : D) (now_us : ℕ)
      → LdmMap D (PhPoints D)
      → (lat lon range : D) → Option (SldmJson D)
  unfolding make_vehicles
  make_sldm_json default_range now_us s lat lon range =
      let used = if dbl.le range (dbl.of_ℕ 0) then default_range else range in
      let answer : SldmJson D = record {
        generation_tstamp = now_us;
        reference_lat = lat;
        reference_lon = lon;
        return_code = none;
        error = none;
        vehicles = none;
      } in
      let (status, selected) = range_select used lat lon [] s in
      elim status [
        | ok ↦ make_vehicles s now_us lat lon selected >>= λ vehicles.
            some (record answer { error = some (codes "ok"); vehicles = some vehicles })
        | _ ↦ some (record answer { return_code = some (codes "error") })
      ]
