-- ===== src/RestClient.antt =====
-- include/ManeuveringServiceRESTclient.h and src/ManeuveringServiceRESTclient.cpp: the client that
-- sends the vehicles round a triggering one to a service. HTTP, JSON and the geodesics are outside of
-- the model: what is sent is a record of its fields.
pub mod Thread
pub mod Content
use Prim.Native.String.{String}
use s_ldm.Common.{
  ℕ, ◌%◌, ◌^◌, Bool, true, false, ◌||◌, Option, none, some, List, [], ◌∷◌, map, ◌==◌, if◌then◌else◌,
}
use s_ldm.Decoder.Bytes.{◌>>=◌}
use s_ldm.Double.{Double}
use s_ldm.JsonServer.{elapsed, history_points, turn_indicator}
use s_ldm.Ldm.{Entry, LdmMap, LdmMapError, ok, lookup}
use s_ldm.Ldm.Scan.{range_select_around}
use s_ldm.Numeral.{Text}
use s_ldm.Options.{codes}
use s_ldm.PathHistory.{PhData, PhPoints}
use s_ldm.Vehicle.{VehicleData}

-- `Geodesic::WGS84().Inverse`: the distance of two positions
pub record Geodesic (D : Type 0) : Type 0 where
  pub inverse : (lat_a lon_a lat_b lon_b : D) → D

-- The object for one vehicle. A length or width is `none` for the text "unavailable"; the points of
-- the path history are the numbers that `std::to_string` is given.
pub record VehicleJson (D : Type 0) : Type 0 where
  pub station_id : ℕ
  pub lat : D
  pub lon : D
  pub speed_ms : D
  pub turnindicator : Text
  pub cam_tstamp : ℕ
  pub gn_tstamp : ℕ
  pub relative_dist_to_reference_m : D
  pub source_quadkey : String
  pub station_type : ℕ
  pub heading : D
  pub time_since_database_update_us : ℕ
  pub time_since_received_cam_us : ℕ
  pub cam_received_tstamp_us : ℕ
  pub database_update_tstamp_us : ℕ
  pub car_len_mm : Option ℕ
  pub car_wid_mm : Option ℕ
  pub ph_points_lat : List D
  pub ph_points_lon : List D

-- what is sent; the vehicles are `none` where the field is not set
pub record SldmJson (D : Type 0) : Type 0 where
  pub generation_tstamp : ℕ
  pub event_id : ℕ
  pub event : Text
  pub reference_vehicle_id : ℕ
  pub error : Text
  pub vehicles : Option (List (VehicleJson D))

module _ {D : Type 0} where
  -- the fields of a vehicle, at the time `now_us`
  unfoldable pub vehicle_json :
      (now_us : ℕ) → Entry D → (relative_dist_m : D) → List (PhData D) → VehicleJson D
  unfolding turn_indicator elapsed
  vehicle_json now_us e relative_dist_m points =
      let v = e.veh_data in
      record {
        station_id = v.station_id;
        lat = v.lat;
        lon = v.lon;
        speed_ms = v.speed_ms;
        turnindicator = turn_indicator v.exterior_lights;
        cam_tstamp = v.cam_timestamp % 2 ^ 16;
        gn_tstamp = v.gn_timestamp;
        relative_dist_to_reference_m = relative_dist_m;
        source_quadkey = v.source_quadkey;
        station_type = v.station_type;
        heading = v.heading;
        time_since_database_update_us = elapsed now_us v.timestamp_us;
        time_since_received_cam_us = elapsed now_us v.on_msg_timestamp_us;
        cam_received_tstamp_us = v.on_msg_timestamp_us;
        database_update_tstamp_us = v.timestamp_us;
        car_len_mm = v.vehicle_length;
        car_wid_mm = v.vehicle_width;
        ph_points_lat = map (λ (d : PhData D). d.lat) points;
        ph_points_lon = map (λ (d : PhData D). d.lon) points;
      }

  unfoldable pub make_vehicle :
      (now_us : ℕ)
      → LdmMap D (PhPoints D)
      → Entry D
      → (relative_dist_m : D) → Option (VehicleJson D)
  unfolding history_points vehicle_json
  make_vehicle now_us s e relative_dist_m =
      history_points s e.ph_data >>= λ points. some (vehicle_json now_us e relative_dist_m points)

-- a passenger car, or what `interop_hijack_enable` makes of one
unfoldable pub is_sent : ℕ → Bool
is_sent station_type = station_type == 5 || station_type == 100

module _ {D : Type 0} ⦃geo : Geodesic D⦄ where
  -- the loop over the vehicles
  unfoldable pub make_vehicles :
      (now_us : ℕ)
      → LdmMap D (PhPoints D)
      → (ref : VehicleData D) → List (Entry D)
      → Option (List (VehicleJson D))
  unfolding make_vehicle is_sent
  make_vehicles now_us s ref [] = some []
  make_vehicles now_us s ref (e ∷ es) =
      let v = e.veh_data in
      let rest = make_vehicles now_us s ref es in
      let sent = make_vehicle now_us s e (geo.inverse ref.lat ref.lon v.lat v.lon) >>= λ json.
      rest >>= λ js. some (json ∷ js) in
      if is_sent v.station_type then sent else rest

  -- `make_SLDM_json`
  unfoldable pub make_sldm_json :
      ⦃dbl : Double D⦄ (range_m : D) (ref_veh_station_id now_us event_id : ℕ)
      → LdmMap D (PhPoints D)
      → Option (SldmJson D)
  unfolding make_vehicles
  make_sldm_json range_m ref_veh_station_id now_us event_id s =
      let answer : Text → Option (List (VehicleJson D)) → SldmJson D = λ error vehicles. record {
        generation_tstamp = now_us;
        event_id = event_id;
        event = codes "CLC";
        reference_vehicle_id = ref_veh_station_id;
        error = error;
        vehicles = vehicles;
      } in
      let (status, selected) = range_select_around range_m ref_veh_station_id [] s in
      let around = elim (lookup ref_veh_station_id s).1 as (λ x. Option (SldmJson D)) [
        | none ↦ some (answer (codes "ERROR_REFERENCE_LOOKUP") none)
        | some ref ↦ make_vehicles now_us s ref.veh_data selected >>= λ js.
            some (answer (codes "OK") (some js))
      ] in
      elim status [ ok ↦ around | _ ↦ some (answer (codes "ERROR") none) ]
