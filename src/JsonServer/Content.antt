-- ===== src/JsonServer/Content.antt =====
-- What `JSONserver::make_SLDM_json` answers.
use s_ldm.Common.{ℕ, ◌≡◌, refl, ap₂, none, some, List, [], ◌∷◌, map, All, if◌then◌else◌}
use s_ldm.Dict
use s_ldm.Double.{Double}
use s_ldm.JsonServer.{
  VehicleJson, SldmJson, elapsed, history_points, vehicle_json, make_vehicle, make_vehicles,
  make_sldm_json,
}
use s_ldm.Ldm.{Entry, LdmMap}
use s_ldm.Ldm.Contents.{contents, is_near, only, range_select-only}
use s_ldm.Ldm.Scan.{haversine_dist}
use s_ldm.Options.{codes}
use s_ldm.PathHistory.{PhData, PhPoints}
use s_ldm.PathHistory.Iterate.Points.{read_points_lem}
use s_ldm.PathHistory.Ring.{IsRing}

-- the pointer of an entry leads to a history whose indices are in its array
abbrev pub IsReadable : {D : Type 0} → LdmMap D (PhPoints D) → Entry D → Type 0
IsReadable {D} s e = (p : PhPoints D) × (Dict.find e.ph_data s.heap ≡ some p) × IsRing p

module _ {D : Type 0} where
  pub history_points-some :
      (s : LdmMap D (PhPoints D)) (e : Entry D)
      → IsReadable s e
      → (points : List (PhData D)) × (history_points s e.ph_data ≡ some points)
  unfolding history_points
  history_points-some s e (p, found, ring) =
      let (points, read, _, _) = read_points_lem p ring in (points, rw (history_points, found) read)

  make_vehicle-some :
      (s : LdmMap D (PhPoints D)) (e : Entry D) (dist : D) (diff : ℕ)
      → IsReadable s e
      → (json : VehicleJson D) × (make_vehicle s e dist diff ≡ some json)
        × (json.station_id ≡ e.veh_data.station_id)
  unfolding make_vehicle vehicle_json
  make_vehicle-some s e dist diff r =
      let (points, f) = history_points-some s e r in
      (vehicle_json e dist diff points, simp (make_vehicle, f), refl)

module _ {D : Type 0} ⦃dbl : Double D⦄ where
  abbrev pub station_ids : List (Entry D) → List ℕ
  station_ids es = map (λ (e : Entry D). e.veh_data.station_id) es

  make_vehicles-some :
      (s : LdmMap D (PhPoints D)) (now : ℕ) (lat lon : D) (es : List (Entry D))
      → All (IsReadable s) es
      → (js : List (VehicleJson D)) × (make_vehicles s now lat lon es ≡ some js)
        × (map (λ (j : VehicleJson D). j.station_id) js ≡ station_ids es)
  unfolding make_vehicles
  make_vehicles-some s now lat lon [] r = ([], refl, refl)
  make_vehicles-some s now lat lon (e ∷ es) (r, rs) =
      let v = e.veh_data in
      let (j, f, i) =
        make_vehicle-some s e (haversine_dist lat lon v.lat v.lon) (elapsed now v.timestamp_us) r in
      let (js, g, is) = make_vehicles-some s now lat lon es rs in
      (j ∷ js, simp (make_vehicles, f, g), ap₂ (λ x xs. x ∷ xs) i is)

  -- The request of a client is answered: where the history of each selected vehicle can be read, the
  -- loops over the vehicles and over their points end, and the answer lists just the vehicles of the
  -- database that are within the range asked for, or the default one where that is not positive,
  -- each once and in the order of the database.
  pub make_sldm_json_lem :
      (default_range : D) (now : ℕ) (s : LdmMap D (PhPoints D)) (lat lon range : D)
      → let used = if dbl.le range (dbl.of_ℕ 0) then default_range else range in
        All (IsReadable s) (only (is_near used lat lon) (contents s.ldmmap))
        → (js : List (VehicleJson D)) × (answer : SldmJson D) × (make_sldm_json default_range now s
              lat lon range
            ≡ some answer)
          × (answer.vehicles ≡ some js)
          × (map (λ (j : VehicleJson D). j.station_id) js
              ≡ station_ids (only (is_near used lat lon) (contents s.ldmmap)))
  unfolding make_sldm_json
  make_sldm_json_lem default_range now s lat lon range r =
      let used = if dbl.le range (dbl.of_ℕ 0) then default_range else range in
      let near = only (is_near used lat lon) (contents s.ldmmap) in
      let (js, f, ids) = make_vehicles-some s now lat lon near r in
      (
        js,
        record {
          generation_tstamp = now;
          reference_lat = lat;
          reference_lon = lon;
          return_code = none;
          error = some (codes "ok");
          vehicles = some js;
        },
        simp (make_sldm_json, range_select-only used lat lon [] s, f),
        refl,
        ids,
      )
