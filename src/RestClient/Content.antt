-- ===== src/RestClient/Content.antt =====
-- What `ManeuveringServiceRestClient::make_SLDM_json` sends.
use s_ldm.Common.{
  ℕ, ◌≡◌, refl, ap, ap₂, sym, ◌∙◌, true, false, some, List, [], ◌∷◌, map, All, Bool-cases, inl, inr,
}
use s_ldm.Double.{Double}
use s_ldm.JsonServer.Content.{IsReadable, history_points-some, station_ids}
use s_ldm.Ldm.{Entry, LdmMap, ok, lookup}
use s_ldm.Ldm.Contents.{contents, is_near, only, range_select_around-only}
use s_ldm.Ldm.Scan.{range_select_around}
use s_ldm.Options.{codes}
use s_ldm.PathHistory.{PhPoints}
use s_ldm.RestClient.{
  Geodesic, VehicleJson, SldmJson, vehicle_json, make_vehicle, is_sent, make_vehicles,
  make_sldm_json,
}
use s_ldm.Vehicle.{VehicleData}

module _ {D : Type 0} where
  -- the entries of the two station types
  abbrev pub sent_entries : List (Entry D) → List (Entry D)
  sent_entries es = only (λ (e : Entry D). is_sent e.veh_data.station_type) es

  make_vehicle-some :
      (now : ℕ) (s : LdmMap D (PhPoints D)) (e : Entry D) (dist : D)
      → IsReadable s e
      → (json : VehicleJson D) × (make_vehicle now s e dist ≡ some json)
        × (json.station_id ≡ e.veh_data.station_id)
  unfolding make_vehicle vehicle_json
  make_vehicle-some now s e dist r =
      let (points, f) = history_points-some s e r in
      (vehicle_json now e dist points, simp (make_vehicle, f), refl)

module _ {D : Type 0} ⦃geo : Geodesic D⦄ ⦃dbl : Double D⦄ where
  make_vehicles-some :
      (now : ℕ) (s : LdmMap D (PhPoints D)) (ref : VehicleData D) (es : List (Entry D))
      → All (IsReadable s) es
      → (js : List (VehicleJson D)) × (make_vehicles now s ref es ≡ some js)
        × (map (λ (j : VehicleJson D). j.station_id) js ≡ station_ids (sent_entries es))
  unfolding make_vehicles
  make_vehicles-some now s ref [] r = ([], refl, refl)
  make_vehicles-some now s ref (e ∷ es) (r, rs) =
      let v = e.veh_data in
      let (js, g, is) = make_vehicles-some now s ref es rs in
      elim (Bool-cases (is_sent v.station_type)) [
        | inl h ↦
            let (j, f, i) = make_vehicle-some now s e (geo.inverse ref.lat ref.lon v.lat v.lon) r in
            (
              j ∷ js,
              simp (make_vehicles, h, f, g),
              ap₂ (λ x xs. x ∷ xs) i is ∙ ap station_ids (sym (only-true e es h)),
            )
        | inr h ↦ (js, simp (make_vehicles, h, g), is ∙ ap station_ids (sym (only-false e es h)))
      ]
    where
      only-true :
          (e : Entry D) (es : List (Entry D))
          → is_sent e.veh_data.station_type ≡ true
          → sent_entries (e ∷ es) ≡ e ∷ sent_entries es
      only-true e es h = simp h

      only-false :
          (e : Entry D) (es : List (Entry D))
          → is_sent e.veh_data.station_type ≡ false
          → sent_entries (e ∷ es) ≡ sent_entries es
      only-false e es h = simp h

  -- Where the reference vehicle is in the database, and the histories of the vehicles round it can
  -- be read, what is sent lists just the passenger cars, and the vehicles stored in their place, that
  -- are within the range of it: each once and in the order of the database.
  pub make_sldm_json-sent :
      (range_m : D) (id now event_id : ℕ) (s : LdmMap D (PhPoints D)) (ref : Entry D)
      → lookup id s ≡ (ok, some ref)
      → let near = only (is_near range_m ref.veh_data.lat ref.veh_data.lon) (contents s.ldmmap) in
        All (IsReadable s) near
        → (js : List (VehicleJson D)) × (answer : SldmJson D) × (make_sldm_json range_m id now
              event_id s
            ≡ some answer)
          × (answer.error ≡ codes "OK")
          × (answer.vehicles ≡ some js)
          × (map (λ (j : VehicleJson D). j.station_id) js ≡ station_ids (sent_entries near))
  unfolding make_sldm_json
  make_sldm_json-sent range_m id now event_id s ref found r =
      let near = only (is_near range_m ref.veh_data.lat ref.veh_data.lon) (contents s.ldmmap) in
      let (js, f, ids) = make_vehicles-some now s ref.veh_data near r in
      let second : (lookup id s).1 ≡ some ref = ap (λ u. u.1) found in
      let selected : range_select_around range_m id [] s ≡ (ok, near) =
        range_select_around-only range_m id [] s ∙ simp second in
      (
        js,
        record {
          generation_tstamp = now;
          event_id = event_id;
          event = codes "CLC";
          reference_vehicle_id = id;
          error = codes "OK";
          vehicles = some js;
        },
        simp (make_sldm_json, selected, second, f),
        refl,
        refl,
        ids,
      )
