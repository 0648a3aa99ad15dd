-- ===== src/System/Answers.antt =====
-- What is made for the two kinds of clients in a state that the running program reaches. The path
-- histories are the arrays of src/PHpoints.cpp.
use s_ldm.AmqpClient.{CamView}
use s_ldm.Common.{
  ℕ, ◌≡◌, some, List, [], ◌∷◌, map, length, arith, All, Bool-cases, Option-cases, inl, inr, ◌==◌,
  if◌then◌else◌,
}
use s_ldm.Decoder.Frontend.{Asn}
use s_ldm.Dict
use s_ldm.Dict.{Dict}
use s_ldm.Double.{Double}
use s_ldm.JsonServer
use s_ldm.JsonServer.Content.{IsReadable, station_ids, make_sldm_json_lem}
use s_ldm.Ldm.{Entry, LdmMap, ok, lookup}
use s_ldm.Ldm.Contents.{contents, only, is_near}
use s_ldm.Ldm.Invariant.{IsValid}
use s_ldm.Ldm.Listing.{All-only, All-pointers}
use s_ldm.Options.{Options, codes}
use s_ldm.PathHistory.{PhData, PhPoints}
use s_ldm.PathHistory.Ring.{IsRing}
use s_ldm.PathHistory.Stored.{RingPoints, ring_history}
use s_ldm.RestClient
use s_ldm.RestClient.Content.{sent_entries, make_sldm_json-sent}
use s_ldm.System.{System, initial, Reach}
use s_ldm.System.Safety.{Reach-IsSound}

module _ {D : Type 0} where
  -- the heap and the database without the proofs that the indices are inside
  abbrev arrays : Dict (RingPoints D) → Dict (PhPoints D)
  arrays [] = []
  arrays ((k, p) ∷ m) = (k, p.0) ∷ arrays m

  abbrev pub plain : LdmMap D (RingPoints D) → LdmMap D (PhPoints D)
  plain s = record {
    ldmmap = s.ldmmap;
    card = s.card;
    central_lat = s.central_lat;
    central_lon = s.central_lon;
    heap = arrays s.heap;
    next = s.next;
  }

  find-arrays :
      (k : ℕ) (m : Dict (RingPoints D)) (p : RingPoints D)
      → Dict.find k m ≡ some p
      → Dict.find k (arrays m) ≡ some p.0
  unfolding Dict.find
  find-arrays k [] p f = absurd (ground arith)
  find-arrays k ((j, q) ∷ m) p f = elim (Bool-cases (j == k)) [
    | inl e ↦ ground (arith, e, f)
    | inr e ↦ ground (arith, e, find-arrays k m p)
  ]

  -- In a valid database, the history of every entry can be read.
  plain-IsReadable :
      (s : LdmMap D (RingPoints D)) → IsValid s → All (IsReadable (plain s)) (contents s.ldmmap)
  plain-IsReadable s valid =
      All-pointers (λ q. (p : PhPoints D) × (Dict.find q (arrays s.heap) ≡ some p) × IsRing p)
        s.ldmmap
        λ q used. elim (Option-cases (Dict.find q s.heap)) [
          | inl e ↦ absurd (ground (arith, valid.owned q used))
          | inr (p, e) ↦ (p.0, find-arrays q s.heap p e, p.1)
        ]

module _ {D : Type 0} ⦃dbl : Double D⦄ (M : Type 0) ⦃asn : Asn M⦄ ⦃cams : CamView M⦄ (o : Options D)
    (stored_distance : D) (memory : List (PhData D)) (full : length memory ≡ 300) where
  -- the program reaches the state
  abbrev pub IsReached : System D (RingPoints D) → Type 0
  IsReached s = Reach ⦃hist = ring_history stored_distance memory full⦄ M o (initial o) s

  IsReached-IsReadable :
      (s : System D (RingPoints D))
      → IsReached s
      → All (IsReadable (plain s.clients.db)) (contents s.clients.db.ldmmap)
  IsReached-IsReadable s r =
      plain-IsReadable s.clients.db
        (Reach-IsSound ⦃hist = ring_history stored_distance memory full⦄ M o s r).db.valid

  -- In every reachable state, and for every position and range, `make_SLDM_json` of the JSON server
  -- returns: its loops over the vehicles and over their path histories end. The document it returns
  -- has one element for each entry of the database within the range asked for, or within the default
  -- range where that is not positive, with its station ID and in the order of the database. Whether
  -- the thread of the server gets to the request is no part of this.
  pub Reach-listed :
      (s : System D (RingPoints D)) (default_range : D) (now : ℕ) (lat lon range : D)
      → IsReached s
      → let used = if dbl.le range (dbl.of_ℕ 0) then default_range else range in
        (js : List (JsonServer.VehicleJson D)) × (answer : JsonServer.SldmJson D)
        × (JsonServer.make_sldm_json default_range now (plain s.clients.db) lat lon range
            ≡ some answer)
        × (answer.vehicles ≡ some js)
        × (map (λ (j : JsonServer.VehicleJson D). j.station_id) js
            ≡ station_ids (only (is_near used lat lon) (contents s.clients.db.ldmmap)))
  Reach-listed s default_range now lat lon range r =
      let used = if dbl.le range (dbl.of_ℕ 0) then default_range else range in
      make_sldm_json_lem default_range now (plain s.clients.db) lat lon range (
        All-only (IsReadable (plain s.clients.db)) (is_near used lat lon)
          (contents s.clients.db.ldmmap) (IsReached-IsReadable s r))

  -- In every reachable state, what a client of the Maneuvering Service is to send for a vehicle that
  -- the database has is made, and lists just the passenger cars, and the vehicles stored in their
  -- place, within the range of that vehicle.
  pub Reach-sent :
      ⦃geodesic : RestClient.Geodesic D⦄ (s : System D (RingPoints D)) (range_m : D)
      (id now event_id : ℕ) (ref : Entry D)
      → IsReached s
      → lookup id (plain s.clients.db) ≡ (ok, some ref)
      → let near =
          only (is_near range_m ref.veh_data.lat ref.veh_data.lon) (contents s.clients.db.ldmmap) in
        (js : List (RestClient.VehicleJson D)) × (answer : RestClient.SldmJson D)
        × (RestClient.make_sldm_json range_m id now event_id (plain s.clients.db) ≡ some answer)
        × (answer.error ≡ codes "OK")
        × (answer.vehicles ≡ some js)
        × (map (λ (j : RestClient.VehicleJson D). j.station_id) js
            ≡ station_ids (sent_entries near))
  Reach-sent s range_m id now event_id ref r found =
      make_sldm_json-sent range_m id now event_id (plain s.clients.db) ref found (
        All-only (IsReadable (plain s.clients.db))
          (is_near range_m ref.veh_data.lat ref.veh_data.lon) (contents s.clients.db.ldmmap)
          (IsReached-IsReadable s r))
