-- ===== src/AmqpClient/Message/Effect.antt =====
-- What a CAM inside the area does: the database, the trigger manager, and the age check.
use s_ldm.AmqpClient.{
  Cam, ProtonMessage, Header, passenger_car, station_id_of, header_of, gn_header, gn_station_type,
}
use s_ldm.AmqpClient.Message.{
  Client, State, Surroundings, degrees, vehicle_of, is_discarded, may_trigger, check_trigger, store,
  on_cam,
}
use s_ldm.AreaFilter.{is_inside, is_inside_internal}
use s_ldm.Common.{
  ℕ, ◌%◌, ◌^◌, ◌≡◌, ◌≢◌, ◌⊎◌, refl, sym, ap, ◌∙◌, true, false, some, ◌==◌, arith, Bool-cases,
  Option-cases, inl, inr,
}
use s_ldm.Common.Partial.{Yields, Yields-some, some_injective}
use s_ldm.Decoder.Frontend.{DecodedType, decoded_cam}
use s_ldm.Double.{Double}
use s_ldm.Ldm.{entry, History, LdmMap, ok, uint64_max, insert, lookup}
use s_ldm.Ldm.Insert.Effect.{insert-Inserted}
use s_ldm.Ldm.Invariant.{IsValid}
use s_ldm.AmqpClient.Message.Laws.{check_trigger-db}
use s_ldm.Vehicle.{VehicleData}

gn_station_type-hijacked :
    (station_type : ℕ) → (gn_station_type true station_type == passenger_car) ≡ false
unfolding gn_station_type
gn_station_type-hijacked station_type = ground arith

module _ {D : Type 0} ⦃dbl : Double D⦄ (c : Client D) where
  -- what keeps the trigger manager from being called for a position
  abbrev pub IsBlocked : DecodedType → Cam → Type 0
  IsBlocked type cam =
      ((c.opts.cross_border_trigger ≡ false)
        × (is_inside_internal (some c.opts) (degrees cam.latitude) (degrees cam.longitude) ≡ false))
      ⊎ ((c.opts.interop_hijack_enable ≡ true) × (type ≡ decoded_cam))

-- the trigger manager and the started clients are as before
abbrev pub IsUntouched : {D P : Type 0} → State D P → State D P → Type 0
IsUntouched s s' = (s'.trigger ≡ s.trigger) × (s'.rest_clients ≡ s.rest_clients)

module _ {D P : Type 0} ⦃dbl : Double D⦄ (c : Client D) where
  check_trigger-blocked :
      (env : Surroundings) (v : VehicleData D) (s : State D P)
      → may_trigger c v ≡ false
      → check_trigger c env v s ≡ s
  unfolding check_trigger
  check_trigger-blocked env v s h = elim (Option-cases v.exterior_lights) [
    | inl e ↦ simp (check_trigger, e)
    | inr (lights, e) ↦ simp (check_trigger, e, h)
  ]

  may_trigger-blocked :
      (env : Surroundings) (msg : ProtonMessage) (type : DecodedType) (gn_timestamp : ℕ) (cam : Cam)
      (db : LdmMap D P) (header : Header)
      → IsBlocked c type cam
      → header_of c.opts msg type gn_timestamp cam db ≡ some header
      → may_trigger c (vehicle_of env msg cam header) ≡ false
  unfolding may_trigger vehicle_of header_of gn_header
  may_trigger-blocked env msg type gn_timestamp cam db header (inl (a, b)) h = ground (arith, a, b)
  may_trigger-blocked env msg type gn_timestamp cam db header (inr (a, b)) h =
      let e : some (gn_header c.opts gn_timestamp cam db) ≡ some header = rw b at h in
      let same = some_injective (gn_header c.opts gn_timestamp cam db) header e in
      let type_eq : header.station_type ≡ gn_station_type true cam.station_type =
        sym (ap (λ (u : Header). u.station_type) same)
        ∙ ap (λ i. gn_station_type i cam.station_type) a in
      let hijacked : (header.station_type == passenger_car) ≡ false =
        rw type_eq (gn_station_type-hijacked cam.station_type) in
      ground (arith, a, hijacked)

  store-blocked :
      ⦃hist : History D P⦄ (env : Surroundings) (msg : ProtonMessage) (cam : Cam) (header : Header)
      (s : State D P)
      → may_trigger c (vehicle_of env msg cam header) ≡ false
      → Yields (IsUntouched s) (store c env msg cam header s)
  unfolding store
  store-blocked env msg cam header s h =
      let v = vehicle_of env msg cam header in
      elim (Bool-cases (is_discarded c cam header s.db)) [
        | inl e ↦ rw e (refl, refl)
        | inr e ↦ rw e (elim (Option-cases (insert v s.db)) [
          | inl f ↦ rw f tt
          | inr ((status, db), f) ↦
              let same = check_trigger-blocked env v (record s { db = db }) h in
              rw f (ap (λ u. u.trigger) same, ap (λ u. u.rest_clients) same)
        ])
      ]

  on_cam-Yields :
      ⦃hist : History D P⦄ (env : Surroundings) (msg : ProtonMessage) (type : DecodedType)
      (gn_timestamp : ℕ) (cam : Cam) (s : State D P)
      → IsBlocked c type cam
      → Yields (IsUntouched s) (on_cam c env msg type gn_timestamp cam s)
  unfolding on_cam
  on_cam-Yields env msg type gn_timestamp cam s h =
      elim (Bool-cases (is_inside (some c.opts) (degrees cam.latitude) (degrees cam.longitude))) [
        | inr e ↦ rw e (refl, refl)
        | inl e ↦ rw e (elim (Option-cases (header_of c.opts msg type gn_timestamp cam s.db)) [
          | inl f ↦ rw f tt
          | inr (header, f) ↦ rw f (
              store-blocked env msg cam header s
                (may_trigger-blocked env msg type gn_timestamp cam s.db header h f))
        ])
      ]

  -- A CAM triggers nothing, so that the trigger manager and the started clients stay as they are,
  -- where its position is not in the internal area and the cross-border trigger is off, and where
  -- it has a GeoNetworking header and the interoperability option is on.
  pub on_cam-no_trigger :
      ⦃hist : History D P⦄ (env : Surroundings) (msg : ProtonMessage) (type : DecodedType)
      (gn_timestamp : ℕ) (cam : Cam) (s s' : State D P)
      → IsBlocked c type cam
      → on_cam c env msg type gn_timestamp cam s ≡ some s'
      → IsUntouched s s'
  on_cam-no_trigger env msg type gn_timestamp cam s s' b h =
      Yields-some (IsUntouched s) (on_cam c env msg type gn_timestamp cam s) s'
        (on_cam-Yields env msg type gn_timestamp cam s b) h

  module _ ⦃hist : History D P⦄ (env : Surroundings) (msg : ProtonMessage) (type : DecodedType)
      (gn_timestamp : ℕ) (cam : Cam) (s : State D P) (header : Header) where
    -- A CAM inside the area that is not discarded is stored: in a valid database with room, the
    -- client returns; the lookup of its station ID then gives the data of this message, and that of
    -- a station ID with other low 32 bits gives what it gave before.
    pub on_cam-stored :
        IsValid s.db
        → s.db.card ≢ uint64_max
        → is_inside (some c.opts) (degrees cam.latitude) (degrees cam.longitude) ≡ true
        → header_of c.opts msg type gn_timestamp cam s.db ≡ some header
        → is_discarded c cam header s.db ≡ false
        → (other : ℕ) → other % 2 ^ 32 ≢ station_id_of cam % 2 ^ 32
        → (s' : State D P) × (on_cam c env msg type gn_timestamp cam s ≡ some s')
          × IsValid s'.db
          × ((p : ℕ) × (lookup (station_id_of cam) s'.db
                ≡ (ok, some (entry (vehicle_of env msg cam header) p))))
          × (lookup other s'.db ≡ lookup other s.db)
    unfolding on_cam store vehicle_of
    on_cam-stored valid room inside e kept other apart =
        let v = vehicle_of env msg cam header in
        let ((status, db), f, i) = insert-Inserted v s.db valid room in
        let s' = check_trigger c env v (record s { db = db }) in
        let same : s'.db ≡ db = check_trigger-db c env v (record s { db = db }) in
        let (p, found, _) = i.there in
        (
          s',
          simp (inside, e, kept, f),
          rw same i.valid,
          (p, rw same found),
          rw same (i.others other apart),
        )
