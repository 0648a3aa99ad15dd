-- ===== src/AmqpClient/Message/Laws.antt =====
-- What a message does to the database and to the trigger manager.
use s_ldm.AmqpClient.{Cam, CamView, ProtonMessage, Header, header_of}
use s_ldm.AmqpClient.Message.{
  Client, State, Surroundings, Memory, is_cam, degrees, vehicle_of, is_discarded, call_trigger,
  check_trigger, store, on_cam, on_decoded, on_message,
}
use s_ldm.AreaFilter.{is_inside}
use s_ldm.Common.{
  ℕ, ◌≡◌, ◌⊎◌, refl, sym, ap, ◌∙◌, true, Option, none, some, ◌==◌, arith, Bool-cases, Option-cases,
  inl, inr,
}
use s_ldm.Common.Partial.{Yields, Yields-some, Yields-imp, some_injective, none_ne_some}
use s_ldm.Decoder.Bytes.{Bytes}
use s_ldm.Decoder.Frontend.{Asn, DecodedData, DecodedType, decoder_ok, decode_etsi, msgtype_auto}
use s_ldm.Double.{Double}
use s_ldm.Ldm.{History, LdmMap, LdmMapError, insert}
use s_ldm.Vehicle.{VehicleData}

module _ {D P : Type 0} ⦃dbl : Double D⦄ where
  pub check_trigger-db :
      (c : Client D) (env : Surroundings) (v : VehicleData D) (s : State D P)
      → (check_trigger c env v s).db ≡ s.db
  unfolding check_trigger call_trigger
  check_trigger-db c env v s = ground arith

  module _ ⦃hist : History D P⦄ (c : Client D) (env : Surroundings) (msg : ProtonMessage)
      (s : State D P) where
    -- the database after the insertion of a vehicle
    abbrev pub IsInserted : VehicleData D → LdmMap D P → Type 0
    IsInserted v db = (status : LdmMapError) × (insert v s.db ≡ some (status, db))

    store-db :
        (cam : Cam) (header : Header)
        → Yields
            (λ (s' : State D P). (s'.db ≡ s.db) ⊎ IsInserted (vehicle_of env msg cam header) s'.db)
            (store c env msg cam header s)
    unfolding store
    store-db cam header = elim (Bool-cases (is_discarded c cam header s.db)) [
      | inl e ↦ rw e (inl refl)
      | inr e ↦
          let v = vehicle_of env msg cam header in
          rw e (elim (Option-cases (insert v s.db)) [
            | inl f ↦ rw f tt
            | inr ((status, db), f) ↦
                let kept = check_trigger-db c env v (record s { db = db }) in
                rw f (inr (status, rw kept refl))
          ])
    ]

    -- a CAM inside the area, and the data that is stored for it
    pub record IsStored (type : DecodedType) (gn_timestamp : ℕ) (cam : Cam) (db : LdmMap D P)
        : Type 0 where
      pub inside : is_inside (some c.opts) (degrees cam.latitude) (degrees cam.longitude) ≡ true
      pub header : Header
      pub header_eq : header_of c.opts msg type gn_timestamp cam s.db ≡ some header
      pub inserted : IsInserted (vehicle_of env msg cam header) db

    on_cam-Yields :
        (type : DecodedType) (gn_timestamp : ℕ) (cam : Cam)
        → Yields
            (λ (s' : State D P). (s'.db ≡ s.db) ⊎ IsStored type gn_timestamp cam s'.db)
            (on_cam c env msg type gn_timestamp cam s)
    unfolding on_cam
    on_cam-Yields type gn_timestamp cam =
        elim (Bool-cases (is_inside (some c.opts) (degrees cam.latitude) (degrees cam.longitude))) [
          | inr e ↦ rw e (inl refl)
          | inl e ↦ rw e (elim (Option-cases (header_of c.opts msg type gn_timestamp cam s.db)) [
            | inl f ↦ rw f tt
            | inr (header, f) ↦ rw f (
                Yields-imp _ _ (store c env msg cam header s) (store-db cam header) λ s' cases.
                  elim cases [
                    | inl same ↦ inl same
                    | inr new ↦
                        inr (record { inside = e; header = header; header_eq = f; inserted = new })
                  ])
          ])
        ]

    on_cam-db :
        (type : DecodedType) (gn_timestamp : ℕ) (cam : Cam) (s' : State D P)
        → on_cam c env msg type gn_timestamp cam s ≡ some s'
        → (s'.db ≡ s.db) ⊎ IsStored type gn_timestamp cam s'.db
    on_cam-db type gn_timestamp cam s' h =
        Yields-some (λ (s' : State D P). (s'.db ≡ s.db) ⊎ IsStored type gn_timestamp cam s'.db)
          (on_cam c env msg type gn_timestamp cam s) s' (on_cam-Yields type gn_timestamp cam) h

    module _ {M : Type 0} ⦃asn : Asn M⦄ ⦃cams : CamView M⦄ (memory : Memory D M) where
      -- the decoded message is a CAM, and its data is stored
      pub record IsCam (decoded : DecodedData M) (db : LdmMap D P) : Type 0 where
        pub type : is_cam decoded.type ≡ true
        pub cam : M
        pub cam_eq : decoded.decoded_msg ≡ some cam
        pub stored : IsStored decoded.type decoded.gn_timestamp (cams.view cam) db

      on_decoded-on_cam :
          (decoded : DecodedData M) (m : M)
          → is_cam decoded.type ≡ true
          → decoded.decoded_msg ≡ some m
          → on_decoded c env msg decoded s
            ≡ on_cam c env msg decoded.type decoded.gn_timestamp (cams.view m) s
      unfolding on_decoded
      on_decoded-on_cam decoded m e f = simp (e, f)

      on_decoded-db :
          (decoded : DecodedData M) (s' : State D P)
          → on_decoded c env msg decoded s ≡ some s'
          → (s'.db ≡ s.db) ⊎ IsCam decoded s'.db
      unfolding on_decoded
      on_decoded-db decoded s' h = elim (Bool-cases (is_cam decoded.type)) [
        | inr e ↦
            let same : on_decoded c env msg decoded s ≡ some s = simp e in
            inl (ap (λ u. u.db) (some_injective s' s (sym h ∙ same)))
        | inl e ↦ elim (Option-cases decoded.decoded_msg) [
          | inl f ↦
              let fault : on_decoded c env msg decoded s ≡ none = simp (e, f) in
              absurd (none_ne_some s' (sym fault ∙ h))
          | inr (m, f) ↦
              let g = sym (on_decoded-on_cam decoded m e f) ∙ h in
              elim (on_cam-db decoded.type decoded.gn_timestamp (cams.view m) s' g) [
                | inl same ↦ inl same
                | inr new ↦ inr (record { type = e; cam = m; cam_eq = f; stored = new })
              ]
        ]
      ]

      -- the body of the message is decoded
      pub record IsReceived (db : LdmMap D P) : Type 0 where
        pub body : Bytes
        pub body_eq : msg.body ≡ some body
        pub decoded : DecodedData M
        pub decoded_eq :
            decode_etsi msgtype_auto body memory.gn memory.btp memory.decoded
            ≡ some (decoder_ok, decoded)
        pub content : IsCam decoded db

      -- A message leaves the database as it is, or it is binary and decoded as a CAM whose position
      -- is inside the area, and the database is the one after the insertion of its vehicle.
      pub on_message-db :
          (s' : State D P)
          → on_message c env memory msg s ≡ some s'
          → (s'.db ≡ s.db) ⊎ IsReceived s'.db
      unfolding on_message
      on_message-db s' h = elim (Option-cases msg.body) [
        | inl e ↦
            let same : on_message c env memory msg s ≡ some s = simp (on_message, e) in
            inl (ap (λ u. u.db) (some_injective s' s (sym h ∙ same)))
        | inr (body, e) ↦ elim (Option-cases (decoding body)) [
          | inl f ↦
              let fault : on_message c env memory msg s ≡ none = simp (on_message, e, f) in
              absurd (none_ne_some s' (sym fault ∙ h))
          | inr ((code, decoded), f) ↦ elim (Bool-cases (code == decoder_ok)) [
            | inr g ↦
                let same : on_message c env memory msg s ≡ some s = simp (on_message, e, f, g) in
                inl (ap (λ u. u.db) (some_injective s' s (sym h ∙ same)))
            | inl g ↦
                let ok : code ≡ decoder_ok = ground arith in
                let handled : on_message c env memory msg s ≡ on_decoded c env msg decoded s =
                  simp (on_message, e, f, g) in
                elim (on_decoded-db decoded s' (sym handled ∙ h)) [
                  | inl same ↦ inl same
                  | inr new ↦ inr (record {
                    body = body;
                    body_eq = e;
                    decoded = decoded;
                    decoded_eq = f ∙ ap (λ u. some (u, decoded)) ok;
                    content = new;
                  })
                ]
          ]
        ]
      ]
        where
          decoding : Bytes → Option (ℕ × DecodedData M)
          decoding body = decode_etsi msgtype_auto body memory.gn memory.btp memory.decoded
