-- ===== src/AmqpClient/Message/Unlogged.antt =====
-- The age check of a client that writes no log.
use s_ldm.AmqpClient.{
  Cam, CamView, ProtonMessage, Header, header_of, gn_header, facility_header, property_header,
}
use s_ldm.AmqpClient.Message.{
  Client, State, Surroundings, Memory, is_cam, degrees, is_discarded, may_trigger, check_trigger,
  store, on_cam, on_decoded, on_message,
}
use s_ldm.AreaFilter.{is_inside, is_inside_internal}
use s_ldm.Common.{
  ℕ, ◌≡◌, refl, ◌∙◌, true, false, Option, some, arith, Bool-cases, Option-cases, inl, inr,
}
use s_ldm.Decoder.Bytes.{Bytes}
use s_ldm.Decoder.Frontend.{Asn, DecodedData, DecodedType, decoded_cam, decode_etsi, msgtype_auto}
use s_ldm.Double.{Double}
use s_ldm.Ldm.{History, LdmMap}

module _ {D : Type 0} where
  -- the same client with the option -g
  abbrev pub without_age_check : Client D → Client D
  without_age_check c = record c { opts = record c.opts { age_check_enabled = false } }

module _ {D : Type 0} ⦃dbl : Double D⦄ (c : Client D) where
  is_inside-without :
      (lat lon : D)
      → is_inside (some (without_age_check c).opts) lat lon ≡ is_inside (some c.opts) lat lon
  unfolding is_inside
  is_inside-without lat lon = refl

module _ {D P : Type 0} (c : Client D) (msg : ProtonMessage) where
  header_of-without :
      (type : DecodedType) (gn_timestamp : ℕ) (cam : Cam) (db : LdmMap D P)
      → header_of (without_age_check c).opts msg type gn_timestamp cam db
        ≡ header_of c.opts msg type gn_timestamp cam db
  unfolding header_of gn_header facility_header property_header
  header_of-without decoded_cam gn_timestamp cam db = refl
  header_of-without _ gn_timestamp cam db = refl

module _ {D P : Type 0} (c : Client D) (unlogged : c.logging ≡ false) where
  kept : (cam : Cam) (header : Header) (db : LdmMap D P) → is_discarded c cam header db ≡ false
  unfolding is_discarded
  kept cam header db = ground (arith, unlogged)

  module _ ⦃dbl : Double D⦄ ⦃hist : History D P⦄ (env : Surroundings) (msg : ProtonMessage)
      (s : State D P) where
    store-without :
        (cam : Cam) (header : Header)
        → store c env msg cam header s ≡ store (without_age_check c) env msg cam header s
    unfolding store check_trigger may_trigger is_inside_internal
    store-without cam header = simp (kept cam header s.db)

    on_cam-without :
        (type : DecodedType) (gn_timestamp : ℕ) (cam : Cam)
        → on_cam c env msg type gn_timestamp cam s
          ≡ on_cam (without_age_check c) env msg type gn_timestamp cam s
    unfolding on_cam
    on_cam-without type gn_timestamp cam =
        let lat = degrees cam.latitude in
        let lon = degrees cam.longitude in
        elim (Bool-cases (is_inside (some c.opts) lat lon)) [
          | inr e ↦
              let e' : is_inside (some (without_age_check c).opts) lat lon ≡ false =
                is_inside-without c lat lon ∙ e in
              simp (e, e')
          | inl e ↦
              let e' : is_inside (some (without_age_check c).opts) lat lon ≡ true =
                is_inside-without c lat lon ∙ e in
              let same = header_of-without c msg type gn_timestamp cam s.db in
              elim (Option-cases (header_of c.opts msg type gn_timestamp cam s.db)) [
                | inl f ↦ simp (e, e', same, f)
                | inr (header, f) ↦ simp (e, e', same, f) (store-without cam header)
              ]
        ]

    module _ {M : Type 0} ⦃asn : Asn M⦄ ⦃cams : CamView M⦄ where
      on_decoded-without :
          (decoded : DecodedData M)
          → on_decoded c env msg decoded s ≡ on_decoded (without_age_check c) env msg decoded s
      unfolding on_decoded
      on_decoded-without decoded = elim (Bool-cases (is_cam decoded.type)) [
        | inr e ↦ simp e
        | inl e ↦ elim (Option-cases decoded.decoded_msg) [
          | inl f ↦ simp (e, f)
          | inr (m, f) ↦
              simp (e, f) (on_cam-without decoded.type decoded.gn_timestamp (cams.view m))
        ]
      ]

      -- The age check works only in a client that writes a log: without one, each message does what
      -- it does with the check switched off.
      pub on_message-without_age_check :
          (memory : Memory D M)
          → on_message c env memory msg s ≡ on_message (without_age_check c) env memory msg s
      unfolding on_message
      on_message-without_age_check memory = elim (Option-cases msg.body) [
        | inl e ↦ simp (on_message, e)
        | inr (body, e) ↦ elim (Option-cases (decoding memory body)) [
          | inl f ↦ simp (on_message, e, f)
          | inr ((code, decoded), f) ↦ simp (on_message, e, f, on_decoded-without decoded)
        ]
      ]
        where
          decoding : Memory D M → Bytes → Option (ℕ × DecodedData M)
          decoding memory body = decode_etsi msgtype_auto body memory.gn memory.btp memory.decoded
