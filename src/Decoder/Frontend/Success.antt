-- ===== src/Decoder/Frontend/Success.antt =====
-- What a success of `decodeEtsi` means.
use s_ldm.Common.{
  ◌∙◌, ◌↔◌, ◌==◌, Bool-cases, Bool, true, false, Option, none, refl, ap, sym, ◌≡◌, ◌≢◌, ◌⊎◌, inl,
  inr, some, arith, length, Option-cases,
}
use s_ldm.Common.Partial.{some_injective, none_ne_some}
use s_ldm.Decoder.Frontend.{
  MsgType, decode_payload, decoded_cam, decoded_denm, decoded_cam_nogn, decoded_denm_nogn, Asn,
  DecodedData, DecodedType, decode_its, decode_facility, decode_etsi, is_geo_net, finish,
  decoder_ok, cam, denm,
}
use s_ldm.Decoder.Btp.{ca_port, den_port, BtpError, btp_ok, decode_btp, BtpDataIndication}
use s_ldm.Decoder.Bytes.{Bytes, byte}
use s_ldm.Decoder.GeoNet.{GnError, gn_ok, GnDataIndication, decode_gn}
use s_ldm.Double.{Double}

GnError-cases : (e : GnError) → (e ≡ gn_ok) ⊎ (e ≢ gn_ok)
GnError-cases gn_ok = inl refl
GnError-cases _ = inr (ground arith)

BtpError-cases : (e : BtpError) → (e ≡ btp_ok) ⊎ (e ≢ btp_ok)
BtpError-cases btp_ok = inl refl
BtpError-cases _ = inr (ground arith)

module _ {D M : Type 0} ⦃dbl : Double D⦄ ⦃asn : Asn M⦄ (gn0 : GnDataIndication D)
    (btp0 : BtpDataIndication D) (out : DecodedData M) where
  -- A full packet whose headers are refused, by `decodeGN` or, where that accepts, by `decodeBTP`.
  abbrev pub IsRefused : Bytes → Type 0
  IsRefused buffer =
      ((e : GnError) × (gn : GnDataIndication D) × (decode_gn buffer gn0 ≡ some (e, gn))
        × (e ≢ gn_ok))
      ⊎ ((gn : GnDataIndication D) × (e : BtpError) × (btp : BtpDataIndication D) × (decode_gn
              buffer gn0
            ≡ some (gn_ok, gn))
          × (decode_btp gn btp0 ≡ some (e, btp))
          × (e ≢ btp_ok))

  -- The ASN.1 decoder returns a message, and the output is `o` with it.
  abbrev pub IsFinished : Bool × Option M → DecodedData M → DecodedData M → Type 0
  IsFinished got o r = (m : M) × (got ≡ (true, some m)) × (r ≡ record o { decoded_msg = some m })

  -- the output of a full packet, with the time of its sender
  abbrev pub timed : GnDataIndication D → DecodedType → DecodedData M
  timed gn type = record out { type = type; gn_timestamp = gn.source_pv.tst }

  -- A CAM or a DENM was decoded behind the two headers, as the port says.
  abbrev pub IsFullPacket : Bytes → DecodedData M → Type 0
  IsFullPacket buffer r =
      (gn : GnDataIndication D) × (btp : BtpDataIndication D) × (decode_gn buffer gn0
        ≡ some (gn_ok, gn))
      × (decode_btp gn btp0 ≡ some (btp_ok, btp))
      × (((btp.dest_port ≡ ca_port)
            × IsFinished (asn.asn_cam btp.payload btp.lenght) (timed gn decoded_cam) r)
          ⊎ ((btp.dest_port ≡ den_port)
              × IsFinished (asn.asn_denm btp.payload btp.lenght)
                  (record (timed gn decoded_denm) {
                    pos_lat = gn.gn_address_dest.pos_lat;
                    pos_long = gn.gn_address_dest.pos_long;
                    dist_a = gn.gn_address_dest.dist_a;
                    dist_b = gn.gn_address_dest.dist_b;
                    angle = gn.gn_address_dest.angle;
                  })
                  r))

  -- A CAM or a DENM was decoded from the whole buffer, as the second byte says.
  abbrev pub IsFacility : Bytes → DecodedData M → Type 0
  IsFacility buffer r =
      ((byte 1 buffer ≡ some cam)
        × IsFinished (asn.asn_cam buffer (length buffer)) (record out { type = decoded_cam_nogn })
            r)
      ⊎ ((byte 1 buffer ≡ some denm)
          × IsFinished (asn.asn_denm buffer (length buffer))
              (record out { type = decoded_denm_nogn }) r)

  -- what the result `ETSI_DECODER_OK` means
  abbrev pub IsSuccess : MsgType → Bytes → DecodedData M → Type 0
  IsSuccess msgtype buffer r =
      (length buffer ≢ 0)
      × (((is_geo_net msgtype buffer ≡ some true)
            × (IsFullPacket buffer r ⊎ (IsRefused buffer × (r ≡ out))))
          ⊎ ((is_geo_net msgtype buffer ≡ some false) × IsFacility buffer r))

  finish-ok :
      (got : Bool × Option M) (o r : DecodedData M)
      → finish got o ≡ (decoder_ok, r)
      → IsFinished got o r
  unfolding finish
  finish-ok (true, some m) o r h = (m, refl, ap (λ x. x.1) (sym h))
  finish-ok (true, none) o r h = absurd (omega (arith, ap (λ x. x.0) h))
  finish-ok (false, msg) o r h = absurd (omega (arith, ap (λ x. x.0) h))

  finish-IsFinished :
      (got : Bool × Option M) (o r : DecodedData M)
      → IsFinished got o r
      → finish got o ≡ (decoder_ok, r)
  unfolding finish
  finish-IsFinished got o r (m, e, f) = rw (e, f) refl

  decode_facility-ok :
      (buffer : Bytes) (r : DecodedData M)
      → decode_facility buffer out ≡ some (decoder_ok, r)
      → IsFacility buffer r
  unfolding decode_facility
  decode_facility-ok buffer r h = elim (Option-cases (byte 1 buffer)) [
    | inl e ↦ absurd (ground arith)
    | inr (id, e) ↦ elim (Bool-cases (id == cam)) [
      | inl c ↦
          inl (e ∙ ap some (ground arith), finish-ok _ _ r (some_injective _ _ (rw (e, c) at h)))
      | inr c ↦ elim (Bool-cases (id == denm)) [
        | inl d ↦
            inr
              (e ∙ ap some (ground arith), finish-ok _ _ r (some_injective _ _ (rw (e, c, d) at h)))
        | inr d ↦ absurd (omega (arith, ap (λ x. x.0) (some_injective _ _ (rw (e, c, d) at h))))
      ]
    ]
  ]

  decode_its-IsFullPacket :
      (buffer : Bytes) (r : DecodedData M)
      → IsFullPacket buffer r
      → decode_its buffer gn0 btp0 out ≡ some (decoder_ok, r)
  unfolding decode_its decode_payload
  decode_its-IsFullPacket buffer r (gn, btp, e, f, inl (port, g)) =
      rw (e, f, port) (ap some (finish-IsFinished _ _ r g))
  decode_its-IsFullPacket buffer r (gn, btp, e, f, inr (port, g)) =
      rw (e, f, port) (ap some (finish-IsFinished _ _ r g))

  decode_its-IsRefused :
      (buffer : Bytes) → IsRefused buffer → decode_its buffer gn0 btp0 out ≡ some (decoder_ok, out)
  unfolding decode_its
  decode_its-IsRefused buffer (inl (e, gn, f, bad)) = ground arith
  decode_its-IsRefused buffer (inr (gn, e, btp, f, g, bad)) = ground arith

  decode_facility-IsFacility :
      (buffer : Bytes) (r : DecodedData M)
      → IsFacility buffer r
      → decode_facility buffer out ≡ some (decoder_ok, r)
  unfolding decode_facility
  decode_facility-IsFacility buffer r (inl (e, g)) = rw e (ap some (finish-IsFinished _ _ r g))
  decode_facility-IsFacility buffer r (inr (e, g)) = rw e (ap some (finish-IsFinished _ _ r g))

  decode_payload-ok :
      (gn : GnDataIndication D) (btp : BtpDataIndication D) (buffer : Bytes) (r : DecodedData M)
      → decode_gn buffer gn0 ≡ some (gn_ok, gn)
      → decode_btp gn btp0 ≡ some (btp_ok, btp)
      → decode_payload gn btp out ≡ (decoder_ok, r)
      → IsFullPacket buffer r
  unfolding decode_payload
  decode_payload-ok gn btp buffer r e f h = elim (Bool-cases (btp.dest_port == ca_port)) [
    | inl c ↦ (gn, btp, e, f, inl (ground arith, finish-ok _ _ r (rw c at h)))
    | inr c ↦ elim (Bool-cases (btp.dest_port == den_port)) [
      | inl d ↦ (gn, btp, e, f, inr (ground arith, finish-ok _ _ r (rw (c, d) at h)))
      | inr d ↦ absurd (omega (arith, ap (λ x. x.0) (rw (c, d) at h)))
    ]
  ]

  refused-out :
      (buffer : Bytes) (r : DecodedData M)
      → decode_its buffer gn0 btp0 out ≡ some (decoder_ok, r)
      → IsRefused buffer
      → r ≡ out
  refused-out buffer r h bad =
      ap (λ x. x.1) (some_injective _ _ (sym h ∙ decode_its-IsRefused buffer bad))

  decode_its-ok :
      (buffer : Bytes) (r : DecodedData M)
      → decode_its buffer gn0 btp0 out ≡ some (decoder_ok, r)
      → IsFullPacket buffer r ⊎ (IsRefused buffer × (r ≡ out))
  unfolding decode_its
  decode_its-ok buffer r h = elim (Option-cases (decode_gn buffer gn0)) [
    | inl e ↦ absurd (none_ne_some _ (rw e at h))
    | inr ((code, gn), e) ↦ elim (GnError-cases code) [
      | inr bad ↦
          let refused : IsRefused buffer = inl (code, gn, e, bad) in
          inr (refused, refused-out buffer r h refused)
      | inl good ↦
          let e' : decode_gn buffer gn0 ≡ some (gn_ok, gn) = e ∙ ap (λ c. some (c, gn)) good in
          elim (Option-cases (decode_btp gn btp0)) [
            | inl f ↦ absurd (none_ne_some _ (rw (e', f) at h))
            | inr ((code', btp), f) ↦ elim (BtpError-cases code') [
              | inr bad ↦
                  let refused : IsRefused buffer = inr (gn, code', btp, e', f, bad) in
                  inr (refused, refused-out buffer r h refused)
              | inl good' ↦
                  let f' : decode_btp gn btp0 ≡ some (btp_ok, btp) =
                    f ∙ ap (λ c. some (c, btp)) good' in
                  inl (
                    decode_payload-ok gn btp buffer r e' f' (some_injective _ _ (rw (e', f') at h)))
            ]
          ]
    ]
  ]

  -- Whatever the message type that is asked for, `decodeEtsi` reports a success for a buffer exactly
  -- where this is not empty and one of three things holds: the buffer is detected as a full packet,
  -- both headers are accepted, and the ASN.1 decoder returns a message for the payload as the port
  -- says; or it is detected as a message without headers, and the ASN.1 decoder returns one for the
  -- whole buffer as the second byte says; or it is detected as a full packet and one of its two
  -- headers is refused. In the last case the output is as it was before the call.
  pub decode_etsi-IsSuccess :
      (msgtype : MsgType) (buffer : Bytes) (r : DecodedData M)
      → (decode_etsi msgtype buffer gn0 btp0 out ≡ some (decoder_ok, r))
        ↔ IsSuccess msgtype buffer r
  unfolding decode_etsi
  decode_etsi-IsSuccess msgtype buffer r = (
    λ h. elim (Bool-cases (length buffer == 0)) [
      | inl z ↦ absurd (omega (arith, ap (λ x. x.0) (some_injective _ _ (rw z at h))))
      | inr z ↦ elim (Option-cases (is_geo_net msgtype buffer)) [
        | inl e ↦ absurd (none_ne_some _ (rw (z, e) at h))
        | inr (true, e) ↦ (ground arith, inl (e, decode_its-ok buffer r (rw (z, e) at h)))
        | inr (false, e) ↦ (ground arith, inr (e, decode_facility-ok buffer r (rw (z, e) at h)))
      ]
    ],
    λ (full, cases). elim (Bool-cases (length buffer == 0)) [
      | inl z ↦ absurd (ground arith)
      | inr z ↦ elim cases [
        | inl (e, inl p) ↦ rw (z, e) (decode_its-IsFullPacket buffer r p)
        | inl (e, inr (p, q)) ↦ rw (z, e, q) (decode_its-IsRefused buffer p)
        | inr (e, p) ↦ rw (z, e) (decode_facility-IsFacility buffer r p)
      ]
    ],
  )
