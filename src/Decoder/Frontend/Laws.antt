-- ===== src/Decoder/Frontend/Laws.antt =====
-- What the caller of `decodeEtsi` can rely on, and what it cannot.
use s_ldm.Common.{◌≡◌, ◌≤◌, ◌⊎◌, inl, inr, some, arith, length, Option-cases}
use s_ldm.Decoder.Frontend.{
  Asn, msgtype_facilityonly, DecodedData, DecodedType, decode_facility, decode_etsi, is_geo_net,
  finish, decoder_ok, cam, denm,
}
use s_ldm.Decoder.Btp.{BtpDataIndication}
use s_ldm.Decoder.Bytes.{Bytes, byte}
use s_ldm.Decoder.GeoNet.{GnDataIndication}
use s_ldm.Decoder.Headers.Reads.{Succeeds, byte-Succeeds}
use s_ldm.Double.{Double}

module _ {D M : Type 0} ⦃dbl : Double D⦄ ⦃asn : Asn M⦄ (gn0 : GnDataIndication D)
    (btp0 : BtpDataIndication D) (out : DecodedData M) where
  -- A buffer of two bytes or more is decoded without the two headers with no read out of it.
  pub decode_etsi_facility-Succeeds :
      (buffer : Bytes)
      → 2 ≤ length buffer
      → Succeeds (decode_etsi msgtype_facilityonly buffer gn0 btp0 out)
  unfolding decode_etsi is_geo_net decode_facility finish
  decode_etsi_facility-Succeeds buffer long = elim (Option-cases (byte 1 buffer)) [
    | inl e ↦ absurd (ground (arith, byte-Succeeds 1 buffer long))
    | inr (id, e) ↦ ground arith
  ]

  -- Without the two headers a success is a CAM or a DENM, as the second byte says, with the message
  -- that the ASN.1 decoder returns for the whole buffer.
  pub decode_etsi_facility :
      (buffer : Bytes) (r : DecodedData M)
      → decode_etsi msgtype_facilityonly buffer gn0 btp0 out ≡ some (decoder_ok, r)
      → ((byte 1 buffer ≡ some cam)
          × (r.type ≡ DecodedType.decoded_cam_nogn)
          × (r.decoded_msg ≡ (asn.asn_cam buffer (length buffer)).1))
        ⊎ ((byte 1 buffer ≡ some denm)
            × (r.type ≡ DecodedType.decoded_denm_nogn)
            × (r.decoded_msg ≡ (asn.asn_denm buffer (length buffer)).1))
  unfolding decode_etsi is_geo_net decode_facility finish
  decode_etsi_facility buffer r h = elim (Option-cases (byte 1 buffer)) [
    | inl e ↦ absurd (ground arith)
    | inr (id, e) ↦ ground arith
  ]
