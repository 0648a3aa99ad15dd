-- ===== src/Decoder/Frontend.antt =====
-- decoder-module/src/etsiDecoderFrontend.cpp: `decoderFrontend::decodeEtsi`. The ASN.1 decoder is a
-- parameter, and printing is left out.
pub mod Laws
pub mod Success
use s_ldm.Common.{
  ℕ, ◌&&◌, ◌||◌, not, Bool, true, false, Option, none, some, ◌==◌, ltb, if◌then◌else◌, length,
}
use s_ldm.Decoder.Btp.{BtpError, btp_ok, BtpDataIndication, decode_btp, ca_port, den_port}
use s_ldm.Decoder.Bytes.{Bytes, byte, ◌>>=◌}
use s_ldm.Decoder.GeoNet.{GnError, gn_ok, GnDataIndication, decode_gn}
use s_ldm.Double.{Double}

-- `asn_decode` for the two message types: whether its code is `RC_OK`, and the message if its
-- pointer is not null
pub record Asn (M : Type 0) : Type 0 where
  pub asn_cam : Bytes → ℕ → Bool × Option M
  pub asn_denm : Bytes → ℕ → Bool × Option M

-- `msgType_e`
pub data MsgType : Type 0 where
  msgtype_its msgtype_facilityonly msgtype_auto : MsgType

-- `etsiDecodedType_e`
pub data DecodedType : Type 0 where
  decoded_error decoded_cam decoded_denm decoded_ivim decoded_cpm decoded_cam_nogn : DecodedType
  decoded_denm_nogn decoded_ivim_nogn decoded_cpm_nogn : DecodedType

-- the number of an enumerator
abbrev pub type_value : DecodedType → ℕ
type_value decoded_error = 0
type_value decoded_cam = 1
type_value decoded_denm = 2
type_value decoded_ivim = 3
type_value decoded_cpm = 4
type_value decoded_cam_nogn = 5
type_value decoded_denm_nogn = 6
type_value decoded_ivim_nogn = 7
type_value decoded_cpm_nogn = 8

-- `ETSI_DECODER_OK` and `ETSI_DECODER_ERROR`
abbrev pub decoder_ok : ℕ
decoder_ok = 0

abbrev pub decoder_error : ℕ
decoder_error = 1

-- the message IDs of `etsi_message_t`
abbrev pub denm : ℕ
denm = 1

abbrev pub cam : ℕ
cam = 2

abbrev pub is_enum_valid : ℕ → Bool
is_enum_valid id = id == denm || id == cam

-- `etsiDecodedData_t`
pub record DecodedData (M : Type 0) : Type 0 where
  pub decoded_msg : Option M
  pub type : DecodedType
  pub gn_timestamp : ℕ
  pub pos_long : ℕ
  pub pos_lat : ℕ
  pub dist_a : ℕ
  pub dist_b : ℕ
  pub angle : ℕ

-- the detection of the message type; `none` is a read out of the buffer
unfoldable pub is_geo_net : MsgType → Bytes → Option Bool
is_geo_net msgtype_its buffer = some true
is_geo_net msgtype_facilityonly buffer = some false
is_geo_net msgtype_auto buffer =
    if ltb (length buffer) 44
    then some false
    else (do id ← byte 1 buffer; some (not (is_enum_valid id)))

module _ {M : Type 0} where
  -- the test of the ASN.1 result and the assignment at the end
  unfoldable pub finish : Bool × Option M → DecodedData M → ℕ × DecodedData M
  finish (true, some msg) out = (decoder_ok, record out { decoded_msg = some msg })
  finish (_, _) out = (decoder_error, out)

  module _ ⦃asn : Asn M⦄ where
    -- the branch without BTP and GeoNetworking
    unfoldable pub decode_facility : Bytes → DecodedData M → Option (ℕ × DecodedData M)
    unfolding finish
    decode_facility buffer out = do
      id ← byte 1 buffer
      if id == cam
          then some
              (finish (asn.asn_cam buffer (length buffer)) (record out { type = decoded_cam_nogn }))
          else (if id == denm
              then some (
                  finish (asn.asn_denm buffer (length buffer))
                    (record out { type = decoded_denm_nogn }))
              else some (decoder_error, record out { type = decoded_error }))

    -- the branch of a full packet, behind the two headers
    unfoldable pub decode_payload :
        {D : Type 0} → GnDataIndication D → BtpDataIndication D → DecodedData M → ℕ × DecodedData M
    decode_payload gn btp out =
        let timed = record out { gn_timestamp = gn.source_pv.tst } in
        if btp.dest_port == ca_port
        then finish (asn.asn_cam btp.payload btp.lenght) (record timed { type = decoded_cam })
        else (if btp.dest_port == den_port
            then finish (asn.asn_denm btp.payload btp.lenght) (record timed {
              type = decoded_denm;
              pos_lat = gn.gn_address_dest.pos_lat;
              pos_long = gn.gn_address_dest.pos_long;
              dist_a = gn.gn_address_dest.dist_a;
              dist_b = gn.gn_address_dest.dist_b;
              angle = gn.gn_address_dest.angle;
            })
            else (decoder_error, record timed { type = decoded_error }))

module _ {D M : Type 0} ⦃dbl : Double D⦄ ⦃asn : Asn M⦄ where
  -- The branch with BTP and GeoNetworking. Where a header is refused the code returns the
  -- enumerator `ETSI_DECODED_ERROR`. The two indications start with what their memory held.
  unfoldable pub decode_its :
      Bytes → GnDataIndication D → BtpDataIndication D → DecodedData M → Option (ℕ × DecodedData M)
  decode_its buffer gn0 btp0 out = do
    (gn_code, gn) ← decode_gn buffer gn0
    elim gn_code [
      | gn_ok ↦ (do
        (btp_code, btp) ← decode_btp gn btp0
        elim btp_code [
          | btp_ok ↦ some (decode_payload gn btp out)
          | _ ↦ some (type_value decoded_error, out)
        ])
      | _ ↦ some (type_value decoded_error, out)
    ]

  unfoldable pub decode_etsi :
      MsgType
      → Bytes
      → GnDataIndication D
      → BtpDataIndication D
      → DecodedData M
      → Option (ℕ × DecodedData M)
  decode_etsi msgtype buffer gn0 btp0 out =
      if length buffer == 0 then some (decoder_error, out) else (do
        geo ← is_geo_net msgtype buffer
        if geo then decode_its buffer gn0 btp0 out else decode_facility buffer out)
