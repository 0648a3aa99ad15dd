-- ===== src/Decoder/Tests.antt =====
-- The theorems on the decoder at concrete packets.
use s_ldm.Common.{◌↔◌, ℕ, ◌≡◌, refl, none, some, ◌∷◌, arith}
use s_ldm.Decoder.Headers.{remove_basic}
use s_ldm.Decoder.Bytes.{Bytes}
use s_ldm.Decoder.Headers.Reads.{Succeeds}
use s_ldm.Decoder.GeoNet.{gn_ok, GnDataIndication, decode_gn, gbc, tsb}
use s_ldm.Decoder.GeoNet.Wire.{decoded}
use s_ldm.Decoder.GeoNet.Packets.{accepted, decode_gn-shb_packet}
use s_ldm.Decoder.GeoNet.Broadcast.{Area, IsArea, gbc_packet, decode_gn-gbc_packet}
use s_ldm.Decoder.GeoNet.Errors.{decode_gn-Succeeds, decode_gn-Passed, Passed}
use s_ldm.Decoder.Frontend.{
  DecodedData, DecodedType, decode_etsi, decode_its, is_geo_net, msgtype_auto, decoder_ok,
}
use s_ldm.Decoder.Frontend.Success.{IsSuccess, decode_etsi-IsSuccess}
use s_ldm.Samples.{nat_double}
use s_ldm.Decoder.Samples.{
  counting_asn, address, position, position-InRange, basic, common, common-IsAccepted, fresh,
  fresh_btp, btp_payload, single_hop,
}

decode_gn-shb_packet_example :
    decode_gn single_hop fresh
    ≡ some (
      gn_ok,
      record (accepted basic (common tsb) (common-IsAccepted tsb) fresh btp_payload) {
        source_pv = decoded address position;
        gn_type = tsb;
      },
    )
decode_gn-shb_packet_example =
    decode_gn-shb_packet basic (common tsb) (common-IsAccepted tsb) fresh address position
      position-InRange btp_payload 0 0 0 0 refl refl

abbrev area : Area
area = record {
  seq_number = 3;
  pos_lat = 450000000;
  pos_long = 76000000;
  dist_a = 100;
  dist_b = 50;
  angle = 0;
}

area-IsArea : IsArea area
area-IsArea = record {
  seq_number = omega arith;
  pos_lat = omega arith;
  pos_long = omega arith;
  dist_a = omega arith;
  dist_b = omega arith;
  angle = omega arith;
}

abbrev broadcast : Bytes
broadcast =
    gbc_packet area area-IsArea address position position-InRange basic (common gbc)
      (common-IsAccepted gbc) fresh btp_payload 0 0 0 0

decode_gn-gbc_packet_example :
    decode_gn broadcast fresh
    ≡ some (
      gn_ok,
      record (accepted basic (common gbc) (common-IsAccepted gbc) fresh btp_payload) {
        source_pv = decoded address position;
        gn_address_dest = record {
          pos_long = 76000000;
          pos_lat = 450000000;
          dist_a = 100;
          dist_b = 50;
          angle = 0;
          shape = 0;
        };
        gn_type = gbc;
      },
    )
decode_gn-gbc_packet_example =
    decode_gn-gbc_packet area area-IsArea address position position-InRange basic (common gbc)
      (common-IsAccepted gbc) fresh btp_payload 0 0 0 0 (omega arith) (omega arith) refl

decode_gn-Succeeds_example : Succeeds (decode_gn broadcast fresh)
decode_gn-Succeeds_example = decode_gn-Succeeds broadcast fresh (omega arith)

abbrev single_hop_result : GnDataIndication ℕ
single_hop_result = record (accepted basic (common tsb) (common-IsAccepted tsb) fresh btp_payload) {
  source_pv = decoded address position;
  gn_type = tsb;
}

single_hop_lem : decode_gn single_hop fresh ≡ some (gn_ok, single_hop_result)
single_hop_lem =
    decode_gn-shb_packet basic (common tsb) (common-IsAccepted tsb) fresh address position
      position-InRange btp_payload 0 0 0 0 refl refl

decode_gn-Passed_example : Passed single_hop single_hop_result
decode_gn-Passed_example = decode_gn-Passed single_hop fresh single_hop_result single_hop_lem

abbrev empty_data : DecodedData ℕ
empty_data = record {
  decoded_msg = none;
  type = DecodedType.decoded_error;
  gn_timestamp = 0;
  pos_long = 0;
  pos_lat = 0;
  dist_a = 0;
  dist_b = 0;
  angle = 0;
}

-- 48 bytes that start with the number of another version
abbrev future : Bytes
future = 32 ∷ 0 ∷ 5 ∷ 1 ∷ single_hop

-- Their header is refused, and the call is a success.
future_lem :
    decode_etsi msgtype_auto future fresh fresh_btp empty_data ≡ some (decoder_ok, empty_data)
unfolding decode_etsi is_geo_net decode_its decode_gn remove_basic
future_lem = refl

decode_etsi-IsSuccess_example :
    (decode_etsi msgtype_auto future fresh fresh_btp empty_data ≡ some (decoder_ok, empty_data))
    ↔ IsSuccess fresh fresh_btp empty_data msgtype_auto future empty_data
decode_etsi-IsSuccess_example =
    decode_etsi-IsSuccess fresh fresh_btp empty_data msgtype_auto future empty_data
