-- ===== src/Decoder/Samples.antt =====
-- Concrete packets for the tests. The ASN.1 decoder takes every CAM for its number of bytes and no
-- DENM.
use s_ldm.Common.{ℕ, refl, inr, true, false, none, some, [], ◌∷◌, ◌++◌, arith, length}
use s_ldm.Decoder.Bytes.{Bytes, be16}
use s_ldm.Decoder.Headers.{BasicHeader, CommonHeader, LongPositionVector, GeoArea}
use s_ldm.Decoder.GeoNet.{GnDataIndication, tsb}
use s_ldm.Decoder.GeoNet.Wire.{Address, Position, InRange}
use s_ldm.Decoder.GeoNet.Packets.{IsAccepted, shb_packet}
use s_ldm.Decoder.Btp.{BtpDataIndication}
use s_ldm.Decoder.Frontend.{Asn}
use s_ldm.Samples.{nat_double}

instance abbrev pub counting_asn : Asn ℕ
counting_asn = record {
  asn_cam = λ buffer n. (true, some (length buffer));
  asn_denm = λ buffer n. (false, none);
}

abbrev pub address : Address
address = record { a0 = 1; a1 = 2; a2 = 3; a3 = 4; a4 = 5; a5 = 6; a6 = 7; a7 = 8 }

abbrev pub position : Position
position = record {
  tst = 70000;
  latitude = 450000000;
  longitude = 76000000;
  accurate = 1;
  speed = 1389;
  heading = 900;
}

pub position-InRange : InRange position
position-InRange = record {
  tst = omega arith;
  latitude = omega arith;
  longitude = omega arith;
  accurate = omega arith;
  speed = omega arith;
  heading = omega arith;
}

abbrev pub basic : BasicHeader
basic = record {
  version = 1;
  next_header = 1;
  reserved = 0;
  life_time = 5;
  remaining_hop_limit = 1;
}

-- the common header of a packet of a type
abbrev pub common : ℕ → CommonHeader
common header_type = record {
  next_header = 2;
  header_type = header_type;
  header_sub_type = 0;
  traffic_class = 2;
  flag = false;
  payload = 6;
  max_hop_limit = 1;
  reserved = 0;
}

pub common-IsAccepted : (header_type : ℕ) → IsAccepted basic (common header_type)
common-IsAccepted header_type = record {
  version = inr refl;
  next_header = omega arith;
  not_secured = omega arith;
  hops = omega arith;
  sub_type = omega arith;
  payload = omega arith;
}

abbrev pub unset : LongPositionVector
unset = record {
  gn_address = [];
  tst = 0;
  latitude = 0;
  longitude = 0;
  position_accuracy = false;
  speed = 0;
  heading = 0;
}

abbrev pub nowhere : GeoArea
nowhere = record { pos_long = 0; pos_lat = 0; dist_a = 0; dist_b = 0; angle = 0; shape = 0 }

-- an indication with a payload and the length that the header announces
abbrev pub gn_indication : (lenght : ℕ) → Bytes → GnDataIndication ℕ
gn_indication lenght payload = record {
  upper_protocol = 2;
  source_pv = unset;
  gn_address_dest = nowhere;
  gn_tra_class = 0;
  gn_remaining_life = 0;
  gn_remaining_hl = 0;
  gn_type = 0;
  lenght = lenght;
  payload = payload;
}

abbrev pub fresh : GnDataIndication ℕ
fresh = gn_indication 0 []

abbrev pub fresh_btp : BtpDataIndication ℕ
fresh_btp = record {
  btp_type = 0;
  dest_port = 0;
  source_port = 0;
  dest_p_info = 0;
  gn_address = nowhere;
  gn_position_v = unset;
  gn_tra_class = 0;
  gn_rem_p_life = 0;
  lenght = 0;
  payload = [];
}

abbrev pub btp_payload : Bytes
btp_payload = be16 2001 ++ (be16 0 ++ (9 ∷ 9 ∷ []))

abbrev pub single_hop : Bytes
single_hop =
    shb_packet basic (common tsb) (common-IsAccepted tsb) fresh address position position-InRange
      btp_payload (0 ∷ 0 ∷ 0 ∷ 0 ∷ [])
