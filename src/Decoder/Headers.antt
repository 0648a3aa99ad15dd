-- ===== src/Decoder/Headers.antt =====
-- decoder-module/src: `removeHeader` of the GeoNetworking headers. An `int32_t` is its bit pattern.
-- The reserved fields are kept where the class keeps them.
pub mod Reads
use s_ldm.Common.{ℕ, suc, ◌+◌, ◌*◌, ◌/◌, ◌%◌, ◌^◌, Bool, Option, some, ◌==◌, List, [], ◌∷◌}
use s_ldm.Decoder.Bytes.{Bytes, byte, ◌>>=◌, load16, load32, load_bytes, swap_16bit, swap_32bit}

pub record BasicHeader : Type 0 where
  pub version : ℕ
  pub next_header : ℕ
  pub reserved : ℕ
  pub life_time : ℕ
  pub remaining_hop_limit : ℕ

-- `basicHeader::removeHeader`
unfoldable pub remove_basic : Bytes → Option BasicHeader
remove_basic buffer = do
  version_nh ← byte 0 buffer
  reserved ← byte 1 buffer
  life_time ← byte 2 buffer
  hops ← byte 3 buffer
  some (record {
    version = version_nh / 2 ^ 4;
    next_header = version_nh % 2 ^ 4;
    reserved = reserved;
    life_time = life_time;
    remaining_hop_limit = hops;
  })

pub record CommonHeader : Type 0 where
  pub next_header : ℕ
  pub header_type : ℕ
  pub header_sub_type : ℕ
  pub traffic_class : ℕ
  pub flag : Bool
  pub payload : ℕ
  pub max_hop_limit : ℕ
  pub reserved : ℕ

-- `commonHeader::removeHeader`
unfoldable pub remove_common : Bytes → Option CommonHeader
unfolding load16
remove_common buffer = do
  ch_nh ← byte 0 buffer
  header_type ← byte 1 buffer
  traffic_class ← byte 2 buffer
  ch_flag ← byte 3 buffer
  payload ← load16 4 buffer
  max_hop_limit ← byte 6 buffer
  reserved ← byte 7 buffer
  some (record {
    next_header = ch_nh / 2 ^ 4;
    header_type = header_type / 2 ^ 4;
    header_sub_type = header_type % 2 ^ 4;
    traffic_class = traffic_class;
    flag = ch_flag / 2 ^ 7 == 1;
    payload = swap_16bit payload;
    max_hop_limit = max_hop_limit;
    reserved = reserved;
  })

-- `GNlpv_t`
pub record LongPositionVector : Type 0 where
  pub gn_address : Bytes
  pub tst : ℕ
  pub latitude : ℕ
  pub longitude : ℕ
  pub position_accuracy : Bool
  pub speed : ℕ
  pub heading : ℕ

-- the 24 bytes of a long position vector from position `i`, read alike by the two headers below
unfoldable pub remove_lpv : ℕ → Bytes → Option LongPositionVector
unfolding load16 load32 load_bytes
remove_lpv i buffer = do
  gn_address ← load_bytes 8 i buffer
  tst ← load32 (i + 8) buffer
  latitude ← load32 (i + 12) buffer
  longitude ← load32 (i + 16) buffer
  raw ← load16 (i + 20) buffer
  heading ← load16 (i + 22) buffer
  let pai_speed = swap_16bit raw
  some (record {
    gn_address = gn_address;
    tst = swap_32bit tst;
    latitude = swap_32bit latitude;
    longitude = swap_32bit longitude;
    position_accuracy = pai_speed / 2 ^ 15 == 1;
    speed = pai_speed % 2 ^ 7;
    heading = swap_16bit heading;
  })

-- `shbHeader::removeHeader`
unfoldable pub remove_shb : Bytes → Option LongPositionVector
unfolding remove_lpv
remove_shb buffer = remove_lpv 0 buffer

-- `GeoArea_t`
pub record GeoArea : Type 0 where
  pub pos_long : ℕ
  pub pos_lat : ℕ
  pub dist_a : ℕ
  pub dist_b : ℕ
  pub angle : ℕ
  pub shape : ℕ

-- the members of `gbcHeader`
pub record GbcHeader : Type 0 where
  pub source_pv : LongPositionVector
  pub seq_number : ℕ
  pub pos_long : ℕ
  pub pos_lat : ℕ
  pub dist_a : ℕ
  pub dist_b : ℕ
  pub angle : ℕ
  pub reserved : ℕ

-- `gbcHeader::removeHeader`. The last field is swapped as 32 bits and cut to 16.
unfoldable pub remove_gbc : Bytes → Option GbcHeader
unfolding load16 load32 remove_lpv
remove_gbc buffer = do
  seq_number ← load16 0 buffer
  first_reserved ← load16 2 buffer
  source_pv ← remove_lpv 4 buffer
  pos_lat ← load32 28 buffer
  pos_long ← load32 32 buffer
  dist_a ← load16 36 buffer
  dist_b ← load16 38 buffer
  angle ← load16 40 buffer
  reserved ← load16 42 buffer
  some (record {
    source_pv = source_pv;
    seq_number = swap_16bit seq_number;
    pos_long = swap_32bit pos_long;
    pos_lat = swap_32bit pos_lat;
    dist_a = swap_16bit dist_a;
    dist_b = swap_16bit dist_b;
    angle = swap_16bit angle;
    reserved = swap_32bit reserved % 2 ^ 16;
  })

-- `gbcHeader::GetGeoArea`, whose result has no shape yet: `shape` is what its memory held
unfoldable pub get_geo_area : ℕ → GbcHeader → GeoArea
get_geo_area shape h = record {
  pos_long = h.pos_long;
  pos_lat = h.pos_lat;
  dist_a = h.dist_a;
  dist_b = h.dist_b;
  angle = h.angle;
  shape = shape;
}
