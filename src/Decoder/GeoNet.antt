-- ===== src/Decoder/GeoNet.antt =====
-- decoder-module/src/geonet.cpp: `GeoNet::decodeGN`. The indication is passed through: what it held
-- before the call is an argument, as the caller leaves it uninitialised.
pub mod Wire
pub mod Packets
pub mod Broadcast
pub mod Errors
use s_ldm.Common.{
  ℕ, ◌+◌, ◌*◌, ◌/◌, ◌%◌, ◌^◌, Bool, true, not, ◌&&◌, Option, some, ◌==◌, ltb, if◌then◌else◌, drop,
}
use s_ldm.Decoder.Bytes.{Bytes, ◌>>=◌}
use s_ldm.Decoder.Headers.{
  BasicHeader, CommonHeader, LongPositionVector, GeoArea, GbcHeader, remove_basic, remove_common,
  remove_shb, remove_gbc, get_geo_area,
}
use s_ldm.Double.{Double}

-- `gnError_e`
pub data GnError : Type 0 where
  gn_ok gn_version_error gn_secured_error gn_lifetime_error gn_hop_limit_error gn_type_error :
      GnError

-- `GNDataIndication_t`
pub record GnDataIndication (D : Type 0) : Type 0 where
  pub upper_protocol : ℕ
  pub source_pv : LongPositionVector
  pub gn_address_dest : GeoArea
  pub gn_tra_class : ℕ
  pub gn_remaining_life : D
  pub gn_remaining_hl : ℕ
  pub gn_type : ℕ
  pub lenght : ℕ
  pub payload : Bytes

abbrev pub gbc : ℕ
gbc = 4

abbrev pub tsb : ℕ
tsb = 5

-- `m_GnPtotocolVersion`
abbrev pub gn_protocol_version : ℕ
gn_protocol_version = 1

module _ {D : Type 0} ⦃dbl : Double D⦄ where
  -- `decodeLT`. The base has two bits, so that the `default` of the switch, which returns false, is
  -- the last case here only for a base that cannot be.
  unfoldable pub decode_lt : ℕ → Bool × D
  decode_lt life_time =
      let base = life_time % 2 ^ 2 in
      let multiplier = life_time / 2 ^ 2 in
      if base == 0
      then (true, dbl.mul (dbl.of_ℕ multiplier) (dbl.div (dbl.of_ℕ 1) (dbl.of_ℕ 20)))
      else (if base == 1
          then (true, dbl.of_ℕ (multiplier * 1))
          else (if base == 2
              then (true, dbl.mul (dbl.of_ℕ multiplier) (dbl.of_ℕ 10))
              else (base == 3, dbl.mul (dbl.of_ℕ multiplier) (dbl.of_ℕ 100))))

module _ {D : Type 0} where
  -- `processSHB`
  unfoldable pub process_shb : GnDataIndication D → Option (GnDataIndication D)
  process_shb ind = do
    source_pv ← remove_shb ind.payload
    some (record ind { payload = drop 28 ind.payload; source_pv = source_pv; gn_type = tsb })

  -- `processGBC`
  unfoldable pub process_gbc : GnDataIndication D → ℕ → Option (GnDataIndication D)
  process_gbc ind shape = do
    h ← remove_gbc ind.payload
    some (record ind {
      payload = drop 44 ind.payload;
      source_pv = h.source_pv;
      gn_address_dest = get_geo_area shape h;
      gn_type = gbc;
    })

  -- the `switch` at the end of `decodeGN`
  unfoldable pub dispatch :
      GnDataIndication D → CommonHeader → Option (GnError × GnDataIndication D)
  dispatch ind common =
      if ind.gn_type == gbc
      then (do done ← process_gbc ind common.header_sub_type; some (gn_ok, done))
      else (if ind.gn_type == tsb
          then (if common.header_sub_type == 0
              then (do done ← process_shb ind; some (gn_ok, done))
              else some (gn_type_error, ind))
          else some (gn_type_error, ind))

module _ {D : Type 0} ⦃dbl : Double D⦄ where
  -- the part behind the checks of the basic header
  unfoldable pub decode_common :
      GnDataIndication D → BasicHeader → Option (GnError × GnDataIndication D)
  decode_common ind basic = do
    common ← remove_common ind.payload
    let ind' = record ind {
      payload = drop 8 ind.payload;
      upper_protocol = common.next_header;
      gn_tra_class = common.traffic_class;
    }
    if ltb common.max_hop_limit basic.remaining_hop_limit
        then some (gn_hop_limit_error, ind')
        else dispatch (record ind' { gn_type = common.header_type; lenght = common.payload }) common

  unfoldable pub decode_gn : Bytes → GnDataIndication D → Option (GnError × GnDataIndication D)
  decode_gn packet ind = do
    basic ← remove_basic packet
    let ind' = record ind {
      payload = drop 4 packet;
      gn_remaining_life = dbl.of_ℕ basic.life_time;
      gn_remaining_hl = basic.remaining_hop_limit;
    }
    if not (basic.version == gn_protocol_version) && not (basic.version == 0)
        then some (gn_version_error, ind')
        else (if basic.next_header == 2
            then some (gn_secured_error, ind')
            else (let (known, seconds) = decode_lt basic.life_time in
                let ind'' = record ind' { gn_remaining_life = seconds } in
                if known then decode_common ind'' basic else some (gn_lifetime_error, ind'')))
