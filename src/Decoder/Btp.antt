-- ===== src/Decoder/Btp.antt =====
-- decoder-module/src/btpHeader.cpp and btp.cpp: `btp::decodeBTP`.
pub mod Laws
use s_ldm.Common.{ℕ, ◌+◌, ◌-◌, ◌%◌, ◌^◌, ◌&&◌, not, Option, some, ◌==◌, if◌then◌else◌, drop}
use s_ldm.Decoder.Bytes.{Bytes, ◌>>=◌, load16, swap_16bit}
use s_ldm.Decoder.GeoNet.{GnDataIndication}
use s_ldm.Decoder.Headers.{LongPositionVector, GeoArea}

-- `btpError_e`
pub data BtpError : Type 0 where
  btp_ok btp_error : BtpError

abbrev pub ca_port : ℕ
ca_port = 2001

abbrev pub den_port : ℕ
den_port = 2002

abbrev pub btp_a : ℕ
btp_a = 1

abbrev pub btp_b : ℕ
btp_b = 2

-- the members of `btpHeader`
pub record BtpHeader : Type 0 where
  pub destination_port : ℕ
  pub source_dest_info : ℕ

-- `btpHeader::removeHeader`
unfoldable pub remove_btp : Bytes → Option BtpHeader
remove_btp buffer = do
  port ← load16 0 buffer
  info ← load16 2 buffer
  some (record { destination_port = swap_16bit port; source_dest_info = swap_16bit info })

-- `BTPDataIndication_t`, less the optional fields that nothing sets
pub record BtpDataIndication (D : Type 0) : Type 0 where
  pub btp_type : ℕ
  pub dest_port : ℕ
  pub source_port : ℕ
  pub dest_p_info : ℕ
  pub gn_address : GeoArea
  pub gn_position_v : LongPositionVector
  pub gn_tra_class : ℕ
  pub gn_rem_p_life : D
  pub lenght : ℕ
  pub payload : Bytes

module _ {D : Type 0} where
  -- the assignments behind the checks; `lenght - 4` on a `uint32_t` wraps
  unfoldable pub fill : GnDataIndication D → BtpDataIndication D → BtpDataIndication D
  fill ind out = record out {
    gn_address = ind.gn_address_dest;
    gn_tra_class = ind.gn_tra_class;
    gn_rem_p_life = ind.gn_remaining_life;
    gn_position_v = ind.source_pv;
    payload = drop 4 ind.payload;
    lenght = (ind.lenght + 2 ^ 32 - 4) % 2 ^ 32;
  }

  unfoldable pub decode_btp :
      GnDataIndication D → BtpDataIndication D → Option (BtpError × BtpDataIndication D)
  unfolding fill
  decode_btp ind out = do
    header ← remove_btp ind.payload
    let started = record out { payload = drop 4 ind.payload; btp_type = ind.upper_protocol }
    let port = header.destination_port
    let info = header.source_dest_info
    let addressed = record started { dest_port = port }
    if not (port == ca_port) && not (port == den_port)
        then some (btp_error, started)
        else (if ind.upper_protocol == btp_a
            then some (btp_ok, fill ind (record addressed { source_port = info; dest_p_info = 0 }))
            else (if ind.upper_protocol == btp_b
                then some
                    (btp_ok, fill ind (record addressed { dest_p_info = info; source_port = 0 }))
                else some (btp_error, addressed)))
