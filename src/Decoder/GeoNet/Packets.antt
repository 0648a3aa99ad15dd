-- ===== src/Decoder/GeoNet/Packets.antt =====
-- Whole packets: `decodeGN` inverts an independent encoder, for the two supported packet types.
use s_ldm.Common.{
  ℕ, ◌+◌, ◌*◌, ◌^◌, ◌≡◌, ◌≢◌, ◌∙◌, ◌⊎◌, ◌≤◌, ◌<◌, Bool, true, false, not, ◌&&◌, ltb, some, ◌==◌, [],
  ◌∷◌, ◌++◌, arith,
}
use s_ldm.Decoder.Bytes.{Bytes, be16}
use s_ldm.Decoder.Headers.{BasicHeader, CommonHeader, remove_basic, remove_common}
use s_ldm.Decoder.GeoNet.{
  dispatch, decode_common, process_shb, gn_ok, GnDataIndication, decode_gn, decode_lt, tsb,
}
use s_ldm.Decoder.GeoNet.Wire.{
  Position, InRange, Address, position_bytes, decoded, swap_16bit-be16, remove_shb-position_bytes,
}
use s_ldm.Double.{Double}

abbrev pub basic_bytes : BasicHeader → Bytes
basic_bytes h =
    (h.version * 2 ^ 4 + h.next_header) ∷ h.reserved ∷ h.life_time ∷ h.remaining_hop_limit ∷ []

abbrev pub bit : Bool → ℕ
bit true = 1
bit false = 0

abbrev pub common_bytes : CommonHeader → Bytes
common_bytes h =
    (h.next_header * 2 ^ 4)
    ∷ (h.header_type * 2 ^ 4 + h.header_sub_type)
    ∷ h.traffic_class
    ∷ (bit h.flag * 2 ^ 7)
    ∷ (be16 h.payload ++ (h.max_hop_limit ∷ h.reserved ∷ []))

remove_basic-basic_bytes :
    (h : BasicHeader) (rest : Bytes)
    → h.next_header < 2 ^ 4
    → remove_basic (basic_bytes h ++ rest) ≡ some h
unfolding remove_basic
remove_basic-basic_bytes h rest r = ground arith

remove_common-common_bytes :
    (h : CommonHeader) (rest : Bytes)
    → h.header_sub_type < 2 ^ 4
    → h.payload < 2 ^ 16
    → remove_common (common_bytes h ++ rest) ≡ some h
unfolding remove_common
remove_common-common_bytes h rest s p = ground (arith, swap_16bit-be16 h.payload p)

-- the two headers of a packet that passes all the checks
pub record IsAccepted (b : BasicHeader) (c : CommonHeader) : Type 0 where
  pub version : (b.version ≡ 0) ⊎ (b.version ≡ 1)
  pub next_header : b.next_header < 2 ^ 4
  pub not_secured : b.next_header ≢ 2
  pub hops : b.remaining_hop_limit ≤ c.max_hop_limit
  pub sub_type : c.header_sub_type < 2 ^ 4
  pub payload : c.payload < 2 ^ 16

pub decode_lt-known :
    (D : Type 0) ⦃dbl : Double D⦄ (life_time : ℕ) → (decode_lt {D = D} life_time).0 ≡ true
unfolding decode_lt
decode_lt-known D life_time = ground arith

module _ {D : Type 0} ⦃dbl : Double D⦄ (b : BasicHeader) (c : CommonHeader) (ok : IsAccepted b c)
    (ind : GnDataIndication D) where
  -- the indication that the headers of an accepted packet leave, before the type is looked at
  abbrev pub accepted : Bytes → GnDataIndication D
  accepted rest = record ind {
    payload = rest;
    upper_protocol = c.next_header;
    gn_tra_class = c.traffic_class;
    gn_remaining_life = (decode_lt b.life_time).1;
    gn_remaining_hl = b.remaining_hop_limit;
    gn_type = c.header_type;
    lenght = c.payload;
  }

  version_lem : (not (b.version == 1) && not (b.version == 0)) ≡ false
  version_lem = ground arith

  secured_lem : (b.next_header == 2) ≡ false
  secured_lem = ground arith

  hops_lem : ltb c.max_hop_limit b.remaining_hop_limit ≡ false
  hops_lem = ground arith

  -- All the checks pass, and the type decides.
  pub decode_gn-dispatch :
      (rest : Bytes)
      → decode_gn (basic_bytes b ++ (common_bytes c ++ rest)) ind ≡ dispatch (accepted rest) c
  unfolding decode_gn decode_common
  decode_gn-dispatch rest = rw (
    remove_basic-basic_bytes b (common_bytes c ++ rest) ok.next_header,
    version_lem,
    secured_lem,
    decode_lt-known D b.life_time,
    remove_common-common_bytes c rest ok.sub_type ok.payload,
    hops_lem,
  )

  module _ (a : Address) (p : Position) (r : InRange p) (payload : Bytes) where
    -- a single-hop broadcast: four reserved bytes follow the position
    abbrev pub shb_packet : Bytes → Bytes
    shb_packet reserved =
        basic_bytes b ++ (common_bytes c ++ (position_bytes a p ++ (reserved ++ payload)))

    -- `decodeGN` of an accepted single-hop broadcast returns the values of its fields and the
    -- payload behind the 40 bytes of the headers; of the speed it keeps seven bits.
    pub decode_gn-shb_packet :
        (r0 r1 r2 r3 : ℕ)
        → c.header_type ≡ tsb
        → c.header_sub_type ≡ 0
        → decode_gn (shb_packet (r0 ∷ r1 ∷ r2 ∷ r3 ∷ [])) ind
          ≡ some (gn_ok, record (accepted payload) { source_pv = decoded a p; gn_type = tsb })
    unfolding dispatch process_shb
    decode_gn-shb_packet r0 r1 r2 r3 ty st =
        decode_gn-dispatch (position_bytes a p ++ (r0 ∷ r1 ∷ r2 ∷ r3 ∷ payload))
        ∙ rw (ty, st, remove_shb-position_bytes a p r (r0 ∷ r1 ∷ r2 ∷ r3 ∷ payload))
