-- ===== src/Decoder/GeoNet/Broadcast.antt =====
-- The geographical broadcast: its header, and `decodeGN` on a whole packet.
use s_ldm.Common.{ℕ, ◌+◌, ◌*◌, ◌/◌, ◌%◌, ◌^◌, ◌≡◌, ap, ◌∙◌, ◌<◌, some, ◌==◌, ◌∷◌, ◌++◌, arith}
use s_ldm.Decoder.Bytes.{Bytes, be16, be32, swap_32bit}
use s_ldm.Decoder.Headers.{GbcHeader, BasicHeader, CommonHeader, remove_gbc, get_geo_area}
use s_ldm.Decoder.GeoNet.{gn_ok, GnDataIndication, decode_gn, dispatch, process_gbc, gbc}
use s_ldm.Decoder.GeoNet.Packets.{
  IsAccepted, accepted, basic_bytes, common_bytes, decode_gn-dispatch,
}
use s_ldm.Decoder.GeoNet.Wire.{
  Position, InRange, Address, position_bytes, address_bytes, decoded, swap_16bit-be16,
  swap_32bit-be32, pai, pai_lem, accurate_lem, speed_lem,
}
use s_ldm.Double.{Double}

-- the destination area of a geographical broadcast
pub record Area : Type 0 where
  pub seq_number : ℕ
  pub pos_lat : ℕ
  pub pos_long : ℕ
  pub dist_a : ℕ
  pub dist_b : ℕ
  pub angle : ℕ

pub record IsArea (g : Area) : Type 0 where
  pub seq_number : g.seq_number < 2 ^ 16
  pub pos_lat : g.pos_lat < 2 ^ 32
  pub pos_long : g.pos_long < 2 ^ 32
  pub dist_a : g.dist_a < 2 ^ 16
  pub dist_b : g.dist_b < 2 ^ 16
  pub angle : g.angle < 2 ^ 16

module _ (g : Area) (area : IsArea g) (a : Address) (p : Position) (r : InRange p) where
  abbrev pub gbc_bytes : (r0 r1 r2 r3 : ℕ) → Bytes → Bytes
  gbc_bytes r0 r1 r2 r3 rest =
      be16 g.seq_number
      ++ (r0
          ∷ r1
          ∷ (position_bytes a p
              ++ (be32 g.pos_lat
                  ++ (be32 g.pos_long
                      ++ (be16 g.dist_a
                          ++ (be16 g.dist_b ++ (be16 g.angle ++ (r2 ∷ r3 ∷ rest))))))))

  abbrev pub gbc_decoded : GbcHeader
  gbc_decoded = record {
    source_pv = decoded a p;
    seq_number = g.seq_number;
    pos_long = g.pos_long;
    pos_lat = g.pos_lat;
    dist_a = g.dist_a;
    dist_b = g.dist_b;
    angle = g.angle;
    reserved = 0;
  }

  remove_gbc-gbc_bytes :
      (r0 r1 r2 r3 : ℕ) (rest : Bytes)
      → r2 < 2 ^ 8
      → r3 < 2 ^ 8
      → remove_gbc (gbc_bytes r0 r1 r2 r3 rest) ≡ some gbc_decoded
  unfolding remove_gbc pai
  remove_gbc-gbc_bytes r0 r1 r2 r3 rest h2 h3 =
      let cut : swap_32bit (r2 + r3 * 2 ^ 8) % 2 ^ 16 ≡ 0 = omega arith in
      λ i. some (record {
        source_pv = record {
          gn_address = address_bytes a;
          tst = swap_32bit-be32 p.tst r.tst i;
          latitude = swap_32bit-be32 p.latitude r.latitude i;
          longitude = swap_32bit-be32 p.longitude r.longitude i;
          position_accuracy = (ap (λ n. n / 2 ^ 15 == 1) (pai_lem a p r) ∙ accurate_lem a p r) i;
          speed = (ap (λ n. n % 2 ^ 7) (pai_lem a p r) ∙ speed_lem a p r) i;
          heading = swap_16bit-be16 p.heading r.heading i;
        };
        seq_number = swap_16bit-be16 g.seq_number area.seq_number i;
        pos_long = swap_32bit-be32 g.pos_long area.pos_long i;
        pos_lat = swap_32bit-be32 g.pos_lat area.pos_lat i;
        dist_a = swap_16bit-be16 g.dist_a area.dist_a i;
        dist_b = swap_16bit-be16 g.dist_b area.dist_b i;
        angle = swap_16bit-be16 g.angle area.angle i;
        reserved = cut i;
      })

  module _ {D : Type 0} ⦃dbl : Double D⦄ (b : BasicHeader) (c : CommonHeader) (ok : IsAccepted b c)
      (ind : GnDataIndication D) (payload : Bytes) where
    abbrev pub gbc_packet : (r0 r1 r2 r3 : ℕ) → Bytes
    gbc_packet r0 r1 r2 r3 = basic_bytes b ++ (common_bytes c ++ gbc_bytes r0 r1 r2 r3 payload)

    -- `decodeGN` of an accepted geographical broadcast returns the values of its fields, the area
    -- with the header's sub-type for its shape, and the payload behind the 56 bytes of the headers;
    -- of the speed it keeps seven bits.
    pub decode_gn-gbc_packet :
        (r0 r1 r2 r3 : ℕ)
        → r2 < 2 ^ 8
        → r3 < 2 ^ 8
        → c.header_type ≡ gbc
        → decode_gn (gbc_packet r0 r1 r2 r3) ind
          ≡ some (
            gn_ok,
            record (accepted b c ok ind payload) {
              source_pv = decoded a p;
              gn_address_dest = record {
                pos_long = g.pos_long;
                pos_lat = g.pos_lat;
                dist_a = g.dist_a;
                dist_b = g.dist_b;
                angle = g.angle;
                shape = c.header_sub_type;
              };
              gn_type = gbc;
            },
          )
    unfolding dispatch process_gbc get_geo_area
    decode_gn-gbc_packet r0 r1 r2 r3 h2 h3 ty =
        decode_gn-dispatch b c ok ind (gbc_bytes r0 r1 r2 r3 payload)
        ∙ rw (ty, remove_gbc-gbc_bytes r0 r1 r2 r3 payload h2 h3)
