-- ===== src/Decoder/GeoNet/Errors.antt =====
-- Which packets `decodeGN` accepts and rejects, and how many bytes it reads.
use s_ldm.Common.{
  ◌≡◌, ◌≢◌, inl, inr, ◌⊎◌, ◌≤◌, ◌<◌, not, ◌&&◌, none, some, ◌==◌, ltb, arith, length, drop,
  Bool-cases, Option-cases,
}
use s_ldm.Decoder.Bytes.{Bytes}
use s_ldm.Decoder.Headers.{BasicHeader, CommonHeader, remove_basic, remove_common}
use s_ldm.Decoder.Headers.Reads.{
  Succeeds, byte_past, remove_basic-Succeeds, remove_common-Succeeds, remove_shb-Succeeds,
  remove_gbc-Succeeds, length-drop,
}
use s_ldm.Decoder.GeoNet.{
  gn_ok, gn_lifetime_error, GnDataIndication, decode_gn, decode_common, dispatch, process_shb,
  process_gbc, gbc, tsb,
}
use s_ldm.Decoder.GeoNet.Packets.{decode_lt-known}
use s_ldm.Double.{Double}

module _ {D : Type 0} where
  dispatch-Succeeds :
      (ind : GnDataIndication D) (c : CommonHeader)
      → 44 ≤ length ind.payload
      → Succeeds (dispatch ind c)
  unfolding dispatch process_shb process_gbc
  dispatch-Succeeds ind c h =
      ground
        (arith, remove_gbc-Succeeds ind.payload h, remove_shb-Succeeds ind.payload (omega arith))

module _ {D : Type 0} ⦃dbl : Double D⦄ where
  decode_common-Succeeds :
      (ind : GnDataIndication D) (b : BasicHeader)
      → 52 ≤ length ind.payload
      → Succeeds (decode_common ind b)
  unfolding decode_common
  decode_common-Succeeds ind b h = elim (Option-cases (remove_common ind.payload)) [
    | inl e ↦ absurd (ground (arith, remove_common-Succeeds ind.payload (omega arith)))
    | inr (c, e) ↦ rw e (elim (Bool-cases (ltb c.max_hop_limit b.remaining_hop_limit)) [
      | inl f ↦ rw f
      | inr f ↦ rw f (dispatch-Succeeds _ c (omega (arith, length-drop 8 ind.payload)))
    ])
  ]

  -- A packet of 56 bytes or more is decoded with no read out of the buffer.
  pub decode_gn-Succeeds :
      (packet : Bytes) (ind : GnDataIndication D)
      → 56 ≤ length packet
      → Succeeds (decode_gn packet ind)
  unfolding decode_gn
  decode_gn-Succeeds packet ind h = elim (Option-cases (remove_basic packet)) [
    | inl e ↦ absurd (ground (arith, remove_basic-Succeeds packet (omega arith)))
    | inr (b, e) ↦ rw e (elim (Bool-cases (not (b.version == 1) && not (b.version == 0))) [
      | inl f ↦ rw f
      | inr f ↦ rw f (elim (Bool-cases (b.next_header == 2)) [
        | inl g ↦ rw g
        | inr g ↦
            rw (g, decode_lt-known D b.life_time)
              (decode_common-Succeeds _ b (omega (arith, length-drop 4 packet)))
      ])
    ])
  ]

  -- `decodeGN` is given no length: it reads out of the buffer for every packet of less than four
  -- bytes.
  pub decode_gn_short :
      (packet : Bytes) (ind : GnDataIndication D) → length packet < 4 → decode_gn packet ind ≡ none
  unfolding decode_gn remove_basic
  decode_gn_short packet ind h = ground (arith, byte_past 3 packet (omega arith))

  -- what a successful result says of the packet
  pub record Passed (packet : Bytes) (out : GnDataIndication D) : Type 0 where
    pub basic : BasicHeader
    pub common : CommonHeader
    pub basic_read : remove_basic packet ≡ some basic
    pub common_read : remove_common (drop 4 packet) ≡ some common
    pub version : (basic.version ≡ 0) ⊎ (basic.version ≡ 1)
    pub not_secured : basic.next_header ≢ 2
    pub hops : basic.remaining_hop_limit ≤ common.max_hop_limit
    pub supported :
        (common.header_type ≡ gbc) ⊎ ((common.header_type ≡ tsb) × (common.header_sub_type ≡ 0))
    pub kept_type : out.gn_type ≡ common.header_type
    pub kept_upper : out.upper_protocol ≡ common.next_header
    pub kept_length : out.lenght ≡ common.payload

  -- A result is `GN_OK` only if every check of the two headers has passed.
  pub decode_gn-Passed :
      (packet : Bytes) (ind out : GnDataIndication D)
      → decode_gn packet ind ≡ some (gn_ok, out)
      → Passed packet out
  unfolding decode_gn decode_common dispatch process_shb process_gbc
  decode_gn-Passed packet ind out h = elim (Option-cases (remove_basic packet)) [
    | inl e ↦ absurd (ground arith)
    | inr (b, e) ↦ elim (Option-cases (remove_common (drop 4 packet))) [
      | inl f ↦ absurd (ground (arith, decode_lt-known D b.life_time))
      | inr (c, f) ↦ record {
        basic = b;
        common = c;
        basic_read = e;
        common_read = f;
        version = ground (arith, decode_lt-known D b.life_time);
        not_secured = ground (arith, decode_lt-known D b.life_time);
        hops = ground (arith, decode_lt-known D b.life_time);
        supported = ground (arith, decode_lt-known D b.life_time);
        kept_type = ground (arith, decode_lt-known D b.life_time);
        kept_upper = ground (arith, decode_lt-known D b.life_time);
        kept_length = ground (arith, decode_lt-known D b.life_time);
      }
    ]
  ]

  -- The lifetime is always decoded: `GN_LIFETIME_ERROR` is never returned.
  pub decode_gn-no_lifetime_error :
      (packet : Bytes) (ind out : GnDataIndication D)
      → decode_gn packet ind ≢ some (gn_lifetime_error, out)
  unfolding decode_gn decode_common dispatch
  decode_gn-no_lifetime_error packet ind out h = elim (Option-cases (remove_basic packet)) [
    | inl e ↦ ground arith
    | inr (b, e) ↦ ground (arith, decode_lt-known D b.life_time)
  ]
