-- ===== src/Decoder/Btp/Laws.antt =====
-- What `decodeBTP` accepts, and the length that it hands on.
use s_ldm.Common.{
  ℕ, ◌-◌, ◌^◌, ◌≡◌, ◌<◌, ◌⊎◌, inl, inr, ap, ◌∙◌, Bool-cases, not, ◌&&◌, false, some, ◌==◌,
  if◌then◌else◌, arith, drop, ◌++◌,
}
use s_ldm.Decoder.Bytes.{Bytes, be16, load16}
use s_ldm.Decoder.GeoNet.{GnDataIndication}
use s_ldm.Decoder.GeoNet.Wire.{swap_16bit-be16}
use s_ldm.Decoder.Btp.{
  btp_ok, btp_error, BtpDataIndication, remove_btp, decode_btp, fill, ca_port, den_port, btp_a,
  btp_b,
}

remove_btp-be16 :
    (port info : ℕ) (rest : Bytes)
    → port < 2 ^ 16
    → info < 2 ^ 16
    → remove_btp (be16 port ++ (be16 info ++ rest))
      ≡ some (record { destination_port = port; source_dest_info = info })
unfolding remove_btp load16
remove_btp-be16 port info rest hp hi = λ i. some (record {
  destination_port = swap_16bit-be16 port hp i;
  source_dest_info = swap_16bit-be16 info hi i;
})

-- the port of CAMs or DENMs, and one of the two types
abbrev pub IsSupported : ℕ → ℕ → Type 0
IsSupported port upper =
    ((port ≡ ca_port) ⊎ (port ≡ den_port)) × ((upper ≡ btp_a) ⊎ (upper ≡ btp_b))

module _ {D : Type 0} where
  module _ (ind : GnDataIndication D) (out : BtpDataIndication D) (port info : ℕ) (rest : Bytes)
      (hp : port < 2 ^ 16) (hi : info < 2 ^ 16)
      (packet : ind.payload ≡ be16 port ++ (be16 info ++ rest)) where
    -- what is filled in for a supported packet
    abbrev pub filled : BtpDataIndication D
    filled = record (fill ind out) {
      btp_type = ind.upper_protocol;
      dest_port = port;
      source_port = if ind.upper_protocol == btp_a then info else 0;
      dest_p_info = if ind.upper_protocol == btp_a then 0 else info;
    }

    header_lem :
        remove_btp ind.payload ≡ some (record { destination_port = port; source_dest_info = info })
    header_lem = ap remove_btp packet ∙ remove_btp-be16 port info rest hp hi

    -- A payload that starts with a BTP header, with the port of CAMs or DENMs, is accepted where the
    -- type is BTP-A or BTP-B: the second half of the header is the source port of the one and the
    -- port information of the other.
    pub decode_btp_supported :
        IsSupported port ind.upper_protocol → decode_btp ind out ≡ some (btp_ok, filled)
    unfolding decode_btp
    decode_btp_supported ok = ground (arith, header_lem)

    abbrev started : BtpDataIndication D
    started = record out { payload = drop 4 ind.payload; btp_type = ind.upper_protocol }

    -- A payload that starts with a BTP header is rejected where its port or the type is another one.
    pub decode_btp_rejects :
        ¬ IsSupported port ind.upper_protocol
        → (o : BtpDataIndication D) × (decode_btp ind out ≡ some (btp_error, o))
    unfolding decode_btp
    decode_btp_rejects bad = elim (Bool-cases (not (port == ca_port) && not (port == den_port))) [
      | inl e ↦ (started, rw (header_lem, e))
      | inr e ↦
          let other : (ind.upper_protocol == btp_a ≡ false)
              × (ind.upper_protocol == btp_b ≡ false) =
            ground arith in
          (record started { dest_port = port }, rw (header_lem, e, other.0, other.1))
    ]

    -- Where the GeoNetworking payload starts with a BTP header and is announced with less than its
    -- four bytes, a supported packet is accepted, and the length that is handed on wraps past zero.
    pub decode_btp-lenght_wraps :
        IsSupported port ind.upper_protocol
        → ind.lenght < 4
        → (o : BtpDataIndication D) × (decode_btp ind out ≡ some (btp_ok, o))
          × (o.lenght ≡ 2 ^ 32 - (4 - ind.lenght))
    unfolding fill
    decode_btp-lenght_wraps ok short = (filled, decode_btp_supported ok, omega arith)
