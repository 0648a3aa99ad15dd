-- ===== src/Relayer/Simulator.antt =====
-- tester/ms-van3t-patch/metadata-header.cc: what the patched simulator puts in front of a packet.
use s_ldm.Common.{ℕ, [], ◌∷◌, ◌++◌}
use s_ldm.Decoder.Bytes.{Bytes, be32}

-- eight bytes
pub record Word8 : Type 0 where
  pub w0 : ℕ
  pub w1 : ℕ
  pub w2 : ℕ
  pub w3 : ℕ
  pub w4 : ℕ
  pub w5 : ℕ
  pub w6 : ℕ
  pub w7 : ℕ

abbrev pub word8_bytes : Word8 → Bytes
word8_bytes s = s.w0 ∷ s.w1 ∷ s.w2 ∷ s.w3 ∷ s.w4 ∷ s.w5 ∷ s.w6 ∷ s.w7 ∷ []

-- tester/ms-van3t-patch/metadata-header.h: what the simulator puts in front of a packet; the station
-- ID as its eight bytes in network order, the other two as bit patterns
pub record SimulatorMetadata : Type 0 where
  pub station_id : Word8
  pub lat : ℕ
  pub lon : ℕ

-- `GNMetadataHeader::Serialize`
unfoldable pub serialize : SimulatorMetadata → Bytes
serialize m = word8_bytes m.station_id ++ (be32 m.lat ++ be32 m.lon)
