-- ===== src/Relayer/Tests.antt =====
-- The theorem on the relayer at a single-hop broadcast with a BTP header and ten bytes.
use s_ldm.Common.{[], ◌∷◌, ◌++◌, ℕ}
use s_ldm.Decoder.Bytes.{Bytes, be16}
use s_ldm.Decoder.GeoNet.Packets.{shb_packet}
use s_ldm.Decoder.GeoNet.{tsb}
use s_ldm.Decoder.Samples.{
  address, position, position-InRange, basic, common, common-IsAccepted, fresh,
}
use s_ldm.Options.{codes}
use s_ldm.QuadKey.Tile.{Projection}
use s_ldm.Relayer.{Relayer, new_relayer, on_sender_open}
use s_ldm.Relayer.Simulator.{SimulatorMetadata}
use s_ldm.Samples.{nat_double}

-- a projection that keeps each number
instance abbrev plain : Projection ℕ
plain = record { log = λ x. x; floor = λ x. x; ceil = λ x. x; to_int = λ x. x }

abbrev front : SimulatorMetadata
front = record {
  station_id = record { w0 = 0; w1 = 0; w2 = 0; w3 = 0; w4 = 0; w5 = 0; w6 = 0; w7 = 7 };
  lat = 450000000;
  lon = 76000000;
}

-- a BTP header and ten bytes
abbrev long_payload : Bytes
long_payload = be16 2001 ++ (be16 0 ++ (1 ∷ 2 ∷ 3 ∷ 4 ∷ 5 ∷ 6 ∷ 7 ∷ 8 ∷ 9 ∷ 10 ∷ []))

abbrev long_packet : Bytes
long_packet =
    shb_packet basic (common tsb) (common-IsAccepted tsb) fresh address position position-InRange
      long_payload (0 ∷ 0 ∷ 0 ∷ 0 ∷ [])

-- a relayer whose sender is open
abbrev ready : Relayer
ready = on_sender_open (new_relayer (codes "127.0.0.1:5672") (codes "topic://cam") (codes "gn_ts"))
