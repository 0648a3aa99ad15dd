-- ===== src/Relayer/Laws.antt =====
-- What the relayer sends for a datagram.
use s_ldm.Common.{ℕ, ◌<◌, ◌^◌}
use s_ldm.Relayer.{Relayer, relayed_degrees, send_cam_amqp}
use s_ldm.Relayer.Simulator.{SimulatorMetadata}
use s_ldm.Decoder.Bytes.{Bytes}
use s_ldm.Decoder.GeoNet.Wire
use s_ldm.Common.Int.{pos}
use s_ldm.Double.{Double}
use s_ldm.QuadKey.Tile.{Projection}

-- the two coordinates are bit patterns of 32 bits
pub record InRange (m : SimulatorMetadata) : Type 0 where
  pub lat : m.lat < 2 ^ 32
  pub lon : m.lon < 2 ^ 32

module _ (D : Type 0) ⦃dbl : Double D⦄ ⦃proj : Projection D⦄ where
  -- what is sent for a body
  abbrev pub sent_on : SimulatorMetadata → (gn_timestamp : ℕ) → Bytes → Relayer → Relayer
  sent_on m gn_timestamp body r =
      send_cam_amqp body (relayed_degrees {D = D} m.lat) (relayed_degrees m.lon) (pos 16)
        gn_timestamp r
