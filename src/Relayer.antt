-- ===== src/Relayer.antt =====
-- tester/UDP-AMQP-relayer: the tool that takes the datagrams of a simulator and sends them on to an
-- AMQP broker. Qpid Proton is left out but for the messages that it is given; a read out of the
-- buffer is `none`. The station ID is only printed.
pub mod Laws
pub mod Simulator
mod Reads
mod Tests
use s_ldm.Decoder.Bytes.{be32, Bytes, ◌>>=◌, load32, swap_32bit}
use s_ldm.Common.{
  ℕ, Bool, true, false, Option, none, some, List, [], ◌∷◌, ◌++◌, ◌&&◌, ◌==◌, ltb, leb, length, drop,
  if◌then◌else◌,
}
use s_ldm.Common.Int.{ℤ, pos, pos_part, ltb_ℤ}
use s_ldm.Double.{Double}
use s_ldm.Numeral.{Text}
use s_ldm.QuadKey.Tile.{Projection, clamp_level, position_key}

-- a message for the broker: its two properties, one under the name that is configured, and its body
pub record RelayedMessage : Type 0 where
  pub quadkeys : Text
  pub gn_timestamp_name : Text
  pub gn_timestamp : ℕ
  pub body : Bytes

-- the parameters, whether the work queue is there, whether the sender is ready, and what it was given
pub record Relayer : Type 0 where
  pub broker_address : Text
  pub queue_name : Text
  pub gn_timestamp_name : Text
  pub has_queue : Bool
  pub sender_ready : Bool
  pub sent : List RelayedMessage

-- the constructors, and `set_args`
unfoldable pub new_relayer : (broker_address queue_name gn_timestamp_name : Text) → Relayer
new_relayer broker_address queue_name gn_timestamp_name = record {
  broker_address = broker_address;
  queue_name = queue_name;
  gn_timestamp_name = gn_timestamp_name;
  has_queue = false;
  sender_ready = false;
  sent = [];
}

unfoldable pub new_empty : Relayer
unfolding new_relayer
new_empty = new_relayer [] [] []

unfoldable pub set_args : (broker_address queue_name gn_timestamp_name : Text) → Relayer → Relayer
set_args broker_address queue_name gn_timestamp_name r = record r {
  broker_address = broker_address;
  queue_name = queue_name;
  gn_timestamp_name = gn_timestamp_name;
}

unfoldable pub on_sender_open : Relayer → Relayer
on_sender_open r = record r { has_queue = true; sender_ready = true }

-- the members of the structure in front of a packet that are used, in the order of the host
pub record Metadata : Type 0 where
  pub lat : ℕ
  pub lon : ℕ
  pub gn_timestamp : ℕ

-- `sizeof(GNmetadata_t)`, with four bytes behind the members
abbrev pub metadata_size : ℕ
metadata_size = 24

-- `memcpy` and `ntohl`
unfoldable pub read_metadata : Bytes → Option Metadata
unfolding load32
read_metadata buffer = do
  lat ← load32 8 buffer
  lon ← load32 12 buffer
  gn_timestamp ← load32 16 buffer
  some (record {
    lat = swap_32bit lat;
    lon = swap_32bit lon;
    gn_timestamp = swap_32bit gn_timestamp;
  })

module _ {D : Type 0} ⦃dbl : Double D⦄ where
  -- `ntohl` returns a `uint32_t`, which is converted to a double
  unfoldable pub relayed_degrees : ℕ → D
  relayed_degrees n = dbl.div (dbl.of_ℕ n) (dbl.of_ℕ 10_000_000)

  module _ ⦃proj : Projection D⦄ where
    -- `sendCAM_AMQP`; the level of detail that it is given is not used
    unfoldable pub send_cam_amqp :
        Bytes → (lat lon : D) (lev : ℤ) (gn_timestamp : ℕ) → Relayer → Relayer
    unfolding clamp_level
    send_cam_amqp buffer lat lon lev gn_timestamp r =
        let m : RelayedMessage = record {
          quadkeys = position_key (clamp_level (pos 18)) lat lon;
          gn_timestamp_name = r.gn_timestamp_name;
          gn_timestamp = gn_timestamp;
          body = buffer;
        } in
        if r.has_queue then record r { sent = r.sent ++ m ∷ [] } else r

module _ (D : Type 0) ⦃dbl : Double D⦄ ⦃proj : Projection D⦄ where
  -- a round of the loop of `main`, at the bytes that `recvfrom` has written
  unfoldable pub relay : (skip_gn : Bool) → Bytes → Relayer → Option Relayer
  unfolding read_metadata relayed_degrees send_cam_amqp
  relay skip_gn buffer r =
      let relayed = read_metadata buffer >>= λ m. some (
        send_cam_amqp (drop (if skip_gn then 68 else metadata_size) buffer)
          (relayed_degrees {D = D} m.lat) (relayed_degrees m.lon) (pos 16) m.gn_timestamp r) in
      if ltb (length buffer) 40
      then some r
      else (if skip_gn && leb (length buffer) 68 then some r else relayed)

  -- The loop, over what `recvfrom` gives before the flag of the threads is set; `none` is its -1.
  unfoldable pub relay_all : (skip_gn : Bool) → List (Option Bytes) → Relayer → Option Relayer
  unfolding relay
  relay_all skip_gn [] r = some r
  relay_all skip_gn (none ∷ received) r = relay_all skip_gn received r
  relay_all skip_gn (some buffer ∷ received) r =
      relay skip_gn buffer r >>= λ r'. relay_all skip_gn received r'
