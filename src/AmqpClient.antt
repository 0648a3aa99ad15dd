-- ===== src/AmqpClient.antt =====
-- include/AMQPclient.h and src/AMQPclient.cpp: the client that receives the messages of one broker.
-- The messages of Qpid Proton are a parameter, and so are the fields of a decoded CAM.
mod Tests
pub mod Samples
pub mod Connection
pub mod Age
pub mod Message
use Prim.Native.String.{String}
use s_ldm.Common.{
  ℕ, ◌+◌, ◌-◌, ◌*◌, ◌/◌, ◌%◌, ◌^◌, Bool, true, false, ◌&&◌, not, Option, none, some, ◌==◌, ltb,
  if◌then◌else◌,
}
use s_ldm.Common.Int.{ℤ, pos, negsuc, wrap}
use s_ldm.Decoder.Bytes.{Bytes, ◌>>=◌}
use s_ldm.Decoder.Frontend.{DecodedType, decoded_cam}
use s_ldm.Double.{Double}
use s_ldm.Ldm.{LdmMap, lookup}
use s_ldm.Numeral.{Text}
use s_ldm.OptionString.{options_string_pop}
use s_ldm.Options.{Options, codes}
use s_ldm.Vehicle.{OptionalDataItem}

-- What the client reads of a `CAM_t`. The low frequency container is `none` where its pointer is
-- null; in it, the first byte of the exterior lights is `none` where their buffer is null.
pub record Cam : Type 0 where
  pub station_id : ℕ
  pub station_type : ℕ
  pub latitude : ℤ
  pub longitude : ℤ
  pub altitude_value : ℤ
  pub heading_value : ℕ
  pub speed_value : ℕ
  pub drive_direction : ℕ
  pub vehicle_width : ℕ
  pub vehicle_length : ℕ
  pub generation_delta_time : ℕ
  pub low_frequency_container : Option (Option ℕ)

-- `uint32_t stationID`
abbrev pub station_id_of : Cam → ℕ
station_id_of cam = cam.station_id % 2 ^ 32

-- a decoded message as a CAM
pub record CamView (M : Type 0) : Type 0 where
  pub view : M → Cam

-- `proton::scalar`, as far as its type is looked at
pub data Scalar : Type 0 where
  long : ℤ → Scalar
  string : String → Scalar
  other : Scalar

-- the body, where it is binary, and the properties of a `proton::message`; a key that is not there
-- gives an empty scalar
pub record ProtonMessage : Type 0 where
  pub body : Option Bytes
  pub properties_size : ℕ
  pub property : Text → Scalar

abbrev pub passenger_car : ℕ
passenger_car = 5

abbrev pub specific_category_vehicle_1 : ℕ
specific_category_vehicle_1 = 100

-- UINT64_MAX, for a timestamp that is not specified
abbrev pub unspecified : ℕ
unspecified = 2 ^ 64 - 1

module _ {D P : Type 0} where
  -- the lights that the database has for the vehicle, where it is known
  unfoldable pub stored_lights : ℕ → LdmMap D P → OptionalDataItem ℕ
  stored_lights station_id db = elim (lookup station_id db).1 [
    | none ↦ none
    | some e ↦ e.veh_data.exterior_lights
  ]

  unfoldable pub manage_lowfreq_container : Cam → ℕ → LdmMap D P → OptionalDataItem ℕ
  manage_lowfreq_container cam station_id db = elim cam.low_frequency_container [
    | some lights ↦ lights
    | none ↦ stored_lights station_id db
  ]

-- `ext_lights |= 1 << (driveDirection + 3)` on a `uint8_t`, for a direction that is not 0
unfoldable pub hijacked_lights : (drive_direction : ℕ) → ℕ
hijacked_lights drive_direction =
    if drive_direction == 0 then 0 else 2 ^ (drive_direction + 3) % 2 ^ 8

-- the station type that is stored for a message with a GeoNetworking header
unfoldable pub gn_station_type : (interop_hijack_enable : Bool) → ℕ → ℕ
gn_station_type interop_hijack_enable station_type =
    if interop_hijack_enable && station_type == passenger_car
    then specific_category_vehicle_1
    else station_type

-- what the message type decides: the timestamp, the lights and the station type
pub record Header : Type 0 where
  pub gn_timestamp : ℕ
  pub exterior_lights : OptionalDataItem ℕ
  pub station_type : ℕ

module _ {D P : Type 0} where
  unfoldable pub gn_header : Options D → ℕ → Cam → LdmMap D P → Header
  gn_header o gn_timestamp cam db = record {
    gn_timestamp = gn_timestamp;
    exterior_lights = manage_lowfreq_container cam (station_id_of cam) db;
    station_type = gn_station_type o.interop_hijack_enable cam.station_type;
  }

  -- the timestamp and the lights, from the property with the timestamp
  unfoldable pub property_header : Options D → Scalar → Cam → LdmMap D P → Header
  property_header o (long z) cam db = record {
    gn_timestamp = wrap (2 ^ 64) z;
    exterior_lights =
        if o.ext_lights_hijack_enable
        then some (hijacked_lights cam.drive_direction)
        else manage_lowfreq_container cam (station_id_of cam) db;
    station_type = cam.station_type;
  }
  property_header o _ cam db = record {
    gn_timestamp = unspecified;
    exterior_lights = none;
    station_type = cam.station_type;
  }

  -- a message without GeoNetworking; a `std::string` from a null pointer is a fault
  unfoldable pub facility_header : Options D → ProtonMessage → Cam → LdmMap D P → Option Header
  facility_header o msg cam db =
      if ltb 0 msg.properties_size
      then (options_string_pop o.gn_timestamp_property >>= λ key.
          some (property_header o (msg.property key) cam db))
      else some (property_header o other cam db)

  unfoldable pub header_of :
      Options D → ProtonMessage → DecodedType → ℕ → Cam → LdmMap D P → Option Header
  header_of o msg decoded_cam gn_timestamp cam db = some (gn_header o gn_timestamp cam db)
  header_of o msg _ gn_timestamp cam db = facility_header o msg cam db

-- the source quadkey
unfoldable pub quadkey_of : ProtonMessage → String
quadkey_of msg =
    if ltb 0 msg.properties_size
    then elim (msg.property (codes "quadkeys")) [ string s ↦ s | _ ↦ "" ]
    else ""
