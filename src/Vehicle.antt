-- ===== src/Vehicle.antt =====
-- include/vehicleDataDef.h: what the database stores for each vehicle.
use Prim.Native.String.{String}
use s_ldm.Common.{ℕ, Bool, true, false, Option, none, some}

-- `OptionalDataItem<T>`: the item is there exactly when `m_available` is true, so that the pair of
-- a flag and an item that is meaningful only under the flag is an option.
abbrev pub OptionalDataItem : Type 0 → Type 0
OptionalDataItem T = Option T

-- `isAvailable()`
abbrev pub is_available : {T : Type 0} → OptionalDataItem T → Bool
is_available none = false
is_available (some x) = true

-- the effect of `setData()`, whose missing `return` is not modelled
abbrev pub set_data : {T : Type 0} → T → OptionalDataItem T → OptionalDataItem T
set_data x item = some x

-- `vehicleData_t` over a type of doubles. The station type is the number of its enumerator.
pub record VehicleData (D : Type 0) : Type 0 where
  pub station_id : ℕ
  pub lat : D
  pub lon : D
  pub elevation : D
  pub heading : D
  pub speed_ms : D
  pub gn_timestamp : ℕ
  pub cam_timestamp : ℕ
  pub timestamp_us : ℕ
  pub on_msg_timestamp_us : ℕ
  pub vehicle_width : OptionalDataItem ℕ
  pub vehicle_length : OptionalDataItem ℕ
  pub station_type : ℕ
  pub source_quadkey : String
  pub exterior_lights : OptionalDataItem ℕ
