-- ===== src/AmqpClient/Message.antt =====
-- src/AMQPclient.cpp, `AMQPClient::on_message`. The clock and what the uninitialised memory holds are
-- arguments; text for the log and the terminal is left out.
pub mod Laws
pub mod Effect
pub mod Unlogged
use s_ldm.AmqpClient.{
  Cam, CamView, ProtonMessage, Header, passenger_car, unspecified, station_id_of, header_of,
  quadkey_of,
}
use s_ldm.AmqpClient.Age.{is_too_old}
use s_ldm.AreaFilter.{is_inside, is_inside_internal}
use s_ldm.Common.{
  ℕ, ◌*◌, ◌%◌, ◌^◌, Bool, true, false, ◌&&◌, ◌||◌, not, Option, none, some, List, [], ◌∷◌, ◌++◌,
  ◌==◌, if◌then◌else◌,
}
use s_ldm.Common.Int.{ℤ, pos, negsuc, pos_part, neg_part}
use s_ldm.Decoder.Btp.{BtpDataIndication}
use s_ldm.Decoder.Bytes.{◌>>=◌}
use s_ldm.Decoder.Frontend.{
  Asn, DecodedData, DecodedType, decoded_cam, decoded_cam_nogn, decoder_ok, decode_etsi,
  msgtype_auto,
}
use s_ldm.Decoder.GeoNet.{GnDataIndication}
use s_ldm.Double.{Double}
use s_ldm.Ldm.{History, LdmMap, lookup, insert}
use s_ldm.Options.{Options}
use s_ldm.TriggerManager.{TriggerManager, RestClient, check_and_trigger}
use s_ldm.Vehicle.{VehicleData, OptionalDataItem}

-- what the client reads of its members
pub record Client (D : Type 0) : Type 0 where
  pub opts : Options D
  -- `m_indicatorTrgMan_enabled`
  pub trigger_enabled : Bool
  -- `m_logfile_name != ""`
  pub logging : Bool

-- the database and the trigger manager that the client points to, and the clients that it started
pub record State (D P : Type 0) : Type 0 where
  pub db : LdmMap D P
  pub trigger : TriggerManager D
  pub rest_clients : List (RestClient D)

-- the two times taken from the clock, and whether the memory for a new client is there
pub record Surroundings : Type 0 where
  pub on_msg_timestamp_us : ℕ
  pub timestamp_us : ℕ
  pub allocated : Bool

-- the memory of the objects that the code does not initialise
pub record Memory (D M : Type 0) : Type 0 where
  pub gn : GnDataIndication D
  pub btp : BtpDataIndication D
  pub decoded : DecodedData M

unfoldable pub is_cam : DecodedType → Bool
is_cam decoded_cam = true
is_cam decoded_cam_nogn = true
is_cam _ = false

-- an item of the message, in hundredths, unless it is the number for an unavailable one
unfoldable pub item_of : (unavailable value : ℕ) → OptionalDataItem ℕ
item_of unavailable value = if value == unavailable then none else some (value * 100)

module _ {D : Type 0} ⦃dbl : Double D⦄ where
  unfoldable pub of_ℤ : ℤ → D
  of_ℤ (pos n) = dbl.of_ℕ n
  of_ℤ (negsuc n) = dbl.sub (dbl.of_ℕ 0) (dbl.of_ℕ (neg_part (negsuc n)))

  -- a coordinate, in ten millionths of a degree
  unfoldable pub degrees : ℤ → D
  unfolding of_ℤ
  degrees z = dbl.div (of_ℤ z) (dbl.of_ℕ 10_000_000)

  -- the data that is stored
  unfoldable pub vehicle_of : Surroundings → ProtonMessage → Cam → Header → VehicleData D
  unfolding degrees of_ℤ item_of quadkey_of
  vehicle_of env msg cam header = record {
    station_id = station_id_of cam;
    lat = degrees cam.latitude;
    lon = degrees cam.longitude;
    elevation = dbl.div (of_ℤ cam.altitude_value) (dbl.of_ℕ 100);
    heading = dbl.div (dbl.of_ℕ cam.heading_value) (dbl.of_ℕ 10);
    speed_ms = dbl.div (dbl.of_ℕ cam.speed_value) (dbl.of_ℕ 100);
    gn_timestamp = header.gn_timestamp;
    cam_timestamp = cam.generation_delta_time;
    timestamp_us = env.timestamp_us;
    on_msg_timestamp_us = env.on_msg_timestamp_us;
    vehicle_width = item_of 62 cam.vehicle_width;
    vehicle_length = item_of 1023 cam.vehicle_length;
    station_type = header.station_type;
    source_quadkey = quadkey_of msg;
    exterior_lights = header.exterior_lights;
  }

  -- the conditions on the call of the trigger manager
  unfoldable pub may_trigger : Client D → VehicleData D → Bool
  may_trigger c v =
      c.trigger_enabled
      && (c.opts.cross_border_trigger || is_inside_internal (some c.opts) v.lat v.lon)
      && (not c.opts.interop_hijack_enable || v.station_type == passenger_car)

module _ {D P : Type 0} where
  -- whether the data is older than what the database has
  unfoldable pub is_older_than_stored : (station_id gn_timestamp : ℕ) → LdmMap D P → Bool
  is_older_than_stored station_id gn_timestamp db = elim (lookup station_id db).1 [
    | none ↦ false
    | some e ↦ is_too_old gn_timestamp e.veh_data.gn_timestamp
  ]

  -- The age check. The `return` stands in the branch that writes the log.
  unfoldable pub is_discarded : Client D → Cam → Header → LdmMap D P → Bool
  unfolding is_older_than_stored
  is_discarded c cam header db =
      c.opts.age_check_enabled
      && not (header.gn_timestamp == unspecified)
      && is_older_than_stored (station_id_of cam) header.gn_timestamp db
      && c.logging

module _ {D P : Type 0} ⦃dbl : Double D⦄ where
  -- the call of the trigger manager
  unfoldable pub call_trigger : Surroundings → VehicleData D → ℕ → State D P → State D P
  call_trigger env v lights s =
      let (started, client, trigger) =
        check_and_trigger v.lat v.lon v.station_id lights env.allocated s.trigger in
      elim client [
        | none ↦ record s { trigger = trigger }
        | some r ↦ record s { trigger = trigger; rest_clients = s.rest_clients ++ r ∷ [] }
      ]

  unfoldable pub check_trigger : Client D → Surroundings → VehicleData D → State D P → State D P
  unfolding call_trigger may_trigger
  check_trigger c env v s = elim v.exterior_lights [
    | none ↦ s
    | some lights ↦ if may_trigger c v then call_trigger env v lights s else s
  ]

  module _ ⦃hist : History D P⦄ where
    -- from the age check on
    unfoldable pub store :
        Client D → Surroundings → ProtonMessage → Cam → Header → State D P → Option (State D P)
    unfolding vehicle_of is_discarded check_trigger
    store c env msg cam header s =
        let v = vehicle_of env msg cam header in
        let stored =
          insert v s.db >>= λ (status, db). some (check_trigger c env v (record s { db = db })) in
        if is_discarded c cam header s.db then some s else stored

    -- what is done with a CAM; the area filter points to the same options
    unfoldable pub on_cam :
        Client D
        → Surroundings
        → ProtonMessage
        → DecodedType
        → (gn_timestamp : ℕ) → Cam
        → State D P
        → Option (State D P)
    unfolding store degrees header_of
    on_cam c env msg type gn_timestamp cam s =
        let inside = header_of c.opts msg type gn_timestamp cam s.db >>= λ header.
        store c env msg cam header s in
        if is_inside (some c.opts) (degrees cam.latitude) (degrees cam.longitude)
        then inside
        else some s

    module _ {M : Type 0} ⦃asn : Asn M⦄ ⦃cams : CamView M⦄ where
      -- what is done with a decoded message
      unfoldable pub on_decoded :
          Client D → Surroundings → ProtonMessage → DecodedData M → State D P → Option (State D P)
      unfolding on_cam is_cam
      on_decoded c env msg data' s =
          let handled = data'.decoded_msg >>= λ m.
          on_cam c env msg data'.type data'.gn_timestamp (cams.view m) s in
          if is_cam data'.type then handled else some s

      unfoldable pub on_message :
          Client D → Surroundings → Memory D M → ProtonMessage → State D P → Option (State D P)
      unfolding on_decoded
      on_message c env memory msg s = elim msg.body [
        | none ↦ some s
        | some body ↦
            decode_etsi msgtype_auto body memory.gn memory.btp memory.decoded >>= λ (code, data').
            let handled = on_decoded c env msg data' s in
            if code == decoder_ok then handled else some s
      ]
