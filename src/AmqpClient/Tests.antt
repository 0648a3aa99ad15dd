-- ===== src/AmqpClient/Tests.antt =====
-- The theorems on the AMQP client at a CAM without GeoNetworking. A path history is the list of its
-- latitudes.
use s_ldm.AmqpClient.{header_of, facility_header, property_header, station_id_of}
use s_ldm.AmqpClient.Age.{is_too_old, is_too_old_lem}
use s_ldm.AmqpClient.Message.{
  Client, State, is_cam, degrees, of_ℤ, vehicle_of, is_discarded, on_cam, on_decoded, on_message,
}
use s_ldm.AmqpClient.Message.Effect.{IsUntouched, on_cam-no_trigger, on_cam-stored}
use s_ldm.AmqpClient.Message.Laws.{IsReceived, on_message-db}
use s_ldm.AmqpClient.Message.Unlogged.{without_age_check, on_message-without_age_check}
use s_ldm.AreaFilter.{is_inside, is_inside_internal}
use s_ldm.Common.{
  ℕ, ◌+◌, ◌-◌, ◌%◌, ◌^◌, ◌≡◌, ◌≢◌, ◌⊎◌, inl, refl, true, false, none, some, List, [], ◌∷◌, arith,
}
use s_ldm.Decoder.Frontend.{decoded_cam_nogn, decode_etsi, is_geo_net, decode_facility, finish}
use s_ldm.Decoder.Samples.{counting_asn}
use s_ldm.Ldm.{History, entry, ok, uint64_max, new, lookup}
use s_ldm.Ldm.Invariant.{IsValid, new-IsValid}
use s_ldm.Options.{options_initialize}
use s_ldm.Options.Samples.{nat_scan}
use s_ldm.Samples.{nat_double}
use s_ldm.AmqpClient.Samples.{car, one_cam, message, client, env, memory, header}

instance abbrev list_history : History ℕ (List ℕ)
list_history = record { create = []; record_point = λ v p. v.lat ∷ p }

abbrev start : State ℕ (List ℕ)
start = record {
  db = new 0;
  trigger = record {
    has_db = true;
    opts = none;
    left_indicator_enabled = false;
    already_triggered = [];
  };
  rest_clients = [];
}

car_inside : is_inside (some client.opts) (degrees car.latitude) (degrees car.longitude) ≡ true
unfolding is_inside degrees of_ℤ options_initialize
car_inside = refl

car_header : header_of client.opts message decoded_cam_nogn 0 car start.db ≡ some header
unfolding header_of facility_header property_header
car_header = refl

car_kept : is_discarded client car header start.db ≡ false
unfolding is_discarded
car_kept = ground arith

start-room : start.db.card ≢ uint64_max
unfolding new
start-room = omega arith

on_cam-stored_example :
    (s' : State ℕ (List ℕ)) × (on_cam client env message decoded_cam_nogn 0 car start ≡ some s')
    × IsValid s'.db
    × ((p : ℕ) × (lookup (station_id_of car) s'.db
          ≡ (ok, some (entry (vehicle_of env message car header) p))))
    × (lookup 8 s'.db ≡ lookup 8 start.db)
on_cam-stored_example =
    on_cam-stored client env message decoded_cam_nogn 0 car start header (new-IsValid 0) start-room
      car_inside car_header car_kept 8 (omega arith)

abbrev stored :
    (s' : State ℕ (List ℕ)) × (on_cam client env message decoded_cam_nogn 0 car start ≡ some s')
    × IsValid s'.db
    × ((p : ℕ) × (lookup (station_id_of car) s'.db
          ≡ (ok, some (entry (vehicle_of env message car header) p))))
    × (lookup 8 s'.db ≡ lookup 8 start.db)
stored =
    on_cam-stored client env message decoded_cam_nogn 0 car start header (new-IsValid 0) start-room
      car_inside car_header car_kept 8 (omega arith)

abbrev after : State ℕ (List ℕ)
after = stored.0

on_message-after : on_message client env memory message start ≡ some after
unfolding on_message on_decoded is_cam decode_etsi is_geo_net decode_facility finish
on_message-after = stored.1

on_message-db_example : (after.db ≡ start.db) ⊎ IsReceived client env message start memory after.db
on_message-db_example = on_message-db client env message start memory after on_message-after

-- a client for which the car is not in the internal area
abbrev outer_client : Client ℕ
outer_client = record client {
  opts = record options_initialize { min_lat = 1001; max_lat = 1001; ext_lat_factor = 1 };
}

outer :
    is_inside_internal (some outer_client.opts) (degrees car.latitude) (degrees car.longitude)
    ≡ false
unfolding is_inside_internal degrees of_ℤ
outer = refl

no_cross_border : outer_client.opts.cross_border_trigger ≡ false
unfolding options_initialize
no_cross_border = refl

outer_inside :
    is_inside (some outer_client.opts) (degrees car.latitude) (degrees car.longitude) ≡ true
unfolding is_inside degrees of_ℤ options_initialize
outer_inside = refl

outer_header : header_of outer_client.opts message decoded_cam_nogn 0 car start.db ≡ some header
unfolding header_of facility_header property_header
outer_header = refl

outer_kept : is_discarded outer_client car header start.db ≡ false
unfolding is_discarded
outer_kept = ground arith

abbrev outer_stored :
    (s' : State ℕ (List ℕ)) × (on_cam outer_client env message decoded_cam_nogn 0 car start
      ≡ some s')
    × IsValid s'.db
    × ((p : ℕ) × (lookup (station_id_of car) s'.db
          ≡ (ok, some (entry (vehicle_of env message car header) p))))
    × (lookup 8 s'.db ≡ lookup 8 start.db)
outer_stored =
    on_cam-stored outer_client env message decoded_cam_nogn 0 car start header (new-IsValid 0)
      start-room outer_inside outer_header outer_kept 8 (omega arith)

on_cam-no_trigger_example : IsUntouched start outer_stored.0
on_cam-no_trigger_example =
    on_cam-no_trigger outer_client env message decoded_cam_nogn 0 car start outer_stored.0
      (inl (no_cross_border, outer)) outer_stored.1

is_too_old_lem_example :
    (is_too_old ((2 ^ 32 - 5 + 8) % 2 ^ 32) (2 ^ 32 - 5) ≡ false)
    × (is_too_old ((2 ^ 32 - 5 + 2 ^ 32 - 1) % 2 ^ 32) (2 ^ 32 - 5) ≡ true)
is_too_old_lem_example =
    is_too_old_lem (2 ^ 32 - 5) 8 1 (omega arith) (omega arith) (omega arith) (omega arith)

on_message-without_age_check_example :
    on_message client env memory message start
    ≡ on_message (without_age_check client) env memory message start
on_message-without_age_check_example =
    on_message-without_age_check client refl env message start memory
