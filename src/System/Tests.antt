-- ===== src/System/Tests.antt =====
-- The theorems on the running program after a run: both periodic threads start, and a client stores a
-- passenger car.
use s_ldm.Common.{
  none, is_some, ap, ◌∙◌, ◌+◌, map, ◌≢◌, All, ◌&&◌, not, arith, ℕ, ◌≡◌, refl, true, false, some,
  List, length,
}
use s_ldm.Program.Threads.{
  end_updater, goes_on, ended, update, clean, Threads, start_cleaner, notify_all, make_visualizer,
  start_updater, looping, starting,
}
use s_ldm.Visualizer.{
  destroy, terminate_server, Visualizer, SocketCalls, ServerCalls, socket_open, start_server,
  connect_to_server, send_map_draw_areas, send_map, send, new_with, set_http_port,
}
use s_ldm.System.Safety.{
  Reach-dangling, Reach-shown, Reach-IsSound, Reach-IsStored, Reach-update, Reach-clean,
}
use s_ldm.Ldm.Listing.Lookup.{any-entry_at}
use s_ldm.Ldm.Listing.{any}
use s_ldm.Ldm.Insert.Effect.{lookup-entry_at}
use s_ldm.RestClient
use s_ldm.RestClient.Content.{sent_entries}
use s_ldm.Ldm.{Entry, uint64_max, lookup, entry, ok, History, LdmMap, set_central_lat_lon}
use s_ldm.System.Wakeup.{Reach-missed}
use s_ldm.System.Answers.{plain, Reach-listed, Reach-sent}
use s_ldm.System.{
  updated, received, System, initial, Reach, here, next, cleaner_started, updater_started,
}
use s_ldm.JsonServer
use s_ldm.JsonServer.Content.{station_ids}
use s_ldm.Ldm.Contents.{is_near, contents, only}
use s_ldm.Numeral.{to_string, Text}
use s_ldm.AmqpClient.{
  header_of, facility_header, property_header, station_id_of, manage_lowfreq_container,
}
use s_ldm.AmqpClient.Message.{
  State, Client, is_cam, degrees, of_ℤ, vehicle_of, is_discarded, on_cam, on_decoded, on_message,
}
use s_ldm.AmqpClient.Message.Effect.{on_cam-stored}
use s_ldm.AreaFilter.{is_inside}
use s_ldm.Decoder.Frontend.{decoded_cam_nogn, decode_etsi, is_geo_net, decode_facility, finish}
use s_ldm.Ldm.Scan.{is_older, delete_older_than}
use s_ldm.Ldm.Invariant.{IsValid}
use s_ldm.System.Backed.{IsStored}
use s_ldm.System.Shown.{is_shown, has_id}
use s_ldm.AmqpClient.Samples.{car, message, client, env, memory, header, one_cam}
use s_ldm.Decoder.Samples.{counting_asn}
use s_ldm.Common.Int.{pos}
use s_ldm.Ldm
use s_ldm.OptionString.{options_string_pop}
use s_ldm.Options.{Options, options_initialize, codes}
use s_ldm.Options.Parse.Step.{replicate}
use s_ldm.Options.Samples.{nat_scan}
use s_ldm.PathHistory.{PhData}
use s_ldm.PathHistory.Stored.{RingPoints, ring_history}
use s_ldm.Samples.{nat_double, no_point}

abbrev points : List (PhData ℕ)
points = replicate 300 no_point

points_full : length points ≡ 300
points_full = refl

instance abbrev history : History ℕ (RingPoints ℕ)
history = ring_history 0 points points_full

-- the default options, with the address of the server of the visualizer
abbrev opts : Options ℕ
opts = record client.opts {
  vehviz_nodejs_addr = record { buf = some (codes "127.0.0.1"); len = pos 9 };
}

abbrev server : ServerCalls
server = record {
  fifo_made = true;
  fifo_exists = false;
  fifo_opened = true;
  node_found = true;
  command_ok = true;
}

abbrev socket : SocketCalls
socket = record { socket = some 3; bind_ok = true; address_ok = true; connect_ok = true }

abbrev first : System ℕ (RingPoints ℕ)
first = initial opts

-- the cleaner waits
abbrev second : System ℕ (RingPoints ℕ)
second = record first { threads = start_cleaner true first.threads }

updater_result :
    (t : Threads ℕ) × (start_updater opts server socket true 9 second.clients.db second.threads
      ≡ some t)
    × (t.cleaner ≡ looping)
    × (t.updater ≡ looping)
    × (t.terminated ≡ false)
unfolding start_updater make_visualizer options_string_pop start_server connect_to_server
    socket_open send_map_draw_areas send_map send new_with set_http_port initial start_cleaner
    notify_all Ldm.new set_central_lat_lon options_initialize
updater_result = (_, refl, refl, refl, refl)

-- both threads are in their loops
abbrev third : System ℕ (RingPoints ℕ)
third = record second { threads = updater_result.0 }

second-starting : second.threads.updater ≡ starting
unfolding initial start_cleaner
second-starting = refl

run_third : Reach ℕ opts first third
unfolding initial
run_third =
    next (next here (cleaner_started true refl))
      (updater_started server socket true 9 second-starting updater_result.1)

abbrev reader : Client ℕ
reader = record client { opts = opts }

reader_inside : is_inside (some opts) (degrees car.latitude) (degrees car.longitude) ≡ true
unfolding is_inside degrees of_ℤ options_initialize
reader_inside = refl

reader_header : header_of opts message decoded_cam_nogn 0 car third.clients.db ≡ some header
unfolding header_of facility_header property_header initial Ldm.new set_central_lat_lon
    manage_lowfreq_container
reader_header = refl

reader_kept : is_discarded reader car header third.clients.db ≡ false
unfolding is_discarded
reader_kept = ground arith

third-room : third.clients.db.card ≢ uint64_max
unfolding initial Ldm.new set_central_lat_lon
third-room = omega arith

abbrev stored :
    (s' : State ℕ (RingPoints ℕ)) × (on_cam reader env message decoded_cam_nogn 0 car third.clients
      ≡ some s')
    × IsValid s'.db
    × ((p : ℕ) × (lookup (station_id_of car) s'.db
          ≡ (ok, some (entry (vehicle_of env message car header) p))))
    × (lookup 8 s'.db ≡ lookup 8 third.clients.db)
stored =
    on_cam-stored reader env message decoded_cam_nogn 0 car third.clients header
      (Reach-IsSound ℕ opts third run_third).db.valid third-room reader_inside reader_header
      reader_kept 8 (omega arith)

-- the car is stored
abbrev fourth : System ℕ (RingPoints ℕ)
fourth = record third { clients = stored.0 }

handled : on_message reader env memory message third.clients ≡ some stored.0
unfolding on_message on_decoded is_cam decode_etsi is_geo_net decode_facility finish
handled = stored.1

run_fourth : Reach ℕ opts first fourth
run_fourth = next run_third (received reader env memory message refl handled)

Reach-IsStored_example :
    IsValid fourth.clients.db × All (IsStored opts) (contents fourth.clients.db.ldmmap)
Reach-IsStored_example = Reach-IsStored ℕ opts fourth run_fourth

Reach-update_example :
    (w : Visualizer ℕ) × (update true 9 fourth.clients.db fourth.threads
      ≡ some (record fourth.threads { visualizer = some w }))
    × (is_shown (to_string 7) w ≡ is_some (lookup 7 fourth.clients.db).1)
Reach-update_example =
    Reach-update ℕ opts fourth 9 7 run_fourth updater_result.3 updater_result.4 (omega arith)

Reach-clean_example :
    (v w : Visualizer ℕ) × (fourth.threads.visualizer ≡ some v)
    × (clean true 5000000 fourth.clients.db fourth.threads
        ≡ some (
          delete_older_than 1000 5000000 fourth.clients.db,
          record fourth.threads { visualizer = some w },
        ))
    × ((id : Text)
        → is_shown id w ≡ (
            is_shown id v
            && not (
                any
                  (has_id id)
                  (only (is_older 1000 5000000) (contents fourth.clients.db.ldmmap)))))
Reach-clean_example =
    Reach-clean ℕ opts fourth 5000000 run_fourth updater_result.2 updater_result.3 updater_result.4

-- after a round of the updater the car is on the map
abbrev round :
    (w : Visualizer ℕ) × (update true 9 fourth.clients.db fourth.threads
      ≡ some (record fourth.threads { visualizer = some w }))
    × (is_shown (to_string 7) w ≡ is_some (lookup 7 fourth.clients.db).1)
round = Reach-update ℕ opts fourth 9 7 run_fourth updater_result.3 updater_result.4 (omega arith)

abbrev fifth : System ℕ (RingPoints ℕ)
fifth = record fourth { threads = record fourth.threads { visualizer = some round.0 } }

run_fifth : Reach ℕ opts first fifth
run_fifth = next run_fourth (updated true 9 updater_result.3 round.1)

car_found : is_some (lookup 7 stored.0.db).1 ≡ true
car_found = ap (λ u. is_some u.1) stored.3.1

Reach-shown_example : is_some (lookup 7 fifth.clients.db).1 ≡ true
Reach-shown_example =
    Reach-shown ℕ opts fifth round.0 7 run_fifth refl (omega arith) (round.2 ∙ car_found)

-- the wait of the updater fails
stopped_result :
    (t : Threads ℕ) × (update false 9 fourth.clients.db fourth.threads ≡ some t)
    × (t.updater ≡ ended)
    × (t.terminated ≡ false)
unfolding update end_updater goes_on destroy terminate_server updater_result
stopped_result = (_, refl, refl, refl)

abbrev sixth : System ℕ (RingPoints ℕ)
sixth = record fourth { threads = stopped_result.0 }

run_sixth : Reach ℕ opts first sixth
run_sixth = next run_fourth (updated false 9 updater_result.3 stopped_result.1)

car_old : any (is_older 1000 5000000) (contents stored.0.db.ldmmap) ≡ true
unfolding is_older vehicle_of
car_old =
    let (p, found) = stored.3 in
    any-entry_at (is_older 1000 5000000) 0 7 stored.0.db.ldmmap
      (entry (vehicle_of env message car header) p)
      (ground (arith, found, lookup-entry_at 7 stored.0.db)) refl

Reach-dangling_example : clean true 5000000 sixth.clients.db sixth.threads ≡ none
Reach-dangling_example =
    Reach-dangling ℕ opts sixth 5000000 run_sixth stopped_result.2 stopped_result.3 car_old

-- the updater starts before the cleaner waits
early_result :
    (t : Threads ℕ) × (start_updater opts server socket true 9 first.clients.db first.threads
      ≡ some t)
    × (t.cleaner ≡ starting)
    × (t.updater ≡ looping)
unfolding start_updater make_visualizer options_string_pop start_server connect_to_server
    socket_open send_map_draw_areas send_map send new_with set_http_port initial notify_all Ldm.new
    set_central_lat_lon options_initialize
early_result = (_, refl, refl, refl)

abbrev early : System ℕ (RingPoints ℕ)
early = record first { threads = early_result.0; clients = stored.0 }

run_early : Reach ℕ opts first early
unfolding initial
run_early =
    next (next here (updater_started server socket true 9 refl early_result.1))
      (received reader env memory message refl handled)

-- the cleaner begins to wait
abbrev late : System ℕ (RingPoints ℕ)
late = record early { threads = start_cleaner true early.threads }

Reach-missed_example :
    (late.threads.cleaner ≢ looping) × (is_some (lookup 7 late.clients.db).1 ≡ true)
Reach-missed_example =
    Reach-missed ℕ opts early late 7 run_early early_result.2 early_result.3 (omega arith) car_found
      (next here (cleaner_started true early_result.2))

Reach-listed_example :
    (js : List (JsonServer.VehicleJson ℕ)) × (answer : JsonServer.SldmJson ℕ)
    × (JsonServer.make_sldm_json 50 5000000 (plain fourth.clients.db) 1000 1000 0 ≡ some answer)
    × (answer.vehicles ≡ some js)
    × (map (λ (j : JsonServer.VehicleJson ℕ). j.station_id) js
        ≡ station_ids (only (is_near 50 1000 1000) (contents fourth.clients.db.ldmmap)))
Reach-listed_example =
    Reach-listed ℕ opts 0 points points_full fourth 50 5000000 1000 1000 0 run_fourth

instance abbrev sum_geodesic : RestClient.Geodesic ℕ
sum_geodesic = record { inverse = λ a b c d. a + b + c + d }

abbrev car_entry : Entry ℕ
car_entry = entry (vehicle_of env message car header) stored.3.0

car_plain : lookup 7 (plain fourth.clients.db) ≡ (ok, some car_entry)
unfolding lookup
car_plain = stored.3.1

Reach-sent_example :
    (js : List (RestClient.VehicleJson ℕ)) × (answer : RestClient.SldmJson ℕ)
    × (RestClient.make_sldm_json 50 7 5000000 1 (plain fourth.clients.db) ≡ some answer)
    × (answer.error ≡ codes "OK")
    × (answer.vehicles ≡ some js)
    × (map (λ (j : RestClient.VehicleJson ℕ). j.station_id) js
        ≡ station_ids (
            sent_entries (
              only
                (is_near 50 car_entry.veh_data.lat car_entry.veh_data.lon)
                (contents fourth.clients.db.ldmmap))))
Reach-sent_example =
    Reach-sent ℕ opts 0 points points_full fourth 50 7 5000000 1 car_entry run_fourth car_plain
