-- ===== src/Program/Threads.antt =====
-- src/main.cpp: the thread that deletes old entries and the thread of the visualizer, which share the
-- database, the object of the visualizer and `terminatorFlag`. Each is the sequence of its sections
-- between two waits, and `none` is the end of the process by `exit` or an exception.
use s_ldm.Common.{ℕ, Bool, true, false, Option, none, some, if◌then◌else◌}
use s_ldm.Common.Int.{pos}
use s_ldm.Decoder.Bytes.{◌>>=◌}
use s_ldm.Double.{Double}
use s_ldm.Ldm.{LdmMap}
use s_ldm.Ldm.Scan.{delete_older_than_and_execute, execute_on_all_contents}
use s_ldm.Numeral.{to_string}
use s_ldm.OptionString.{options_string_pop}
use s_ldm.Options.{Options}
use s_ldm.Vehicle.{VehicleData}
use s_ldm.Visualizer.{
  Visualizer, SocketCalls, ServerCalls, new_with, set_http_port, start_server, connect_to_server,
  send_map_draw_areas, send_object_update, send_object_clean, destroy,
}

-- Where a thread is: before its first wait, in `synccv.wait`, in its loop, and at its end.
pub data Phase : Type 0 where
  starting : Phase
  waiting : Phase
  looping : Phase
  ended : Phase

-- what the threads share, with `globVehVizPtr` and where the two threads are
pub record Threads (D : Type 0) : Type 0 where
  pub terminated : Bool
  pub cleaner : Phase
  pub updater : Phase
  pub visualizer : Option (Visualizer D)

-- `notify_all` wakes a thread that waits, and no other
unfoldable pub notify_all : Phase → Phase
notify_all starting = starting
notify_all waiting = looping
notify_all looping = looping
notify_all ended = ended

module _ {D : Type 0} where
  -- `clearVisualizerObject`, after what the calls before it left; where the object that the pointer
  -- leads to is gone, the call is a fault
  unfoldable pub clear_visualizer_object :
      ℕ → Option (Option (Visualizer D)) → Option (Option (Visualizer D))
  clear_visualizer_object id shared =
      shared >>= λ object. object >>= λ v. send_object_clean (to_string id) v >>= λ w. some (some w)

  -- `updateVisualizer`, after what the calls before it left
  unfoldable pub update_visualizer : VehicleData D → Option (Visualizer D) → Option (Visualizer D)
  update_visualizer d v =
      v >>= send_object_update (to_string d.station_id) d.lat d.lon (pos d.station_type) d.heading

  -- The cleaner up to its wait for the visualizer; `timer_started` is what `tmr.start` returns.
  unfoldable pub start_cleaner : (timer_started : Bool) → Threads D → Threads D
  start_cleaner timer_started t =
      if timer_started
      then record t { cleaner = waiting }
      else record t { terminated = true; cleaner = ended }

  -- the object of the visualizer, up to the drawing of the map
  unfoldable pub make_visualizer :
      Options D → (central_lat central_lon : D) → ServerCalls → SocketCalls → Option (Visualizer D)
  make_visualizer o central_lat central_lon server socket =
      options_string_pop o.vehviz_nodejs_addr >>= λ ipv4.
      start_server server
        (set_http_port o.vehviz_web_interface_port (new_with o.vehviz_nodejs_port ipv4))
      >>= λ v. connect_to_server socket v >>= λ w.
          send_map_draw_areas central_lat central_lon o.min_lat o.min_lon o.max_lat o.max_lon
            o.ext_lat_factor o.ext_lon_factor w

  -- The end of the updater by `pthread_exit`, which destroys its object; `length` is what the `send` of
  -- the destructor returns.
  unfoldable pub end_updater : (length : ℕ) → Threads D → Option (Threads D)
  end_updater length t = t.visualizer >>= destroy length >>= λ gone.
      some (record t { updater = ended; visualizer = none })

  -- the updater up to its loop
  unfoldable pub start_updater :
      {P : Type 0}
      → Options D
      → ServerCalls
      → SocketCalls
      → (timer_started : Bool) (length : ℕ) → LdmMap D P
      → Threads D
      → Option (Threads D)
  unfolding make_visualizer notify_all end_updater
  start_updater o server socket timer_started length db t =
      make_visualizer o db.central_lat db.central_lon server socket >>= λ v.
      let shared = record t { cleaner = notify_all t.cleaner; visualizer = some v } in
      let stopped = end_updater length (record shared { terminated = true }) in
      if timer_started then some (record shared { updater = looping }) else stopped

  -- the head of both loops: whether the body runs, where `expired` is what `waitForExpiration` returns
  unfoldable pub goes_on : (expired : Bool) → Threads D → Bool
  goes_on expired t = if t.terminated then false else expired

  -- a round of the updater
  unfoldable pub update :
      {P : Type 0} (expired : Bool) (length : ℕ) → LdmMap D P → Threads D → Option (Threads D)
  unfolding goes_on end_updater
  update expired length db t =
      let updated = execute_on_all_contents update_visualizer t.visualizer db >>= λ v.
      some (record t { visualizer = some v }) in
      let stopped = end_updater length t in if goes_on expired t then updated else stopped

module _ {D P : Type 0} ⦃dbl : Double D⦄ where
  -- A round of the cleaner; `now` is the clock when the deletion starts.
  unfoldable pub clean :
      (expired : Bool) (now : ℕ) → LdmMap D P → Threads D → Option (LdmMap D P × Threads D)
  unfolding goes_on
  clean expired now db t =
      let (db', shown) =
        delete_older_than_and_execute (dbl.of_ℕ 1000) now clear_visualizer_object
          (some t.visualizer) db in
      let cleaned = shown >>= λ v. some (db', record t { visualizer = v }) in
      if goes_on expired t then cleaned else some (db, record t { cleaner = ended })
