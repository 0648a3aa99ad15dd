-- ===== src/Visualizer.antt =====
-- vehicle-visualizer/include/vehicle-visualizer.h and vehicle-visualizer/src/vehicle-visualizer.cc: the
-- client of the server that draws the map. What the calls of the system return is an argument, and
-- `none` is a call of `exit`.
pub mod Order
mod Tests
use s_ldm.Common.{
  ℕ, Bool, true, false, not, ◌&&◌, ◌||◌, Option, none, some, List, [], ◌∷◌, ◌++◌, ◌==◌,
  if◌then◌else◌,
}
use s_ldm.Common.Int.{ℤ, pos, ltb_ℤ}
use s_ldm.Decoder.Bytes.{◌>>=◌}
use s_ldm.Double.{Double}
use s_ldm.Numeral.{Text, to_string, to_string_ℤ}
use s_ldm.Options.{codes}

-- a number with a precision, as `std::ostringstream` writes it
pub record Format (D : Type 0) : Type 0 where
  pub show : (precision : ℕ) → D → Text

-- a datagram
pub data Message (D : Type 0) : Type 0 where
  map_draw : (lat lon : D) → Message D
  map_areas :
      (lat lon min_lat min_lon max_lat max_lon lat_ext_factor lon_ext_factor : D) → Message D
  object_update : (id : Text) (lat lon : D) (station_type : ℤ) (heading : D) → Message D
  object_clean : (id : Text) → Message D
  terminate : Message D

-- the texts with commas between them
unfoldable pub join : List Text → Text
join [] = []
join (t ∷ []) = t
join (t ∷ u ∷ us) = t ++ (codes "," ++ join (u ∷ us))

module _ {D : Type 0} ⦃format : Format D⦄ where
  -- the text of a datagram, without the zero byte that ends it
  unfoldable pub text_of : Message D → Text
  unfolding join
  text_of (map_draw lat lon) = join (codes "map" ∷ format.show 7 lat ∷ format.show 7 lon ∷ [])
  text_of (map_areas lat lon min_lat min_lon max_lat max_lon lat_ext_factor lon_ext_factor) = join (
      codes "map_areas"
      ∷ format.show 7 lat
      ∷ format.show 7 lon
      ∷ format.show 7 min_lat
      ∷ format.show 7 min_lon
      ∷ format.show 7 max_lat
      ∷ format.show 7 max_lon
      ∷ format.show 7 lat_ext_factor
      ∷ format.show 7 lon_ext_factor
      ∷ [])
  text_of (object_update id lat lon station_type heading) = join (
      codes "object"
      ∷ id
      ∷ format.show 7 lat
      ∷ format.show 7 lon
      ∷ to_string_ℤ station_type
      ∷ format.show 3 heading
      ∷ [])
  text_of (object_clean id) = join (codes "objclean" ∷ id ∷ [])
  text_of terminate = codes "terminate"

-- the members, and the datagrams that were given to `send` in order; a descriptor `none` is -1
pub record Visualizer (D : Type 0) : Type 0 where
  pub port : ℤ
  pub http_port : ℤ
  pub ip : Text
  pub sockfd : Option ℕ
  pub is_connected : Bool
  pub is_map_sent : Bool
  pub is_server_active : Bool
  pub server_path : Text
  pub sent : List (Message D)

abbrev pub default_port : ℤ
default_port = pos 48110

abbrev pub default_http_port : ℤ
default_http_port = pos 8080

abbrev pub is_port : ℤ → Bool
is_port p = not (ltb_ℤ p (pos 1)) && not (ltb_ℤ (pos 65535) p)

-- the calls of `socketOpen`
pub record SocketCalls : Type 0 where
  pub socket : Option ℕ
  pub bind_ok : Bool
  pub address_ok : Bool
  pub connect_ok : Bool

-- the calls of `startServer` that may make it exit; `mkfifo` may also fail since the file is there
pub record ServerCalls : Type 0 where
  pub fifo_made : Bool
  pub fifo_exists : Bool
  pub fifo_opened : Bool
  pub node_found : Bool
  pub command_ok : Bool

unfoldable pub socket_open : SocketCalls → Option ℕ
socket_open calls =
    if calls.bind_ok && calls.address_ok && calls.connect_ok then calls.socket else none

-- the name of the file that the server writes to when it is ready
unfoldable pub fifo_name : (pid : ℕ) → Text
fifo_name pid = codes "/tmp/vehvizfifo" ++ to_string pid

module _ {D : Type 0} where
  unfoldable pub new_with : (port : ℤ) (ipv4 : Text) → Visualizer D
  new_with port ipv4 = record {
    port = port;
    http_port = default_http_port;
    ip = ipv4;
    sockfd = none;
    is_connected = false;
    is_map_sent = false;
    is_server_active = false;
    server_path = codes "./js/server.js";
    sent = [];
  }

  -- the two constructors with defaults
  unfoldable pub new_port : (port : ℤ) → Visualizer D
  unfolding new_with
  new_port port = new_with port (codes "127.0.0.1")

  unfoldable pub new : Visualizer D
  unfolding new_with
  new = new_with default_port (codes "127.0.0.1")

  unfoldable pub connect_to_server : SocketCalls → Visualizer D → Option (Visualizer D)
  unfolding socket_open
  connect_to_server calls v =
      socket_open calls >>= λ fd. some (record v { sockfd = some fd; is_connected = true })

  -- a call of `send`; what it returns is passed on by the functions and changes nothing
  unfoldable pub send : Message D → Visualizer D → Visualizer D
  send m v = record v { sent = v.sent ++ m ∷ [] }

  -- the end of both functions that draw the map
  unfoldable pub send_map : Message D → Visualizer D → Option (Visualizer D)
  unfolding send
  send_map m v =
      if not v.is_connected || v.is_map_sent
      then none
      else some (record (send m v) { is_map_sent = true })

  unfoldable pub send_map_draw : (lat lon : D) → Visualizer D → Option (Visualizer D)
  unfolding send_map
  send_map_draw lat lon = send_map (map_draw lat lon)

  unfoldable pub send_map_draw_areas :
      (lat lon min_lat min_lon max_lat max_lon lat_ext_factor lon_ext_factor : D)
      → Visualizer D
      → Option (Visualizer D)
  unfolding send_map
  send_map_draw_areas lat lon min_lat min_lon max_lat max_lon lat_ext_factor lon_ext_factor =
      send_map (map_areas lat lon min_lat min_lon max_lat max_lon lat_ext_factor lon_ext_factor)

  -- `sendObjectUpdate`
  unfoldable pub send_object_update :
      (id : Text) (lat lon : D) (station_type : ℤ) (heading : D)
      → Visualizer D
      → Option (Visualizer D)
  unfolding send
  send_object_update id lat lon station_type heading v =
      if not v.is_connected || not v.is_map_sent
      then none
      else some (send (object_update id lat lon station_type heading) v)

  -- the same without a heading, for which `VIS_HEADING_INVALID` is sent
  unfoldable pub send_object_update_unheaded :
      ⦃dbl : Double D⦄ (id : Text) (lat lon : D) (station_type : ℤ)
      → Visualizer D
      → Option (Visualizer D)
  unfolding send_object_update
  send_object_update_unheaded ⦃dbl⦄ id lat lon station_type =
      send_object_update id lat lon station_type (dbl.of_ℕ 361)

  unfoldable pub send_object_clean : (id : Text) → Visualizer D → Option (Visualizer D)
  unfolding send
  send_object_clean id v =
      if not v.is_connected || not v.is_map_sent then none else some (send (object_clean id) v)

  -- the command that starts the server
  unfoldable pub server_command : (pid : ℕ) → Visualizer D → Text
  server_command pid v =
      codes "node "
      ++ (v.server_path
          ++ (codes " "
              ++ (to_string_ℤ v.http_port
                  ++ (codes " "
                      ++ (v.ip
                          ++ (codes " "
                              ++ (to_string_ℤ v.port
                                  ++ (codes " " ++ (to_string pid ++ codes " &")))))))))

  unfoldable pub start_server : ServerCalls → Visualizer D → Option (Visualizer D)
  start_server calls v =
      if (calls.fifo_made || calls.fifo_exists)
        && calls.fifo_opened
        && calls.node_found
        && calls.command_ok
      then some (record v { is_server_active = true })
      else none

  -- `length` is what `send` returns
  unfoldable pub terminate_server : (length : ℕ) → Visualizer D → Option (Visualizer D)
  unfolding send
  terminate_server length v =
      let sent = send terminate v in
      if not v.is_connected
      then none
      else (if length == 9
          then some (record sent { is_connected = false; is_server_active = false })
          else some sent)

  -- the destructor
  unfoldable pub destroy : (length : ℕ) → Visualizer D → Option (Visualizer D)
  unfolding terminate_server
  destroy length v =
      let stopped = terminate_server length v >>= λ w. some (record w { sockfd = none }) in
      if v.is_server_active then stopped else some v

  unfoldable pub set_ipv4 : Text → Visualizer D → Visualizer D
  set_ipv4 ipv4 v = record v { ip = ipv4 }

  unfoldable pub set_server_path : Text → Visualizer D → Visualizer D
  set_server_path path v = record v { server_path = path }

  unfoldable pub set_port : ℤ → Visualizer D → Visualizer D
  set_port port v = record v { port = if is_port port then port else default_port }

  -- `setHTTPPort`
  unfoldable pub set_http_port : ℤ → Visualizer D → Visualizer D
  set_http_port port v = record v { http_port = if is_port port then port else default_http_port }
