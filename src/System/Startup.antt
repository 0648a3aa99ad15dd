-- ===== src/System/Startup.antt =====
-- What the thread of the visualizer makes before its loop.
use s_ldm.Common.{◌≡◌, refl, false, not, ◌&&◌, ◌||◌, [], arith, Bool-cases, Option-cases, inl, inr}
use s_ldm.Common.Partial.{Yields, Yields-bind}
use s_ldm.Numeral.{Text}
use s_ldm.OptionString.{options_string_pop}
use s_ldm.Options.{Options}
use s_ldm.Program.Threads.{make_visualizer}
use s_ldm.System.Shown.{is_shown, IsDrawn}
use s_ldm.Visualizer.{
  Visualizer, SocketCalls, ServerCalls, socket_open, start_server, connect_to_server, send_map,
  send, send_map_draw_areas, new_with, set_http_port,
}

module _ {D : Type 0} where
  -- nothing was sent
  abbrev IsSilent : Visualizer D → Type 0
  IsSilent v = v.sent ≡ []

  start_server-IsSilent :
      (server : ServerCalls) (v : Visualizer D)
      → IsSilent v
      → Yields IsSilent (start_server server v)
  unfolding start_server
  start_server-IsSilent server v h =
      elim (Bool-cases (
        (server.fifo_made || server.fifo_exists)
        && server.fifo_opened
        && server.node_found
        && server.command_ok)) [ inl e ↦ rw e h | inr e ↦ rw e tt ]

  connect_to_server-IsSilent :
      (socket : SocketCalls) (v : Visualizer D)
      → IsSilent v
      → Yields IsSilent (connect_to_server socket v)
  unfolding connect_to_server
  connect_to_server-IsSilent socket v h = elim (Option-cases (socket_open socket)) [
    | inl e ↦ rw e tt
    | inr (fd, e) ↦ rw e h
  ]

  -- the map is drawn and shows nothing
  abbrev pub IsEmptyMap : Visualizer D → Type 0
  IsEmptyMap v = IsDrawn v × ((id : Text) → is_shown id v ≡ false)

  draw-IsEmptyMap :
      (lat lon a b c d e f : D) (v : Visualizer D)
      → IsSilent v
      → Yields IsEmptyMap (send_map_draw_areas lat lon a b c d e f v)
  unfolding send_map_draw_areas send_map send
  draw-IsEmptyMap lat lon a b c d e f v h =
      elim (Bool-cases (not v.is_connected || v.is_map_sent)) [
        | inl g ↦ rw g tt
        | inr g ↦ rw g (record { connected = ground (arith, g); map_sent = refl }, λ id. rw h refl)
      ]

  pub make_visualizer-IsEmptyMap :
      (o : Options D) (lat lon : D) (server : ServerCalls) (socket : SocketCalls)
      → Yields IsEmptyMap (make_visualizer o lat lon server socket)
  unfolding make_visualizer new_with set_http_port
  make_visualizer-IsEmptyMap o lat lon server socket =
      elim (Option-cases (options_string_pop o.vehviz_nodejs_addr)) [
        | inl e ↦ rw e tt
        | inr (ipv4, e) ↦
            let v =
              set_http_port o.vehviz_web_interface_port (new_with o.vehviz_nodejs_port ipv4) in
            rw e (
              Yields-bind IsSilent IsEmptyMap _ (start_server server v)
                (start_server-IsSilent server v refl)
                λ w h.
                  Yields-bind IsSilent IsEmptyMap _ (connect_to_server socket w)
                    (connect_to_server-IsSilent socket w h)
                    λ x g.
                      draw-IsEmptyMap lat lon o.min_lat o.min_lon o.max_lat o.max_lon
                        o.ext_lat_factor o.ext_lon_factor x g)
      ]
