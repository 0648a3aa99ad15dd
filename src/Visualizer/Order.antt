-- ===== src/Visualizer/Order.antt =====
-- The order of the datagrams that a visualizer sends.
use s_ldm.Common.{
  ℕ, ◌≡◌, refl, sym, Bool, true, false, not, ◌&&◌, ◌||◌, none, some, List, [], ◌∷◌, ◌++◌, ◌==◌,
  if◌then◌else◌, arith, Bool-cases, Option-cases, inl, inr,
}
use s_ldm.Common.Int.{ℤ}
use s_ldm.Common.Partial.{Yields, Yields-some}
use s_ldm.Numeral.{Text}
use s_ldm.Visualizer.{
  Message, map_draw, map_areas, object_update, object_clean, terminate, Visualizer, SocketCalls,
  ServerCalls, new_with, connect_to_server, send, send_map, send_map_draw, send_map_draw_areas,
  send_object_update, send_object_clean, start_server, terminate_server, set_ipv4, set_server_path,
  set_port, set_http_port, socket_open,
}

module _ {D : Type 0} where
  abbrev pub is_map : Message D → Bool
  is_map (map_draw lat lon) = true
  is_map (map_areas lat lon min_lat min_lon max_lat max_lon lat_ext_factor lon_ext_factor) = true
  is_map _ = false

  abbrev pub is_object : Message D → Bool
  is_object (object_update id lat lon station_type heading) = true
  is_object (object_clean id) = true
  is_object _ = false

  -- whether a map is drawn at the end, where `drawn` is whether it is at the start
  abbrev pub map_drawn : (drawn : Bool) → List (Message D) → Bool
  map_drawn drawn [] = drawn
  map_drawn drawn (m ∷ ms) = map_drawn (drawn || is_map m) ms

  -- The map is drawn at most once, and before all objects.
  abbrev pub in_order : (drawn : Bool) → List (Message D) → Bool
  in_order drawn [] = true
  in_order drawn (m ∷ ms) =
      not (is_map m && drawn) && not (is_object m && not drawn) && in_order (drawn || is_map m) ms

  map_drawn-append :
      (drawn : Bool) (ms : List (Message D)) (m : Message D)
      → map_drawn drawn (ms ++ m ∷ []) ≡ (map_drawn drawn ms || is_map m)
  map_drawn-append drawn [] m = refl
  map_drawn-append drawn (k ∷ ms) m = map_drawn-append (drawn || is_map k) ms m

  in_order-append :
      (drawn : Bool) (ms : List (Message D)) (m : Message D)
      → in_order drawn (ms ++ m ∷ []) ≡ (
          in_order drawn ms
          && not (is_map m && map_drawn drawn ms)
          && not (is_object m && not (map_drawn drawn ms)))
  in_order-append drawn [] m = ground arith
  in_order-append drawn (k ∷ ms) m = ground (arith, in_order-append (drawn || is_map k) ms m)

  -- The calls that a program can make once the object is there.
  pub data Call (v : Visualizer D) : Visualizer D → Type 0 where
    starts : {w : Visualizer D} (calls : ServerCalls) → start_server calls v ≡ some w → Call v w
    connects :
        {w : Visualizer D} (calls : SocketCalls) → connect_to_server calls v ≡ some w → Call v w
    draws : {w : Visualizer D} (lat lon : D) → send_map_draw lat lon v ≡ some w → Call v w
    draws_areas :
        {w : Visualizer D}
        (lat lon min_lat min_lon max_lat max_lon lat_ext_factor lon_ext_factor : D)
        → send_map_draw_areas lat lon min_lat min_lon max_lat max_lon lat_ext_factor lon_ext_factor
            v
          ≡ some w
        → Call v w
    updates :
        {w : Visualizer D} (id : Text) (lat lon : D) (station_type : ℤ) (heading : D)
        → send_object_update id lat lon station_type heading v ≡ some w
        → Call v w
    cleans : {w : Visualizer D} (id : Text) → send_object_clean id v ≡ some w → Call v w
    terminates : {w : Visualizer D} (length : ℕ) → terminate_server length v ≡ some w → Call v w
    sets_ipv4 : (ipv4 : Text) → Call v (set_ipv4 ipv4 v)
    sets_server_path : (path : Text) → Call v (set_server_path path v)
    sets_port : (port : ℤ) → Call v (set_port port v)
    sets_http_port : (port : ℤ) → Call v (set_http_port port v)

  pub data Reach (v : Visualizer D) : Visualizer D → Type 0 where
    here : Reach v v
    next : {w x : Visualizer D} → Reach v w → Call w x → Reach v x

  pub record IsOrdered (v : Visualizer D) : Type 0 where
    pub drawn : v.is_map_sent ≡ map_drawn false v.sent
    pub ordered : in_order false v.sent ≡ true

  send_map-IsOrdered :
      (m : Message D) (v : Visualizer D)
      → is_map m ≡ true
      → is_object m ≡ false
      → IsOrdered v
      → Yields IsOrdered (send_map m v)
  unfolding send_map send
  send_map-IsOrdered m v a b h = elim (Bool-cases (not v.is_connected || v.is_map_sent)) [
    | inl e ↦ rw e tt
    | inr e ↦ rw e (record {
      drawn = rw (map_drawn-append false v.sent m, a) (ground arith);
      ordered = rw (in_order-append false v.sent m, a, b, h.ordered, sym h.drawn) (ground arith);
    })
  ]

  sent-IsOrdered :
      (m : Message D) (v : Visualizer D)
      → is_map m ≡ false
      → (is_object m && not v.is_map_sent) ≡ false
      → IsOrdered v
      → IsOrdered (send m v)
  unfolding send
  sent-IsOrdered m v a b h = record {
    drawn = rw (map_drawn-append false v.sent m, a) (ground (arith, h.drawn));
    ordered = rw (in_order-append false v.sent m, a, h.ordered, sym h.drawn, b) (ground arith);
  }

  object-IsOrdered :
      (m : Message D) (v : Visualizer D)
      → is_map m ≡ false
      → IsOrdered v
      → Yields IsOrdered (if not v.is_connected || not v.is_map_sent then none else some (send m v))
  object-IsOrdered m v a h = elim (Bool-cases (not v.is_connected || not v.is_map_sent)) [
    | inl e ↦ rw e tt
    | inr e ↦ rw e (sent-IsOrdered m v a (ground arith) h)
  ]

  terminate_server-IsOrdered :
      (length : ℕ) (v : Visualizer D) → IsOrdered v → Yields IsOrdered (terminate_server length v)
  unfolding terminate_server
  terminate_server-IsOrdered length v h =
      let sent = sent-IsOrdered terminate v refl refl h in
      elim (Bool-cases (not v.is_connected)) [
        | inl e ↦ rw e tt
        | inr e ↦ rw e (elim (Bool-cases (length == 9)) [
          | inl f ↦ rw f (record { drawn = sent.drawn; ordered = sent.ordered })
          | inr f ↦ rw f sent
        ])
      ]

  start_server-IsOrdered :
      (calls : ServerCalls) (v : Visualizer D)
      → IsOrdered v
      → Yields IsOrdered (start_server calls v)
  unfolding start_server
  start_server-IsOrdered calls v h =
      elim (Bool-cases (
        (calls.fifo_made || calls.fifo_exists)
        && calls.fifo_opened
        && calls.node_found
        && calls.command_ok)) [
          | inl e ↦ rw e (record { drawn = h.drawn; ordered = h.ordered })
          | inr e ↦ rw e tt
        ]

  connect_to_server-IsOrdered :
      (calls : SocketCalls) (v : Visualizer D)
      → IsOrdered v
      → Yields IsOrdered (connect_to_server calls v)
  unfolding connect_to_server
  connect_to_server-IsOrdered calls v h = elim (Option-cases (socket_open calls)) [
    | inl e ↦ rw e tt
    | inr (fd, e) ↦ rw e (record { drawn = h.drawn; ordered = h.ordered })
  ]

  Call-IsOrdered : {v w : Visualizer D} → Call v w → IsOrdered v → IsOrdered w
  unfolding send_map_draw send_map_draw_areas send_object_update send_object_clean set_ipv4
      set_server_path set_port set_http_port
  Call-IsOrdered {v} {w} (starts calls e) h =
      Yields-some IsOrdered (start_server calls v) w (start_server-IsOrdered calls v h) e
  Call-IsOrdered {v} {w} (connects calls e) h =
      Yields-some IsOrdered (connect_to_server calls v) w (connect_to_server-IsOrdered calls v h) e
  Call-IsOrdered {v} {w} (draws lat lon e) h =
      Yields-some IsOrdered _ w (send_map-IsOrdered (map_draw lat lon) v refl refl h) e
  Call-IsOrdered {v} {w} (draws_areas lat lon a b c d e f g) h =
      Yields-some IsOrdered _ w (send_map-IsOrdered (map_areas lat lon a b c d e f) v refl refl h) g
  Call-IsOrdered {v} {w} (updates id lat lon station_type heading e) h =
      Yields-some IsOrdered _ w
        (object-IsOrdered (object_update id lat lon station_type heading) v refl h) e
  Call-IsOrdered {v} {w} (cleans id e) h =
      Yields-some IsOrdered _ w (object-IsOrdered (object_clean id) v refl h) e
  Call-IsOrdered {v} {w} (terminates length e) h =
      Yields-some IsOrdered (terminate_server length v) w (terminate_server-IsOrdered length v h) e
  Call-IsOrdered (sets_ipv4 ipv4) h = record { drawn = h.drawn; ordered = h.ordered }
  Call-IsOrdered (sets_server_path path) h = record { drawn = h.drawn; ordered = h.ordered }
  Call-IsOrdered (sets_port port) h = record { drawn = h.drawn; ordered = h.ordered }
  Call-IsOrdered (sets_http_port port) h = record { drawn = h.drawn; ordered = h.ordered }

  -- Whatever calls are made on an object since its constructor, its datagrams draw the map at most
  -- once and draw and remove objects only after it, and `m_is_map_sent` says whether it was drawn.
  pub Reach-IsOrdered :
      (port : ℤ) (ipv4 : Text) (v : Visualizer D) → Reach (new_with port ipv4) v → IsOrdered v
  unfolding new_with
  Reach-IsOrdered port ipv4 v here = record { drawn = refl; ordered = refl }
  Reach-IsOrdered port ipv4 v (next {w} r c) = Call-IsOrdered c (Reach-IsOrdered port ipv4 w r)
