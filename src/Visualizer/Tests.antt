-- ===== src/Visualizer/Tests.antt =====
-- The theorem on the order of the datagrams, after a start, the map, an object and its removal.
use s_ldm.Common.{ℕ, refl, true, some}
use s_ldm.Common.Int.{pos}
use s_ldm.Options.{codes}
use s_ldm.Visualizer.{
  Visualizer, SocketCalls, ServerCalls, new_with, default_port, start_server, connect_to_server,
  socket_open, send_map_draw, send_map, send, send_object_update, send_object_clean,
}
use s_ldm.Visualizer.Order.{
  IsOrdered, Reach, Reach-IsOrdered, here, next, starts, connects, draws, updates, cleans,
}

abbrev calls : ServerCalls
calls = record {
  fifo_made = true;
  fifo_exists = true;
  fifo_opened = true;
  node_found = true;
  command_ok = true;
}

abbrev socket_calls : SocketCalls
socket_calls = record { socket = some 3; bind_ok = true; address_ok = true; connect_ok = true }

abbrev made : Visualizer ℕ
made = new_with default_port (codes "127.0.0.1")

run : (v : Visualizer ℕ) × Reach made v
unfolding new_with start_server connect_to_server socket_open send_map_draw send_map send
    send_object_update send_object_clean
run = (
  _,
  next
      (next
        (next (next (next here (starts calls refl)) (connects socket_calls refl)) (draws 45 7 refl))
        (updates (codes "7") 45 7 (pos 5) 90 refl))
      (cleans (codes "7") refl),
)

Reach-IsOrdered_example : IsOrdered run.0
Reach-IsOrdered_example = Reach-IsOrdered default_port (codes "127.0.0.1") run.0 run.1
