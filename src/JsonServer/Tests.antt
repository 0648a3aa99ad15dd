-- ===== src/JsonServer/Tests.antt =====
-- The theorems on the JSON server at two clients, and at a database with one vehicle.
use s_ldm.Common.{ℕ, ◌==◌, ◌↔◌, List, ◌≡◌, refl, true, false, none, some, [], ◌∷◌}
use s_ldm.JsonServer.Lifecycle.{
  Server, StartCalls, StopCalls, new_server, start_server, stop_server, stop_server-start,
}
use s_ldm.JsonServer.Serve.{Event, request}
use s_ldm.JsonServer.Thread.{
  Wake, connection, readable, ServerThread, thread_loop, none_idle, thread_ends,
}
use s_ldm.Samples.{nat_double}

-- two clients connect, and the second is idle when the first sends a request
abbrev event : Event
event = record { is_ready = λ d. d == 5; recv = λ d. request }

abbrev idle : List Wake
idle = connection (some 5) ∷ connection (some 6) ∷ readable event ∷ []

abbrev fresh_thread : ServerThread
fresh_thread = record { running = true; connected = []; answered = [] }

thread_ends_example :
    ((fuel : ℕ) × (u : ServerThread) × (thread_loop fuel idle fresh_thread ≡ some u))
    ↔ (none_idle idle [] ≡ true)
thread_ends_example = thread_ends idle fresh_thread refl

abbrev starts : StartCalls
starts = record { socket = some 5; bind_ok = true; listen_ok = true; thread = some 9 }

abbrev stops : StopCalls
stops = record { cancel_ok = λ t. elim t [ none ↦ false | some n ↦ true ]; join_ok = true }

abbrev running : Server
running = (start_server starts new_server).1

running-stops : (stop_server stops running).0 ≡ true
unfolding stop_server start_server new_server
running-stops = refl

stop_server-start_example :
    (start_server starts (stop_server stops running).1 ≡ (false, (stop_server stops running).1))
    × ((stop_server stops running).1.open_sockets ≡ running.open_sockets)
    × ((stop_server stops (stop_server stops running).1).0 ≡ stops.cancel_ok none)
stop_server-start_example = stop_server-start stops starts running running-stops
