-- ===== src/Tests/WindowsServers.antt =====
-- A TCP server on Windows (src/tcp_server.cpp under WIN32) at concrete inputs.
use rioring.Prelude.{refl, true, false, List, [], ◌∷◌, Returns, Outcome, done, arith}
use rioring.Rio.Socket.{RioSocket, invalid_socket}
use rioring.Rio.Server.{Arrival, RioAcceptor, on_thread}
use rioring.Rio.Server.Accepted.{IsRioSetup}
use rioring.Rio.Server.Served.{Served, on_thread_lem}
use rioring.Tests.Fixtures.{heap_of_zeros, heap_of_zeros-IsAllocator}
use rioring.Tests.Windows.{counting, counting-IsRio, one_queue}

-- The callback asks to be told of what is received.
abbrev listens : RioSocket → RioAcceptor → Outcome (RioSocket × RioAcceptor)
listens o s = done (record o { object = record o.object { recv_event = true } }, s)

listens-IsRioSetup : IsRioSetup listens
listens-IsRioSetup = record { sets = λ o s. (record o.object { recv_event = true }, refl) }

abbrev server_of_one : RioAcceptor
server_of_one = record {
  server_object = record {
    base = record { obj_id = 4; error_event = false };
    server_socket = 30;
    accept_event_callback = true;
    has_thread = true;
  };
  service = one_queue;
  errors = [];
  closed = [];
  obj_id_container = 5;
}

-- Two connections, and then the server is stopped.
abbrev two_arrivals : List Arrival
two_arrivals =
    record { socket = 31; peer = record { family = 10; host = 1 } }
    ∷ record { socket = 32; peer = record { family = 10; host = 2 } }
    ∷ record { socket = invalid_socket; peer = record { family = 10; host = 2 } }
    ∷ []

on_thread_lem_example :
    Returns
      (on_thread counting heap_of_zeros listens two_arrivals server_of_one)
      (Served two_arrivals server_of_one)
on_thread_lem_example =
    on_thread_lem counting counting-IsRio heap_of_zeros heap_of_zeros-IsAllocator listens
      listens-IsRioSetup two_arrivals server_of_one (omega arith) (omega arith) (omega arith)
