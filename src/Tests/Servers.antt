-- ===== src/Tests/Servers.antt =====
-- A TCP server (src/tcp_server.cpp) at concrete inputs.
use rioring.Prelude.{◌≡◌, refl, true, false, [], ◌∷◌, ◌++◌, some, Outcome, done, Returns, arith}
use rioring.IoContext.{IoContext, IoType, tcp_context, null, no_address, Sockaddr, af_inet6}
use rioring.IoService.{TcpServer, Submission, prep_accept}
use rioring.TcpServer.{Acceptor, Listening, run, io_accepting, complete_server}
use rioring.Completion.{pos}
use rioring.TcpServer.Accepting.{Ran, run_lem}
use rioring.TcpServer.Accepted.{Accepted, IsSetup}
use rioring.TcpServer.Connections.{
  Listener, IsListening, nobody, Reach, here, next, accepts_one, given_back, accepted_lem,
  io_accepting_lem, Reach-IsListening,
}
use rioring.SocketObject.{SocketObject}
use rioring.Tests.Fixtures.{
  heap_of_zeros, heap_of_zeros-IsAllocator, free_rings, free_rings-IsUring, one_ring,
}

-- Server 1, before it runs.
abbrev server_one : TcpServer
server_one = record {
  base = record { obj_id = 1; error_event = true };
  server_socket = 0;
  addr6 = 0;
  new_connect_event = true;
}

abbrev pub before_run : Acceptor
before_run = record {
  server_object = server_one;
  service = one_ring;
  errors = [];
  closed = [];
  obj_id_container = 2;
}

abbrev pub port_in_use : Listening
port_in_use = record { opened = 9; bind_fails = true; listen_fails = false; errno = 98 }

run_lem_example : Returns (run free_rings port_in_use before_run) (Ran port_in_use before_run)
run_lem_example =
    run_lem free_rings free_rings-IsUring port_in_use before_run (omega arith, omega arith)

-- A user who asks for received bytes on every new connection.
abbrev wants_bytes : SocketObject → Acceptor → Outcome (SocketObject × Acceptor)
wants_bytes o s = done (record o { recv_event = true }, s)

wants_bytes-IsSetup : IsSetup wants_bytes
wants_bytes-IsSetup = record { sets = λ o s. (record o { recv_event = true }, refl, refl) }

abbrev accept_request : IoContext
accept_request = record {
  ident = 0;
  io_type = IoType.accept;
  ctype = tcp_context;
  iov_base = null;
  iov_len = 0;
  handler = some 1;
  msg_iovlen = 0;
  msg_namelen = 128;
  addr = no_address;
}

abbrev accept_entry : Submission
accept_entry = record { ring = 5; sqe = prep_accept 9; ctx = accept_request }

abbrev running : Acceptor
running = record before_run {
  server_object = record server_one { server_socket = 9 };
  service = record one_ring {
    context_pool = record { pool = []; created = 1 };
    submitted = accept_entry ∷ [];
  };
}

abbrev caller : Sockaddr
caller = record { family = af_inet6; host = 77 }

io_accepting_lem_example :
    Returns
      (io_accepting free_rings heap_of_zeros wants_bytes 12 caller running)
      (Accepted 12 caller running)
io_accepting_lem_example =
    io_accepting_lem free_rings free_rings-IsUring heap_of_zeros heap_of_zeros-IsAllocator
      wants_bytes wants_bytes-IsSetup 12 caller running (omega arith, omega arith) (omega arith)
      (omega arith) (omega arith)

abbrev start : Listener
start = record { acceptor = running; sockets = [] }

start-IsListening : IsListening start
start-IsListening = record {
  rings = (omega arith, omega arith);
  accept_request = accept_request;
  listening = refl;
  low = omega arith;
  below = omega arith;
  distinct = nobody;
}

-- Descriptor 12 is accepted.
abbrev first_call :
    Returns
      (complete_server free_rings heap_of_zeros wants_bytes accept_request
        (pos 12)
        caller
        (given_back running 5 []))
      (λ r.
        (o : SocketObject) × (r.0 ≡ o ∷ []) × Accepted 12 caller (given_back running 5 []) (o, r.1))
first_call =
    accepted_lem free_rings free_rings-IsUring heap_of_zeros heap_of_zeros-IsAllocator wants_bytes
      wants_bytes-IsSetup accept_request 11 caller (given_back running 5 []) refl
      (omega arith, omega arith) (omega arith) (omega arith) (omega arith)

abbrev one_caller : Listener
one_caller = record { acceptor = first_call.0.1; sockets = first_call.0.0 ++ [] }

one_accepted : Reach free_rings heap_of_zeros wants_bytes start one_caller
one_accepted = next here (
    accepts_one [] [] accept_entry 11 caller first_call.0.0 first_call.0.1 refl refl refl
      (omega arith) first_call.1)

Reach-IsListening_example : IsListening one_caller
Reach-IsListening_example =
    Reach-IsListening free_rings free_rings-IsUring heap_of_zeros heap_of_zeros-IsAllocator
      wants_bytes wants_bytes-IsSetup start-IsListening one_accepted
