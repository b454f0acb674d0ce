-- ===== src/Programs.antt =====
-- The main functions of the example programs (examples/chatserver/main.cpp, examples/echoserver/main.cpp,
-- examples/udpserver/main.cpp, examples/chatclient/main.cpp) on Linux. What the user, the kernel and the
-- threads of the service do while a main function waits is a parameter.
pub mod Aborted
use rioring.Prelude.{
  ℕ, zero, suc, ◌-◌, Bool, true, false, not, List, [], ◌∷◌, Option, ltb, ◌==◌, if◌then◌else◌,
  Outcome, done, fault, hang, ◌>>=◌, is_nil,
}
use rioring.Memory.{Allocator}
use rioring.ObjectBase.{set_error_callback}
use rioring.IoService.{IoService, TcpServer, Uring}
use rioring.SocketObject.{SocketObject, graceful, set_receive_event, set_close_event}
use rioring.AddressResolver.{AddrInfo}
use rioring.Session.{Session, send, close}
use rioring.Sockets.{World, tcp_sockets}
use rioring.TcpServer.{Acceptor, Listening, set_accept_event}
use rioring.TcpServer
use rioring.Connect
use rioring.UdpSocket
use rioring.UdpSocket.{Network, stop_waits}
use rioring.Chat.Server.{Hall, leave_all}
use rioring.Chat.User.{request}
use rioring.Chat.Leave.{leave_waits}
use rioring.Echo.{EventReceiver, leave_clients}

-- How a program ends: with a result, or by `std::terminate`, which the destructor of a `std::thread`
-- calls that has not been joined.
pub data Exit : Type 0 where
  returned : ℕ → Exit
  terminated : Exit

-- The variable `io` of a main function: its service, and how many threads of it are not joined.
pub record Io : Type 0 where
  pub service : IoService
  pub threads : ℕ

-- `io.run( concurrency )` once its threads have made `rings`, as Startup describes.
pub io_run : (concurrency : ℕ) (rings : List ℕ) → Io → Bool × Io
io_run concurrency rings io =
    if ltb concurrency 1
    then (false, io)
    else (true, record { service = record io.service { io_array = rings }; threads = concurrency })

-- What `io.stop()` depends on: which rings have a free entry, and which of the threads, whose order is
-- that in which they were started, end once they are asked to.
pub record Ending : Type 0 where
  pub get_sqe : ℕ → Bool
  pub ends : ℕ → Bool

-- The loop over the rings, which writes to the entry that each is to have.
write_entries : Ending → List ℕ → Outcome (Unit {0})
write_entries e [] = done tt
write_entries e (ring ∷ rings) = if e.get_sqe ring then write_entries e rings else fault

-- `wait_for_terminate`: the threads that are not joined are, one after the other.
join_threads : Ending → (i n : ℕ) → Io → Outcome Io
join_threads e i zero io = done io
join_threads e i (suc n) io =
    let rest = join_threads e (suc i) n (record io { threads = io.threads - 1 }) in
    if e.ends i then rest else hang

-- `io.stop()`; Shutdown describes how the threads come to their end.
unfoldable pub io_stop : Ending → Io → Outcome Io
unfolding write_entries join_threads
io_stop e io = write_entries e io.service.io_array >>= λ asked.
    join_threads e 0 io.threads (record io { service = record io.service { io_array = [] } })

-- The end of a main function: `io` is destroyed, and its threads with it.
pub end_main : ℕ → Io → Exit
end_main code io = if io.threads == 0 then returned code else terminated

-- What happens while a main function waits: for a word of the user, and for a test of its own.
pub record Meanwhile {ℓ} (W : Type ℓ) : Type ℓ where
  pub serving : W → Outcome W
  pub until : (W → Bool) → W → Outcome W

-- The callbacks of the chat server.
abbrev pub with_events : TcpServer → TcpServer
with_events s = record (set_accept_event s true) { base = set_error_callback s.base true }

-- A server program: its service, its server, its sockets, and what it keeps of its clients.
pub record Program (M : Type 0) : Type 0 where
  pub threads : ℕ
  pub acceptor : Acceptor
  pub sockets : List SocketObject
  pub members : M

abbrev pub with_io : {M : Type 0} → Program M → Io → Program M
with_io p io = record p {
  threads = io.threads;
  acceptor = record p.acceptor { service = io.service };
}

abbrev pub io_of : {M : Type 0} → Program M → Io
io_of p = record { service = p.acceptor.service; threads = p.threads }

abbrev pub world_of : {M : Type 0} → Program M → World
world_of p = record {
  sockets = p.sockets;
  service = p.acceptor.service;
  errors = p.acceptor.errors;
  closed = p.acceptor.closed;
}

abbrev pub with_world : {M : Type 0} → Program M → World → Program M
with_world p w = record p {
  sockets = w.sockets;
  acceptor = record p.acceptor { service = w.service; errors = w.errors; closed = w.closed };
}

module _ (u : Uring) (rings : List ℕ) (ending : Ending) where
  -- What the main functions of both servers do. `events` sets the callbacks of the server, `leaves`
  -- closes the sockets of the clients, and `waits` tells whether clients are left.
  module _ {M : Type 0} (os : Listening) (meanwhile : Meanwhile (Program M))
      (events : TcpServer → TcpServer) (leaves : M → World → Outcome World) (waits : M → Bool) where
    serve_and_stop : Program M → Outcome (Exit × Program M)
    unfolding io_stop end_main
    serve_and_stop p = meanwhile.serving p >>= λ p₁. leaves p₁.members (world_of p₁) >>= λ w.
        meanwhile.until (λ q. waits q.members) (with_world p₁ w) >>= λ p₂.
        TcpServer.stop u p₂.acceptor >>= λ s.
        (let p₃ = record p₂ { acceptor = s } in
          io_stop ending (io_of p₃) >>= λ io. done (end_main 0 io, with_io p₃ io))

    unfoldable pub server_main : (concurrency : ℕ) → Program M → Outcome (Exit × Program M)
    unfolding io_run end_main serve_and_stop
    server_main concurrency p =
        let (running, io) = io_run concurrency rings (io_of p) in
        let p₁ = with_io p io in
        let s = record p₁.acceptor { server_object = events p₁.acceptor.server_object } in
        let opened = TcpServer.run u os s >>= λ r.
        (let p₂ = record p₁ { acceptor = r.1 } in
          if not r.0 then done (end_main 1 io, p₂) else serve_and_stop p₂) in
        if not running then done (end_main 1 io, p₁) else opened

  -- examples/chatserver/main.cpp.
  unfoldable pub chat_main :
      Allocator
      → Listening
      → Meanwhile (Program Hall)
      → Program Hall
      → Outcome (Exit × Program Hall)
  unfolding server_main
  chat_main a os meanwhile p =
      server_main os meanwhile with_events (λ h. leave_all (tcp_sockets u a) h.clients)
        (λ h. not (is_nil h.clients)) 4 p

  -- examples/echoserver/main.cpp.
  pub echo_main :
      Allocator
      → Listening
      → Meanwhile (Program EventReceiver)
      → (hardware_concurrency : ℕ) → Program EventReceiver
      → Outcome (Exit × Program EventReceiver)
  unfolding server_main
  echo_main a os meanwhile hardware_concurrency p =
      server_main os meanwhile (λ s. set_accept_event s true)
        (λ r. leave_clients (tcp_sockets u a) r.activating_sockets)
        (λ r. not (is_nil r.activating_sockets)) hardware_concurrency p

-- A program with one socket.
pub record Single : Type 0 where
  pub threads : ℕ
  pub session : Session

abbrev pub with_session : Single → Session → Single
with_session p s = record p { session = s }

abbrev pub single_io : Single → Io
single_io p = record { service = p.session.service; threads = p.threads }

abbrev pub with_single_io : Single → Io → Single
with_single_io p io = record {
  threads = io.threads;
  session = record p.session { service = io.service };
}

module _ (u : Uring) (a : Allocator) (rings : List ℕ) (ending : Ending)
    (meanwhile : Meanwhile Single) where
  -- The end of both: the socket is closed, `main` waits for it, and stops the service.
  single_end : (waits : Session → Bool) → Single → Outcome (Exit × Single)
  unfolding io_stop end_main
  single_end waits p = close u graceful p.session >>= λ s.
      meanwhile.until (λ q. waits q.session) (with_session p s) >>= λ p₁.
      io_stop ending (single_io p₁) >>= λ io. done (end_main 0 io, with_single_io p₁ io)

  -- The lines of a user until `exit`, each of them sent.
  says : List (List ℕ) → Single → Outcome Single
  says [] p = meanwhile.serving p
  says (input ∷ inputs) p = meanwhile.serving p >>= λ p₁. request input >>= λ bytes.
      send u a bytes p₁.session >>= λ r. says inputs (with_session p₁ r.1)

  -- examples/chatclient/main.cpp.
  unfoldable pub client_main :
      Connect.Network → Option (List AddrInfo) → List (List ℕ) → Single → Outcome (Exit × Single)
  unfolding io_run end_main single_end says
  client_main net info inputs p =
      let (running, io) = io_run 2 rings (single_io p) in
      let p₁ = with_single_io p io in
      let s = record p₁.session {
        sock = set_close_event (set_receive_event p₁.session.sock true) true;
      } in
      let talking = Connect.connect net u a info s >>= λ r.
      (let p₂ = with_session p₁ r.1 in
        if not r.0
        then done (end_main 1 io, p₂)
        else (says inputs p₂ >>= single_end leave_waits)) in
      if not running then done (end_main 1 io, p₁) else talking

  -- examples/udpserver/main.cpp: what `run` returns is not used.
  pub udp_main : Network → Single → Outcome (Exit × Single)
  unfolding io_run single_end
  udp_main net p =
      let (running, io) = io_run 2 rings (single_io p) in
      let p₁ = with_single_io p io in
      let s = record p₁.session {
        sock =
            set_receive_event
              (record p₁.session.sock { base = set_error_callback p₁.session.sock.base true }) true;
      } in
      UdpSocket.run net u a 9999 s >>= λ r.
      meanwhile.serving (with_session p₁ r.1) >>= λ p₂. single_end stop_waits p₂
