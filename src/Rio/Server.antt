-- ===== src/Rio/Server.antt =====
-- src/tcp_server.cpp, the part under WIN32: a server has a thread of its own, which accepts. The
-- answers of the system calls are parameters.
pub mod Accepted
pub mod Served
use rioring.Prelude.{
  ℕ, Bool, true, false, List, [], ◌∷◌, ◌++◌, none, replicate, ◌==◌, if◌then◌else◌, Outcome, done,
  ◌>>=◌,
}
use rioring.Memory.{Allocator}
use rioring.ObjectBase.{ObjectBase, ErrorCall, new_object, io_error}
use rioring.IoContext.{Sockaddr, data_buffer_size}
use rioring.SocketObject.{tcp, new_socket, set_remote_info}
use rioring.Rio.{RioService, RioTable}
use rioring.Rio.Socket.{RioSocket, RioSession, invalid_socket, on_active}

-- `has_thread` tells whether the server's thread has been started and not been waited for.
pub record RioServer : Type 0 where
  pub base : ObjectBase
  pub open base use *
  pub server_socket : ℕ
  pub accept_event_callback : Bool
  pub has_thread : Bool

-- A server, the service that it runs on, and the counter of objects.
pub record RioAcceptor : Type 0 where
  pub server_object : RioServer
  pub service : RioService
  pub errors : List ErrorCall
  pub closed : List ℕ
  pub obj_id_container : ℕ

-- What `WSASocketW`, `bind` and `listen` answer, and `errno`, which is what is reported.
pub record Listening : Type 0 where
  pub opened : ℕ
  pub bind_fails : Bool
  pub listen_fails : Bool
  pub errno : ℕ

-- What `WSAAccept` gives: a SOCKET, and what it has written to the address.
pub record Arrival : Type 0 where
  pub socket : ℕ
  pub peer : Sockaddr

pub new_server : ObjectBase → RioServer
new_server base = record {
  base = base;
  server_socket = invalid_socket;
  accept_event_callback = false;
  has_thread = false;
}

pub set_accept_event : RioServer → Bool → RioServer
set_accept_event s event = record s { accept_event_callback = event }

error_occur : ℕ → RioAcceptor → RioAcceptor
unfolding io_error
error_occur errno s = record s { errors = s.errors ++ io_error s.server_object.base errno }

pub run : Listening → RioAcceptor → Bool × RioAcceptor
unfolding error_occur
run os s =
    let s₁ = record s { server_object = record s.server_object { server_socket = os.opened } } in
    if os.opened == invalid_socket
    then (false, error_occur os.errno s₁)
    else if os.bind_fails
    then (false, error_occur os.errno s₁)
    else if os.listen_fails
    then (false, error_occur os.errno s₁)
    else (true, record s₁ { server_object = record s₁.server_object { has_thread = true } })

-- `stop`; the thread that it waits for leaves its loop, since nothing is accepted on a closed socket.
pub stop : RioAcceptor → RioAcceptor
stop s = record s {
  server_object = record s.server_object { server_socket = invalid_socket; has_thread = false };
  closed = s.closed ++ s.server_object.server_socket ∷ [];
}

-- `tcp_socket::create` with a SOCKET.
unfoldable pub new_rio_socket : ObjectBase → ℕ → RioSocket
unfolding new_socket
new_rio_socket base fd = record {
  object = new_socket base tcp fd;
  request_queue = 0;
  recv_buffer_id = none;
  send_buffer_id = none;
  send_bind_buffer = replicate data_buffer_size 0;
}

-- A socket's methods run on the service of the server.
abbrev pub session_of : RioSocket → RioAcceptor → RioSession
session_of o s = record { sock = o; service = s.service; errors = s.errors; closed = s.closed }

-- `tcp_socket::create` and `set_remote_info`.
unfoldable pub created : Arrival → RioAcceptor → RioSocket × RioAcceptor
unfolding set_remote_info new_rio_socket
created c s =
    let (base, next) = new_object s.obj_id_container in
    let sock = new_rio_socket base c.socket in
    (
      record sock { object = set_remote_info sock.object c.peer },
      record s { obj_id_container = next },
    )

-- `accepted` is the user's callback for a new connection.
module _ (rio : RioTable) (a : Allocator)
    (accepted : RioSocket → RioAcceptor → Outcome (RioSocket × RioAcceptor)) where
  -- `new_connector->on_active()`.
  unfoldable pub activate : RioSocket × RioAcceptor → Outcome (RioSocket × RioAcceptor)
  activate (sock, s) = on_active rio a (session_of sock s) >>= λ x.
      done (x.sock, record s { service = x.service; errors = x.errors; closed = x.closed })

  -- One round of the loop, for a SOCKET that is valid.
  unfoldable pub accept_one : Arrival → RioAcceptor → Outcome (RioSocket × RioAcceptor)
  unfolding activate created
  accept_one c s =
      let (sock, s') = created c s in
      (if s.server_object.accept_event_callback then accepted sock s' else done (sock, s'))
      >>= activate

  -- The loop, over what `WSAAccept` gives: whether it has ended, and the sockets that it has made.
  unfoldable pub on_thread :
      List Arrival → RioAcceptor → Outcome (Bool × List RioSocket × RioAcceptor)
  unfolding accept_one
  on_thread [] s = done (false, [], s)
  on_thread (c ∷ cs) s =
      let more = accept_one c s >>= λ r. on_thread cs r.1 >>= λ q. done (q.0, r.0 ∷ q.1, q.2) in
      if c.socket == invalid_socket then done (true, [], s) else more
