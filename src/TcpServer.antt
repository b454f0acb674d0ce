-- ===== src/TcpServer.antt =====
-- src/tcp_server.cpp (the Linux part) and what io_service::io (src/io_service.cpp) does with a
-- completed request of a server. The answers of the system calls are parameters.
pub mod Accepting
pub mod Accepted
pub mod Connections
use rioring.Prelude.{
  ℕ, zero, suc, ◌^◌, ◌-◌, Bool, true, false, List, [], ◌∷◌, ◌++◌, some, ◌==◌, if◌then◌else◌,
  Outcome, done, fault, ◌>>=◌,
}
use rioring.Memory.{Allocator}
use rioring.ObjectBase.{ObjectBase, ErrorCall, new_object, io_error}
use rioring.IoContext.{IoContext, IoType, Sockaddr}
use rioring.SocketObject.{SocketObject, tcp, new_socket, set_remote_info}
use rioring.IoService.{
  TcpServer, IoService, Uring, server, allocate_context, deallocate_context, submit,
}
use rioring.Session.{Session, on_active}
use rioring.Completion.{ℤ, pos, negsuc}

-- A server, the service that it runs on, and the counter of objects.
pub record Acceptor : Type 0 where
  pub server_object : TcpServer
  pub service : IoService
  pub errors : List ErrorCall
  pub closed : List ℕ
  pub obj_id_container : ℕ

-- What `socket`, `bind` and `listen` answer, and `errno` where one fails.
pub record Listening : Type 0 where
  pub opened : ℕ
  pub bind_fails : Bool
  pub listen_fails : Bool
  pub errno : ℕ

-- `-1` as an `int`.
abbrev pub minus_one : ℕ
minus_one = 2 ^ 32 - 1

pub new_server : ObjectBase → TcpServer
new_server base = record { base = base; server_socket = 0; addr6 = 0; new_connect_event = false }

pub set_accept_event : TcpServer → Bool → TcpServer
set_accept_event s event = record s { new_connect_event = event }

abbrev pub error_occur : ℕ → Acceptor → Acceptor
error_occur errno s = record s { errors = s.errors ++ io_error s.server_object.base errno }

module _ (u : Uring) where
  -- The two requests: a context whose handler is the server, submitted.
  pub submit_server : IoType → Acceptor → Outcome Acceptor
  submit_server t s =
      let (ctx, service) = allocate_context s.service in
      let request = record ctx { handler = some s.server_object.obj_id; io_type = t } in
      submit u (server s.server_object) request service >>= λ r.
      done (record s { service = r.service; errors = s.errors ++ r.errors })

  pub submit_accept : Acceptor → Outcome Acceptor
  unfolding submit_server
  submit_accept s = submit_server IoType.accept s

  pub stop : Acceptor → Outcome Acceptor
  unfolding submit_server
  stop s = submit_server IoType.shutdown s

  unfoldable pub run : Listening → Acceptor → Outcome (Bool × Acceptor)
  unfolding io_error
  run os s =
      let s₁ = record s { server_object = record s.server_object { server_socket = os.opened } } in
      if os.opened == minus_one
      then done (false, error_occur os.errno s₁)
      else if os.bind_fails
      then done (false, error_occur os.errno s₁)
      else if os.listen_fails
      then done (false, error_occur os.errno s₁)
      else (submit_accept s₁ >>= λ s'. done (true, s'))

  -- `accepted` is the user's callback for a new connection.
  module _ (a : Allocator)
      (accepted : SocketObject → Acceptor → Outcome (SocketObject × Acceptor)) where
    pub on_accept : SocketObject → Acceptor → Outcome (SocketObject × Acceptor)
    on_accept sock s =
        (if s.server_object.new_connect_event then accepted sock s else done (sock, s)) >>= λ r.
        submit_accept r.1 >>= λ s'. done (r.0, s')

    -- `socket->on_active()` of the new connection.
    pub activate : SocketObject × Acceptor → Outcome (SocketObject × Acceptor)
    activate (sock, s) =
        let x : Session = record {
          sock = sock;
          service = s.service;
          errors = s.errors;
          closed = s.closed;
        } in
        on_active u a x >>= λ x'.
        done (x'.sock, record s { service = x'.service; errors = x'.errors; closed = x'.closed })

    pub io_accepting : ℕ → Sockaddr → Acceptor → Outcome (SocketObject × Acceptor)
    unfolding activate
    io_accepting fd addr s =
        let (base, next) = new_object s.obj_id_container in
        let sock = set_remote_info (new_socket base tcp fd) addr in
        on_accept sock (record s { obj_id_container = next }) >>= activate

    -- The branch of `io` for a completed accept: the new sockets.
    on_accepted : ℤ → Sockaddr → Acceptor → Outcome (List SocketObject × Acceptor)
    on_accepted (pos zero) addr s = done ([], s)
    on_accepted (pos (suc n)) addr s = io_accepting (suc n) addr s >>= λ r. done (r.0 ∷ [], r.1)
    on_accepted (negsuc n) addr s = done ([], s)

    -- The branch for a completed shutdown closes the descriptor, whatever it is.
    pub close_server : Acceptor → Acceptor
    close_server s = record s {
      server_object = record s.server_object { server_socket = 0 };
      closed = s.closed ++ s.server_object.server_socket ∷ [];
    }

    -- The `switch` of `io`, for a context whose handler is a server; `socket` is null there.
    pub dispatch_server : IoType → ℤ → Sockaddr → Acceptor → Outcome (List SocketObject × Acceptor)
    unfolding on_accepted
    dispatch_server IoType.unknown res addr s = done ([], s)
    dispatch_server IoType.accept res addr s = on_accepted res addr s
    dispatch_server IoType.read res addr s = fault
    dispatch_server IoType.write res addr s = fault
    dispatch_server IoType.shutdown res addr s = done ([], close_server s)

    -- One round of `io`. `addr` is what the kernel has written to the server's `addr6`.
    pub complete_server :
        IoContext → ℤ → Sockaddr → Acceptor → Outcome (List SocketObject × Acceptor)
    complete_server ctx res addr s = dispatch_server ctx.io_type res addr s >>= λ r.
        done (r.0, record r.1 { service = deallocate_context r.1.service ctx })
