-- ===== src/Rio/Server/Accepted.antt =====
-- One round of the thread of tcp_server on Windows (src/tcp_server.cpp).
use rioring.Prelude.{
  ℕ, suc, ◌<◌, ◌≤◌, ◌≡◌, refl, ap, Bool, true, false, [], ◌∷◌, ◌++◌, map, some, length,
  if◌then◌else◌, Outcome, done, ◌>>=◌, Returns, arith, add_size_lem, size_mod,
}
use rioring.Memory.{Allocator, IsAllocator}
use rioring.ObjectBase.{new_object}
use rioring.IoContext.{IoType}
use rioring.SocketObject.{SocketObject, new_socket, set_remote_info}
use rioring.TcpServer.Accepting.{highest, outstanding-highest}
use rioring.TcpServer.Accepted.{dressed}
use rioring.Rio.{RioTable, Request}
use rioring.Rio.Requests.{view}
use rioring.Rio.Socket.{RioSocket, activated}
use rioring.Rio.Sending.{IsSending}
use rioring.Rio.Active.{IsRio, IsRegistered, on_active_lem, activated_lem}
use rioring.Rio.Server.{
  Arrival, RioAcceptor, session_of, new_rio_socket, activate, created, accept_one,
}

-- A callback for new connections that at most sets the callbacks of the new socket.
pub record IsRioSetup (accepted : RioSocket → RioAcceptor → Outcome (RioSocket × RioAcceptor))
    : Type 0 where
  pub sets :
      (o : RioSocket) (s : RioAcceptor)
      → (p : SocketObject) × (accepted o s ≡ done (record o { object = dressed o.object p }, s))

-- An id that no request of the service has.
abbrev pub IsFree : ℕ → RioAcceptor → Type 0
IsFree n s = highest (map view s.service.submitted) ≤ n

-- What one connection adds.
pub record RioAccepted (c : Arrival) (s : RioAcceptor) (r : RioSocket × RioAcceptor) : Type 0 where
  pub ident : r.0.object.base.obj_id ≡ s.obj_id_container
  pub descriptor : r.0.object.socket_handler ≡ c.socket
  pub peer : r.0.object.addr_storage ≡ c.peer
  pub connected : r.0.object.connected_flag ≡ true
  pub sending : IsSending (session_of r.0 r.1)
  pub counted : r.1.obj_id_container ≡ suc s.obj_id_container
  pub same_server : r.1.server_object ≡ s.server_object
  pub same_array : r.1.service.io_array ≡ s.service.io_array
  pub request : Request
  pub added : r.1.service.submitted ≡ s.service.submitted ++ request ∷ []
  pub is_read : request.ctx.io_type ≡ IoType.read
  pub owner : request.ctx.handler ≡ some s.obj_id_container
  pub registered : IsRegistered r.0
  pub queued : request.ctx.rq ≡ r.0.request_queue
  pub into : request.ctx.buf.buffer_id ≡ r.0.recv_buffer_id

module _ (rio : RioTable) (table : IsRio rio) (a : Allocator) (m : IsAllocator a)
    (accepted : RioSocket → RioAcceptor → Outcome (RioSocket × RioAcceptor))
    (setup : IsRioSetup accepted) where
  -- The callback leaves a socket that differs in its callbacks.
  shown_lem :
      (b : Bool) (o : RioSocket) (s : RioAcceptor)
      → (p : SocketObject) × ((if b then accepted o s else done (o, s))
          ≡ done (record o { object = dressed o.object p }, s))
  shown_lem true o s = setup.sets o s
  shown_lem false o s = (o.object, refl)

  pub accept_one_lem :
      (c : Arrival) (s : RioAcceptor)
      → 0 < length s.service.io_array
      → suc s.obj_id_container < size_mod
      → IsFree s.obj_id_container s
      → Returns (accept_one rio a accepted c s) (RioAccepted c s)
  unfolding accept_one activate created new_rio_socket new_socket set_remote_info new_object
      activated
  accept_one_lem c s h small free =
      let (o, s') = created c s in
      let (p, e) = shown_lem s.server_object.accept_event_callback o s' in
      let o' = record o { object = dressed o.object p } in
      let (x, f, v) = on_active_lem rio table a (session_of o' s') h in
      let none_out =
        outstanding-highest IoType.write s.obj_id_container (map view s.service.submitted) free in
      let (sends, _, up) = activated_lem a (session_of o' s') x v m refl refl refl none_out in
      (
        (x.sock, record s' { service = x.service; errors = x.errors; closed = x.closed }),
        rw (e, ◌>>=◌) (rw (f, ◌>>=◌)),
        record {
          ident = ap (λ (q : SocketObject). q.base.obj_id) v.object;
          descriptor = ap (λ (q : SocketObject). q.socket_handler) v.object;
          peer = ap (λ (q : SocketObject). q.addr_storage) v.object;
          connected = up;
          sending = sends;
          counted = omega (arith, add_size_lem s.obj_id_container 1 (omega (arith, small)));
          same_server = refl;
          same_array = v.same_array;
          request = v.request;
          added = v.added;
          is_read = v.is_read;
          owner = v.owner;
          registered = v.registered;
          queued = v.queued;
          into = v.into;
        },
      )
