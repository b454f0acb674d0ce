-- ===== src/TcpServer/Accepted.antt =====
-- How the thread of a server makes an accepted connection an active socket (src/tcp_server.cpp).
use rioring.Prelude.{
  ℕ, suc, ◌<◌, ◌≤◌, ◌≡◌, refl, sym, ap, subst, ◌∙◌, true, false, [], ◌∷◌, ◌++◌, Outcome, done,
  ◌>>=◌, Returns, arith, Bool-cases, inl, inr, if◌then◌else◌,
}
use rioring.Memory.{Allocator, IsAllocator}
use rioring.ObjectBase.{ObjectBase}
use rioring.IoDoubleBuffer.{null_double}
use rioring.IoContext.{IoContext, IoType, Sockaddr}
use rioring.SocketObject.{SocketObject, tcp, new_socket, set_remote_info}
use rioring.IoService.{Uring, server}
use rioring.Session.{Session}
use rioring.Session.Requests.{IsUring, HasRings, entry, is_type, outstanding, outstanding-other}
use rioring.Session.Sending.{reads, IsSending}
use rioring.Session.Active.{on_active_lem}
use rioring.TcpServer.{Acceptor, submit_accept, on_accept, activate}
use rioring.TcpServer.Accepting
use rioring.TcpServer.Accepting.{
  accepts, Asked, submit_server_lem, accepts-Asked, highest, highest-append, outstanding-highest,
}

-- A new socket's methods run on the service of the server.
abbrev pub session_of : SocketObject → Acceptor → Session
session_of o s = record { sock = o; service = s.service; errors = s.errors; closed = s.closed }

-- `o` but for the callbacks, which are those of `p`.
abbrev pub dressed : SocketObject → SocketObject → SocketObject
dressed o p = record o {
  base = record o.base { error_event = p.base.error_event };
  recv_event = p.recv_event;
  send_complete_event = p.send_complete_event;
  socket_close_event = p.socket_close_event;
}

-- A callback for new connections that at most sets the callbacks of the new socket.
pub record IsSetup (accepted : SocketObject → Acceptor → Outcome (SocketObject × Acceptor))
    : Type 0 where
  pub sets :
      (o : SocketObject) (s : Acceptor)
      → (p : SocketObject) × (accepted o s ≡ done (p, s)) × (p ≡ dressed o p)

-- What one connection adds.
pub record Accepted (fd : ℕ) (addr : Sockaddr) (s : Acceptor) (r : SocketObject × Acceptor)
    : Type 0 where
  pub ident : r.0.base.obj_id ≡ s.obj_id_container
  pub descriptor : r.0.socket_handler ≡ fd
  pub peer : r.0.addr_storage ≡ addr
  pub connected : r.0.connected_flag ≡ true
  pub sending : IsSending (session_of r.0 r.1)
  pub read_request : IoContext
  pub receiving : reads (session_of r.0 r.1) ≡ read_request ∷ []
  pub counted : r.1.obj_id_container ≡ suc s.obj_id_container
  pub same_server : r.1.server_object ≡ s.server_object
  pub rings : HasRings r.1.service
  pub accept_request : IoContext
  pub listening : accepts r.1 ≡ accepts s ++ accept_request ∷ []
  pub fresh : highest r.1.service.submitted ≤ suc s.obj_id_container

-- What a new socket starts with.
pub new_socket_lem :
    (base : ObjectBase) (fd : ℕ) (addr : Sockaddr)
    → let o = set_remote_info (new_socket base tcp fd) addr in
      (o.base ≡ base)
      × (o.socket_handler ≡ fd)
      × (o.addr_storage ≡ addr)
      × (o.socket_type ≡ tcp)
      × (o.lock ≡ false)
      × (o.send_buffer ≡ null_double)
unfolding new_socket set_remote_info
new_socket_lem base fd addr = (refl, refl, refl, refl, refl, refl)

module _ (u : Uring) (f : IsUring u) (a : Allocator) (m : IsAllocator a)
    (accepted : SocketObject → Acceptor → Outcome (SocketObject × Acceptor))
    (setup : IsSetup accepted) where
  callback_lem :
      (o : SocketObject) (s : Acceptor)
      → (p : SocketObject) × ((if s.server_object.new_connect_event
            then accepted o s
            else done (o, s))
          ≡ done (p, s))
        × (p ≡ dressed o p)
  callback_lem o s = elim (Bool-cases s.server_object.new_connect_event) [
    | inl set ↦
        let (p, e, d) = setup.sets o s in
        (p, ap (λ b. if b then accepted o s else done (o, s)) set ∙ e, d)
    | inr unset ↦ (o, ap (λ b. if b then accepted o s else done (o, s)) unset, refl)
  ]

  pub on_accept_lem :
      (o : SocketObject) (s : Acceptor)
      → HasRings s.service
      → Returns
          (on_accept u a accepted o s)
          (λ r. (r.0 ≡ dressed o r.0) × Asked IoType.accept s r.1)
  unfolding on_accept submit_accept
  on_accept_lem o s h =
      let (p, e, d) = callback_lem o s in
      let (s', e', q) = submit_server_lem u f IoType.accept s h in
      ((p, s'), rw (e, ◌>>=◌, e', ◌>>=◌), (d, q))

  -- The connection becomes active after the next accept has been requested.
  pub activate_lem :
      (fd : ℕ) (addr : Sockaddr) (s s₁ : Acceptor) (o p : SocketObject)
      → HasRings s.service
      → highest s.service.submitted ≤ s.obj_id_container
      → s.server_object.obj_id < s.obj_id_container
      → (o.base.obj_id ≡ s.obj_id_container)
      → (o.socket_handler ≡ fd)
      → (o.addr_storage ≡ addr)
      → (o.socket_type ≡ tcp)
      → (o.lock ≡ false)
      → (o.send_buffer ≡ null_double)
      → p ≡ dressed o p
      → Asked IoType.accept (record s { obj_id_container = suc s.obj_id_container }) s₁
      → Returns (activate u a accepted (p, s₁)) (Accepted fd addr s)
  unfolding activate
  activate_lem fd addr s s₁ o p h low below id' fd' addr' t free unused d q =
      let ident : p.base.obj_id ≡ s.obj_id_container =
        ap (λ (x : SocketObject). x.base.obj_id) d ∙ id' in
      let high : highest s₁.service.submitted ≤ s.obj_id_container = omega (
        arith,
        ap highest q.added,
        highest-append s.service.submitted (entry q.ring (server s.server_object) q.request ∷ []),
        ap Accepting.above q.handler,
      ) in
      let (x, e, act) =
        on_active_lem u f a (session_of p s₁) m (ap (λ (x : SocketObject). x.socket_type) d ∙ t)
          (ap (λ (x : SocketObject). x.lock) d ∙ free)
          (subst (λ rs. HasRings (record s₁.service { io_array = rs })) (sym q.same_rings) h)
          (ap (λ (x : SocketObject). x.send_buffer) d ∙ unused)
          (outstanding-highest IoType.write p.base.obj_id s₁.service.submitted
            (omega (arith, high, ident)))
          (outstanding-highest IoType.read p.base.obj_id s₁.service.submitted
            (omega (arith, high, ident))) in
      (
        (x.sock, record s₁ { service = x.service; errors = x.errors; closed = x.closed }),
        rw (e, ◌>>=◌),
        record {
          ident = ap (λ (b : ObjectBase). b.obj_id) act.same_ident ∙ ident;
          descriptor = act.same_descriptor ∙ (ap (λ (x : SocketObject). x.socket_handler) d ∙ fd');
          peer = act.same_peer ∙ (ap (λ (x : SocketObject). x.addr_storage) d ∙ addr');
          connected = act.connected;
          sending = act.sending;
          read_request = act.request;
          receiving = act.reading;
          counted = q.same_count;
          same_server = q.same_server;
          rings = act.sending.rings;
          accept_request = q.request;
          listening =
              ap (outstanding IoType.accept s₁.server_object.obj_id) act.added
              ∙ (outstanding-other IoType.accept s₁.server_object.obj_id act.ring
                    s₁.service.submitted act.handle act.request
                    (ap (λ k. is_type k IoType.accept) act.type')
                  ∙ accepts-Asked u f _ s₁ q);
          fresh = omega (
            arith,
            ap highest act.added,
            highest-append s₁.service.submitted (entry act.ring act.handle act.request ∷ []),
            ap Accepting.above act.handler,
            high,
            ident,
          );
        },
      )
