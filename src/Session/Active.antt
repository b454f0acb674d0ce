-- ===== src/Session/Active.antt =====
-- tcp_socket::on_active (src/tcp_socket.cpp): what a new connection starts with.
use rioring.Prelude.{
  ℕ, ◌<◌, ◌≡◌, refl, sym, ap, subst, ◌∙◌, true, false, [], some, ◌∷◌, ◌++◌, Returns, arith, inl,
}
use rioring.Memory.{Allocator, IsAllocator}
use rioring.IoBuffer
use rioring.IoBuffer.Valid
use rioring.IoDoubleBuffer
use rioring.IoDoubleBuffer.{null_double}
use rioring.IoDoubleBuffer.Valid.{IsReady, IsFront, contents, assign-IsReady}
use rioring.IoContext.{IoContext, IoType, recv_bind, data_buffer_size}
use rioring.SocketObject.{SocketObject, SocketType, tcp}
use rioring.IoService.{Handler, socket, Uring, allocate_context}
use rioring.Session.{
  Session, with_sock, socket_context, submit_receiving, submit_receiving_as, activated, on_active,
}
use rioring.Session.Requests.{
  entry, IsUring, HasRings, handed, outstanding-other, outstanding-add, submit_context_lem,
}
use rioring.Session.Sending.{reads, pending, IsSending}

-- What a request to receive changes: it points to the socket's own buffer, and covers all of it.
pub record Listening (s s' : Session) : Type 0 where
  pub l_sock : s'.sock ≡ s.sock
  pub l_rings : s'.service.io_array ≡ s.service.io_array
  pub l_pending : pending s' ≡ pending s
  pub l_request : IoContext
  pub l_reads : reads s' ≡ reads s ++ l_request ∷ []
  pub l_errors : s'.errors ≡ s.errors
  pub l_closed : s'.closed ≡ s.closed
  pub l_ring : ℕ
  pub l_added :
      s'.service.submitted ≡ s.service.submitted ++ entry l_ring (socket s.sock) l_request ∷ []
  pub l_handler : l_request.handler ≡ some s.sock.obj_id
  pub l_type : l_request.io_type ≡ IoType.read
  pub l_base : l_request.iov_base ≡ recv_bind
  pub l_len : l_request.iov_len ≡ data_buffer_size

-- What a connection starts with.
pub record Activated (s s' : Session) : Type 0 where
  pub sending : IsSending s'
  pub nothing : contents s'.sock.send_buffer ≡ []
  pub connected : s'.sock.connected_flag ≡ true
  pub recv_valid : Valid.IsValid s'.sock.recv_buffer
  pub recv_able : 0 < s'.sock.recv_buffer.block_size
  pub request : IoContext
  pub reading : reads s' ≡ request ∷ []
  pub base : request.iov_base ≡ recv_bind
  pub len : request.iov_len ≡ data_buffer_size
  pub recv_empty : Valid.contents s'.sock.recv_buffer ≡ []
  pub only_buffers : s'.sock ≡ record s.sock {
    connected_flag = s'.sock.connected_flag;
    recv_buffer = s'.sock.recv_buffer;
    send_buffer = s'.sock.send_buffer;
  }
  pub same_ident : s'.sock.base ≡ s.sock.base
  pub same_descriptor : s'.sock.socket_handler ≡ s.sock.socket_handler
  pub same_peer : s'.sock.addr_storage ≡ s.sock.addr_storage
  pub same_rings : s'.service.io_array ≡ s.service.io_array
  pub same_closed : s'.closed ≡ s.closed
  pub ring : ℕ
  pub handle : Handler
  pub added : s'.service.submitted ≡ s.service.submitted ++ entry ring handle request ∷ []
  pub handler : request.handler ≡ some s.sock.obj_id
  pub type' : request.io_type ≡ IoType.read

module _ (u : Uring) (f : IsUring u) where
  receive_tcp :
      (s : Session) → HasRings s.service → Returns (submit_receiving_as u tcp s) (Listening s)
  unfolding submit_receiving_as allocate_context
  receive_tcp s h =
      let (ctx, service) = socket_context s IoType.read in
      let request : IoContext = record ctx { iov_base = recv_bind; iov_len = data_buffer_size } in
      let (ring, e) = submit_context_lem u f request service s h in
      (
        handed ring request service s,
        e,
        record {
          l_sock = refl;
          l_rings = refl;
          l_pending =
              outstanding-other IoType.write s.sock.obj_id ring s.service.submitted (socket s.sock)
                request refl;
          l_request = request;
          l_reads =
              outstanding-add IoType.read s.sock.obj_id ring s.service.submitted (socket s.sock)
                request refl refl;
          l_errors = refl;
          l_closed = refl;
          l_ring = ring;
          l_added = refl;
          l_handler = refl;
          l_type = refl;
          l_base = refl;
          l_len = refl;
        },
      )

  pub submit_receiving_lem :
      (s : Session)
      → s.sock.socket_type ≡ tcp
      → HasRings s.service
      → Returns (submit_receiving u s) (Listening s)
  unfolding submit_receiving
  submit_receiving_lem s t h =
      subst (λ k. Returns (submit_receiving_as u k s) (Listening s)) (sym t) (receive_tcp s h)

  connected_tcp :
      (o : SocketObject)
      → o.socket_type ≡ tcp
      → (elim o.socket_type [ tcp ↦ true | SocketType.udp ↦ o.connected_flag ]) ≡ true
  connected_tcp o t = ap (λ k. elim k [ tcp ↦ true | SocketType.udp ↦ o.connected_flag ]) t

  -- A new TCP socket that becomes active has nothing to send, is ready to send, counts as
  -- connected, and has one request to receive outstanding.
  pub on_active_lem :
      (a : Allocator) (s : Session)
      → IsAllocator a
      → s.sock.socket_type ≡ tcp
      → s.sock.lock ≡ false
      → HasRings s.service
      → s.sock.send_buffer ≡ null_double
      → pending s ≡ []
      → reads s ≡ []
      → Returns (on_active u a s) (Activated s)
  unfolding on_active activated IoBuffer.assign
  on_active_lem a s m t free h unused none_out no_reads =
      let o = activated u a s.sock in
      let (s', e, l) = submit_receiving_lem (with_sock s o) t h in
      let (ready, nothing, front) =
        subst
          (λ b.
            let d = IoDoubleBuffer.assign a b data_buffer_size in
            IsReady d × (contents d ≡ []) × IsFront d)
          (sym unused) (assign-IsReady a data_buffer_size m (omega arith)) in
      let empty' = ap (λ (x : SocketObject). contents x.send_buffer) l.l_sock ∙ nothing in
      (
        s',
        e,
        record {
          sending = record {
            is_tcp = ap (λ (x : SocketObject). x.socket_type) l.l_sock ∙ t;
            unlocked = ap (λ (x : SocketObject). x.lock) l.l_sock ∙ free;
            rings = subst (λ rs. HasRings (record s'.service { io_array = rs })) (sym l.l_rings) h;
            ready = subst (λ (x : SocketObject). IsReady x.send_buffer) (sym l.l_sock) ready;
            front = subst (λ (x : SocketObject). IsFront x.send_buffer) (sym l.l_sock) front;
            flight = inl (empty', l.l_pending ∙ none_out);
          };
          nothing = empty';
          connected = ap (λ (x : SocketObject). x.connected_flag) l.l_sock ∙ connected_tcp s.sock t;
          recv_valid =
              subst (λ (x : SocketObject). Valid.IsValid x.recv_buffer) (sym l.l_sock)
                (Valid.assign-IsValid a s.sock.recv_buffer data_buffer_size m).0;
          recv_able =
              subst (λ (x : SocketObject). 0 < x.recv_buffer.block_size) (sym l.l_sock)
                (omega arith);
          request = l.l_request;
          reading = l.l_reads ∙ ap (λ r. r ++ l.l_request ∷ []) no_reads;
          base = l.l_base;
          len = l.l_len;
          recv_empty =
              ap (λ (x : SocketObject). Valid.contents x.recv_buffer) l.l_sock
              ∙ (Valid.assign-IsValid a s.sock.recv_buffer data_buffer_size m).1;
          only_buffers =
              l.l_sock
              ∙ ap
                  (λ (x : SocketObject). record s.sock {
                    connected_flag = x.connected_flag;
                    recv_buffer = x.recv_buffer;
                    send_buffer = x.send_buffer;
                  })
                  (sym l.l_sock);
          same_ident = ap (λ (x : SocketObject). x.base) l.l_sock;
          same_descriptor = ap (λ (x : SocketObject). x.socket_handler) l.l_sock;
          same_peer = ap (λ (x : SocketObject). x.addr_storage) l.l_sock;
          same_rings = l.l_rings;
          same_closed = l.l_closed;
          ring = l.l_ring;
          handle = socket o;
          added = l.l_added;
          handler = l.l_handler;
          type' = l.l_type;
        },
      )
