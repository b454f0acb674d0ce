-- ===== src/Rio/Active.antt =====
-- tcp_socket::on_active on Windows (src/tcp_socket.cpp, src/socket_object.cpp).
use rioring.Prelude.{
  get_elem?-some, ℕ, ◌%◌, ◌+◌, ◌<◌, ◌≡◌, inl, refl, sym, ap, subst, ◌∙◌, true, false, List, [], ◌∷◌,
  ◌++◌, length, some, ◌==◌, ne→eqb, done, ◌>>=◌, Returns, arith,
}
use native.Mathlib.Nat.{mod-lt}
use rioring.Memory.{Allocator, IsAllocator}
use rioring.IoDoubleBuffer
use rioring.IoDoubleBuffer.{null_double}
use rioring.IoDoubleBuffer.Valid.{IsReady, IsFront, contents, assign-IsReady}
use rioring.IoContext.{IoType, data_buffer_size}
use rioring.SocketObject.{SocketObject, tcp}
use rioring.Rio.{
  RioTable, RioService, RioBuf, Request, register_buffer, create_request_queue, invalid_queue,
  invalid_buffer, allocate_context,
}
use rioring.Rio.Requests.{writes, writes-other, submit_lem}
use rioring.Rio.Socket.{
  RioSocket, RioSession, with_object, filled, read_address, on_active, activated,
  request_and_register, register_both, register_send, submit_receiving,
}
use rioring.Rio.Sending.{buffer_of, pending, IsSending}

-- A function table that gives every socket a queue, and an id for every array.
pub record IsRio (rio : RioTable) : Type 0 where
  pub queues : (socket recv send : ℕ) → (rio.create_queue socket recv send == invalid_queue) ≡ false
  pub buffers : (ids : List ℕ) → (rio.register ids == invalid_buffer) ≡ false

-- A socket has a queue, and both of its arrays are registered.
pub record IsRegistered (o : RioSocket) : Type 0 where
  pub queue : (o.request_queue == invalid_queue) ≡ false
  pub recv_id : ℕ
  pub recv_given : o.recv_buffer_id ≡ some recv_id
  pub recv_valid : (recv_id == invalid_buffer) ≡ false
  pub send_id : ℕ
  pub send_given : o.send_buffer_id ≡ some send_id
  pub send_valid : (send_id == invalid_buffer) ≡ false

-- A service that runs has a queue for every socket.
create_request_queue_lem :
    (rio : RioTable) (s : RioService) (socket : ℕ)
    → 0 < length s.io_array
    → IsRio rio
    → (rq : ℕ) × (create_request_queue rio s socket ≡ done rq) × ((rq == invalid_queue) ≡ false)
unfolding create_request_queue
create_request_queue_lem rio s socket h table =
    let n = length s.io_array in
    let (recv, r) = get_elem?-some s.io_array (socket % n) (mod-lt socket h) in
    let (send, e) = get_elem?-some s.io_array ((socket + 1) % n) (mod-lt (socket + 1) h) in
    (
      rio.create_queue socket recv send,
      rw (ne→eqb n 0 (λ e. omega (arith, h, e)), r, e),
      table.queues socket recv send,
    )

-- Registering changes neither the object, nor the queues and the requests of the service.
abbrev Kept : RioSession → RioSession → Type 0
Kept s s' =
    (s'.sock.object ≡ s.sock.object)
    × (s'.service.io_array ≡ s.service.io_array)
    × (s'.service.submitted ≡ s.service.submitted)

-- What becoming active changes: the object, and one request more, for a read.
pub record RioActivated (a : Allocator) (s s' : RioSession) : Type 0 where
  pub object : s'.sock.object ≡ activated a s.sock.object
  pub same_array : s'.service.io_array ≡ s.service.io_array
  pub request : Request
  pub added : s'.service.submitted ≡ s.service.submitted ++ request ∷ []
  pub is_read : request.ctx.io_type ≡ IoType.read
  pub owner : request.ctx.handler ≡ some s.sock.object.base.obj_id
  pub whole : request.ctx.buf.length ≡ data_buffer_size
  pub registered : IsRegistered s'.sock
  pub queued : request.ctx.rq ≡ s'.sock.request_queue
  pub into : request.ctx.buf.buffer_id ≡ s'.sock.recv_buffer_id

-- An object with nothing to send.
abbrev Idle : ℕ → SocketObject → Type 0
Idle obj o =
    (o.base.obj_id ≡ obj)
    × (o.lock ≡ false)
    × IsReady o.send_buffer
    × IsFront o.send_buffer
    × (contents o.send_buffer ≡ [])
    × (o.connected_flag ≡ true)

-- A new socket that has become active can send.
pub activated_lem :
    (a : Allocator) (s s' : RioSession)
    → RioActivated a s s'
    → IsAllocator a
    → s.sock.object.socket_type ≡ tcp
    → s.sock.object.lock ≡ false
    → s.sock.object.send_buffer ≡ null_double
    → pending s ≡ []
    → IsSending s' × (contents (buffer_of s') ≡ []) × (s'.sock.object.connected_flag ≡ true)
unfolding activated
activated_lem a s s' v m is_tcp free unused none_out =
    let obj = s.sock.object.base.obj_id in
    let (ready, nothing, front) =
      subst
        (λ b.
          let d = IoDoubleBuffer.assign a b data_buffer_size in
          IsReady d × (contents d ≡ []) × IsFront d)
        (sym unused) (assign-IsReady a data_buffer_size m (omega arith)) in
    let nothing_out =
      ap (writes obj) v.added
      ∙ (writes-other obj s.service.submitted v.request v.is_read ∙ none_out) in
    let (i, free', ready', front', nothing', connected) =
      subst (Idle obj) (sym v.object) (refl, free, ready, front, nothing, rw is_tcp refl) in
    (
      record {
        unlocked = free';
        ready = ready';
        front = front';
        flight = inl (nothing', ap (λ k. writes k s'.service.submitted) i ∙ nothing_out);
      },
      nothing',
      connected,
    )

module _ (rio : RioTable) (table : IsRio rio) where
  request_lem :
      (s : RioSession)
      → 0 < length s.service.io_array
      → Returns (request_and_register rio s) (λ s'. Kept s s' × IsRegistered s'.sock)
  unfolding request_and_register register_both register_send register_buffer
  request_lem s h =
      let (rq, e, valid) =
        create_request_queue_lem rio s.service s.sock.object.socket_handler h table in
      let recv_id = rio.register s.service.registered in
      let send_id = rio.register (s.service.registered ++ recv_id ∷ []) in
      let recv_ok = table.buffers s.service.registered in
      let send_ok = table.buffers (s.service.registered ++ recv_id ∷ []) in
      (
        record s {
          sock = record s.sock {
            request_queue = rq;
            recv_buffer_id = some recv_id;
            send_buffer_id = some send_id;
          };
          service = record s.service {
            registered = (s.service.registered ++ recv_id ∷ []) ++ send_id ∷ [];
          };
        },
        rw (e, ◌>>=◌, valid, recv_ok, send_ok) refl,
        (
          (refl, refl, refl),
          record {
            queue = valid;
            recv_id = recv_id;
            recv_given = refl;
            recv_valid = recv_ok;
            send_id = send_id;
            send_given = refl;
            send_valid = send_ok;
          },
        ),
      )

  -- A socket on a service that runs becomes active, with a read requested on its queue.
  pub on_active_lem :
      (a : Allocator) (s : RioSession)
      → 0 < length s.service.io_array
      → Returns (on_active rio a s) (RioActivated a s)
  unfolding on_active submit_receiving allocate_context
  on_active_lem a s h =
      let x = with_object s (activated a s.sock.object) in
      let (s', e, ((o, q, r), g)) = request_lem x h in
      let (ctx, service) =
        filled s' IoType.read s'.sock.recv_buffer_id data_buffer_size
          (read_address s'.sock.object.socket_type s'.sock.object) in
      let w = submit_lem rio ctx service in
      (
        submit_receiving rio s',
        rw (e, ◌>>=◌),
        record {
          object = o;
          same_array = w.same_array ∙ q;
          request = w.request;
          added = w.added ∙ ap (λ l. l ++ w.request ∷ []) r;
          is_read = w.same_type;
          owner = w.same_handler ∙ ap (λ (o' : SocketObject). some o'.base.obj_id) o;
          whole = ap (λ (b : RioBuf). b.length) w.same_buf;
          registered = g;
          queued = w.same_queue;
          into = ap (λ (b : RioBuf). b.buffer_id) w.same_buf;
        },
      )
