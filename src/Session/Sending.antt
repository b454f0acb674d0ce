-- ===== src/Session/Sending.antt =====
-- The sending half of a TCP socket (src/tcp_socket.cpp): its invariant, and what queueing bytes and
-- requesting a write change.
use rioring.Prelude.{
  ℕ, ◌≤◌, ◌<◌, ◌≡◌, ◌⊎◌, inl, inr, refl, sym, ap, subst, ◌∙◌, true, false, List, [], ◌∷◌, ◌++◌,
  Option, none, length, ◌>>=◌, Returns, arith, Bool-cases,
}
use rioring.Memory.{Allocator, IsAllocator, address_of}
use rioring.IoDoubleBuffer
use rioring.IoDoubleBuffer.{IoDoubleBuffer}
use rioring.IoDoubleBuffer.Valid.{
  IsReady, IsFront, HasRooms, contents, contents-nil, empty→size, busy→size,
}
use rioring.IoDoubleBuffer.Push.{Keeps, push-Queued}
use rioring.IoContext.{IoContext, IoType, Sockaddr, heap}
use rioring.SocketObject.{SocketObject, tcp}
use rioring.IoService.{socket, Uring, allocate_context}
use rioring.Session.{
  Session, socket_context, send_pointer, submit_sending_as, submit_sending, queue_and_send,
  push_send, with_sock,
}
use rioring.Session.Requests.{
  writes, outstanding, outstanding-add, outstanding-other, IsUring, HasRings, handed,
  submit_context_lem,
}

-- A request covers bytes at the front of the buffer that is being sent, where they stand.
abbrev pub Covers : IoContext → Session → Type 0
Covers ctx s =
    (ctx.iov_base ≡ heap (send_pointer s))
    × (0 < ctx.iov_len)
    × (ctx.iov_len ≤ IoDoubleBuffer.size s.sock.send_buffer)

abbrev pub pending : Session → List IoContext
pending s = writes s.sock.obj_id s.service.submitted

abbrev pub reads : Session → List IoContext
reads s = outstanding IoType.read s.sock.obj_id s.service.submitted

-- Nothing waits and no write is outstanding, or one is and covers bytes that wait.
abbrev pub Flight : Session → Type 0
Flight s =
    ((contents s.sock.send_buffer ≡ []) × (pending s ≡ []))
    ⊎ ((ctx : IoContext) × (pending s ≡ ctx ∷ []) × Covers ctx s)

pub record IsSending (s : Session) : Type 0 where
  pub is_tcp : s.sock.socket_type ≡ tcp
  pub unlocked : s.sock.lock ≡ false
  pub rings : HasRings s.service
  pub ready : IsReady s.sock.send_buffer
  pub front : IsFront s.sock.send_buffer
  pub flight : Flight s

-- What a request to send adds.
pub record Requested (s s' : Session) : Type 0 where
  pub same_sock : s'.sock ≡ s.sock
  pub same_errors : s'.errors ≡ s.errors
  pub same_closed : s'.closed ≡ s.closed
  pub same_rings : s'.service.io_array ≡ s.service.io_array
  pub request : IoContext
  pub added : pending s' ≡ pending s ++ request ∷ []
  pub same_shutdowns :
      outstanding IoType.shutdown s'.sock.obj_id s'.service.submitted
      ≡ outstanding IoType.shutdown s.sock.obj_id s.service.submitted
  pub same_reads : reads s' ≡ reads s
  pub base : request.iov_base ≡ heap (send_pointer s)
  pub len : request.iov_len ≡ IoDoubleBuffer.size s.sock.send_buffer

-- What a call that queues bytes changes.
pub record Queueing (s : Session) (bytes : List ℕ) (s' : Session) : Type 0 where
  pub only_buffer : s'.sock ≡ record s.sock { send_buffer = s'.sock.send_buffer }
  pub q_errors : s'.errors ≡ s.errors
  pub q_closed : s'.closed ≡ s.closed
  pub q_rings : s'.service.io_array ≡ s.service.io_array
  pub q_ready : IsReady s'.sock.send_buffer
  pub q_front : IsFront s'.sock.send_buffer
  pub q_flight : Flight s'
  pub q_reads : reads s' ≡ reads s
  pub q_appended : contents s'.sock.send_buffer ≡ contents s.sock.send_buffer ++ bytes

-- The context that `tcp_socket::submit_sending` submits.
abbrev write_request : Session → IoContext
write_request s = record (socket_context s IoType.write).0 {
  iov_base = heap (send_pointer s);
  iov_len = IoDoubleBuffer.size s.sock.send_buffer;
}

module _ (u : Uring) (f : IsUring u) where
  submit_sending_tcp :
      (addr : Option Sockaddr) (s : Session)
      → HasRings s.service
      → Returns (submit_sending_as u tcp addr s) (Requested s)
  unfolding submit_sending_as allocate_context
  submit_sending_tcp addr s h =
      let (ring, e) =
        submit_context_lem u f (write_request s) (socket_context s IoType.write).1 s h in
      (
        handed ring (write_request s) (socket_context s IoType.write).1 s,
        e,
        record {
          same_sock = refl;
          same_errors = refl;
          same_closed = refl;
          same_rings = refl;
          request = write_request s;
          added =
              outstanding-add IoType.write s.sock.obj_id ring s.service.submitted (socket s.sock)
                (write_request s) refl refl;
          same_shutdowns =
              outstanding-other IoType.shutdown s.sock.obj_id ring s.service.submitted
                (socket s.sock) (write_request s) refl;
          same_reads =
              outstanding-other IoType.read s.sock.obj_id ring s.service.submitted (socket s.sock)
                (write_request s) refl;
          base = refl;
          len = refl;
        },
      )

  pub submit_sending_lem :
      (addr : Option Sockaddr) (s : Session)
      → s.sock.socket_type ≡ tcp
      → HasRings s.service
      → Returns (submit_sending u addr s) (Requested s)
  unfolding submit_sending
  submit_sending_lem addr s t h =
      subst (λ k. Returns (submit_sending_as u k addr s) (Requested s)) (sym t)
        (submit_sending_tcp addr s h)

  -- What a socket has waiting is being sent once a request is made for it.
  pub request-Flight :
      {s s' : Session}
      → Requested s s'
      → pending s ≡ []
      → 0 < IoDoubleBuffer.size s.sock.send_buffer
      → Flight s'
  request-Flight {s} {s'} r none_yet some_bytes = inr (
    r.request,
    r.added ∙ ap (λ l. l ++ r.request ∷ []) none_yet,
    (
      r.base
          ∙ ap (λ (o : SocketObject). heap (address_of o.send_buffer.main_buffer.raw_buffer))
              (sym r.same_sock),
      subst (λ n. 0 < n) (sym r.len) some_bytes,
      subst (λ (o : SocketObject). r.request.iov_len ≤ IoDoubleBuffer.size o.send_buffer)
          (sym r.same_sock) (omega (arith, r.len)),
    ),
  )

  module _ (a : Allocator) (m : IsAllocator a) (s : Session) (bytes : List ℕ)
      (room : HasRooms s.sock.send_buffer (length bytes)) (some_bytes : 0 < length bytes)
      (ready : IsReady s.sock.send_buffer) (front : IsFront s.sock.send_buffer)
      (flight : Flight s) where
    -- What is covered stays covered when bytes go behind it.
    kept-Flight :
        (d : IoDoubleBuffer)
        → 0 < IoDoubleBuffer.size s.sock.send_buffer
        → Keeps s.sock.send_buffer d
        → Flight (with_sock s (record s.sock { send_buffer = d }))
    kept-Flight d size (same, longer, _) = elim flight [
      | inl (nothing, _) ↦
          absurd (omega (arith, size, contents-nil s.sock.send_buffer ready nothing))
      | inr (ctx, p, (base, some', covered)) ↦
          inr (ctx, p, (base ∙ ap heap (sym same), some', omega (arith, covered, longer)))
    ]

    busy_place :
        (d : IoDoubleBuffer)
        → ((0 < IoDoubleBuffer.size s.sock.send_buffer) × Keeps s.sock.send_buffer d)
          ⊎ ((contents s.sock.send_buffer ≡ []) × (IoDoubleBuffer.size d ≡ length bytes))
        → 0 < IoDoubleBuffer.size s.sock.send_buffer
        → Keeps s.sock.send_buffer d
    busy_place d (inl (_, k)) h = k
    busy_place d (inr (nothing, _)) h =
        absurd (omega (arith, h, contents-nil s.sock.send_buffer ready nothing))

    idle_place :
        (d : IoDoubleBuffer)
        → ((0 < IoDoubleBuffer.size s.sock.send_buffer) × Keeps s.sock.send_buffer d)
          ⊎ ((contents s.sock.send_buffer ≡ []) × (IoDoubleBuffer.size d ≡ length bytes))
        → IoDoubleBuffer.empty s.sock.send_buffer ≡ true
        → IoDoubleBuffer.size d ≡ length bytes
    idle_place d (inl (h, _)) idle = absurd (omega (arith, h, empty→size s.sock.send_buffer idle))
    idle_place d (inr (_, e)) idle = e

    no_flight : IoDoubleBuffer.empty s.sock.send_buffer ≡ true → pending s ≡ []
    no_flight idle = elim flight [
      | inl (_, p) ↦ p
      | inr (ctx, p, (_, some', covered)) ↦
          absurd (omega (arith, some', covered, empty→size s.sock.send_buffer idle))
    ]

    queue_idle :
        s.sock.socket_type ≡ tcp
        → HasRings s.service
        → IoDoubleBuffer.empty s.sock.send_buffer ≡ true
        → Returns (push_send u a bytes s >>= λ s'. submit_sending u none s') (Queueing s bytes)
    unfolding push_send
    queue_idle t rings idle =
        let (d, e, w) = push-Queued a m s.sock.send_buffer bytes ready front room in
        let s₁ = with_sock s (record s.sock { send_buffer = d }) in
        let (s', e', r) = submit_sending_lem none s₁ t rings in
        (
          s',
          rw (e, ◌>>=◌) e',
          record {
            only_buffer =
                r.same_sock
                ∙ ap (λ (o : SocketObject). record s.sock { send_buffer = o.send_buffer })
                    (sym r.same_sock);
            q_errors = r.same_errors;
            q_closed = r.same_closed;
            q_rings = r.same_rings;
            q_ready = subst (λ (o : SocketObject). IsReady o.send_buffer) (sym r.same_sock) w.ready;
            q_front = subst (λ (o : SocketObject). IsFront o.send_buffer) (sym r.same_sock) w.front;
            q_flight =
                request-Flight r (no_flight idle)
                  (omega (arith, idle_place d w.place idle, some_bytes));
            q_reads = r.same_reads;
            q_appended = ap (λ (o : SocketObject). contents o.send_buffer) r.same_sock ∙ w.appended;
          },
        )

    queue_busy :
        IoDoubleBuffer.empty s.sock.send_buffer ≡ false
        → Returns (push_send u a bytes s) (Queueing s bytes)
    unfolding push_send
    queue_busy busy =
        let (d, e, w) = push-Queued a m s.sock.send_buffer bytes ready front room in
        let s₁ = with_sock s (record s.sock { send_buffer = d }) in
        let size = busy→size s.sock.send_buffer front busy in
        (
          s₁,
          rw (e, ◌>>=◌),
          record {
            only_buffer = refl;
            q_errors = refl;
            q_closed = refl;
            q_rings = refl;
            q_ready = w.ready;
            q_front = w.front;
            q_flight = kept-Flight d size (busy_place d w.place size);
            q_reads = refl;
            q_appended = w.appended;
          },
        )

    pub queue_lem :
        s.sock.socket_type ≡ tcp
        → HasRings s.service
        → Returns (queue_and_send u a bytes none s) (Queueing s bytes)
    unfolding queue_and_send
    queue_lem t rings = elim (Bool-cases (IoDoubleBuffer.empty s.sock.send_buffer)) [
      | inl idle ↦ rw (idle, queue_and_send) (queue_idle t rings idle)
      | inr busy ↦ rw (busy, queue_and_send) (queue_busy busy)
    ]
