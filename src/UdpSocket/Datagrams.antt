-- ===== src/UdpSocket/Datagrams.antt =====
-- udp_socket::send_to (src/udp_socket.cpp): which datagram a call makes, and which it does not.
use rioring.Prelude.{
  ℕ, ◌≡◌, inl, inr, refl, ap, ◌∙◌, true, false, List, [], ◌∷◌, ◌++◌, Option, some, length, ◌==◌,
  done, ◌>>=◌, Returns, arith,
}
use rioring.Memory.{Allocator, IsAllocator}
use rioring.IoDoubleBuffer
use rioring.IoDoubleBuffer.{IoDoubleBuffer}
use rioring.IoDoubleBuffer.Valid.{IsReady, IsFront, HasRooms, contents, empty→size, nil→empty}
use rioring.IoDoubleBuffer.Push.{push-Queued}
use rioring.IoContext.{IoContext, IoType, Sockaddr, udp_context, heap}
use rioring.SocketObject.{udp}
use rioring.IoService.{Uring, socket, allocate_context}
use rioring.Session.{
  Session, with_sock, socket_context, send_pointer, address_length, submit_sending_as,
  submit_sending_udp, submit_sending, push_send, queue_and_send, send_to,
}
use rioring.Session.Requests.{IsUring, HasRings, handed, outstanding-add, submit_context_lem}
use rioring.Session.Sending.{pending}
use rioring.Session.Send.{locked, released, with_lock-done}

-- A UDP socket that is active and has nothing to send.
pub record IsIdle (s : Session) : Type 0 where
  pub kind : s.sock.socket_type ≡ udp
  pub unlocked : s.sock.lock ≡ false
  pub rings : HasRings s.service
  pub ready : IsReady s.sock.send_buffer
  pub front : IsFront s.sock.send_buffer
  pub idle : contents s.sock.send_buffer ≡ []

-- The receive buffer is left alone.
abbrev pub SameReceived : Session → Session → Type 0
SameReceived s s' = s'.sock.recv_buffer ≡ s.sock.recv_buffer

-- One datagram of exactly these bytes to this address has been requested.
pub record Datagram (bytes : List ℕ) (addr : Sockaddr) (s s' : Session) : Type 0 where
  pub request : IoContext
  pub added : pending s' ≡ pending s ++ request ∷ []
  pub to : request.addr ≡ addr
  pub as_message : request.ctype ≡ udp_context
  pub vectors : request.msg_iovlen ≡ 1
  pub base : request.iov_base ≡ heap (send_pointer s')
  pub len : request.iov_len ≡ length bytes
  pub waits : contents s'.sock.send_buffer ≡ bytes

module _ (u : Uring) (f : IsUring u) (a : Allocator) (m : IsAllocator a) where
  submit-Datagram :
      (bytes : List ℕ) (addr : Sockaddr) (s : Session)
      → HasRings s.service
      → (address_length addr.family == 0) ≡ false
      → IoDoubleBuffer.size s.sock.send_buffer ≡ length bytes
      → contents s.sock.send_buffer ≡ bytes
      → Returns (submit_sending_udp u addr s) (λ s'. Datagram bytes addr s s' × SameReceived s s')
  unfolding submit_sending_udp allocate_context
  submit-Datagram bytes addr s h known size waits =
      let (ctx, service) = socket_context s IoType.write in
      let request : IoContext = record ctx {
        ctype = udp_context;
        iov_base = heap (send_pointer s);
        iov_len = IoDoubleBuffer.size s.sock.send_buffer;
        msg_iovlen = 1;
        addr = addr;
      } in
      let (ring, e) = submit_context_lem u f request service s h in
      (
        handed ring request service s,
        rw (known) e,
        (
          record {
            request = request;
            added =
                outstanding-add IoType.write s.sock.obj_id ring s.service.submitted (socket s.sock)
                  request refl refl;
            to = refl;
            as_message = refl;
            vectors = refl;
            base = refl;
            len = size;
            waits = waits;
          },
          refl,
        ),
      )

  queue-Datagram :
      (bytes : List ℕ) (addr : Sockaddr) (s : Session)
      → s.sock.socket_type ≡ udp
      → HasRings s.service
      → IsReady s.sock.send_buffer
      → IsFront s.sock.send_buffer
      → contents s.sock.send_buffer ≡ []
      → HasRooms s.sock.send_buffer (length bytes)
      → (address_length addr.family == 0) ≡ false
      → Returns
          (queue_and_send u a bytes (some addr) s)
          (λ s'. Datagram bytes addr s s' × SameReceived s s')
  unfolding queue_and_send push_send submit_sending submit_sending_as
  queue-Datagram bytes addr s t h ready front nothing room known =
      let (d, e, w) = push-Queued a m s.sock.send_buffer bytes ready front room in
      let s₁ = with_sock s (record s.sock { send_buffer = d }) in
      let empty' = nil→empty s.sock.send_buffer ready nothing in
      let size : IoDoubleBuffer.size d ≡ length bytes = elim w.place [
        | inl (some', _) ↦ absurd (omega (arith, some', empty→size s.sock.send_buffer empty'))
        | inr (_, n) ↦ n
      ] in
      let (s', e', (q, same)) =
        submit-Datagram bytes addr s₁ h known size (w.appended ∙ ap (λ l. l ++ bytes) nothing) in
      (
        s',
        rw (empty', queue_and_send, e, ◌>>=◌)
            (ap (λ k. submit_sending_as u k (some addr) s₁) t ∙ e'),
        (
          record {
            request = q.request;
            added = q.added;
            to = q.to;
            as_message = q.as_message;
            vectors = q.vectors;
            base = q.base;
            len = q.len;
            waits = q.waits;
          },
          same,
        ),
      )

  -- On an idle socket `send_to` requests one datagram: of exactly the bytes, to the address, if its
  -- family is that of IPv4 or of IPv6.
  pub send_to_lem :
      (bytes : List ℕ) (addr : Sockaddr) (s : Session)
      → IsIdle s
      → HasRooms s.sock.send_buffer (length bytes)
      → (address_length addr.family == 0) ≡ false
      → Returns (send_to u a bytes (some addr) s) (λ r.
        (r.0 ≡ true) × (r.1.sock.lock ≡ false) × Datagram bytes addr s r.1 × SameReceived s r.1)
  unfolding send_to
  send_to_lem bytes addr s v room known =
      let (s', e, (q, same)) =
        queue-Datagram bytes addr (locked s) v.kind v.rings v.ready v.front v.idle room known in
      (
        (true, released s'),
        ap (λ r. r >>= λ s''. done (true, s''))
            (with_lock-done (queue_and_send u a bytes (some addr)) s s' v.unlocked e),
        (
          refl,
          refl,
          record {
            request = q.request;
            added = q.added;
            to = q.to;
            as_message = q.as_message;
            vectors = q.vectors;
            base = q.base;
            len = q.len;
            waits = q.waits;
          },
          same,
        ),
      )

-- While bytes wait to be sent, `send_to` does not look at the address: whatever it is, the bytes go
-- behind those that wait, for the address of the earlier call, and no datagram is requested.
send_to_busy :
    (u : Uring) (a : Allocator) (m : IsAllocator a) (bytes : List ℕ) (addr : Option Sockaddr)
    (s : Session)
    → s.sock.lock ≡ false
    → IsReady s.sock.send_buffer
    → IsFront s.sock.send_buffer
    → IoDoubleBuffer.empty s.sock.send_buffer ≡ false
    → HasRooms s.sock.send_buffer (length bytes)
    → Returns (send_to u a bytes addr s) (λ r.
      (r.0 ≡ true)
      × (r.1.service ≡ s.service)
      × (contents r.1.sock.send_buffer ≡ contents s.sock.send_buffer ++ bytes))
unfolding send_to queue_and_send push_send
send_to_busy u a m bytes addr s free ready front busy room =
    let (d, e, w) = push-Queued a m s.sock.send_buffer bytes ready front room in
    let s₁ = with_sock (locked s) (record (locked s).sock { send_buffer = d }) in
    let queued : queue_and_send u a bytes addr (locked s) ≡ done s₁ =
      rw (busy, queue_and_send, e, ◌>>=◌) in
    (
      (true, released s₁),
      ap (λ r. r >>= λ s''. done (true, s''))
          (with_lock-done (queue_and_send u a bytes addr) s s₁ free queued),
      (refl, refl, w.appended),
    )
