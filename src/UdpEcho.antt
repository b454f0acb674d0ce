-- ===== src/UdpEcho.antt =====
-- The UDP server example (examples/udpserver/main.cpp): its callback for a datagram.
use rioring.Prelude.{
  ℕ, ◌≤◌, ◌<◌, ◌≡◌, sym, ap, subst, ◌∙◌, false, List, [], ◌++◌, Option, none, some, length, take,
  drop, replicate, length-replicate, take-append_length, take_all, ◌==◌, Outcome, done, fault,
  ◌>>=◌, Returns, arith,
}
use rioring.Memory.{Allocator, IsAllocator}
use rioring.ByteQueue.{peek_enough}
use rioring.IoBuffer
use rioring.IoBuffer.Valid
use rioring.IoDoubleBuffer.Valid.{HasRooms}
use rioring.IoContext.{Sockaddr}
use rioring.IoService.{Uring}
use rioring.Session.{Session, with_sock, send_to, address_length}
use rioring.Session.Requests.{IsUring}
use rioring.UdpSocket.Datagrams.{IsIdle, Datagram, send_to_lem}
use rioring.Chat.Scheme.{overwrite, overwrite_within, overwrite_beyond}

-- `std::array< unsigned char, 512 > buf{ 0 }`.
abbrev pub buf_size : ℕ
buf_size = 512

module _ (u : Uring) (a : Allocator) where
  answer : Option (List ℕ) → Sockaddr → Session → Outcome Session
  answer none addr s = done s
  answer (some bytes) addr s = overwrite bytes (replicate buf_size 0) >>= λ buf.
      send_to u a (take (IoBuffer.size s.sock.recv_buffer) buf) (some addr) s >>= λ r.
      IoBuffer.pop r.1.sock.recv_buffer (IoBuffer.size r.1.sock.recv_buffer) >>= λ b.
      done (with_sock r.1 (record r.1.sock { recv_buffer = b }))

  pub on_recv_from : Sockaddr → Session → Outcome Session
  unfolding answer
  on_recv_from addr s =
      IoBuffer.read s.sock.recv_buffer (IoBuffer.size s.sock.recv_buffer) >>= λ out.
      answer out addr s

  -- A datagram of more than 512 bytes is copied past the end of the array.
  pub on_recv_from-fault :
      (addr : Sockaddr) (s : Session)
      → Valid.IsValid s.sock.recv_buffer
      → buf_size < IoBuffer.size s.sock.recv_buffer
      → on_recv_from addr s ≡ fault
  unfolding on_recv_from answer
  on_recv_from-fault addr s v h =
      let c = Valid.contents s.sock.recv_buffer in
      let len = Valid.length-contents s.sock.recv_buffer v in
      rw (
        Valid.read_lem s.sock.recv_buffer (IoBuffer.size s.sock.recv_buffer) v,
        peek_enough (IoBuffer.size s.sock.recv_buffer) c (omega (arith, len)),
        ◌>>=◌,
        take_all (IoBuffer.size s.sock.recv_buffer) c (omega (arith, len)),
        overwrite_beyond c (replicate buf_size 0)
            (omega (arith, len, h, length-replicate {A = ℕ} buf_size 0)),
        ◌>>=◌,
      )

  -- On an idle socket a datagram of up to 512 bytes is sent back: one datagram of exactly the bytes
  -- that were received, to the address that they came from, of IPv4 or IPv6. The receive buffer is
  -- empty afterwards.
  pub on_recv_from_lem :
      (f : IsUring u) (m : IsAllocator a) (addr : Sockaddr) (s : Session)
      → IsIdle s
      → Valid.IsValid s.sock.recv_buffer
      → IoBuffer.size s.sock.recv_buffer ≤ buf_size
      → HasRooms s.sock.send_buffer (IoBuffer.size s.sock.recv_buffer)
      → (address_length addr.family == 0) ≡ false
      → Returns (on_recv_from addr s) (λ s'.
        (Valid.contents s'.sock.recv_buffer ≡ [])
        × Datagram (Valid.contents s.sock.recv_buffer) addr s s')
  unfolding on_recv_from answer
  on_recv_from_lem f m addr s v ok fits rooms known =
      let b = s.sock.recv_buffer in
      let n = IoBuffer.size b in
      let c = Valid.contents b in
      let len = Valid.length-contents b ok in
      let front : take n (c ++ drop (length c) (replicate buf_size 0)) ≡ c =
        ap (λ k. take k (c ++ drop (length c) (replicate buf_size 0))) (sym len)
        ∙ take-append_length c (drop (length c) (replicate buf_size 0)) in
      let (r, e, (_, _, d, same)) =
        send_to_lem u f a m c addr s v (subst (HasRooms s.sock.send_buffer) (sym len) rooms)
          known in
      let (b', e', (_, left, _, _, _)) =
        Valid.pop_all r.1.sock.recv_buffer (subst Valid.IsValid (sym same) ok) in
      (
        with_sock r.1 (record r.1.sock { recv_buffer = b' }),
        rw (
          Valid.read_lem b n ok,
          peek_enough n c (omega (arith, len)),
          ◌>>=◌,
          take_all n c (omega (arith, len)),
          overwrite_within c (replicate buf_size 0)
              (omega (arith, len, fits, length-replicate {A = ℕ} buf_size 0)),
          ◌>>=◌,
          front,
          e,
          ◌>>=◌,
          e',
          ◌>>=◌,
        ),
        (
          left,
          record {
            request = d.request;
            added = d.added;
            to = d.to;
            as_message = d.as_message;
            vectors = d.vectors;
            base = d.base;
            len = d.len;
            waits = d.waits;
          },
        ),
      )
