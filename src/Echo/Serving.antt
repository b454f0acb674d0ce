-- ===== src/Echo/Serving.antt =====
-- What the echo server (examples/echoserver/main.cpp) does when bytes have come, down to the requests
-- of the library (src/io_service.cpp, src/socket_object.cpp, src/tcp_socket.cpp).
use rioring.Prelude.{
  ℕ, ◌≤◌, ◌<◌, ◌≡◌, inl, inr, refl, sym, ap, subst, ◌∙◌, true, false, List, [], ◌++◌, length, ◌>>=◌,
  Returns, arith,
}
use rioring.Memory.{Allocator, IsAllocator, bytes_of, read_bytes}
use rioring.Memory.Copy.{read_bytes_within}
use rioring.IoBuffer
use rioring.IoBuffer.Valid
use rioring.IoDoubleBuffer
use rioring.IoDoubleBuffer.Valid.{HasRooms, contents, IsReady, IsFront}
use rioring.IoContext.{heap}
use rioring.SocketObject.{SocketObject, tcp}
use rioring.IoService.{Uring}
use rioring.Session.{Session, with_sock}
use rioring.Session.Requests.{IsUring, HasRings}
use rioring.Session.Sending.{pending, reads, IsSending, Queueing}
use rioring.Session.Send.{send_lem}
use rioring.Session.Received.{IsReceiving}
use rioring.Echo.{echo}

-- The sending half does not know what is received.
pub same-IsSending :
    {s s' : Session}
    → s'.sock ≡ record s.sock {
      recv_buffer = s'.sock.recv_buffer;
      recv_bind_buffer = s'.sock.recv_bind_buffer;
    }
    → s'.service.io_array ≡ s.service.io_array
    → pending s' ≡ pending s
    → IsSending s
    → IsSending s'
same-IsSending {s} {s'} o r p v = record {
  is_tcp = ap (λ (x : SocketObject). x.socket_type) o ∙ v.is_tcp;
  unlocked = ap (λ (x : SocketObject). x.lock) o ∙ v.unlocked;
  rings = subst (λ rs. HasRings (record s'.service { io_array = rs })) (sym r) v.rings;
  ready = subst (λ (x : SocketObject). IsReady x.send_buffer) (sym o) v.ready;
  front = subst (λ (x : SocketObject). IsFront x.send_buffer) (sym o) v.front;
  flight = elim v.flight [
    | inl (nothing, none_out) ↦
        inl (ap (λ (x : SocketObject). contents x.send_buffer) o ∙ nothing, p ∙ none_out)
    | inr (ctx, out, covers) ↦ inr (
      ctx,
      p ∙ out,
      subst
          (λ (x : SocketObject).
            (ctx.iov_base ≡ heap (rioring.Memory.address_of x.send_buffer.main_buffer.raw_buffer))
            × (0 < ctx.iov_len)
            × (ctx.iov_len ≤ IoDoubleBuffer.size x.send_buffer))
          (sym o) covers,
    )
  ];
}

-- What the echo leaves: nothing in the receive buffer, and the bytes behind what waits to be sent.
pub record Echoed (bytes : List ℕ) (s s' : Session) : Type 0 where
  pub e_sending : IsSending s'
  pub e_receiving : IsReceiving s'
  pub e_sock :
      s'.sock
      ≡ record s.sock { recv_buffer = s'.sock.recv_buffer; send_buffer = s'.sock.send_buffer }
  pub e_reads : reads s' ≡ reads s
  pub e_drained : Valid.contents s'.sock.recv_buffer ≡ []
  pub e_waiting : contents s'.sock.send_buffer ≡ contents s.sock.send_buffer ++ bytes

Queueing-Echoed :
    {s s₁ : Session} (bytes : List ℕ) (b : IoBuffer.IoBuffer)
    → IsReceiving s
    → Queueing s bytes s₁
    → IsSending s₁
    → Valid.Popped [] s₁.sock.recv_buffer b
    → Echoed bytes s (with_sock s₁ (record s₁.sock { recv_buffer = b }))
Queueing-Echoed bytes b w q v (ok, left, same, size, step) = record {
  e_sending = same-IsSending refl refl refl v;
  e_receiving = record {
    valid = ok;
    able =
        omega
          (arith, step, ap (λ (x : SocketObject). x.recv_buffer.block_size) q.only_buffer, w.able);
    whole = ap (λ (x : SocketObject). length x.recv_bind_buffer) q.only_buffer ∙ w.whole;
  };
  e_sock = ap (λ (x : SocketObject). record x { recv_buffer = b }) q.only_buffer;
  e_reads = q.q_reads;
  e_drained = left;
  e_waiting = q.q_appended;
}

module _ (u : Uring) (f : IsUring u) (a : Allocator) (m : IsAllocator a) where
  pub echo_lem :
      (s : Session)
      → IsSending s
      → IsReceiving s
      → s.sock.connected_flag ≡ true
      → s.sock.shutdown_gracefully ≡ false
      → 0 < IoBuffer.size s.sock.recv_buffer
      → HasRooms s.sock.send_buffer (IoBuffer.size s.sock.recv_buffer)
      → Returns (echo u a tcp s) (Echoed (Valid.contents s.sock.recv_buffer) s)
  unfolding echo
  echo_lem s v w connected open' some_bytes room =
      let bytes = Valid.contents s.sock.recv_buffer in
      let len = Valid.length-contents s.sock.recv_buffer w.valid in
      let (r, e, (_, q, v')) =
        send_lem u f a m s bytes v connected open'
          (subst (HasRooms s.sock.send_buffer) (sym len) room) (omega (arith, len, some_bytes)) in
      let (b, e', p) =
        Valid.pop_all r.1.sock.recv_buffer
          (subst (λ (x : SocketObject). Valid.IsValid x.recv_buffer) (sym q.only_buffer) w.valid) in
      (
        with_sock r.1 (record r.1.sock { recv_buffer = b }),
        rw (
          read_bytes_within s.sock.recv_buffer.raw_buffer 0 (IoBuffer.size s.sock.recv_buffer)
              (omega (arith, w.valid.within, w.valid.whole)),
          ◌>>=◌,
          e,
          ◌>>=◌,
          e',
          ◌>>=◌,
        ),
        Queueing-Echoed bytes b w q v' p,
      )
