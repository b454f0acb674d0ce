-- ===== src/Session/Received.antt =====
-- socket_object::io_received (src/socket_object.cpp) on a TCP socket whose read has completed.
use rioring.Prelude.{
  ℕ, ◌≤◌, ◌<◌, ◌≡◌, inr, sym, ap, subst, ◌∙◌, List, [], ◌∷◌, ◌++◌, length, take, length-take,
  le→leb, Outcome, done, ◌>>=◌, >>=_assoc, Returns, arith, if◌then◌else◌,
}
use rioring.Memory.{Allocator, IsAllocator}
use rioring.IoBuffer.Valid
use rioring.IoBuffer.Growth.{HasRoom}
use rioring.IoBuffer.Push.{push-Pushed}
use rioring.IoContext.{IoContext, Sockaddr, recv_bind, data_buffer_size}
use rioring.SocketObject.{SocketObject, tcp}
use rioring.IoService.{Uring}
use rioring.Session.{Session, UserCode, with_sock, submit_receiving, receive_bytes, io_received}
use rioring.Session.Requests.{IsUring, HasRings}
use rioring.Session.Sending.{pending, reads}
use rioring.Session.Active.{submit_receiving_lem}

-- The receiving half: a buffer that can take more, and a full array for the kernel to write into.
pub record IsReceiving (s : Session) : Type 0 where
  pub valid : Valid.IsValid s.sock.recv_buffer
  pub able : 0 < s.sock.recv_buffer.block_size
  pub whole : length s.sock.recv_bind_buffer ≡ data_buffer_size

-- What has happened before the user is told: the bytes are behind those that waited, and the next
-- read is requested.
pub record Taken (bytes : List ℕ) (s s' : Session) : Type 0 where
  pub t_sock : s'.sock ≡ record s.sock { recv_buffer = s'.sock.recv_buffer }
  pub t_rings : s'.service.io_array ≡ s.service.io_array
  pub t_pending : pending s' ≡ pending s
  pub t_errors : s'.errors ≡ s.errors
  pub t_closed : s'.closed ≡ s.closed
  pub t_receiving : IsReceiving s'
  pub t_appended : Valid.contents s'.sock.recv_buffer ≡ Valid.contents s.sock.recv_buffer ++ bytes
  pub t_request : IoContext
  pub t_reads : reads s' ≡ reads s ++ t_request ∷ []
  pub t_base : t_request.iov_base ≡ recv_bind
  pub t_len : t_request.iov_len ≡ data_buffer_size

module _ (u : Uring) (f : IsUring u) (a : Allocator) (m : IsAllocator a) where
  take_lem :
      (n : ℕ) (s : Session)
      → s.sock.socket_type ≡ tcp
      → HasRings s.service
      → IsReceiving s
      → n ≤ data_buffer_size
      → HasRoom s.sock.recv_buffer n
      → Returns
          (receive_bytes u a n s >>= λ s₁. submit_receiving u s₁)
          (Taken (take n s.sock.recv_bind_buffer) s)
  unfolding receive_bytes
  take_lem n s t h v le room =
      let bytes = take n s.sock.recv_bind_buffer in
      let len : length bytes ≡ n = omega (arith, length-take n s.sock.recv_bind_buffer, v.whole) in
      let (b, e, w) =
        push-Pushed a m s.sock.recv_buffer bytes v.valid
          (subst (HasRoom s.sock.recv_buffer) (sym len) room) (inr v.able) in
      let s₁ = with_sock s (record s.sock { recv_buffer = b }) in
      let (s', e', l) = submit_receiving_lem u f s₁ t h in
      let o = l.l_sock in
      (
        s',
        rw (le→leb n (length s.sock.recv_bind_buffer) (omega (arith, v.whole)), e, ◌>>=◌) e',
        record {
          t_sock =
              o ∙ ap (λ (x : SocketObject). record s.sock { recv_buffer = x.recv_buffer }) (sym o);
          t_rings = l.l_rings;
          t_pending = l.l_pending;
          t_errors = l.l_errors;
          t_closed = l.l_closed;
          t_receiving = record {
            valid = subst (λ (x : SocketObject). Valid.IsValid x.recv_buffer) (sym o) w.valid;
            able =
                omega
                  (arith, ap (λ (x : SocketObject). x.recv_buffer.block_size) o, w.step, v.able);
            whole = ap (λ (x : SocketObject). length x.recv_bind_buffer) o ∙ v.whole;
          };
          t_appended = ap (λ (x : SocketObject). Valid.contents x.recv_buffer) o ∙ w.appended;
          t_request = l.l_request;
          t_reads = l.l_reads;
          t_base = l.l_base;
          t_len = l.l_len;
        },
      )

  -- `io_received` puts the bytes that the kernel wrote behind those that wait, requests the next
  -- read, and then calls the user with the socket in that state, if a callback is set. The sending
  -- half is as before.
  pub io_received_lem :
      (user : UserCode) (n : ℕ) (addr : Sockaddr) (s : Session)
      → s.sock.socket_type ≡ tcp
      → HasRings s.service
      → IsReceiving s
      → n ≤ data_buffer_size
      → HasRoom s.sock.recv_buffer n
      → (s' : Session) × Taken (take n s.sock.recv_bind_buffer) s s'
        × (io_received u a user n addr s
            ≡ (if s.sock.recv_event then user.receive_event addr s' else done s'))
  unfolding io_received
  io_received_lem user n addr s t h v le room =
      let (s', e, w) = take_lem n s t h v le room in
      let body : Session → Outcome Session =
        λ x. if x.sock.recv_event then user.receive_event addr x else done x in
      (
        s',
        w,
        sym (>>=_assoc (receive_bytes u a n s) (λ x. submit_receiving u x) body)
            ∙ (ap (λ r. r >>= body) e
                ∙ ap
                    (λ (o : SocketObject).
                      if o.recv_event then user.receive_event addr s' else done s')
                    w.t_sock),
      )
