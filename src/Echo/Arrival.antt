-- ===== src/Echo/Arrival.antt =====
-- A completed read at the echo server: src/io_service.cpp, src/socket_object.cpp and
-- examples/echoserver/main.cpp together.
use rioring.Prelude.{
  ℕ, suc, ◌≤◌, ◌<◌, ◌≡◌, refl, sym, ap, ap₂, subst, ◌∙◌, true, false, List, [], ◌∷◌, ◌++◌, length,
  take, drop, length-append, length-drop, take-append_length, some, Outcome, done, ◌>>=◌, Returns,
  arith, if◌then◌else◌,
}
use rioring.Memory.{Allocator, IsAllocator}
use rioring.IoBuffer
use rioring.IoBuffer.Valid
use rioring.IoBuffer.Growth.{HasRoom}
use rioring.IoDoubleBuffer.Valid.{HasRooms, contents}
use rioring.IoContext.{IoContext, IoType, data_buffer_size}
use rioring.SocketObject.{SocketObject}
use rioring.IoService.{Uring, Submission, deallocate_context}
use rioring.Session.{Session, with_sock}
use rioring.Session.Requests.{
  IsUring, outstanding, outstanding-append, outstanding-split, outstanding-without, single, is_type,
}
use rioring.Session.Sending.{pending, reads, IsSending}
use rioring.Session.Received.{IsReceiving, Taken, io_received_lem}
use rioring.Completion.{pos, complete, dispatch, current_sockaddr}
use rioring.Completion.Stream.{given_back}
use rioring.Echo.{echo, on_read_message, echo_user}
use rioring.Echo.Serving.{echo_lem, same-IsSending}

-- A socket of the echo server between two completed requests: it has sent on all that it has read.
pub record IsEcho (s : Session) : Type 0 where
  pub sending : IsSending s
  pub receiving : IsReceiving s
  pub connected : s.sock.connected_flag ≡ true
  pub open' : s.sock.shutdown_gracefully ≡ false
  pub heard : s.sock.recv_event ≡ true
  pub drained : Valid.contents s.sock.recv_buffer ≡ []
  pub reading : (ctx : IoContext) × (reads s ≡ ctx ∷ []) × (ctx.iov_len ≡ data_buffer_size)

-- The session when the kernel has written bytes for a read.
abbrev pub filled : Session → List ℕ → Session
filled s chunk =
    with_sock s
      (record s.sock { recv_bind_buffer = chunk ++ drop (length chunk) s.sock.recv_bind_buffer })

-- The read that completes is the one that is outstanding.
completed_read :
    (s : Session) (before after : List Submission) (e : Submission)
    → IsEcho s
    → s.service.submitted ≡ before ++ e ∷ after
    → e.ctx.io_type ≡ IoType.read
    → e.ctx.handler ≡ some s.sock.obj_id
    → (e.ctx.iov_len ≡ data_buffer_size)
      × (outstanding IoType.read s.sock.obj_id (before ++ after) ≡ [])
      × (outstanding IoType.write s.sock.obj_id (before ++ after) ≡ pending s)
completed_read s before after e v es t h =
    let obj = s.sock.obj_id in
    let (ctx, p, len) = v.reading in
    let split : reads s
        ≡ outstanding IoType.read obj before ++ e.ctx ∷ outstanding IoType.read obj after =
      ap (outstanding IoType.read obj) es ∙ outstanding-split IoType.read obj before after e t h in
    let (b, c, r) = single (outstanding IoType.read obj before) (sym split ∙ p) in
    (
      ap (λ (k : IoContext). k.iov_len) c ∙ len,
      outstanding-append IoType.read obj before after ∙ ap₂ ◌++◌ b r,
      sym (
          ap (outstanding IoType.write obj) es
          ∙ outstanding-without IoType.write obj before after e
              (ap (λ k. is_type k IoType.write) t)),
    )

filled-IsReceiving :
    (s : Session) (chunk : List ℕ)
    → IsReceiving s
    → length chunk ≤ data_buffer_size
    → IsReceiving (filled s chunk)
filled-IsReceiving s chunk v h = record {
  valid = v.valid;
  able = v.able;
  whole = omega (
    arith,
    length-append chunk (drop (length chunk) s.sock.recv_bind_buffer),
    length-drop (length chunk) s.sock.recv_bind_buffer,
    v.whole,
    h,
  );
}

-- What the session is when the callback is called.
abbrev Heard : List ℕ → Session → Session → Type 0
Heard chunk s s₂ =
    IsSending s₂
    × IsReceiving s₂
    × (s₂.sock.connected_flag ≡ true)
    × (s₂.sock.shutdown_gracefully ≡ false)
    × (s₂.sock.recv_event ≡ true)
    × (Valid.contents s₂.sock.recv_buffer ≡ chunk)
    × (s₂.sock.send_buffer ≡ s.sock.send_buffer)
    × ((ctx : IoContext) × (reads s₂ ≡ ctx ∷ []) × (ctx.iov_len ≡ data_buffer_size))

module _ (s : Session) (before after : List Submission) (e : Submission) (chunk : List ℕ)
    (v : IsEcho s) (es : s.service.submitted ≡ before ++ e ∷ after)
    (t : e.ctx.io_type ≡ IoType.read) (h : e.ctx.handler ≡ some s.sock.obj_id) where
  abbrev pub at_hand : Session
  at_hand = given_back (filled s chunk) e.ring (before ++ after)

  Taken-Heard :
      (n : ℕ) (s₂ : Session)
      → length chunk ≡ n
      → Taken (take n at_hand.sock.recv_bind_buffer) at_hand s₂
      → Heard chunk s s₂
  Taken-Heard n s₂ len w =
      let (_, no_reads, writes) = completed_read s before after e v es t h in
      let same : take n at_hand.sock.recv_bind_buffer ≡ chunk =
        ap (λ k. take k (chunk ++ drop (length chunk) s.sock.recv_bind_buffer)) (sym len)
        ∙ take-append_length chunk (drop (length chunk) s.sock.recv_bind_buffer) in
      let o = w.t_sock in
      (
        same-IsSending
            (o
              ∙ ap (λ b. record s.sock { recv_buffer = s₂.sock.recv_buffer; recv_bind_buffer = b })
                  (sym (ap (λ (x : SocketObject). x.recv_bind_buffer) o)))
            w.t_rings (w.t_pending ∙ writes) v.sending,
        w.t_receiving,
        ap (λ (x : SocketObject). x.connected_flag) o ∙ v.connected,
        ap (λ (x : SocketObject). x.shutdown_gracefully) o ∙ v.open',
        ap (λ (x : SocketObject). x.recv_event) o ∙ v.heard,
        w.t_appended ∙ ap₂ ◌++◌ v.drained same,
        ap (λ (x : SocketObject). x.send_buffer) o,
        (w.t_request, w.t_reads ∙ ap (λ l. l ++ w.t_request ∷ []) no_reads, w.t_len),
      )

-- What a completed read leaves: a socket that has sent on what it has read.
pub record Arrived (chunk : List ℕ) (s s' : Session) : Type 0 where
  pub a_echo : IsEcho s'
  pub a_waiting : contents s'.sock.send_buffer ≡ contents s.sock.send_buffer ++ chunk

module _ (u : Uring) (f : IsUring u) (a : Allocator) (m : IsAllocator a) where
  -- The callback, in the state that `io_received` calls it in.
  heard_lem :
      (s s₂ : Session) (chunk : List ℕ)
      → Heard chunk s s₂
      → 0 < length chunk
      → HasRooms s.sock.send_buffer (length chunk)
      → Returns (echo u a s₂.sock.socket_type s₂) (Arrived chunk s)
  heard_lem s s₂ chunk (v, w, connected, open', heard, c, b, (ctx, one, len)) some_bytes room =
      let size : IoBuffer.size s₂.sock.recv_buffer ≡ length chunk =
        sym (Valid.length-contents s₂.sock.recv_buffer w.valid) ∙ ap length c in
      let (s₃, e, x) = echo_lem u f a m s₂ v w connected open' (omega (arith, size, some_bytes)) (
        subst (HasRooms s₂.sock.send_buffer) (sym size)
          (subst (λ d. HasRooms d (length chunk)) (sym b) room)) in
      let o = x.e_sock in
      (
        s₃,
        ap (λ k. echo u a k s₂) v.is_tcp ∙ e,
        record {
          a_echo = record {
            sending = x.e_sending;
            receiving = x.e_receiving;
            connected = ap (λ (k : SocketObject). k.connected_flag) o ∙ connected;
            open' = ap (λ (k : SocketObject). k.shutdown_gracefully) o ∙ open';
            heard = ap (λ (k : SocketObject). k.recv_event) o ∙ heard;
            drained = x.e_drained;
            reading = (ctx, x.e_reads ∙ one, len);
          };
          a_waiting = x.e_waiting ∙ ap₂ (λ d y. contents d ++ y) b c;
        },
      )

  -- The context that has completed goes back to the pool.
  settled :
      (chunk : List ℕ) (ctx : IoContext) (s s' : Session)
      → Arrived chunk s s'
      → Arrived chunk s (record s' { service = deallocate_context s'.service ctx })
  unfolding deallocate_context
  settled chunk ctx s s' x = record {
    a_echo = record {
      sending = same-IsSending refl refl refl x.a_echo.sending;
      receiving = record {
        valid = x.a_echo.receiving.valid;
        able = x.a_echo.receiving.able;
        whole = x.a_echo.receiving.whole;
      };
      connected = x.a_echo.connected;
      open' = x.a_echo.open';
      heard = x.a_echo.heard;
      drained = x.a_echo.drained;
      reading = x.a_echo.reading;
    };
    a_waiting = x.a_waiting;
  }

  -- A read of the echo server's socket completes with some bytes: the service returns from it with
  -- those bytes queued behind all that waits to be sent, nothing left in the receive buffer, and the
  -- next read requested. The bytes have to fit the read and the address space.
  pub arrived_lem :
      (s : Session) (before after : List Submission) (e : Submission) (chunk : List ℕ) (n : ℕ)
      → IsEcho s
      → s.service.submitted ≡ before ++ e ∷ after
      → e.ctx.io_type ≡ IoType.read
      → e.ctx.handler ≡ some s.sock.obj_id
      → length chunk ≡ suc n
      → suc n ≤ e.ctx.iov_len
      → HasRoom s.sock.recv_buffer (suc n)
      → HasRooms s.sock.send_buffer (suc n)
      → Returns
          (complete u a
            (echo_user u a)
            e.ctx
            (pos (suc n))
            (given_back (filled s chunk) e.ring (before ++ after)))
          (Arrived chunk s)
  unfolding complete dispatch echo_user on_read_message
  arrived_lem s before after e chunk n v es t h len le room rooms =
      let (fits, _, _) = completed_read s before after e v es t h in
      let s₁ = given_back (filled s chunk) e.ring (before ++ after) in
      let addr = current_sockaddr e.ctx s₁ in
      let settle : Session → Outcome Session =
        λ x. done (record x { service = deallocate_context x.service e.ctx }) in
      let w₁ = filled-IsReceiving s chunk v.receiving (omega (arith, len, le, fits)) in
      let (s₂, w, r) =
        io_received_lem u f a m (echo_user u a) (suc n) addr s₁ v.sending.is_tcp v.sending.rings
          (record { valid = w₁.valid; able = w₁.able; whole = w₁.whole }) (omega (arith, le, fits))
          room in
      let (s₃, e₃, x) =
        heard_lem s s₂ chunk (Taken-Heard s before after e chunk v es t h (suc n) s₂ len w)
          (omega (arith, len)) (subst (HasRooms s.sock.send_buffer) (sym len) rooms) in
      (
        record s₃ { service = deallocate_context s₃.service e.ctx },
        ap (λ k. dispatch u a (echo_user u a) k e.ctx (pos (suc n)) s₁ >>= settle) t
            ∙ ap (λ k. k >>= settle)
                (r
                  ∙ (ap (λ b. if b then echo u a s₂.sock.socket_type s₂ else done s₂) v.heard
                      ∙ e₃)),
        settled chunk e.ctx s s₃ x,
      )
