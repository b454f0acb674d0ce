-- ===== src/Session/Sent.antt =====
-- socket_object::io_sent (src/socket_object.cpp) on a TCP socket whose write has completed.
use rioring.Prelude.{
  ℕ, ◌≤◌, ◌<◌, ◌≡◌, inl, inr, refl, sym, ap, ap₂, subst, ◌∙◌, true, false, List, [], ◌++◌, drop,
  some, length, done, ◌>>=◌, Returns, arith, Bool-cases, if◌then◌else◌, ◌&&◌, append-nil, is_nil,
}
use rioring.Memory.{Allocator}
use rioring.IoDoubleBuffer
use rioring.IoDoubleBuffer.{IoDoubleBuffer}
use rioring.IoDoubleBuffer.Valid.{IsReady, IsFront, contents, length-contents, empty→nil, busy→size}
use rioring.IoDoubleBuffer.Sent.{pop_lem, elevate_lem}
use rioring.IoContext.{IoContext, IoType, Sockaddr, new_context}
use rioring.SocketObject.{SocketObject, tcp}
use rioring.IoService.{IoService, Uring}
use rioring.Session.{
  Session, UserCode, with_sock, submit_sending, on_send_complete, after_sent, take_sent, io_sent,
}
use rioring.Session.Requests.{IsUring, HasRings}
use rioring.Session.Sending.{pending, reads, Flight, IsSending, submit_sending_lem, request-Flight}
use rioring.Session.Send.{locked, released, with_lock-done}
use rioring.Session.Shutdowns.{
  IsPassive, is_nil-false, request_if, and_false, and_true, shutdowns, same_requests,
  on_send_complete_lem, callback_lem,
}

-- What `io_sent` leaves: the socket but for its buffer; the sending half in order; and a request to
-- shut down for a socket that is closing and has nothing left to send.
pub record Progress (s : Session) (rest : List ℕ) (s' : Session) : Type 0 where
  pub p_sock : s'.sock ≡ record s.sock { send_buffer = s'.sock.send_buffer }
  pub p_rings : s'.service.io_array ≡ s.service.io_array
  pub p_ready : IsReady s'.sock.send_buffer
  pub p_front : IsFront s'.sock.send_buffer
  pub p_flight : Flight s'
  pub p_reads : reads s' ≡ reads s
  pub p_rest : contents s'.sock.send_buffer ≡ rest
  pub p_request : IoContext
  pub p_closing :
      shutdowns s' ≡ shutdowns s ++ request_if (s.sock.shutdown_gracefully && is_nil rest) p_request

module _ (u : Uring) (f : IsUring u) (a : Allocator) (user : UserCode)
    (passive : IsPassive user) where
  module _ (s : Session) (rings : HasRings s.service) (ready : IsReady s.sock.send_buffer)
      (front : IsFront s.sock.send_buffer) (none_out : pending s ≡ []) where
    more_to_send :
        (addr : Sockaddr)
        → s.sock.socket_type ≡ tcp
        → IoDoubleBuffer.empty s.sock.send_buffer ≡ false
        → Returns (submit_sending u (some addr) s) (Progress s (contents s.sock.send_buffer))
    more_to_send addr t busy =
        let (s', e, r) = submit_sending_lem u f (some addr) s t rings in
        let size = busy→size s.sock.send_buffer front busy in
        let filled : 0 < length (contents s.sock.send_buffer) =
          omega (arith, length-contents s.sock.send_buffer ready, size) in
        (
          s',
          e,
          record {
            p_sock =
                r.same_sock
                ∙ ap (λ (o : SocketObject). record s.sock { send_buffer = o.send_buffer })
                    (sym r.same_sock);
            p_rings = r.same_rings;
            p_ready = subst (λ (o : SocketObject). IsReady o.send_buffer) (sym r.same_sock) ready;
            p_front = subst (λ (o : SocketObject). IsFront o.send_buffer) (sym r.same_sock) front;
            p_flight = request-Flight u f r none_out size;
            p_reads = r.same_reads;
            p_rest = ap (λ (o : SocketObject). contents o.send_buffer) r.same_sock;
            p_request = new_context 0;
            p_closing =
                r.same_shutdowns
                ∙ (sym (append-nil (shutdowns s))
                    ∙ ap (λ b. shutdowns s ++ request_if b (new_context 0))
                        (sym (
                          ap (λ b. s.sock.shutdown_gracefully && b) (is_nil-false _ filled)
                          ∙ and_false s.sock.shutdown_gracefully)));
          },
        )

    all_sent :
        IoDoubleBuffer.empty s.sock.send_buffer ≡ true
        → Returns
            ((if s.sock.send_complete_event then user.send_complete_event s else done s) >>= λ s'.
              on_send_complete u s')
            (Progress s (contents s.sock.send_buffer))
    all_sent idle =
        let (s₂, e₂, (o₂, v₂)) = callback_lem u f a user passive s in
        let rings₂ = subst HasRings (sym v₂) rings in
        let (s₃, e₃, (o₃, r₃, p₃, q₃, (ctx, added))) = on_send_complete_lem u f s₂ rings₂ in
        let o = o₃ ∙ o₂ in
        let nothing = empty→nil s.sock.send_buffer idle in
        (
          s₃,
          ap (λ r. r >>= λ s'. on_send_complete u s') e₂ ∙ e₃,
          record {
            p_sock =
                o
                ∙ ap (λ (x : SocketObject). record s.sock { send_buffer = x.send_buffer }) (sym o);
            p_rings = r₃ ∙ ap (λ (v : IoService). v.io_array) v₂;
            p_ready = subst (λ (x : SocketObject). IsReady x.send_buffer) (sym o) ready;
            p_front = subst (λ (x : SocketObject). IsFront x.send_buffer) (sym o) front;
            p_flight = inl (
              ap (λ (x : SocketObject). contents x.send_buffer) o ∙ nothing,
              p₃ ∙ (same_requests IoType.write s s₂ o₂ v₂ ∙ none_out),
            );
            p_reads = q₃ ∙ same_requests IoType.read s s₂ o₂ v₂;
            p_rest = ap (λ (x : SocketObject). contents x.send_buffer) o;
            p_request = ctx;
            p_closing =
                added
                ∙ ap₂ (λ l b. l ++ request_if b ctx) (same_requests IoType.shutdown s s₂ o₂ v₂)
                    (ap (λ (x : SocketObject). x.shutdown_gracefully) o₂
                      ∙ (sym (and_true s.sock.shutdown_gracefully)
                          ∙ ap (λ l. s.sock.shutdown_gracefully && is_nil l) (sym nothing)));
          },
        )

    after_sent_lem :
        (addr : Sockaddr)
        → s.sock.socket_type ≡ tcp
        → Returns (after_sent u a user addr s) (Progress s (contents s.sock.send_buffer))
    unfolding after_sent
    after_sent_lem addr t = elim (Bool-cases (IoDoubleBuffer.empty s.sock.send_buffer)) [
      | inl idle ↦ rw (idle, after_sent) (all_sent idle)
      | inr busy ↦ rw (busy, after_sent) (more_to_send addr t busy)
    ]

  -- The body of `io_sent`: the bytes that the kernel took leave the buffer.
  take_sent_lem :
      (n : ℕ) (addr : Sockaddr) (s : Session)
      → HasRings s.service
      → IsReady s.sock.send_buffer
      → pending s ≡ []
      → s.sock.socket_type ≡ tcp
      → n ≤ IoDoubleBuffer.size s.sock.send_buffer
      → Returns (take_sent u a user n addr s) (Progress s (drop n (contents s.sock.send_buffer)))
  unfolding take_sent
  take_sent_lem n addr s rings ready none_out t h =
      let (d, e, (w, c)) = pop_lem s.sock.send_buffer n ready h in
      let (w', c', fr) = elevate_lem d w in
      let s₁ = with_sock s (record s.sock { send_buffer = IoDoubleBuffer.elevate d }) in
      let (s', e', p) = after_sent_lem s₁ rings w' fr none_out addr t in
      (
        s',
        rw (e, ◌>>=◌) e',
        record {
          p_sock = p.p_sock;
          p_rings = p.p_rings;
          p_ready = p.p_ready;
          p_front = p.p_front;
          p_flight = p.p_flight;
          p_reads = p.p_reads;
          p_rest = p.p_rest ∙ (c' ∙ c);
          p_request = p.p_request;
          p_closing =
              p.p_closing
              ∙ ap
                  (λ l.
                    shutdowns s ++ request_if (s.sock.shutdown_gracefully && is_nil l) p.p_request)
                  (c' ∙ c);
        },
      )

  Progress-released :
      (s : Session) (rest : List ℕ) (s' : Session)
      → s.sock.socket_type ≡ tcp
      → s.sock.lock ≡ false
      → HasRings s.service
      → Progress (locked s) rest s'
      → Progress s rest (released s') × IsSending (released s')
  Progress-released s rest s' t free rings p =
      let same : (released s').sock ≡ record s.sock { send_buffer = s'.sock.send_buffer } =
        ap (λ (o : SocketObject). record o { lock = false }) p.p_sock
        ∙ ap (λ l. record s.sock { lock = l; send_buffer = s'.sock.send_buffer }) (sym free) in
      (
        record {
          p_sock = same;
          p_rings = p.p_rings;
          p_ready = p.p_ready;
          p_front = p.p_front;
          p_flight = p.p_flight;
          p_reads = p.p_reads;
          p_rest = p.p_rest;
          p_request = p.p_request;
          p_closing = p.p_closing;
        },
        record {
          is_tcp = ap (λ (o : SocketObject). o.socket_type) same ∙ t;
          unlocked = refl;
          rings =
              subst (λ rs. HasRings (record s'.service { io_array = rs })) (sym p.p_rings) rings;
          ready = p.p_ready;
          front = p.p_front;
          flight = p.p_flight;
        },
      )

  -- When the one outstanding write has completed with `n` bytes, `io_sent` returns: those bytes have
  -- left the buffer; a new write covers the front of what still waits; and if nothing does and the
  -- socket is closing gracefully, a request to shut it down is outstanding.
  pub io_sent_lem :
      (n : ℕ) (addr : Sockaddr) (s : Session)
      → s.sock.socket_type ≡ tcp
      → s.sock.lock ≡ false
      → HasRings s.service
      → IsReady s.sock.send_buffer
      → pending s ≡ []
      → n ≤ IoDoubleBuffer.size s.sock.send_buffer
      → Returns
          (io_sent u a user n addr s)
          (λ s'. Progress s (drop n (contents s.sock.send_buffer)) s' × IsSending s')
  unfolding io_sent
  io_sent_lem n addr s t free rings ready none_out h =
      let (s', e, p) = take_sent_lem n addr (locked s) rings ready none_out t h in
      (
        released s',
        with_lock-done (take_sent u a user n addr) s s' free e,
        Progress-released s _ s' t free rings p,
      )
