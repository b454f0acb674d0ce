-- ===== src/Session/Close.antt =====
-- socket_object::close (src/socket_object.cpp), graceful, on a TCP socket.
use rioring.Prelude.{
  ◌≡◌, ◌⊎◌, inl, inr, refl, sym, ap, subst, ◌∙◌, true, false, [], ◌∷◌, ◌++◌, Bool-cases, done,
  Returns, arith,
}
use rioring.IoDoubleBuffer
use rioring.IoDoubleBuffer.Valid.{IsReady, IsFront, contents, empty→nil, empty→size}
use rioring.IoContext.{IoContext}
use rioring.SocketObject.{SocketObject, graceful}
use rioring.IoService.{Uring}
use rioring.Session.{Session, with_sock, close_gracefully, close}
use rioring.Session.Requests.{IsUring, HasRings}
use rioring.Session.Sending.{Flight, IsSending, pending, reads}
use rioring.Session.Send.{locked, released, with_lock-done}
use rioring.Session.Shutdowns.{shutdowns, submit_shutdown_lem}

-- What a graceful close comes to: the shutdown is requested if nothing waits, and remembered if
-- something does.
pub record Closing (s s' : Session) : Type 0 where
  pub sending : IsSending s'
  pub same_reads : reads s' ≡ reads s
  pub kept : contents s'.sock.send_buffer ≡ contents s.sock.send_buffer
  pub asked :
      ((IoDoubleBuffer.empty s.sock.send_buffer ≡ true)
        × (ctx : IoContext) × (shutdowns s' ≡ shutdowns s ++ ctx ∷ []))
      ⊎ ((IoDoubleBuffer.empty s.sock.send_buffer ≡ false)
          × (s'.sock.shutdown_gracefully ≡ true)
          × (shutdowns s' ≡ shutdowns s))

idle_pending :
    (s : Session) → Flight s → IoDoubleBuffer.empty s.sock.send_buffer ≡ true → pending s ≡ []
idle_pending s (inl (_, p)) idle = p
idle_pending s (inr (ctx, p, (_, some', covered))) idle =
    absurd (omega (arith, some', covered, empty→size s.sock.send_buffer idle))

module _ (u : Uring) (f : IsUring u) where
  close_idle :
      (s : Session)
      → IsSending s
      → IoDoubleBuffer.empty s.sock.send_buffer ≡ true
      → Returns (close u graceful s) (Closing s)
  unfolding close close_gracefully
  close_idle s v idle =
      let (s', e, (o, r, p, q, (ctx, added))) = submit_shutdown_lem u f (locked s) v.rings in
      let body : close_gracefully u (locked s) ≡ done s' = rw (idle, close_gracefully) e in
      let kept = ap (λ (x : SocketObject). contents x.send_buffer) o in
      (
        released s',
        with_lock-done (close_gracefully u) s s' v.unlocked body,
        record {
          sending = record {
            is_tcp = ap (λ (x : SocketObject). x.socket_type) o ∙ v.is_tcp;
            unlocked = refl;
            rings = subst (λ rs. HasRings (record s'.service { io_array = rs })) (sym r) v.rings;
            ready = subst (λ (x : SocketObject). IsReady x.send_buffer) (sym o) v.ready;
            front = subst (λ (x : SocketObject). IsFront x.send_buffer) (sym o) v.front;
            flight =
                inl (kept ∙ empty→nil s.sock.send_buffer idle, p ∙ idle_pending s v.flight idle);
          };
          same_reads = q;
          kept = kept;
          asked = inl (idle, ctx, added);
        },
      )

  close_busy :
      (s : Session)
      → IsSending s
      → IoDoubleBuffer.empty s.sock.send_buffer ≡ false
      → Returns (close u graceful s) (Closing s)
  unfolding close close_gracefully
  close_busy s v busy =
      let s' = with_sock (locked s) (record (locked s).sock { shutdown_gracefully = true }) in
      let body : close_gracefully u (locked s) ≡ done s' = rw (busy, close_gracefully) in
      (
        released s',
        with_lock-done (close_gracefully u) s s' v.unlocked body,
        record {
          sending = record {
            is_tcp = v.is_tcp;
            unlocked = refl;
            rings = v.rings;
            ready = v.ready;
            front = v.front;
            flight = v.flight;
          };
          same_reads = refl;
          kept = refl;
          asked = inr (busy, refl, refl);
        },
      )

  -- A graceful close loses no byte and leaves the sending half in order: if nothing waits, a request
  -- to shut the socket down is outstanding; if bytes wait, the socket will remember to make it.
  pub close_lem : (s : Session) → IsSending s → Returns (close u graceful s) (Closing s)
  close_lem s v = elim (Bool-cases (IoDoubleBuffer.empty s.sock.send_buffer)) [
    | inl idle ↦ close_idle s v idle
    | inr busy ↦ close_busy s v busy
  ]
