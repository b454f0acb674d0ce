-- ===== src/Completion/Ended.antt =====
-- What is left of a TCP socket whose connection has ended (socket_object::io_shutdown and
-- tcp_socket::on_shutdown, src/socket_object.cpp and src/tcp_socket.cpp).
use rioring.Prelude.{
  Option-cases, length, ℕ, zero, suc, ◌≡◌, inl, inr, refl, sym, ap, ap₂, subst, ◌∙◌, Bool, true,
  false, not, List, ◌++◌, some, if◌then◌else◌, done, ◌>>=◌, Returns, arith,
}
use rioring.Memory.{Allocator, bytes_of}
use rioring.IoBuffer
use rioring.IoBuffer.Valid
use rioring.IoDoubleBuffer
use rioring.IoDoubleBuffer.{IoDoubleBuffer}
use rioring.IoDoubleBuffer.Valid.{IsReady}
use rioring.IoContext.{IoContext, IoType, Sockaddr}
use rioring.SocketObject.{SocketObject, tcp}
use rioring.IoService.{Uring, deallocate_context}
use rioring.Session.{
  Session, UserCode, with_sock, on_shutdown, io_shutdown, io_sent, take_sent, after_sent,
  on_send_complete, submit_sending, send,
}
use rioring.Session.Requests.{IsUring, HasRings}
use rioring.Session.Sending.{pending}
use rioring.Session.Send.{locked, released, with_lock-done, send_refused}
use rioring.Session.Shutdowns.{
  IsPassive, shutdowns, request_if, callback_lem, on_send_complete_lem, same_requests,
}
use rioring.Completion.{ℤ, pos, negsuc, current_sockaddr, dispatch, complete}

-- Unconnected, with nothing left to send.
pub record IsEnded (s : Session) : Type 0 where
  pub unconnected : s.sock.connected_flag ≡ false
  pub unlocked : s.sock.lock ≡ false
  pub main_empty : s.sock.send_buffer.main_buffer.buffer_offset ≡ 0
  pub sub_empty : s.sock.send_buffer.sub_buffer.buffer_offset ≡ 0

-- A read that gives no byte.
abbrev pub is_end : ℤ → Bool
is_end (pos zero) = true
is_end (pos (suc n)) = false
is_end (negsuc n) = true

-- A callback for the end of a connection that leaves the socket and the service alone.
pub record IsSilent (user : UserCode) : Type 0 where
  pub silent : (s : Session) → user.close_event s ≡ done s

pub destroy-offset :
    (b : IoBuffer.IoBuffer) → Valid.IsValid b → (IoBuffer.destroy b).buffer_offset ≡ 0
unfolding IoBuffer.destroy
destroy-offset b v = elim (Option-cases b.raw_buffer) [
  | inl e ↦ rw (e, IoBuffer.destroy) (omega (arith, v.within, v.whole, ap length (ap bytes_of e)))
  | inr (block, e) ↦ rw (e, IoBuffer.destroy)
]

module _ (u : Uring) (a : Allocator) (user : UserCode) where
  told :
      (b : Bool) (s : Session) → IsSilent user → (if b then user.close_event s else done s) ≡ done s
  told true s q = q.silent s
  told false s q = refl

  io_shutdown_lem : (s : Session) → IsSilent user → io_shutdown u a user s ≡ done (on_shutdown s)
  unfolding io_shutdown
  io_shutdown_lem s q = told (on_shutdown s).sock.socket_close_event (on_shutdown s) q

  end_dispatch :
      (ctx : IoContext) (res : ℤ) (s : Session)
      → ctx.io_type ≡ IoType.read
      → is_end res ≡ true
      → dispatch u a user ctx.io_type ctx res s ≡ io_shutdown u a user s
  unfolding dispatch
  end_dispatch ctx (pos zero) s t h = rw t refl
  end_dispatch ctx (pos (suc n)) s t h = cc
  end_dispatch ctx (negsuc n) s t h = rw t refl

  write_dispatch :
      (ctx : IoContext) (n : ℕ) (s : Session)
      → ctx.io_type ≡ IoType.write
      → dispatch u a user ctx.io_type ctx (pos (suc n)) s
        ≡ io_sent u a user (suc n) (current_sockaddr ctx s) s
  unfolding dispatch
  write_dispatch ctx n s t = rw t refl

  -- The session when a read without a byte has completed.
  abbrev pub after_end : IoContext → Session → Session
  after_end ctx s = record (on_shutdown s) {
    service = deallocate_context (on_shutdown s).service ctx;
  }

  pub end_complete :
      (ctx : IoContext) (res : ℤ) (s : Session)
      → IsSilent user
      → ctx.io_type ≡ IoType.read
      → is_end res ≡ true
      → complete u a user ctx res s ≡ done (after_end ctx s)
  unfolding complete
  end_complete ctx res s q t h = rw (end_dispatch ctx res s t h, io_shutdown_lem s q, ◌>>=◌)

  -- When a read of a TCP socket gives no byte, the socket counts as unconnected and has nothing left
  -- to send, every later `send` is refused, and its descriptor stays open: nothing is closed and
  -- nothing is requested.
  pub ended_lem :
      (ctx : IoContext) (res : ℤ) (s : Session) (bytes : List ℕ)
      → IsSilent user
      → ctx.io_type ≡ IoType.read
      → is_end res ≡ true
      → s.sock.socket_type ≡ tcp
      → s.sock.lock ≡ false
      → IsReady s.sock.send_buffer
      → Returns (complete u a user ctx res s) (λ s'.
        IsEnded s'
        × (send u a bytes s' ≡ done (false, s'))
        × (s'.sock.socket_handler ≡ s.sock.socket_handler)
        × (s'.closed ≡ s.closed)
        × (s'.service.submitted ≡ s.service.submitted))
  unfolding complete on_shutdown IoDoubleBuffer.destroy_both deallocate_context
  ended_lem ctx res s bytes q t h is_tcp free v =
      let s₁ = on_shutdown s in
      let s' = after_end ctx s in
      let down : s₁.sock.connected_flag ≡ false = rw is_tcp refl in
      (
        s',
        end_complete ctx res s q t h,
        (
          record {
            unconnected = down;
            unlocked = free;
            main_empty = destroy-offset s.sock.send_buffer.main_buffer v.main_valid;
            sub_empty = destroy-offset s.sock.send_buffer.sub_buffer v.sub_valid;
          },
          send_refused u a bytes s' (inr down),
          refl,
          refl,
          refl,
        ),
      )

-- Nothing is taken from a buffer that holds nothing.
pop_none :
    (d : IoDoubleBuffer) (n : ℕ)
    → d.main_buffer.buffer_offset ≡ 0
    → IoDoubleBuffer.pop d (suc n) ≡ done d
unfolding IoDoubleBuffer.pop IoBuffer.pop
pop_none d n e = ground arith

elevate_none : (d : IoDoubleBuffer) → d.sub_buffer.buffer_offset ≡ 0 → IoDoubleBuffer.elevate d ≡ d
unfolding IoDoubleBuffer.elevate
elevate_none d e = ground arith

empty_both :
    (d : IoDoubleBuffer)
    → d.main_buffer.buffer_offset ≡ 0
    → d.sub_buffer.buffer_offset ≡ 0
    → IoDoubleBuffer.empty d ≡ true
empty_both d e e' = rw (e, e')

-- A completed write of a socket with nothing to send.
take_none :
    (u : Uring) (a : Allocator) (user : UserCode) (n : ℕ) (addr : Sockaddr) (s : Session)
    → s.sock.send_buffer.main_buffer.buffer_offset ≡ 0
    → s.sock.send_buffer.sub_buffer.buffer_offset ≡ 0
    → take_sent u a user (suc n) addr s ≡ (
        (if s.sock.send_complete_event then user.send_complete_event s else done s) >>= λ s'.
        on_send_complete u s')
unfolding take_sent after_sent
take_none u a user n addr s e e' =
    let d = s.sock.send_buffer in
    let with_buffer = λ (b : IoDoubleBuffer). with_sock s (record s.sock { send_buffer = b }) in
    ap (λ m. m >>= λ b. after_sent u a user addr (with_buffer (IoDoubleBuffer.elevate b)))
      (pop_none d n e)
    ∙ (ap (λ b. after_sent u a user addr (with_buffer b)) (elevate_none d e')
        ∙ ap
            (λ c.
              if not c
              then submit_sending u (some addr) s
              else ((if s.sock.send_complete_event then user.send_complete_event s else done s)
                  >>= λ s'. on_send_complete u s'))
            (empty_both d e e'))

module _ (u : Uring) (f : IsUring u) (a : Allocator) (user : UserCode)
    (passive : IsPassive user) where
  -- A write that completes after the end of its connection takes no byte from the buffers that were
  -- freed and requests no other write; a socket that is closing asks for its shutdown.
  pub late_write_lem :
      (ctx : IoContext) (n : ℕ) (s : Session)
      → IsEnded s
      → HasRings s.service
      → ctx.io_type ≡ IoType.write
      → Returns (complete u a user ctx (pos (suc n)) s) (λ s'.
        IsEnded s'
        × (pending s' ≡ pending s)
        × ((asked : IoContext) × (shutdowns s'
              ≡ shutdowns s ++ request_if s.sock.shutdown_gracefully asked)))
  unfolding complete io_sent deallocate_context
  late_write_lem ctx n s v rings t =
      let x = locked s in
      let (s₂, e₂, (o₂, v₂)) = callback_lem u f a user passive x in
      let (s₃, e₃, (o₃, r₃, p₃, q₃, (asked, added))) =
        on_send_complete_lem u f s₂ (subst HasRings (sym v₂) rings) in
      let s' = released s₃ in
      let o = o₃ ∙ o₂ in
      let body : take_sent u a user (suc n) (current_sockaddr ctx s) x ≡ done s₃ =
        take_none u a user n (current_sockaddr ctx s) x v.main_empty v.sub_empty
        ∙ (ap (λ r. r >>= λ s'. on_send_complete u s') e₂ ∙ e₃) in
      (
        record s' { service = deallocate_context s'.service ctx },
        rw (
          write_dispatch u a user ctx n s t,
          with_lock-done (take_sent u a user (suc n) (current_sockaddr ctx s)) s s₃ v.unlocked body,
          ◌>>=◌,
        ),
        (
          record {
            unconnected = ap (λ (k : SocketObject). k.connected_flag) o ∙ v.unconnected;
            unlocked = refl;
            main_empty =
                ap (λ (k : SocketObject). k.send_buffer.main_buffer.buffer_offset) o ∙ v.main_empty;
            sub_empty =
                ap (λ (k : SocketObject). k.send_buffer.sub_buffer.buffer_offset) o ∙ v.sub_empty;
          },
          p₃ ∙ same_requests IoType.write x s₂ o₂ v₂,
          (
            asked,
            added
                ∙ ap₂ (λ l b. l ++ request_if b asked) (same_requests IoType.shutdown x s₂ o₂ v₂)
                    (ap (λ (k : SocketObject). k.shutdown_gracefully) o₂),
          ),
        ),
      )
