-- ===== src/Chat/Leave.antt =====
-- How the program of a user ends (examples/chatclient/main.cpp): it closes its socket, and waits until
-- the socket is unconnected.
use rioring.Prelude.{
  ◌≡◌, refl, ap, ap₂, ◌∙◌, Bool, true, false, [], ◌∷◌, ◌++◌, ◌==◌, Outcome, done, ◌>>=◌, Returns,
}
use rioring.Memory.{Allocator}
use rioring.IoContext.{IoContext, IoType}
use rioring.SocketObject.{is_connected, graceful}
use rioring.IoService.{Uring, deallocate_context}
use rioring.Session.{Session, UserCode, close}
use rioring.Session.Requests.{IsUring}
use rioring.Session.Sending.{IsSending}
use rioring.Session.Close.{close_lem}
use rioring.Session.Frame.{close-Keeps}
use rioring.Completion.Descriptor.{SameDescriptor, SameDescriptor-IsFrame}
use rioring.Completion.{ℤ, close_descriptor, dispatch, complete}
use rioring.Completion.Ended.{IsSilent, is_end, ended_lem}

-- `main` behind its loop, up to the next one, and whether that one waits on.
pub leave : Uring → Session → Outcome Session
leave u s = close u graceful s

unfoldable pub leave_waits : Session → Bool
unfolding is_connected
leave_waits s = is_connected s.sock

-- The session once a shutdown has completed.
abbrev shut : IoContext → Session → Session
shut ctx s = record s {
  sock = record s.sock { socket_handler = 0 };
  closed = s.closed ++ s.sock.socket_handler ∷ [];
  service = deallocate_context s.service ctx;
}

module _ (u : Uring) (f : IsUring u) (a : Allocator) (user : UserCode) (quiet : IsSilent user) where
  shut_lem :
      (ctx : IoContext) (res : ℤ) (s : Session)
      → ctx.io_type ≡ IoType.shutdown
      → (s.sock.socket_handler == 0) ≡ false
      → complete u a user ctx res s ≡ done (shut ctx s)
  unfolding complete dispatch close_descriptor
  shut_lem ctx res s t open' = rw (t, open') refl

  -- A user leaves, with grace, a TCP connection whose sending half is in order and whose descriptor is
  -- open. Once a shutdown and then a read without a byte have completed, the wait of the program ends,
  -- and the descriptor has been closed, once.
  pub leave_lem :
      (down end : IoContext) (r res : ℤ) (s : Session)
      → IsSending s
      → (s.sock.socket_handler == 0) ≡ false
      → down.io_type ≡ IoType.shutdown
      → end.io_type ≡ IoType.read
      → is_end res ≡ true
      → Returns
          (leave u s >>= λ s₁. complete u a user down r s₁ >>= λ s₂. complete u a user end res s₂)
          (λ s'.
            (leave_waits s' ≡ false)
            × (s'.sock.socket_handler ≡ 0)
            × (s'.closed ≡ s.closed ++ s.sock.socket_handler ∷ []))
  unfolding leave leave_waits is_connected SameDescriptor
  leave_lem down end r res s v open' t t' e =
      let (s₁, e₁, c) = close_lem u f s v in
      let (same, none_closed) =
        close-Keeps SameDescriptor SameDescriptor-IsFrame u graceful s s₁ e₁ in
      let s₂ = shut down s₁ in
      let e₂ = shut_lem down r s₁ t (ap (◌== 0) same ∙ open') in
      let (s₃, e₃, (ended, _, fd, closed, _)) =
        ended_lem u a user end res s₂ [] quiet t' e c.sending.is_tcp c.sending.unlocked
          c.sending.ready in
      (
        s₃,
        rw (e₁, ◌>>=◌, e₂, ◌>>=◌) e₃,
        (ended.unconnected, fd, closed ∙ ap₂ (λ l fd'. l ++ fd' ∷ []) none_closed same),
      )
