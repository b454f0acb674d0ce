-- ===== src/UdpSocket/Stopped.antt =====
-- udp_server::stop (src/udp_server.cpp): what lets its loop end.
use rioring.Prelude.{◌≡◌, inl, inr, refl, true, false, Bool-cases, [], ◌∷◌, ◌++◌, ◌==◌, Returns}
use rioring.Memory.{Allocator}
use rioring.IoContext.{IoContext, IoType}
use rioring.IoService.{Uring, deallocate_context}
use rioring.Session.{Session, UserCode}
use rioring.Completion.{ℤ, close_descriptor, dispatch, complete}
use rioring.UdpSocket.{stop_waits}

-- The descriptor of a socket that has one is closed, once.
close_descriptor_lem :
    (s : Session)
    → stop_waits s ≡ true
    → (stop_waits (close_descriptor s) ≡ false)
      × ((close_descriptor s).closed ≡ s.closed ++ s.sock.socket_handler ∷ [])
unfolding stop_waits close_descriptor
close_descriptor_lem s h = elim (Bool-cases (s.sock.socket_handler == 0)) [
  | inl e ↦ cc
  | inr e ↦ rw e (refl, refl)
]

module _ (u : Uring) (a : Allocator) (user : UserCode) where
  -- While `stop` waits, the completion of a request for the shutdown, whatever its result, closes the
  -- descriptor, and `stop` waits no more.
  pub stopped_lem :
      (ctx : IoContext) (res : ℤ) (s : Session)
      → ctx.io_type ≡ IoType.shutdown
      → stop_waits s ≡ true
      → Returns
          (complete u a user ctx res s)
          (λ s'. (stop_waits s' ≡ false) × (s'.closed ≡ s.closed ++ s.sock.socket_handler ∷ []))
  unfolding complete dispatch deallocate_context stop_waits
  stopped_lem ctx res s t h =
      let s₁ = close_descriptor s in
      let (e, c) = close_descriptor_lem s h in
      (record s₁ { service = deallocate_context s₁.service ctx }, rw t refl, (e, c))
