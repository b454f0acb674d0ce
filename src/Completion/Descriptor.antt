-- ===== src/Completion/Descriptor.antt =====
-- Who closes the descriptor of a socket, and how often (src/io_service.cpp).
use rioring.Prelude.{
  ℕ, zero, suc, ◌≡◌, ◌⊎◌, inl, inr, refl, ◌∙◌, Bool, Bool-cases, List, [], ◌∷◌, ◌++◌, Option, ◌==◌,
  done, IfDone, IfDone-done, IfDone->>=,
}
use rioring.Memory.{Allocator}
use rioring.IoContext.{IoContext, IoType, Sockaddr}
use rioring.SocketObject.{CloseType}
use rioring.IoService.{IoService, Uring}
use rioring.Session.{Session, UserCode, send, send_to, close}
use rioring.Session.Frame.{
  IsFrame, Keeps, Keeps-done, IsHarmless, close-Keeps, send-Keeps, send_to-Keeps, io_received-Keeps,
  io_sent-Keeps, io_shutdown-Keeps,
}
use rioring.Completion.{
  ℤ, pos, negsuc, close_descriptor, socket_error, on_read, on_write, dispatch, complete,
}

-- The same descriptor, and nothing closed in between.
unfoldable pub SameDescriptor : Session → Session → Type 0
SameDescriptor s s' = (s'.sock.socket_handler ≡ s.sock.socket_handler) × (s'.closed ≡ s.closed)

pub SameDescriptor-IsFrame : IsFrame SameDescriptor
unfolding SameDescriptor
SameDescriptor-IsFrame = record {
  joins = λ s s' s'' (h, c) (h', c'). (h' ∙ h, c' ∙ c);
  keeps = λ s s' o h c r. (h, c);
  hands = λ s service errors ring ctx own e. (refl, refl);
}

module _ (u : Uring) (a : Allocator) (user : UserCode) where
  -- What happens to a socket from the time that it has its descriptor. Any context may complete with
  -- any result.
  pub data Step (s : Session) : Session → Type 0 where
    sends : (bytes : List ℕ) (b : Bool) (s' : Session) → send u a bytes s ≡ done (b, s') → Step s s'
    sends_to :
        (bytes : List ℕ) (addr : Option Sockaddr) (b : Bool) (s' : Session)
        → send_to u a bytes addr s ≡ done (b, s')
        → Step s s'
    closes : (t : CloseType) (s' : Session) → close u t s ≡ done s' → Step s s'
    completes :
        (ctx : IoContext) (res : ℤ) (s' : Session)
        → complete u a user ctx res s ≡ done s'
        → Step s s'
    -- Others use the service.
    others : (service : IoService) → Step s (record s { service = service })

  pub data Reach (s : Session) : Session → Type 0 where
    here : Reach s s
    next : {s₁ s₂ : Session} → Reach s s₁ → Step s₁ s₂ → Reach s s₂

-- The socket has its descriptor and none was closed, or it has none and that one was closed, once.
unfoldable pub IsClosedOnce : (fd : ℕ) (before : List ℕ) → Session → Type 0
IsClosedOnce fd before s =
    ((s.sock.socket_handler ≡ fd) × (s.closed ≡ before))
    ⊎ ((s.sock.socket_handler ≡ 0) × (s.closed ≡ before ++ fd ∷ []))

others_lem : (s : Session) (service : IoService) → SameDescriptor s (record s { service = service })
unfolding SameDescriptor
others_lem s service = (refl, refl)

module _ (fd : ℕ) (before : List ℕ) where
  kept :
      (s s' : Session) → IsClosedOnce fd before s → SameDescriptor s s' → IsClosedOnce fd before s'
  unfolding IsClosedOnce SameDescriptor
  kept s s' (inl (h, c)) (h', c') = inl (h' ∙ h, c' ∙ c)
  kept s s' (inr (h, c)) (h', c') = inr (h' ∙ h, c' ∙ c)

  close_descriptor-IsClosedOnce :
      (s : Session) → IsClosedOnce fd before s → IsClosedOnce fd before (close_descriptor s)
  unfolding IsClosedOnce close_descriptor
  close_descriptor-IsClosedOnce s (inl (h, c)) = elim (Bool-cases (s.sock.socket_handler == 0)) [
    | inl none_left ↦ rw none_left (inl (h, c))
    | inr left ↦ rw left (inr (refl, rw (c, h) refl))
  ]
  close_descriptor-IsClosedOnce s (inr (h, c)) = rw h (inr (refl, c))

  module _ (u : Uring) (a : Allocator) (user : UserCode)
      (harmless : IsHarmless SameDescriptor user) where
    from :
        (s : Session)
        → IsClosedOnce fd before s
        → {m : _} → Keeps SameDescriptor s m
        → IfDone m (IsClosedOnce fd before)
    from s v k s' e = kept s s' v (k s' e)

    on_read-Keeps :
        (ctx : IoContext) (res : ℤ) (s : Session)
        → Keeps SameDescriptor s (on_read u a user ctx res s)
    unfolding on_read
    on_read-Keeps ctx (pos zero) s =
        io_shutdown-Keeps SameDescriptor SameDescriptor-IsFrame u a user harmless s
    on_read-Keeps ctx (pos (suc n)) s =
        io_received-Keeps SameDescriptor SameDescriptor-IsFrame u a user harmless _ _ s
    on_read-Keeps ctx (negsuc n) s =
        io_shutdown-Keeps SameDescriptor SameDescriptor-IsFrame u a user harmless s

    on_write-Keeps :
        (ctx : IoContext) (res : ℤ) (s : Session)
        → Keeps SameDescriptor s (on_write u a user ctx res s)
    unfolding on_write socket_error
    on_write-Keeps ctx (pos zero) s =
        Keeps-done SameDescriptor SameDescriptor-IsFrame s _ refl refl refl refl
    on_write-Keeps ctx (pos (suc n)) s =
        io_sent-Keeps SameDescriptor SameDescriptor-IsFrame u a user harmless _ _ s
    on_write-Keeps ctx (negsuc n) s =
        Keeps-done SameDescriptor SameDescriptor-IsFrame s _ refl refl refl refl

    dispatch-IsClosedOnce :
        (t : IoType) (ctx : IoContext) (res : ℤ) (s : Session)
        → IsClosedOnce fd before s
        → IfDone (dispatch u a user t ctx res s) (IsClosedOnce fd before)
    unfolding dispatch
    dispatch-IsClosedOnce IoType.unknown ctx res s v = IfDone-done (IsClosedOnce fd before) s v
    dispatch-IsClosedOnce IoType.accept ctx res s v = IfDone-done (IsClosedOnce fd before) s v
    dispatch-IsClosedOnce IoType.read ctx res s v = from s v (on_read-Keeps ctx res s)
    dispatch-IsClosedOnce IoType.write ctx res s v = from s v (on_write-Keeps ctx res s)
    dispatch-IsClosedOnce IoType.shutdown ctx res s v =
        IfDone-done (IsClosedOnce fd before) (close_descriptor s)
          (close_descriptor-IsClosedOnce s v)

    complete-IsClosedOnce :
        (ctx : IoContext) (res : ℤ) (s : Session)
        → IsClosedOnce fd before s
        → IfDone (complete u a user ctx res s) (IsClosedOnce fd before)
    unfolding complete
    complete-IsClosedOnce ctx res s v =
        IfDone->>= (IsClosedOnce fd before) (IsClosedOnce fd before)
          (dispatch u a user ctx.io_type ctx res s) _
          (dispatch-IsClosedOnce ctx.io_type ctx res s v)
          (λ s' v'. IfDone-done (IsClosedOnce fd before) _ (kept s' _ v' (others_lem s' _)))

    Step-IsClosedOnce :
        {s s' : Session} → Step u a user s s' → IsClosedOnce fd before s → IsClosedOnce fd before s'
    Step-IsClosedOnce {s} (sends bytes b s' e) v =
        kept s s' v (send-Keeps SameDescriptor SameDescriptor-IsFrame u a bytes s (b, s') e)
    Step-IsClosedOnce {s} (sends_to bytes addr b s' e) v =
        kept s s' v (send_to-Keeps SameDescriptor SameDescriptor-IsFrame u a bytes addr s (b, s') e)
    Step-IsClosedOnce {s} (closes t s' e) v =
        kept s s' v (close-Keeps SameDescriptor SameDescriptor-IsFrame u t s s' e)
    Step-IsClosedOnce {s} (completes ctx res s' e) v = complete-IsClosedOnce ctx res s v s' e
    Step-IsClosedOnce {s} (others service) v =
        kept s (record s { service = service }) v (others_lem s service)

    -- However often a socket is closed, with grace or by force, and whatever is sent and completes in
    -- whichever order and with whichever result: its descriptor is closed at most once, exactly when
    -- the socket gives it up, and no other descriptor is closed.
    pub Reach-IsClosedOnce :
        {s s' : Session}
        → IsClosedOnce fd before s
        → Reach u a user s s'
        → IsClosedOnce fd before s'
    Reach-IsClosedOnce v here = v
    Reach-IsClosedOnce v (next r t) = Step-IsClosedOnce t (Reach-IsClosedOnce v r)
