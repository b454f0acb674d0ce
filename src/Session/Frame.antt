-- ===== src/Session/Frame.antt =====
-- What the methods of a socket leave alone (src/socket_object.cpp, src/tcp_socket.cpp,
-- src/udp_socket.cpp): a relation that holds wherever a socket keeps its number, its descriptor and
-- the requests, or hands in a request of its own, holds over every method.
use rioring.Prelude.{
  ℕ, ◌≡◌, inl, inr, refl, ap, ◌∙◌, Bool, true, false, not, List, [], ◌∷◌, ◌++◌, Option,
  Option-cases, Bool-cases, none, some, length, take, leb, ◌==◌, if◌then◌else◌, Outcome, done,
  ◌>>=◌, IfDone, IfDone-done, IfDone->>=, ◌⊎◌,
}
use rioring.Memory.{Allocator}
use rioring.IoBuffer
use rioring.IoDoubleBuffer
use rioring.IoDoubleBuffer.{IoDoubleBuffer}
use rioring.IoContext.{IoContext, Sockaddr}
use rioring.SocketObject.{SocketType, tcp, udp, CloseType, graceful, force}
use rioring.ObjectBase.{ErrorCall}
use rioring.IoService.{
  IoService, Submitted, Handler, Uring, submit, submit_on, choose_ring, socket, allocate_context,
}
use rioring.Session.Requests.{entry}
use rioring.Session.{
  Session, UserCode, with_sock, with_lock, submit_context, submit_receiving, submit_receiving_as,
  submit_sending, submit_sending_as, submit_sending_udp, submit_shutdown, on_send_complete,
  close_gracefully, close, address_length, push_send, queue_and_send, send, send_to, receive_bytes,
  io_received, after_sent, take_sent, io_sent, on_shutdown, io_shutdown,
}

-- Laws of a relation between a session and a later one of the same socket.
pub record IsFrame (R : Session → Session → Type 0) : Type 0 where
  pub joins : (s s' s'' : Session) → R s s' → R s' s'' → R s s''
  pub keeps :
      (s s' : Session)
      → s'.sock.base.obj_id ≡ s.sock.base.obj_id
      → s'.sock.socket_handler ≡ s.sock.socket_handler
      → s'.closed ≡ s.closed
      → s'.service.submitted ≡ s.service.submitted
      → R s s'
  pub hands :
      (s : Session) (service : IoService) (errors : List ErrorCall) (ring : ℕ) (ctx : IoContext)
      → ctx.handler ≡ some s.sock.base.obj_id
      → service.submitted ≡ s.service.submitted ++ entry ring (socket s.sock) ctx ∷ []
      → R s (record s { service = service; errors = errors })

-- A run from a session that returns keeps to the relation.
abbrev pub Keeps : (Session → Session → Type 0) → Session → Outcome Session → Type 0
Keeps R s m = IfDone m (R s)

abbrev pub KeepsToo : (Session → Session → Type 0) → Session → Outcome (Bool × Session) → Type 0
KeepsToo R s m = IfDone m (λ r. R s r.1)

-- Callbacks of the user that keep to the relation.
pub record IsHarmless (R : Session → Session → Type 0) (user : UserCode) : Type 0 where
  pub at_receive : (addr : Sockaddr) (s : Session) → Keeps R s (user.receive_event addr s)
  pub at_sent : (s : Session) → Keeps R s (user.send_complete_event s)
  pub at_close : (s : Session) → Keeps R s (user.close_event s)

-- `submit` hands in the context, or changes nothing.
abbrev Handed : Handler → IoContext → IoService → Submitted → Type 0
Handed h ctx service r =
    (r.service ≡ service)
    ⊎ ((ring : ℕ) × (r.service.submitted ≡ service.submitted ++ entry ring h ctx ∷ []))

submit_on-Handed :
    (u : Uring) (ring : ℕ) (h : Handler) (ctx : IoContext) (service : IoService)
    → Handed h ctx service (submit_on u ring h ctx service)
unfolding submit_on
submit_on-Handed u ring h ctx service = elim (Bool-cases (u.get_sqe ring service.submitted)) [
  | inl free ↦ rw free (inr (ring, refl))
  | inr full ↦ rw full (inl refl)
]

submit-Handed :
    (u : Uring) (h : Handler) (ctx : IoContext) (service : IoService)
    → IfDone (submit u h ctx service) (Handed h ctx service)
unfolding submit
submit-Handed u h ctx service = elim (Option-cases (choose_ring u service)) [
  | inl none_left ↦ rw (none_left, submit) (λ r e. cc)
  | inr (ring, e) ↦
      rw (e, submit) (IfDone-done (Handed h ctx service) _ (submit_on-Handed u ring h ctx service))
]

abbrev popped : Session → IoDoubleBuffer → Session
popped s b = with_sock s (record s.sock { send_buffer = IoDoubleBuffer.elevate b })

module _ (R : Session → Session → Type 0) (fr : IsFrame R) where
  Keeps-if :
      (s : Session) (b : Bool) {m n : Outcome Session}
      → Keeps R s m
      → Keeps R s n
      → Keeps R s (if b then m else n)
  Keeps-if s true p q = p
  Keeps-if s false p q = q

  KeepsToo-if :
      (s : Session) (b : Bool) {m n : Outcome (Bool × Session)}
      → KeepsToo R s m
      → KeepsToo R s n
      → KeepsToo R s (if b then m else n)
  KeepsToo-if s true p q = p
  KeepsToo-if s false p q = q

  same : (s : Session) → R s s
  same s = fr.keeps s s refl refl refl refl

  -- A run in two parts, of which the first gives something else.
  Keeps-after {ℓ} :
      {A : Type ℓ} (s : Session) (m : Outcome A) (f : A → Outcome Session)
      → ((a : A) → Keeps R s (f a))
      → Keeps R s (m >>= f)
  Keeps-after s m f k = IfDone->>= (λ _. R s s) (R s) m f (λ _ _. same s) (λ a _. k a)

  Keeps-from : (s s' : Session) → R s s' → (m : Outcome Session) → Keeps R s' m → Keeps R s m
  Keeps-from s s' p m k a e = fr.joins s s' a p (k a e)

  Keeps->>= :
      (s : Session) (m : Outcome Session) (f : Session → Outcome Session)
      → Keeps R s m
      → ((s' : Session) → Keeps R s' (f s'))
      → Keeps R s (m >>= f)
  Keeps->>= s m f p k = IfDone->>= (R s) (R s) m f p (λ s' q. Keeps-from s s' q (f s') (k s'))

  pub Keeps-done :
      (s s' : Session)
      → s'.sock.base.obj_id ≡ s.sock.base.obj_id
      → s'.sock.socket_handler ≡ s.sock.socket_handler
      → s'.closed ≡ s.closed
      → s'.service.submitted ≡ s.service.submitted
      → Keeps R s (done s')
  Keeps-done s s' o h c r = IfDone-done (R s) s' (fr.keeps s s' o h c r)

  Keeps-lock :
      (s : Session) (body : Session → Outcome Session)
      → ((s' : Session) → Keeps R s' (body s'))
      → Keeps R s (with_lock body s)
  Keeps-lock s body k =
      let x = with_sock s (record s.sock { lock = true }) in
      Keeps-if s s.sock.lock (λ s' e. cc)
        (Keeps-from s x (fr.keeps s x refl refl refl refl) _ (
          Keeps->>= x (body x) (λ s'. done (with_sock s' (record s'.sock { lock = false }))) (k x)
            (λ s'. Keeps-done s' _ refl refl refl refl)))

  module _ (u : Uring) where
    submit_context-Keeps :
        (ctx : IoContext) (service : IoService) (s : Session)
        → ctx.handler ≡ some s.sock.base.obj_id
        → service.submitted ≡ s.service.submitted
        → Keeps R s (submit_context u ctx service s)
    unfolding submit_context
    submit_context-Keeps ctx service s own e =
        let given =
          λ (r : Submitted). record s { service = r.service; errors = s.errors ++ r.errors } in
        IfDone->>= (Handed (socket s.sock) ctx service) (R s) (submit u (socket s.sock) ctx service)
          (λ r. done (given r)) (submit-Handed u (socket s.sock) ctx service)
          (λ r q. IfDone-done (R s) (given r) (elim q [
            | inl as_it_was ↦
                fr.keeps s (given r) refl refl refl
                  (ap (λ (v : IoService). v.submitted) as_it_was ∙ e)
            | inr (ring, added) ↦
                fr.hands s r.service (s.errors ++ r.errors) ring ctx own
                  (added ∙ ap (λ es. es ++ entry ring (socket s.sock) ctx ∷ []) e)
          ]))

    submit_receiving-Keeps : (t : SocketType) (s : Session) → Keeps R s (submit_receiving_as u t s)
    unfolding submit_receiving_as allocate_context
    submit_receiving-Keeps tcp s = submit_context-Keeps _ _ s refl refl
    submit_receiving-Keeps udp s = submit_context-Keeps _ _ s refl refl

    submit_sending-Keeps :
        (t : SocketType) (addr : Option Sockaddr) (s : Session)
        → Keeps R s (submit_sending_as u t addr s)
    unfolding submit_sending_as submit_sending_udp allocate_context
    submit_sending-Keeps tcp addr s = submit_context-Keeps _ _ s refl refl
    submit_sending-Keeps udp none s = λ s' e. cc
    submit_sending-Keeps udp (some addr) s =
        Keeps-if s (address_length addr.family == 0) (Keeps-done s _ refl refl refl refl)
          (submit_context-Keeps _ _ s refl refl)

    submit_shutdown-Keeps : (s : Session) → Keeps R s (submit_shutdown u s)
    unfolding submit_shutdown allocate_context
    submit_shutdown-Keeps s = submit_context-Keeps _ _ s refl refl

    on_send_complete-Keeps : (s : Session) → Keeps R s (on_send_complete u s)
    unfolding on_send_complete
    on_send_complete-Keeps s =
        Keeps-if s s.sock.shutdown_gracefully (submit_shutdown-Keeps s)
          (Keeps-done s s refl refl refl refl)

    pub close-Keeps : (t : CloseType) (s : Session) → Keeps R s (close u t s)
    unfolding close close_gracefully
    close-Keeps graceful s = Keeps-lock s (close_gracefully u) (λ s'.
        Keeps-if s' (IoDoubleBuffer.empty s'.sock.send_buffer) (submit_shutdown-Keeps s')
          (Keeps-done s' _ refl refl refl refl))
    close-Keeps force s = submit_shutdown-Keeps s

    module _ (a : Allocator) where
      push_send-Keeps : (bytes : List ℕ) (s : Session) → Keeps R s (push_send u a bytes s)
      unfolding push_send
      push_send-Keeps bytes s =
          Keeps-after s (IoDoubleBuffer.push a s.sock.send_buffer bytes) _
            (λ b. Keeps-done s _ refl refl refl refl)

      queue_and_send-Keeps :
          (bytes : List ℕ) (addr : Option Sockaddr) (s : Session)
          → Keeps R s (queue_and_send u a bytes addr s)
      unfolding queue_and_send submit_sending
      queue_and_send-Keeps bytes addr s =
          Keeps-if s (IoDoubleBuffer.empty s.sock.send_buffer)
            (Keeps->>= s (push_send u a bytes s) (submit_sending u addr) (push_send-Keeps bytes s)
              (λ s'. submit_sending-Keeps s'.sock.socket_type addr s'))
            (push_send-Keeps bytes s)

      -- `send` and `send_to` once they queue.
      queued :
          (bytes : List ℕ) (addr : Option Sockaddr) (s : Session)
          → KeepsToo R s (with_lock (queue_and_send u a bytes addr) s >>= λ s'. done (true, s'))
      queued bytes addr s =
          IfDone->>= (R s) (λ r. R s r.1) (with_lock (queue_and_send u a bytes addr) s)
            (λ s'. done (true, s'))
            (Keeps-lock s (queue_and_send u a bytes addr) (queue_and_send-Keeps bytes addr))
            (λ s' q. IfDone-done (λ r. R s r.1) (true, s') q)

      pub send-Keeps : (bytes : List ℕ) (s : Session) → KeepsToo R s (send u a bytes s)
      unfolding send
      send-Keeps bytes s =
          let refused = IfDone-done (λ (r : Bool × Session). R s r.1) (false, s) (same s) in
          KeepsToo-if s s.sock.shutdown_gracefully refused
            (KeepsToo-if s (not s.sock.connected_flag) refused (queued bytes none s))

      pub send_to-Keeps :
          (bytes : List ℕ) (addr : Option Sockaddr) (s : Session)
          → KeepsToo R s (send_to u a bytes addr s)
      unfolding send_to
      send_to-Keeps bytes addr s = queued bytes addr s

      module _ (user : UserCode) (h : IsHarmless R user) where
        pub io_received-Keeps :
            (n : ℕ) (addr : Sockaddr) (s : Session) → Keeps R s (io_received u a user n addr s)
        unfolding io_received receive_bytes submit_receiving
        io_received-Keeps n addr s =
            Keeps->>= s (receive_bytes u a n s) _
              (Keeps-if s (leb n (length s.sock.recv_bind_buffer))
                (Keeps-after s (IoBuffer.push a s.sock.recv_buffer (take n s.sock.recv_bind_buffer))
                  _ (λ b. Keeps-done s _ refl refl refl refl))
                (λ s' e. cc))
              (λ s₁.
                Keeps->>= s₁ (submit_receiving u s₁) _
                  (submit_receiving-Keeps s₁.sock.socket_type s₁)
                  (λ s₂.
                    Keeps-if s₂ s₂.sock.recv_event (h.at_receive addr s₂)
                      (Keeps-done s₂ s₂ refl refl refl refl)))

        after_sent-Keeps : (addr : Sockaddr) (s : Session) → Keeps R s (after_sent u a user addr s)
        unfolding after_sent submit_sending
        after_sent-Keeps addr s =
            Keeps-if s (not (IoDoubleBuffer.empty s.sock.send_buffer))
              (submit_sending-Keeps s.sock.socket_type (some addr) s)
              (Keeps->>= s _ (on_send_complete u)
                (Keeps-if s s.sock.send_complete_event (h.at_sent s)
                  (Keeps-done s s refl refl refl refl))
                on_send_complete-Keeps)

        pub io_sent-Keeps :
            (n : ℕ) (addr : Sockaddr) (s : Session) → Keeps R s (io_sent u a user n addr s)
        unfolding io_sent take_sent
        io_sent-Keeps n addr s = Keeps-lock s (take_sent u a user n addr) (λ s'.
            Keeps-after s' (IoDoubleBuffer.pop s'.sock.send_buffer n) _ (λ b.
              Keeps-from s' (popped s' b) (fr.keeps s' _ refl refl refl refl) _
                (after_sent-Keeps addr (popped s' b))))

        pub io_shutdown-Keeps : (s : Session) → Keeps R s (io_shutdown u a user s)
        unfolding io_shutdown on_shutdown
        io_shutdown-Keeps s = Keeps-from s (on_shutdown s) (fr.keeps s _ refl refl refl refl) _ (
            Keeps-if (on_shutdown s) s.sock.socket_close_event (h.at_close (on_shutdown s))
              (Keeps-done (on_shutdown s) _ refl refl refl refl))
