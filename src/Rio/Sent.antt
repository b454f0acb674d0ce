-- ===== src/Rio/Sent.antt =====
-- tcp_socket::send and socket_object::io_sent on Windows (src/tcp_socket.cpp, src/socket_object.cpp).
use rioring.Prelude.{
  ℕ, ◌≤◌, ◌<◌, ◌≡◌, inl, inr, refl, sym, ap, subst, ◌∙◌, true, false, Bool-cases, List, [], ◌++◌,
  length, drop, none, some, if◌then◌else◌, Outcome, done, ◌>>=◌, Returns,
}
use rioring.Memory.{Allocator, IsAllocator}
use rioring.IoDoubleBuffer
use rioring.IoDoubleBuffer.{IoDoubleBuffer}
use rioring.IoDoubleBuffer.Valid.{IsReady, IsFront, HasRooms, contents, empty→nil, busy→size}
use rioring.IoDoubleBuffer.Sent.{pop_lem, elevate_lem}
use rioring.IoContext.{Sockaddr}
use rioring.SocketObject.{SocketType, tcp, udp}
use rioring.Session.Send.{past_guards}
use rioring.Rio.{RioTable}
use rioring.Rio.Socket.{
  RioSession, RioUser, with_object, with_lock, destination, queue_and_send, send, send_to,
  on_send_complete, close_socket, after_sent, take_sent, io_sent,
}
use rioring.Rio.Sending.{buffer_of, pending, IsSending, Sends, submit_sending_lem, queue_lem}

abbrev locked : RioSession → RioSession
locked s = with_object s (record s.sock.object { lock = true })

abbrev released : RioSession → RioSession
released s = with_object s (record s.sock.object { lock = false })

-- A callback for completed sends that leaves the session alone.
pub record IsPassive (user : RioUser) : Type 0 where
  pub quiet : (s : RioSession) → user.send_complete_event s ≡ done s

released-IsSending : (bytes : List ℕ) (s' : RioSession) → Sends bytes s' → IsSending (released s')
released-IsSending bytes s' q = record {
  unlocked = refl;
  ready = q.s_ready;
  front = q.s_front;
  flight = q.s_flight;
}

with_lock-done :
    (body : RioSession → Outcome RioSession) (s s' : RioSession)
    → s.sock.object.lock ≡ false
    → body (locked s) ≡ done s'
    → with_lock body s ≡ done (released s')
with_lock-done body s s' free e = simp (free, e)

destination-some :
    (t : SocketType) (addr peer : Sockaddr) → destination t (some addr) peer ≡ done addr
destination-some tcp addr peer = refl
destination-some udp addr peer = refl

module _ (rio : RioTable) (a : Allocator) (m : IsAllocator a) where
  -- `send` on a connected TCP socket that is not closing: the bytes go behind all that wait, and a write
  -- is outstanding afterwards for a copy of the front of it.
  pub send_lem :
      (s : RioSession) (bytes : List ℕ)
      → IsSending s
      → s.sock.object.socket_type ≡ tcp
      → s.sock.object.connected_flag ≡ true
      → s.sock.object.shutdown_gracefully ≡ false
      → HasRooms (buffer_of s) (length bytes)
      → 0 < length bytes
      → Returns (send rio a bytes s) (λ r.
        (r.0 ≡ true) × IsSending r.1 × (contents (buffer_of r.1) ≡ contents (buffer_of s) ++ bytes))
  unfolding send
  send_lem s bytes v is_tcp connected open' room some_bytes =
      let (s', e, q) =
        queue_lem rio a m (locked s) bytes none s.sock.object.addr_storage
          (ap (λ t. destination t none s.sock.object.addr_storage) is_tcp) v.ready v.front v.flight
          room some_bytes in
      (
        (true, released s'),
        past_guards s.sock.object.shutdown_gracefully s.sock.object.connected_flag _ _ _ open'
              connected
            ∙ ap (λ r. r >>= λ s''. done (true, s''))
                (with_lock-done (queue_and_send rio a bytes none) s s' v.unlocked e),
        (refl, released-IsSending _ s' q, q.s_waiting),
      )

  -- `send_to`: the bytes go behind all that wait, and a datagram is outstanding afterwards for a copy
  -- of the front of it, whatever bytes other calls have left there.
  pub send_to_lem :
      (s : RioSession) (bytes : List ℕ) (addr : Sockaddr)
      → IsSending s
      → HasRooms (buffer_of s) (length bytes)
      → 0 < length bytes
      → Returns (send_to rio a bytes (some addr) s) (λ r.
        (r.0 ≡ true) × IsSending r.1 × (contents (buffer_of r.1) ≡ contents (buffer_of s) ++ bytes))
  unfolding send_to
  send_to_lem s bytes addr v room some_bytes =
      let (s', e, q) =
        queue_lem rio a m (locked s) bytes (some addr) addr
          (destination-some s.sock.object.socket_type addr s.sock.object.addr_storage) v.ready
          v.front v.flight room some_bytes in
      (
        (true, released s'),
        ap (λ r. r >>= λ s''. done (true, s''))
            (with_lock-done (queue_and_send rio a bytes (some addr)) s s' v.unlocked e),
        (refl, released-IsSending _ s' q, q.s_waiting),
      )

  module _ (user : RioUser) (passive : IsPassive user) where
    callback_lem :
        (s : RioSession)
        → (if s.sock.object.send_complete_event then user.send_complete_event s else done s)
          ≡ done s
    callback_lem s = elim (Bool-cases s.sock.object.send_complete_event) [
      | inl set ↦ ap (λ b. if b then user.send_complete_event s else done s) set ∙ passive.quiet s
      | inr unset ↦ ap (λ b. if b then user.send_complete_event s else done s) unset
    ]

    on_send_complete_lem :
        (s : RioSession)
        → IsReady (buffer_of s)
        → IsFront (buffer_of s)
        → contents (buffer_of s) ≡ []
        → pending s ≡ []
        → Returns (on_send_complete s) (Sends [])
    unfolding on_send_complete close_socket
    on_send_complete_lem s v fr nothing none_out =
        elim (Bool-cases s.sock.object.shutdown_gracefully) [
          | inl closing ↦ (
            close_socket s,
            rw (closing, on_send_complete),
            record {
              s_ready = v;
              s_front = fr;
              s_flight = inl (nothing, none_out);
              s_waiting = nothing;
            },
          )
          | inr open' ↦ (
            s,
            rw (open', on_send_complete),
            record {
              s_ready = v;
              s_front = fr;
              s_flight = inl (nothing, none_out);
              s_waiting = nothing;
            },
          )
        ]

    after_sent_lem :
        (addr : Sockaddr) (s : RioSession)
        → IsReady (buffer_of s)
        → IsFront (buffer_of s)
        → pending s ≡ []
        → Returns (after_sent rio a user addr s) (Sends (contents (buffer_of s)))
    unfolding after_sent
    after_sent_lem addr s v fr none_out = elim (Bool-cases (IoDoubleBuffer.empty (buffer_of s))) [
      | inl idle ↦
          let nothing = empty→nil (buffer_of s) idle in
          let (s', e, q) = on_send_complete_lem s v fr nothing none_out in
          (
            s',
            rw (idle, after_sent) (ap (λ r. r >>= λ x. on_send_complete x) (callback_lem s) ∙ e),
            subst (λ l. Sends l s') (sym nothing) q,
          )
      | inr busy ↦
          rw (busy, after_sent)
            (submit_sending_lem rio (some addr) s addr
              (destination-some s.sock.object.socket_type addr s.sock.object.addr_storage) v fr
              (busy→size (buffer_of s) fr busy) none_out)
    ]

    -- When the one outstanding write has completed with `n` bytes, `io_sent` returns: those bytes
    -- have left the buffer, and a write for a copy of the front of what still waits is outstanding.
    pub io_sent_lem :
        (n : ℕ) (addr : Sockaddr) (s : RioSession)
        → s.sock.object.lock ≡ false
        → IsReady (buffer_of s)
        → pending s ≡ []
        → n ≤ IoDoubleBuffer.size (buffer_of s)
        → Returns
            (io_sent rio a user n addr s)
            (λ s'. IsSending s' × (contents (buffer_of s') ≡ drop n (contents (buffer_of s))))
    unfolding io_sent take_sent
    io_sent_lem n addr s free v none_out h =
        let (d, e, (w, c)) = pop_lem (buffer_of s) n v h in
        let (w', c', fr) = elevate_lem d w in
        let s₁ =
          with_object (locked s)
            (record (locked s).sock.object { send_buffer = IoDoubleBuffer.elevate d }) in
        let (s', e', q) = after_sent_lem addr s₁ w' fr none_out in
        (
          released s',
          with_lock-done (take_sent rio a user n addr) s s' free (rw (e, ◌>>=◌) e'),
          (released-IsSending _ s' q, q.s_waiting ∙ (c' ∙ c)),
        )
