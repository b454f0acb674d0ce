-- ===== src/Session/Send.antt =====
-- tcp_socket::send (src/tcp_socket.cpp) on a connected socket.
use rioring.Prelude.{
  ℕ, ◌<◌, ◌≡◌, ◌⊎◌, refl, sym, ap, subst, ◌∙◌, Bool, true, false, List, length, none, Outcome, done,
  ◌>>=◌, Returns, arith, not, if◌then◌else◌,
}
use rioring.Memory.{Allocator, IsAllocator}
use rioring.IoDoubleBuffer.Valid.{HasRooms}
use rioring.SocketObject.{SocketObject}
use rioring.IoService.{Uring}
use rioring.Session.{Session, with_sock, with_lock, queue_and_send, send}
use rioring.Session.Requests.{IsUring, HasRings}
use rioring.Session.Sending.{IsSending, Queueing, queue_lem}

abbrev pub locked : Session → Session
locked s = with_sock s (record s.sock { lock = true })

abbrev pub released : Session → Session
released s = with_sock s (record s.sock { lock = false })

-- Which calls `send` refuses.
pub send_refused :
    (u : Uring) (a : Allocator) (bytes : List ℕ) (s : Session)
    → (s.sock.shutdown_gracefully ≡ true) ⊎ (s.sock.connected_flag ≡ false)
    → send u a bytes s ≡ done (false, s)
unfolding send
send_refused u a bytes s h = ground arith

pub with_lock-done :
    (body : Session → Outcome Session) (s s' : Session)
    → s.sock.lock ≡ false
    → body (locked s) ≡ done s'
    → with_lock body s ≡ done (released s')
with_lock-done body s s' free e = simp (free, e)

-- The two guards of `send`.
pub past_guards {ℓ} :
    {A : Type ℓ} (b c : Bool) (x y z : A)
    → b ≡ false
    → c ≡ true
    → (if b then x else if not c then y else z) ≡ z
past_guards b c x y z e g = rw (e, g)

send_open :
    (u : Uring) (a : Allocator) (bytes : List ℕ) (s s' : Session)
    → s.sock.connected_flag ≡ true
    → s.sock.shutdown_gracefully ≡ false
    → with_lock (queue_and_send u a bytes none) s ≡ done s'
    → send u a bytes s ≡ done (true, s')
unfolding send
send_open u a bytes s s' connected open' e =
    past_guards s.sock.shutdown_gracefully s.sock.connected_flag _ _ _ open' connected
    ∙ ap (λ r. r >>= λ s''. done (true, s'')) e

module _ (u : Uring) (f : IsUring u) (a : Allocator) (m : IsAllocator a) where
  -- Queueing under the lock is queueing.
  queue_locked :
      (s : Session) (bytes : List ℕ) (s' : Session)
      → IsSending s
      → Queueing (locked s) bytes s'
      → Queueing s bytes (released s') × IsSending (released s')
  queue_locked s bytes s' v q =
      let same : (released s').sock ≡ record s.sock { send_buffer = s'.sock.send_buffer } =
        ap (λ (o : SocketObject). record o { lock = false }) q.only_buffer
        ∙ ap (λ l. record s.sock { lock = l; send_buffer = s'.sock.send_buffer })
            (sym v.unlocked) in
      (
        record {
          only_buffer = same;
          q_errors = q.q_errors;
          q_closed = q.q_closed;
          q_rings = q.q_rings;
          q_ready = q.q_ready;
          q_front = q.q_front;
          q_flight = q.q_flight;
          q_reads = q.q_reads;
          q_appended = q.q_appended;
        },
        record {
          is_tcp = ap (λ (o : SocketObject). o.socket_type) same ∙ v.is_tcp;
          unlocked = refl;
          rings =
              subst (λ rs. HasRings (record s'.service { io_array = rs })) (sym q.q_rings) v.rings;
          ready = q.q_ready;
          front = q.q_front;
          flight = q.q_flight;
        },
      )

  -- `send` on a connected socket that is not closing accepts the bytes: they go behind all that
  -- wait, and a write is outstanding afterwards that covers the front of what waits.
  pub send_lem :
      (s : Session) (bytes : List ℕ)
      → IsSending s
      → s.sock.connected_flag ≡ true
      → s.sock.shutdown_gracefully ≡ false
      → HasRooms s.sock.send_buffer (length bytes)
      → 0 < length bytes
      → Returns (send u a bytes s) (λ r. (r.0 ≡ true) × Queueing s bytes r.1 × IsSending r.1)
  send_lem s bytes v connected open' room some_bytes =
      let (s', e, q) =
        queue_lem u f a m (locked s) bytes room some_bytes v.ready v.front v.flight v.is_tcp
          v.rings in
      (
        (true, released s'),
        send_open u a bytes s (released s') connected open'
            (with_lock-done (queue_and_send u a bytes none) s s' v.unlocked e),
        (refl, (queue_locked s bytes s' v q).0, (queue_locked s bytes s' v q).1),
      )
