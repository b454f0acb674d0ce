-- ===== src/Sockets/Methods.antt =====
-- tcp_socket::send and a graceful socket_object::close (src/tcp_socket.cpp, src/socket_object.cpp) as
-- methods that are called on one of several sockets.
use rioring.Prelude.{
  ℕ, ◌<◌, ◌≡◌, ◌⊎◌, inl, inr, refl, sym, ap, subst, ◌∙◌, Bool, Bool-cases, true, false, not, ◌&&◌,
  List, [], ◌∷◌, ◌++◌, append-nil, length, if◌then◌else◌, Outcome, done, ◌>>=◌, IfDone->>=,
  IfDone-done, arith,
}
use rioring.Memory.{Allocator, IsAllocator}
use rioring.IoDoubleBuffer
use rioring.IoDoubleBuffer.Valid.{HasRooms, contents}
use rioring.IoContext.{IoContext, IoType}
use rioring.SocketObject.{SocketObject, graceful}
use rioring.IoService.{Uring}
use rioring.Session.{Session, send, close}
use rioring.Session.Requests.{IsUring}
use rioring.Session.Send.{send_lem, send_refused}
use rioring.Session.Close.{close_lem}
use rioring.Session.Frame.{send-Keeps, close-Keeps}
use rioring.Sockets.Others.{number, requests, OthersAlone, OthersAlone-IsFrame, IsSameView}
use rioring.Sockets.Calls.{IsMethod}

-- Whether `send` takes bytes.
abbrev pub is_open : SocketObject → Bool
is_open o = o.connected_flag && not o.shutdown_gracefully

-- Only the bytes to send have changed: they have `bytes` behind them if the socket is open.
pub record Queued (bytes : List ℕ) (o o' : SocketObject) : Type 0 where
  pub only_buffer : o' ≡ record o { send_buffer = o'.send_buffer }
  pub queued : contents o'.send_buffer ≡ contents o.send_buffer ++ (if is_open o then bytes else [])

-- The bytes to send are the same. The shutdown of the socket is requested if there are none, and
-- otherwise remembered.
pub record Left (o o' : SocketObject) (before after : List IoContext) : Type 0 where
  pub kept : contents o'.send_buffer ≡ contents o.send_buffer
  pub asked :
      ((IoDoubleBuffer.empty o.send_buffer ≡ true)
        × (ctx : IoContext) × (after ≡ before ++ ctx ∷ []))
      ⊎ ((IoDoubleBuffer.empty o.send_buffer ≡ false)
          × (o'.shutdown_gracefully ≡ true)
          × (after ≡ before))

abbrev pub shutdowns_of : Session → List IoContext
shutdowns_of s = requests IoType.shutdown (number s) s

open_flags :
    (o : SocketObject)
    → is_open o ≡ true
    → (o.connected_flag ≡ true) × (o.shutdown_gracefully ≡ false)
open_flags o h = ground arith

shut_flags :
    (o : SocketObject)
    → is_open o ≡ false
    → (o.shutdown_gracefully ≡ true) ⊎ (o.connected_flag ≡ false)
shut_flags o h = ground arith

own_requests :
    (t : IoType) (s r : Session)
    → IsSameView s r
    → requests t (number r) r ≡ requests t (number s) s
own_requests t s r v =
    ap (λ (o : SocketObject). requests t o.base.obj_id r) v.same_sock ∙ v.same_requests t

module _ (u : Uring) (f : IsUring u) (a : Allocator) where
  abbrev pub sending_of : List ℕ → Session → Outcome Session
  sending_of bytes s = send u a bytes s >>= λ r. done r.1

  module _ (m : IsAllocator a) where
    pub send-IsMethod :
        (bytes : List ℕ)
        → 0 < length bytes
        → IsMethod
            (sending_of bytes)
            (λ o. is_open o ≡ true → HasRooms o.send_buffer (length bytes))
            (λ s s'. Queued bytes s.sock s'.sock)
    send-IsMethod bytes some_bytes = record {
      runs = λ s v rooms. elim (Bool-cases (is_open s.sock)) [
        | inl is_open' ↦
            let (connected, open') = open_flags s.sock is_open' in
            let (r, e, (_, q, v')) =
              send_lem u f a m s bytes v connected open' (rooms is_open') some_bytes in
            (
              r.1,
              rw (e, ◌>>=◌) refl,
              (
                v',
                record {
                  only_buffer = q.only_buffer;
                  queued =
                      q.q_appended
                      ∙ ap (λ b. contents s.sock.send_buffer ++ (if b then bytes else []))
                          (sym is_open');
                },
              ),
            )
        | inr shut ↦ (
          s,
          rw (send_refused u a bytes s (shut_flags s.sock shut), ◌>>=◌) refl,
          (
            v,
            record {
              only_buffer = refl;
              queued =
                  sym (append-nil (contents s.sock.send_buffer))
                  ∙ ap (λ b. contents s.sock.send_buffer ++ (if b then bytes else [])) (sym shut);
            },
          ),
        )
      ];
      alone = λ s.
          IfDone->>= (λ r. OthersAlone s r.1) (OthersAlone s) (send u a bytes s) (λ r. done r.1)
            (send-Keeps OthersAlone OthersAlone-IsFrame u a bytes s)
            (λ r q. IfDone-done (OthersAlone s) r.1 q);
      seen = λ s s' r r' v v' q.
          subst (λ o. Queued bytes o r'.sock) (sym v.same_sock)
            (subst (Queued bytes s.sock) (sym v'.same_sock) q);
    }

module _ (u : Uring) (f : IsUring u) where
  pub close-IsMethod :
      IsMethod
        (close u graceful)
        (λ o. Unit {0})
        (λ s s'. Left s.sock s'.sock (shutdowns_of s) (shutdowns_of s'))
  close-IsMethod = record {
    runs = λ s v x.
        let (s', e, c) = close_lem u f s v in
        (s', e, (c.sending, record { kept = c.kept; asked = c.asked }));
    alone = λ s. close-Keeps OthersAlone OthersAlone-IsFrame u graceful s;
    seen = λ s s' r r' v v' q.
        subst (λ o. Left o r'.sock (shutdowns_of r) (shutdowns_of r')) (sym v.same_sock)
          (subst (λ o'. Left s.sock o' (shutdowns_of r) (shutdowns_of r')) (sym v'.same_sock)
            (subst (λ b. Left s.sock s'.sock b (shutdowns_of r'))
              (sym (own_requests IoType.shutdown s r v))
              (subst (Left s.sock s'.sock (shutdowns_of s))
                (sym (own_requests IoType.shutdown s' r' v')) q)));
  }
