-- ===== src/Sockets/Others.antt =====
-- What a method of one socket leaves of the others on its service (src/tcp_socket.cpp,
-- src/socket_object.cpp, src/io_service.cpp).
use rioring.Prelude.{ℕ, ◌≡◌, inl, inr, refl, sym, ap, subst, ◌∙◌, false, List, ◌==◌}
use rioring.IoContext.{IoContext, IoType}
use rioring.SocketObject.{SocketObject}
use rioring.Session.{Session}
use rioring.Session.Requests.{HasRings, outstanding, outstanding-stranger}
use rioring.Session.Sending.{IsSending}
use rioring.Session.Frame.{IsFrame}
use rioring.Sockets.{World}

-- A socket of the program with the service that it runs on.
abbrev pub session_of : World → SocketObject → Session
session_of w o = record { sock = o; service = w.service; errors = w.errors; closed = w.closed }

abbrev pub number : Session → ℕ
number s = s.sock.base.obj_id

-- The requests of a type that an object has outstanding.
abbrev pub requests : IoType → ℕ → Session → List IoContext
requests t obj s = outstanding t obj s.service.submitted

-- The socket keeps its number, and the other objects their requests.
unfoldable pub OthersAlone : Session → Session → Type 0
OthersAlone s s' =
    (number s' ≡ number s)
    × ((t : IoType) (obj : ℕ) → (number s == obj) ≡ false → requests t obj s' ≡ requests t obj s)

pub OthersAlone-IsFrame : IsFrame OthersAlone
unfolding OthersAlone
OthersAlone-IsFrame = record {
  joins = λ s s' s'' (o, k) (o', k').
      (o' ∙ o, λ t obj far. k' t obj (ap (λ n. n == obj) o ∙ far) ∙ k t obj far);
  keeps = λ s s' o h c r. (o, λ t obj far. ap (outstanding t obj) r);
  hands = λ s service errors ring ctx own e. (
    refl,
    λ t obj far.
        ap (outstanding t obj) e
        ∙ outstanding-stranger t obj (number s) ring s.service.submitted _ ctx own far,
  );
}

-- Two sessions of one socket with the same requests.
pub record IsSameView (s s' : Session) : Type 0 where
  pub same_sock : s'.sock ≡ s.sock
  pub same_requests : (t : IoType) → requests t (number s) s' ≡ requests t (number s) s

-- A socket that is in order stays so while the requests of others change.
pub moved-IsSending :
    (s s' : Session)
    → s'.sock ≡ s.sock
    → HasRings s'.service
    → requests IoType.write (number s) s' ≡ requests IoType.write (number s) s
    → IsSending s
    → IsSending s'
moved-IsSending s s' e rings same v =
    subst (λ o. IsSending (record s' { sock = o })) (sym e)
      (record {
        is_tcp = v.is_tcp;
        unlocked = v.unlocked;
        rings = rings;
        ready = v.ready;
        front = v.front;
        flight = elim v.flight [
          | inl (nothing, p) ↦ inl (nothing, same ∙ p)
          | inr (ctx, p, covers) ↦ inr (ctx, same ∙ p, covers)
        ];
      })
