-- ===== src/Sockets.antt =====
-- The sockets of a program, by their object ids: what the examples call of them, and the sockets of
-- src/tcp_socket.cpp on one service.
pub mod Others
pub mod Calls
pub mod Series
pub mod Methods
use rioring.Prelude.{ℕ, List, [], ◌∷◌, ◌==◌, if◌then◌else◌, Outcome, done, fault, ◌>>=◌}
use rioring.Memory.{Allocator}
use rioring.ObjectBase.{ErrorCall}
use rioring.SocketObject.{SocketObject, CloseType}
use rioring.IoService.{IoService, Uring}
use rioring.Session.{Session, send, close}

-- `tcp_socket::send` and `tcp_socket::close` of the socket with an object id, on a state `W`.
pub record Sockets {ℓ} (W : Type ℓ) : Type ℓ where
  pub send : ℕ → List ℕ → W → Outcome W
  pub close : CloseType → ℕ → W → Outcome W

pub record World : Type 0 where
  pub sockets : List SocketObject
  pub service : IoService
  pub errors : List ErrorCall
  pub closed : List ℕ

-- A method of the first socket with an object id; a pointer to no socket is a fault.
on_socket :
    (Session → Outcome Session)
    → ℕ
    → List SocketObject
    → World
    → Outcome (List SocketObject × World)
on_socket method obj_id [] w = fault
on_socket method obj_id (o ∷ os) w =
    let rest = on_socket method obj_id os w >>= λ r. done (o ∷ r.0, r.1) in
    let run =
      method (record { sock = o; service = w.service; errors = w.errors; closed = w.closed })
      >>= λ s.
          done
            (s.sock ∷ os, record w { service = s.service; errors = s.errors; closed = s.closed }) in
    if o.base.obj_id == obj_id then run else rest

pub apply : (Session → Outcome Session) → ℕ → World → Outcome World
unfolding on_socket
apply method obj_id w =
    on_socket method obj_id w.sockets w >>= λ r. done (record r.1 { sockets = r.0 })

-- `client::send` drops what `send` returns.
unfoldable pub tcp_sockets : Uring → Allocator → Sockets World
unfolding apply
tcp_sockets u a = record {
  send = λ obj_id bytes w. apply (λ s. send u a bytes s >>= λ r. done r.1) obj_id w;
  close = λ t obj_id w. apply (λ s. close u t s) obj_id w;
}
