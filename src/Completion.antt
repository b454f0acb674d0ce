-- ===== src/Completion.antt =====
-- io_service::io (src/io_service.cpp, the io_uring part): what the service's thread does with one
-- completed request of a socket.
pub mod Stream
pub mod Ended
pub mod Descriptor
pub mod Race
use rioring.Prelude.{
  ℕ, zero, suc, ◌+◌, Bool, true, false, List, [], ◌∷◌, ◌++◌, Option, some, ◌==◌, if◌then◌else◌,
  Outcome, done, ◌>>=◌,
}
use rioring.Memory.{Allocator}
use rioring.ObjectBase.{io_error}
use rioring.IoContext.{IoContext, IoType, ContextType, tcp_context, udp_context, Sockaddr}
use rioring.IoService.{Uring, deallocate_context}
use rioring.Session.{Session, UserCode, with_sock, io_received, io_sent, io_shutdown}

-- `cqe->res`: a count, or the negative of an errno, which is `n + 1` of `negsuc n`.
pub data ℤ : Type 0 where
  pos : ℕ → ℤ
  negsuc : ℕ → ℤ

pub current_sockaddr : IoContext → Session → Sockaddr
current_sockaddr ctx s = elim ctx.ctype [
  | tcp_context ↦ s.sock.addr_storage
  | udp_context ↦ ctx.addr
]

-- `socket->io_error( … )`.
pub socket_error : ℕ → Session → Session
unfolding io_error
socket_error ec s = record s { errors = s.errors ++ io_error s.sock.base ec }

-- A completed shutdown closes the descriptor, unless that has been done before.
unfoldable pub close_descriptor : Session → Session
close_descriptor s = if s.sock.socket_handler == 0 then s else (record s {
  sock = record s.sock { socket_handler = 0 };
  closed = s.closed ++ s.sock.socket_handler ∷ [];
})

module _ (u : Uring) (a : Allocator) (user : UserCode) where
  on_read : IoContext → ℤ → Session → Outcome Session
  on_read ctx (pos zero) s = io_shutdown u a user s
  on_read ctx (pos (suc n)) s = io_received u a user (suc n) (current_sockaddr ctx s) s
  on_read ctx (negsuc n) s = io_shutdown u a user s

  on_write : IoContext → ℤ → Session → Outcome Session
  on_write ctx (pos zero) s = done (socket_error 0 s)
  on_write ctx (pos (suc n)) s = io_sent u a user (suc n) (current_sockaddr ctx s) s
  on_write ctx (negsuc n) s = done (socket_error (suc n) s)

  -- The `switch`, for a context whose handler is a socket.
  unfoldable pub dispatch : IoType → IoContext → ℤ → Session → Outcome Session
  unfolding on_read on_write
  dispatch IoType.unknown ctx res s = done s
  dispatch IoType.accept ctx res s = done s
  dispatch IoType.read ctx res s = on_read ctx res s
  dispatch IoType.write ctx res s = on_write ctx res s
  dispatch IoType.shutdown ctx res s = done (close_descriptor s)

  -- One round of the loop, after `io_uring_wait_cqe` has given a context.
  unfoldable pub complete : IoContext → ℤ → Session → Outcome Session
  complete ctx res s = dispatch ctx.io_type ctx res s >>= λ s'.
      done (record s' { service = deallocate_context s'.service ctx })
