-- ===== src/IoService.antt =====
-- src/io_service.cpp (the io_uring part): the pool of contexts and the submission of requests.
-- liburing is a parameter: whether a ring has a free entry. What is prepared in the entry, and the
-- context that it carries, is recorded as the kernel will read it.
use rioring.Prelude.{
  ℕ, Bool, true, false, List, [], ◌∷◌, ◌++◌, Option, none, some, get_elem?, length, sub_size,
  if◌then◌else◌, Outcome, done, fault,
}
use rioring.ObjectBase.{ObjectBase, ErrorCall, io_error}
use rioring.SimplePool.{SimplePool}
use rioring.SimplePool
use rioring.IoContext.{IoContext, IoType, ContextType, tcp_context, udp_context, null, new_context}
use rioring.SocketObject.{SocketObject}

-- The state of `tcp_server` (src/include/rioring/tcp_server.h) that the service reads.
pub record TcpServer : Type 0 where
  pub base : ObjectBase
  pub open base use *
  pub server_socket : ℕ
  pub addr6 : ℕ
  pub new_connect_event : Bool

-- What `ctx->handler` points to.
pub data Handler : Type 0 where
  socket : SocketObject → Handler
  server : TcpServer → Handler

abbrev pub base_of : Handler → ObjectBase
base_of (socket s) = s.base
base_of (server v) = v.base

-- What `io_uring_prep_…` puts into an entry. `unprepared` is an entry that no call filled.
pub data Sqe : Type 0 where
  unprepared : Sqe
  prep_accept prep_readv prep_recvmsg prep_writev prep_sendmsg : ℕ → Sqe
  prep_shutdown : (fd how : ℕ) → Sqe

pub record Submission : Type 0 where
  pub ring : ℕ
  pub sqe : Sqe
  pub ctx : IoContext

-- `submitted` is what the kernel has been handed and has not completed. `thread_ring` is that of
-- the thread that runs: `none` outside the service's own threads.
pub record IoService : Type 0 where
  pub io_array : List ℕ
  pub context_pool : SimplePool IoContext
  pub thread_ring : Option ℕ
  pub submitted : List Submission

-- liburing and the random number generator.
pub record Uring : Type 0 where
  -- Whether `io_uring_get_sqe` finds an entry in the ring.
  pub get_sqe : ℕ → List Submission → Bool
  -- `rioring::random( begin, end )`, with what was submitted before as the seed.
  pub random : List Submission → (begin end : ℕ) → ℕ

unfoldable pub allocate_context : IoService → IoContext × IoService
allocate_context s =
    let (ctx, pool) = SimplePool.pop new_context s.context_pool in
    (ctx, record s { context_pool = pool })

unfoldable pub deallocate_context : IoService → IoContext → IoService
deallocate_context s ctx = record s {
  context_pool =
      SimplePool.push s.context_pool (record ctx { handler = none; iov_base = null; iov_len = 0 });
}

abbrev prep_read : ContextType → ℕ → Sqe
prep_read tcp_context = prep_readv
prep_read udp_context = prep_recvmsg

abbrev prep_write : ContextType → ℕ → Sqe
prep_write tcp_context = prep_writev
prep_write udp_context = prep_sendmsg

-- The `switch` of `submit`, by the context's type and what its handler is cast to.
pub prepare : IoType → ContextType → Handler → Sqe
prepare IoType.unknown c h = unprepared
prepare IoType.accept c (server v) = prep_accept v.server_socket
prepare IoType.accept c (socket s) = unprepared
prepare IoType.read c (socket s) = prep_read c s.socket_handler
prepare IoType.read c (server v) = unprepared
prepare IoType.write c (socket s) = prep_write c s.socket_handler
prepare IoType.write c (server v) = unprepared
prepare IoType.shutdown c (socket s) = prep_shutdown s.socket_handler 0
prepare IoType.shutdown c (server v) = prep_shutdown v.server_socket 0

-- The errno of `std::errc( EIO )`.
abbrev pub eio : ℕ
eio = 5

-- What `submit` returns, the service, and the error callbacks that it made.
pub record Submitted : Type 0 where
  pub accepted : Bool
  pub service : IoService
  pub errors : List ErrorCall

module _ (u : Uring) where
  -- The ring of this thread, or one drawn from the array: a draw outside it is out of bounds.
  unfoldable pub choose_ring : IoService → Option ℕ
  choose_ring s = elim s.thread_ring [
    | some ring ↦ some ring
    | none ↦ get_elem? s.io_array (u.random s.submitted 0 (sub_size (length s.io_array) 1))
  ]

  -- From `io_uring_get_sqe` on.
  unfoldable pub submit_on : ℕ → Handler → IoContext → IoService → Submitted
  unfolding prepare io_error
  submit_on ring h ctx s =
      if u.get_sqe ring s.submitted
      then (record {
        accepted = true;
        service = record s {
          submitted =
              s.submitted
              ++ record { ring = ring; sqe = prepare ctx.io_type ctx.ctype h; ctx = ctx } ∷ [];
        };
        errors = [];
      })
      else (record { accepted = false; service = s; errors = io_error (base_of h) eio })

  unfoldable pub submit : Handler → IoContext → IoService → Outcome Submitted
  unfolding choose_ring submit_on
  submit h ctx s = elim (choose_ring s) [ none ↦ fault | some ring ↦ done (submit_on ring h ctx s) ]
