-- ===== src/IoContext.antt =====
-- src/include/rioring/io_context.h (the Linux part), src/include/rioring/predefined.h, and the
-- socket addresses that both pass on.
use rioring.Prelude.{ℕ, ◌*◌, Option, none}

-- `RIORING_DATA_BUFFER_SIZE`, `RIORING_CONTEXT_POOL_SIZE` and `RIORING_IO_URING_ENTRIES`.
abbrev pub data_buffer_size : ℕ
data_buffer_size = 1024 * 64

abbrev pub context_pool_size : ℕ
context_pool_size = 256

abbrev pub io_uring_entries : ℕ
io_uring_entries = 128

abbrev pub af_unspec : ℕ
af_unspec = 0

abbrev pub af_inet : ℕ
af_inet = 2

abbrev pub af_inet6 : ℕ
af_inet6 = 10

-- A `sockaddr`: its family, and a number for all that the family's structure holds besides.
pub record Sockaddr : Type 0 where
  pub family : ℕ
  pub host : ℕ

abbrev pub no_address : Sockaddr
no_address = record { family = af_unspec; host = 0 }

pub data IoType : Type 0 where
  unknown accept read write shutdown : IoType

pub data ContextType : Type 0 where
  tcp_context udp_context : ContextType

-- Where an `iovec` points: nowhere, to the socket's `recv_bind_buffer`, or to a block of the heap
-- (`none` is the null pointer of a buffer without a block).
pub data IovBase : Type 0 where
  null : IovBase
  recv_bind : IovBase
  heap : Option ℕ → IovBase

-- `sizeof( sockaddr_storage )`.
abbrev pub sockaddr_storage_size : ℕ
sockaddr_storage_size = 128

-- The `msghdr` points to the context's own address, and, if `msg_iovlen` is 1, to its own `iovec`.
pub record IoContext : Type 0 where
  pub ident : ℕ
  pub io_type : IoType
  pub ctype : ContextType
  pub iov_base : IovBase
  pub iov_len : ℕ
  pub handler : Option ℕ
  pub msg_iovlen : ℕ
  pub msg_namelen : ℕ
  pub addr : Sockaddr

unfoldable pub new_context : ℕ → IoContext
new_context ident = record {
  ident = ident;
  io_type = unknown;
  ctype = tcp_context;
  iov_base = null;
  iov_len = 0;
  handler = none;
  msg_iovlen = 0;
  msg_namelen = sockaddr_storage_size;
  addr = no_address;
}
