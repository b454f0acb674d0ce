-- ===== src/Rio.antt =====
-- The service on Windows (src/io_service.cpp and src/include/rioring/io_context.h, the parts under
-- WIN32): contexts, address buffers, and the requests handed to Registered I/O, whose functions are
-- parameters. The state that a request carries is recorded as the kernel will read it.

pub mod Requests
pub mod Socket
pub mod Sending
pub mod Sent
pub mod Active
pub mod Server
pub mod Connect
pub mod Datagrams
pub mod Threads
pub mod Stream
use rioring.Prelude.{
  ℕ, suc, ◌%◌, ◌^◌, ◌-◌, ◌+◌, Bool, true, false, List, [], ◌∷◌, ◌++◌, map, Option, none, some,
  get_elem?, length, ◌==◌, ltb, if◌then◌else◌, Outcome, done, fault,
}
use rioring.SimplePool.{SimplePool}
use rioring.SimplePool
use rioring.IoContext.{
  IoType, ContextType, tcp_context, udp_context, Sockaddr, no_address, context_pool_size,
}

-- A `RIO_BUF`: part of a buffer that has been registered. `none` is the null id.
pub record RioBuf : Type 0 where
  pub ident : ℕ
  pub buffer_id : Option ℕ
  pub offset : ℕ
  pub length : ℕ

abbrev pub new_buf : ℕ → RioBuf
new_buf ident = record { ident = ident; buffer_id = none; offset = 0; length = 0 }

-- `io_context`, which is a `RIO_BUF` itself. A null request queue is 0.
pub record RioContext : Type 0 where
  pub buf : RioBuf
  pub io_type : IoType
  pub ctype : ContextType
  pub rq : ℕ
  pub handler : Option ℕ
  pub addr : Sockaddr
  pub addr_buffer_id : Option ℕ
  pub binded_address_context : Option RioBuf

unfoldable pub new_context : ℕ → RioContext
new_context ident = record {
  buf = new_buf ident;
  io_type = IoType.unknown;
  ctype = tcp_context;
  rq = 0;
  handler = none;
  addr = no_address;
  addr_buffer_id = none;
  binded_address_context = none;
}

-- Which function of the table a request is made by, with its address buffer where it takes one.
pub data Call : Type 0 where
  rio_receive rio_send : Call
  rio_receive_ex rio_send_ex : RioBuf → Call

pub record Request : Type 0 where
  pub call : Call
  pub ctx : RioContext

-- `io_array` holds completion queues. `registered` and `deregistered` are
-- the ids that registering has given, and those that have been given back. `submitted` are the requests
-- that were made and have not completed; whether the kernel took one, which the code does not look at,
-- is not kept.
pub record RioService : Type 0 where
  pub io_array : List ℕ
  pub context_pool : SimplePool RioContext
  pub address_pool : SimplePool RioBuf
  pub registered : List ℕ
  pub deregistered : List ℕ
  pub submitted : List Request

-- The function table, and what `WSAGetLastError` gives where it fails.
pub record RioTable : Type 0 where
  pub register : List ℕ → ℕ
  pub create_queue : (socket recv send : ℕ) → ℕ
  pub last_error : ℕ

-- `RIO_INVALID_BUFFERID` and `RIO_INVALID_RQ`.
abbrev pub invalid_buffer : ℕ
invalid_buffer = 2 ^ 32 - 1

abbrev pub invalid_queue : ℕ
invalid_queue = 0

unfoldable pub allocate_context : RioService → RioContext × RioService
allocate_context s =
    let (ctx, pool) = SimplePool.pop new_context s.context_pool in
    (ctx, record s { context_pool = pool })

unfoldable pub deallocate_context : RioService → RioContext → RioService
deallocate_context s ctx = record s {
  context_pool = SimplePool.push s.context_pool (record ctx { handler = none; rq = 0 });
}

unfoldable pub deallocate_address_context : RioService → RioBuf → RioService
deallocate_address_context s buf = record s {
  address_pool = SimplePool.push s.address_pool (record buf { length = 0; buffer_id = none });
}

pub unregister_buffer : Option ℕ → RioService → RioService
unregister_buffer none s = s
unregister_buffer (some id) s = record s { deregistered = s.deregistered ++ id ∷ [] }

-- The destructor: the address buffers of the contexts that are in the pool.
unregister_all : List RioContext → RioService → RioService
unregister_all [] s = s
unregister_all (ctx ∷ cs) s = unregister_all cs (unregister_buffer ctx.addr_buffer_id s)

pub destroy : RioService → RioService
unfolding unregister_all
destroy s = unregister_all (SimplePool.enum_all s.context_pool []) s

-- `sizeof( SOCKADDR_INET )`.
abbrev pub address_size : ℕ
address_size = 28

module _ (rio : RioTable) where
  unfoldable pub register_buffer : RioService → ℕ × RioService
  register_buffer s =
      let id = rio.register s.registered in (id, record s { registered = s.registered ++ id ∷ [] })

  -- The first use of a context registers its address, for good.
  pub registered_address : RioContext → RioService → RioContext × RioService
  registered_address ctx s = elim ctx.addr_buffer_id [
    | none ↦ let (id, s') = register_buffer s in (record ctx { addr_buffer_id = some id }, s')
    | some id ↦ (ctx, s)
  ]

  unfoldable pub allocate_address_context :
      RioContext → RioService → RioBuf × RioContext × RioService
  unfolding registered_address
  allocate_address_context ctx s =
      let (buf, pool) = SimplePool.pop new_buf s.address_pool in
      let (ctx', s') = registered_address ctx (record s { address_pool = pool }) in
      let bound = record buf {
        buffer_id = ctx'.addr_buffer_id;
        offset = 0;
        length = address_size;
      } in
      (bound, record ctx' { binded_address_context = some bound }, s')

  pub submit_plain : Call → RioContext → RioService → RioService
  submit_plain call ctx s = record s {
    submitted = s.submitted ++ record { call = call; ctx = ctx } ∷ [];
  }

  pub submit_ex : (RioBuf → Call) → RioContext → RioService → RioService
  submit_ex call ctx s =
      let (buf, ctx', s') = allocate_address_context ctx s in submit_plain (call buf) ctx' s'

  pub submit_read : ContextType → RioContext → RioService → RioService
  submit_read tcp_context = submit_plain rio_receive
  submit_read udp_context = submit_ex rio_receive_ex

  pub submit_write : ContextType → RioContext → RioService → RioService
  submit_write tcp_context = submit_plain rio_send
  submit_write udp_context = submit_ex rio_send_ex

  -- Whatever is not a read is a write.
  pub submit_as : IoType → RioContext → RioService → RioService
  unfolding submit_read submit_write
  submit_as IoType.unknown ctx s = submit_write ctx.ctype ctx s
  submit_as IoType.accept ctx s = submit_write ctx.ctype ctx s
  submit_as IoType.read ctx s = submit_read ctx.ctype ctx s
  submit_as IoType.write ctx s = submit_write ctx.ctype ctx s
  submit_as IoType.shutdown ctx s = submit_write ctx.ctype ctx s

  unfoldable pub submit : RioContext → RioService → RioService
  unfolding submit_as submit_plain submit_ex
  submit ctx s = submit_as ctx.io_type ctx s

  -- The completion queues of a socket, by its number; a service that is not running has none, and
  -- the remainder by 0 is undefined.
  unfoldable pub create_request_queue : RioService → ℕ → Outcome ℕ
  create_request_queue s socket =
      let n = length s.io_array in
      if n == 0 then fault else elim (get_elem? s.io_array (socket % n)) [
        | none ↦ fault
        | some recv ↦ elim (get_elem? s.io_array ((socket + 1) % n)) [
          | none ↦ fault
          | some send ↦ done (rio.create_queue socket recv send)
        ]
      ]

-- What `io` does with a context after the socket has been called.
unfoldable pub settle : RioContext → RioService → RioService
settle ctx s = elim ctx.binded_address_context [
  | none ↦ deallocate_context s ctx
  | some buf ↦
      deallocate_context (deallocate_address_context s buf)
        (record ctx { binded_address_context = none })
]
