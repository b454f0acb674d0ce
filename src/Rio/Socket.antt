-- ===== src/Rio/Socket.antt =====
-- A socket on Windows: the parts of src/socket_object.cpp, src/tcp_socket.cpp and src/udp_socket.cpp
-- under WIN32, and what io_service::io (src/io_service.cpp) does with one of its completed requests.
use rioring.Prelude.{
  ℕ, zero, suc, ◌-◌, ◌^◌, min, Bool, true, false, not, List, [], ◌∷◌, ◌++◌, Option, none, some,
  length, take, drop, leb, ◌==◌, if◌then◌else◌, Outcome, done, fault, hang, ◌>>=◌,
}
use rioring.Memory.{Allocator, read_bytes}
use rioring.IoBuffer
use rioring.IoDoubleBuffer
use rioring.ObjectBase.{ErrorCall, io_error}
use rioring.IoContext.{ContextType, udp_context, IoType, Sockaddr, data_buffer_size}
use rioring.SocketObject.{SocketObject, SocketType, tcp, udp, CloseType, graceful, force}
use rioring.Rio.{
  RioContext, RioService, RioTable, allocate_context, submit, register_buffer, unregister_buffer,
  create_request_queue, settle, invalid_buffer, invalid_queue,
}

-- What a socket has besides on Windows. `object.socket_handler` is its SOCKET.
pub record RioSocket : Type 0 where
  pub object : SocketObject
  pub request_queue : ℕ
  pub recv_buffer_id : Option ℕ
  pub send_buffer_id : Option ℕ
  pub send_bind_buffer : List ℕ

pub record RioSession : Type 0 where
  pub sock : RioSocket
  pub service : RioService
  pub errors : List ErrorCall
  pub closed : List ℕ

-- `INVALID_SOCKET`.
abbrev pub invalid_socket : ℕ
invalid_socket = 2 ^ 64 - 1

pub record RioUser : Type 0 where
  pub receive_event : Sockaddr → RioSession → Outcome RioSession
  pub send_complete_event : RioSession → Outcome RioSession
  pub close_event : RioSession → Outcome RioSession

abbrev pub with_object : RioSession → SocketObject → RioSession
with_object s o = record s { sock = record s.sock { object = o } }

abbrev pub with_lock : (RioSession → Outcome RioSession) → RioSession → Outcome RioSession
with_lock body s =
    let run = body (with_object s (record s.sock.object { lock = true })) >>= λ s'.
    done (with_object s' (record s'.sock.object { lock = false })) in
    if s.sock.object.lock then hang else run

-- `closesocket( socket_handler )`, and the handler after it.
unfoldable pub close_socket : RioSession → RioSession
close_socket s = record s {
  sock = record s.sock { object = record s.sock.object { socket_handler = invalid_socket } };
  closed = s.closed ++ s.sock.object.socket_handler ∷ [];
}

-- The type of the context: only `udp_socket` sets it.
abbrev pub context_type : SocketType → ContextType → ContextType
context_type tcp c = c
context_type udp c = udp_context

abbrev pub set_or : Option Sockaddr → Sockaddr → Sockaddr
set_or none old = old
set_or (some addr) old = addr

-- What `submit_receiving` and `submit_sending` fill in; without an address that of the context stays.
abbrev pub filled : RioSession → IoType → Option ℕ → ℕ → Option Sockaddr → RioContext × RioService
filled s t id n addr =
    let (ctx, service) = allocate_context s.service in
    (
      record ctx {
        handler = some s.sock.object.base.obj_id;
        io_type = t;
        ctype = context_type s.sock.object.socket_type ctx.ctype;
        rq = s.sock.request_queue;
        buf = record ctx.buf { offset = 0; buffer_id = id; length = n };
        addr = set_or addr ctx.addr;
      },
      service,
    )

-- Only `tcp_socket` gives the address of the peer for a read.
abbrev pub read_address : SocketType → SocketObject → Option Sockaddr
read_address tcp o = some o.addr_storage
read_address udp o = none

-- Where `submit_sending` sends to: `tcp_socket` takes the peer where it is given no address, and
-- `udp_socket` reads through the null pointer.
abbrev pub destination : SocketType → Option Sockaddr → (peer : Sockaddr) → Outcome Sockaddr
destination tcp none peer = done peer
destination tcp (some addr) peer = done addr
destination udp none peer = fault
destination udp (some addr) peer = done addr

unfoldable pub on_send_complete : RioSession → Outcome RioSession
unfolding close_socket
on_send_complete s = if s.sock.object.shutdown_gracefully then done (close_socket s) else done s

pub close_gracefully : RioSession → Outcome RioSession
unfolding close_socket
close_gracefully s =
    if IoDoubleBuffer.empty s.sock.object.send_buffer
    then done (close_socket s)
    else done (with_object s (record s.sock.object { shutdown_gracefully = true }))

pub close : CloseType → RioSession → Outcome RioSession
unfolding close_gracefully close_socket
close graceful s = with_lock close_gracefully s
close force s = done (close_socket s)

-- `tcp_socket::on_shutdown` destroys no buffer here; that of `udp_socket` does, and has no flag.
pub on_shutdown : RioSession → RioSession
on_shutdown s =
    let o = s.sock.object in
    with_object s (record o {
      connected_flag = elim o.socket_type [ tcp ↦ false | udp ↦ o.connected_flag ];
      recv_buffer = elim o.socket_type [
        | tcp ↦ o.recv_buffer
        | udp ↦ IoBuffer.destroy o.recv_buffer
      ];
      send_buffer = elim o.socket_type [
        | tcp ↦ o.send_buffer
        | udp ↦ IoDoubleBuffer.destroy_both o.send_buffer
      ];
    })

unfoldable pub activated : Allocator → SocketObject → SocketObject
activated a o = record o {
  connected_flag = elim o.socket_type [ tcp ↦ true | udp ↦ o.connected_flag ];
  recv_buffer = IoBuffer.assign a o.recv_buffer data_buffer_size;
  send_buffer = IoDoubleBuffer.assign a o.send_buffer data_buffer_size;
}

module _ (rio : RioTable) where
  unfoldable pub submit_receiving : RioSession → RioSession
  submit_receiving s =
      let (ctx, service) =
        filled s IoType.read s.sock.recv_buffer_id data_buffer_size
          (read_address s.sock.object.socket_type s.sock.object) in
      record s { service = submit rio ctx service }

  -- What is sent is copied first, up to the size of the array that is registered.
  unfoldable pub submit_sending : Option Sockaddr → RioSession → Outcome RioSession
  submit_sending addr s =
      destination s.sock.object.socket_type addr s.sock.object.addr_storage >>= λ to.
      let n = min (IoDoubleBuffer.size s.sock.object.send_buffer) data_buffer_size in
      let (ctx, service) = filled s IoType.write s.sock.send_buffer_id n (some to) in
      read_bytes s.sock.object.send_buffer.main_buffer.raw_buffer 0 n >>= λ bytes. done (record s {
        sock = record s.sock { send_bind_buffer = bytes ++ drop n s.sock.send_bind_buffer };
        service = submit rio ctx service;
      })

  -- `io_error( … )` of the socket.
  unfoldable pub error_occur : RioSession → RioSession
  error_occur s = record s { errors = s.errors ++ io_error s.sock.object.base rio.last_error }

  unfoldable pub register_send : RioSession → RioSession
  unfolding error_occur
  register_send s =
      let (id, service) = register_buffer rio s.service in
      let s' = record s { sock = record s.sock { send_buffer_id = some id }; service = service } in
      if id == invalid_buffer then error_occur s' else s'

  unfoldable pub register_both : RioSession → RioSession
  unfolding register_send error_occur
  register_both s =
      let (id, service) = register_buffer rio s.service in
      let s' = record s { sock = record s.sock { recv_buffer_id = some id }; service = service } in
      if id == invalid_buffer then error_occur s' else register_send s'

  -- `socket_object::on_active`.
  unfoldable pub request_and_register : RioSession → Outcome RioSession
  unfolding register_both error_occur
  request_and_register s = create_request_queue rio s.service s.sock.object.socket_handler >>= λ rq.
      let s' = record s { sock = record s.sock { request_queue = rq } } in
      done (if rq == invalid_queue then error_occur s' else register_both s')

  module _ (a : Allocator) where
    unfoldable pub on_active : RioSession → Outcome RioSession
    unfolding request_and_register activated submit_receiving
    on_active s = request_and_register (with_object s (activated a s.sock.object)) >>= λ s'.
        done (submit_receiving s')

    unfoldable pub push_send : List ℕ → RioSession → Outcome RioSession
    push_send bytes s = IoDoubleBuffer.push a s.sock.object.send_buffer bytes >>= λ b.
        done (with_object s (record s.sock.object { send_buffer = b }))

    -- The body that `send` and `send_to` share.
    unfoldable pub queue_and_send : List ℕ → Option Sockaddr → RioSession → Outcome RioSession
    unfolding push_send submit_sending
    queue_and_send bytes addr s =
        if IoDoubleBuffer.empty s.sock.object.send_buffer
        then (push_send bytes s >>= λ s'. submit_sending addr s')
        else push_send bytes s

    unfoldable pub send : List ℕ → RioSession → Outcome (Bool × RioSession)
    unfolding queue_and_send
    send bytes s =
        if s.sock.object.shutdown_gracefully
        then done (false, s)
        else if not s.sock.object.connected_flag
        then done (false, s)
        else (with_lock (queue_and_send bytes none) s >>= λ s'. done (true, s'))

    -- `udp_socket::send_to`.
    unfoldable pub send_to : List ℕ → Option Sockaddr → RioSession → Outcome (Bool × RioSession)
    unfolding queue_and_send
    send_to bytes addr s = with_lock (queue_and_send bytes addr) s >>= λ s'. done (true, s')

    receive_bytes : ℕ → RioSession → Outcome RioSession
    receive_bytes n s =
        let o = s.sock.object in
        let pushed = IoBuffer.push a o.recv_buffer (take n o.recv_bind_buffer) >>= λ b.
        done (with_object s (record o { recv_buffer = b })) in
        if leb n (length o.recv_bind_buffer) then pushed else fault

    module _ (user : RioUser) where
      pub io_received : ℕ → Sockaddr → RioSession → Outcome RioSession
      unfolding receive_bytes submit_receiving
      io_received n addr s = receive_bytes n s >>= λ s₁.
          let s₂ = submit_receiving s₁ in
          if s₂.sock.object.recv_event then user.receive_event addr s₂ else done s₂

      unfoldable pub after_sent : Sockaddr → RioSession → Outcome RioSession
      unfolding on_send_complete submit_sending
      after_sent addr s =
          if not (IoDoubleBuffer.empty s.sock.object.send_buffer)
          then submit_sending (some addr) s
          else ((if s.sock.object.send_complete_event then user.send_complete_event s else done s)
              >>= λ s'. on_send_complete s')

      unfoldable pub take_sent : ℕ → Sockaddr → RioSession → Outcome RioSession
      unfolding after_sent
      take_sent n addr s = IoDoubleBuffer.pop s.sock.object.send_buffer n >>= λ b.
          after_sent addr
            (with_object s (record s.sock.object { send_buffer = IoDoubleBuffer.elevate b }))

      unfoldable pub io_sent : ℕ → Sockaddr → RioSession → Outcome RioSession
      unfolding take_sent
      io_sent n addr s = with_lock (take_sent n addr) s

      drop_socket : RioSession → RioSession
      unfolding close_socket
      drop_socket s = if s.sock.object.socket_handler == invalid_socket then s else close_socket s

      pub io_shutdown : RioSession → Outcome RioSession
      unfolding on_shutdown drop_socket
      io_shutdown s =
          let s₁ = drop_socket (on_shutdown s) in
          let s₂ = record s₁ {
            service =
                unregister_buffer s₁.sock.send_buffer_id
                  (unregister_buffer s₁.sock.recv_buffer_id s₁.service);
          } in
          if s₂.sock.object.socket_close_event then user.close_event s₂ else done s₂

      -- The `switch` of `io`. A write that has failed has sent no byte.
      unfoldable pub dispatch : IoType → ℕ → Sockaddr → RioSession → Outcome RioSession
      unfolding io_received io_sent io_shutdown
      dispatch IoType.read zero addr s = io_shutdown s
      dispatch IoType.read (suc n) addr s = io_received (suc n) addr s
      dispatch IoType.write n addr s = io_sent n addr s
      dispatch IoType.unknown n addr s = done s
      dispatch IoType.accept n addr s = done s
      dispatch IoType.shutdown n addr s = done s

      -- One result of `RIODequeueCompletion`.
      unfoldable pub complete : RioContext → ℕ → RioSession → Outcome RioSession
      unfolding dispatch
      complete ctx n s = dispatch ctx.io_type n ctx.addr s >>= λ s'.
          done (record s' { service = settle ctx s'.service })
