-- ===== src/Session.antt =====
-- A socket and the service that it runs on: the Linux parts of src/socket_object.cpp,
-- src/tcp_socket.cpp and src/udp_socket.cpp. A method returns the new session. The callbacks of the
-- user are parameters, and may themselves call the methods.
pub mod Requests
pub mod Sending
pub mod Send
pub mod Shutdowns
pub mod Sent
pub mod Active
pub mod Close
pub mod Received
pub mod Frame
use rioring.Prelude.{
  ℕ, ◌+◌, ◌-◌, ◌≡◌, Bool, true, false, not, List, [], ◌∷◌, ◌++◌, Option, none, some, length, take,
  leb, ◌==◌, if◌then◌else◌, Outcome, done, fault, hang, ◌>>=◌,
}
use rioring.Memory.{Allocator, address_of}
use rioring.IoBuffer
use rioring.IoDoubleBuffer
use rioring.ObjectBase.{ErrorCall}
use rioring.ObjectBase
use rioring.IoContext.{
  IoContext, IoType, Sockaddr, udp_context, recv_bind, heap, af_inet, af_inet6, data_buffer_size,
}
use rioring.SocketObject.{SocketObject, SocketType, tcp, udp, CloseType, graceful, force}
use rioring.IoService.{IoService, Uring, Submitted, socket, allocate_context, submit}

pub record Session : Type 0 where
  pub sock : SocketObject
  pub service : IoService
  -- The calls of error callbacks so far, and the descriptors that have been closed.
  pub errors : List ErrorCall
  pub closed : List ℕ

-- What the user's three callbacks do.
pub record UserCode : Type 0 where
  pub receive_event : Sockaddr → Session → Outcome Session
  pub send_complete_event : Session → Outcome Session
  pub close_event : Session → Outcome Session

abbrev pub with_sock : Session → SocketObject → Session
with_sock s o = record s { sock = o }

-- `std::scoped_lock sc{ lock }` round `body`: a mutex that its own thread holds is never freed.
abbrev pub with_lock : (Session → Outcome Session) → Session → Outcome Session
with_lock body s =
    let run = body (with_sock s (record s.sock { lock = true })) >>= λ s'.
    done (with_sock s' (record s'.sock { lock = false })) in
    if s.sock.lock then hang else run

-- `allocate_context`, with the handler and the type that every caller sets.
abbrev pub socket_context : Session → IoType → IoContext × IoService
socket_context s t =
    let (ctx, service) = allocate_context s.service in
    (record ctx { handler = some s.sock.obj_id; io_type = t }, service)

-- The bytes of a family's address structure; 0 for a family that the code does not know.
unfoldable pub address_length : ℕ → ℕ
address_length family = if family == af_inet then 16 else if family == af_inet6 then 28 else 0

-- `*send_buffer`.
abbrev pub send_pointer : Session → Option ℕ
send_pointer s = address_of s.sock.send_buffer.main_buffer.raw_buffer

-- `on_shutdown` of both kinds of socket.
unfoldable pub on_shutdown : Session → Session
on_shutdown s = with_sock s (record s.sock {
  connected_flag = elim s.sock.socket_type [ tcp ↦ false | udp ↦ s.sock.connected_flag ];
  recv_buffer = IoBuffer.destroy s.sock.recv_buffer;
  send_buffer = IoDoubleBuffer.destroy_both s.sock.send_buffer;
})

module _ (u : Uring) where
  -- `current_io->submit( ctx )`, whose result no caller reads.
  unfoldable pub submit_context : IoContext → IoService → Session → Outcome Session
  submit_context ctx service s = submit u (socket s.sock) ctx service >>= λ r.
      done (record s { service = r.service; errors = s.errors ++ r.errors })

  unfoldable pub submit_receiving_as : SocketType → Session → Outcome Session
  submit_receiving_as tcp s =
      let (ctx, service) = socket_context s IoType.read in
      submit_context (record ctx { iov_base = recv_bind; iov_len = data_buffer_size }) service s
  submit_receiving_as udp s =
      let (ctx, service) = socket_context s IoType.read in
      submit_context
        (record ctx {
          ctype = udp_context;
          iov_base = recv_bind;
          iov_len = data_buffer_size;
          msg_iovlen = 1;
        })
        service s

  unfoldable pub submit_receiving : Session → Outcome Session
  unfolding submit_receiving_as submit_context
  submit_receiving s = submit_receiving_as s.sock.socket_type s

  unfoldable pub submit_sending_udp : Sockaddr → Session → Outcome Session
  submit_sending_udp addr s =
      let (ctx, service) = socket_context s IoType.write in
      let filled = record ctx {
        ctype = udp_context;
        iov_base = heap (send_pointer s);
        iov_len = IoDoubleBuffer.size s.sock.send_buffer;
        msg_iovlen = 1;
      } in
      if address_length addr.family == 0
      then done (record s { service = service })
      else submit_context (record filled { addr = addr }) service s

  -- `addr` is null where the caller passes `nullptr`; udp_socket reads through it.
  unfoldable pub submit_sending_as : SocketType → Option Sockaddr → Session → Outcome Session
  submit_sending_as tcp addr s =
      let (ctx, service) = socket_context s IoType.write in
      submit_context
        (record ctx {
          iov_base = heap (send_pointer s);
          iov_len = IoDoubleBuffer.size s.sock.send_buffer;
        })
        service s
  submit_sending_as udp none s = fault
  submit_sending_as udp (some addr) s = submit_sending_udp addr s

  unfoldable pub submit_sending : Option Sockaddr → Session → Outcome Session
  unfolding submit_sending_as submit_sending_udp submit_context address_length
  submit_sending addr s = submit_sending_as s.sock.socket_type addr s

  unfoldable pub submit_shutdown : Session → Outcome Session
  unfolding submit_context
  submit_shutdown s =
      let (ctx, service) = socket_context s IoType.shutdown in submit_context ctx service s

  pub on_send_complete : Session → Outcome Session
  on_send_complete s = if s.sock.shutdown_gracefully then submit_shutdown s else done s

  close_gracefully : Session → Outcome Session
  close_gracefully s =
      if IoDoubleBuffer.empty s.sock.send_buffer
      then submit_shutdown s
      else done (with_sock s (record s.sock { shutdown_gracefully = true }))

  unfoldable pub close : CloseType → Session → Outcome Session
  unfolding close_gracefully
  close graceful s = with_lock close_gracefully s
  close force s = submit_shutdown s

  module _ (a : Allocator) where
    unfoldable pub push_send : List ℕ → Session → Outcome Session
    push_send bytes s = IoDoubleBuffer.push a s.sock.send_buffer bytes >>= λ b.
        done (with_sock s (record s.sock { send_buffer = b }))

    -- The body that `send` and `send_to` share: the first bytes of a buffer are sent at once.
    unfoldable pub queue_and_send : List ℕ → Option Sockaddr → Session → Outcome Session
    unfolding push_send
    queue_and_send bytes addr s =
        if IoDoubleBuffer.empty s.sock.send_buffer
        then (push_send bytes s >>= λ s'. submit_sending addr s')
        else push_send bytes s

    -- `tcp_socket::send`.
    unfoldable pub send : List ℕ → Session → Outcome (Bool × Session)
    send bytes s =
        if s.sock.shutdown_gracefully
        then done (false, s)
        else if not s.sock.connected_flag
        then done (false, s)
        else (with_lock (queue_and_send bytes none) s >>= λ s'. done (true, s'))

    -- `udp_socket::send_to`.
    unfoldable pub send_to : List ℕ → Option Sockaddr → Session → Outcome (Bool × Session)
    send_to bytes addr s = with_lock (queue_and_send bytes addr) s >>= λ s'. done (true, s')

    -- What `on_active` of both kinds of socket sets; only `tcp_socket` has the flag. (The options
    -- that `setsockopt` sets change nothing that the library reads.)
    unfoldable pub activated : SocketObject → SocketObject
    activated o = record o {
      connected_flag = elim o.socket_type [ tcp ↦ true | udp ↦ o.connected_flag ];
      recv_buffer = IoBuffer.assign a o.recv_buffer data_buffer_size;
      send_buffer = IoDoubleBuffer.assign a o.send_buffer data_buffer_size;
    }

    unfoldable pub on_active : Session → Outcome Session
    on_active s = submit_receiving (with_sock s (activated s.sock))

    -- `memcpy` from `recv_bind_buffer` reads past its end beyond its size.
    receive_bytes : ℕ → Session → Outcome Session
    receive_bytes n s =
        let pushed = IoBuffer.push a s.sock.recv_buffer (take n s.sock.recv_bind_buffer) >>= λ b.
        done (with_sock s (record s.sock { recv_buffer = b })) in
        if leb n (length s.sock.recv_bind_buffer) then pushed else fault

    module _ (user : UserCode) where
      pub io_received : ℕ → Sockaddr → Session → Outcome Session
      unfolding receive_bytes
      io_received n addr s = receive_bytes n s >>= λ s₁. submit_receiving s₁ >>= λ s₂.
          if s₂.sock.recv_event then user.receive_event addr s₂ else done s₂

      -- The part of `io_sent` behind `elevate`.
      unfoldable pub after_sent : Sockaddr → Session → Outcome Session
      after_sent addr s =
          if not (IoDoubleBuffer.empty s.sock.send_buffer)
          then submit_sending (some addr) s
          else ((if s.sock.send_complete_event then user.send_complete_event s else done s)
              >>= λ s'. on_send_complete s')

      -- The body of `io_sent` under its lock.
      unfoldable pub take_sent : ℕ → Sockaddr → Session → Outcome Session
      take_sent n addr s = IoDoubleBuffer.pop s.sock.send_buffer n >>= λ b.
          after_sent addr (with_sock s (record s.sock { send_buffer = IoDoubleBuffer.elevate b }))

      unfoldable pub io_sent : ℕ → Sockaddr → Session → Outcome Session
      io_sent n addr s = with_lock (take_sent n addr) s

      unfoldable pub io_shutdown : Session → Outcome Session
      unfolding on_shutdown
      io_shutdown s =
          let s' = on_shutdown s in
          if s'.sock.socket_close_event then user.close_event s' else done s'
