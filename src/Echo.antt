-- ===== src/Echo.antt =====
-- The echo server (examples/echoserver/main.cpp): what its callbacks do.
pub mod Serving
pub mod Arrival
pub mod Stream
pub mod Accept
use rioring.Prelude.{
  contains, ℕ, true, List, [], ◌∷◌, ◌==◌, if◌then◌else◌, Bool, false, Outcome, done, fault, ◌>>=◌,
}
use rioring.Memory.{Allocator, read_bytes}
use rioring.IoBuffer
use rioring.IoContext.{Sockaddr}
use rioring.SocketObject.{
  SocketObject, SocketType, tcp, udp, graceful, set_receive_event, set_close_event,
}
use rioring.IoService.{Uring}
use rioring.Session.{Session, UserCode, with_sock, send}
use rioring.Sockets.{Sockets}

-- `event_receiver`: the sockets that are active, by their object ids. (The order of an
-- `unordered_set` is not defined; here a new entry goes to the front.)
pub record EventReceiver : Type 0 where
  pub activating_sockets : List ℕ

abbrev erase : ℕ → List ℕ → List ℕ
erase k [] = []
erase k (j ∷ js) = if j == k then erase k js else j ∷ erase k js

pub on_accept_client : SocketObject → EventReceiver → SocketObject × EventReceiver
on_accept_client new_socket r = (
  set_receive_event (set_close_event new_socket true) true,
  if contains new_socket.base.obj_id r.activating_sockets
      then r
      else (record r { activating_sockets = new_socket.base.obj_id ∷ r.activating_sockets }),
)

pub on_disconnect_client : ℕ → EventReceiver → EventReceiver
on_disconnect_client obj_id r = record r { activating_sockets = erase obj_id r.activating_sockets }

module _ {ℓ} {W : Type ℓ} (ops : Sockets W) where
  pub leave_clients : List ℕ → W → Outcome W
  leave_clients [] w = done w
  leave_clients (obj_id ∷ js) w = ops.close graceful obj_id w >>= λ w'. leave_clients js w'

module _ (u : Uring) (a : Allocator) where
  -- The callback on the socket's own receive buffer. A socket of another kind makes the cast null,
  -- and the call goes through it.
  pub echo : SocketType → Session → Outcome Session
  echo udp s = fault
  echo tcp s =
      read_bytes s.sock.recv_buffer.raw_buffer 0 (IoBuffer.size s.sock.recv_buffer) >>= λ bytes.
      send u a bytes s >>= λ r.
      IoBuffer.pop r.1.sock.recv_buffer (IoBuffer.size r.1.sock.recv_buffer) >>= λ b.
      done (with_sock r.1 (record r.1.sock { recv_buffer = b }))

  pub on_read_message : Sockaddr → Session → Outcome Session
  unfolding echo
  on_read_message addr s = echo s.sock.socket_type s

  -- The callbacks of a client's socket. The one for a close leaves the socket alone.
  pub echo_user : UserCode
  unfolding on_read_message
  echo_user = record {
    receive_event = on_read_message;
    send_complete_event = λ s. done s;
    close_event = λ s. done s;
  }
