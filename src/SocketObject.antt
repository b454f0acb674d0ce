-- ===== src/SocketObject.antt =====
-- The state of src/include/rioring/socket_object.h and of the classes derived from it, as on Linux.
-- A callback that is set is a flag. A descriptor is an `int` read as a 32-bit pattern.
use rioring.Prelude.{
  ℕ, ◌^◌, Bool, false, List, replicate, leb, Option, none, some, ◌==◌, if◌then◌else◌,
}
use rioring.ObjectBase.{ObjectBase}
use rioring.IoContext.{af_inet, Sockaddr, no_address, data_buffer_size}
use rioring.IoBuffer.{IoBuffer, null_buffer}
use rioring.IoDoubleBuffer.{IoDoubleBuffer, null_double}

-- `socket_object::type`; `udp_server` overrides nothing of `udp_socket`.
pub data SocketType : Type 0 where
  tcp udp : SocketType

pub data CloseType : Type 0 where
  graceful force : CloseType

-- What is written to an array for a printed address: nothing yet, or what `inet_ntop` prints of a
-- `sockaddr_in`, of a `sockaddr_in6`, or of the last four bytes of one.
pub data PeerText : Type 0 where
  blank : PeerText
  printed_v4 printed_v6 printed_mapped : Sockaddr → PeerText

pub record SocketObject : Type 0 where
  pub base : ObjectBase
  pub open base use *
  pub socket_handler : ℕ
  pub addr_storage : Sockaddr
  pub recv_bind_buffer : List ℕ
  pub socket_type : SocketType
  pub shutdown_gracefully : Bool
  -- `ntohs` of the port of an address; `none` is the 0 at the start.
  pub remote_port_number : Option Sockaddr
  pub remote_v4_addr_string : PeerText
  pub remote_v6_addr_string : PeerText
  pub user_data : Option ℕ
  -- Whether `lock` is taken.
  pub lock : Bool
  pub recv_buffer : IoBuffer
  pub send_buffer : IoDoubleBuffer
  pub recv_event : Bool
  pub send_complete_event : Bool
  pub socket_close_event : Bool
  -- Of `tcp_socket`.
  pub connected_flag : Bool

-- The constructors: without a descriptor (0), or with the one that `accept` returned.
unfoldable pub new_socket : ObjectBase → SocketType → ℕ → SocketObject
new_socket base t sock = record {
  base = base;
  socket_handler = sock;
  addr_storage = no_address;
  recv_bind_buffer = replicate data_buffer_size 0;
  socket_type = t;
  shutdown_gracefully = false;
  remote_port_number = none;
  remote_v4_addr_string = blank;
  remote_v6_addr_string = blank;
  user_data = none;
  lock = false;
  recv_buffer = null_buffer;
  send_buffer = null_double;
  recv_event = false;
  send_complete_event = false;
  socket_close_event = false;
  connected_flag = false;
}

-- `fd < 0` of an `int`.
abbrev pub is_negative : ℕ → Bool
is_negative fd = leb (2 ^ 31) fd

abbrev pub socket_address : SocketObject → Sockaddr
socket_address s = s.addr_storage

pub set_user_data : SocketObject → Option ℕ → SocketObject
set_user_data s p = record s { user_data = p }

pub get_user_data : SocketObject → Option ℕ
get_user_data s = s.user_data

pub remote_ipv4 : SocketObject → PeerText
remote_ipv4 s = s.remote_v4_addr_string

pub remote_ipv6 : SocketObject → PeerText
remote_ipv6 s = s.remote_v6_addr_string

pub remote_port : SocketObject → Option Sockaddr
remote_port s = s.remote_port_number

pub protocol : SocketObject → SocketType
protocol s = s.socket_type

-- `tcp_socket::connected`.
unfoldable pub is_connected : SocketObject → Bool
is_connected s = s.connected_flag

-- `tcp_socket::set_remote_info`. A family other than AF_INET is read as that of IPv6.
unfoldable pub set_remote_info : SocketObject → Sockaddr → SocketObject
set_remote_info s addr =
    let v4 = addr.family == af_inet in
    record s {
      addr_storage = addr;
      remote_port_number = some addr;
      remote_v4_addr_string = if v4 then printed_v4 addr else printed_mapped addr;
      remote_v6_addr_string = if v4 then s.remote_v6_addr_string else printed_v6 addr;
    }

unfoldable pub set_receive_event : SocketObject → Bool → SocketObject
set_receive_event s event = record s { recv_event = event }

pub set_send_complete_event : SocketObject → Bool → SocketObject
set_send_complete_event s event = record s { send_complete_event = event }

unfoldable pub set_close_event : SocketObject → Bool → SocketObject
set_close_event s event = record s { socket_close_event = event }
