-- ===== src/UdpSocket.antt =====
-- src/udp_socket.cpp and src/udp_server.cpp (the Linux parts): how a UDP socket gets its descriptor.
-- The answers of the system calls are parameters. What it sends and receives is in Session.antt.
pub mod Activate
pub mod Datagrams
pub mod Stopped
use rioring.Prelude.{
  ℕ, ◌^◌, ◌-◌, Bool, true, false, not, ◌++◌, ◌==◌, if◌then◌else◌, Outcome, done, ◌>>=◌,
}
use rioring.Memory.{Allocator}
use rioring.ObjectBase.{io_error}
use rioring.IoContext.{Sockaddr, af_inet, af_inet6}
use rioring.SocketObject.{is_negative, graceful}
use rioring.IoService.{Uring}
use rioring.Session.{Session, with_sock, on_active, close}

pub data FamilyType : Type 0 where
  ipv4 ipv6 : FamilyType

-- What `socket` answers for a family, whether `bind` fails, and `errno` where one does.
pub record Network : Type 0 where
  pub socket : ℕ → ℕ
  pub bind_fails : ℕ → Sockaddr → Bool
  pub errno : ℕ

-- The local variable `af`.
abbrev pub address_family : FamilyType → ℕ
address_family ipv4 = af_inet
address_family ipv6 = af_inet6

-- The address that `activate` binds: any port and host, and the family that is written into it.
pub bound_address : FamilyType → Sockaddr
bound_address ipv4 = record { family = af_inet; host = 0 }
bound_address ipv6 = record { family = af_inet; host = 0 }

abbrev pub with_handler : Session → ℕ → Session
with_handler s fd = with_sock s (record s.sock { socket_handler = fd })

-- `udp_server::stop` up to its loop, and whether the loop waits on.
pub stop : Uring → Session → Outcome Session
stop u s = close u graceful s

unfoldable pub stop_waits : Session → Bool
stop_waits s = not (s.sock.socket_handler == 0)

module _ (net : Network) (u : Uring) (a : Allocator) where
  unfoldable pub activate : FamilyType → Session → Outcome (Bool × Session)
  unfolding bound_address
  activate t s =
      let fd = net.socket (address_family t) in
      let s₁ = with_handler s fd in
      let active = on_active u a s₁ >>= λ s'. done (true, s') in
      if is_negative fd
      then done (false, s₁)
      else if net.bind_fails fd (bound_address t)
      then done (false, s₁)
      else active

  -- `udp_server::run`; `port` stands for the address of that port on every host.
  unfoldable pub run : (port : ℕ) → Session → Outcome (Bool × Session)
  unfolding io_error
  run port s =
      let fd = net.socket af_inet6 in
      let s₁ = with_handler s fd in
      let reported = record s₁ { errors = s₁.errors ++ io_error s₁.sock.base net.errno } in
      let active = on_active u a s₁ >>= λ s'. done (true, s') in
      if fd == 2 ^ 32 - 1
      then done (false, reported)
      else if net.bind_fails fd (record { family = af_inet6; host = port })
      then done (false, reported)
      else active
