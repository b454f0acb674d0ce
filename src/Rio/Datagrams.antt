-- ===== src/Rio/Datagrams.antt =====
-- How a UDP socket gets its SOCKET on Windows, and how a UDP server stops (src/udp_socket.cpp and
-- src/udp_server.cpp under WIN32).
-- The answers of the system calls are parameters.
use rioring.Prelude.{
  ℕ, ◌<◌, ◌≡◌, ◌⊎◌, inl, inr, refl, Bool, true, false, Bool-cases, ◌||◌, ◌++◌, length, not, ◌==◌,
  if◌then◌else◌, Outcome, done, ◌>>=◌, Returns,
}
use rioring.Memory.{Allocator}
use rioring.ObjectBase.{io_error}
use rioring.IoContext.{af_inet6}
use rioring.UdpSocket.{FamilyType, Network, address_family, bound_address}
use rioring.Rio.{RioTable}
use rioring.SocketObject.{graceful}
use rioring.Rio.Socket.{RioSession, with_object, on_active, close, invalid_socket}
use rioring.Rio.Connect.{is_invalid}
use rioring.Rio.Active.{IsRio, RioActivated, on_active_lem}

abbrev pub with_socket : RioSession → ℕ → RioSession
with_socket s fd = with_object s (record s.sock.object { socket_handler = fd })

-- `udp_server::stop` up to its loop, and whether the loop waits on.
pub stop : RioSession → Outcome RioSession
stop s = close graceful s

pub stop_waits : RioSession → Bool
stop_waits s = not (s.sock.object.socket_handler == invalid_socket)

module _ (net : Network) (rio : RioTable) (a : Allocator) where
  pub activate : FamilyType → RioSession → Outcome (Bool × RioSession)
  activate t s =
      let fd = net.socket (address_family t) in
      let s₁ = with_socket s fd in
      let active = on_active rio a s₁ >>= λ s'. done (true, s') in
      if is_invalid fd
      then done (false, s₁)
      else if net.bind_fails fd (bound_address t)
      then done (false, s₁)
      else active

  -- `udp_server::run`.
  pub run : (port : ℕ) → RioSession → Outcome (Bool × RioSession)
  unfolding io_error
  run port s =
      let fd = net.socket af_inet6 in
      let s₁ = with_socket s fd in
      let reported = record s₁ {
        errors = s₁.errors ++ io_error s₁.sock.object.base rio.last_error;
      } in
      let active = on_active rio a s₁ >>= λ s'. done (true, s') in
      if is_invalid fd
      then done (false, reported)
      else if net.bind_fails fd (record { family = af_inet6; host = port })
      then done (false, reported)
      else active

  -- `activate` on a service that runs returns false where a call fails, and has then changed the
  -- SOCKET at most; otherwise the socket is active on the one that was opened.
  pub activate_lem :
      (table : IsRio rio) (t : FamilyType) (s : RioSession)
      → 0 < length s.service.io_array
      → let fd = net.socket (address_family t) in
        Returns (activate t s) (λ r.
          ((r.0 ≡ false)
            × (r.1 ≡ with_socket s fd)
            × ((is_invalid fd || net.bind_fails fd (bound_address t)) ≡ true))
          ⊎ ((r.0 ≡ true)
              × RioActivated a (with_socket s fd) r.1
              × ((is_invalid fd || net.bind_fails fd (bound_address t)) ≡ false)))
  unfolding activate
  activate_lem table t s h =
      let fd = net.socket (address_family t) in
      elim (Bool-cases (is_invalid fd)) [
        | inl bad ↦ ((false, with_socket s fd), rw bad refl, inl (refl, refl, rw bad refl))
        | inr good ↦ elim (Bool-cases (net.bind_fails fd (bound_address t))) [
          | inl used ↦ (
            (false, with_socket s fd),
            rw (good, used) refl,
            inl (refl, refl, rw (good, used) refl),
          )
          | inr free ↦
              let (s', e, v) = on_active_lem rio table a (with_socket s fd) h in
              ((true, s'), rw (good, free) (rw (e, ◌>>=◌)), inr (refl, v, rw (good, free) refl))
        ]
      ]
