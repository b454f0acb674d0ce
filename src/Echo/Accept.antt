-- ===== src/Echo/Accept.antt =====
-- A new connection of the echo server: examples/echoserver/main.cpp with src/tcp_server.cpp and
-- src/tcp_socket.cpp.
use rioring.Prelude.{ℕ, ◌≡◌, refl, ap, ◌∙◌, [], length, length-replicate, done, Returns}
use rioring.Memory.{Allocator, IsAllocator}
use rioring.ObjectBase.{ObjectBase}
use rioring.IoContext.{Sockaddr, data_buffer_size}
use rioring.SocketObject.{
  SocketObject, tcp, new_socket, set_remote_info, set_receive_event, set_close_event,
}
use rioring.IoService.{Uring}
use rioring.Session.{Session, on_active}
use rioring.Session.Requests.{IsUring, HasRings}
use rioring.Session.Sending.{pending, reads}
use rioring.Session.Active.{Activated, on_active_lem}
use rioring.TcpServer.Accepted.{IsSetup}
use rioring.Echo.{EventReceiver, on_accept_client}
use rioring.Echo.Stream.{IsMirror}

-- `on_accept_client` is a callback for new connections that sets callbacks and no more.
pub on_accept_client-IsSetup :
    (r : EventReceiver) → IsSetup (λ o s. done ((on_accept_client o r).0, s))
unfolding on_accept_client set_receive_event set_close_event
on_accept_client-IsSetup r = record { sets = λ o s. ((on_accept_client o r).0, refl, refl) }

-- A socket as `tcp_server::io_accepting` makes it and `on_accept_client` leaves it.
abbrev pub accepted_socket : ObjectBase → ℕ → Sockaddr → EventReceiver → SocketObject
accepted_socket base fd addr r =
    (on_accept_client (set_remote_info (new_socket base tcp fd) addr) r).0

Activated-IsMirror :
    (base : ObjectBase) (fd : ℕ) (addr : Sockaddr) (r : EventReceiver) (s s' : Session)
    → s.sock ≡ accepted_socket base fd addr r
    → Activated s s'
    → IsMirror (record { session = s'; received = []; returned = [] })
unfolding on_accept_client new_socket set_remote_info set_receive_event set_close_event
Activated-IsMirror base fd addr r s s' same w =
    let o = w.only_buffers in
    record {
      echo = record {
        sending = w.sending;
        receiving = record {
          valid = w.recv_valid;
          able = w.recv_able;
          whole =
              ap (λ (x : SocketObject). length x.recv_bind_buffer) o
              ∙ (ap (λ (x : SocketObject). length x.recv_bind_buffer) same
                  ∙ length-replicate {A = ℕ} data_buffer_size 0);
        };
        connected = w.connected;
        open' =
            ap (λ (x : SocketObject). x.shutdown_gracefully) o
            ∙ ap (λ (x : SocketObject). x.shutdown_gracefully) same;
        heard =
            ap (λ (x : SocketObject). x.recv_event) o
            ∙ ap (λ (x : SocketObject). x.recv_event) same;
        drained = w.recv_empty;
        reading = (w.request, w.reading, w.len);
      };
      whole = w.nothing;
    }

-- A connection that the server has just accepted, and that nothing has been requested for, becomes
-- active as a connection of the echo server with no bytes yet: the state in which `Echo.Stream` takes
-- it up.
pub accepted_lem :
    (u : Uring) (f : IsUring u) (a : Allocator) (m : IsAllocator a) (base : ObjectBase) (fd : ℕ)
    (addr : Sockaddr) (r : EventReceiver) (s : Session)
    → s.sock ≡ accepted_socket base fd addr r
    → HasRings s.service
    → pending s ≡ []
    → reads s ≡ []
    → Returns
        (on_active u a s)
        (λ s'. IsMirror (record { session = s'; received = []; returned = [] }))
unfolding on_accept_client new_socket set_remote_info set_receive_event set_close_event
accepted_lem u f a m base fd addr r s same h p q =
    let (s', e, w) =
      on_active_lem u f a s m (ap (λ (x : SocketObject). x.socket_type) same)
        (ap (λ (x : SocketObject). x.lock) same) h (ap (λ (x : SocketObject). x.send_buffer) same) p
        q in
    (s', e, Activated-IsMirror base fd addr r s s' same w)
