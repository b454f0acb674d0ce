-- ===== src/Tests/WindowsClients.antt =====
-- Connecting on Windows (src/tcp_socket.cpp under WIN32) at concrete inputs.
use rioring.Prelude.{◌⊎◌, refl, some, Returns, arith}
use rioring.Rio.Socket.{RioSession, invalid_socket}
use rioring.Rio.Connect.{connect, RioRefused, RioConnected, rio_connect_lem}
use rioring.Tests.Fixtures.{heap_of_zeros, heap_of_zeros-IsAllocator}
use rioring.Tests.Connecting.{found, second_accepts}
use rioring.Tests.Windows.{counting, counting-IsRio, fresh_socket}

abbrev unconnected : RioSession
unconnected = record fresh_socket {
  sock = record fresh_socket.sock {
    object = record fresh_socket.sock.object { socket_handler = invalid_socket };
  };
}

rio_connect_lem_example :
    Returns (connect second_accepts counting heap_of_zeros (some found) unconnected) (λ r.
      RioRefused second_accepts found unconnected r
      ⊎ RioConnected second_accepts found unconnected r)
rio_connect_lem_example =
    rio_connect_lem second_accepts counting counting-IsRio heap_of_zeros heap_of_zeros-IsAllocator
      found unconnected refl refl refl refl (omega arith) refl
