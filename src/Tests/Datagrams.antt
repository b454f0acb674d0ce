-- ===== src/Tests/Datagrams.antt =====
-- UDP sockets (src/udp_socket.cpp) at concrete inputs.
use rioring.Prelude.{
  ℕ, ◌≡◌, ◌⊎◌, inl, inr, refl, true, false, List, [], ◌∷◌, some, done, fault, replicate,
  length-replicate, Returns, arith, ◌==◌, not,
}
use rioring.IoDoubleBuffer.{null_double}
use rioring.IoContext.{Sockaddr, af_inet, af_inet6}
use rioring.SocketObject.{udp}
use rioring.Session.{Session, send_to, address_length}
use rioring.UdpSocket.{Network, ipv4, with_handler, activate}
use rioring.UdpSocket.Activate.{Started, activate_fails, activate_lem}
use rioring.UdpSocket.Datagrams.{IsIdle, Datagram, SameReceived, send_to_lem}
use rioring.IoBuffer.Valid
use rioring.UdpEcho.{on_recv_from, on_recv_from_lem, on_recv_from-fault}
use rioring.Tests.Fixtures.{
  heap_of_zeros, heap_of_zeros-IsAllocator, free_rings, free_rings-IsUring, two_waiting, connected,
  idle,
}

abbrev datagrams : Session
datagrams = record idle { sock = record connected { socket_type = udp; connected_flag = false } }

abbrev two : List ℕ
two = 10 ∷ 20 ∷ []

abbrev peer : Sockaddr
peer = record { family = af_inet; host = 77 }

datagrams-IsIdle : IsIdle datagrams
datagrams-IsIdle = record {
  kind = refl;
  unlocked = refl;
  rings = (omega arith, omega arith);
  ready = record {
    main_valid = record { within = omega arith; whole = refl; steps = inr (omega arith) };
    sub_valid = record { within = omega arith; whole = refl; steps = inl refl };
    able = omega arith;
  };
  front = inr refl;
  idle = refl;
}

known : (address_length peer.family == 0) ≡ false
unfolding address_length
known = refl

send_to_lem_example : Returns (send_to free_rings heap_of_zeros two (some peer) datagrams) (λ r.
    (r.0 ≡ true)
    × (r.1.sock.lock ≡ false)
    × Datagram two peer datagrams r.1
    × SameReceived datagrams r.1)
send_to_lem_example =
    send_to_lem free_rings free_rings-IsUring heap_of_zeros heap_of_zeros-IsAllocator two peer
      datagrams datagrams-IsIdle
      (record { main_room = omega arith; sub_room = omega arith; fresh_room = omega arith }) known

-- The same socket when the two bytes have come.
abbrev asked : Session
asked = record datagrams { sock = record datagrams.sock { recv_buffer = two_waiting } }

on_recv_from_lem_example :
    Returns
      (on_recv_from free_rings heap_of_zeros peer asked)
      (λ s'. (Valid.contents s'.sock.recv_buffer ≡ []) × Datagram two peer asked s')
on_recv_from_lem_example =
    on_recv_from_lem free_rings heap_of_zeros free_rings-IsUring heap_of_zeros-IsAllocator peer
      asked
      (record {
        kind = refl;
        unlocked = refl;
        rings = datagrams-IsIdle.rings;
        ready = datagrams-IsIdle.ready;
        front = datagrams-IsIdle.front;
        idle = refl;
      })
      (record { within = omega arith; whole = refl; steps = inr (omega arith) }) (omega arith)
      (record { main_room = omega arith; sub_room = omega arith; fresh_room = omega arith }) known

-- A datagram of 600 bytes.
abbrev flooded : Session
flooded = record datagrams {
  sock = record datagrams.sock {
    recv_buffer = record {
      raw_buffer = some (record { address = 7; bytes = replicate 600 1 });
      buffer_size = 600;
      block_size = 600;
      buffer_offset = 600;
    };
  };
}

on_recv_from-fault_example : on_recv_from free_rings heap_of_zeros peer flooded ≡ fault
on_recv_from-fault_example =
    on_recv_from-fault free_rings heap_of_zeros peer flooded
      (record {
        within = omega arith;
        whole = length-replicate {A = ℕ} 600 1;
        steps = inr (omega arith);
      })
      (omega arith)

-- Descriptor 4, and a `bind` that takes only addresses of the socket's own family.
abbrev strict : Network
strict = record {
  socket = λ family. 4;
  bind_fails = λ fd addr. not (addr.family == af_inet6);
  errno = 97;
}

abbrev new_udp : Session
new_udp = record datagrams { sock = record datagrams.sock { send_buffer = null_double } }

activate_lem_example :
    ((activate_fails strict ipv4 ≡ true)
      × (activate strict free_rings heap_of_zeros ipv4 new_udp
          ≡ done (false, with_handler new_udp 4)))
    ⊎ ((activate_fails strict ipv4 ≡ false)
        × Returns
            (activate strict free_rings heap_of_zeros ipv4 new_udp)
            (λ r. (r.0 ≡ true) × Started (with_handler new_udp 4) r.1))
activate_lem_example =
    activate_lem free_rings free_rings-IsUring heap_of_zeros heap_of_zeros-IsAllocator strict ipv4
      new_udp refl (omega arith, omega arith) refl
