-- ===== src/Tests/Connecting.antt =====
-- Name resolution and connecting (src/include/rioring/address_resolver.h, src/tcp_socket.cpp) at
-- concrete inputs.
use rioring.Prelude.{ℕ, ◌+◌, ◌⊎◌, refl, false, List, [], ◌∷◌, some, Returns, arith, ◌==◌}
use rioring.IoDoubleBuffer.{null_double}
use rioring.IoContext.{af_inet, af_inet6}
use rioring.AddressResolver.{AddrInfo}
use rioring.Session.{Session}
use rioring.Connect.{Network, connect}
use rioring.Connect.Connected.{IsUnused, Refused, Connected, connect_lem}
use rioring.Tests.Fixtures.{
  heap_of_zeros, heap_of_zeros-IsAllocator, free_rings, free_rings-IsUring, connected, idle,
}

abbrev entry_of : ℕ → ℕ → AddrInfo
entry_of family host = record {
  ai_family = family;
  ai_addr = record { family = family; host = host };
}

abbrev pub found : List AddrInfo
found = entry_of af_inet 1 ∷ entry_of af_inet6 2 ∷ entry_of af_inet6 3 ∷ []

-- The first address refuses, and the second accepts.
abbrev pub second_accepts : Network
second_accepts = record { socket = λ i a. i + 5; connects = λ i a. i == 1 }

abbrev unused : Session
unused = record idle {
  sock = record connected { socket_handler = 0; send_buffer = null_double; connected_flag = false };
}

unused-IsUnused : IsUnused unused
unused-IsUnused = record {
  is_tcp = refl;
  unlocked = refl;
  rings = (omega arith, omega arith);
  unassigned = refl;
  no_write = refl;
  no_read = refl;
  no_descriptor = refl;
}

connect_lem_example :
    Returns
      (connect second_accepts free_rings heap_of_zeros (some found) unused)
      (λ r. Refused second_accepts found unused r ⊎ Connected second_accepts found unused r)
connect_lem_example =
    connect_lem second_accepts free_rings free_rings-IsUring heap_of_zeros heap_of_zeros-IsAllocator
      found unused unused-IsUnused (λ i b. omega arith)
