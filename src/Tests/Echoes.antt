-- ===== src/Tests/Echoes.antt =====
-- The echo server (examples/echoserver/main.cpp) at concrete inputs.
use rioring.Prelude.{
  ℕ, inl, inr, refl, true, false, List, [], ◌∷◌, replicate, length-replicate, some, Returns, arith,
}
use rioring.IoContext.{IoContext, IoType, tcp_context, recv_bind, no_address, data_buffer_size}
use rioring.IoDoubleBuffer.Valid.{HasRooms}
use rioring.IoService.{Submission, prep_readv}
use rioring.Session.{Session, on_active}
use rioring.Completion.{pos, complete}
use rioring.Completion.Stream.{given_back}
use rioring.Echo.{echo_user}
use rioring.Echo.Arrival.{IsEcho, filled, Arrived, arrived_lem}
use rioring.Echo.Stream.{Connection, Reach, here, next, arrives, IsMirror, Reach-IsMirror}
use rioring.Echo.Accept.{accepted_socket, accepted_lem}
use rioring.Tests.Fixtures.{
  heap_of_zeros, heap_of_zeros-IsAllocator, free_rings, free_rings-IsUring, none_waiting, one_ring,
  connected, idle,
}

abbrev asked : IoContext
asked = record {
  ident = 0;
  io_type = IoType.read;
  ctype = tcp_context;
  iov_base = recv_bind;
  iov_len = data_buffer_size;
  handler = some 3;
  msg_iovlen = 0;
  msg_namelen = 128;
  addr = no_address;
}

abbrev entry : Submission
entry = record { ring = 5; sqe = prep_readv 9; ctx = asked }

-- An accepted socket whose read is outstanding.
abbrev listening : Session
listening = record idle {
  sock = record connected {
    recv_buffer = none_waiting;
    recv_bind_buffer = replicate data_buffer_size 0;
    recv_event = true;
  };
  service = record one_ring { submitted = entry ∷ [] };
}

listening-IsEcho : IsEcho listening
listening-IsEcho = record {
  sending = record {
    is_tcp = refl;
    unlocked = refl;
    rings = (omega arith, omega arith);
    ready = record {
      main_valid = record { within = omega arith; whole = refl; steps = inr (omega arith) };
      sub_valid = record { within = omega arith; whole = refl; steps = inl refl };
      able = omega arith;
    };
    front = inr refl;
    flight = inl (refl, refl);
  };
  receiving = record {
    valid = record { within = omega arith; whole = refl; steps = inr (omega arith) };
    able = omega arith;
    whole = length-replicate {A = ℕ} data_buffer_size 0;
  };
  connected = refl;
  open' = refl;
  heard = refl;
  drained = refl;
  reading = (asked, refl, refl);
}

abbrev two : List ℕ
two = 10 ∷ 20 ∷ []

listening-HasRooms : HasRooms listening.sock.send_buffer 2
listening-HasRooms = record {
  main_room = omega arith;
  sub_room = omega arith;
  fresh_room = omega arith;
}

arrived_lem_example :
    Returns
      (complete free_rings heap_of_zeros
        (echo_user free_rings heap_of_zeros)
        asked
        (pos 2)
        (given_back (filled listening two) 5 []))
      (Arrived two listening)
arrived_lem_example =
    arrived_lem free_rings free_rings-IsUring heap_of_zeros heap_of_zeros-IsAllocator listening []
      [] entry two 1 listening-IsEcho refl refl refl refl (omega arith) (omega arith)
      listening-HasRooms

two_read :
    Returns
      (complete free_rings heap_of_zeros
        (echo_user free_rings heap_of_zeros)
        asked
        (pos 2)
        (given_back (filled listening two) 5 []))
      (Arrived two listening)
two_read =
    arrived_lem free_rings free_rings-IsUring heap_of_zeros heap_of_zeros-IsAllocator listening []
      [] entry two 1 listening-IsEcho refl refl refl refl (omega arith) (omega arith)
      listening-HasRooms

abbrev start : Connection
start = record { session = listening; received = []; returned = [] }

two_arrived :
    Reach free_rings heap_of_zeros start
      (record { session = two_read.0; received = two; returned = [] })
two_arrived = next here (
    arrives [] [] entry two 1 two_read.0 refl refl refl refl (omega arith) (omega arith)
      listening-HasRooms two_read.1)

Reach-IsMirror_example : IsMirror (record { session = two_read.0; received = two; returned = [] })
Reach-IsMirror_example =
    Reach-IsMirror free_rings free_rings-IsUring heap_of_zeros heap_of_zeros-IsAllocator
      (record { echo = listening-IsEcho; whole = refl }) two_arrived

-- A socket that has just been accepted, with number 3 and descriptor 9.
abbrev new_connection : Session
new_connection = record idle {
  sock =
      accepted_socket (record { obj_id = 3; error_event = false }) 9 no_address
        (record { activating_sockets = [] });
}

accepted_lem_example :
    Returns
      (on_active free_rings heap_of_zeros new_connection)
      (λ s'. IsMirror (record { session = s'; received = []; returned = [] }))
accepted_lem_example =
    accepted_lem free_rings free_rings-IsUring heap_of_zeros heap_of_zeros-IsAllocator
      (record { obj_id = 3; error_event = false }) 9 no_address (record { activating_sockets = [] })
      new_connection refl (omega arith, omega arith) refl refl
