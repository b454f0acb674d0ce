-- ===== src/Tests/Sockets.antt =====
-- Sockets (src/tcp_socket.cpp, src/socket_object.cpp, src/io_service.cpp) at concrete inputs.
use rioring.Prelude.{
  ℕ, ◌<◌, ◌≤◌, ◌≡◌, inl, inr, refl, true, false, List, [], ◌∷◌, ◌++◌, none, some, drop, Outcome,
  done, Returns, arith,
}
use rioring.IoBuffer.{null_buffer}
use rioring.IoDoubleBuffer.{null_double}
use rioring.IoDoubleBuffer.Valid.{HasRooms}
use rioring.IoContext.{IoContext, IoType, tcp_context, heap, null, no_address, recv_bind}
use rioring.IoService.{Submission, prep_writev, submit, allocate_context, deallocate_context}
use rioring.Session.{Session, close, send, io_sent, on_active}
use rioring.Session.Sending.{IsSending, Queueing}
use rioring.Session.Send.{send_lem}
use rioring.Session.Sent.{Progress, io_sent_lem}
use rioring.Completion.{pos, complete}
use rioring.Completion.Stream.{
  Link, Reach, IsStream, Reach-IsStream, sends, wrote, here, next, given_back,
}
use rioring.Tests.Fixtures.{
  sending_two-IsReady, sending_none-IsReady, heap_of_zeros, heap_of_zeros-IsAllocator, free_rings,
  free_rings-IsUring, idle_user, idle_user-IsPassive, two_waiting, sending_two, one_ring, connected,
  idle,
}

pub idle-IsSending : IsSending idle
idle-IsSending = record {
  is_tcp = refl;
  unlocked = refl;
  rings = (omega arith, omega arith);
  ready = sending_none-IsReady;
  front = inr refl;
  flight = inl (refl, refl);
}

abbrev two : List ℕ
two = 10 ∷ 20 ∷ []

idle-HasRooms : HasRooms idle.sock.send_buffer 2
idle-HasRooms = record { main_room = omega arith; sub_room = omega arith; fresh_room = omega arith }

send_lem_example :
    Returns
      (send free_rings heap_of_zeros two idle)
      (λ r. (r.0 ≡ true) × Queueing idle two r.1 × IsSending r.1)
send_lem_example =
    send_lem free_rings free_rings-IsUring heap_of_zeros heap_of_zeros-IsAllocator idle two
      idle-IsSending refl refl idle-HasRooms (omega arith)

-- The socket is closing gracefully, and the one write that was outstanding has completed.
abbrev closing : Session
closing = record idle {
  sock = record connected { send_buffer = sending_two; shutdown_gracefully = true };
}

io_sent_lem_example :
    Returns
      (io_sent free_rings heap_of_zeros idle_user 2 no_address closing)
      (λ s'. Progress closing [] s' × IsSending s')
io_sent_lem_example =
    io_sent_lem free_rings free_rings-IsUring heap_of_zeros idle_user idle_user-IsPassive 2
      no_address closing refl refl (omega arith, omega arith) sending_two-IsReady refl (omega arith)

-- A socket that has just been accepted.
abbrev accepted : Session
accepted = record idle {
  sock = record connected { send_buffer = null_double; connected_flag = false };
}

abbrev start : Link
start = record { session = idle; taken = []; accepted = [] }

start-IsStream : IsStream start
start-IsStream = record { sending = idle-IsSending; whole = refl }

-- Two bytes are accepted; the kernel takes one of them, and is asked to take the other.
abbrev asked : ℕ → ℕ → IoContext
asked ident n = record {
  ident = ident;
  io_type = IoType.write;
  ctype = tcp_context;
  iov_base = heap (some 7);
  iov_len = n;
  handler = some 3;
  msg_iovlen = 0;
  msg_namelen = 128;
  addr = no_address;
}

abbrev entry : ℕ → ℕ → Submission
entry ident n = record { ring = 5; sqe = prep_writev 9; ctx = asked ident n }

abbrev sent : Session
sent = record idle {
  sock = record connected { send_buffer = sending_two };
  service = record one_ring {
    context_pool = record { pool = []; created = 1 };
    submitted = entry 0 2 ∷ [];
  };
}

send-two : send free_rings heap_of_zeros two idle ≡ done (true, sent)
unfolding send rioring.Session.queue_and_send rioring.IoDoubleBuffer.push rioring.IoBuffer.push
    rioring.IoBuffer.reserve rioring.Prelude.add_size rioring.Memory.write_bytes
    rioring.Session.submit_sending submit allocate_context rioring.SimplePool.pop
    rioring.IoContext.new_context
send-two = refl

-- One byte is left, moved to the front of the block.
abbrev half_sent : Session
half_sent = record idle {
  sock = record connected {
    send_buffer = record sending_two {
      main_buffer = record two_waiting {
        raw_buffer = some (record { address = 7; bytes = 20 ∷ 20 ∷ 0 ∷ 0 ∷ [] });
        buffer_offset = 1;
      };
    };
  };
  service = record one_ring {
    context_pool = record {
      pool = record (asked 0 2) { handler = none; iov_base = null; iov_len = 0 } ∷ [];
      created = 2;
    };
    thread_ring = some 5;
    submitted = entry 1 1 ∷ [];
  };
}

take_one :
    complete free_rings heap_of_zeros idle_user (asked 0 2) (pos 1) (given_back sent 5 [])
    ≡ done half_sent
unfolding complete rioring.Completion.dispatch io_sent rioring.Session.take_sent
    rioring.IoDoubleBuffer.pop rioring.IoBuffer.pop rioring.Memory.read_bytes
    rioring.Memory.write_bytes rioring.Session.after_sent rioring.IoDoubleBuffer.elevate
    rioring.Session.submit_sending submit allocate_context deallocate_context
    rioring.SimplePool.push rioring.SimplePool.pop rioring.IoContext.new_context
take_one = refl

one_and_one :
    Reach free_rings heap_of_zeros idle_user start
      (record { session = half_sent; taken = 10 ∷ []; accepted = two })
one_and_one =
    next (next here (sends two sent refl refl idle-HasRooms (omega arith) send-two))
      (wrote [] [] (entry 0 2) 0 half_sent refl refl refl (omega arith) take_one)

Reach-IsStream_example : IsStream (record { session = half_sent; taken = 10 ∷ []; accepted = two })
Reach-IsStream_example =
    Reach-IsStream free_rings free_rings-IsUring heap_of_zeros heap_of_zeros-IsAllocator idle_user
      idle_user-IsPassive start-IsStream one_and_one
