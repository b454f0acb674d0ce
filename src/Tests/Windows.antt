-- ===== src/Tests/Windows.antt =====
-- A TCP socket on Windows (src/tcp_socket.cpp, src/io_service.cpp under WIN32) at concrete inputs.
use rioring.Prelude.{
  ℕ, suc, ◌==◌, ne→eqb, ◌≡◌, inl, inr, refl, ap, ◌∙◌, true, List, [], ◌∷◌, none, some, done,
  Returns, arith, false,
}
use rioring.IoDoubleBuffer.Valid.{HasRooms, contents}
use rioring.Rio.{RioService, RioTable, invalid_buffer}
use rioring.Rio.Active.{IsRio}
use rioring.Rio.Socket.{RioSession, RioUser, send}
use rioring.Rio.Sending.{buffer_of, IsSending}
use rioring.Rio.Sent.{send_lem}
use rioring.IoDoubleBuffer.{null_double}
use rioring.Rio.Stream.{Link, Reach, here, next, sends, IsRioStream, Reach-IsRioStream}
use rioring.Tests.Fixtures.{heap_of_zeros, heap_of_zeros-IsAllocator, connected}

-- Ids are counted up, and queues are numbered by their sockets.
abbrev pub counting : RioTable
counting = record {
  register = λ ids. elim ids [ [] ↦ 1 | id ∷ rest ↦ 2 ];
  create_queue = λ socket recv send'. suc socket;
  last_error = 10014;
}

counting-given : (ids : List ℕ) → (counting.register ids == invalid_buffer) ≡ false
counting-given [] = refl
counting-given (id ∷ ids) = refl

pub counting-IsRio : IsRio counting
counting-IsRio = record {
  queues = λ socket recv send'. ne→eqb (suc socket) 0 (λ e. omega (arith, e));
  buffers = counting-given;
}

abbrev quiet_user : RioUser
quiet_user = record {
  receive_event = λ addr s. done s;
  send_complete_event = λ s. done s;
  close_event = λ s. done s;
}

abbrev pub one_queue : RioService
one_queue = record {
  io_array = 5 ∷ [];
  context_pool = record { pool = []; created = 0 };
  address_pool = record { pool = []; created = 0 };
  registered = 1 ∷ 2 ∷ [];
  deregistered = [];
  submitted = [];
}

abbrev idle_socket : RioSession
idle_socket = record {
  sock = record {
    object = connected;
    request_queue = 9;
    recv_buffer_id = some 1;
    send_buffer_id = some 2;
    send_bind_buffer = 0 ∷ 0 ∷ 0 ∷ [];
  };
  service = one_queue;
  errors = [];
  closed = [];
}

idle_socket-IsSending : IsSending idle_socket
idle_socket-IsSending = record {
  unlocked = refl;
  ready = record {
    main_valid = record { within = omega arith; whole = refl; steps = inr (omega arith) };
    sub_valid = record { within = omega arith; whole = refl; steps = inl refl };
    able = omega arith;
  };
  front = inr refl;
  flight = inl (refl, refl);
}

abbrev two : List ℕ
two = 10 ∷ 20 ∷ []

idle_socket-HasRooms : HasRooms (buffer_of idle_socket) 2
idle_socket-HasRooms = record {
  main_room = omega arith;
  sub_room = omega arith;
  fresh_room = omega arith;
}

two_sent :
    Returns
      (send counting heap_of_zeros two idle_socket)
      (λ r. (r.0 ≡ true) × IsSending r.1 × (contents (buffer_of r.1) ≡ two))
two_sent =
    send_lem counting heap_of_zeros heap_of_zeros-IsAllocator idle_socket two idle_socket-IsSending
      refl refl refl idle_socket-HasRooms (omega arith)

abbrev start : Link
start = record { session = idle_socket; taken = []; accepted = [] }

two_accepted :
    Reach counting heap_of_zeros quiet_user start
      (record { session = two_sent.0.1; taken = []; accepted = two })
two_accepted = next here (
    sends two two_sent.0.1 refl refl refl idle_socket-HasRooms (omega arith)
      (two_sent.1 ∙ ap (λ b. done (b, two_sent.0.1)) two_sent.2.0))

Reach-IsRioStream_example :
    IsRioStream (record { session = two_sent.0.1; taken = []; accepted = two })
Reach-IsRioStream_example =
    Reach-IsRioStream counting heap_of_zeros heap_of_zeros-IsAllocator quiet_user
      (record { quiet = λ s. refl }) (record { sending = idle_socket-IsSending; whole = refl })
      two_accepted

abbrev pub fresh_socket : RioSession
fresh_socket = record idle_socket {
  sock = record idle_socket.sock {
    object = record connected { send_buffer = null_double; connected_flag = false };
    request_queue = 0;
    recv_buffer_id = none;
    send_buffer_id = none;
  };
}
