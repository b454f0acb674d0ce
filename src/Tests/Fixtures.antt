-- ===== src/Tests/Fixtures.antt =====
-- What the examples run on: an allocator, a kernel, a user who does nothing, and a small session.
use rioring.Prelude.{
  inl, inr, ℕ, refl, ◌∙◌, true, false, [], ◌∷◌, ◌++◌, none, some, length, take, replicate, done,
  arith, length-take, length-append, length-replicate, take-take, take-append_length,
}
use rioring.Memory.{Allocator, IsAllocator, bytes_of}
use rioring.IoBuffer.{IoBuffer, null_buffer}
use rioring.IoDoubleBuffer.{IoDoubleBuffer}
use rioring.IoDoubleBuffer.Valid.{IsReady}
use rioring.IoContext.{no_address}
use rioring.SocketObject.{SocketObject, tcp, blank}
use rioring.IoService.{IoService, Uring}
use rioring.Session.{Session, UserCode}
use rioring.Session.Requests.{IsUring}
use rioring.Session.Shutdowns.{IsPassive}

-- Fresh blocks of zeros at 1000, and grown ones at 2000.
abbrev pub heap_of_zeros : Allocator
heap_of_zeros = record {
  malloc = λ n. record { address = 1000; bytes = replicate n 0 };
  realloc = λ p n. record { address = 2000; bytes = take n (bytes_of p ++ replicate n 0) };
}

pub heap_of_zeros-IsAllocator : IsAllocator heap_of_zeros
heap_of_zeros-IsAllocator = record {
  malloc_size = λ n. length-replicate {A = ℕ} n 0;
  realloc_size = λ p n. omega (
    arith,
    length-take n (bytes_of p ++ replicate n 0),
    length-append (bytes_of p) (replicate n 0),
    length-replicate {A = ℕ} n 0,
  );
  realloc_keeps = λ p n h.
      take-take (length (bytes_of p)) n (bytes_of p ++ replicate n 0) h
      ∙ take-append_length (bytes_of p) (replicate n 0);
}

-- Rings with a free entry at any time, and draws that give the least number.
abbrev pub free_rings : Uring
free_rings = record { get_sqe = λ ring es. true; random = λ es begin end'. begin }

pub free_rings-IsUring : IsUring free_rings
free_rings-IsUring = record { free = λ ring es. refl; draws = λ es b e h. h }

abbrev pub idle_user : UserCode
idle_user = record {
  receive_event = λ addr s. done s;
  send_complete_event = λ s. done s;
  close_event = λ s. done s;
}

pub idle_user-IsPassive : IsPassive idle_user
idle_user-IsPassive = record { quiet = λ s. (s, refl, (refl, refl)) }

-- A block of four bytes, of which two wait.
abbrev pub two_waiting : IoBuffer
two_waiting = record {
  raw_buffer = some (record { address = 7; bytes = 10 ∷ 20 ∷ 0 ∷ 0 ∷ [] });
  buffer_size = 4;
  block_size = 4;
  buffer_offset = 2;
}

abbrev pub none_waiting : IoBuffer
none_waiting = record two_waiting { buffer_offset = 0 }

abbrev pub sending_two : IoDoubleBuffer
sending_two = record { main_buffer = two_waiting; sub_buffer = null_buffer }

abbrev pub sending_none : IoDoubleBuffer
sending_none = record { main_buffer = none_waiting; sub_buffer = null_buffer }

pub sending_two-IsReady : IsReady sending_two
sending_two-IsReady = record {
  main_valid = record { within = omega arith; whole = refl; steps = inr (omega arith) };
  sub_valid = record { within = omega arith; whole = refl; steps = inl refl };
  able = omega arith;
}

pub sending_none-IsReady : IsReady sending_none
sending_none-IsReady = record {
  main_valid = record { within = omega arith; whole = refl; steps = inr (omega arith) };
  sub_valid = record { within = omega arith; whole = refl; steps = inl refl };
  able = omega arith;
}

abbrev pub one_ring : IoService
one_ring = record {
  io_array = 5 ∷ [];
  context_pool = record { pool = []; created = 0 };
  thread_ring = none;
  submitted = [];
}

-- A connected TCP socket, with an event for completed sends, that has nothing to send.
abbrev pub connected : SocketObject
connected = record {
  base = record { obj_id = 3; error_event = true };
  socket_handler = 9;
  addr_storage = no_address;
  recv_bind_buffer = [];
  socket_type = tcp;
  shutdown_gracefully = false;
  remote_port_number = none;
  remote_v4_addr_string = blank;
  remote_v6_addr_string = blank;
  user_data = none;
  lock = false;
  recv_buffer = null_buffer;
  send_buffer = sending_none;
  recv_event = false;
  send_complete_event = true;
  socket_close_event = false;
  connected_flag = true;
}

abbrev pub idle : Session
idle = record { sock = connected; service = one_ring; errors = []; closed = [] }
