-- ===== src/Tests/Rooms.antt =====
-- The pool of the chat server on sockets of the library (examples/chatserver/pool.cpp,
-- src/tcp_socket.cpp) at concrete inputs.
use rioring.Prelude.{ℕ, inr, refl, List, [], ◌∷◌, ◌++◌, ◌≡◌, inl, length, Pointwise, Returns, arith}
use rioring.IoBuffer.Valid
use rioring.IoDoubleBuffer.Valid.{HasRooms}
use rioring.SocketObject.{SocketObject}
use rioring.Chat.Client.{response_head}
use rioring.Chat.Picking.{on_receive}
use rioring.Chat.Server.{Client, Hall, leave_all, server_receiver}
use rioring.Chat.Server.Served.{encode}
use rioring.Chat.Broadcast.{IsPool, said_lem, leave_all_lem}
use rioring.Sockets.{World, tcp_sockets}
use rioring.Session.Sending.{IsSending}
use rioring.Sockets.Others.{session_of}
use rioring.Sockets.Calls.{IsInOrder}
use rioring.Sockets.Series.{Each}
use rioring.Sockets.Methods.{Queued, Left, shutdowns_of}
use rioring.Tests.Fixtures.{
  heap_of_zeros, heap_of_zeros-IsAllocator, free_rings, free_rings-IsUring, connected, one_ring,
  sending_none-IsReady,
}
use rioring.Tests.Chats.{alice, hi, full}

-- Three sockets, of which the first two are those of clients.
abbrev numbered : ℕ → SocketObject
numbered k = record connected { base = record connected.base { obj_id = k } }

abbrev three : World
three = record {
  sockets = connected ∷ numbered 5 ∷ numbered 8 ∷ [];
  service = one_ring;
  errors = [];
  closed = [];
}

abbrev bob : Client
bob = record { socket = 5; name = 98 ∷ [] }

abbrev room : Hall
room = record { clients = (3, alice) ∷ (5, bob) ∷ []; name_id = 3 }

numbered-IsSending : (k : ℕ) → IsSending (session_of three (numbered k))
numbered-IsSending k = record {
  is_tcp = refl;
  unlocked = refl;
  rings = (omega arith, omega arith);
  ready = sending_none-IsReady;
  front = inr refl;
  flight = inl (refl, refl);
}

three-IsInOrder : IsInOrder three
three-IsInOrder = record {
  distinct = (refl, (refl, (refl, tt)));
  each = (numbered-IsSending 3, (numbered-IsSending 5, (numbered-IsSending 8, tt)));
}

room-IsPool : IsPool room three
room-IsPool = record { own = (refl, (refl, tt)); known = (refl, (refl, tt)) }

abbrev answer : List ℕ
answer = response_head (97 ∷ []) 2 ++ hi

numbered-HasRooms : HasRooms connected.send_buffer (length answer)
numbered-HasRooms = record {
  main_room = omega arith;
  sub_room = omega arith;
  fresh_room = omega arith;
}

said_lem_example :
    Returns
      (on_receive
        (server_receiver (tcp_sockets free_rings heap_of_zeros) room alice)
        (full (encode hi))
        three)
      (λ r.
        (Valid.contents r.0 ≡ [])
        × IsInOrder r.1
        × Pointwise
            (Each (λ s s'. Queued answer s.sock s'.sock) (3 ∷ 5 ∷ []) three r.1)
            three.sockets
            r.1.sockets)
said_lem_example =
    said_lem free_rings free_rings-IsUring heap_of_zeros heap_of_zeros-IsAllocator room alice hi
      (full (encode hi)) three (omega arith, omega arith) (omega arith)
      (omega arith, (omega arith, omega arith)) (omega arith) (omega arith)
      (record { within = omega arith; whole = refl; steps = inr (omega arith) }) refl room-IsPool
      three-IsInOrder
      (λ i o. numbered-HasRooms, (λ i o. numbered-HasRooms, (λ i o. numbered-HasRooms, tt)))

leave_all_lem_example :
    Returns (leave_all (tcp_sockets free_rings heap_of_zeros) room.clients three) (λ w'.
      IsInOrder w'
      × Pointwise
          (Each
            (λ s s'. Left s.sock s'.sock (shutdowns_of s) (shutdowns_of s'))
            (3 ∷ 5 ∷ [])
            three
            w')
          three.sockets
          w'.sockets)
leave_all_lem_example =
    leave_all_lem free_rings free_rings-IsUring heap_of_zeros heap_of_zeros-IsAllocator room three
      room-IsPool three-IsInOrder
