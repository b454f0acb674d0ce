-- ===== src/Tests/Chats.antt =====
-- The chat example (examples/chatserver, examples/chatclient) at concrete inputs.
use rioring.Prelude.{
  ℕ, ◌≡◌, inl, inr, refl, ap, ◌∙◌, List, [], ◌∷◌, ◌++◌, map, length, some, replicate,
  length-replicate, done, fault, hang, ◌>>=◌, Returns, arith,
}
use rioring.IoBuffer.{IoBuffer}
use rioring.IoBuffer.Valid
use rioring.Chat.Scheme.{array_size, req_chat, sent_bytes}
use rioring.Chat.Picking.{on_receive, rounds}
use rioring.Chat.Picking.Series.{joined}
use rioring.Chat.Picking.Malformed.{on_receive-fault}
use rioring.Chat.Client.{compose, compose_lem, compose-fault, response_head}
use rioring.Chat.User.{user_receiver, request, request_lem, request_head}
use rioring.Chat.Server.{Client, Hall, server_receiver}
use rioring.Chat.Server.Served.{encode, chats, passed_on, told, passed_on_lem}
use rioring.Chat.Server.Stalled.{server-hang}
use rioring.Chat.Server.Members.{Event, joins, leaves, run_events, count, members_lem}
use rioring.Chat.Talk.{roundtrip}
use rioring.Sockets.{World, tcp_sockets}
use rioring.Tests.Fixtures.{heap_of_zeros, free_rings, connected, one_ring}

abbrev pub alice : Client
alice = record { socket = 3; name = 97 ∷ [] }

abbrev hall : Hall
hall = record { clients = (3, alice) ∷ []; name_id = 2 }

abbrev world : World
world = record { sockets = connected ∷ []; service = one_ring; errors = []; closed = [] }

abbrev pub hi : List ℕ
hi = 104 ∷ 105 ∷ []

-- A buffer that holds some bytes and has no room for more.
abbrev pub full : List ℕ → IoBuffer
full bytes = record {
  raw_buffer = some (record { address = 7; bytes = bytes });
  buffer_size = length bytes;
  block_size = 64;
  buffer_offset = length bytes;
}

abbrev answer : List ℕ
answer = response_head (97 ∷ []) 2 ++ hi

answered : (compose (97 ∷ []) hi >>= λ rc. sent_bytes rc) ≡ done answer
answered =
    let (rc, e, (s, _)) = compose_lem (97 ∷ []) (omega arith) hi (omega arith) in
    ap (λ r. r >>= λ x. sent_bytes x) e ∙ s

roundtrip_example :
    ((b₁ : IoBuffer) × (Valid.contents b₁ ≡ [])
      × (on_receive
            (server_receiver (tcp_sockets free_rings heap_of_zeros) hall alice)
            (full (encode hi))
            world
          ≡ (told (tcp_sockets free_rings heap_of_zeros) hall alice hall.clients answer world
              >>= λ w'. done (b₁, w'))))
    × ((b₂ : IoBuffer) × (Valid.contents b₂ ≡ [])
        × (on_receive user_receiver (full answer) []
            ≡ done (b₂, record { name = 97 ∷ []; text = hi } ∷ [])))
roundtrip_example =
    roundtrip (tcp_sockets free_rings heap_of_zeros) hall alice (omega arith, omega arith)
      (omega arith) hi (encode hi) answer (full (encode hi)) (full answer) world []
      (omega arith, (omega arith, omega arith)) (omega arith) (omega arith) (request_lem hi)
      answered (record { within = omega arith; whole = refl; steps = inr (omega arith) }) refl
      (record { within = omega arith; whole = refl; steps = inr (omega arith) }) refl

request_lem_example : request hi ≡ done (request_head 2 ++ hi)
request_lem_example = request_lem hi

-- Two texts, the second shorter, and the first byte of a third message: the second is passed on with
-- the end of the first.
abbrev two_texts : List (List ℕ)
two_texts = (104 ∷ 101 ∷ 121 ∷ []) ∷ hi ∷ []

two_texts-passed_on : passed_on [] two_texts ≡ (104 ∷ 101 ∷ 121 ∷ []) ∷ (104 ∷ 105 ∷ 121 ∷ []) ∷ []
two_texts-passed_on = refl

passed_on_lem_example :
    (b : IoBuffer) × Valid.IsValid b
    × (Valid.contents b ≡ req_chat ∷ [])
    × ((w : World)
        → on_receive
            (server_receiver (tcp_sockets free_rings heap_of_zeros) hall alice)
            (full (joined (map encode two_texts) (req_chat ∷ [])))
            w
          ≡ (chats (tcp_sockets free_rings heap_of_zeros) hall alice (passed_on [] two_texts) w
              >>= λ w'. done (b, w')))
passed_on_lem_example =
    passed_on_lem (tcp_sockets free_rings heap_of_zeros) hall alice two_texts (req_chat ∷ [])
      (full (joined (map encode two_texts) (req_chat ∷ [])))
      (
        record {
          is_text = (omega arith, (omega arith, (omega arith, omega arith)));
          some_bytes = omega arith;
          short = omega arith;
        },
        (
          record {
            is_text = (omega arith, (omega arith, omega arith));
            some_bytes = omega arith;
            short = omega arith;
          },
          omega arith,
        ),
      )
      (inl (omega arith)) (record { within = omega arith; whole = refl; steps = inr (omega arith) })
      refl

compose_lem_example :
    Returns (compose (97 ∷ []) hi) (λ rc. (sent_bytes rc ≡ done answer) × (length rc ≡ array_size))
compose_lem_example = compose_lem (97 ∷ []) (omega arith) hi (omega arith)

compose-fault_example : compose (97 ∷ []) (replicate 997 1) ≡ fault
compose-fault_example =
    compose-fault (97 ∷ []) (omega arith) (replicate 997 1)
      (omega (arith, length-replicate {A = ℕ} 997 1))

-- A message that announces 1025 bytes, all of which have come.
abbrev oversized : List ℕ
oversized = req_chat ∷ 1 ∷ 4 ∷ replicate 1022 0

on_receive-fault_example :
    on_receive
      (server_receiver (tcp_sockets free_rings heap_of_zeros) hall alice)
      (full oversized)
      world
    ≡ fault
on_receive-fault_example =
    on_receive-fault (server_receiver (tcp_sockets free_rings heap_of_zeros) hall alice)
      (full oversized) world
      (record { within = omega arith; whole = refl; steps = inr (omega arith) }) (omega arith)
      (omega arith)

server-hang_example :
    rounds
      (server_receiver (tcp_sockets free_rings heap_of_zeros) hall alice)
      100
      (replicate array_size 0)
      (full (req_chat ∷ 0 ∷ 0 ∷ []))
      world
    ≡ hang
server-hang_example =
    server-hang (tcp_sockets free_rings heap_of_zeros) hall alice 100 []
      (full (req_chat ∷ 0 ∷ 0 ∷ [])) world
      (record { within = omega arith; whole = refl; steps = inr (omega arith) }) refl

-- A socket comes, goes, and comes again.
abbrev comings : List Event
comings = joins connected ∷ leaves 3 ∷ joins connected ∷ []

members_lem_example :
    count 3 (run_events comings (record { clients = []; name_id = 1 })).clients ≡ 1
members_lem_example = members_lem 3 1 comings
