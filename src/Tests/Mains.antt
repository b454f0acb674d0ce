-- ===== src/Tests/Mains.antt =====
-- The main function of the chat server (examples/chatserver/main.cpp) at a concrete input.
use rioring.Prelude.{◌≡◌, refl, Bool, true, [], ◌∷◌, Outcome, done, Returns}
use rioring.Sockets.{World, tcp_sockets}
use rioring.Chat.Server.{Hall, leave_all}
use rioring.Programs.{Ending, Meanwhile, Program, with_events, server_main}
use rioring.Programs.Aborted.{exit_unopened, unopened_lem}
use rioring.Tests.Fixtures.{heap_of_zeros, free_rings}
use rioring.Tests.Servers.{before_run, port_in_use}

-- Nothing happens while the server waits.
abbrev nothing_happens : Meanwhile (Program Hall)
nothing_happens = record { serving = λ p. done p; until = λ test p. done p }

abbrev leaves : Hall → World → Outcome World
leaves h = leave_all (tcp_sockets free_rings heap_of_zeros) h.clients

-- Every ring has an entry, and every thread ends.
abbrev all_end : Ending
all_end = record { get_sqe = λ ring. true; ends = λ i. true }

abbrev nobody_left : Hall → Bool
nobody_left h = true

abbrev chat_server : Program Hall
chat_server = record {
  threads = 0;
  acceptor = before_run;
  sockets = [];
  members = record { clients = []; name_id = 1 };
}

unopened_lem_example :
    Returns
      (server_main free_rings
        (20 ∷ 21 ∷ 22 ∷ 23 ∷ [])
        all_end
        port_in_use
        nothing_happens
        with_events
        leaves
        nobody_left
        4
        chat_server)
      (λ r. (r.0 ≡ exit_unopened 4) × (r.1.threads ≡ 4))
unopened_lem_example =
    unopened_lem free_rings (20 ∷ 21 ∷ 22 ∷ 23 ∷ []) all_end port_in_use nothing_happens with_events
      leaves nobody_left 4 chat_server refl refl
