-- ===== src/Tests/Stopping.antt =====
-- The end of the service's threads (src/io_service.cpp) at concrete inputs.
use rioring.Prelude.{
  ℕ, ◌+◌, ◌≡◌, ◌⊎◌, inl, inr, refl, true, false, [], ◌∷◌, some, Outcome, arith, ◌<◌, zero, suc,
}
use rioring.IoContext.{IoContext, IoType, new_context}
use rioring.Session.{Session}
use rioring.Completion.{ℤ, pos, complete}
use rioring.Tests.Fixtures.{heap_of_zeros, free_rings, idle_user, idle}
use rioring.Shutdown.{
  no_data, request, looping, broken, Ring, serving, joining, Threads, ask, begin_stop, clear_rings,
  with_ring, Turn, rounds, posts, Reach, here, by_kernel, by_stop, begins, asks, clears, io_round,
}
use rioring.Shutdown.Joined.{IsStarted, Joined, Acts, Run, turn, stop_progresses, stop_ends}
use rioring.Shutdown.Work.{work, Owes}
use rioring.Shutdown.Counted.{Listed}

-- What `io` does with a request of a connected socket, whose user does nothing.
abbrev handle : IoContext → ℤ → Session → Outcome Session
handle ctx res s = complete free_rings heap_of_zeros idle_user ctx res s

-- The last read of the connection.
abbrev last_read : IoContext
last_read = record (new_context 3) { io_type = IoType.read; handler = some 3 }

-- The first thread has a request to take, the second nothing.
abbrev two_threads : Threads Session
two_threads = record {
  io_array = 1 ∷ 0 ∷ [];
  stopper = serving;
  running_io = 2;
  rings =
      record {
        asked = false;
        posted = false;
        waits = request last_read (pos 0) ∷ [];
        phase = looping;
      }
      ∷ record { asked = false; posted = false; waits = []; phase = looping }
      ∷ [];
  world = idle;
}

both_listed : (i : ℕ) → i < 2 → Listed i (1 ∷ 0 ∷ [])
both_listed zero h = inr (inl refl)
both_listed (suc zero) h = inl refl
both_listed (suc (suc i)) h = absurd (omega (arith, h))

two_threads-IsStarted : IsStarted two_threads
two_threads-IsStarted = record {
  not_stopped = refl;
  counter = refl;
  fresh = (
    record { in_loop = refl; not_posted = refl; no_stops = refl },
    (record { in_loop = refl; not_posted = refl; no_stops = refl }, tt),
  );
  in_array = both_listed;
}

-- `stop` has asked both, and waits for the threads.
abbrev first_ring : Ring
first_ring = record {
  asked = true;
  posted = false;
  waits = request last_read (pos 0) ∷ [];
  phase = looping;
}

abbrev second_ring : Ring
second_ring = record { asked = true; posted = false; waits = []; phase = looping }

abbrev waiting : Threads Session
waiting = record two_threads {
  io_array = [];
  stopper = joining;
  rings = first_ring ∷ second_ring ∷ [];
}

two_asked : Reach handle two_threads waiting
unfolding begin_stop ask clear_rings
two_asked =
    by_stop
      (by_stop
        (by_stop (by_stop here (begins refl))
          (asks 1 (0 ∷ []) (record second_ring { asked = false }) refl refl))
        (asks 0 [] (record first_ring { asked = false }) refl refl))
      (clears refl)

stop_progresses_example : Joined waiting ⊎ (Owes waiting ⊎ Acts handle waiting)
stop_progresses_example =
    stop_progresses handle two_threads waiting two_threads-IsStarted two_asked refl

-- The kernel has completed both requests.
abbrev completed : Threads Session
completed = record waiting {
  rings =
      record first_ring { waits = request last_read (pos 0) ∷ no_data ∷ []; posted = true }
      ∷ record second_ring { waits = no_data ∷ []; posted = true }
      ∷ [];
}

two_completed : Reach handle two_threads completed
two_completed =
    by_kernel (by_kernel two_asked (posts 0 first_ring refl refl refl))
      (posts 1 second_ring refl refl refl)

-- The second thread leaves its loop.
abbrev second_broken : Threads Session
second_broken = with_ring 1 (record second_ring { posted = true; phase = broken }) completed

second_turn : Turn handle completed second_broken
unfolding io_round
second_turn =
    rounds 1 (record second_ring { waits = no_data ∷ []; posted = true }) no_data [] second_broken
      refl refl refl refl

stop_ends_example :
    (1 + work second_broken ≡ work completed) × (Joined second_broken ⊎ Acts handle second_broken)
stop_ends_example =
    stop_ends handle two_threads completed second_broken 1 two_threads-IsStarted two_completed
      (refl, (refl, tt)) (turn Run.here second_turn)
