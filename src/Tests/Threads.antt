-- ===== src/Tests/Threads.antt =====
-- The start of the service's threads (src/io_service.cpp) at concrete inputs.
use rioring.Shutdown.Counted.{Listed}
use rioring.Prelude.{ℕ, ◌<◌, ◌≡◌, refl, true, false, some, length}
use rioring.Startup.{
  Threads, push_ring, count_thread, first_threads, run_threads, run_waits, list_ring, counts, Reach,
  here, next,
}
use rioring.Startup.Rings.{run_rings}

-- The second of two threads is first in the array, and the first thread is counted first.
abbrev second_listed : Threads
second_listed = push_ring 1 (first_threads 2)

abbrev both_listed : Threads
both_listed = push_ring 0 second_listed

abbrev both_running : Threads
both_running = count_thread 1 (count_thread 0 both_listed)

second_first : Reach (first_threads 2) second_listed
second_first = next here (list_ring 1 refl)

all_started : Reach (first_threads 2) both_running
unfolding push_ring count_thread
all_started = next (next (next second_first (list_ring 0 refl)) (counts 0 refl)) (counts 1 refl)

two_threads : run_threads 2 ≡ some (first_threads 2)
unfolding run_threads
two_threads = refl

done_waiting : run_waits 2 both_running ≡ false
unfolding run_waits push_ring count_thread
done_waiting = refl

still_waiting : run_waits 2 second_listed ≡ true
unfolding run_waits push_ring
still_waiting = refl

run_rings_example :
    ((i : ℕ) → i < 2 → Listed i both_running.io_array)
    × (length both_running.io_array ≡ 2)
    × (both_running.running_io ≡ 2)
    × (0 < length both_running.io_array)
run_rings_example = run_rings 2 two_threads all_started done_waiting
