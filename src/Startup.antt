-- ===== src/Startup.antt =====
-- How io_service::run (src/io_service.cpp, the io_uring part) starts its threads: each runs
-- `on_thread` up to its loop, in any interleaving with the others. (Where a ring cannot be made, the
-- program ends; those runs are left out.)
pub mod Rings
use rioring.Prelude.{
  ℕ, zero, suc, ◌+◌, ◌≡◌, Bool, List, [], ◌∷◌, ◌++◌, Option, none, some, get_elem?, set, replicate,
  ltb, if◌then◌else◌,
}

-- How far a thread is: before its ring is in the array, before it has been counted, or in `io`.
pub data Phase : Type 0 where
  starting listed running : Phase

pub record Threads : Type 0 where
  pub io_array : List ℕ
  pub running_io : ℕ
  pub phases : List Phase

-- `io_array.push_back( &ring )`, under the lock: a ring has the number of its thread, of which it is a
-- local variable.
unfoldable pub push_ring : ℕ → Threads → Threads
push_ring i t = record t { io_array = t.io_array ++ i ∷ []; phases = set t.phases i listed }

-- `running_io++`.
unfoldable pub count_thread : ℕ → Threads → Threads
count_thread i t = record t { running_io = t.running_io + 1; phases = set t.phases i running }

abbrev pub first_threads : ℕ → Threads
first_threads n = record { io_array = []; running_io = 0; phases = replicate n starting }

-- What `run` starts: no thread where it refuses, which is for less than one.
unfoldable pub run_threads : ℕ → Option Threads
run_threads concurrency = if ltb concurrency 1 then none else some (first_threads concurrency)

-- Whether `run` goes on waiting: `concurrency > running_io`.
unfoldable pub run_waits : ℕ → Threads → Bool
run_waits concurrency t = ltb t.running_io concurrency

pub data Step (t : Threads) : Threads → Type 0 where
  list_ring : (i : ℕ) → get_elem? t.phases i ≡ some starting → Step t (push_ring i t)
  counts : (i : ℕ) → get_elem? t.phases i ≡ some listed → Step t (count_thread i t)

pub data Reach (s : Threads) : Threads → Type 0 where
  here : Reach s s
  next : {t u : Threads} → Reach s t → Step t u → Reach s u
