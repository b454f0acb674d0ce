-- ===== src/Shutdown.antt =====
-- How io_service::stop ends the service's threads (src/io_service.cpp, the io_uring part): the loop
-- of `io` and the end of `on_thread`, in any interleaving with `stop` and with the kernel, and the
-- wait of thread_generator::wait_for_terminate (src/thread_generator.cpp).
pub mod Sound
pub mod Counted
pub mod Work
pub mod Asked
pub mod Joined
use rioring.Prelude.{
  ℕ, ◌-◌, ◌≡◌, ◌≢◌, Bool, true, false, ◌&&◌, List, [], ◌∷◌, ◌++◌, some, none, get_elem?, set,
  Outcome, done, fault, ◌>>=◌, if◌then◌else◌,
}
use rioring.IoContext.{IoContext}
use rioring.Completion.{ℤ}

-- What `io_uring_wait_cqe` gives: an error, an entry whose `user_data` is 0, or the context and the
-- result of a request.
pub data Wait : Type 0 where
  failed no_data : Wait
  request : IoContext → ℤ → Wait

-- A thread is in the loop, behind it, or has returned from `on_thread`.
pub data Phase : Type 0 where
  looping broken ended : Phase

-- The ring of one thread. `asked` tells whether `stop` has submitted its request, `posted` whether
-- the kernel has completed that request.
pub record Ring : Type 0 where
  pub asked : Bool
  pub posted : Bool
  pub waits : List Wait
  pub phase : Phase

-- How far `stop` is: not called, in its loop with these rings left, in `wait_for_terminate`, or done.
pub data Stopper : Type 0 where
  serving joining returned : Stopper
  asking : List ℕ → Stopper

-- A ring has the number of its thread. `world` is what the callbacks work on.
pub record Threads (W : Type 0) : Type 0 where
  pub io_array : List ℕ
  pub stopper : Stopper
  pub running_io : ℕ
  pub rings : List Ring
  pub world : W

-- `joinable` threads are waited for: whether `wait_for_terminate` returns.
pub is_ended : Phase → Bool
is_ended looping = false
is_ended broken = false
is_ended ended = true

unfoldable pub all_joined : List Ring → Bool
unfolding is_ended
all_joined [] = true
all_joined (r ∷ rs) = is_ended r.phase && all_joined rs

module _ {W : Type 0} where
  abbrev pub with_ring : ℕ → Ring → Threads W → Threads W
  with_ring i r t = record t { rings = set t.rings i r }

  -- `stop` begins its loop.
  unfoldable pub begin_stop : Threads W → Threads W
  begin_stop t = record t { stopper = asking t.io_array }

  -- One round of the loop: the request that it submits carries no data.
  unfoldable pub ask : ℕ → Ring → List ℕ → Threads W → Threads W
  ask i r rest t = record t {
    rings = set t.rings i (record r { asked = true });
    stopper = asking rest;
  }

  -- The array is cleared, and `wait_for_terminate` is called.
  unfoldable pub clear_rings : Threads W → Threads W
  clear_rings t = record t { io_array = []; stopper = joining }

  unfoldable pub join : Threads W → Threads W
  join t = record t { stopper = returned }

  -- `io_uring_queue_exit`, `running_io--`.
  unfoldable pub leave : ℕ → Ring → Threads W → Threads W
  leave i r t = record t {
    running_io = t.running_io - 1;
    rings = set t.rings i (record r { phase = ended });
  }

  -- The loop of `stop` where nothing runs between: the entry that a full ring does not give is
  -- written to.
  module _ (get_sqe : ℕ → Bool) where
    ask_ring : ℕ → List ℕ → Threads W → Outcome (Threads W)
    unfolding ask
    ask_ring i rest t = elim (get_elem? t.rings i) [
      | none ↦ fault
      | some r ↦ if get_sqe i then done (ask i r rest t) else fault
    ]

    ask_rings : List ℕ → Threads W → Outcome (Threads W)
    unfolding ask_ring
    ask_rings [] t = done t
    ask_rings (i ∷ is) t = ask_ring i is t >>= λ t'. ask_rings is t'

    -- `stop` up to `wait_for_terminate`.
    unfoldable pub stop : Threads W → Outcome (Threads W)
    unfolding ask_rings begin_stop clear_rings
    stop t = ask_rings t.io_array (begin_stop t) >>= λ t'. done (clear_rings t')

  -- `handle` is what `io` does with a request: the call of its socket or server, and the return of
  -- its context.
  module _ (handle : IoContext → ℤ → W → Outcome W) where
    -- One round of `io`, with what the wait gave.
    unfoldable pub io_round : Wait → ℕ → Ring → Threads W → Outcome (Threads W)
    io_round failed i r t = done (with_ring i r t)
    io_round no_data i r t = done (with_ring i (record r { phase = broken }) t)
    io_round (request ctx res) i r t =
        handle ctx res t.world >>= λ w. done (with_ring i r (record t { world = w }))

    -- What a thread of the service does.
    pub data Turn (t : Threads W) : Threads W → Type 0 where
      rounds :
          (i : ℕ) (r : Ring) (w : Wait) (ws : List Wait) (t' : Threads W)
          → get_elem? t.rings i ≡ some r
          → r.phase ≡ looping
          → r.waits ≡ w ∷ ws
          → io_round w i (record r { waits = ws }) t ≡ done t'
          → Turn t t'
      leaves :
          (i : ℕ) (r : Ring)
          → get_elem? t.rings i ≡ some r
          → r.phase ≡ broken
          → Turn t (leave i r t)

    -- What the kernel does: an entry more in a ring, in which that of `stop` is one.
    pub data Kernel (t : Threads W) : Threads W → Type 0 where
      arrives :
          (i : ℕ) (r : Ring) (w : Wait)
          → get_elem? t.rings i ≡ some r
          → w ≢ no_data
          → Kernel t (with_ring i (record r { waits = r.waits ++ w ∷ [] }) t)
      posts :
          (i : ℕ) (r : Ring)
          → get_elem? t.rings i ≡ some r
          → r.asked ≡ true
          → r.posted ≡ false
          → Kernel t (with_ring i (record r { waits = r.waits ++ no_data ∷ []; posted = true }) t)

    -- What the thread that calls `stop` does.
    pub data Stopping (t : Threads W) : Threads W → Type 0 where
      begins : t.stopper ≡ serving → Stopping t (begin_stop t)
      asks :
          (i : ℕ) (rest : List ℕ) (r : Ring)
          → t.stopper ≡ asking (i ∷ rest)
          → get_elem? t.rings i ≡ some r
          → Stopping t (ask i r rest t)
      clears : t.stopper ≡ asking [] → Stopping t (clear_rings t)
      joins : t.stopper ≡ joining → all_joined t.rings ≡ true → Stopping t (join t)

    pub data Reach (s : Threads W) : Threads W → Type 0 where
      here : Reach s s
      by_thread : {t u : Threads W} → Reach s t → Turn t u → Reach s u
      by_kernel : {t u : Threads W} → Reach s t → Kernel t u → Reach s u
      by_stop : {t u : Threads W} → Reach s t → Stopping t u → Reach s u
