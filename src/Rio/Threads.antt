-- ===== src/Rio/Threads.antt =====
-- The threads of the service on Windows (src/io_service.cpp under WIN32): how they are started, their
-- loop over completion queues, and how they are stopped. The answers of Winsock are parameters.
use rioring.Prelude.{
  ℕ, ◌+◌, ◌-◌, ◌≡◌, inl, inr, refl, sym, ap, subst, ◌∙◌, Bool, true, false, Bool-cases, List, [],
  ◌∷◌, ◌++◌, ltb, ◌==◌, if◌then◌else◌, Option, none, some, Outcome, done, fault, ◌>>=◌, >>=_assoc,
}
use rioring.Rio.{RioContext, RioService}
use rioring.Rio.Socket.{invalid_socket}

-- What `WSASocketW` gives, and whether `WSAIoctl` finds the function table.
pub record Winsock : Type 0 where
  pub opened : ℕ
  pub has_table : Bool

-- Whether the table has been loaded, and the sockets that were closed.
pub load_rio : Winsock → Bool × List ℕ
load_rio w = if w.opened == invalid_socket then (false, []) else (w.has_table, w.opened ∷ [])

-- The service, its counter of threads, and the flag of thread_object.
pub record RioRunning : Type 0 where
  pub service : RioService
  pub running_io : ℕ
  pub is_terminated : Bool

-- How many threads `run` starts: none where it refuses.
pub run : Winsock → (concurrency : ℕ) → Option ℕ
unfolding load_rio
run w concurrency =
    if ltb concurrency 1 then none else if (load_rio w).0 then some concurrency else none

-- Whether `run` goes on waiting.
pub run_waits : ℕ → RioRunning → Bool
run_waits concurrency s = ltb s.running_io concurrency

-- `thread_object::stop_thread`, and `thread_stopped`.
pub stop_thread : RioRunning → RioRunning
stop_thread s = record s { is_terminated = true }

pub thread_stopped : RioRunning → Bool
thread_stopped s = s.is_terminated

-- `stop` up to `wait_for_terminate`.
pub stop : RioRunning → RioRunning
unfolding stop_thread
stop s = let s' = stop_thread s in record s' { service = record s'.service { io_array = [] } }

-- `RIO_INVALID_CQ`.
abbrev invalid_cq : ℕ
invalid_cq = 0

-- What `RIODequeueCompletion` gives: nothing, `RIO_CORRUPT_CQ`, or results, each with its context and
-- the bytes transferred.
pub data Dequeued : Type 0 where
  nothing corrupt : Dequeued
  results : List (RioContext × ℕ) → Dequeued

-- A round of the loop: whether the thread has been stopped before it, and what it dequeues.
pub record Poll : Type 0 where
  pub stopped : Bool
  pub dequeued : Dequeued

-- `on_thread` around its loop.
pub enter : ℕ → RioRunning → Outcome RioRunning
enter cq s =
    if cq == invalid_cq
    then fault
    else done (record s {
      service = record s.service { io_array = s.service.io_array ++ cq ∷ [] };
      running_io = s.running_io + 1;
    })

pub leave : RioRunning → RioRunning
leave s = record s { running_io = s.running_io - 1 }

-- `handle` is what the loop does with one result, on a `world` of sockets.
module _ {W : Type 0} (handle : RioContext → ℕ → W → Outcome W) where
  unfoldable pub each_result : List (RioContext × ℕ) → W → Outcome W
  each_result [] w = done w
  each_result ((ctx, n) ∷ rs) w = handle ctx n w >>= λ w'. each_result rs w'

  unfoldable pub dequeue : Dequeued → W → Outcome W
  unfolding each_result
  dequeue nothing w = done w
  dequeue corrupt w = fault
  dequeue (results rs) w = each_result rs w

  -- The loop: whether it has ended.
  unfoldable pub io : List Poll → W → Outcome (Bool × W)
  unfolding dequeue
  io [] w = done (false, w)
  io (p ∷ ps) w =
      let rest = dequeue p.dequeued w >>= λ w'. io ps w' in
      if p.stopped then done (true, w) else rest

-- The results before the thread is stopped, in order; whether it is; and whether a queue is corrupt.
abbrev pub in_order : Dequeued → List (RioContext × ℕ)
in_order nothing = []
in_order corrupt = []
in_order (results rs) = rs

abbrev pub all_results : List Poll → List (RioContext × ℕ)
all_results [] = []
all_results (p ∷ ps) = if p.stopped then [] else in_order p.dequeued ++ all_results ps

abbrev pub is_stopped : List Poll → Bool
is_stopped [] = false
is_stopped (p ∷ ps) = if p.stopped then true else is_stopped ps

abbrev is_corrupt : Dequeued → Bool
is_corrupt nothing = false
is_corrupt corrupt = true
is_corrupt (results rs) = false

abbrev pub any_corrupt : List Poll → Bool
any_corrupt [] = false
any_corrupt (p ∷ ps) =
    if p.stopped then false else if is_corrupt p.dequeued then true else any_corrupt ps

both_false : (b c : Bool) → (if b then true else c) ≡ false → (b ≡ false) × (c ≡ false)
both_false true c h = cc
both_false false c h = (refl, h)

module _ {W : Type 0} (handle : RioContext → ℕ → W → Outcome W) where
  each_result-append :
      (xs ys : List (RioContext × ℕ)) (w : W)
      → each_result handle (xs ++ ys) w ≡ each_result handle xs w >>= λ w'. each_result handle ys w'
  unfolding each_result
  each_result-append [] ys w = refl
  each_result-append ((ctx, n) ∷ xs) ys w =
      (λ i. handle ctx n w >>= λ w'. each_result-append xs ys w' i)
      ∙ sym (
          >>=_assoc (handle ctx n w) (λ w'. each_result handle xs w')
            (λ w'. each_result handle ys w'))

  dequeue_lem :
      (d : Dequeued) (w : W)
      → is_corrupt d ≡ false
      → dequeue handle d w ≡ each_result handle (in_order d) w
  unfolding dequeue each_result
  dequeue_lem nothing w h = refl
  dequeue_lem corrupt w h = cc
  dequeue_lem (results rs) w h = refl

  -- Unless a queue is corrupt, the loop handles each result before the thread is stopped, once and in
  -- order, however they are spread over its rounds, and ends exactly if the thread is stopped.
  pub io_lem :
      (ps : List Poll) (w : W)
      → any_corrupt ps ≡ false
      → io handle ps w ≡ each_result handle (all_results ps) w >>= λ w'. done (is_stopped ps, w')
  unfolding io dequeue each_result
  io_lem [] w h = refl
  io_lem (p ∷ ps) w h = elim (Bool-cases p.stopped) [
    | inl e ↦ rw e refl
    | inr e ↦
        let (sound, more) = both_false (is_corrupt p.dequeued) (any_corrupt ps) (
          subst
            (λ b.
              (if b then false else if is_corrupt p.dequeued then true else any_corrupt ps) ≡ false)
            e h) in
        let xs = in_order p.dequeued in
        let last = λ (w' : W). done (is_stopped ps, w') in
        rw e (
          ap (λ m. m >>= λ w'. io handle ps w') (dequeue_lem p.dequeued w sound)
          ∙ ((λ i. each_result handle xs w >>= λ w'. io_lem ps w' more i)
              ∙ (sym (
                    >>=_assoc (each_result handle xs w)
                      (λ w'. each_result handle (all_results ps) w') last)
                  ∙ ap (λ m. m >>= last) (sym (each_result-append xs (all_results ps) w)))))
  ]
