-- ===== src/Tests/Shared.antt =====
-- The pool (src/include/rioring/simple_pool.h) and the lock (src/thread_lock.cpp) at concrete inputs.
use rioring.Prelude.{ℕ, ◌≤◌, ◌≡◌, refl, [], ◌∷◌, replicate}
use rioring.SimplePool.{new_pool, pop, push, fill}
use rioring.SimplePool.Conservation
use rioring.SimplePool.Conservation.{Lending, IsConserved, Reach-IsConserved, take, give}
use rioring.SpinLock.{Threads, new_lock, outside, spinning, inside, call, round, leave, spin}
use rioring.SpinLock
use rioring.SpinLock.Exclusion.{holders, IsExclusive, Reach-IsExclusive}

abbrev itself : ℕ → ℕ
itself n = n

-- Object 0 is taken from a pool of two, and given back behind object 1.
abbrev start : Lending itself itself
start = record { kept = new_pool itself 2; lent = [] }

abbrev one_lent : Lending itself itself
one_lent = record { kept = (pop itself start.kept).1; lent = (pop itself start.kept).0 ∷ [] }

abbrev given_back : Lending itself itself
given_back = record { kept = push one_lent.kept (pop itself start.kept).0; lent = [] }

lend_and_return : Conservation.Reach itself itself start given_back
lend_and_return =
    Conservation.next (Conservation.next Conservation.here take)
      (give {kept = one_lent.kept} [] [] (pop itself start.kept).0 (pop itself start.kept).0 refl)

Reach-IsConserved_example : IsConserved itself itself given_back
Reach-IsConserved_example = Reach-IsConserved itself itself (λ n. refl) 2 lend_and_return

given_back_order : given_back.kept.pool ≡ 1 ∷ 0 ∷ []
unfolding new_pool pop push fill
given_back_order = refl

-- Two threads call `lock`, and the second gets it.
abbrev fresh : Threads
fresh = record { af = new_lock; phases = replicate 2 outside }

abbrev both_spin : Threads
both_spin = record { af = new_lock; phases = spinning ∷ spinning ∷ [] }

abbrev second_inside : Threads
second_inside = record { af = (spin new_lock).1; phases = spinning ∷ (spin new_lock).0 ∷ [] }

race : SpinLock.Reach fresh second_inside
race =
    SpinLock.next (SpinLock.next (SpinLock.next SpinLock.here (call 0 refl)) (call 1 refl))
      (round 1 refl)

Reach-IsExclusive_example : (holders second_inside.phases ≤ 1) × IsExclusive second_inside
Reach-IsExclusive_example = Reach-IsExclusive 2 race
