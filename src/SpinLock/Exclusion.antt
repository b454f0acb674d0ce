-- ===== src/SpinLock/Exclusion.antt =====
-- Mutual exclusion of spin_lock (src/thread_lock.cpp).
use rioring.Prelude.{
  ℕ, zero, suc, ◌≤◌, ◌≡◌, refl, true, false, List, total, total-set, replicate, arith,
}
use rioring.SpinLock.{
  Flag, new_lock, unlock, spin, Phase, outside, spinning, inside, Threads, Step, call, round, leave,
  Reach, here, next,
}

abbrev held : Phase → ℕ
held inside = 1
held _ = 0

abbrev as_number : Flag → ℕ
as_number true = 1
as_number false = 0

-- How many threads are behind `lock`.
abbrev pub holders : List Phase → ℕ
holders = total held

-- The flag is set exactly if a thread holds the lock, and then one thread does.
abbrev pub IsExclusive : Threads → Type 0
IsExclusive t = holders t.phases ≡ as_number t.af

Step-IsExclusive : {t u : Threads} → Step t u → IsExclusive t → IsExclusive u
unfolding unlock spin
Step-IsExclusive {t} (call i e) x = omega (arith, total-set held t.phases i outside spinning e)
Step-IsExclusive {t} (round i e) x =
    ground (arith, total-set held t.phases i spinning (spin t.af).0 e)
Step-IsExclusive {t} (leave i e) x = ground (arith, total-set held t.phases i inside outside e)

holders-replicate : (n : ℕ) → holders (replicate n outside) ≡ 0
holders-replicate zero = refl
holders-replicate (suc n) = omega (arith, holders-replicate n)

Reach-keeps : {s t : Threads} → IsExclusive s → Reach s t → IsExclusive t
Reach-keeps x here = x
Reach-keeps x (next r s) = Step-IsExclusive s (Reach-keeps x r)

-- However `n` threads interleave their calls of `lock` and `unlock` on a new lock, at most one of
-- them is behind `lock` at a time; and one is exactly while the flag is set.
pub Reach-IsExclusive :
    (n : ℕ) {t : Threads}
    → Reach (record { af = new_lock; phases = replicate n outside }) t
    → (holders t.phases ≤ 1) × IsExclusive t
unfolding new_lock
Reach-IsExclusive n {t} r = let x = Reach-keeps (holders-replicate n) r in (ground (arith, x), x)
