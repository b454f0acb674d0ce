-- ===== src/SpinLock.antt =====
-- src/thread_lock.cpp and src/include/rioring/thread_lock.h: spin_lock over an atomic flag, among
-- threads that interleave. `test_and_set` and `clear` are one step each. (critical_section only
-- passes on to std::mutex.)
pub mod Exclusion
use rioring.Prelude.{
  ℕ, zero, suc, Bool, true, false, not, List, [], ◌∷◌, Option, none, some, get_elem?, set, ◌≡◌,
}

abbrev pub Flag : Type 0
Flag = Bool

-- The constructor clears the flag.
pub new_lock : Flag
new_lock = false

-- Whether the lock was taken, and the flag afterwards: `!af.test_and_set()`.
pub try_lock : Flag → Bool × Flag
try_lock af = (not af, true)

pub unlock : Flag → Flag
unlock af = false

-- Where a thread stands: outside, in the loop of `lock`, or behind it.
pub data Phase : Type 0 where
  outside spinning inside : Phase

pub record Threads : Type 0 where
  pub af : Flag
  pub phases : List Phase

-- One round of `while ( !try_lock() );`.
pub spin : Flag → Phase × Flag
unfolding try_lock
spin af = let (taken, af') = try_lock af in (elim taken [ true ↦ inside | false ↦ spinning ], af')

-- Thread `i` moves: it calls `lock`, goes round its loop once, or calls `unlock`, which only a thread
-- that holds the lock does.
pub data Step (t : Threads) : Threads → Type 0 where
  call :
      (i : ℕ)
      → get_elem? t.phases i ≡ some outside
      → Step t (record t { phases = set t.phases i spinning })
  round :
      (i : ℕ)
      → get_elem? t.phases i ≡ some spinning
      → Step t (record { af = (spin t.af).1; phases = set t.phases i (spin t.af).0 })
  leave :
      (i : ℕ)
      → get_elem? t.phases i ≡ some inside
      → Step t (record { af = unlock t.af; phases = set t.phases i outside })

pub data Reach (s : Threads) : Threads → Type 0 where
  here : Reach s s
  next : {t u : Threads} → Reach s t → Step t u → Reach s u
