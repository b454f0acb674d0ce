-- ===== src/Shutdown/Sound.antt =====
-- What holds of the ring of one thread while io_service::stop (src/io_service.cpp) ends the threads.
use rioring.Prelude.{
  ℕ, ◌+◌, ◌≤◌, ◌≡◌, ◌≢◌, refl, ap, Bool, true, false, List, [], ◌∷◌, ◌++◌, total, total-append,
  arith,
}
use rioring.Shutdown.{Wait, failed, no_data, request, Phase, looping, broken, ended, Ring}

abbrev pub is_live : Phase → ℕ
is_live looping = 1
is_live broken = 1
is_live ended = 0

abbrev pub is_gone : Phase → ℕ
is_gone looping = 0
is_gone broken = 1
is_gone ended = 1

abbrev pub bit : Bool → ℕ
bit true = 1
bit false = 0

abbrev pub is_stop : Wait → ℕ
is_stop failed = 0
is_stop no_data = 1
is_stop (request ctx res) = 0

no_stop : (w : Wait) → w ≢ no_data → is_stop w ≡ 0
no_stop failed h = refl
no_stop no_data h = absurd (h refl)
no_stop (request ctx res) h = refl

-- The entries without data in a ring.
abbrev pub stops : List Wait → ℕ
stops = total is_stop

abbrev pub live : Ring → ℕ
live r = is_live r.phase

-- A thread leaves its loop by the one entry that `stop` has asked for.
pub record IsSound (r : Ring) : Type 0 where
  pub once : stops r.waits + is_gone r.phase ≡ bit r.posted
  pub ordered : bit r.posted ≤ bit r.asked

bit_le : (b : Bool) → bit b ≤ 1
bit_le true = omega arith
bit_le false = omega arith

pub arrived-IsSound :
    (r : Ring) (w : Wait)
    → w ≢ no_data
    → IsSound r
    → IsSound (record r { waits = r.waits ++ w ∷ [] })
arrived-IsSound r w new s = record {
  once = omega (arith, total-append is_stop r.waits (w ∷ []), no_stop w new, s.once);
  ordered = s.ordered;
}

pub posted-IsSound :
    (r : Ring)
    → r.asked ≡ true
    → r.posted ≡ false
    → IsSound r
    → IsSound (record r { waits = r.waits ++ no_data ∷ []; posted = true })
posted-IsSound r a p s = record {
  once = omega (arith, total-append is_stop r.waits (no_data ∷ []), ap bit p, s.once);
  ordered = omega (arith, ap bit a);
}

pub taken-IsSound :
    (r : Ring) (w : Wait) (ws : List Wait)
    → is_stop w ≡ 0
    → r.waits ≡ w ∷ ws
    → IsSound r
    → IsSound (record r { waits = ws })
taken-IsSound r w ws z h s = record {
  once = omega (arith, ap stops h, z, s.once);
  ordered = s.ordered;
}

pub broken-IsSound :
    (r : Ring) (ws : List Wait)
    → r.phase ≡ looping
    → r.waits ≡ no_data ∷ ws
    → IsSound r
    → IsSound (record r { waits = ws; phase = broken })
broken-IsSound r ws p h s = record {
  once = omega (arith, ap stops h, ap is_gone p, s.once);
  ordered = s.ordered;
}

pub asked-IsSound : (r : Ring) → IsSound r → IsSound (record r { asked = true })
asked-IsSound r s = record { once = s.once; ordered = omega (arith, s.ordered, bit_le r.posted) }

pub ended-IsSound : (r : Ring) → r.phase ≡ broken → IsSound r → IsSound (record r { phase = ended })
ended-IsSound r p s = record { once = omega (arith, ap is_gone p, s.once); ordered = s.ordered }
