-- ===== src/Shutdown/Counted.antt =====
-- The counter of threads and the requests of io_service::stop (src/io_service.cpp), whatever runs in
-- between.
use rioring.Prelude.{
  ℕ, ◌+◌, ◌-◌, ◌≡◌, ◌⊎◌, inl, inr, refl, sym, ap, subst, ◌∙◌, true, List, [], ◌∷◌, some, get_elem?,
  set, All, All-at, All-set, total, total-set, get_elem?-set_cases, Outcome, done, >>=-eq-done,
  done-injective, arith,
}
use rioring.IoContext.{IoContext}
use rioring.Completion.{ℤ}
use rioring.Shutdown.{
  Wait, failed, no_data, request, looping, broken, ended, Ring, Stopper, serving, joining, returned,
  asking, Threads, ask, begin_stop, clear_rings, join, leave, io_round, Turn, rounds, leaves,
  Kernel, arrives, posts, Stopping, begins, asks, clears, joins, Reach, here, by_thread, by_kernel,
  by_stop,
}
use rioring.Shutdown.Sound.{
  is_live, live, IsSound, arrived-IsSound, posted-IsSound, taken-IsSound, broken-IsSound,
  asked-IsSound, ended-IsSound,
}

-- The rings that `stop` has not asked yet.
abbrev pub left : List ℕ → Stopper → List ℕ
left rings serving = rings
left rings joining = []
left rings returned = []
left rings (asking rest) = rest

abbrev pub Listed : ℕ → List ℕ → Type 0
Listed i [] = ⊥
Listed i (j ∷ js) = (i ≡ j) ⊎ Listed i js

-- Every ring has been asked or will be.
abbrev pub IsCovered : List Ring → List ℕ → Type 0
IsCovered rs rest = (i : ℕ) (r : Ring) → get_elem? rs i ≡ some r → (r.asked ≡ true) ⊎ Listed i rest

pub record IsCounted {W : Type 0} (t : Threads W) : Type 0 where
  pub counter : t.running_io ≡ total live t.rings
  pub sound : All IsSound t.rings
  pub covered : IsCovered t.rings (left t.io_array t.stopper)

-- A ring takes the place of another, of which it keeps whether it has been asked.
module _ (rs : List Ring) (rest : List ℕ) (i : ℕ) (r q : Ring) (e : get_elem? rs i ≡ some r) where
  placed-IsCovered : IsCovered rs rest → q.asked ≡ r.asked → IsCovered (set rs i q) rest
  placed-IsCovered c same j x h = elim (get_elem?-set_cases rs i j q h) [
    | inl (at, is) ↦ elim (c i r e) [
      | inl a ↦ inl (ap (λ (y : Ring). y.asked) is ∙ (same ∙ a))
      | inr l ↦ inr (subst (λ k. Listed k rest) at l)
    ]
    | inr (_, old) ↦ c j x old
  ]

  asked-IsCovered : IsCovered rs (i ∷ rest) → q.asked ≡ true → IsCovered (set rs i q) rest
  asked-IsCovered c a j x h = elim (get_elem?-set_cases rs i j q h) [
    | inl (at, is) ↦ inl (ap (λ (y : Ring). y.asked) is ∙ a)
    | inr (apart, old) ↦ elim (c j x old) [
      | inl b ↦ inl b
      | inr (inl here') ↦ absurd (apart (sym here'))
      | inr (inr l) ↦ inr l
    ]
  ]

module _ {W : Type 0} where
  -- Only the ring of one thread changes, not whether it has been asked.
  kept_lem :
      (t : Threads W) (i : ℕ) (r q : Ring) (n : ℕ) (w : W)
      → get_elem? t.rings i ≡ some r
      → IsCounted t
      → IsSound q
      → q.asked ≡ r.asked
      → n + live r ≡ t.running_io + live q
      → IsCounted (record t { running_io = n; rings = set t.rings i q; world = w })
  kept_lem t i r q n w e v s a c = record {
    counter = omega (arith, total-set live t.rings i r q e, v.counter, c);
    sound = All-set IsSound t.rings i v.sound s;
    covered = placed-IsCovered t.rings (left t.io_array t.stopper) i r q e v.covered a;
  }

module _ {W : Type 0} (handle : IoContext → ℤ → W → Outcome W) where
  pub Kernel-IsCounted : {t u : Threads W} → Kernel handle t u → IsCounted t → IsCounted u
  Kernel-IsCounted {t} (arrives i r w e new) v =
      kept_lem t i r _ t.running_io t.world e v
        (arrived-IsSound r w new (All-at IsSound t.rings i v.sound e)) refl refl
  Kernel-IsCounted {t} (posts i r e asked unposted) v =
      kept_lem t i r _ t.running_io t.world e v
        (posted-IsSound r asked unposted (All-at IsSound t.rings i v.sound e)) refl refl

  -- A round takes an entry off the ring, and only that of `stop` ends the loop.
  round-IsCounted :
      (w : Wait) (i : ℕ) (r : Ring) (ws : List Wait) (t t' : Threads W)
      → get_elem? t.rings i ≡ some r
      → r.phase ≡ looping
      → r.waits ≡ w ∷ ws
      → io_round handle w i (record r { waits = ws }) t ≡ done t'
      → IsCounted t
      → IsCounted t'
  unfolding io_round
  round-IsCounted failed i r ws t t' e p h d v =
      let s = taken-IsSound r failed ws refl h (All-at IsSound t.rings i v.sound e) in
      subst IsCounted (done-injective d)
        (kept_lem t i r (record r { waits = ws }) t.running_io t.world e v s refl refl)
  round-IsCounted no_data i r ws t t' e p h d v =
      let s = broken-IsSound r ws p h (All-at IsSound t.rings i v.sound e) in
      subst IsCounted (done-injective d) (
        kept_lem t i r (record r { waits = ws; phase = broken }) t.running_io t.world e v s refl
          (omega (arith, ap is_live p)))
  round-IsCounted (request ctx res) i r ws t t' e p h d v =
      let (w, _, d') = >>=-eq-done (handle ctx res t.world) _ d in
      let s = taken-IsSound r (request ctx res) ws refl h (All-at IsSound t.rings i v.sound e) in
      subst IsCounted (done-injective d')
        (kept_lem t i r (record r { waits = ws }) t.running_io w e v s refl refl)

  pub Turn-IsCounted : {t u : Threads W} → Turn handle t u → IsCounted t → IsCounted u
  unfolding leave
  Turn-IsCounted {t} (rounds i r w ws t' e p h d) v = round-IsCounted w i r ws t t' e p h d v
  Turn-IsCounted {t} (leaves i r e p) v =
      let q = record r { phase = ended } in
      kept_lem t i r q (t.running_io - 1) t.world e v
        (ended-IsSound r p (All-at IsSound t.rings i v.sound e)) refl
        (omega (arith, total-set live t.rings i r q e, v.counter, ap is_live p))

  Stopping-IsCounted : {t u : Threads W} → Stopping handle t u → IsCounted t → IsCounted u
  unfolding begin_stop ask clear_rings join
  Stopping-IsCounted {t} (begins e) v = record {
    counter = v.counter;
    sound = v.sound;
    covered = subst (λ x. IsCovered t.rings (left t.io_array x)) e v.covered;
  }
  Stopping-IsCounted {t} (asks i rest r e g) v =
      let s = All-at IsSound t.rings i v.sound g in
      let q = record r { asked = true } in
      record {
        counter = omega (arith, total-set live t.rings i r q g, v.counter);
        sound = All-set IsSound t.rings i v.sound (asked-IsSound r s);
        covered =
            asked-IsCovered t.rings rest i r q g
              (subst (λ x. IsCovered t.rings (left t.io_array x)) e v.covered) refl;
      }
  Stopping-IsCounted {t} (clears e) v = record {
    counter = v.counter;
    sound = v.sound;
    covered = subst (λ x. IsCovered t.rings (left t.io_array x)) e v.covered;
  }
  Stopping-IsCounted {t} (joins e j) v = record {
    counter = v.counter;
    sound = v.sound;
    covered = subst (λ x. IsCovered t.rings (left t.io_array x)) e v.covered;
  }

  -- However the threads, the kernel and `stop` interleave.
  pub Reach-IsCounted : {s t : Threads W} → IsCounted s → Reach handle s t → IsCounted t
  Reach-IsCounted v here = v
  Reach-IsCounted v (by_thread r x) = Turn-IsCounted x (Reach-IsCounted v r)
  Reach-IsCounted v (by_kernel r x) = Kernel-IsCounted x (Reach-IsCounted v r)
  Reach-IsCounted v (by_stop r x) = Stopping-IsCounted x (Reach-IsCounted v r)
