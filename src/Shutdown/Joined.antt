-- ===== src/Shutdown/Joined.antt =====
-- That io_service::stop (src/io_service.cpp) returns: thread_generator::wait_for_terminate
-- (src/thread_generator.cpp) finds that every thread has ended.
use rioring.Prelude.{
  ℕ, suc, ◌+◌, ◌≤◌, ◌<◌, ◌≡◌, ◌⊎◌, inl, inr, refl, ap, subst, ◌∙◌, Bool, true, false, ◌&&◌, List,
  [], ◌∷◌, some, get_elem?, get_elem?-lt, length, All, All-at, total, Outcome, ◌>>=◌, Fails,
  Outcome-cases, Bool-cases, arith,
}
use rioring.IoContext.{IoContext}
use rioring.Completion.{ℤ}
use rioring.Shutdown.{
  Wait, failed, no_data, request, Phase, looping, broken, ended, Ring, serving, joining, Threads,
  is_ended, all_joined, io_round, with_ring, leave, Turn, rounds, leaves, Kernel, Reach,
}
use rioring.Shutdown.Counted.{
  IsCounted, Listed, left, Reach-IsCounted, Turn-IsCounted, Kernel-IsCounted,
}
use rioring.Shutdown.Sound.{IsSound, is_live, is_gone, bit, live, stops}
use rioring.Shutdown.Work.{work, AllPosted, Owes, Turn-works, Kernel-works}

-- A ring of which `stop` has asked nothing.
pub record IsNew (r : Ring) : Type 0 where
  pub in_loop : r.phase ≡ looping
  pub not_posted : r.posted ≡ false
  pub no_stops : stops r.waits ≡ 0

-- The service as `run` leaves it: its threads are in their loops, and every ring is in the array.
pub record IsStarted {W : Type 0} (t : Threads W) : Type 0 where
  pub not_stopped : t.stopper ≡ serving
  pub counter : t.running_io ≡ length t.rings
  pub fresh : All IsNew t.rings
  pub in_array : (i : ℕ) → i < length t.rings → Listed i t.io_array

-- All threads have ended, and none is counted.
abbrev pub Joined : {W : Type 0} → Threads W → Type 0
Joined t = (all_joined t.rings ≡ true) × (t.running_io ≡ 0)

-- The threads take `k` turns, and the kernel acts in between.
pub data Run {W : Type 0} (handle : IoContext → ℤ → W → Outcome W) (s : Threads W)
    : ℕ → Threads W → Type 0 where
  here : Run handle s 0 s
  turn : {k : ℕ} {t u : Threads W} → Run handle s k t → Turn handle t u → Run handle s (suc k) u
  kernel : {k : ℕ} {t u : Threads W} → Run handle s k t → Kernel handle t u → Run handle s k u

both : (b c : Bool) → (b && c) ≡ true → (b ≡ true) × (c ≡ true)
both true c h = (refl, h)
both false c h = cc

none_live : (p : Phase) → is_ended p ≡ true → is_live p ≡ 0
unfolding is_ended
none_live looping e = cc
none_live broken e = cc
none_live ended e = refl

Phase-cases : (p : Phase) → ((p ≡ looping) ⊎ (p ≡ broken)) ⊎ (is_ended p ≡ true)
unfolding is_ended
Phase-cases looping = inl (inl refl)
Phase-cases broken = inl (inr refl)
Phase-cases ended = inr refl

rest_false : (b c : Bool) → b ≡ true → (b && c) ≡ false → c ≡ false
rest_false true c e h = h
rest_false false c e h = cc

all_ended : (rs : List Ring) → all_joined rs ≡ true → total live rs ≡ 0
unfolding all_joined
all_ended [] h = refl
all_ended (r ∷ rs) h =
    let (e, hs) = both (is_ended r.phase) (all_joined rs) h in
    omega (arith, none_live r.phase e, all_ended rs hs)

unjoined :
    (rs : List Ring)
    → all_joined rs ≡ false
    → (i : ℕ) × (r : Ring) × (get_elem? rs i ≡ some r) × ((r.phase ≡ looping) ⊎ (r.phase ≡ broken))
unfolding all_joined
unjoined [] h = cc
unjoined (r ∷ rs) h = elim (Phase-cases r.phase) [
  | inl p ↦ (0, r, refl, p)
  | inr e ↦
      let (i, q, at, p) = unjoined rs (rest_false (is_ended r.phase) (all_joined rs) e h) in
      (suc i, q, at, p)
]

IsNew-live : (rs : List Ring) → All IsNew rs → total live rs ≡ length rs
IsNew-live [] h = refl
IsNew-live (r ∷ rs) (n, ns) = omega (arith, ap is_live n.in_loop, IsNew-live rs ns)

IsNew-IsSound : (rs : List Ring) → All IsNew rs → All IsSound rs
IsNew-IsSound [] h = h
IsNew-IsSound (r ∷ rs) (n, ns) = (
  record {
    once = omega (arith, n.no_stops, ap is_gone n.in_loop, ap bit n.not_posted);
    ordered = omega (arith, ap bit n.not_posted);
  },
  IsNew-IsSound rs ns,
)

posted_at :
    {W : Type 0} (t : Threads W) (i : ℕ) (r : Ring)
    → get_elem? t.rings i ≡ some r
    → AllPosted t
    → r.posted ≡ true
posted_at t i r e all = All-at (λ (x : Ring). x.posted ≡ true) t.rings i all e

is_set : (b : Bool) → 1 ≤ bit b → b ≡ true
is_set true h = refl
is_set false h = absurd (omega (arith, h))

-- What the kernel has completed has been asked for.
asked_of : (r : Ring) → IsSound r → r.posted ≡ true → r.asked ≡ true
asked_of r s p = is_set r.asked (omega (arith, s.ordered, ap bit p))

-- The invariant at the start.
IsStarted-IsCounted : {W : Type 0} (t : Threads W) → IsStarted t → IsCounted t
IsStarted-IsCounted t s = record {
  counter = omega (arith, IsNew-live t.rings s.fresh, s.counter);
  sound = IsNew-IsSound t.rings s.fresh;
  covered = λ i r e. inr (rw s.not_stopped (s.in_array i (get_elem?-lt t.rings i e)));
}

-- A thread does not come back from what it does with the next entry of its ring: a request, for which
-- the code of the socket or of the user faults or never returns.
pub record IsStuck {W : Type 0} (handle : IoContext → ℤ → W → Outcome W) (t : Threads W)
    : Type 0 where
  pub thread : ℕ
  pub ring : Ring
  pub at : get_elem? t.rings thread ≡ some ring
  pub in_loop : ring.phase ≡ looping
  pub ctx : IoContext
  pub res : ℤ
  pub rest : List Wait
  pub next : ring.waits ≡ request ctx res ∷ rest
  pub no_result : Fails (handle ctx res t.world)

-- A thread takes a turn, or does not come back from one.
abbrev pub Acts : {W : Type 0} → (IoContext → ℤ → W → Outcome W) → Threads W → Type 0
Acts {W = W} handle t = IsStuck handle t ⊎ ((u : Threads W) × Turn handle t u)

module _ {W : Type 0} (handle : IoContext → ℤ → W → Outcome W) where
  -- A thread whose ring has the entry of `stop` acts.
  takes :
      (t : Threads W) (i : ℕ) (r : Ring) (ws : List Wait)
      → get_elem? t.rings i ≡ some r
      → r.phase ≡ looping
      → r.waits ≡ ws
      → 1 ≤ stops ws
      → Acts handle t
  unfolding io_round
  takes t i r [] e p q h = absurd (omega (arith, h))
  takes t i r (failed ∷ ws) e p q h = inr (_, rounds i r failed ws _ e p q refl)
  takes t i r (no_data ∷ ws) e p q h = inr (_, rounds i r no_data ws _ e p q refl)
  takes t i r (request ctx res ∷ ws) e p q h = elim (Outcome-cases (handle ctx res t.world)) [
    | inl (w, d) ↦
        let r' = record r { waits = ws } in
        inr (
          with_ring i r' (record t { world = w }),
          rounds i r (request ctx res) ws _ e p q (rw (d, ◌>>=◌)),
        )
    | inr f ↦ inl (record {
      thread = i;
      ring = r;
      at = e;
      in_loop = p;
      ctx = ctx;
      res = res;
      rest = ws;
      next = q;
      no_result = f;
    })
  ]

  goes_on :
      (t : Threads W) (i : ℕ) (r : Ring)
      → get_elem? t.rings i ≡ some r
      → (r.phase ≡ looping) ⊎ (r.phase ≡ broken)
      → IsSound r
      → r.asked ≡ true
      → Owes t ⊎ Acts handle t
  goes_on t i r e (inr b) s a = inr (inr (leave i r t, leaves i r e b))
  goes_on t i r e (inl l) s a = elim (Bool-cases r.posted) [
    | inr owed ↦ inl (i, r, e, a, owed)
    | inl yes' ↦
        inr (takes t i r r.waits e l refl (omega (arith, s.once, ap is_gone l, ap bit yes')))
  ]

  ended_or :
      (t : Threads W)
      → IsCounted t
      → ((i : ℕ) (r : Ring) → get_elem? t.rings i ≡ some r → r.asked ≡ true)
      → Joined t ⊎ (Owes t ⊎ Acts handle t)
  ended_or t v asked = elim (Bool-cases (all_joined t.rings)) [
    | inl j ↦ inl (j, v.counter ∙ all_ended t.rings j)
    | inr n ↦
        let (i, r, e, p) = unjoined t.rings n in
        inr (goes_on t i r e p (All-at IsSound t.rings i v.sound e) (asked i r e))
  ]

  -- While `stop` waits for the threads, either all have ended and none is counted, or the kernel has
  -- a request of `stop` to complete, or a thread can go on, or one has a request to take from which
  -- it does not come back.
  pub stop_progresses :
      (s t : Threads W)
      → IsStarted s
      → Reach handle s t
      → t.stopper ≡ joining
      → Joined t ⊎ (Owes t ⊎ Acts handle t)
  stop_progresses s t st r waits =
      let v = Reach-IsCounted handle (IsStarted-IsCounted s st) r in
      ended_or t v (λ i q e. elim (v.covered i q e) [
        | inl a ↦ a
        | inr l ↦ absurd (subst (λ x. Listed i (left t.io_array x)) waits l)
      ])

  Run-works :
      {t u : Threads W} {k : ℕ}
      → Run handle t k u
      → IsCounted t
      → AllPosted t
      → (k + work u ≡ work t) × IsCounted u × AllPosted u
  Run-works here v all = (omega arith, v, all)
  Run-works (turn r x) v all =
      let (e, v', all') = Run-works r v all in
      let (f, all'') = Turn-works handle x all' in
      (omega (arith, e, f), Turn-IsCounted handle x v', all'')
  Run-works (kernel r x) v all =
      let (e, v', all') = Run-works r v all in
      let (f, all'') = Kernel-works handle x v' all' in
      (omega (arith, e, f), Kernel-IsCounted handle x v', all'')

  -- Once the kernel has completed the requests of `stop`, every turn of a thread is one of `work t`,
  -- whatever completes in between, and until all threads have ended one of them can go on, or has a
  -- request to take from which it does not come back.
  pub stop_ends :
      (s t u : Threads W) (k : ℕ)
      → IsStarted s
      → Reach handle s t
      → AllPosted t
      → Run handle t k u
      → (k + work u ≡ work t) × (Joined u ⊎ Acts handle u)
  stop_ends s t u k st r all run =
      let (e, v, all') = Run-works run (Reach-IsCounted handle (IsStarted-IsCounted s st) r) all in
      (
        e,
        elim (ended_or u v (λ i q at.
            asked_of q (All-at IsSound u.rings i v.sound at) (posted_at u i q at all'))) [
              | inl j ↦ inl j
              | inr (inl (i, q, at, a, owed)) ↦ let p = posted_at u i q at all' in cc
              | inr (inr x) ↦ inr x
            ],
      )
