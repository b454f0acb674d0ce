-- ===== src/Shutdown/Work.antt =====
-- What the threads that io_service::stop (src/io_service.cpp) waits for still have to do.
use rioring.Prelude.{
  ℕ, suc, ◌+◌, ◌≤◌, ◌≡◌, refl, ap, subst, ◌∙◌, true, false, List, [], ◌∷◌, ◌++◌, some, get_elem?,
  set, All, All-at, All-set, total, total-set, Outcome, done, >>=-eq-done, done-injective, arith,
}
use rioring.IoContext.{IoContext}
use rioring.Completion.{ℤ}
use rioring.Shutdown.{
  Wait, failed, no_data, request, Phase, looping, broken, ended, Ring, Threads, io_round, leave,
  Turn, rounds, leaves, Kernel, arrives, posts,
}
use rioring.Shutdown.Counted.{IsCounted}
use rioring.Shutdown.Sound.{IsSound, is_gone, bit, stops}

-- How many entries a thread takes up to that of `stop`.
abbrev ahead : List Wait → ℕ
ahead [] = 0
ahead (failed ∷ ws) = suc (ahead ws)
ahead (no_data ∷ ws) = 0
ahead (request ctx res ∷ ws) = suc (ahead ws)

abbrev turns_at : Phase → List Wait → ℕ
turns_at looping ws = ahead ws + 2
turns_at broken ws = 1
turns_at ended ws = 0

abbrev turns : Ring → ℕ
turns r = turns_at r.phase r.waits

-- The turns that the threads have left, once the kernel has completed the requests of `stop`.
abbrev pub work : {W : Type 0} → Threads W → ℕ
work t = total turns t.rings

abbrev pub AllPosted : {W : Type 0} → Threads W → Type 0
AllPosted t = All (λ (r : Ring). r.posted ≡ true) t.rings

-- A ring whose request of `stop` the kernel has not completed.
abbrev pub Owes : {W : Type 0} → Threads W → Type 0
Owes t =
    (i : ℕ) × (r : Ring) × (get_elem? t.rings i ≡ some r) × (r.asked ≡ true) × (r.posted ≡ false)

ahead-append : (ws : List Wait) (w : Wait) → 1 ≤ stops ws → ahead (ws ++ w ∷ []) ≡ ahead ws
ahead-append [] w h = absurd (omega arith)
ahead-append (failed ∷ ws) w h = omega (arith, ahead-append ws w)
ahead-append (no_data ∷ ws) w h = refl
ahead-append (request ctx res ∷ ws) w h = omega (arith, ahead-append ws w)

turns-append :
    (p : Phase) (ws : List Wait) (w : Wait)
    → stops ws + is_gone p ≡ 1
    → turns_at p (ws ++ w ∷ []) ≡ turns_at p ws
turns-append looping ws w h = omega (arith, ahead-append ws w)
turns-append broken ws w h = refl
turns-append ended ws w h = refl

AllPosted-set :
    (rs : List Ring) (i : ℕ) (r q : Ring)
    → get_elem? rs i ≡ some r
    → q.posted ≡ r.posted
    → All (λ (x : Ring). x.posted ≡ true) rs
    → All (λ (x : Ring). x.posted ≡ true) (set rs i q)
AllPosted-set rs i r q e same all =
    All-set (λ x. x.posted ≡ true) rs i all (same ∙ All-at (λ x. x.posted ≡ true) rs i all e)

-- What a turn leaves: one less to do.
abbrev Worked : {W : Type 0} → Threads W → Threads W → Type 0
Worked t u = (suc (work u) ≡ work t) × AllPosted u

module _ {W : Type 0} (t : Threads W) (i : ℕ) (r q : Ring) (e : get_elem? t.rings i ≡ some r) where
  worked_lem :
      suc (turns q) ≡ turns r
      → q.posted ≡ r.posted
      → AllPosted t
      → (suc (total turns (set t.rings i q)) ≡ total turns t.rings)
        × All (λ (x : Ring). x.posted ≡ true) (set t.rings i q)
  worked_lem less same all =
      (omega (arith, total-set turns t.rings i r q e, less), AllPosted-set t.rings i r q e same all)

module _ {W : Type 0} (handle : IoContext → ℤ → W → Outcome W) where
  round_works :
      (w : Wait) (i : ℕ) (r : Ring) (ws : List Wait) (t t' : Threads W)
      → get_elem? t.rings i ≡ some r
      → r.phase ≡ looping
      → r.waits ≡ w ∷ ws
      → io_round handle w i (record r { waits = ws }) t ≡ done t'
      → AllPosted t
      → Worked t t'
  unfolding io_round
  round_works failed i r ws t t' e p h d all =
      subst (Worked t) (done-injective d)
        (worked_lem t i r (record r { waits = ws }) e (rw (p, h) (omega arith)) refl all)
  round_works no_data i r ws t t' e p h d all = subst (Worked t) (done-injective d) (
      worked_lem t i r (record r { waits = ws; phase = broken }) e (rw (p, h) (omega arith)) refl
        all)
  round_works (request ctx res) i r ws t t' e p h d all =
      let (w, _, d') = >>=-eq-done (handle ctx res t.world) _ d in
      subst (Worked t) (done-injective d')
        (worked_lem t i r (record r { waits = ws }) e (rw (p, h) (omega arith)) refl all)

  pub Turn-works : {t u : Threads W} → Turn handle t u → AllPosted t → Worked t u
  unfolding leave
  Turn-works {t} (rounds i r w ws t' e p h d) all = round_works w i r ws t t' e p h d all
  Turn-works {t} (leaves i r e p) all =
      worked_lem t i r (record r { phase = ended }) e (rw p refl) refl all

  pub Kernel-works :
      {t u : Threads W}
      → Kernel handle t u
      → IsCounted t
      → AllPosted t
      → (work u ≡ work t) × AllPosted u
  Kernel-works {t} (arrives i r w e new) v all =
      let q = record r { waits = r.waits ++ w ∷ [] } in
      let s = All-at IsSound t.rings i v.sound e in
      let posted = All-at (λ (x : Ring). x.posted ≡ true) t.rings i all e in
      let same = turns-append r.phase r.waits w (s.once ∙ ap bit posted) in
      (omega (arith, total-set turns t.rings i r q e, same), AllPosted-set t.rings i r q e refl all)
  Kernel-works {t} (posts i r e a p) v all =
      let posted = All-at (λ (x : Ring). x.posted ≡ true) t.rings i all e in cc
