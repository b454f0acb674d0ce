-- ===== src/Startup/Rings.antt =====
-- The rings that there are when io_service::run (src/io_service.cpp) returns.
use rioring.Prelude.{
  ℕ, zero, suc, ◌≤◌, ◌<◌, ◌≡◌, ◌⊎◌, inl, inr, refl, sym, subst, Bool, true, false, List, [], ◌∷◌,
  none, some, get_elem?, get_elem?-some, get_elem?-set_cases, ◌++◌, replicate, length,
  length-append, total, total-set, ltb, ltb→le, ltb→lt, arith, if◌then◌else◌,
}
use rioring.Shutdown.Counted.{Listed}
use rioring.Startup.{
  Phase, starting, listed, running, Threads, push_ring, count_thread, run_threads, first_threads,
  run_waits, Step, list_ring, counts, Reach, here, next,
}

abbrev has_ring : Phase → ℕ
has_ring starting = 0
has_ring listed = 1
has_ring running = 1

abbrev is_counted : Phase → ℕ
is_counted starting = 0
is_counted listed = 0
is_counted running = 1

-- The array and the counter tell how far the threads are.
pub record IsCounted (n : ℕ) (t : Threads) : Type 0 where
  pub threads : length t.phases ≡ n
  pub rings : length t.io_array ≡ total has_ring t.phases
  pub counter : t.running_io ≡ total is_counted t.phases
  pub covered :
      (i : ℕ) (p : Phase) → get_elem? t.phases i ≡ some p → has_ring p ≡ 1 → Listed i t.io_array

Listed-here : (i : ℕ) (is : List ℕ) → Listed i (is ++ i ∷ [])
Listed-here i [] = inl refl
Listed-here i (j ∷ is) = inr (Listed-here i is)

Listed-before : (i j : ℕ) (is : List ℕ) → Listed i is → Listed i (is ++ j ∷ [])
Listed-before i j [] h = absurd h
Listed-before i j (k ∷ is) (inl e) = inl e
Listed-before i j (k ∷ is) (inr h) = inr (Listed-before i j is h)

Step-IsCounted : (n : ℕ) {t u : Threads} → Step t u → IsCounted n t → IsCounted n u
unfolding push_ring count_thread
Step-IsCounted n {t} (list_ring i e) v = record {
  threads = omega (arith, total-set has_ring t.phases i starting listed e, v.threads);
  rings = omega (
    arith,
    total-set has_ring t.phases i starting listed e,
    v.rings,
    length-append t.io_array (i ∷ []),
  );
  counter = omega (arith, total-set is_counted t.phases i starting listed e, v.counter);
  covered = λ j p q has. elim (get_elem?-set_cases t.phases i j listed q) [
    | inl (same, _) ↦ subst (λ k. Listed k (t.io_array ++ i ∷ [])) same (Listed-here i t.io_array)
    | inr (_, old) ↦ Listed-before j i t.io_array (v.covered j p old has)
  ];
}
Step-IsCounted n {t} (counts i e) v = record {
  threads = omega (arith, total-set has_ring t.phases i listed running e, v.threads);
  rings = omega (arith, total-set has_ring t.phases i listed running e, v.rings);
  counter = omega (arith, total-set is_counted t.phases i listed running e, v.counter);
  covered = λ j p q has. elim (get_elem?-set_cases t.phases i j running q) [
    | inl (same, _) ↦ subst (λ k. Listed k t.io_array) same (v.covered i listed e refl)
    | inr (_, old) ↦ v.covered j p old has
  ];
}

total_max : (ps : List Phase) → total has_ring ps ≤ length ps
total_max [] = omega arith
total_max (starting ∷ ps) = omega (arith, total_max ps)
total_max (listed ∷ ps) = omega (arith, total_max ps)
total_max (running ∷ ps) = omega (arith, total_max ps)

-- No thread has its ring in the array at first, and every one has once their number is reached.
none_has : (n i : ℕ) (p : Phase) → get_elem? (replicate n starting) i ≡ some p → p ≡ starting
none_has zero i p e = cc
none_has (suc n) zero p e = cc
none_has (suc n) (suc i) p e = none_has n i p e

has_max : (p : Phase) → has_ring p ≤ 1
has_max starting = omega arith
has_max listed = omega arith
has_max running = omega arith

all_have :
    (ps : List Phase) (i : ℕ) (p : Phase)
    → total has_ring ps ≡ length ps
    → get_elem? ps i ≡ some p
    → has_ring p ≡ 1
all_have [] i p e q = cc
all_have (o ∷ ps) zero p e q =
    subst (λ x. has_ring x ≡ 1) (entry_is q) (omega (arith, e, has_max o, total_max ps))
  where
    entry_is : {x y : Phase} → some x ≡ some y → x ≡ y
    entry_is e = cc
all_have (o ∷ ps) (suc i) p e q = all_have ps i p (omega (arith, e, has_max o, total_max ps)) q

replicate_totals :
    (n : ℕ)
    → (length (replicate n starting) ≡ n)
      × (total has_ring (replicate n starting) ≡ 0)
      × (total is_counted (replicate n starting) ≡ 0)
replicate_totals zero = (refl, refl, refl)
replicate_totals (suc n) = omega (arith, replicate_totals n)

Reach-IsCounted : (n : ℕ) {s t : Threads} → IsCounted n s → Reach s t → IsCounted n t
Reach-IsCounted n v here = v
Reach-IsCounted n v (next r s) = Step-IsCounted n s (Reach-IsCounted n v r)

-- What `run` starts if it does not refuse.
unless-some :
    (b : Bool) (x s : Threads) → (if b then none else some x) ≡ some s → (b ≡ false) × (x ≡ s)
unless-some true x s e = ground arith
unless-some false x s e = ground arith

run_threads-IsCounted : (n : ℕ) (s : Threads) → run_threads n ≡ some s → IsCounted n s
unfolding run_threads
run_threads-IsCounted n s e =
    let (_, same) = unless-some (ltb n 1) (first_threads n) s e in
    let (l, r, c) = replicate_totals n in
    subst (IsCounted n) same (record {
      threads = l;
      rings = sym r;
      counter = sym c;
      covered = λ i p q has. let bare = none_has n i p q in cc;
    })

total_le : (ps : List Phase) → total is_counted ps ≤ total has_ring ps
total_le [] = omega arith
total_le (starting ∷ ps) = omega (arith, total_le ps)
total_le (listed ∷ ps) = omega (arith, total_le ps)
total_le (running ∷ ps) = omega (arith, total_le ps)

-- When `run` stops waiting, the ring of every one of its threads is in the array, which has as many
-- entries as there are threads, in whatever order they started: a request submitted from then on finds a ring to draw.
pub run_rings :
    (n : ℕ) {s t : Threads}
    → run_threads n ≡ some s
    → Reach s t
    → run_waits n t ≡ false
    → ((i : ℕ) → i < n → Listed i t.io_array)
      × (length t.io_array ≡ n)
      × (t.running_io ≡ n)
      × (0 < length t.io_array)
unfolding run_waits run_threads
run_rings n {s} {t} e r stopped =
    let (some', _) = unless-some (ltb n 1) (first_threads n) s e in
    let v = Reach-IsCounted n (run_threads-IsCounted n s e) r in
    let (all_listed, entries, counted, not_empty) : (total has_ring t.phases ≡ length t.phases)
        × (length t.io_array ≡ n)
        × (t.running_io ≡ n)
        × (0 < length t.io_array) =
      omega (
        arith,
        v.threads,
        v.rings,
        v.counter,
        total_le t.phases,
        total_max t.phases,
        ltb→le t.running_io n stopped,
        ltb→le n 1 some',
      ) in
    (
      λ i h.
          let (p, q) = get_elem?-some t.phases i (omega (arith, h, v.threads)) in
          v.covered i p q (all_have t.phases i p all_listed q),
      entries,
      counted,
      not_empty,
    )

unfinished :
    (ps : List Phase)
    → total is_counted ps < length ps
    → (i : ℕ) × ((get_elem? ps i ≡ some starting) ⊎ (get_elem? ps i ≡ some listed))
unfinished [] h = absurd (omega (arith, h))
unfinished (starting ∷ ps) h = (0, inl refl)
unfinished (listed ∷ ps) h = (0, inr refl)
unfinished (running ∷ ps) h = let (i, e) = unfinished ps (omega (arith, h)) in (suc i, e)

-- While `run` waits, some thread can go on.
run_progresses :
    (n : ℕ) {s t : Threads}
    → run_threads n ≡ some s
    → Reach s t
    → run_waits n t ≡ true
    → (u : Threads) × Step t u
unfolding run_waits
run_progresses n {s} {t} e r waits =
    let v = Reach-IsCounted n (run_threads-IsCounted n s e) r in
    let (i, p) =
      unfinished t.phases (omega (arith, v.threads, v.counter, ltb→lt t.running_io n waits)) in
    elim p [ inl q ↦ (push_ring i t, list_ring i q) | inr q ↦ (count_thread i t, counts i q) ]
