-- ===== src/SimplePool/Conservation.antt =====
-- Where the objects of a simple_pool are (src/include/rioring/simple_pool.h).
use mathlib.Core.List.{Perm, perm_middle, perm_append_singleton, map-append}
use mathlib.Core.List.Perm
use rioring.Prelude.{ℕ, zero, suc, ◌≡◌, List, [], ◌∷◌, ◌++◌, map, append_assoc}
use rioring.SimplePool.{SimplePool, push, pop, pop_from, fill, new_pool}

-- The numbers below `n`, each once.
abbrev pub below : ℕ → List ℕ
below zero = []
below (suc n) = n ∷ below n

module _ {ℓ} {A : Type ℓ} (make : ℕ → A) (ident : A → ℕ) where
  -- A pool and the objects that its users hold.
  pub record Lending : Type ℓ where
    pub kept : SimplePool A
    pub lent : List A

  -- Every object made is in the pool or with one user, and in one place only.
  abbrev pub IsConserved : Lending → Type 0
  IsConserved l = Perm (map ident (l.lent ++ l.kept.pool)) (below l.kept.created)

  -- A user takes an object, or gives one back that it holds, changed or not.
  pub data Step : Lending → Lending → Type ℓ where
    take :
        {l : Lending}
        → Step l (record { kept = (pop make l.kept).1; lent = (pop make l.kept).0 ∷ l.lent })
    give :
        {kept : SimplePool A} (before after : List A) (held given : A)
        → ident given ≡ ident held
        → Step
            (record { kept = kept; lent = before ++ held ∷ after })
            (record { kept = push kept given; lent = before ++ after })

  pub data Reach : Lending → Lending → Type ℓ where
    here : {l : Lending} → Reach l l
    next : {l k j : Lending} → Reach l k → Step k j → Reach l j

  give_perm :
      (h : ℕ) (xs ys ps : List ℕ) → Perm ((xs ++ ys) ++ (ps ++ h ∷ [])) ((xs ++ h ∷ ys) ++ ps)
  give_perm h xs ys ps = rw (← append_assoc (xs ++ ys) ps (h ∷ [])) (
      Perm.trans (perm_append_singleton h ((xs ++ ys) ++ ps))
        (Perm.symm (Perm.append_right ps (perm_middle xs ys))))

  module _ (tagged : (n : ℕ) → ident (make n) ≡ n) where
    take-IsConserved :
        (pool lent : List A) (created : ℕ)
        → IsConserved (record { kept = record { pool = pool; created = created }; lent = lent })
        → let (a, p) = pop_from make pool created in
          IsConserved (record { kept = p; lent = a ∷ lent })
    unfolding pop_from
    take-IsConserved [] lent created c = rw (tagged created) (Perm.cons created c)
    take-IsConserved (a ∷ rest) lent created c =
        Perm.trans (Perm.map ident (Perm.symm (perm_middle lent rest))) c

    give-IsConserved :
        (kept : SimplePool A) (before after : List A) (held given : A)
        → ident given ≡ ident held
        → IsConserved (record { kept = kept; lent = before ++ held ∷ after })
        → IsConserved (record { kept = push kept given; lent = before ++ after })
    unfolding push
    give-IsConserved kept before after held given e c =
        Perm.trans
          (simp (map-append, e)
            (give_perm (ident held) (map ident before) (map ident after) (map ident kept.pool)))
          (simp map-append at c)

    Step-IsConserved : {l k : Lending} → Step l k → IsConserved l → IsConserved k
    unfolding pop
    Step-IsConserved (take {l}) c = take-IsConserved l.kept.pool l.lent l.kept.created c
    Step-IsConserved (give {kept} before after held given e) c =
        give-IsConserved kept before after held given e c

    fill-IsConserved :
        (left : ℕ) (p : SimplePool A)
        → IsConserved (record { kept = p; lent = [] })
        → IsConserved (record { kept = fill make left p; lent = [] })
    unfolding fill
    fill-IsConserved zero p c = c
    fill-IsConserved (suc left) p c = fill-IsConserved left _ (
        simp (map-append, tagged p.created)
          (Perm.trans (perm_append_singleton p.created (map ident p.pool)) (Perm.cons p.created c)))

    Reach-keeps : {l k : Lending} → IsConserved l → Reach l k → IsConserved k
    Reach-keeps c here = c
    Reach-keeps c (next r s) = Step-IsConserved s (Reach-keeps c r)

    -- After any takes and returns from a new pool, every object that was made is in the pool or
    -- with its one holder, once in all: none is lost, none is handed out twice.
    pub Reach-IsConserved :
        (n : ℕ) {k : Lending}
        → Reach (record { kept = new_pool make n; lent = [] }) k
        → IsConserved k
    unfolding new_pool
    Reach-IsConserved n r =
        Reach-keeps (fill-IsConserved n (record { pool = []; created = 0 }) Perm.nil) r
