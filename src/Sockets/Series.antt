-- ===== src/Sockets/Series.antt =====
-- A method of several sockets of one service, one after the other (examples/chatserver/pool.cpp and
-- examples/echoserver/main.cpp call them so).
use rioring.Prelude.{
  ℕ, ◌≡◌, ◌⊎◌, inl, inr, refl, sym, ap, subst, ◌∙◌, true, false, List, [], ◌∷◌, ◌==◌, ==_self,
  if◌then◌else◌, All, contains, Distinct, Pointwise, no_pairs, paired, Outcome, done, ◌>>=◌,
  Returns,
}
use rioring.IoContext.{IoType}
use rioring.SocketObject.{SocketObject}
use rioring.Session.{Session}
use rioring.Session.Requests.{outstanding}
use rioring.Sockets.{World, apply}
use rioring.Sockets.Others.{session_of, requests, IsSameView}
use rioring.Sockets.Calls.{number_of, numbers, IsInOrder, IsMethod, One, call_lem, clash, far_sym}

-- A socket once those with the numbers `ks` have been called, by a method that does `Post`.
unfoldable pub Each :
    (Post : Session → Session → Type 0) (ks : List ℕ) (w w' : World)
    → SocketObject
    → SocketObject
    → Type 0
Each Post ks w w' o o' =
    ((contains (number_of o) ks ≡ true) × Post (session_of w o) (session_of w' o'))
    ⊎ ((contains (number_of o) ks ≡ false) × IsSameView (session_of w o) (session_of w' o'))

module _ (method : Session → Outcome Session) (Pre : SocketObject → Type 0)
    (Post : Session → Session → Type 0) (m : IsMethod method Pre Post) where
  -- The calls in turn.
  abbrev pub each_of : List ℕ → World → Outcome World
  each_of [] w = done w
  each_of (k ∷ ks) w = apply method k w >>= λ w'. each_of ks w'

  unchanged : (w : World) (os : List SocketObject) → Pointwise (Each Post [] w w) os os
  unfolding Each
  unchanged w [] = no_pairs
  unchanged w (o ∷ os) =
      paired (inr (refl, record { same_sock = refl; same_requests = λ t. refl })) (unchanged w os)

  -- What the remaining sockets need is as it was.
  still :
      (k : ℕ) (ks : List ℕ) (w w' : World) {os os' : List SocketObject}
      → contains k ks ≡ false
      → Pointwise (One Post k w w') os os'
      → All (λ o. contains (number_of o) (k ∷ ks) ≡ true → Pre o) os
      → All (λ o. contains (number_of o) ks ≡ true → Pre o) os'
  unfolding One
  still k ks w w' h no_pairs p = p
  still k ks w w' h (paired {x = o} {y = o'} (n, inl (is_k, _, _)) ps) (p, qs) =
      (λ i. clash (sym i ∙ (ap (λ j. contains j ks) (n ∙ is_k) ∙ h)), still k ks w w' h ps qs)
  still k ks w w' h (paired {x = o} {y = o'} (n, inr (far, e)) ps) (p, qs) = (
    λ i. subst Pre (sym e) (
        p (
          ap (λ b. if b then true else contains (number_of o) ks) (far_sym (number_of o) k far)
          ∙ (ap (λ j. contains j ks) (sym n) ∙ i))),
    still k ks w w' h ps qs,
  )

  same_view : {s : Session} → IsSameView s s
  same_view = record { same_sock = refl; same_requests = λ t. refl }

  back :
      (k : ℕ) (w w₁ : World) (o o₁ : SocketObject)
      → ((t : IoType) (obj : ℕ)
          → (k == obj) ≡ false
          → outstanding t obj w₁.service.submitted ≡ outstanding t obj w.service.submitted)
      → (number_of o == k) ≡ false
      → o₁ ≡ o
      → IsSameView (session_of w₁ o₁) (session_of w o)
  back k w w₁ o o₁ others far e = record {
    same_sock = sym e;
    same_requests = λ t. sym (
        others t (number_of o₁)
          (ap (λ (x : SocketObject). k == number_of x) e ∙ far_sym (number_of o) k far));
  }

  joined_one :
      (k : ℕ) (ks : List ℕ) (w w₁ w' : World) (o o₁ o' : SocketObject)
      → contains k ks ≡ false
      → ((t : IoType) (obj : ℕ)
          → (k == obj) ≡ false
          → outstanding t obj w₁.service.submitted ≡ outstanding t obj w.service.submitted)
      → One Post k w w₁ o o₁
      → Each Post ks w₁ w' o₁ o'
      → Each Post (k ∷ ks) w w' o o'
  unfolding One Each
  joined_one k ks w w₁ w' o o₁ o' h others (n, inl (is_k, _, post)) (inl (i, _)) =
      clash (sym i ∙ (ap (λ j. contains j ks) (n ∙ is_k) ∙ h))
  joined_one k ks w w₁ w' o o₁ o' h others (n, inl (is_k, _, post)) (inr (_, view)) = inl (
    ap (λ b. if b then true else contains (number_of o) ks) (ap (λ j. k == j) is_k ∙ ==_self k),
    m.seen (session_of w o) (session_of w₁ o₁) (session_of w o) (session_of w' o') same_view view
        post,
  )
  joined_one k ks w w₁ w' o o₁ o' h others (n, inr (far, e)) (inl (i, post)) = inl (
    ap (λ b. if b then true else contains (number_of o) ks) (far_sym (number_of o) k far)
        ∙ (ap (λ j. contains j ks) (sym n) ∙ i),
    m.seen (session_of w₁ o₁) (session_of w' o') (session_of w o) (session_of w' o')
        (back k w w₁ o o₁ others far e) same_view post,
  )
  joined_one k ks w w₁ w' o o₁ o' h others (n, inr (far, e)) (inr (i, view)) = inr (
    ap (λ b. if b then true else contains (number_of o) ks) (far_sym (number_of o) k far)
        ∙ (ap (λ j. contains j ks) (sym n) ∙ i),
    record {
      same_sock = view.same_sock ∙ e;
      same_requests = λ t.
          subst (λ j. requests t j (session_of w' o') ≡ requests t j (session_of w₁ o₁)) n
            (view.same_requests t)
          ∙ others t (number_of o) (far_sym (number_of o) k far);
    },
  )

  joined :
      (k : ℕ) (ks : List ℕ) (w w₁ w' : World) {os os₁ os' : List SocketObject}
      → contains k ks ≡ false
      → ((t : IoType) (obj : ℕ)
          → (k == obj) ≡ false
          → outstanding t obj w₁.service.submitted ≡ outstanding t obj w.service.submitted)
      → Pointwise (One Post k w w₁) os os₁
      → Pointwise (Each Post ks w₁ w') os₁ os'
      → Pointwise (Each Post (k ∷ ks) w w') os os'
  joined k ks w w₁ w' h others no_pairs no_pairs = no_pairs
  joined k ks w w₁ w' h others (paired {x = o} {y = o₁} p ps) (paired {y = o'} q qs) =
      paired (joined_one k ks w w₁ w' o o₁ o' h others p q) (joined k ks w w₁ w' h others ps qs)

  called :
      (k : ℕ) (ks : List ℕ) (os : List SocketObject)
      → All (λ o. contains (number_of o) (k ∷ ks) ≡ true → Pre o) os
      → All (λ o. number_of o ≡ k → Pre o) os
  called k ks [] p = p
  called k ks (o ∷ os) (p, ps) = (
    λ is_k. p (
        ap (λ b. if b then true else contains (number_of o) ks)
          (ap (λ j. k == j) is_k ∙ ==_self k)),
    called k ks os ps,
  )

  -- Each of the sockets with the numbers is called, in turn, and every other is left alone.
  pub each_lem :
      (ks : List ℕ) (w : World)
      → IsInOrder w
      → Distinct ks
      → All (λ k. contains k (numbers w.sockets) ≡ true) ks
      → All (λ o. contains (number_of o) ks ≡ true → Pre o) w.sockets
      → Returns
          (each_of ks w)
          (λ w'. IsInOrder w' × Pointwise (Each Post ks w w') w.sockets w'.sockets)
  each_lem [] w v d known p = (w, refl, (v, unchanged w w.sockets))
  each_lem (k ∷ ks) w v (d, ds) (known, knowns) p =
      let (w₁, e, step) = call_lem method Pre Post m k w v known (called k ks w.sockets p) in
      let (w', e', (v', pairs)) =
        each_lem ks w₁ step.in_order ds
          (subst (λ ns. All (λ j. contains j ns ≡ true) ks) (sym step.same_numbers) knowns)
          (still k ks w w₁ d step.pairs p) in
      (w', rw (e, ◌>>=◌) e', (v', joined k ks w w₁ w' d step.others step.pairs pairs))
