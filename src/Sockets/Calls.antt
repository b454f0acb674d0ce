-- ===== src/Sockets/Calls.antt =====
-- A method of one of the sockets of a service, called by its number.
use rioring.Prelude.{
  ℕ, ◌≡◌, ◌⊎◌, inl, inr, refl, sym, ap, ap₂, subst, ◌∙◌, Bool-cases, true, false, List, [], ◌∷◌,
  map, ◌==◌, ==→eq, ==→ne, ne→eqb, if◌then◌else◌, All, contains, Distinct, Pointwise, no_pairs,
  paired, Outcome, ◌>>=◌, Returns,
}
use rioring.IoContext.{IoType}
use rioring.SocketObject.{SocketObject}
use rioring.Session.{Session}
use rioring.Session.Requests.{HasRings, outstanding}
use rioring.Session.Sending.{IsSending}
use rioring.Session.Frame.{Keeps}
use rioring.Sockets.{World, on_socket, apply}
use rioring.Sockets.Others.{session_of, OthersAlone, IsSameView, moved-IsSending}

abbrev pub number_of : SocketObject → ℕ
number_of o = o.base.obj_id

abbrev pub numbers : List SocketObject → List ℕ
numbers os = map number_of os

-- No two sockets have one number, and the sending half of each is in order.
pub record IsInOrder (w : World) : Type 0 where
  pub distinct : Distinct (numbers w.sockets)
  pub each : All (λ o. IsSending (session_of w o)) w.sockets

pub clash : {A : Type 0} → true ≡ false → A
clash e = cc

pub far_sym : (i k : ℕ) → (i == k) ≡ false → (k == i) ≡ false
far_sym i k h = ne→eqb k i (λ e. ==→ne i k h (sym e))

-- One method, what it needs of a socket, and what it does.
pub record IsMethod (method : Session → Outcome Session) (Pre : SocketObject → Type 0)
    (Post : Session → Session → Type 0) : Type 0 where
  pub runs :
      (s : Session) → IsSending s → Pre s.sock → Returns (method s) (λ s'. IsSending s' × Post s s')
  pub alone : (s : Session) → Keeps OthersAlone s (method s)
  -- What it does shows on the socket and on its own requests.
  pub seen : (s s' r r' : Session) → IsSameView s r → IsSameView s' r' → Post s s' → Post r r'

-- A socket once the one with the number `k` has been called, by a method that does `Post`.
unfoldable pub One :
    (Post : Session → Session → Type 0) (k : ℕ) (w w' : World)
    → SocketObject
    → SocketObject
    → Type 0
One Post k w w' o o' =
    (number_of o' ≡ number_of o)
    × (((number_of o ≡ k) × IsSending (session_of w' o') × Post (session_of w o) (session_of w' o'))
        ⊎ (((number_of o == k) ≡ false) × (o' ≡ o)))

module _ (method : Session → Outcome Session) (Pre : SocketObject → Type 0)
    (Post : Session → Session → Type 0) (m : IsMethod method Pre Post) where
  record Called (k : ℕ) (w : World) (os : List SocketObject) (r : List SocketObject × World)
      : Type 0 where
    pairs : Pointwise (One Post k w r.1) os r.0
    rings : HasRings r.1.service
    others :
        (t : IoType) (obj : ℕ)
        → (k == obj) ≡ false
        → outstanding t obj r.1.service.submitted ≡ outstanding t obj w.service.submitted

  strangers :
      (k : ℕ) (w w' : World) (os : List SocketObject)
      → contains k (numbers os) ≡ false
      → Pointwise (One Post k w w') os os
  unfolding One
  strangers k w w' [] h = no_pairs
  strangers k w w' (o ∷ os) h = elim (Bool-cases (number_of o == k)) [
    | inl hit ↦ clash (sym (ap (λ b. if b then true else contains k (numbers os)) hit) ∙ h)
    | inr miss ↦
        paired (refl, inr (miss, refl))
          (strangers k w w' os
            (sym (ap (λ b. if b then true else contains k (numbers os)) miss) ∙ h))
  ]

  on_socket_lem :
      (k : ℕ) (w : World) (os : List SocketObject)
      → contains k (numbers os) ≡ true
      → Distinct (numbers os)
      → All (λ o. IsSending (session_of w o)) os
      → All (λ o. number_of o ≡ k → Pre o) os
      → Returns (on_socket method k os w) (Called k w os)
  unfolding on_socket One OthersAlone
  on_socket_lem k w [] h d v p = cc
  on_socket_lem k w (o ∷ os) h d v p = elim (Bool-cases (number_of o == k)) [
    | inl hit ↦
        let is_k = ==→eq (number_of o) k hit in
        let (s', e, (v', post)) = m.runs (session_of w o) v.0 (p.0 is_k) in
        let (same_number, others) = m.alone (session_of w o) s' e in
        let w' : World = record w {
          service = s'.service;
          errors = s'.errors;
          closed = s'.closed;
        } in
        (
          (s'.sock ∷ os, w'),
          rw (hit, e, ◌>>=◌) refl,
          record {
            pairs =
                paired (same_number, inl (is_k, v', post))
                  (strangers k w w' os (subst (λ j. contains j (numbers os) ≡ false) is_k d.0));
            rings = v'.rings;
            others = λ t obj far. others t obj (ap (λ j. j == obj) is_k ∙ far);
          },
        )
    | inr miss ↦
        let (r, e, c) =
          on_socket_lem k w os
            (sym (ap (λ b. if b then true else contains k (numbers os)) miss) ∙ h) d.1 v.1 p.1 in
        (
          (o ∷ r.0, r.1),
          rw (miss, e, ◌>>=◌) refl,
          record {
            pairs = paired (refl, inr (miss, refl)) c.pairs;
            rings = c.rings;
            others = c.others;
          },
        )
  ]

  -- What one call comes to: the sockets, and the order that they are in.
  pub record Step (k : ℕ) (w w' : World) : Type 0 where
    pub pairs : Pointwise (One Post k w w') w.sockets w'.sockets
    pub same_numbers : numbers w'.sockets ≡ numbers w.sockets
    pub others :
        (t : IoType) (obj : ℕ)
        → (k == obj) ≡ false
        → outstanding t obj w'.service.submitted ≡ outstanding t obj w.service.submitted
    pub in_order : IsInOrder w'

  pairs-numbers :
      (k : ℕ) (w w' : World) {os os' : List SocketObject}
      → Pointwise (One Post k w w') os os'
      → numbers os' ≡ numbers os
  unfolding One
  pairs-numbers k w w' no_pairs = refl
  pairs-numbers k w w' (paired (n, _) ps) = ap₂ (λ i is. i ∷ is) n (pairs-numbers k w w' ps)

  pairs-IsSending :
      (k : ℕ) (w w' : World) {os os' : List SocketObject}
      → HasRings w'.service
      → ((t : IoType) (obj : ℕ)
          → (k == obj) ≡ false
          → outstanding t obj w'.service.submitted ≡ outstanding t obj w.service.submitted)
      → Pointwise (One Post k w w') os os'
      → All (λ o. IsSending (session_of w o)) os
      → All (λ o. IsSending (session_of w' o)) os'
  unfolding One
  pairs-IsSending k w w' rings others no_pairs v = v
  pairs-IsSending k w w' rings others (paired {x = o} {y = o'} (_, inl (_, v', _)) ps) (v, vs) =
      (v', pairs-IsSending k w w' rings others ps vs)
  pairs-IsSending k w w' rings others (paired {x = o} {y = o'} (_, inr (far, e)) ps) (v, vs) = (
    moved-IsSending (session_of w o) (session_of w' o') e rings
        (others IoType.write (number_of o) (far_sym (number_of o) k far)) v,
    pairs-IsSending k w w' rings others ps vs,
  )

  pub call_lem :
      (k : ℕ) (w : World)
      → IsInOrder w
      → contains k (numbers w.sockets) ≡ true
      → All (λ o. number_of o ≡ k → Pre o) w.sockets
      → Returns (apply method k w) (Step k w)
  unfolding apply One
  call_lem k w v h p =
      let (r, e, c) = on_socket_lem k w w.sockets h v.distinct v.each p in
      let w' : World = record r.1 { sockets = r.0 } in
      let n = pairs-numbers k w w' c.pairs in
      (
        w',
        rw (e, ◌>>=◌) refl,
        record {
          pairs = c.pairs;
          same_numbers = n;
          others = c.others;
          in_order = record {
            distinct = subst Distinct (sym n) v.distinct;
            each = pairs-IsSending k w w' c.rings c.others c.pairs v.each;
          };
        },
      )
