-- ===== src/Session/Requests.antt =====
-- Which requests a socket has outstanding, and what submitting one changes (src/io_service.cpp).
use rioring.Prelude.{
  get_elem?-some, ℕ, ◌≡◌, refl, sym, ap, ◌∙◌, Bool, true, false, ◌&&◌, List, [], ◌∷◌, ◌++◌,
  append-nil, Option, none, some, ◌==◌, ==_self, ◌-◌, ◌<◌, ◌≤◌, length, size_mod, sub_size_lem,
  Option-cases, if◌then◌else◌, done, ◌>>=◌, arith, Bool-cases, inl, inr,
}
use rioring.IoContext.{IoContext, IoType}
use rioring.IoService.{
  IoService, Submission, Handler, Uring, socket, prepare, choose_ring, submit, submit_on,
}
use rioring.Session.{Session, submit_context}

abbrev tag : IoType → ℕ
tag IoType.unknown = 0
tag IoType.accept = 1
tag IoType.read = 2
tag IoType.write = 3
tag IoType.shutdown = 4

abbrev pub is_type : IoType → IoType → Bool
is_type t k = tag t == tag k

abbrev pub is_handler : ℕ → Option ℕ → Bool
is_handler obj none = false
is_handler obj (some h) = h == obj

-- The outstanding requests of one type and object, oldest first.
abbrev pub outstanding : IoType → ℕ → List Submission → List IoContext
outstanding t obj [] = []
outstanding t obj (e ∷ es) =
    if is_type e.ctx.io_type t && is_handler obj e.ctx.handler
    then e.ctx ∷ outstanding t obj es
    else outstanding t obj es

abbrev pub writes : ℕ → List Submission → List IoContext
writes = outstanding IoType.write

pub outstanding-append :
    (t : IoType) (obj : ℕ) (xs ys : List Submission)
    → outstanding t obj (xs ++ ys) ≡ outstanding t obj xs ++ outstanding t obj ys
outstanding-append t obj [] ys = refl
outstanding-append t obj (e ∷ es) ys =
    elim (Bool-cases (is_type e.ctx.io_type t && is_handler obj e.ctx.handler)) [
      | inl same ↦ rw (same, outstanding-append t obj es ys)
      | inr other ↦ rw (other, outstanding-append t obj es ys)
    ]

-- One request among the others.
pub outstanding-split :
    (t : IoType) (obj : ℕ) (before after : List Submission) (e : Submission)
    → e.ctx.io_type ≡ t
    → e.ctx.handler ≡ some obj
    → outstanding t obj (before ++ e ∷ after)
      ≡ outstanding t obj before ++ e.ctx ∷ outstanding t obj after
outstanding-split t obj before after e k h =
    outstanding-append t obj before (e ∷ after)
    ∙ ap (◌++◌ (outstanding t obj before))
        (is_one (ap (λ j. is_type j t) k ∙ ==_self (tag t)) (ap (is_handler obj) h ∙ ==_self obj))
  where
    is_one :
        is_type e.ctx.io_type t ≡ true
        → is_handler obj e.ctx.handler ≡ true
        → outstanding t obj (e ∷ after) ≡ e.ctx ∷ outstanding t obj after
    is_one w o = rw (w, o)

-- A request of another type among the others.
pub outstanding-without :
    (t : IoType) (obj : ℕ) (before after : List Submission) (e : Submission)
    → is_type e.ctx.io_type t ≡ false
    → outstanding t obj (before ++ e ∷ after) ≡ outstanding t obj (before ++ after)
outstanding-without t obj before after e k =
    outstanding-append t obj before (e ∷ after)
    ∙ (ap (◌++◌ (outstanding t obj before)) is_none ∙ sym (outstanding-append t obj before after))
  where
    is_none : outstanding t obj (e ∷ after) ≡ outstanding t obj after
    is_none = rw k

pub single :
    (xs : List IoContext) {y z : IoContext} {ys : List IoContext}
    → xs ++ y ∷ ys ≡ z ∷ []
    → (xs ≡ []) × (y ≡ z) × (ys ≡ [])
single [] e = ground arith
single (x ∷ []) e = ground arith
single (x ∷ w ∷ xs) e = ground arith

-- The entry that `submit` adds.
abbrev pub entry : ℕ → Handler → IoContext → Submission
entry ring h ctx = record { ring = ring; sqe = prepare ctx.io_type ctx.ctype h; ctx = ctx }

-- A new request comes last among those of its type and object.
pub outstanding-add :
    (t : IoType) (obj ring : ℕ) (es : List Submission) (e : Handler) (ctx : IoContext)
    → ctx.io_type ≡ t
    → ctx.handler ≡ some obj
    → outstanding t obj (es ++ entry ring e ctx ∷ []) ≡ outstanding t obj es ++ ctx ∷ []
outstanding-add t obj ring es e ctx k h =
    outstanding-append t obj es (entry ring e ctx ∷ [])
    ∙ ap (◌++◌ (outstanding t obj es))
        (is_one (ap (λ j. is_type j t) k ∙ ==_self (tag t)) (ap (is_handler obj) h ∙ ==_self obj))
  where
    is_one :
        is_type ctx.io_type t ≡ true
        → is_handler obj ctx.handler ≡ true
        → outstanding t obj (entry ring e ctx ∷ []) ≡ ctx ∷ []
    is_one w o = rw (w, o)

-- A request of another type adds nothing.
pub outstanding-other :
    (t : IoType) (obj ring : ℕ) (es : List Submission) (e : Handler) (ctx : IoContext)
    → is_type ctx.io_type t ≡ false
    → outstanding t obj (es ++ entry ring e ctx ∷ []) ≡ outstanding t obj es
outstanding-other t obj ring es e ctx k =
    outstanding-append t obj es (entry ring e ctx ∷ [])
    ∙ (ap (◌++◌ (outstanding t obj es)) is_none ∙ append-nil (outstanding t obj es))
  where
    is_none : outstanding t obj (entry ring e ctx ∷ []) ≡ []
    is_none = rw k

-- A request of another object adds nothing.
pub outstanding-stranger :
    (t : IoType) (obj other ring : ℕ) (es : List Submission) (e : Handler) (ctx : IoContext)
    → ctx.handler ≡ some other
    → (other == obj) ≡ false
    → outstanding t obj (es ++ entry ring e ctx ∷ []) ≡ outstanding t obj es
outstanding-stranger t obj other ring es e ctx h far =
    outstanding-append t obj es (entry ring e ctx ∷ [])
    ∙ (ap (◌++◌ (outstanding t obj es)) (is_none (ap (is_handler obj) h ∙ far))
        ∙ append-nil (outstanding t obj es))
  where
    is_none : is_handler obj ctx.handler ≡ false → outstanding t obj (entry ring e ctx ∷ []) ≡ []
    is_none o = elim (Bool-cases (is_type ctx.io_type t)) [ inl w ↦ rw (w, o) | inr w ↦ rw w ]

-- What the service relies on in liburing: an entry is free (every caller of `io_uring_get_sqe`
-- submits it at once), and a draw lies in the range that was asked for.
pub record IsUring (u : Uring) : Type 0 where
  pub free : (ring : ℕ) (es : List Submission) → u.get_sqe ring es ≡ true
  pub draws : (es : List Submission) (b e : ℕ) → b ≤ e → u.random es b e ≤ e

-- `io_array` is filled, and its size is a `size_t`.
abbrev pub HasRings : IoService → Type 0
HasRings s = (0 < length s.io_array) × (length s.io_array < size_mod)

-- The session after a context has been handed to the kernel.
abbrev pub handed : ℕ → IoContext → IoService → Session → Session
handed ring ctx service s = record s {
  service = record service { submitted = service.submitted ++ entry ring (socket s.sock) ctx ∷ [] };
}

module _ (u : Uring) (f : IsUring u) where
  pub choose_ring-some : (s : IoService) → HasRings s → (ring : ℕ) × (choose_ring u s ≡ some ring)
  unfolding choose_ring
  choose_ring-some s (some', small) = elim (Option-cases s.thread_ring) [
    | inr (ring, e) ↦ (ring, rw (e, choose_ring))
    | inl e ↦
        let last = sub_size_lem (length s.io_array) 1 some' small in
        let d = f.draws s.submitted 0 (length s.io_array - 1) (omega arith) in
        rw (e, choose_ring, last)
          (get_elem?-some s.io_array (u.random s.submitted 0 (length s.io_array - 1)) (omega arith))
  ]

  -- `submit` hands the context to the kernel and reports no error.
  pub submit_lem :
      (h : Handler) (ctx : IoContext) (service : IoService)
      → HasRings service
      → (ring : ℕ) × (submit u h ctx service
          ≡ done (record {
            accepted = true;
            service = record service { submitted = service.submitted ++ entry ring h ctx ∷ [] };
            errors = [];
          }))
  unfolding submit submit_on
  submit_lem h ctx service rings =
      let (ring, e) = choose_ring-some service rings in
      (ring, rw (e, submit, f.free ring service.submitted, ◌>>=◌))

  pub submit_context_lem :
      (ctx : IoContext) (service : IoService) (s : Session)
      → HasRings service
      → (ring : ℕ) × (submit_context u ctx service s ≡ done (handed ring ctx service s))
  unfolding submit_context
  submit_context_lem ctx service s h =
      let (ring, e) = submit_lem (socket s.sock) ctx service h in (ring, rw (e, ◌>>=◌, append-nil))
