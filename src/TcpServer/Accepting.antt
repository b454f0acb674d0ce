-- ===== src/TcpServer/Accepting.antt =====
-- tcp_server::run (src/tcp_server.cpp), and which requests a server has outstanding.
use rioring.Prelude.{
  ℕ, suc, ◌≤◌, ◌≡◌, max, refl, sym, ap, ap₂, ◌∙◌, Bool, true, false, not, ◌||◌, List, [], ◌∷◌, ◌++◌,
  Option, none, some, append-nil, done, ◌>>=◌, Returns, arith, Bool-cases, inl, inr, ◌==◌,
  if◌then◌else◌,
}
use rioring.ObjectBase.{ErrorCall, io_error}
use rioring.IoContext.{IoContext, IoType, new_context}
use rioring.IoService.{Submission, Uring, server, allocate_context}
use rioring.Session.Requests.{
  IsUring, HasRings, entry, outstanding, is_handler, outstanding-add, submit_lem,
}
use rioring.Session.Shutdowns.{and_false}
use rioring.TcpServer.{
  Acceptor, Listening, minus_one, error_occur, submit_server, submit_accept, run,
}

-- The requests to accept that the kernel holds.
abbrev pub accepts : Acceptor → List IoContext
accepts s = outstanding IoType.accept s.server_object.obj_id s.service.submitted

-- What one request of a server changes.
pub record Asked (t : IoType) (s s' : Acceptor) : Type 0 where
  pub same_server : s'.server_object ≡ s.server_object
  pub same_count : s'.obj_id_container ≡ s.obj_id_container
  pub same_rings : s'.service.io_array ≡ s.service.io_array
  pub same_errors : s'.errors ≡ s.errors
  pub request : IoContext
  pub ring : ℕ
  pub added :
      s'.service.submitted ≡ s.service.submitted ++ entry ring (server s.server_object) request ∷ []
  pub type' : request.io_type ≡ t
  pub handler : request.handler ≡ some s.server_object.obj_id

module _ (u : Uring) (f : IsUring u) where
  pub submit_server_lem :
      (t : IoType) (s : Acceptor) → HasRings s.service → Returns (submit_server u t s) (Asked t s)
  unfolding submit_server allocate_context
  submit_server_lem t s h =
      let (ctx, service) = allocate_context s.service in
      let request : IoContext = record ctx { handler = some s.server_object.obj_id; io_type = t } in
      let (ring, e) = submit_lem u f (server s.server_object) request service h in
      (
        record s {
          service = record service {
            submitted = service.submitted ++ entry ring (server s.server_object) request ∷ [];
          };
        },
        rw (e, ◌>>=◌, append-nil),
        record {
          same_server = refl;
          same_count = refl;
          same_rings = refl;
          same_errors = refl;
          request = request;
          ring = ring;
          added = refl;
          type' = refl;
          handler = refl;
        },
      )

  pub accepts-Asked :
      (s s' : Acceptor) (q : Asked IoType.accept s s') → accepts s' ≡ accepts s ++ q.request ∷ []
  accepts-Asked s s' q =
      ap₂ (λ o es. outstanding IoType.accept o es) (ap (λ o. o.obj_id) q.same_server) q.added
      ∙ outstanding-add IoType.accept s.server_object.obj_id q.ring s.service.submitted
          (server s.server_object) q.request q.type' q.handler

-- Whether one of the calls that `run` makes fails.
abbrev pub fails : Listening → Bool
fails os = (os.opened == minus_one) || (os.bind_fails || os.listen_fails)

abbrev pub requests : Bool → IoContext → List IoContext
requests failed ctx = if failed then [] else ctx ∷ []

abbrev pub reports : Bool → Listening → Acceptor → List ErrorCall
reports failed os s = if failed then io_error s.server_object.base os.errno else []

-- What `run` comes to.
pub record Ran (os : Listening) (s : Acceptor) (r : Bool × Acceptor) : Type 0 where
  pub outcome : r.0 ≡ not (fails os)
  pub opened : r.1.server_object ≡ record s.server_object { server_socket = os.opened }
  pub request : IoContext
  pub listening : accepts r.1 ≡ accepts s ++ requests (fails os) request
  pub reported : r.1.errors ≡ s.errors ++ reports (fails os) os s
  pub same_rings : r.1.service.io_array ≡ s.service.io_array

pub with_socket : Listening → Acceptor → Acceptor
with_socket os s = record s { server_object = record s.server_object { server_socket = os.opened } }

pub run-fails :
    (u : Uring) (os : Listening) (s : Acceptor)
    → fails os ≡ true
    → run u os s ≡ done (false, error_occur os.errno (with_socket os s))
unfolding run with_socket
run-fails u os s e = elim (Bool-cases (os.opened == minus_one)) [
  | inl a ↦ rw (a)
  | inr a ↦ elim (Bool-cases os.bind_fails) [
    | inl b ↦ rw (a, b)
    | inr b ↦ elim (Bool-cases os.listen_fails) [
      | inl c ↦ rw (a, b, c)
      | inr c ↦ absurd (ground (arith, a, b, c, e))
    ]
  ]
]

run-succeeds :
    (u : Uring) (os : Listening) (s s' : Acceptor)
    → fails os ≡ false
    → submit_accept u (with_socket os s) ≡ done s'
    → run u os s ≡ done (true, s')
unfolding run with_socket
run-succeeds u os s s' e sub = elim (Bool-cases (os.opened == minus_one)) [
  | inl a ↦ absurd (ground (arith, a, e))
  | inr a ↦ elim (Bool-cases os.bind_fails) [
    | inl b ↦ absurd (ground (arith, a, b, e))
    | inr b ↦ elim (Bool-cases os.listen_fails) [
      | inl c ↦ absurd (ground (arith, a, b, c, e))
      | inr c ↦ rw (a, b, c, sub, ◌>>=◌)
    ]
  ]
]

module _ (u : Uring) (f : IsUring u) where
  -- `run` says whether every call succeeded. If so, one request to accept has been submitted; if
  -- not, none has, and the error callback has been called once with the error.
  pub run_lem :
      (os : Listening) (s : Acceptor) → HasRings s.service → Returns (run u os s) (Ran os s)
  unfolding submit_accept with_socket
  run_lem os s h = elim (Bool-cases (fails os)) [
    | inl failed ↦ (
      (false, error_occur os.errno (with_socket os s)),
      run-fails u os s failed,
      record {
        outcome = ap not (sym failed);
        opened = refl;
        request = new_context 0;
        listening =
            sym (append-nil (accepts s))
            ∙ ap (λ b. accepts s ++ requests b (new_context 0)) (sym failed);
        reported = ap (λ b. s.errors ++ reports b os s) (sym failed);
        same_rings = refl;
      },
    )
    | inr fine ↦
        let (s', e, q) = submit_server_lem u f IoType.accept (with_socket os s) h in
        (
          (true, s'),
          run-succeeds u os s s' fine e,
          record {
            outcome = ap not (sym fine);
            opened = q.same_server;
            request = q.request;
            listening =
                accepts-Asked u f (with_socket os s) s' q
                ∙ ap (λ b. accepts s ++ requests b q.request) (sym fine);
            reported =
                q.same_errors
                ∙ (sym (append-nil s.errors) ∙ ap (λ b. s.errors ++ reports b os s) (sym fine));
            same_rings = q.same_rings;
          },
        )
  ]

-- One more than the greatest object that an outstanding request is for.
abbrev pub above : Option ℕ → ℕ
above none = 0
above (some obj) = suc obj

abbrev pub highest : List Submission → ℕ
highest [] = 0
highest (e ∷ es) = max (above e.ctx.handler) (highest es)

pub highest-append : (xs ys : List Submission) → highest (xs ++ ys) ≡ max (highest xs) (highest ys)
highest-append [] ys = omega arith
highest-append (e ∷ es) ys = omega (arith, highest-append es ys)

is_handler-above : (obj : ℕ) (h : Option ℕ) → above h ≤ obj → is_handler obj h ≡ false
is_handler-above obj none le = refl
is_handler-above obj (some k) le = ground arith

-- A new object has no request outstanding.
pub outstanding-highest :
    (t : IoType) (obj : ℕ) (es : List Submission) → highest es ≤ obj → outstanding t obj es ≡ []
outstanding-highest t obj [] h = refl
outstanding-highest t obj (e ∷ es) h = rw (
  is_handler-above obj e.ctx.handler (omega arith),
  and_false,
  outstanding-highest t obj es (omega arith),
)
