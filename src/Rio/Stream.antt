-- ===== src/Rio/Stream.antt =====
-- The bytes that a socket sends on Windows over any series of sends and completed writes
-- (src/tcp_socket.cpp, src/socket_object.cpp and src/io_service.cpp under WIN32).
use rioring.Prelude.{
  ℕ, ◌≤◌, ◌<◌, ◌≡◌, inl, inr, sym, ap, ap₂, subst, ◌∙◌, Bool, true, false, List, [], ◌∷◌, ◌++◌,
  append_assoc, length, length-append, take, drop, take-append-drop, take-take, some, Option-cases,
  Outcome, done, ◌>>=◌, Returns, Returns-at, arith,
}
use rioring.Memory.{Allocator, IsAllocator}
use rioring.IoDoubleBuffer.Valid.{HasRooms, contents}
use rioring.IoContext.{IoType, Sockaddr}
use rioring.SocketObject.{tcp}
use rioring.Rio.{
  RioTable, RioService, Request, settle, deallocate_context, deallocate_address_context,
}
use rioring.Rio.Requests.{view, writes, writes-append, writes-split}
use rioring.Session.Requests.{single}
use rioring.Rio.Socket.{RioSession, RioUser, send, send_to, complete, dispatch}
use rioring.Rio.Sending.{buffer_of, pending, Copies, IsSending}
use rioring.Rio.Sent.{IsPassive, send_lem, send_to_lem, io_sent_lem}

-- A socket with the bytes that the system has sent for it and those that the user has handed over.
pub record Link : Type 0 where
  pub session : RioSession
  pub taken : List ℕ
  pub accepted : List ℕ

-- The session when a request has been taken off its completion queue.
abbrev pub given_back : RioSession → List Request → RioSession
given_back s rs = record s { service = record s.service { submitted = rs } }

module _ (rio : RioTable) (a : Allocator) (user : RioUser) where
  pub data Step (l : Link) : Link → Type 0 where
    -- The user sends at least one byte, and there is room for it.
    sends :
        (bytes : List ℕ) (s' : RioSession)
        → l.session.sock.object.socket_type ≡ tcp
        → l.session.sock.object.connected_flag ≡ true
        → l.session.sock.object.shutdown_gracefully ≡ false
        → HasRooms (buffer_of l.session) (length bytes)
        → 0 < length bytes
        → send rio a bytes l.session ≡ done (true, s')
        → Step l (record l { session = s'; accepted = l.accepted ++ bytes })
    -- The user of a UDP socket sends at least one byte to an address.
    sends_to :
        (bytes : List ℕ) (addr : Sockaddr) (s' : RioSession)
        → HasRooms (buffer_of l.session) (length bytes)
        → 0 < length bytes
        → send_to rio a bytes (some addr) l.session ≡ done (true, s')
        → Step l (record l { session = s'; accepted = l.accepted ++ bytes })
    -- A write of this socket completes with some of its bytes, or fails with none.
    wrote :
        (before after : List Request) (r : Request) (n : ℕ) (s' : RioSession)
        → l.session.service.submitted ≡ before ++ r ∷ after
        → r.ctx.io_type ≡ IoType.write
        → r.ctx.handler ≡ some l.session.sock.object.base.obj_id
        → n ≤ r.ctx.buf.length
        → complete rio a user r.ctx n (given_back l.session (before ++ after)) ≡ done s'
        → Step l
            (record l { session = s'; taken = l.taken ++ take n l.session.sock.send_bind_buffer })

  pub data Reach (l : Link) : Link → Type 0 where
    here : Reach l l
    next : {k j : Link} → Reach l k → Step k j → Reach l j

-- The sending half is in order, and every byte accepted has been sent or waits, in order.
pub record IsRioStream (l : Link) : Type 0 where
  pub sending : IsSending l.session
  pub whole : l.taken ++ contents (buffer_of l.session) ≡ l.accepted

-- The write that completes is the one that is outstanding.
completed_write :
    (s : RioSession) (before after : List Request) (r : Request)
    → IsSending s
    → s.service.submitted ≡ before ++ r ∷ after
    → r.ctx.io_type ≡ IoType.write
    → r.ctx.handler ≡ some s.sock.object.base.obj_id
    → Copies (view r).ctx s × (pending (given_back s (before ++ after)) ≡ [])
completed_write s before after r v es t h =
    let obj = s.sock.object.base.obj_id in
    let split : pending s ≡ writes obj before ++ (view r).ctx ∷ writes obj after =
      ap (writes obj) es ∙ writes-split obj before after r t h in
    elim v.flight [
      | inl (_, p) ↦ absurd (
          omega (
            arith,
            ap length (sym split ∙ p),
            length-append (writes obj before) ((view r).ctx ∷ writes obj after),
          ))
      | inr (ctx, p, cov) ↦
          let (b, c, d) = single (writes obj before) (sym split ∙ p) in
          (subst (λ k. Copies k s) (sym c) cov, writes-append obj before after ∙ ap₂ ◌++◌ b d)
    ]

-- What both calls for sending leave.
abbrev Accepts : Link → List ℕ → Bool × RioSession → Type 0
Accepts l bytes r =
    (r.0 ≡ true)
    × IsSending r.1
    × (contents (buffer_of r.1) ≡ contents (buffer_of l.session) ++ bytes)

accepted_more :
    (l : Link) (bytes : List ℕ) (s' : RioSession)
    → IsRioStream l
    → Accepts l bytes (true, s')
    → IsRioStream (record l { session = s'; accepted = l.accepted ++ bytes })
accepted_more l bytes s' v (_, w, c) = record {
  sending = w;
  whole =
      ap (◌++◌ l.taken) c
      ∙ (sym (append_assoc l.taken (contents (buffer_of l.session)) bytes)
          ∙ ap (λ x. x ++ bytes) v.whole);
}

module _ (rio : RioTable) (a : Allocator) (m : IsAllocator a) (user : RioUser)
    (passive : IsPassive user) where
  settle-submitted : (r : Request) (s : RioService) → (settle r.ctx s).submitted ≡ s.submitted
  unfolding settle deallocate_context deallocate_address_context
  settle-submitted r s = elim (Option-cases r.ctx.binded_address_context) [
    | inl e ↦ rw e
    | inr (buf, e) ↦ rw e
  ]

  -- The context goes back to the pool, and its address buffer.
  settled :
      (r : Request) (s : RioSession)
      → IsSending s
      → IsSending (record s { service = settle r.ctx s.service })
  settled r s v =
      let same = ap (writes s.sock.object.base.obj_id) (settle-submitted r s.service) in
      record {
        unlocked = v.unlocked;
        ready = v.ready;
        front = v.front;
        flight = elim v.flight [
          | inl (nothing, p) ↦ inl (nothing, same ∙ p)
          | inr (ctx, p, cov) ↦ inr (ctx, same ∙ p, cov)
        ];
      }

  wrote_lem :
      (s : RioSession) (before after : List Request) (r : Request) (n : ℕ)
      → IsSending s
      → s.service.submitted ≡ before ++ r ∷ after
      → r.ctx.io_type ≡ IoType.write
      → r.ctx.handler ≡ some s.sock.object.base.obj_id
      → n ≤ r.ctx.buf.length
      → Returns
          (complete rio a user r.ctx n (given_back s (before ++ after)))
          (λ s'. IsSending s' × (contents (buffer_of s') ≡ drop n (contents (buffer_of s))))
  unfolding complete dispatch
  wrote_lem s before after r n v es t h le =
      let ((_, covered, _), none_out) = completed_write s before after r v es t h in
      let s₁ = given_back s (before ++ after) in
      let go : RioSession → Outcome RioSession =
        λ x. done (record x { service = settle r.ctx x.service }) in
      let (s', e, (w, c)) =
        io_sent_lem rio a m user passive n r.ctx.addr s₁ v.unlocked v.ready none_out
          (omega (arith, le, covered)) in
      (
        record s' { service = settle r.ctx s'.service },
        ap (λ k. dispatch rio a user k n r.ctx.addr s₁ >>= go) t ∙ ap (λ k. k >>= go) e,
        (settled r s' w, c),
      )

  Step-IsRioStream : {l k : Link} → Step rio a user l k → IsRioStream l → IsRioStream k
  Step-IsRioStream {l} (sends bytes s' is_tcp connected open' room some_bytes e) v =
      accepted_more l bytes s' v (
        Returns-at (Accepts l bytes)
          (send_lem rio a m l.session bytes v.sending is_tcp connected open' room some_bytes) e)
  Step-IsRioStream {l} (sends_to bytes addr s' room some_bytes e) v = accepted_more l bytes s' v (
      Returns-at (Accepts l bytes)
        (send_to_lem rio a m l.session bytes addr v.sending room some_bytes) e)
  Step-IsRioStream {l} (wrote before after r n s' es t h le e) v =
      let s = l.session in
      let (_, _, same) = (completed_write s before after r v.sending es t h).0 in
      let (w, c) =
        Returns-at (λ x. IsSending x × (contents (buffer_of x) ≡ drop n (contents (buffer_of s))))
          (wrote_lem s before after r n v.sending es t h le) e in
      let front : take n s.sock.send_bind_buffer ≡ take n (contents (buffer_of s)) =
        sym (take-take n r.ctx.buf.length s.sock.send_bind_buffer le)
        ∙ (ap (take n) same ∙ take-take n r.ctx.buf.length (contents (buffer_of s)) le) in
      record {
        sending = w;
        whole =
            append_assoc l.taken _ _
            ∙ (ap₂ (λ x y. l.taken ++ (x ++ y)) front c
                ∙ (ap (◌++◌ l.taken) (take-append-drop n (contents (buffer_of s))) ∙ v.whole));
      }

  -- From a socket of either kind whose sending half is in order, over any series of sends and
  -- completed writes, the latter with any part of their bytes or none, the sending half stays in
  -- order, and the bytes that the system sent from the registered array, with those that still wait
  -- behind them, are the bytes accepted: none is lost, doubled or out of order.
  pub Reach-IsRioStream : {l k : Link} → IsRioStream l → Reach rio a user l k → IsRioStream k
  Reach-IsRioStream v here = v
  Reach-IsRioStream v (next r s) = Step-IsRioStream s (Reach-IsRioStream v r)
