-- ===== src/Completion/Stream.antt =====
-- The byte stream of a TCP socket over any series of sends, graceful closes and completed writes
-- (src/tcp_socket.cpp, src/socket_object.cpp, src/io_service.cpp).
use rioring.Prelude.{
  ℕ, suc, ◌≤◌, ◌<◌, ◌≡◌, inl, inr, refl, sym, ap, ap₂, subst, ◌∙◌, Returns-at, Bool, true, false,
  List, [], ◌∷◌, ◌++◌, append_assoc, take, drop, length, length-append, Option, none, some, Outcome,
  done, ◌>>=◌, Returns, arith, ◌==◌, if◌then◌else◌, take-append-drop, take-append_le, ==_self,
  take-take,
}
use rioring.Memory.{Allocator, IsAllocator, bytes_of}
use rioring.IoDoubleBuffer.Valid.{IsReady, HasRooms, contents}
use rioring.IoBuffer.Valid
use rioring.IoContext.{IoContext, IoType, IovBase, null, recv_bind, heap}
use rioring.IoService.{Submission, Uring, deallocate_context}
use rioring.Session.{close, Session, UserCode, send_pointer, send}
use rioring.Session.Requests.{IsUring, writes, outstanding-append, outstanding-split, single}
use rioring.Session.Sending.{pending, reads, Covers, IsSending, Queueing}
use rioring.Session.Send.{send_lem}
use rioring.Session.Shutdowns.{IsPassive}
use rioring.Session.Sent.{io_sent_lem}
use rioring.Session.Close.{Closing, close_lem}
use rioring.SocketObject.{graceful}
use rioring.Completion.{pos, dispatch, complete, current_sockaddr}

abbrev same_pointer : Option ℕ → Option ℕ → Bool
same_pointer none none = true
same_pointer none (some q) = false
same_pointer (some p) none = false
same_pointer (some p) (some q) = p == q

-- What the kernel reads at the address of a request: the buffer that is being sent, if the address
-- is still its own, and nothing that is known otherwise.
abbrev pub memory : Session → IovBase → List ℕ
memory s null = []
memory s recv_bind = s.sock.recv_bind_buffer
memory s (heap p) =
    if same_pointer p (send_pointer s)
    then bytes_of s.sock.send_buffer.main_buffer.raw_buffer
    else []

-- A socket with the bytes that the kernel has taken from it and those that `send` has accepted.
pub record Link : Type 0 where
  pub session : Session
  pub taken : List ℕ
  pub accepted : List ℕ

-- The session when the kernel has given an entry back, on the thread of its ring.
abbrev pub given_back : Session → ℕ → List Submission → Session
given_back s ring es = record s {
  service = record s.service { submitted = es; thread_ring = some ring };
}

module _ (u : Uring) (a : Allocator) (user : UserCode) where
  pub data Step (l : Link) : Link → Type 0 where
    -- The user sends at least one byte, and there is room for it.
    sends :
        (bytes : List ℕ) (s' : Session)
        → l.session.sock.connected_flag ≡ true
        → l.session.sock.shutdown_gracefully ≡ false
        → HasRooms l.session.sock.send_buffer (length bytes)
        → 0 < length bytes
        → send u a bytes l.session ≡ done (true, s')
        → Step l (record l { session = s'; accepted = l.accepted ++ bytes })
    -- The user closes the socket gracefully.
    closes :
        (s' : Session) → close u graceful l.session ≡ done s' → Step l (record l { session = s' })
    -- A write of this socket completes with some of its bytes.
    wrote :
        (before after : List Submission) (e : Submission) (n : ℕ) (s' : Session)
        → l.session.service.submitted ≡ before ++ e ∷ after
        → e.ctx.io_type ≡ IoType.write
        → e.ctx.handler ≡ some l.session.sock.obj_id
        → suc n ≤ e.ctx.iov_len
        → complete u a user e.ctx (pos (suc n)) (given_back l.session e.ring (before ++ after))
          ≡ done s'
        → Step l (record l {
          session = s';
          taken = l.taken ++ take (suc n) (memory l.session e.ctx.iov_base);
        })

  pub data Reach (l : Link) : Link → Type 0 where
    here : Reach l l
    next : {k j : Link} → Reach l k → Step k j → Reach l j

-- The sending half is in order, and every byte accepted has been taken or waits, in order.
pub record IsStream (l : Link) : Type 0 where
  pub sending : IsSending l.session
  pub whole : l.taken ++ contents l.session.sock.send_buffer ≡ l.accepted

same_pointer_self : (p : Option ℕ) → same_pointer p p ≡ true
same_pointer_self none = refl
same_pointer_self (some p) = ==_self p

-- A request that covers bytes reads the front of what waits.
pub memory_covered :
    (s : Session) (ctx : IoContext) (n : ℕ)
    → IsReady s.sock.send_buffer
    → Covers ctx s
    → n ≤ ctx.iov_len
    → take n (memory s ctx.iov_base) ≡ take n (contents s.sock.send_buffer)
memory_covered s ctx n v (base, _, covered) h =
    ap (λ b. take n (memory s b)) base
    ∙ (ap (λ c. take n (if c then bytes_of s.sock.send_buffer.main_buffer.raw_buffer else []))
          (same_pointer_self (send_pointer s))
        ∙ (sym (take-take n s.sock.send_buffer.main_buffer.buffer_offset _ (omega arith))
            ∙ sym (
                take-append_le n (Valid.contents s.sock.send_buffer.main_buffer)
                  (Valid.contents s.sock.send_buffer.sub_buffer)
                  (omega
                    (arith, Valid.length-contents s.sock.send_buffer.main_buffer v.main_valid)))))

-- The write that completes is the one that is outstanding.
pub completed_write :
    (s : Session) (before after : List Submission) (e : Submission)
    → IsSending s
    → s.service.submitted ≡ before ++ e ∷ after
    → e.ctx.io_type ≡ IoType.write
    → e.ctx.handler ≡ some s.sock.obj_id
    → Covers e.ctx s × (pending (given_back s e.ring (before ++ after)) ≡ [])
completed_write s before after e v es t h =
    let obj = s.sock.obj_id in
    let split : pending s ≡ writes obj before ++ e.ctx ∷ writes obj after =
      ap (writes obj) es ∙ outstanding-split IoType.write obj before after e t h in
    elim v.flight [
      | inl (_, p) ↦ absurd (
          omega (
            arith,
            ap length (sym split ∙ p),
            length-append (writes obj before) (e.ctx ∷ writes obj after),
          ))
      | inr (ctx, p, cov) ↦
          let (b, c, r) = single (writes obj before) (sym split ∙ p) in
          (
            subst (λ k. Covers k s) (sym c) cov,
            outstanding-append IoType.write obj before after ∙ ap₂ ◌++◌ b r,
          )
    ]

-- What a completed write of `n` bytes leaves, from `s`, whose outstanding requests are those of `s₁`.
pub record Wrote (n : ℕ) (s s₁ s' : Session) : Type 0 where
  pub w_sending : IsSending s'
  pub w_sock : s'.sock ≡ record s.sock { send_buffer = s'.sock.send_buffer }
  pub w_reads : reads s' ≡ reads s₁
  pub w_rest : contents s'.sock.send_buffer ≡ drop n (contents s.sock.send_buffer)

module _ (u : Uring) (f : IsUring u) (a : Allocator) (m : IsAllocator a) (user : UserCode)
    (passive : IsPassive user) where
  pub wrote_lem :
      (s : Session) (before after : List Submission) (e : Submission) (n : ℕ)
      → IsSending s
      → s.service.submitted ≡ before ++ e ∷ after
      → e.ctx.io_type ≡ IoType.write
      → e.ctx.handler ≡ some s.sock.obj_id
      → suc n ≤ e.ctx.iov_len
      → Returns
          (complete u a user e.ctx (pos (suc n)) (given_back s e.ring (before ++ after)))
          (Wrote (suc n) s (given_back s e.ring (before ++ after)))
  unfolding complete dispatch deallocate_context
  wrote_lem s before after e n v es t h le =
      let ((_, _, covered), none_out) = completed_write s before after e v es t h in
      let s₁ = given_back s e.ring (before ++ after) in
      let addr = current_sockaddr e.ctx s₁ in
      let settle : Session → Outcome Session =
        λ x. done (record x { service = deallocate_context x.service e.ctx }) in
      let (s', r, (p, q)) =
        io_sent_lem u f a user passive (suc n) addr s₁ v.is_tcp v.unlocked v.rings v.ready none_out
          (omega (arith, le, covered)) in
      (
        record s' { service = deallocate_context s'.service e.ctx },
        ap (λ k. dispatch u a user k e.ctx (pos (suc n)) s₁ >>= settle) t
            ∙ ap (λ k. k >>= settle) r,
        record {
          w_sending = record {
            is_tcp = q.is_tcp;
            unlocked = q.unlocked;
            rings = q.rings;
            ready = q.ready;
            front = q.front;
            flight = q.flight;
          };
          w_sock = p.p_sock;
          w_reads = p.p_reads;
          w_rest = p.p_rest;
        },
      )

  Step-IsStream : {l k : Link} → Step u a user l k → IsStream l → IsStream k
  Step-IsStream {l} (sends bytes s' connected open' room some_bytes e) v =
      let (_, q, w) =
        Returns-at (λ r. (r.0 ≡ true) × Queueing l.session bytes r.1 × IsSending r.1)
          (send_lem u f a m l.session bytes v.sending connected open' room some_bytes) e in
      record {
        sending = w;
        whole =
            ap (◌++◌ l.taken) q.q_appended
            ∙ (sym (append_assoc l.taken (contents l.session.sock.send_buffer) bytes)
                ∙ ap (λ x. x ++ bytes) v.whole);
      }
  Step-IsStream {l} (closes s' e) v =
      let w = Returns-at (Closing l.session) (close_lem u f l.session v.sending) e in
      record { sending = w.sending; whole = ap (◌++◌ l.taken) w.kept ∙ v.whole }
  Step-IsStream {l} (wrote before after e n s' es t h le r) v =
      let s = l.session in
      let cov = (completed_write s before after e v.sending es t h).0 in
      let w =
        Returns-at (Wrote (suc n) s (given_back s e.ring (before ++ after)))
          (wrote_lem s before after e n v.sending es t h le) r in
      record {
        sending = w.w_sending;
        whole =
            append_assoc l.taken _ _
            ∙ (ap₂ (λ x y. l.taken ++ (x ++ y))
                  (memory_covered s e.ctx (suc n) v.sending.ready cov le) w.w_rest
                ∙ (ap (◌++◌ l.taken) (take-append-drop (suc n) (contents s.sock.send_buffer))
                    ∙ v.whole));
      }

  -- From a socket whose sending half is in order, over any series of sends, graceful closes and
  -- completed writes, the latter with any part of their bytes, the sending half stays in order, and
  -- the bytes that the kernel took, with those that still wait behind them, are the bytes accepted:
  -- none is lost, doubled or out of order.
  pub Reach-IsStream : {l k : Link} → IsStream l → Reach u a user l k → IsStream k
  Reach-IsStream v here = v
  Reach-IsStream v (next r s) = Step-IsStream s (Reach-IsStream v r)
