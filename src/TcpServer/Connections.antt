-- ===== src/TcpServer/Connections.antt =====
-- tcp_server::io_accepting (src/tcp_server.cpp) over any series of connections.
use rioring.Prelude.{
  ℕ, suc, ◌<◌, ◌≤◌, ◌≡◌, refl, sym, ap, ap₂, subst, ◌∙◌, false, List, [], ◌∷◌, ◌++◌, some, Outcome,
  done, ◌>>=◌, Returns, Returns-at, arith, add_size, add_size_lem, size_mod,
}
use rioring.Memory.{Allocator, IsAllocator}
use rioring.ObjectBase.{ObjectBase, new_object}
use rioring.IoContext.{IoContext, IoType, Sockaddr}
use rioring.SocketObject.{SocketObject, tcp, new_socket, set_remote_info}
use rioring.IoService.{Submission, TcpServer, Uring, deallocate_context}
use rioring.Session.Requests.{
  IsUring, HasRings, outstanding, outstanding-split, outstanding-append, single,
}
use rioring.Completion.{pos}
use rioring.TcpServer.{
  Acceptor, activate, io_accepting, on_accepted, dispatch_server, complete_server,
}
use rioring.TcpServer.Accepting.{accepts, highest, highest-append}
use rioring.TcpServer.Accepted.{IsSetup, Accepted, new_socket_lem, on_accept_lem, activate_lem}

-- A server that listens, and the sockets that it has accepted, the latest first.
pub record Listener : Type 0 where
  pub acceptor : Acceptor
  pub sockets : List SocketObject

-- The acceptor when the kernel has given an entry back, on the thread of its ring.
abbrev pub given_back : Acceptor → ℕ → List Submission → Acceptor
given_back s ring es = record s {
  service = record s.service { submitted = es; thread_ring = some ring };
}

module _ (u : Uring) (a : Allocator)
    (accepted : SocketObject → Acceptor → Outcome (SocketObject × Acceptor)) where
  pub data Step (l : Listener) : Listener → Type 0 where
    -- A request to accept completes with a new descriptor.
    accepts_one :
        (before after : List Submission) (e : Submission) (n : ℕ) (addr : Sockaddr)
        (new : List SocketObject) (s' : Acceptor)
        → l.acceptor.service.submitted ≡ before ++ e ∷ after
        → e.ctx.io_type ≡ IoType.accept
        → e.ctx.handler ≡ some l.acceptor.server_object.obj_id
        → suc l.acceptor.obj_id_container < size_mod
        → complete_server u a accepted e.ctx
            (pos (suc n))
            addr
            (given_back l.acceptor e.ring (before ++ after))
          ≡ done (new, s')
        → Step l (record { acceptor = s'; sockets = new ++ l.sockets })
    -- Other objects are made, and use the service, for whatever is no accept of this server.
    others :
        (s' : Acceptor)
        → s'.server_object ≡ l.acceptor.server_object
        → s'.service.io_array ≡ l.acceptor.service.io_array
        → accepts s' ≡ accepts l.acceptor
        → l.acceptor.obj_id_container ≤ s'.obj_id_container
        → highest s'.service.submitted ≤ s'.obj_id_container
        → Step l (record l { acceptor = s' })

  pub data Reach (l : Listener) : Listener → Type 0 where
    here : Reach l l
    next : {k j : Listener} → Reach l k → Step k j → Reach l j

-- Numbers that fall from below `n`.
pub data Falling : ℕ → List SocketObject → Type 0 where
  nobody : {n : ℕ} → Falling n []
  latest :
      {n : ℕ} {o : SocketObject} {os : List SocketObject}
      → o.base.obj_id < n
      → Falling o.base.obj_id os
      → Falling n (o ∷ os)

-- One request to accept is outstanding, and every socket accepted has a number of its own.
pub record IsListening (l : Listener) : Type 0 where
  pub rings : HasRings l.acceptor.service
  pub accept_request : IoContext
  pub listening : accepts l.acceptor ≡ accept_request ∷ []
  pub low : highest l.acceptor.service.submitted ≤ l.acceptor.obj_id_container
  pub below : l.acceptor.server_object.obj_id < l.acceptor.obj_id_container
  pub distinct : Falling l.acceptor.obj_id_container l.sockets

Falling-le : {m n : ℕ} {os : List SocketObject} → m ≤ n → Falling m os → Falling n os
Falling-le h nobody = nobody
Falling-le h (latest lt rest) = latest (omega (arith, h, lt)) rest

-- The accept that completes is the one that is outstanding.
taken_accept :
    (s : Acceptor) (before after : List Submission) (e : Submission) (ctx : IoContext)
    → s.service.submitted ≡ before ++ e ∷ after
    → e.ctx.io_type ≡ IoType.accept
    → e.ctx.handler ≡ some s.server_object.obj_id
    → accepts s ≡ ctx ∷ []
    → (highest (before ++ after) ≤ highest s.service.submitted)
      × (outstanding IoType.accept s.server_object.obj_id (before ++ after) ≡ [])
taken_accept s before after e ctx es t h one =
    let obj = s.server_object.obj_id in
    let (b, _, r) = single (outstanding IoType.accept obj before) (
      sym (
        ap (outstanding IoType.accept obj) es
        ∙ outstanding-split IoType.accept obj before after e t h)
      ∙ one) in
    (
      omega (arith, ap highest es, highest-append before (e ∷ after), highest-append before after),
      outstanding-append IoType.accept obj before after ∙ ap₂ ◌++◌ b r,
    )

module _ (u : Uring) (f : IsUring u) (a : Allocator) (m : IsAllocator a)
    (accepted : SocketObject → Acceptor → Outcome (SocketObject × Acceptor))
    (setup : IsSetup accepted) where
  -- A connection that is accepted becomes a connected socket that receives, under the next number;
  -- and the server goes on listening.
  pub io_accepting_lem :
      (fd : ℕ) (addr : Sockaddr) (s : Acceptor)
      → HasRings s.service
      → highest s.service.submitted ≤ s.obj_id_container
      → s.server_object.obj_id < s.obj_id_container
      → suc s.obj_id_container < size_mod
      → Returns (io_accepting u a accepted fd addr s) (Accepted fd addr s)
  unfolding io_accepting new_object
  io_accepting_lem fd addr s h low below small =
      let base : ObjectBase = record { obj_id = s.obj_id_container; error_event = false } in
      let o = set_remote_info (new_socket base tcp fd) addr in
      let (b, d, p, t, l, n) = new_socket_lem base fd addr in
      let next : add_size s.obj_id_container 1 ≡ suc s.obj_id_container =
        omega (arith, add_size_lem s.obj_id_container 1 (omega (arith, small))) in
      let ((p', s₁), e, (dr, q)) =
        on_accept_lem u f a m accepted setup o
          (record s { obj_id_container = suc s.obj_id_container }) h in
      let (r, e', w) =
        activate_lem u f a m accepted setup fd addr s s₁ o p' h low below
          (ap (λ (x : ObjectBase). x.obj_id) b) d p t l n dr q in
      (r, rw (next) (ap (λ x. x >>= activate u a accepted) e ∙ e'), w)

  -- The rest of the round in which an accept completes.
  pub accepted_lem :
      (ctx : IoContext) (n : ℕ) (addr : Sockaddr) (s : Acceptor)
      → ctx.io_type ≡ IoType.accept
      → HasRings s.service
      → highest s.service.submitted ≤ s.obj_id_container
      → s.server_object.obj_id < s.obj_id_container
      → suc s.obj_id_container < size_mod
      → Returns
          (complete_server u a accepted ctx (pos (suc n)) addr s)
          (λ r. (o : SocketObject) × (r.0 ≡ o ∷ []) × Accepted (suc n) addr s (o, r.1))
  unfolding complete_server dispatch_server on_accepted deallocate_context
  accepted_lem ctx n addr s t h low below small =
      let ((o, s'), e, w) = io_accepting_lem (suc n) addr s h low below small in
      let settle : List SocketObject × Acceptor → Outcome (List SocketObject × Acceptor) =
        λ r. done (r.0, record r.1 { service = deallocate_context r.1.service ctx }) in
      (
        (o ∷ [], record s' { service = deallocate_context s'.service ctx }),
        ap (λ k. dispatch_server u a accepted k (pos (suc n)) addr s >>= settle) t
            ∙ ap (λ r. (r >>= λ q. done (q.0 ∷ [], q.1)) >>= settle) e,
        (
          o,
          refl,
          record {
            ident = w.ident;
            descriptor = w.descriptor;
            peer = w.peer;
            connected = w.connected;
            sending = record {
              is_tcp = w.sending.is_tcp;
              unlocked = w.sending.unlocked;
              rings = w.sending.rings;
              ready = w.sending.ready;
              front = w.sending.front;
              flight = w.sending.flight;
            };
            read_request = w.read_request;
            receiving = w.receiving;
            counted = w.counted;
            same_server = w.same_server;
            rings = w.rings;
            accept_request = w.accept_request;
            listening = w.listening;
            fresh = w.fresh;
          },
        ),
      )

  Step-IsListening : {l k : Listener} → Step u a accepted l k → IsListening l → IsListening k
  Step-IsListening {l} (others s' o r c le low) v = record {
    rings = subst (λ rs. HasRings (record s'.service { io_array = rs })) (sym r) v.rings;
    accept_request = v.accept_request;
    listening = c ∙ v.listening;
    low = low;
    below = omega (arith, ap (λ (x : TcpServer). x.obj_id) o, v.below, le);
    distinct = Falling-le le v.distinct;
  }
  Step-IsListening {l} (accepts_one before after e n addr new s' es t h small r) v =
      let s = l.acceptor in
      let s₁ = given_back s e.ring (before ++ after) in
      let (low', none_out) = taken_accept s before after e v.accept_request es t h v.listening in
      let (o, w, x) =
        Returns-at (λ p. (o : SocketObject) × (p.0 ≡ o ∷ []) × Accepted (suc n) addr s₁ (o, p.1))
          (accepted_lem e.ctx n addr s₁ t v.rings (omega (arith, low', v.low)) v.below small) r in
      record {
        rings = x.rings;
        accept_request = x.accept_request;
        listening = x.listening ∙ ap (λ k. k ++ x.accept_request ∷ []) none_out;
        low = omega (arith, x.fresh, x.counted);
        below = omega (arith, ap (λ (k : TcpServer). k.obj_id) x.same_server, x.counted, v.below);
        distinct =
            subst (λ os. Falling s'.obj_id_container (os ++ l.sockets)) (sym w)
              (latest (omega (arith, x.ident, x.counted))
                (subst (λ c. Falling c l.sockets) (sym x.ident) v.distinct));
      }

  -- A server that listens goes on listening over any series of accepted connections, whatever else
  -- uses the service: one request to accept is outstanding at any time, and no two sockets have the
  -- same number.
  pub Reach-IsListening : {l k : Listener} → IsListening l → Reach u a accepted l k → IsListening k
  Reach-IsListening v here = v
  Reach-IsListening v (next r s) = Step-IsListening s (Reach-IsListening v r)
