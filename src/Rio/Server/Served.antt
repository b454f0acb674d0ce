-- ===== src/Rio/Server/Served.antt =====
-- The thread of tcp_server on Windows (src/tcp_server.cpp) over any series of connections.
use rioring.Prelude.{
  ℕ, suc, ◌+◌, ◌<◌, ◌≡◌, refl, sym, ap, ap₂, subst, ◌∙◌, Bool, true, false, Bool-cases, inl, inr,
  List, [], ◌∷◌, ◌++◌, map, append-nil, append_assoc, Option, some, length, All, ◌==◌,
  if◌then◌else◌, Outcome, ◌>>=◌, Returns, arith, size_mod,
}
use mathlib.Core.List.{map-append}
use rioring.Memory.{Allocator, IsAllocator}
use rioring.IoContext.{IoType, Sockaddr}
use rioring.TcpServer.Accepting.{above, highest, highest-append}
use rioring.Rio.{RioTable, Request}
use rioring.Rio.Active.{IsRio, IsRegistered}
use rioring.Rio.Requests.{view, writes, writes-append, writes-other}
use rioring.Rio.Socket.{RioSocket, invalid_socket}
use rioring.Rio.Sending.{IsSending, pending}
use rioring.Rio.Server.{Arrival, RioAcceptor, session_of, on_thread}
use rioring.Rio.Server.Accepted.{IsRioSetup, IsFree, RioAccepted, accept_one_lem}

-- The arrivals before the first that is no SOCKET, and whether there is such a one.
abbrev pub valid : List Arrival → List Arrival
valid [] = []
valid (c ∷ cs) = if c.socket == invalid_socket then [] else c ∷ valid cs

abbrev pub closes : List Arrival → Bool
closes [] = false
closes (c ∷ cs) = if c.socket == invalid_socket then true else closes cs

-- The id of each, counted up, its SOCKET and its peer.
abbrev pub numbered : ℕ → List Arrival → List (ℕ × ℕ × Sockaddr)
numbered n [] = []
numbered n (c ∷ cs) = (n, c.socket, c.peer) ∷ numbered (suc n) cs

abbrev pub seen : RioSocket → ℕ × ℕ × Sockaddr
seen o = (o.object.base.obj_id, o.object.socket_handler, o.object.addr_storage)

-- The queue and the array of a request, and those of a socket for its reads.
abbrev pub made_on : Request → ℕ × Option ℕ
made_on r = (r.ctx.rq, r.ctx.buf.buffer_id)

abbrev pub reads_on : RioSocket → ℕ × Option ℕ
reads_on o = (o.request_queue, o.recv_buffer_id)

abbrev pub IsRead : Request → Type 0
IsRead r = r.ctx.io_type ≡ IoType.read

-- A socket that has its queue and its arrays and can send, on the service as it is in the end.
abbrev pub CanSend : RioAcceptor → RioSocket → Type 0
CanSend s o = (o.object.connected_flag ≡ true) × IsSending (session_of o s) × IsRegistered o

-- What the thread has done after a series of arrivals.
pub record Served (cs : List Arrival) (s : RioAcceptor) (r : Bool × List RioSocket × RioAcceptor)
    : Type 0 where
  pub ended : r.0 ≡ closes cs
  pub each : map seen r.1 ≡ numbered s.obj_id_container (valid cs)
  pub working : All (CanSend r.2) r.1
  pub same_server : r.2.server_object ≡ s.server_object
  pub requests : List Request
  pub added : r.2.service.submitted ≡ s.service.submitted ++ requests
  pub are_reads : All IsRead requests
  pub targets : map made_on requests ≡ map reads_on r.1
  pub owners :
      map (λ (r : Request). r.ctx.handler) requests
      ≡ map (λ (e : ℕ × ℕ × Sockaddr). some e.0) (numbered s.obj_id_container (valid cs))

-- Reads are no writes, and leave a socket as it is.
no_writes : (obj : ℕ) (rs : List Request) → All IsRead rs → writes obj rs ≡ []
no_writes obj [] h = refl
no_writes obj (r ∷ rs) (h, hs) =
    writes-append obj (r ∷ []) rs ∙ ap₂ ◌++◌ (writes-other obj [] r h) (no_writes obj rs hs)

still_sending :
    (o : RioSocket) (s s' : RioAcceptor) (rs : List Request)
    → s'.service.submitted ≡ s.service.submitted ++ rs
    → All IsRead rs
    → IsSending (session_of o s)
    → IsSending (session_of o s')
still_sending o s s' rs e h v =
    let obj = o.object.base.obj_id in
    let same : pending (session_of o s') ≡ pending (session_of o s) =
      ap (writes obj) e
      ∙ (writes-append obj s.service.submitted rs
          ∙ (ap (◌++◌ (writes obj s.service.submitted)) (no_writes obj rs h) ∙ append-nil _)) in
    record {
      unlocked = v.unlocked;
      ready = v.ready;
      front = v.front;
      flight = elim v.flight [
        | inl (n, p) ↦ inl (n, same ∙ p)
        | inr (ctx, p, c) ↦ inr (ctx, same ∙ p, c)
      ];
    }

-- The next id is free too.
accepted-IsFree :
    (c : Arrival) (s : RioAcceptor) (r : RioSocket × RioAcceptor)
    → RioAccepted c s r
    → IsFree s.obj_id_container s
    → IsFree r.1.obj_id_container r.1
accepted-IsFree c s r v free =
    let old = map view s.service.submitted in
    let e : map view r.1.service.submitted ≡ old ++ view v.request ∷ [] =
      ap (map view) v.added ∙ map-append view s.service.submitted (v.request ∷ []) in
    omega (
      arith,
      ap highest e,
      highest-append old (view v.request ∷ []),
      ap above v.owner,
      v.counted,
      free,
    )

-- One connection, and then those behind it.
one_more :
    (c : Arrival) (cs : List Arrival) (s : RioAcceptor) (r : RioSocket × RioAcceptor)
    (q : Bool × List RioSocket × RioAcceptor)
    → RioAccepted c s r
    → Served cs r.1 q
    → (c.socket == invalid_socket) ≡ false
    → Served (c ∷ cs) s (q.0, r.0 ∷ q.1, q.2)
one_more c cs s r q v w good = record {
  ended = rw good w.ended;
  each = rw good (
      ap₂ ◌∷◌ (λ i. (v.ident i, v.descriptor i, v.peer i))
        (w.each ∙ ap (λ n. numbered n (valid cs)) v.counted));
  working = (
    (v.connected, still_sending r.0 r.1 q.2 w.requests w.added w.are_reads v.sending, v.registered),
    w.working,
  );
  same_server = w.same_server ∙ v.same_server;
  requests = v.request ∷ w.requests;
  added =
      w.added
      ∙ (ap (λ l. l ++ w.requests) v.added
          ∙ append_assoc s.service.submitted (v.request ∷ []) w.requests);
  are_reads = (v.is_read, w.are_reads);
  targets = ap₂ ◌∷◌ (λ i. (v.queued i, v.into i)) w.targets;
  owners = rw good (
      ap₂ ◌∷◌ v.owner (
        w.owners
        ∙ ap (λ n. map (λ (e : ℕ × ℕ × Sockaddr). some e.0) (numbered n (valid cs))) v.counted));
}

module _ (rio : RioTable) (table : IsRio rio) (a : Allocator) (m : IsAllocator a)
    (accepted : RioSocket → RioAcceptor → Outcome (RioSocket × RioAcceptor))
    (setup : IsRioSetup accepted) where
  -- Over any series of connections on a service that runs, with a function table that gives every
  -- socket a queue and every array an id, the thread makes one socket for each that
  -- comes before an invalid SOCKET, in order, with the next id, and ends exactly if one is invalid;
  -- each socket is connected, has its queue and its arrays, can send, and has one read requested on
  -- its queue into its array for reads.
  pub on_thread_lem :
      (cs : List Arrival) (s : RioAcceptor)
      → 0 < length s.service.io_array
      → s.obj_id_container + length cs < size_mod
      → IsFree s.obj_id_container s
      → Returns (on_thread rio a accepted cs s) (Served cs s)
  unfolding on_thread
  on_thread_lem [] s h small free = (
    (false, [], s),
    refl,
    record {
      ended = refl;
      each = refl;
      working = tt;
      same_server = refl;
      requests = [];
      added = sym (append-nil s.service.submitted);
      are_reads = tt;
      targets = refl;
      owners = refl;
    },
  )
  on_thread_lem (c ∷ cs) s h small free = elim (Bool-cases (c.socket == invalid_socket)) [
    | inl bad ↦ rw bad (
      (true, [], s),
      refl,
      record {
        ended = rw bad refl;
        each = rw bad refl;
        working = tt;
        same_server = refl;
        requests = [];
        added = sym (append-nil s.service.submitted);
        are_reads = tt;
        targets = refl;
        owners = rw bad refl;
      },
    )
    | inr good ↦
        let (r, e, v) =
          accept_one_lem rio table a m accepted setup c s h (omega (arith, small)) free in
        let (q, f, w) =
          on_thread_lem cs r.1 (subst (λ (l : List ℕ). 0 < length l) (sym v.same_array) h)
            (omega (arith, small, v.counted)) (accepted-IsFree c s r v free) in
        rw good ((q.0, r.0 ∷ q.1, q.2), rw (e, ◌>>=◌) (rw (f, ◌>>=◌)), one_more c cs s r q v w good)
  ]
