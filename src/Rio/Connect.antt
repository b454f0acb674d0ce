-- ===== src/Rio/Connect.antt =====
-- tcp_socket::connect on Windows (src/tcp_socket.cpp under WIN32): the loop over the addresses is that
-- of the other platform, but for the answer that is no socket.
use rioring.Prelude.{
  ℕ, ◌<◌, ◌≡◌, ◌⊎◌, inl, inr, refl, ap, ◌∙◌, Bool, true, false, ◌||◌, List, [], ◌∷◌, ◌++◌, Option,
  none, some, length, ◌==◌, if◌then◌else◌, Outcome, done, ◌>>=◌, Returns, arith,
}
use rioring.Memory.{Allocator, IsAllocator}
use rioring.IoContext.{IoType}
use rioring.IoDoubleBuffer.{null_double}
use rioring.AddressResolver.{AddrInfo}
use rioring.SocketObject.{SocketObject, tcp}
use rioring.Connect.{
  Network, connect_any, connect_any_lem, with_descriptor, fails, all_fail, opened,
}
use rioring.Rio.{RioTable, Request}
use rioring.Rio.Requests.{writes}
use rioring.Rio.Socket.{RioSession, with_object, invalid_socket, on_active, activated}
use rioring.Rio.Sending.{IsSending, pending}
use rioring.Rio.Active.{IsRio, IsRegistered, on_active_lem, activated_lem}

-- `s == INVALID_SOCKET`.
abbrev pub is_invalid : ℕ → Bool
is_invalid s = s == invalid_socket

module _ (net : Network) where
  -- The session after the loop.
  abbrev pub tried : List AddrInfo → RioSession → RioSession
  tried info s =
      let t = connect_any is_invalid net 0 info in
      let s' = with_object s (with_descriptor t.kept s.sock.object) in
      record s' { closed = s.closed ++ t.dropped }

  pub connect :
      RioTable → Allocator → Option (List AddrInfo) → RioSession → Outcome (Bool × RioSession)
  connect rio a none s = done (false, s)
  connect rio a (some info) s =
      let s' = tried info s in
      let active = on_active rio a s' >>= λ s''. done (true, s'') in
      if is_invalid s'.sock.object.socket_handler then done (false, s') else active

  -- No attempt succeeded.
  pub record RioRefused (info : List AddrInfo) (s : RioSession) (r : Bool × RioSession)
      : Type 0 where
    pub answer : r.0 ≡ false
    pub all_failed : all_fail is_invalid net 0 info ≡ true
    pub same_object : r.1.sock.object ≡ s.sock.object
    pub same_service : r.1.service ≡ s.service
    pub all_closed : r.1.closed ≡ s.closed ++ opened is_invalid net 0 info

  -- The first address that could be connected to is the peer.
  pub record RioConnected (info : List AddrInfo) (s : RioSession) (r : Bool × RioSession)
      : Type 0 where
    pub answer : r.0 ≡ true
    pub before : List AddrInfo
    pub after : List AddrInfo
    pub entry : AddrInfo
    pub place : ℕ
    pub place_before : place ≡ length before
    pub listed : info ≡ before ++ entry ∷ after
    pub earlier_failed : all_fail is_invalid net 0 before ≡ true
    pub succeeded : fails is_invalid net place entry ≡ false
    pub descriptor : r.1.sock.object.socket_handler ≡ net.socket place entry
    pub sending : IsSending r.1
    pub connected : r.1.sock.object.connected_flag ≡ true
    pub request : Request
    pub added : r.1.service.submitted ≡ s.service.submitted ++ request ∷ []
    pub is_read : request.ctx.io_type ≡ IoType.read
    pub registered : IsRegistered r.1.sock
    pub queued : request.ctx.rq ≡ r.1.sock.request_queue
    pub into : request.ctx.buf.buffer_id ≡ r.1.sock.recv_buffer_id

or_false : (b c : Bool) → (b || c) ≡ false → b ≡ false
or_false false c e = refl
or_false true c e = cc

module _ (net : Network) (rio : RioTable) (table : IsRio rio) (a : Allocator)
    (m : IsAllocator a) where
  -- `connect` on a new TCP socket of a service that runs returns, if the function table gives every
  -- socket a queue and every array an id. If some address can be connected to, the socket is active
  -- on the first such, with its queue and its arrays, and a read requested on that queue into its array
  -- for reads; if none can, nothing has changed but
  -- that the sockets opened are closed.
  pub rio_connect_lem :
      (info : List AddrInfo) (s : RioSession)
      → s.sock.object.socket_handler ≡ invalid_socket
      → s.sock.object.socket_type ≡ tcp
      → s.sock.object.lock ≡ false
      → s.sock.object.send_buffer ≡ null_double
      → 0 < length s.service.io_array
      → pending s ≡ []
      → Returns
          (connect net rio a (some info) s)
          (λ r. RioRefused net info s r ⊎ RioConnected net info s r)
  unfolding connect activated
  rio_connect_lem info s new is_tcp free unused h none_out =
      elim (connect_any_lem is_invalid net 0 info) [
        | inl (k, f', d) ↦
            let same = ap (λ k. with_descriptor k s.sock.object) k in
            (
              (false, tried net info s),
              rw (same, new),
              inl (record {
                answer = refl;
                all_failed = f';
                same_object = same;
                same_service = refl;
                all_closed = ap (λ l. s.closed ++ l) d;
              }),
            )
        | inr (before, after, b, j, p, l, f', w, k, d) ↦
            let same = ap (λ k. with_descriptor k s.sock.object) k in
            let (s', e, act) = on_active_lem rio table a (tried net info s) h in
            let (sends, _, up) =
              activated_lem a (tried net info s) s' act m
                (ap (λ (o : SocketObject). o.socket_type) same ∙ is_tcp)
                (ap (λ (o : SocketObject). o.lock) same ∙ free)
                (ap (λ (o : SocketObject). o.send_buffer) same ∙ unused)
                (ap (λ (o : SocketObject). writes o.base.obj_id s.service.submitted) same
                  ∙ none_out) in
            (
              (true, s'),
              ap
                    (λ c.
                      let active = on_active rio a (tried net info s) >>= λ s''. done (true, s'') in
                      if c then done (false, tried net info s) else active)
                    (ap (λ (o : SocketObject). is_invalid o.socket_handler) same ∙ or_false _ _ w)
                  ∙ ap (λ r. r >>= λ s''. done (true, s'')) e,
              inr (record {
                answer = refl;
                before = before;
                after = after;
                entry = b;
                place = j;
                place_before = omega (arith, p);
                listed = l;
                earlier_failed = f';
                succeeded = w;
                descriptor =
                    ap (λ (o : SocketObject). o.socket_handler) act.object
                    ∙ ap (λ (o : SocketObject). o.socket_handler) same;
                sending = sends;
                connected = up;
                request = act.request;
                added = act.added;
                is_read = act.is_read;
                registered = act.registered;
                queued = act.queued;
                into = act.into;
              }),
            )
      ]
