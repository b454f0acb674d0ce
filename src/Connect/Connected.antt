-- ===== src/Connect/Connected.antt =====
-- What tcp_socket::connect (src/tcp_socket.cpp) comes to on a new socket.
use rioring.Prelude.{
  ℕ, ◌≡◌, ◌≢◌, ◌⊎◌, inl, inr, refl, ap, ◌∙◌, Bool, true, false, List, [], ◌∷◌, ◌++◌, some, ◌==◌,
  if◌then◌else◌, done, ◌>>=◌, Returns, length, arith,
}
use rioring.Memory.{Allocator, IsAllocator}
use rioring.IoDoubleBuffer.{null_double}
use rioring.AddressResolver.{AddrInfo}
use rioring.IoContext.{IoContext, IoType}
use rioring.SocketObject.{SocketObject, tcp, is_negative}
use rioring.IoService.{Uring}
use rioring.Session.{Session, on_active}
use rioring.Session.Requests.{IsUring, HasRings, outstanding}
use rioring.Session.Sending.{reads, IsSending, pending}
use rioring.Session.Active.{on_active_lem}
use rioring.Connect.{
  Network, with_descriptor, tried, connect, fails, all_fail, opened, connect_any_lem,
}

-- A socket that has not been used.
pub record IsUnused (s : Session) : Type 0 where
  pub is_tcp : s.sock.socket_type ≡ tcp
  pub unlocked : s.sock.lock ≡ false
  pub rings : HasRings s.service
  pub unassigned : s.sock.send_buffer ≡ null_double
  pub no_write : pending s ≡ []
  pub no_read : reads s ≡ []
  pub no_descriptor : s.sock.socket_handler ≡ 0

ne→== : (n : ℕ) → n ≢ 0 → (n == 0) ≡ false
ne→== n h = ground (arith, h)

module _ (net : Network) where
  -- No attempt succeeded.
  pub record Refused (info : List AddrInfo) (s : Session) (r : Bool × Session) : Type 0 where
    pub answer : r.0 ≡ false
    pub all_failed : all_fail is_negative net 0 info ≡ true
    pub same_sock : r.1.sock ≡ s.sock
    pub same_service : r.1.service ≡ s.service
    pub all_closed : r.1.closed ≡ s.closed ++ opened is_negative net 0 info

  -- The first address that could be connected to is the peer.
  pub record Connected (info : List AddrInfo) (s : Session) (r : Bool × Session) : Type 0 where
    pub answer : r.0 ≡ true
    pub before : List AddrInfo
    pub after : List AddrInfo
    pub entry : AddrInfo
    pub place : ℕ
    pub place_before : place ≡ length before
    pub listed : info ≡ before ++ entry ∷ after
    pub earlier_failed : all_fail is_negative net 0 before ≡ true
    pub succeeded : fails is_negative net place entry ≡ false
    pub descriptor : r.1.sock.socket_handler ≡ net.socket place entry
    pub others_closed : r.1.closed ≡ s.closed ++ opened is_negative net 0 before
    pub sending : IsSending r.1
    pub connected : r.1.sock.connected_flag ≡ true
    pub request : IoContext
    pub receiving : reads r.1 ≡ request ∷ []

  module _ (u : Uring) (f : IsUring u) (a : Allocator) (m : IsAllocator a) where
    -- `connect` on a new socket returns. If some address can be connected to, the socket is active
    -- on the first such; if none can, nothing has changed. Either way every other descriptor that
    -- was opened is closed. (Descriptor 0, the standard input, is taken.)
    pub connect_lem :
        (info : List AddrInfo) (s : Session)
        → IsUnused s
        → ((i : ℕ) (b : AddrInfo) → net.socket i b ≢ 0)
        → Returns (connect net u a (some info) s) (λ r. Refused info s r ⊎ Connected info s r)
    unfolding connect
    connect_lem info s v not_zero = elim (connect_any_lem is_negative net 0 info) [
      | inl (k, f', d) ↦
          let same = ap (λ k. with_descriptor k s.sock) k in
          (
            (false, tried net info s),
            rw (same, v.no_descriptor),
            inl (record {
              answer = refl;
              all_failed = f';
              same_sock = same;
              same_service = refl;
              all_closed = ap (λ l. s.closed ++ l) d;
            }),
          )
      | inr (before, after, b, j, p, l, f', w, k, d) ↦
          let same = ap (λ k. with_descriptor k s.sock) k in
          let (s', e, act) =
            on_active_lem u f a (tried net info s) m
              (ap (λ (o : SocketObject). o.socket_type) same ∙ v.is_tcp)
              (ap (λ (o : SocketObject). o.lock) same ∙ v.unlocked) v.rings
              (ap (λ (o : SocketObject). o.send_buffer) same ∙ v.unassigned)
              (ap (λ (o : SocketObject). outstanding IoType.write o.obj_id s.service.submitted) same
                ∙ v.no_write)
              (ap (λ (o : SocketObject). outstanding IoType.read o.obj_id s.service.submitted) same
                ∙ v.no_read) in
          let fd : s'.sock.socket_handler ≡ net.socket j b =
            act.same_descriptor ∙ ap (λ (o : SocketObject). o.socket_handler) same in
          (
            (true, s'),
            ap
                  (λ c.
                    let active = on_active u a (tried net info s) >>= λ s''. done (true, s'') in
                    if c then done (false, tried net info s) else active)
                  (ap (λ (o : SocketObject). o.socket_handler == 0) same ∙ ne→== _ (not_zero j b))
                ∙ ap (λ r. r >>= λ s''. done (true, s'')) e,
            inr (record {
              answer = refl;
              before = before;
              after = after;
              entry = b;
              place = j;
              place_before = omega (arith, p);
              listed = l;
              earlier_failed = f';
              succeeded = w;
              descriptor = fd;
              others_closed = act.same_closed ∙ ap (λ l. s.closed ++ l) d;
              sending = act.sending;
              connected = act.connected;
              request = act.request;
              receiving = act.reading;
            }),
          )
    ]
