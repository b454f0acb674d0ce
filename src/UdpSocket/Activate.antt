-- ===== src/UdpSocket/Activate.antt =====
-- udp_socket::activate (src/udp_socket.cpp) and what a UDP socket starts with.
use rioring.Prelude.{
  ◌≡◌, ◌≢◌, ◌⊎◌, inl, inr, refl, sym, ap, subst, ◌∙◌, Bool, true, false, [], ◌∷◌, ◌++◌,
  if◌then◌else◌, done, ◌>>=◌, Returns, Bool-cases, arith,
}
use rioring.Memory.{Allocator, IsAllocator}
use rioring.IoDoubleBuffer.{null_double}
use rioring.IoDoubleBuffer
use rioring.IoDoubleBuffer.Valid.{IsReady, IsFront, contents, assign-IsReady}
use rioring.IoContext.{
  IoContext, IoType, Sockaddr, udp_context, recv_bind, af_inet6, data_buffer_size,
}
use rioring.SocketObject.{udp, is_negative}
use rioring.IoService.{Uring, socket, allocate_context}
use rioring.Session.{
  Session, with_sock, socket_context, submit_receiving, submit_receiving_as, activated, on_active,
}
use rioring.Session.Requests.{
  IsUring, HasRings, handed, outstanding-other, outstanding-add, submit_context_lem,
}
use rioring.Session.Sending.{reads, pending}
use rioring.UdpSocket.{
  Network, FamilyType, ipv6, address_family, bound_address, with_handler, activate,
}

-- A UDP socket that is active: ready to send, with nothing waiting, and receiving with the sender's
-- address.
pub record Started (s s' : Session) : Type 0 where
  pub kind : s'.sock.socket_type ≡ udp
  pub unlocked : s'.sock.lock ≡ s.sock.lock
  pub same_rings : s'.service.io_array ≡ s.service.io_array
  pub same_pending : pending s' ≡ pending s
  pub ready : IsReady s'.sock.send_buffer
  pub nothing : contents s'.sock.send_buffer ≡ []
  pub request : IoContext
  pub receiving : reads s' ≡ reads s ++ request ∷ []
  pub as_message : request.ctype ≡ udp_context
  pub vectors : request.msg_iovlen ≡ 1
  pub base : request.iov_base ≡ recv_bind

-- Whether a call that `activate` makes fails.
abbrev pub activate_fails : Network → FamilyType → Bool
activate_fails net t =
    let fd = net.socket (address_family t) in
    if is_negative fd then true else net.bind_fails fd (bound_address t)

module _ (u : Uring) (f : IsUring u) (a : Allocator) (m : IsAllocator a) where
  receive_udp :
      (s : Session)
      → s.sock.socket_type ≡ udp
      → HasRings s.service
      → IsReady s.sock.send_buffer
      → contents s.sock.send_buffer ≡ []
      → Returns (submit_receiving_as u udp s) (Started s)
  unfolding submit_receiving_as allocate_context
  receive_udp s t h ready nothing =
      let (ctx, service) = socket_context s IoType.read in
      let request : IoContext = record ctx {
        ctype = udp_context;
        iov_base = recv_bind;
        iov_len = data_buffer_size;
        msg_iovlen = 1;
      } in
      let (ring, e) = submit_context_lem u f request service s h in
      (
        handed ring request service s,
        e,
        record {
          kind = t;
          unlocked = refl;
          same_rings = refl;
          same_pending =
              outstanding-other IoType.write s.sock.obj_id ring s.service.submitted (socket s.sock)
                request refl;
          ready = ready;
          nothing = nothing;
          request = request;
          receiving =
              outstanding-add IoType.read s.sock.obj_id ring s.service.submitted (socket s.sock)
                request refl refl;
          as_message = refl;
          vectors = refl;
          base = refl;
        },
      )

  -- A new UDP socket that becomes active is ready to send, has nothing to send, and has one request
  -- to receive outstanding, which asks for the address of the sender too.
  pub udp_active_lem :
      (s : Session)
      → s.sock.socket_type ≡ udp
      → HasRings s.service
      → s.sock.send_buffer ≡ null_double
      → Returns (on_active u a s) (Started s)
  unfolding on_active activated submit_receiving
  udp_active_lem s t h unused =
      let o = activated u a s.sock in
      let (ready, nothing, _) =
        subst
          (λ b.
            let d = IoDoubleBuffer.assign a b data_buffer_size in
            IsReady d × (contents d ≡ []) × IsFront d)
          (sym unused) (assign-IsReady a data_buffer_size m (omega arith)) in
      let (s', e, w) = receive_udp (with_sock s o) t h ready nothing in
      (
        s',
        ap (λ k. submit_receiving_as u k (with_sock s o)) t ∙ e,
        record {
          kind = w.kind;
          unlocked = w.unlocked;
          same_rings = w.same_rings;
          same_pending = w.same_pending;
          ready = w.ready;
          nothing = w.nothing;
          request = w.request;
          receiving = w.receiving;
          as_message = w.as_message;
          vectors = w.vectors;
          base = w.base;
        },
      )

  -- `activate` says whether both calls succeeded; if so, the socket has started, and if not, it has
  -- the descriptor and nothing else has changed.
  pub activate_lem :
      (net : Network) (t : FamilyType) (s : Session)
      → s.sock.socket_type ≡ udp
      → HasRings s.service
      → s.sock.send_buffer ≡ null_double
      → let s₁ = with_handler s (net.socket (address_family t)) in
        ((activate_fails net t ≡ true) × (activate net u a t s ≡ done (false, s₁)))
        ⊎ ((activate_fails net t ≡ false)
            × Returns (activate net u a t s) (λ r. (r.0 ≡ true) × Started s₁ r.1))
  unfolding activate
  activate_lem net t s k h unused =
      let fd = net.socket (address_family t) in
      let s₁ = with_handler s fd in
      elim (Bool-cases (is_negative fd)) [
        | inl bad ↦ inl (rw (bad), rw (bad))
        | inr good ↦ elim (Bool-cases (net.bind_fails fd (bound_address t))) [
          | inl bad ↦ inl (rw (good, bad), rw (good, bad))
          | inr bound ↦
              let (s', e, w) = udp_active_lem s₁ k h unused in
              inr (rw (good, bound), ((true, s'), rw (good, bound, e, ◌>>=◌), (refl, w)))
        ]
      ]

module _ (u : Uring) (a : Allocator) where
  -- Where `bind` refuses an address whose family is not that of the socket, as Linux does, `activate`
  -- with `ipv6` fails whatever else happens: the address that it binds has the family of IPv4.
  activate-ipv6 :
      (net : Network) (s : Session)
      → ((addr : Sockaddr)
          → addr.family ≢ af_inet6
          → net.bind_fails (net.socket af_inet6) addr ≡ true)
      → activate net u a ipv6 s ≡ done (false, with_handler s (net.socket af_inet6))
  unfolding activate bound_address
  activate-ipv6 net s refuses = elim (Bool-cases (is_negative (net.socket af_inet6))) [
    | inl bad ↦ rw (bad)
    | inr good ↦ rw (good, refuses (bound_address ipv6) (ground arith))
  ]
