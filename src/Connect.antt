-- ===== src/Connect.antt =====
-- tcp_socket::connect (src/tcp_socket.cpp). The addresses that the name resolves to, and what
-- `socket` and `connect` answer, are parameters.
pub mod Connected
use rioring.Prelude.{
  ℕ, zero, suc, ◌+◌, ◌≡◌, ◌≢◌, ◌⊎◌, inl, inr, refl, sym, ap, ◌∙◌, Bool, true, false, not, ◌&&◌,
  ◌||◌, List, [], ◌∷◌, ◌++◌, Option, none, some, length, ◌==◌, if◌then◌else◌, Outcome, done, ◌>>=◌,
  Bool-cases, Returns, arith,
}
use rioring.Memory.{Allocator}
use rioring.AddressResolver.{AddrInfo}
use rioring.SocketObject.{SocketObject, is_negative}
use rioring.IoService.{Uring}
use rioring.Session.{Session, with_sock, on_active}

-- The answers for the `i`-th entry of the list: a descriptor, and whether `::connect` returned 0.
pub record Network : Type 0 where
  pub socket : ℕ → AddrInfo → ℕ
  pub connects : ℕ → AddrInfo → Bool

-- What the loop leaves: the descriptor that is connected, and those that it closed.
pub record Attempts : Type 0 where
  pub kept : Option ℕ
  pub dropped : List ℕ

-- `socket_handler = s`, where the loop has come to that.
abbrev pub with_descriptor : Option ℕ → SocketObject → SocketObject
with_descriptor none o = o
with_descriptor (some fd) o = record o { socket_handler = fd }

-- `bad` tells the answer of `socket` that is no descriptor.
module _ (bad : ℕ → Bool) (net : Network) where
  -- The loop over the addresses, from the `i`-th on.
  pub connect_any : ℕ → List AddrInfo → Attempts
  connect_any i [] = record { kept = none; dropped = [] }
  connect_any i (a ∷ rest) =
      let later = connect_any (suc i) rest in
      let s = net.socket i a in
      if bad s
      then later
      else if net.connects i a
      then (record { kept = some s; dropped = [] })
      else (record later { dropped = s ∷ later.dropped })

  -- Whether the attempt with the `i`-th entry fails.
  abbrev pub fails : ℕ → AddrInfo → Bool
  fails i a = bad (net.socket i a) || not (net.connects i a)

  abbrev pub all_fail : ℕ → List AddrInfo → Bool
  all_fail i [] = true
  all_fail i (a ∷ rest) = fails i a && all_fail (suc i) rest

  -- The descriptors that attempts with all entries open.
  abbrev pub opened : ℕ → List AddrInfo → List ℕ
  opened i [] = []
  opened i (a ∷ rest) =
      if bad (net.socket i a) then opened (suc i) rest else net.socket i a ∷ opened (suc i) rest

  -- What the loop comes to.
  abbrev pub Tried : ℕ → List AddrInfo → Attempts → Type 0
  Tried i info t =
      ((t.kept ≡ none) × (all_fail i info ≡ true) × (t.dropped ≡ opened i info))
      ⊎ ((before after : List AddrInfo) × (a : AddrInfo) × (j : ℕ) × (j ≡ i + length before)
          × (info ≡ before ++ a ∷ after)
          × (all_fail i before ≡ true)
          × (fails j a ≡ false)
          × (t.kept ≡ some (net.socket j a))
          × (t.dropped ≡ opened i before))

  -- The loop connects to the first address that can be connected to, and closes exactly the
  -- descriptors that it opened before; without such an address it closes all that it opened.
  pub connect_any_lem : (i : ℕ) (info : List AddrInfo) → Tried i info (connect_any i info)
  unfolding connect_any
  connect_any_lem i [] = inl (refl, refl, refl)
  connect_any_lem i (a ∷ rest) = elim (Bool-cases (bad (net.socket i a))) [
    | inl broken ↦ elim (connect_any_lem (suc i) rest) [
      | inl (k, f, d) ↦ inl (rw (broken) k, rw (broken, f), rw (broken) d)
      | inr (before, after, b, j, p, l, f, w, k, d) ↦ inr (
        a ∷ before,
        after,
        b,
        j,
        omega (arith, p),
        ap (◌∷◌ a) l,
        rw (broken, f),
        w,
        rw (broken) k,
        rw (broken) d,
      )
    ]
    | inr good ↦ elim (Bool-cases (net.connects i a)) [
      | inl here ↦ inr (
        [],
        rest,
        a,
        i,
        omega arith,
        refl,
        refl,
        rw (good, here),
        rw (good, here),
        rw (good, here),
      )
      | inr not_here ↦ elim (connect_any_lem (suc i) rest) [
        | inl (k, f, d) ↦
            inl (rw (good, not_here) k, rw (good, not_here, f), rw (good, not_here, d))
        | inr (before, after, b, j, p, l, f, w, k, d) ↦ inr (
          a ∷ before,
          after,
          b,
          j,
          omega (arith, p),
          ap (◌∷◌ a) l,
          rw (good, not_here, f),
          w,
          rw (good, not_here) k,
          rw (good, not_here, d),
        )
      ]
    ]
  ]

module _ (net : Network) where
  -- The session after the loop.
  abbrev pub tried : List AddrInfo → Session → Session
  tried info s =
      let t = connect_any is_negative net 0 info in
      record s { sock = with_descriptor t.kept s.sock; closed = s.closed ++ t.dropped }

  pub connect : Uring → Allocator → Option (List AddrInfo) → Session → Outcome (Bool × Session)
  connect u a none s = done (false, s)
  connect u a (some info) s =
      let s' = tried info s in
      let active = on_active u a s' >>= λ s''. done (true, s'') in
      if s'.sock.socket_handler == 0 then done (false, s') else active
