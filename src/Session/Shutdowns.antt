-- ===== src/Session/Shutdowns.antt =====
-- What a socket asks for when all its bytes are sent, or it is closed (src/socket_object.cpp).
use rioring.Prelude.{
  ℕ, ◌<◌, ◌≡◌, inl, inr, refl, sym, ap, ap₂, ◌∙◌, Bool, true, false, List, [], ◌∷◌, ◌++◌, length,
  done, Returns, arith, Bool-cases, if◌then◌else◌, ◌&&◌, append-nil, is_nil,
}
use rioring.Memory.{Allocator}
use rioring.IoContext.{IoContext, IoType, new_context}
use rioring.SocketObject.{SocketObject}
use rioring.IoService.{socket, IoService, Uring, allocate_context}
use rioring.Session.{Session, UserCode, socket_context, submit_shutdown, on_send_complete}
use rioring.Session.Requests.{
  IsUring, HasRings, handed, outstanding, outstanding-other, outstanding-add, submit_context_lem,
}
use rioring.Session.Sending.{pending, reads}

-- A callback for completed sends that leaves the socket and the service alone.
pub record IsPassive (user : UserCode) : Type 0 where
  pub quiet :
      (s : Session)
      → Returns (user.send_complete_event s) (λ s'. (s'.sock ≡ s.sock) × (s'.service ≡ s.service))

pub is_nil-false : (l : List ℕ) → 0 < length l → is_nil l ≡ false
is_nil-false [] h = absurd (omega (arith, h))
is_nil-false (x ∷ l) h = refl

abbrev pub request_if : Bool → IoContext → List IoContext
request_if b ctx = if b then ctx ∷ [] else []

pub and_false : (b : Bool) → (b && false) ≡ false
and_false true = refl
and_false false = refl

pub and_true : (b : Bool) → (b && true) ≡ b
and_true true = refl
and_true false = refl

abbrev pub shutdowns : Session → List IoContext
shutdowns s = outstanding IoType.shutdown s.sock.obj_id s.service.submitted

pub same_requests :
    (t : IoType) (s s' : Session)
    → s'.sock ≡ s.sock
    → s'.service ≡ s.service
    → outstanding t s'.sock.obj_id s'.service.submitted
      ≡ outstanding t s.sock.obj_id s.service.submitted
same_requests t s s' o v =
    ap₂ (λ (x : SocketObject) (y : IoService). outstanding t x.obj_id y.submitted) o v

module _ (u : Uring) (f : IsUring u) where
  pub submit_shutdown_lem :
      (s : Session)
      → HasRings s.service
      → Returns (submit_shutdown u s) (λ s'.
        (s'.sock ≡ s.sock)
        × (s'.service.io_array ≡ s.service.io_array)
        × (pending s' ≡ pending s)
        × (reads s' ≡ reads s)
        × ((ctx : IoContext) × (shutdowns s' ≡ shutdowns s ++ ctx ∷ [])))
  unfolding submit_shutdown allocate_context
  submit_shutdown_lem s h =
      let (ctx, service) = socket_context s IoType.shutdown in
      let (ring, e) = submit_context_lem u f ctx service s h in
      (
        handed ring ctx service s,
        e,
        (
          refl,
          refl,
          outstanding-other IoType.write s.sock.obj_id ring s.service.submitted (socket s.sock) ctx
              refl,
          outstanding-other IoType.read s.sock.obj_id ring s.service.submitted (socket s.sock) ctx
              refl,
          (
            ctx,
            outstanding-add IoType.shutdown s.sock.obj_id ring s.service.submitted (socket s.sock)
                ctx refl refl,
          ),
        ),
      )

  pub on_send_complete_lem :
      (s : Session)
      → HasRings s.service
      → Returns (on_send_complete u s) (λ s'.
        (s'.sock ≡ s.sock)
        × (s'.service.io_array ≡ s.service.io_array)
        × (pending s' ≡ pending s)
        × (reads s' ≡ reads s)
        × ((ctx : IoContext) × (shutdowns s'
              ≡ shutdowns s ++ request_if s.sock.shutdown_gracefully ctx)))
  unfolding on_send_complete
  on_send_complete_lem s h = elim (Bool-cases s.sock.shutdown_gracefully) [
    | inl closing ↦
        let (s', e, (o, r, p, q, c)) = submit_shutdown_lem s h in
        let (ctx, added) = c in
        (
          s',
          ap (λ b. if b then submit_shutdown u s else done s) closing ∙ e,
          (o, r, p, q, (ctx, added ∙ ap (λ b. shutdowns s ++ request_if b ctx) (sym closing))),
        )
    | inr open' ↦ (
      s,
      ap (λ b. if b then submit_shutdown u s else done s) open',
      (
        refl,
        refl,
        refl,
        refl,
        (
          new_context 0,
          sym (append-nil (shutdowns s))
              ∙ ap (λ b. shutdowns s ++ request_if b (new_context 0)) (sym open'),
        ),
      ),
    )
  ]

module _ (u : Uring) (f : IsUring u) (a : Allocator) (user : UserCode)
    (passive : IsPassive user) where
  pub callback_lem :
      (s : Session)
      → Returns
          (if s.sock.send_complete_event then user.send_complete_event s else done s)
          (λ s'. (s'.sock ≡ s.sock) × (s'.service ≡ s.service))
  callback_lem s = elim (Bool-cases s.sock.send_complete_event) [
    | inl set ↦
        let (s', e, p) = passive.quiet s in
        (s', ap (λ b. if b then user.send_complete_event s else done s) set ∙ e, p)
    | inr unset ↦
        (s, ap (λ b. if b then user.send_complete_event s else done s) unset, (refl, refl))
  ]
