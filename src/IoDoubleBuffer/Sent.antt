-- ===== src/IoDoubleBuffer/Sent.antt =====
-- What happens to io_double_buffer when bytes have been sent: `pop`, then `elevate`
-- (src/io_double_buffer.cpp), as socket_object::io_sent calls them.
use rioring.Prelude.{
  ℕ, ◌≤◌, ◌≡◌, refl, ap, sym, ◌∙◌, ◌++◌, append-nil, drop, done, ◌>>=◌, Returns, arith, Bool-cases,
  inl, inr, drop-append_le, ==→eq, ==→ne,
}
use rioring.IoBuffer
use rioring.IoBuffer.Valid
use rioring.ByteQueue.{remove_enough}
use rioring.IoDoubleBuffer.{IoDoubleBuffer, pop, elevate, size}
use rioring.IoDoubleBuffer.Valid.{IsReady, contents, IsFront}

-- `pop` takes bytes off the first buffer only.
pub pop_lem :
    (d : IoDoubleBuffer) (n : ℕ)
    → IsReady d
    → n ≤ size d
    → Returns (pop d n) (λ d'. IsReady d' × (contents d' ≡ drop n (contents d)))
unfolding pop
pop_lem d n v h =
    let (b, e, (w, c, _, _, s)) = Valid.pop-Popped d.main_buffer n v.main_valid in
    let len = Valid.length-contents d.main_buffer v.main_valid in
    (
      record d { main_buffer = b },
      rw (e, ◌>>=◌),
      (
        record { main_valid = w; sub_valid = v.sub_valid; able = omega (arith, s, v.able) },
        ap (λ x. x ++ Valid.contents d.sub_buffer)
              (c ∙ remove_enough n (Valid.contents d.main_buffer) (omega (arith, len)))
            ∙ sym (
                drop-append_le n (Valid.contents d.main_buffer) (Valid.contents d.sub_buffer)
                  (omega (arith, len))),
      ),
    )

-- `elevate` changes nothing of what waits, and afterwards the oldest of it can be sent at once.
pub elevate_lem :
    (d : IoDoubleBuffer)
    → IsReady d
    → IsReady (elevate d) × (contents (elevate d) ≡ contents d) × IsFront (elevate d)
unfolding elevate
elevate_lem d v = elim (Bool-cases (IoBuffer.empty d.main_buffer)) [
  | inr sending ↦ rw (sending, elevate) (v, refl, inl (omega (arith, ==→ne _ _ sending)))
  | inl all_sent ↦ elim (Bool-cases (IoBuffer.empty d.sub_buffer)) [
    | inl none_waits ↦ rw (all_sent, none_waits, elevate) (v, refl, inr (==→eq _ _ none_waits))
    | inr waiting ↦
        rw (all_sent, waiting, elevate)
          (
            record {
              main_valid = v.sub_valid;
              sub_valid = Valid.null_buffer-IsValid;
              able = omega (arith, v.sub_valid.steps, v.sub_valid.within, ==→ne _ _ waiting);
            },
            append-nil (Valid.contents d.sub_buffer)
                ∙ sym (
                    ap (λ x. x ++ Valid.contents d.sub_buffer)
                      (Valid.contents-empty d.main_buffer (==→eq _ _ all_sent))),
            inr refl,
          )
  ]
]

-- Both together: the `n` oldest bytes go, and what still waits comes to the front.
sent_lem :
    (d : IoDoubleBuffer) (n : ℕ)
    → IsReady d
    → n ≤ size d
    → Returns
        (pop d n >>= λ d'. done (elevate d'))
        (λ d'. IsReady d' × (contents d' ≡ drop n (contents d)) × IsFront d')
sent_lem d n v h =
    let (d', e, (w, c)) = pop_lem d n v h in
    let (w', c', f) = elevate_lem d' w in (elevate d', rw (e, ◌>>=◌), (w', c' ∙ c, f))
