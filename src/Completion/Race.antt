-- ===== src/Completion/Race.antt =====
-- A `send` of one thread while another completes the last read of the socket (src/tcp_socket.cpp,
-- src/socket_object.cpp, src/io_buffer.cpp): `send` looks at the socket before it takes the lock, and
-- `io_shutdown` frees the buffers without it.
use rioring.Prelude.{
  Option-cases, Bool-cases, ◌==◌, ℕ, ◌<◌, ◌≡◌, inl, inr, refl, ap, ◌∙◌, Bool, true, false, not,
  ◌&&◌, List, length, none, if◌then◌else◌, Outcome, done, hang, ◌>>=◌, Returns, arith, size_mod,
}
use rioring.Memory.{Allocator, bytes_of}
use rioring.IoBuffer
use rioring.IoBuffer.{IoBuffer, null_buffer}
use rioring.IoBuffer.Valid
use rioring.IoBuffer.Push.{push-hang, push_within_hangs}
use rioring.IoDoubleBuffer
use rioring.IoDoubleBuffer.{IoDoubleBuffer}
use rioring.IoDoubleBuffer.Valid.{IsReady}
use rioring.IoContext.{IoContext, IoType}
use rioring.SocketObject.{tcp, graceful}
use rioring.IoService.{Uring, deallocate_context}
use rioring.Session.{
  Session, UserCode, with_lock, queue_and_send, push_send, send, close, on_shutdown,
}
use rioring.Session.Send.{locked, send_refused}
use rioring.Completion.{ℤ, complete}
use rioring.Completion.Ended.{IsSilent, is_end, after_end, end_complete, destroy-offset}

-- `send` up to its lock, and from there on.
unfoldable pub send_passes : Session → Bool
send_passes s = not s.sock.shutdown_gracefully && s.sock.connected_flag

unfoldable pub send_locked : Uring → Allocator → List ℕ → Session → Outcome (Bool × Session)
send_locked u a bytes s = with_lock (queue_and_send u a bytes none) s >>= λ s'. done (true, s')

-- Without another thread in between, the two are `send`.
send_parts :
    (u : Uring) (a : Allocator) (bytes : List ℕ) (s : Session)
    → send u a bytes s ≡ (if send_passes s then send_locked u a bytes s else done (false, s))
unfolding send send_passes send_locked
send_parts u a bytes s =
    by_flags s.sock.shutdown_gracefully s.sock.connected_flag (done (false, s))
      (with_lock (queue_and_send u a bytes none) s >>= λ s'. done (true, s'))
  where
    by_flags :
        (b c : Bool) (x y : Outcome (Bool × Session))
        → (if b then x else if not c then x else y) ≡ (if not b && c then y else x)
    by_flags true true x y = refl
    by_flags true false x y = refl
    by_flags false true x y = refl
    by_flags false false x y = refl

-- A buffer with a block has no block size once it is destroyed.
destroyed : (b : IoBuffer) → Valid.IsValid b → 0 < b.buffer_size → IoBuffer.destroy b ≡ null_buffer
unfolding IoBuffer.destroy
destroyed b v h = elim (Option-cases b.raw_buffer) [
  | inl e ↦ absurd (omega (arith, h, v.whole, ap length (ap bytes_of e)))
  | inr (block, e) ↦ rw (e, IoBuffer.destroy)
]

module _ (u : Uring) (a : Allocator) where
  push-hangs :
      (d : IoDoubleBuffer) (bytes : List ℕ)
      → IoBuffer.empty d.main_buffer ≡ true
      → IoBuffer.empty d.sub_buffer ≡ true
      → IoBuffer.push a d.main_buffer bytes ≡ hang
      → IoDoubleBuffer.push a d bytes ≡ hang
  unfolding IoDoubleBuffer.push
  push-hangs d bytes m s h = rw (s, m, h, ◌>>=◌)

  queue-hangs :
      (s : Session) (bytes : List ℕ)
      → IoDoubleBuffer.push a s.sock.send_buffer bytes ≡ hang
      → queue_and_send u a bytes none s ≡ hang
  unfolding queue_and_send push_send
  queue-hangs s bytes h = elim (Bool-cases (IoDoubleBuffer.empty s.sock.send_buffer)) [
    | inl idle ↦ rw (idle, queue_and_send, h, ◌>>=◌)
    | inr busy ↦ rw (busy, queue_and_send, h, ◌>>=◌)
  ]

  -- What `send` does under its lock, on a socket whose buffers have been destroyed.
  body-hangs :
      (s : Session) (bytes : List ℕ)
      → s.sock.send_buffer.main_buffer ≡ null_buffer
      → s.sock.send_buffer.sub_buffer.buffer_offset ≡ 0
      → 0 < length bytes
      → length bytes < size_mod
      → queue_and_send u a bytes none (locked s) ≡ hang
  body-hangs s bytes gone empty_sub some_bytes small =
      let d = s.sock.send_buffer in
      let lost : IoBuffer.push a d.main_buffer bytes ≡ hang =
        ap (λ b. IoBuffer.push a b bytes) gone
        ∙ push-hang a null_buffer bytes refl (omega arith) (omega arith) in
      let pushed = push-hangs d bytes (ap IoBuffer.empty gone) (ap (λ n. n == 0) empty_sub) lost in
      queue-hangs (locked s) bytes pushed

  locked-hangs :
      (s : Session) (bytes : List ℕ)
      → s.sock.lock ≡ false
      → queue_and_send u a bytes none (locked s) ≡ hang
      → send_locked u a bytes s ≡ hang
  unfolding send_locked
  locked-hangs s bytes free h = rw (free, h, ◌>>=◌)

  -- A TCP socket that `send` has looked at, and taken for open, when another thread completes a read
  -- without a byte: what is left of `send`, of at least one byte and less than 2^64, never returns. It
  -- hangs with the lock taken, in a loop that no bound on its rounds ends, and so does a graceful close
  -- that waits for that lock. A `send` that looks afterwards is refused.
  pub race_lem :
      (user : UserCode) (ctx : IoContext) (res : ℤ) (s : Session) (bytes : List ℕ)
      → IsSilent user
      → ctx.io_type ≡ IoType.read
      → is_end res ≡ true
      → s.sock.socket_type ≡ tcp
      → s.sock.lock ≡ false
      → IsReady s.sock.send_buffer
      → 0 < s.sock.send_buffer.main_buffer.buffer_size
      → send_passes s ≡ true
      → 0 < length bytes
      → length bytes < size_mod
      → Returns (complete u a user ctx res s) (λ s'.
        (send u a bytes s ≡ send_locked u a bytes s)
        × (send_locked u a bytes s' ≡ hang)
        × ((fuel inner : ℕ)
            → IoBuffer.push_within a fuel inner s'.sock.send_buffer.main_buffer bytes ≡ hang)
        × (queue_and_send u a bytes none (locked s') ≡ hang)
        × (close u graceful (locked s') ≡ hang)
        × (send u a bytes s' ≡ done (false, s')))
  unfolding close on_shutdown IoDoubleBuffer.destroy_both deallocate_context
  race_lem user ctx res s bytes q t h is_tcp free v block passes some_bytes small =
      let s' = after_end u a user ctx s in
      let gone = destroyed s.sock.send_buffer.main_buffer v.main_valid block in
      let body =
        body-hangs s' bytes gone (destroy-offset s.sock.send_buffer.sub_buffer v.sub_valid)
          some_bytes small in
      (
        s',
        end_complete u a user ctx res s q t h,
        (
          send_parts u a bytes s
              ∙ ap (λ b. if b then send_locked u a bytes s else done (false, s)) passes,
          locked-hangs s' bytes free body,
          λ fuel inner.
              ap (λ b. IoBuffer.push_within a fuel inner b bytes) gone
              ∙ push_within_hangs a fuel inner null_buffer bytes refl (omega arith) (omega arith),
          body,
          refl,
          send_refused u a bytes s' (inr (rw is_tcp refl)),
        ),
      )
