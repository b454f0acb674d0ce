-- ===== src/IoBuffer/Queue.antt =====
-- io_buffer (src/io_buffer.cpp) against the queue of bytes that it stands for.
use rioring.Prelude.{
  ℕ, ◌+◌, ◌<◌, ◌≡◌, inr, refl, ap, List, [], ◌∷◌, Option, none, length, Outcome, done, ◌>>=◌, arith,
  size_mod,
}
use rioring.Memory.{Allocator, IsAllocator}
use rioring.ByteQueue
use rioring.ByteQueue.{Op, write, discard, look, written, remove, length-remove}
use rioring.IoBuffer.{IoBuffer, read, pop, push}
use rioring.IoBuffer.Valid.{IsValid, contents, length-contents, read_lem, pop-Popped}
use rioring.IoBuffer.Push.{push-Pushed}

module _ (a : Allocator) where
  -- One call of a method, with what the caller sees of it.
  pub call : IoBuffer → Op → Outcome (IoBuffer × Option (List ℕ))
  call b (write bytes) = push a b bytes >>= λ b'. done (b', none)
  call b (discard n) = pop b n >>= λ b'. done (b', none)
  call b (look n) = read b n >>= λ out. done (b, out)

  -- A series of calls.
  pub run : IoBuffer → List Op → Outcome (List (Option (List ℕ)))
  unfolding call
  run b [] = done []
  run b (op ∷ ops) = do (b', out) ← call b op; outs ← run b' ops; done (out ∷ outs)

module _ (a : Allocator) (m : IsAllocator a) where
  -- No series of calls tells a valid buffer from the queue of its contents, as long as the bytes
  -- written fit the address space: each call returns, none faults, and each shows what the queue
  -- shows.
  pub run_refines :
      (ops : List Op) (b : IoBuffer)
      → IsValid b
      → 0 < b.block_size
      → b.buffer_offset + written ops + b.block_size < size_mod
      → run a b ops ≡ done (ByteQueue.run (contents b) ops)
  unfolding run call ByteQueue.run ByteQueue.step
  run_refines [] b v p room = refl
  run_refines (write bytes ∷ ops) b v p room =
      let (b', e, w) = push-Pushed a m b bytes v (omega arith) (inr p) in
      rw (
        e,
        ◌>>=◌,
        run_refines ops b' w.valid (omega (arith, w.step)) (omega (arith, w.step, w.longer)),
        ◌>>=◌,
        w.appended,
      )
  run_refines (discard n ∷ ops) b v p room =
      let (b', e, (w, c, _, _, s)) = pop-Popped b n v in
      let shorter = length-remove n (contents b) in
      rw (
        e,
        ◌>>=◌,
        run_refines ops b' w (omega (arith, s))
            (omega (arith, s, length-contents b v, length-contents b' w, ap length c, shorter)),
        ◌>>=◌,
        c,
      )
  run_refines (look n ∷ ops) b v p room =
      rw (read_lem b n v, ◌>>=◌, run_refines ops b v p room, ◌>>=◌)
