-- ===== src/IoDoubleBuffer.antt =====
-- src/io_double_buffer.cpp and src/include/rioring/io_double_buffer.h: two buffers, of which the
-- first is being sent while the second takes what no longer fits.
pub mod Valid
pub mod Push
pub mod Sent
use rioring.Prelude.{
  ℕ, ◌+◌, List, Option, Bool, length, max, ltb, ◌==◌, ◌&&◌, not, if◌then◌else◌, Outcome, done,
  ◌>>=◌, add_size, mul_size,
}
use rioring.Memory.{Allocator}
use rioring.IoBuffer
use rioring.IoBuffer.{IoBuffer, null_buffer, destroy, move_assign}

pub record IoDoubleBuffer : Type 0 where
  pub main_buffer : IoBuffer
  pub sub_buffer : IoBuffer

-- `io_double_buffer() = default`.
abbrev pub null_double : IoDoubleBuffer
null_double = record { main_buffer = null_buffer; sub_buffer = null_buffer }

abbrev pub empty : IoDoubleBuffer → Bool
empty d = IoBuffer.empty d.main_buffer && IoBuffer.empty d.sub_buffer

-- Only what can be sent at once counts.
abbrev pub size : IoDoubleBuffer → ℕ
size d = IoBuffer.size d.main_buffer

unfoldable pub destroy_both : IoDoubleBuffer → IoDoubleBuffer
unfolding destroy
destroy_both d = record { main_buffer = destroy d.main_buffer; sub_buffer = destroy d.sub_buffer }

unfoldable pub read : IoDoubleBuffer → ℕ → Outcome (Option (List ℕ))
read d n = IoBuffer.read d.main_buffer n

unfoldable pub pop : IoDoubleBuffer → ℕ → Outcome IoDoubleBuffer
pop d n = IoBuffer.pop d.main_buffer n >>= λ b. done (record d { main_buffer = b })

-- The move assignment empties the second buffer.
unfoldable pub elevate : IoDoubleBuffer → IoDoubleBuffer
unfolding destroy move_assign
elevate d =
    if IoBuffer.empty d.main_buffer && not (IoBuffer.empty d.sub_buffer)
    then (let (main', sub') = move_assign (destroy d.main_buffer) d.sub_buffer in
        record { main_buffer = main'; sub_buffer = sub' })
    else d

module _ (a : Allocator) where
  pub new_double : ℕ → IoDoubleBuffer
  new_double n = record null_double { main_buffer = IoBuffer.new_buffer a n }

  unfoldable pub assign : IoDoubleBuffer → ℕ → IoDoubleBuffer
  assign d n = record d { main_buffer = IoBuffer.assign a d.main_buffer n }

  push_main : IoDoubleBuffer → List ℕ → Outcome IoDoubleBuffer
  push_main d buf = IoBuffer.push a d.main_buffer buf >>= λ b. done (record d { main_buffer = b })

  push_sub : IoDoubleBuffer → IoBuffer → List ℕ → Outcome IoDoubleBuffer
  push_sub d sub buf = IoBuffer.push a sub buf >>= λ b. done (record d { sub_buffer = b })

  -- The second buffer, with a block of its own from its first use on.
  opened_sub : IoDoubleBuffer → ℕ → IoBuffer
  opened_sub d n =
      if IoBuffer.capacity d.sub_buffer == 0
      then (IoBuffer.assign a d.sub_buffer (max (mul_size n 2) (IoBuffer.capacity d.main_buffer)))
      else d.sub_buffer

  unfoldable pub push : IoDoubleBuffer → List ℕ → Outcome IoDoubleBuffer
  unfolding push_main push_sub opened_sub
  push d buf =
      if not (IoBuffer.empty d.sub_buffer)
      then push_sub d d.sub_buffer buf
      else if IoBuffer.empty d.main_buffer
      then push_main d buf
      else if ltb (IoBuffer.capacity d.main_buffer)
          (add_size d.main_buffer.buffer_offset (length buf))
      then push_sub d (opened_sub d (length buf)) buf
      else push_main d buf
