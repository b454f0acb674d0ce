-- ===== src/IoBuffer.antt =====
-- src/io_buffer.cpp and src/include/rioring/io_buffer.h: a byte buffer that grows when it is full.
-- A method that changes the buffer returns the new buffer. `size_t` sums wrap.
pub mod Valid
pub mod Growth
pub mod Push
pub mod Queue
use rioring.Prelude.{
  ℕ, zero, suc, ◌+◌, ◌-◌, List, Option, none, some, Bool, length, leb, ltb, ◌==◌, if◌then◌else◌,
  Outcome, done, hang, ◌>>=◌, add_size,
}
use rioring.Memory.{Block, Allocator, read_bytes, write_bytes}

pub record IoBuffer : Type 0 where
  pub raw_buffer : Option Block
  pub buffer_size : ℕ
  pub block_size : ℕ
  pub buffer_offset : ℕ

-- A buffer as it is declared: `io_buffer() = default`.
abbrev pub null_buffer : IoBuffer
null_buffer = record { raw_buffer = none; buffer_size = 0; block_size = 0; buffer_offset = 0 }

unfoldable pub destroy : IoBuffer → IoBuffer
destroy b = elim b.raw_buffer [
  | none ↦ b
  | some _ ↦ record b { raw_buffer = none; buffer_offset = 0; buffer_size = 0; block_size = 0 }
]

-- The move constructor: the new buffer, and what is left of `other`.
pub move_from : IoBuffer → IoBuffer × IoBuffer
move_from other = (
  record {
    raw_buffer = other.raw_buffer;
    buffer_size = other.buffer_size;
    block_size = other.block_size;
    buffer_offset = other.buffer_offset;
  },
  record other { raw_buffer = none; buffer_offset = 0; buffer_size = 0; block_size = 0 },
)

-- The move assignment: `this` and `other` afterwards. Nothing of the old `this` is kept, or freed.
unfoldable pub move_assign : IoBuffer → IoBuffer → IoBuffer × IoBuffer
move_assign this other = (
  record this {
    raw_buffer = other.raw_buffer;
    buffer_size = other.buffer_size;
    buffer_offset = other.buffer_offset;
    block_size = other.block_size;
  },
  record other { raw_buffer = none; buffer_offset = 0; buffer_size = 0; block_size = 0 },
)

-- `offset( o )`, `size()`, `empty()` and `capacity()`.
pub set_offset : IoBuffer → ℕ → IoBuffer
set_offset b o = record b { buffer_offset = o }

abbrev pub size : IoBuffer → ℕ
size b = b.buffer_offset

abbrev pub empty : IoBuffer → Bool
empty b = b.buffer_offset == 0

abbrev pub capacity : IoBuffer → ℕ
capacity b = b.buffer_size

-- The bytes that the buffer copies out, or `none` where the method returns false.
pub read : IoBuffer → ℕ → Outcome (Option (List ℕ))
read b n =
    if ltb b.buffer_offset n
    then done none
    else (read_bytes b.raw_buffer 0 n >>= λ bytes. done (some bytes))

-- `memmove` reads the whole of its source before it writes.
unfoldable pub pop : IoBuffer → ℕ → Outcome IoBuffer
pop b n =
    if leb n b.buffer_offset
    then (read_bytes b.raw_buffer n (b.buffer_offset - n) >>= λ moved.
        write_bytes b.raw_buffer 0 moved >>= λ block.
        done (record b { raw_buffer = block; buffer_offset = b.buffer_offset - n }))
    else done b

-- The inner loop of `push`: add blocks until more than `needed` bytes fit.
pub grow : (fuel block needed new_size : ℕ) → Outcome ℕ
grow zero block needed new_size = hang
grow (suc fuel) block needed new_size =
    let rest = grow fuel block needed (add_size new_size block) in
    if leb new_size needed then rest else done new_size

module _ (a : Allocator) where
  -- The constructor with a size.
  pub new_buffer : ℕ → IoBuffer
  new_buffer n = record {
    raw_buffer = some (a.malloc n);
    buffer_size = n;
    block_size = n;
    buffer_offset = 0;
  }

  unfoldable pub assign : IoBuffer → ℕ → IoBuffer
  assign b n = record b {
    raw_buffer = some (a.malloc n);
    buffer_size = n;
    block_size = n;
    buffer_offset = 0;
  }

  pub on_overflow : IoBuffer → ℕ → IoBuffer
  on_overflow b new_size = record b {
    raw_buffer = some (a.realloc b.raw_buffer new_size);
    buffer_size = new_size;
  }

  -- The outer loop of `push`, with the fuel of the inner one.
  unfoldable pub reserve : (fuel inner : ℕ) → IoBuffer → ℕ → Outcome IoBuffer
  reserve zero inner b n = hang
  reserve (suc fuel) inner b n =
      let needed = add_size b.buffer_offset n in
      let rest =
        grow inner b.block_size needed (add_size b.buffer_size b.block_size) >>= λ new_size.
        reserve fuel inner (on_overflow b new_size) n in
      if ltb b.buffer_size needed then rest else done b

  -- `push` with a bound on the rounds of its two loops.
  pub push_within : (fuel inner : ℕ) → IoBuffer → List ℕ → Outcome IoBuffer
  push_within fuel inner b buf = do
    r ← reserve fuel inner b (length buf)
    block ← write_bytes r.raw_buffer r.buffer_offset buf
    done (record r { raw_buffer = block; buffer_offset = add_size r.buffer_offset (length buf) })

  -- A round of the inner loop adds at least a byte, and the outer loop goes round once at most.
  unfoldable pub push : IoBuffer → List ℕ → Outcome IoBuffer
  unfolding push_within
  push b buf = push_within 2 (suc (suc (b.buffer_offset + length buf))) b buf
