-- ===== src/Memory.antt =====
-- The C library's memory, as src/io_buffer.cpp uses it: blocks from `malloc` and `realloc`, which
-- are parameters, and the copies of `memcpy` and `memmove` within a block. `free` has no result
-- that the program sees and no definition here. A byte is a number; it is moved, never computed with.

pub mod Copy
use rioring.Prelude.{
  ℕ, ◌+◌, ◌≤◌, ◌≡◌, List, [], ◌++◌, Option, none, some, length, take, drop, leb, ◌==◌,
  if◌then◌else◌, Outcome, done, fault,
}

-- A block of the heap: where it starts, and what stands in it.
pub record Block : Type 0 where
  pub address : ℕ
  pub bytes : List ℕ

abbrev pub bytes_of : Option Block → List ℕ
bytes_of none = []
bytes_of (some b) = b.bytes

-- The value of the pointer to a block.
abbrev pub address_of : Option Block → Option ℕ
address_of none = none
address_of (some b) = some b.address

-- `malloc( n )` and `realloc( p, n )`. The bytes of a new block are whatever was there.
pub record Allocator : Type 0 where
  pub malloc : ℕ → Block
  pub realloc : Option Block → ℕ → Block

-- What the C standard says of an allocation that succeeds. (The code does not test for failure.)
pub record IsAllocator (a : Allocator) : Type 0 where
  pub malloc_size : (n : ℕ) → length (a.malloc n).bytes ≡ n
  pub realloc_size : (p : Option Block) (n : ℕ) → length (a.realloc p n).bytes ≡ n
  pub realloc_keeps :
      (p : Option Block) (n : ℕ)
      → length (bytes_of p) ≤ n
      → take (length (bytes_of p)) (a.realloc p n).bytes ≡ bytes_of p

-- The `n` bytes from `from` on, as `memcpy` reads them. A null pointer is good for no byte.
unfoldable pub read_bytes : Option Block → ℕ → ℕ → Outcome (List ℕ)
read_bytes none from n = if n == 0 then done [] else fault
read_bytes (some b) from n =
    if leb (from + n) (length b.bytes) then done (take n (drop from b.bytes)) else fault

-- The block after `memcpy` or `memmove` has written `src` at `to`.
unfoldable pub write_bytes : Option Block → ℕ → List ℕ → Outcome (Option Block)
write_bytes none to src = if length src == 0 then done none else fault
write_bytes (some b) to src =
    if leb (to + length src) (length b.bytes)
    then done
        (some (record b { bytes = take to b.bytes ++ (src ++ drop (to + length src) b.bytes) }))
    else fault
