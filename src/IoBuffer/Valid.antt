-- ===== src/IoBuffer/Valid.antt =====
-- The representation invariant of io_buffer, and the operations of src/io_buffer.cpp that do not
-- grow it.
use rioring.Prelude.{
  ℕ, ◌+◌, ◌-◌, ◌≤◌, ◌<◌, ◌≡◌, ◌⊎◌, refl, ap, sym, ◌∙◌, take-take, drop_all, List, [], some, length,
  take, drop, ltb, leb, done, ◌>>=◌, Returns, arith, tests, length-take, length-drop, take-drop,
  Bool-cases, false, inl, inr, le→leb, leb→le,
}
use rioring.Memory.{bytes_of, address_of, Allocator, IsAllocator}
use rioring.Memory.Copy.{read_bytes_within, write_bytes_within}
use rioring.ByteQueue.{peek, remove, peek_enough, peek_short, remove_enough, remove_short}
use rioring.IoBuffer.{IoBuffer, null_buffer, destroy, read, pop, assign}

-- The offset lies in the block, and the block is as long as the buffer says. A buffer with room
-- knows by how much to grow.
pub record IsValid (b : IoBuffer) : Type 0 where
  pub within : b.buffer_offset ≤ b.buffer_size
  pub whole : length (bytes_of b.raw_buffer) ≡ b.buffer_size
  pub steps : (b.buffer_size ≡ 0) ⊎ (0 < b.block_size)

-- What the buffer holds, oldest byte first.
abbrev pub contents : IoBuffer → List ℕ
contents b = take b.buffer_offset (bytes_of b.raw_buffer)

pub length-contents : (b : IoBuffer) → IsValid b → length (contents b) ≡ b.buffer_offset
length-contents b v = omega (arith, length-take b.buffer_offset (bytes_of b.raw_buffer))

pub contents-empty : (b : IoBuffer) → b.buffer_offset ≡ 0 → contents b ≡ []
contents-empty b e = ap (λ n. take n (bytes_of b.raw_buffer)) e

pub null_buffer-IsValid : IsValid null_buffer
null_buffer-IsValid = omega arith

pub assign-IsValid :
    (a : Allocator) (b : IoBuffer) (n : ℕ)
    → IsAllocator a
    → IsValid (assign a b n) × (contents (assign a b n) ≡ [])
unfolding assign
assign-IsValid a b n m =
    (record { within = omega arith; whole = m.malloc_size n; steps = omega arith }, refl)

pub destroy-IsValid : (b : IoBuffer) → IsValid b → IsValid (destroy b) × (contents (destroy b) ≡ [])
unfolding destroy
destroy-IsValid b v = ground arith

-- `read` on a valid buffer never leaves the block: it copies out the oldest `n` bytes, and refuses
-- exactly when fewer are held.
pub read_lem : (b : IoBuffer) (n : ℕ) → IsValid b → read b n ≡ done (peek n (contents b))
unfolding read
read_lem b n v = elim (Bool-cases (ltb b.buffer_offset n)) [
  | inl short ↦ rw (short, peek_short n (contents b) (omega (tests, length-contents b v)))
  | inr enough ↦
      let h : n ≤ b.buffer_offset = omega (tests, enough) in
      rw
        (
          enough,
          read_bytes_within b.raw_buffer 0 n (omega (arith, v.within)),
          ◌>>=◌,
          peek_enough n (contents b) (omega (arith, length-contents b v)),
        )
        (ap (λ bytes. done (some bytes))
          (sym (take-take n b.buffer_offset (bytes_of b.raw_buffer) h)))
]

-- What a buffer keeps when bytes are taken off its front.
abbrev pub Popped : List ℕ → IoBuffer → IoBuffer → Type 0
Popped rest b b' =
    IsValid b'
    × (contents b' ≡ rest)
    × (address_of b'.raw_buffer ≡ address_of b.raw_buffer)
    × (b'.buffer_size ≡ b.buffer_size)
    × (b'.block_size ≡ b.block_size)

length-moved :
    (b : IoBuffer) (n : ℕ)
    → IsValid b
    → n ≤ b.buffer_offset
    → length (take (b.buffer_offset - n) (drop n (bytes_of b.raw_buffer))) ≡ b.buffer_offset - n
length-moved b n v h = omega (
  arith,
  length-take (b.buffer_offset - n) (drop n (bytes_of b.raw_buffer)),
  length-drop n (bytes_of b.raw_buffer),
)

pop_enough :
    (b : IoBuffer) (n : ℕ)
    → IsValid b
    → n ≤ b.buffer_offset
    → Returns (pop b n) (Popped (drop n (contents b)) b)
unfolding pop
pop_enough b n v h =
    let moved : List ℕ = take (b.buffer_offset - n) (drop n (bytes_of b.raw_buffer)) in
    let len = length-moved b n v h in
    let len' : b.buffer_offset - n ≡ 0 + length moved = omega (arith, len) in
    let (q, e, w) = write_bytes_within b.raw_buffer 0 moved (omega (arith, v.within, v.whole)) in
    (
      record b { raw_buffer = q; buffer_offset = b.buffer_offset - n },
      rw (
        le→leb n b.buffer_offset h,
        read_bytes_within b.raw_buffer n (b.buffer_offset - n) (omega (arith, v.within, v.whole)),
        ◌>>=◌,
        e,
      ),
      (
        record { within = omega (arith, v.within); whole = w.0 ∙ v.whole; steps = v.steps },
        ap (λ k. take k (bytes_of q)) len'
            ∙ (w.1 ∙ take-drop n b.buffer_offset (bytes_of b.raw_buffer) h),
        w.2,
        refl,
        refl,
      ),
    )

pop_short : (b : IoBuffer) (n : ℕ) → leb n b.buffer_offset ≡ false → pop b n ≡ done b
unfolding pop
pop_short b n h = rw h

-- `pop` on a valid buffer never leaves the block: it drops the oldest `n` bytes if so many are held
-- and is without effect otherwise. The block stays where it is and as long as it is.
pub pop-Popped :
    (b : IoBuffer) (n : ℕ) → IsValid b → Returns (pop b n) (Popped (remove n (contents b)) b)
pop-Popped b n v = elim (Bool-cases (leb n b.buffer_offset)) [
  | inl enough ↦
      rw (remove_enough n (contents b) (omega (tests, length-contents b v)))
        (pop_enough b n v (leb→le _ _ enough))
  | inr short ↦
      rw (remove_short n (contents b) (omega (tests, length-contents b v)))
        (b, pop_short b n short, (v, refl, refl, refl, refl))
]

-- Taking out all that is held leaves nothing.
pub pop_all : (b : IoBuffer) → IsValid b → Returns (pop b b.buffer_offset) (Popped [] b)
pop_all b v =
    let (b', e, (ok, left, same, size, step)) = pop-Popped b b.buffer_offset v in
    let len = length-contents b v in
    (
      b',
      e,
      (
        ok,
        left
            ∙ (remove_enough b.buffer_offset (contents b) (omega (arith, len))
                ∙ drop_all b.buffer_offset (contents b) (omega (arith, len))),
        same,
        size,
        step,
      ),
    )
