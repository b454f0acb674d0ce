-- ===== src/IoDoubleBuffer/Valid.antt =====
-- The invariant of io_double_buffer (src/io_double_buffer.cpp).
use rioring.Prelude.{
  ℕ, ◌+◌, ◌*◌, ◌<◌, ◌≡◌, ◌⊎◌, inr, refl, ap, ap₂, true, false, List, [], ◌++◌, length, max, arith,
  size_mod, length-append,
}
use rioring.Memory.{Allocator, IsAllocator}
use rioring.IoBuffer
use rioring.IoBuffer.{IoBuffer}
use rioring.IoBuffer.Valid
use rioring.IoBuffer.Growth.{HasRoom}
use rioring.IoDoubleBuffer.{IoDoubleBuffer, null_double, assign, size, empty}

-- Both buffers are sound, and the first has been given a block size.
pub record IsReady (d : IoDoubleBuffer) : Type 0 where
  pub main_valid : Valid.IsValid d.main_buffer
  pub sub_valid : Valid.IsValid d.sub_buffer
  pub able : 0 < d.main_buffer.block_size

-- All bytes that wait, oldest first.
abbrev pub contents : IoDoubleBuffer → List ℕ
contents d = Valid.contents d.main_buffer ++ Valid.contents d.sub_buffer

-- What waits can be sent at once, or nothing waits.
abbrev pub IsFront : IoDoubleBuffer → Type 0
IsFront d = (0 < d.main_buffer.buffer_offset) ⊎ (d.sub_buffer.buffer_offset ≡ 0)

-- Room for `n` more bytes without a wrapping sum, wherever they go.
pub record HasRooms (d : IoDoubleBuffer) (n : ℕ) : Type 0 where
  pub main_room : HasRoom d.main_buffer n
  pub sub_room : HasRoom d.sub_buffer n
  pub fresh_room : n + max (n * 2) d.main_buffer.buffer_size < size_mod

-- A buffer that has been given its block, as the sockets do before they send.
pub assign-IsReady :
    (a : Allocator) (n : ℕ)
    → IsAllocator a
    → 0 < n
    → IsReady (assign a null_double n)
      × (contents (assign a null_double n) ≡ [])
      × IsFront (assign a null_double n)
unfolding assign IoBuffer.assign
assign-IsReady a n m p =
    let (v, e) = Valid.assign-IsValid a IoBuffer.null_buffer n m in
    (record { main_valid = v; sub_valid = Valid.null_buffer-IsValid; able = p }, refl, inr refl)

pub length-contents :
    (d : IoDoubleBuffer)
    → IsReady d
    → length (contents d) ≡ d.main_buffer.buffer_offset + d.sub_buffer.buffer_offset
length-contents d v = omega (
  arith,
  length-append (Valid.contents d.main_buffer) (Valid.contents d.sub_buffer),
  Valid.length-contents d.main_buffer v.main_valid,
  Valid.length-contents d.sub_buffer v.sub_valid,
)

-- Nothing waits exactly if both offsets are 0.
pub contents-nil :
    (d : IoDoubleBuffer)
    → IsReady d
    → contents d ≡ []
    → (d.main_buffer.buffer_offset ≡ 0) × (d.sub_buffer.buffer_offset ≡ 0)
contents-nil d v e = omega (arith, length-contents d v, ap length e)

pub empty→nil : (d : IoDoubleBuffer) → empty d ≡ true → contents d ≡ []
empty→nil d e =
    ap₂ ◌++◌ (Valid.contents-empty d.main_buffer (ground arith))
      (Valid.contents-empty d.sub_buffer (ground arith))

pub empty→size : (d : IoDoubleBuffer) → empty d ≡ true → size d ≡ 0
empty→size d e = ground arith

pub busy→size : (d : IoDoubleBuffer) → IsFront d → empty d ≡ false → 0 < size d
busy→size d f e = ground arith

-- The test of the code, the offsets and what waits agree.
pub nil→empty : (d : IoDoubleBuffer) → IsReady d → contents d ≡ [] → empty d ≡ true
nil→empty d v e = ground (arith, contents-nil d v e)
