-- ===== src/IoBuffer/Push.antt =====
-- io_buffer::push as a whole (src/io_buffer.cpp).
use rioring.Prelude.{
  ℕ, zero, suc, ◌+◌, ◌≤◌, ◌<◌, ◌≡◌, ◌⊎◌, inl, inr, refl, ap, ◌∙◌, List, ◌++◌, length, hang, ◌>>=◌,
  Returns, arith, lt→ltb, size_mod, add_size_lem,
}
use rioring.Memory.{address_of, Allocator, IsAllocator}
use rioring.Memory.Copy.{write_bytes_within}
use rioring.IoBuffer.{IoBuffer, reserve, push_within, push}
use rioring.IoBuffer.Valid.{IsValid, contents}
use rioring.IoBuffer.Growth.{HasRoom, Overflowed, grow_hangs, reserve_lem}

-- What `push` changes.
pub record Pushed (b : IoBuffer) (bytes : List ℕ) (b' : IoBuffer) : Type 0 where
  pub valid : IsValid b'
  pub appended : contents b' ≡ contents b ++ bytes
  pub longer : b'.buffer_offset ≡ b.buffer_offset + length bytes
  pub step : b'.block_size ≡ b.block_size
  -- A push that fits leaves the block where it is; one that does not adds whole blocks, and not
  -- one too many.
  pub place :
      ((address_of b'.raw_buffer ≡ address_of b.raw_buffer) × (b'.buffer_size ≡ b.buffer_size))
      ⊎ Overflowed b (length bytes) b'

module _ (a : Allocator) (m : IsAllocator a) where
  -- On a valid buffer that can grow, or has the room already, `push` returns, never leaves the
  -- block, and appends the bytes.
  pub push-Pushed :
      (b : IoBuffer) (bytes : List ℕ)
      → IsValid b
      → HasRoom b (length bytes)
      → (b.buffer_offset + length bytes ≤ b.buffer_size) ⊎ (0 < b.block_size)
      → Returns (push a b bytes) (Pushed b bytes)
  unfolding push
  push-Pushed b bytes v room able =
      let n = length bytes in
      let (r, e, (rv, rc, ro, rb, rs, place)) = reserve_lem a m b n v room able in
      let (q, f, (ql, qc, qa)) =
        write_bytes_within r.raw_buffer r.buffer_offset bytes (omega (arith, rv.whole)) in
      (
        record r { raw_buffer = q; buffer_offset = r.buffer_offset + n },
        rw (e, ◌>>=◌, f, ◌>>=◌, add_size_lem r.buffer_offset n (omega (arith, ro))),
        record {
          valid = record {
            within = omega (arith, rs, ro);
            whole = ql ∙ rv.whole;
            steps = rv.steps;
          };
          appended = qc ∙ ap (λ c. c ++ bytes) rc;
          longer = ap (λ k. k + n) ro;
          step = rb;
          place = elim place [
            | inl same ↦ inl (
              qa ∙ ap (λ (x : IoBuffer). address_of x.raw_buffer) same,
              ap (λ (x : IoBuffer). x.buffer_size) same,
            )
            | inr over ↦ inr over
          ];
        },
      )

module _ (a : Allocator) where
  -- A buffer without a block size that has not the room never comes back from `push`, whatever
  -- bound is set on the rounds of its two loops.
  pub push_within_hangs :
      (fuel inner : ℕ) (b : IoBuffer) (bytes : List ℕ)
      → b.block_size ≡ 0
      → b.buffer_size < b.buffer_offset + length bytes
      → b.buffer_offset + length bytes < size_mod
      → push_within a fuel inner b bytes ≡ hang
  unfolding push_within reserve
  push_within_hangs zero inner b bytes z h s = refl
  push_within_hangs (suc fuel) inner b bytes z h s = rw (
    add_size_lem b.buffer_offset (length bytes) s,
    lt→ltb b.buffer_size (b.buffer_offset + length bytes) h,
    z,
    add_size_lem b.buffer_size 0 (omega arith),
    grow_hangs inner (b.buffer_offset + length bytes) (b.buffer_size + 0) (omega arith) s,
    ◌>>=◌,
  )

  -- `push` on a buffer that has been destroyed.
  pub push-hang :
      (b : IoBuffer) (bytes : List ℕ)
      → b.block_size ≡ 0
      → b.buffer_size < b.buffer_offset + length bytes
      → b.buffer_offset + length bytes < size_mod
      → push a b bytes ≡ hang
  unfolding push
  push-hang b bytes z h s =
      push_within_hangs 2 (suc (suc (b.buffer_offset + length bytes))) b bytes z h s
