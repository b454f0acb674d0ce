-- ===== src/IoBuffer/Growth.antt =====
-- io_buffer::push and its two loops (src/io_buffer.cpp).
use rioring.Prelude.{
  ℕ, zero, suc, ◌+◌, ◌*◌, ◌≤◌, ◌<◌, ◌≡◌, ◌⊎◌, refl, ap, sym, ◌∙◌, length, take, ltb, leb, hang,
  done, ◌>>=◌, Returns, Returns-imp, arith, tests, Bool-cases, inl, inr, le→leb, lt→leb, le→ltb,
  lt→ltb, ltb→le, ltb→lt, size_mod, add_size_lem, take-take,
}
use rioring.Memory.{bytes_of, Allocator, IsAllocator}
use rioring.IoBuffer.{IoBuffer, grow, on_overflow, reserve}
use rioring.IoBuffer.Valid.{IsValid, contents}

-- What the inner loop of `push` comes to: enough room and not a block more, counted in blocks.
abbrev pub Grown : (block needed new_size r : ℕ) → Type 0
Grown block needed new_size r =
    (needed < r) × ((r ≤ needed + block) ⊎ (r ≡ new_size)) × ((k : ℕ) × (r ≡ new_size + k * block))

Grown-step :
    (block needed new_size r : ℕ)
    → new_size ≤ needed
    → Grown block needed (new_size + block) r
    → Grown block needed new_size r
Grown-step block needed new_size r h (lt, near, (k, e)) =
    (lt, inl (omega arith), (k + 1, omega (arith, e)))

-- With more rounds than the sizes between, the loop ends: with room beyond what is needed, and whole
-- blocks added, of which none is one too many.
pub grow_lem :
    (fuel block needed new_size : ℕ)
    → 0 < block
    → needed + block < size_mod
    → needed < new_size + fuel
    → Returns (grow (suc fuel) block needed new_size) (Grown block needed new_size)
unfolding grow
grow_lem zero block needed new_size p small enough =
    (new_size, rw (lt→leb new_size needed (omega arith)), (omega arith, inr refl, (0, omega arith)))
grow_lem (suc fuel) block needed new_size p small enough = elim (Bool-cases (leb new_size needed)) [
  | inl more ↦
      let le : new_size ≤ needed = omega (tests, more) in
      rw (more, add_size_lem new_size block (omega (arith, le, small)))
        (Returns-imp (λ r. Grown-step block needed new_size r le)
          (grow_lem fuel block needed (new_size + block) p small (omega arith)))
  | inr fits ↦ (new_size, rw fits, (omega (tests, fits), inr refl, (0, omega arith)))
]

-- The inner loop never ends if the step is zero and the size is not enough.
pub grow_hangs :
    (fuel needed new_size : ℕ)
    → new_size ≤ needed
    → needed < size_mod
    → grow fuel 0 needed new_size ≡ hang
unfolding grow
grow_hangs zero needed new_size h s = refl
grow_hangs (suc fuel) needed new_size h s =
    rw (le→leb new_size needed h, add_size_lem new_size 0 (omega arith))
      (grow_hangs fuel needed (new_size + 0) (omega arith) s)

-- Room for `n` more bytes without a wrapping sum.
abbrev pub HasRoom : IoBuffer → ℕ → Type 0
HasRoom b n = b.buffer_offset + n + b.block_size < size_mod

-- A buffer without the room gets whole blocks, and not one too many.
abbrev pub Overflowed : IoBuffer → ℕ → IoBuffer → Type 0
Overflowed b n r =
    (b.buffer_size < b.buffer_offset + n)
    × (r.buffer_size ≤ b.buffer_offset + n + b.block_size)
    × ((k : ℕ) × (r.buffer_size ≡ b.buffer_size + k * b.block_size))

-- What growing a buffer for `n` more bytes changes.
abbrev pub Reserved : IoBuffer → ℕ → IoBuffer → Type 0
Reserved b n r =
    IsValid r
    × (contents r ≡ contents b)
    × (r.buffer_offset ≡ b.buffer_offset)
    × (r.block_size ≡ b.block_size)
    × (b.buffer_offset + n ≤ r.buffer_size)
    × ((r ≡ b) ⊎ Overflowed b n r)

module _ (a : Allocator) (m : IsAllocator a) where
  on_overflow-contents :
      (b : IoBuffer) (n : ℕ)
      → IsValid b
      → b.buffer_size ≤ n
      → contents (on_overflow a b n) ≡ contents b
  unfolding on_overflow
  on_overflow-contents b n v h =
      sym (take-take b.buffer_offset (length (bytes_of b.raw_buffer)) _ (omega (arith, v.whole)))
      ∙ ap (take b.buffer_offset) (m.realloc_keeps b.raw_buffer n (omega (arith, v.whole)))

  reserve_fits :
      (fuel inner : ℕ) (b : IoBuffer) (n : ℕ)
      → HasRoom b n
      → b.buffer_offset + n ≤ b.buffer_size
      → reserve a (suc fuel) inner b n ≡ done b
  unfolding reserve
  reserve_fits fuel inner b n room h =
      rw
        (add_size_lem b.buffer_offset n (omega arith), le→ltb b.buffer_size (b.buffer_offset + n) h)

  reserve_step :
      (fuel inner : ℕ) (b : IoBuffer) (n r : ℕ)
      → HasRoom b n
      → b.buffer_size < b.buffer_offset + n
      → grow inner b.block_size (b.buffer_offset + n) (b.buffer_size + b.block_size) ≡ done r
      → reserve a (suc fuel) inner b n ≡ reserve a fuel inner (on_overflow a b r) n
  unfolding reserve
  reserve_step fuel inner b n r room h e = rw (
    add_size_lem b.buffer_offset n (omega arith),
    add_size_lem b.buffer_size b.block_size (omega arith),
    lt→ltb b.buffer_size (b.buffer_offset + n) h,
    e,
    ◌>>=◌,
  )

  reserve_grows :
      (inner : ℕ) (b : IoBuffer) (n : ℕ)
      → IsValid b
      → 0 < b.block_size
      → HasRoom b n
      → b.buffer_size < b.buffer_offset + n
      → b.buffer_offset + n < inner
      → Returns (reserve a 2 (suc inner) b n) (Reserved b n)
  unfolding on_overflow
  reserve_grows inner b n v p room h enough =
      let start = b.buffer_size + b.block_size in
      let (r, e, (lt, near, steps)) =
        grow_lem inner b.block_size (b.buffer_offset + n) start p room (omega arith) in
      let b' = on_overflow a b r in
      let same = on_overflow-contents b r v (omega arith) in
      (
        b',
        reserve_step 1 (suc inner) b n r room h e
            ∙ reserve_fits 0 (suc inner) b' n room (omega arith),
        (
          record {
            within = omega (arith, v.within);
            whole = m.realloc_size b.raw_buffer r;
            steps = inr p;
          },
          same,
          refl,
          refl,
          omega arith,
          inr (h, omega arith, (steps.0 + 1, omega (arith, steps.1))),
        ),
      )

  -- The two loops of `push` end, and leave room for the bytes.
  pub reserve_lem :
      (b : IoBuffer) (n : ℕ)
      → IsValid b
      → HasRoom b n
      → (b.buffer_offset + n ≤ b.buffer_size) ⊎ (0 < b.block_size)
      → Returns (reserve a 2 (suc (suc (b.buffer_offset + n))) b n) (Reserved b n)
  reserve_lem b n v room able = elim (Bool-cases (ltb b.buffer_size (b.buffer_offset + n))) [
    | inl less ↦
        reserve_grows (suc (b.buffer_offset + n)) b n v (omega (tests, less, able)) room
          (ltb→lt _ _ less) (omega arith)
    | inr fits ↦
        let h = ltb→le _ _ fits in
        (
          b,
          reserve_fits 1 (suc (suc (b.buffer_offset + n))) b n room h,
          (v, refl, refl, refl, h, inl refl),
        )
  ]
