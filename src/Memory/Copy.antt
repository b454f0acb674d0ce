-- ===== src/Memory/Copy.antt =====
-- `memcpy` and `memmove` inside a block.
use rioring.Prelude.{
  ℕ, ◌+◌, ◌≤◌, ◌≡◌, refl, List, [], ◌∷◌, ◌++◌, Option, none, some, length, take, drop, done,
  Returns, arith, length-append, length-take, length-drop, take-append_length, append_assoc,
  take-nil, drop-nil, le→leb, zero, suc,
}
use rioring.Memory.{Block, bytes_of, address_of, read_bytes, write_bytes}

-- `xs` with `src` written over what stands at `to`.
abbrev splice : List ℕ → ℕ → List ℕ → List ℕ
splice xs to src = take to xs ++ (src ++ drop (to + length src) xs)

length-splice :
    (xs : List ℕ) (to : ℕ) (src : List ℕ)
    → to + length src ≤ length xs
    → length (splice xs to src) ≡ length xs
length-splice xs to src h = omega (
  arith,
  length-append (take to xs) (src ++ drop (to + length src) xs),
  length-append src (drop (to + length src) xs),
  length-take to xs,
  length-drop (to + length src) xs,
)

length-written :
    (xs : List ℕ) (to : ℕ) (src : List ℕ)
    → to + length src ≤ length xs
    → length (take to xs ++ src) ≡ to + length src
length-written xs to src h = omega (arith, length-append (take to xs) src, length-take to xs)

take-splice :
    (xs : List ℕ) (to : ℕ) (src : List ℕ)
    → to + length src ≤ length xs
    → take (to + length src) (splice xs to src) ≡ take to xs ++ src
take-splice xs to src h =
    rw (← append_assoc (take to xs) src (drop (to + length src) xs), ← length-written xs to src h)
      (take-append_length (take to xs ++ src) _)

-- A read inside a block.
pub read_bytes_within :
    (p : Option Block) (from n : ℕ)
    → from + n ≤ length (bytes_of p)
    → read_bytes p from n ≡ done (take n (drop from (bytes_of p)))
unfolding read_bytes
read_bytes_within none from n h = ground (arith, drop-nil {A = ℕ} from, take-nil {A = ℕ} n)
read_bytes_within (some b) from n h = rw (le→leb (from + n) (length b.bytes) h)

-- A write inside a block leaves it where it is, as long as it is, and with what stands before.
pub write_bytes_within :
    (p : Option Block) (to : ℕ) (src : List ℕ)
    → to + length src ≤ length (bytes_of p)
    → Returns (write_bytes p to src) (λ q.
      (length (bytes_of q) ≡ length (bytes_of p))
      × (take (to + length src) (bytes_of q) ≡ take to (bytes_of p) ++ src)
      × (address_of q ≡ address_of p))
unfolding write_bytes
write_bytes_within none zero [] h = (none, refl, (refl, refl, refl))
write_bytes_within none (suc to) [] h = absurd (omega arith)
write_bytes_within none to (x ∷ src) h = absurd (omega arith)
write_bytes_within (some b) to src h = (
  some (record b { bytes = splice b.bytes to src }),
  rw (le→leb (to + length src) (length b.bytes) h),
  (length-splice b.bytes to src h, take-splice b.bytes to src h, refl),
)
