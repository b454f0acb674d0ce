-- ===== src/Prelude/Words.antt =====
-- `size_t` of the platforms that the library supports: 64 bits, sums wrap.
use Prim.Native.Nat.{ℕ, ◌+◌, ◌*◌, ◌-◌, ◌%◌, ◌^◌, ◌≤◌, ◌<◌}
use mathlib.Core.Path.{◌≡◌}
use native.Mathlib.Omega.{arith}

abbrev pub size_mod : ℕ
size_mod = 2 ^ 64

unfoldable pub add_size : ℕ → ℕ → ℕ
add_size a b = (a + b) % size_mod

pub mul_size : ℕ → ℕ → ℕ
mul_size a b = (a * b) % size_mod

pub sub_size : ℕ → ℕ → ℕ
sub_size a b = (a + size_mod - b) % size_mod

pub add_size_lem : (a b : ℕ) → a + b < size_mod → add_size a b ≡ a + b
unfolding add_size
add_size_lem a b h = omega arith

pub mul_size_two : (a : ℕ) → a * 2 < size_mod → mul_size a 2 ≡ a * 2
unfolding mul_size
mul_size_two a h = omega arith

pub sub_size_lem : (a b : ℕ) → b ≤ a → a < size_mod → sub_size a b ≡ a - b
unfolding sub_size
sub_size_lem a b h l = omega arith
