-- ===== src/Prelude/Entries.antt =====
-- Entries of a list by their index: predicates of all of them, sums over them, and writing one.
use Prim.Native.Nat.{ℕ, zero, suc, ◌+◌, ◌<◌}
use mathlib.Core.Path.{◌≡◌, refl, sym, ap, subst}
use mathlib.Core.Logic.{◌≢◌, ◌⊎◌, inl, inr}
use mathlib.Core.Option.{some}
use mathlib.Core.List.{List, [], ◌∷◌, ◌++◌}
use native.Mathlib.Omega.{arith}
use mathlib.Core.Bool.{Bool, true, false}
use rioring.Prelude.Tests.{◌==◌, if◌then◌else◌}
use rioring.Prelude.Lists.{get_elem?, set, length}

-- What holds of all entries.
abbrev pub All {ℓ κ} : {A : Type ℓ} → (A → Type κ) → List A → Type κ
All P [] = Unit
All P (x ∷ xs) = P x × All P xs

-- The sum of a number of each entry.
abbrev pub total {ℓ} : {A : Type ℓ} → (A → ℕ) → List A → ℕ
total f [] = 0
total f (x ∷ xs) = f x + total f xs

-- Whether a list is empty.
abbrev pub is_nil {ℓ} : {A : Type ℓ} → List A → Bool
is_nil [] = true
is_nil (x ∷ xs) = false

-- Whether a number is in a list, and a list without a number twice.
abbrev pub contains : ℕ → List ℕ → Bool
contains k [] = false
contains k (j ∷ js) = if j == k then true else contains k js

abbrev pub Distinct : List ℕ → Type 0
Distinct [] = Unit
Distinct (k ∷ ks) = (contains k ks ≡ false) × Distinct ks

-- Two lists of one length whose entries are related in order.
pub data Pointwise {ℓ κ} {A : Type ℓ} {B : Type ℓ} (R : A → B → Type κ)
    : List A → List B → Type (ℓ ⊔ κ) where
  no_pairs : Pointwise R [] []
  paired :
      {x : A} {y : B} {xs : List A} {ys : List B}
      → R x y
      → Pointwise R xs ys
      → Pointwise R (x ∷ xs) (y ∷ ys)

module _ {ℓ} {A : Type ℓ} where
  entry_injective : {x y : A} → some x ≡ some y → x ≡ y
  entry_injective e = cc

  pub get_elem?-some : (xs : List A) (i : ℕ) → i < length xs → (x : A) × (get_elem? xs i ≡ some x)
  get_elem?-some [] i h = absurd (omega arith)
  get_elem?-some (x ∷ xs) zero h = (x, refl)
  get_elem?-some (x ∷ xs) (suc i) h = get_elem?-some xs i (omega arith)

  pub get_elem?-lt : (xs : List A) (i : ℕ) {x : A} → get_elem? xs i ≡ some x → i < length xs
  get_elem?-lt [] i e = cc
  get_elem?-lt (y ∷ xs) zero e = omega arith
  get_elem?-lt (y ∷ xs) (suc i) e = omega (arith, get_elem?-lt xs i e)

  pub All-at {κ} :
      (P : A → Type κ) (xs : List A) (i : ℕ) {x : A} → All P xs → get_elem? xs i ≡ some x → P x
  All-at P [] i h e = cc
  All-at P (y ∷ xs) zero h e = subst P (entry_injective e) h.0
  All-at P (y ∷ xs) (suc i) h e = All-at P xs i h.1 e

  pub All-set {κ} :
      (P : A → Type κ) (xs : List A) (i : ℕ) {y : A} → All P xs → P y → All P (set xs i y)
  All-set P [] i h p = h
  All-set P (x ∷ xs) zero h p = (p, h.1)
  All-set P (x ∷ xs) (suc i) h p = (h.0, All-set P xs i h.1 p)

  pub total-set :
      (f : A → ℕ) (xs : List A) (i : ℕ) (x y : A)
      → get_elem? xs i ≡ some x
      → (total f (set xs i y) + f x ≡ total f xs + f y) × (length (set xs i y) ≡ length xs)
  total-set f [] i x y e = ground arith
  total-set f (z ∷ xs) zero x y e = ground arith
  total-set f (z ∷ xs) (suc i) x y e = omega (arith, total-set f xs i x y e)

  pub total-append : (f : A → ℕ) (xs ys : List A) → total f (xs ++ ys) ≡ total f xs + total f ys
  total-append f [] ys = omega arith
  total-append f (x ∷ xs) ys = omega (arith, total-append f xs ys)

  -- An entry is the one that was written or an old one.
  pub get_elem?-set_cases :
      (xs : List A) (i j : ℕ) (y : A) {x : A}
      → get_elem? (set xs i y) j ≡ some x
      → ((i ≡ j) × (x ≡ y)) ⊎ ((i ≢ j) × (get_elem? xs j ≡ some x))
  get_elem?-set_cases [] i j y e = cc
  get_elem?-set_cases (z ∷ xs) zero zero y e = inl (refl, entry_injective (sym e))
  get_elem?-set_cases (z ∷ xs) zero (suc j) y e = inr (λ p. omega (arith, p), e)
  get_elem?-set_cases (z ∷ xs) (suc i) zero y e = inr (λ p. omega (arith, p), e)
  get_elem?-set_cases (z ∷ xs) (suc i) (suc j) y e = elim (get_elem?-set_cases xs i j y e) [
    | inl (p, q) ↦ inl (ap suc p, q)
    | inr (p, q) ↦ inr (λ r. p (omega (arith, r)), q)
  ]
