-- ===== src/Prelude/Lists.antt =====
-- Lists measured and indexed by native numbers, under the library's names.
use Prim.Native.Nat.{ℕ, zero, suc, ◌+◌, ◌-◌, ◌≤◌, min}
use mathlib.Core.Path.{◌≡◌, refl, ap, ◌∙◌}
use mathlib.Core.List.{List, [], ◌∷◌, ◌++◌}
use mathlib.Core.Option.{Option, none, some}
use native.Mathlib.Omega.{arith}

module _ {ℓ} {A : Type ℓ} where
  abbrev pub length : List A → ℕ
  length [] = 0
  length (x ∷ xs) = suc (length xs)

  abbrev pub take : ℕ → List A → List A
  take zero xs = []
  take (suc n) [] = []
  take (suc n) (x ∷ xs) = x ∷ take n xs

  abbrev pub drop : ℕ → List A → List A
  drop zero xs = xs
  drop (suc n) [] = []
  drop (suc n) (x ∷ xs) = drop n xs

  abbrev pub replicate : ℕ → A → List A
  replicate zero a = []
  replicate (suc n) a = a ∷ replicate n a

  abbrev pub get_elem? : List A → ℕ → Option A
  get_elem? [] i = none
  get_elem? (x ∷ xs) zero = some x
  get_elem? (x ∷ xs) (suc i) = get_elem? xs i

  -- A write out of bounds changes nothing.
  abbrev pub set : List A → ℕ → A → List A
  set [] i v = []
  set (x ∷ xs) zero v = v ∷ xs
  set (x ∷ xs) (suc i) v = x ∷ set xs i v

  pub length-append : (xs ys : List A) → length (xs ++ ys) ≡ length xs + length ys
  length-append [] ys = omega arith
  length-append (x ∷ xs) ys = omega (arith, length-append xs ys)

  pub length-take : (n : ℕ) (xs : List A) → length (take n xs) ≡ min n (length xs)
  length-take zero xs = omega arith
  length-take (suc n) [] = omega arith
  length-take (suc n) (x ∷ xs) = omega (arith, length-take n xs)

  pub length-drop : (n : ℕ) (xs : List A) → length (drop n xs) ≡ length xs - n
  length-drop zero xs = omega arith
  length-drop (suc n) [] = omega arith
  length-drop (suc n) (x ∷ xs) = omega (arith, length-drop n xs)

  pub length-replicate : (n : ℕ) (a : A) → length (replicate n a) ≡ n
  length-replicate zero a = refl
  length-replicate (suc n) a = ap suc (length-replicate n a)

  pub take-append-drop : (n : ℕ) (xs : List A) → take n xs ++ drop n xs ≡ xs
  take-append-drop zero xs = refl
  take-append-drop (suc n) [] = refl
  take-append-drop (suc n) (x ∷ xs) = rw (take-append-drop n xs)

  pub take-nil : (n : ℕ) → ◌≡◌ {A = List A} (take n []) []
  take-nil zero = refl
  take-nil (suc n) = refl

  pub drop-nil : (n : ℕ) → ◌≡◌ {A = List A} (drop n []) []
  drop-nil zero = refl
  drop-nil (suc n) = refl

  pub take_all : (n : ℕ) (xs : List A) → length xs ≤ n → take n xs ≡ xs
  take_all n [] h = take-nil n
  take_all zero (x ∷ xs) h = absurd (omega arith)
  take_all (suc n) (x ∷ xs) h = ap (◌∷◌ x) (take_all n xs (omega arith))

  pub drop_all : (n : ℕ) (xs : List A) → length xs ≤ n → drop n xs ≡ []
  drop_all n [] h = drop-nil n
  drop_all zero (x ∷ xs) h = absurd (omega arith)
  drop_all (suc n) (x ∷ xs) h = drop_all n xs (omega arith)

  pub take-append_le : (n : ℕ) (xs ys : List A) → n ≤ length xs → take n (xs ++ ys) ≡ take n xs
  take-append_le zero xs ys h = refl
  take-append_le (suc n) [] ys h = absurd (omega arith)
  take-append_le (suc n) (x ∷ xs) ys h = ap (◌∷◌ x) (take-append_le n xs ys (omega arith))

  pub drop-append_le :
      (n : ℕ) (xs ys : List A) → n ≤ length xs → drop n (xs ++ ys) ≡ drop n xs ++ ys
  drop-append_le zero xs ys h = refl
  drop-append_le (suc n) [] ys h = absurd (omega arith)
  drop-append_le (suc n) (x ∷ xs) ys h = drop-append_le n xs ys (omega arith)

  pub take-append_length : (xs ys : List A) → take (length xs) (xs ++ ys) ≡ xs
  take-append_length [] ys = refl
  take-append_length (x ∷ xs) ys = ap (◌∷◌ x) (take-append_length xs ys)

  pub drop-append_length : (xs ys : List A) → drop (length xs) (xs ++ ys) ≡ ys
  drop-append_length [] ys = refl
  drop-append_length (x ∷ xs) ys = drop-append_length xs ys

  pub take-take : (m n : ℕ) (xs : List A) → m ≤ n → take m (take n xs) ≡ take m xs
  take-take zero n xs h = refl
  take-take (suc m) zero xs h = absurd (omega arith)
  take-take (suc m) (suc n) [] h = refl
  take-take (suc m) (suc n) (x ∷ xs) h = ap (◌∷◌ x) (take-take m n xs (omega arith))

  -- The `n - m` bytes behind the first `m` of the first `n`.
  pub take-drop : (m n : ℕ) (xs : List A) → m ≤ n → take (n - m) (drop m xs) ≡ drop m (take n xs)
  take-drop zero n xs h = ap (λ k. take k xs) (omega arith)
  take-drop (suc m) zero xs h = absurd (omega arith)
  take-drop (suc m) (suc n) [] h = take-nil (suc n - suc m)
  take-drop (suc m) (suc n) (x ∷ xs) h =
      rw (← take-drop m n xs (omega arith)) (ap (λ k. take k (drop m xs)) (omega arith))

  pub replicate-append :
      (a : A) (k m n : ℕ) → k ≡ m + n → replicate k a ≡ replicate m a ++ replicate n a
  replicate-append a k zero n e = ap (λ j. replicate j a) (omega (arith, e))
  replicate-append a zero (suc m) n e = absurd (omega (arith, e))
  replicate-append a (suc k) (suc m) n e = ap (◌∷◌ a) (replicate-append a k m n (omega (arith, e)))

  pub drop-replicate : (a : A) (m n : ℕ) → m ≤ n → drop m (replicate n a) ≡ replicate (n - m) a
  drop-replicate a zero n h = ap (λ k. replicate k a) (omega arith)
  drop-replicate a (suc m) zero h = absurd (omega arith)
  drop-replicate a (suc m) (suc n) h =
      drop-replicate a m n (omega arith) ∙ ap (λ k. replicate k a) (omega arith)

  pub drop-append :
      (n : ℕ) (xs ys : List A) → drop n (xs ++ ys) ≡ drop n xs ++ drop (n - length xs) ys
  drop-append n [] ys = rw (drop-nil n) (ap (λ k. drop k ys) {x = n} {y = n - 0} (omega arith))
  drop-append zero (x ∷ xs) ys =
      ap (λ k. (x ∷ xs) ++ drop k ys) {x = 0} {y = 0 - suc (length xs)} (omega arith)
  drop-append (suc n) (x ∷ xs) ys =
      drop-append n xs ys
      ∙ ap (λ k. drop n xs ++ drop k ys) {x = n - length xs} {y = suc n - suc (length xs)}
          (omega arith)

  pub drop-behind :
      (k n : ℕ) (front xs : List A) → k ≡ length front + n → drop k (front ++ xs) ≡ drop n xs
  drop-behind k n [] xs e = ap (λ j. drop j xs) (omega (arith, e))
  drop-behind zero n (x ∷ front) xs e = absurd (omega (arith, e))
  drop-behind (suc k) n (x ∷ front) xs e = drop-behind k n front xs (omega (arith, e))
