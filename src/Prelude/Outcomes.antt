-- ===== src/Prelude/Outcomes.antt =====
-- What a run of a source function comes to: a result, a fault (an access outside the memory that
-- the program owns), or no end (a loop that does not stop, a lock that is never freed).
use mathlib.Core.Logic.{◌⊎◌, inl, inr}
use mathlib.Core.Path.{refl, ◌≡◌, sym, subst, ◌∙◌}

pub data Outcome {ℓ} (A : Type ℓ) : Type ℓ where
  done : A → Outcome A
  fault : Outcome A
  hang : Outcome A

infixl 5 ◌>>=◌ ◌>>◌
abbrev pub ◌>>=◌ {ℓ κ} : {A : Type ℓ} {B : Type κ} → Outcome A → (A → Outcome B) → Outcome B
done a >>= f = f a
fault >>= f = fault
hang >>= f = hang

abbrev pub ◌>>◌ {ℓ κ} : {A : Type ℓ} {B : Type κ} → Outcome A → Outcome B → Outcome B
m >> k = m >>= λ _. k

-- The run has no result.
abbrev pub Fails {ℓ} : {A : Type ℓ} → Outcome A → Type ℓ
Fails m = (m ≡ fault) ⊎ (m ≡ hang)

pub Outcome-cases {ℓ} : {A : Type ℓ} (m : Outcome A) → ((a : A) × (m ≡ done a)) ⊎ Fails m
Outcome-cases (done a) = inl (a, refl)
Outcome-cases fault = inr (inl refl)
Outcome-cases hang = inr (inr refl)

-- The run ends with a result that satisfies `P`.
abbrev pub Returns {ℓ κ} : {A : Type ℓ} → Outcome A → (A → Type κ) → Type (ℓ ⊔ κ)
Returns {A = A} m P = (a : A) × (m ≡ done a) × P a

pub >>=_assoc {ℓ κ μ} :
    {A : Type ℓ} {B : Type κ} {C : Type μ} (m : Outcome A) (f : A → Outcome B) (g : B → Outcome C)
    → (m >>= f) >>= g ≡ m >>= λ a. f a >>= g
>>=_assoc (done a) f g = refl
>>=_assoc fault f g = refl
>>=_assoc hang f g = refl

pub >>=_done {ℓ} : {A : Type ℓ} (m : Outcome A) → m >>= done ≡ m
>>=_done (done a) = refl
>>=_done fault = refl
>>=_done hang = refl

-- A run in two parts returns if its parts do.
pub >>=-Returns {ℓ κ λ' μ} :
    {A : Type ℓ} {B : Type κ} {P : A → Type λ'} {Q : B → Type μ} (m : Outcome A) (f : A → Outcome B)
    → Returns m P
    → ((a : A) → P a → Returns (f a) Q)
    → Returns (m >>= f) Q
>>=-Returns m f (a, e, p) k = let (b, e', q) = k a p in (b, rw (e, ◌>>=◌) e', q)

pub Returns-imp {ℓ κ μ} :
    {A : Type ℓ} {P : A → Type κ} {Q : A → Type μ} {m : Outcome A}
    → ((a : A) → P a → Q a)
    → Returns m P
    → Returns m Q
Returns-imp f (a, e, p) = (a, e, f a p)

pub done-injective {ℓ} : {A : Type ℓ} {x y : A} → done x ≡ done y → x ≡ y
done-injective e = cc

-- A run has one result.
pub Returns-at {ℓ κ} :
    {A : Type ℓ} (P : A → Type κ) {m : Outcome A} {a : A} → Returns m P → m ≡ done a → P a
Returns-at P (b, e, p) f = subst P (done-injective (sym e ∙ f)) p

-- A run in two parts that returns has a result of the first part.
pub >>=-eq-done {ℓ κ} :
    {A : Type ℓ} {B : Type κ} (m : Outcome A) (f : A → Outcome B) {b : B}
    → (m >>= f) ≡ done b
    → (a : A) × (m ≡ done a) × (f a ≡ done b)
>>=-eq-done (done a) f h = (a, refl, h)
>>=-eq-done fault f h = cc
>>=-eq-done hang f h = cc

-- What a run that returns has returned satisfies `P`.
abbrev pub IfDone {ℓ κ} : {A : Type ℓ} → Outcome A → (A → Type κ) → Type (ℓ ⊔ κ)
IfDone {A = A} m P = (a : A) → m ≡ done a → P a

pub IfDone-done {ℓ κ} : {A : Type ℓ} (P : A → Type κ) (a : A) → P a → IfDone (done a) P
IfDone-done P a p b e = subst P (done-injective e) p

pub IfDone->>= {ℓ κ λ' μ} :
    {A : Type ℓ} {B : Type κ} (P : A → Type λ') (Q : B → Type μ) (m : Outcome A) (f : A → Outcome B)
    → IfDone m P
    → ((a : A) → P a → IfDone (f a) Q)
    → IfDone (m >>= f) Q
IfDone->>= P Q m f p k b e = let (a, e₁, e₂) = >>=-eq-done m f e in k a (p a e₁) b e₂
