-- ===== src/SimplePool.antt =====
-- src/include/rioring/simple_pool.h: objects kept for the next user, first in first out. `new` is
-- `make`, which is told how many objects were made before. The pool's own lock is SpinLock.antt's.
pub mod Conservation
use rioring.Prelude.{ℕ, zero, suc, ◌+◌, List, [], ◌∷◌, ◌++◌}

pub record SimplePool {ℓ} (A : Type ℓ) : Type ℓ where
  pub pool : List A
  pub created : ℕ

module _ {ℓ} {A : Type ℓ} where
  unfoldable pub push : SimplePool A → A → SimplePool A
  push p ctx = record p { pool = p.pool ++ ctx ∷ [] }

  -- What `enum_all` appends to `all`.
  pub enum_all : SimplePool A → List A → List A
  enum_all p all = all ++ p.pool

  -- The destructor's loop: what it deletes, front first.
  pub delete_all : List A → List A
  delete_all [] = []
  delete_all (ctx ∷ rest) = ctx ∷ delete_all rest

  module _ (make : ℕ → A) where
    -- The constructor's loop, from the `i` objects made so far.
    unfoldable pub fill : (left : ℕ) → SimplePool A → SimplePool A
    fill zero p = p
    fill (suc left) p =
        fill left (record { pool = p.pool ++ make p.created ∷ []; created = suc p.created })

    unfoldable pub new_pool : ℕ → SimplePool A
    unfolding fill
    new_pool init_size = fill init_size (record { pool = []; created = 0 })

    pop_from : List A → ℕ → A × SimplePool A
    pop_from [] created = (make created, record { pool = []; created = suc created })
    pop_from (ctx ∷ rest) created = (ctx, record { pool = rest; created = created })

    unfoldable pub pop : SimplePool A → A × SimplePool A
    unfolding pop_from
    pop p = pop_from p.pool p.created
