-- ===== src/ObjectBase.antt =====
-- src/object_base.cpp and src/include/rioring/object_base.h: the identity of an object, and its error
-- callback. A callback that is set is a flag; the calls made to it are a list.
use rioring.Prelude.{ℕ, Bool, false, List, [], ◌∷◌, if◌then◌else◌, add_size}

pub record ObjectBase : Type 0 where
  pub obj_id : ℕ
  pub error_event : Bool

-- The constructor: the object, and `obj_id_container` afterwards.
unfoldable pub new_object : ℕ → ObjectBase × ℕ
new_object obj_id_container =
    (record { obj_id = obj_id_container; error_event = false }, add_size obj_id_container 1)

pub set_error_callback : ObjectBase → Bool → ObjectBase
set_error_callback o callback = record o { error_event = callback }

-- A call of the error callback: whose, and with which code.
pub record ErrorCall : Type 0 where
  pub object : ℕ
  pub code : ℕ

unfoldable pub io_error : ObjectBase → ℕ → List ErrorCall
io_error o ec = if o.error_event then record { object = o.obj_id; code = ec } ∷ [] else []

abbrev pub object_id : ObjectBase → ℕ
object_id o = o.obj_id
