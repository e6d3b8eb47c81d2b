-- ===== src/PyArray/Assign.antt =====
-- Assignments of src/python.rs: `__setitem__`, `fill` and the in-place operators.
-- The buffer of an array that is not strided is a window of memory: a change of one is a change of
-- the other.
pub mod Windows
pub mod Items
mod Tests
use package.lightarray.Prelude.{
  ℕ, ◌+◌, ◌*◌, List, [], ◌∷◌, Bool, true, false, Option, none, some, if◌then◌else◌, ◌==◌, length,
}
use package.lightarray.Prelude.Int.{ℤ, pos, ◌+ℤ◌}
use package.lightarray.Outcome.{Result, ok, err, panic, ◌>>=◌}
use package.lightarray.Array.{Element, Array, shape}
use package.lightarray.Array.Locate
use package.lightarray.Array.Broadcast.{map_array, zip_map_inplace}
use package.lightarray.Array.AnyArray.{Casts}
use package.lightarray.Array.AnyArray.Dispatch.{to_f64}
use package.lightarray.Memory.{Memory, write}
use package.lightarray.PyArray.{Strided, PyArray, arr, commit, strided_element}
use package.lightarray.PyArray.Keys.{Item, integer, Key, item, tuple, all_integers}
use package.lightarray.Operators.{
  Ufunc, PyObject, Operand, floats, alt, float, int, boolean, other, classify, scalar,
  numpy_handles,
}

-- The memory and the array after an assignment.
pub record Written {ℓ} (A : Type ℓ) : Type ℓ where
  pub memory : Memory A
  pub target : PyArray A

-- How an assignment ends: natively, as a call of NumPy, or with a `PyTypeError`.
pub data Assigned {ℓ} (A : Type ℓ) : Type ℓ where
  written : Written A → Assigned A
  numpy : Assigned A
  unsupported : Ufunc → Assigned A

-- The indices of a key with an integer for each axis.
abbrev pub full_index : ℕ → Key → Option (List ℤ)
full_index ndim (item (integer i)) = if ndim == 1 then some (i ∷ []) else none
full_index ndim (tuple items) =
    let idx = all_integers items in if length items == ndim then idx else none
full_index ndim _ = none

-- A value as an element of an array of each dtype.
abbrev pub int_value : {F : Type 0} → Operand F → Option ℤ
int_value (int n) = some n
int_value _ = none

abbrev pub bool_value : {F : Type 0} → Operand F → Option Bool
bool_value (boolean v) = some v
bool_value _ = none

module _ {ℓ} {A : Type ℓ} where
  -- Elements of `z` bytes, one after the other.
  abbrev pub put : Memory A → ℤ → ℕ → List A → Memory A
  put mem ptr z [] = mem
  put mem ptr z (x ∷ xs) = write (put mem (ptr +ℤ pos z) z xs) ptr x

module _ {ℓ} {A : Type ℓ} ⦃e : Element A⦄ where
  abbrev pub put_window : Memory A → PyArray A → Option Strided → Memory A
  put_window mem a none = put mem a.data_ptr e.size_of a.inner.buffer
  put_window mem a (some s) = mem

  -- A change of the elements that `arr_mut` loads, and `commit`.
  unfoldable pub update : Memory A → PyArray A → (Array A → Result (Array A)) → Result (Written A)
  update mem slf change = do
    a ← arr mem slf
    b ← change a.inner
    let target : PyArray A = record a { inner = b }
    after ← commit (put_window mem target target.strided) target
    ok (record { memory = after; target = target })

  abbrev pub done : Result (Written A) → Result (Assigned A)
  done r = r >>= λ w. ok (written w)

  abbrev pub set_element : Memory A → PyArray A → List ℤ → Option A → Option ℤ → Result (Assigned A)
  set_element mem slf idx none at = ok numpy
  set_element mem slf idx (some x) none = done (update mem slf (λ a. Locate.set a idx x))
  set_element mem slf idx (some x) (some p) =
      ok (written (record { memory = write mem p x; target = slf }))

  abbrev pub set_at : Memory A → PyArray A → Option A → Option (List ℤ) → Result (Assigned A)
  set_at mem slf value none = ok numpy
  set_at mem slf value (some idx) = strided_element slf idx >>= set_element mem slf idx value

  -- `value` is the value as an element of the array's dtype.
  unfoldable pub set_item : Memory A → PyArray A → Key → Option A → Result (Assigned A)
  set_item mem slf key value = set_at mem slf value (full_index (length (shape slf.inner)) key)

-- Of a float64 array.
module _ {F : Type 0} ⦃e : Element F⦄ (c : Casts F) where
  abbrev pub fill_with : Memory F → PyArray F → Option F → Result (Assigned F)
  fill_with mem slf none = ok numpy
  fill_with mem slf (some v) = done (update mem slf (λ a. ok (map_array (λ x. v) a)))

  unfoldable pub fill : Memory F → PyArray F → PyObject F → Result (Assigned F)
  unfolding scalar
  fill mem slf value = fill_with mem slf (scalar c (classify value))

  -- `scalar().expect(..)`
  abbrev pub apply_scalar : Memory F → PyArray F → (F → F → F) → Option F → Result (Assigned F)
  apply_scalar mem slf g none = panic
  apply_scalar mem slf g (some v) = done (update mem slf (λ a. ok (map_array (λ x. g x v) a)))

  -- The elements of the operand are those before the call: the code copies an operand that shares
  -- memory with the array.
  abbrev pub inplace_on :
      Memory F → PyArray F → PyObject F → Operand F → Ufunc → (F → F → F) → Result (Assigned F)
  inplace_on mem slf obj (floats b) name g = done (update mem slf (λ a. zip_map_inplace g a b))
  inplace_on mem slf obj (alt b) name g =
      to_f64 c b >>= λ b'. done (update mem slf (λ a. zip_map_inplace g a b'))
  inplace_on mem slf obj other name g =
      if numpy_handles obj then ok numpy else ok (unsupported name)
  inplace_on mem slf obj operand name g = apply_scalar mem slf g (scalar c operand)

  unfoldable pub inplace_op :
      Memory F → PyArray F → PyObject F → Ufunc → (F → F → F) → Result (Assigned F)
  unfolding scalar to_f64
  inplace_op mem slf obj name g = inplace_on mem slf obj (classify obj) name g
