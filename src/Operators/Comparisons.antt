-- ===== src/Operators/Comparisons.antt =====
-- `__richcmp__`, the bitwise operators and the unary operators of src/python.rs.
pub mod Masks
use package.lightarray.Prelude.{
  ℕ, ◌+◌, ◌-◌, List, Bool, true, false, ◌&&◌, ◌||◌, not, Option, none, some, if◌then◌else◌,
}
use package.lightarray.Prelude.Int.{ℤ, pos, negsuc, ltb_ℤ}
use package.lightarray.Outcome.{Result, ok, err, panic, ◌>>=◌}
use package.lightarray.Array.{Element, Array}
use package.lightarray.Array.Broadcast.{map_array}
use package.lightarray.Array.AnyArray.{
  AnyArray, f64, i64, bool, Casts, bits, from_bits, compare, compare_scalar, not_array, zip_same,
}
use package.lightarray.Array.AnyArray.Dispatch.{to_f64}
use package.lightarray.Layout.{eq_ℤ}
use package.lightarray.Operators.{
  Ufunc, less, less_equal, equal, not_equal, greater, greater_equal, invert, negative, positive,
  PyObject, Operand, floats, alt, float, int, boolean, other, Answer, array, numpy, not_implemented,
  classify, scalar, numpy_handles, for_numpy, wrapping_sub,
}

pub data CompareOp : Type 0 where
  lt le eq ne gt ge : CompareOp

abbrev pub compare_ufunc : CompareOp → Ufunc
compare_ufunc lt = less
compare_ufunc le = less_equal
compare_ufunc eq = equal
compare_ufunc ne = not_equal
compare_ufunc gt = greater
compare_ufunc ge = greater_equal

-- `cmp_fn!(i64)`
abbrev pub int_compare : CompareOp → ℤ → ℤ → Bool
int_compare lt x y = ltb_ℤ x y
int_compare le x y = not (ltb_ℤ y x)
int_compare eq x y = eq_ℤ x y
int_compare ne x y = not (eq_ℤ x y)
int_compare gt x y = ltb_ℤ y x
int_compare ge x y = not (ltb_ℤ x y)

abbrev pub eq_bool : Bool → Bool → Bool
eq_bool true y = y
eq_bool false y = not y

-- `cmp_fn!(bool)` of the equality operators, the only ones that are used on bool arrays.
abbrev pub bool_compare : CompareOp → Option (Bool → Bool → Bool)
bool_compare eq = some eq_bool
bool_compare ne = some (λ x y. not (eq_bool x y))
bool_compare _ = none

-- The complement of the bits.
abbrev pub not_int : ℤ → ℤ
not_int (pos n) = negsuc n
not_int (negsuc n) = pos n

abbrev pub wrapping_abs : ℤ → ℤ
wrapping_abs x = if ltb_ℤ x (pos 0) then wrapping_sub (pos 0) x else x

module _ {F : Type 0} ⦃e : Element F⦄ (c : Casts F) (fc : CompareOp → F → F → Bool) where
  abbrev pub some_mask : Result (Array Bool) → Result (Option (Array Bool))
  some_mask m = m >>= λ r. ok (some r)

  -- A comparison with a scalar operand as a float.
  abbrev pub float_mask : CompareOp → Array F → Option F → Result (Option (Array Bool))
  float_mask op a none = ok none
  float_mask op a (some s) = some_mask (compare_scalar a (λ x. fc op x s))

  abbrev pub bool_mask :
      Array Bool → Operand F → Option (Bool → Bool → Bool) → Result (Option (Array Bool))
  bool_mask a (alt (bool b)) (some g) = compare a b g
  bool_mask a (boolean v) (some g) = some_mask (compare_scalar a (λ x. g x v))
  bool_mask a operand g = ok none

  abbrev pub int_mask : CompareOp → Array ℤ → Operand F → Result (Option (Array Bool))
  int_mask op a (int n) = some_mask (compare_scalar a (λ x. int_compare op x n))
  int_mask op a (alt (i64 b)) = compare a b (int_compare op)
  int_mask op a (float s) = to_f64 c (i64 a) >>= λ r. some_mask (compare_scalar r (λ x. fc op x s))
  int_mask op a (floats b) = to_f64 c (i64 a) >>= λ r. compare r b (fc op)
  int_mask op a operand = ok none

  abbrev pub mask_of : CompareOp → AnyArray F → Operand F → Result (Option (Array Bool))
  mask_of op (f64 a) (floats b) = compare a b (fc op)
  mask_of op (f64 a) (alt (i64 b)) = to_f64 c (i64 b) >>= λ r. compare a r (fc op)
  mask_of op (f64 a) (alt b) = ok none
  mask_of op (f64 a) operand = float_mask op a (scalar c operand)
  mask_of op (i64 a) operand = int_mask op a operand
  mask_of op (bool a) operand = bool_mask a operand (bool_compare op)

  abbrev pub is_other : Operand F → Bool
  is_other other = true
  is_other _ = false

  abbrev pub mask_answer : CompareOp → PyObject F → Option (Array Bool) → Answer F
  mask_answer op obj (some mask) = array (bool mask)
  mask_answer op obj none =
      if not (is_other (classify obj)) || numpy_handles obj
      then numpy (compare_ufunc op) false
      else not_implemented

  unfoldable pub richcmp : AnyArray F → PyObject F → CompareOp → Result (Answer F)
  unfolding scalar to_f64 compare compare_scalar
  richcmp me obj op = mask_of op me (classify obj) >>= λ m. ok (mask_answer op obj m)

module _ {F : Type 0} where
  abbrev pub bool_answer : Option (Array Bool) → Ufunc → Bool → Answer F
  bool_answer (some r) name reflected = array (bool r)
  bool_answer none name reflected = numpy name reflected

  abbrev pub int_answer : Option (Array ℤ) → Ufunc → Bool → Answer F
  int_answer (some r) name reflected = array (i64 r)
  int_answer none name reflected = numpy name reflected

  abbrev pub bitwise_on :
      AnyArray F → Operand F → Bool → Ufunc → (Bool → Bool → Bool) → (ℤ → ℤ → ℤ) → Result (Answer F)
  bitwise_on (bool a) (alt (bool b)) reflected name bf intf =
      ok (bool_answer (zip_same a b bf) name reflected)
  bitwise_on (bool a) (boolean v) reflected name bf intf =
      compare_scalar a (λ x. bf x v) >>= λ r. ok (array (bool r))
  bitwise_on (i64 a) (alt (i64 b)) reflected name bf intf =
      ok (int_answer (zip_same a b intf) name reflected)
  bitwise_on (i64 a) (int n) reflected name bf intf = ok (array (i64 (map_array (λ x. intf x n) a)))
  bitwise_on me operand reflected name bf intf = ok (numpy name reflected)

  unfoldable pub bitwise :
      AnyArray F
      → PyObject F
      → Bool
      → Ufunc
      → (Bool → Bool → Bool)
      → (ℤ → ℤ → ℤ)
      → Result (Answer F)
  unfolding compare_scalar zip_same
  bitwise me obj reflected name bf intf = bitwise_on me (classify obj) reflected name bf intf

  unfoldable pub invert_of : AnyArray F → Answer F
  unfolding not_array
  invert_of (bool a) = array (bool (not_array a))
  invert_of (i64 a) = array (i64 (map_array not_int a))
  invert_of (f64 a) = numpy invert false

  unfoldable pub neg : (F → F) → AnyArray F → Answer F
  unfolding wrapping_sub
  neg minus (f64 a) = array (f64 (map_array minus a))
  neg minus (i64 a) = array (i64 (map_array (wrapping_sub (pos 0)) a))
  neg minus (bool a) = numpy negative false

  unfoldable pub pos_of : AnyArray F → Answer F
  pos_of (bool a) = numpy positive false
  pos_of a = array a

  unfoldable pub abs_of : (F → F) → AnyArray F → Answer F
  unfolding wrapping_sub
  abs_of float_abs (f64 a) = array (f64 (map_array float_abs a))
  abs_of float_abs (i64 a) = array (i64 (map_array wrapping_abs a))
  abs_of float_abs (bool a) = array (bool a)
