-- ===== src/Operators.antt =====
-- The binary operators of src/python.rs: how an operand is classified, and which kernel or NumPy
-- function answers. The array is what `arr` loads. A scalar function of floats is an argument.
pub mod Promotion
pub mod Integers
pub mod Comparisons
mod Tests
use package.lightarray.Prelude.{
  ℕ, ◌+◌, ◌-◌, ◌*◌, ◌%◌, List, Bool, true, false, ◌&&◌, ◌||◌, not, Option, none, some,
  if◌then◌else◌, word, ltb, leb, ◌^◌,
}
use package.lightarray.Prelude.Int.{ℤ, pos, negsuc}
use package.lightarray.Outcome.{Result, ok, err, panic, ◌>>=◌}
use package.lightarray.Array.{Element, Array}
use package.lightarray.Array.Broadcast.{zip_map, map_array}
use package.lightarray.Array.AnyArray.{
  AnyArray, f64, i64, bool, Casts, bits, from_bits, wrapping_add, u8_of, compare, compare_scalar,
  not_array, zip_same,
}
use package.lightarray.Array.AnyArray.Dispatch.{to_f64}

-- The ufuncs that the operators name.
pub data Ufunc : Type 0 where
  add subtract multiply divide floor_divide remainder power : Ufunc
  bitwise_and bitwise_or bitwise_xor : Ufunc
  less less_equal equal not_equal greater greater_equal : Ufunc
  invert negative positive : Ufunc

-- What `classify` can tell of a Python object. An `int` has its value as a float, unless that
-- overflows; a `number` has no `__len__`, and what `__index__` and a conversion to a float give, if
-- anything. The last argument of the others says whether `numpy_handles` them.
pub data PyObject (F : Type 0) : Type 0 where
  array_object : AnyArray F → PyObject F
  float_object : F → PyObject F
  bool_object : Bool → PyObject F
  int_object : ℤ → Option F → PyObject F
  number : Option ℤ → Option F → Bool → PyObject F
  foreign : Bool → PyObject F

pub data Operand (F : Type 0) : Type 0 where
  floats : Array F → Operand F
  alt : AnyArray F → Operand F
  float : F → Operand F
  int : ℤ → Operand F
  boolean : Bool → Operand F
  other : Operand F

-- The value of an operator. `numpy name swapped` is the result of NumPy's function on the array and
-- the operand, or on the operand and the array.
pub data Answer (F : Type 0) : Type 0 where
  array : AnyArray F → Answer F
  numpy : Ufunc → Bool → Answer F
  not_implemented : Answer F

-- An i64 holds the integer.
abbrev pub is_i64 : ℤ → Bool
is_i64 (pos n) = ltb n (2 ^ 63)
is_i64 (negsuc n) = ltb n (2 ^ 63)

unfoldable pub wrapping_sub : ℤ → ℤ → ℤ
wrapping_sub x y = from_bits ((bits x + (word - bits y)) % word)

unfoldable pub wrapping_mul : ℤ → ℤ → ℤ
wrapping_mul x y = from_bits (bits x * bits y % word)

-- The two operands of a function, in the order of Python.
abbrev pub in_order {ℓ κ} : {A : Type ℓ} {B : Type κ} → Bool → (A → A → B) → A → A → B
in_order reflected g x y = if reflected then g y x else g x y

abbrev pub int_op : Ufunc → Option (ℤ → ℤ → ℤ)
int_op add = some wrapping_add
int_op subtract = some wrapping_sub
int_op multiply = some wrapping_mul
int_op _ = none

abbrev pub is_divide : Ufunc → Bool
is_divide divide = true
is_divide _ = false

module _ {F : Type 0} where
  abbrev pub or_float : Option F → Operand F
  or_float none = other
  or_float (some v) = float v

  abbrev pub classify : PyObject F → Operand F
  classify (array_object (f64 a)) = floats a
  classify (array_object a) = alt a
  classify (float_object v) = float v
  classify (bool_object v) = boolean v
  classify (int_object n v) = if is_i64 n then int n else or_float v
  classify (number (some n) v handled) = int n
  classify (number none v handled) = or_float v
  classify (foreign handled) = other

  -- `numpy_handles` of an object that is not an operand.
  abbrev pub numpy_handles : PyObject F → Bool
  numpy_handles (number n v handled) = handled
  numpy_handles (foreign handled) = handled
  numpy_handles _ = false

  unfoldable pub scalar : Casts F → Operand F → Option F
  scalar c (float v) = some v
  scalar c (int v) = some (c.from_i64 v)
  scalar c (boolean v) = some (c.from_u8 (u8_of v))
  scalar c _ = none

  abbrev pub is_float : Operand F → Bool
  is_float (float v) = true
  is_float (floats a) = true
  is_float _ = false

module _ {F : Type 0} ⦃e : Element F⦄ (c : Casts F) where
  abbrev pub zip_floats : Bool → (F → F → F) → Array F → Array F → Result (Answer F)
  zip_floats reflected g a b =
      (if reflected then zip_map g b a else zip_map g a b) >>= λ r. ok (array (f64 r))

  -- `scalar().expect(..)`
  abbrev pub map_scalar : Bool → (F → F → F) → Array F → Option F → Result (Answer F)
  map_scalar reflected g a none = panic
  map_scalar reflected g a (some s) =
      ok (array (f64 (if reflected then map_array (λ x. g s x) a else map_array (λ x. g x s) a)))

  abbrev pub for_numpy : Ufunc → Bool → PyObject F → Answer F
  for_numpy name reflected obj = if numpy_handles obj then numpy name reflected else not_implemented

  -- The float64 result of `alt_binary`.
  abbrev pub float_binary : AnyArray F → Operand F → Bool → (F → F → F) → Result (Answer F)
  float_binary me (floats b) reflected g = to_f64 c me >>= λ a. zip_floats reflected g a b
  float_binary me (alt b) reflected g = do
    a ← to_f64 c me
    b' ← to_f64 c b
    zip_floats reflected g a b'
  float_binary me operand reflected g = do
    a ← to_f64 c me
    map_scalar reflected g a (scalar c operand)

  -- The integer result, if there is one.
  abbrev pub int_binary : Array ℤ → Operand F → Bool → (ℤ → ℤ → ℤ) → Option (Array ℤ)
  int_binary a (int n) reflected op = some (map_array (λ x. in_order reflected op x n) a)
  int_binary a (alt (i64 b)) reflected op = if reflected then zip_same b a op else zip_same a b op
  int_binary a _ reflected op = none

  abbrev pub or_numpy : Option (Array ℤ) → Ufunc → Bool → Answer F
  or_numpy (some r) name reflected = array (i64 r)
  or_numpy none name reflected = numpy name reflected

  abbrev pub exact_binary : AnyArray F → Operand F → Bool → Ufunc → Option (ℤ → ℤ → ℤ) → Answer F
  exact_binary (i64 a) operand reflected name (some op) =
      or_numpy (int_binary a operand reflected op) name reflected
  exact_binary me operand reflected name op = numpy name reflected

  unfoldable pub alt_binary :
      AnyArray F → PyObject F → Operand F → Bool → Ufunc → (F → F → F) → Result (Answer F)
  unfolding scalar to_f64
  alt_binary me obj other reflected name g = ok (for_numpy name reflected obj)
  alt_binary me obj operand reflected name g =
      let float_result = float_binary me operand reflected g in
      if is_divide name || is_float operand
      then float_result
      else ok (exact_binary me operand reflected name (int_op name))

  -- The native branch of `binary_op`, of a float64 array.
  abbrev pub float_op :
      Array F → PyObject F → Operand F → Bool → Ufunc → (F → F → F) → Result (Answer F)
  float_op a obj (floats b) reflected name g = zip_floats reflected g a b
  float_op a obj (alt b) reflected name g = to_f64 c b >>= λ b'. zip_floats reflected g a b'
  float_op a obj other reflected name g = ok (for_numpy name reflected obj)
  float_op a obj operand reflected name g = map_scalar reflected g a (scalar c operand)

  abbrev pub binary_on :
      AnyArray F → PyObject F → Operand F → Bool → Ufunc → (F → F → F) → Result (Answer F)
  binary_on (f64 a) obj operand reflected name g = float_op a obj operand reflected name g
  binary_on me obj operand reflected name g = alt_binary me obj operand reflected name g

  unfoldable pub binary_op :
      AnyArray F → PyObject F → Bool → Ufunc → (F → F → F) → Result (Answer F)
  unfolding alt_binary
  binary_op me obj reflected name g = binary_on me obj (classify obj) reflected name g
