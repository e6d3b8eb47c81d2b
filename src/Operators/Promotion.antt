-- ===== src/Operators/Promotion.antt =====
-- `binary_op` and `alt_binary` of src/python.rs implement one rule of promotion to float64.
use lightarray.Prelude.{Bool, true, false, not, Option, some, none, if◌then◌else◌}
use lightarray.Outcome.{Result, ok, panic, ◌>>=◌}
use lightarray.Array.{Element, Array}
use lightarray.Array.Broadcast.{zip_map, map_array}
use lightarray.Array.AnyArray.{AnyArray, f64, Casts, u8_of}
use lightarray.Array.AnyArray.Dispatch.{to_f64}
use lightarray.Operators.{
  PyObject, array_object, float_object, bool_object, int_object, number, foreign, is_i64, Operand,
  floats, alt, float, int, boolean, other, Answer, array,
}

-- An operand among floats.
pub data Right (F : Type 0) : Type 0 where
  elements : Array F → Right F
  constant : F → Right F

abbrev pub is_f64 : {F : Type 0} → AnyArray F → Bool
is_f64 (f64 a) = true
is_f64 _ = false

module _ {F : Type 0} ⦃e : Element F⦄ (c : Casts F) where
  abbrev pub as_floats : Operand F → Result (Right F)
  as_floats (floats b) = ok (elements b)
  as_floats (alt b) = to_f64 c b >>= λ r. ok (elements r)
  as_floats (float v) = ok (constant v)
  as_floats (int v) = ok (constant (c.from_i64 v))
  as_floats (boolean v) = ok (constant (c.from_u8 (u8_of v)))
  as_floats other = panic

  -- The function on floats in the order of Python: of two arrays by broadcasting, of an array and
  -- a constant at each element.
  abbrev pub apply : Bool → (F → F → F) → Array F → Right F → Result (Array F)
  apply false g a (elements b) = zip_map g a b
  apply true g a (elements b) = zip_map g b a
  apply false g a (constant v) = ok (map_array (λ x. g x v) a)
  apply true g a (constant v) = ok (map_array (λ x. g v x) a)

  abbrev pub promoted : AnyArray F → Operand F → Bool → (F → F → F) → Result (Answer F)
  promoted me operand reflected g = do
    a ← to_f64 c me
    b ← as_floats operand
    r ← apply reflected g a b
    ok (array (f64 r))

  -- The conversion of an operand, if it is one.
  abbrev pub constant_of : Option F → Option (Result (Right F))
  constant_of none = none
  constant_of (some v) = some (ok (constant v))

  abbrev pub converted_object : PyObject F → Option (Result (Right F))
  converted_object (array_object a) = some (to_f64 c a >>= λ r. ok (elements r))
  converted_object (float_object v) = constant_of (some v)
  converted_object (bool_object v) = constant_of (some (c.from_u8 (u8_of v)))
  converted_object (int_object n v) = constant_of (if is_i64 n then some (c.from_i64 n) else v)
  converted_object (number (some n) v handled) = constant_of (some (c.from_i64 n))
  converted_object (number none v handled) = constant_of v
  converted_object (foreign handled) = none

  -- The operand is of floats: a float64 array, a float, an integer that no i64 holds, or a number
  -- that is no integer.
  abbrev pub has_floats : PyObject F → Bool
  has_floats (array_object a) = is_f64 a
  has_floats (float_object v) = true
  has_floats (bool_object v) = false
  has_floats (int_object n v) = not (is_i64 n)
  has_floats (number (some n) v handled) = false
  has_floats (number none v handled) = true
  has_floats (foreign handled) = false
