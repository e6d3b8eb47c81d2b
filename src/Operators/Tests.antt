-- ===== src/Operators/Tests.antt =====
-- Runs of the operators of src/python.rs, on integers in place of floats, and the theorems at them.
use lightarray.Prelude.{
  ◌≡◌, refl, List, [], ◌∷◌, Bool, true, false, some, none, arith, ◌↔◌, get_elem?,
}
use lightarray.Prelude.Int.{ℤ, pos, negsuc}
use lightarray.Outcome.{ok}
use lightarray.Dims.Strides.{c_dims}
use lightarray.Array.{Array}
use lightarray.Array.Valid.{HasShape}
use lightarray.Array.Broadcast.{map_array}
use lightarray.Array.AnyArray.{f64, i64, bool, Casts, bits, wrapping_add, int_element, zip_same}
use lightarray.Operators.{
  add, array_object, int_object, foreign, array, numpy, not_implemented, binary_op, alt_binary,
  wrapping_sub,
}
use lightarray.Operators.Integers.{in_turn, residue, binary_op-wraps}
use lightarray.Operators.Comparisons.{lt, int_compare, richcmp, invert_of, abs_of}
use lightarray.Operators.Comparisons.Masks.{mask_array, Holds, richcmp-Holds}

abbrev casts : Casts ℤ
casts = record {
  float_zero = pos 0;
  from_i64 = λ x. x;
  from_u8 = pos;
  to_i64 = λ x. x;
  is_zero = λ x. false;
  is_finite = λ x. true;
  abs_ge_limit = λ x. false;
}

abbrev row : List ℤ → Array ℤ
row xs = record { buffer = xs; dims = c_dims (2 ∷ []) 8 }

-- 2^63 - 1 and 2
abbrev large : Array ℤ
large = row (pos 9223372036854775807 ∷ pos 2 ∷ [])

abbrev small : Array ℤ
small = row (pos 1 ∷ pos 3 ∷ [])

abbrev small_mask : Array Bool
small_mask = record { buffer = true ∷ false ∷ []; dims = c_dims (2 ∷ []) 1 }

-- The greatest integer and 1 give the least one.
sum_wraps :
    binary_op casts (i64 large) (array_object (i64 small)) false add wrapping_add
    ≡ ok (array (i64 (row (negsuc 9223372036854775807 ∷ pos 5 ∷ []))))
unfolding binary_op alt_binary wrapping_add zip_same
sum_wraps = refl

reflected_difference : wrapping_sub (pos 2) (pos 5) ≡ negsuc 2
unfolding wrapping_sub
reflected_difference = refl

unknown_operand :
    binary_op casts (i64 small) (foreign false) false add wrapping_add ≡ ok not_implemented
unfolding binary_op alt_binary
unknown_operand = refl

listed_operand :
    binary_op casts (bool small_mask) (foreign true) true add wrapping_add ≡ ok (numpy add true)
unfolding binary_op alt_binary
listed_operand = refl

least_magnitude :
    abs_of {F = ℤ} (λ x. x) (i64 (row (negsuc 9223372036854775807 ∷ negsuc 2 ∷ [])))
    ≡ array (i64 (row (negsuc 9223372036854775807 ∷ pos 3 ∷ [])))
unfolding abs_of wrapping_sub map_array
least_magnitude = refl

complement : invert_of {F = ℤ} (i64 small) ≡ array (i64 (row (negsuc 1 ∷ negsuc 3 ∷ [])))
unfolding invert_of map_array
complement = refl

binary_op-wraps_example :
    (r : Array ℤ) × (binary_op casts (i64 large) (array_object (i64 small)) false add wrapping_add
      ≡ ok (array (i64 r)))
    × (r.dims ≡ large.dims)
    × ((z : ℤ) × (get_elem? r.buffer 1 ≡ some z)
        × (in_turn false (residue add) (bits (pos 2)) (bits (pos 3)) ≡ some (bits z)))
binary_op-wraps_example =
    binary_op-wraps casts large small false add wrapping_add wrapping_add 1 (pos 2) (pos 3) refl
      refl refl refl

row-HasShape : (x y : ℤ) → HasShape (2 ∷ []) (row (x ∷ y ∷ []))
row-HasShape x y = record {
  short = omega arith;
  fits = (omega arith, omega arith);
  dims = refl;
  full = refl;
}

richcmp-Holds_example :
    ((r : List Bool) × (richcmp casts int_compare (i64 large) (array_object (i64 small)) lt
        ≡ ok (array (bool (mask_array (2 ∷ []) r))))
      × ((t : Bool) × (get_elem? r 1 ≡ some t) × ((t ≡ true) ↔ Holds lt (pos 2) (pos 3))))
    × ((r : List Bool) × (richcmp casts int_compare (i64 large) (int_object (pos 2) none) lt
          ≡ ok (array (bool (mask_array (2 ∷ []) r))))
        × ((t : Bool) × (get_elem? r 1 ≡ some t) × ((t ≡ true) ↔ Holds lt (pos 2) (pos 2))))
    × ((r : List Bool) × (richcmp casts int_compare (f64 small) (array_object (f64 large)) lt
          ≡ ok (array (bool (mask_array (2 ∷ []) r))))
        × (get_elem? r 1 ≡ some (int_compare lt (pos 3) (pos 2))))
richcmp-Holds_example =
    richcmp-Holds casts int_compare lt (2 ∷ []) large small small large (pos 2) none 1 (pos 2)
      (pos 3) (pos 3) (pos 2) (row-HasShape (pos 9223372036854775807) (pos 2))
      (row-HasShape (pos 1) (pos 3)) (row-HasShape (pos 1) (pos 3))
      (row-HasShape (pos 9223372036854775807) (pos 2)) refl refl refl refl refl
