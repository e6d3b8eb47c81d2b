-- ===== src/Array/AnyArray/Tests.antt =====
-- Runs of the methods of `AnyArray`, after the tests of src/array.rs, and the theorems at them.
use lightarray.Prelude.{◌≡◌, ◌%◌, refl, arith, [], ◌∷◌, true, false, length, word}
use lightarray.Prelude.Int.{ℤ, pos, negsuc}
use lightarray.Dims.Strides.{c_dims}
use lightarray.Array.{Array}
use lightarray.Array.Locate.Order.{flat, Inside}
use lightarray.Array.AnyArray.{unravel, bits, wrapping_add, sum_int, nonzero_from}
use lightarray.Array.AnyArray.Unravel.{unravel-flat}
use lightarray.Array.AnyArray.Wrapping.{total, sum_int-total}

-- 2^63 - 1 and 1 and -3
abbrev extremes : Array ℤ
extremes = record {
  buffer = pos 9223372036854775807 ∷ pos 1 ∷ negsuc 2 ∷ [];
  dims = c_dims (3 ∷ []) 8;
}

wrapped : sum_int extremes ≡ pos 9223372036854775805
unfolding sum_int wrapping_add
wrapped = refl

places : nonzero_from (λ x. x) 0 (false ∷ true ∷ true ∷ []) ≡ 1 ∷ 2 ∷ []
places = refl

sum_int-total_example : bits (sum_int extremes) ≡ total extremes.buffer % word
sum_int-total_example = sum_int-total extremes

unravel-flat_example :
    Inside (2 ∷ 3 ∷ []) (unravel (2 ∷ 3 ∷ []) 4).0
    × (length (unravel (2 ∷ 3 ∷ []) 4).0 ≡ 2)
    × (flat (2 ∷ 3 ∷ []) (unravel (2 ∷ 3 ∷ []) 4).0 ≡ 4)
unravel-flat_example = unravel-flat (2 ∷ 3 ∷ []) 4 (omega arith)
