-- ===== src/Array/Reorder/Tests.antt =====
-- Runs of the structural operations, after the tests of src/array.rs, and the theorems at them.
use lightarray.Prelude.{
  ℕ, ◌≡◌, refl, arith, List, [], ◌∷◌, true, false, Bool, get_elem?, take, some,
}
use lightarray.Prelude.Int.{pos, negsuc, ◌+ℤ◌, ◌-ℤ◌}
use lightarray.Outcome.{ok, ◌>>=◌}
use lightarray.Dims
use lightarray.Dims.Strides.{c_dims}
use lightarray.Array.{Array, new}
use lightarray.Array.Valid.{HasShape}
use lightarray.Array.Tests.{nat_element, grid, grid-HasShape}
use lightarray.Array.Reorder.{
  take_leading, compress_flat, transpose, transpose_of, columns_loop, permute_loop, concatenate,
  concatenate_from, check_axes, check_parts, part_loop, outer_loop, normalize_axis,
}
use lightarray.Array.Reorder.Rows.{AreRows, take_leading-AreRows}
use lightarray.Prelude.{◌+◌, ◌*◌, ◌<◌}
use lightarray.Array.Reorder.Turned.{transpose-turned}
use lightarray.Array.Reorder.Masks.{count, compress_flat-kept}

turned : (transpose grid >>= λ r. ok r.buffer) ≡ ok (10 ∷ 13 ∷ 11 ∷ 14 ∷ 12 ∷ 15 ∷ [])
unfolding transpose transpose_of columns_loop Dims.shape Dims.with_itemsize
turned = refl

abbrev cube : Array ℕ
cube = record { buffer = 0 ∷ 1 ∷ 2 ∷ 3 ∷ 4 ∷ 5 ∷ []; dims = c_dims (1 ∷ 2 ∷ 3 ∷ []) 8 }

turned_cube : (transpose cube >>= λ r. ok r.buffer) ≡ ok (0 ∷ 3 ∷ 1 ∷ 4 ∷ 2 ∷ 5 ∷ [])
unfolding transpose transpose_of permute_loop Dims.shape Dims.strides Dims.with_itemsize
turned_cube = refl

side_by_side :
    (concatenate (grid ∷ grid ∷ []) (negsuc 0) >>= λ r. ok r.buffer)
    ≡ ok (10 ∷ 11 ∷ 12 ∷ 10 ∷ 11 ∷ 12 ∷ 13 ∷ 14 ∷ 15 ∷ 13 ∷ 14 ∷ 15 ∷ [])
unfolding concatenate concatenate_from check_axes check_parts part_loop outer_loop normalize_axis
    new Dims.shape Dims.size Dims.with_itemsize ◌+ℤ◌ ◌-ℤ◌
side_by_side = refl

take_leading-AreRows_example :
    (r : Array ℕ) × (take_leading grid (negsuc 0 ∷ pos 0 ∷ []) ≡ ok r)
    × HasShape (2 ∷ 3 ∷ []) r
    × AreRows 3 grid.buffer (1 ∷ 0 ∷ []) r.buffer
take_leading-AreRows_example =
    (take_leading-AreRows 2 (3 ∷ []) grid grid-HasShape (negsuc 0 ∷ pos 0 ∷ []) (omega arith)).0
      (1 ∷ 0 ∷ []) refl

abbrev mask : List Bool
mask = false ∷ true ∷ false ∷ true ∷ true ∷ false ∷ []

compress_flat-kept_example :
    (r : Array ℕ) × (compress_flat grid mask ≡ ok r)
    × HasShape (3 ∷ []) r
    × ((i : ℕ)
        → get_elem? mask i ≡ some true
        → get_elem? r.buffer (count (take i mask)) ≡ get_elem? grid.buffer i)
compress_flat-kept_example = (compress_flat-kept grid mask (omega arith)).0 refl

transpose-turned_example :
    (r : Array ℕ) × (transpose grid ≡ ok r)
    × HasShape (3 ∷ 2 ∷ []) r
    × ((i j : ℕ)
        → i < 3
        → j < 2
        → get_elem? r.buffer (i * 2 + j) ≡ get_elem? grid.buffer (j * 3 + i))
transpose-turned_example = transpose-turned grid 2 3 grid-HasShape (omega arith)
