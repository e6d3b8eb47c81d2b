-- ===== src/Array/Kernels/Tests.antt =====
-- Runs of the reductions over the natural numbers, where 99 stands for NaN, and the theorem at
-- them.
use lightarray.Prelude.{
  ℕ, ◌+◌, ◌-◌, ◌*◌, ◌/◌, ◌≡◌, ◌⊎◌, refl, arith, List, [], ◌∷◌, Bool, none, some, ltb, ◌==◌,
}
use lightarray.Prelude.Int.{pos, negsuc, ◌+ℤ◌, ◌-ℤ◌}
use lightarray.Outcome.{ok, ◌>>=◌}
use lightarray.Dims
use lightarray.Array.{new}
use lightarray.Array.Tests.{nat_element, grid}
use lightarray.Array.Reorder.{normalize_axis}
use lightarray.Array.Kernels.{
  Floats, fold_axis, row_folds, inner_rows, block_folds, extreme_of, sum,
}
use lightarray.Prelude.{◌<◌, get_elem?, length}
use lightarray.Array.Kernels.Axis.{FoldsLine, block_folds-FoldsLine}
use lightarray.Array.Kernels.Line.{row_folds-FoldsLine}
use lightarray.Array.Kernels.Extreme.{IsStrict, IsExtreme, extreme_of-IsExtreme}

abbrev is_nan_ℕ : ℕ → Bool
is_nan_ℕ x = x == 99

abbrev above_ℕ : ℕ → ℕ → Bool
above_ℕ x y = ltb y x

abbrev naturals : Floats ℕ
naturals = record {
  nil = 0;
  nan = 99;
  sum_start = 0;
  product_start = 1;
  add = λ x y. x + y;
  sub = λ x y. x - y;
  mul = λ x y. x * y;
  div = λ x y. x / y;
  larger = λ x y. x;
  smaller = λ x y. y;
  from_usize = λ n. n;
  is_nan = is_nan_ℕ;
  above = above_ℕ;
  below = ltb;
  equal = ◌==◌;
}

summed : sum naturals grid ≡ 75
unfolding sum
summed = refl

last_axis : (fold_axis grid (negsuc 0) (some 0) ◌+◌ >>= λ r. ok r.buffer) ≡ ok (33 ∷ 42 ∷ [])
unfolding fold_axis row_folds block_folds normalize_axis new Dims.shape Dims.size Dims.with_itemsize
    ◌+ℤ◌ ◌-ℤ◌
last_axis = refl

first_axis : (fold_axis grid (pos 0) none ◌+◌ >>= λ r. ok r.buffer) ≡ ok (23 ∷ 25 ∷ 27 ∷ [])
unfolding fold_axis row_folds block_folds inner_rows normalize_axis new Dims.shape Dims.size
    Dims.with_itemsize ◌+ℤ◌ ◌-ℤ◌
first_axis = refl

above-IsStrict : IsStrict is_nan_ℕ above_ℕ
above-IsStrict = record {
  irreflexive = λ x. ground arith;
  transitive = λ x y z p q. ground arith;
  cotransitive = λ x y z p q r s. ground arith;
}

abbrev peaks : List ℕ
peaks = 3 ∷ 7 ∷ 5 ∷ 7 ∷ []

first_peak : extreme_of is_nan_ℕ above_ℕ peaks ≡ some 1
unfolding extreme_of
first_peak = refl

extreme_of-IsExtreme_example :
    ((peaks ≡ []) × (extreme_of is_nan_ℕ above_ℕ peaks ≡ none))
    ⊎ ((i : ℕ) × (extreme_of is_nan_ℕ above_ℕ peaks ≡ some i) × IsExtreme is_nan_ℕ above_ℕ peaks i)
extreme_of-IsExtreme_example = extreme_of-IsExtreme is_nan_ℕ above_ℕ above-IsStrict peaks

-- Column sums of the grid, from the first row.
block_folds-FoldsLine_example :
    (out : List ℕ) × (block_folds ◌+◌ none grid.buffer 2 3 0 1 ≡ ok out)
    × (length out ≡ 3)
    × ((b i : ℕ)
        → b < 1
        → i < 3
        → (r : ℕ) × (get_elem? out (b * 3 + i) ≡ some r)
          × FoldsLine ◌+◌ grid.buffer none 3 ((0 + b) * 2 * 3 + i) 2 r)
block_folds-FoldsLine_example =
    block_folds-FoldsLine ◌+◌ grid.buffer none 2 3 0 1 (omega arith) (omega arith)

-- Row sums of the grid.
row_folds-FoldsLine_example :
    (out : List ℕ) × (row_folds ◌+◌ (some 0) grid.buffer 3 0 2 ≡ ok out)
    × (length out ≡ 2)
    × ((b : ℕ)
        → b < 2
        → (r : ℕ) × (get_elem? out b ≡ some r)
          × FoldsLine ◌+◌ grid.buffer (some 0) 1 ((0 + b) * 3) 3 r)
row_folds-FoldsLine_example = row_folds-FoldsLine ◌+◌ grid.buffer (some 0) 3 0 2 tt (omega arith)
