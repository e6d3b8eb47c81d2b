-- ===== src/PyArray/Assign/Tests.antt =====
-- Runs of the assignments of src/python.rs, and the theorems at them.
use lightarray.Prelude.{◌≡◌, refl, arith, [], ◌∷◌, some, none}
use lightarray.Prelude.Int.{ℤ, pos, negsuc, ◌+ℤ◌, ◌*ℤ◌}
use lightarray.Outcome.{ok, err, index_out_of_bounds}
use lightarray.Dims
use lightarray.Array.AnyArray.{int_element}
use lightarray.Layout.Address.{address_of}
use lightarray.Memory.{write}
use lightarray.PyArray.{PyArray, layout_of, strided_element}
use lightarray.PyArray
use lightarray.PyArray.Turned.{transposed-Shares}
use lightarray.PyArray.Tests.{grid, addresses, fresh, grid-HasShape, grid_axes, column_view}
use lightarray.PyArray.Keys.{item, tuple, integer}
use lightarray.PyArray.Assign.{Written, written, numpy, set_item}
use lightarray.PyArray.Assign.Items.{set_item-writes}

-- The last column of the grid at [5].
below_column :
    set_item addresses column_view (item (integer (pos 5))) (some (pos 7))
    ≡ err (index_out_of_bounds (pos 5) 0 2)
unfolding set_item strided_element PyArray.element_loop ◌+ℤ◌ ◌*ℤ◌ Dims.shape
below_column = refl

-- One integer does not name an element of two axes.
row_of_grid : set_item addresses grid (item (integer (pos 1))) (some (pos 7)) ≡ ok numpy
unfolding set_item Dims.shape
row_of_grid = refl

-- A value of another kind.
other_value :
    set_item addresses grid (tuple (integer (pos 1) ∷ integer (pos 0) ∷ [])) none ≡ ok numpy
unfolding set_item strided_element Dims.shape
other_value = refl

-- Element [2, -1] of the transpose is element [1, 2].
set_item-writes_example :
    (r : Written ℤ) × (set_item addresses
        (transposed-Shares addresses fresh grid
          (2 ∷ 3 ∷ [])
          grid-HasShape
          grid_axes
          (omega arith)).0
        (tuple (integer (pos 2) ∷ integer (negsuc 0) ∷ []))
        (some (pos 7))
      ≡ ok (written r))
    × (layout_of r.target
        ≡ layout_of
            (transposed-Shares addresses fresh grid
              (2 ∷ 3 ∷ [])
              grid-HasShape
              grid_axes
              (omega arith)).0)
    × ((b : ℤ) → r.memory b ≡ write addresses (address_of (layout_of grid) (1 ∷ 2 ∷ [])) (pos 7) b)
set_item-writes_example =
    set_item-writes
      (transposed-Shares addresses fresh grid (2 ∷ 3 ∷ []) grid-HasShape grid_axes (omega arith)).2
      (tuple (integer (pos 2) ∷ integer (negsuc 0) ∷ [])) (pos 2 ∷ negsuc 0 ∷ []) refl (pos 7)
      (2 ∷ 1 ∷ []) refl
