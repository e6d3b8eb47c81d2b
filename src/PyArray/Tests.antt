-- ===== src/PyArray/Tests.antt =====
-- Runs of the operations of `PyArray`, and examples of the theorems.
use lightarray.Prelude.{ℕ, ◌≡◌, ◌≢◌, false, refl, arith, List, [], ◌∷◌, none, some, length, reverse}
use lightarray.Prelude.Int.{ℤ, pos, negsuc, ◌+ℤ◌, ◌-ℤ◌, ◌*ℤ◌, ◌≤ℤ◌}
use lightarray.Outcome.{ok, err, index_out_of_bounds, ◌>>=◌}
use lightarray.Dims
use lightarray.Dims.Strides.{c_dims}
use lightarray.Array.{filled}
use lightarray.Array.Locate.Order.{Inside, resolve}
use lightarray.Array.Valid.{HasShape}
use lightarray.Array.Select.{Selector, slice, AxisPlan}
use lightarray.Array.Select.Plan.{forwards, backwards}
use lightarray.Array.Select.Whole.{PlanFor}
use lightarray.Array.AnyArray.{int_element}
use lightarray.Layout.{is_c_contiguous}
use lightarray.Layout.Address.{source, address, address_of}
use lightarray.Memory.{Memory}
use lightarray.PyArray.{
  Strided, PyArray, Fresh, element, layout_of, select_result, transposed, index_result, overlaps,
  strided_element, base_of, view_from_layout,
}
use lightarray.PyArray
use lightarray.PyArray.Sharing.{Shares}
use lightarray.PyArray.Turned.{transposed-Shares, transposed-transposed}
use lightarray.PyArray.Basic.{select_result-Shares}
use lightarray.PyArray.Strides.{strided_element-resolve}
use lightarray.PyArray.Views.{Shows}
use lightarray.PyArray.Numpy.{Buffer, buffer_layout, reach_loop, view_of_numpy}
use lightarray.PyArray.Numpy.Multiples.{Multiple}
use lightarray.PyArray.Numpy.Span.{view_of_numpy-Within}
use lightarray.PyArray.Elements.{index_result-element}

-- An array of two rows at address 1000, in a memory where each element is its address.
abbrev pub grid : PyArray ℤ
grid = record {
  object = 1;
  inner = record {
    buffer = pos 1000 ∷ pos 1008 ∷ pos 1016 ∷ pos 1024 ∷ pos 1032 ∷ pos 1040 ∷ [];
    dims = c_dims (2 ∷ 3 ∷ []) 8;
  };
  data_ptr = pos 1000;
  storage_base = none;
  strided = none;
}

abbrev pub addresses : Memory ℤ
addresses = λ at. at

abbrev pub fresh : Fresh
fresh = record { object = 2; data_ptr = pos 5000 }

-- `[:, ::-2]`
abbrev key : List Selector
key = slice (pos 0) (pos 2) (pos 1) ∷ slice (pos 2) (negsuc 0) (negsuc 1) ∷ []

pub grid-HasShape : HasShape (2 ∷ 3 ∷ []) grid.inner
grid-HasShape = record {
  short = omega arith;
  fits = (omega arith, (omega arith, omega arith));
  dims = refl;
  full = refl;
}

pub grid_axes : length (layout_of grid).strides ≡ 2
unfolding layout_of Dims.strides
grid_axes = refl

select_result-Shares_example :
    (plan : List AxisPlan) × (out : List ℕ) × (r : PyArray ℤ) × PlanFor (2 ∷ 3 ∷ []) key plan out
    × (select_result addresses fresh grid key [] ≡ ok r)
    × Shares addresses grid (2 ∷ 3 ∷ []) (source key plan) out r
select_result-Shares_example =
    select_result-Shares addresses fresh grid (2 ∷ 3 ∷ []) key grid-HasShape grid_axes (omega arith)
      (forwards 0 2 0 (omega arith), (backwards 2 0 1 (omega arith), tt))

transposed-Shares_example :
    (v : PyArray ℤ) × (transposed addresses fresh grid ≡ ok v)
    × Shares addresses grid (2 ∷ 3 ∷ []) reverse (3 ∷ 2 ∷ []) v
transposed-Shares_example =
    transposed-Shares addresses fresh grid (2 ∷ 3 ∷ []) grid-HasShape grid_axes (omega arith)

-- Element [2, -1] of the transpose is element [1, 2].
index_result-element_example :
    index_result addresses fresh transposed-Shares_example.0 (pos 2 ∷ negsuc 0 ∷ [])
    ≡ ok (element (address_of (layout_of grid) (1 ∷ 2 ∷ [])))
index_result-element_example =
    index_result-element transposed-Shares_example.2 (pos 2 ∷ negsuc 0 ∷ []) refl fresh (2 ∷ 1 ∷ [])
      refl

-- The transpose of the transpose.
transposed-transposed_example :
    (v u : PyArray ℤ) × (transposed addresses fresh grid ≡ ok v)
    × (transposed addresses (record { object = 3; data_ptr = pos 7000 }) v ≡ ok u)
    × Shares addresses grid (2 ∷ 3 ∷ []) (λ ks. ks) (2 ∷ 3 ∷ []) u
transposed-transposed_example =
    transposed-transposed addresses fresh (record { object = 3; data_ptr = pos 7000 }) grid
      (2 ∷ 3 ∷ []) grid-HasShape grid_axes (omega arith)

-- The last column as a strided view.
abbrev column : Strided
column = record { base = 1; ptr = pos 1016; strides = pos 24 ∷ [] }

abbrev pub column_view : PyArray ℤ
column_view = record {
  object = 3;
  inner = record { buffer = pos 0 ∷ pos 0 ∷ []; dims = c_dims (2 ∷ []) 8 };
  data_ptr = pos 6000;
  storage_base = none;
  strided = some column;
}

strided_element-resolve_example :
    (◌≡◌ {A = ℕ} 1 1
      → strided_element column_view (negsuc 0 ∷ []) ≡ (
          resolve 0 (2 ∷ []) (negsuc 0 ∷ []) >>= λ is.
          ok (some (address (pos 1016) (pos 24 ∷ []) is))))
    × (◌≢◌ {A = ℕ} 1 1 → strided_element column_view (negsuc 0 ∷ []) ≡ ok none)
unfolding Dims.shape
strided_element-resolve_example =
    strided_element-resolve column_view column (negsuc 0 ∷ []) refl refl

last_of_column : index_result addresses fresh column_view (negsuc 0 ∷ []) ≡ ok (element (pos 1040))
unfolding index_result strided_element PyArray.element_loop ◌+ℤ◌ ◌*ℤ◌ Dims.shape
last_of_column = refl

below_column :
    index_result addresses fresh column_view (pos 2 ∷ []) ≡ err (index_out_of_bounds (pos 2) 0 2)
unfolding index_result strided_element PyArray.element_loop ◌+ℤ◌ ◌*ℤ◌ Dims.shape
below_column = refl

-- `np.flip` of the first row.
abbrev flipped : Buffer
flipped = record {
  readonly = false;
  item_size = 8;
  format = 113 ∷ [];
  buf_ptr = pos 1016;
  dimensions = 3 ∷ [];
  buf_strides = negsuc 7 ∷ [];
}

abbrev flipped_view : PyArray ℤ
flipped_view = record {
  object = 2;
  inner = record { buffer = pos 0 ∷ pos 0 ∷ pos 0 ∷ []; dims = c_dims (3 ∷ []) 8 };
  data_ptr = pos 5000;
  storage_base = none;
  strided = some (record { base = 1; ptr = pos 1016; strides = negsuc 7 ∷ [] });
}

flip : view_of_numpy addresses fresh (113 ∷ []) grid (some flipped) ≡ ok (some flipped_view)
unfolding view_of_numpy view_from_layout is_c_contiguous filled Dims.with_itemsize Dims.size
    Dims.shape base_of ◌+ℤ◌ ◌-ℤ◌ ◌*ℤ◌
flip = refl

view_of_numpy-Within_example :
    Shows addresses (buffer_layout flipped) flipped_view
    × (base_of flipped_view ≡ base_of grid)
    × ((is : List ℕ)
        → Inside (3 ∷ []) is
        → length is ≡ 1
        → (let p = address_of (layout_of flipped_view) is in
            (pos 1000 ≤ℤ p) × (p +ℤ pos 8 ≤ℤ pos 1000 +ℤ pos 48) × Multiple 8 (p -ℤ pos 1000)))
view_of_numpy-Within_example =
    view_of_numpy-Within addresses fresh (113 ∷ []) grid flipped_view flipped refl
      (omega arith, omega arith) (omega arith) (omega arith) flip

-- A stride of 2^62 over five elements reaches 2^64, which wraps around: no bound is moved.
wrapped_reach :
    reach_loop 8 (pos 1016) (pos 1016) (5 ∷ []) (pos 4611686018427387904 ∷ [])
    ≡ some (pos 1016, pos 1016)
unfolding reach_loop ◌+ℤ◌ ◌-ℤ◌ ◌*ℤ◌
wrapped_reach = refl

-- An address before the owner's is refused.
outside_owner :
    view_of_numpy addresses fresh (113 ∷ []) grid (some (record flipped { buf_ptr = pos 1008 }))
    ≡ ok none
unfolding view_of_numpy ◌+ℤ◌ ◌-ℤ◌ ◌*ℤ◌
outside_owner = refl
