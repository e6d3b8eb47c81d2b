-- ===== src/Array/Reorder.antt =====
-- The structural operations of src/array.rs that move elements: `take_leading`, `compress_flat`,
-- `select_where`, `concatenate` and `transpose`. Offsets and block lengths are written without
-- their wrap: they stay below the lengths of the buffers.
pub mod Rows
pub mod Masks
pub mod Turned
mod Tests
use package.lightarray.Prelude.{
  ℕ, zero, suc, ◌+◌, ◌*◌, ◌/◌, List, [], ◌∷◌, ◌++◌, Bool, true, false, ◌||◌, not, if◌then◌else◌,
  ltb, ◌==◌, get_elem?, set as set_elem, length, map, reverse, replicate, take, drop,
  wrapping_product,
}
use package.lightarray.Prelude.Int.{ℤ, pos, negsuc, ◌+ℤ◌, ◌-ℤ◌, ltb_ℤ, pos_part}
use package.lightarray.Outcome.{
  Result, ok, err, panic, too_many_indices, shape_mismatch, message, mask_size,
  nothing_to_concatenate, zero_dim_concatenate, ndim_differs, axis_out_of_bounds, dimension_differs,
  ◌>>=◌, ◌>>◌, ensure, or_panic, slice, expect,
}
use package.lightarray.Dims
use package.lightarray.Array.{Element, Array, shape, ndim, size, new}
use package.lightarray.Array.Locate.{normalize_index, is_negative}
use package.lightarray.Array.Broadcast.{eq_dims}

-- The test of an axis argument, and the axis that it names.
unfoldable pub normalize_axis : ℤ → ℕ → Result ℕ
unfolding ◌-ℤ◌ ◌+ℤ◌
normalize_axis axis ndim =
    if ltb_ℤ axis (pos 0 -ℤ pos ndim) || not (ltb_ℤ axis (pos ndim))
    then err (message (axis_out_of_bounds axis ndim))
    else ok (pos_part (if is_negative axis then axis +ℤ pos ndim else axis))

-- The test of the other axes of a part, from axis `k`.
unfoldable pub check_axes : ℕ → ℕ → List ℕ → List ℕ → Result (Unit {0})
check_axes axis k (x ∷ xs) (y ∷ ys) = do
  ensure (k == axis || x == y) (message (dimension_differs k y x))
  check_axes axis (suc k) xs ys
check_axes axis k _ _ = ok tt

module _ {ℓ} {A : Type ℓ} where
  -- The loop of `take_leading`.
  unfoldable pub row_loop : Array A → ℕ → List ℤ → Result (List A)
  row_loop a row [] = ok []
  row_loop a row (x ∷ xs) = do
    i ← normalize_index a x 0
    block ← slice a.buffer (i * row) row
    rest ← row_loop a row xs
    ok (block ++ rest)

  -- `iter().zip(mask).filter(..)`
  abbrev pub kept : List A → List Bool → List A
  kept (x ∷ xs) (true ∷ mask) = x ∷ kept xs mask
  kept (x ∷ xs) (false ∷ mask) = kept xs mask
  kept _ _ = []

  -- `cond.iter().zip(&x.data).zip(&y.data)`
  abbrev pub chosen : List Bool → List A → List A → List A
  chosen (c ∷ cs) (x ∷ xs) (y ∷ ys) = (if c then x else y) ∷ chosen cs xs ys
  chosen _ _ _ = []

  unfoldable pub select_where : List Bool → Array A → Array A → Result (Array A)
  select_where mask x y =
      if not (eq_dims x.dims y.dims) || not (length mask == size x)
      then err (shape_mismatch (shape x) (shape y))
      else ok (record { buffer = chosen mask x.buffer y.buffer; dims = x.dims })

  -- The loop over the parts: the length of the result along the axis.
  unfoldable pub check_parts : Array A → ℕ → List (Array A) → ℕ → Result ℕ
  unfolding check_axes
  check_parts first axis [] total = ok total
  check_parts first axis (p ∷ parts) total = do
    ensure (ndim p == ndim first) (message ndim_differs)
    check_axes axis 0 (shape p) (shape first)
    n ← or_panic (get_elem? (shape p) axis)
    check_parts first axis parts (total + n)

  -- The blocks of the parts in the outer row `o`.
  unfoldable pub part_loop : ℕ → ℕ → ℕ → List (Array A) → Result (List A)
  part_loop axis inner o [] = ok []
  part_loop axis inner o (p ∷ parts) = do
    n ← or_panic (get_elem? (shape p) axis)
    block ← slice p.buffer (o * (n * inner)) (n * inner)
    rest ← part_loop axis inner o parts
    ok (block ++ rest)

  -- The loop over the outer rows from `o`, with the number of rows left.
  unfoldable pub outer_loop : ℕ → ℕ → List (Array A) → ℕ → ℕ → Result (List A)
  unfolding part_loop
  outer_loop axis inner parts o zero = ok []
  outer_loop axis inner parts o (suc n) = do
    row ← part_loop axis inner o parts
    rest ← outer_loop axis inner parts (suc o) n
    ok (row ++ rest)

  -- One column of the 2-d transpose, from row `r` with the number of rows left.
  unfoldable pub column_loop : List A → ℕ → ℕ → ℕ → ℕ → Result (List A)
  column_loop buffer cols c r zero = ok []
  column_loop buffer cols c r (suc n) = do
    x ← or_panic (get_elem? buffer (r * cols + c))
    rest ← column_loop buffer cols c (suc r) n
    ok (x ∷ rest)

  unfoldable pub columns_loop : List A → ℕ → ℕ → ℕ → ℕ → Result (List A)
  unfolding column_loop
  columns_loop buffer rows cols c zero = ok []
  columns_loop buffer rows cols c (suc n) = do
    column ← column_loop buffer cols c 0 rows
    rest ← columns_loop buffer rows cols (suc c) n
    ok (column ++ rest)

-- The index of the general transpose after the next step, and whether every axis started again.
unfoldable pub next_index : List ℕ → List ℕ → List ℕ × Bool
next_index (d ∷ s) (i ∷ idx) =
    let (rest, carry) = next_index s idx in
    if carry
    then (if ltb (i + 1) d then ((i + 1) ∷ rest, false) else (0 ∷ rest, true))
    else (i ∷ rest, false)
next_index _ _ = ([], true)

-- `(0..ndim).map(|k| idx[k] * strides[ndim - 1 - k]).sum()`, of the strides reversed.
abbrev pub offset_of : List ℕ → List ℕ → ℕ
offset_of (i ∷ idx) (n ∷ strides) = i * n + offset_of idx strides
offset_of _ _ = 0

-- The general loop, with the number of elements left.
unfoldable pub permute_loop {ℓ} :
    {A : Type ℓ} → List A → List ℕ → List ℕ → ℕ → List ℕ → Result (List A)
unfolding next_index
permute_loop buffer s strides zero idx = ok []
permute_loop buffer s strides (suc n) idx = do
  x ← or_panic (get_elem? buffer (offset_of idx strides))
  rest ← permute_loop buffer s strides n (next_index s idx).0
  ok (x ∷ rest)

module _ {ℓ} {A : Type ℓ} ⦃e : Element A⦄ where
  unfoldable pub take_leading : Array A → List ℤ → Result (Array A)
  unfolding row_loop
  take_leading a indices = do
    ensure (not (ndim a == 0)) (too_many_indices 1 0)
    row ← Dims.drop_leading a.dims 1
    data_rows ← row_loop a (Dims.size row) indices
    new data_rows (length indices ∷ drop 1 (shape a))

  unfoldable pub compress_flat : Array A → List Bool → Result (Array A)
  compress_flat a mask = do
    ensure (length mask == size a) (message (mask_size (size a) (length mask)))
    let picked = kept a.buffer mask
    new picked (length picked ∷ [])

  -- `concatenate` once the first part is known.
  unfoldable pub concatenate_from : Array A → List (Array A) → ℤ → Result (Array A)
  unfolding normalize_axis check_parts outer_loop
  concatenate_from first parts axis = do
    ensure (not (ndim first == 0)) (message zero_dim_concatenate)
    k ← normalize_axis axis (ndim first)
    total ← check_parts first k parts 0
    let outer = wrapping_product (take k (shape first))
    let inner = wrapping_product (drop (suc k) (shape first))
    out ← outer_loop k inner parts 0 outer
    new out (set_elem (shape first) k total)

  unfoldable pub concatenate : List (Array A) → ℤ → Result (Array A)
  unfolding concatenate_from
  concatenate [] axis = err (message nothing_to_concatenate)
  concatenate (first ∷ parts) axis = concatenate_from first (first ∷ parts) axis

  -- The `match` on the number of axes.
  unfoldable pub transpose_of : Array A → List ℕ → Result (Array A)
  unfolding columns_loop permute_loop
  transpose_of a [] = ok a
  transpose_of a (n ∷ []) = ok a
  transpose_of a (rows ∷ cols ∷ []) = do
    out ← columns_loop a.buffer rows cols 0 cols
    dims ← expect (Dims.with_itemsize (cols ∷ rows ∷ []) e.size_of)
    ok (record { buffer = out; dims = dims })
  transpose_of a s = do
    let strides = map (λ n. n / e.size_of) (Dims.strides a.dims)
    out ← permute_loop a.buffer (reverse s) (reverse strides) (size a) (replicate (length s) 0)
    dims ← expect (Dims.with_itemsize (reverse s) e.size_of)
    ok (record { buffer = out; dims = dims })

  unfoldable pub transpose : Array A → Result (Array A)
  unfolding transpose_of
  transpose a = transpose_of a (shape a)
