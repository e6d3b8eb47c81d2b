-- ===== src/Array/Broadcast.antt =====
-- Broadcasting in src/array.rs: `broadcast_shape`, `broadcast_strides`, and the element-wise
-- kernels of two arrays. The closure is a parameter, and so is the element type that the source
-- fixes to f64. Offsets are written without their wrap: they stay below the lengths of the buffers.
pub mod Aligned
pub mod Walk
pub mod Origin
pub mod Zip
pub mod Inplace
mod Tests
use package.lightarray.Prelude.{
  ℕ, zero, suc, ◌+◌, ◌-◌, ◌*◌, List, [], ◌∷◌, ◌++◌, Bool, true, false, ◌&&◌, if◌then◌else◌, leb,
  ltb, ◌==◌, get_elem?, length, map, replicate, max, wrapping_mul, wrapping_product,
}
use package.lightarray.Outcome.{
  Result, ok, err, panic, shape_mismatch, message, output_operand, ◌>>=◌, ◌>>◌, ensure, or_panic,
}
use package.lightarray.Dims
use package.lightarray.Dims.{Dims}
use package.lightarray.Array.{Element, Array, shape, new}

-- The length of axis `k` of the result in `s`, right-aligned; 1 where `s` has no such axis.
unfoldable pub axis_of : List ℕ → ℕ → ℕ → Result ℕ
axis_of s ndim k =
    if leb ndim (k + length s) then or_panic (get_elem? s (k + length s - ndim)) else ok 1

-- The `match` on `(da, db)`.
abbrev pub broadcast_axis : List ℕ → List ℕ → ℕ → ℕ → Result ℕ
broadcast_axis a b x y =
    if x == y
    then ok x
    else if x == 1
    then ok y
    else if y == 1
    then ok x
    else err (shape_mismatch a b)

-- The loop from axis `k`, with the number of axes left.
unfoldable pub broadcast_loop : List ℕ → List ℕ → ℕ → ℕ → ℕ → Result (List ℕ)
unfolding axis_of
broadcast_loop a b ndim k zero = ok []
broadcast_loop a b ndim k (suc n) = do
  da ← axis_of a ndim k
  db ← axis_of b ndim k
  d ← broadcast_axis a b da db
  rest ← broadcast_loop a b ndim (suc k) n
  ok (d ∷ rest)

unfoldable pub broadcast_shape : List ℕ → List ℕ → Result (List ℕ)
unfolding broadcast_loop
broadcast_shape a b = let ndim = max (length a) (length b) in broadcast_loop a b ndim 0 ndim

-- The loop over the axes from the last to the first, with its `stride` at the end.
unfoldable pub repeat_loop : ℕ → List ℕ → List ℕ × ℕ
repeat_loop stride [] = ([], stride)
repeat_loop stride (d ∷ ds) =
    let (inner, s) = repeat_loop stride ds in ((if d == 1 then 0 else s) ∷ inner, wrapping_mul s d)

unfoldable pub broadcast_strides : List ℕ → List ℕ → List ℕ
unfolding repeat_loop
broadcast_strides s out = replicate (length out - length s) 0 ++ (repeat_loop 1 s).0

-- The state of the odometer: the index, the two offsets, and whether every axis so far has
-- started again.
pub record Odometer : Type 0 where
  pub idx : List ℕ
  pub ao : ℕ
  pub bo : ℕ
  pub carry : Bool

-- One axis of the `while` loop, after those inside it, which have started again if `o.carry`.
abbrev pub turn : ℕ → ℕ → ℕ → ℕ → Odometer → Odometer
turn d sa sb i o =
    if o.carry
    then (if ltb (i + 1) d
        then record { idx = (i + 1) ∷ o.idx; ao = o.ao + sa; bo = o.bo + sb; carry = false }
        else record {
          idx = 0 ∷ o.idx;
          ao = o.ao + sa - sa * (i + 1);
          bo = o.bo + sb - sb * (i + 1);
          carry = true;
        })
    else record o { idx = i ∷ o.idx }

-- The `while` loop, from the last axis until one does not start again.
unfoldable pub advance : List ℕ → List ℕ → List ℕ → List ℕ → ℕ → ℕ → Odometer
advance (d ∷ out) (x ∷ sa) (y ∷ sb) (i ∷ idx) ao bo =
    let inner = advance out sa sb idx ao bo in turn d x y i inner
advance _ _ _ _ ao bo = record { idx = []; ao = ao; bo = bo; carry = true }

-- `Dims` compared as the derived `PartialEq` does.
abbrev pub eq_list : List ℕ → List ℕ → Bool
eq_list [] [] = true
eq_list (x ∷ xs) (y ∷ ys) = x == y && eq_list xs ys
eq_list _ _ = false

abbrev pub eq_dims : Dims → Dims → Bool
eq_dims d e =
    d.ndim == e.ndim
    && d.itemsize == e.itemsize
    && eq_list d.shape_slots e.shape_slots
    && eq_list d.stride_slots e.stride_slots

module _ {ℓ} {A : Type ℓ} where
  -- The `for` loop over the elements, with the number of elements left.
  unfoldable pub odometer_loop :
      (A → A → A)
      → List A
      → List A
      → List ℕ
      → List ℕ
      → List ℕ
      → ℕ
      → List ℕ
      → ℕ
      → ℕ
      → Result (List A)
  unfolding advance
  odometer_loop f a b out sa sb zero idx ao bo = ok []
  odometer_loop f a b out sa sb (suc n) idx ao bo = do
    x ← or_panic (get_elem? a ao)
    y ← or_panic (get_elem? b bo)
    let o = advance out sa sb idx ao bo
    rest ← odometer_loop f a b out sa sb n o.idx o.ao o.bo
    ok (f x y ∷ rest)

  -- `iter().zip(..).map(..)`, which ends with the shorter list.
  abbrev pub zip_with : (A → A → A) → List A → List A → List A
  zip_with f (x ∷ xs) (y ∷ ys) = f x y ∷ zip_with f xs ys
  zip_with f _ _ = []

  unfoldable pub map_array : (A → A) → Array A → Array A
  map_array f a = record a { buffer = map f a.buffer }

module _ {ℓ} {A : Type ℓ} ⦃e : Element A⦄ where
  unfoldable pub zip_map_broadcast : (A → A → A) → Array A → Array A → Result (Array A)
  unfolding broadcast_shape broadcast_strides odometer_loop
  zip_map_broadcast f a b = do
    out_shape ← broadcast_shape (shape a) (shape b)
    let size = wrapping_product out_shape
    let sa = broadcast_strides (shape a) out_shape
    let sb = broadcast_strides (shape b) out_shape
    let nothing : Result (List A) = ok []
    out ←
        if ltb 0 size
        then odometer_loop f a.buffer b.buffer out_shape sa sb size (replicate (length out_shape) 0)
            0 0
        else nothing
    new out out_shape

  unfoldable pub zip_map : (A → A → A) → Array A → Array A → Result (Array A)
  zip_map f a b =
      if eq_dims a.dims b.dims
      then ok (record { buffer = zip_with f a.buffer b.buffer; dims = a.dims })
      else zip_map_broadcast f a b

  -- The state of `&mut self` after the call is the result. `copy_from_slice` panics on slices of
  -- different lengths.
  unfoldable pub zip_map_inplace : (A → A → A) → Array A → Array A → Result (Array A)
  zip_map_inplace f a b =
      if eq_dims a.dims b.dims then ok (record a { buffer = zip_with f a.buffer b.buffer }) else do
        out_shape ← broadcast_shape (shape a) (shape b)
        ensure (eq_list out_shape (shape a)) (message (output_operand (shape a) out_shape))
        result ← zip_map f a b
        if length result.buffer == length a.buffer
            then ok (record a { buffer = result.buffer })
            else panic
