-- ===== src/Array/Select.antt =====
-- Basic indexing with integers and slices in src/array.rs: `selection_plan`, `gather`, `select` and
-- the views that `plan_view` makes of contiguous selections. Positions and offsets are written
-- without their wrap: they stay below the length of the buffer.
pub mod Plan
pub mod Whole
pub mod Gather
pub mod Scanning
pub mod Contiguous
use package.lightarray.Prelude.{
  ℕ, suc, zero, ◌+◌, ◌-◌, ◌*◌, ◌/◌, List, [], ◌∷◌, ◌++◌, Bool, true, false, ◌&&◌, not, Option, none,
  some, if◌then◌else◌, ltb, leb, ◌==◌, get_elem?, length, map, product, word, wrapping_product,
}
use package.lightarray.Prelude.Int.{ℤ, pos, negsuc, ◌+ℤ◌, ◌-ℤ◌, ltb_ℤ, pos_part, neg_part}
use package.lightarray.Outcome.{
  Result, ok, err, panic, too_many_indices, ◌>>=◌, ◌>>◌, ensure, or_panic,
}
use package.lightarray.Dims
use package.lightarray.Array.{Element, Array, shape, ndim, new}
use package.lightarray.Array.Locate.{View, view, normalize_index}

-- One axis of a basic index; a slice is resolved already, as Python's `slice.indices` does.
pub data Selector : Type 0 where
  int : ℤ → Selector
  slice : ℤ → ℤ → ℤ → Selector

-- `(start, step, count)` of one axis.
pub record AxisPlan : Type 0 where
  pub start : ℕ
  pub step : ℤ
  pub count : ℕ

-- `x as usize`
abbrev pub as_usize : ℤ → ℕ
as_usize (pos n) = n
as_usize (negsuc n) = word - suc n

-- The number of elements of a slice. A zero step divides by zero, if it gets there.
unfoldable pub slice_count : ℤ → ℤ → ℤ → Result ℕ
unfolding ◌-ℤ◌
slice_count start stop step =
    if ltb_ℤ (pos 0) step
    then ok (if ltb_ℤ start stop then (pos_part (stop -ℤ start) - 1) / pos_part step + 1 else 0)
    else if ltb_ℤ stop start
    then (if neg_part step == 0
        then panic
        else ok ((pos_part (start -ℤ stop) - 1) / neg_part step + 1))
    else ok 0

-- The plan and the result shape, an entry for each axis of the shape that is left.
abbrev pub Plan : Type 0
Plan = List AxisPlan × List ℕ

module _ {ℓ} {A : Type ℓ} where
  unfoldable pub plan_loop : Array A → ℕ → List ℕ → List Selector → Result Plan
  plan_loop a axis [] sels = let done : Plan = ([], []) in ok done
  plan_loop a axis (d ∷ s) [] = do
    (plan, out) ← plan_loop a (suc axis) s []
    let whole : Plan = (record { start = 0; step = pos 1; count = d } ∷ plan, d ∷ out)
    ok whole
  plan_loop a axis (d ∷ s) (int x ∷ sels) = do
    i ← normalize_index a x axis
    (plan, out) ← plan_loop a (suc axis) s sels
    let dropped : Plan = (record { start = i; step = pos 1; count = 1 } ∷ plan, out)
    ok dropped
  plan_loop a axis (d ∷ s) (slice start stop step ∷ sels) = do
    count ← slice_count start stop step
    (plan, out) ← plan_loop a (suc axis) s sels
    let kept : Plan =
        (record { start = as_usize start; step = step; count = count } ∷ plan, count ∷ out)
    ok kept

  unfoldable pub selection_plan : Array A → List Selector → Result Plan
  unfolding plan_loop
  selection_plan a sels = do
    ensure (leb (length sels) (ndim a)) (too_many_indices (length sels) (ndim a))
    plan_loop a 0 (shape a) sels

-- The loop of `gather` over one axis: what `visit` pushes at each offset, in order.
unfoldable pub axis_loop {ℓ} :
    {A : Type ℓ} → (ℕ → Result (List A)) → ℕ → ℤ → ℕ → ℤ → ℕ → Result (List A)
axis_loop visit stride step zero at offset = ok []
axis_loop visit stride step (suc count) at offset = do
  pushed ← visit (offset + as_usize at * stride)
  rest ← axis_loop visit stride step count (at +ℤ step) offset
  ok (pushed ++ rest)

abbrev pub push_element {ℓ} : {A : Type ℓ} → List A → ℕ → Result (List A)
push_element buffer offset = or_panic (get_elem? buffer offset) >>= λ x. ok (x ∷ [])

-- What `gather` pushes. `plan[axis]` is out of range for an empty plan.
unfoldable pub gather {ℓ} : {A : Type ℓ} → List A → List AxisPlan → List ℕ → ℕ → Result (List A)
unfolding axis_loop
gather buffer [] strides offset = panic
gather buffer (p ∷ plan) [] offset = if p.count == 0 then ok [] else panic
gather buffer (p ∷ []) (stride ∷ strides) offset =
    axis_loop (push_element buffer) stride p.step p.count (pos p.start) offset
gather buffer (p ∷ q ∷ plan) (stride ∷ strides) offset =
    axis_loop (gather buffer (q ∷ plan) strides) stride p.step p.count (pos p.start) offset

module _ {ℓ} {A : Type ℓ} ⦃e : Element A⦄ where
  unfoldable pub elem_strides : Array A → List ℕ
  elem_strides a = map (λ n. n / e.size_of) (Dims.strides a.dims)

  unfoldable pub gather_plan : Array A → List AxisPlan → List ℕ → Result (Array A)
  gather_plan a plan out_shape = do
    let nothing : Result (List A) = ok []
    out ←
        if ltb 0 (wrapping_product out_shape)
        then gather a.buffer plan (elem_strides a) 0
        else nothing
    new out out_shape

  unfoldable pub select : Array A → List Selector → Result (Array A)
  select a sels = do (plan, out_shape) ← selection_plan a sels; gather_plan a plan out_shape

-- What `plan_view` finds: an empty array of its own, or a window into the buffer.
pub data Selected {ℓ} (A : Type ℓ) : Type ℓ where
  owned : Array A → Selected A
  window : View → Selected A

-- How the loop of `plan_view` ends.
pub data Scan : Type 0 where
  empty strided : Scan
  contiguous : ℕ → Scan

abbrev pub is_one : ℤ → Bool
is_one (pos n) = n == 1
is_one (negsuc n) = false

-- The loop over the axes after `block_started`: each must be taken whole.
unfoldable pub scan_block : ℕ → List AxisPlan → List ℕ → Scan
scan_block offset [] s = contiguous offset
scan_block offset (p ∷ plan) [] = strided
scan_block offset (p ∷ plan) (d ∷ s) =
    let rest = scan_block offset plan s in
    if p.count == 0
    then empty
    else if p.start == 0 && is_one p.step && p.count == d
    then rest
    else strided

-- The loop until the block starts. Its recursive calls are one of each kind of axis.
unfoldable pub scan_plan : ℕ → List AxisPlan → List ℕ → List ℕ → Scan
unfolding scan_block
scan_plan offset (p ∷ plan) (d ∷ s) (stride ∷ strides) =
    let here = offset + p.start * stride in
    let block = scan_block here plan s in
    let rest = scan_plan here plan s strides in
    if p.count == 0
    then empty
    else if ltb 1 p.count
    then (if is_one p.step then block else strided)
    else rest
scan_plan offset _ _ _ = contiguous offset

module _ {ℓ} {A : Type ℓ} ⦃e : Element A⦄ where
  -- What `plan_view` returns when its loop has ended. `None` stands for a strided selection.
  abbrev pub end_of_scan : Array A → List ℕ → Scan → Result (Option (Selected A))
  end_of_scan a out_shape empty = new [] out_shape >>= λ b. ok (some (owned b))
  end_of_scan a out_shape strided = ok none
  end_of_scan a out_shape (contiguous offset) = do
    dims ← Dims.with_itemsize out_shape e.size_of
    w ← view a offset dims
    ok (some (window w))

  unfoldable pub plan_view : Array A → List AxisPlan → List ℕ → Result (Option (Selected A))
  plan_view a plan out_shape = end_of_scan a out_shape (scan_plan 0 plan (shape a) (elem_strides a))

  unfoldable pub select_view : Array A → List Selector → Result (Option (Selected A))
  select_view a sels = do (plan, out_shape) ← selection_plan a sels; plan_view a plan out_shape
