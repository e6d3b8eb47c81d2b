-- ===== src/PyArray.antt =====
-- `PyArray` of src/python.rs: an array as a Python object, its strided views, and basic indexing.
-- The dtype is a parameter. Objects have numbers; `Fresh` is what an allocation returns.
pub mod Strides
pub mod Views
pub mod Sharing
pub mod Turned
pub mod Windows
pub mod Inserted
pub mod Planned
pub mod Basic
pub mod Elements
pub mod Numpy
pub mod Keys
pub mod Assign
mod Tests
use package.lightarray.Prelude.{
  ℕ, zero, suc, ◌+◌, ◌*◌, ◌/◌, List, [], ◌∷◌, Bool, true, false, ◌&&◌, ◌||◌, not, Option, none,
  some, if◌then◌else◌, ltb, leb, ◌==◌, length, map, replicate, take, min, wrapping_product,
  product_from,
}
use package.lightarray.Prelude.Int.{ℤ, pos, negsuc, ◌+ℤ◌, ◌-ℤ◌, ◌*ℤ◌, pos_part, neg_part}
use package.lightarray.Outcome.{
  Result, ok, err, panic, index_out_of_bounds, ◌>>=◌, ◌>>◌, ensure, or_panic,
}
use package.lightarray.Dims
use package.lightarray.Dims.{Dims}
use package.lightarray.Array.{Element, Array, shape, ndim, filled, set_shape}
use package.lightarray.Array.Locate.{View, is_negative, get, index_view}
use package.lightarray.Array.Select.{
  Selector, int, AxisPlan, Selected, owned, window, selection_plan, plan_view,
}
use package.lightarray.Array.AnyArray.{from_bits}
use package.lightarray.Layout.{Layout, select, insert_axis, insert_at, reversed, is_c_contiguous}
use package.lightarray.Memory.{Memory, gather_from, scatter_to}

-- A strided view of the buffer of another object.
pub record Strided : Type 0 where
  pub base : ℕ
  pub ptr : ℤ
  pub strides : List ℤ

-- `inner` with the address and the base of its `Storage`. `inner` of a strided view is its cache.
pub record PyArray {ℓ} (A : Type ℓ) : Type ℓ where
  pub object : ℕ
  pub inner : Array A
  pub data_ptr : ℤ
  pub storage_base : Option ℕ
  pub strided : Option Strided

pub record Fresh : Type 0 where
  pub object : ℕ
  pub data_ptr : ℤ

-- The answer of `a[key]`.
pub data Answer {ℓ} (A : Type ℓ) : Type ℓ where
  element : A → Answer A
  array : PyArray A → Answer A

abbrev pub or_self : ℕ → Option ℕ → ℕ
or_self n none = n
or_self n (some base) = base

abbrev pub is_strided : Option Strided → Bool
is_strided none = false
is_strided (some s) = true

-- The loop of `strided_element_at`.
unfoldable pub element_loop : ℕ → ℤ → List ℕ → List ℤ → List ℤ → Result ℤ
element_loop axis ptr (len ∷ lens) (s ∷ strides) (i ∷ idx) =
    let k = if is_negative i then i +ℤ pos len else i in
    let rest = element_loop (suc axis) (ptr +ℤ k *ℤ s) lens strides idx in
    if is_negative k || leb len (pos_part k) then err (index_out_of_bounds i axis len) else rest
element_loop axis ptr _ _ _ = ok ptr

-- `overlaps` on two address ranges.
unfoldable pub overlaps : ℕ × ℕ → ℕ × ℕ → Bool
overlaps a b = ltb a.0 b.1 && ltb b.0 a.1

-- Division of an `isize`, which truncates.
abbrev pub quot : ℤ → ℕ → ℤ
quot (pos n) z = pos (n / z)
quot (negsuc n) z = pos 0 -ℤ pos (suc n / z)

-- `None` in an index: axes of length 1 in the shape of a window.
abbrev pub with_axes : List ℕ → List ℕ → List ℕ
with_axes s [] = s
with_axes s (at ∷ places) = with_axes (insert_at s (min at (length s)) 1) places

abbrev pub insert_axes : Layout → List ℕ → Result Layout
insert_axes l [] = ok l
insert_axes l (at ∷ places) = insert_axis l at >>= λ r. insert_axes r places

module _ {ℓ} {A : Type ℓ} where
  abbrev pub base_from : PyArray A → Option Strided → ℕ
  base_from a none = or_self a.object a.storage_base
  base_from a (some s) = s.base

  unfoldable pub base_of : PyArray A → ℕ
  base_of a = base_from a a.strided

  abbrev pub layout_from : PyArray A → Option Strided → Layout
  layout_from a none = record {
    ptr = a.data_ptr;
    shape = shape a.inner;
    strides = map from_bits (Dims.strides a.inner.dims);
  }
  layout_from a (some s) = record { ptr = s.ptr; shape = shape a.inner; strides = s.strides }

  unfoldable pub layout_of : PyArray A → Layout
  layout_of a = layout_from a a.strided

  -- `n` elements of `z` bytes, one after the other.
  abbrev pub elements : Memory A → ℤ → ℕ → ℕ → List A
  elements mem ptr z zero = []
  elements mem ptr z (suc n) = mem ptr ∷ elements mem (ptr +ℤ pos z) z n

  -- The cache of a strided view is loaded from memory.
  abbrev pub refresh_from : Memory A → PyArray A → Option Strided → Result (PyArray A)
  refresh_from mem a none = ok a
  refresh_from mem a (some s) = do
    buffer ← gather_from mem a.inner.buffer (shape a.inner) s.ptr s.strides
    let inner : Array A = record { buffer = buffer; dims = a.inner.dims }
    ok (record a { inner = inner })

  unfoldable pub arr : Memory A → PyArray A → Result (PyArray A)
  arr mem a = refresh_from mem a a.strided

  abbrev pub commit_to : Memory A → PyArray A → Option Strided → Result (Memory A)
  commit_to mem a none = ok mem
  commit_to mem a (some s) = scatter_to mem a.inner.buffer (shape a.inner) s.ptr s.strides

  unfoldable pub commit : Memory A → PyArray A → Result (Memory A)
  commit mem a = commit_to mem a a.strided

  abbrev pub element_at : PyArray A → List ℤ → Option Strided → Result (Option ℤ)
  element_at a idx none = ok none
  element_at a idx (some s) =
      let found = element_loop 0 s.ptr (shape a.inner) s.strides idx in
      if length idx == length (shape a.inner) then (found >>= λ p. ok (some p)) else ok none

  unfoldable pub strided_element : PyArray A → List ℤ → Result (Option ℤ)
  strided_element a idx = element_at a idx a.strided

module _ {ℓ} {A : Type ℓ} ⦃e : Element A⦄ where
  -- `PyArray::from_any` and `into_py`.
  abbrev pub own : Fresh → Array A → PyArray A
  own new inner = record {
    object = new.object;
    inner = inner;
    data_ptr = new.data_ptr;
    storage_base = none;
    strided = none;
  }

  -- `raw_view`: a window of memory under dims.
  abbrev pub raw_view : Memory A → Fresh → ℤ → Dims → ℕ → PyArray A
  raw_view mem new ptr dims base = record {
    object = new.object;
    inner = record { buffer = elements mem ptr e.size_of (Dims.size dims); dims = dims };
    data_ptr = ptr;
    storage_base = some base;
    strided = none;
  }

  abbrev pub zeros_like : List ℕ → Result (Array A)
  zeros_like s = filled s e.default

  abbrev pub strided_view : Fresh → ℕ → Layout → Array A → PyArray A
  strided_view new base l cache = record (own new cache) {
    strided = some (record { base = base; ptr = l.ptr; strides = l.strides });
  }

  unfoldable pub view_from_layout : Memory A → Fresh → PyArray A → Layout → Result (PyArray A)
  view_from_layout mem new slf l =
      if wrapping_product l.shape == 0
      then (zeros_like l.shape >>= λ a. ok (own new a))
      else if is_c_contiguous l e.size_of
      then (Dims.with_itemsize l.shape e.size_of >>= λ dims.
          ok (raw_view mem new l.ptr dims (base_of slf)))
      else (zeros_like l.shape >>= λ cache. ok (strided_view new (base_of slf) l cache))

  unfoldable pub transposed : Memory A → Fresh → PyArray A → Result (PyArray A)
  transposed mem new slf = view_from_layout mem new slf (reversed (layout_of slf))

  -- `Array::get` and, for fewer indices than axes, `index_view`.
  abbrev pub index_owned : Memory A → Fresh → PyArray A → List ℤ → Option A → Result (Answer A)
  index_owned mem new slf idx (some x) = ok (element x)
  index_owned mem new slf idx none = do
    w ← index_view slf.inner idx
    let ptr = slf.data_ptr +ℤ pos (w.offset * e.size_of)
    ok (array (raw_view mem new ptr w.dims (base_of slf)))

  abbrev pub index_part : Memory A → Fresh → PyArray A → List ℤ → Option Strided → Result (Answer A)
  index_part mem new slf idx none = get slf.inner idx >>= index_owned mem new slf idx
  index_part mem new slf idx (some s) = do
    (plan, out) ← selection_plan slf.inner (map int idx)
    part ← view_from_layout mem new slf (select (layout_of slf) plan (map int idx))
    ok (array part)

  -- An element of a strided view is read at its address.
  abbrev pub index_answer : Memory A → Fresh → PyArray A → List ℤ → Option ℤ → Result (Answer A)
  index_answer mem new slf idx (some p) = ok (element (mem p))
  index_answer mem new slf idx none = index_part mem new slf idx slf.strided

  unfoldable pub index_result : Memory A → Fresh → PyArray A → List ℤ → Result (Answer A)
  index_result mem new slf idx = strided_element slf idx >>= index_answer mem new slf idx

  -- `set_shape` on the selection, if there are axes to insert.
  abbrev pub reshaped : Array A → List ℕ → List ℕ → Result (Array A)
  reshaped a out [] = ok a
  reshaped a out (at ∷ places) = set_shape a (with_axes out (at ∷ places))

  abbrev pub select_strided :
      Memory A → Fresh → PyArray A → List Selector → List ℕ → List AxisPlan → Result (PyArray A)
  select_strided mem new slf sels places plan = do
    l ← insert_axes (select (layout_of slf) plan sels) places
    view_from_layout mem new slf l

  -- The views of an array that is not strided; `otherwise` is the strided way.
  abbrev pub select_owned :
      Memory A
      → Fresh
      → PyArray A
      → List ℕ
      → List ℕ
      → Result (PyArray A)
      → Option (Selected A)
      → Result (PyArray A)
  select_owned mem new slf out places otherwise none = otherwise
  select_owned mem new slf out places otherwise (some (owned a)) = do
    b ← reshaped a out places
    ok (own new b)
  select_owned mem new slf out places otherwise (some (window w)) = do
    let ptr = slf.data_ptr +ℤ pos (w.offset * e.size_of)
    let part = raw_view mem new ptr w.dims (base_of slf)
    b ← reshaped part.inner out places
    ok (record part { inner = b })

  unfoldable pub select_result :
      Memory A → Fresh → PyArray A → List Selector → List ℕ → Result (PyArray A)
  select_result mem new slf sels places = do
    (plan, out) ← selection_plan slf.inner sels
    let otherwise = select_strided mem new slf sels places plan
    if is_strided slf.strided
        then otherwise
        else plan_view slf.inner plan out >>= select_owned mem new slf out places otherwise

  -- Where DLPack finds the elements, with strides in elements.
  abbrev pub element_layout_from : PyArray A → Option Strided → ℤ × List ℤ
  element_layout_from a none =
      (a.data_ptr, map (λ n. from_bits (n / e.size_of)) (Dims.strides a.inner.dims))
  element_layout_from a (some s) = (s.ptr, map (λ n. quot n e.size_of) s.strides)

  unfoldable pub element_layout : PyArray A → ℤ × List ℤ
  element_layout a = element_layout_from a a.strided
