-- ===== src/Array/Locate.antt =====
-- Integer indexing in src/array.rs: `normalize_index`, `locate`, `index`, `get`, `set`, and the
-- views of a sub-array. An offset sum is written without its wrap: it stays below the length of
-- the buffer.
pub mod Order
pub mod Access
pub mod Update
pub mod Window
use package.lightarray.Prelude.{ℕ, suc, ◌+◌, ◌*◌, ◌/◌, List, [], ◌∷◌, if◌then◌else◌, ◌||◌, leb, ltb}
use package.lightarray.Prelude.{
  Bool, not, true, false, Option, none, some, length, get_elem?, take, drop,
}
use package.lightarray.Prelude.{set as set_elem, ◌==◌}
use package.lightarray.Prelude.Int.{ℤ, pos, negsuc, ◌+ℤ◌, pos_part, neg_part}
use package.lightarray.Outcome.{
  Result, ok, err, panic, message, set_with_sequence, index_out_of_bounds, too_many_indices,
  size_mismatch, ◌>>=◌, ◌>>◌, ensure, or_panic, slice,
}
use package.lightarray.Dims
use package.lightarray.Dims.{Dims}
use package.lightarray.Array.{Element, Array, shape, ndim, size}

abbrev pub is_negative : ℤ → Bool
is_negative (pos n) = false
is_negative (negsuc n) = true

-- A view: `Storage` with a base. The window starts `offset` elements into the base's buffer.
pub record View : Type 0 where
  pub offset : ℕ
  pub dims : Dims

module _ {ℓ} {A : Type ℓ} where
  unfoldable pub normalize_index : Array A → ℤ → ℕ → Result ℕ
  normalize_index a index axis = do
    len ← or_panic (get_elem? (shape a) axis)
    let i = if is_negative index then index +ℤ pos len else index
    ensure (not (is_negative i || leb len (pos_part i))) (index_out_of_bounds index axis len)
    ok (pos_part i)

  -- `Storage::deref`: the elements of a view, in the buffer of its base.
  unfoldable pub deref : View → List A → List A
  deref w buffer = take (Dims.size w.dims) (drop w.offset buffer)

  -- A write through `Storage::deref_mut`, at the `k`th element of the view.
  unfoldable pub deref_mut_set : View → List A → ℕ → A → List A
  deref_mut_set w buffer k x = set_elem buffer (w.offset + k) x

  -- `view`, with its `assert!`.
  unfoldable pub view : Array A → ℕ → Dims → Result View
  view a offset dims =
      if leb (offset + Dims.size dims) (length a.buffer)
      then ok (record { offset = offset; dims = dims })
      else panic

module _ {ℓ} {A : Type ℓ} ⦃e : Element A⦄ where
  locate_loop : Array A → ℕ → ℕ → List ℤ → Result ℕ
  unfolding normalize_index
  locate_loop a axis offset [] = ok offset
  locate_loop a axis offset (idx ∷ rest) = do
    i ← normalize_index a idx axis
    stride ← or_panic (get_elem? (Dims.strides a.dims) axis)
    locate_loop a (suc axis) (offset + i * (stride / e.size_of)) rest

  unfoldable pub locate : Array A → List ℤ → Result (ℕ × Dims)
  unfolding locate_loop
  locate a indices = do
    ensure (leb (length indices) (ndim a)) (too_many_indices (length indices) (ndim a))
    offset ← locate_loop a 0 0 indices
    dims ← Dims.drop_leading a.dims (length indices)
    let found : ℕ × Dims = (offset, dims)
    ok found

  unfoldable pub index : Array A → List ℤ → Result (Array A)
  index a indices = do
    (offset, dims) ← locate a indices
    part ← slice a.buffer offset (Dims.size dims)
    ok (record { buffer = part; dims = dims })

  unfoldable pub get : Array A → List ℤ → Result (Option A)
  get a indices = do
    (offset, dims) ← locate a indices
    if dims.ndim == 0 then or_panic (get_elem? a.buffer offset) >>= (λ x. ok (some x)) else ok none

  -- The state of `&mut self` after the call is the result.
  unfoldable pub set : Array A → List ℤ → A → Result (Array A)
  set a indices value = do
    (offset, dims) ← locate a indices
    ensure (dims.ndim == 0) (message (set_with_sequence (length indices) (ndim a)))
    if ltb offset (length a.buffer)
        then ok (record a { buffer = set_elem a.buffer offset value })
        else panic

  unfoldable pub index_view : Array A → List ℤ → Result View
  unfolding view
  index_view a indices = do (offset, dims) ← locate a indices; view a offset dims

  unfoldable pub reshape_view : Array A → List ℕ → Result View
  unfolding view
  reshape_view a s = do
    dims ← Dims.with_itemsize s e.size_of
    ensure (Dims.size dims == size a) (size_mismatch (Dims.size dims) (size a))
    view a 0 dims
