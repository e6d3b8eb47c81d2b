-- ===== src/Dims.antt =====
-- src/dims.rs: inline shape and strides. The fixed arrays of `MAX_NDIM` entries are lists padded
-- with zeros; a stride, an `isize` in bytes, is its bit pattern below 2^64.
pub mod Strides
mod Tests
use lightarray.Prelude.{ℕ, ◌+◌, ◌-◌, ◌*◌, ◌/◌, ◌%◌, List, [], ◌∷◌, ◌++◌, if◌then◌else◌}
use lightarray.Prelude.{ltb, ◌==◌, length, take, drop, replicate, get_elem?}
use lightarray.Prelude.{wrapping_mul, wrapping_product}
use lightarray.Outcome.{Result, ok, err, panic, too_many_dims, dims_error, ◌>>=◌, or_panic, expect}

abbrev pub max_ndim : ℕ
max_ndim = 8

-- The size of a float64 or int64 element.
abbrev pub item_size : ℕ
item_size = 8

pub record Dims : Type 0 where
  pub ndim : ℕ
  pub itemsize : ℕ
  pub shape_slots : List ℕ
  pub stride_slots : List ℕ

-- The first entries of `[0; MAX_NDIM]` overwritten.
abbrev pub padded : List ℕ → List ℕ
padded xs = xs ++ replicate (max_ndim - length xs) 0

-- The loop over the axes from the last to the first: the strides it stores, and its `stride` at
-- the end.
unfoldable pub stride_loop : ℕ → List ℕ → List ℕ × ℕ
stride_loop stride [] = ([], stride)
stride_loop stride (d ∷ ds) =
    let (inner, s) = stride_loop stride ds in (s ∷ inner, wrapping_mul s d)

unfoldable pub with_itemsize : List ℕ → ℕ → Result Dims
unfolding stride_loop
with_itemsize shape itemsize =
    if ltb max_ndim (length shape)
    then err (dims_error (too_many_dims (length shape)))
    else ok (record {
      ndim = length shape;
      itemsize = itemsize % 256;
      shape_slots = padded shape;
      stride_slots = padded (stride_loop itemsize shape).0;
    })

unfoldable pub from_shape : List ℕ → Result Dims
unfolding with_itemsize
from_shape shape = with_itemsize shape item_size

unfoldable pub scalar_with : ℕ → Dims
scalar_with itemsize = record {
  ndim = 0;
  itemsize = itemsize % 256;
  shape_slots = replicate max_ndim 0;
  stride_slots = replicate max_ndim 0;
}

unfoldable pub scalar : Dims
unfolding scalar_with
scalar = scalar_with item_size

unfoldable pub shape : Dims → List ℕ
shape d = take d.ndim d.shape_slots

unfoldable pub strides : Dims → List ℕ
strides d = take d.ndim d.stride_slots

unfoldable pub elem_stride : Dims → ℕ → Result ℕ
elem_stride d axis = do
  s ← or_panic (get_elem? d.stride_slots axis)
  if d.itemsize == 0 then panic else ok (s / d.itemsize)

unfoldable pub size : Dims → ℕ
unfolding shape
size d = wrapping_product (shape d)

unfoldable pub retyped : Dims → ℕ → Result Dims
unfolding with_itemsize shape
retyped d itemsize = expect (with_itemsize (shape d) itemsize)

-- A slice `[n..]` past the end panics.
unfoldable pub drop_leading : Dims → ℕ → Result Dims
unfolding with_itemsize shape
drop_leading d n =
    if ltb (length (shape d)) n then panic else expect (with_itemsize (drop n (shape d)) d.itemsize)
