-- ===== src/PyArray/Keys.antt =====
-- `__getitem__` of src/python.rs: what a key selects.
pub mod Tuples
pub mod Views
mod Tests
use package.lightarray.Prelude.{
  ℕ, suc, ◌+◌, List, [], ◌∷◌, Bool, true, false, Option, none, some, if◌then◌else◌, ◌==◌, length,
  get_elem?,
}
use package.lightarray.Prelude.Int.{ℤ}
use package.lightarray.Outcome.{Result, ok, err, panic, ◌>>=◌, or_panic}
use package.lightarray.Array.{Element, Array, shape}
use package.lightarray.Array.Broadcast.{eq_list}
use package.lightarray.Array.Select.{Selector, int, slice}
use package.lightarray.Array.Reorder.{take_leading, compress_flat}
use package.lightarray.Memory.{Memory}
use package.lightarray.PyArray.{
  PyArray, Fresh, Answer, array, arr, own, index_result, select_result,
}

-- What `__getitem__` and `__setitem__` ask of an item of a key: the value of an integer, which an
-- isize holds, or what `slice.indices` gives for a length.
pub data Item : Type 0 where
  new_axis : Item
  integer : ℤ → Item
  slice_item : (ℕ → Option (ℤ × ℤ × ℤ)) → Item
  other_item : Item

-- An int64 array of one axis is an `index_array`; a `mask` is what `bool_mask` gives. The others
-- have what `__index__` gives, if anything.
pub data Key : Type 0 where
  item : Item → Key
  tuple : List Item → Key
  ellipsis : Key
  listed : List Item → Key
  index_array : List ℤ → Key
  mask : List Bool → List ℕ → Option ℤ → Key
  other_key : Option ℤ → Key

abbrev pub prepend_to : Option (List ℤ) → ℤ → Option (List ℤ)
prepend_to none i = none
prepend_to (some idx) i = some (i ∷ idx)

-- `tuple.extract()`, if all items are integers.
abbrev pub all_integers : List Item → Option (List ℤ)
all_integers [] = some []
all_integers (integer i ∷ items) = prepend_to (all_integers items) i
all_integers _ = none

-- The texts of its `PyIndexError`, and the error of `slice.indices`.
pub data KeyError : Type 0 where
  too_many_for_array zero_dimensional bad_slice : KeyError

-- The loop over a tuple: `ints`, `sels`, `new_axes` and `all_ints` at the end, or an early return.
pub data Parsed : Type 0 where
  parsed : List ℤ → List Selector → List ℕ → Bool → Parsed
  refused : KeyError → Parsed
  unknown : Parsed

pub data Fetched {ℓ} (A : Type ℓ) : Type ℓ where
  fetched : Answer A → Fetched A
  raised : KeyError → Fetched A
  numpy : Fetched A

abbrev pub push_axis : ℕ → Parsed → Parsed
push_axis at (parsed ints sels places all) = parsed ints sels (at ∷ places) false
push_axis at p = p

abbrev pub push_integer : ℤ → Parsed → Parsed
push_integer i (parsed ints sels places all) = parsed (i ∷ ints) (int i ∷ sels) places all
push_integer i p = p

abbrev pub push_slice : Option (ℤ × ℤ × ℤ) → Parsed → Parsed
push_slice (some (start, stop, step)) (parsed ints sels places all) =
    parsed ints (slice start stop step ∷ sels) places false
push_slice (some s) p = p
push_slice none p = refused bad_slice

-- `slice_selector` on the length of the axis, if there is one.
abbrev pub push_axis_slice : (ℕ → Option (ℤ × ℤ × ℤ)) → Option ℕ → Parsed → Parsed
push_axis_slice f none p = refused too_many_for_array
push_axis_slice f (some len) p = push_slice (f len) p

unfoldable pub tuple_loop : List ℕ → ℕ → ℕ → List Item → Parsed
tuple_loop s axis out_axis [] = parsed [] [] [] true
tuple_loop s axis out_axis (new_axis ∷ items) =
    push_axis out_axis (tuple_loop s axis (out_axis + 1) items)
tuple_loop s axis out_axis (integer i ∷ items) =
    push_integer i (tuple_loop s (axis + 1) out_axis items)
tuple_loop s axis out_axis (slice_item f ∷ items) =
    push_axis_slice f (get_elem? s axis) (tuple_loop s (axis + 1) (out_axis + 1) items)
tuple_loop s axis out_axis (other_item ∷ items) = unknown

module _ {ℓ} {A : Type ℓ} ⦃e : Element A⦄ (mem : Memory A) (new : Fresh) (slf : PyArray A) where
  abbrev pub by_index : List ℤ → Result (Fetched A)
  by_index idx = index_result mem new slf idx >>= λ r. ok (fetched r)

  abbrev pub by_selectors : List Selector → List ℕ → Result (Fetched A)
  by_selectors sels places = select_result mem new slf sels places >>= λ r. ok (fetched (array r))

  abbrev pub by_copy : (Array A → Result (Array A)) → Result (Fetched A)
  by_copy f = do a ← arr mem slf; b ← f a.inner; ok (fetched (array (own new b)))

  abbrev pub by_slice : Option (ℤ × ℤ × ℤ) → Result (Fetched A)
  by_slice none = ok (raised bad_slice)
  by_slice (some (start, stop, step)) = by_selectors (slice start stop step ∷ []) []

  abbrev pub by_tuple : Parsed → Result (Fetched A)
  by_tuple (parsed ints sels places true) = by_index ints
  by_tuple (parsed ints sels places false) = by_selectors sels places
  by_tuple (refused why) = ok (raised why)
  by_tuple unknown = ok numpy

  abbrev pub by_rows : Option (List ℤ) → Result (Fetched A)
  by_rows none = ok numpy
  by_rows (some idx) = by_copy (λ a. take_leading a idx)

  abbrev pub by_number : Option ℤ → Result (Fetched A)
  by_number none = ok numpy
  by_number (some i) = by_index (i ∷ [])

  unfoldable pub get_item : Key → Result (Fetched A)
  unfolding tuple_loop
  get_item (item (integer i)) = by_index (i ∷ [])
  get_item (item (slice_item f)) =
      let first = or_panic (get_elem? (shape slf.inner) 0) >>= λ len. by_slice (f len) in
      if length (shape slf.inner) == 0 then ok (raised zero_dimensional) else first
  get_item (tuple items) = by_tuple (tuple_loop (shape slf.inner) 0 0 items)
  get_item (item new_axis) = by_selectors [] (0 ∷ [])
  get_item ellipsis = by_selectors [] []
  get_item (listed items) = by_rows (all_integers items)
  get_item (index_array idx) = by_rows (some idx)
  get_item (mask bits s index) =
      if eq_list s (shape slf.inner) then by_copy (λ a. compress_flat a bits) else by_number index
  get_item (other_key index) = by_number index
  get_item (item other_item) = ok numpy
