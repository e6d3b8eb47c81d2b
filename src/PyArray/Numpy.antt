-- ===== src/PyArray/Numpy.antt =====
-- `view_of_numpy` of src/python.rs: a view for a NumPy array that looks into the memory of an
-- array. `Buffer` is what the buffer protocol says of the NumPy array.
pub mod Multiples
pub mod Exact
pub mod Reach
pub mod Span
use package.lightarray.Prelude.{
  ℕ, zero, suc, ◌+◌, ◌*◌, ◌%◌, List, [], ◌∷◌, Bool, true, false, ◌&&◌, ◌||◌, not, Option, none,
  some, if◌then◌else◌, ltb, ◌==◌, length, wrapping_product,
}
use package.lightarray.Prelude.Int.{ℤ, pos, negsuc, ◌+ℤ◌, ◌-ℤ◌, ◌*ℤ◌, ltb_ℤ, pos_part, neg_part}
use package.lightarray.Outcome.{Result, ok, ◌>>=◌}
use package.lightarray.Dims.{max_ndim}
use package.lightarray.Array.{Element, size}
use package.lightarray.Array.Broadcast.{eq_list}
use package.lightarray.Array.AnyArray.{bits, from_bits}
use package.lightarray.Layout.{Layout}
use package.lightarray.Memory.{Memory}
use package.lightarray.PyArray.{PyArray, Fresh, view_from_layout}

-- A format is the bytes of its string.
pub record Buffer : Type 0 where
  pub readonly : Bool
  pub item_size : ℕ
  pub format : List ℕ
  pub buf_ptr : ℤ
  pub dimensions : List ℕ
  pub buf_strides : List ℤ

-- `x % z == 0`
abbrev pub is_multiple : ℕ → ℤ → Bool
is_multiple z (pos n) = n % z == 0
is_multiple z (negsuc n) = suc n % z == 0

-- The value of an `isize` operation, which wraps around at 2^64.
abbrev pub wrapped : ℤ → ℤ
wrapped x = from_bits (bits x)

-- The loop over the axes: the lowest and the highest address, unless a stride is not aligned.
unfoldable pub reach_loop : ℕ → ℤ → ℤ → List ℕ → List ℤ → Option (ℤ × ℤ)
reach_loop z lo hi (d ∷ shape) (s ∷ strides) =
    let reach = wrapped ((pos d -ℤ pos 1) *ℤ s) in
    let below = reach_loop z (wrapped (lo +ℤ reach)) hi shape strides in
    let above = reach_loop z lo (wrapped (hi +ℤ reach)) shape strides in
    if not (is_multiple z s) then none else if ltb_ℤ reach (pos 0) then below else above
reach_loop z lo hi _ _ = some (lo, hi)

abbrev pub buffer_layout : Buffer → Layout
buffer_layout raw = record { ptr = raw.buf_ptr; shape = raw.dimensions; strides = raw.buf_strides }

-- The test of the span, which ends `n` bytes after `start`.
abbrev pub inside_span : ℕ → ℤ → ℕ → Option (ℤ × ℤ) → Bool
inside_span z start n none = false
inside_span z start n (some (lo, hi)) = not (
    ltb_ℤ lo start
    || ltb_ℤ (start +ℤ pos n) (wrapped (hi +ℤ pos z))
    || not (is_multiple z (wrapped (lo -ℤ start))))

-- The early returns before the loop.
abbrev pub is_readable : ℕ → List ℕ → Buffer → Bool
is_readable itemsize format raw =
    not (
      raw.readonly
      || not (raw.item_size == itemsize)
      || not (eq_list raw.format format)
      || ltb max_ndim (length raw.dimensions))
    && not (wrapping_product raw.dimensions == 0)

module _ {ℓ} {A : Type ℓ} ⦃e : Element A⦄ where
  -- `owner` owns the memory of the array whose view this is, and `format` is that of its dtype.
  abbrev pub view_of_buffer :
      Memory A → Fresh → List ℕ → PyArray A → Option Buffer → Result (Option (PyArray A))
  view_of_buffer mem new format owner none = ok none
  view_of_buffer mem new format owner (some raw) =
      let span = reach_loop e.size_of raw.buf_ptr raw.buf_ptr raw.dimensions raw.buf_strides in
      let fits = inside_span e.size_of owner.data_ptr (size owner.inner * e.size_of) span in
      let view = view_from_layout mem new owner (buffer_layout raw) >>= λ v. ok (some v) in
      if is_readable e.size_of format raw && fits then view else ok none

  unfoldable pub view_of_numpy :
      Memory A → Fresh → List ℕ → PyArray A → Option Buffer → Result (Option (PyArray A))
  unfolding reach_loop
  view_of_numpy mem new format owner raw = view_of_buffer mem new format owner raw
