-- ===== src/PyArray/Keys/Tests.antt =====
-- Runs of `__getitem__` of src/python.rs, and the theorem at them.
use lightarray.Prelude.{ℕ, ◌≡◌, refl, arith, List, [], ◌∷◌, Option, some, none, false}
use lightarray.Prelude.Int.{ℤ, pos, negsuc}
use lightarray.Outcome.{ok}
use lightarray.Dims
use lightarray.Array.AnyArray.{int_element}
use lightarray.Array.Select.{int, slice}
use lightarray.PyArray.Tests.{grid, addresses, fresh, grid-HasShape, grid_axes}
use lightarray.PyArray.Keys.{
  Item, new_axis, integer, slice_item, tuple, other_key, parsed, too_many_for_array, tuple_loop,
  raised, fetched, numpy, get_item,
}
use lightarray.PyArray.Keys.Tuples.{outputs}
use lightarray.PyArray.Keys.Views.{interleaved, get_item-Shares}
use lightarray.PyArray.Inserted.{remove_axes}
use lightarray.PyArray.Sharing.{Shares}
use lightarray.Layout.Address.{source}
use lightarray.PyArray.{PyArray, array}
use lightarray.Array.Select.{AxisPlan, slice_count}
use lightarray.Array.Select.Plan.{forwards, inside}
use lightarray.Array.Select.Whole.{PlanFor}

-- `:`
abbrev whole : ℕ → Option (ℤ × ℤ × ℤ)
whole len = some (pos 0, pos len, pos 1)

-- `[None, :, None, -1]`
abbrev items : List Item
items = new_axis ∷ slice_item whole ∷ new_axis ∷ integer (negsuc 0) ∷ []

in_turn :
    tuple_loop (2 ∷ 3 ∷ []) 0 0 items
    ≡ parsed
        (negsuc 0 ∷ [])
        (slice (pos 0) (pos 2) (pos 1) ∷ int (negsuc 0) ∷ [])
        (0 ∷ 2 ∷ [])
        false
unfolding tuple_loop
in_turn = refl

third_slice :
    get_item addresses fresh grid
      (tuple (integer (pos 0) ∷ integer (pos 0) ∷ slice_item whole ∷ []))
    ≡ ok (raised too_many_for_array)
unfolding get_item Dims.shape
third_slice = refl

a_word : get_item addresses fresh grid (other_key none) ≡ ok numpy
unfolding get_item
a_word = refl

get_item-Shares_example :
    (plan : List AxisPlan) × (out : List ℕ) × (r : PyArray ℤ) × PlanFor
      (2 ∷ 3 ∷ [])
      (slice (pos 0) (pos 2) (pos 1) ∷ int (negsuc 0) ∷ [])
      plan
      out
    × (get_item addresses fresh grid (tuple items) ≡ ok (fetched (array r)))
    × Shares addresses grid
        (2 ∷ 3 ∷ [])
        (λ ks.
          source
            (slice (pos 0) (pos 2) (pos 1) ∷ int (negsuc 0) ∷ [])
            plan
            (remove_axes out (0 ∷ 2 ∷ []) ks))
        (interleaved (outputs items) out)
        r
get_item-Shares_example =
    get_item-Shares addresses fresh grid (2 ∷ 3 ∷ []) items
      (slice (pos 0) (pos 2) (pos 1) ∷ int (negsuc 0) ∷ []) grid-HasShape grid_axes (omega arith)
      ((2, refl, refl), (refl, tt)) (forwards 0 2 0 (omega arith), (inside (negsuc 0) 2 refl, tt))
      refl (omega arith)

-- `a[-10:2:-1]` on an axis of length 5
empty_backwards : slice_count (negsuc 0) (pos 2) (negsuc 0) ≡ ok 0
unfolding slice_count
empty_backwards = refl
