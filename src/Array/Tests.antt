-- ===== src/Array/Tests.antt =====
-- Runs on a 2 × 3 array of numbers, after the tests of src/array.rs, and the theorems at it.
use lightarray.Prelude.{ℕ, ◌≡◌, ◌≢◌, refl, arith, List, [], ◌∷◌, Option, some, none, length}
use lightarray.Prelude.{get_elem?}
use lightarray.Prelude.Int.{ℤ, pos, negsuc, ◌+ℤ◌}
use lightarray.Outcome.{ok, err, ◌>>=◌, IsSafe, index_out_of_bounds}
use lightarray.Dims
use lightarray.Dims.{with_itemsize, strides}
use lightarray.Dims.Strides.{c_dims}
use lightarray.Array.{Element, Array, new, reshape}
use lightarray.Array.Valid.{HasShape, reshape-reshape}
use lightarray.Array.Locate.{
  View, locate, normalize_index, index, get, set, index_view, reshape_view,
}
use lightarray.Array.Locate.Order.{resolve, flat, Inside}
use lightarray.Array.Locate.Access.{place, locate_lem}
use lightarray.Array.Locate.Update.{index-reads, get-set, access-IsSafe}
use lightarray.Array.Locate.Window.{Shares, index_view-Shares, reshape_view-Shares}
use lightarray.Array.Select.{
  Selector, int, slice, AxisPlan, selection_plan, plan_loop, slice_count, gather, gather_plan,
  elem_strides, select, select_view, Selected,
}
use lightarray.Array.Select.Gather.{Reads}
use lightarray.Array.Select.Plan.{inside, forwards, backwards}
use lightarray.Array.Select.Whole.{AreResolved, PlanFor, selection_plan-PlanFor}
use lightarray.Array.Select.Contiguous.{Agrees, select-Reads, select_view-Agrees}

instance abbrev pub nat_element : Element ℕ
nat_element = record {
  size_of = 8;
  default = 0;
  size_of_pos = omega arith;
  size_of_small = omega arith;
}

abbrev pub grid : Array ℕ
grid = record { buffer = 10 ∷ 11 ∷ 12 ∷ 13 ∷ 14 ∷ 15 ∷ []; dims = c_dims (2 ∷ 3 ∷ []) 8 }

pub grid-HasShape : HasShape (2 ∷ 3 ∷ []) grid
grid-HasShape = record { short = omega arith; fits = omega arith; dims = refl; full = refl }

-- grid[1, -2] and grid[-1]
last_row : (get grid (pos 1 ∷ negsuc 1 ∷ []) ≡ ok (some 14)) × (get grid (negsuc 0 ∷ []) ≡ ok none)
unfolding get locate normalize_index ◌+ℤ◌ Dims.strides Dims.shape Dims.drop_leading
last_row = (refl, refl)

outside_axis : get grid (pos 2 ∷ pos 0 ∷ []) ≡ err (index_out_of_bounds (pos 2) 0 2)
unfolding get locate normalize_index ◌+ℤ◌ Dims.strides Dims.shape Dims.drop_leading
outside_axis = refl

-- grid[:, ::-2]
abbrev columns : List Selector
columns = slice (pos 0) (pos 2) (pos 1) ∷ slice (pos 2) (negsuc 0) (negsuc 1) ∷ []

columns-AreResolved : AreResolved (2 ∷ 3 ∷ []) columns
columns-AreResolved = (forwards 0 2 0 (omega arith), (backwards 2 0 1 (omega arith), tt))

columns_selected : (select grid columns >>= λ b. ok b.buffer) ≡ ok (12 ∷ 10 ∷ 15 ∷ 13 ∷ [])
unfolding select gather_plan selection_plan plan_loop slice_count gather elem_strides new
    Dims.strides Dims.shape Dims.with_itemsize Dims.size ◌+ℤ◌
columns_selected = refl

-- grid[1, 1:3]
abbrev part_of_row : List Selector
part_of_row = int (pos 1) ∷ slice (pos 1) (pos 3) (pos 1) ∷ []

part_of_row-AreResolved : AreResolved (2 ∷ 3 ∷ []) part_of_row
part_of_row-AreResolved = (inside (pos 1) 1 refl, (forwards 1 3 0 (omega arith), tt))

reshape-reshape_example :
    (b : Array ℕ) × (reshape grid (6 ∷ []) ≡ ok b)
    × HasShape (6 ∷ []) b
    × (reshape b (2 ∷ 3 ∷ []) ≡ ok grid)
reshape-reshape_example =
    reshape-reshape grid (2 ∷ 3 ∷ []) (6 ∷ []) grid-HasShape (omega arith) (omega arith) refl

locate_lem_example : locate grid (pos 1 ∷ []) ≡ ok (place 8 (2 ∷ 3 ∷ []) (1 ∷ []))
locate_lem_example = locate_lem grid-HasShape (pos 1 ∷ [])

index-reads_example :
    (b : Array ℕ) × (index grid (negsuc 0 ∷ []) ≡ ok b)
    × HasShape (3 ∷ []) b
    × ((js : List ℕ)
        → Inside (3 ∷ []) js
        → length js ≡ 1
        → get_elem? b.buffer (flat (3 ∷ []) js)
          ≡ get_elem? grid.buffer (flat (2 ∷ 3 ∷ []) (1 ∷ js)))
index-reads_example = index-reads grid-HasShape (negsuc 0 ∷ []) (1 ∷ []) (omega arith) refl

get-set_example :
    (b : Array ℕ) × (set grid (pos 1 ∷ negsuc 0 ∷ []) 50 ≡ ok b)
    × HasShape (2 ∷ 3 ∷ []) b
    × (get b (pos 1 ∷ negsuc 0 ∷ []) ≡ ok (some 50))
    × ((ys : List ℤ) (js : List ℕ)
        → length ys ≡ 2
        → resolve 0 (2 ∷ 3 ∷ []) ys ≡ ok js
        → (1 ∷ 2 ∷ []) ≢ js
        → get b ys ≡ get grid ys)
get-set_example = get-set grid-HasShape (pos 1 ∷ negsuc 0 ∷ []) (1 ∷ 2 ∷ []) 50 refl refl

access-IsSafe_example :
    IsSafe (index grid (pos 7 ∷ []))
    × IsSafe (get grid (pos 7 ∷ []))
    × IsSafe (set grid (pos 7 ∷ []) 1)
access-IsSafe_example = access-IsSafe grid-HasShape (pos 7 ∷ []) 1

index_view-Shares_example :
    (w : View) × (b : Array ℕ) × (index_view grid (pos 1 ∷ []) ≡ ok w)
    × (index grid (pos 1 ∷ []) ≡ ok b)
    × Shares grid b w
index_view-Shares_example = index_view-Shares grid-HasShape (pos 1 ∷ []) (1 ∷ []) (omega arith) refl

reshape_view-Shares_example :
    (w : View) × (b : Array ℕ) × (reshape_view grid (3 ∷ 2 ∷ []) ≡ ok w)
    × (reshape grid (3 ∷ 2 ∷ []) ≡ ok b)
    × HasShape (3 ∷ 2 ∷ []) b
    × Shares grid b w
reshape_view-Shares_example =
    reshape_view-Shares grid-HasShape (3 ∷ 2 ∷ []) (omega arith) (omega arith) refl

selection_plan-PlanFor_example :
    (plan : List AxisPlan) × (out : List ℕ) × (selection_plan grid columns ≡ ok (plan, out))
    × PlanFor (2 ∷ 3 ∷ []) columns plan out
selection_plan-PlanFor_example = selection_plan-PlanFor grid-HasShape columns columns-AreResolved

select-Reads_example :
    (plan : List AxisPlan) × (out : List ℕ) × (b : Array ℕ) × PlanFor (2 ∷ 3 ∷ []) columns plan out
    × (select grid columns ≡ ok b)
    × HasShape out b
    × Reads grid.buffer 0 (2 ∷ 3 ∷ []) plan b.buffer
select-Reads_example = select-Reads grid-HasShape columns columns-AreResolved (omega arith)

select_view-Agrees_example :
    (b : Array ℕ) × (r : Option (Selected ℕ)) × (select grid part_of_row ≡ ok b)
    × (select_view grid part_of_row ≡ ok r)
    × Agrees grid b r
select_view-Agrees_example =
    select_view-Agrees grid-HasShape part_of_row part_of_row-AreResolved (omega arith)
