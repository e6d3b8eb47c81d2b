-- ===== src/PyArray/Keys/Views.antt =====
-- The views that a tuple of integers, slices and `None` gives in `__getitem__` of src/python.rs.
use lightarray.Prelude.{
  ℕ, suc, ◌+◌, ◌<◌, ◌≤◌, ◌≡◌, refl, sym, ap, ◌∙◌, arith, List, [], ◌∷◌, ◌++◌, false, length, min,
  product,
}
use lightarray.Outcome.{ok}
use lightarray.Dims.{max_ndim}
use lightarray.Array.{Element, shape}
use lightarray.Array.Valid.{HasShape, shape-HasShape}
use lightarray.Array.Select.{Selector, int, slice, AxisPlan}
use lightarray.Array.Select.Whole.{
  AreResolved, PlanFor, dropped, sliced, selection_plan-PlanFor, PlanFor-IsSmaller,
}
use lightarray.Layout.{insert_at}
use lightarray.Layout.Address.{source}
use lightarray.Memory.{Memory}
use lightarray.PyArray.{PyArray, Fresh, array, layout_of, with_axes}
use lightarray.PyArray.Inserted.{remove_axes}
use lightarray.PyArray.Planned.{select_planned-Shares}
use lightarray.PyArray.Sharing.{Shares}
use lightarray.PyArray.Keys.{
  Item, new_axis, integer, slice_item, other_item, tuple, fetched, get_item,
}
use lightarray.PyArray.Keys.Tuples.{
  are_integers, sources, outputs, places_of_new, AreSelectorsOf, get_item-run,
}

-- The lengths of the result: 1 where `None` stands among the items that give an axis, and the lengths
-- of the other axes in turn.
abbrev pub interleaved : List Item → List ℕ → List ℕ
interleaved [] s = s
interleaved (new_axis ∷ items) s = 1 ∷ interleaved items s
interleaved (_ ∷ items) [] = interleaved items []
interleaved (_ ∷ items) (d ∷ s) = d ∷ interleaved items s

abbrev kept : List Item → ℕ
kept [] = 0
kept (new_axis ∷ items) = kept items
kept (_ ∷ items) = suc (kept items)

insert_at-end :
    (before s : List ℕ) (x : ℕ) → insert_at (before ++ s) (length before) x ≡ before ++ (x ∷ s)
insert_at-end [] s x = refl
insert_at-end (b ∷ before) s x = ap (λ t. b ∷ t) (insert_at-end before s x)

move_first : (before : List ℕ) (x : ℕ) (s : List ℕ) → before ++ (x ∷ s) ≡ (before ++ (x ∷ [])) ++ s
move_first [] x s = refl
move_first (b ∷ before) x s = ap (λ t. b ∷ t) (move_first before x s)

length-before : (before : List ℕ) (x : ℕ) → length (before ++ (x ∷ [])) ≡ length before + 1
length-before [] x = refl
length-before (b ∷ before) x = omega (arith, length-before before x)

length-le : (before s : List ℕ) → length before ≤ length (before ++ s)
length-le [] s = omega arith
length-le (b ∷ before) s = omega (arith, length-le before s)

-- A length that is kept moves to those before the rest.
next_axis :
    (items : List Item) (before : List ℕ) (d : ℕ) (s : List ℕ)
    → with_axes ((before ++ (d ∷ [])) ++ s) (places_of_new (length (before ++ (d ∷ []))) items)
      ≡ (before ++ (d ∷ [])) ++ interleaved items s
    → with_axes (before ++ (d ∷ s)) (places_of_new (length before + 1) items)
      ≡ before ++ (d ∷ interleaved items s)
next_axis items before d s rest =
    ap (λ t. with_axes t (places_of_new (length before + 1) items)) (move_first before d s)
    ∙ ap (λ n. with_axes ((before ++ (d ∷ [])) ++ s) (places_of_new n items))
        (sym (length-before before d))
    ∙ rest
    ∙ sym (move_first before d (interleaved items s))

-- The code inserts the axes one after the other, from the left.
with_axes-interleaved :
    (items : List Item) (before s : List ℕ)
    → kept items ≤ length s
    → with_axes (before ++ s) (places_of_new (length before) items) ≡ before ++ interleaved items s
with_axes-interleaved [] before s h = refl
with_axes-interleaved (new_axis ∷ items) before s h =
    let first : min (length before) (length (before ++ s)) ≡ length before =
      omega (arith, length-le before s) in
    ap (λ n. with_axes (insert_at (before ++ s) n 1) (places_of_new (length before + 1) items))
      first
    ∙ ap (λ t. with_axes t (places_of_new (length before + 1) items))
        (insert_at-end before s 1 ∙ move_first before 1 s)
    ∙ ap (λ n. with_axes ((before ++ (1 ∷ [])) ++ s) (places_of_new n items))
        (sym (length-before before 1))
    ∙ with_axes-interleaved items (before ++ (1 ∷ [])) s h
    ∙ sym (move_first before 1 (interleaved items s))
with_axes-interleaved (integer i ∷ items) before [] h = absurd (omega arith)
with_axes-interleaved (integer i ∷ items) before (d ∷ s) h =
    next_axis items before d s (with_axes-interleaved items (before ++ (d ∷ [])) s (omega arith))
with_axes-interleaved (slice_item f ∷ items) before [] h = absurd (omega arith)
with_axes-interleaved (slice_item f ∷ items) before (d ∷ s) h =
    next_axis items before d s (with_axes-interleaved items (before ++ (d ∷ [])) s (omega arith))
with_axes-interleaved (other_item ∷ items) before [] h = absurd (omega arith)
with_axes-interleaved (other_item ∷ items) before (d ∷ s) h =
    next_axis items before d s (with_axes-interleaved items (before ++ (d ∷ [])) s (omega arith))

-- The selection has an axis for each slice.
kept-le :
    (t s : List ℕ) (axis : ℕ) (items : List Item) (sels : List Selector) (plan : List AxisPlan)
    (out : List ℕ)
    → AreSelectorsOf t axis (sources items) sels
    → PlanFor s sels plan out
    → kept (outputs items) ≤ length out
kept-le t s axis [] sels plan out h p = omega arith
kept-le t s axis (new_axis ∷ items) sels plan out h p = kept-le t s axis items sels plan out h p
kept-le t s axis (integer i ∷ items) [] plan out h p = absurd h
kept-le t s axis (integer i ∷ items) (slice x y z ∷ sels) plan out h p = absurd h
kept-le t s axis (integer i ∷ items) (int j ∷ sels) _ _ (same, h)
      (dropped {plan = plan} {out = out} q c p) =
    kept-le t _ (axis + 1) items sels plan out h p
kept-le t s axis (slice_item f ∷ items) [] plan out h p = absurd h
kept-le t s axis (slice_item f ∷ items) (int j ∷ sels) plan out h p = absurd h
kept-le t s axis (slice_item f ∷ items) (slice x y z ∷ sels) _ _ (same, h)
      (sliced {plan = plan} {out = out} q p) =
    omega (arith, kept-le t _ (axis + 1) items sels plan out h p)
kept-le t s axis (other_item ∷ items) [] plan out h p = absurd h
kept-le t s axis (other_item ∷ items) (x ∷ sels) plan out h p = absurd h

-- On an array with elements, a tuple of integers, slices and `None` that is not all integers, each
-- integer inside its axis and each slice as `slice.indices` resolves it on the length of its axis,
-- gives an array if its axes and the new ones are at most 8. Its lengths are those of the selection
-- with a 1 wherever `None` stands among the items that give an axis, and without the indices on
-- those axes its positions share the elements that the plan of the integers and slices picks.
pub get_item-Shares :
    {A : Type 0} ⦃e : Element A⦄ (mem : Memory A) (new : Fresh) (a : PyArray A) (s : List ℕ)
    (items : List Item) (sels : List Selector)
    → HasShape s a.inner
    → length (layout_of a).strides ≡ length s
    → 0 < product s
    → AreSelectorsOf s 0 (sources items) sels
    → AreResolved s sels
    → are_integers items ≡ false
    → length s + length (places_of_new 0 (outputs items)) ≤ max_ndim
    → (plan : List AxisPlan) × (out : List ℕ) × (r : PyArray A) × PlanFor s sels plan out
      × (get_item mem new a (tuple items) ≡ ok (fetched (array r)))
      × Shares mem a s
          (λ ks. source sels plan (remove_axes out (places_of_new 0 (outputs items)) ks))
          (interleaved (outputs items) out)
          r
get_item-Shares ⦃e⦄ mem new a s items sels v axes some_left chosen resolved mixed room =
    let places = places_of_new 0 (outputs items) in
    let (plan, out, planned, p) = selection_plan-PlanFor v sels resolved in
    let (le, few, fit) = PlanFor-IsSmaller e.size_of p in
    let (r, made, shares) =
      select_planned-Shares mem new a s v axes some_left sels plan out p places (omega arith)
        planned in
    let chosen' : AreSelectorsOf (shape a.inner) 0 (sources items) sels =
      rw (shape-HasShape v) chosen in
    let lengths =
      with_axes-interleaved (outputs items) [] out (kept-le s s 0 items sels plan out chosen p) in
    (
      plan,
      out,
      r,
      p,
      get_item-run mem new a items sels chosen' ∙ rw (mixed, made) refl,
      rw (← lengths) shares,
    )
