-- ===== src/PyArray/Basic.antt =====
-- `select_result` of src/python.rs: basic indexing with slices.
use lightarray.Prelude.{ℕ, ◌<◌, ◌≡◌, arith, List, [], length, product}
use lightarray.Outcome.{ok}
use lightarray.Array.{Element}
use lightarray.Array.Valid.{HasShape}
use lightarray.Array.Select.{Selector, AxisPlan}
use lightarray.Array.Select.Whole.{AreResolved, PlanFor, selection_plan-PlanFor, PlanFor-IsSmaller}
use lightarray.Layout.Address.{source}
use lightarray.Memory.{Memory}
use lightarray.PyArray.{PyArray, Fresh, layout_of, select_result}
use lightarray.PyArray.Sharing.{Shares}
use lightarray.PyArray.Planned.{select_planned-Shares}

-- Resolved selectors on an array with elements give, by a window, by a strided view or as an empty
-- array, an array of the planned shape that shares the elements that the plan picks.
pub select_result-Shares {ℓ} :
    {A : Type ℓ} ⦃e : Element A⦄ (mem : Memory A) (new : Fresh) (a : PyArray A) (s : List ℕ)
    (sels : List Selector)
    → HasShape s a.inner
    → length (layout_of a).strides ≡ length s
    → 0 < product s
    → AreResolved s sels
    → (plan : List AxisPlan) × (out : List ℕ) × (r : PyArray A) × PlanFor s sels plan out
      × (select_result mem new a sels [] ≡ ok r)
      × Shares mem a s (source sels plan) out r
select_result-Shares ⦃e⦄ mem new a s sels v axes some_left res =
    let (plan, out, planned, p) = selection_plan-PlanFor v sels res in
    let (le, few, fit) = PlanFor-IsSmaller e.size_of p in
    let (r, made, shares) =
      select_planned-Shares mem new a s v axes some_left sels plan out p []
        (omega (arith, few, v.short)) planned in
    (plan, out, r, p, made, shares)
