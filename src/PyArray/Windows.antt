-- ===== src/PyArray/Windows.antt =====
-- The windows that `plan_view` of src/array.rs finds, and the positions that they start from.
use lightarray.Prelude.{
  ℕ, suc, ◌*◌, ◌≤◌, ◌≡◌, refl, sym, ap, ap₂, ◌∙◌, arith, List, [], ◌∷◌, some, none, length, product,
  le→leb,
}
use lightarray.Outcome.{ok}
use lightarray.Dims
use lightarray.Dims.{max_ndim}
use lightarray.Dims.Strides.{c_strides, c_dims, c_dims-LaysOut, with_itemsize-c_dims, LaysOut-size}
use lightarray.Array.{Element, Array}
use lightarray.Array.Valid.{HasShape, shape-HasShape, new-HasShape}
use lightarray.Array.Locate.{view}
use lightarray.Array.Locate.Order.{flat, Inside}
use lightarray.Array.Select.{
  as_usize, Selector, int, slice, AxisPlan, plan_view, empty, strided, contiguous, scan_plan, owned,
  window,
}
use lightarray.Array.Select.Gather.{counts, picked}
use lightarray.Array.Select.Plan.{step_at_up}
use lightarray.Array.Select.Scanning.{scan_plan-empty}
use lightarray.Array.Select.Whole.{
  PlanFor, finished, taken, dropped, sliced, PlanFor-IsReady, PlanFor-product, PlanFor-IsSmaller,
}
use lightarray.Array.Select.Contiguous.{window-Reads, elem_strides-HasShape}
use lightarray.Layout.Address.{source}

-- The index 0 on the axes that integers drop.
abbrev pub widen : List Selector → List ℕ → List ℕ
widen (int x ∷ sels) ks = 0 ∷ widen sels ks
widen (slice a b t ∷ sels) (k ∷ ks) = k ∷ widen sels ks
widen (slice a b t ∷ sels) [] = []
widen [] ks = ks

pub record Widened (sels : List Selector) (plan : List AxisPlan) (out ks : List ℕ) : Type 0 where
  pub inside : Inside (counts plan) (widen sels ks)
  pub full : length (widen sels ks) ≡ length plan
  pub place : flat (counts plan) (widen sels ks) ≡ flat out ks
  pub origin : picked plan (widen sels ks) ≡ source sels plan ks

pub PlanFor-Widened :
    {s : List ℕ} {sels : List Selector} {plan : List AxisPlan} {out : List ℕ}
    → PlanFor s sels plan out
    → (ks : List ℕ) → Inside out ks
    → length ks ≡ length out
    → Widened sels plan out ks
PlanFor-Widened finished [] h f = record { inside = tt; full = refl; place = refl; origin = refl }
PlanFor-Widened finished (k ∷ ks) h f = absurd h
PlanFor-Widened (taken p) [] h f = absurd (omega arith)
PlanFor-Widened (taken p) (k ∷ ks) h f =
    let w = PlanFor-Widened p ks h.1 (omega arith) in
    record {
      inside = (h.0, w.inside);
      full = ap suc w.full;
      place = omega (arith, w.place, ap (λ n. k * n) (PlanFor-product p));
      origin = ap₂ ◌∷◌ (ap as_usize (step_at_up 0 1 k) ∙ omega arith) w.origin;
    }
PlanFor-Widened (dropped q one p) ks h f =
    let w = PlanFor-Widened p ks h f in
    record {
      inside = (omega arith, w.inside);
      full = ap suc w.full;
      place = omega (arith, w.place);
      origin = ap₂ ◌∷◌ refl w.origin;
    }
PlanFor-Widened (sliced q p) [] h f = absurd (omega arith)
PlanFor-Widened (sliced q p) (k ∷ ks) h f =
    let w = PlanFor-Widened p ks h.1 (omega arith) in
    record {
      inside = (h.0, w.inside);
      full = ap suc w.full;
      place = omega (arith, w.place, ap (λ n. k * n) (PlanFor-product p));
      origin = ap₂ ◌∷◌ refl w.origin;
    }

module _ {ℓ} {A : Type ℓ} ⦃e : Element A⦄ {s : List ℕ} {b : Array A} (v : HasShape s b) where
  -- What `plan_view` returns, by how its scan ends.
  pub plan_view-window :
      {sels : List Selector} {plan : List AxisPlan} {out : List ℕ} (o : ℕ)
      → PlanFor s sels plan out
      → scan_plan 0 plan s (c_strides s) ≡ contiguous o
      → plan_view b plan out
        ≡ ok (some (window (record { offset = o; dims = c_dims out e.size_of })))
  unfolding plan_view view
  plan_view-window {sels} {plan} {out} o p found =
      let (le, short, fits) = PlanFor-IsSmaller e.size_of p in
      let short' : length out ≤ max_ndim = omega (arith, short, v.short) in
      let (room, reads) = window-Reads b.buffer plan s o v.full (PlanFor-IsReady p) found in
      let exact : Dims.size (c_dims out e.size_of) ≡ product (counts plan) =
        LaysOut-size out e.size_of _ e.size_of_pos (fits v.fits)
          (c_dims-LaysOut out e.size_of e.size_of_small)
        ∙ PlanFor-product p in
      rw (shape-HasShape v, elem_strides-HasShape v, found)
        (rw (with_itemsize-c_dims out e.size_of short' e.size_of_small)
          (rw (exact, le→leb _ _ room) refl))

  pub plan_view-owned :
      {sels : List Selector} {plan : List AxisPlan} {out : List ℕ}
      → PlanFor s sels plan out
      → scan_plan 0 plan s (c_strides s) ≡ empty
      → (c : Array A) × (plan_view b plan out ≡ ok (some (owned c)))
        × HasShape out c
        × (product out ≡ 0)
  unfolding plan_view
  plan_view-owned {plan = plan} {out = out} p found =
      let (le, short, fits) = PlanFor-IsSmaller e.size_of p in
      let none_left = PlanFor-product p ∙ scan_plan-empty 0 plan s (PlanFor-IsReady p) found in
      let (c, made, same, w) =
        new-HasShape [] out (omega (arith, short, v.short)) (fits v.fits) (sym none_left) in
      (c, rw (shape-HasShape v, elem_strides-HasShape v, found) (rw made refl), w, none_left)

  pub plan_view-strided :
      (plan : List AxisPlan) (out : List ℕ)
      → scan_plan 0 plan s (c_strides s) ≡ strided
      → plan_view b plan out ≡ ok none
  unfolding plan_view
  plan_view-strided plan out found = rw (shape-HasShape v, elem_strides-HasShape v, found) refl
