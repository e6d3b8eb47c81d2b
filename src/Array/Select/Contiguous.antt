-- ===== src/Array/Select/Contiguous.antt =====
-- `select` copies what the selectors say, and the windows that `select_view` of src/array.rs finds
-- hold the same elements.
use native.Mathlib.Decide.{dec_lt}
use lightarray.Prelude.{ℕ, suc, ◌+◌, ◌-◌, ◌≤◌, ◌<◌, ◌≡◌, refl, sym, ap, ◌∙◌, arith}
use lightarray.Prelude.{
  List, [], ◌∷◌, Option, some, none, length, product, take, drop, get_elem?, get_elem?-take,
  get_elem?-drop, list_ext, length-take, length-drop,
}
use lightarray.Prelude.{wrapping_product-exact, lt→ltb, le→leb, ◌^◌}
use lightarray.Outcome.{ok}
use lightarray.Dims
use lightarray.Dims.Strides.{
  c_strides, c_dims, Fits-product-lt, LaysOut-elem_strides, LaysOut-size, c_dims-LaysOut,
  with_itemsize-c_dims,
}
use lightarray.Array.{Element, Array, new}
use lightarray.Array.Valid.{HasShape, shape-HasShape, HasShape-LaysOut, new-HasShape}
use lightarray.Array.Locate.{View, deref, view}
use lightarray.Array.Locate.Order.{flat, flat-lt, flat_surj, Inside}
use lightarray.Array.Select.{
  Selector, AxisPlan, elem_strides, gather, gather_plan, select, plan_view, select_view, Selected,
  owned, window, Scan, empty, strided, contiguous, scan_plan,
}
use lightarray.Array.Select.Gather.{IsReady, counts, picked, Reads, gather-Reads, length-counts}
use lightarray.Array.Select.Scanning.{scan_plan-contiguous, scan_plan-pos, scan_plan-empty}
use lightarray.Array.Select.Whole.{
  AreResolved, PlanFor, selection_plan-PlanFor, PlanFor-IsReady, PlanFor-product, PlanFor-IsSmaller,
}

-- The positions of a selection are picked inside the source.
pub picked-Inside :
    (plan : List AxisPlan) (s ks : List ℕ)
    → IsReady plan s
    → Inside (counts plan) ks
    → length ks ≡ length plan
    → Inside s (picked plan ks) × (length (picked plan ks) ≡ length s)
picked-Inside [] [] [] r i l = (tt, refl)
picked-Inside [] [] (k ∷ ks) r i l = absurd (omega arith)
picked-Inside [] (d ∷ s) ks r i l = absurd r
picked-Inside (p ∷ plan) [] ks r i l = absurd r
picked-Inside (p ∷ plan) (d ∷ s) [] r i l = absurd (omega arith)
picked-Inside (p ∷ plan) (d ∷ s) (k ∷ ks) r i l =
    let (inside, full) = picked-Inside plan s ks r.1 i.1 (omega arith) in
    ((r.0 k i.0, inside), ap suc full)

nil-eq {ℓ} : {A : Type ℓ} (xs : List A) → length xs ≡ 0 → [] ≡ xs
nil-eq [] h = refl
nil-eq (x ∷ xs) h = absurd (omega arith)

no_plan : (s : List ℕ) → 0 < length s → IsReady [] s → ⊥
no_plan [] h r = omega arith
no_plan (d ∷ s) h r = r

-- An empty selection has no position.
Reads-empty {ℓ} :
    {A : Type ℓ} (buffer out : List A) (offset : ℕ) (s : List ℕ) (plan : List AxisPlan)
    → product (counts plan) ≡ 0
    → Reads buffer offset s plan out
unfolding Reads
Reads-empty buffer out offset s plan z ks inside full =
    absurd (omega (arith, flat-lt (counts plan) ks inside (full ∙ sym (length-counts plan))))

module _ {ℓ} {A : Type ℓ} ⦃e : Element A⦄ {s : List ℕ} {a : Array A} (v : HasShape s a) where
  pub elem_strides-HasShape : elem_strides a ≡ c_strides s
  unfolding elem_strides
  elem_strides-HasShape =
      LaysOut-elem_strides s e.size_of a.dims e.size_of_pos v.fits (HasShape-LaysOut v)

  gather_plan-Reads :
      (plan : List AxisPlan) (out : List ℕ)
      → 0 < length s
      → IsReady plan s
      → product out ≡ product (counts plan)
      → product out < 2 ^ 63
      → (copied : List A) × (gather_plan a plan out ≡ new copied out)
        × (length copied ≡ product (counts plan))
        × Reads a.buffer 0 s plan copied
  unfolding gather_plan
  gather_plan-Reads [] out some_axis ready same small = absurd (no_plan s some_axis ready)
  gather_plan-Reads (p ∷ plan) out some_axis ready same small = elim (dec_lt 0 (product out)) [
    | yes some_left ↦
        let (copied, gathered, len, reads) =
          gather-Reads a.buffer p plan s 0 ready (omega (arith, v.full)) in
        (
          copied,
          rw
              (
                wrapping_product-exact out (omega arith),
                lt→ltb _ _ some_left,
                elem_strides-HasShape,
                gathered,
              )
              refl,
          len,
          reads,
        )
    | no none_left ↦
        let nothing : product (counts (p ∷ plan)) ≡ 0 = omega arith in
        (
          [],
          rw (wrapping_product-exact out (omega arith)) (ground arith),
          sym nothing,
          Reads-empty a.buffer [] 0 s (p ∷ plan) nothing,
        )
  ]

  gathered :
      (sels : List Selector) (plan : List AxisPlan) (out : List ℕ)
      → 0 < length s
      → PlanFor s sels plan out
      → (b : Array A) × (gather_plan a plan out ≡ ok b)
        × HasShape out b
        × (length b.buffer ≡ product (counts plan))
        × Reads a.buffer 0 s plan b.buffer
  gathered sels plan out some_axis p =
      let (le, short, fits) = PlanFor-IsSmaller e.size_of p in
      let (copied, gather, len, reads) =
        gather_plan-Reads plan out some_axis (PlanFor-IsReady p) (PlanFor-product p)
          (omega (arith, le, Fits-product-lt e.size_of s e.size_of_pos v.fits)) in
      let (b, made, same, w) =
        new-HasShape copied out (omega (arith, v.short)) (fits v.fits)
          (len ∙ sym (PlanFor-product p)) in
      (b, gather ∙ made, w, ap length same ∙ len, rw same reads)

  -- On an array of one or more axes, resolved selectors copy a selection of the planned shape that
  -- holds, at each of its positions, the element that the plan picks.
  pub select-Reads :
      (sels : List Selector)
      → AreResolved s sels
      → 0 < length s
      → (plan : List AxisPlan) × (out : List ℕ) × (b : Array A) × PlanFor s sels plan out
        × (select a sels ≡ ok b)
        × HasShape out b
        × Reads a.buffer 0 s plan b.buffer
  unfolding select
  select-Reads sels r some_axis =
      let (plan, out, planned, p) = selection_plan-PlanFor v sels r in
      let (b, gather, w, len, reads) = gathered sels plan out some_axis p in
      (plan, out, b, p, rw planned gather, w, reads)

-- Two selections of one size that read the same plan are equal.
Reads-unique {ℓ} :
    {A : Type ℓ} (buffer xs ys : List A) (offset : ℕ) (s : List ℕ) (plan : List AxisPlan)
    → length xs ≡ product (counts plan)
    → length ys ≡ product (counts plan)
    → Reads buffer offset s plan xs
    → Reads buffer offset s plan ys
    → xs ≡ ys
unfolding Reads
Reads-unique buffer xs ys offset s plan lx ly rx ry = list_ext xs ys (lx ∙ sym ly) (λ i below.
    let (ks, inside, full, same) = flat_surj (counts plan) i (omega (arith, lx)) in
    let size = full ∙ length-counts plan in
    rw (← same) (rx ks inside size ∙ sym (ry ks inside size)))

-- The window of a contiguous selection lies in the buffer, and reads what the plan picks.
pub window-Reads {ℓ} :
    {A : Type ℓ} (buffer : List A) (plan : List AxisPlan) (s : List ℕ) (o : ℕ)
    → length buffer ≡ product s
    → IsReady plan s
    → scan_plan 0 plan s (c_strides s) ≡ contiguous o
    → (o + product (counts plan) ≤ length buffer)
      × Reads buffer 0 s plan (take (product (counts plan)) (drop o buffer))
unfolding Reads
window-Reads buffer plan s o whole r h = (room, reads)
  where
    n : ℕ
    n = product (counts plan)

    room : o + n ≤ length buffer
    room =
        let some_left = scan_plan-pos 0 plan s o r h in
        let (ks, inside, full, same) = flat_surj (counts plan) (n - 1) (omega arith) in
        let size = full ∙ length-counts plan in
        let (there, all) = picked-Inside plan s ks r inside size in
        omega (
          arith,
          scan_plan-contiguous 0 plan s o r h ks inside size,
          flat-lt s (picked plan ks) there all,
        )

    reads :
        (ks : List ℕ)
        → Inside (counts plan) ks
        → length ks ≡ length plan
        → get_elem? (take n (drop o buffer)) (flat (counts plan) ks)
          ≡ get_elem? buffer (0 + flat s (picked plan ks))
    reads ks inside size =
        get_elem?-take n (drop o buffer) _
          (flat-lt (counts plan) ks inside (size ∙ sym (length-counts plan)))
        ∙ get_elem?-drop o buffer _
        ∙ ap (get_elem? buffer) (sym (scan_plan-contiguous 0 plan s o r h ks inside size))

-- What `select_view` may return where `select` returns `b`: an empty array of its own equal to
-- `b`, a window that has the dims and the elements of `b`, or nothing (a strided selection).
pub data Agrees {ℓ} {A : Type ℓ} (a b : Array A) : Option (Selected A) → Type ℓ where
  same_array : (c : Array A) → c ≡ b → Agrees a b (some (owned c))
  same_window :
      (w : View) → w.dims ≡ b.dims → deref w a.buffer ≡ b.buffer → Agrees a b (some (window w))
  not_shared : Agrees a b none

module _ {ℓ} {A : Type ℓ} ⦃e : Element A⦄ {s : List ℕ} {a : Array A} (v : HasShape s a) where
  plan_view-Agrees :
      (sels : List Selector) (plan : List AxisPlan) (out : List ℕ) (b : Array A)
      → PlanFor s sels plan out
      → HasShape out b
      → length b.buffer ≡ product (counts plan)
      → Reads a.buffer 0 s plan b.buffer
      → (f : Scan) → scan_plan 0 plan s (c_strides s) ≡ f
      → (r : Option (Selected A)) × (plan_view a plan out ≡ ok r) × Agrees a b r
  unfolding plan_view deref view
  plan_view-Agrees sels plan out b p w len reads empty found =
      let none_left = scan_plan-empty 0 plan s (PlanFor-IsReady p) found in
      let (c, made, same, w') =
        new-HasShape [] out w.short w.fits (sym (PlanFor-product p ∙ none_left)) in
      (
        some (owned c),
        rw (shape-HasShape v, elem_strides-HasShape v, found) (rw made refl),
        same_array c (λ i. record {
          buffer = (same ∙ nil-eq b.buffer (len ∙ none_left)) i;
          dims = (w'.dims ∙ sym w.dims) i;
        }),
      )
  plan_view-Agrees sels plan out b p w len reads strided found =
      (none, rw (shape-HasShape v, elem_strides-HasShape v, found) refl, not_shared)
  plan_view-Agrees sels plan out b p w len reads (contiguous o) found =
      let (room, there) = window-Reads a.buffer plan s o v.full (PlanFor-IsReady p) found in
      let laid = c_dims out e.size_of in
      let exact : Dims.size laid ≡ product (counts plan) =
        LaysOut-size out e.size_of laid e.size_of_pos w.fits
          (c_dims-LaysOut out e.size_of e.size_of_small)
        ∙ PlanFor-product p in
      (
        some (window (record { offset = o; dims = laid })),
        rw (shape-HasShape v, elem_strides-HasShape v, found)
            (rw (with_itemsize-c_dims out e.size_of w.short e.size_of_small)
              (rw (exact, le→leb _ _ room) refl)),
        same_window (record { offset = o; dims = laid }) (sym w.dims)
            (rw exact (
              Reads-unique a.buffer _ b.buffer 0 s plan
                (length-take _ (drop o a.buffer) ∙ omega (arith, length-drop o a.buffer, room)) len
                there reads)),
      )

  -- On an array of one or more axes, with resolved selectors, `select` and `select_view` both
  -- return, and where the view shares memory or is empty it is the copy: same dims, same elements.
  pub select_view-Agrees :
      (sels : List Selector)
      → AreResolved s sels
      → 0 < length s
      → (b : Array A) × (r : Option (Selected A)) × (select a sels ≡ ok b)
        × (select_view a sels ≡ ok r)
        × Agrees a b r
  unfolding select select_view
  select_view-Agrees sels res some_axis =
      let (plan, out, planned, p) = selection_plan-PlanFor v sels res in
      let (b, gather, w, len, reads) = gathered v sels plan out some_axis p in
      let (r, viewed, agrees) =
        plan_view-Agrees sels plan out b p w len reads (scan_plan 0 plan s (c_strides s)) refl in
      (b, r, rw planned gather, rw planned viewed, agrees)
