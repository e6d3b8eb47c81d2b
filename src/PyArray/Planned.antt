-- ===== src/PyArray/Planned.antt =====
-- `select_result` of src/python.rs with the plan of its selectors, and axes that `None` inserts.
use lightarray.Prelude.{
  ℕ, ◌+◌, ◌*◌, ◌<◌, ◌≤◌, ◌≡◌, refl, sym, ap, ◌∙◌, arith, List, [], none, Option-cases, inl, inr,
  length, product, wrapping_product, wrapping_product-exact, ◌==◌, true, ◌∷◌,
}
use lightarray.Prelude.Int.{pos, ◌+ℤ◌, int_laws}
use lightarray.Outcome.{Result, ok, ◌>>=◌}
use lightarray.Dims.{max_ndim}
use lightarray.Dims
use lightarray.Dims.Strides.{
  Fits, Fits-product-lt, c_strides, c_dims, c_dims-LaysOut, with_itemsize-c_dims, LaysOut-size,
}
use lightarray.Array.{Element, Array, set_shape}
use lightarray.Array.Valid.{HasShape, HasShape-LaysOut}
use lightarray.Array.Locate.Order.{flat, Inside}
use lightarray.Array.Select.{
  Selector, AxisPlan, selection_plan, plan_view, Scan, empty, strided, contiguous, scan_plan,
}
use lightarray.Array.Select.Scanning.{scan_plan-contiguous}
use lightarray.Array.Select.Whole.{PlanFor, PlanFor-IsReady, PlanFor-IsSmaller}
use lightarray.Layout.{Layout, select}
use lightarray.Layout.Address.{Selects, select-Selects, source}
use lightarray.Memory.{Memory}
use lightarray.PyArray.Inserted.{
  remove_axes, product-with_axes, length-with_axes, Fits-with_axes, remove_axes-Inside,
  insert_axes-Selects,
}
use lightarray.PyArray.{
  with_axes, insert_axes, reshaped, PyArray, Fresh, base_of, layout_of, own, raw_view, select_owned,
  select_strided, select_result,
}
use lightarray.PyArray.Views.{
  length-elements, Shows, owned-address, own-Shows, raw_view-Shows, view_from_layout-Shows,
}
use lightarray.PyArray.Sharing.{Shares, Shows-Shares}
use lightarray.PyArray.Turned.{AreLengths-nonempty}
use lightarray.PyArray.Windows.{
  widen, PlanFor-Widened, plan_view-window, plan_view-owned, plan_view-strided,
}

module _ {ℓ} {A : Type ℓ} ⦃e : Element A⦄ (mem : Memory A) (new : Fresh) (a : PyArray A)
    (s : List ℕ) (v : HasShape s a.inner) (axes : length (layout_of a).strides ≡ length s)
    (some_left : 0 < product s) (sels : List Selector) (plan : List AxisPlan) (out : List ℕ)
    (p : PlanFor s sels plan out) (places : List ℕ)
    (room : length out + length places ≤ max_ndim) where
  abbrev whole : List ℕ
  whole = with_axes out places

  abbrev origin : List ℕ → List ℕ
  origin ks = source sels plan (remove_axes out places ks)

  chosen :
      Selects
        (layout_of a).ptr
        s
        (layout_of a).strides
        (source sels plan)
        out
        (select (layout_of a) plan sels)
  chosen =
      select-Selects (layout_of a) p
        (AreLengths-nonempty e.size_of s e.size_of_pos some_left v.fits) axes

  inserted :
      (l : Layout) × (insert_axes (select (layout_of a) plan sels) places ≡ ok l)
      × Selects (layout_of a).ptr s (layout_of a).strides origin whole l
  inserted =
      insert_axes-Selects (layout_of a).ptr s (layout_of a).strides (source sels plan) out
        (select (layout_of a) plan sels) places chosen room

  abbrev l : Layout
  l = inserted.0

  st : Selects (layout_of a).ptr s (layout_of a).strides origin whole l
  st = inserted.2

  whole_short : length whole ≤ max_ndim
  whole_short = omega (arith, length-with_axes out places)

  whole-Fits : Fits e.size_of whole
  whole-Fits =
      let (le, few, fit) = PlanFor-IsSmaller e.size_of p in
      Fits-with_axes e.size_of out places (fit v.fits)

  short : length l.shape ≤ max_ndim
  short = rw (st.shape) whole_short

  fits : Fits e.size_of l.shape
  fits = rw (st.shape) whole-Fits

  select_strided-Shares :
      (r : PyArray A) × (select_strided mem new a sels places plan ≡ ok r)
      × Shares mem a s origin whole r
  select_strided-Shares =
      let (r, made, shows, base) =
        view_from_layout-Shows mem new a l short fits (st.full ∙ ap length (sym st.shape)) in
      (r, rw (inserted.1) made, Shows-Shares st shows (λ more. base (rw st.shape more)))

  window-Shows :
      (o : ℕ)
      → a.strided ≡ none
      → scan_plan 0 plan s (c_strides s) ≡ contiguous o
      → Shows mem l (
          raw_view mem new (a.data_ptr +ℤ pos (o * e.size_of)) (c_dims whole e.size_of) (base_of a))
  window-Shows o n found =
      let start = a.data_ptr +ℤ pos (o * e.size_of) in
      let sh : Shows mem l (raw_view mem new start (c_dims l.shape e.size_of) (base_of a)) =
        raw_view-Shows mem new a l short fits (st.full ∙ ap length (sym st.shape)) start (base_of a)
          (λ ks h f.
            let h' : Inside whole ks = rw (← st.shape) h in
            let f' = f ∙ ap length st.shape in
            let (inside, full, same) = st.reads ks h' f' in
            same
            ∙ owned-address a s (origin ks) v n inside full
            ∙ place ks o h' f' found
            ∙ ap (λ t. start +ℤ pos (e.size_of * flat t ks)) (sym st.shape)) in
      rw (← st.shape) sh
    where
      place :
          (ks : List ℕ) (o : ℕ)
          → Inside whole ks
          → length ks ≡ length whole
          → scan_plan 0 plan s (c_strides s) ≡ contiguous o
          → a.data_ptr +ℤ pos (e.size_of * flat s (origin ks))
            ≡ a.data_ptr +ℤ pos (o * e.size_of) +ℤ pos (e.size_of * flat whole ks)
      place ks o h f found =
          let (h', f', same) = remove_axes-Inside out places ks h f in
          let js = remove_axes out places ks in
          let w = PlanFor-Widened p js h' f' in
          let there =
            scan_plan-contiguous 0 plan s o (PlanFor-IsReady p) found (widen sels js) w.inside
              w.full in
          let sum : flat s (origin ks) ≡ o + flat whole ks =
            omega (arith, there, w.place, ap (flat s) w.origin, same) in
          let scaled : e.size_of * flat s (origin ks) ≡ o * e.size_of + e.size_of * flat whole ks =
            ap (λ n. e.size_of * n) sum ∙ grind arith in
          ap (λ n. a.data_ptr +ℤ pos n) scaled ∙ omega int_laws

  -- An array of the planned shape under the shape with the inserted axes.
  abbrev under_whole : Array A → Array A
  under_whole b = record b { dims = c_dims whole e.size_of }

  reshaped_from :
      (others : List ℕ) (b : Array A)
      → HasShape out b
      → others ≡ places
      → reshaped b out others ≡ ok (under_whole b)
  unfolding set_shape
  reshaped_from [] b w same =
      ap (λ d. ok (record b { dims = d })) w.dims
      ∙ ap (λ t. ok (record b { dims = c_dims (with_axes out t) e.size_of })) same
  reshaped_from (at ∷ others) b w same =
      let count : wrapping_product (with_axes out (at ∷ others)) ≡ length b.buffer =
        ap (λ t. wrapping_product (with_axes out t)) same
        ∙ wrapping_product-exact whole
            (omega (arith, Fits-product-lt e.size_of whole e.size_of_pos whole-Fits))
        ∙ product-with_axes out places
        ∙ sym w.full in
      let exact : (wrapping_product (with_axes out (at ∷ others)) == length b.buffer) ≡ true =
        ground arith in
      let laid : Dims.with_itemsize (with_axes out (at ∷ others)) b.dims.itemsize
          ≡ ok (c_dims whole e.size_of) =
        ap (Dims.with_itemsize (with_axes out (at ∷ others))) (HasShape-LaysOut w).itemsize
        ∙ ap (λ t. Dims.with_itemsize (with_axes out t) e.size_of) same
        ∙ with_itemsize-c_dims whole e.size_of whole_short e.size_of_small in
      rw (exact, laid) refl

  reshaped_lem : (b : Array A) → HasShape out b → reshaped b out places ≡ ok (under_whole b)
  reshaped_lem b w = reshaped_from places b w refl

  under_whole-HasShape : (b : Array A) → HasShape out b → HasShape whole (under_whole b)
  under_whole-HasShape b w = record {
    short = whole_short;
    fits = whole-Fits;
    dims = refl;
    full = w.full ∙ sym (product-with_axes out places);
  }

  abbrev Answered : Result (PyArray A) → Type ℓ
  Answered m = (r : PyArray A) × (m ≡ ok r) × Shares mem a s origin whole r

  select_owned-Shares :
      (f : Scan)
      → scan_plan 0 plan s (c_strides s) ≡ f
      → a.strided ≡ none
      → Answered (
          plan_view a.inner plan out
          >>= select_owned mem new a out places (select_strided mem new a sels places plan))
  unfolding base_of
  select_owned-Shares empty found n =
      let (c, viewed, w, none_left) = plan_view-owned v p found in
      let w' : HasShape l.shape (under_whole c) = rw st.shape (under_whole-HasShape c w) in
      (
        own new (under_whole c),
        rw (viewed, reshaped_lem c w) refl,
        Shows-Shares st
            (own-Shows mem new a l short fits (st.full ∙ ap length (sym st.shape)) (under_whole c)
              w' (ap product st.shape ∙ product-with_axes out places ∙ none_left))
            (λ more. absurd (omega (arith, product-with_axes out places))),
      )
  select_owned-Shares strided found n =
      let (r, made, shares) = select_strided-Shares in
      (r, rw (plan_view-strided v plan out found) made, shares)
  select_owned-Shares (contiguous o) found n =
      let start = a.data_ptr +ℤ pos (o * e.size_of) in
      let part = raw_view mem new start (c_dims out e.size_of) (base_of a) in
      let (le, few, fit) = PlanFor-IsSmaller e.size_of p in
      let count =
        LaysOut-size out e.size_of (c_dims out e.size_of) e.size_of_pos (fit v.fits)
          (c_dims-LaysOut out e.size_of e.size_of_small) in
      let count' =
        LaysOut-size whole e.size_of (c_dims whole e.size_of) e.size_of_pos whole-Fits
          (c_dims-LaysOut whole e.size_of e.size_of_small) in
      let w : HasShape out part.inner = record {
        short = omega (arith, room);
        fits = fit v.fits;
        dims = refl;
        full = length-elements mem start e.size_of _ ∙ count;
      } in
      let sizes : Dims.size (c_dims out e.size_of) ≡ Dims.size (c_dims whole e.size_of) =
        count ∙ sym (product-with_axes out places) ∙ sym count' in
      (
        raw_view mem new start (c_dims whole e.size_of) (base_of a),
        rw (plan_view-window v o p found, reshaped_lem part.inner w, sizes) refl,
        Shows-Shares st (window-Shows o n found) (λ more. refl),
      )

  pub select_planned-Shares :
      selection_plan a.inner sels ≡ ok (plan, out) → Answered (select_result mem new a sels places)
  unfolding select_result
  select_planned-Shares planned = elim (Option-cases a.strided) [
    | inl n ↦
        let (r, made, shares) = select_owned-Shares (scan_plan 0 plan s (c_strides s)) refl n in
        (r, simp (planned, n) made, shares)
    | inr (t, n) ↦
        let (r, made, shares) = select_strided-Shares in (r, simp (planned, n) made, shares)
  ]
