-- ===== src/PyArray/Numpy/Span.antt =====
-- The views that `view_of_numpy` of src/python.rs makes lie in the memory of the owner.
use lightarray.Prelude.{
  ℕ, zero, suc, ◌+◌, ◌*◌, ◌^◌, ◌<◌, ◌≤◌, ◌≡◌, ◌≢◌, refl, sym, ◌∙◌, arith, List, Bool, true, false,
  if◌then◌else◌, Option, some, none, length, product, and_true, not, ◌==◌, not_or, not-true,
  not-not, wrapping_product, wrapping_product-exact, ◌&&◌, ◌||◌, ◌==◌, ltb,
}
use lightarray.Prelude.Int.{ℤ, pos, ◌+ℤ◌, ◌-ℤ◌, ◌≤ℤ◌, ltb_ℤ, int_laws}
use lightarray.Prelude.Int.Products.{*ℤ_parts}
use lightarray.Outcome.{ok, Result, ok-injective, >>=-eq-ok}
use lightarray.Dims.{max_ndim}
use lightarray.Dims.Strides.{Fits, Fits-product-lt}
use lightarray.Array.{Element, size}
use lightarray.Array.Broadcast.{eq_list}
use lightarray.Array.Locate.Order.{Inside}
use lightarray.Layout.Address.{address_of}
use lightarray.Memory.{Memory}
use lightarray.PyArray.{PyArray, Fresh, base_of, layout_of, view_from_layout}
use lightarray.PyArray.Views.{Shows, view_from_layout-Shows}
use lightarray.PyArray.Numpy.{
  Buffer, wrapped, is_multiple, reach_loop, buffer_layout, inside_span, is_readable, view_of_numpy,
}
use lightarray.PyArray.Numpy.Multiples.{Multiple, is_multiple-Multiple, Multiple-shift}
use lightarray.PyArray.Numpy.Exact.{
  magnitude, extent, wrapped_lem, magnitude-sum, magnitude-difference, reach_loop-exact,
  exact_reach-magnitude,
}
use lightarray.PyArray.Numpy.Reach.{Within, exact_reach-Within}

taken_branch {ℓ} :
    {X : Type ℓ} (test : Bool) (m : Result (Option X)) {x : X}
    → (if test then m else ok none) ≡ ok (some x)
    → (test ≡ true) × (m ≡ ok (some x))
taken_branch true m h = (refl, h)
taken_branch false m h = cc

positive : (n : ℕ) → n ≢ 0 → 0 < n
positive zero h = absurd (h refl)
positive (suc n) h = omega arith

at_start : (z : ℕ) (p : ℤ) → Within z p p p
at_start z p = (omega arith, omega arith, (pos 0, omega (int_laws, *ℤ_parts (pos 0) (pos z))))

some-injective {ℓ} : {X : Type ℓ} {x y : X} → some x ≡ some y → x ≡ y
some-injective e = cc

-- What the tests before the view say.
readable_lem :
    (z : ℕ) (format : List ℕ) (raw : Buffer)
    → is_readable z format raw ≡ true
    → (length raw.dimensions ≤ max_ndim) × (wrapping_product raw.dimensions ≢ 0)
readable_lem z format raw h =
    let long = ltb max_ndim (length raw.dimensions) in
    let early = raw.readonly || not (raw.item_size == z) || not (eq_list raw.format format) in
    let none_left = wrapping_product raw.dimensions == 0 in
    let (some_left, rest) = (and_true (not (early || long)) (not none_left)).0 h in
    let (before, few) = not_or early long rest in
    let few' = not-true (ltb max_ndim (length raw.dimensions)) few in
    let some' = not-true (wrapping_product raw.dimensions == 0) some_left in
    (ground arith, λ e. ground arith)

inside_span_lem :
    (z : ℕ) (start : ℤ) (n : ℕ) (span : Option (ℤ × ℤ))
    → inside_span z start n span ≡ true
    → (lo : ℤ) × (hi : ℤ) × (span ≡ some (lo, hi))
      × (start ≤ℤ lo)
      × (wrapped (hi +ℤ pos z) ≤ℤ start +ℤ pos n)
      × Multiple z (wrapped (lo -ℤ start))
inside_span_lem z start n none h = cc
inside_span_lem z start n (some (lo, hi)) h =
    let below = ltb_ℤ lo start in
    let above = ltb_ℤ (start +ℤ pos n) (wrapped (hi +ℤ pos z)) in
    let (first, aligned) =
      not_or (below || above) (not (is_multiple z (wrapped (lo -ℤ start)))) h in
    let (low, high) = not_or below above first in
    let low' = not-true (ltb_ℤ lo start) low in
    let high' = not-true (ltb_ℤ (start +ℤ pos n) (wrapped (hi +ℤ pos z))) high in
    (
      lo,
      hi,
      refl,
      ground arith,
      ground arith,
      is_multiple-Multiple z (wrapped (lo -ℤ start)) (not-not _ aligned),
    )

-- Where the addresses of the buffer and of the owner stay less than 2^62 from 0, so that their
-- arithmetic does not wrap around, and the shape fits, a view is made only if every element lies
-- whole inside the memory of the owner, a whole number of elements from its start. It then has the
-- shape and the addresses that the buffer says, and shares the memory of the owner.
pub view_of_numpy-Within {ℓ} :
    {A : Type ℓ} ⦃e : Element A⦄ (mem : Memory A) (new : Fresh) (format : List ℕ)
    (owner v : PyArray A) (raw : Buffer)
    → length raw.buf_strides ≡ length raw.dimensions
    → Fits e.size_of raw.dimensions
    → magnitude raw.buf_ptr + extent raw.dimensions raw.buf_strides + e.size_of < 2 ^ 62
    → magnitude owner.data_ptr < 2 ^ 62
    → view_of_numpy mem new format owner (some raw) ≡ ok (some v)
    → Shows mem (buffer_layout raw) v
      × (base_of v ≡ base_of owner)
      × ((is : List ℕ)
          → Inside raw.dimensions is
          → length is ≡ length raw.dimensions
          → (let p = address_of (layout_of v) is in
              (owner.data_ptr ≤ℤ p)
              × (p +ℤ pos e.size_of ≤ℤ owner.data_ptr +ℤ pos (size owner.inner * e.size_of))
              × Multiple e.size_of (p -ℤ owner.data_ptr)))
unfolding view_of_numpy
view_of_numpy-Within ⦃e⦄ mem new format owner v raw axes fits far near made =
    let z = e.size_of in
    let span = reach_loop z raw.buf_ptr raw.buf_ptr raw.dimensions raw.buf_strides in
    let (tests, viewed) =
      taken_branch
        (is_readable z format raw && inside_span z owner.data_ptr (size owner.inner * z) span) _
        made in
    let (inside, readable) = (and_true _ _).0 tests in
    let (lo, hi, reached, low, high, aligned) =
      inside_span_lem z owner.data_ptr (size owner.inner * z) span inside in
    let (few, some_left) = readable_lem z format raw readable in
    let (w, shown, shows, base) =
      view_from_layout-Shows mem new owner (buffer_layout raw) few fits axes in
    let (u, made', done) =
      >>=-eq-ok (view_from_layout mem new owner (buffer_layout raw)) _ viewed in
    let same : w ≡ v = ok-injective (sym shown ∙ made') ∙ some-injective (ok-injective done) in
    let exact =
      wrapping_product-exact raw.dimensions
        (omega (arith, Fits-product-lt z raw.dimensions e.size_of_pos fits)) in
    let more : 0 < product raw.dimensions =
      positive _ (λ none_left. some_left (exact ∙ none_left)) in
    let reached' =
      sym (
        reach_loop-exact z raw.dimensions raw.buf_strides raw.buf_ptr raw.buf_ptr more (omega arith)
          (omega arith))
      ∙ reached in
    let (low_bound, high_bound) =
      exact_reach-magnitude z raw.dimensions raw.buf_strides raw.buf_ptr raw.buf_ptr lo hi more
        reached' in
    let end : wrapped (hi +ℤ pos z) ≡ hi +ℤ pos z =
      wrapped_lem (hi +ℤ pos z) (omega (arith, magnitude-sum hi (pos z))) in
    let shift : wrapped (lo -ℤ owner.data_ptr) ≡ lo -ℤ owner.data_ptr =
      wrapped_lem (lo -ℤ owner.data_ptr) (omega (arith, magnitude-difference lo owner.data_ptr)) in
    let high' : hi +ℤ pos z ≤ℤ owner.data_ptr +ℤ pos (size owner.inner * z) = rw (← end) high in
    let aligned' : Multiple z (lo -ℤ owner.data_ptr) = rw (← shift) aligned in
    rw (← same) (
      shows,
      base more,
      λ is h f.
          let (from, to, whole) =
            exact_reach-Within z raw.dimensions raw.buf_strides is raw.buf_ptr raw.buf_ptr
              raw.buf_ptr lo hi h f axes (at_start z raw.buf_ptr) reached' in
          rw (shows.located is h f)
            (omega int_laws, omega int_laws, Multiple-shift z _ lo whole owner.data_ptr aligned'),
    )
