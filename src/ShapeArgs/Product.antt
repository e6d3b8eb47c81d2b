-- ===== src/ShapeArgs/Product.antt =====
-- The shape that `extract_shape_args` of src/python.rs works out has the array's size.
use native.Mathlib.Nat.{mul_comm, mul_assoc, div-add-mod'}
use lightarray.Prelude.{
  ℕ, ◌*◌, ◌/◌, ◌%◌, ◌<◌, ◌≡◌, ◌≢◌, ◌⊎◌, refl, sym, ap, ◌∙◌, arith, List, [], ◌∷◌, true, false, ltb,
  ◌==◌, product, word, wrapping_product-exact,
}
use lightarray.Prelude.Int.{ℤ, pos, negsuc}
use lightarray.ShapeArgs.{
  shape, value_error, many_unknown, cannot_reshape, unknown, known_dims, prepend, shape_loop,
  extract_shape_args,
}

-- `raw` with the length `m` in the place of each negative entry.
abbrev pub filled_in : ℕ → List ℤ → List ℕ
filled_in m [] = []
filled_in m (pos n ∷ raw) = n ∷ filled_in m raw
filled_in m (negsuc n ∷ raw) = m ∷ filled_in m raw

product_known :
    (m : ℕ) (raw : List ℤ) → unknown raw ≡ 0 → product (filled_in m raw) ≡ product (known_dims raw)
product_known m [] h = refl
product_known m (pos n ∷ raw) h = ap (λ t. n * t) (product_known m raw h)
product_known m (negsuc n ∷ raw) h = absurd (omega arith)

product_filled :
    (m : ℕ) (raw : List ℤ)
    → unknown raw ≡ 1
    → product (filled_in m raw) ≡ m * product (known_dims raw)
product_filled m [] h = absurd (omega arith)
product_filled m (pos n ∷ raw) h =
    ap (λ t. n * t) (product_filled m raw h)
    ∙ sym (mul_assoc n m (product (known_dims raw)))
    ∙ ap (λ t. t * product (known_dims raw)) (mul_comm n m)
    ∙ mul_assoc m n (product (known_dims raw))
product_filled m (negsuc n ∷ raw) h = ap (λ t. m * t) (product_known m raw (omega arith))

nonzero : (k : ℕ) → k ≢ 0 → (k == 0) ≡ false
nonzero k h = ground arith

divides : (size k : ℕ) → size % k ≡ 0 → (size % k == 0) ≡ true
divides size k h = ground arith

-- With a known length that divides the size, each negative entry gets the quotient.
loop_divides :
    (size k : ℕ) (all raw : List ℤ)
    → k ≢ 0
    → size % k ≡ 0
    → shape_loop size k all raw ≡ shape (filled_in (size / k) raw)
unfolding shape_loop
loop_divides size k all [] h d = refl
loop_divides size k all (pos n ∷ raw) h d = ap (prepend n) (loop_divides size k all raw h d)
loop_divides size k all (negsuc n ∷ raw) h d =
    rw (nonzero k h, divides size k d, loop_divides size k all raw h d) refl

loop_known :
    (size k : ℕ) (all raw : List ℤ)
    → unknown raw ≡ 0
    → shape_loop size k all raw ≡ shape (known_dims raw)
unfolding shape_loop
loop_known size k all [] h = refl
loop_known size k all (pos n ∷ raw) h = ap (prepend n) (loop_known size k all raw h)
loop_known size k all (negsuc n ∷ raw) h = absurd (omega arith)

loop_refused :
    (size k : ℕ) (all raw : List ℤ)
    → unknown raw ≡ 1
    → (k ≡ 0) ⊎ (size % k ≢ 0)
    → shape_loop size k all raw ≡ value_error (cannot_reshape size all)
unfolding shape_loop
loop_refused size k all [] h d = absurd (omega arith)
loop_refused size k all (pos n ∷ raw) h d = rw (loop_refused size k all raw h d) refl
loop_refused size k all (negsuc n ∷ raw) h d = ground arith

-- Where the lengths given have a product `k` below 2^64: without a negative entry the shape is the
-- entries themselves; with one, if `k` is positive and divides the size, the shape is the entries
-- with the quotient in its place and has as many elements as the array, and else it is refused;
-- more than one are refused.
pub extract_shape_args-product :
    (raw : List ℤ) (size : ℕ)
    → let k = product (known_dims raw) in
      k < word
      → (unknown raw ≡ 0 → extract_shape_args raw size ≡ shape (known_dims raw))
        × (unknown raw ≡ 1
            → k ≢ 0
            → size % k ≡ 0
            → (extract_shape_args raw size ≡ shape (filled_in (size / k) raw))
              × (product (filled_in (size / k) raw) ≡ size))
        × (unknown raw ≡ 1
            → (k ≡ 0) ⊎ (size % k ≢ 0)
            → extract_shape_args raw size ≡ value_error (cannot_reshape size raw))
        × (1 < unknown raw → extract_shape_args raw size ≡ value_error many_unknown)
unfolding extract_shape_args
extract_shape_args-product raw size small =
    let k = product (known_dims raw) in
    let exact = wrapping_product-exact (known_dims raw) small in
    (
      λ none. rw (one_at_most (omega arith)) (loop_known size _ raw raw none),
      λ one some_left d. (
        rw (one_at_most (omega arith), exact) (loop_divides size k raw raw some_left d),
        product_filled (size / k) raw one ∙ omega (arith, div-add-mod' size k, d),
      ),
      λ one bad. rw (one_at_most (omega arith), exact) (loop_refused size k raw raw one bad),
      λ many. rw (too_many many) refl,
    )
  where
    one_at_most : unknown raw < 2 → ltb 1 (unknown raw) ≡ false
    one_at_most h = ground arith

    too_many : 1 < unknown raw → ltb 1 (unknown raw) ≡ true
    too_many h = ground arith
