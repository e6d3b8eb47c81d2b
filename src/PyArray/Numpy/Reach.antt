-- ===== src/PyArray/Numpy/Reach.antt =====
-- The bounds that `view_of_numpy` of src/python.rs computes hold for every address of the view.
use lightarray.Prelude.{
  ℕ, zero, suc, ◌*◌, ◌<◌, ◌≡◌, ◌∙◌, arith, List, [], ◌∷◌, true, false, inl, inr, some, length,
  mul_mono, some_pair,
}
use lightarray.Prelude.Int.{ℤ, pos, negsuc, ◌+ℤ◌, ◌-ℤ◌, ◌*ℤ◌, ◌≤ℤ◌, ltb_ℤ, int_laws}
use lightarray.Prelude.Int.Products.{*ℤ_parts}
use lightarray.Array.Locate.Order.{Inside}
use lightarray.Layout.Address.{address}
use lightarray.PyArray.Numpy.{is_multiple}
use lightarray.PyArray.Numpy.Exact.{exact_reach, branch_taken}
use lightarray.PyArray.Numpy.Multiples.{
  Multiple, is_multiple-Multiple, Multiple-sum, Multiple-scaled,
}

-- A whole number of elements from `lo`, and no further than `hi`.
abbrev pub Within : ℕ → ℤ → ℤ → ℤ → Type 0
Within z lo hi p = (lo ≤ℤ p) × (p ≤ℤ hi) × Multiple z (p -ℤ lo)

less_one : (m : ℕ) → pos (suc m) -ℤ pos 1 ≡ pos m
unfolding ◌-ℤ◌
less_one m = ground arith

not_below : (x : ℤ) → ltb_ℤ x (pos 0) ≡ false → pos 0 ≤ℤ x
not_below x e = ground arith

-- A step of an axis lies between its ends.
step_down :
    (d i : ℕ) (t : ℤ)
    → i < d
    → ltb_ℤ ((pos d -ℤ pos 1) *ℤ t) (pos 0) ≡ true
    → ((pos d -ℤ pos 1) *ℤ t ≤ℤ pos i *ℤ t) × (pos i *ℤ t ≤ℤ pos 0)
step_down zero i t h = absurd (omega arith)
step_down (suc m) i (pos n) h = rw (less_one m) (λ e.
    let up : pos 0 ≤ℤ pos m *ℤ pos n = omega (arith, *ℤ_parts (pos m) (pos n)) in
    absurd (ground arith))
step_down (suc m) i (negsuc n) h = rw (less_one m) (λ e. (
  omega (
    arith,
    *ℤ_parts (pos m) (negsuc n),
    *ℤ_parts (pos i) (negsuc n),
    mul_mono i m (suc n) (suc n) (omega arith) (omega arith),
  ),
  omega (arith, *ℤ_parts (pos i) (negsuc n)),
))

step_up :
    (d i : ℕ) (t : ℤ)
    → i < d
    → ltb_ℤ ((pos d -ℤ pos 1) *ℤ t) (pos 0) ≡ false
    → (pos 0 ≤ℤ pos i *ℤ t) × (pos i *ℤ t ≤ℤ (pos d -ℤ pos 1) *ℤ t)
step_up zero i t h = absurd (omega arith)
step_up (suc m) i (pos n) h = rw (less_one m) (λ e. (
  omega (arith, *ℤ_parts (pos i) (pos n)),
  omega (
    arith,
    *ℤ_parts (pos m) (pos n),
    *ℤ_parts (pos i) (pos n),
    mul_mono i m n n (omega arith) (omega arith),
  ),
))
step_up (suc m) i (negsuc n) h = rw (less_one m) (λ e.
    let flat_axis : m * suc n ≡ 0 =
      omega (arith, *ℤ_parts (pos m) (negsuc n), not_below (pos m *ℤ negsuc n) e) in
    let bound = mul_mono i m (suc n) (suc n) (omega arith) (omega arith) in
    (
      omega (arith, *ℤ_parts (pos i) (negsuc n), bound, flat_axis),
      omega (arith, *ℤ_parts (pos m) (negsuc n), *ℤ_parts (pos i) (negsuc n), bound, flat_axis),
    ))

Within-step :
    (z d i : ℕ) (t lo hi p : ℤ)
    → is_multiple z t ≡ true
    → i < d
    → Within z lo hi p
    → (let r = (pos d -ℤ pos 1) *ℤ t in
        (ltb_ℤ r (pos 0) ≡ true → Within z (lo +ℤ r) hi (p +ℤ pos i *ℤ t))
        × (ltb_ℤ r (pos 0) ≡ false → Within z lo (hi +ℤ r) (p +ℤ pos i *ℤ t)))
Within-step z d i t lo hi p aligned h (above, below, whole) =
    let r = (pos d -ℤ pos 1) *ℤ t in
    let x = pos i *ℤ t in
    let steps = is_multiple-Multiple z t aligned in
    let by_x = Multiple-scaled z (pos i) t steps in
    let back = Multiple-scaled z (negsuc 0) r (Multiple-scaled z (pos d -ℤ pos 1) t steps) in
    let (k, e) = Multiple-sum z (p -ℤ lo) x whole by_x in
    let (j, f) = Multiple-sum z (p -ℤ lo +ℤ x) (negsuc 0 *ℤ r) (k, e) back in
    (
      λ neg.
          let (a, b) = step_down d i t h neg in
          (
            omega (int_laws, a),
            omega (int_laws, b),
            (j, omega (int_laws, *ℤ_parts (negsuc 0) r) ∙ f),
          ),
      λ up.
          let (a, b) = step_up d i t h up in
          (omega (int_laws, a), omega (int_laws, b), (k, omega int_laws ∙ e)),
    )

-- Every position lies between the two addresses.
pub exact_reach-Within :
    (z : ℕ) (s : List ℕ) (strides : List ℤ) (is : List ℕ) (lo hi p low high : ℤ)
    → Inside s is
    → length is ≡ length s
    → length strides ≡ length s
    → Within z lo hi p
    → exact_reach z lo hi s strides ≡ some (low, high)
    → Within z low high (address p strides is)
unfolding exact_reach
exact_reach-Within z [] [] [] lo hi p low high h f g w e =
    let (same_low, same_high) = some_pair e in rw (← same_low, ← same_high) w
exact_reach-Within z [] [] (i ∷ is) lo hi p low high h f g w e = absurd h
exact_reach-Within z [] (t ∷ strides) is lo hi p low high h f g w e = absurd (omega arith)
exact_reach-Within z (d ∷ s) [] is lo hi p low high h f g w e = absurd (omega arith)
exact_reach-Within z (d ∷ s) (t ∷ strides) [] lo hi p low high h f g w e = absurd (omega arith)
exact_reach-Within z (d ∷ s) (t ∷ strides) (i ∷ is) lo hi p low high h f g w e =
    let (aligned, went) =
      branch_taken (is_multiple z t) (ltb_ℤ ((pos d -ℤ pos 1) *ℤ t) (pos 0)) _ _ e in
    let (down, up) = Within-step z d i t lo hi p aligned h.0 w in
    elim went [
      | inl (neg, rest) ↦
          exact_reach-Within z s strides is _ hi (p +ℤ pos i *ℤ t) low high h.1 (omega arith)
            (omega arith) (down neg) rest
      | inr (not_neg, rest) ↦
          exact_reach-Within z s strides is lo _ (p +ℤ pos i *ℤ t) low high h.1 (omega arith)
            (omega arith) (up not_neg) rest
    ]
