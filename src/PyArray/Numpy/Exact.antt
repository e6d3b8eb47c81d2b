-- ===== src/PyArray/Numpy/Exact.antt =====
-- The arithmetic of `view_of_numpy` of src/python.rs on addresses that do not wrap around.
use lightarray.Prelude.{
  ℕ, suc, zero, ◌+◌, ◌-◌, ◌*◌, ◌^◌, ◌<◌, ◌≤◌, ◌≡◌, refl, ap, arith, List, [], ◌∷◌, Option, some,
  none, not, if◌then◌else◌, product, Bool, some_pair, ◌⊎◌, inl, inr, true, false,
}
use lightarray.Prelude.Int.{ℤ, pos, negsuc, ◌+ℤ◌, ◌-ℤ◌, ◌*ℤ◌, ltb_ℤ, pos_part, neg_part}
use lightarray.PyArray.Numpy.{wrapped, is_multiple, reach_loop}

-- How far an integer is from 0.
abbrev pub magnitude : ℤ → ℕ
magnitude x = pos_part x + neg_part x

pub wrapped_lem : (x : ℤ) → magnitude x < 2 ^ 63 → wrapped x ≡ x
wrapped_lem (pos n) h = ground arith
wrapped_lem (negsuc n) h = ground arith

-- How far the strides lead from the first element at most.
abbrev pub extent : List ℕ → List ℤ → ℕ
extent (d ∷ s) (t ∷ strides) = (d - 1) * magnitude t + extent s strides
extent _ _ = 0

-- The loop without wrap.
unfoldable pub exact_reach : ℕ → ℤ → ℤ → List ℕ → List ℤ → Option (ℤ × ℤ)
exact_reach z lo hi (d ∷ shape) (s ∷ strides) =
    let reach = (pos d -ℤ pos 1) *ℤ s in
    let below = exact_reach z (lo +ℤ reach) hi shape strides in
    let above = exact_reach z lo (hi +ℤ reach) shape strides in
    if not (is_multiple z s) then none else if ltb_ℤ reach (pos 0) then below else above
exact_reach z lo hi _ _ = some (lo, hi)

pub magnitude-sum : (x y : ℤ) → magnitude (x +ℤ y) ≤ magnitude x + magnitude y
unfolding ◌+ℤ◌
magnitude-sum x y = ground arith

pub magnitude-difference : (x y : ℤ) → magnitude (x -ℤ y) ≤ magnitude x + magnitude y
unfolding ◌-ℤ◌
magnitude-difference x y = ground arith

-- An axis of some length reaches no further than its extent.
magnitude-reach : (m : ℕ) (t : ℤ) → magnitude ((pos (suc m) -ℤ pos 1) *ℤ t) ≤ m * magnitude t
unfolding ◌-ℤ◌ ◌*ℤ◌
magnitude-reach m (pos n) = grind arith
magnitude-reach m (negsuc n) = grind arith

less_one_axis : (d n : ℕ) → 0 < d * n → (0 < d) × (0 < n)
less_one_axis d n h = (grind arith, grind arith)

extent-suc :
    (m : ℕ) (s : List ℕ) (t : ℤ) (strides : List ℤ)
    → extent (suc m ∷ s) (t ∷ strides) ≡ m * magnitude t + extent s strides
extent-suc m s t strides =
    let less : suc m - 1 ≡ m = omega arith in ap (λ n. n * magnitude t + extent s strides) less

-- The branch of the loop that gave a result.
pub branch_taken :
    {X : Type 0} (aligned neg : Bool) (x y : Option X) {q : X}
    → (if not aligned then none else if neg then x else y) ≡ some q
    → (aligned ≡ true) × (((neg ≡ true) × (x ≡ some q)) ⊎ ((neg ≡ false) × (y ≡ some q)))
branch_taken false neg x y h = cc
branch_taken true true x y h = (refl, inl (refl, h))
branch_taken true false x y h = (refl, inr (refl, h))

branch :
    {X : Type 0} (aligned neg : Bool) (x y x' y' : Option X)
    → x ≡ x'
    → y ≡ y'
    → (if not aligned then none else if neg then x else y)
      ≡ (if not aligned then none else if neg then x' else y')
branch false neg x y x' y' h k = refl
branch true true x y x' y' h k = h
branch true false x y x' y' h k = k

-- Without overflow, the code computes the exact bounds.
pub reach_loop-exact :
    (z : ℕ) (s : List ℕ) (strides : List ℤ) (lo hi : ℤ)
    → 0 < product s
    → magnitude lo + extent s strides < 2 ^ 63
    → magnitude hi + extent s strides < 2 ^ 63
    → reach_loop z lo hi s strides ≡ exact_reach z lo hi s strides
unfolding reach_loop exact_reach
reach_loop-exact z [] strides lo hi p h k = refl
reach_loop-exact z (d ∷ s) [] lo hi p h k = refl
reach_loop-exact z (zero ∷ s) (t ∷ strides) lo hi p h k = absurd (grind arith)
reach_loop-exact z (suc m ∷ s) (t ∷ strides) lo hi p h k =
    let r = (pos (suc m) -ℤ pos 1) *ℤ t in
    let far = magnitude-reach m t in
    let split = extent-suc m s t strides in
    let (some_here, some_left) = less_one_axis (suc m) (product s) p in
    let down = magnitude-sum lo r in
    let up = magnitude-sum hi r in
    let same : wrapped r ≡ r = wrapped_lem r (omega arith) in
    let lower : wrapped (lo +ℤ r) ≡ lo +ℤ r = wrapped_lem (lo +ℤ r) (omega arith) in
    let higher : wrapped (hi +ℤ r) ≡ hi +ℤ r = wrapped_lem (hi +ℤ r) (omega arith) in
    rw (same, lower, higher)
      (branch (is_multiple z t) (ltb_ℤ r (pos 0)) _ _ _ _
        (reach_loop-exact z s strides (lo +ℤ r) hi some_left (omega arith) (omega arith))
        (reach_loop-exact z s strides lo (hi +ℤ r) some_left (omega arith) (omega arith)))

-- The bounds are no further from 0 than the extent allows.
pub exact_reach-magnitude :
    (z : ℕ) (s : List ℕ) (strides : List ℤ) (lo hi low high : ℤ)
    → 0 < product s
    → exact_reach z lo hi s strides ≡ some (low, high)
    → (magnitude low ≤ magnitude lo + extent s strides)
      × (magnitude high ≤ magnitude hi + extent s strides)
unfolding exact_reach
exact_reach-magnitude z [] strides lo hi low high p e =
    let (same_low, same_high) = some_pair e in
    rw (← same_low, ← same_high) (omega arith, omega arith)
exact_reach-magnitude z (d ∷ s) [] lo hi low high p e =
    let (same_low, same_high) = some_pair e in
    rw (← same_low, ← same_high) (omega arith, omega arith)
exact_reach-magnitude z (zero ∷ s) (t ∷ strides) lo hi low high p e = absurd (grind arith)
exact_reach-magnitude z (suc m ∷ s) (t ∷ strides) lo hi low high p e =
    let r = (pos (suc m) -ℤ pos 1) *ℤ t in
    let far = magnitude-reach m t in
    let split = extent-suc m s t strides in
    let (some_here, some_left) = less_one_axis (suc m) (product s) p in
    let down = magnitude-sum lo r in
    let up = magnitude-sum hi r in
    let (aligned, went) = branch_taken (is_multiple z t) (ltb_ℤ r (pos 0)) _ _ e in
    elim went [
      | inl (neg, rest) ↦
          let (low_bound, high_bound) =
            exact_reach-magnitude z s strides (lo +ℤ r) hi low high some_left rest in
          (omega arith, omega arith)
      | inr (not_neg, rest) ↦
          let (low_bound, high_bound) =
            exact_reach-magnitude z s strides lo (hi +ℤ r) low high some_left rest in
          (omega arith, omega arith)
    ]
