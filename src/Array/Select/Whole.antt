-- ===== src/Array/Select/Whole.antt =====
-- `selection_plan` of src/array.rs succeeds on resolved selectors, and plans each axis.
use lightarray.Prelude.{◌^◌}
use lightarray.Prelude.{
  ℕ, zero, suc, ◌+◌, ◌*◌, ◌-◌, ◌/◌, ◌≤◌, ◌<◌, ◌≡◌, refl, ap, ◌∙◌, arith, List, [], ◌∷◌, length,
  product, ltb, if◌then◌else◌, get_elem?, drop, get_elem?-drop_head, mul_mono, some, leb, le→leb,
  true,
}
use lightarray.Prelude.Int.{ℤ, pos, negsuc}
use lightarray.Outcome.{Result, ok}
use lightarray.Dims.Strides.{Fits}
use lightarray.Array.{Element, Array, ndim}
use lightarray.Array.Valid.{HasShape, shape-HasShape, HasShape-LaysOut}
use lightarray.Array.Locate.Order.{from_either_end-lt}
use lightarray.Array.Locate.Access.{normalize_index_lem}
use lightarray.Array.Select.{
  Selector, int, slice, AxisPlan, Plan, as_usize, slice_count, plan_loop, selection_plan,
}
use lightarray.Array.Select.Gather.{step_at, IsReady, counts}
use lightarray.Array.Select.Plan.{
  IsResolved, inside, forwards, backwards, before_all, Picks, element, every, every_back, nothing,
  Picks-IsReady, slice_count_up, slice_count_down, stop_above, step_at_up,
}

-- No more selectors than axes, each resolved for its axis.
abbrev pub AreResolved : List ℕ → List Selector → Type 0
AreResolved s [] = Unit {0}
AreResolved [] (x ∷ sels) = ⊥
AreResolved (d ∷ s) (x ∷ sels) = IsResolved d x × AreResolved s sels

abbrev pub whole_axis : ℕ → AxisPlan
whole_axis d = record { start = 0; step = pos 1; count = d }

-- What each axis of a shape contributes to the plan and to the result shape: an integer drops its
-- axis, a slice keeps what it counts, and an axis without a selector is taken whole.
pub data PlanFor : List ℕ → List Selector → List AxisPlan → List ℕ → Type 0 where
  finished : PlanFor [] [] [] []
  taken :
      {d : ℕ} {s : List ℕ} {plan : List AxisPlan} {out : List ℕ}
      → PlanFor s [] plan out
      → PlanFor (d ∷ s) [] (whole_axis d ∷ plan) (d ∷ out)
  dropped :
      {d : ℕ} {x : ℤ} {p : AxisPlan} {s : List ℕ} {sels : List Selector} {plan : List AxisPlan}
      {out : List ℕ}
      → Picks d (int x) p
      → p.count ≡ 1
      → PlanFor s sels plan out
      → PlanFor (d ∷ s) (int x ∷ sels) (p ∷ plan) out
  sliced :
      {d : ℕ} {start stop step : ℤ} {p : AxisPlan} {s : List ℕ} {sels : List Selector}
      {plan : List AxisPlan} {out : List ℕ}
      → Picks d (slice start stop step) p
      → PlanFor s sels plan out
      → PlanFor (d ∷ s) (slice start stop step ∷ sels) (p ∷ plan) (p.count ∷ out)

length-AreResolved :
    (s : List ℕ) (sels : List Selector) → AreResolved s sels → length sels ≤ length s
length-AreResolved s [] r = omega arith
length-AreResolved [] (x ∷ sels) r = absurd r
length-AreResolved (d ∷ s) (x ∷ sels) r = omega (arith, length-AreResolved s sels r.1)

count_forwards : (a b t : ℕ) → (c : ℕ) × (slice_count (pos a) (pos b) (pos (suc t)) ≡ ok c)
unfolding slice_count
count_forwards a b t = (if ltb a b then (b - a - 1) / suc t + 1 else 0, ground arith)

count_backwards : (a low t : ℕ) → (c : ℕ) × (slice_count (pos a) (stop_above low) (negsuc t) ≡ ok c)
unfolding slice_count
count_backwards a zero t = (a / suc t + 1, ground arith)
count_backwards a (suc b) t = (if ltb b a then (a - b - 1) / suc t + 1 else 0, ground arith)

count_nothing : (low t : ℕ) → slice_count (negsuc 0) (stop_above low) (negsuc t) ≡ ok 0
unfolding slice_count
count_nothing zero t = ground arith
count_nothing (suc b) t = ground arith

module _ {ℓ} {A : Type ℓ} ⦃e : Element A⦄ {s : List ℕ} {a : Array A} (v : HasShape s a) where
  abbrev Planned : List ℕ → List Selector → Result Plan → Type 0
  Planned rest sels r =
      (plan : List AxisPlan) × (out : List ℕ) × (r ≡ ok (plan, out)) × PlanFor rest sels plan out

  step-Planned :
      (axis d : ℕ) (rest : List ℕ) (sel : Selector) (sels : List Selector) (plan : List AxisPlan)
      (out : List ℕ)
      → get_elem? s axis ≡ some d
      → IsResolved d sel
      → plan_loop a (suc axis) rest sels ≡ ok (plan, out)
      → PlanFor rest sels plan out
      → Planned (d ∷ rest) (sel ∷ sels) (plan_loop a axis (d ∷ rest) (sel ∷ sels))
  unfolding plan_loop
  step-Planned axis d rest sel sels plan out here (inside x i e) same p = (
    record { start = i; step = pos 1; count = 1 } ∷ plan,
    out,
    rw (normalize_index_lem a x axis d (rw (← shape-HasShape v) at here), e, same) refl,
    dropped (element x i e) refl p,
  )
  step-Planned axis d rest sel sels plan out here (forwards a' b t le) same p =
      let (c, counted) = count_forwards a' b t in
      (
        record { start = a'; step = pos (suc t); count = c } ∷ plan,
        c ∷ out,
        rw (counted, same) refl,
        sliced (every a' b t c (λ k. slice_count_up a' b t k c counted) le) p,
      )
  step-Planned axis d rest sel sels plan out here (backwards a' low t lt) same p =
      let (c, counted) = count_backwards a' low t in
      (
        record { start = a'; step = negsuc t; count = c } ∷ plan,
        c ∷ out,
        rw (counted, same) refl,
        sliced (every_back a' low t c (λ k. slice_count_down a' low t k c counted) lt) p,
      )
  step-Planned axis d rest sel sels plan out here (before_all low t) same p = (
    record { start = as_usize (negsuc 0); step = negsuc t; count = 0 } ∷ plan,
    0 ∷ out,
    rw (count_nothing low t, same) refl,
    sliced (nothing low t (as_usize (negsuc 0))) p,
  )

  plan_loop-Planned :
      (axis : ℕ) (rest : List ℕ) (sels : List Selector)
      → drop axis s ≡ rest
      → AreResolved rest sels
      → Planned rest sels (plan_loop a axis rest sels)
  unfolding plan_loop
  plan_loop-Planned axis [] [] e r = ([], [], refl, finished)
  plan_loop-Planned axis [] (x ∷ sels) e r = absurd r
  plan_loop-Planned axis (d ∷ rest) [] e r =
      let (plan, out, same, p) =
        plan_loop-Planned (suc axis) rest [] (get_elem?-drop_head axis s e).1 r in
      (whole_axis d ∷ plan, d ∷ out, rw same refl, taken p)
  plan_loop-Planned axis (d ∷ rest) (sel ∷ sels) e (r, rs) =
      let (here, next) = get_elem?-drop_head axis s e in
      let (plan, out, same, p) = plan_loop-Planned (suc axis) rest sels next rs in
      step-Planned axis d rest sel sels plan out here r same p

  -- Resolved selectors, no more than the axes, are planned: no error and no panic, and each axis
  -- is picked, kept or dropped as its selector says.
  pub selection_plan-PlanFor :
      (sels : List Selector)
      → AreResolved s sels
      → (plan : List AxisPlan) × (out : List ℕ) × (selection_plan a sels ≡ ok (plan, out))
        × PlanFor s sels plan out
  unfolding selection_plan
  selection_plan-PlanFor sels r =
      let (plan, out, same, p) = plan_loop-Planned 0 s sels refl r in
      (plan, out, simp (ndim-s, shape-HasShape v, few s sels r) same, p)
    where
      ndim-s : ndim a ≡ length s
      ndim-s = (HasShape-LaysOut v).ndim

      few :
          (s : List ℕ) (sels : List Selector)
          → AreResolved s sels
          → leb (length sels) (length s) ≡ true
      few s sels r = le→leb _ _ (length-AreResolved s sels r)

steps-ge : (c t : ℕ) → c ≤ c * suc t
steps-ge c t = grind arith

whole_ready : (d k : ℕ) → k < d → as_usize (step_at (pos 0) (pos 1) k) < d
whole_ready d k h = rw (step_at_up 0 1 k) (omega arith)

pub PlanFor-IsReady :
    {s : List ℕ} {sels : List Selector} {plan : List AxisPlan} {out : List ℕ}
    → PlanFor s sels plan out
    → IsReady plan s
PlanFor-IsReady finished = tt
PlanFor-IsReady (taken {d} p) = (whole_ready d, PlanFor-IsReady p)
PlanFor-IsReady (dropped q c p) = (Picks-IsReady q, PlanFor-IsReady p)
PlanFor-IsReady (sliced q p) = (Picks-IsReady q, PlanFor-IsReady p)

-- Dropped axes have one element each.
pub PlanFor-product :
    {s : List ℕ} {sels : List Selector} {plan : List AxisPlan} {out : List ℕ}
    → PlanFor s sels plan out
    → product out ≡ product (counts plan)
PlanFor-product finished = refl
PlanFor-product (taken {d} p) = ap (λ n. d * n) (PlanFor-product p)
PlanFor-product (dropped q c p) = rw c (PlanFor-product p ∙ omega arith)
PlanFor-product (sliced {p = r} q p) = ap (λ n. r.count * n) (PlanFor-product p)

Picks-count : {d : ℕ} {sel : Selector} {p : AxisPlan} → Picks d sel p → p.count ≤ d
Picks-count (element x i e) = omega (arith, from_either_end-lt _ x i e)
Picks-count (every a b t zero iff le) = omega arith
Picks-count (every a b t (suc c) iff le) = omega (arith, (iff c).0 (omega arith), steps-ge c t)
Picks-count (every_back a low t zero iff lt) = omega arith
Picks-count (every_back a low t (suc c) iff lt) =
    omega (arith, (iff c).0 (omega arith), steps-ge c t)
Picks-count (nothing low t n) = omega arith

abbrev pub IsSmaller : ℕ → List ℕ → List ℕ → Type 0
IsSmaller z s out = (product out ≤ product s) × (length out ≤ length s) × (Fits z s → Fits z out)

fits-le : (z m n : ℕ) → m ≤ n → z * n < 2 ^ 63 → z * m < 2 ^ 63
fits-le z m n h f = omega (arith, mul_mono z z m n (omega arith) h)

keep_axis : (z c d : ℕ) (s out : List ℕ) → c ≤ d → IsSmaller z s out → IsSmaller z (d ∷ s) (c ∷ out)
keep_axis z c d s out h (m, l, f) =
    let more = mul_mono c d (product out) (product s) h m in
    (more, omega arith, λ g. (fits-le z _ _ more g.0, f g.1))

-- A selection is no larger than what it selects from.
pub PlanFor-IsSmaller :
    {s : List ℕ} {sels : List Selector} {plan : List AxisPlan} {out : List ℕ} (z : ℕ)
    → PlanFor s sels plan out
    → IsSmaller z s out
PlanFor-IsSmaller z finished = (omega arith, omega arith, λ f. f)
PlanFor-IsSmaller z (taken {d} {s} {out = o} p) =
    keep_axis z d d s o (omega arith) (PlanFor-IsSmaller z p)
PlanFor-IsSmaller z (dropped {d} {s} {out = o} q c p) =
    let (m, l, f) = PlanFor-IsSmaller z p in
    let one = mul_mono 1 d (product o) (product s) (omega (arith, Picks-count q)) m in
    (omega arith, omega arith, λ g. f g.1)
PlanFor-IsSmaller z (sliced {d} {p = r} {s} {out = o} q p) =
    keep_axis z r.count d s o (Picks-count q) (PlanFor-IsSmaller z p)
