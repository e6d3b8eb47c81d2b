-- ===== src/Array/Select/Scanning.antt =====
-- The loop of `plan_view` in src/array.rs: where a contiguous selection starts, and why it is
-- contiguous.
use native.Mathlib.Nat.{mul-pos}
use lightarray.Prelude.{ℕ, suc, ◌+◌, ◌*◌, ◌<◌, ◌≡◌, refl, ap, ap₂, ◌∙◌, arith}
use lightarray.Prelude.{List, [], ◌∷◌, length, product, ltb, ◌==◌, ◌⊎◌, inl, inr}
use lightarray.Prelude.{Bool-cases}
use lightarray.Prelude.Int.{ℤ, pos, negsuc}
use lightarray.Prelude.{true}
use lightarray.Dims.Strides.{c_strides}
use lightarray.Array.Locate.Order.{flat, Inside}
use lightarray.Array.Select.{AxisPlan, as_usize, is_one, empty, contiguous, scan_block, scan_plan}
use lightarray.Array.Select.Gather.{step_at, IsReady, counts, picked}
use lightarray.Array.Select.Plan.{step_at_up}

is_one-eq : (x : ℤ) → is_one x ≡ true → x ≡ pos 1
is_one-eq (pos n) h = ground arith
is_one-eq (negsuc n) h = cc

whole_step : (k : ℕ) → as_usize (step_at (pos 0) (pos 1) k) ≡ k
whole_step k = rw (step_at_up 0 1 k) (omega arith)

-- What a whole axis in a block looks like.
scan_block-axis :
    (offset : ℕ) (p : AxisPlan) (plan : List AxisPlan) (d : ℕ) (s : List ℕ) (o : ℕ)
    → scan_block offset (p ∷ plan) (d ∷ s) ≡ contiguous o
    → (p.start ≡ 0) × (p.step ≡ pos 1) × (p.count ≡ d) × (scan_block offset plan s ≡ contiguous o)
unfolding scan_block
scan_block-axis offset p plan d s o h =
    (ground arith, is_one-eq p.step (ground arith), ground arith, ground arith)

-- After the start of the block every axis is whole.
scan_block-contiguous :
    (offset : ℕ) (plan : List AxisPlan) (s : List ℕ) (o : ℕ)
    → IsReady plan s
    → scan_block offset plan s ≡ contiguous o
    → (offset ≡ o)
      × (counts plan ≡ s)
      × ((ks : List ℕ) → length ks ≡ length plan → picked plan ks ≡ ks)
unfolding scan_block
scan_block-contiguous offset [] [] o r h = (ground arith, refl, picked-nil)
  where
    picked-nil : (ks : List ℕ) → length ks ≡ 0 → [] ≡ ks
    picked-nil [] l = refl
    picked-nil (k ∷ ks) l = absurd (omega arith)
scan_block-contiguous offset [] (d ∷ s) o r h = absurd r
scan_block-contiguous offset (p ∷ plan) [] o r h = absurd r
scan_block-contiguous offset (p ∷ plan) (d ∷ s) o r h =
    let (start, step, count, rest) = scan_block-axis offset p plan d s o h in
    let (same, sizes, picks) = scan_block-contiguous offset plan s o r.1 rest in
    (same, ap₂ ◌∷◌ count sizes, go start step picks)
  where
    go :
        p.start ≡ 0
        → p.step ≡ pos 1
        → ((ks : List ℕ) → length ks ≡ length plan → picked plan ks ≡ ks)
        → (ks : List ℕ) → length ks ≡ suc (length plan)
        → picked (p ∷ plan) ks ≡ ks
    go start step picks [] l = absurd (omega arith)
    go start step picks (k ∷ ks) l =
        ap₂ ◌∷◌ (ap₂ (λ n t. as_usize (step_at (pos n) t k)) start step ∙ whole_step k)
          (picks ks (omega arith))

-- What `scan_plan` found on the first axis of a contiguous selection.
scan_plan-axis :
    (offset : ℕ) (p : AxisPlan) (plan : List AxisPlan) (d : ℕ) (s : List ℕ) (st : ℕ)
    (strides : List ℕ) (o : ℕ)
    → scan_plan offset (p ∷ plan) (d ∷ s) (st ∷ strides) ≡ contiguous o
    → (p.count ≡ 1) × (scan_plan (offset + p.start * st) plan s strides ≡ contiguous o)
      ⊎ (p.step ≡ pos 1) × (scan_block (offset + p.start * st) plan s ≡ contiguous o)
unfolding scan_plan
scan_plan-axis offset p plan d s st strides o h = elim (Bool-cases (ltb 1 p.count)) [
  | inl many ↦ inr (is_one-eq p.step (ground arith), ground arith)
  | inr one ↦ inl (ground arith, ground arith)
]

-- The window starts at the first element that the plan picks, and goes on as the plan does.
pub scan_plan-contiguous :
    (offset : ℕ) (plan : List AxisPlan) (s : List ℕ) (o : ℕ)
    → IsReady plan s
    → scan_plan offset plan s (c_strides s) ≡ contiguous o
    → (ks : List ℕ) → Inside (counts plan) ks
    → length ks ≡ length plan
    → offset + flat s (picked plan ks) ≡ o + flat (counts plan) ks
unfolding scan_plan
scan_plan-contiguous offset [] [] o r h [] inside l = ground arith
scan_plan-contiguous offset [] [] o r h (k ∷ ks) inside l = absurd (omega arith)
scan_plan-contiguous offset [] (d ∷ s) o r h ks inside l = absurd r
scan_plan-contiguous offset (p ∷ plan) [] o r h ks inside l = absurd r
scan_plan-contiguous offset (p ∷ plan) (d ∷ s) o r h [] inside l = absurd (omega arith)
scan_plan-contiguous offset (p ∷ plan) (d ∷ s) o r h (k ∷ ks) inside l =
    elim (scan_plan-axis offset p plan d s (product s) (c_strides s) o h) [
      | inl (one, rest) ↦
          let first : k ≡ 0 = omega arith in
          let tail =
            scan_plan-contiguous (offset + p.start * product s) plan s o r.1 rest ks inside.1
              (omega arith) in
          rw first (omega (arith, tail))
      | inr (step, block) ↦
          let (same, sizes, picks) =
            scan_block-contiguous (offset + p.start * product s) plan s o r.1 block in
          let here : as_usize (step_at (pos p.start) p.step k) ≡ p.start + k * 1 =
            ap (λ t. as_usize (step_at (pos p.start) t k)) step
            ∙ ap as_usize (step_at_up p.start 1 k) in
          rw (picks ks (omega arith), sizes, here) (omega (arith, same))
    ]

contiguous-ne-empty : {o : ℕ} → contiguous o ≡ empty → ⊥
contiguous-ne-empty h = cc

scan_block-pos :
    (offset : ℕ) (plan : List AxisPlan) (s : List ℕ) (o : ℕ)
    → IsReady plan s
    → scan_block offset plan s ≡ contiguous o
    → 0 < product (counts plan)
unfolding scan_block
scan_block-pos offset [] s o r h = omega arith
scan_block-pos offset (p ∷ plan) [] o r h = absurd r
scan_block-pos offset (p ∷ plan) (d ∷ s) o r h =
    let (start, step, count, rest) = scan_block-axis offset p plan d s o h in
    let here : 0 < p.count = ground arith in mul-pos here (scan_block-pos offset plan s o r.1 rest)

-- A contiguous selection is not empty.
pub scan_plan-pos :
    (offset : ℕ) (plan : List AxisPlan) (s : List ℕ) (o : ℕ)
    → IsReady plan s
    → scan_plan offset plan s (c_strides s) ≡ contiguous o
    → 0 < product (counts plan)
unfolding scan_plan
scan_plan-pos offset [] s o r h = omega arith
scan_plan-pos offset (p ∷ plan) [] o r h = absurd r
scan_plan-pos offset (p ∷ plan) (d ∷ s) o r h =
    let here : 0 < p.count = ground arith in
    elim (scan_plan-axis offset p plan d s (product s) (c_strides s) o h) [
      | inl (one, rest) ↦
          mul-pos here (scan_plan-pos (offset + p.start * product s) plan s o r.1 rest)
      | inr (step, block) ↦
          mul-pos here (scan_block-pos (offset + p.start * product s) plan s o r.1 block)
    ]

scan_block-empty :
    (offset : ℕ) (plan : List AxisPlan) (s : List ℕ)
    → IsReady plan s
    → scan_block offset plan s ≡ empty
    → product (counts plan) ≡ 0
unfolding scan_block
scan_block-empty offset [] s r h = absurd (contiguous-ne-empty h)
scan_block-empty offset (p ∷ plan) [] r h = absurd r
scan_block-empty offset (p ∷ plan) (d ∷ s) r h = elim (Bool-cases (p.count == 0)) [
  | inl none_left ↦ let z : p.count ≡ 0 = ground arith in rw z (omega arith)
  | inr more ↦
      let rest : scan_block offset plan s ≡ empty = ground arith in
      rw (scan_block-empty offset plan s r.1 rest) (omega arith)
]

-- A selection that is found empty has an axis that counts nothing.
pub scan_plan-empty :
    (offset : ℕ) (plan : List AxisPlan) (s : List ℕ)
    → IsReady plan s
    → scan_plan offset plan s (c_strides s) ≡ empty
    → product (counts plan) ≡ 0
unfolding scan_plan
scan_plan-empty offset [] s r h = absurd (contiguous-ne-empty h)
scan_plan-empty offset (p ∷ plan) [] r h = absurd r
scan_plan-empty offset (p ∷ plan) (d ∷ s) r h = elim (Bool-cases (p.count == 0)) [
  | inl none_left ↦ let z : p.count ≡ 0 = ground arith in rw z (omega arith)
  | inr more ↦
      let here = offset + p.start * product s in
      elim (Bool-cases (ltb 1 p.count)) [
        | inl many ↦
            let rest : scan_block here plan s ≡ empty = ground arith in
            rw (scan_block-empty here plan s r.1 rest) (omega arith)
        | inr one ↦
            let rest : scan_plan here plan s (c_strides s) ≡ empty = ground arith in
            rw (scan_plan-empty here plan s r.1 rest) (omega arith)
      ]
]
