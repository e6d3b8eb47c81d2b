-- ===== src/Array/Select/Plan.antt =====
-- The plans that `selection_plan` of src/array.rs makes.
use native.Mathlib.Nat.{le-div_iff_mul-le}
use native.Mathlib.Decide.{dec_lt}
use lightarray.Prelude.{ℕ, zero, suc, ◌+◌, ◌*◌, ◌-◌, ◌/◌, ◌≤◌, ◌<◌, ◌≡◌, ap, ◌∙◌, ◌↔◌, arith, some}
use lightarray.Prelude.Int.{ℤ, pos, negsuc, ◌+ℤ◌, ◌-ℤ◌, ◌≤ℤ◌}
use lightarray.Outcome.{ok}
use lightarray.Array.Locate.Order.{from_either_end, from_either_end-lt}
use lightarray.Array.Select.{Selector, int, slice, AxisPlan, as_usize, slice_count}
use lightarray.Array.Select.Gather.{step_at}

pub step_at_up : (a t k : ℕ) → step_at (pos a) (pos t) k ≡ pos (a + k * t)
unfolding ◌+ℤ◌
step_at_up a t zero = ap pos (omega arith)
step_at_up a t (suc k) =
    let e : pos a +ℤ pos t ≡ pos (a + t) = ground arith in
    rw e (step_at_up (a + t) t k ∙ ap pos (omega arith))

pub step_at_down : (a t k : ℕ) → k * suc t ≤ a → step_at (pos a) (negsuc t) k ≡ pos (a - k * suc t)
unfolding ◌+ℤ◌
step_at_down a t zero h = ap pos (omega arith)
step_at_down a t (suc k) h =
    let e : pos a +ℤ negsuc t ≡ pos (a - suc t) = ground arith in
    rw e (step_at_down (a - suc t) t k (omega arith) ∙ ap pos (omega arith))

-- The number of whole steps of `t` in `n`, counted from the first.
lt_steps : (n t k : ℕ) → 0 < t → 0 < n → (k < (n - 1) / t + 1) ↔ (k * t < n)
lt_steps n t k ht hn =
    let iff = le-div_iff_mul-le {k = t} {x = k} {y = n - 1} ht in
    (λ h. omega (arith, iff.0 (omega arith)), λ h. omega (arith, iff.1 (omega arith)))

-- A slice with a step forwards counts the steps that stay before its stop.
pub slice_count_up :
    (a b t k c : ℕ)
    → slice_count (pos a) (pos b) (pos (suc t)) ≡ ok c
    → (k < c) ↔ (a + k * suc t < b)
unfolding slice_count
slice_count_up a b t k c h = elim (dec_lt a b) [
  | yes p ↦
      let e : c ≡ (b - a - 1) / suc t + 1 = ground arith in
      let iff = lt_steps (b - a) (suc t) k (omega arith) (omega arith) in
      rw e (λ q. omega (arith, iff.0 q), λ q. iff.1 (omega arith))
  | no p ↦
      let e : c ≡ 0 = ground arith in rw e (λ q. absurd (omega arith), λ q. absurd (omega arith))
]

-- The stop of a slice with a step backwards that ends above the first `low` elements.
abbrev pub stop_above : ℕ → ℤ
stop_above zero = negsuc 0
stop_above (suc b) = pos b

-- A slice with a step backwards counts the steps that stay after its stop.
pub slice_count_down :
    (a low t k c : ℕ)
    → slice_count (pos a) (stop_above low) (negsuc t) ≡ ok c
    → (k < c) ↔ (low + k * suc t ≤ a)
unfolding slice_count
slice_count_down a zero t k c h =
    let e : c ≡ (a + 1 - 1) / suc t + 1 = ground arith in
    let iff = lt_steps (a + 1) (suc t) k (omega arith) (omega arith) in
    rw e (λ q. omega (arith, iff.0 q), λ q. iff.1 (omega arith))
slice_count_down a (suc b) t k c h = elim (dec_lt b a) [
  | yes p ↦
      let e : c ≡ (a - b - 1) / suc t + 1 = ground arith in
      let iff = lt_steps (a - b) (suc t) k (omega arith) (omega arith) in
      rw e (λ q. omega (arith, iff.0 q), λ q. iff.1 (omega arith))
  | no p ↦
      let e : c ≡ 0 = ground arith in rw e (λ q. absurd (omega arith), λ q. absurd (omega arith))
]

-- The selectors that a caller passes for an axis of length `d`: an integer inside the axis, or a
-- slice as `slice.indices(d)` returns it.
pub data IsResolved (d : ℕ) : Selector → Type 0 where
  inside : (x : ℤ) (i : ℕ) → from_either_end d x ≡ some i → IsResolved d (int x)
  forwards : (a b t : ℕ) → b ≤ d → IsResolved d (slice (pos a) (pos b) (pos (suc t)))
  backwards : (a low t : ℕ) → a < d → IsResolved d (slice (pos a) (stop_above low) (negsuc t))
  before_all : (low t : ℕ) → IsResolved d (slice (negsuc 0) (stop_above low) (negsuc t))

-- What `slice.indices(d)` returns: with a step forwards both ends from 0 to `d`, with a step
-- backwards both from -1 to `d` - 1.
abbrev pub AreIndices : ℕ → ℤ → ℤ → ℤ → Type 0
AreIndices d start stop (pos zero) = ⊥
AreIndices d start stop (pos (suc t)) =
    (pos 0 ≤ℤ start) × (start ≤ℤ pos d) × (pos 0 ≤ℤ stop) × (stop ≤ℤ pos d)
AreIndices d start stop (negsuc t) =
    (negsuc 0 ≤ℤ start) × (start ≤ℤ pos d -ℤ pos 1) × (negsuc 0 ≤ℤ stop) × (stop ≤ℤ pos d -ℤ pos 1)

-- Every such slice is resolved.
AreIndices-IsResolved :
    (d : ℕ) (start stop step : ℤ)
    → AreIndices d start stop step
    → IsResolved d (slice start stop step)
unfolding ◌-ℤ◌
AreIndices-IsResolved d start stop (pos zero) h = absurd h
AreIndices-IsResolved d (pos a) (pos b) (pos (suc t)) (h, k, l, r) = forwards a b t (omega arith)
AreIndices-IsResolved d (negsuc a) stop (pos (suc t)) (h, k, l, r) = absurd (omega arith)
AreIndices-IsResolved d (pos a) (negsuc b) (pos (suc t)) (h, k, l, r) = absurd (omega arith)
AreIndices-IsResolved d (pos a) (pos b) (negsuc t) (h, k, l, r) =
    backwards a (suc b) t (ground arith)
AreIndices-IsResolved d (pos a) (negsuc zero) (negsuc t) (h, k, l, r) =
    backwards a 0 t (ground arith)
AreIndices-IsResolved d (pos a) (negsuc (suc b)) (negsuc t) (h, k, l, r) = absurd (omega arith)
AreIndices-IsResolved d (negsuc zero) (pos b) (negsuc t) h = before_all (suc b) t
AreIndices-IsResolved d (negsuc zero) (negsuc zero) (negsuc t) h = before_all 0 t
AreIndices-IsResolved d (negsuc zero) (negsuc (suc b)) (negsuc t) (h, k, l, r) =
    absurd (omega arith)
AreIndices-IsResolved d (negsuc (suc a)) stop (negsuc t) (h, k, l, r) = absurd (omega arith)

-- The plan of one axis picks what its selector says, all of it inside the axis.
pub data Picks (d : ℕ) : Selector → AxisPlan → Type 0 where
  element :
      (x : ℤ) (i : ℕ)
      → from_either_end d x ≡ some i
      → Picks d (int x) (record { start = i; step = pos 1; count = 1 })
  every :
      (a b t c : ℕ)
      → ((k : ℕ) → (k < c) ↔ (a + k * suc t < b))
      → b ≤ d
      → Picks d
          (slice (pos a) (pos b) (pos (suc t)))
          (record { start = a; step = pos (suc t); count = c })
  every_back :
      (a low t c : ℕ)
      → ((k : ℕ) → (k < c) ↔ (low + k * suc t ≤ a))
      → a < d
      → Picks d
          (slice (pos a) (stop_above low) (negsuc t))
          (record { start = a; step = negsuc t; count = c })
  nothing :
      (low t n : ℕ)
      → Picks d
          (slice (negsuc 0) (stop_above low) (negsuc t))
          (record { start = n; step = negsuc t; count = 0 })

pub Picks-IsReady :
    {d : ℕ} {sel : Selector} {p : AxisPlan}
    → Picks d sel p
    → (k : ℕ) → k < p.count
    → as_usize (step_at (pos p.start) p.step k) < d
Picks-IsReady (element x i e) zero h = from_either_end-lt _ x i e
Picks-IsReady (element x i e) (suc k) h = absurd (omega arith)
Picks-IsReady (every a b t c iff le) k h = rw (step_at_up a (suc t) k) (omega (arith, (iff k).0 h))
Picks-IsReady (every_back a low t c iff lt) k h =
    let fits = (iff k).0 h in rw (step_at_down a t k (omega arith)) (omega arith)
Picks-IsReady (nothing low t n) k h = absurd (omega arith)
