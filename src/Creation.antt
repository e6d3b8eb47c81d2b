-- ===== src/Creation.antt =====
-- `arange` of integers and `linspace` of src/lib.rs, once PyO3 has extracted the numbers.
pub mod Ceiling
pub mod Exact
pub mod Steps
pub mod Progression
mod Tests
use lightarray.Prelude.{
  ℕ, zero, suc, ◌+◌, ◌-◌, ◌/◌, ◌%◌, ◌^◌, List, [], ◌∷◌, Bool, true, false, ◌&&◌, ◌||◌, Option, none,
  some, if◌then◌else◌, ltb, set,
}
use lightarray.Prelude.Int.{ℤ, pos, negsuc, ltb_ℤ}
use lightarray.Outcome.{Result, ok, err, panic, ◌>>=◌}
use lightarray.Array.{Element, Array, new}
use lightarray.Array.Kernels.{Floats}
use lightarray.Array.AnyArray.{bits, wrapping_add, int_element}
use lightarray.Layout.{eq_ℤ}
use lightarray.Operators.{wrapping_sub, wrapping_mul}
use lightarray.Operators.Comparisons.{wrapping_abs}

-- `arange(start)` or `arange(start, stop)`.
abbrev pub ends : ℤ → Option ℤ → ℤ × ℤ
ends start none = (pos 0, start)
ends start (some stop) = (start, stop)

abbrev pub step_or_one : Option ℤ → ℤ
step_or_one none = pos 1
step_or_one (some step) = step

abbrev pub unsigned_abs : ℤ → ℕ
unsigned_abs (pos n) = n
unsigned_abs (negsuc n) = suc n

abbrev pub div_ceil : ℕ → ℕ → ℕ
div_ceil n d = if ltb 0 (n % d) then n / d + 1 else n / d

-- The step leads from the start to the end.
abbrev pub leads : ℤ → ℤ → ℤ → Bool
leads a b st = ltb_ℤ (pos 0) st && ltb_ℤ a b || ltb_ℤ st (pos 0) && ltb_ℤ b a

unfoldable pub range_length : ℤ → ℤ → ℤ → ℕ
unfolding wrapping_sub
range_length a b st =
    if leads a b st then div_ceil (bits (wrapping_abs (wrapping_sub b a))) (unsigned_abs st) else 0

-- `n` more elements, from number `i` on.
abbrev pub range_from : ℤ → ℤ → ℕ → ℕ → List ℤ
range_from a st i zero = []
range_from a st i (suc n) = wrapping_add a (wrapping_mul (pos i) st) ∷ range_from a st (suc i) n

-- The length as an `i64`, where a negative one makes an empty range.
unfoldable pub range_data : ℤ → ℤ → ℕ → List ℤ
unfolding wrapping_add wrapping_mul
range_data a st n = range_from a st 0 (if ltb n (2 ^ 63) then n else 0)

-- Without an array, a `PyZeroDivisionError`.
unfoldable pub int_range : ℤ → Option ℤ → Option ℤ → Result (Option (Array ℤ))
unfolding range_length range_data
int_range start stop step =
    let (a, b) = ends start stop in
    let st = step_or_one step in
    let n = range_length a b st in
    if eq_ℤ st (pos 0) then ok none else (new (range_data a st n) (n ∷ []) >>= λ r. ok (some r))

module _ {F : Type 0} ⦃e : Element F⦄ (c : Floats F) where
  abbrev pub points_from : F → F → ℕ → ℕ → List F
  points_from a step i zero = []
  points_from a step i (suc n) =
      c.add a (c.mul (c.from_usize i) step) ∷ points_from a step (suc i) n

  unfoldable pub points : F → F → ℕ → Bool → List F
  points a b num endpoint =
      let div = if endpoint then num - 1 else num in
      let step = if ltb 0 div then c.div (c.sub b a) (c.from_usize div) else c.nil in
      let sampled = points_from a step 0 num in
      if endpoint && ltb 1 num then set sampled (num - 1) b else sampled

  unfoldable pub linspace : F → F → ℕ → Bool → Result (Array F)
  unfolding points
  linspace a b num endpoint = new (points a b num endpoint) (num ∷ [])
