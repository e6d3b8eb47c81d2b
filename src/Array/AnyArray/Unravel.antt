-- ===== src/Array/AnyArray/Unravel.antt =====
-- `nonzero` of src/array.rs: the index it takes apart is the position of the element.
use native.Mathlib.Nat.{mod-lt, div-add-mod', mul_assoc}
use lightarray.Prelude.{
  ℕ, zero, suc, ◌+◌, ◌*◌, ◌/◌, ◌%◌, ◌<◌, ◌≡◌, refl, ap, arith, List, [], ◌∷◌, length, product,
}
use lightarray.Array.Locate.Order.{flat, Inside}
use lightarray.Array.AnyArray.{unravel}

-- Taking a number apart gives a position inside the shape and the number of whole arrays before.
unravel_all :
    (s : List ℕ) (rem : ℕ)
    → 0 < product s
    → Inside s (unravel s rem).0
      × (length (unravel s rem).0 ≡ length s)
      × (flat s (unravel s rem).0 + (unravel s rem).1 * product s ≡ rem)
unfolding unravel
unravel_all [] rem h = (tt, refl, omega arith)
unravel_all (d ∷ s) rem h =
    let p = product s in
    let (inside, full, same) = unravel_all s rem (grind arith) in
    let left = (unravel s rem).1 in
    let axis : left % d < d = mod-lt left (grind arith) in
    let split : (left / d * d + left % d) * p ≡ left * p = ap (λ t. t * p) (div-add-mod' left d) in
    ((axis, inside), ap suc full, omega (arith, same, split, mul_assoc (left / d) d p))

-- Below the number of elements of a shape, the index on each axis that `nonzero` computes is that
-- of the position at this place in C order.
pub unravel-flat :
    (s : List ℕ) (k : ℕ)
    → k < product s
    → Inside s (unravel s k).0 × (length (unravel s k).0 ≡ length s) × (flat s (unravel s k).0 ≡ k)
unravel-flat s k h =
    let (inside, full, same) = unravel_all s k (omega arith) in
    (inside, full, none_before (unravel s k).1 (flat s (unravel s k).0) (product s) k same h)
  where
    none_before : (q r p n : ℕ) → r + q * p ≡ n → n < p → r ≡ n
    none_before zero r p n e l = omega arith
    none_before (suc q) r p n e l = absurd (omega arith)
