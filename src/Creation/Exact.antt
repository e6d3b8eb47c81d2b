-- ===== src/Creation/Exact.antt =====
-- Operations of i64 that do not overflow, for `arange` of src/lib.rs.
use lightarray.Prelude.{
  ℕ, zero, suc, ◌+◌, ◌-◌, ◌*◌, ◌%◌, ◌^◌, ◌<◌, ◌≤◌, ◌≡◌, sym, ap, ◌∙◌, arith, true, lt→ltb, word,
}
use native.Mathlib.Nat.{mod-eq_of_lt, mul_comm, add-mul-mod_self_left}
use lightarray.Prelude.Int.{ℤ, pos, negsuc, eq_of_parts, ◌+ℤ◌, ◌-ℤ◌, ◌*ℤ◌, int_laws}
use lightarray.Prelude.Int.Products.{*ℤ_pos, *ℤ_parts}
use lightarray.Array.AnyArray.{bits, from_bits, wrapping_add}
use lightarray.Operators.{is_i64, wrapping_sub, wrapping_mul}
use lightarray.Operators.Comparisons.{wrapping_abs}
use lightarray.Creation.{unsigned_abs}

pub wrapping_add-exact :
    (x y : ℤ)
    → is_i64 x ≡ true
    → is_i64 y ≡ true
    → is_i64 (x +ℤ y) ≡ true
    → wrapping_add x y ≡ x +ℤ y
unfolding wrapping_add ◌+ℤ◌
wrapping_add-exact (pos m) (pos n) h k r = ground arith
wrapping_add-exact (pos m) (negsuc n) h k r = ground arith
wrapping_add-exact (negsuc m) (pos n) h k r = ground arith
wrapping_add-exact (negsuc m) (negsuc n) h k r = ground arith

-- The distance of the ends.
pub distance :
    (a b : ℤ)
    → is_i64 a ≡ true
    → is_i64 b ≡ true
    → unsigned_abs (b -ℤ a) < 2 ^ 63
    → bits (wrapping_abs (wrapping_sub b a)) ≡ unsigned_abs (b -ℤ a)
unfolding wrapping_sub ◌-ℤ◌
distance (pos m) (pos n) h k r = ground arith
distance (pos m) (negsuc n) h k r = ground arith
distance (negsuc m) (pos n) h k r = ground arith
distance (negsuc m) (negsuc n) h k r = ground arith

negative_product :
    (j s : ℕ)
    → suc j * suc s < 2 ^ 63
    → s < 2 ^ 63
    → suc j * (word - 1 - s) % word ≡ word - suc j * suc s
negative_product j s h k =
    let t = word - 1 - s in
    let whole : t + suc s ≡ word = omega arith in
    let shared : suc j * (t + suc s) ≡ suc j * t + suc j * suc s = grind arith in
    let scaled : suc j * (t + suc s) ≡ suc j * word = ap (λ u. suc j * u) whole in
    let split : suc j * t ≡ (word - suc j * suc s) + word * j = omega arith in
    let some_left : 1 ≤ suc j * suc s = grind arith in
    let below : word - suc j * suc s < word = omega arith in
    ap (λ u. u % word) split
    ∙ add-mul-mod_self_left (word - suc j * suc s) word j
    ∙ mod-eq_of_lt below

pub wrapping_mul-exact :
    (i : ℕ) (st : ℤ)
    → i * unsigned_abs st < 2 ^ 63
    → i < 2 ^ 63
    → is_i64 st ≡ true
    → wrapping_mul (pos i) st ≡ pos i *ℤ st
unfolding wrapping_mul
wrapping_mul-exact i (pos s) h k r =
    let small : s < 2 ^ 63 = ground arith in
    let here : i % word ≡ i = omega arith in
    let there : s % word ≡ s = omega arith in
    let product : i * s % word ≡ i * s = omega arith in
    rw (here, there, product, lt→ltb (i * s) (2 ^ 63) h) (sym (*ℤ_pos i s))
wrapping_mul-exact zero (negsuc s) h k r =
    let empty : 0 * (word - 1 - s % word) ≡ 0 = grind arith in
    rw empty (eq_of_parts (pos 0) (pos 0 *ℤ negsuc s) (omega (arith, *ℤ_parts (pos 0) (negsuc s))))
wrapping_mul-exact (suc j) (negsuc s) h k r =
    let small : s < 2 ^ 63 = ground arith in
    let here : suc j % word ≡ suc j = omega arith in
    let there : s % word ≡ s = omega arith in
    let wrapped = negative_product j s h small in
    let some_left : 1 ≤ suc j * suc s = grind arith in
    let result : from_bits (word - suc j * suc s) ≡ negsuc (suc j * suc s - 1) = ground arith in
    rw (here, there, wrapped)
      (result ∙ eq_of_parts _ _ (omega (arith, *ℤ_parts (pos (suc j)) (negsuc s))))

from_zero : (n : ℕ) → n < 2 ^ 63 → is_i64 (pos 0 -ℤ pos n) ≡ true
unfolding ◌-ℤ◌
from_zero n h = ground arith

pub product_fits : (i : ℕ) (st : ℤ) → unsigned_abs st * i < 2 ^ 63 → is_i64 (pos i *ℤ st) ≡ true
product_fits i (pos t) h = rw (*ℤ_pos i t) (lt→ltb (i * t) (2 ^ 63) (omega (arith, mul_comm i t)))
product_fits i (negsuc t) h = rw (negative i t) (from_zero (suc t * i) h)
  where
    negative : (i t : ℕ) → pos i *ℤ negsuc t ≡ pos 0 -ℤ pos (suc t * i)
    negative i t = omega (int_laws, *ℤ_parts (pos i) (negsuc t))
