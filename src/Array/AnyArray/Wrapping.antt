-- ===== src/Array/AnyArray/Wrapping.antt =====
-- The sum of an int64 array in src/array.rs, in 64 bits.
use lightarray.Prelude.{ℕ, ◌+◌, ◌%◌, ◌<◌, ◌≡◌, ap, ◌∙◌, arith, List, [], ◌∷◌, word}
use lightarray.Prelude.Int.{ℤ, pos, negsuc}
use lightarray.Array.{Array}
use lightarray.Array.AnyArray.{bits, from_bits, wrapping_add, sum_from, sum_int}

-- The elements as their 64 bits, summed without a wrap.
abbrev pub total : List ℤ → ℕ
total [] = 0
total (x ∷ xs) = bits x + total xs

bits-lt : (x : ℤ) → bits x < word
bits-lt (pos n) = omega arith
bits-lt (negsuc n) = omega arith

bits-from_bits : (n : ℕ) → n < word → bits (from_bits n) ≡ n
bits-from_bits n h = ground arith

bits-wrapping_add : (x y : ℤ) → bits (wrapping_add x y) ≡ (bits x + bits y) % word
unfolding wrapping_add
bits-wrapping_add x y = bits-from_bits ((bits x + bits y) % word) (omega arith)

shift : (a b c n : ℕ) → a ≡ (b + c) % word → (a + n) % word ≡ (b + (c + n)) % word
shift a b c n h = omega arith

sum_from-total : (acc : ℤ) (xs : List ℤ) → bits (sum_from acc xs) ≡ (bits acc + total xs) % word
sum_from-total acc [] = let small = bits-lt acc in omega arith
sum_from-total acc (x ∷ xs) =
    sum_from-total (wrapping_add acc x) xs
    ∙ shift (bits (wrapping_add acc x)) (bits acc) (bits x) (total xs) (bits-wrapping_add acc x)

-- The sum of an int64 array is, in 64 bits, the exact sum of its elements modulo 2^64.
pub sum_int-total : (a : Array ℤ) → bits (sum_int a) ≡ total a.buffer % word
unfolding sum_int
sum_int-total a = sum_from-total (pos 0) a.buffer ∙ ap (λ n. n % word) (omega arith)
