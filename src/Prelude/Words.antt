-- ===== src/Prelude/Words.antt =====
-- Products of `usize` in a release build: 64 bits that wrap around.
use Prim.Native.Nat.{ℕ, ◌+◌, ◌*◌, ◌%◌, ◌/◌, ◌<◌, ◌≤◌, ◌^◌}
use mathlib.Core.Path.{◌≡◌, sym, ap, ◌∙◌}
use mathlib.Core.List.{List, [], ◌∷◌}
use native.Mathlib.Omega.{arith}
use native.Mathlib.Nat.{mod-eq_of_lt, div-add-mod, add-mul-mod_self_left, mul_assoc}
use lightarray.Prelude.Lists.{product}

abbrev pub word : ℕ
word = 2 ^ 64

abbrev pub wrapping_mul : ℕ → ℕ → ℕ
wrapping_mul a b = a * b % word

-- `iter().product()`: a fold from 1.
abbrev pub product_from : ℕ → List ℕ → ℕ
product_from acc [] = acc
product_from acc (d ∷ ds) = product_from (wrapping_mul acc d) ds

abbrev pub wrapping_product : List ℕ → ℕ
wrapping_product = product_from 1

pub mod-mul : (a b m : ℕ) → a % m * b % m ≡ a * b % m
mod-mul a b m =
    let split : a % m * b + m * (a / m * b) ≡ a * b =
      omega (arith, ap (λ t. t * b) (div-add-mod a m)) in
    sym (add-mul-mod_self_left (a % m * b) m (a / m * b)) ∙ ap (λ t. t % m) split

product_from_lem : (acc : ℕ) (ds : List ℕ) → product_from acc ds % word ≡ acc * product ds % word
product_from_lem acc [] = ap (λ t. t % word) (omega arith)
product_from_lem acc (d ∷ ds) =
    product_from_lem (wrapping_mul acc d) ds
    ∙ mod-mul (acc * d) (product ds) word
    ∙ ap (λ t. t % word) (mul_assoc acc d (product ds))

product_from-lt : (acc : ℕ) (ds : List ℕ) → acc < word → product_from acc ds < word
product_from-lt acc [] h = h
product_from-lt acc (d ∷ ds) h = product_from-lt (wrapping_mul acc d) ds (omega arith)

-- The machine product is the product modulo 2^64.
pub wrapping_product-mod : (ds : List ℕ) → wrapping_product ds ≡ product ds % word
wrapping_product-mod ds =
    sym (mod-eq_of_lt (product_from-lt 1 ds (omega arith)))
    ∙ product_from_lem 1 ds
    ∙ ap (λ t. t % word) (omega arith)

-- A product that fits 64 bits is computed exactly.
pub wrapping_product-exact : (ds : List ℕ) → product ds < word → wrapping_product ds ≡ product ds
wrapping_product-exact ds h = wrapping_product-mod ds ∙ mod-eq_of_lt h

pub mul_mono : (a b c d : ℕ) → a ≤ b → c ≤ d → a * c ≤ b * d
mul_mono a b c d h k = grind arith
