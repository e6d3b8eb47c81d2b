-- ===== src/Operators/Integers.antt =====
-- Addition, subtraction and multiplication of int64 arrays by the operators of src/python.rs.
use package.lightarray.Prelude.{
  ℕ, zero, suc, ◌+◌, ◌-◌, ◌*◌, ◌%◌, ◌<◌, ◌≡◌, refl, sym, ap, ap₂, ◌∙◌, arith, List, [], ◌∷◌, Bool,
  true, false, Option, some, none, get_elem?, word,
}
use package.lightarray.Prelude.Int.{ℤ}
use package.lightarray.Outcome.{ok}
use package.lightarray.Dims.{Dims}
use package.lightarray.Array.{Element, Array}
use package.lightarray.Array.Broadcast.{eq_dims, eq_list}
use package.lightarray.Array.AnyArray.{
  i64, Casts, bits, from_bits, wrapping_add, zip_into, zip_same,
}
use package.lightarray.Operators.{
  Ufunc, add, subtract, multiply, array_object, array, binary_op, int_op, is_divide, wrapping_sub,
  wrapping_mul,
}

-- The 64 bits of a result, from those of the operands.
abbrev pub residue : Ufunc → ℕ → ℕ → Option ℕ
residue add x y = some ((x + y) % word)
residue subtract x y = some ((x + (word - y)) % word)
residue multiply x y = some (x * y % word)
residue _ x y = none

bits-from_bits : (n : ℕ) → n < word → bits (from_bits n) ≡ n
bits-from_bits n h = ground arith

some-injective {ℓ} : {A : Type ℓ} {x y : A} → some x ≡ some y → x ≡ y
some-injective e = cc

int_op-residue :
    (name : Ufunc) (op : ℤ → ℤ → ℤ) (x y : ℤ)
    → int_op name ≡ some op
    → residue name (bits x) (bits y) ≡ some (bits (op x y))
unfolding wrapping_add wrapping_sub wrapping_mul
int_op-residue add op x y h =
    ap some (sym (bits-from_bits ((bits x + bits y) % word) (omega arith)))
    ∙ ap (λ f. some (bits (f x y))) (some-injective h)
int_op-residue subtract op x y h =
    ap some (sym (bits-from_bits ((bits x + (word - bits y)) % word) (omega arith)))
    ∙ ap (λ f. some (bits (f x y))) (some-injective h)
int_op-residue multiply op x y h =
    ap some (sym (bits-from_bits (bits x * bits y % word) (omega arith)))
    ∙ ap (λ f. some (bits (f x y))) (some-injective h)
int_op-residue _ op x y h = cc

pub eq_list_refl : (xs : List ℕ) → eq_list xs xs ≡ true
eq_list_refl [] = refl
eq_list_refl (x ∷ xs) = let rest = eq_list_refl xs in ground arith

eq_dims_refl : (d : Dims) → eq_dims d d ≡ true
eq_dims_refl d =
    let s = eq_list_refl d.shape_slots in let t = eq_list_refl d.stride_slots in ground arith

pub get_elem?-zip_into {ℓ κ} :
    {A : Type ℓ} {B : Type κ} (g : A → A → B) (xs ys : List A) (i : ℕ) (x y : A)
    → get_elem? xs i ≡ some x
    → get_elem? ys i ≡ some y
    → get_elem? (zip_into g xs ys) i ≡ some (g x y)
get_elem?-zip_into g [] ys i x y h k = cc
get_elem?-zip_into g (a ∷ xs) [] i x y h k = cc
get_elem?-zip_into g (a ∷ xs) (b ∷ ys) zero x y h k =
    ap₂ (λ u v. some (g u v)) (some-injective h) (some-injective k)
get_elem?-zip_into g (a ∷ xs) (b ∷ ys) (suc i) x y h k = get_elem?-zip_into g xs ys i x y h k

abbrev pub in_turn : Bool → (ℕ → ℕ → Option ℕ) → ℕ → ℕ → Option ℕ
in_turn true f x y = f y x
in_turn false f x y = f x y

not_divide : (name : Ufunc) (op : ℤ → ℤ → ℤ) → int_op name ≡ some op → is_divide name ≡ false
not_divide add op h = refl
not_divide subtract op h = refl
not_divide multiply op h = refl
not_divide _ op h = cc

module _ {F : Type 0} ⦃e : Element F⦄ (c : Casts F) where
  -- Two int64 arrays of the same dims are added, subtracted and multiplied element by element, in
  -- the order of Python, modulo 2^64; the result is an int64 array of those dims.
  pub binary_op-wraps :
      (a b : Array ℤ) (reflected : Bool) (name : Ufunc) (g : F → F → F) (op : ℤ → ℤ → ℤ) (i : ℕ)
      (x y : ℤ)
      → a.dims ≡ b.dims
      → int_op name ≡ some op
      → get_elem? a.buffer i ≡ some x
      → get_elem? b.buffer i ≡ some y
      → (r : Array ℤ) × (binary_op c (i64 a) (array_object (i64 b)) reflected name g
          ≡ ok (array (i64 r)))
        × (r.dims ≡ a.dims)
        × ((z : ℤ) × (get_elem? r.buffer i ≡ some z)
            × (in_turn reflected (residue name) (bits x) (bits y) ≡ some (bits z)))
  unfolding binary_op zip_same
  binary_op-wraps a b false name g op i x y same known h k = (
    record { buffer = zip_into op a.buffer b.buffer; dims = a.dims },
    rw (not_divide name op known, known, ← same, eq_dims_refl a.dims) refl,
    refl,
    (op x y, get_elem?-zip_into op a.buffer b.buffer i x y h k, int_op-residue name op x y known),
  )
  binary_op-wraps a b true name g op i x y same known h k = (
    record { buffer = zip_into op b.buffer a.buffer; dims = b.dims },
    rw (not_divide name op known, known, same, eq_dims_refl b.dims) refl,
    sym same,
    (op y x, get_elem?-zip_into op b.buffer a.buffer i y x k h, int_op-residue name op y x known),
  )
