-- ===== src/Array/AnyArray.antt =====
-- The dtype-erased array of src/array.rs: `AnyArray`, `Scalar`, the promotions and casts, and the
-- kernels of bool and int64 arrays. An i64 is an integer; its arithmetic wraps around at 64 bits.
pub mod Unravel
pub mod Wrapping
pub mod Dispatch
mod Tests
use package.lightarray.Prelude.{
  ℕ, zero, suc, ◌+◌, ◌-◌, ◌*◌, ◌/◌, ◌%◌, ◌^◌, List, [], ◌∷◌, ◌++◌, Bool, true, false, ◌&&◌, not,
  Option, none, some, if◌then◌else◌, ltb, ◌==◌, get_elem?, length, map, replicate, word, max, arith,
}
use package.lightarray.Prelude.Int.{ℤ, pos, negsuc, ltb_ℤ}
use package.lightarray.Outcome.{
  Result, ok, err, panic, message, nothing_to_concatenate, ◌>>=◌, ◌>>◌, ensure, or_panic, expect,
}
use package.lightarray.Dims
use package.lightarray.Dims.{Dims}
use package.lightarray.Array
use package.lightarray.Array.{Element, Array}
use package.lightarray.Array.Locate
use package.lightarray.Array.Select.{Selector}
use package.lightarray.Array.Select
use package.lightarray.Array.Broadcast.{eq_dims, eq_list}
use package.lightarray.Array.Reorder

instance abbrev pub int_element : Element ℤ
int_element = record {
  size_of = 8;
  default = pos 0;
  size_of_pos = omega arith;
  size_of_small = omega arith;
}

instance abbrev pub bool_element : Element Bool
bool_element = record {
  size_of = 1;
  default = false;
  size_of_pos = omega arith;
  size_of_small = omega arith;
}

-- The 64 bits of an i64, and the i64 of 64 bits.
abbrev pub bits : ℤ → ℕ
bits (pos n) = n % word
bits (negsuc n) = word - 1 - n % word

abbrev pub from_bits : ℕ → ℤ
from_bits n = if ltb n (2 ^ 63) then pos n else negsuc (word - 1 - n)

unfoldable pub wrapping_add : ℤ → ℤ → ℤ
wrapping_add x y = from_bits ((bits x + bits y) % word)

-- The names of `dtype_name`, and any other string.
pub data DtypeName : Type 0 where
  float64 int64 boolean unknown : DtypeName

abbrev pub same_name : DtypeName → DtypeName → Bool
same_name float64 float64 = true
same_name int64 int64 = true
same_name boolean boolean = true
same_name _ _ = false

-- `as` between f64 and the others, and the tests of f64 that `cast` makes.
pub record Casts (F : Type 0) : Type 0 where
  pub float_zero : F
  pub from_i64 : ℤ → F
  pub from_u8 : ℕ → F
  pub to_i64 : F → ℤ
  pub is_zero : F → Bool
  pub is_finite : F → Bool
  pub abs_ge_limit : F → Bool

pub data AnyArray (F : Type 0) : Type 0 where
  f64 : Array F → AnyArray F
  i64 : Array ℤ → AnyArray F
  bool : Array Bool → AnyArray F

pub data Scalar (F : Type 0) : Type 0 where
  f : F → Scalar F
  i : ℤ → Scalar F
  b : Bool → Scalar F

abbrev pub u8_of : Bool → ℕ
u8_of true = 1
u8_of false = 0

abbrev pub i64_of : Bool → ℤ
i64_of x = pos (u8_of x)

-- `zip(..).map(..)` of two buffers into another type.
abbrev pub zip_into {ℓ κ} : {A : Type ℓ} {B : Type κ} → (A → A → B) → List A → List A → List B
zip_into g (x ∷ xs) (y ∷ ys) = g x y ∷ zip_into g xs ys
zip_into g _ _ = []

-- The elements under the dims of `a`, retyped to an element size.
abbrev pub retyped_to {ℓ κ} : {A : Type ℓ} {B : Type κ} → Array A → ℕ → List B → Result (Array B)
retyped_to a itemsize buffer = do
  dims ← Dims.retyped a.dims itemsize
  ok (record { buffer = buffer; dims = dims })

unfoldable pub compare {ℓ} :
    {A : Type ℓ} → Array A → Array A → (A → A → Bool) → Result (Option (Array Bool))
compare x y g =
    if eq_list (Array.shape x) (Array.shape y)
    then retyped_to x 1 (zip_into g x.buffer y.buffer) >>= (λ r. ok (some r))
    else ok none

unfoldable pub compare_scalar {ℓ} : {A : Type ℓ} → Array A → (A → Bool) → Result (Array Bool)
compare_scalar x g = retyped_to x 1 (map g x.buffer)

abbrev pub number_set : List Bool → ℕ
number_set [] = 0
number_set (true ∷ xs) = suc (number_set xs)
number_set (false ∷ xs) = number_set xs

unfoldable pub not_array : Array Bool → Array Bool
not_array x = record { buffer = map not x.buffer; dims = x.dims }

-- `zip_bool` and `zip_int`.
unfoldable pub zip_same {ℓ} : {A : Type ℓ} → Array A → Array A → (A → A → A) → Option (Array A)
zip_same x y g =
    if eq_dims x.dims y.dims
    then some (record { buffer = zip_into g x.buffer y.buffer; dims = x.dims })
    else none

abbrev pub sum_from : ℤ → List ℤ → ℤ
sum_from acc [] = acc
sum_from acc (x ∷ xs) = sum_from (wrapping_add acc x) xs

unfoldable pub sum_int : Array ℤ → ℤ
sum_int x = sum_from (pos 0) x.buffer

-- Where the non-zero elements stand, from the place `k`.
abbrev pub nonzero_from {ℓ} : {A : Type ℓ} → (A → Bool) → ℕ → List A → List ℕ
nonzero_from is_set k [] = []
nonzero_from is_set k (x ∷ xs) =
    let rest = nonzero_from is_set (suc k) xs in if is_set x then k ∷ rest else rest

-- The loop over the axes from the last: the index on each, and what is left of `rem`.
unfoldable pub unravel : List ℕ → ℕ → List ℕ × ℕ
unravel [] rem = ([], rem)
unravel (d ∷ s) rem = let (idx, left) = unravel s rem in (left % d ∷ idx, left / d)

-- `out[k].push(..)` for each axis.
abbrev pub push_each : List ℕ → List (List ℤ) → List (List ℤ)
push_each (j ∷ idx) (column ∷ out) = (column ++ (pos j ∷ [])) ∷ push_each idx out
push_each _ out = out

abbrev pub index_of : List ℕ → ℕ → List ℕ
index_of [] flat = 0 ∷ []
index_of (d ∷ s) flat = (unravel (d ∷ s) flat).0

abbrev pub push_loop : List ℕ → List ℕ → List (List ℤ) → List (List ℤ)
push_loop s [] out = out
push_loop s (flat ∷ flats) out = push_loop s flats (push_each (index_of s flat) out)
