-- ===== src/Array/AnyArray/Dispatch.antt =====
-- The methods of `AnyArray` in src/array.rs, which go to the array of its dtype.
use lightarray.Prelude.{
  ℕ, List, [], ◌∷◌, Bool, false, ◌||◌, not, Option, none, some, if◌then◌else◌, ◌==◌, get_elem?,
  length, map, replicate, max,
}
use lightarray.Prelude.Int.{ℤ, pos, negsuc}
use lightarray.Outcome.{Result, ok, err, message, nothing_to_concatenate, ◌>>=◌, or_panic, expect}
use lightarray.Dims
use lightarray.Dims.{Dims}
use lightarray.Array
use lightarray.Array.{Element, Array}
use lightarray.Array.Locate
use lightarray.Array.Select
use lightarray.Array.Select.{Selector, Plan}
use lightarray.Array.Reorder
use lightarray.Array.AnyArray.{
  AnyArray, f64, i64, bool, Scalar, f, i, b, DtypeName, float64, int64, boolean, same_name, Casts,
  u8_of, i64_of, retyped_to, nonzero_from, push_loop, int_element, bool_element,
}

abbrev is_zero_int : ℤ → Bool
is_zero_int (pos n) = n == 0
is_zero_int (negsuc n) = false

-- Some element passes the test.
abbrev some_element {ℓ} : {A : Type ℓ} → (A → Bool) → List A → Bool
some_element test [] = false
some_element test (x ∷ xs) = test x || some_element test xs

abbrev map_option {ℓ κ} : {A : Type ℓ} {B : Type κ} → (A → B) → Option A → Option B
map_option g none = none
map_option g (some x) = some (g x)

module _ {F : Type 0} where
  abbrev pub dims : AnyArray F → Dims
  dims (f64 a) = a.dims
  dims (i64 a) = a.dims
  dims (bool a) = a.dims

  abbrev pub size : AnyArray F → ℕ
  size (f64 a) = length a.buffer
  size (i64 a) = length a.buffer
  size (bool a) = length a.buffer

  abbrev pub dtype_name : AnyArray F → DtypeName
  dtype_name (f64 a) = float64
  dtype_name (i64 a) = int64
  dtype_name (bool a) = boolean

  abbrev pub as_f64 : AnyArray F → Option (Array F)
  as_f64 (f64 a) = some a
  as_f64 _ = none

  abbrev pub as_bool : AnyArray F → Option (Array Bool)
  as_bool (bool a) = some a
  as_bool _ = none

  abbrev pub as_i64 : AnyArray F → Option (Array ℤ)
  as_i64 (i64 a) = some a
  as_i64 _ = none

  unfoldable pub to_f64 : Casts F → AnyArray F → Result (Array F)
  to_f64 c (f64 a) = ok a
  to_f64 c (i64 a) = retyped_to a 8 (map c.from_i64 a.buffer)
  to_f64 c (bool a) = retyped_to a 8 (map (λ v. c.from_u8 (u8_of v)) a.buffer)

  -- `Promote bool to int64; None for float64.`
  unfoldable pub to_i64 : AnyArray F → Result (Option (Array ℤ))
  to_i64 (f64 a) = ok none
  to_i64 (i64 a) = ok (some a)
  to_i64 (bool a) = retyped_to a 8 (map i64_of a.buffer) >>= λ r. ok (some r)

  unfoldable pub item : AnyArray F → Result (Option (Scalar F))
  item a = if not (size a == 1) then ok none else first a
    where
      first : AnyArray F → Result (Option (Scalar F))
      first (f64 a) = or_panic (get_elem? a.buffer 0) >>= λ v. ok (some (f v))
      first (i64 a) = or_panic (get_elem? a.buffer 0) >>= λ v. ok (some (i v))
      first (bool a) = or_panic (get_elem? a.buffer 0) >>= λ v. ok (some (b v))

  -- The arms of `cast` after the first, which keeps an array of the target's dtype.
  abbrev pub convert : Casts F → AnyArray F → DtypeName → Result (Option (AnyArray F))
  convert c a float64 = to_f64 c a >>= λ r. ok (some (f64 r))
  convert c (f64 a) int64 =
      if some_element (λ v. not (c.is_finite v) || c.abs_ge_limit v) a.buffer
      then ok none
      else ok (some (i64 (record { buffer = map c.to_i64 a.buffer; dims = a.dims })))
  convert c (bool a) int64 = retyped_to a 8 (map i64_of a.buffer) >>= λ r. ok (some (i64 r))
  convert c (f64 a) boolean =
      retyped_to a 1 (map (λ v. not (c.is_zero v)) a.buffer) >>= λ r. ok (some (bool r))
  convert c (i64 a) boolean =
      retyped_to a 1 (map (λ v. not (is_zero_int v)) a.buffer) >>= λ r. ok (some (bool r))
  convert c _ _ = ok none

  unfoldable pub cast : Casts F → AnyArray F → DtypeName → Result (Option (AnyArray F))
  unfolding to_f64
  cast c a target = if same_name (dtype_name a) target then ok (some a) else convert c a target

module _ {F : Type 0} ⦃element : Element F⦄ where
  -- The macro `map_each`, of a method that may fail.
  abbrev pub map_each :
      ((A : Type 0) → Element A → Array A → Result (Array A)) → AnyArray F → Result (AnyArray F)
  map_each method (f64 a) = method F element a >>= λ r. ok (f64 r)
  map_each method (i64 a) = method ℤ int_element a >>= λ r. ok (i64 r)
  map_each method (bool a) = method Bool bool_element a >>= λ r. ok (bool r)

  unfoldable pub index : AnyArray F → List ℤ → Result (AnyArray F)
  index a indices = map_each (λ A el x. Locate.index ⦃e = el⦄ x indices) a

  unfoldable pub select : AnyArray F → List Selector → Result (AnyArray F)
  select a sels = map_each (λ A el x. Select.select ⦃e = el⦄ x sels) a

  unfoldable pub reshape : AnyArray F → List ℕ → Result (AnyArray F)
  reshape a s = map_each (λ A el x. Array.reshape ⦃e = el⦄ x s) a

  unfoldable pub transpose : AnyArray F → Result (AnyArray F)
  transpose a = map_each (λ A el x. Reorder.transpose ⦃e = el⦄ x) a

  unfoldable pub take_leading : AnyArray F → List ℤ → Result (AnyArray F)
  take_leading a indices = map_each (λ A el x. Reorder.take_leading ⦃e = el⦄ x indices) a

  unfoldable pub compress_flat : AnyArray F → List Bool → Result (AnyArray F)
  compress_flat a mask = map_each (λ A el x. Reorder.compress_flat ⦃e = el⦄ x mask) a

  unfoldable pub get : AnyArray F → List ℤ → Result (Option (Scalar F))
  get (f64 a) indices = Locate.get a indices >>= λ o. ok (map_option f o)
  get (i64 a) indices = Locate.get a indices >>= λ o. ok (map_option i o)
  get (bool a) indices = Locate.get a indices >>= λ o. ok (map_option b o)

  unfoldable pub selection_plan : AnyArray F → List Selector → Result Plan
  selection_plan (f64 a) sels = Select.selection_plan a sels
  selection_plan (i64 a) sels = Select.selection_plan a sels
  selection_plan (bool a) sels = Select.selection_plan a sels

  unfoldable pub zeros_like : Casts F → AnyArray F → List ℕ → Result (AnyArray F)
  zeros_like c (f64 a) s = Array.filled s c.float_zero >>= λ r. ok (f64 r)
  zeros_like c (i64 a) s = Array.filled s (pos 0) >>= λ r. ok (i64 r)
  zeros_like c (bool a) s = Array.filled s false >>= λ r. ok (bool r)

  -- `refs` of `same!(F64)`: the arrays of the parts, if each is of that dtype.
  abbrev f64_parts : List (AnyArray F) → Option (List (Array F))
  f64_parts [] = some []
  f64_parts (f64 a ∷ parts) = map_option (◌∷◌ a) (f64_parts parts)
  f64_parts (_ ∷ parts) = none

  abbrev i64_parts : List (AnyArray F) → Option (List (Array ℤ))
  i64_parts [] = some []
  i64_parts (i64 a ∷ parts) = map_option (◌∷◌ a) (i64_parts parts)
  i64_parts (_ ∷ parts) = none

  abbrev bool_parts : List (AnyArray F) → Option (List (Array Bool))
  bool_parts [] = some []
  bool_parts (bool a ∷ parts) = map_option (◌∷◌ a) (bool_parts parts)
  bool_parts (_ ∷ parts) = none

  -- `Ok(None)` for parts of other dtypes.
  abbrev joined :
      {A : Type 0} ⦃el : Element A⦄
      → (Array A → AnyArray F)
      → Option (List (Array A))
      → ℤ
      → Result (Option (AnyArray F))
  joined wrap none axis = ok none
  joined wrap (some refs) axis = Reorder.concatenate refs axis >>= λ r. ok (some (wrap r))

  unfoldable pub concatenate : List (AnyArray F) → ℤ → Result (Option (AnyArray F))
  concatenate [] axis = err (message nothing_to_concatenate)
  concatenate (f64 a ∷ parts) axis = joined f64 (f64_parts (f64 a ∷ parts)) axis
  concatenate (i64 a ∷ parts) axis = joined i64 (i64_parts (i64 a ∷ parts)) axis
  concatenate (bool a ∷ parts) axis = joined bool (bool_parts (bool a ∷ parts)) axis

-- The flat places of the non-zero elements.
abbrev pub nonzero_places : {F : Type 0} → Casts F → AnyArray F → List ℕ
nonzero_places c (f64 a) = nonzero_from (λ v. not (c.is_zero v)) 0 a.buffer
nonzero_places c (i64 a) = nonzero_from (λ v. not (is_zero_int v)) 0 a.buffer
nonzero_places c (bool a) = nonzero_from (λ v. v) 0 a.buffer

abbrev one_dim : List (List ℤ) → Result (List (Array ℤ))
one_dim [] = ok []
one_dim (v ∷ vs) = do
  column ← expect (Array.new v (length v ∷ []))
  columns ← one_dim vs
  ok (column ∷ columns)

unfoldable pub nonzero : {F : Type 0} → Casts F → AnyArray F → Result (List (Array ℤ))
nonzero c a =
    let s = Dims.shape (dims a) in
    one_dim (push_loop s (nonzero_places c a) (replicate (max (length s) 1) []))
