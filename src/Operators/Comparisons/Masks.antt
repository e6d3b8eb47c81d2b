-- ===== src/Operators/Comparisons/Masks.antt =====
-- What `__richcmp__` of src/python.rs answers on arrays of one shape.
use lightarray.Prelude.{
  ℕ, ◌≡◌, ◌≢◌, ◌↔◌, refl, ap, arith, List, Bool, true, not, Bool-cases, inl, inr, Option, some, map,
  get_elem?, get_elem?-map,
}
use lightarray.Prelude.Int.{ℤ, pos, negsuc, ◌≤ℤ◌, ltb_ℤ}
use lightarray.Outcome.{ok}
use lightarray.Dims
use lightarray.Dims.Strides.{c_dims, with_itemsize-c_dims}
use lightarray.Array.{Element, Array}
use lightarray.Array.Valid.{HasShape, shape-HasShape}
use lightarray.Array.AnyArray.{
  int_element, f64, i64, bool, Casts, compare, compare_scalar, zip_into, retyped_to,
}
use lightarray.Layout.{eq_ℤ}
use lightarray.Layout.Compact.{eq_ℤ-true}
use lightarray.Operators.{array_object, int_object, array, is_i64}
use lightarray.Operators.Integers.{eq_list_refl, get_elem?-zip_into}
use lightarray.Operators.Comparisons.{CompareOp, lt, le, eq, ne, gt, ge, int_compare, richcmp}

-- What an operator says of two integers.
abbrev pub Holds : CompareOp → ℤ → ℤ → Type 0
Holds lt x y = (x ≤ℤ y) × (x ≢ y)
Holds le x y = x ≤ℤ y
Holds eq x y = x ≡ y
Holds ne x y = x ≢ y
Holds gt x y = (y ≤ℤ x) × (y ≢ x)
Holds ge x y = y ≤ℤ x

less_lem : (x y : ℤ) → (ltb_ℤ x y ≡ true) ↔ ((x ≤ℤ y) × (x ≢ y))
less_lem (pos m) (pos n) = (
  λ h. (ground arith, λ e. ground arith),
  λ (h, k). let k' : m ≢ n = λ e. k (ap pos e) in ground arith,
)
less_lem (pos m) (negsuc n) = (λ h. (ground arith, λ e. cc), λ (h, k). ground arith)
less_lem (negsuc m) (pos n) = (λ h. (ground arith, λ e. cc), λ (h, k). ground arith)
less_lem (negsuc m) (negsuc n) = (
  λ h. (ground arith, λ e. ground arith),
  λ (h, k). let k' : m ≢ n = λ e. k (ap negsuc e) in ground arith,
)

not_less_lem : (x y : ℤ) → (not (ltb_ℤ y x) ≡ true) ↔ (x ≤ℤ y)
not_less_lem x y = (λ h. ground arith, λ h. ground arith)

not_equal_lem : (x y : ℤ) → (not (eq_ℤ x y) ≡ true) ↔ (x ≢ y)
not_equal_lem x y =
    let iff = eq_ℤ-true x y in
    (
      λ h e. let same = iff.1 e in ground arith,
      λ h. elim (Bool-cases (eq_ℤ x y)) [ inl e ↦ absurd (h (iff.0 e)) | inr e ↦ rw e refl ],
    )

int_compare-Holds : (op : CompareOp) (x y : ℤ) → (int_compare op x y ≡ true) ↔ Holds op x y
int_compare-Holds lt x y = less_lem x y
int_compare-Holds le x y = not_less_lem x y
int_compare-Holds eq x y = eq_ℤ-true x y
int_compare-Holds ne x y = not_equal_lem x y
int_compare-Holds gt x y = less_lem y x
int_compare-Holds ge x y = not_less_lem y x

-- The mask of a shape with the given elements.
abbrev pub mask_array : List ℕ → List Bool → Array Bool
mask_array s xs = record { buffer = xs; dims = c_dims s 1 }

retyped_to-mask {ℓ} :
    {A : Type ℓ} ⦃e : Element A⦄ (s : List ℕ) (a : Array A) (xs : List Bool)
    → HasShape s a
    → retyped_to a 1 xs ≡ ok (mask_array s xs)
unfolding Dims.retyped
retyped_to-mask s a xs v =
    rw (shape-HasShape v, with_itemsize-c_dims s 1 v.short (omega arith)) refl

compare-mask {ℓ} :
    {A : Type ℓ} ⦃e : Element A⦄ (s : List ℕ) (a b : Array A) (g : A → A → Bool)
    → HasShape s a
    → HasShape s b
    → compare a b g ≡ ok (some (mask_array s (zip_into g a.buffer b.buffer)))
unfolding compare
compare-mask s a b g v w =
    rw (shape-HasShape v, shape-HasShape w, eq_list_refl s)
      (rw (retyped_to-mask s a (zip_into g a.buffer b.buffer) v) refl)

compare_scalar-mask {ℓ} :
    {A : Type ℓ} ⦃e : Element A⦄ (s : List ℕ) (a : Array A) (g : A → Bool)
    → HasShape s a
    → compare_scalar a g ≡ ok (mask_array s (map g a.buffer))
unfolding compare_scalar
compare_scalar-mask s a g v = retyped_to-mask s a (map g a.buffer) v

module _ {F : Type 0} ⦃el : Element F⦄ (c : Casts F) (fc : CompareOp → F → F → Bool) where
  -- A comparison of two int64 arrays of one shape, or of an int64 array with an integer that an i64
  -- holds, answers a bool array of the shape that is true exactly where the operator holds of the
  -- two integers. That of two float64 arrays of one shape holds the comparison of their elements.
  pub richcmp-Holds :
      (op : CompareOp) (s : List ℕ) (a b : Array ℤ) (p q : Array F) (n : ℤ) (v : Option F) (i : ℕ)
      (x y : ℤ) (u w : F)
      → HasShape s a
      → HasShape s b
      → HasShape s p
      → HasShape s q
      → is_i64 n ≡ true
      → get_elem? a.buffer i ≡ some x
      → get_elem? b.buffer i ≡ some y
      → get_elem? p.buffer i ≡ some u
      → get_elem? q.buffer i ≡ some w
      → ((r : List Bool) × (richcmp c fc (i64 a) (array_object (i64 b)) op
            ≡ ok (array (bool (mask_array s r))))
          × ((t : Bool) × (get_elem? r i ≡ some t) × ((t ≡ true) ↔ Holds op x y)))
        × ((r : List Bool) × (richcmp c fc (i64 a) (int_object n v) op
              ≡ ok (array (bool (mask_array s r))))
            × ((t : Bool) × (get_elem? r i ≡ some t) × ((t ≡ true) ↔ Holds op x n)))
        × ((r : List Bool) × (richcmp c fc (f64 p) (array_object (f64 q)) op
              ≡ ok (array (bool (mask_array s r))))
            × (get_elem? r i ≡ some (fc op u w)))
  unfolding richcmp
  richcmp-Holds op s a b p q n v i x y u w va vb vp vq fits ha hb hp hq = (
    (
      zip_into (int_compare op) a.buffer b.buffer,
      rw (compare-mask s a b (int_compare op) va vb) refl,
      (
        int_compare op x y,
        get_elem?-zip_into (int_compare op) a.buffer b.buffer i x y ha hb,
        int_compare-Holds op x y,
      ),
    ),
    (
      map (λ z. int_compare op z n) a.buffer,
      rw (fits, compare_scalar-mask s a (λ z. int_compare op z n) va) refl,
      (
        int_compare op x n,
        get_elem?-map (λ z. int_compare op z n) a.buffer i ha,
        int_compare-Holds op x n,
      ),
    ),
    (
      zip_into (fc op) p.buffer q.buffer,
      rw (compare-mask s p q (fc op) vp vq) refl,
      get_elem?-zip_into (fc op) p.buffer q.buffer i u w hp hq,
    ),
  )
