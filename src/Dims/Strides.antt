-- ===== src/Dims/Strides.antt =====
-- What `Dims::with_itemsize` of src/dims.rs lays out.
use native.Mathlib.Nat.{mod-eq_of_lt, mul_assoc, mul_comm, mul-div_right}
use native.Mathlib.Decide.{dec_le}
use lightarray.Prelude.{ℕ, zero, ◌^◌, ◌*◌, ◌/◌, ◌%◌, ◌≤◌, ◌<◌, ◌≡◌, refl, sym, ap, ap₂, ◌∙◌}
use lightarray.Prelude.{List, [], ◌∷◌, map, ltb, arith, false, suc}
use lightarray.Prelude.{
  length, take, drop, product, length-map, take-length-append, mod-mul, wrapping_product,
}
use lightarray.Prelude.{word, wrapping_mul, wrapping_product-mod, length-drop}
use lightarray.Outcome.{ok, err, panic, ok-ne-err, ok-injective, too_many_dims, dims_error}
use lightarray.Dims.{
  Dims, max_ndim, padded, stride_loop, with_itemsize, shape, strides, size, drop_leading,
}

-- The element strides of C order: for each axis, the number of elements of one step along it.
abbrev pub c_strides : List ℕ → List ℕ
c_strides [] = []
c_strides (d ∷ ds) = product ds ∷ c_strides ds

pub length-c_strides : (s : List ℕ) → length (c_strides s) ≡ length s
length-c_strides [] = refl
length-c_strides (d ∷ ds) = ap suc (length-c_strides ds)

-- The byte strides of C order in 64 bits.
abbrev pub byte_strides : ℕ → List ℕ → List ℕ
byte_strides itemsize s = map (λ n. itemsize * n % word) (c_strides s)

length-byte_strides : (z : ℕ) (s : List ℕ) → length (byte_strides z s) ≡ length s
length-byte_strides z s = length-map (λ n. z * n % word) (c_strides s) ∙ length-c_strides s

stride_loop-last : (z : ℕ) (s : List ℕ) → z < word → (stride_loop z s).1 ≡ z * product s % word
unfolding stride_loop
stride_loop-last z [] h = sym (mod-eq_of_lt (omega arith)) ∙ ap (λ t. t % word) (omega arith)
stride_loop-last z (d ∷ ds) h =
    ap (λ t. wrapping_mul t d) (stride_loop-last z ds h)
    ∙ mod-mul (z * product ds) d word
    ∙ ap (λ t. t % word) (mul_assoc z (product ds) d ∙ ap (λ t. z * t) (mul_comm (product ds) d))

stride_loop-strides : (z : ℕ) (s : List ℕ) → z < word → (stride_loop z s).0 ≡ byte_strides z s
unfolding stride_loop
stride_loop-strides z [] h = refl
stride_loop-strides z (d ∷ ds) h = ap₂ ◌∷◌ (stride_loop-last z ds h) (stride_loop-strides z ds h)

-- `d` describes the shape `s` with elements of `z` bytes.
pub record LaysOut (s : List ℕ) (z : ℕ) (d : Dims) : Type 0 where
  pub ndim : d.ndim ≡ length s
  pub itemsize : d.itemsize ≡ z
  pub shape : shape d ≡ s
  pub strides : strides d ≡ byte_strides z s
  pub size : size d ≡ product s % word

abbrev pub c_dims : List ℕ → ℕ → Dims
c_dims s z = record {
  ndim = length s;
  itemsize = z % 256;
  shape_slots = padded s;
  stride_slots = padded (byte_strides z s);
}

take-padded : (xs : List ℕ) {n : ℕ} → length xs ≡ n → take n (padded xs) ≡ xs
take-padded xs e = rw (← e) (take-length-append xs _)

pub c_dims-LaysOut : (s : List ℕ) (z : ℕ) → z < 256 → LaysOut s z (c_dims s z)
unfolding shape strides size
c_dims-LaysOut s z h = record {
  ndim = refl;
  itemsize = mod-eq_of_lt h;
  shape = take-length-append s _;
  strides = take-padded (byte_strides z s) (length-byte_strides z s);
  size = ap wrapping_product (take-length-append s _) ∙ wrapping_product-mod s;
}

pub with_itemsize-c_dims :
    (s : List ℕ) (z : ℕ) → length s ≤ max_ndim → z < 256 → with_itemsize s z ≡ ok (c_dims s z)
unfolding with_itemsize
with_itemsize-c_dims s z h k = rw (le-ltb h, stride_loop-strides z s (omega arith))
  where
    le-ltb : length s ≤ max_ndim → ltb max_ndim (length s) ≡ false
    le-ltb q = ground arith

-- With elements of less than 256 bytes, a shape of at most 8 axes is laid out in C order: the dims
-- give back the shape and the element size, the stride of each axis is the element size times the
-- product of the later axes modulo 2^64, and `size` is the product of the shape modulo 2^64. A
-- longer shape is refused with its number of axes.
pub with_itemsize-LaysOut :
    (s : List ℕ) (z : ℕ)
    → z < 256
    → (length s ≤ max_ndim → (d : Dims) × (with_itemsize s z ≡ ok d) × LaysOut s z d)
      × (max_ndim < length s → with_itemsize s z ≡ err (dims_error (too_many_dims (length s))))
unfolding with_itemsize
with_itemsize-LaysOut s z h = (
  λ short. (c_dims s z, with_itemsize-c_dims s z short h, c_dims-LaysOut s z h),
  λ long. ground arith,
)

-- What `with_itemsize` returns is the C-order layout.
pub with_itemsize-eq-ok :
    (s : List ℕ) (z : ℕ) (d : Dims)
    → z < 256
    → with_itemsize s z ≡ ok d
    → (length s ≤ max_ndim) × (d ≡ c_dims s z)
with_itemsize-eq-ok s z d h e = elim (dec_le (length s) max_ndim) [
  | yes p ↦ (p, ok-injective (sym e ∙ with_itemsize-c_dims s z p h))
  | no p ↦ absurd (ok-ne-err (sym e ∙ (with_itemsize-LaysOut s z h).1 (omega arith)))
]

-- Every trailing sub-shape takes less than 2^63 bytes, as every Rust allocation does.
abbrev pub Fits : ℕ → List ℕ → Type 0
Fits z [] = z < 2 ^ 63
Fits z (d ∷ ds) = (z * product (d ∷ ds) < 2 ^ 63) × Fits z ds

pub byte_strides-Fits :
    (z : ℕ) (s : List ℕ) → Fits z s → byte_strides z s ≡ map (λ n. z * n) (c_strides s)
byte_strides-Fits z [] f = refl
byte_strides-Fits z (d ∷ []) f = ap (λ n. n ∷ []) (mod-eq_of_lt (omega arith))
byte_strides-Fits z (d ∷ e ∷ ds) f =
    ap₂ ◌∷◌ (mod-eq_of_lt (omega arith)) (byte_strides-Fits z (e ∷ ds) f.1)

divide_out : (z : ℕ) (xs : List ℕ) → 0 < z → map (λ n. n / z) (map (λ n. z * n) xs) ≡ xs
divide_out z [] h = refl
divide_out z (x ∷ xs) h = ap₂ ◌∷◌ (mul-div_right x h) (divide_out z xs h)

-- In elements, the strides of a layout that fits are those of C order.
pub LaysOut-elem_strides :
    (s : List ℕ) (z : ℕ) (d : Dims)
    → 0 < z
    → Fits z s
    → LaysOut s z d
    → map (λ n. n / z) (strides d) ≡ c_strides s
LaysOut-elem_strides s z d h f l =
    ap (map (λ n. n / z)) (l.strides ∙ byte_strides-Fits z s f) ∙ divide_out z (c_strides s) h

pub Fits-product-lt : (z : ℕ) (s : List ℕ) → 0 < z → Fits z s → product s < 2 ^ 63
Fits-product-lt z [] h f = grind arith
Fits-product-lt z (d ∷ ds) h f = grind arith

pub Fits-drop : (z : ℕ) (n : ℕ) (s : List ℕ) → Fits z s → Fits z (drop n s)
Fits-drop z zero s f = f
Fits-drop z (suc n) [] f = f
Fits-drop z (suc n) (d ∷ ds) f = Fits-drop z n ds f.1

-- The size of a layout that fits is the number of elements of its shape.
pub LaysOut-size :
    (s : List ℕ) (z : ℕ) (d : Dims) → 0 < z → Fits z s → LaysOut s z d → size d ≡ product s
LaysOut-size s z d h f l = l.size ∙ mod-eq_of_lt (omega (arith, Fits-product-lt z s h f))

c_strides-drop : (n : ℕ) (s : List ℕ) → c_strides (drop n s) ≡ drop n (c_strides s)
c_strides-drop zero s = refl
c_strides-drop (suc n) [] = refl
c_strides-drop (suc n) (d ∷ ds) = c_strides-drop n ds

map-drop : (f : ℕ → ℕ) (n : ℕ) (xs : List ℕ) → map f (drop n xs) ≡ drop n (map f xs)
map-drop f zero xs = refl
map-drop f (suc n) [] = refl
map-drop f (suc n) (x ∷ xs) = map-drop f n xs

byte_strides-drop : (z n : ℕ) (s : List ℕ) → byte_strides z (drop n s) ≡ drop n (byte_strides z s)
byte_strides-drop z n s =
    ap (map (λ n. z * n % word)) (c_strides-drop n s) ∙ map-drop (λ n. z * n % word) n (c_strides s)

pub drop_leading-c_dims :
    (s : List ℕ) (z : ℕ) (d : Dims) (n : ℕ)
    → z < 256
    → length s ≤ max_ndim
    → n ≤ length s
    → LaysOut s z d
    → drop_leading d n ≡ ok (c_dims (drop n s) z)
unfolding drop_leading
drop_leading-c_dims s z d n h short le l = rw (l.shape, l.itemsize, none_past le, fits) refl
  where
    none_past : n ≤ length s → ltb (length s) n ≡ false
    none_past q = ground arith

    fits : with_itemsize (drop n s) z ≡ ok (c_dims (drop n s) z)
    fits = with_itemsize-c_dims (drop n s) z (omega (arith, length-drop n s)) h

-- Dropping leading axes of a layout leaves a layout of the other axes, with their strides
-- unchanged; dropping more axes than there are panics.
pub drop_leading-LaysOut :
    (s : List ℕ) (z : ℕ) (d : Dims) (n : ℕ)
    → z < 256
    → length s ≤ max_ndim
    → LaysOut s z d
    → (n ≤ length s
        → (e : Dims) × (drop_leading d n ≡ ok e)
          × LaysOut (drop n s) z e
          × (strides e ≡ drop n (strides d)))
      × (length s < n → drop_leading d n ≡ panic)
unfolding drop_leading
drop_leading-LaysOut s z d n h short l = (
  λ le.
      let e = c_dims-LaysOut (drop n s) z h in
      (
        c_dims (drop n s) z,
        drop_leading-c_dims s z d n h short le l,
        e,
        e.strides ∙ byte_strides-drop z n s ∙ ap (drop n) (sym l.strides),
      ),
  λ gt. rw l.shape (ground arith),
)
