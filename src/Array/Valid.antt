-- ===== src/Array/Valid.antt =====
-- The invariant of `Array`: C-order dims over a buffer with an element for each index, and that
-- the constructors of src/array.rs establish it.
use lightarray.Prelude.{ℕ, ◌≤◌, ◌≡◌, refl, sym, ap, ◌∙◌, List, arith, length, product}
use lightarray.Prelude.{length-replicate}
use lightarray.Prelude.{◌≢◌, ◌==◌, replicate}
use lightarray.Outcome.{ok, err, size_mismatch, ok-injective, >>=-eq-ok, ensure-eq-ok}
use lightarray.Dims
use lightarray.Dims.{Dims, max_ndim}
use lightarray.Dims.Strides.{
  LaysOut, Fits, c_dims, c_dims-LaysOut, with_itemsize-c_dims, with_itemsize-eq-ok, LaysOut-size,
}
use lightarray.Array.{Element, Array, shape, new, filled, reshape}

module _ {ℓ} {A : Type ℓ} ⦃e : Element A⦄ where
  -- `a` is an array of shape `s`.
  pub record HasShape (s : List ℕ) (a : Array A) : Type 0 where
    pub short : length s ≤ max_ndim
    pub fits : Fits e.size_of s
    pub dims : a.dims ≡ c_dims s e.size_of
    pub full : length a.buffer ≡ product s

  abbrev pub IsValid : Array A → Type 0
  IsValid a = HasShape (shape a) a

  module _ {s : List ℕ} {a : Array A} (v : HasShape s a) where
    pub HasShape-LaysOut : LaysOut s e.size_of a.dims
    HasShape-LaysOut = rw v.dims (c_dims-LaysOut s e.size_of e.size_of_small)

    pub shape-HasShape : shape a ≡ s
    shape-HasShape = HasShape-LaysOut.shape

  -- A shape that fits and has as many elements as the data is accepted, and the array has it.
  pub new-HasShape :
      (buffer : List A) (s : List ℕ)
      → length s ≤ max_ndim
      → Fits e.size_of s
      → length buffer ≡ product s
      → (a : Array A) × (new buffer s ≡ ok a) × (a.buffer ≡ buffer) × HasShape s a
  unfolding new
  new-HasShape buffer s short f full = (
    record { buffer = buffer; dims = c_dims s e.size_of },
    rw (with_itemsize-c_dims s e.size_of short e.size_of_small) (rw exact (ground arith)),
    refl,
    record { short = short; fits = f; dims = refl; full = full },
  )
    where
      exact : Dims.size (c_dims s e.size_of) ≡ length buffer
      exact =
          LaysOut-size s e.size_of (c_dims s e.size_of) e.size_of_pos f
            (c_dims-LaysOut s e.size_of e.size_of_small)
          ∙ sym full

  -- Whatever `new` accepts is an array of that shape over that data, if the shape fits.
  pub new-eq-ok :
      (buffer : List A) (s : List ℕ) (a : Array A)
      → Fits e.size_of s
      → new buffer s ≡ ok a
      → HasShape s a × (a.buffer ≡ buffer)
  unfolding new
  new-eq-ok buffer s a f h =
      let (d, laid, rest) = >>=-eq-ok (Dims.with_itemsize s e.size_of) _ h in
      let (short, same) = with_itemsize-eq-ok s e.size_of d e.size_of_small laid in
      let (exact, out) = ensure-eq-ok (Dims.size d == length buffer) _ _ rest in
      let known : Dims.size d ≡ product s =
        ap Dims.size same
        ∙ LaysOut-size s e.size_of (c_dims s e.size_of) e.size_of_pos f
            (c_dims-LaysOut s e.size_of e.size_of_small) in
      let full : length buffer ≡ product s = ground arith in
      let made = ok-injective out in
      rw (← made) (record { short = short; fits = f; dims = same; full = full }, refl)

  -- A shape that fits but has another number of elements is refused with the two numbers.
  new-size_mismatch :
      (buffer : List A) (s : List ℕ)
      → length s ≤ max_ndim
      → Fits e.size_of s
      → length buffer ≢ product s
      → new buffer s ≡ err (size_mismatch (product s) (length buffer))
  unfolding new
  new-size_mismatch buffer s short f differ =
      rw
        (
          with_itemsize-c_dims s e.size_of short e.size_of_small,
          LaysOut-size s e.size_of (c_dims s e.size_of) e.size_of_pos f
              (c_dims-LaysOut s e.size_of e.size_of_small),
        )
        (ground arith)

  pub filled-HasShape :
      (s : List ℕ) (v : A)
      → length s ≤ max_ndim
      → Fits e.size_of s
      → (a : Array A) × (filled s v ≡ ok a) × (a.buffer ≡ replicate (product s) v) × HasShape s a
  unfolding filled
  filled-HasShape s v short f =
      let exact =
        LaysOut-size s e.size_of (c_dims s e.size_of) e.size_of_pos f
          (c_dims-LaysOut s e.size_of e.size_of_small) in
      (
        record { buffer = replicate (product s) v; dims = c_dims s e.size_of },
        rw (with_itemsize-c_dims s e.size_of short e.size_of_small) (rw exact refl),
        refl,
        record { short = short; fits = f; dims = refl; full = length-replicate (product s) v },
      )

  -- `reshape` to a shape of at most 8 axes that fits, with the same number of elements, succeeds, and
  -- reshaping back gives the same array.
  pub reshape-reshape :
      (a : Array A) (s t : List ℕ)
      → HasShape s a
      → length t ≤ max_ndim
      → Fits e.size_of t
      → product t ≡ product s
      → (b : Array A) × (reshape a t ≡ ok b) × HasShape t b × (reshape b s ≡ ok a)
  unfolding reshape
  reshape-reshape a s t v short f same =
      let (b, made, kept, w) = new-HasShape a.buffer t short f (v.full ∙ sym same) in
      let (c, again, kept', w') =
        new-HasShape b.buffer s v.short v.fits (ap length kept ∙ v.full) in
      (
        b,
        made,
        w,
        again ∙ ap ok (λ i. record { buffer = (kept' ∙ kept) i; dims = (w'.dims ∙ sym v.dims) i }),
      )
