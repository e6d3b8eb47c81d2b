-- ===== src/Array/Locate/Window.antt =====
-- Views of src/array.rs: `view`, `index_view` and `reshape_view` share the buffer of their base.
use lightarray.Prelude.{ℕ, zero, suc, ◌+◌, ◌≤◌, ◌≡◌, ◌≢◌, refl, sym, ap, ◌∙◌, arith, List, [], ◌∷◌}
use lightarray.Prelude.{length, drop, take, product, get_elem?, set, get_elem?-set_ne}
use lightarray.Prelude.{take_all, le→leb}
use lightarray.Prelude.Int.{ℤ}
use lightarray.Outcome.{ok}
use lightarray.Dims
use lightarray.Dims.{max_ndim}
use lightarray.Dims.Strides.{c_dims, c_dims-LaysOut, LaysOut-size, Fits, with_itemsize-c_dims}
use lightarray.Array.{Element, Array, reshape}
use lightarray.Array.Valid.{HasShape, new-HasShape}
use lightarray.Array.Locate.{View, deref, deref_mut_set, index_view, reshape_view, index}
use lightarray.Array.Locate.Order.{resolve, resolve-Inside, flat, flat-Inside}
use lightarray.Array.Locate.Update.{located, sub_size}

module _ {ℓ} {A : Type ℓ} where
  take-set : (n k : ℕ) (xs : List A) (x : A) → take n (set xs k x) ≡ set (take n xs) k x
  take-set zero k xs x = refl
  take-set (suc n) k [] x = refl
  take-set (suc n) zero (y ∷ xs) x = refl
  take-set (suc n) (suc k) (y ∷ xs) x = ap (◌∷◌ y) (take-set n k xs x)

  drop-set : (n k : ℕ) (xs : List A) (x : A) → drop n (set xs (n + k) x) ≡ set (drop n xs) k x
  drop-set zero k xs x = let e : 0 + k ≡ k = omega arith in rw e
  drop-set (suc n) k [] x = refl
  drop-set (suc n) k (y ∷ xs) x =
      let e : suc n + k ≡ suc (n + k) = omega arith in rw e (drop-set n k xs x)

-- A view of an array, as the code makes it, holds what the copy holds, and shares the memory: a
-- write through the view changes that element of the view, and no element of the base outside of
-- it.
pub record Shares {ℓ} {A : Type ℓ} (a b : Array A) (w : View) : Type ℓ where
  pub dims : w.dims ≡ b.dims
  pub content : deref w a.buffer ≡ b.buffer
  pub written :
      (k : ℕ) (x : A) → deref w (deref_mut_set w a.buffer k x) ≡ set (deref w a.buffer) k x
  pub kept :
      (k i : ℕ) (x : A)
      → w.offset + k ≢ i
      → get_elem? (deref_mut_set w a.buffer k x) i ≡ get_elem? a.buffer i

shares {ℓ} :
    {A : Type ℓ} {a : Array A} (w : View) (b : Array A)
    → w.dims ≡ b.dims
    → deref w a.buffer ≡ b.buffer
    → Shares a b w
unfolding deref deref_mut_set
shares {a} w b same content = record {
  dims = same;
  content = content;
  written = λ k x.
      ap (take (Dims.size w.dims)) (drop-set w.offset k a.buffer x)
      ∙ take-set (Dims.size w.dims) k (drop w.offset a.buffer) x;
  kept = λ k i x ne. get_elem?-set_ne a.buffer (w.offset + k) i x ne;
}

module _ {ℓ} {A : Type ℓ} ⦃e : Element A⦄ {s : List ℕ} {a : Array A} (v : HasShape s a) where
  -- Integer indices inside the leading axes give a view of the sub-array that `index` copies.
  pub index_view-Shares :
      (xs : List ℤ) (is : List ℕ)
      → length xs ≤ length s
      → resolve 0 s xs ≡ ok is
      → (w : View) × (b : Array A) × (index_view a xs ≡ ok w) × (index a xs ≡ ok b) × Shares a b w
  unfolding index_view index deref
  index_view-Shares xs is h found =
      let (inside, same) = resolve-Inside 0 s xs is found in
      let n = product (drop (length is) s) in
      let laid = c_dims (drop (length is) s) e.size_of in
      let w : View = record { offset = flat s is; dims = laid } in
      let b : Array A = record { buffer = take n (drop (flat s is) a.buffer); dims = laid } in
      let room : flat s is + n ≤ length a.buffer = omega (arith, flat-Inside s is inside, v.full) in
      (
        w,
        b,
        rw (located v xs is h found) (rw (sub_size v (length is), le→leb _ _ room) refl),
        rw (located v xs is h found) (rw (sub_size v (length is), le→leb _ _ room) refl),
        shares w b refl (ap (λ m. take m (drop (flat s is) a.buffer)) (sub_size v (length is))),
      )

  -- A shape of at most 8 axes that fits, with the same number of elements, gives a view of the whole
  -- buffer that agrees with the copy that `reshape` makes and shares the memory.
  pub reshape_view-Shares :
      (t : List ℕ)
      → length t ≤ max_ndim
      → Fits e.size_of t
      → product t ≡ product s
      → (w : View) × (b : Array A) × (reshape_view a t ≡ ok w)
        × (reshape a t ≡ ok b)
        × HasShape t b
        × Shares a b w
  unfolding reshape_view reshape deref
  reshape_view-Shares t short f same =
      let laid = c_dims t e.size_of in
      let exact : Dims.size laid ≡ product t =
        LaysOut-size t e.size_of laid e.size_of_pos f
          (c_dims-LaysOut t e.size_of e.size_of_small) in
      let whole : Dims.size laid ≡ length a.buffer = exact ∙ same ∙ sym v.full in
      let w : View = record { offset = 0; dims = laid } in
      let (b, made, kept, valid) = new-HasShape a.buffer t short f (v.full ∙ sym same) in
      (
        w,
        b,
        rw (with_itemsize-c_dims t e.size_of short e.size_of_small) (rw whole (ground arith)),
        made,
        valid,
        shares w b (sym valid.dims) (take_all _ a.buffer (omega (arith, whole)) ∙ sym kept),
      )
