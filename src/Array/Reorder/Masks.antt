-- ===== src/Array/Reorder/Masks.antt =====
-- `compress_flat` and `select_where` of src/array.rs choose elements by a mask.
use lightarray.Prelude.{
  ℕ, zero, suc, ◌≡◌, ◌≢◌, refl, ap, ◌∙◌, arith, List, [], ◌∷◌, Bool, true, false, some, length,
  get_elem?, ◌==◌, take,
}
use lightarray.Outcome.{ok, err, message, mask_size}
use lightarray.Dims.Strides.{Fits}
use lightarray.Array.{Element, Array, new}
use lightarray.Array.Valid.{HasShape, new-HasShape}
use lightarray.Array.Reorder.{kept, compress_flat}

-- The number of places of a mask that are set.
abbrev pub count : List Bool → ℕ
count [] = 0
count (true ∷ mask) = suc (count mask)
count (false ∷ mask) = count mask

module _ {ℓ} {A : Type ℓ} where
  length-kept :
      (xs : List A) (mask : List Bool)
      → length mask ≡ length xs
      → length (kept xs mask) ≡ count mask
  length-kept [] [] e = refl
  length-kept [] (b ∷ mask) e = absurd (omega arith)
  length-kept (x ∷ xs) [] e = absurd (omega arith)
  length-kept (x ∷ xs) (true ∷ mask) e = ap suc (length-kept xs mask (omega arith))
  length-kept (x ∷ xs) (false ∷ mask) e = length-kept xs mask (omega arith)

  -- An element that the mask sets stands behind those that it sets before.
  get_elem?-kept :
      (xs : List A) (mask : List Bool) (i : ℕ)
      → length mask ≡ length xs
      → get_elem? mask i ≡ some true
      → get_elem? (kept xs mask) (count (take i mask)) ≡ get_elem? xs i
  get_elem?-kept [] [] i e h = refl
  get_elem?-kept [] (b ∷ mask) i e h = absurd (omega arith)
  get_elem?-kept (x ∷ xs) [] i e h = cc
  get_elem?-kept (x ∷ xs) (true ∷ mask) zero e h = refl
  get_elem?-kept (x ∷ xs) (false ∷ mask) zero e h = cc
  get_elem?-kept (x ∷ xs) (true ∷ mask) (suc i) e h = get_elem?-kept xs mask i (omega arith) h
  get_elem?-kept (x ∷ xs) (false ∷ mask) (suc i) e h = get_elem?-kept xs mask i (omega arith) h

module _ {ℓ} {A : Type ℓ} ⦃e : Element A⦄ where
  -- A mask with a place for each element gives the 1-d array of the elements whose place is set, in
  -- order: each stands behind those set before it, and there are no others. A mask of another
  -- length is refused with the two numbers.
  pub compress_flat-kept :
      (a : Array A) (mask : List Bool)
      → Fits e.size_of (count mask ∷ [])
      → (length mask ≡ length a.buffer
          → (r : Array A) × (compress_flat a mask ≡ ok r)
            × HasShape (count mask ∷ []) r
            × ((i : ℕ)
                → get_elem? mask i ≡ some true
                → get_elem? r.buffer (count (take i mask)) ≡ get_elem? a.buffer i))
        × (length mask ≢ length a.buffer
            → compress_flat a mask ≡ err (message (mask_size (length a.buffer) (length mask))))
  unfolding compress_flat
  compress_flat-kept a mask fits = (
    λ same.
        let many = length-kept a.buffer mask same in
        let run : compress_flat a mask ≡ new (kept a.buffer mask) (count mask ∷ []) =
          rw (matches _ _ same) (ap (λ n. new (kept a.buffer mask) (n ∷ [])) many) in
        let (r, made, held, ready) =
          new-HasShape (kept a.buffer mask) (count mask ∷ []) (omega arith) fits
            (omega (arith, many)) in
        (r, run ∙ made, ready, λ i h. rw held (get_elem?-kept a.buffer mask i same h)),
    λ differ. rw (mismatches _ _ differ) refl,
  )
    where
      matches : (m n : ℕ) → m ≡ n → (m == n) ≡ true
      matches m n h = ground arith

      mismatches : (m n : ℕ) → m ≢ n → (m == n) ≡ false
      mismatches m n h = ground arith
