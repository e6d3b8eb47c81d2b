-- ===== src/Array/Reorder/Rows.antt =====
-- `take_leading` of src/array.rs takes whole rows, or refuses the first index outside.
use lightarray.Prelude.{
  ℕ, zero, suc, ◌==◌, false, ◌+◌, ◌*◌, ◌≤◌, ◌<◌, ◌≡◌, refl, ap, ◌∙◌, arith, List, [], ◌∷◌, ◌++◌,
  some, Option-cases, inl, inr, length, take, drop, product, get_elem?, length-take, length-drop,
  get_elem?-take, get_elem?-drop, get_elem?-append_left, get_elem?-append_right, length-append,
}
use lightarray.Prelude.Int.{ℤ}
use lightarray.Outcome.{
  Result, ok, err, panic, index_out_of_bounds, ◌>>=◌, >>=-eq-ok, ok-injective, ArrayError, slice-le,
}
use lightarray.Dims
use lightarray.Dims.Strides.{c_dims, Fits, drop_leading-c_dims, LaysOut-size, c_dims-LaysOut}
use lightarray.Array.{Element, Array, shape, ndim}
use lightarray.Array.Valid.{HasShape, shape-HasShape, HasShape-LaysOut, new-HasShape}
use lightarray.Array.Locate.Order.{from_either_end, in_axis, from_either_end-lt, row-le}
use lightarray.Array.Locate.Access.{normalize_index_lem}
use lightarray.Array.Reorder.{row_loop, take_leading}

-- The rows that the indices name, or the first index that is outside.
abbrev pub rows_of : ℕ → List ℤ → Result (List ℕ)
rows_of d [] = ok []
rows_of d (x ∷ xs) = do k ← in_axis d 0 x (from_either_end d x); ks ← rows_of d xs; ok (k ∷ ks)

module _ {ℓ} {A : Type ℓ} where
  -- The rows `ks` of `p` elements of `a`, one after the other.
  abbrev pub AreRows : ℕ → List A → List ℕ → List A → Type ℓ
  AreRows p a ks r =
      (i k j : ℕ)
      → get_elem? ks i ≡ some k
      → j < p
      → get_elem? r (i * p + j) ≡ get_elem? a (k * p + j)

  row-AreRows :
      (p k : ℕ) (ks : List ℕ) (a r : List A)
      → k * p + p ≤ length a
      → AreRows p a ks r
      → AreRows p a (k ∷ ks) (take p (drop (k * p) a) ++ r)
  row-AreRows p k ks a r h rows zero k' j e l =
      let block = take p (drop (k * p) a) in
      let inside : j < length block =
        omega (arith, length-take p (drop (k * p) a), length-drop (k * p) a) in
      let same : k ≡ k' = cc in
      let start : 0 * p + j ≡ j = omega arith in
      rw (start, ← same)
        (get_elem?-append_left block r j inside
          ∙ get_elem?-take p (drop (k * p) a) j l
          ∙ get_elem?-drop (k * p) a j)
  row-AreRows p k ks a r h rows (suc i) k' j e l =
      let block = take p (drop (k * p) a) in
      let past : suc i * p + j ≡ length block + (i * p + j) =
        omega (arith, length-take p (drop (k * p) a), length-drop (k * p) a) in
      rw past (get_elem?-append_right block r (i * p + j) ∙ rows i k' j e l)

module _ {ℓ} {A : Type ℓ} ⦃e : Element A⦄ (d : ℕ) (s : List ℕ) (a : Array A)
    (v : HasShape (d ∷ s) a) where
  length-rows_of : (xs : List ℤ) (ks : List ℕ) → rows_of d xs ≡ ok ks → length ks ≡ length xs
  length-rows_of [] ks h = rw (← ok-injective h) refl
  length-rows_of (x ∷ xs) ks h =
      let (k, found, more) = >>=-eq-ok (in_axis d 0 x (from_either_end d x)) _ h in
      let (rest, others, out) = >>=-eq-ok (rows_of d xs) _ more in
      rw (← ok-injective out) (ap suc (length-rows_of xs rest others))

  here : (x : ℤ) → get_elem? (shape a) 0 ≡ some d
  here x = rw (shape-HasShape v) refl

  in_buffer : (k : ℕ) → k < d → k * product s + product s ≤ length a.buffer
  in_buffer k h = omega (arith, row-le k d (product s) h, v.full)

  row_loop-AreRows :
      (xs : List ℤ) (ks : List ℕ)
      → rows_of d xs ≡ ok ks
      → (r : List A) × (row_loop a (product s) xs ≡ ok r)
        × (length r ≡ length xs * product s)
        × AreRows (product s) a.buffer ks r
  unfolding row_loop
  row_loop-AreRows [] ks h =
      ([], refl, omega arith, λ i k j e l. absurd (none_named ks i k (ok-injective h) e))
    where
      none_named : (ks : List ℕ) (i k : ℕ) → [] ≡ ks → get_elem? ks i ≡ some k → ⊥
      none_named [] i k p q = cc
      none_named (x ∷ ks) i k p q = cc
  row_loop-AreRows (x ∷ xs) ks h = elim (Option-cases (from_either_end d x)) [
    | inl out ↦ let bad = rw out at h in cc
    | inr (k, inside) ↦
        let (rest, others, made) = >>=-eq-ok (rows_of d xs) _ (rw inside at h) in
        let (r, run, count, rows) = row_loop-AreRows xs rest others in
        let room = in_buffer k (from_either_end-lt d x k inside) in
        (
          take (product s) (drop (k * product s) a.buffer) ++ r,
          rw
              (
                normalize_index_lem a x 0 d (here x),
                inside,
                slice-le a.buffer (k * product s) (product s) room,
                run,
              )
              refl,
          omega (
            arith,
            length-append (take (product s) (drop (k * product s) a.buffer)) r,
            length-take (product s) (drop (k * product s) a.buffer),
            length-drop (k * product s) a.buffer,
            count,
          ),
          rw (← ok-injective made) (row-AreRows (product s) k rest a.buffer r room rows),
        )
  ]

  err_before :
      (k : ℕ) (why : ArrayError) (r : Result (List ℕ))
      → (r >>= λ ks. ok (k ∷ ks)) ≡ err why
      → r ≡ err why
  err_before k why (ok ks) h = cc
  err_before k why (err e) h = cc
  err_before k why panic h = cc

  row_loop-err :
      (xs : List ℤ) (why : ArrayError)
      → rows_of d xs ≡ err why
      → row_loop a (product s) xs ≡ err why
  unfolding row_loop
  row_loop-err [] why h = cc
  row_loop-err (x ∷ xs) why h = elim (Option-cases (from_either_end d x)) [
    | inl out ↦
        let bad = rw out at h in
        let same : index_out_of_bounds x 0 d ≡ why = cc in
        rw (normalize_index_lem a x 0 d (here x), out) (ap err same)
    | inr (k, inside) ↦
        let room = in_buffer k (from_either_end-lt d x k inside) in
        let later = rw inside at h in
        rw
          (
            normalize_index_lem a x 0 d (here x),
            inside,
            slice-le a.buffer (k * product s) (product s) room,
          )
          (rw (row_loop-err xs why (err_before k why (rows_of d xs) later)) refl)
  ]

  -- On an array of one or more axes, indices of its leading axis that count from either end give
  -- the rows they name, in order, as an array with a row for each index, if that fits; the first
  -- index that is outside is refused with its value and the length of the axis.
  pub take_leading-AreRows :
      (xs : List ℤ)
      → Fits e.size_of (length xs ∷ s)
      → ((ks : List ℕ)
          → rows_of d xs ≡ ok ks
          → (r : Array A) × (take_leading a xs ≡ ok r)
            × HasShape (length xs ∷ s) r
            × AreRows (product s) a.buffer ks r.buffer)
        × ((why : ArrayError) → rows_of d xs ≡ err why → take_leading a xs ≡ err why)
  unfolding take_leading
  take_leading-AreRows xs fits = (
    λ ks named.
        let (r, run, many, rows) = row_loop-AreRows xs ks named in
        let (b, made, held, ready) = new-HasShape r (length xs ∷ s) v.short fits many in
        (b, rw (an_axis, leading, rest_size, run, shape-HasShape v) made, ready, rw held rows),
    λ why bad. rw (an_axis, leading, rest_size, row_loop-err xs why bad) refl,
  )
    where
      an_axis : (ndim a == 0) ≡ false
      an_axis = let some_axis = (HasShape-LaysOut v).ndim in ground arith

      leading : Dims.drop_leading a.dims 1 ≡ ok (c_dims s e.size_of)
      leading =
          drop_leading-c_dims (d ∷ s) e.size_of a.dims 1 e.size_of_small v.short (omega arith)
            (HasShape-LaysOut v)

      rest_size : Dims.size (c_dims s e.size_of) ≡ product s
      rest_size =
          LaysOut-size s e.size_of (c_dims s e.size_of) e.size_of_pos v.fits.1
            (c_dims-LaysOut s e.size_of e.size_of_small)
