-- ===== src/Array/Reorder/Turned.antt =====
-- The 2-d `transpose` of src/array.rs.
use lightarray.Prelude.{
  ℕ, zero, suc, ◌+◌, ◌*◌, ◌≤◌, ◌<◌, ◌≡◌, refl, sym, ap, ◌∙◌, arith, List, [], ◌∷◌, ◌++◌, some,
  length, get_elem?, get_elem?-lt, get_elem?-append_left, get_elem?-append_right, length-append,
}
use lightarray.Outcome.{ok}
use lightarray.Dims.Strides.{Fits, c_dims, with_itemsize-c_dims}
use lightarray.Array.{Element, Array}
use lightarray.Array.Valid.{HasShape, shape-HasShape}
use lightarray.Array.Locate.Order.{row-le}
use lightarray.Array.Reorder.{column_loop, columns_loop, transpose_of, transpose}

module _ {ℓ} {A : Type ℓ} (buffer : List A) (rows cols : ℕ)
    (full : length buffer ≡ rows * cols) where
  column_loop-reads :
      (c r n : ℕ)
      → c < cols
      → r + n ≤ rows
      → (xs : List A) × (column_loop buffer cols c r n ≡ ok xs)
        × (length xs ≡ n)
        × ((j : ℕ) → j < n → get_elem? xs j ≡ get_elem? buffer ((r + j) * cols + c))
  unfolding column_loop
  column_loop-reads c r zero h k = ([], refl, refl, λ j p. absurd (omega arith))
  column_loop-reads c r (suc n) h k =
      let inside : r * cols + c < length buffer =
        omega (arith, full, row-le r rows cols (omega arith)) in
      let (x, found) = get_elem?-lt buffer (r * cols + c) inside in
      let (xs, run, count, reads) = column_loop-reads c (suc r) n h (omega arith) in
      (x ∷ xs, rw (found, run) refl, ap suc count, each x xs found reads)
    where
      each :
          (x : A) (xs : List A)
          → get_elem? buffer (r * cols + c) ≡ some x
          → ((j : ℕ) → j < n → get_elem? xs j ≡ get_elem? buffer ((suc r + j) * cols + c))
          → (j : ℕ) → j < suc n
          → get_elem? (x ∷ xs) j ≡ get_elem? buffer ((r + j) * cols + c)
      each x xs found reads zero p =
          sym found ∙ ap (λ t. get_elem? buffer (t * cols + c)) (omega arith)
      each x xs found reads (suc j) p =
          reads j (omega arith) ∙ ap (λ t. get_elem? buffer (t * cols + c)) (omega arith)

  columns_loop-reads :
      (c n : ℕ)
      → c + n ≤ cols
      → (out : List A) × (columns_loop buffer rows cols c n ≡ ok out)
        × (length out ≡ n * rows)
        × ((i j : ℕ)
            → i < n
            → j < rows
            → get_elem? out (i * rows + j) ≡ get_elem? buffer (j * cols + (c + i)))
  unfolding columns_loop
  columns_loop-reads c zero h = ([], refl, omega arith, λ i j p q. absurd (omega arith))
  columns_loop-reads c (suc n) h =
      let (column, first, tall, here) = column_loop-reads c 0 rows (omega arith) (omega arith) in
      let (out, run, count, later) = columns_loop-reads (suc c) n (omega arith) in
      (
        column ++ out,
        rw (first, run) refl,
        omega (arith, length-append column out, tall, count),
        each column out tall here later,
      )
    where
      each :
          (column out : List A)
          → length column ≡ rows
          → ((j : ℕ) → j < rows → get_elem? column j ≡ get_elem? buffer ((0 + j) * cols + c))
          → ((i j : ℕ)
              → i < n
              → j < rows
              → get_elem? out (i * rows + j) ≡ get_elem? buffer (j * cols + (suc c + i)))
          → (i j : ℕ) → i < suc n
          → j < rows
          → get_elem? (column ++ out) (i * rows + j) ≡ get_elem? buffer (j * cols + (c + i))
      each column out tall here later zero j p q =
          let start : 0 * rows + j ≡ j = omega arith in
          let at : (0 + j) * cols + c ≡ j * cols + (c + 0) = omega arith in
          rw start
            (get_elem?-append_left column out j (omega arith) ∙ here j q ∙ ap (get_elem? buffer) at)
      each column out tall here later (suc i) j p q =
          let past : suc i * rows + j ≡ length column + (i * rows + j) = omega (arith, tall) in
          let at : j * cols + (suc c + i) ≡ j * cols + (c + suc i) = omega arith in
          rw past (
            get_elem?-append_right column out (i * rows + j)
            ∙ later i j (omega arith) q
            ∙ ap (get_elem? buffer) at)

module _ {ℓ} {A : Type ℓ} ⦃e : Element A⦄ where
  -- The transpose of an array of two axes has its lengths swapped, if that shape fits, and holds in
  -- row `i` and column `j` what the array holds in row `j` and column `i`.
  pub transpose-turned :
      (a : Array A) (rows cols : ℕ)
      → HasShape (rows ∷ cols ∷ []) a
      → Fits e.size_of (cols ∷ rows ∷ [])
      → (r : Array A) × (transpose a ≡ ok r)
        × HasShape (cols ∷ rows ∷ []) r
        × ((i j : ℕ)
            → i < cols
            → j < rows
            → get_elem? r.buffer (i * rows + j) ≡ get_elem? a.buffer (j * cols + i))
  unfolding transpose transpose_of
  transpose-turned a rows cols v fits =
      let (out, run, count, reads) =
        columns_loop-reads a.buffer rows cols (omega (arith, v.full)) 0 cols (omega arith) in
      let laid = with_itemsize-c_dims (cols ∷ rows ∷ []) e.size_of (omega arith) e.size_of_small in
      (
        record { buffer = out; dims = c_dims (cols ∷ rows ∷ []) e.size_of },
        rw (shape-HasShape v, run, laid) refl,
        record { short = omega arith; fits = fits; dims = refl; full = omega (arith, count) },
        λ i j p q. reads i j p q ∙ ap (λ t. get_elem? a.buffer (j * cols + t)) (omega arith),
      )
