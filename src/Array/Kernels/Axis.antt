-- ===== src/Array/Kernels/Axis.antt =====
-- `fold_axis` of src/array.rs folds each line of elements along the axis, by both of its loops.
use lightarray.Prelude.{
  ℕ, zero, suc, ◌+◌, ◌-◌, ◌*◌, ◌≤◌, ◌<◌, ◌≡◌, refl, sym, ap, ◌∙◌, arith, List, [], ◌∷◌, ◌++◌,
  Option, some, none, length, get_elem?, get_elem?-lt, get_elem?-append_left,
  get_elem?-append_right, length-append, take, drop, length-take, length-drop, get_elem?-take,
  get_elem?-drop, replicate, length-replicate,
}
use native.Mathlib.Nat.{mul_assoc}
use lightarray.Outcome.{ok, slice-le}
use lightarray.Array.Broadcast.{zip_with}
use lightarray.Array.Locate.Order.{row-le}
use lightarray.Array.Kernels.{inner_rows, block_start, block_folds}

block_room : (o m len inner : ℕ) → o < m → o * len * inner + len * inner ≤ m * len * inner
block_room o m len inner h =
    omega (arith, row-le o m (len * inner) h, mul_assoc o len inner, mul_assoc m len inner)

module _ {ℓ} {A : Type ℓ} (f : A → A → A) (buffer : List A) where
  -- `r` is the fold of `f` from `acc` over `n` elements: those at `at`, `at + step`, and so on.
  pub data Folds (step : ℕ) : ℕ → ℕ → A → A → Type ℓ where
    folded : {at : ℕ} {acc : A} → Folds step at 0 acc acc
    next :
        {at n : ℕ} {acc x r : A}
        → get_elem? buffer at ≡ some x
        → Folds step (at + step) n (f acc x) r
        → Folds step at (suc n) acc r

  length-zip_row : (xs ys : List A) → length xs ≡ length ys → length (zip_with f xs ys) ≡ length xs
  length-zip_row [] [] e = refl
  length-zip_row [] (y ∷ ys) e = refl
  length-zip_row (x ∷ xs) [] e = absurd (omega arith)
  length-zip_row (x ∷ xs) (y ∷ ys) e = ap suc (length-zip_row xs ys (omega arith))

  get_elem?-zip_row :
      (xs ys : List A) (i : ℕ) (x y : A)
      → get_elem? xs i ≡ some x
      → get_elem? ys i ≡ some y
      → get_elem? (zip_with f xs ys) i ≡ some (f x y)
  get_elem?-zip_row [] ys i x y p q = cc
  get_elem?-zip_row (a ∷ xs) [] i x y p q = cc
  get_elem?-zip_row (a ∷ xs) (b ∷ ys) zero x y p q =
      let left : a ≡ x = cc in let right : b ≡ y = cc in rw (left, right) refl
  get_elem?-zip_row (a ∷ xs) (b ∷ ys) (suc i) x y p q = get_elem?-zip_row xs ys i x y p q

  -- The rows that the loop adds to the accumulators fold each line.
  inner_rows-Folds :
      (base inner : ℕ) (acc : List A) (j n : ℕ)
      → length acc ≡ inner
      → base + (j + n) * inner ≤ length buffer
      → (out : List A) × (inner_rows f buffer base inner acc j n ≡ ok out)
        × (length out ≡ inner)
        × ((i : ℕ) (a : A)
            → i < inner
            → get_elem? acc i ≡ some a
            → (r : A) × (get_elem? out i ≡ some r) × Folds inner (base + j * inner + i) n a r)
  unfolding inner_rows
  inner_rows-Folds base inner acc j zero e h = (acc, refl, e, λ i a p q. (a, q, folded))
  inner_rows-Folds base inner acc j (suc n) e h =
      let room : base + j * inner + inner ≤ length buffer = omega arith in
      let row = take inner (drop (base + j * inner) buffer) in
      let wide : length row ≡ inner = omega (
        arith,
        length-take inner (drop (base + j * inner) buffer),
        length-drop (base + j * inner) buffer,
      ) in
      let (out, run, count, lines) =
        inner_rows-Folds base inner (zip_with f acc row) (suc j) n
          (length-zip_row acc row (e ∙ sym wide) ∙ e) (omega arith) in
      (
        out,
        rw (slice-le buffer (base + j * inner) inner room) run,
        count,
        λ i a p q.
            let (x, found) = get_elem?-lt row i (omega arith) in
            let source : get_elem? buffer (base + j * inner + i) ≡ some x =
              sym (get_elem?-drop (base + j * inner) buffer i)
              ∙ sym (get_elem?-take inner (drop (base + j * inner) buffer) i p)
              ∙ found in
            let (r, held, line) = lines i (f a x) p (get_elem?-zip_row acc row i a x q found) in
            let at : base + suc j * inner + i ≡ base + j * inner + i + inner = omega arith in
            (r, held, next source (rw at at line)),
      )

  -- A line of `n` elements folded from a given start, or from its first element.
  abbrev pub FoldsLine : Option A → ℕ → ℕ → ℕ → A → Type ℓ
  FoldsLine (some v) step at n r = Folds step at n v r
  FoldsLine none step at n r =
      (x : A) × (get_elem? buffer at ≡ some x) × Folds step (at + step) (n - 1) x r

  -- Without a start there is a first element.
  abbrev pub HasStart : Option A → ℕ → Type 0
  HasStart (some v) len = Unit
  HasStart none len = 0 < len

  get_elem?-replicate_lt : (n i : ℕ) (v : A) → i < n → get_elem? (replicate n v) i ≡ some v
  get_elem?-replicate_lt zero i v h = absurd (omega arith)
  get_elem?-replicate_lt (suc n) zero v h = refl
  get_elem?-replicate_lt (suc n) (suc i) v h = get_elem?-replicate_lt n i v (omega arith)

  -- One block: the start, and the loop over the rows of the block.
  block-Folds :
      (init : Option A) (len inner base : ℕ)
      → HasStart init len
      → base + len * inner ≤ length buffer
      → (start : List A) × (j : ℕ) × (block_start init buffer base inner ≡ ok (start, j))
        × (out : List A) × (inner_rows f buffer base inner start j (len - j) ≡ ok out)
        × (length out ≡ inner)
        × ((i : ℕ)
            → i < inner
            → (r : A) × (get_elem? out i ≡ some r) × FoldsLine init inner (base + i) len r)
  block-Folds (some v) len inner base s h =
      let every : 0 + (len - 0) ≡ len = omega arith in
      let (out, run, count, lines) =
        inner_rows-Folds base inner (replicate inner v) 0 (len - 0) (length-replicate inner v)
          (rw every h) in
      (
        replicate inner v,
        0,
        refl,
        out,
        run,
        count,
        λ i p.
            let (r, held, line) = lines i v p (get_elem?-replicate_lt inner i v p) in
            let at : base + 0 * inner + i ≡ base + i = omega arith in
            let whole : len - 0 ≡ len = omega arith in (r, held, rw at at (rw whole at line)),
      )
  block-Folds none (suc len) inner base s h =
      let every : 1 + (suc len - 1) ≡ suc len = omega arith in
      let room : base + inner ≤ length buffer = omega arith in
      let row = take inner (drop base buffer) in
      let wide : length row ≡ inner =
        omega (arith, length-take inner (drop base buffer), length-drop base buffer) in
      let (out, run, count, lines) =
        inner_rows-Folds base inner row 1 (suc len - 1) wide (rw every h) in
      (
        row,
        1,
        rw (slice-le buffer base inner room) refl,
        out,
        run,
        count,
        λ i p.
            let (x, found) = get_elem?-lt row i (omega arith) in
            let source : get_elem? buffer (base + i) ≡ some x =
              sym (get_elem?-drop base buffer i)
              ∙ sym (get_elem?-take inner (drop base buffer) i p)
              ∙ found in
            let (r, held, line) = lines i x p found in
            let at : base + 1 * inner + i ≡ base + i + inner = omega arith in
            (r, held, (x, source, rw at at line)),
      )
  block-Folds none zero inner base s h = absurd (omega arith)

  -- Where the blocks lie in the buffer and there is a start or a first element, the loop over an
  -- earlier axis returns, for each block and each place in a row, the fold of the line of elements
  -- at that place of the block's rows, from the start or from the line's first element.
  pub block_folds-FoldsLine :
      (init : Option A) (len inner o n : ℕ)
      → HasStart init len
      → (o + n) * len * inner ≤ length buffer
      → (out : List A) × (block_folds f init buffer len inner o n ≡ ok out)
        × (length out ≡ n * inner)
        × ((b i : ℕ)
            → b < n
            → i < inner
            → (r : A) × (get_elem? out (b * inner + i) ≡ some r)
              × FoldsLine init inner ((o + b) * len * inner + i) len r)
  unfolding block_folds
  block_folds-FoldsLine init len inner o zero s h =
      ([], refl, omega arith, λ b i p q. absurd (omega arith))
  block_folds-FoldsLine init len inner o (suc n) s h =
      let base = o * len * inner in
      let room : base + len * inner ≤ length buffer =
        omega (arith, block_room o (o + suc n) len inner (omega arith), h) in
      let next_block : suc o + n ≡ o + suc n = omega arith in
      let (start, j, begun, acc, run, wide, here) = block-Folds init len inner base s room in
      let (outs, others, count, later) =
        block_folds-FoldsLine init len inner (suc o) n s (rw next_block h) in
      (
        acc ++ outs,
        rw (begun, run, others) refl,
        omega (arith, length-append acc outs, wide, count),
        each acc outs wide here later,
      )
    where
      each :
          (acc outs : List A)
          → length acc ≡ inner
          → ((i : ℕ)
              → i < inner
              → (r : A) × (get_elem? acc i ≡ some r)
                × FoldsLine init inner (o * len * inner + i) len r)
          → ((b i : ℕ)
              → b < n
              → i < inner
              → (r : A) × (get_elem? outs (b * inner + i) ≡ some r)
                × FoldsLine init inner ((suc o + b) * len * inner + i) len r)
          → (b i : ℕ) → b < suc n
          → i < inner
          → (r : A) × (get_elem? (acc ++ outs) (b * inner + i) ≡ some r)
            × FoldsLine init inner ((o + b) * len * inner + i) len r
      each acc outs wide here later zero i p q =
          let (r, held, line) = here i q in
          let first : 0 * inner + i ≡ i = omega arith in
          let same : o + 0 ≡ o = omega arith in
          rw (first, same) (r, get_elem?-append_left acc outs i (omega arith) ∙ held, line)
      each acc outs wide here later (suc b) i p q =
          let (r, held, line) = later b i (omega arith) q in
          let past : suc b * inner + i ≡ length acc + (b * inner + i) = omega (arith, wide) in
          let same : o + suc b ≡ suc o + b = omega arith in
          rw (past, same) (r, get_elem?-append_right acc outs (b * inner + i) ∙ held, line)
