-- ===== src/Array/Kernels/Line.antt =====
-- The loop of `fold_axis` in src/array.rs over the last axis.
use lightarray.Prelude.{
  ℕ, zero, suc, ◌+◌, ◌-◌, ◌*◌, ◌≤◌, ◌<◌, ◌≡◌, refl, sym, ap, ◌∙◌, arith, List, [], ◌∷◌, Option,
  some, none, length, get_elem?, take, drop, length-take, length-drop, get_elem?-take,
  get_elem?-drop,
}
use lightarray.Outcome.{ok, slice-le}
use lightarray.Array.Locate.Order.{row-le}
use lightarray.Array.Kernels.{fold_left, row_folds, row_start}
use lightarray.Array.Kernels.Axis.{Folds, folded, next, FoldsLine, HasStart}

module _ {ℓ} {A : Type ℓ} (f : A → A → A) (buffer : List A) where
  -- A list that stands in the buffer from `at` is folded as the line of step 1 from there.
  fold_left-Folds :
      (xs : List A) (at : ℕ) (acc : A)
      → ((i : ℕ) → i < length xs → get_elem? buffer (at + i) ≡ get_elem? xs i)
      → Folds f buffer 1 at (length xs) acc (fold_left f acc xs)
  fold_left-Folds [] at acc h = folded
  fold_left-Folds (x ∷ xs) at acc h =
      let first : at + 0 ≡ at = omega arith in
      next (ap (get_elem? buffer) (sym first) ∙ h 0 (omega arith)) (
        fold_left-Folds xs (at + 1) (f acc x) (λ i p.
          let shift : at + 1 + i ≡ at + suc i = omega arith in
          ap (get_elem? buffer) shift ∙ h (suc i) (omega arith)))

  row-FoldsLine :
      (init : Option A) (row : List A) (at : ℕ)
      → HasStart f buffer init (length row)
      → ((i : ℕ) → i < length row → get_elem? buffer (at + i) ≡ get_elem? row i)
      → (acc : A) × (rest : List A) × (row_start init row ≡ ok (acc, rest))
        × FoldsLine f buffer init 1 at (length row) (fold_left f acc rest)
  row-FoldsLine (some v) row at s h = (v, row, refl, fold_left-Folds row at v h)
  row-FoldsLine none [] at s h = absurd (omega arith)
  row-FoldsLine none (x ∷ xs) at s h =
      let first : at + 0 ≡ at = omega arith in
      let count : suc (length xs) - 1 ≡ length xs = omega arith in
      (
        x,
        xs,
        refl,
        (
          x,
          ap (get_elem? buffer) (sym first) ∙ h 0 (omega arith),
          rw count (
              fold_left-Folds xs (at + 1) x (λ i p.
                let shift : at + 1 + i ≡ at + suc i = omega arith in
                ap (get_elem? buffer) shift ∙ h (suc i) (omega arith))),
        ),
      )

  row_of-FoldsLine :
      (init : Option A) (row : List A) (at len : ℕ)
      → length row ≡ len
      → HasStart f buffer init len
      → ((i : ℕ) → i < length row → get_elem? buffer (at + i) ≡ get_elem? row i)
      → (acc : A) × (rest : List A) × (row_start init row ≡ ok (acc, rest))
        × FoldsLine f buffer init 1 at len (fold_left f acc rest)
  row_of-FoldsLine init row at len e s h = rw (← e) (row-FoldsLine init row at (rw e s) h)

  -- Where the rows lie in the buffer and there is a start or a first element, the loop over the
  -- last axis returns, for each row, the fold of the row's elements from the start or from the
  -- first of them.
  pub row_folds-FoldsLine :
      (init : Option A) (len o n : ℕ)
      → HasStart f buffer init len
      → (o + n) * len ≤ length buffer
      → (out : List A) × (row_folds f init buffer len o n ≡ ok out)
        × (length out ≡ n)
        × ((b : ℕ)
            → b < n
            → (r : A) × (get_elem? out b ≡ some r)
              × FoldsLine f buffer init 1 ((o + b) * len) len r)
  unfolding row_folds
  row_folds-FoldsLine init len o zero s h = ([], refl, refl, λ b p. absurd (omega arith))
  row_folds-FoldsLine init len o (suc n) s h =
      let room : o * len + len ≤ length buffer =
        omega (arith, row-le o (o + suc n) len (omega arith), h) in
      let row = take len (drop (o * len) buffer) in
      let wide : length row ≡ len =
        omega (arith, length-take len (drop (o * len) buffer), length-drop (o * len) buffer) in
      let same : (i : ℕ) → i < length row → get_elem? buffer (o * len + i) ≡ get_elem? row i =
        λ i p.
          sym (get_elem?-drop (o * len) buffer i)
          ∙ sym (get_elem?-take len (drop (o * len) buffer) i (omega arith)) in
      let (acc, rest, begun, line) = row_of-FoldsLine init row (o * len) len wide s same in
      let next_row : suc o + n ≡ o + suc n = omega arith in
      let (outs, others, count, later) = row_folds-FoldsLine init len (suc o) n s (rw next_row h) in
      (
        fold_left f acc rest ∷ outs,
        rw (slice-le buffer (o * len) len room, begun, others) refl,
        ap suc count,
        each (fold_left f acc rest) outs line later,
      )
    where
      each :
          (r : A) (outs : List A)
          → FoldsLine f buffer init 1 (o * len) len r
          → ((b : ℕ)
              → b < n
              → (q : A) × (get_elem? outs b ≡ some q)
                × FoldsLine f buffer init 1 ((suc o + b) * len) len q)
          → (b : ℕ) → b < suc n
          → (q : A) × (get_elem? (r ∷ outs) b ≡ some q)
            × FoldsLine f buffer init 1 ((o + b) * len) len q
      each r outs line later zero p = let same : o + 0 ≡ o = omega arith in rw same (r, refl, line)
      each r outs line later (suc b) p =
          let same : o + suc b ≡ suc o + b = omega arith in rw same (later b (omega arith))
