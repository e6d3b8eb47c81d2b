-- ===== src/Memory.antt =====
-- `walk_strided`, `gather_from` and `scatter_to` of src/array.rs: the elements of a strided layout
-- in memory. Memory is a function from the address of an element to the element. Offsets are
-- integers without their wrap: they stay in an allocation.
pub mod Walk
pub mod Whole
pub mod Loops
pub mod Copy
mod Tests
use package.lightarray.Prelude.{
  ℕ, zero, suc, ◌+◌, List, [], ◌∷◌, ◌++◌, Bool, true, false, if◌then◌else◌, ltb, ◌==◌, length,
  replicate, get_elem?, set, wrapping_product,
}
use package.lightarray.Prelude.Int.{ℤ, pos, ◌+ℤ◌, ◌-ℤ◌, ◌*ℤ◌}
use package.lightarray.Outcome.{Result, ok, panic, ◌>>=◌, or_panic}
use package.lightarray.Layout.{eq_ℤ}

abbrev pub Memory {ℓ} : Type ℓ → Type ℓ
Memory A = ℤ → A

-- A call of the closure: the flat index and the byte offset.
abbrev pub Visits : Type 0
Visits = List (ℕ × ℤ)

-- One row: `n` more elements, of number `k` on, from index `j` of the axis.
unfoldable pub row_visits : ℕ → ℕ → ℕ → ℤ → ℤ → Visits
row_visits zero k j row s = []
row_visits (suc n) k j row s = (k, row +ℤ pos j *ℤ s) ∷ row_visits n (k + 1) (j + 1) row s

-- `n` more rows of `d` elements.
unfoldable pub rows_visits : ℕ → ℕ → ℕ → ℕ → ℤ → ℤ → Visits
unfolding row_visits
rows_visits zero d k i s t = []
rows_visits (suc n) d k i s t =
    row_visits d k 0 (pos i *ℤ s) t ++ rows_visits n d (k + d) (i + 1) s t

-- The odometer: the index, the offset, and whether every axis so far has started again.
pub record Odometer : Type 0 where
  pub idx : List ℕ
  pub offset : ℤ
  pub carry : Bool

-- One axis of the `while` loop, after those inside it.
abbrev pub turn_axis : ℕ → ℤ → ℕ → Odometer → Odometer
turn_axis d s i o =
    if o.carry
    then (if ltb (i + 1) d
        then record { idx = (i + 1) ∷ o.idx; offset = o.offset +ℤ s; carry = false }
        else record { idx = 0 ∷ o.idx; offset = o.offset +ℤ s -ℤ s *ℤ pos d; carry = true })
    else record o { idx = i ∷ o.idx }

-- The `while` loop, from the last axis until one does not start again.
unfoldable pub next_place : List ℕ → List ℤ → List ℕ → ℤ → Odometer
next_place (d ∷ shape) (s ∷ strides) (i ∷ idx) offset =
    let inner = next_place shape strides idx offset in turn_axis d s i inner
next_place _ _ _ offset = record { idx = []; offset = offset; carry = true }

unfoldable pub odometer_visits : List ℕ → List ℤ → ℕ → ℕ → List ℕ → ℤ → Visits
unfolding next_place
odometer_visits shape strides zero k idx offset = []
odometer_visits shape strides (suc n) k idx offset =
    let o = next_place shape strides idx offset in
    (k, offset) ∷ odometer_visits shape strides n (k + 1) o.idx o.offset

-- A missing stride panics.
unfoldable pub walk_strided : List ℕ → List ℤ → Result Visits
unfolding row_visits rows_visits odometer_visits
walk_strided [] strides = ok ((0, pos 0) ∷ [])
walk_strided (d ∷ []) (s ∷ strides) = ok (row_visits d 0 0 (pos 0) s)
walk_strided (d ∷ e ∷ []) (s ∷ t ∷ strides) = ok (rows_visits d e 0 0 s t)
walk_strided (d ∷ e ∷ c ∷ shape) strides =
    let whole = d ∷ e ∷ c ∷ shape in
    let size = wrapping_product whole in
    if size == 0
    then ok []
    else ok (odometer_visits whole strides size 0 (replicate (length whole) 0) (pos 0))
walk_strided _ _ = panic

module _ {ℓ} {A : Type ℓ} where
  -- A write of one element.
  abbrev pub write : Memory A → ℤ → A → Memory A
  write mem at x = λ b. if eq_ℤ b at then x else mem b

  -- `data[k] = *(ptr + offset)` for each visit.
  unfoldable pub gather_visits : Memory A → ℤ → Visits → List A → Result (List A)
  gather_visits mem ptr [] buffer = ok buffer
  gather_visits mem ptr ((k, offset) ∷ visits) buffer =
      let rest = gather_visits mem ptr visits (set buffer k (mem (ptr +ℤ offset))) in
      if ltb k (length buffer) then rest else panic

  unfoldable pub gather_from : Memory A → List A → List ℕ → ℤ → List ℤ → Result (List A)
  unfolding walk_strided gather_visits
  gather_from mem buffer shape ptr strides = do
    visits ← walk_strided shape strides
    gather_visits mem ptr visits buffer

  -- `*(ptr + offset) = data[k]` for each visit.
  unfoldable pub scatter_visits : Memory A → ℤ → Visits → List A → Result (Memory A)
  scatter_visits mem ptr [] buffer = ok mem
  scatter_visits mem ptr ((k, offset) ∷ visits) buffer = do
    x ← or_panic (get_elem? buffer k)
    scatter_visits (write mem (ptr +ℤ offset) x) ptr visits buffer

  unfoldable pub scatter_to : Memory A → List A → List ℕ → ℤ → List ℤ → Result (Memory A)
  unfolding walk_strided scatter_visits
  scatter_to mem buffer shape ptr strides = do
    visits ← walk_strided shape strides
    scatter_visits mem ptr visits buffer
