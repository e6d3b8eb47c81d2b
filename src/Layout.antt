-- ===== src/Layout.antt =====
-- `Layout` of src/python.rs: where the elements of an array live. The arrays of `MAX_NDIM` entries
-- are lists with an entry for each axis. Addresses and byte strides are integers without their
-- wrap: they stay in an allocation.
pub mod Address
pub mod Axes
pub mod Turned
pub mod Compact
mod Tests
use package.lightarray.Prelude.{
  ℕ, suc, ◌+◌, List, [], ◌∷◌, ◌++◌, Bool, true, false, ◌&&◌, ◌||◌, if◌then◌else◌, ltb, ◌==◌, length,
  reverse, take, drop, min, wrapping_mul,
}
use package.lightarray.Prelude.Int.{ℤ, pos, negsuc, ◌+ℤ◌, ◌*ℤ◌}
use package.lightarray.Outcome.{Result, ok, err, message, max_dims}
use package.lightarray.Dims.{max_ndim}
use package.lightarray.Array.Select.{Selector, int, AxisPlan}
use package.lightarray.Array.AnyArray.{from_bits}

pub record Layout : Type 0 where
  pub ptr : ℤ
  pub shape : List ℕ
  pub strides : List ℤ

-- A slot after the axes holds zero.
abbrev pub slot : List ℤ → ℤ
slot [] = pos 0
slot (s ∷ strides) = s

-- `matches!(sels.get(axis), Some(Selector::Int(_)))`
abbrev pub is_int : List Selector → Bool
is_int (int x ∷ sels) = true
is_int _ = false

abbrev pub push_axis : ℕ → ℤ → Layout → Layout
push_axis d s l = record l { shape = d ∷ l.shape; strides = s ∷ l.strides }

-- The loop over the plan: `ptr` moves on, and what the later axes push follows what this one does.
unfoldable pub select_loop : ℤ → List AxisPlan → List Selector → List ℤ → Layout
select_loop ptr [] sels strides = record { ptr = ptr; shape = []; strides = [] }
select_loop ptr (p ∷ plan) sels strides =
    let here = if ltb 0 p.count then ptr +ℤ from_bits p.start *ℤ slot strides else ptr in
    let out = select_loop here plan (drop 1 sels) (drop 1 strides) in
    if is_int sels then out else push_axis p.count (p.step *ℤ slot strides) out

unfoldable pub select : Layout → List AxisPlan → List Selector → Layout
unfolding select_loop
select l plan sels = select_loop l.ptr plan sels l.strides

-- `copy_within` moves the entries from `n` on by one.
abbrev pub insert_at {ℓ} : {A : Type ℓ} → List A → ℕ → A → List A
insert_at xs n x = take n xs ++ (x ∷ drop n xs)

unfoldable pub insert_axis : Layout → ℕ → Result Layout
insert_axis l at =
    let n = min at (length l.shape) in
    if length l.shape == max_ndim
    then err (message (max_dims max_ndim))
    else ok (record l { shape = insert_at l.shape n 1; strides = insert_at l.strides n (pos 0) })

unfoldable pub reversed : Layout → Layout
reversed l = record l { shape = reverse l.shape; strides = reverse l.strides }

abbrev pub eq_ℤ : ℤ → ℤ → Bool
eq_ℤ (pos m) (pos n) = m == n
eq_ℤ (negsuc m) (negsuc n) = m == n
eq_ℤ _ _ = false

-- The loop from the last axis: whether no axis has failed, and `expected`, which wraps around.
unfoldable pub contiguous_loop : ℕ → List ℕ → List ℤ → Bool × ℕ
contiguous_loop itemsize (d ∷ ds) (s ∷ strides) =
    let (inner, expected) = contiguous_loop itemsize ds strides in
    (inner && (d == 1 || eq_ℤ s (from_bits expected)), wrapping_mul expected d)
contiguous_loop itemsize _ _ = (true, itemsize)

unfoldable pub is_c_contiguous : Layout → ℕ → Bool
unfolding contiguous_loop
is_c_contiguous l itemsize = (contiguous_loop itemsize l.shape l.strides).0
