-- ===== src/Array/Kernels.antt =====
-- The reductions of `Array<f64>` in src/array.rs. Floats are a parameter: a type with the
-- operations that the source takes from the language and from its standard library.
pub mod Extreme
pub mod Axis
pub mod Line
mod Tests
use package.lightarray.Prelude.{
  ℕ, zero, suc, ◌+◌, ◌-◌, ◌*◌, List, [], ◌∷◌, ◌++◌, Bool, true, false, ◌||◌, ◌&&◌, not, Option,
  none, some, if◌then◌else◌, ◌==◌, get_elem?, length, map, replicate, take, drop, wrapping_product,
}
use package.lightarray.Prelude.Int.{ℤ}
use package.lightarray.Outcome.{
  Result, ok, err, panic, message, no_identity, not_one_dim, not_aligned, ◌>>=◌, ◌>>◌, ensure,
  or_panic, slice, expect,
}
use package.lightarray.Dims
use package.lightarray.Array.{Element, Array, shape, ndim, size, new}
use package.lightarray.Array.Broadcast.{zip_with}
use package.lightarray.Array.Reorder.{normalize_axis}

-- The type f64: its operators, `f64::max`, `f64::min`, `as f64`, and what the standard library's
-- `sum` and `product` start from.
pub record Floats {ℓ} (F : Type ℓ) : Type ℓ where
  pub nil : F
  pub nan : F
  pub sum_start : F
  pub product_start : F
  pub add : F → F → F
  pub sub : F → F → F
  pub mul : F → F → F
  pub div : F → F → F
  pub larger : F → F → F
  pub smaller : F → F → F
  pub from_usize : ℕ → F
  pub is_nan : F → Bool
  pub above : F → F → Bool
  pub below : F → F → Bool
  pub equal : F → F → Bool

abbrev pub fold_left {ℓ κ} : {A : Type ℓ} {B : Type κ} → (B → A → B) → B → List A → B
fold_left f acc [] = acc
fold_left f acc (x ∷ xs) = fold_left f (f acc x) xs

-- `Iterator::reduce`
abbrev pub reduce {ℓ} : {A : Type ℓ} → (A → A → A) → List A → Option A
reduce f [] = none
reduce f (x ∷ xs) = some (fold_left f x xs)

-- What `scan` pushes.
abbrev pub running {ℓ} : {A : Type ℓ} → (A → A → A) → A → List A → List A
running f acc [] = []
running f acc (x ∷ xs) = f acc x ∷ running f (f acc x) xs

-- The 8 accumulators of `sum` and `dot1d`.
pub record Lanes {ℓ} (F : Type ℓ) : Type ℓ where
  pub a0 : F
  pub a1 : F
  pub a2 : F
  pub a3 : F
  pub a4 : F
  pub a5 : F
  pub a6 : F
  pub a7 : F

-- What a row's fold starts from, and the elements that it goes over.
abbrev pub row_start {ℓ} : {A : Type ℓ} → Option A → List A → Result (A × List A)
row_start (some v) row = ok (v, row)
row_start none row = or_panic (get_elem? row 0) >>= λ x. ok (x, drop 1 row)

-- What a block starts from, and the first step of its loop.
abbrev pub block_start {ℓ} : {A : Type ℓ} → Option A → List A → ℕ → ℕ → Result (List A × ℕ)
block_start (some v) buffer base inner = ok (replicate inner v, 0)
block_start none buffer base inner = slice buffer base inner >>= λ row. ok (row, 1)

abbrev is_none {ℓ} : {A : Type ℓ} → Option A → Bool
is_none (some v) = false
is_none none = true

-- The rows of `fold_axis` over the last axis, from the row `o` with the number of rows left.
unfoldable pub row_folds {ℓ} :
    {A : Type ℓ} → (A → A → A) → Option A → List A → ℕ → ℕ → ℕ → Result (List A)
row_folds f init buffer len o zero = ok []
row_folds f init buffer len o (suc n) = do
  row ← slice buffer (o * len) len
  (acc, rest) ← row_start init row
  outs ← row_folds f init buffer len (suc o) n
  ok (fold_left f acc rest ∷ outs)

-- The loop over `j` of an earlier axis, with the number of steps left.
unfoldable pub inner_rows {ℓ} :
    {A : Type ℓ} → (A → A → A) → List A → ℕ → ℕ → List A → ℕ → ℕ → Result (List A)
inner_rows f buffer base inner acc j zero = ok acc
inner_rows f buffer base inner acc j (suc n) = do
  row ← slice buffer (base + j * inner) inner
  inner_rows f buffer base inner (zip_with f acc row) (suc j) n

-- The blocks of `fold_axis` over an earlier axis, from the block `o`.
unfoldable pub block_folds {ℓ} :
    {A : Type ℓ} → (A → A → A) → Option A → List A → ℕ → ℕ → ℕ → ℕ → Result (List A)
unfolding inner_rows
block_folds f init buffer len inner o zero = ok []
block_folds f init buffer len inner o (suc n) = do
  let base = o * len * inner
  (start, start_j) ← block_start init buffer base inner
  acc ← inner_rows f buffer base inner start start_j (len - start_j)
  outs ← block_folds f init buffer len inner (suc o) n
  ok (acc ++ outs)

unfoldable pub fold_axis {ℓ} :
    {A : Type ℓ} ⦃e : Element A⦄ → Array A → ℤ → Option A → (A → A → A) → Result (Array A)
unfolding row_folds block_folds
fold_axis a axis init f = do
  k ← normalize_axis axis (ndim a)
  len ← or_panic (get_elem? (shape a) k)
  let outer = wrapping_product (take k (shape a))
  let inner = wrapping_product (drop (suc k) (shape a))
  ensure (not (is_none init && len == 0)) (message no_identity)
  out ←
      if inner == 1
      then row_folds f init a.buffer len 0 outer
      else block_folds f init a.buffer len inner 0 outer
  new out (take k (shape a) ++ drop (suc k) (shape a))

-- The loop of `arg_extreme` from the index `i`.
unfoldable pub extreme_loop {ℓ} :
    {F : Type ℓ} → (F → Bool) → (F → F → Bool) → ℕ → ℕ → F → List F → ℕ
extreme_loop is_nan better i best_i best [] = best_i
extreme_loop is_nan better i best_i best (x ∷ xs) =
    let replaced = extreme_loop is_nan better (suc i) i x xs in
    let kept = extreme_loop is_nan better (suc i) best_i best xs in
    if is_nan x then i else if better x best then replaced else kept

unfoldable pub extreme_of {ℓ} : {F : Type ℓ} → (F → Bool) → (F → F → Bool) → List F → Option ℕ
unfolding extreme_loop
extreme_of is_nan better [] = none
extreme_of is_nan better (x ∷ xs) =
    some (if is_nan x then 0 else extreme_loop is_nan better 1 0 x xs)

module _ {ℓ} {F : Type ℓ} (fl : Floats F) where
  abbrev pub arg_extreme : Array F → (F → F → Bool) → Option ℕ
  arg_extreme a better = extreme_of fl.is_nan better a.buffer

  abbrev pub argmax : Array F → Option ℕ
  argmax a = arg_extreme a fl.above

  abbrev pub argmin : Array F → Option ℕ
  argmin a = arg_extreme a fl.below

  abbrev pub no_lanes : Lanes F
  no_lanes = record {
    a0 = fl.nil;
    a1 = fl.nil;
    a2 = fl.nil;
    a3 = fl.nil;
    a4 = fl.nil;
    a5 = fl.nil;
    a6 = fl.nil;
    a7 = fl.nil;
  }

  -- The loop over `chunks_exact(8)`: the accumulators, and the remainder.
  unfoldable pub lane_loop : Lanes F → List F → Lanes F × List F
  lane_loop l (x0 ∷ x1 ∷ x2 ∷ x3 ∷ x4 ∷ x5 ∷ x6 ∷ x7 ∷ xs) =
      lane_loop
        (record {
          a0 = fl.add l.a0 x0;
          a1 = fl.add l.a1 x1;
          a2 = fl.add l.a2 x2;
          a3 = fl.add l.a3 x3;
          a4 = fl.add l.a4 x4;
          a5 = fl.add l.a5 x5;
          a6 = fl.add l.a6 x6;
          a7 = fl.add l.a7 x7;
        })
        xs
  lane_loop l xs = (l, xs)

  unfoldable pub lane_sum : List F → F
  unfolding lane_loop
  lane_sum xs =
      let (l, remainder) = lane_loop no_lanes xs in
      let left = fl.add (fl.add l.a0 l.a4) (fl.add l.a1 l.a5) in
      let right = fl.add (fl.add l.a2 l.a6) (fl.add l.a3 l.a7) in
      fl.add (fl.add left right) (fold_left fl.add fl.sum_start remainder)

  unfoldable pub sum : Array F → F
  unfolding lane_sum
  sum a = lane_sum a.buffer

  abbrev pub prod : Array F → F
  prod a = fold_left fl.mul fl.product_start a.buffer

  unfoldable pub mean : Array F → F
  unfolding sum
  mean a = if size a == 0 then fl.nan else fl.div (sum a) (fl.from_usize (size a))

  abbrev pub max : Array F → Option F
  max a = reduce (λ x y. if fl.is_nan x || fl.is_nan y then fl.nan else fl.larger x y) a.buffer

  abbrev pub min : Array F → Option F
  min a = reduce (λ x y. if fl.is_nan x || fl.is_nan y then fl.nan else fl.smaller x y) a.buffer

  unfoldable pub var : Array F → F
  unfolding mean
  var a =
      let m = mean a in
      let squares = map (λ x. fl.mul (fl.sub x m) (fl.sub x m)) a.buffer in
      if size a == 0
      then fl.nan
      else fl.div (fold_left fl.add fl.sum_start squares) (fl.from_usize (size a))

  abbrev pub any : Array F → Bool
  any a = fold_left (λ found x. found || not (fl.equal x fl.nil)) false a.buffer

  abbrev pub all : Array F → Bool
  all a = fold_left (λ so_far x. so_far && not (fl.equal x fl.nil)) true a.buffer

  unfoldable pub scan : Array F → F → (F → F → F) → Result (Array F)
  scan a init f = do
    dims ← expect (Dims.from_shape (size a ∷ []))
    ok (record { buffer = running f init a.buffer; dims = dims })

  -- The chunks of equal buffers pair up, so the lanes add the products in order.
  unfoldable pub dot1d : Array F → Array F → Result F
  unfolding lane_sum
  dot1d a b = do
    ensure (ndim a == 1 && ndim b == 1) (message not_one_dim)
    ensure (size a == size b) (message (not_aligned (size a) (size b)))
    ok (lane_sum (zip_with fl.mul a.buffer b.buffer))
