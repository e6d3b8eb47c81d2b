-- ===== src/ShapeArgs.antt =====
-- The `reshape` argument of `extract_shape_args` in src/python.rs, once PyO3 has extracted the
-- integers: at most one of them is negative and stands for the length that is left.
pub mod Product
mod Tests
use lightarray.Prelude.{
  ℕ, suc, ◌/◌, ◌%◌, List, [], ◌∷◌, Bool, true, false, ◌||◌, not, if◌then◌else◌, ltb, ◌==◌,
  wrapping_product,
}
use lightarray.Prelude.Int.{ℤ, pos, negsuc}

-- The two texts of its `PyValueError`.
pub data ShapeError : Type 0 where
  many_unknown : ShapeError
  cannot_reshape : ℕ → List ℤ → ShapeError

pub data Extracted : Type 0 where
  shape : List ℕ → Extracted
  value_error : ShapeError → Extracted

-- `raw.iter().filter(|&&d| d < 0).count()`
abbrev pub unknown : List ℤ → ℕ
unknown [] = 0
unknown (pos n ∷ raw) = unknown raw
unknown (negsuc n ∷ raw) = suc (unknown raw)

-- `raw.iter().filter(|&&d| d >= 0).map(|&d| d as usize)`
abbrev pub known_dims : List ℤ → List ℕ
known_dims [] = []
known_dims (pos n ∷ raw) = n ∷ known_dims raw
known_dims (negsuc n ∷ raw) = known_dims raw

abbrev pub prepend : ℕ → Extracted → Extracted
prepend d (shape s) = shape (d ∷ s)
prepend d (value_error e) = value_error e

-- The loop over `raw`; `all` is the whole of it, for the error's text.
unfoldable pub shape_loop : ℕ → ℕ → List ℤ → List ℤ → Extracted
shape_loop size known all [] = shape []
shape_loop size known all (pos n ∷ raw) = prepend n (shape_loop size known all raw)
shape_loop size known all (negsuc n ∷ raw) =
    let rest = shape_loop size known all raw in
    if known == 0
    then value_error (cannot_reshape size all)
    else if not (size % known == 0)
    then value_error (cannot_reshape size all)
    else prepend (size / known) rest

unfoldable pub extract_shape_args : List ℤ → ℕ → Extracted
unfolding shape_loop
extract_shape_args raw size =
    if ltb 1 (unknown raw)
    then value_error many_unknown
    else shape_loop size (wrapping_product (known_dims raw)) raw raw
