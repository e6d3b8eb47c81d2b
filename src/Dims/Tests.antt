-- ===== src/Dims/Tests.antt =====
-- The tests of src/dims.rs, and the theorems at concrete shapes.
use lightarray.Prelude.{◌≡◌, ◌≤◌, ◌<◌, refl, [], ◌∷◌, replicate, drop, arith}
use lightarray.Outcome.{ok, err, panic, dims_error, too_many_dims, ◌>>=◌}
use lightarray.Dims.{Dims, from_shape, with_itemsize, shape, strides, size, scalar, drop_leading}
use lightarray.Dims.Strides.{
  LaysOut, c_dims, c_dims-LaysOut, with_itemsize-LaysOut, drop_leading-LaysOut,
}

strides_are_c_order_bytes :
    ((from_shape (2 ∷ 3 ∷ 4 ∷ []) >>= λ d. ok (strides d)) ≡ ok (96 ∷ 32 ∷ 8 ∷ []))
    × ((from_shape (2 ∷ 3 ∷ 4 ∷ []) >>= λ d. ok (size d)) ≡ ok 24)
unfolding from_shape strides size
strides_are_c_order_bytes = (refl, refl)

leading_dropped :
    (do d ← from_shape (2 ∷ 3 ∷ 4 ∷ []); e ← drop_leading d 1; ok (shape e)) ≡ ok (3 ∷ 4 ∷ [])
unfolding from_shape drop_leading
leading_dropped = refl

scalar_and_limits :
    (size scalar ≡ 1)
    × (from_shape [] ≡ ok scalar)
    × (from_shape (replicate 9 1) ≡ err (dims_error (too_many_dims 9)))
unfolding from_shape size scalar
scalar_and_limits = (refl, refl, refl)

with_itemsize-LaysOut_example :
    (3 ≤ 8 → (d : Dims) × (with_itemsize (2 ∷ 3 ∷ 4 ∷ []) 8 ≡ ok d) × LaysOut (2 ∷ 3 ∷ 4 ∷ []) 8 d)
    × (8 < 3 → with_itemsize (2 ∷ 3 ∷ 4 ∷ []) 8 ≡ err (dims_error (too_many_dims 3)))
with_itemsize-LaysOut_example = with_itemsize-LaysOut (2 ∷ 3 ∷ 4 ∷ []) 8 (omega arith)

drop_leading-LaysOut_example :
    (1 ≤ 2
      → (e : Dims) × (drop_leading (c_dims (5 ∷ 2 ∷ []) 8) 1 ≡ ok e)
        × LaysOut (2 ∷ []) 8 e
        × (strides e ≡ drop 1 (strides (c_dims (5 ∷ 2 ∷ []) 8))))
    × (2 < 1 → drop_leading (c_dims (5 ∷ 2 ∷ []) 8) 1 ≡ panic)
drop_leading-LaysOut_example =
    drop_leading-LaysOut (5 ∷ 2 ∷ []) 8 (c_dims (5 ∷ 2 ∷ []) 8) 1 (omega arith) (omega arith)
      (c_dims-LaysOut (5 ∷ 2 ∷ []) 8 (omega arith))
