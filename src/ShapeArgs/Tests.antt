-- ===== src/ShapeArgs/Tests.antt =====
-- Runs of `extract_shape_args`, and the theorem at one.
use lightarray.Prelude.{◌≡◌, refl, arith, [], ◌∷◌, product}
use lightarray.Prelude.Int.{pos, negsuc}
use lightarray.ShapeArgs.{shape, value_error, many_unknown, extract_shape_args}
use lightarray.ShapeArgs.Product.{filled_in, extract_shape_args-product}

two_unknown : extract_shape_args (negsuc 0 ∷ negsuc 0 ∷ []) 6 ≡ value_error many_unknown
unfolding extract_shape_args
two_unknown = refl

extract_shape_args-product_example :
    (extract_shape_args (pos 2 ∷ negsuc 0 ∷ []) 6 ≡ shape (2 ∷ 3 ∷ []))
    × (product (filled_in 3 (pos 2 ∷ negsuc 0 ∷ [])) ≡ 6)
extract_shape_args-product_example =
    (extract_shape_args-product (pos 2 ∷ negsuc 0 ∷ []) 6 (omega arith)).1 refl (omega arith) refl
