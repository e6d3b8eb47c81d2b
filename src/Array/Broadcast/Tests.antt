-- ===== src/Array/Broadcast/Tests.antt =====
-- Runs of the kernels of two arrays, after the tests of src/array.rs, and the theorems at them.
use lightarray.Prelude.{ℕ, ◌≡◌, refl, arith, List, [], ◌∷◌, ◌+◌, ◌⊎◌}
use lightarray.Outcome.{ok, err, ◌>>=◌, shape_mismatch}
use lightarray.Dims
use lightarray.Dims.Strides.{c_dims}
use lightarray.Array.{Array, new}
use lightarray.Array.Valid.{HasShape}
use lightarray.Array.Tests.{nat_element, grid, grid-HasShape}
use lightarray.Array.Broadcast.{
  broadcast_shape, broadcast_strides, odometer_loop, zip_map, zip_map_broadcast, zip_map_inplace,
}
use lightarray.Array.Broadcast.Aligned.{Joins, Clashes, broadcast_shape_lem}
use lightarray.Array.Broadcast.Zip.{IsZip, zip_map-IsZip}
use lightarray.Array.Broadcast.Inplace.{zip_map_inplace-IsZip}

-- A column of two rows.
abbrev column : Array ℕ
column = record { buffer = 100 ∷ 200 ∷ []; dims = c_dims (2 ∷ 1 ∷ []) 8 }

column-HasShape : HasShape (2 ∷ 1 ∷ []) column
column-HasShape = record { short = omega arith; fits = omega arith; dims = refl; full = refl }

incompatible : broadcast_shape (2 ∷ 3 ∷ []) (2 ∷ []) ≡ err (shape_mismatch (2 ∷ 3 ∷ []) (2 ∷ []))
unfolding broadcast_shape
incompatible = refl

columns_added :
    (zip_map ◌+◌ grid column >>= λ r. ok r.buffer) ≡ ok (110 ∷ 111 ∷ 112 ∷ 213 ∷ 214 ∷ 215 ∷ [])
unfolding zip_map zip_map_broadcast broadcast_shape broadcast_strides odometer_loop new Dims.shape
    Dims.with_itemsize Dims.size
columns_added = refl

joined : broadcast_shape (2 ∷ 3 ∷ []) (2 ∷ 1 ∷ []) ≡ ok (2 ∷ 3 ∷ [])
unfolding broadcast_shape
joined = refl

broadcast_shape_lem_example :
    ((u : List ℕ) × (broadcast_shape (3 ∷ []) (2 ∷ 1 ∷ []) ≡ ok u)
      × Joins (1 ∷ 3 ∷ []) (2 ∷ 1 ∷ []) u)
    ⊎ ((broadcast_shape (3 ∷ []) (2 ∷ 1 ∷ []) ≡ err (shape_mismatch (3 ∷ []) (2 ∷ 1 ∷ [])))
        × Clashes (1 ∷ 3 ∷ []) (2 ∷ 1 ∷ []))
broadcast_shape_lem_example = broadcast_shape_lem (3 ∷ []) (2 ∷ 1 ∷ [])

zip_map-IsZip_example :
    (r : Array ℕ) × (zip_map ◌+◌ grid column ≡ ok r)
    × IsZip ◌+◌ (2 ∷ 3 ∷ []) (2 ∷ 1 ∷ []) (2 ∷ 3 ∷ []) grid column r
zip_map-IsZip_example =
    zip_map-IsZip ◌+◌ (2 ∷ 3 ∷ []) (2 ∷ 1 ∷ []) (2 ∷ 3 ∷ []) grid column grid-HasShape
      column-HasShape joined (omega arith)

zip_map_inplace-IsZip_example :
    (r : Array ℕ) × (zip_map_inplace ◌+◌ grid column ≡ ok r)
    × (r.dims ≡ grid.dims)
    × IsZip ◌+◌ (2 ∷ 3 ∷ []) (2 ∷ 1 ∷ []) (2 ∷ 3 ∷ []) grid column r
zip_map_inplace-IsZip_example =
    (zip_map_inplace-IsZip ◌+◌ (2 ∷ 3 ∷ []) (2 ∷ 1 ∷ []) grid column grid-HasShape
        column-HasShape).0
      joined
