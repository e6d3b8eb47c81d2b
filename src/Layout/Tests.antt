-- ===== src/Layout/Tests.antt =====
-- Runs of the operations of `Layout`, and examples of the theorems.
use lightarray.Prelude.{ℕ, ◌≡◌, ◌<◌, ◌*◌, refl, arith, [], ◌∷◌, true, false}
use lightarray.Prelude.Int.{pos, negsuc, ◌+ℤ◌, ◌*ℤ◌}
use lightarray.Outcome.{ok, err, message, max_dims}
use lightarray.Array.Select.{slice}
use lightarray.Array.Locate.Order.{flat}
use lightarray.Layout.{Layout, insert_axis, reversed, select, is_c_contiguous}
use lightarray.Layout.Address.{address_of}
use lightarray.Layout.Axes.{insert_axis-address}
use lightarray.Layout.Compact.{is_c_contiguous-address}

abbrev rows : Layout
rows = record { ptr = pos 1000; shape = 2 ∷ 3 ∷ []; strides = pos 24 ∷ pos 8 ∷ [] }

-- Row 1, from the last column back.
last_row :
    select rows
      (record { start = 1; step = pos 1; count = 1 }
        ∷ record { start = 2; step = negsuc 0; count = 3 }
        ∷ [])
      (slice (pos 1) (pos 2) (pos 1) ∷ [])
    ≡ record { ptr = pos 1040; shape = 1 ∷ 3 ∷ []; strides = pos 24 ∷ negsuc 7 ∷ [] }
unfolding select ◌+ℤ◌ ◌*ℤ◌
last_row = refl

columns :
    reversed rows ≡ record { ptr = pos 1000; shape = 3 ∷ 2 ∷ []; strides = pos 8 ∷ pos 24 ∷ [] }
unfolding reversed
columns = refl

rows_lie_in_order : is_c_contiguous rows 8 ≡ true
unfolding is_c_contiguous
rows_lie_in_order = refl

columns_do_not : is_c_contiguous (reversed rows) 8 ≡ false
unfolding is_c_contiguous reversed
columns_do_not = refl

is_c_contiguous-address_example :
    address_of rows (1 ∷ 2 ∷ []) ≡ pos 1000 +ℤ pos (8 * flat (2 ∷ 3 ∷ []) (1 ∷ 2 ∷ []))
is_c_contiguous-address_example =
    is_c_contiguous-address 8 rows (omega arith, (omega arith, omega arith)) refl rows_lie_in_order
      (1 ∷ 2 ∷ []) (omega arith, (omega arith, tt)) refl

insert_axis-address_example :
    (2 < 8
      → (r : Layout) × (insert_axis rows 1 ≡ ok r)
        × (r.shape ≡ 2 ∷ 1 ∷ 3 ∷ [])
        × (address_of r (1 ∷ 0 ∷ 2 ∷ []) ≡ address_of rows (1 ∷ 2 ∷ [])))
    × (◌≡◌ {A = ℕ} 2 8 → insert_axis rows 1 ≡ err (message (max_dims 8)))
insert_axis-address_example = insert_axis-address rows 1 (1 ∷ 2 ∷ []) refl refl
