-- ===== src/Memory/Tests.antt =====
-- Runs of the walks, and examples of the theorems.
use lightarray.Prelude.{ℕ, ◌≡◌, ◌≢◌, refl, ap, arith, List, [], ◌∷◌, length}
use lightarray.Prelude.Int.{ℤ, pos, pos_part, neg_part, negsuc, ◌+ℤ◌, ◌-ℤ◌, ◌*ℤ◌, int_laws}
use lightarray.Prelude.Int.Products.{*ℤ_pos}
use lightarray.Outcome.{ok}
use lightarray.Array.Locate.Order.{Inside}
use lightarray.Layout.Address.{address}
use lightarray.Memory.{Memory, Visits, walk_strided, gather_from, scatter_to}
use lightarray.Memory.Walk.{Visited}
use lightarray.Memory.Whole.{walk_strided-Visited}
use lightarray.Memory.Copy.{IsInjective, gather_from-scatter_to}

abbrev zeros : Memory ℤ
zeros = λ at. pos 0

-- A column of two elements, 24 bytes apart.
column_visits : walk_strided (2 ∷ []) (pos 24 ∷ []) ≡ ok ((0, pos 0) ∷ (1, pos 24) ∷ [])
unfolding walk_strided ◌+ℤ◌ ◌*ℤ◌
column_visits = refl

-- The odometer, on three axes.
odometer_visits :
    walk_strided (2 ∷ 1 ∷ 2 ∷ []) (pos 40 ∷ pos 8 ∷ negsuc 7 ∷ [])
    ≡ ok ((0, pos 0) ∷ (1, negsuc 7) ∷ (2, pos 40) ∷ (3, pos 32) ∷ [])
unfolding walk_strided ◌+ℤ◌ ◌-ℤ◌ ◌*ℤ◌
odometer_visits = refl

walk_strided-Visited_example :
    (visits : Visits) × (walk_strided (2 ∷ 1 ∷ 2 ∷ []) (pos 40 ∷ pos 8 ∷ negsuc 7 ∷ []) ≡ ok visits)
    × Visited (2 ∷ 1 ∷ 2 ∷ []) (pos 40 ∷ pos 8 ∷ negsuc 7 ∷ []) 4 0 visits
walk_strided-Visited_example =
    walk_strided-Visited (2 ∷ 1 ∷ 2 ∷ []) (pos 40 ∷ pos 8 ∷ negsuc 7 ∷ []) refl (omega arith)

column-IsInjective : IsInjective (2 ∷ []) (pos 1016) (pos 24 ∷ [])
column-IsInjective (i ∷ []) (j ∷ []) h k f g e =
    let same : i ≡ j = omega (
      int_laws,
      ap pos_part e,
      ap neg_part e,
      ap pos_part (*ℤ_pos i 24),
      ap pos_part (*ℤ_pos j 24),
      ap neg_part (*ℤ_pos i 24),
      ap neg_part (*ℤ_pos j 24),
    ) in
    λ n. same n ∷ []
column-IsInjective [] js h k f g e = absurd (omega arith)
column-IsInjective (i ∷ is) [] h k f g e = absurd (omega arith)
column-IsInjective (i ∷ a ∷ is) (j ∷ js) h k f g e = absurd (omega arith)
column-IsInjective (i ∷ []) (j ∷ b ∷ js) h k f g e = absurd (omega arith)

gather_from-scatter_to_example :
    (after : Memory ℤ) × (scatter_to zeros (pos 7 ∷ pos 9 ∷ []) (2 ∷ []) (pos 1016) (pos 24 ∷ [])
      ≡ ok after)
    × (gather_from after (pos 0 ∷ pos 0 ∷ []) (2 ∷ []) (pos 1016) (pos 24 ∷ [])
        ≡ ok (pos 7 ∷ pos 9 ∷ []))
    × ((b : ℤ)
        → ((is : List ℕ)
            → Inside (2 ∷ []) is
            → length is ≡ 1
            → b ≢ address (pos 1016) (pos 24 ∷ []) is)
        → after b ≡ pos 0)
gather_from-scatter_to_example =
    gather_from-scatter_to (2 ∷ []) (pos 1016) (pos 24 ∷ []) refl (omega arith) zeros
      (pos 7 ∷ pos 9 ∷ []) (pos 0 ∷ pos 0 ∷ []) column-IsInjective refl refl
