-- ===== src/Creation/Tests.antt =====
-- Runs of `arange` and `linspace` of src/lib.rs, and the theorem at them.
use lightarray.Prelude.{
  ℕ, ◌<◌, ◌≡◌, refl, arith, [], ◌∷◌, some, none, true, false, length, get_elem?,
}
use lightarray.Prelude.Int.{pos, negsuc, ◌+ℤ◌, ◌-ℤ◌, ◌*ℤ◌}
use lightarray.Outcome.{ok}
use lightarray.Creation.{range_length, range_data, int_range}
use lightarray.Creation.Steps.{precedes}
use lightarray.Creation.Progression.{range_data-progression}

-- `arange(5, -4, -3)`
down :
    range_data (pos 5) (negsuc 2) (range_length (pos 5) (negsuc 3) (negsuc 2))
    ≡ pos 5 ∷ pos 2 ∷ negsuc 0 ∷ []
unfolding range_length range_data
down = refl

no_step : int_range (pos 5) none (some (pos 0)) ≡ ok none
unfolding int_range
no_step = refl

-- The distance of these ends is above 2^63, and wraps around: one element in place of four.
wide :
    range_length (negsuc 9223372036854775807) (pos 9223372036854775807) (pos 4611686018427387904)
    ≡ 1
unfolding range_length
wide = refl

range_data-progression_example :
    (length (range_data (pos 5) (negsuc 2) (range_length (pos 5) (negsuc 3) (negsuc 2)))
      ≡ range_length (pos 5) (negsuc 3) (negsuc 2))
    × ((i : ℕ)
        → i < range_length (pos 5) (negsuc 3) (negsuc 2)
        → (get_elem? (range_data (pos 5) (negsuc 2) (range_length (pos 5) (negsuc 3) (negsuc 2))) i
            ≡ some (pos 5 +ℤ pos i *ℤ negsuc 2))
          × (precedes (negsuc 2) (pos 5 +ℤ pos i *ℤ negsuc 2) (negsuc 3) ≡ true))
    × (precedes
          (negsuc 2)
          (pos 5 +ℤ pos (range_length (pos 5) (negsuc 3) (negsuc 2)) *ℤ negsuc 2)
          (negsuc 3)
        ≡ false)
unfolding ◌-ℤ◌
range_data-progression_example =
    range_data-progression (pos 5) (negsuc 3) (negsuc 2) refl refl refl (omega arith) (λ e. cc)
