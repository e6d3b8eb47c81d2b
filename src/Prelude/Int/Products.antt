-- ===== src/Prelude/Int/Products.antt =====
-- Products of signed integers.
use lightarray.Prelude.{ℕ, ◌+◌, ◌*◌, ◌≡◌, ap, arith}
use lightarray.Prelude.Int.{ℤ, pos, pos_part, neg_part, ◌+ℤ◌, ◌*ℤ◌, +ℤ_parts, eq_of_parts}

pub *ℤ_parts :
    (a b : ℤ)
    → pos_part (a *ℤ b) + (pos_part a * neg_part b + neg_part a * pos_part b)
      ≡ neg_part (a *ℤ b) + (pos_part a * pos_part b + neg_part a * neg_part b)
unfolding ◌*ℤ◌
*ℤ_parts a b = ground arith

scaled :
    (a b : ℕ) (c : ℤ)
    → a ≡ b
    → (a * pos_part c ≡ b * pos_part c) × (a * neg_part c ≡ b * neg_part c)
scaled a b c e = (ap (λ t. t * pos_part c) e, ap (λ t. t * neg_part c) e)

pub *ℤ_distrib_right : (a b c : ℤ) → (a +ℤ b) *ℤ c ≡ a *ℤ c +ℤ b *ℤ c
*ℤ_distrib_right a b c =
    let s = +ℤ_parts a b in
    let (up, down) = scaled _ _ c s in
    eq_of_parts _ _ (
      omega (
        arith,
        up,
        down,
        *ℤ_parts (a +ℤ b) c,
        *ℤ_parts a c,
        *ℤ_parts b c,
        +ℤ_parts (a *ℤ c) (b *ℤ c),
      ))

pub *ℤ_assoc : (a b c : ℤ) → a *ℤ b *ℤ c ≡ a *ℤ (b *ℤ c)
*ℤ_assoc a b c =
    let (up, down) = scaled _ _ c (*ℤ_parts a b) in
    let (up', down') = scaled _ _ a (*ℤ_parts b c) in
    eq_of_parts _ _ (omega (arith, up, down, up', down', *ℤ_parts (a *ℤ b) c, *ℤ_parts a (b *ℤ c)))

pub *ℤ_pos : (m n : ℕ) → pos m *ℤ pos n ≡ pos (m * n)
unfolding ◌*ℤ◌
*ℤ_pos m n = ground arith
