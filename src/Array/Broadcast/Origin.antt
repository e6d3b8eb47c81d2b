-- ===== src/Array/Broadcast/Origin.antt =====
-- Where an element of a broadcast result of src/array.rs comes from.
use native.Mathlib.Nat.{mod-eq_of_lt, mul_comm}
use lightarray.Prelude.{
  ℕ, zero, suc, ◌-◌, ◌*◌, ◌≤◌, ◌<◌, ◌≡◌, ◌⊎◌, refl, ap, ap₂, ◌∙◌, arith, List, [], ◌∷◌, ◌++◌,
  if◌then◌else◌, ◌==◌, length, product, replicate, drop, Bool-cases, inl, inr, word, length-append,
  length-replicate,
}
use lightarray.Dims.Strides.{Fits, Fits-product-lt}
use lightarray.Array.Locate.Order.{flat, Inside}
use lightarray.Array.Broadcast.{repeat_loop, broadcast_strides}
use lightarray.Array.Broadcast.Walk.{dot}
use lightarray.Array.Broadcast.Aligned.{Fills}

-- The position in a shape under a position of the result: 0 on the axes of length 1.
abbrev pub origin : List ℕ → List ℕ → List ℕ
origin (d ∷ s) (i ∷ is) = (if d == 1 then 0 else i) ∷ origin s is
origin _ _ = []

-- The same, when the result has more axes in front.
abbrev pub source : List ℕ → List ℕ → List ℕ
source s is = origin s (drop (length is - length s) is)

abbrev stretched : List ℕ → List ℕ
stretched [] = []
stretched (d ∷ s) = (if d == 1 then 0 else product s) ∷ stretched s

repeat_loop-stretched :
    (z : ℕ) (s : List ℕ) → 0 < z → Fits z s → repeat_loop 1 s ≡ (stretched s, product s)
unfolding repeat_loop
repeat_loop-stretched z [] h f = refl
repeat_loop-stretched z (d ∷ s) h f =
    let small : product s * d < word =
      omega (arith, Fits-product-lt z (d ∷ s) h f, mul_comm (product s) d) in
    rw (repeat_loop-stretched z s h f.1)
      (ap (λ t. (stretched (d ∷ s), t)) (mod-eq_of_lt small ∙ mul_comm (product s) d))

dot-stretched : (s is : List ℕ) → dot is (stretched s) ≡ flat s (origin s is)
dot-stretched [] [] = refl
dot-stretched [] (i ∷ is) = refl
dot-stretched (d ∷ s) [] = refl
dot-stretched (d ∷ s) (i ∷ is) = elim (Bool-cases (d == 1)) [
  | inl one ↦ rw one (omega (arith, dot-stretched s is))
  | inr long ↦ rw long (omega (arith, dot-stretched s is))
]

dot-replicate :
    (n : ℕ) (is ss : List ℕ) → n ≤ length is → dot is (replicate n 0 ++ ss) ≡ dot (drop n is) ss
dot-replicate zero is ss h = refl
dot-replicate (suc n) [] ss h = absurd (omega arith)
dot-replicate (suc n) (i ∷ is) ss h = omega (arith, dot-replicate n is ss (omega arith))

-- The broadcast strides lead to the origin of each position.
pub dot-broadcast_strides :
    (z : ℕ) (s u is : List ℕ)
    → 0 < z
    → Fits z s
    → length is ≡ length u
    → dot is (broadcast_strides s u) ≡ flat s (source s is)
unfolding broadcast_strides
dot-broadcast_strides z s u is h f e =
    rw (repeat_loop-stretched z s h f, ← e)
      (dot-replicate (length is - length s) is (stretched s) (omega arith)
        ∙ dot-stretched s (drop (length is - length s) is))

origin-lt : (c d i : ℕ) → (c ≡ d) ⊎ (c ≡ 1) → i < d → (if c == 1 then 0 else i) < c
origin-lt c d i p h = ground arith

origin-Inside :
    (s u is : List ℕ)
    → Fills s u
    → Inside u is
    → length is ≡ length u
    → Inside s (origin s is) × (length (origin s is) ≡ length s)
origin-Inside [] [] [] p h e = (tt, refl)
origin-Inside [] [] (i ∷ is) p h e = absurd h
origin-Inside [] (d ∷ u) is p h e = absurd p
origin-Inside (c ∷ s) [] is p h e = absurd p
origin-Inside (c ∷ s) (d ∷ u) [] p h e = absurd (omega arith)
origin-Inside (c ∷ s) (d ∷ u) (i ∷ is) p h e =
    let (rest, full) = origin-Inside s u is p.1 h.1 (omega arith) in
    ((origin-lt c d i p.0 h.0, rest), ap suc full)

widened-Inside :
    (n : ℕ) (s u is : List ℕ)
    → Fills (replicate n 1 ++ s) u
    → Inside u is
    → length is ≡ length u
    → Inside s (origin s (drop n is)) × (length (origin s (drop n is)) ≡ length s)
widened-Inside zero s u is p h e = origin-Inside s u is p h e
widened-Inside (suc n) s [] is p h e = absurd p
widened-Inside (suc n) s (d ∷ u) [] p h e = absurd (omega arith)
widened-Inside (suc n) s (d ∷ u) (i ∷ is) p h e = widened-Inside n s u is p.1 h.1 (omega arith)

-- The origin of a position of the result is a position of the shape.
pub source-Inside :
    (n : ℕ) (s u is : List ℕ)
    → Fills (replicate (n - length s) 1 ++ s) u
    → Inside u is
    → length is ≡ length u
    → length u ≡ n
    → Inside s (source s is) × (length (source s is) ≡ length s)
source-Inside n s u is p h e l =
    let same : length is ≡ n = omega arith in rw same (widened-Inside (n - length s) s u is p h e)

-- A position of the shape itself is its own origin.
origin_self : (s is : List ℕ) → Inside s is → length is ≡ length s → origin s is ≡ is
origin_self [] [] h e = refl
origin_self [] (i ∷ is) h e = absurd h
origin_self (d ∷ s) [] h e = absurd (omega arith)
origin_self (d ∷ s) (i ∷ is) h e = ap₂ ◌∷◌ (one_place d i h.0) (origin_self s is h.1 (omega arith))
  where
    one_place : (c j : ℕ) → j < c → (if c == 1 then 0 else j) ≡ j
    one_place c j p = ground arith

pub source_self : (s is : List ℕ) → Inside s is → length is ≡ length s → source s is ≡ is
source_self s is h e =
    let none_before : length is - length s ≡ 0 = omega arith in
    rw none_before (origin_self s is h e)

length-repeat_loop : (z : ℕ) (s : List ℕ) → length (repeat_loop z s).0 ≡ length s
unfolding repeat_loop
length-repeat_loop z [] = refl
length-repeat_loop z (d ∷ s) = ap suc (length-repeat_loop z s)

pub length-broadcast_strides :
    (s u : List ℕ) → length s ≤ length u → length (broadcast_strides s u) ≡ length u
unfolding broadcast_strides
length-broadcast_strides s u h = omega (
  arith,
  length-append (replicate (length u - length s) 0) (repeat_loop 1 s).0,
  length-replicate {A = ℕ} (length u - length s) 0,
  length-repeat_loop 1 s,
)

-- The first position.
pub zeros-Inside : (u : List ℕ) → 0 < product u → Inside u (replicate (length u) 0)
zeros-Inside [] h = tt
zeros-Inside (d ∷ u) h = (grind arith, zeros-Inside u (grind arith))

pub flat-zeros : (u : List ℕ) (n : ℕ) → flat u (replicate n 0) ≡ 0
flat-zeros u zero = refl
flat-zeros [] (suc n) = refl
flat-zeros (d ∷ u) (suc n) = omega (arith, flat-zeros u n)

pub dot-zeros : (n : ℕ) (ss : List ℕ) → dot (replicate n 0) ss ≡ 0
dot-zeros zero ss = refl
dot-zeros (suc n) [] = refl
dot-zeros (suc n) (s ∷ ss) = omega (arith, dot-zeros n ss)
