-- ===== src/Array/Locate/Order.antt =====
-- C order: which place of the buffer an index of `Array` of src/array.rs addresses.
use native.Mathlib.Nat.{mod-lt, div-lt_iff_lt-mul, div-add-mod'}
use native.Mathlib.Decide.{dec_lt}
use lightarray.Prelude.{ℕ, suc, ◌+◌, ◌*◌, ◌-◌, ◌/◌, ◌%◌, ◌≤◌, ◌<◌, ◌≡◌, refl, ap, ap₂, arith}
use lightarray.Prelude.{◌∙◌, ◌++◌, ◌⊎◌, inl, inr, Option-cases}
use lightarray.Prelude.{
  List, [], ◌∷◌, Option, none, some, length, drop, product, ltb, if◌then◌else◌,
}
use lightarray.Prelude.Int.{ℤ, pos, negsuc}
use lightarray.Outcome.{
  Result, ok, err, panic, index_out_of_bounds, ◌>>=◌, >>=-eq-ok, ok-injective, ArrayError,
}

-- An index counts from the start, or from the end if it is negative.
abbrev pub from_either_end : ℕ → ℤ → Option ℕ
from_either_end d (pos n) = if ltb n d then some n else none
from_either_end d (negsuc n) = if ltb n d then some (d - suc n) else none

abbrev pub in_axis : ℕ → ℕ → ℤ → Option ℕ → Result ℕ
in_axis d axis x (some i) = ok i
in_axis d axis x none = err (index_out_of_bounds x axis d)

-- The position that indices for the leading axes of a shape name, or the first that is outside.
abbrev pub resolve : ℕ → List ℕ → List ℤ → Result (List ℕ)
resolve axis s [] = ok []
resolve axis [] (x ∷ xs) = panic
resolve axis (d ∷ s) (x ∷ xs) = do
  i ← in_axis d axis x (from_either_end d x)
  rest ← resolve (suc axis) s xs
  ok (i ∷ rest)

-- The number of elements before a position in C order.
abbrev pub flat : List ℕ → List ℕ → ℕ
flat s [] = 0
flat [] (i ∷ is) = 0
flat (d ∷ s) (i ∷ is) = i * product s + flat s is

-- A position inside the leading axes of a shape.
abbrev pub Inside : List ℕ → List ℕ → Type 0
Inside s [] = Unit {0}
Inside [] (i ∷ is) = ⊥
Inside (d ∷ s) (i ∷ is) = (i < d) × Inside s is

pub from_either_end-lt : (d : ℕ) (x : ℤ) (i : ℕ) → from_either_end d x ≡ some i → i < d
from_either_end-lt d (pos n) i h = ground arith
from_either_end-lt d (negsuc n) i h = ground arith

-- With no more indices than axes, indices name a position inside or are refused.
pub resolve-Inside :
    (axis : ℕ) (s : List ℕ) (xs : List ℤ) (is : List ℕ)
    → resolve axis s xs ≡ ok is
    → Inside s is × (length is ≡ length xs)
resolve-Inside axis s [] is h = ground arith
resolve-Inside axis [] (x ∷ xs) is h = cc
resolve-Inside axis (d ∷ s) (x ∷ xs) is h =
    go (resolve-Inside (suc axis) s xs) (from_either_end d x) refl h
  where
    go :
        ((r : List ℕ) → resolve (suc axis) s xs ≡ ok r → Inside s r × (length r ≡ length xs))
        → (o : Option ℕ) → from_either_end d x ≡ o
        → (in_axis d axis x o >>= λ i. resolve (suc axis) s xs >>= λ rest. ok (i ∷ rest)) ≡ ok is
        → Inside (d ∷ s) is × (length is ≡ suc (length xs))
    go ih none e f = cc
    go ih (some i) e f =
        let (rest, found, out) = >>=-eq-ok (resolve (suc axis) s xs) _ f in
        let (inside, same) = ih rest found in
        rw (← ok-injective out) ((from_either_end-lt d x i e, inside), ap suc same)

pub row-le : (i d p : ℕ) → i < d → i * p + p ≤ d * p
row-le i d p h = grind arith

-- The sub-array at a position lies in the buffer.
pub flat-Inside :
    (s is : List ℕ) → Inside s is → flat s is + product (drop (length is) s) ≤ product s
flat-Inside s [] h = omega arith
flat-Inside [] (i ∷ is) h = elim h [ ]
flat-Inside (d ∷ s) (i ∷ is) h = omega (arith, flat-Inside s is h.1, row-le i d (product s) h.0)

drop_full : (s is : List ℕ) → length is ≡ length s → product (drop (length is) s) ≡ 1
drop_full [] [] e = refl
drop_full [] (i ∷ is) e = absurd (omega arith)
drop_full (d ∷ s) [] e = absurd (omega arith)
drop_full (d ∷ s) (i ∷ is) e = drop_full s is (omega arith)

-- A position with an index for each axis addresses an element.
pub flat-lt : (s is : List ℕ) → Inside s is → length is ≡ length s → flat s is < product s
flat-lt s is h e = omega (arith, flat-Inside s is h, drop_full s is e)

row_inj : (i j p a b : ℕ) → a < p → b < p → i * p + a ≡ j * p + b → (i ≡ j) × (a ≡ b)
row_inj i j p a b ha hb e = elim (dec_lt i j) [
  | yes lt ↦ absurd (omega (arith, row-le i j p lt))
  | no ge ↦ elim (dec_lt j i) [
    | yes lt ↦ absurd (omega (arith, row-le j i p lt))
    | no le ↦ let same : i ≡ j = omega arith in (same, omega (arith, ap (λ t. t * p) same))
  ]
]

-- Positions of full length are told apart by their place.
pub flat_inj :
    (s is js : List ℕ)
    → Inside s is
    → Inside s js
    → length is ≡ length s
    → length js ≡ length s
    → flat s is ≡ flat s js
    → is ≡ js
flat_inj [] [] [] h k p q e = refl
flat_inj [] [] (j ∷ js) h k p q e = absurd k
flat_inj [] (i ∷ is) js h k p q e = absurd h
flat_inj (d ∷ s) [] js h k p q e = absurd (omega arith)
flat_inj (d ∷ s) (i ∷ is) [] h k p q e = absurd (omega arith)
flat_inj (d ∷ s) (i ∷ is) (j ∷ js) h k p q e =
    let (head, tail) =
      row_inj i j (product s) (flat s is) (flat s js) (flat-lt s is h.1 (omega arith))
        (flat-lt s js k.1 (omega arith)) e in
    ap₂ ◌∷◌ head (flat_inj s is js h.1 k.1 (omega arith) (omega arith) tail)

-- The place of a position that goes on inside a sub-array.
pub flat-append :
    (s is js : List ℕ)
    → length is ≤ length s
    → flat s (is ++ js) ≡ flat s is + flat (drop (length is) s) js
flat-append s [] js h = omega arith
flat-append [] (i ∷ is) js h = absurd (omega arith)
flat-append (d ∷ s) (i ∷ is) js h = omega (arith, flat-append s is js (omega arith))

-- With no more indices than axes, indices are resolved or refused.
pub resolve_cases :
    (axis : ℕ) (s : List ℕ) (xs : List ℤ)
    → length xs ≤ length s
    → ((is : List ℕ) × (resolve axis s xs ≡ ok is))
      ⊎ ((why : ArrayError) × (resolve axis s xs ≡ err why))
resolve_cases axis s [] h = inl ([], refl)
resolve_cases axis [] (x ∷ xs) h = absurd (omega arith)
resolve_cases axis (d ∷ s) (x ∷ xs) h = elim (Option-cases (from_either_end d x)) [
  | inl out ↦ inr (index_out_of_bounds x axis d, rw out refl)
  | inr (i, inside) ↦ elim (resolve_cases (suc axis) s xs (omega arith)) [
    | inl (is, found) ↦ inl (i ∷ is, rw (inside, found) refl)
    | inr (why, bad) ↦ inr (why, rw (inside, bad) refl)
  ]
]

-- Every place is that of a position.
pub flat_surj :
    (s : List ℕ) (i : ℕ)
    → i < product s
    → (is : List ℕ) × Inside s is × (length is ≡ length s) × (flat s is ≡ i)
flat_surj [] i h = ([], tt, refl, omega arith)
flat_surj (d ∷ s) i h =
    let p = product s in
    let room : 0 < p = grind arith in
    let (is, inside, full, same) = flat_surj s (i % p) (mod-lt i room) in
    let row : i / p < d = (div-lt_iff_lt-mul room).1 h in
    (i / p ∷ is, (row, inside), ap suc full, ap (λ t. i / p * p + t) same ∙ div-add-mod' i p)
