-- ===== src/Creation/Progression.antt =====
-- The numbers that `arange` of src/lib.rs makes from integers.
use lightarray.Prelude.{
  ℕ, zero, suc, ◌+◌, ◌-◌, ◌*◌, ◌^◌, ◌<◌, ◌≤◌, ◌≡◌, ◌≢◌, refl, ap, ◌∙◌, arith, true, false, some,
  lt→ltb, Bool-cases, inl, inr, length, get_elem?,
}
use native.Mathlib.Decide.{dec_lt}
use native.Mathlib.Nat.{mul_comm}
use lightarray.Prelude.Int.{ℤ, pos, ◌+ℤ◌, ◌-ℤ◌, ◌*ℤ◌}
use lightarray.Array.AnyArray.{wrapping_add}
use lightarray.Operators.{is_i64, wrapping_mul}
use lightarray.Creation.{unsigned_abs, div_ceil, leads, range_length, range_from, range_data}
use lightarray.Creation.Exact.{wrapping_add-exact, distance, wrapping_mul-exact, product_fits}
use lightarray.Creation.Steps.{precedes, before, past, past_already, leads-positive}
use lightarray.Creation.Ceiling.{div_ceil-covers, lt-div_ceil}

length-range_from : (a st : ℤ) (k n : ℕ) → length (range_from a st k n) ≡ n
length-range_from a st k zero = refl
length-range_from a st k (suc n) = ap suc (length-range_from a st (suc k) n)

get_elem?-range_from :
    (a st : ℤ) (k n i : ℕ)
    → i < n
    → get_elem? (range_from a st k n) i ≡ some (wrapping_add a (wrapping_mul (pos (k + i)) st))
get_elem?-range_from a st k zero i h = absurd (omega arith)
get_elem?-range_from a st k (suc n) zero h =
    ap (λ t. some (wrapping_add a (wrapping_mul (pos t) st))) (omega arith)
get_elem?-range_from a st k (suc n) (suc i) h =
    get_elem?-range_from a st (suc k) n i (omega arith)
    ∙ ap (λ t. some (wrapping_add a (wrapping_mul (pos t) st))) (omega arith)

-- A multiple of a step of at least 1 is at least as large.
le-scaled : (s i : ℕ) → 0 < s → i ≤ s * i
le-scaled zero i h = absurd (omega arith)
le-scaled (suc s) i h = grind arith

module _ (a b st : ℤ) (h : is_i64 a ≡ true) (k : is_i64 b ≡ true) (r : is_i64 st ≡ true)
    (short : unsigned_abs (b -ℤ a) < 2 ^ 63) where
  -- The code computes the length of the progression that leads somewhere without overflow.
  length_lem :
      leads a b st ≡ true → range_length a b st ≡ div_ceil (unsigned_abs (b -ℤ a)) (unsigned_abs st)
  unfolding range_length
  length_lem l = rw (l, distance a b h k short) refl

  no_length : leads a b st ≡ false → range_length a b st ≡ 0
  unfolding range_length
  no_length l = rw l refl

  range_length-small : range_length a b st < 2 ^ 63
  range_length-small = elim (Bool-cases (leads a b st)) [
    | inl l ↦
        let d = unsigned_abs (b -ℤ a) in
        let s = unsigned_abs st in
        let some_step = leads-positive a b st l in
        rw (length_lem l) (elim (dec_lt 0 (div_ceil d s)) [
          | yes p ↦
              let lt = lt-div_ceil d s (div_ceil d s - 1) some_step (omega arith) in
              let le = le-scaled s (div_ceil d s - 1) some_step in omega arith
          | no p ↦ omega arith
        ])
    | inr l ↦ rw (no_length l) (omega arith)
  ]

  length_data : length (range_data a st (range_length a b st)) ≡ range_length a b st
  unfolding range_data
  length_data = rw (lt→ltb _ _ range_length-small) (length-range_from a st 0 (range_length a b st))

  element_lem :
      (i : ℕ)
      → i < range_length a b st
      → (get_elem? (range_data a st (range_length a b st)) i ≡ some (a +ℤ pos i *ℤ st))
        × (precedes st (a +ℤ pos i *ℤ st) b ≡ true)
  unfolding range_data
  element_lem i lt = elim (Bool-cases (leads a b st)) [
    | inl l ↦
        let d = unsigned_abs (b -ℤ a) in
        let s = unsigned_abs st in
        let some_step = leads-positive a b st l in
        let lt' : i < div_ceil d s = rw (← length_lem l) lt in
        let reach = lt-div_ceil d s i some_step lt' in
        let le = le-scaled s i some_step in
        let (first, fits) = before a b st i h k l reach in
        let small = range_length-small in
        let zero_on : 0 + i ≡ i = omega arith in
        let size : unsigned_abs st * i < 2 ^ 63 = omega arith in
        let product = wrapping_mul-exact i st (omega (arith, mul_comm i s)) (omega arith) r in
        (
          rw (lt→ltb _ _ small) (
              get_elem?-range_from a st 0 (range_length a b st) i lt
              ∙ ap (λ t. some (wrapping_add a (wrapping_mul (pos t) st))) zero_on
              ∙ ap (λ t. some (wrapping_add a t)) product
              ∙ ap some (wrapping_add-exact a (pos i *ℤ st) h (product_fits i st size) fits)),
          first,
        )
    | inr l ↦ let none_left = no_length l in absurd (omega arith)
  ]

-- `arange` of integers whose distance is below 2^63, with a step that is not 0, makes the numbers
-- `a + i * st` that come before `b`, all of them and in order, without overflow; the next one does
-- not come before `b`.
pub range_data-progression :
    (a b st : ℤ)
    → is_i64 a ≡ true
    → is_i64 b ≡ true
    → is_i64 st ≡ true
    → unsigned_abs (b -ℤ a) < 2 ^ 63
    → st ≢ pos 0
    → (length (range_data a st (range_length a b st)) ≡ range_length a b st)
      × ((i : ℕ)
          → i < range_length a b st
          → (get_elem? (range_data a st (range_length a b st)) i ≡ some (a +ℤ pos i *ℤ st))
            × (precedes st (a +ℤ pos i *ℤ st) b ≡ true))
      × (precedes st (a +ℤ pos (range_length a b st) *ℤ st) b ≡ false)
range_data-progression a b st h k r short moves = (
  length_data a b st h k r short,
  element_lem a b st h k r short,
  elim (Bool-cases (leads a b st)) [
    | inl l ↦ past a b st (range_length a b st) l (
        rw (length_lem a b st h k r short l)
          (div_ceil-covers (unsigned_abs (b -ℤ a)) (unsigned_abs st) (leads-positive a b st l)))
    | inr l ↦ rw (no_length a b st h k r short l) (past_already a b st moves l)
  ],
)
