-- ===== src/Array/Kernels/Extreme.antt =====
-- `arg_extreme` of src/array.rs finds the first NaN, or else the first of the best elements.
use lightarray.Prelude.{
  ℕ, zero, suc, ◌<◌, ◌≡◌, refl, sym, ap, ◌∙◌, arith, List, [], ◌∷◌, Bool, true, false, none, some,
  get_elem?, length, Bool-cases, inl, inr, drop, length-drop, lt-get_elem?, get_elem?-drop_head,
  ◌⊎◌,
}
use native.Mathlib.Decide.{dec_lt}
use lightarray.Array.Kernels.{extreme_loop, extreme_of}

module _ {ℓ} {F : Type ℓ} (is_nan : F → Bool) (better : F → F → Bool) where
  -- `i` is the place of the first NaN; or there is none, no element is better than the element at
  -- `i`, and that is better than each before it.
  pub data IsExtreme (xs : List F) (i : ℕ) : Type ℓ where
    first_nan :
        {x : F}
        → get_elem? xs i ≡ some x
        → is_nan x ≡ true
        → ((j : ℕ) (y : F) → j < i → get_elem? xs j ≡ some y → is_nan y ≡ false)
        → IsExtreme xs i
    first_best :
        {x : F}
        → get_elem? xs i ≡ some x
        → ((j : ℕ) (y : F)
            → get_elem? xs j ≡ some y
            → (is_nan y ≡ false) × (better y x ≡ false) × (j < i → better x y ≡ true))
        → IsExtreme xs i

  -- What comparisons of floats that are not NaN obey.
  pub record IsStrict : Type ℓ where
    pub irreflexive : (x : F) → better x x ≡ false
    pub transitive : (x y z : F) → better x y ≡ true → better y z ≡ true → better x z ≡ true
    pub cotransitive :
        (x y z : F)
        → is_nan y ≡ false
        → is_nan z ≡ false
        → better x y ≡ true
        → better z y ≡ false
        → better x z ≡ true

  module _ (order : IsStrict) (xs : List F) where
    -- The best of the elements before `i`.
    record Best (i best_i : ℕ) (best : F) : Type ℓ where
      pub before : best_i < i
      pub at : get_elem? xs best_i ≡ some best
      pub seen :
          (j : ℕ) (y : F)
          → j < i
          → get_elem? xs j ≡ some y
          → (is_nan y ≡ false) × (better y best ≡ false) × (j < best_i → better best y ≡ true)

    Best-kept :
        (i best_i : ℕ) (best x : F)
        → Best i best_i best
        → get_elem? xs i ≡ some x
        → is_nan x ≡ false
        → better x best ≡ false
        → Best (suc i) best_i best
    Best-kept i best_i best x b found real no_better = record {
      before = omega (arith, b.before);
      at = b.at;
      seen = λ j y h e. elim (dec_lt j i) [
        | yes p ↦ b.seen j y p e
        | no p ↦
            let here : j ≡ i = omega arith in
            let there : get_elem? xs i ≡ some y = rw (← here) e in
            let same : x ≡ y = cc in
            rw (← same) (real, no_better, λ q. absurd (omega (arith, b.before)))
      ];
    }

    Best-replaced :
        (i best_i : ℕ) (best x : F)
        → Best i best_i best
        → get_elem? xs i ≡ some x
        → is_nan x ≡ false
        → better x best ≡ true
        → Best (suc i) i x
    Best-replaced i best_i best x b found real wins = record {
      before = omega arith;
      at = found;
      seen = λ j y h e. elim (dec_lt j i) [
        | yes p ↦
            let (y_real, loses, first) = b.seen j y p e in
            let (best_real, equals, none_before) = b.seen best_i best b.before b.at in
            (
              y_real,
              elim (Bool-cases (better y x)) [
                | inl beats ↦
                    let bad : true ≡ false = sym (order.transitive y x best beats wins) ∙ loses in
                    cc
                | inr stays ↦ stays
              ],
              λ q. order.cotransitive x best y best_real y_real wins loses,
            )
        | no p ↦
            let here : j ≡ i = omega arith in
            let there : get_elem? xs i ≡ some y = rw (← here) e in
            let same : x ≡ y = cc in
            rw (← same) (real, order.irreflexive x, λ q. absurd (omega arith))
      ];
    }

    extreme_loop-IsExtreme :
        (rest : List F) (i best_i : ℕ) (best : F)
        → drop i xs ≡ rest
        → Best i best_i best
        → IsExtreme xs (extreme_loop is_nan better i best_i best rest)
    unfolding extreme_loop
    extreme_loop-IsExtreme [] i best_i best end b = first_best b.at (λ j y e.
        b.seen j y (omega (arith, lt-get_elem? xs j y e, length-drop i xs, ap length end)) e)
    extreme_loop-IsExtreme (x ∷ rest) i best_i best end b =
        let (found, next) = get_elem?-drop_head i xs end in
        elim (Bool-cases (is_nan x)) [
          | inl nan ↦ rw nan (first_nan found nan (λ j y p e. (b.seen j y p e).0))
          | inr real ↦ elim (Bool-cases (better x best)) [
            | inl wins ↦
                rw (real, wins)
                  (extreme_loop-IsExtreme rest (suc i) i x next
                    (Best-replaced i best_i best x b found real wins))
            | inr loses ↦
                rw (real, loses)
                  (extreme_loop-IsExtreme rest (suc i) best_i best next
                    (Best-kept i best_i best x b found real loses))
          ]
        ]

  alone :
      IsStrict
      → (x : F) (xs : List F) → is_nan x ≡ false
      → (j : ℕ) (y : F) → j < 1
      → get_elem? (x ∷ xs) j ≡ some y
      → (is_nan y ≡ false) × (better y x ≡ false) × (j < 0 → better x y ≡ true)
  alone order x xs real zero y p e =
      let same : x ≡ y = cc in rw (← same) (real, order.irreflexive x, λ q. absurd (omega arith))
  alone order x xs real (suc j) y p e = absurd (omega arith)

  -- With a strict order of the numbers, the search finds nothing in an empty buffer, and otherwise
  -- the first NaN if there is one; else the first of the elements that no other is better than.
  pub extreme_of-IsExtreme :
      IsStrict
      → (xs : List F)
      → ((xs ≡ []) × (extreme_of is_nan better xs ≡ none))
        ⊎ ((i : ℕ) × (extreme_of is_nan better xs ≡ some i) × IsExtreme xs i)
  unfolding extreme_of
  extreme_of-IsExtreme order [] = inl (refl, refl)
  extreme_of-IsExtreme order (x ∷ xs) = elim (Bool-cases (is_nan x)) [
    | inl nan ↦ inr (0, rw nan refl, first_nan refl nan (λ j y p e. absurd (omega arith)))
    | inr real ↦ inr (
      _,
      rw real refl,
      extreme_loop-IsExtreme order (x ∷ xs) xs 1 0 x refl
          (record { before = omega arith; at = refl; seen = alone order x xs real }),
    )
  ]
