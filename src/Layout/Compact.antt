-- ===== src/Layout/Compact.antt =====
-- `is_c_contiguous` of src/python.rs recognises the layouts of C order.
use native.Mathlib.Nat.{mod-eq_of_lt}
use lightarray.Prelude.{
  ℕ, zero, suc, ◌*◌, ◌^◌, ◌<◌, ◌≡◌, refl, ap, ◌∙◌, arith, List, [], ◌∷◌, length, product, ◌≢◌, ◌↔◌,
  Bool-cases, and_true, inl, inr, true, ◌||◌, ◌==◌, word,
}
use lightarray.Prelude.Int.{ℤ, pos, negsuc, ◌+ℤ◌, ◌*ℤ◌, int_laws}
use lightarray.Prelude.Int.Products.{*ℤ_parts, *ℤ_pos}
use lightarray.Dims.Strides.{Fits}
use lightarray.Array.Locate.Order.{flat, Inside}
use lightarray.Layout.{Layout, eq_ℤ, contiguous_loop, is_c_contiguous}
use lightarray.Layout.Address.{from_bits-small, address, address_of}

-- The byte strides of C order, but an axis of length 1 may have any.
abbrev pub AreCompact : ℕ → List ℕ → List ℤ → Type 0
AreCompact z [] [] = Unit {0}
AreCompact z (d ∷ s) (x ∷ strides) = (d ≢ 1 → x ≡ pos (z * product s)) × AreCompact z s strides
AreCompact z _ _ = ⊥

pub eq_ℤ-true : (x y : ℤ) → (eq_ℤ x y ≡ true) ↔ (x ≡ y)
eq_ℤ-true (pos m) (pos n) = (λ h. ground arith, λ h. ground arith)
eq_ℤ-true (pos m) (negsuc n) = (λ h. cc, λ h. cc)
eq_ℤ-true (negsuc m) (pos n) = (λ h. cc, λ h. cc)
eq_ℤ-true (negsuc m) (negsuc n) = (λ h. ground arith, λ h. ground arith)

axis_test : (d : ℕ) (x y : ℤ) → ((d == 1 || eq_ℤ x y) ≡ true) ↔ (d ≢ 1 → x ≡ y)
axis_test d x y =
    let iff = eq_ℤ-true x y in
    elim (Bool-cases (d == 1)) [
      | inl p ↦ (λ h n. absurd (n (ground arith)), λ h. ground arith)
      | inr p ↦
          (λ h n. iff.0 (ground arith), λ h. let same = iff.1 (h (ground arith)) in ground arith)
    ]

pub Fits-whole : (z : ℕ) (s : List ℕ) → Fits z s → z * product s < 2 ^ 63
Fits-whole z [] f = omega arith
Fits-whole z (d ∷ s) f = f.0

contiguous_loop-lem :
    (z : ℕ) (s : List ℕ) (strides : List ℤ)
    → Fits z s
    → length strides ≡ length s
    → ((contiguous_loop z s strides).1 ≡ z * product s)
      × (((contiguous_loop z s strides).0 ≡ true) ↔ AreCompact z s strides)
unfolding contiguous_loop
contiguous_loop-lem z [] [] f e = (omega arith, (λ h. tt, λ h. refl))
contiguous_loop-lem z [] (x ∷ strides) f e = absurd (omega arith)
contiguous_loop-lem z (d ∷ s) [] f e = absurd (omega arith)
contiguous_loop-lem z (d ∷ s) (x ∷ strides) f e =
    let (value, iff) = contiguous_loop-lem z s strides f.1 (omega arith) in
    let word_small : z * product s * d < word = omega (arith, f.0) in
    let exact = mod-eq_of_lt word_small in
    let small = from_bits-small (z * product s) (Fits-whole z s f.1) in
    let test = axis_test d x (pos (z * product s)) in
    let both = and_true (contiguous_loop z s strides).0 (d == 1 || eq_ℤ x (pos (z * product s))) in
    rw (value, small)
      (
        exact ∙ omega arith,
        (λ h. (test.0 (both.0 h).0, iff.0 (both.0 h).1), λ h. both.1 (test.1 h.0, iff.1 h.1)),
      )

-- An index times its stride. An axis of length 1 has the index 0 only.
compact_step : (d i n : ℕ) (x : ℤ) → (d ≢ 1 → x ≡ pos n) → i < d → pos i *ℤ x ≡ pos (i * n)
compact_step d zero n x c h = omega (int_laws, *ℤ_parts (pos 0) x)
compact_step d (suc i) n x c h =
    ap (λ z. pos (suc i) *ℤ z) (c (λ one. omega arith)) ∙ *ℤ_pos (suc i) n

-- The strides of C order give the place in C order.
pub AreCompact-address :
    (z : ℕ) (s : List ℕ) (strides : List ℤ) (is : List ℕ) (ptr : ℤ)
    → AreCompact z s strides
    → Inside s is
    → length is ≡ length s
    → address ptr strides is ≡ ptr +ℤ pos (z * flat s is)
AreCompact-address z [] [] [] ptr c h e = omega int_laws
AreCompact-address z [] [] (i ∷ is) ptr c h e = absurd h
AreCompact-address z [] (x ∷ strides) is ptr c h e = absurd c
AreCompact-address z (d ∷ s) [] is ptr c h e = absurd c
AreCompact-address z (d ∷ s) (x ∷ strides) [] ptr c h e = absurd (omega arith)
AreCompact-address z (d ∷ s) (x ∷ strides) (i ∷ is) ptr c h e =
    AreCompact-address z s strides is (ptr +ℤ pos i *ℤ x) c.1 h.1 (omega arith)
    ∙ ap (λ t. ptr +ℤ t +ℤ pos (z * flat s is)) (compact_step d i (z * product s) x c.0 h.0)
    ∙ omega int_laws

-- A layout that is recognised holds its elements one after the other in C order.
pub is_c_contiguous-address :
    (z : ℕ) (l : Layout)
    → Fits z l.shape
    → length l.strides ≡ length l.shape
    → is_c_contiguous l z ≡ true
    → (is : List ℕ) → Inside l.shape is
    → length is ≡ length l.shape
    → address_of l is ≡ l.ptr +ℤ pos (z * flat l.shape is)
unfolding is_c_contiguous
is_c_contiguous-address z l f e h is inside full =
    AreCompact-address z l.shape l.strides is l.ptr
      ((contiguous_loop-lem z l.shape l.strides f e).1.0 h) inside full
