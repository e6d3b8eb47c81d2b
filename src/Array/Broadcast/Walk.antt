-- ===== src/Array/Broadcast/Walk.antt =====
-- The odometer of `zip_map_broadcast` in src/array.rs visits the positions in C order, with the
-- offset of each.
use lightarray.Prelude.{
  ℕ, zero, suc, ◌+◌, ◌*◌, ◌<◌, ◌≡◌, refl, ap, arith, List, [], ◌∷◌, Bool, true, false, ltb, length,
  product, get_elem?-lt, Bool-cases, inl, inr, lt→ltb, some, get_elem?,
}
use native.Mathlib.Decide.{dec_lt}
use lightarray.Outcome.{ok}
use lightarray.Array.Locate.Order.{flat, Inside, flat_inj}
use lightarray.Array.Broadcast.{Odometer, turn, advance, odometer_loop}

-- The offset of a position: each index times its stride.
abbrev pub dot : List ℕ → List ℕ → ℕ
dot (i ∷ is) (s ∷ ss) = i * s + dot is ss
dot _ _ = 0

-- The odometer `o` after a step from the position of number `k`, where the offsets start at `a0`
-- and `b0`: at the next position, or at the first after the last.
pub record Steps (out sa sb : List ℕ) (k a0 b0 : ℕ) (o : Odometer) : Type 0 where
  pub inside : Inside out o.idx
  pub full : length o.idx ≡ length out
  pub at_a : o.ao ≡ a0 + dot o.idx sa
  pub at_b : o.bo ≡ b0 + dot o.idx sb
  pub next : o.carry ≡ false → flat out o.idx ≡ suc k
  pub last :
      o.carry ≡ true
      → (flat out o.idx ≡ 0) × (dot o.idx sa ≡ 0) × (dot o.idx sb ≡ 0) × (suc k ≡ product out)

turn-Steps :
    {out sa sb : List ℕ} {k a0 b0 : ℕ} (d x y i : ℕ) (idx : List ℕ) (ao bo : ℕ) (carry : Bool)
    → Steps out sa sb k
        (a0 + i * x)
        (b0 + i * y)
        (record { idx = idx; ao = ao; bo = bo; carry = carry })
    → i < d
    → Steps
        (d ∷ out)
        (x ∷ sa)
        (y ∷ sb)
        (i * product out + k)
        a0
        b0
        (turn d x y i (record { idx = idx; ao = ao; bo = bo; carry = carry }))
turn-Steps d x y i idx ao bo false st h = record {
  inside = (h, st.inside);
  full = ap suc st.full;
  at_a = omega (arith, st.at_a);
  at_b = omega (arith, st.at_b);
  next = λ c. omega (arith, st.next refl);
  last = λ c. cc;
}
turn-Steps {out} {sa} {sb} {k} {a0} {b0} d x y i idx ao bo true st h =
    let (zero_flat, zero_a, zero_b, end) = st.last refl in
    elim (dec_lt (i + 1) d) [
      | yes more ↦ rw (lt→ltb _ _ more) (record {
        inside = (more, st.inside);
        full = ap suc st.full;
        at_a = omega (arith, st.at_a, zero_a);
        at_b = omega (arith, st.at_b, zero_b);
        next = λ c. omega (arith, zero_flat, end);
        last = λ c. cc;
      })
      | no stop ↦ rw (not_more stop) (record {
        inside = (omega arith, st.inside);
        full = ap suc st.full;
        at_a = omega (arith, st.at_a, zero_a);
        at_b = omega (arith, st.at_b, zero_b);
        next = λ c. cc;
        last = λ c. (
          omega (arith, zero_flat),
          omega (arith, zero_a),
          omega (arith, zero_b),
          let one_more : suc i ≡ d = omega arith in
              omega (arith, end, ap (λ t. t * product out) one_more),
        );
      })
    ]
  where
    not_more : ¬ (i + 1 < d) → ltb (i + 1) d ≡ false
    not_more q = ground arith

pub advance-Steps :
    (out sa sb idx : List ℕ) (a0 b0 : ℕ)
    → Inside out idx
    → length idx ≡ length out
    → length sa ≡ length out
    → length sb ≡ length out
    → Steps out sa sb
        (flat out idx)
        a0
        b0
        (advance out sa sb idx (a0 + dot idx sa) (b0 + dot idx sb))
unfolding advance
advance-Steps [] [] [] [] a0 b0 h p q r = record {
  inside = tt;
  full = refl;
  at_a = omega arith;
  at_b = omega arith;
  next = λ c. cc;
  last = λ c. (refl, refl, refl, refl);
}
advance-Steps (d ∷ out) (x ∷ sa) (y ∷ sb) (i ∷ idx) a0 b0 h p q r =
    let e1 : a0 + (i * x + dot idx sa) ≡ a0 + i * x + dot idx sa = omega arith in
    let e2 : b0 + (i * y + dot idx sb) ≡ b0 + i * y + dot idx sb = omega arith in
    rw (e1, e2)
      (turn-Steps d x y i _ _ _ _
        (advance-Steps out sa sb idx (a0 + i * x) (b0 + i * y) h.1 (omega arith) (omega arith)
          (omega arith))
        h.0)
advance-Steps [] sa sb (i ∷ idx) a0 b0 h p q r = absurd h
advance-Steps [] (x ∷ sa) sb [] a0 b0 h p q r = absurd (omega arith)
advance-Steps [] [] (y ∷ sb) [] a0 b0 h p q r = absurd (omega arith)
advance-Steps (d ∷ out) sa sb [] a0 b0 h p q r = absurd (omega arith)
advance-Steps (d ∷ out) [] sb (i ∷ idx) a0 b0 h p q r = absurd (omega arith)
advance-Steps (d ∷ out) (x ∷ sa) [] (i ∷ idx) a0 b0 h p q r = absurd (omega arith)

-- The element `j` of `r` is that of the two offsets of the position.
abbrev pub Pairs {ℓ} : {A : Type ℓ} → (A → A → A) → List A → List A → ℕ → ℕ → List A → ℕ → Type ℓ
Pairs {A = A} f a b m n r j =
    (x y : A) × (get_elem? a m ≡ some x) × (get_elem? b n ≡ some y) × (get_elem? r j ≡ some (f x y))

module _ {ℓ} {A : Type ℓ} (f : A → A → A) (a b : List A) (out sa sb : List ℕ)
    (full_a : length sa ≡ length out) (full_b : length sb ≡ length out)
    (bounds : (is : List ℕ)
      → Inside out is
      → length is ≡ length out
      → (dot is sa < length a) × (dot is sb < length b)) where
  -- The offsets are those of a position with `n` positions left.
  pub record At (n : ℕ) (idx : List ℕ) (ao bo : ℕ) : Type 0 where
    pub inside : Inside out idx
    pub full : length idx ≡ length out
    pub at_a : ao ≡ dot idx sa
    pub at_b : bo ≡ dot idx sb
    pub left : flat out idx + n ≡ product out

  At-advance :
      (n : ℕ) (idx : List ℕ) (ao bo : ℕ)
      → At (suc n) idx ao bo
      → 0 < n
      → let o = advance out sa sb idx ao bo in
        At n o.idx o.ao o.bo × (flat out o.idx ≡ suc (flat out idx))
  At-advance n idx ao bo at more =
      let a_now : ao ≡ 0 + dot idx sa = omega (arith, at.at_a) in
      let b_now : bo ≡ 0 + dot idx sb = omega (arith, at.at_b) in
      rw (a_now, b_now)
        (let st = advance-Steps out sa sb idx 0 0 at.inside at.full full_a full_b in
          elim (Bool-cases (advance out sa sb idx (0 + dot idx sa) (0 + dot idx sb)).carry) [
            | inl over ↦
                let (zf, za, zb, end) = st.last over in absurd (omega (arith, at.left, end))
            | inr still ↦ (
              record {
                inside = st.inside;
                full = st.full;
                at_a = omega (arith, st.at_a);
                at_b = omega (arith, st.at_b);
                left = omega (arith, st.next still, at.left);
              },
              st.next still,
            )
          ])

  pub odometer_loop-Pairs :
      (n : ℕ) (idx : List ℕ) (ao bo : ℕ)
      → (0 < n → At n idx ao bo)
      → (r : List A) × (odometer_loop f a b out sa sb n idx ao bo ≡ ok r)
        × (length r ≡ n)
        × ((is : List ℕ) (j : ℕ)
            → Inside out is
            → length is ≡ length out
            → j < n
            → flat out is ≡ flat out idx + j
            → Pairs f a b (dot is sa) (dot is sb) r j)
  unfolding odometer_loop
  odometer_loop-Pairs zero idx ao bo at = ([], refl, refl, λ is j h p q e. absurd (omega arith))
  odometer_loop-Pairs (suc n) idx ao bo later =
      let at = later (omega arith) in
      let (in_a, in_b) = bounds idx at.inside at.full in
      let (x, x_at) = get_elem?-lt a _ in_a in
      let (y, y_at) = get_elem?-lt b _ in_b in
      let x_now : get_elem? a ao ≡ some x = rw at.at_a x_at in
      let y_now : get_elem? b bo ≡ some y = rw at.at_b y_at in
      let o = advance out sa sb idx ao bo in
      let (rest, run, count, reads) =
        odometer_loop-Pairs n o.idx o.ao o.bo (λ more. (At-advance n idx ao bo at more).0) in
      (f x y ∷ rest, rw (x_now, y_now, run) refl, ap suc count, each x y rest x_at y_at reads at)
    where
      each :
          (x y : A) (rest : List A)
          → get_elem? a (dot idx sa) ≡ some x
          → get_elem? b (dot idx sb) ≡ some y
          → (let o = advance out sa sb idx ao bo in
              (is : List ℕ) (j : ℕ)
              → Inside out is
              → length is ≡ length out
              → j < n
              → flat out is ≡ flat out o.idx + j
              → Pairs f a b (dot is sa) (dot is sb) rest j)
          → At (suc n) idx ao bo
          → (is : List ℕ) (j : ℕ) → Inside out is
          → length is ≡ length out
          → j < suc n
          → flat out is ≡ flat out idx + j
          → Pairs f a b (dot is sa) (dot is sb) (f x y ∷ rest) j
      each x y rest x_at y_at reads at is zero h p q e =
          let same = flat_inj out is idx h at.inside p at.full (omega arith) in
          rw same (x, y, x_at, y_at, refl)
      each x y rest x_at y_at reads at is (suc j) h p q e =
          let (now, next) = At-advance n idx ao bo at (omega arith) in
          reads is j h p (omega arith) (omega (arith, next))
