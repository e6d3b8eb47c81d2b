-- ===== src/Memory/Walk.antt =====
-- The visits of `walk_strided` in src/array.rs.
use native.Mathlib.Decide.{dec_lt}
use lightarray.Prelude.{
  ℕ, zero, suc, ◌+◌, ◌*◌, ◌<◌, ◌≡◌, refl, sym, ap, ◌∙◌, arith, List, [], ◌∷◌, Bool, true, false,
  Bool-cases, inl, inr, ltb, lt→ltb, length, product, get_elem?, some,
}
use lightarray.Prelude.Int.{ℤ, pos, pos_part, neg_part, ◌+ℤ◌, ◌-ℤ◌, ◌*ℤ◌, int_laws}
use lightarray.Prelude.Int.Products.{*ℤ_parts}
use lightarray.Array.Locate.Order.{flat, Inside, flat_inj}
use lightarray.Layout.Address.{address}
use lightarray.Memory.{Visits, Odometer, turn_axis, next_place, odometer_visits}

-- The odometer `o` after a step from the position of number `k`, where the offsets start at `at`:
-- at the next position, or at the first after the last.
record Steps (shape : List ℕ) (strides : List ℤ) (k : ℕ) (at : ℤ) (o : Odometer) : Type 0 where
  pub inside : Inside shape o.idx
  pub full : length o.idx ≡ length shape
  pub place : o.offset ≡ address at strides o.idx
  pub next : o.carry ≡ false → flat shape o.idx ≡ suc k
  pub last :
      o.carry ≡ true
      → (flat shape o.idx ≡ 0) × ((z : ℤ) → address z strides o.idx ≡ z) × (suc k ≡ product shape)

first : (s z : ℤ) → z +ℤ pos 0 *ℤ s ≡ z
first s z = omega (int_laws, *ℤ_parts (pos 0) s)

turn_axis-Steps :
    {shape : List ℕ} {strides : List ℤ} {k : ℕ} (d i : ℕ) (s at : ℤ) (idx : List ℕ) (offset : ℤ)
    (carry : Bool)
    → Steps shape strides k
        (at +ℤ pos i *ℤ s)
        (record { idx = idx; offset = offset; carry = carry })
    → i < d
    → Steps
        (d ∷ shape)
        (s ∷ strides)
        (i * product shape + k)
        at
        (turn_axis d s i (record { idx = idx; offset = offset; carry = carry }))
turn_axis-Steps d i s at idx offset false st h = record {
  inside = (h, st.inside);
  full = ap suc st.full;
  place = st.place;
  next = λ c. omega (arith, st.next refl);
  last = λ c. cc;
}
turn_axis-Steps {shape} {strides} {k} d i s at idx offset true st h =
    let (zero_flat, still, end) = st.last refl in
    let here : offset ≡ at +ℤ pos i *ℤ s = st.place ∙ still (at +ℤ pos i *ℤ s) in
    elim (dec_lt (i + 1) d) [
      | yes more ↦ rw (lt→ltb _ _ more) (record {
        inside = (more, st.inside);
        full = ap suc st.full;
        place =
            ap (λ z. z +ℤ s) here
            ∙ omega (int_laws, *ℤ_parts (pos i) s, *ℤ_parts (pos (i + 1)) s)
            ∙ sym (still (at +ℤ pos (i + 1) *ℤ s));
        next = λ c. omega (arith, zero_flat, end);
        last = λ c. cc;
      })
      | no stop ↦
          let one_more : suc i ≡ d = omega arith in
          let home = first s in
          let back : at +ℤ pos i *ℤ s +ℤ s -ℤ s *ℤ pos d ≡ at = omega (
            int_laws,
            *ℤ_parts (pos i) s,
            *ℤ_parts s (pos d),
            one_more,
            ap (λ t. t * pos_part s) one_more,
            ap (λ t. t * neg_part s) one_more,
          ) in
          rw (not_more stop) (record {
            inside = (omega arith, st.inside);
            full = ap suc st.full;
            place = ap (λ z. z +ℤ s -ℤ s *ℤ pos d) here ∙ back ∙ sym (still _ ∙ home at);
            next = λ c. cc;
            last = λ c. (
              omega (arith, zero_flat),
              λ z. still _ ∙ home z,
              omega (arith, end, ap (λ t. t * product shape) one_more),
            );
          })
    ]
  where
    not_more : ¬ (i + 1 < d) → ltb (i + 1) d ≡ false
    not_more q = ground arith

next_place-Steps :
    (shape : List ℕ) (strides : List ℤ) (idx : List ℕ) (at : ℤ)
    → Inside shape idx
    → length idx ≡ length shape
    → length strides ≡ length shape
    → Steps shape strides
        (flat shape idx)
        at
        (next_place shape strides idx (address at strides idx))
unfolding next_place
next_place-Steps [] [] [] at h p q = record {
  inside = tt;
  full = refl;
  place = refl;
  next = λ c. cc;
  last = λ c. (refl, λ z. refl, refl);
}
next_place-Steps (d ∷ shape) (s ∷ strides) (i ∷ idx) at h p q =
    let st =
      next_place-Steps shape strides idx (at +ℤ pos i *ℤ s) h.1 (omega arith) (omega arith) in
    turn_axis-Steps d i s at _ _ _ st h.0
next_place-Steps [] strides (i ∷ idx) at h p q = absurd h
next_place-Steps [] (s ∷ strides) [] at h p q = absurd (omega arith)
next_place-Steps (d ∷ shape) strides [] at h p q = absurd (omega arith)
next_place-Steps (d ∷ shape) [] (i ∷ idx) at h p q = absurd (omega arith)

-- The visits from the position of number `k` on: `n` of them, each with the next number and the
-- offset of its position.
pub record Visited (shape : List ℕ) (strides : List ℤ) (n k : ℕ) (visits : Visits) : Type 0 where
  pub count : length visits ≡ n
  pub reads :
      (is : List ℕ) (j : ℕ)
      → Inside shape is
      → length is ≡ length shape
      → j < n
      → flat shape is ≡ k + j
      → get_elem? visits j ≡ some (k + j, address (pos 0) strides is)

first_visit :
    (shape : List ℕ) (strides : List ℤ) (n k : ℕ) (idx : List ℕ) (visits : Visits)
    → Inside shape idx
    → length idx ≡ length shape
    → flat shape idx ≡ k
    → Visited shape strides n (k + 1) visits
    → Visited shape strides (suc n) k ((k, address (pos 0) strides idx) ∷ visits)
first_visit shape strides n k idx visits inside full num v = record {
  count = ap suc v.count;
  reads = each;
}
  where
    each :
        (is : List ℕ) (j : ℕ)
        → Inside shape is
        → length is ≡ length shape
        → j < suc n
        → flat shape is ≡ k + j
        → get_elem? ((k, address (pos 0) strides idx) ∷ visits) j
          ≡ some (k + j, address (pos 0) strides is)
    each is zero h p q r =
        let same = flat_inj shape is idx h inside p full (omega arith) in
        rw same (ap (λ t. some (t, address (pos 0) strides idx)) (omega arith))
    each is (suc j) h p q r =
        v.reads is j h p (omega arith) (omega arith)
        ∙ ap (λ t. some (t, address (pos 0) strides is)) (omega arith)

pub odometer_visits-Visited :
    (shape : List ℕ) (strides : List ℤ) (n k : ℕ) (idx : List ℕ) (offset : ℤ)
    → length strides ≡ length shape
    → (0 < n
        → Inside shape idx
          × (length idx ≡ length shape)
          × (offset ≡ address (pos 0) strides idx)
          × (flat shape idx ≡ k))
    → k + n ≡ product shape
    → Visited shape strides n k (odometer_visits shape strides n k idx offset)
unfolding odometer_visits
odometer_visits-Visited shape strides zero k idx offset e at end = record {
  count = refl;
  reads = λ is j h p q r. absurd (omega arith);
}
odometer_visits-Visited shape strides (suc n) k idx offset e later end =
    let (inside, full, here, num) = later (omega arith) in
    let st = next_place-Steps shape strides idx (pos 0) inside full e in
    let o = next_place shape strides idx (address (pos 0) strides idx) in
    rw here (
      first_visit shape strides n k idx _ inside full num (
        odometer_visits-Visited shape strides n (k + 1) o.idx o.offset e
          (λ more. (
            st.inside,
            st.full,
            st.place,
            elim (Bool-cases o.carry) [
              | inl over ↦ absurd (omega (arith, (st.last over).2))
              | inr still ↦ omega (arith, st.next still)
            ],
          ))
          (omega arith)))
