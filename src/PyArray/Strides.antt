-- ===== src/PyArray/Strides.antt =====
-- The element of a strided view that integers name, in src/python.rs.
use lightarray.Prelude.{
  ℕ, suc, ◌<◌, ◌≤◌, ◌≡◌, ◌≢◌, inl, inr, ◌↔◌, refl, ◌∙◌, arith, List, [], ◌∷◌, true, false, ◌||◌,
  some, none, Option-cases, length, max, leb, ◌==◌, if◌then◌else◌,
}
use lightarray.Prelude.Int.{ℤ, pos, negsuc, ◌+ℤ◌, ◌*ℤ◌, pos_part}
use lightarray.Outcome.{Result, ok, err, panic, ◌>>=◌}
use lightarray.Array.{shape}
use lightarray.Array.Locate.{is_negative}
use lightarray.Array.Locate.Order.{from_either_end, resolve}
use lightarray.Layout.Address.{address}
use lightarray.PyArray.{Strided, PyArray, element_loop, strided_element, overlaps}

outside :
    (len : ℕ) (i : ℤ)
    → from_either_end len i ≡ none
    → (let k = if is_negative i then i +ℤ pos len else i in
        (is_negative k || leb len (pos_part k)) ≡ true)
unfolding ◌+ℤ◌
outside len (pos n) h = ground arith
outside len (negsuc n) h = ground arith

inside :
    (len : ℕ) (i : ℤ) (n : ℕ)
    → from_either_end len i ≡ some n
    → (let k = if is_negative i then i +ℤ pos len else i in
        ((is_negative k || leb len (pos_part k)) ≡ false) × (k ≡ pos n))
unfolding ◌+ℤ◌
inside len (pos m) n h = (ground arith, ground arith)
inside len (negsuc m) n h = (ground arith, ground arith)

-- The loop, on an index for each axis, gives the address of the position that the indices name.
element_loop-resolve :
    (axis : ℕ) (s : List ℕ) (strides : List ℤ) (idx : List ℤ) (ptr : ℤ)
    → length strides ≡ length s
    → length idx ≡ length s
    → element_loop axis ptr s strides idx
      ≡ (resolve axis s idx >>= λ is. ok (address ptr strides is))
unfolding element_loop
element_loop-resolve axis [] [] [] ptr e f = refl
element_loop-resolve axis [] (t ∷ strides) idx ptr e f = absurd (omega arith)
element_loop-resolve axis [] [] (i ∷ idx) ptr e f = absurd (omega arith)
element_loop-resolve axis (d ∷ s) [] idx ptr e f = absurd (omega arith)
element_loop-resolve axis (d ∷ s) (t ∷ strides) [] ptr e f = absurd (omega arith)
element_loop-resolve axis (d ∷ s) (t ∷ strides) (i ∷ idx) ptr e f =
    elim (Option-cases (from_either_end d i)) [
      | inl out ↦ rw (out, outside d i out) refl
      | inr (n, found) ↦
          let (within, here) = inside d i n found in
          rw (found, within, here)
            (element_loop-resolve (suc axis) s strides idx (ptr +ℤ pos n *ℤ t) (omega arith)
                (omega arith)
              ∙ shift_result n (resolve (suc axis) s idx))
    ]
  where
    shift_result :
        (n : ℕ) (r : Result (List ℕ))
        → (r >>= λ is. ok (address (ptr +ℤ pos n *ℤ t) strides is))
          ≡ (r >>= (λ rest. ok (n ∷ rest)) >>= λ is. ok (address ptr (t ∷ strides) is))
    shift_result n (ok is) = refl
    shift_result n (err why) = refl
    shift_result n panic = refl

-- In a strided view, an index for each axis names the address of the position that the indices
-- resolve to, or is refused with the first index outside; fewer or more indices name no element.
pub strided_element-resolve :
    {A : Type 0} (a : PyArray A) (s : Strided) (idx : List ℤ)
    → a.strided ≡ some s
    → length s.strides ≡ length (shape a.inner)
    → (length idx ≡ length (shape a.inner)
        → strided_element a idx
          ≡ (resolve 0 (shape a.inner) idx >>= λ is. ok (some (address s.ptr s.strides is))))
      × (length idx ≢ length (shape a.inner) → strided_element a idx ≡ ok none)
unfolding strided_element
strided_element-resolve a s idx e f = simp (e) (
  λ full.
      let same : (length idx == length (shape a.inner)) ≡ true = ground arith in
      rw (same, element_loop-resolve 0 (shape a.inner) s.strides idx s.ptr f full)
        (wrap (resolve 0 (shape a.inner) idx)),
  λ part.
      let differ : (length idx == length (shape a.inner)) ≡ false = ground arith in rw differ refl,
)
  where
    wrap :
        (r : Result (List ℕ))
        → (r >>= (λ is. ok (address s.ptr s.strides is)) >>= λ p. ok (some p))
          ≡ (r >>= λ is. ok (some (address s.ptr s.strides is)))
    wrap (ok is) = refl
    wrap (err why) = refl
    wrap panic = refl

-- Two ranges of addresses that are not empty overlap just when they share one.
overlaps_iff_share :
    (a b : ℕ × ℕ)
    → a.0 < a.1
    → b.0 < b.1
    → (overlaps a b ≡ true) ↔ ((n : ℕ) × (a.0 ≤ n) × (n < a.1) × (b.0 ≤ n) × (n < b.1))
unfolding overlaps
overlaps_iff_share (a, z) (b, y) h k = (
  λ o.
      let lt : a < y = ground arith in
      let gt : b < z = ground arith in
      (max a b, omega arith, omega arith, omega arith, omega arith),
  λ (n, p, q, r, t). ground arith,
)
