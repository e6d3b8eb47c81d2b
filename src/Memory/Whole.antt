-- ===== src/Memory/Whole.antt =====
-- `walk_strided` of src/array.rs visits every element of a layout, in C order.
use lightarray.Prelude.{
  ℕ, zero, suc, ◌+◌, ◌*◌, ◌<◌, ◌≡◌, refl, sym, ap, ◌∙◌, arith, List, [], ◌∷◌, Bool-cases, inl, inr,
  ◌==◌, length, product, get_elem?, some, replicate, get_elem?-append_left, get_elem?-append_right,
  length-append, length-replicate, word, wrapping_product, wrapping_product-exact,
}
use lightarray.Prelude.Int.{ℤ, pos, ◌+ℤ◌, ◌*ℤ◌, int_laws}
use lightarray.Prelude.Int.Products.{*ℤ_parts}
use lightarray.Outcome.{ok}
use lightarray.Array.Locate.Order.{flat, Inside}
use lightarray.Array.Broadcast.Origin.{zeros-Inside, flat-zeros}
use lightarray.Layout.Address.{address}
use lightarray.Memory.{Visits, row_visits, rows_visits, odometer_visits, walk_strided}
use lightarray.Memory.Walk.{Visited, odometer_visits-Visited}

length-row_visits : (n k j : ℕ) (row s : ℤ) → length (row_visits n k j row s) ≡ n
unfolding row_visits
length-row_visits zero k j row s = refl
length-row_visits (suc n) k j row s = ap suc (length-row_visits n (k + 1) (j + 1) row s)

row_visits-reads :
    (n k j : ℕ) (row s : ℤ) (m : ℕ)
    → m < n
    → get_elem? (row_visits n k j row s) m ≡ some (k + m, row +ℤ pos (j + m) *ℤ s)
unfolding row_visits
row_visits-reads zero k j row s m h = absurd (omega arith)
row_visits-reads (suc n) k j row s zero h =
    let e : k + 0 ≡ k = omega arith in let f : j + 0 ≡ j = omega arith in rw (e, f) refl
row_visits-reads (suc n) k j row s (suc m) h =
    let e : k + suc m ≡ k + 1 + m = omega arith in
    let f : j + suc m ≡ j + 1 + m = omega arith in
    rw (e, f) (row_visits-reads n (k + 1) (j + 1) row s m (omega arith))

length-rows_visits : (n d k i : ℕ) (s t : ℤ) → length (rows_visits n d k i s t) ≡ n * d
unfolding rows_visits
length-rows_visits zero d k i s t = omega arith
length-rows_visits (suc n) d k i s t =
    length-append (row_visits d k 0 (pos i *ℤ s) t) _
    ∙ omega
        (arith, length-row_visits d k 0 (pos i *ℤ s) t, length-rows_visits n d (k + d) (i + 1) s t)

rows_visits-reads :
    (n d k i : ℕ) (s t : ℤ) (a b : ℕ)
    → a < n
    → b < d
    → get_elem? (rows_visits n d k i s t) (a * d + b)
      ≡ some (k + (a * d + b), pos (i + a) *ℤ s +ℤ pos b *ℤ t)
unfolding rows_visits
rows_visits-reads zero d k i s t a b h p = absurd (omega arith)
rows_visits-reads (suc n) d k i s t zero b h p =
    let e : 0 * d + b ≡ b = omega arith in
    let f : i + 0 ≡ i = omega arith in
    rw (e, f)
      (get_elem?-append_left (row_visits d k 0 (pos i *ℤ s) t) _ b
          (omega (arith, length-row_visits d k 0 (pos i *ℤ s) t))
        ∙ row_visits-reads d k 0 (pos i *ℤ s) t b p
        ∙ ap (λ m. some (k + b, pos i *ℤ s +ℤ pos m *ℤ t)) (omega arith))
rows_visits-reads (suc n) d k i s t (suc a) b h p =
    let row = row_visits d k 0 (pos i *ℤ s) t in
    let e : suc a * d + b ≡ length row + (a * d + b) =
      omega (arith, length-row_visits d k 0 (pos i *ℤ s) t) in
    let f : i + suc a ≡ i + 1 + a = omega arith in
    let g : k + d + (a * d + b) ≡ k + (suc a * d + b) = omega arith in
    ap (get_elem? _) e
    ∙ get_elem?-append_right row (rows_visits n d (k + d) (i + 1) s t) (a * d + b)
    ∙ rows_visits-reads n d (k + d) (i + 1) s t a b (omega arith) p
    ∙ rw (f, g) refl

flat_end : (is : List ℕ) → flat [] is ≡ 0
flat_end [] = refl
flat_end (i ∷ is) = refl

from_zero : (a b : ℤ) → a +ℤ b ≡ pos 0 +ℤ a +ℤ b
from_zero a b = omega int_laws

address-zeros : (ptr : ℤ) (n : ℕ) (strides : List ℤ) → address ptr strides (replicate n 0) ≡ ptr
address-zeros ptr zero [] = refl
address-zeros ptr zero (s ∷ strides) = refl
address-zeros ptr (suc n) [] = refl
address-zeros ptr (suc n) (s ∷ strides) =
    ap (λ z. address z strides (replicate n 0)) (omega (int_laws, *ℤ_parts (pos 0) s))
    ∙ address-zeros ptr n strides

line-Visited :
    (d : ℕ) (s : ℤ) → Visited (d ∷ []) (s ∷ []) (product (d ∷ [])) 0 (row_visits d 0 0 (pos 0) s)
line-Visited d s = record { count = length-row_visits d 0 0 (pos 0) s ∙ omega arith; reads = each }
  where
    each :
        (is : List ℕ) (j : ℕ)
        → Inside (d ∷ []) is
        → length is ≡ 1
        → j < product (d ∷ [])
        → flat (d ∷ []) is ≡ 0 + j
        → get_elem? (row_visits d 0 0 (pos 0) s) j ≡ some (0 + j, address (pos 0) (s ∷ []) is)
    each [] j h p q e = absurd (omega arith)
    each (i ∷ is) j h p q e =
        let same : j ≡ i = omega (arith, flat_end is) in
        row_visits-reads d 0 0 (pos 0) s j (omega arith)
        ∙ ap (λ t. some (0 + j, pos 0 +ℤ pos t *ℤ s)) (omega arith)

table-Visited :
    (d c : ℕ) (s t : ℤ)
    → Visited (d ∷ c ∷ []) (s ∷ t ∷ []) (product (d ∷ c ∷ [])) 0 (rows_visits d c 0 0 s t)
table-Visited d c s t = record {
  count = length-rows_visits d c 0 0 s t ∙ omega arith;
  reads = each;
}
  where
    each :
        (is : List ℕ) (j : ℕ)
        → Inside (d ∷ c ∷ []) is
        → length is ≡ 2
        → j < product (d ∷ c ∷ [])
        → flat (d ∷ c ∷ []) is ≡ 0 + j
        → get_elem? (rows_visits d c 0 0 s t) j ≡ some (0 + j, address (pos 0) (s ∷ t ∷ []) is)
    each [] j h p q e = absurd (omega arith)
    each (a ∷ []) j h p q e = absurd (omega arith)
    each (a ∷ b ∷ is) j h p q e =
        let same : j ≡ a * c + b = omega (arith, flat_end is) in
        rw same (
          rows_visits-reads d c 0 0 s t a b h.0 h.1.0
          ∙ ap (λ z. some (0 + (a * c + b), z))
              (ap (λ n. pos n *ℤ s +ℤ pos b *ℤ t) (omega arith)
                ∙ from_zero (pos a *ℤ s) (pos b *ℤ t)))

-- On strides for each axis of a shape of less than 2^64 elements, every position is visited once,
-- in C order, with its number and its offset.
pub walk_strided-Visited :
    (shape : List ℕ) (strides : List ℤ)
    → length strides ≡ length shape
    → product shape < word
    → (visits : Visits) × (walk_strided shape strides ≡ ok visits)
      × Visited shape strides (product shape) 0 visits
unfolding walk_strided
walk_strided-Visited [] [] e h = (
  (0, pos 0) ∷ [],
  refl,
  record { count = refl; reads = λ is j p q r f. let one : j ≡ 0 = omega arith in rw one refl },
)
walk_strided-Visited [] (s ∷ strides) e h = absurd (omega arith)
walk_strided-Visited (d ∷ []) [] e h = absurd (omega arith)
walk_strided-Visited (d ∷ []) (s ∷ t ∷ strides) e h = absurd (omega arith)
walk_strided-Visited (d ∷ c ∷ []) [] e h = absurd (omega arith)
walk_strided-Visited (d ∷ c ∷ []) (s ∷ []) e h = absurd (omega arith)
walk_strided-Visited (d ∷ c ∷ []) (s ∷ t ∷ u ∷ strides) e h = absurd (omega arith)
walk_strided-Visited (d ∷ []) (s ∷ []) e h = (row_visits d 0 0 (pos 0) s, refl, line-Visited d s)
walk_strided-Visited (d ∷ c ∷ []) (s ∷ t ∷ []) e h =
    (rows_visits d c 0 0 s t, refl, table-Visited d c s t)
walk_strided-Visited (d ∷ c ∷ b ∷ shape) strides e h =
    let whole = d ∷ c ∷ b ∷ shape in
    elim (Bool-cases (product whole == 0)) [
      | inl none_left ↦ (
        [],
        rw (exact, none_left) refl,
        record { count = ground arith; reads = λ is j p q r f. absurd (ground arith) },
      )
      | inr more ↦ (
        odometer_visits whole strides (product whole) 0 (replicate (length whole) 0) (pos 0),
        rw (exact, more) refl,
        odometer_visits-Visited whole strides (product whole) 0 _ (pos 0) e
            (λ p. (
              zeros-Inside whole p,
              length-replicate (length whole) 0,
              sym (address-zeros (pos 0) (length whole) strides),
              flat-zeros whole (length whole),
            ))
            (omega arith),
      )
    ]
  where
    exact : wrapping_product (d ∷ c ∷ b ∷ shape) ≡ product (d ∷ c ∷ b ∷ shape)
    exact = wrapping_product-exact (d ∷ c ∷ b ∷ shape) h
