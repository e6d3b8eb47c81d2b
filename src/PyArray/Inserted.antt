-- ===== src/PyArray/Inserted.antt =====
-- Axes that `None` inserts, in `select_result` of src/python.rs: the positions with them and without.
use lightarray.Prelude.{
  ℕ, zero, suc, ◌+◌, ◌*◌, ◌<◌, ◌≤◌, ◌≡◌, refl, sym, ap, ◌∙◌, arith, List, [], ◌∷◌, length, min,
  product, ◌==◌, false,
}
use lightarray.Prelude.Int.{ℤ, pos}
use lightarray.Outcome.{ok}
use lightarray.Dims.{max_ndim}
use lightarray.Dims.Strides.{Fits}
use lightarray.Array.Locate.Order.{flat, Inside}
use lightarray.Layout.{Layout, insert_at, insert_axis}
use lightarray.Layout.Address.{address, Selects}
use lightarray.Layout.Compact.{Fits-whole}
use lightarray.Layout.Axes.{address-insert_at}
use lightarray.PyArray.{with_axes, insert_axes}

-- A position without its index at place `n`.
abbrev pub remove_at : ℕ → List ℕ → List ℕ
remove_at n [] = []
remove_at zero (k ∷ ks) = ks
remove_at (suc n) (k ∷ ks) = k ∷ remove_at n ks

-- A position without its indices on the inserted axes.
abbrev pub remove_axes : List ℕ → List ℕ → List ℕ → List ℕ
remove_axes s [] ks = ks
remove_axes s (at ∷ places) ks =
    let n = min at (length s) in remove_at n (remove_axes (insert_at s n 1) places ks)

length-insert_at {ℓ} :
    {A : Type ℓ} (s : List A) (n : ℕ) (x : A) → length (insert_at s n x) ≡ suc (length s)
length-insert_at s zero x = refl
length-insert_at [] (suc n) x = refl
length-insert_at (d ∷ s) (suc n) x = ap suc (length-insert_at s n x)

product-insert_at : (s : List ℕ) (n : ℕ) → product (insert_at s n 1) ≡ product s
product-insert_at s zero = omega arith
product-insert_at [] (suc n) = omega arith
product-insert_at (d ∷ s) (suc n) = ap (λ p. d * p) (product-insert_at s n)

Fits-insert_at : (z : ℕ) (s : List ℕ) (n : ℕ) → Fits z s → Fits z (insert_at s n 1)
Fits-insert_at z s zero f =
    (omega (arith, Fits-whole z s f, ap (λ p. z * p) (product-insert_at s 0)), f)
Fits-insert_at z [] (suc n) f = (omega (arith, Fits-whole z [] f), f)
Fits-insert_at z (d ∷ s) (suc n) f = (
  omega (arith, f.0, ap (λ p. z * p) (product-insert_at (d ∷ s) (suc n))),
  Fits-insert_at z s n f.1,
)

-- The position without the index, and its place in C order.
removed :
    (s : List ℕ) (n : ℕ) (ks : List ℕ)
    → n ≤ length s
    → Inside (insert_at s n 1) ks
    → length ks ≡ suc (length s)
    → Inside s (remove_at n ks)
      × (length (remove_at n ks) ≡ length s)
      × (ks ≡ insert_at (remove_at n ks) n 0)
      × (flat s (remove_at n ks) ≡ flat (insert_at s n 1) ks)
removed s n [] le h f = absurd (omega arith)
removed s zero (k ∷ ks) le h f =
    let first : k ≡ 0 = omega (arith, h.0) in
    (h.1, omega arith, ap (λ t. t ∷ ks) first, rw first (omega arith))
removed [] (suc n) (k ∷ ks) le h f = absurd (omega arith)
removed (d ∷ s) (suc n) (k ∷ ks) le h f =
    let (inside, full, same, place) = removed s n ks (omega arith) h.1 (omega arith) in
    (
      (h.0, inside),
      ap suc full,
      ap (λ t. k ∷ t) same,
      omega (arith, place, ap (λ p. k * p) (product-insert_at s n)),
    )

-- The same for all inserted axes.
pub product-with_axes : (s places : List ℕ) → product (with_axes s places) ≡ product s
product-with_axes s [] = refl
product-with_axes s (at ∷ places) =
    let n = min at (length s) in product-with_axes (insert_at s n 1) places ∙ product-insert_at s n

pub length-with_axes : (s places : List ℕ) → length (with_axes s places) ≡ length s + length places
length-with_axes s [] = omega arith
length-with_axes s (at ∷ places) =
    let n = min at (length s) in
    omega (arith, length-with_axes (insert_at s n 1) places, length-insert_at s n 1)

pub Fits-with_axes : (z : ℕ) (s places : List ℕ) → Fits z s → Fits z (with_axes s places)
Fits-with_axes z s [] f = f
Fits-with_axes z s (at ∷ places) f =
    let n = min at (length s) in Fits-with_axes z (insert_at s n 1) places (Fits-insert_at z s n f)

-- The position without its inserted indices has the same place in C order.
pub remove_axes-Inside :
    (s places ks : List ℕ)
    → Inside (with_axes s places) ks
    → length ks ≡ length (with_axes s places)
    → Inside s (remove_axes s places ks)
      × (length (remove_axes s places ks) ≡ length s)
      × (flat s (remove_axes s places ks) ≡ flat (with_axes s places) ks)
remove_axes-Inside s [] ks h f = (h, f, refl)
remove_axes-Inside s (at ∷ places) ks h f =
    let n = min at (length s) in
    let (inside, full, place) = remove_axes-Inside (insert_at s n 1) places ks h f in
    let (inside', full', same, place') =
      removed s n (remove_axes (insert_at s n 1) places ks) (omega arith) inside
        (full ∙ length-insert_at s n 1) in
    (inside', full', place' ∙ place)

module _ (ptr : ℤ) (s : List ℕ) (strides : List ℤ) where
  insert_axis-Selects :
      (src : List ℕ → List ℕ) (out : List ℕ) (l : Layout) (at : ℕ)
      → Selects ptr s strides src out l
      → length out < max_ndim
      → (let n = min at (length out) in
          (r : Layout) × (insert_axis l at ≡ ok r)
          × Selects ptr s strides (λ ks. src (remove_at n ks)) (insert_at out n 1) r)
  unfolding insert_axis
  insert_axis-Selects src out l at st short =
      let n = min at (length out) in
      let len : length l.shape ≡ length out = ap length st.shape in
      let not_full : (length out == max_ndim) ≡ false = ground arith in
      (
        record l { shape = insert_at l.shape n 1; strides = insert_at l.strides n (pos 0) },
        rw (len, not_full) refl,
        record {
          shape = ap (λ t. insert_at t n 1) st.shape;
          full =
              length-insert_at l.strides n (pos 0)
              ∙ ap suc st.full
              ∙ sym (length-insert_at out n 1);
          reads = λ ks h f.
              let (inside, full, same, place) =
                removed out n ks (omega arith) h (f ∙ length-insert_at out n 1) in
              let (there, deep, here) = st.reads (remove_at n ks) inside full in
              (
                there,
                deep,
                ap (address l.ptr (insert_at l.strides n (pos 0))) same
                    ∙ address-insert_at n l.strides (remove_at n ks) l.ptr (full ∙ sym st.full)
                    ∙ here,
              );
        },
      )

  -- A layout with inserted axes selects what it selected without them.
  pub insert_axes-Selects :
      (src : List ℕ → List ℕ) (out : List ℕ) (l : Layout) (places : List ℕ)
      → Selects ptr s strides src out l
      → length out + length places ≤ max_ndim
      → (r : Layout) × (insert_axes l places ≡ ok r)
        × Selects ptr s strides (λ ks. src (remove_axes out places ks)) (with_axes out places) r
  insert_axes-Selects src out l [] st short = (l, refl, st)
  insert_axes-Selects src out l (at ∷ places) st short =
      let n = min at (length out) in
      let (r, made, st') = insert_axis-Selects src out l at st (omega arith) in
      let (q, made', st'') =
        insert_axes-Selects (λ ks. src (remove_at n ks)) (insert_at out n 1) r places st'
          (omega (arith, length-insert_at out n 1)) in
      (q, rw made made', st'')
