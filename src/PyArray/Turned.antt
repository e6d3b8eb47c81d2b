-- ===== src/PyArray/Turned.antt =====
-- `transposed` of src/python.rs.
use lightarray.Prelude.{
  ℕ, ◌*◌, ◌^◌, ◌<◌, ◌≤◌, ◌≡◌, sym, ap, ◌∙◌, arith, List, [], ◌∷◌, length, reverse, product,
  mul_mono,
}
use mathlib.Core.List.{reverse-reverse}
use lightarray.Outcome.{ok}
use lightarray.Dims.{max_ndim}
use lightarray.Dims.Strides.{Fits}
use lightarray.Array.{Element}
use lightarray.Array.Valid.{HasShape}
use lightarray.Layout.{reversed}
use lightarray.Layout.Address.{AreLengths}
use lightarray.Layout.Compact.{Fits-whole}
use lightarray.Memory.{Memory}
use lightarray.PyArray.{PyArray, Fresh, layout_of, transposed}
use lightarray.PyArray.Views.{view_from_layout-Shows}
use lightarray.Layout.Turned.{length-reverse, product-reverse_aux, reversed-Selects}
use lightarray.PyArray.Sharing.{Shares, Shares-trans, Shows-Shares, layout_of-shape}

-- With elements, it is enough that the whole fits.
pub Fits-nonempty : (z : ℕ) (s : List ℕ) → 0 < product s → z * product s < 2 ^ 63 → Fits z s
Fits-nonempty z [] h k = omega arith
Fits-nonempty z (d ∷ s) h k =
    let some_left : 0 < product s = grind arith in
    let here : 0 < d = grind arith in
    let less =
      mul_mono z z (1 * product s) (d * product s) (omega arith)
        (mul_mono 1 d (product s) (product s) here (omega arith)) in
    let row : z * product s < 2 ^ 63 = omega (arith, less) in (k, Fits-nonempty z s some_left row)

pub AreLengths-nonempty : (z : ℕ) (s : List ℕ) → 0 < z → 0 < product s → Fits z s → AreLengths s
AreLengths-nonempty z [] p h f = tt
AreLengths-nonempty z (d ∷ s) p h f =
    let some_left : 0 < product s = grind arith in
    (
      omega (
        arith,
        mul_mono 1 z (d * product s) (d * product s) p (omega arith),
        mul_mono d d 1 (product s) (omega arith) some_left,
      ),
      AreLengths-nonempty z s p some_left f.1,
    )

module _ {ℓ} {A : Type ℓ} ⦃e : Element A⦄ (mem : Memory A) where
  -- The transpose of an array with elements has the lengths in reverse, and shares the elements of
  -- the array at the reversed positions.
  pub transposed-Shares :
      (new : Fresh) (a : PyArray A) (s : List ℕ)
      → HasShape s a.inner
      → length (layout_of a).strides ≡ length s
      → 0 < product s
      → (v : PyArray A) × (transposed mem new a ≡ ok v) × Shares mem a s reverse (reverse s) v
  unfolding transposed
  transposed-Shares new a s v axes some_left =
      let l = reversed (layout_of a) in
      let st = reversed-Selects (layout_of a) s (layout_of-shape a s v) axes in
      let whole : product (reverse s) ≡ product s = product-reverse_aux s [] ∙ omega arith in
      let fits : Fits e.size_of (reverse s) =
        Fits-nonempty e.size_of (reverse s) (omega (arith, whole))
          (rw whole (Fits-whole e.size_of s v.fits)) in
      let short : length (reverse s) ≤ max_ndim = omega (arith, length-reverse s, v.short) in
      let (r, made, shows, base) =
        view_from_layout-Shows mem new a l (rw (st.shape) short) (rw (st.shape) fits)
          (st.full ∙ ap length (sym st.shape)) in
      (r, made, Shows-Shares st shows (λ more. base (rw st.shape more)))

  -- Transposing an array with elements twice gives an array of its shape that shares its elements,
  -- each at its own position.
  pub transposed-transposed :
      (new again : Fresh) (a : PyArray A) (s : List ℕ)
      → HasShape s a.inner
      → length (layout_of a).strides ≡ length s
      → 0 < product s
      → (v u : PyArray A) × (transposed mem new a ≡ ok v)
        × (transposed mem again v ≡ ok u)
        × Shares mem a s (λ ks. ks) s u
  transposed-transposed new again a s valid axes some_left =
      let (v, made, p) = transposed-Shares new a s valid axes some_left in
      let whole : product (reverse s) ≡ product s = product-reverse_aux s [] ∙ omega arith in
      let (u, made', q) =
        transposed-Shares again v (reverse s) p.valid p.axes (omega (arith, whole)) in
      (
        v,
        u,
        made,
        made',
        coe 0 1 (i. Shares mem a s (λ ks. reverse-reverse ks i) (reverse-reverse s i) u)
            (Shares-trans p q),
      )
