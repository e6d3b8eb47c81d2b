-- ===== src/PyArray/Views.antt =====
-- `view_from_layout` of src/python.rs: the array that it makes of a layout.
use lightarray.Prelude.{
  ℕ, zero, suc, ◌*◌, ◌<◌, ◌≤◌, ◌≡◌, refl, sym, ap, ◌∙◌, arith, List, [], ◌∷◌, some, none,
  Bool-cases, inl, inr, length, map, product, get_elem?, ◌==◌, word, wrapping_product-exact,
  length-map,
}
use lightarray.Prelude.Int.{ℤ, pos, ◌+ℤ◌, int_laws}
use lightarray.Outcome.{ok}
use lightarray.Dims.{Dims, max_ndim}
use lightarray.Dims
use lightarray.Dims.Strides.{
  Fits, Fits-product-lt, c_strides, length-c_strides, byte_strides-Fits, c_dims, c_dims-LaysOut,
  with_itemsize-c_dims, LaysOut-size,
}
use lightarray.Array.{Element, Array, shape}
use lightarray.Array.Valid.{HasShape, HasShape-LaysOut, shape-HasShape, filled-HasShape}
use lightarray.Array.Locate.Order.{flat, Inside, flat-lt}
use lightarray.Array.AnyArray.{from_bits}
use lightarray.Layout.{Layout, is_c_contiguous}
use lightarray.Layout.Address.{address_of, from_bits-small}
use lightarray.Layout.Compact.{AreCompact, Fits-whole, AreCompact-address, is_c_contiguous-address}
use lightarray.Memory.{Memory, gather_from}
use lightarray.Memory.Copy.{gather_from-reads}
use lightarray.PyArray.{
  PyArray, Fresh, base_of, layout_of, elements, arr, own, raw_view, strided_view, view_from_layout,
}

C_order-AreCompact :
    (z : ℕ) (s : List ℕ)
    → Fits z s
    → AreCompact z s (map from_bits (map (λ n. z * n) (c_strides s)))
C_order-AreCompact z [] f = tt
C_order-AreCompact z (d ∷ s) f =
    (λ long. from_bits-small (z * product s) (Fits-whole z s f.1), C_order-AreCompact z s f.1)

pub length-elements {ℓ} :
    {A : Type ℓ} (mem : Memory A) (ptr : ℤ) (z n : ℕ) → length (elements mem ptr z n) ≡ n
length-elements mem ptr z zero = refl
length-elements mem ptr z (suc n) = ap suc (length-elements mem (ptr +ℤ pos z) z n)

get_elem?-elements {ℓ} :
    {A : Type ℓ} (mem : Memory A) (z n i : ℕ) (ptr : ℤ)
    → i < n
    → get_elem? (elements mem ptr z n) i ≡ some (mem (ptr +ℤ pos (z * i)))
get_elem?-elements mem z zero i ptr h = absurd (omega arith)
get_elem?-elements mem z (suc n) zero ptr h = ap (λ b. some (mem b)) (omega int_laws)
get_elem?-elements mem z (suc n) (suc i) ptr h =
    get_elem?-elements mem z n i (ptr +ℤ pos z) (omega arith)
    ∙ ap (λ b. some (mem b)) (omega int_laws)

-- `v` is an array of the shape of the layout whose elements live where the layout says. Loaded, its
-- buffer holds in C order what memory holds at their addresses.
pub record Shows {ℓ} {A : Type ℓ} ⦃e : Element A⦄ (mem : Memory A) (l : Layout) (v : PyArray A)
    : Type ℓ where
  pub valid : HasShape l.shape v.inner
  pub axes : length (layout_of v).strides ≡ length l.shape
  pub located :
      (is : List ℕ)
      → Inside l.shape is
      → length is ≡ length l.shape
      → address_of (layout_of v) is ≡ address_of l is
  pub loaded :
      (w : PyArray A) × (arr mem v ≡ ok w)
      × ((is : List ℕ)
          → Inside l.shape is
          → length is ≡ length l.shape
          → get_elem? w.inner.buffer (flat l.shape is) ≡ some (mem (address_of l is)))

module _ {ℓ} {A : Type ℓ} ⦃e : Element A⦄ where
  -- An array without strides of its own has its elements one after the other.
  pub owned-address :
      (a : PyArray A) (s is : List ℕ)
      → HasShape s a.inner
      → a.strided ≡ none
      → Inside s is
      → length is ≡ length s
      → address_of (layout_of a) is ≡ a.data_ptr +ℤ pos (e.size_of * flat s is)
  unfolding layout_of
  owned-address a s is v n h f = simp (n) (
      rw (same) (
        AreCompact-address e.size_of s _ is a.data_ptr (C_order-AreCompact e.size_of s v.fits) h f))
    where
      same : Dims.strides a.inner.dims ≡ map (λ n. e.size_of * n) (c_strides s)
      same = (HasShape-LaysOut v).strides ∙ byte_strides-Fits e.size_of s v.fits

  owned-axes :
      (a : PyArray A) (s : List ℕ)
      → HasShape s a.inner
      → a.strided ≡ none
      → length (layout_of a).strides ≡ length s
  unfolding layout_of
  owned-axes a s v n = simp (n) (
      length-map from_bits (Dims.strides a.inner.dims)
      ∙ ap length (HasShape-LaysOut v).strides
      ∙ length-map _ (c_strides s)
      ∙ length-c_strides s)

  module _ (mem : Memory A) (new : Fresh) (slf : PyArray A) (l : Layout)
      (short : length l.shape ≤ max_ndim) (fits : Fits e.size_of l.shape)
      (axes : length l.strides ≡ length l.shape) where
    small : product l.shape < word
    small = omega (arith, Fits-product-lt e.size_of l.shape e.size_of_pos fits)

    whole : Dims.size (c_dims l.shape e.size_of) ≡ product l.shape
    whole =
        LaysOut-size l.shape e.size_of (c_dims l.shape e.size_of) e.size_of_pos fits
          (c_dims-LaysOut l.shape e.size_of e.size_of_small)

    pub own-Shows :
        (a : Array A) → HasShape l.shape a → product l.shape ≡ 0 → Shows mem l (own new a)
    unfolding arr
    own-Shows a v empty = record {
      valid = v;
      axes = owned-axes (own new a) l.shape v refl;
      located = λ is h f. absurd (omega (arith, flat-lt l.shape is h f));
      loaded = (own new a, refl, λ is h f. absurd (omega (arith, flat-lt l.shape is h f)));
    }

    -- A window, if the elements of the layout lie in it one after the other.
    pub raw_view-Shows :
        (ptr : ℤ) (base : ℕ)
        → ((is : List ℕ)
            → Inside l.shape is
            → length is ≡ length l.shape
            → address_of l is ≡ ptr +ℤ pos (e.size_of * flat l.shape is))
        → Shows mem l (raw_view mem new ptr (c_dims l.shape e.size_of) base)
    unfolding arr
    raw_view-Shows ptr base place =
        let v : PyArray A = raw_view mem new ptr (c_dims l.shape e.size_of) base in
        let valid : HasShape l.shape v.inner = record {
          short = short;
          fits = fits;
          dims = refl;
          full = length-elements mem ptr e.size_of _ ∙ whole;
        } in
        record {
          valid = valid;
          axes = owned-axes v l.shape valid refl;
          located = λ is h f. owned-address v l.shape is valid refl h f ∙ sym (place is h f);
          loaded = (
            v,
            refl,
            λ is h f.
                get_elem?-elements mem e.size_of _ (flat l.shape is) ptr
                  (omega (arith, whole, flat-lt l.shape is h f))
                ∙ ap (λ b. some (mem b)) (sym (place is h f)),
          );
        }

    strided_view-Shows :
        (base : ℕ) (cache : Array A)
        → HasShape l.shape cache
        → Shows mem l (strided_view new base l cache)
    unfolding arr layout_of
    strided_view-Shows base cache v =
        let (r, run, len, reads) =
          gather_from-reads l.shape l.ptr l.strides axes small mem cache.buffer v.full in
        let run' : gather_from mem cache.buffer (shape cache) l.ptr l.strides ≡ ok r =
          rw (shape-HasShape v) run in
        record {
          valid = v;
          axes = axes;
          located = λ is h f. refl;
          loaded = (
            record (strided_view new base l cache) {
              inner = record { buffer = r; dims = cache.dims };
            },
            rw run' refl,
            reads,
          );
        }

    -- The layout of a shape of at most 8 axes that fits is shown, whatever its strides: an array
    -- of its own if there are no elements, a window if they lie one after the other, and a strided
    -- view otherwise. With elements, it shares the memory that the array shares.
    pub view_from_layout-Shows :
        (v : PyArray A) × (view_from_layout mem new slf l ≡ ok v)
        × Shows mem l v
        × (0 < product l.shape → base_of v ≡ base_of slf)
    unfolding view_from_layout base_of
    view_from_layout-Shows =
        let exact = wrapping_product-exact l.shape small in
        let (zeros, made, fill, v) = filled-HasShape l.shape e.default short fits in
        elim (Bool-cases (product l.shape == 0)) [
          | inl empty ↦ (
            own new zeros,
            rw (exact, empty, made) refl,
            own-Shows zeros v (ground arith),
            λ some_left. absurd (ground arith),
          )
          | inr more ↦ elim (Bool-cases (is_c_contiguous l e.size_of)) [
            | inl compact ↦ (
              raw_view mem new l.ptr (c_dims l.shape e.size_of) (base_of slf),
              rw
                  (
                    exact,
                    more,
                    compact,
                    with_itemsize-c_dims l.shape e.size_of short e.size_of_small,
                  )
                  refl,
              raw_view-Shows l.ptr (base_of slf)
                  (is_c_contiguous-address e.size_of l fits axes compact),
              λ some_left. refl,
            )
            | inr wild ↦ (
              strided_view new (base_of slf) l zeros,
              rw (exact, more, wild, made) refl,
              strided_view-Shows (base_of slf) zeros v,
              λ some_left. refl,
            )
          ]
        ]
