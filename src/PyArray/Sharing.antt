-- ===== src/PyArray/Sharing.antt =====
-- When an array of src/python.rs is a view of the elements of another.
use lightarray.Prelude.{
  ℕ, ◌<◌, ◌≡◌, sym, ap, ◌∙◌, arith, List, some, Option-cases, inl, inr, length, product, get_elem?,
}
use lightarray.Outcome.{ok}
use lightarray.Array.{Element}
use lightarray.Array.Valid.{HasShape, shape-HasShape}
use lightarray.Array.Locate.Order.{flat, Inside, flat_surj, flat-lt}
use lightarray.Layout.{Layout}
use lightarray.Layout.Address.{address_of, Selects}
use lightarray.Memory.{Memory}
use lightarray.PyArray.{PyArray, base_of, layout_of, arr}
use lightarray.PyArray.Views.{Shows}

-- `v` is an array of shape `out` with the element at `src ks` of `a`, of shape `s`, at each of its
-- positions `ks`: at the same address, and loaded from there. With elements, both share the memory
-- of one object.
pub record Shares {ℓ} {A : Type ℓ} ⦃e : Element A⦄ (mem : Memory A) (a : PyArray A) (s : List ℕ)
    (src : List ℕ → List ℕ) (out : List ℕ) (v : PyArray A) : Type ℓ where
  pub valid : HasShape out v.inner
  pub axes : length (layout_of v).strides ≡ length out
  pub base : 0 < product out → base_of v ≡ base_of a
  pub located :
      (ks : List ℕ)
      → Inside out ks
      → length ks ≡ length out
      → Inside s (src ks)
        × (length (src ks) ≡ length s)
        × (address_of (layout_of v) ks ≡ address_of (layout_of a) (src ks))
  pub loaded :
      (w : PyArray A) × (arr mem v ≡ ok w)
      × ((ks : List ℕ)
          → Inside out ks
          → length ks ≡ length out
          → get_elem? w.inner.buffer (flat out ks) ≡ some (mem (address_of (layout_of a) (src ks))))

module _ {ℓ} {A : Type ℓ} ⦃e : Element A⦄ where
  pub layout_of-shape : (a : PyArray A) (s : List ℕ) → HasShape s a.inner → (layout_of a).shape ≡ s
  unfolding layout_of
  layout_of-shape a s v = elim (Option-cases a.strided) [
    | inl n ↦ simp (n) (shape-HasShape v)
    | inr (t, n) ↦ simp (n) (shape-HasShape v)
  ]

module _ {ℓ} {A : Type ℓ} ⦃e : Element A⦄ {mem : Memory A} where
  -- A layout that selects from that of an array is shown by an array that shares its elements.
  pub Shows-Shares :
      {a v : PyArray A} {s out : List ℕ} {src : List ℕ → List ℕ} {l : Layout}
      → Selects (layout_of a).ptr s (layout_of a).strides src out l
      → Shows mem l v
      → (0 < product out → base_of v ≡ base_of a)
      → Shares mem a s src out v
  Shows-Shares {out = out} {l = l} st sh base = record {
    valid = rw (← st.shape) sh.valid;
    axes = sh.axes ∙ ap length st.shape;
    base = base;
    located = λ ks h f.
        let h' : Inside l.shape ks = rw st.shape h in
        let (inside, full, same) = st.reads ks h f in
        (inside, full, sh.located ks h' (f ∙ sym (ap length st.shape)) ∙ same);
    loaded =
        let (w, run, reads) = sh.loaded in
        (
          w,
          run,
          λ ks h f.
              let h' : Inside l.shape ks = rw st.shape h in
              let (inside, full, same) = st.reads ks h f in
              ap (λ t. get_elem? w.inner.buffer (flat t ks)) (sym st.shape)
              ∙ reads ks h' (f ∙ sym (ap length st.shape))
              ∙ ap (λ b. some (mem b)) same,
        );
  }

  -- A view of a view is a view, with the elements that the one picks from the other.
  pub Shares-trans :
      {a v u : PyArray A} {s t out : List ℕ} {f g : List ℕ → List ℕ}
      → Shares mem a s f t v
      → Shares mem v t g out u
      → Shares mem a s (λ ks. f (g ks)) out u
  Shares-trans {t = t} {out = out} {g = g} p q = record {
    valid = q.valid;
    axes = q.axes;
    base = λ some_left.
        let (ks, h, full, first) = flat_surj out 0 some_left in
        let (inside, whole, same) = q.located ks h full in
        let below = flat-lt t (g ks) inside whole in q.base some_left ∙ p.base (omega arith);
    located = λ ks h full.
        let (inside, whole, same) = q.located ks h full in
        let (inside', whole', same') = p.located (g ks) inside whole in
        (inside', whole', same ∙ same');
    loaded =
        let (w, run, reads) = q.loaded in
        (
          w,
          run,
          λ ks h full.
              let (inside, whole, same) = q.located ks h full in
              reads ks h full ∙ ap (λ b. some (mem b)) (p.located (g ks) inside whole).2,
        );
  }
