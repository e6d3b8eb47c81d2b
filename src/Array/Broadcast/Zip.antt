-- ===== src/Array/Broadcast/Zip.antt =====
-- The element-wise kernels of two arrays in src/array.rs: `zip_map`, by its straight loop or by
-- the odometer, and `zip_map_inplace`.
use native.Mathlib.Decide.{dec_lt}
use lightarray.Prelude.{
  ℕ, zero, suc, ◌-◌, ◌≤◌, ◌<◌, ◌≡◌, refl, sym, ap, ap₂, ◌∙◌, arith, List, [], ◌∷◌, Bool, true,
  false, ◌&&◌, ◌==◌, length, product, replicate, Bool-cases, inl, inr, ==_iff, max, lt→ltb,
  wrapping_product, wrapping_product-exact, take, length-replicate,
}
use lightarray.Outcome.{Result, ok, ok-injective, ok-ne-err}
use lightarray.Dims
use lightarray.Dims.{Dims, max_ndim}
use lightarray.Dims.Strides.{Fits, Fits-product-lt}
use lightarray.Array.{Element, Array}
use lightarray.Array.Valid.{HasShape, shape-HasShape, new-HasShape}
use lightarray.Array.Locate.Order.{flat, Inside, flat-lt}
use lightarray.Array.Broadcast.{
  broadcast_shape, broadcast_strides, odometer_loop, eq_list, eq_dims, zip_with, zip_map,
  zip_map_broadcast,
}
use lightarray.Array.Broadcast.Aligned.{
  widened, Joins, broadcast_shape_lem, Joins-Fills, length-Joins, length-widened, Joins-self,
}
use lightarray.Array.Broadcast.Walk.{Pairs, dot, odometer_loop-Pairs}
use lightarray.Array.Broadcast.Origin.{
  source, source_self, source-Inside, dot-broadcast_strides, length-broadcast_strides, zeros-Inside,
  flat-zeros, dot-zeros,
}

pub eq_list→≡ : (xs ys : List ℕ) → eq_list xs ys ≡ true → xs ≡ ys
eq_list→≡ [] [] h = refl
eq_list→≡ [] (y ∷ ys) h = cc
eq_list→≡ (x ∷ xs) [] h = cc
eq_list→≡ (x ∷ xs) (y ∷ ys) h = elim (Bool-cases (x == y)) [
  | inl e ↦ ap₂ ◌∷◌ ((==_iff x y).0 e) (eq_list→≡ xs ys (rw e at h))
  | inr e ↦ let bad : false ≡ true = rw e at h in cc
]

-- Equal dims have equal shapes.
pub eq_dims-shape : (d e : Dims) → eq_dims d e ≡ true → Dims.shape d ≡ Dims.shape e
unfolding Dims.shape
eq_dims-shape d e h =
    let same_ndim = d.ndim == e.ndim in
    let same_size = d.itemsize == e.itemsize in
    let same_shape = eq_list d.shape_slots e.shape_slots in
    let (three, strides) = both (same_ndim && same_size && same_shape) _ h in
    let (two, slots) = both (same_ndim && same_size) same_shape three in
    let (n, z) = both same_ndim same_size two in
    ap₂ take ((==_iff d.ndim e.ndim).0 n) (eq_list→≡ d.shape_slots e.shape_slots slots)
  where
    both : (p q : Bool) → (p && q) ≡ true → (p ≡ true) × (q ≡ true)
    both true q r = (refl, r)
    both false q r = cc

module _ {ℓ} {A : Type ℓ} (f : A → A → A) where
  length-zip_with : (xs ys : List A) → length xs ≡ length ys → length (zip_with f xs ys) ≡ length xs
  length-zip_with [] [] e = refl
  length-zip_with [] (y ∷ ys) e = refl
  length-zip_with (x ∷ xs) [] e = absurd (omega arith)
  length-zip_with (x ∷ xs) (y ∷ ys) e = ap suc (length-zip_with xs ys (omega arith))

  zip_with-Pairs :
      (xs ys : List A) (i : ℕ)
      → length xs ≡ length ys
      → i < length xs
      → Pairs f xs ys i i (zip_with f xs ys) i
  zip_with-Pairs [] ys i e h = absurd (omega arith)
  zip_with-Pairs (x ∷ xs) [] i e h = absurd (omega arith)
  zip_with-Pairs (x ∷ xs) (y ∷ ys) zero e h = (x, y, refl, refl, refl)
  zip_with-Pairs (x ∷ xs) (y ∷ ys) (suc i) e h = zip_with-Pairs xs ys i (omega arith) (omega arith)

module _ {ℓ} {A : Type ℓ} ⦃e : Element A⦄ (f : A → A → A) where
  -- `r` has shape `u`, and at each position `f` of the two elements that broadcast there.
  abbrev pub IsZip : List ℕ → List ℕ → List ℕ → Array A → Array A → Array A → Type ℓ
  IsZip s t u a b r =
      HasShape u r
      × ((is : List ℕ)
          → Inside u is
          → length is ≡ length u
          → Pairs f a.buffer b.buffer (flat s (source s is)) (flat t (source t is)) r.buffer
              (flat u is))

  module _ (s t u : List ℕ) (a b : Array A) (v : HasShape s a) (w : HasShape t b)
      (joined : broadcast_shape s t ≡ ok u) (fits : Fits e.size_of u) where
    u_Joins : let n = max (length s) (length t) in Joins (widened n s) (widened n t) u
    u_Joins = elim (broadcast_shape_lem s t) [
      | inl (u', made, j) ↦ rw (ok-injective (sym joined ∙ made)) j
      | inr (bad, clash) ↦ absurd (ok-ne-err (sym joined ∙ bad))
    ]

    u_ndim : length u ≡ max (length s) (length t)
    u_ndim = length-Joins u_Joins ∙ length-widened _ s (omega arith)

    u_self : s ≡ t → u ≡ s
    u_self same =
        let n = max (length s) (length t) in
        let none_before : n - length s ≡ 0 = omega (arith, ap length same) in
        let alone : widened n s ≡ s = rw none_before refl in
        Joins-self u_Joins (ap (widened n) same) ∙ alone

    -- Both elements of a position are in their buffers.
    sources :
        (is : List ℕ)
        → Inside u is
        → length is ≡ length u
        → (flat s (source s is) < length a.buffer) × (flat t (source t is) < length b.buffer)
    sources is h p =
        let (fills_s, fills_t) = Joins-Fills u_Joins in
        let (in_s, full_s) = source-Inside _ s u is fills_s h p u_ndim in
        let (in_t, full_t) = source-Inside _ t u is fills_t h p u_ndim in
        (
          omega (arith, v.full, flat-lt s (source s is) in_s full_s),
          omega (arith, w.full, flat-lt t (source t is) in_t full_t),
        )

    -- What the loop of `zip_map_broadcast` pushes.
    abbrev pushes : Result (List A)
    pushes =
        odometer_loop f a.buffer b.buffer u (broadcast_strides s u) (broadcast_strides t u)
          (product u) (replicate (length u) 0) 0 0

    pushes_lem :
        0 < product u
        → (r : List A) × (pushes ≡ ok r)
          × (length r ≡ product u)
          × ((is : List ℕ)
              → Inside u is
              → length is ≡ length u
              → Pairs f a.buffer b.buffer
                  (flat s (source s is))
                  (flat t (source t is))
                  r
                  (flat u is))
    pushes_lem some_left =
        let sa = broadcast_strides s u in
        let sb = broadcast_strides t u in
        let at_s : (is : List ℕ) → length is ≡ length u → dot is sa ≡ flat s (source s is) =
          λ is p. dot-broadcast_strides e.size_of s u is e.size_of_pos v.fits p in
        let at_t : (is : List ℕ) → length is ≡ length u → dot is sb ≡ flat t (source t is) =
          λ is p. dot-broadcast_strides e.size_of t u is e.size_of_pos w.fits p in
        let (r, run, count, reads) =
          odometer_loop-Pairs f a.buffer b.buffer u sa sb
            (length-broadcast_strides s u (omega (arith, u_ndim)))
            (length-broadcast_strides t u (omega (arith, u_ndim)))
            (λ is h p. rw (at_s is p, at_t is p) (sources is h p)) (product u)
            (replicate (length u) 0) 0 0
            (λ more. record {
              inside = zeros-Inside u some_left;
              full = length-replicate (length u) 0;
              at_a = sym (dot-zeros (length u) sa);
              at_b = sym (dot-zeros (length u) sb);
              left = omega (arith, flat-zeros u (length u));
            }) in
        (
          r,
          run,
          count,
          λ is h p.
              rw (← at_s is p, ← at_t is p)
                (reads is (flat u is) h p (flat-lt u is h p)
                  (omega (arith, flat-zeros u (length u)))),
        )

    broadcast-IsZip : (r : Array A) × (zip_map_broadcast f a b ≡ ok r) × IsZip s t u a b r
    unfolding zip_map_broadcast
    broadcast-IsZip = elim (dec_lt 0 (product u)) [
      | yes some_left ↦
          let (r, run, count, reads) = pushes_lem some_left in
          let (c, made, kept, ready) = new-HasShape r u short fits count in
          (
            c,
            rw
                (
                  shape-HasShape v,
                  shape-HasShape w,
                  joined,
                  exact,
                  lt→ltb 0 (product u) some_left,
                  run,
                )
                made,
            (ready, λ is h p. rw kept (reads is h p)),
          )
      | no empty ↦
          let none_left : product u ≡ 0 = omega arith in
          let (c, made, kept, ready) = new-HasShape [] u short fits (sym none_left) in
          (
            c,
            rw (shape-HasShape v, shape-HasShape w, joined, exact, none_left) made,
            (ready, λ is h p. absurd (omega (arith, flat-lt u is h p))),
          )
    ]
      where
        short : length u ≤ max_ndim
        short = omega (arith, u_ndim, v.short, w.short)

        exact : wrapping_product u ≡ product u
        exact =
            wrapping_product-exact u (omega (arith, Fits-product-lt e.size_of u e.size_of_pos fits))

    pub straight-IsZip :
        s ≡ t → IsZip s t u a b (record { buffer = zip_with f a.buffer b.buffer; dims = a.dims })
    straight-IsZip same =
        let as_long : length a.buffer ≡ length b.buffer = v.full ∙ ap product same ∙ sym w.full in
        let count = length-zip_with f a.buffer b.buffer as_long in
        rw (u_self same, ← same)
          (
            record { short = v.short; fits = v.fits; dims = v.dims; full = count ∙ v.full },
            λ is h p. rw (source_self s is h p) (
                zip_with-Pairs f a.buffer b.buffer (flat s is) as_long
                  (omega (arith, v.full, flat-lt s is h p))),
          )

    -- On arrays of two shapes that join to a shape which fits, `zip_map` returns, by either of its
    -- loops, an array of the joined shape that holds, at each position, `f` of the elements of the
    -- two arrays that broadcast to that position.
    pub zip_map-IsZip : (r : Array A) × (zip_map f a b ≡ ok r) × IsZip s t u a b r
    unfolding zip_map
    zip_map-IsZip = elim (Bool-cases (eq_dims a.dims b.dims)) [
      | inl same ↦
          let shapes =
            sym (shape-HasShape v) ∙ eq_dims-shape a.dims b.dims same ∙ shape-HasShape w in
          (
            record { buffer = zip_with f a.buffer b.buffer; dims = a.dims },
            rw same refl,
            straight-IsZip shapes,
          )
      | inr differ ↦ let (r, run, zipped) = broadcast-IsZip in (r, rw differ run, zipped)
    ]
