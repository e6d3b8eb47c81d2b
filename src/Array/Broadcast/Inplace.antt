-- ===== src/Array/Broadcast/Inplace.antt =====
-- `zip_map_inplace` of src/array.rs, on each of its branches, and the errors of `zip_map`.
use lightarray.Prelude.{
  ℕ, ◌≡◌, ◌≢◌, refl, sym, ap, ◌∙◌, arith, List, [], ◌∷◌, true, false, length, Bool-cases, inl, inr,
  max, ◌-◌, ◌==◌,
}
use lightarray.Outcome.{ok, err, ok-injective, ok-ne-err, ArrayError, message, output_operand}
use lightarray.Array.{Element, Array}
use lightarray.Array.Valid.{HasShape, shape-HasShape}
use lightarray.Array.Broadcast.{
  broadcast_shape, eq_list, eq_dims, zip_with, zip_map, zip_map_broadcast, zip_map_inplace,
}
use lightarray.Array.Broadcast.Aligned.{
  widened, Clashes, here, later, broadcast_shape_lem, Joins-self,
}
use lightarray.Array.Broadcast.Zip.{eq_list→≡, eq_dims-shape, IsZip, straight-IsZip, zip_map-IsZip}

eq_list_refl : (xs : List ℕ) → eq_list xs xs ≡ true
eq_list_refl [] = refl
eq_list_refl (x ∷ xs) = rw (same x) (eq_list_refl xs)
  where
    same : (n : ℕ) → (n == n) ≡ true
    same n = ground arith

same_size : (m n : ℕ) → m ≡ n → (m == n) ≡ true
same_size m n h = ground arith

eq_list-differ : (xs ys : List ℕ) → xs ≢ ys → eq_list xs ys ≡ false
eq_list-differ xs ys h = elim (Bool-cases (eq_list xs ys)) [
  | inl e ↦ absurd (h (eq_list→≡ xs ys e))
  | inr e ↦ e
]

Clashes-irrefl : {s t : List ℕ} → Clashes s t → s ≢ t
Clashes-irrefl (here differ p q) e = differ cc
Clashes-irrefl {s = x ∷ s} {t = y ∷ t} (later c) e =
    let tails : s ≡ t = cc in Clashes-irrefl c tails

-- A shape broadcasts with itself to itself.
broadcast_shape_self : (s : List ℕ) → broadcast_shape s s ≡ ok s
broadcast_shape_self s = elim (broadcast_shape_lem s s) [
  | inl (u, made, j) ↦ made ∙ ap ok (Joins-self j refl ∙ alone)
  | inr (bad, clash) ↦ absurd (Clashes-irrefl clash refl)
]
  where
    alone : widened (max (length s) (length s)) s ≡ s
    alone =
        let none_before : max (length s) (length s) - length s ≡ 0 = omega arith in
        rw none_before refl

module _ {ℓ} {A : Type ℓ} ⦃e : Element A⦄ (f : A → A → A) (s t : List ℕ) (a b : Array A)
    (v : HasShape s a) (w : HasShape t b) where
  -- Arrays of two shapes that do not broadcast to the first have different dims.
  differ-eq_dims : broadcast_shape s t ≢ ok s → eq_dims a.dims b.dims ≡ false
  differ-eq_dims h = elim (Bool-cases (eq_dims a.dims b.dims)) [
    | inl same ↦
        let shapes : s ≡ t =
          sym (shape-HasShape v) ∙ eq_dims-shape a.dims b.dims same ∙ shape-HasShape w in
        absurd (h (ap (broadcast_shape s) (sym shapes) ∙ broadcast_shape_self s))
    | inr e ↦ e
  ]

  zip_map-err : (why : ArrayError) → broadcast_shape s t ≡ err why → zip_map f a b ≡ err why
  unfolding zip_map zip_map_broadcast
  zip_map-err why bad =
      rw
        (
          differ-eq_dims (λ same. ok-ne-err (sym same ∙ bad)),
          shape-HasShape v,
          shape-HasShape w,
          bad,
        )
        refl

  -- On valid arrays, an in-place operation whose operand broadcasts to the target's shape keeps the
  -- target's dims and stores at each position what `zip_map` computes there; one whose operands
  -- broadcast to another shape is refused with the two shapes, and one whose operands do not
  -- broadcast is refused, as `zip_map` is, with the error of `broadcast_shape`.
  pub zip_map_inplace-IsZip :
      (broadcast_shape s t ≡ ok s
        → (r : Array A) × (zip_map_inplace f a b ≡ ok r) × (r.dims ≡ a.dims) × IsZip f s t s a b r)
      × ((u : List ℕ)
          → broadcast_shape s t ≡ ok u
          → u ≢ s
          → zip_map_inplace f a b ≡ err (message (output_operand s u)))
      × ((why : ArrayError)
          → broadcast_shape s t ≡ err why
          → (zip_map_inplace f a b ≡ err why) × (zip_map f a b ≡ err why))
  unfolding zip_map_inplace
  zip_map_inplace-IsZip = (
    λ joined. elim (Bool-cases (eq_dims a.dims b.dims)) [
      | inl same ↦
          let shapes =
            sym (shape-HasShape v) ∙ eq_dims-shape a.dims b.dims same ∙ shape-HasShape w in
          (
            record a { buffer = zip_with f a.buffer b.buffer },
            rw same refl,
            refl,
            straight-IsZip f s t s a b v w joined v.fits shapes,
          )
      | inr differ ↦
          let (r, run, (ready, reads)) = zip_map-IsZip f s t s a b v w joined v.fits in
          let as_long : (length r.buffer == length a.buffer) ≡ true =
            same_size (length r.buffer) (length a.buffer) (ready.full ∙ sym v.full) in
          (
            record a { buffer = r.buffer },
            rw (differ, shape-HasShape v, shape-HasShape w, joined, eq_list_refl s, run, as_long)
                refl,
            refl,
            (record { short = v.short; fits = v.fits; dims = v.dims; full = ready.full }, reads),
          )
    ],
    λ u joined other.
        rw
          (
            differ-eq_dims (λ same. other (ok-injective (sym joined ∙ same))),
            shape-HasShape v,
            shape-HasShape w,
            joined,
            eq_list-differ u s other,
          )
          refl,
    λ why bad. (
      rw
          (
            differ-eq_dims (λ same. ok-ne-err (sym same ∙ bad)),
            shape-HasShape v,
            shape-HasShape w,
            bad,
          )
          refl,
      zip_map-err why bad,
    ),
  )
