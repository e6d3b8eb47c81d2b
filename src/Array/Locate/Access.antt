-- ===== src/Array/Locate/Access.antt =====
-- `locate`, `index`, `get` and `set` of src/array.rs on arrays of every shape.
use native.Mathlib.Nat.{zero-add}
use native.Mathlib.Decide.{dec_le}
use lightarray.Prelude.{ℕ, suc, ◌+◌, ◌*◌, ◌/◌, ◌≤◌, ◌≡◌, refl, sym, ap, ◌∙◌, arith, map}
use lightarray.Prelude.{List, [], ◌∷◌, some, length, drop, product, leb}
use lightarray.Prelude.{
  get_elem?, get_elem?-drop_head, if◌then◌else◌, Option-cases, inl, inr, le→leb, lt→leb,
  get_elem?-map_inv,
}
use lightarray.Prelude.Int.{ℤ, pos, negsuc, ◌+ℤ◌}
use lightarray.Outcome.{Result, ok, err, panic, too_many_indices, ◌>>=◌}
use lightarray.Dims
use lightarray.Dims.{Dims}
use lightarray.Dims.Strides.{c_dims, c_strides, LaysOut-elem_strides, drop_leading-c_dims}
use lightarray.Array.{Element, Array, shape, ndim}
use lightarray.Array.Valid.{HasShape, HasShape-LaysOut, shape-HasShape}
use lightarray.Array.Locate.{normalize_index, locate_loop, locate}
use lightarray.Array.Locate.Order.{from_either_end, in_axis, resolve, resolve-Inside, flat}

module _ {ℓ} {A : Type ℓ} where
  -- `normalize_index` counts from either end of the axis.
  pub normalize_index_lem :
      (a : Array A) (x : ℤ) (axis d : ℕ)
      → get_elem? (shape a) axis ≡ some d
      → normalize_index a x axis ≡ in_axis d axis x (from_either_end d x)
  unfolding normalize_index ◌+ℤ◌
  normalize_index_lem a (pos n) axis d h = rw h (ground arith)
  normalize_index_lem a (negsuc n) axis d h = rw h (ground arith)

-- What `locate` returns for a position.
abbrev pub place : ℕ → List ℕ → List ℕ → ℕ × Dims
place z s is = (flat s is, c_dims (drop (length is) s) z)

module _ {ℓ} {A : Type ℓ} ⦃e : Element A⦄ {s : List ℕ} {a : Array A} (v : HasShape s a) where
  locate_loop_lem :
      (axis off : ℕ) (rest : List ℕ) (xs : List ℤ)
      → drop axis s ≡ rest
      → drop axis (map (λ n. n / e.size_of) (Dims.strides a.dims)) ≡ c_strides rest
      → length xs ≤ length rest
      → locate_loop a axis off xs ≡ (resolve axis rest xs >>= λ is. ok (off + flat rest is))
  unfolding locate_loop
  locate_loop_lem axis off rest [] p q h = ap ok (omega arith)
  locate_loop_lem axis off [] (x ∷ xs) p q h = absurd (omega arith)
  locate_loop_lem axis off (d ∷ rest) (x ∷ xs) p q h =
      let (len, p') = get_elem?-drop_head axis s p in
      let (quot, q') = get_elem?-drop_head axis _ q in
      let (stride, found, same) = get_elem?-map_inv (λ n. n / e.size_of) _ axis quot in
      let here = rw (← shape-HasShape v) at len in
      rw (normalize_index_lem a x axis d here) (elim (Option-cases (from_either_end d x)) [
        | inl out ↦ rw out
        | inr (i, inside) ↦
            rw (inside, found, same)
              (locate_loop_lem (suc axis) (off + i * product rest) rest xs p' q' (omega arith)
                ∙ ground arith)
      ])

  ndim-HasShape : ndim a ≡ length s
  ndim-HasShape = (HasShape-LaysOut v).ndim

  leading : (n : ℕ) → n ≤ length s → Dims.drop_leading a.dims n ≡ ok (c_dims (drop n s) e.size_of)
  leading n h =
      drop_leading-c_dims s e.size_of a.dims n e.size_of_small v.short h (HasShape-LaysOut v)

  -- After the loop: the dims of the axes that are left.
  with_dims :
      (xs : List ℤ) (r : Result (List ℕ))
      → length xs ≤ length s
      → ((is : List ℕ) → r ≡ ok is → length is ≡ length xs)
      → (do
        offset ← r >>= λ is. ok (0 + flat s is)
        dims ← Dims.drop_leading a.dims (length xs)
        let found : ℕ × Dims = (offset, dims)
        ok found)
        ≡ (r >>= λ is. ok (place e.size_of s is))
  with_dims xs (ok is) h same =
      rw (leading (length xs) h)
        (ap ok (λ i. (zero-add (flat s is) i, c_dims (drop (sym (same is refl) i) s) e.size_of)))
  with_dims xs (err e) h same = refl
  with_dims xs panic h same = refl

  -- `locate` refuses more indices than axes, refuses the first index that is outside its axis with
  -- the axis and its length, and gives the C-order offset and the dims of the other axes if there
  -- is none.
  pub locate_lem :
      (xs : List ℤ)
      → locate a xs ≡ (
          if leb (length xs) (length s)
          then (resolve 0 s xs >>= λ is. ok (place e.size_of s is))
          else err (too_many_indices (length xs) (length s)))
  unfolding locate
  locate_lem xs = elim (dec_le (length xs) (length s)) [
    | yes h ↦
        simp (ndim-HasShape, le→leb _ _ h, locate_loop_lem 0 0 s xs refl elements h)
          (with_dims xs (resolve 0 s xs) h (λ is found. (resolve-Inside 0 s xs is found).1))
    | no h ↦ simp (ndim-HasShape, lt→leb (length xs) (length s) (omega arith))
  ]
    where
      elements : map (λ n. n / e.size_of) (Dims.strides a.dims) ≡ c_strides s
      elements = LaysOut-elem_strides s e.size_of a.dims e.size_of_pos v.fits (HasShape-LaysOut v)
