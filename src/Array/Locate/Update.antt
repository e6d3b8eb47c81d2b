-- ===== src/Array/Locate/Update.antt =====
-- Reading and writing at integer indices: `index`, `get` and `set` of src/array.rs.
use lightarray.Prelude.{ℕ, ◌≤◌, ◌<◌, ◌≡◌, ◌≢◌, refl, sym, ap, ◌∙◌, arith, List, ◌++◌, none, some}
use lightarray.Prelude.{length, drop, take, product, get_elem?, set as set_elem}
use lightarray.Prelude.{
  le→leb, length-drop, length-take, length-set, get_elem?-drop, get_elem?-take,
}
use lightarray.Prelude.{get_elem?-lt, get_elem?-set_self, get_elem?-set_ne, lt→ltb}
use lightarray.Prelude.Int.{ℤ}
use lightarray.Outcome.{ok, err, slice-le, IsSafe, ArrayError}
use lightarray.Outcome.{too_many_indices, message, set_with_sequence}
use lightarray.Prelude.{◌⊎◌, inl, inr, lt→leb}
use native.Mathlib.Decide.{dec_le, dec_lt}
use lightarray.Dims
use lightarray.Dims.Strides.{c_dims, c_dims-LaysOut, LaysOut-size, Fits-drop}
use lightarray.Array.{Element, Array, ndim}
use lightarray.Array.Valid.{HasShape}
use lightarray.Array.Locate.{locate, index, get, set}
use lightarray.Array.Locate.Order.{
  resolve, resolve-Inside, resolve_cases, flat, flat-Inside, flat-lt, flat-append, flat_inj, Inside,
}
use lightarray.Array.Locate.Access.{place, locate_lem}

module _ {ℓ} {A : Type ℓ} ⦃e : Element A⦄ {s : List ℕ} {a : Array A} (v : HasShape s a) where
  pub located :
      (xs : List ℤ) (is : List ℕ)
      → length xs ≤ length s
      → resolve 0 s xs ≡ ok is
      → locate a xs ≡ ok (place e.size_of s is)
  located xs is h found = locate_lem v xs ∙ rw (le→leb _ _ h, found) refl

  pub sub_size : (n : ℕ) → Dims.size (c_dims (drop n s) e.size_of) ≡ product (drop n s)
  sub_size n =
      LaysOut-size (drop n s) e.size_of (c_dims (drop n s) e.size_of) e.size_of_pos
        (Fits-drop e.size_of n s v.fits) (c_dims-LaysOut (drop n s) e.size_of e.size_of_small)

  -- Indices inside the leading axes of an array give the sub-array at that position: an array of
  -- the other axes that holds, at each position, what the array holds at the joined position.
  pub index-reads :
      (xs : List ℤ) (is : List ℕ)
      → length xs ≤ length s
      → resolve 0 s xs ≡ ok is
      → (b : Array A) × (index a xs ≡ ok b)
        × HasShape (drop (length xs) s) b
        × ((js : List ℕ)
            → Inside (drop (length xs) s) js
            → length js ≡ length (drop (length xs) s)
            → get_elem? b.buffer (flat (drop (length xs) s) js)
              ≡ get_elem? a.buffer (flat s (is ++ js)))
  unfolding index
  index-reads xs is h found =
      let (inside, same) = resolve-Inside 0 s xs is found in
      let n = product (drop (length is) s) in
      let part = take n (drop (flat s is) a.buffer) in
      let room = flat-Inside s is inside in
      (
        record { buffer = part; dims = c_dims (drop (length is) s) e.size_of },
        rw (located xs is h found) (
            rw (sub_size (length is))
              (rw (slice-le a.buffer (flat s is) n (omega (arith, v.full))) refl)),
        rw (← same) (record {
          short = omega (arith, length-drop (length is) s, v.short);
          fits = Fits-drop e.size_of (length is) s v.fits;
          dims = refl;
          full =
              length-take n (drop (flat s is) a.buffer)
              ∙ omega (arith, length-drop (flat s is) a.buffer, v.full);
        }),
        λ js ij full.
            let there : flat (drop (length xs) s) js < n = rw same (flat-lt _ js ij full) in
            get_elem?-take n (drop (flat s is) a.buffer) (flat (drop (length xs) s) js) there
            ∙ get_elem?-drop (flat s is) a.buffer (flat (drop (length xs) s) js)
            ∙ ap (get_elem? a.buffer) (rw (← same) (sym (flat-append s is js (omega arith)))),
      )

  -- With an index for each axis, `get` returns the element at the position.
  pub get_lem :
      (xs : List ℤ) (is : List ℕ)
      → length xs ≡ length s
      → resolve 0 s xs ≡ ok is
      → (x : A) × (get a xs ≡ ok (some x)) × (get_elem? a.buffer (flat s is) ≡ some x)
  unfolding get
  get_lem xs is h found =
      let (inside, same) = resolve-Inside 0 s xs is found in
      let (x, here) =
        get_elem?-lt a.buffer (flat s is) (rw v.full (flat-lt s is inside (same ∙ h))) in
      (x, rw (located xs is (omega arith) found) (rw (no_axes is (same ∙ h), here) refl), here)
    where
      no_axes : (is : List ℕ) → length is ≡ length s → length (drop (length is) s) ≡ 0
      no_axes is q = omega (arith, length-drop (length is) s)

  -- With fewer indices than axes there is no scalar.
  pub get-partial :
      (xs : List ℤ) (is : List ℕ)
      → length xs < length s
      → resolve 0 s xs ≡ ok is
      → get a xs ≡ ok none
  unfolding get
  get-partial xs is h found =
      let (inside, same) = resolve-Inside 0 s xs is found in
      let more : 0 < length (drop (length is) s) = omega (arith, length-drop (length is) s) in
      rw (located xs is (omega arith) found) (ground arith)

  -- What `set` does with an index for each axis.
  pub set_lem :
      (xs : List ℤ) (is : List ℕ) (x : A)
      → length xs ≡ length s
      → resolve 0 s xs ≡ ok is
      → set a xs x ≡ ok (record a { buffer = set_elem a.buffer (flat s is) x })
  unfolding set
  set_lem xs is x h found =
      let (inside, same) = resolve-Inside 0 s xs is found in
      let none_left : length (drop (length is) s) ≡ 0 = omega (arith, length-drop (length is) s) in
      let room : flat s is < length a.buffer = rw v.full (flat-lt s is inside (same ∙ h)) in
      rw (located xs is (omega arith) found) (rw (none_left, lt→ltb _ _ room) refl)

-- A write at indices inside an array succeeds and keeps its shape; reading back at those indices
-- gives the value, and reading at indices of any other position gives what it gave before.
pub get-set {ℓ} :
    {A : Type ℓ} ⦃e : Element A⦄ {s : List ℕ} {a : Array A} (v : HasShape s a) (xs : List ℤ)
    (is : List ℕ) (x : A)
    → length xs ≡ length s
    → resolve 0 s xs ≡ ok is
    → (b : Array A) × (set a xs x ≡ ok b)
      × HasShape s b
      × (get b xs ≡ ok (some x))
      × ((ys : List ℤ) (js : List ℕ)
          → length ys ≡ length s
          → resolve 0 s ys ≡ ok js
          → is ≢ js
          → get b ys ≡ get a ys)
get-set {A} {s} {a} v xs is x h found = (b, set_lem v xs is x h found, w, self, others)
  where
    b : Array A
    b = record a { buffer = set_elem a.buffer (flat s is) x }

    w : HasShape s b
    w = record {
      short = v.short;
      fits = v.fits;
      dims = v.dims;
      full = length-set a.buffer (flat s is) x ∙ v.full;
    }

    p : Inside s is × (length is ≡ length xs)
    p = resolve-Inside 0 s xs is found

    self : get b xs ≡ ok (some x)
    self =
        let (y, read, here) = get_lem w xs is h found in
        let room : flat s is < length a.buffer = rw v.full (flat-lt s is p.0 (p.1 ∙ h)) in
        read ∙ ground (arith, here, get_elem?-set_self a.buffer (flat s is) x room)

    others :
        (ys : List ℤ) (js : List ℕ)
        → length ys ≡ length s
        → resolve 0 s ys ≡ ok js
        → is ≢ js
        → get b ys ≡ get a ys
    others ys js k there ne =
        let (y, read, here) = get_lem w ys js k there in
        let (z, read', here') = get_lem v ys js k there in
        let q = resolve-Inside 0 s ys js there in
        let apart =
          λ (e : flat s is ≡ flat s js). ne (flat_inj s is js p.0 q.0 (p.1 ∙ h) (q.1 ∙ k) e) in
        read
        ∙ ap ok (sym here ∙ get_elem?-set_ne a.buffer (flat s is) (flat s js) x apart ∙ here')
        ∙ sym read'

module _ {ℓ} {A : Type ℓ} ⦃e : Element A⦄ {s : List ℕ} {a : Array A} (v : HasShape s a) where
  -- Indices are resolved, or `locate` refuses them.
  locate_cases :
      (xs : List ℤ)
      → ((is : List ℕ) × (length xs ≤ length s) × (resolve 0 s xs ≡ ok is))
        ⊎ ((why : ArrayError) × (locate a xs ≡ err why))
  locate_cases xs = elim (dec_le (length xs) (length s)) [
    | yes h ↦ elim (resolve_cases 0 s xs h) [
      | inl (is, found) ↦ inl (is, h, found)
      | inr (why, bad) ↦ inr (why, locate_lem v xs ∙ rw (le→leb _ _ h, bad) refl)
    ]
    | no h ↦ inr (
      too_many_indices (length xs) (length s),
      locate_lem v xs ∙ rw (lt→leb (length xs) (length s) (omega arith)) refl,
    )
  ]

  set-partial :
      (xs : List ℤ) (is : List ℕ) (x : A)
      → length xs < length s
      → resolve 0 s xs ≡ ok is
      → set a xs x ≡ err (message (set_with_sequence (length xs) (ndim a)))
  unfolding set
  set-partial xs is x h found =
      let (inside, same) = resolve-Inside 0 s xs is found in
      let more : 0 < length (drop (length is) s) = omega (arith, length-drop (length is) s) in
      rw (located v xs is (omega arith) found) (ground arith)

  refused :
      (xs : List ℤ) (x : A) (why : ArrayError)
      → locate a xs ≡ err why
      → IsSafe (index a xs) × IsSafe (get a xs) × IsSafe (set a xs x)
  unfolding index get set
  refused xs x why bad = (rw bad tt, rw bad tt, rw bad tt)

  -- On an array of C-order dims over a buffer with an element for each position, whose shape has at
  -- most 8 axes and fits, none of `index`, `get` and `set` panics, whatever the indices are.
  pub access-IsSafe :
      (xs : List ℤ) (x : A) → IsSafe (index a xs) × IsSafe (get a xs) × IsSafe (set a xs x)
  access-IsSafe xs x = elim (locate_cases xs) [
    | inl (is, h, found) ↦ elim (dec_lt (length xs) (length s)) [
      | yes lt ↦ (
        rw ((index-reads v xs is h found).1) tt,
        rw (get-partial v xs is lt found) tt,
        rw (set-partial xs is x lt found) tt,
      )
      | no ge ↦
          let full : length xs ≡ length s = omega arith in
          (
            rw ((index-reads v xs is h found).1) tt,
            rw ((get_lem v xs is full found).1) tt,
            rw (set_lem v xs is x full found) tt,
          )
    ]
    | inr (why, bad) ↦ refused xs x why bad
  ]
