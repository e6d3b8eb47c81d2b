-- ===== src/PyArray/Elements.antt =====
-- `index_result` of src/python.rs on an index for each axis.
use lightarray.Prelude.{
  ℕ, ◌≡◌, refl, sym, ap, ◌∙◌, arith, List, some, none, Option-cases, inl, inr, length, get_elem?,
  le→leb,
}
use lightarray.Prelude.Int.{ℤ}
use lightarray.Outcome.{ok, err, ArrayError, ok-injective, ◌>>=◌}
use lightarray.Array.{Element, shape}
use lightarray.Array.Valid.{shape-HasShape}
use lightarray.Array.Locate.{get}
use lightarray.Array.Locate.Order.{flat, resolve, resolve-Inside}
use lightarray.Array.Locate.Access.{locate_lem}
use lightarray.Array.Locate.Update.{get_lem}
use lightarray.Layout.Address.{address_of}
use lightarray.Memory.{Memory}
use lightarray.PyArray.{
  Strided, PyArray, Fresh, element, layout_of, arr, strided_element, index_result, element_at,
  refresh_from, index_part, layout_from,
}
use lightarray.PyArray.Strides.{strided_element-resolve}
use lightarray.PyArray.Sharing.{Shares}

some-injective {ℓ} : {A : Type ℓ} {x y : A} → some x ≡ some y → x ≡ y
some-injective e = cc

pub loaded_already {ℓ} :
    {A : Type ℓ} (mem : Memory A) (v : PyArray A) → v.strided ≡ none → arr mem v ≡ ok v
unfolding arr
loaded_already mem v n = ap (refresh_from mem v) n

module _ {A : Type 0} ⦃e : Element A⦄ {mem : Memory A} {a v : PyArray A} {s out : List ℕ}
    {src : List ℕ → List ℕ} (sh : Shares mem a s src out v) (idx : List ℤ)
    (full : length idx ≡ length out) where
  pub strided-element :
      (t : Strided)
      → v.strided ≡ some t
      → strided_element v idx
        ≡ (resolve 0 out idx >>= λ ks. ok (some (address_of (layout_of v) ks)))
  unfolding layout_of
  strided-element t n =
      let same = shape-HasShape sh.valid in
      let here = ap (layout_from v) n in
      let axes : length t.strides ≡ length (shape v.inner) =
        ap (λ l. length l.strides) (sym here) ∙ sh.axes ∙ ap length (sym same) in
      (strided_element-resolve v t idx n axes).0 (full ∙ ap length (sym same))
      ∙ ap (λ u. resolve 0 u idx >>= λ ks. ok (some (address_of (layout_from v (some t)) ks))) same
      ∙ ap (λ l. resolve 0 out idx >>= λ ks. ok (some (address_of l ks))) (sym here)

  pub not_strided : v.strided ≡ none → strided_element v idx ≡ ok none
  unfolding strided_element
  not_strided n = ap (element_at v idx) n

  get_error : (why : ArrayError) → resolve 0 out idx ≡ err why → get v.inner idx ≡ err why
  unfolding get
  get_error why found =
      rw (locate_lem sh.valid idx, le→leb (length idx) (length out) (omega (arith, full)), found)
        refl

  -- Indices that name a position give the element that memory holds for the source.
  pub index_result-element :
      (new : Fresh) (ks : List ℕ)
      → resolve 0 out idx ≡ ok ks
      → index_result mem new v idx ≡ ok (element (mem (address_of (layout_of a) (src ks))))
  unfolding index_result
  index_result-element new ks found =
      let (inside, size) = resolve-Inside 0 out idx ks found in
      let whole = size ∙ full in
      elim (Option-cases v.strided) [
        | inl n ↦
            let (x, got, held) = get_lem sh.valid idx ks full found in
            let (w, run, reads) = sh.loaded in
            let same : w ≡ v = ok-injective (sym run ∙ loaded_already mem v n) in
            let value : x ≡ mem (address_of (layout_of a) (src ks)) = some-injective (
              sym held
              ∙ ap (λ u. get_elem? u.inner.buffer (flat out ks)) (sym same)
              ∙ reads ks inside whole) in
            rw (not_strided n)
              (ap (index_part mem new v idx) n ∙ rw got (ap (λ y. ok (element y)) value))
        | inr (t, n) ↦
            rw (strided-element t n, found)
              (ap (λ b. ok (element (mem b))) (sh.located ks inside whole).2)
      ]

  -- An index outside is refused, with the error of the first.
  pub index_result-error :
      (new : Fresh) (why : ArrayError)
      → resolve 0 out idx ≡ err why
      → index_result mem new v idx ≡ err why
  unfolding index_result
  index_result-error new why found = elim (Option-cases v.strided) [
    | inl n ↦ rw (not_strided n) (ap (index_part mem new v idx) n ∙ rw (get_error why found) refl)
    | inr (t, n) ↦ rw (strided-element t n, found) refl
  ]
