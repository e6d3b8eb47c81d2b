-- ===== src/PyArray/Assign/Items.antt =====
-- `__setitem__` of src/python.rs on a key with an integer for each axis.
use lightarray.Prelude.{
  ℕ, suc, ◌*◌, ◌≡◌, ◌≢◌, refl, sym, ap, ◌∙◌, arith, List, [], ◌∷◌, some, none, Option-cases,
  Bool-cases, inl, inr, length, le→leb, get_elem?, lt-get_elem?, set as set_elem, ◌==◌,
  if◌then◌else◌,
}
use lightarray.Prelude.Int.{ℤ, pos, ◌+ℤ◌}
use lightarray.Outcome.{ok, err, ArrayError, ok-injective, ◌>>=◌}
use lightarray.Array.{Element}
use lightarray.Array.Valid.{shape-HasShape}
use lightarray.Array.Locate.{set}
use lightarray.Array.Locate.Order.{flat, flat-lt, flat_surj, resolve, resolve-Inside}
use lightarray.Array.Locate.Access.{locate_lem}
use lightarray.Array.Locate.Update.{set_lem}
use lightarray.Layout.Address.{address_of}
use lightarray.Memory.{Memory, write}
use lightarray.PyArray.{PyArray, layout_of, commit, strided_element}
use lightarray.PyArray.Views.{owned-address}
use lightarray.PyArray.Sharing.{Shares}
use lightarray.PyArray.Elements.{strided-element, not_strided, loaded_already}
use lightarray.PyArray.Keys.{
  Item, new_axis, integer, slice_item, other_item, Key, item, tuple, ellipsis, listed, index_array,
  mask, other_key, prepend_to, all_integers,
}
use lightarray.PyArray.Assign.{Written, written, full_index, put, update, set_item, set_element}
use lightarray.PyArray.Assign.Windows.{Backs, put-set}

some-injective {ℓ} : {A : Type ℓ} {x y : A} → some x ≡ some y → x ≡ y
some-injective e = cc

none-ne-some {ℓ} : {A : Type ℓ} {x : A} → none ≢ some x
none-ne-some e = cc

length-all_integers :
    (items : List Item) (idx : List ℤ) → all_integers items ≡ some idx → length idx ≡ length items
length-all_integers [] idx h = ap length (some-injective (sym h))
length-all_integers (integer i ∷ items) idx h = elim (Option-cases (all_integers items)) [
  | inl e ↦ absurd (none-ne-some (sym (ap (λ o. prepend_to o i) e) ∙ h))
  | inr (rest, e) ↦
      let same = some-injective (sym (ap (λ o. prepend_to o i) e) ∙ h) in
      ap length (sym same) ∙ ap suc (length-all_integers items rest e)
]
length-all_integers (new_axis ∷ items) idx h = cc
length-all_integers (slice_item f ∷ items) idx h = cc
length-all_integers (other_item ∷ items) idx h = cc

length-full_index :
    (n : ℕ) (key : Key) (idx : List ℤ) → full_index n key ≡ some idx → length idx ≡ n
length-full_index n (item (integer i)) idx h = elim (Bool-cases (n == 1)) [
  | inl e ↦
      let same = some-injective (sym (ap (λ t. if t then some (i ∷ []) else none) e) ∙ h) in
      ap length (sym same) ∙ ground arith
  | inr e ↦ absurd (none-ne-some (sym (ap (λ t. if t then some (i ∷ []) else none) e) ∙ h))
]
length-full_index n (tuple items) idx h = elim (Bool-cases (length items == n)) [
  | inl e ↦
      let same = sym (ap (λ t. if t then all_integers items else none) e) ∙ h in
      length-all_integers items idx same ∙ ground arith
  | inr e ↦ absurd (none-ne-some (sym (ap (λ t. if t then all_integers items else none) e) ∙ h))
]
length-full_index n (item new_axis) idx h = cc
length-full_index n (item (slice_item f)) idx h = cc
length-full_index n (item other_item) idx h = cc
length-full_index n ellipsis idx h = cc
length-full_index n (listed l) idx h = cc
length-full_index n (index_array l) idx h = cc
length-full_index n (mask l t i) idx h = cc
length-full_index n (other_key i) idx h = cc

module _ {A : Type 0} ⦃e : Element A⦄ {mem : Memory A} {a v : PyArray A} {s out : List ℕ}
    {src : List ℕ → List ℕ} (sh : Shares mem a s src out v) where
  -- The buffer of an array that is not strided is its window of memory.
  owned-Backs : v.strided ≡ none → Backs mem v.data_ptr e.size_of v.inner.buffer
  owned-Backs n i y held =
      let room = lt-get_elem? v.inner.buffer i y held in
      let (ks, inside, full, at) = flat_surj out i (omega (arith, room, sh.valid.full)) in
      let (w, run, reads) = sh.loaded in
      let same : w ≡ v = ok-injective (sym run ∙ loaded_already mem v n) in
      some-injective (
        sym held
        ∙ ap (get_elem? v.inner.buffer) (sym at)
        ∙ ap (λ u. get_elem? u.inner.buffer (flat out ks)) (sym same)
        ∙ reads ks inside full)
      ∙ ap mem (
          sym (sh.located ks inside full).2
          ∙ owned-address v out ks sh.valid n inside full
          ∙ ap (λ j. v.data_ptr +ℤ pos (e.size_of * j)) at)

  abbrev after_set : List ℕ → A → Written A
  after_set ks x =
      let buffer = set_elem v.inner.buffer (flat out ks) x in
      record {
        memory = put mem v.data_ptr e.size_of buffer;
        target = record v { inner = record v.inner { buffer = buffer } };
      }

  set_owned :
      (idx : List ℤ) (ks : List ℕ) (x : A)
      → v.strided ≡ none
      → length idx ≡ length out
      → resolve 0 out idx ≡ ok ks
      → update mem v (λ w. set w idx x) ≡ ok (after_set ks x)
  unfolding update commit
  set_owned idx ks x n full found =
      rw (loaded_already mem v n, set_lem sh.valid idx ks x full found, n) refl

  module _ (key : Key) (idx : List ℤ) (chosen : full_index (length out) key ≡ some idx) where
    full : length idx ≡ length out
    full = length-full_index (length out) key idx chosen

    at_index :
        (x : A)
        → set_item mem v key (some x) ≡ (strided_element v idx >>= set_element mem v idx (some x))
    unfolding set_item
    at_index x = let same = shape-HasShape sh.valid in rw (same, chosen) refl

    -- Assigning to an element of an array that shares elements of another writes one element of
    -- memory, the source of the position that the integers name. The array stays where it was.
    pub set_item-writes :
        (x : A) (ks : List ℕ)
        → resolve 0 out idx ≡ ok ks
        → (r : Written A) × (set_item mem v key (some x) ≡ ok (written r))
          × (layout_of r.target ≡ layout_of v)
          × ((b : ℤ) → r.memory b ≡ write mem (address_of (layout_of a) (src ks)) x b)
    unfolding layout_of
    set_item-writes x ks found =
        let (inside, size) = resolve-Inside 0 out idx ks found in
        let whole = size ∙ full in
        let (there, deep, same) = sh.located ks inside whole in
        elim (Option-cases v.strided) [
          | inl n ↦ (
            after_set ks x,
            at_index x ∙ rw (not_strided sh idx full n, set_owned idx ks x n full found) refl,
            simp (n) refl,
            λ b.
                put-set mem e.size_of v.inner.buffer v.data_ptr (flat out ks) x b e.size_of_pos
                  (omega (arith, sh.valid.full, flat-lt out ks inside whole)) (owned-Backs n)
                ∙ ap (λ p. write mem p x b)
                    (sym (owned-address v out ks sh.valid n inside whole) ∙ same),
          )
          | inr (t, n) ↦ (
            record { memory = write mem (address_of (layout_of v) ks) x; target = v },
            at_index x ∙ rw (strided-element sh idx full t n, found) refl,
            refl,
            λ b. ap (λ p. write mem p x b) same,
          )
        ]

    set_refused :
        v.strided ≡ none
        → (x : A) (why : ArrayError) → resolve 0 out idx ≡ err why
        → update mem v (λ w. set w idx x) ≡ err why
    unfolding update set
    set_refused n x why found =
        rw
          (
            loaded_already mem v n,
            locate_lem sh.valid idx,
            le→leb (length idx) (length out) (omega (arith, full)),
            found,
          )
          refl

    -- An index outside is refused, with the error of the first.
    set_item-error :
        (x : A) (why : ArrayError)
        → resolve 0 out idx ≡ err why
        → set_item mem v key (some x) ≡ err why
    set_item-error x why found = elim (Option-cases v.strided) [
      | inl n ↦ at_index x ∙ rw (not_strided sh idx full n, set_refused n x why found) refl
      | inr (t, n) ↦ at_index x ∙ rw (strided-element sh idx full t n, found) refl
    ]
