-- ===== src/PyArray/Keys/Tuples.antt =====
-- What a tuple of integers, slices and `None` selects in `__getitem__` of src/python.rs.
use lightarray.Prelude.{
  ℕ, ◌+◌, ◌≡◌, refl, ap, ◌∙◌, List, [], ◌∷◌, Bool, true, false, some, if◌then◌else◌, get_elem?,
}
use lightarray.Prelude.Int.{ℤ}
use lightarray.Array.{Element, shape}
use lightarray.Array.Select.{Selector, int, slice}
use lightarray.Memory.{Memory}
use lightarray.PyArray.{PyArray, Fresh}
use lightarray.PyArray.Keys.{
  Item, new_axis, integer, slice_item, other_item, tuple, parsed, push_axis, push_integer,
  push_axis_slice, tuple_loop, by_index, by_selectors, by_tuple, get_item,
}

abbrev pub integers : List Item → List ℤ
integers [] = []
integers (integer i ∷ items) = i ∷ integers items
integers (_ ∷ items) = integers items

abbrev pub are_integers : List Item → Bool
are_integers [] = true
are_integers (integer i ∷ items) = are_integers items
are_integers (_ ∷ items) = false

-- The items that take an axis of the array.
abbrev pub sources : List Item → List Item
sources [] = []
sources (new_axis ∷ items) = sources items
sources (x ∷ items) = x ∷ sources items

-- The items that give an axis of the result.
abbrev pub outputs : List Item → List Item
outputs [] = []
outputs (integer i ∷ items) = outputs items
outputs (x ∷ items) = x ∷ outputs items

-- Where `None` stands, from place `k` on.
abbrev pub places_of_new : ℕ → List Item → List ℕ
places_of_new k [] = []
places_of_new k (new_axis ∷ items) = k ∷ places_of_new (k + 1) items
places_of_new k (_ ∷ items) = places_of_new (k + 1) items

-- The selectors of items, the first of which takes the axis `axis` of the shape `s`: a slice is
-- resolved against the length of its axis.
abbrev pub AreSelectorsOf : List ℕ → ℕ → List Item → List Selector → Type 0
AreSelectorsOf s axis [] [] = Unit {0}
AreSelectorsOf s axis (integer i ∷ items) (int j ∷ sels) =
    (i ≡ j) × AreSelectorsOf s (axis + 1) items sels
AreSelectorsOf s axis (slice_item f ∷ items) (slice start stop step ∷ sels) =
    ((len : ℕ) × (get_elem? s axis ≡ some len) × (f len ≡ some (start, stop, step)))
    × AreSelectorsOf s (axis + 1) items sels
AreSelectorsOf s axis _ _ = ⊥

-- The loop collects the integers, the selectors and the places of `None` among the outputs.
tuple_loop_lem :
    (s : List ℕ) (axis out : ℕ) (items : List Item) (sels : List Selector)
    → AreSelectorsOf s axis (sources items) sels
    → tuple_loop s axis out items
      ≡ parsed (integers items) sels (places_of_new out (outputs items)) (are_integers items)
unfolding tuple_loop
tuple_loop_lem s axis out [] [] h = refl
tuple_loop_lem s axis out [] (x ∷ sels) h = absurd h
tuple_loop_lem s axis out (new_axis ∷ items) sels h =
    ap (push_axis out) (tuple_loop_lem s axis (out + 1) items sels h)
tuple_loop_lem s axis out (integer i ∷ items) [] h = absurd h
tuple_loop_lem s axis out (integer i ∷ items) (slice start stop step ∷ sels) h = absurd h
tuple_loop_lem s axis out (integer i ∷ items) (int j ∷ sels) (same, h) =
    ap (push_integer i) (tuple_loop_lem s (axis + 1) out items sels h)
    ∙ ap
        (λ k.
          parsed (i ∷ integers items) (int k ∷ sels) (places_of_new out (outputs items))
            (are_integers items))
        same
tuple_loop_lem s axis out (slice_item f ∷ items) [] h = absurd h
tuple_loop_lem s axis out (slice_item f ∷ items) (int j ∷ sels) h = absurd h
tuple_loop_lem s axis out (slice_item f ∷ items) (slice start stop step ∷ sels)
      ((len, here, resolved), h) =
    ap (push_axis_slice f (get_elem? s axis)) (tuple_loop_lem s (axis + 1) (out + 1) items sels h)
    ∙ rw (here, resolved) refl
tuple_loop_lem s axis out (other_item ∷ items) [] h = absurd h
tuple_loop_lem s axis out (other_item ∷ items) (x ∷ sels) h = absurd h

module _ {A : Type 0} ⦃e : Element A⦄ (mem : Memory A) (new : Fresh) (a : PyArray A) where
  by_tuple_lem :
      (ints : List ℤ) (sels : List Selector) (places : List ℕ) (all : Bool)
      → by_tuple mem new a (parsed ints sels places all)
        ≡ (if all then by_index mem new a ints else by_selectors mem new a sels places)
  by_tuple_lem ints sels places true = refl
  by_tuple_lem ints sels places false = refl

  -- What `__getitem__` calls on a tuple.
  pub get_item-run :
      (items : List Item) (sels : List Selector)
      → AreSelectorsOf (shape a.inner) 0 (sources items) sels
      → get_item mem new a (tuple items) ≡ (
          if are_integers items
          then by_index mem new a (integers items)
          else by_selectors mem new a sels (places_of_new 0 (outputs items)))
  unfolding get_item
  get_item-run items sels h =
      ap (by_tuple mem new a) (tuple_loop_lem (shape a.inner) 0 0 items sels h)
      ∙ by_tuple_lem (integers items) sels (places_of_new 0 (outputs items)) (are_integers items)
