-- ===== src/Layout/Axes.antt =====
-- `reversed` and `insert_axis` of src/python.rs, and the addresses of positions.
use lightarray.Prelude.{
  ℕ, zero, suc, ◌<◌, ◌≡◌, refl, sym, ap, ◌∙◌, arith, List, [], ◌∷◌, ◌++◌, length, reverse,
  reverse_aux, min,
}
use lightarray.Prelude.Int.{ℤ, pos, ◌+ℤ◌, ◌*ℤ◌, int_laws}
use lightarray.Prelude.Int.Products.{*ℤ_parts}
use lightarray.Outcome.{ok, err, message, max_dims}
use lightarray.Dims.{max_ndim}
use lightarray.Layout.{Layout, insert_at, insert_axis, reversed}
use lightarray.Layout.Address.{address, address-shift, address_of}

-- The address of the indices of two groups of axes.
address-append :
    (ss ts : List ℤ) (is js : List ℕ) (ptr : ℤ)
    → length is ≡ length ss
    → address ptr (ss ++ ts) (is ++ js) ≡ address (address ptr ss is) ts js
address-append [] ts [] js ptr e = refl
address-append [] ts (i ∷ is) js ptr e = absurd (omega arith)
address-append (s ∷ ss) ts [] js ptr e = absurd (omega arith)
address-append (s ∷ ss) ts (i ∷ is) js ptr e =
    address-append ss ts is js (ptr +ℤ pos i *ℤ s) (omega arith)

address-reverse_aux :
    (ss acc : List ℤ) (is js : List ℕ) (ptr : ℤ)
    → length is ≡ length ss
    → address ptr (reverse_aux ss acc) (reverse_aux is js) ≡ address (address ptr ss is) acc js
address-reverse_aux [] acc [] js ptr e = refl
address-reverse_aux [] acc (i ∷ is) js ptr e = absurd (omega arith)
address-reverse_aux (s ∷ ss) acc [] js ptr e = absurd (omega arith)
address-reverse_aux (s ∷ ss) acc (i ∷ is) js ptr e =
    address-reverse_aux ss (s ∷ acc) is (i ∷ js) ptr (omega arith)
    ∙ ap (λ z. address z acc js) (sym (address-shift ptr (pos i *ℤ s) ss is))

pub address-insert_at :
    (n : ℕ) (ss : List ℤ) (ks : List ℕ) (ptr : ℤ)
    → length ks ≡ length ss
    → address ptr (insert_at ss n (pos 0)) (insert_at ks n 0) ≡ address ptr ss ks
address-insert_at zero ss ks ptr e =
    ap (λ z. address z ss ks) (omega (int_laws, *ℤ_parts (pos 0) (pos 0)))
address-insert_at (suc n) [] [] ptr e = omega (int_laws, *ℤ_parts (pos 0) (pos 0))
address-insert_at (suc n) [] (k ∷ ks) ptr e = absurd (omega arith)
address-insert_at (suc n) (s ∷ ss) [] ptr e = absurd (omega arith)
address-insert_at (suc n) (s ∷ ss) (k ∷ ks) ptr e =
    address-insert_at n ss ks (ptr +ℤ pos k *ℤ s) (omega arith)

-- Inserting an axis of length 1 adds an index 0 to each position and keeps its address.
pub insert_axis-address :
    (l : Layout) (at : ℕ) (ks : List ℕ)
    → length l.strides ≡ length l.shape
    → length ks ≡ length l.shape
    → (let n = min at (length l.shape) in
        length l.shape < max_ndim
        → (r : Layout) × (insert_axis l at ≡ ok r)
          × (r.shape ≡ insert_at l.shape n 1)
          × (address_of r (insert_at ks n 0) ≡ address_of l ks))
      × (length l.shape ≡ max_ndim → insert_axis l at ≡ err (message (max_dims max_ndim)))
unfolding insert_axis
insert_axis-address l at ks e f = (
  λ short.
      let n = min at (length l.shape) in
      (
        record l { shape = insert_at l.shape n 1; strides = insert_at l.strides n (pos 0) },
        ground arith,
        refl,
        address-insert_at n l.strides ks l.ptr (omega arith),
      ),
  λ full. ground arith,
)

-- The reversed layout has the address of a position at the reversed position.
pub reversed-address :
    (l : Layout) (ks : List ℕ)
    → length ks ≡ length l.strides
    → address_of (reversed l) (reverse ks) ≡ address_of l ks
unfolding reversed
reversed-address l ks e = address-reverse_aux l.strides [] ks [] l.ptr e
