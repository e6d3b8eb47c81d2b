-- ===== src/Layout/Turned.antt =====
-- The reversed layout of src/python.rs selects the reversed positions.
use lightarray.Prelude.{
  ℕ, ◌+◌, ◌*◌, ◌≡◌, refl, sym, ap, ◌∙◌, arith, List, [], ◌∷◌, ◌++◌, length, reverse, reverse_aux,
  product,
}
use lightarray.Array.Locate.Order.{Inside}
use lightarray.Layout.{Layout, reversed}
use lightarray.Layout.Address.{address, Selects}
use lightarray.Layout.Axes.{reversed-address}

length-reverse_aux {ℓ} :
    {A : Type ℓ} (xs ys : List A) → length (reverse_aux xs ys) ≡ length xs + length ys
length-reverse_aux [] ys = omega arith
length-reverse_aux (x ∷ xs) ys = length-reverse_aux xs (x ∷ ys) ∙ omega arith

pub length-reverse {ℓ} : {A : Type ℓ} (xs : List A) → length (reverse xs) ≡ length xs
length-reverse xs = length-reverse_aux xs [] ∙ omega arith

pub product-reverse_aux : (xs ys : List ℕ) → product (reverse_aux xs ys) ≡ product xs * product ys
product-reverse_aux [] ys = omega arith
product-reverse_aux (x ∷ xs) ys = product-reverse_aux xs (x ∷ ys) ∙ grind arith

Inside-reverse_aux :
    (s t is js : List ℕ)
    → Inside s is
    → length is ≡ length s
    → Inside t js
    → Inside (reverse_aux s t) (reverse_aux is js)
Inside-reverse_aux [] t [] js h e k = k
Inside-reverse_aux [] t (i ∷ is) js h e k = absurd h
Inside-reverse_aux (d ∷ s) t [] js h e k = absurd (omega arith)
Inside-reverse_aux (d ∷ s) t (i ∷ is) js h e k =
    Inside-reverse_aux s (d ∷ t) is (i ∷ js) h.1 (omega arith) (h.0, k)

reverse_aux-reverse_aux :
    (xs ys zs : List ℕ) → reverse_aux (reverse_aux xs ys) zs ≡ reverse_aux ys (xs ++ zs)
reverse_aux-reverse_aux [] ys zs = refl
reverse_aux-reverse_aux (x ∷ xs) ys zs = reverse_aux-reverse_aux xs (x ∷ ys) zs

append_nil : (xs : List ℕ) → xs ++ [] ≡ xs
append_nil [] = refl
append_nil (x ∷ xs) = ap (λ t. x ∷ t) (append_nil xs)

reverse-reverse : (xs : List ℕ) → reverse (reverse xs) ≡ xs
reverse-reverse xs = reverse_aux-reverse_aux xs [] [] ∙ append_nil xs

-- The reversed layout reads the reversed positions.
pub reversed-Selects :
    (l : Layout) (s : List ℕ)
    → l.shape ≡ s
    → length l.strides ≡ length s
    → Selects l.ptr s l.strides reverse (reverse s) (reversed l)
unfolding reversed
reversed-Selects l s same axes = record {
  shape = ap reverse same;
  full = length-reverse l.strides ∙ axes ∙ sym (length-reverse s);
  reads = λ ks h f.
      let count : length (reverse ks) ≡ length s = length-reverse ks ∙ f ∙ length-reverse s in
      let back = Inside-reverse_aux (reverse s) [] ks [] h f tt in
      (
        rw (← reverse-reverse s) back,
        count,
        ap (address l.ptr (reverse l.strides)) (sym (reverse-reverse ks))
            ∙ reversed-address l (reverse ks) (count ∙ sym axes),
      );
}
