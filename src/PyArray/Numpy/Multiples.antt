-- ===== src/PyArray/Numpy/Multiples.antt =====
-- Multiples of the element size among addresses and byte strides.
use native.Mathlib.Nat.{div-add-mod}
use lightarray.Prelude.{ℕ, suc, ◌*◌, ◌/◌, ◌%◌, ◌≡◌, sym, ap, ◌∙◌, arith, true}
use lightarray.Prelude.Int.{ℤ, pos, negsuc, ◌+ℤ◌, ◌-ℤ◌, ◌*ℤ◌, eq_of_parts, -ℤ_parts, int_laws}
use lightarray.Prelude.Int.Products.{*ℤ_parts, *ℤ_distrib_right, *ℤ_assoc}
use lightarray.PyArray.Numpy.{is_multiple}

abbrev pub Multiple : ℕ → ℤ → Type 0
Multiple z x = (k : ℤ) × (x ≡ k *ℤ pos z)

pub is_multiple-Multiple : (z : ℕ) (x : ℤ) → is_multiple z x ≡ true → Multiple z x
is_multiple-Multiple z (pos n) h =
    let whole : n % z ≡ 0 = ground arith in
    (
      pos (n / z),
      eq_of_parts _ _ (omega (arith, *ℤ_parts (pos (n / z)) (pos z), div-add-mod n z, whole)),
    )
is_multiple-Multiple z (negsuc n) h =
    let whole : suc n % z ≡ 0 = ground arith in
    let q = suc n / z in
    let minus = pos 0 -ℤ pos q in
    (
      minus,
      eq_of_parts _ _ (
          omega (
            arith,
            ap (λ t. t * z) (-ℤ_parts (pos 0) (pos q)),
            *ℤ_parts minus (pos z),
            div-add-mod (suc n) z,
            whole,
          )),
    )

pub Multiple-sum : (z : ℕ) (x y : ℤ) → Multiple z x → Multiple z y → Multiple z (x +ℤ y)
Multiple-sum z x y (k, p) (j, q) = (k +ℤ j, rw (p, q) (sym (*ℤ_distrib_right k j (pos z))))

pub Multiple-scaled : (z : ℕ) (i x : ℤ) → Multiple z x → Multiple z (i *ℤ x)
Multiple-scaled z i x (k, p) = (i *ℤ k, ap (λ t. i *ℤ t) p ∙ sym (*ℤ_assoc i k (pos z)))

-- From one address to another in whole elements.
pub Multiple-shift :
    (z : ℕ) (p q : ℤ) → Multiple z (p -ℤ q) → (r : ℤ) → Multiple z (q -ℤ r) → Multiple z (p -ℤ r)
Multiple-shift z p q a r b =
    let (k, e) = Multiple-sum z (p -ℤ q) (q -ℤ r) a b in (k, omega int_laws ∙ e)
