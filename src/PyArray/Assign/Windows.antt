-- ===== src/PyArray/Assign/Windows.antt =====
-- The buffer of an array of src/python.rs as a window of memory.
use lightarray.Prelude.{
  ℕ, zero, suc, ◌*◌, ◌<◌, ◌≡◌, ◌≢◌, refl, sym, ap, ◌∙◌, arith, List, [], ◌∷◌, some, Bool-cases, inl,
  inr, length, get_elem?, set,
}
use lightarray.Prelude.Int.{ℤ, pos, ◌+ℤ◌, pos_part, neg_part, int_laws}
use lightarray.Layout.{eq_ℤ}
use lightarray.Layout.Compact.{eq_ℤ-true}
use lightarray.Memory.{Memory, write}
use lightarray.Memory.Loops.{write-other}
use lightarray.PyArray.Assign.{put}

-- The list is what memory holds.
abbrev pub Backs {ℓ} : {A : Type ℓ} → Memory A → ℤ → ℕ → List A → Type ℓ
Backs {A} mem ptr z xs = (i : ℕ) (y : A) → get_elem? xs i ≡ some y → y ≡ mem (ptr +ℤ pos (z * i))

later : (ptr : ℤ) (z i : ℕ) → ptr +ℤ pos (z * suc i) ≡ ptr +ℤ pos z +ℤ pos (z * i)
later ptr z i = omega int_laws

module _ {ℓ} {A : Type ℓ} (mem : Memory A) (z : ℕ) where
  tail-Backs :
      (y : A) (ys : List A) (ptr : ℤ) → Backs mem ptr z (y ∷ ys) → Backs mem (ptr +ℤ pos z) z ys
  tail-Backs y ys ptr h i x e = h (suc i) x e ∙ ap mem (later ptr z i)

  head-Backs : (y : A) (ys : List A) (ptr : ℤ) → Backs mem ptr z (y ∷ ys) → y ≡ mem ptr
  head-Backs y ys ptr h = h 0 y refl ∙ ap mem (omega int_laws)

  -- Writing what memory holds changes nothing.
  write_same :
      (other : Memory A) (p : ℤ) (y : A) (b : ℤ) → y ≡ other p → write other p y b ≡ other b
  write_same other p y b e = elim (Bool-cases (eq_ℤ b p)) [
    | inl here ↦ rw here (e ∙ ap other (sym ((eq_ℤ-true b p).0 here)))
    | inr there ↦ rw there refl
  ]

  put_same : (xs : List A) (ptr b : ℤ) → Backs mem ptr z xs → put mem ptr z xs b ≡ mem b
  put_same [] ptr b h = refl
  put_same (y ∷ ys) ptr b h =
      let rest = put_same ys (ptr +ℤ pos z) ptr (tail-Backs y ys ptr h) in
      write_same (put mem (ptr +ℤ pos z) z ys) ptr y b (head-Backs y ys ptr h ∙ sym rest)
      ∙ put_same ys (ptr +ℤ pos z) b (tail-Backs y ys ptr h)

  same_place :
      (other : Memory A) (p q : ℤ) (x : A) (b : ℤ)
      → p ≡ q
      → other b ≡ mem b
      → write other p x b ≡ write mem q x b
  same_place other p q x b e h = elim (Bool-cases (eq_ℤ b p)) [
    | inl here ↦ rw (← e, here) refl
    | inr there ↦ rw (← e, there) h
  ]

  -- Putting back a list of which one element has changed writes that element.
  pub put-set :
      (xs : List A) (ptr : ℤ) (j : ℕ) (x : A) (b : ℤ)
      → 0 < z
      → j < length xs
      → Backs mem ptr z xs
      → put mem ptr z (set xs j x) b ≡ write mem (ptr +ℤ pos (z * j)) x b
  put-set [] ptr j x b some_bytes room h = absurd (omega arith)
  put-set (y ∷ ys) ptr zero x b some_bytes room h =
      same_place (put mem (ptr +ℤ pos z) z ys) ptr (ptr +ℤ pos (z * 0)) x b (omega int_laws)
        (put_same ys (ptr +ℤ pos z) b (tail-Backs y ys ptr h))
  put-set (y ∷ ys) ptr (suc j) x b some_bytes room h =
      let rest : (q : ℤ)
          → put mem (ptr +ℤ pos z) z (set ys j x) q ≡ write mem (ptr +ℤ pos z +ℤ pos (z * j)) x q =
        λ q. put-set ys (ptr +ℤ pos z) j x q some_bytes (omega arith) (tail-Backs y ys ptr h) in
      let apart : ptr ≢ ptr +ℤ pos z +ℤ pos (z * j) =
        λ e. omega (int_laws, some_bytes, ap pos_part e, ap neg_part e) in
      let kept : y ≡ put mem (ptr +ℤ pos z) z (set ys j x) ptr =
        head-Backs y ys ptr h
        ∙ sym (rest ptr ∙ write-other mem (ptr +ℤ pos z +ℤ pos (z * j)) x ptr apart) in
      write_same (put mem (ptr +ℤ pos z) z (set ys j x)) ptr y b kept
      ∙ rest b
      ∙ ap (λ p. write mem p x b) (sym (later ptr z j))
