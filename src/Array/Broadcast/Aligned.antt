-- ===== src/Array/Broadcast/Aligned.antt =====
-- What `broadcast_shape` and `broadcast_strides` of src/array.rs compute: shapes aligned at their
-- last axes.
use lightarray.Prelude.{
  ℕ, zero, suc, ◌+◌, ◌-◌, ◌≤◌, ◌<◌, ◌≡◌, refl, sym, ap, ap₂, ◌∙◌, arith, List, [], ◌∷◌, ◌++◌, false,
  ◌==◌, length, replicate, drop, Bool-cases, inl, inr, some, get_elem?, max, ◌⊎◌, ◌≢◌,
  get_elem?-append_left, get_elem?-append_right, length-replicate, length-append, le→leb, lt→leb,
  ==_iff, get_elem?-drop_head,
}
use native.Mathlib.Decide.{dec_le}
use lightarray.Outcome.{Result, ok, err, ◌>>=◌, or_panic, shape_mismatch}
use lightarray.Array.Broadcast.{axis_of, broadcast_axis, broadcast_loop, broadcast_shape}

-- A shape with axes of length 1 in front, up to `n` axes.
abbrev pub widened : ℕ → List ℕ → List ℕ
widened n s = replicate (n - length s) 1 ++ s

-- Axis by axis, `u` is the longer of two lengths, of which one is 1 if they differ.
pub data Joins : List ℕ → List ℕ → List ℕ → Type 0 where
  joined : Joins [] [] []
  same : {d : ℕ} {s t u : List ℕ} → Joins s t u → Joins (d ∷ s) (d ∷ t) (d ∷ u)
  right : {d : ℕ} {s t u : List ℕ} → Joins s t u → Joins (1 ∷ s) (d ∷ t) (d ∷ u)
  left : {d : ℕ} {s t u : List ℕ} → Joins s t u → Joins (d ∷ s) (1 ∷ t) (d ∷ u)

-- Some axis has two different lengths, neither of them 1.
pub data Clashes : List ℕ → List ℕ → Type 0 where
  here : {x y : ℕ} {s t : List ℕ} → x ≢ y → x ≢ 1 → y ≢ 1 → Clashes (x ∷ s) (y ∷ t)
  later : {x y : ℕ} {s t : List ℕ} → Clashes s t → Clashes (x ∷ s) (y ∷ t)

abbrev join : List ℕ → List ℕ → List ℕ → List ℕ → Result (List ℕ)
join a b (x ∷ s) (y ∷ t) = do d ← broadcast_axis a b x y; rest ← join a b s t; ok (d ∷ rest)
join a b _ _ = ok []

pub length-widened : (n : ℕ) (s : List ℕ) → length s ≤ n → length (widened n s) ≡ n
length-widened n s h =
    omega (
      arith,
      length-append (replicate (n - length s) 1) s,
      length-replicate {A = ℕ} (n - length s) 1,
    )

get_elem?-replicate : (n i v : ℕ) → i < n → get_elem? (replicate n v) i ≡ some v
get_elem?-replicate zero i v h = absurd (omega arith)
get_elem?-replicate (suc n) zero v h = refl
get_elem?-replicate (suc n) (suc i) v h = get_elem?-replicate n i v (omega arith)

-- `axis_of` reads the widened shape.
axis_of-widened :
    (s : List ℕ) (n k : ℕ)
    → length s ≤ n
    → k < n
    → axis_of s n k ≡ or_panic (get_elem? (widened n s) k)
unfolding axis_of
axis_of-widened s n k h p = elim (dec_le n (k + length s)) [
  | yes in_s ↦
      let at : k ≡ length ones + (k + length s - n) =
        omega (arith, length-replicate {A = ℕ} (n - length s) 1) in
      rw (le→leb _ _ in_s) (
        ap or_panic
          (sym (ap (get_elem? (ones ++ s)) at ∙ get_elem?-append_right ones s (k + length s - n))))
  | no before ↦
      let at : k < length ones = omega (arith, length-replicate {A = ℕ} (n - length s) 1) in
      rw (lt→leb n (k + length s) (omega arith)) (
        ap or_panic (
          sym (
            get_elem?-append_left ones s k at
            ∙ get_elem?-replicate (n - length s) k 1 (omega arith))))
]
  where
    ones : List ℕ
    ones = replicate (n - length s) 1

axis_cases :
    (a b : List ℕ) (x y : ℕ)
    → ((d : ℕ) × (broadcast_axis a b x y ≡ ok d)
        × ((s t u : List ℕ) → Joins s t u → Joins (x ∷ s) (y ∷ t) (d ∷ u)))
      ⊎ ((broadcast_axis a b x y ≡ err (shape_mismatch a b)) × (x ≢ y) × (x ≢ 1) × (y ≢ 1))
axis_cases a b x y = elim (Bool-cases (x == y)) [
  | inl e ↦ let eq = (==_iff x y).0 e in inl (x, rw e refl, rw (← eq) (λ s t u j. same j))
  | inr e ↦ elim (Bool-cases (x == 1)) [
    | inl f ↦ let eq = (==_iff x 1).0 f in inl (y, rw (e, f) refl, rw eq (λ s t u j. right j))
    | inr f ↦ elim (Bool-cases (y == 1)) [
      | inl g ↦ let eq = (==_iff y 1).0 g in inl (x, rw (e, f, g) refl, rw eq (λ s t u j. left j))
      | inr g ↦ inr (rw (e, f, g) refl, differ x y e, differ x 1 f, differ y 1 g)
    ]
  ]
]
  where
    differ : (m n : ℕ) → (m == n) ≡ false → m ≢ n
    differ m n q r = ground arith

-- Two lengths are joined, or clash.
join_cases :
    (a b s t : List ℕ)
    → length s ≡ length t
    → ((u : List ℕ) × (join a b s t ≡ ok u) × Joins s t u)
      ⊎ ((join a b s t ≡ err (shape_mismatch a b)) × Clashes s t)
join_cases a b [] [] e = inl ([], refl, joined)
join_cases a b [] (y ∷ t) e = absurd (omega arith)
join_cases a b (x ∷ s) [] e = absurd (omega arith)
join_cases a b (x ∷ s) (y ∷ t) e = elim (axis_cases a b x y) [
  | inr (no_join, differ, x_long, y_long) ↦ inr (rw no_join refl, here differ x_long y_long)
  | inl (d, found, grow) ↦ elim (join_cases a b s t (omega arith)) [
    | inl (u, rest, j) ↦ inl (d ∷ u, rw (found, rest) refl, grow s t u j)
    | inr (no_rest, clash) ↦ inr (rw (found, no_rest) refl, later clash)
  ]
]

-- The loop joins what is left of the widened shapes.
broadcast_loop-join :
    (a b : List ℕ) (n k m : ℕ) (s t : List ℕ)
    → length a ≤ n
    → length b ≤ n
    → k + m ≡ n
    → drop k (widened n a) ≡ s
    → drop k (widened n b) ≡ t
    → length s ≡ m
    → length t ≡ m
    → broadcast_loop a b n k m ≡ join a b s t
unfolding broadcast_loop
broadcast_loop-join a b n k zero [] [] p q e f g h i = refl
broadcast_loop-join a b n k zero (x ∷ s) t p q e f g h i = absurd (omega arith)
broadcast_loop-join a b n k zero [] (y ∷ t) p q e f g h i = absurd (omega arith)
broadcast_loop-join a b n k (suc m) [] t p q e f g h i = absurd (omega arith)
broadcast_loop-join a b n k (suc m) (x ∷ s) [] p q e f g h i = absurd (omega arith)
broadcast_loop-join a b n k (suc m) (x ∷ s) (y ∷ t) p q e f g h i =
    let (x_at, s_at) = get_elem?-drop_head k (widened n a) f in
    let (y_at, t_at) = get_elem?-drop_head k (widened n b) g in
    let x_of = axis_of-widened a n k p (omega arith) ∙ ap or_panic x_at in
    let y_of = axis_of-widened b n k q (omega arith) ∙ ap or_panic y_at in
    let rest =
      broadcast_loop-join a b n (suc k) m s t p q (omega arith) s_at t_at (omega arith)
        (omega arith) in
    rw (x_of, y_of, rest) refl

-- Two shapes, widened to the same number of axes, either join axis by axis, and the joined shape
-- is returned; or they clash at some axis, and the two shapes are returned as an error.
pub broadcast_shape_lem :
    (s t : List ℕ)
    → let n = max (length s) (length t) in
      ((u : List ℕ) × (broadcast_shape s t ≡ ok u) × Joins (widened n s) (widened n t) u)
      ⊎ ((broadcast_shape s t ≡ err (shape_mismatch s t)) × Clashes (widened n s) (widened n t))
unfolding broadcast_shape
broadcast_shape_lem s t =
    let n = max (length s) (length t) in
    let s_len = length-widened n s (omega arith) in
    let t_len = length-widened n t (omega arith) in
    rw
      (broadcast_loop-join s t n 0 n (widened n s) (widened n t) (omega arith) (omega arith)
        (omega arith) refl refl s_len t_len)
      (join_cases s t (widened n s) (widened n t) (s_len ∙ sym t_len))

-- Lengths are joined or clash, never both.
pub Joins-Clashes : {s t u : List ℕ} → Joins s t u → ¬ Clashes s t
Joins-Clashes joined c = elim c [ ]
Joins-Clashes (same j) (here differ p q) = differ refl
Joins-Clashes (same j) (later c) = Joins-Clashes j c
Joins-Clashes (right j) (here differ p q) = p refl
Joins-Clashes (right j) (later c) = Joins-Clashes j c
Joins-Clashes (left j) (here differ p q) = q refl
Joins-Clashes (left j) (later c) = Joins-Clashes j c

-- Each axis of a shape is that of the joined shape, or has length 1.
abbrev pub Fills : List ℕ → List ℕ → Type 0
Fills [] [] = Unit {0}
Fills (d ∷ s) (e ∷ u) = ((d ≡ e) ⊎ (d ≡ 1)) × Fills s u
Fills _ _ = ⊥

pub Joins-Fills : {s t u : List ℕ} → Joins s t u → Fills s u × Fills t u
Joins-Fills joined = (tt, tt)
Joins-Fills (same j) = let (p, q) = Joins-Fills j in ((inl refl, p), (inl refl, q))
Joins-Fills (right j) = let (p, q) = Joins-Fills j in ((inr refl, p), (inl refl, q))
Joins-Fills (left j) = let (p, q) = Joins-Fills j in ((inl refl, p), (inr refl, q))

pub length-Joins : {s t u : List ℕ} → Joins s t u → length u ≡ length s
length-Joins joined = refl
length-Joins (same j) = ap suc (length-Joins j)
length-Joins (right j) = ap suc (length-Joins j)
length-Joins (left j) = ap suc (length-Joins j)

pub Joins-self : {s t u : List ℕ} → Joins s t u → s ≡ t → u ≡ s
Joins-self joined e = refl
Joins-self {s = d ∷ s} {t = d' ∷ t} (same j) e =
    let tails : s ≡ t = cc in ap (◌∷◌ d) (Joins-self j tails)
Joins-self {s = c ∷ s} {t = d ∷ t} (right j) e =
    let tails : s ≡ t = cc in let heads : d ≡ 1 = cc in ap₂ ◌∷◌ heads (Joins-self j tails)
Joins-self {s = d ∷ s} {t = c ∷ t} (left j) e =
    let tails : s ≡ t = cc in ap (◌∷◌ d) (Joins-self j tails)
