-- ===== src/Array/Select/Gather.antt =====
-- Which elements `gather` of src/array.rs copies.
use lightarray.Prelude.{ℕ, zero, suc, ◌+◌, ◌*◌, ◌≤◌, ◌<◌, ◌≡◌, refl, sym, ap, ◌∙◌, arith}
use lightarray.Prelude.{List, [], ◌∷◌, ◌++◌, some, length, product, get_elem?, get_elem?-lt}
use lightarray.Prelude.{length-append, get_elem?-append_left, get_elem?-append_right}
use lightarray.Dims.Strides.{c_strides}
use lightarray.Array.Locate.Order.{flat, flat-lt, Inside, row-le}
use lightarray.Prelude.Int.{ℤ, pos, ◌+ℤ◌}
use lightarray.Outcome.{Result, ok}
use lightarray.Array.Select.{AxisPlan, as_usize, axis_loop, push_element, gather}

-- The place of the `k`th step of an axis.
abbrev pub step_at : ℤ → ℤ → ℕ → ℤ
step_at at step zero = at
step_at at step (suc k) = step_at (at +ℤ step) step k

-- A loop whose visits push blocks of `m` elements lays the blocks out one after the other.
pub axis_loop-blocks {ℓ κ} :
    {A : Type ℓ} (visit : ℕ → Result (List A)) (stride : ℕ) (step : ℤ) (count : ℕ) (at : ℤ)
    (offset m : ℕ) (P : ℕ → List A → Type κ)
    → ((k : ℕ)
        → k < count
        → (b : List A) × (visit (offset + as_usize (step_at at step k) * stride) ≡ ok b)
          × (length b ≡ m)
          × P k b)
    → (out : List A) × (axis_loop visit stride step count at offset ≡ ok out)
      × (length out ≡ count * m)
      × ((k : ℕ)
          → k < count
          → (b : List A) × P k b × ((j : ℕ) → j < m → get_elem? out (k * m + j) ≡ get_elem? b j))
unfolding axis_loop
axis_loop-blocks visit stride step zero at offset m P h =
    ([], refl, omega arith, λ k p. absurd (omega arith))
axis_loop-blocks {A} visit stride step (suc count) at offset m P h =
    let (out, loop, len, reads) =
      axis_loop-blocks visit stride step count (at +ℤ step) offset m (λ k. P (suc k))
        (λ k p. h (suc k) (omega arith)) in
    let (b, pushed, size, here) = h zero (omega arith) in
    (
      b ++ out,
      rw (pushed, loop) refl,
      length-append b out ∙ omega (arith, len, size),
      blocks b out reads size here,
    )
  where
    blocks :
        (b out : List A)
        → ((k : ℕ)
            → k < count
            → (c : List A) × P (suc k) c
              × ((j : ℕ) → j < m → get_elem? out (k * m + j) ≡ get_elem? c j))
        → length b ≡ m
        → P zero b
        → (k : ℕ) → k < suc count
        → (c : List A) × P k c
          × ((j : ℕ) → j < m → get_elem? (b ++ out) (k * m + j) ≡ get_elem? c j)
    blocks b out reads size here zero p = (
      b,
      here,
      λ j q.
          let e : 0 * m + j ≡ j = omega arith in rw e (get_elem?-append_left b out j (omega arith)),
    )
    blocks b out reads size here (suc k) p =
        let (c, there, same) = reads k (omega arith) in
        (
          c,
          there,
          λ j q.
              let e : suc k * m + j ≡ length b + (k * m + j) = omega (arith, size) in
              rw e (get_elem?-append_right b out (k * m + j) ∙ same j q),
        )

-- Every step of the plan stays inside its axis.
abbrev pub IsReady : List AxisPlan → List ℕ → Type 0
IsReady [] [] = Unit {0}
IsReady [] (d ∷ s) = ⊥
IsReady (p ∷ plan) [] = ⊥
IsReady (p ∷ plan) (d ∷ s) =
    ((k : ℕ) → k < p.count → as_usize (step_at (pos p.start) p.step k) < d) × IsReady plan s

-- The shape of what `gather` copies, an axis for each entry of the plan.
abbrev pub counts : List AxisPlan → List ℕ
counts [] = []
counts (p ∷ plan) = p.count ∷ counts plan

-- The position in the source of a position in the selection.
abbrev pub picked : List AxisPlan → List ℕ → List ℕ
picked [] ks = []
picked (p ∷ plan) [] = []
picked (p ∷ plan) (k ∷ ks) = as_usize (step_at (pos p.start) p.step k) ∷ picked plan ks

-- What a selection holds: at each of its positions, the element of the source that the plan picks.
unfoldable pub Reads {ℓ} : {A : Type ℓ} → List A → ℕ → List ℕ → List AxisPlan → List A → Type ℓ
Reads buffer offset s plan out =
    (ks : List ℕ)
    → Inside (counts plan) ks
    → length ks ≡ length plan
    → get_elem? out (flat (counts plan) ks) ≡ get_elem? buffer (offset + flat s (picked plan ks))

pub length-counts : (plan : List AxisPlan) → length (counts plan) ≡ length plan
length-counts [] = refl
length-counts (p ∷ plan) = ap suc (length-counts plan)

-- From the blocks of the first axis to the whole.
join_blocks {ℓ} :
    {A : Type ℓ} (buffer out : List A) (p : AxisPlan) (plan : List AxisPlan) (d : ℕ) (s : List ℕ)
    (offset : ℕ)
    → ((k : ℕ)
        → k < p.count
        → (b : List A) × Reads buffer
            (offset + as_usize (step_at (pos p.start) p.step k) * product s)
            s
            plan
            b
          × ((j : ℕ)
              → j < product (counts plan)
              → get_elem? out (k * product (counts plan) + j) ≡ get_elem? b j))
    → Reads buffer offset (d ∷ s) (p ∷ plan) out
unfolding Reads
join_blocks buffer out p plan d s offset blocks [] inside full = absurd (omega arith)
join_blocks buffer out p plan d s offset blocks (k ∷ ks) inside full =
    let (b, reads, same) = blocks k inside.0 in
    let size : length ks ≡ length plan = omega arith in
    same (flat (counts plan) ks)
      (flat-lt (counts plan) ks inside.1 (size ∙ sym (length-counts plan)))
    ∙ reads ks inside.1 size
    ∙ ap (get_elem? buffer) (omega arith)

Reads-single {ℓ} :
    {A : Type ℓ} (buffer : List A) (offset : ℕ) (x : A)
    → get_elem? buffer offset ≡ some x
    → Reads buffer offset [] [] (x ∷ [])
unfolding Reads
Reads-single buffer offset x there [] inside full = sym there ∙ ap (get_elem? buffer) (omega arith)
Reads-single buffer offset x there (k ∷ ks) inside full = absurd (omega arith)

-- With a plan for each of one or more axes that stays inside them, and the sub-array in the
-- buffer, `gather` returns without a panic. It returns as many elements as the plan counts, and
-- at each position of the selection the element that the plan picks.
pub gather-Reads {ℓ} :
    {A : Type ℓ} (buffer : List A) (p : AxisPlan) (plan : List AxisPlan) (s : List ℕ) (offset : ℕ)
    → IsReady (p ∷ plan) s
    → offset + product s ≤ length buffer
    → (out : List A) × (gather buffer (p ∷ plan) (c_strides s) offset ≡ ok out)
      × (length out ≡ product (counts (p ∷ plan)))
      × Reads buffer offset s (p ∷ plan) out
unfolding gather
gather-Reads buffer p [] [] offset r h = absurd r
gather-Reads buffer p [] (d ∷ e ∷ s) offset r h = absurd r.1
gather-Reads {A} buffer p [] (d ∷ []) offset r h =
    let (out, loop, len, blocks) =
      axis_loop-blocks (push_element buffer) 1 p.step p.count (pos p.start) offset 1
        (λ k. Reads buffer (offset + as_usize (step_at (pos p.start) p.step k) * 1) [] [])
        (λ k q.
          let place = as_usize (step_at (pos p.start) p.step k) in
          let below = r.0 k q in
          let (x, there) = get_elem?-lt buffer (offset + place * 1) (omega arith) in
          let single : List A = x ∷ [] in
          (single, rw there refl, refl, Reads-single buffer _ x there)) in
    (out, loop, len, join_blocks buffer out p [] d [] offset blocks)
gather-Reads buffer p (q ∷ plan) [] offset r h = absurd r
gather-Reads buffer p (q ∷ plan) (d ∷ s) offset r h =
    let (out, loop, len, blocks) =
      axis_loop-blocks (gather buffer (q ∷ plan) (c_strides s)) (product s) p.step p.count
        (pos p.start) offset (product (counts (q ∷ plan)))
        (λ k.
          Reads buffer (offset + as_usize (step_at (pos p.start) p.step k) * product s) s
            (q ∷ plan))
        (λ k below.
          gather-Reads buffer q plan s
            (offset + as_usize (step_at (pos p.start) p.step k) * product s) r.1
            (omega (
              arith,
              row-le (as_usize (step_at (pos p.start) p.step k)) d (product s) (r.0 k below),
            ))) in
    (out, loop, len, join_blocks buffer out p (q ∷ plan) d s offset blocks)
