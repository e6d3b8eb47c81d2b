-- ===== src/Layout/Address.antt =====
-- Which address a position has in a layout of src/python.rs, and in those derived from it.
use lightarray.Prelude.{
  ℕ, zero, suc, ◌^◌, ◌<◌, if◌then◌else◌, ltb, ◌≤◌, ◌≡◌, refl, sym, ap, ◌∙◌, arith, List, [], ◌∷◌,
  length,
}
use lightarray.Prelude.Int.{ℤ, pos, ◌+ℤ◌, ◌*ℤ◌, +ℤ_assoc, int_laws}
use lightarray.Prelude.Int.Products.{*ℤ_parts, *ℤ_distrib_right, *ℤ_assoc}
use lightarray.Array.Locate.Order.{Inside, from_either_end-lt}
use lightarray.Array.Select.{Selector, int, slice, AxisPlan, as_usize}
use lightarray.Array.Select.Gather.{step_at}
use lightarray.Array.Select.Plan.{
  Picks, Picks-IsReady, element, every, every_back, nothing, step_at_up, step_at_down,
}
use lightarray.Array.Select.Whole.{PlanFor, whole_axis, finished, taken, dropped, sliced}
use lightarray.Array.AnyArray.{from_bits}
use lightarray.Layout.{Layout, select_loop, select, push_axis}

-- Each index moves the address by its stride.
abbrev pub address : ℤ → List ℤ → List ℕ → ℤ
address ptr (s ∷ strides) (i ∷ is) = address (ptr +ℤ pos i *ℤ s) strides is
address ptr _ _ = ptr

abbrev pub address_of : Layout → List ℕ → ℤ
address_of l is = address l.ptr l.strides is

pub address-shift :
    (a b : ℤ) (strides : List ℤ) (is : List ℕ)
    → address (a +ℤ b) strides is ≡ address a strides is +ℤ b
address-shift a b [] is = refl
address-shift a b (s ∷ strides) [] = refl
address-shift a b (s ∷ strides) (i ∷ is) =
    ap (λ z. address z strides is) (omega int_laws) ∙ address-shift (a +ℤ pos i *ℤ s) b strides is

step_at_lem : (a t : ℤ) (k : ℕ) → step_at a t k ≡ a +ℤ pos k *ℤ t
step_at_lem a t zero = omega (int_laws, *ℤ_parts (pos 0) t)
step_at_lem a t (suc k) =
    step_at_lem (a +ℤ t) t k ∙ omega (int_laws, *ℤ_parts (pos k) t, *ℤ_parts (pos (suc k)) t)

-- A step of the plan inside its axis is a number.
Picks-pos :
    {d : ℕ} {sel : Selector} {p : AxisPlan}
    → Picks d sel p
    → (k : ℕ) → k < p.count
    → pos (as_usize (step_at (pos p.start) p.step k)) ≡ step_at (pos p.start) p.step k
Picks-pos (element x i e) zero h = refl
Picks-pos (element x i e) (suc k) h = absurd (omega arith)
Picks-pos (every a b t c iff le) k h = rw (step_at_up a (suc t) k) refl
Picks-pos (every_back a low t c iff lt) k h =
    let fits = (iff k).0 h in rw (step_at_down a t k (omega arith)) refl
Picks-pos (nothing low t n) k h = absurd (omega arith)

Picks-start : {d : ℕ} {sel : Selector} {p : AxisPlan} → Picks d sel p → 0 < p.count → p.start < d
Picks-start (element x i e) h = from_either_end-lt _ x i e
Picks-start (every a b t c iff le) h = omega (arith, (iff 0).0 h)
Picks-start (every_back a low t c iff lt) h = lt
Picks-start (nothing low t n) h = absurd (omega arith)

-- A step in the layout that starts elsewhere and goes on by several strides.
compose : (ptr a t s : ℤ) (k : ℕ) → ptr +ℤ a *ℤ s +ℤ pos k *ℤ (t *ℤ s) ≡ ptr +ℤ step_at a t k *ℤ s
compose ptr a t s k =
    +ℤ_assoc ptr (a *ℤ s) (pos k *ℤ (t *ℤ s))
    ∙ ap (λ z. ptr +ℤ z)
        (ap (λ z. a *ℤ s +ℤ z) (sym (*ℤ_assoc (pos k) t s))
          ∙ sym (*ℤ_distrib_right a (pos k *ℤ t) s)
          ∙ ap (λ z. z *ℤ s) (sym (step_at_lem a t k)))

-- The position in the source of a position in the selection, where integers drop their axis.
abbrev pub source : List Selector → List AxisPlan → List ℕ → List ℕ
source (int x ∷ sels) (p ∷ plan) ks = p.start ∷ source sels plan ks
source (slice a b t ∷ sels) (p ∷ plan) (k ∷ ks) =
    as_usize (step_at (pos p.start) p.step k) ∷ source sels plan ks
source [] (p ∷ plan) (k ∷ ks) = k ∷ source [] plan ks
source _ _ _ = []

-- A length that an `isize` holds.
abbrev pub AreLengths : List ℕ → Type 0
AreLengths [] = Unit {0}
AreLengths (d ∷ s) = (d ≤ 2 ^ 63) × AreLengths s

pub from_bits-small : (n : ℕ) → n < 2 ^ 63 → from_bits n ≡ pos n
from_bits-small n h = ground arith

-- What a layout reads: at each position of the shape `out`, the address that the position `src`
-- of the shape `s` has from `ptr`.
pub record Selects (ptr : ℤ) (s : List ℕ) (strides : List ℤ) (src : List ℕ → List ℕ) (out : List ℕ)
    (l : Layout) : Type 0 where
  pub shape : l.shape ≡ out
  pub full : length l.strides ≡ length out
  pub reads :
      (ks : List ℕ)
      → Inside out ks
      → length ks ≡ length out
      → Inside s (src ks)
        × (length (src ks) ≡ length s)
        × (address_of l ks ≡ address ptr strides (src ks))

moved :
    (p : AxisPlan) (d : ℕ) (ptr s : ℤ)
    → 0 < p.count
    → p.start < d
    → d ≤ 2 ^ 63
    → (if ltb 0 p.count then ptr +ℤ from_bits p.start *ℤ s else ptr) ≡ ptr +ℤ pos p.start *ℤ s
moved p d ptr s h k b = rw (from_bits-small p.start (omega arith)) (ground arith)

-- An axis that is kept: its `k`th step is at `pick k`.
push-Selects :
    (p : AxisPlan) (d : ℕ) (ptr here x : ℤ) (pick : ℕ → ℕ) {s out : List ℕ} {strides : List ℤ}
    {src : List ℕ → List ℕ} {l : Layout} (src' : List ℕ → List ℕ)
    → Selects here s strides src out l
    → (0 < p.count → here ≡ ptr +ℤ pos p.start *ℤ x)
    → ((k : ℕ) → k < p.count → (pick k < d) × (pos (pick k) ≡ step_at (pos p.start) p.step k))
    → ((k : ℕ) (ks : List ℕ) → src' (k ∷ ks) ≡ pick k ∷ src ks)
    → Selects ptr (d ∷ s) (x ∷ strides) src' (p.count ∷ out) (push_axis p.count (p.step *ℤ x) l)
push-Selects p d ptr here x pick {s} {out} {strides} {src} {l} src' st at picks means = record {
  shape = ap (λ t. p.count ∷ t) st.shape;
  full = ap suc st.full;
  reads = each;
}
  where
    each :
        (ks : List ℕ)
        → Inside (p.count ∷ out) ks
        → length ks ≡ suc (length out)
        → Inside (d ∷ s) (src' ks)
          × (length (src' ks) ≡ suc (length s))
          × (address_of (push_axis p.count (p.step *ℤ x) l) ks
              ≡ address ptr (x ∷ strides) (src' ks))
    each [] h q = absurd (omega arith)
    each (k ∷ ks) h q =
        let (inside, full, same) = st.reads ks h.1 (omega arith) in
        let (below, place) = picks k h.0 in
        let step = pos k *ℤ (p.step *ℤ x) in
        let there : here +ℤ step ≡ ptr +ℤ pos (pick k) *ℤ x =
          ap (λ z. z +ℤ step) (at (omega arith))
          ∙ compose ptr (pos p.start) p.step x k
          ∙ ap (λ z. ptr +ℤ z *ℤ x) (sym place) in
        rw (means k ks) (
          (below, inside),
          ap suc full,
          address-shift l.ptr step l.strides ks
              ∙ ap (λ z. z +ℤ step) same
              ∙ sym (address-shift here step strides (src ks))
              ∙ ap (λ z. address z strides (src ks)) there,
        )

drop-Selects :
    (p : AxisPlan) (d : ℕ) (ptr here x : ℤ) {s out : List ℕ} {strides : List ℤ}
    {src : List ℕ → List ℕ} {l : Layout}
    → Selects here s strides src out l
    → here ≡ ptr +ℤ pos p.start *ℤ x
    → p.start < d
    → Selects ptr (d ∷ s) (x ∷ strides) (λ ks. p.start ∷ src ks) out l
drop-Selects p d ptr here x {strides = strides} {src = src} st at below = record {
  shape = st.shape;
  full = st.full;
  reads = λ ks h q.
      let (inside, full, same) = st.reads ks h q in
      ((below, inside), ap suc full, same ∙ ap (λ z. address z strides (src ks)) at);
}

select_loop-Selects :
    {s : List ℕ} {sels : List Selector} {plan : List AxisPlan} {out : List ℕ}
    → PlanFor s sels plan out
    → (ptr : ℤ) (strides : List ℤ) → AreLengths s
    → length strides ≡ length s
    → Selects ptr s strides (source sels plan) out (select_loop ptr plan sels strides)
unfolding select_loop
select_loop-Selects finished ptr [] b e = record {
  shape = refl;
  full = refl;
  reads = λ ks h q. (tt, refl, refl);
}
select_loop-Selects finished ptr (x ∷ strides) b e = absurd (omega arith)
select_loop-Selects (taken p) ptr [] b e = absurd (omega arith)
select_loop-Selects (dropped q c p) ptr [] b e = absurd (omega arith)
select_loop-Selects (sliced q p) ptr [] b e = absurd (omega arith)
select_loop-Selects (taken {d} {s} {plan} {out} p) ptr (x ∷ strides) b e =
    push-Selects (whole_axis d) d ptr _ x (λ k. k) (source [] (whole_axis d ∷ plan))
      (select_loop-Selects p _ strides b.1 (omega arith))
      (λ h. moved (whole_axis d) d ptr x h h b.0)
      (λ k h. (h, sym (step_at_up 0 1 k ∙ ap pos (omega arith)))) (λ k ks. refl)
select_loop-Selects (dropped {p = r} q c p) ptr (x ∷ strides) b e =
    let start = Picks-start q (omega arith) in
    drop-Selects r _ ptr _ x (select_loop-Selects p _ strides b.1 (omega arith))
      (moved r _ ptr x (omega arith) start b.0) start
select_loop-Selects (sliced {d} {start} {stop} {step} {p = r} {sels = sels} {plan = plan} q p) ptr
      (x ∷ strides) b e =
    push-Selects r _ ptr _ x (λ k. as_usize (step_at (pos r.start) r.step k))
      (source (slice start stop step ∷ sels) (r ∷ plan))
      (select_loop-Selects p _ strides b.1 (omega arith))
      (λ h. moved r _ ptr x h (Picks-start q h) b.0) (λ k h. (Picks-IsReady q k h, Picks-pos q k h))
      (λ k ks. refl)

-- A selection of a layout has the shape that is planned, and at each of its positions the address
-- of the position in the source that the plan picks, which is inside.
pub select-Selects :
    {s : List ℕ} {sels : List Selector} {plan : List AxisPlan} {out : List ℕ} (l : Layout)
    → PlanFor s sels plan out
    → AreLengths s
    → length l.strides ≡ length s
    → Selects l.ptr s l.strides (source sels plan) out (select l plan sels)
unfolding select
select-Selects l p b e = select_loop-Selects p l.ptr l.strides b e
