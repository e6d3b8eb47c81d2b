-- ===== src/Memory/Copy.antt =====
-- `gather_from` and `scatter_to` of src/array.rs copy between a buffer in C order and the elements
-- of a strided layout in memory.
use lightarray.Prelude.{
  ℕ, zero, suc, ◌+◌, ◌<◌, ◌≡◌, ◌≢◌, sym, ap, ◌∙◌, arith, List, [], ◌∷◌, length, product, get_elem?,
  some_pair, some, word, list_ext,
}
use lightarray.Prelude.Int.{ℤ, pos, ◌+ℤ◌, +ℤ_comm, int_laws}
use lightarray.Outcome.{ok}
use lightarray.Array.Locate.Order.{flat, Inside, flat_surj, flat-lt}
use lightarray.Layout.Address.{address, address-shift}
use lightarray.Memory.{Memory, Visits, gather_from, scatter_to}
use lightarray.Memory.Walk.{Visited}
use lightarray.Memory.Whole.{walk_strided-Visited}
use lightarray.Memory.Loops.{Numbered, Hits, Apart, gather_visits-reads, scatter_visits-writes}

-- From the lists of visits to positions.
Hits-get : (visits : Visits) (j k : ℕ) (o : ℤ) → get_elem? visits j ≡ some (k, o) → Hits visits j o
Hits-get [] j k o h = cc
Hits-get ((i, o') ∷ visits) zero k o h = (some_pair h).1
Hits-get (v ∷ visits) (suc j) k o h = Hits-get visits j k o h

get-Hits :
    (visits : Visits) (j : ℕ) (o : ℤ)
    → Hits visits j o
    → (k : ℕ) × (get_elem? visits j ≡ some (k, o)) × (j < length visits)
get-Hits [] j o h = absurd h
get-Hits ((i, o') ∷ visits) zero o h = (i, ap (λ t. some (i, t)) h, omega arith)
get-Hits (v ∷ visits) (suc j) o h = let (k, e, lt) = get-Hits visits j o h in (k, e, omega arith)

Numbered-get :
    (visits : Visits) (k : ℕ)
    → ((j : ℕ) → j < length visits → (o : ℤ) × (get_elem? visits j ≡ some (k + j, o)))
    → Numbered k visits
Numbered-get [] k h = tt
Numbered-get ((i, o) ∷ visits) k h =
    let (o', first) = h 0 (omega arith) in
    let here : i ≡ k + 0 = (some_pair first).0 in
    (
      here ∙ omega arith,
      Numbered-get visits (suc k) (λ j p.
          let (q, e) = h (suc j) (omega arith) in (q, e ∙ ap (λ t. some (t, q)) (omega arith))),
    )

-- The copies in terms of positions.
module _ (shape : List ℕ) (strides : List ℤ) (visits : Visits)
    (v : Visited shape strides (product shape) 0 visits) where
  at_position :
      (is : List ℕ)
      → Inside shape is
      → length is ≡ length shape
      → get_elem? visits (flat shape is) ≡ some (flat shape is, address (pos 0) strides is)
  at_position is h e =
      v.reads is (flat shape is) h e (flat-lt shape is h e) (omega arith)
      ∙ ap (λ t. some (t, address (pos 0) strides is)) (omega arith)

  Visited-Numbered : Numbered 0 visits
  Visited-Numbered = Numbered-get visits 0 (λ j p.
      let (is, inside, full, at) = flat_surj shape j (omega (arith, v.count)) in
      (
        address (pos 0) strides is,
        v.reads is j inside full (omega (arith, v.count)) (omega (arith, at)),
      ))

  Visited-Hits :
      (is : List ℕ)
      → Inside shape is
      → length is ≡ length shape
      → Hits visits (flat shape is) (address (pos 0) strides is)
  Visited-Hits is h e = Hits-get visits _ _ _ (at_position is h e)

  -- Every hit is that of a position.
  Hits-position :
      (j : ℕ) (o : ℤ)
      → Hits visits j o
      → (is : List ℕ) × Inside shape is
        × (length is ≡ length shape)
        × (flat shape is ≡ j)
        × (o ≡ address (pos 0) strides is)
  Hits-position j o h =
      let (k, got, lt) = get-Hits visits j o h in
      let (is, inside, full, at) = flat_surj shape j (omega (arith, v.count)) in
      let again = v.reads is j inside full (omega (arith, v.count)) (omega (arith, at)) in
      (is, inside, full, at, (some_pair (sym got ∙ again)).1)

from_start :
    (ptr : ℤ) (strides : List ℤ) (is : List ℕ)
    → ptr +ℤ address (pos 0) strides is ≡ address ptr strides is
from_start ptr strides is =
    +ℤ_comm ptr (address (pos 0) strides is)
    ∙ sym (address-shift (pos 0) ptr strides is)
    ∙ ap (λ z. address z strides is) (omega int_laws)

-- The positions of a layout have different addresses.
abbrev pub IsInjective : List ℕ → ℤ → List ℤ → Type 0
IsInjective shape ptr strides =
    (is js : List ℕ)
    → Inside shape is
    → Inside shape js
    → length is ≡ length shape
    → length js ≡ length shape
    → address ptr strides is ≡ address ptr strides js
    → is ≡ js

Visited-Apart :
    (shape : List ℕ) (ptr : ℤ) (strides : List ℤ) (visits : Visits)
    → Visited shape strides (product shape) 0 visits
    → IsInjective shape ptr strides
    → Apart visits
Visited-Apart shape ptr strides visits v inj i j o p q =
    let (is, inside, full, at, same) = Hits-position shape strides visits v i o p in
    let (js, inside', full', at', same') = Hits-position shape strides visits v j o q in
    let both : address ptr strides is ≡ address ptr strides js =
      sym (from_start ptr strides is)
      ∙ ap (λ z. ptr +ℤ z) (sym same ∙ same')
      ∙ from_start ptr strides js in
    sym at ∙ ap (flat shape) (inj is js inside inside' full full' both) ∙ at'

module _ {ℓ} {A : Type ℓ} (shape : List ℕ) (ptr : ℤ) (strides : List ℤ)
    (full : length strides ≡ length shape) (small : product shape < word) where
  -- A buffer with a place for each position is filled, at each position, with the element at its
  -- address.
  pub gather_from-reads :
      (mem : Memory A) (buffer : List A)
      → length buffer ≡ product shape
      → (r : List A) × (gather_from mem buffer shape ptr strides ≡ ok r)
        × (length r ≡ product shape)
        × ((is : List ℕ)
            → Inside shape is
            → length is ≡ length shape
            → get_elem? r (flat shape is) ≡ some (mem (address ptr strides is)))
  unfolding gather_from
  gather_from-reads mem buffer fits =
      let (visits, walked, v) = walk_strided-Visited shape strides full small in
      let (r, run, len, reads, keeps) =
        gather_visits-reads ptr mem visits 0 buffer (Visited-Numbered shape strides visits v)
          (omega (arith, v.count, fits)) in
      (
        r,
        rw walked run,
        len ∙ fits,
        λ is h e.
            let place = flat shape is in
            let o = address (pos 0) strides is in
            ap (get_elem? r) (omega arith)
            ∙ reads place o (Visited-Hits shape strides visits v is h e)
            ∙ ap (λ z. some (mem z)) (from_start ptr strides is),
      )

  -- Writing a full buffer and reading it back gives the buffer, if the positions have different
  -- addresses. Memory elsewhere is as it was.
  pub gather_from-scatter_to :
      (mem : Memory A) (buffer other : List A)
      → IsInjective shape ptr strides
      → length buffer ≡ product shape
      → length other ≡ product shape
      → (after : Memory A) × (scatter_to mem buffer shape ptr strides ≡ ok after)
        × (gather_from after other shape ptr strides ≡ ok buffer)
        × ((b : ℤ)
            → ((is : List ℕ)
                → Inside shape is
                → length is ≡ length shape
                → b ≢ address ptr strides is)
            → after b ≡ mem b)
  unfolding scatter_to
  gather_from-scatter_to mem buffer other inj fits fits' =
      let (visits, walked, v) = walk_strided-Visited shape strides full small in
      let (after, run, hits, keeps) =
        scatter_visits-writes ptr mem visits 0 buffer (Visited-Numbered shape strides visits v)
          (omega (arith, v.count, fits)) in
      let (r, again, len, reads) = gather_from-reads after other fits' in
      (
        after,
        rw walked run,
        again
            ∙ ap ok (
                list_ext r buffer (len ∙ sym fits) (λ i p.
                  let (is, inside, whole, at) = flat_surj shape i (omega (arith, len)) in
                  let got =
                    hits (Visited-Apart shape ptr strides visits v inj) (flat shape is) _
                      (Visited-Hits shape strides visits v is inside whole) in
                  let zero_on : 0 + flat shape is ≡ i = omega (arith, at) in
                  rw (← at) (
                    reads is inside whole
                    ∙ ap (λ z. some (after z)) (sym (from_start ptr strides is))
                    ∙ sym got
                    ∙ ap (get_elem? buffer) (omega arith)))),
        λ b miss. keeps b (λ j o p e.
            let (is, inside, whole, at, same) = Hits-position shape strides visits v j o p in
            miss is inside whole (e ∙ ap (λ z. ptr +ℤ z) same ∙ from_start ptr strides is)),
      )
