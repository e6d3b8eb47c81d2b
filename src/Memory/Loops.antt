-- ===== src/Memory/Loops.antt =====
-- The loops of `gather_from` and `scatter_to` in src/array.rs over a list of visits.
use lightarray.Prelude.{
  ℕ, zero, suc, ◌+◌, ◌<◌, ◌≤◌, ◌≡◌, ◌≢◌, refl, ap, ◌∙◌, arith, List, [], ◌∷◌, lt→ltb, length,
  get_elem?, some, set, Bool-cases, inl, inr, get_elem?-lt, length-set, get_elem?-set_self,
  get_elem?-set_ne,
}
use lightarray.Prelude.Int.{ℤ, pos_part, neg_part, ◌+ℤ◌, int_laws}
use lightarray.Outcome.{ok}
use lightarray.Layout.{eq_ℤ}
use lightarray.Layout.Compact.{eq_ℤ-true}
use lightarray.Memory.{Memory, Visits, write, gather_visits, scatter_visits}

-- The visits are numbered from `k` on.
abbrev pub Numbered : ℕ → Visits → Type 0
Numbered k [] = Unit {0}
Numbered k ((i, o) ∷ visits) = (i ≡ k) × Numbered (suc k) visits

-- `o` is the offset of visit `j`.
abbrev pub Hits : Visits → ℕ → ℤ → Type 0
Hits [] j o = ⊥
Hits ((i, o') ∷ visits) zero o = o' ≡ o
Hits (v ∷ visits) (suc j) o = Hits visits j o

-- No two visits have the same offset.
abbrev pub Apart : Visits → Type 0
Apart visits = (i j : ℕ) (o : ℤ) → Hits visits i o → Hits visits j o → i ≡ j

pub write_self {ℓ} : {A : Type ℓ} (mem : Memory A) (b : ℤ) (x : A) → write mem b x b ≡ x
write_self mem b x = rw ((eq_ℤ-true b b).1 refl) refl

pub write-other {ℓ} :
    {A : Type ℓ} (mem : Memory A) (b : ℤ) (x : A) (c : ℤ) → c ≢ b → write mem b x c ≡ mem c
write-other mem b x c h = elim (Bool-cases (eq_ℤ c b)) [
  | inl e ↦ absurd (h ((eq_ℤ-true c b).0 e))
  | inr e ↦ rw e refl
]

zero-ne-suc : {n : ℕ} → zero ≢ suc n
zero-ne-suc e = omega arith

cancel_left : (ptr a b : ℤ) → ptr +ℤ a ≡ ptr +ℤ b → a ≡ b
cancel_left ptr a b e = omega (int_laws, ap pos_part e, ap neg_part e)

module _ {ℓ} {A : Type ℓ} (ptr : ℤ) where
  gather_step :
      (mem : Memory A) (i k : ℕ) (o : ℤ) (visits : Visits) (buffer : List A)
      → i ≡ k
      → k < length buffer
      → gather_visits mem ptr ((i, o) ∷ visits) buffer
        ≡ gather_visits mem ptr visits (set buffer k (mem (ptr +ℤ o)))
  unfolding gather_visits
  gather_step mem i k o visits buffer here h = rw (here, lt→ltb k _ h) refl

  pub gather_visits-reads :
      (mem : Memory A) (visits : Visits) (k : ℕ) (buffer : List A)
      → Numbered k visits
      → k + length visits ≤ length buffer
      → (r : List A) × (gather_visits mem ptr visits buffer ≡ ok r)
        × (length r ≡ length buffer)
        × ((j : ℕ) (o : ℤ) → Hits visits j o → get_elem? r (k + j) ≡ some (mem (ptr +ℤ o)))
        × ((j : ℕ) → j < k → get_elem? r j ≡ get_elem? buffer j)
  unfolding gather_visits
  gather_visits-reads mem [] k buffer n h = (buffer, refl, refl, λ j o p. absurd p, λ j p. refl)
  gather_visits-reads mem ((i, o) ∷ visits) k buffer (here, n) h =
      let x = mem (ptr +ℤ o) in
      let (r, run, len, reads, keeps) =
        gather_visits-reads mem visits (suc k) (set buffer k x) n
          (omega (arith, length-set buffer k x)) in
      (
        r,
        gather_step mem i k o visits buffer here (omega arith) ∙ run,
        len ∙ length-set buffer k x,
        each r x (keeps k (omega arith) ∙ get_elem?-set_self buffer k x (omega arith)) reads,
        λ j p. keeps j (omega arith) ∙ get_elem?-set_ne buffer k j x (λ e. omega arith),
      )
    where
      each :
          (r : List A) (x : A)
          → get_elem? r k ≡ some (mem (ptr +ℤ o))
          → ((j : ℕ) (o' : ℤ) → Hits visits j o' → get_elem? r (suc k + j) ≡ some (mem (ptr +ℤ o')))
          → (j : ℕ) (o' : ℤ) → Hits ((i, o) ∷ visits) j o'
          → get_elem? r (k + j) ≡ some (mem (ptr +ℤ o'))
      each r x first rest zero o' p = let e : k + 0 ≡ k = omega arith in rw (e, ← p) first
      each r x first rest (suc j) o' p =
          let e : k + suc j ≡ suc k + j = omega arith in rw e (rest j o' p)

  scatter_step :
      (mem : Memory A) (i k : ℕ) (o : ℤ) (x : A) (visits : Visits) (buffer : List A)
      → i ≡ k
      → get_elem? buffer k ≡ some x
      → scatter_visits mem ptr ((i, o) ∷ visits) buffer
        ≡ scatter_visits (write mem (ptr +ℤ o) x) ptr visits buffer
  unfolding scatter_visits
  scatter_step mem i k o x visits buffer here h = rw (here, h) refl

  pub scatter_visits-writes :
      (mem : Memory A) (visits : Visits) (k : ℕ) (buffer : List A)
      → Numbered k visits
      → k + length visits ≤ length buffer
      → (after : Memory A) × (scatter_visits mem ptr visits buffer ≡ ok after)
        × (Apart visits
            → (j : ℕ) (o : ℤ) → Hits visits j o
            → get_elem? buffer (k + j) ≡ some (after (ptr +ℤ o)))
        × ((b : ℤ) → ((j : ℕ) (o : ℤ) → Hits visits j o → b ≢ ptr +ℤ o) → after b ≡ mem b)
  unfolding scatter_visits
  scatter_visits-writes mem [] k buffer n h = (mem, refl, λ apart j o p. absurd p, λ b p. refl)
  scatter_visits-writes mem ((i, o) ∷ visits) k buffer (here, n) h =
      let (x, at) = get_elem?-lt buffer k (omega arith) in
      let (after, run, hits, keeps) =
        scatter_visits-writes (write mem (ptr +ℤ o) x) visits (suc k) buffer n (omega arith) in
      (
        after,
        scatter_step mem i k o x visits buffer here at ∙ run,
        each after x at hits keeps,
        λ b miss.
            keeps b (λ j o' p. miss (suc j) o' p)
            ∙ write-other mem (ptr +ℤ o) x b (miss zero o refl),
      )
    where
      each :
          (after : Memory A) (x : A)
          → get_elem? buffer k ≡ some x
          → (Apart visits
              → (j : ℕ) (o' : ℤ) → Hits visits j o'
              → get_elem? buffer (suc k + j) ≡ some (after (ptr +ℤ o')))
          → ((b : ℤ)
              → ((j : ℕ) (o' : ℤ) → Hits visits j o' → b ≢ ptr +ℤ o')
              → after b ≡ write mem (ptr +ℤ o) x b)
          → Apart ((i, o) ∷ visits)
          → (j : ℕ) (o' : ℤ) → Hits ((i, o) ∷ visits) j o'
          → get_elem? buffer (k + j) ≡ some (after (ptr +ℤ o'))
      each after x at hits keeps apart zero o' p =
          let last = keeps (ptr +ℤ o) (λ j o2 q e.
            let same = cancel_left ptr o o2 e in
            let again : Hits visits j o = rw same q in
            absurd (zero-ne-suc (apart zero (suc j) o refl again))) in
          let e : k + 0 ≡ k = omega arith in rw (e, ← p, last, write_self mem (ptr +ℤ o) x) at
      each after x at hits keeps apart (suc j) o' p =
          let e : k + suc j ≡ suc k + j = omega arith in
          rw e (hits (λ a b o2 q r. omega (arith, apart (suc a) (suc b) o2 q r)) j o' p)
