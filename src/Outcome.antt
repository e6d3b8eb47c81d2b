-- ===== src/Outcome.antt =====
-- How a call ends: `std::result::Result<T, ArrayError>` of src/array.rs, and the panics of Rust
-- (an index or a slice out of range, `expect` on an error, a failed `assert!`).
use lightarray.Prelude.{ℕ, ◌≡◌, ◌≢◌, refl, Bool, true, false, Option, none, some, List}
use lightarray.Prelude.{◌+◌, ◌≤◌, leb, length, take, drop, if◌then◌else◌, arith}
use lightarray.Prelude.Int.{ℤ}

-- `DimsError` of src/dims.rs.
pub data DimsError : Type 0 where
  too_many_dims : ℕ → DimsError

-- The texts of `ArrayError::Message`, and of the ValueErrors that src/python.rs and src/lib.rs
-- raise themselves, with the values that the code formats into them.
pub data Message : Type 0 where
  set_with_sequence : ℕ → ℕ → Message
  mask_size : ℕ → ℕ → Message
  nothing_to_concatenate zero_dim_concatenate ndim_differs : Message
  axis_out_of_bounds : ℤ → ℕ → Message
  dimension_differs : ℕ → ℕ → ℕ → Message
  output_operand : List ℕ → List ℕ → Message
  no_identity not_one_dim : Message
  not_aligned : ℕ → ℕ → Message
  max_dims : ℕ → Message

pub data ArrayError : Type 0 where
  shape_mismatch : List ℕ → List ℕ → ArrayError
  size_mismatch : ℕ → ℕ → ArrayError
  dims_error : DimsError → ArrayError
  index_out_of_bounds : ℤ → ℕ → ℕ → ArrayError
  too_many_indices : ℕ → ℕ → ArrayError
  message : Message → ArrayError

pub data Result {ℓ} (A : Type ℓ) : Type ℓ where
  ok : A → Result A
  err : ArrayError → Result A
  panic : Result A

-- The operator `?` and what comes after it.
infixl 5 ◌>>=◌ ◌>>◌
abbrev pub ◌>>=◌ {ℓ κ} : {T : Type ℓ} {U : Type κ} → Result T → (T → Result U) → Result U
panic >>= next = panic
err e >>= next = err e
ok t >>= next = next t

-- An early `return Err(e)` under a test.
abbrev pub ensure : Bool → ArrayError → Result (Unit {0})
ensure false e = err e
ensure true e = ok tt

abbrev pub ◌>>◌ {ℓ} : {U : Type ℓ} → Result (Unit {0}) → Result U → Result U
test >> next = test >>= (λ _. next)

-- `v[i]`, from the checked access.
abbrev pub or_panic {ℓ} : {A : Type ℓ} → Option A → Result A
or_panic (some a) = ok a
or_panic none = panic

-- `&v[lo..lo + n]`
abbrev pub slice {ℓ} : {A : Type ℓ} → List A → ℕ → ℕ → Result (List A)
slice xs lo n = if leb (lo + n) (length xs) then ok (take n (drop lo xs)) else panic

-- `r.expect(..)`
abbrev pub expect {ℓ} : {A : Type ℓ} → Result A → Result A
expect (ok a) = ok a
expect (err e) = panic
expect panic = panic

-- Inversion of a bind that succeeded.
pub >>=-eq-ok {ℓ κ} :
    {T : Type ℓ} {U : Type κ} (r : Result T) (next : T → Result U) {u : U}
    → (r >>= next) ≡ ok u
    → (t : T) × (r ≡ ok t) × (next t ≡ ok u)
>>=-eq-ok panic next done = cc
>>=-eq-ok (err e) next done = cc
>>=-eq-ok (ok t) next done = (t, refl, done)

-- The call does not panic.
abbrev pub IsSafe {ℓ} : {A : Type ℓ} → Result A → Type 0
IsSafe (ok a) = Unit
IsSafe (err e) = Unit
IsSafe panic = ⊥

pub ok-injective {ℓ} : {A : Type ℓ} {a b : A} → ok a ≡ ok b → a ≡ b
ok-injective e = cc

-- A call that panics returns nothing.
pub ok-ne-panic {ℓ} : {A : Type ℓ} {a : A} → ok a ≢ panic
ok-ne-panic e = cc

pub ok-ne-err {ℓ} : {A : Type ℓ} {a : A} {e : ArrayError} → ok a ≢ err e
ok-ne-err e = cc

-- Inversion of a guard that let the call pass.
pub ensure-eq-ok {ℓ} :
    {B : Type ℓ} (b : Bool) (e : ArrayError) (m : Result B) {r : B}
    → (ensure b e >> m) ≡ ok r
    → (b ≡ true) × (m ≡ ok r)
ensure-eq-ok true e m h = (refl, h)
ensure-eq-ok false e m h = cc

pub slice-le {ℓ} :
    {A : Type ℓ} (xs : List A) (lo n : ℕ)
    → lo + n ≤ length xs
    → slice xs lo n ≡ ok (take n (drop lo xs))
slice-le xs lo n h = ground arith
