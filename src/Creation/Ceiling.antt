-- ===== src/Creation/Ceiling.antt =====
-- Division that rounds up, for `arange` of src/lib.rs.
use lightarray.Prelude.{
  ℕ, suc, ◌+◌, ◌*◌, ◌/◌, ◌%◌, ◌<◌, ◌≤◌, ◌≡◌, arith, ltb, Bool-cases, inl, inr, mul_mono,
}
use native.Mathlib.Nat.{div-add-mod, mod-lt}
use lightarray.Creation.{div_ceil}

-- Steps of length `s`, as many as the rounded quotient, cover `d`, and fewer do not.
pub div_ceil-covers : (d s : ℕ) → 0 < s → d ≤ s * div_ceil d s
div_ceil-covers d s h =
    let parts = div-add-mod d s in
    let below = mod-lt d h in
    let more : s * (d / s + 1) ≡ s * (d / s) + s = grind arith in
    elim (Bool-cases (ltb 0 (d % s))) [
      | inl e ↦ rw e (omega arith)
      | inr e ↦ let none_left : d % s ≡ 0 = ground arith in rw e (omega arith)
    ]

pub lt-div_ceil : (d s i : ℕ) → 0 < s → i < div_ceil d s → s * i < d
lt-div_ceil d s i h =
    let parts = div-add-mod d s in
    elim (Bool-cases (ltb 0 (d % s))) [
      | inl e ↦ rw e (λ lt.
          let some_left : 0 < d % s = ground arith in
          let le : s * i ≤ s * (d / s) = mul_mono s s i (d / s) (omega arith) (omega arith) in
          omega arith)
      | inr e ↦ rw e (λ lt.
          let le : s * suc i ≤ s * (d / s) =
            mul_mono s s (suc i) (d / s) (omega arith) (omega arith) in
          let more : s * suc i ≡ s * i + s = grind arith in omega arith)
    ]
