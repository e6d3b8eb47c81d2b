-- ===== src/Creation/Steps.antt =====
-- Steps from one integer to another, for `arange` of src/lib.rs.
use lightarray.Prelude.{ℕ, zero, suc, ◌*◌, ◌<◌, ◌≤◌, ◌≡◌, ◌≢◌, refl, arith, Bool, true, false}
use lightarray.Prelude.Int.{ℤ, pos, negsuc, ◌+ℤ◌, ◌-ℤ◌, ◌*ℤ◌, ltb_ℤ, int_laws}
use lightarray.Prelude.Int.Products.{*ℤ_parts}
use lightarray.Operators.{is_i64}
use lightarray.Creation.{unsigned_abs, leads}

-- `x` comes before `y` in steps of `st`.
abbrev pub precedes : ℤ → ℤ → ℤ → Bool
precedes (pos s) x y = ltb_ℤ x y
precedes (negsuc s) x y = ltb_ℤ y x

-- From `a` up or down to `b`, at distance `e`.
up_before :
    (a b : ℤ) (e : ℕ)
    → ltb_ℤ a b ≡ true
    → e < unsigned_abs (b -ℤ a)
    → is_i64 a ≡ true
    → is_i64 b ≡ true
    → (ltb_ℤ (a +ℤ pos e) b ≡ true) × (is_i64 (a +ℤ pos e) ≡ true)
unfolding ◌+ℤ◌ ◌-ℤ◌
up_before (pos m) (pos n) e h k r t = (ground arith, ground arith)
up_before (pos m) (negsuc n) e h k r t = (ground arith, ground arith)
up_before (negsuc m) (pos n) e h k r t = (ground arith, ground arith)
up_before (negsuc m) (negsuc n) e h k r t = (ground arith, ground arith)

up_past :
    (a b : ℤ) (e : ℕ) → ltb_ℤ a b ≡ true → unsigned_abs (b -ℤ a) ≤ e → ltb_ℤ (a +ℤ pos e) b ≡ false
unfolding ◌+ℤ◌ ◌-ℤ◌
up_past (pos m) (pos n) e h k = ground arith
up_past (pos m) (negsuc n) e h k = ground arith
up_past (negsuc m) (pos n) e h k = ground arith
up_past (negsuc m) (negsuc n) e h k = ground arith

down_before :
    (a b : ℤ) (e : ℕ)
    → ltb_ℤ b a ≡ true
    → e < unsigned_abs (b -ℤ a)
    → is_i64 a ≡ true
    → is_i64 b ≡ true
    → (ltb_ℤ b (a -ℤ pos e) ≡ true) × (is_i64 (a -ℤ pos e) ≡ true)
unfolding ◌-ℤ◌
down_before (pos m) (pos n) e h k r t = (ground arith, ground arith)
down_before (pos m) (negsuc n) e h k r t = (ground arith, ground arith)
down_before (negsuc m) (pos n) e h k r t = (ground arith, ground arith)
down_before (negsuc m) (negsuc n) e h k r t = (ground arith, ground arith)

down_past :
    (a b : ℤ) (e : ℕ) → ltb_ℤ b a ≡ true → unsigned_abs (b -ℤ a) ≤ e → ltb_ℤ b (a -ℤ pos e) ≡ false
unfolding ◌-ℤ◌
down_past (pos m) (pos n) e h k = ground arith
down_past (pos m) (negsuc n) e h k = ground arith
down_past (negsuc m) (pos n) e h k = ground arith
down_past (negsuc m) (negsuc n) e h k = ground arith

down : (a : ℤ) (i t : ℕ) → a +ℤ pos i *ℤ negsuc t ≡ a -ℤ pos (suc t * i)
down a i t = omega (int_laws, *ℤ_parts (pos i) (negsuc t))

up : (a : ℤ) (i t : ℕ) → a +ℤ pos i *ℤ pos t ≡ a +ℤ pos (t * i)
up a i t = omega (int_laws, *ℤ_parts (pos i) (pos t))

leads_up : (a b : ℤ) (t : ℕ) → leads a b (pos t) ≡ true → (0 < t) × (ltb_ℤ a b ≡ true)
leads_up a b t l = (ground arith, ground arith)

leads_down : (a b : ℤ) (t : ℕ) → leads a b (negsuc t) ≡ true → ltb_ℤ b a ≡ true
leads_down a b t l = ground arith

-- A step that leads from `a` to `b`.
pub before :
    (a b st : ℤ) (i : ℕ)
    → is_i64 a ≡ true
    → is_i64 b ≡ true
    → leads a b st ≡ true
    → unsigned_abs st * i < unsigned_abs (b -ℤ a)
    → (precedes st (a +ℤ pos i *ℤ st) b ≡ true) × (is_i64 (a +ℤ pos i *ℤ st) ≡ true)
before a b (pos t) i h k l lt = rw (up a i t) (up_before a b (t * i) (leads_up a b t l).1 lt h k)
before a b (negsuc t) i h k l lt =
    rw (down a i t) (down_before a b (suc t * i) (leads_down a b t l) lt h k)

pub past :
    (a b st : ℤ) (i : ℕ)
    → leads a b st ≡ true
    → unsigned_abs (b -ℤ a) ≤ unsigned_abs st * i
    → precedes st (a +ℤ pos i *ℤ st) b ≡ false
past a b (pos t) i l le = rw (up a i t) (up_past a b (t * i) (leads_up a b t l).1 le)
past a b (negsuc t) i l le = rw (down a i t) (down_past a b (suc t * i) (leads_down a b t l) le)

-- A step that does not lead anywhere.
pub past_already :
    (a b st : ℤ) → st ≢ pos 0 → leads a b st ≡ false → precedes st (a +ℤ pos 0 *ℤ st) b ≡ false
past_already a b (pos zero) h l = absurd (h refl)
past_already a b (pos (suc t)) h l =
    rw (up a 0 (suc t))
      (let same : a +ℤ pos (suc t * 0) ≡ a = omega int_laws in rw same (ground arith))
past_already a b (negsuc t) h l =
    rw (down a 0 t) (let same : a -ℤ pos (suc t * 0) ≡ a = omega int_laws in rw same (ground arith))

pub leads-positive : (a b st : ℤ) → leads a b st ≡ true → 0 < unsigned_abs st
leads-positive a b (pos t) l = (leads_up a b t l).0
leads-positive a b (negsuc t) l = omega arith
