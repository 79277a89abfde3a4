-- ===== src/Engine/Date/Calendar.antt =====
-- `math_mod` and `floor_div_int64` of .backup/quickjs.c, for a divisor that is positive, as every
-- caller's is. An `int64_t` is an integer: for the days of a `Date`, at most 10 ^ 8 from 0, no product
-- or sum here leaves its 64 bits.
use cno_cli.Base.{ℕ, zero, suc, ◌+◌, ◌-◌, ◌*◌, ◌/◌, ◌%◌, ◌<◌, ◌≡◌, refl, arith}
use cno_cli.Base.{inl, inr, Bool-cases, ◌==◌, if◌then◌else◌}
use cno_cli.Base.Int.{
  ℤ, pos, negsuc, pos_part, neg_part, sub_ℕ, ◌+ℤ◌, ◌-ℤ◌, ltb_ℤ, -ℤ_parts, eq_of_parts,
}

-- C's `%` and `/` round toward zero. The divisors are positive numbers.
unfoldable pub rem : ℤ → ℕ → ℤ
rem (pos n) b = pos (n % b)
rem (negsuc n) b = sub_ℕ 0 (suc n % b)

unfoldable pub quot : ℤ → ℕ → ℤ
quot (pos n) b = pos (n / b)
quot (negsuc n) b = sub_ℕ 0 (suc n / b)

-- `m + (m < 0) * b`, for `m` the remainder of C.
unfoldable pub math_mod : ℤ → ℕ → ℤ
math_mod a b = let m = rem a b in m +ℤ (if ltb_ℤ m (pos 0) then pos b else pos 0)

unfoldable pub floor_div : ℤ → ℕ → ℤ
unfolding math_mod
floor_div a b = quot (a -ℤ math_mod a b) b

-- `a` is `b * q + r` with `r` below `b`.
abbrev pub IsDivision : ℤ → ℕ → ℤ → ℕ → Type 0
IsDivision a b q r = (r < b) × (pos_part a + b * neg_part q ≡ neg_part a + b * pos_part q + r)

-- The least natural number to add to -(n + 1) for a multiple of b.
abbrev pub gap : ℕ → ℕ → ℕ
gap n b = if suc n % b == 0 then 0 else b - suc n % b

pub math_mod_pos : (n b : ℕ) → math_mod (pos n) b ≡ pos (n % b)
unfolding math_mod rem ◌+ℤ◌
math_mod_pos n b = ground arith

pub math_mod_negsuc : (n b : ℕ) → 0 < b → math_mod (negsuc n) b ≡ pos (gap n b)
unfolding math_mod rem ◌+ℤ◌
math_mod_negsuc n b h = grind arith

mul-div : (k b : ℕ) → 0 < b → k * b / b ≡ k
mul-div k b h = grind arith

pos_sub : (n r k : ℕ) → n ≡ k + r → pos n -ℤ pos r ≡ pos k
pos_sub n r k e = eq_of_parts _ _ (omega (arith, -ℤ_parts (pos n) (pos r)))

negsuc_sub : (n r k : ℕ) → suc n + r ≡ k → negsuc n -ℤ pos r ≡ sub_ℕ 0 k
negsuc_sub n r k e = eq_of_parts _ _ (ground (arith, -ℤ_parts (negsuc n) (pos r)))

quot_neg : (k b : ℕ) → quot (sub_ℕ 0 k) b ≡ sub_ℕ 0 (k / b)
unfolding quot
quot_neg zero b = ground arith
quot_neg (suc k) b = ground arith

pub floor_div_pos : (n b : ℕ) → 0 < b → floor_div (pos n) b ≡ pos (n / b)
unfolding floor_div quot
floor_div_pos n b h =
    rw (math_mod_pos n b, pos_sub n (n % b) (n / b * b) (grind arith))
      (rw (mul-div (n / b) b h) refl)

floor_div_negsuc : (n b : ℕ) → 0 < b → floor_div (negsuc n) b ≡ sub_ℕ 0 ((suc n + gap n b) / b)
unfolding floor_div
floor_div_negsuc n b h =
    rw (math_mod_negsuc n b h, negsuc_sub n (gap n b) (suc n + gap n b) refl)
      (quot_neg (suc n + gap n b) b)

exact : (n k b : ℕ) → 0 < b → n ≡ k * b → n / b * b ≡ n
exact n k b h e = rw (e, mul-div k b h) refl

gap_exact : (n b : ℕ) → 0 < b → (suc n + gap n b) / b * b ≡ suc n + gap n b
gap_exact n b h = elim (Bool-cases (suc n % b == 0)) [
  | inl even ↦ exact _ (suc n / b) b h (rw even (grind arith))
  | inr odd ↦ exact _ (suc n / b + 1) b h (rw odd (grind arith))
]

neg_of_sub : (k b : ℕ) → (pos_part (sub_ℕ 0 k) ≡ 0) × (neg_part (sub_ℕ 0 k) ≡ k)
neg_of_sub zero b = ground arith
neg_of_sub (suc k) b = ground arith

-- `floor_div_int64` and `math_mod` are the quotient and the remainder of a division that rounds
-- down: for every dividend and every positive divisor.
pub floor_div-math_mod :
    (a : ℤ) (b : ℕ) → 0 < b → (r : ℕ) × (math_mod a b ≡ pos r) × IsDivision a b (floor_div a b) r
floor_div-math_mod (pos n) b h =
    (n % b, math_mod_pos n b, (grind arith, rw (floor_div_pos n b h) (grind arith)))
floor_div-math_mod (negsuc n) b h = (
  gap n b,
  math_mod_negsuc n b h,
  (
    grind arith,
    rw (floor_div_negsuc n b h) (
        let k = (suc n + gap n b) / b in
        rw ((neg_of_sub k b).0, (neg_of_sub k b).1) (omega (arith, gap_exact n b h))),
  ),
)
