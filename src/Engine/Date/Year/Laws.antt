-- ===== src/Engine/Date/Year/Laws.antt =====
-- How the years follow one another, and how near the first guess of `year_from_days` is.
use cno_cli.Base.{ℕ, zero, suc, ◌+◌, ◌-◌, ◌*◌, ◌%◌, ◌≤◌, ◌<◌, ◌≡◌, ◌⊎◌, refl, arith, ap}
use cno_cli.Base.{◌==◌, if◌then◌else◌}
use cno_cli.Base.Int.{
  ℤ, pos, negsuc, pos_part, neg_part, sub_ℕ, ◌+ℤ◌, ◌-ℤ◌, ◌*ℤ◌, ◌≤ℤ◌, ◌<ℤ◌, +ℤ_parts, -ℤ_parts,
  *ℤ_parts, eq_of_parts,
}
use cno_cli.Engine.Date.Calendar.{
  rem, floor_div, IsDivision, floor_div-math_mod, math_mod_pos, math_mod_negsuc,
}
use cno_cli.Engine.Date.Year.{days_from_year, logical_not, days_in_year, estimate}

not_pos : (k : ℕ) → logical_not (pos k) ≡ (if k == 0 then 1 else 0)
unfolding logical_not
not_pos zero = refl
not_pos (suc k) = ground arith

not_neg : (k : ℕ) → logical_not (sub_ℕ 0 k) ≡ (if k == 0 then 1 else 0)
unfolding logical_not
not_neg zero = refl
not_neg (suc k) = ground arith

rem_negsuc : (n b : ℕ) → rem (negsuc n) b ≡ sub_ℕ 0 (suc n % b)
unfolding rem
rem_negsuc n b = refl

rem_pos : (n b : ℕ) → rem (pos n) b ≡ pos (n % b)
unfolding rem
rem_pos n b = refl

-- Whether a year is a multiple, as `!(y % b)`, is whether its division leaves 0.
not_rem :
    (y : ℤ) (b : ℕ)
    → 0 < b
    → (q : ℤ) × (r : ℕ) × IsDivision y b q r × (logical_not (rem y b) ≡ (if r == 0 then 1 else 0))
not_rem (pos n) b h =
    let (r, m, div) = floor_div-math_mod (pos n) b h in
    (
      floor_div (pos n) b,
      r,
      div,
      rw (rem_pos n b) (ground (arith, m, math_mod_pos n b, not_pos (n % b))),
    )
not_rem (negsuc n) b h =
    let (r, m, div) = floor_div-math_mod (negsuc n) b h in
    (
      floor_div (negsuc n) b,
      r,
      div,
      rw (rem_negsuc n b) (ground (arith, m, math_mod_negsuc n b h, not_neg (suc n % b))),
    )

test_cases : (r t : ℕ) → t ≡ (if r == 0 then 1 else 0) → ((r ≡ 0) × (t ≡ 1)) ⊎ ((0 < r) × (t ≡ 0))
test_cases r t e = ground arith

ruleset parts = (arith, +ℤ_parts, -ℤ_parts, *ℤ_parts)

-- From one dividend to the next the quotient grows by one where the new one is a multiple.
module _ (y : ℤ) where
  fd_step_4 :
      floor_div (y -ℤ pos 1968) 4 ≡ floor_div (y -ℤ pos 1969) 4 +ℤ pos (logical_not (rem y 4))
  fd_step_4 =
      let (q1, r1, d1, e1) = not_rem y 4 (omega arith) in
      let (r2, m2, d2) = floor_div-math_mod (y -ℤ pos 1968) 4 (omega arith) in
      let (r3, m3, d3) = floor_div-math_mod (y -ℤ pos 1969) 4 (omega arith) in
      eq_of_parts _ _ (omega (parts, test_cases r1 _ e1))

  fd_step_100 :
      floor_div (y -ℤ pos 1900) 100 ≡ floor_div (y -ℤ pos 1901) 100 +ℤ pos (logical_not (rem y 100))
  fd_step_100 =
      let (q1, r1, d1, e1) = not_rem y 100 (omega arith) in
      let (r2, m2, d2) = floor_div-math_mod (y -ℤ pos 1900) 100 (omega arith) in
      let (r3, m3, d3) = floor_div-math_mod (y -ℤ pos 1901) 100 (omega arith) in
      eq_of_parts _ _ (omega (parts, test_cases r1 _ e1))

  fd_step_400 :
      floor_div (y -ℤ pos 1600) 400 ≡ floor_div (y -ℤ pos 1601) 400 +ℤ pos (logical_not (rem y 400))
  fd_step_400 =
      let (q1, r1, d1, e1) = not_rem y 400 (omega arith) in
      let (r2, m2, d2) = floor_div-math_mod (y -ℤ pos 1600) 400 (omega arith) in
      let (r3, m3, d3) = floor_div-math_mod (y -ℤ pos 1601) 400 (omega arith) in
      eq_of_parts _ _ (omega (parts, test_cases r1 _ e1))

  shift : (k : ℕ) → y +ℤ pos 1 -ℤ pos (suc k) ≡ y -ℤ pos k
  shift k = eq_of_parts _ _ (omega parts)

-- A year begins `days_in_year` days after the one before.
pub days_from_year_step : (y : ℤ) → days_from_year (y +ℤ pos 1) ≡ days_from_year y +ℤ days_in_year y
unfolding days_from_year days_in_year
days_from_year_step y =
    rw (shift y 1968, shift y 1900, shift y 1600, fd_step_4 y, fd_step_100 y, fd_step_400 y)
      (eq_of_parts _ _ (omega parts))

days_in_year_lem :
    (y : ℤ)
    → days_in_year y
      ≡ pos 365
        +ℤ pos (logical_not (rem y 4))
        -ℤ pos (logical_not (rem y 100))
        +ℤ pos (logical_not (rem y 400))
unfolding days_in_year
days_in_year_lem y = refl

-- The length of a year is 365 or 366.
pub days_in_year_bounds : (y : ℤ) → (n : ℕ) × (days_in_year y ≡ pos (365 + n)) × (n ≤ 1)
days_in_year_bounds y =
    let (q1, r1, d1, e1) = not_rem y 4 (omega arith) in
    let (q2, r2, d2, e2) = not_rem y 100 (omega arith) in
    let (q3, r3, d3, e3) = not_rem y 400 (omega arith) in
    let a = logical_not (rem y 4) in
    let b = logical_not (rem y 100) in
    let c = logical_not (rem y 400) in
    let cases1 = test_cases r1 a e1 in
    let cases2 = test_cases r2 b e2 in
    let cases3 = test_cases r3 c e3 in
    (a + c - b, rw (days_in_year_lem y) (eq_of_parts _ _ (omega parts)), omega arith)

days_from_year_lem :
    (y : ℤ)
    → days_from_year y
      ≡ 365 *ℤ (y -ℤ pos 1970)
        +ℤ floor_div (y -ℤ pos 1969) 4
        -ℤ floor_div (y -ℤ pos 1901) 100
        +ℤ floor_div (y -ℤ pos 1601) 400
unfolding days_from_year
days_from_year_lem y = refl

-- How far `days_from_year` is from a calendar of years of 365.2425 days, in days by 400.
pub days_from_year_scaled :
    (y : ℤ)
    → let d = days_from_year y in
      (146097 * pos_part y + 400 * neg_part d ≤ 146097 * neg_part y + 400 * pos_part d + 287811596)
      × (146097 * neg_part y + 400 * pos_part d + 287810501
          ≤ 146097 * pos_part y + 400 * neg_part d)
days_from_year_scaled y =
    let (r1, m1, d1) = floor_div-math_mod (y -ℤ pos 1969) 4 (omega arith) in
    let (r2, m2, d2) = floor_div-math_mod (y -ℤ pos 1901) 100 (omega arith) in
    let (r3, m3, d3) = floor_div-math_mod (y -ℤ pos 1601) 400 (omega arith) in
    rw (days_from_year_lem y) (omega parts)

estimate_lem : (d : ℤ) → estimate d ≡ floor_div (10000 *ℤ d) 3652425 +ℤ pos 1970
unfolding estimate
estimate_lem d = refl

-- The estimate is at most one year off.
pub estimate_near :
    (d : ℤ)
    → (days_from_year (estimate d -ℤ pos 1) ≤ℤ d)
      × (d <ℤ days_from_year (estimate d +ℤ pos 1 +ℤ pos 1))
estimate_near d =
    let (r, m, div) = floor_div-math_mod (10000 *ℤ d) 3652425 (omega arith) in
    let lo = days_from_year_scaled (estimate d -ℤ pos 1) in
    let hi = days_from_year_scaled (estimate d +ℤ pos 1 +ℤ pos 1) in
    let e = ap pos_part (estimate_lem d) in let e' = ap neg_part (estimate_lem d) in omega parts
