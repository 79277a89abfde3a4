-- ===== src/Engine/BigInt/Halves.antt =====
-- A limb cut in two at a shift, for the shifts of .backup/quickjs.c.
use cno_cli.Base.{ℕ, ◌+◌, ◌-◌, ◌*◌, ◌/◌, ◌%◌, ◌^◌, ◌≤◌, ◌<◌, ◌≡◌, ap, ◌∙◌, sym, arith}
use cno_cli.Base.Bits.{pow_add}
use native.Mathlib.Nat.{
  div-add-mod, mul-add-mod_self_left, mod-eq_of_lt, mod-lt, one-le-pow, div-lt_iff_lt-mul,
  mul-le-mul_right, mul-le-mul_left, mul-lt-mul_of_pos_right,
}
use cno_cli.Engine.BigInt.Value.{IsLimb}

-- The parts of v * p where p * q is the base.
module _ (p q v : ℕ) (base : p * q ≡ 4294967296) (p_pos : 0 < p) (q_pos : 0 < q) where
  cut : v * p ≡ 4294967296 * (v / q) + v % q * p
  cut = omega (arith, ap (λ (t : ℕ). t * p) (div-add-mod v q), ap (λ (t : ℕ). t * (v / q)) base)

  low_fits : v % q * p < 4294967296
  low_fits = omega (arith, mul-lt-mul_of_pos_right {n = q} (mod-lt v q_pos) p_pos, base)

  pub high_part : v * p / 4294967296 ≡ v / q
  high_part = omega (arith, cut, low_fits)

  pub low_part : v * p % 4294967296 ≡ v % q * p
  low_part = omega (arith, cut, low_fits)

  pub filled_fits : (l : ℕ) → l < p → v % q * p + l < 4294967296
  filled_fits l h = omega (arith, mul-le-mul_right {n = q} p (mod-lt v q_pos), base)

  pub high_fits : IsLimb v → v / q < p
  high_fits h = (div-lt_iff_lt-mul q_pos).1 (omega (arith, base))

pub pow_pos : (k : ℕ) → 0 < 2 ^ k
pow_pos k = one-le-pow k 2 (omega arith)

pub powers_base : (k : ℕ) → k ≤ 32 → 2 ^ k * 2 ^ (32 - k) ≡ 4294967296
powers_base k h =
    let e : k + (32 - k) ≡ 32 = omega arith in sym (pow_add k (32 - k)) ∙ ap (λ n. 2 ^ n) e

-- At most 31 bits.
pub pow-le : (shift : ℕ) → shift ≤ 31 → 2 ^ shift ≤ 2147483648
pow-le shift h =
    let e : shift + (31 - shift) ≡ 31 = omega arith in
    omega (
      arith,
      sym (pow_add shift (31 - shift)) ∙ ap (λ n. 2 ^ n) e,
      mul-le-mul_left {m = 1} (2 ^ shift) (pow_pos (31 - shift)),
    )

-- All ones, cut.
pub ones_cut : (k : ℕ) → k ≤ 32 → 4294967295 % 2 ^ k ≡ 2 ^ k - 1
ones_cut k h =
    let one_less : 2 ^ (32 - k) - 1 + 1 ≡ 2 ^ (32 - k) = omega (arith, pow_pos (32 - k)) in
    let e : 4294967295 ≡ 2 ^ k * (2 ^ (32 - k) - 1) + (2 ^ k - 1) =
      omega (arith, powers_base k h, pow_pos k, ap (λ (t : ℕ). 2 ^ k * t) one_less) in
    ap (λ (n : ℕ). n % 2 ^ k) e
    ∙ mul-add-mod_self_left (2 ^ k) (2 ^ (32 - k) - 1) (2 ^ k - 1)
    ∙ mod-eq_of_lt (omega (arith, pow_pos k))

pub pow_split : (n : ℕ) → 2 ^ n ≡ 2 ^ (32 * (n / 32)) * 2 ^ (n % 32)
pow_split n =
    let e : n ≡ 32 * (n / 32) + n % 32 = omega arith in
    ap (λ k. 2 ^ k) e ∙ pow_add (32 * (n / 32)) (n % 32)
