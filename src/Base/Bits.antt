-- ===== src/Base/Bits.antt =====
-- Shifts, masks of low bits, and `|` of a shifted value with one below it, as arithmetic.
use Prim.Native.Nat.{ℕ, zero, suc, ◌+◌, ◌-◌, ◌*◌, ◌/◌, ◌%◌, ◌^◌, ◌≤◌, ◌<◌, min, max}
use Prim.Native.Nat.{
  bit_and, bit_or, digits, bitwise, bit_xor, differ, bit_and-bitwise, bit_or-bitwise,
  bit_xor-bitwise,
}
use mathlib.Core.Path.{◌≡◌, refl, sym, ap, ◌∙◌}
use native.Mathlib.Nat.{pow-suc, add-zero, add-suc}
use native.Mathlib.Omega.{arith}

-- x << k, x >> k, and x & (2 ^ k - 1).
abbrev pub shl : ℕ → ℕ → ℕ
shl x k = x * 2 ^ k

abbrev pub shr : ℕ → ℕ → ℕ
shr x k = x / 2 ^ k

abbrev pub low_bits : ℕ → ℕ → ℕ
low_bits x k = x % 2 ^ k

-- Casts to the fixed widths.
abbrev pub u8 : ℕ → ℕ
u8 x = x % 256

abbrev pub u32 : ℕ → ℕ
u32 x = x % 4294967296

-- What `bitwise` does on the lowest digit. Its count of digits to go may as well be larger.
module _ (last : ℕ → ℕ) (op : ℕ → ℕ → ℕ) where
  digits_run_out : (count b : ℕ) → digits last op count 0 b ≡ last b
  digits_run_out zero b = refl
  digits_run_out (suc count) b = refl

  spare_digits :
      (a b small large : ℕ)
      → a ≤ small
      → small ≤ large
      → digits last op large a b ≡ digits last op small a b
  spare_digits zero b small large h k = digits_run_out large b ∙ sym (digits_run_out small b)
  spare_digits (suc a) b zero large h k = absurd (omega arith)
  spare_digits (suc a) b (suc small) zero h k = absurd (omega arith)
  spare_digits (suc a) b (suc small) (suc large) h k =
      ap (λ (high : ℕ). high * 2 + op (suc a % 2) (b % 2))
        (spare_digits (suc a / 2) (b / 2) small large (omega arith) (omega arith))

  lowest_digit :
      (a b : ℕ)
      → bitwise last op (suc a) b ≡ bitwise last op (suc a / 2) (b / 2) * 2 + op (suc a % 2) (b % 2)
  lowest_digit a b =
      ap (λ (high : ℕ). high * 2 + op (suc a % 2) (b % 2))
        (spare_digits (suc a / 2) (b / 2) (suc a / 2) a (omega arith) (omega arith))

pub bit_or_step : (a b : ℕ) → bit_or a b ≡ bit_or (a / 2) (b / 2) * 2 + max (a % 2) (b % 2)
bit_or_step a b = rw (bit_or-bitwise a b, bit_or-bitwise (a / 2) (b / 2)) (by_lowest a b)
  where
    by_lowest :
        (a b : ℕ)
        → bitwise (λ y. y) max a b ≡ bitwise (λ y. y) max (a / 2) (b / 2) * 2 + max (a % 2) (b % 2)
    by_lowest zero b = omega arith
    by_lowest (suc a) b = lowest_digit (λ y. y) max a b

bit_or-zero_below : (bound x : ℕ) → x ≤ bound → bit_or x 0 ≡ x
bit_or-zero_below bound zero h = refl
bit_or-zero_below zero (suc x) h = absurd (omega arith)
bit_or-zero_below (suc bound) (suc x) h =
    let half = bit_or-zero_below bound (suc x / 2) (omega arith) in
    bit_or_step (suc x) 0 ∙ rw half (omega arith)

-- (hi << k) | lo is a sum where lo fits in k bits.
pub bit_or-shl : (k hi lo : ℕ) → lo < 2 ^ k → bit_or (hi * 2 ^ k) lo ≡ hi * 2 ^ k + lo
bit_or-shl zero hi lo h = ground (arith, bit_or-zero_below hi hi)
bit_or-shl (suc k) hi lo h = ground (
  arith,
  ap (λ (t : ℕ). hi * t) (pow-suc 2 k),
  bit_or_step (hi * 2 ^ suc k) lo,
  bit_or-shl k hi (lo / 2) (omega (arith, pow-suc 2 k)),
)

pub bit_and_step : (a b : ℕ) → bit_and a b ≡ bit_and (a / 2) (b / 2) * 2 + min (a % 2) (b % 2)
bit_and_step a b = rw (bit_and-bitwise a b, bit_and-bitwise (a / 2) (b / 2)) (by_lowest a b)
  where
    by_lowest :
        (a b : ℕ)
        → bitwise (λ y. 0) min a b ≡ bitwise (λ y. 0) min (a / 2) (b / 2) * 2 + min (a % 2) (b % 2)
    by_lowest zero b = omega arith
    by_lowest (suc a) b = lowest_digit (λ y. 0) min a b

bit_and-zero_below : (bound x : ℕ) → x ≤ bound → bit_and x 0 ≡ 0
bit_and-zero_below bound zero h = refl
bit_and-zero_below zero (suc x) h = absurd (omega arith)
bit_and-zero_below (suc bound) (suc x) h =
    let half = bit_and-zero_below bound (suc x / 2) (omega arith) in
    bit_and_step (suc x) 0 ∙ rw half (omega arith)

-- A flag of one bit.
pub bit_and-one : (a : ℕ) → bit_and a 1 ≡ a % 2
bit_and-one a = omega (arith, bit_and_step a 1, bit_and-zero_below (a / 2) (a / 2) (omega arith))

-- The lowest bit of a conjunction.
pub bit_and-even : (a b : ℕ) → bit_and a b % 2 ≡ min (a % 2) (b % 2)
bit_and-even a b = omega (arith, bit_and_step a b)

bit_and-le_bound : (bound a b : ℕ) → b ≤ bound → bit_and a b ≤ b
bit_and-le_bound zero a zero h = omega (arith, bit_and-zero_below a a)
bit_and-le_bound (suc bound) a zero h = omega (arith, bit_and-zero_below a a)
bit_and-le_bound zero a (suc b) h = absurd (omega arith)
bit_and-le_bound (suc bound) a (suc b) h =
    omega (arith, bit_and_step a (suc b), bit_and-le_bound bound (a / 2) (suc b / 2) (omega arith))

-- A mask bounds what it leaves.
pub bit_and-le : (a b : ℕ) → bit_and a b ≤ b
bit_and-le a b = bit_and-le_bound b a b (omega arith)

bit_or_comm_bound : (bound a b : ℕ) → a ≤ bound → b ≤ bound → bit_or a b ≡ bit_or b a
bit_or_comm_bound zero zero zero h k = refl
bit_or_comm_bound zero zero (suc b) h k = absurd (omega arith)
bit_or_comm_bound zero (suc a) b h k = absurd (omega arith)
bit_or_comm_bound (suc bound) a b h k = omega (
  arith,
  bit_or_step a b,
  bit_or_step b a,
  bit_or_comm_bound bound (a / 2) (b / 2) (omega arith) (omega arith),
)

pub bit_or_comm : (a b : ℕ) → bit_or a b ≡ bit_or b a
bit_or_comm a b = bit_or_comm_bound (a + b) a b (omega arith) (omega arith)

-- The two highest bits of a byte.
pub bit_and-top : (a : ℕ) → bit_and a 192 ≡ 64 * bit_and (a / 64) 3
bit_and-top a = omega (
  arith,
  bit_and_step a 192,
  bit_and_step (a / 2) 96,
  bit_and_step (a / 2 / 2) 48,
  bit_and_step (a / 2 / 2 / 2) 24,
  bit_and_step (a / 2 / 2 / 2 / 2) 12,
  bit_and_step (a / 2 / 2 / 2 / 2 / 2) 6,
  ap (λ (x : ℕ). bit_and x 3) (halves a),
)
  where
    halves : (a : ℕ) → a / 2 / 2 / 2 / 2 / 2 / 2 ≡ a / 64
    halves a = omega arith

pub bit_xor_step : (a b : ℕ) → bit_xor a b ≡ bit_xor (a / 2) (b / 2) * 2 + differ (a % 2) (b % 2)
bit_xor_step a b = rw (bit_xor-bitwise a b, bit_xor-bitwise (a / 2) (b / 2)) (by_lowest a b)
  where
    by_lowest :
        (a b : ℕ)
        → bitwise (λ y. y) differ a b
          ≡ bitwise (λ y. y) differ (a / 2) (b / 2) * 2 + differ (a % 2) (b % 2)
    by_lowest zero b = omega arith
    by_lowest (suc a) b = lowest_digit (λ y. y) differ a b

differ_bits : (a : ℕ) → a ≤ 1 → (differ a 0 ≡ a) × (differ a 1 ≡ 1 - a)
differ_bits zero h = (refl, refl)
differ_bits (suc zero) h = (refl, refl)
differ_bits (suc (suc a)) h = absurd (omega arith)

bit_xor-zero_below : (bound x : ℕ) → x ≤ bound → bit_xor x 0 ≡ x
bit_xor-zero_below bound zero h = refl
bit_xor-zero_below zero (suc x) h = absurd (omega arith)
bit_xor-zero_below (suc bound) (suc x) h = omega (
  arith,
  bit_xor_step (suc x) 0,
  bit_xor-zero_below bound (suc x / 2) (omega arith),
  (differ_bits (suc x % 2) (omega arith)).0,
)

pub bit_xor-zero : (x : ℕ) → bit_xor x 0 ≡ x
bit_xor-zero x = bit_xor-zero_below x x (omega arith)

-- `^` with all ones is `~`.
pub bit_xor-ones : (k x : ℕ) → x < 2 ^ k → bit_xor x (2 ^ k - 1) ≡ 2 ^ k - 1 - x
bit_xor-ones zero zero h = refl
bit_xor-ones zero (suc x) h = absurd (omega arith)
bit_xor-ones (suc k) x h =
    let half : (2 ^ suc k - 1) / 2 ≡ 2 ^ k - 1 = omega (arith, pow-suc 2 k) in
    let odd : (2 ^ suc k - 1) % 2 ≡ 1 = omega (arith, pow-suc 2 k, h) in
    omega (
      arith,
      pow-suc 2 k,
      bit_xor_step x (2 ^ suc k - 1),
      ap (λ (y : ℕ). bit_xor (x / 2) y) half,
      ap (λ (y : ℕ). differ (x % 2) y) odd,
      bit_xor-ones k (x / 2) (omega (arith, pow-suc 2 k)),
      (differ_bits (x % 2) (omega arith)).1,
    )

pub pow_add : (a b : ℕ) → 2 ^ (a + b) ≡ 2 ^ a * 2 ^ b
pow_add a zero = rw (add-zero a) (omega arith)
pow_add a (suc b) = rw (add-suc a b) (
    omega (
      arith,
      pow-suc 2 (a + b),
      ap (λ (t : ℕ). 2 ^ a * t) (pow-suc 2 b),
      ap (λ (t : ℕ). t * 2) (pow_add a b),
    ))
