-- ===== src/Engine/MapState/Numbers.antt =====
-- Numbers as keys of a `Map` of .backup/quickjs.c: the bits of doubles, and how `js_strict_eq2`
-- compares them. The conversion from an integer of 32 bits and the test `==` are those of the C language
-- for doubles of IEEE 754.
use cno_cli.Base.{
  ℕ, zero, suc, ◌+◌, ◌*◌, ◌-◌, ◌%◌, ◌≤◌, ◌<◌, ◌≡◌, refl, arith, Bool, true, false, not, ◌&&◌, ◌||◌,
  ◌==◌, ltb, if◌then◌else◌, Bool-cases, inl, inr, ◌⊎◌,
}
use cno_cli.Base.Int.{ℤ, pos, negsuc}

-- The exponent with all bits set, and a fraction.
unfoldable pub is_nan : ℕ → Bool
is_nan bits = ltb 9218868437227405312 (bits % 9223372036854775808)

-- +0 or -0
unfoldable pub is_zero : ℕ → Bool
is_zero bits = bits % 9223372036854775808 == 0

-- The macro `NAN`
abbrev pub nan : ℕ
nan = 9221120237041090560

-- `d1 == d2` where none is NaN.
unfoldable pub equal_doubles : ℕ → ℕ → Bool
unfolding is_zero
equal_doubles x y = x == y || (is_zero x && is_zero y)

unfoldable pub same_bool : Bool → Bool → Bool
same_bool true b = b
same_bool false b = not b

unfoldable pub number_test : ℕ → ℕ → Bool
unfolding is_nan equal_doubles same_bool
number_test x y =
    if is_nan x || is_nan y then same_bool (is_nan x) (is_nan y) else equal_doubles x y

-- The significand m is shifted to 53 bits, the first of which is not stored.
unfoldable pub pack : ℕ → ℕ → ℕ → ℕ
pack zero m e = e * 4503599627370496 + (m - 4503599627370496)
pack (suc fuel) m e =
    let rest = pack fuel (m * 2) (e - 1) in
    if ltb m 4503599627370496 then rest else e * 4503599627370496 + (m - 4503599627370496)

-- Of a number that is not 0 and below 2 ^ 32.
abbrev pub double_of_pos : ℕ → ℕ
double_of_pos n = pack 31 (n * 2097152) 1054

unfoldable pub double_of_int : ℤ → ℕ
unfolding pack
double_of_int (pos zero) = 0
double_of_int (pos (suc n)) = double_of_pos (suc n)
double_of_int (negsuc n) = 9223372036854775808 + double_of_pos (suc n)

-- `int32_t`
abbrev pub IsInt32 : ℤ → Type 0
IsInt32 (pos n) = n < 2147483648
IsInt32 (negsuc n) = n < 2147483648

pack-bounds :
    (fuel m e : ℕ)
    → m < 9007199254740992
    → fuel < e
    → e ≤ 1054
    → (0 < pack fuel m e) × (pack fuel m e < 4751297606875873280)
unfolding pack
pack-bounds zero m e h lo hi = (omega arith, omega arith)
pack-bounds (suc fuel) m e h lo hi = elim (Bool-cases (ltb m 4503599627370496)) [
  | inl small ↦
      rw small (pack-bounds fuel (m * 2) (e - 1) (ground arith) (omega arith) (omega arith))
  | inr large ↦ rw large (omega arith, omega arith)
]

module _ (bits x : ℕ) (rest : bits % 9223372036854775808 ≡ x) (more : 0 < x)
    (fits : x < 4751297606875873280) where
  nan-no : is_nan bits ≡ false
  unfolding is_nan
  nan-no = rw rest (ground (arith))

  zero-no : is_zero bits ≡ false
  unfolding is_zero
  zero-no = rw rest (ground (arith))

-- A converted integer is not NaN, and not -0.
abbrev pub Converts : ℕ → Type 0
Converts bits = (is_nan bits ≡ false) × ((bits ≡ 0) ⊎ (is_zero bits ≡ false))

pub double_of_int-Converts : (a : ℤ) → IsInt32 a → Converts (double_of_int a)
unfolding double_of_int
double_of_int-Converts (pos zero) h = (unfold is_nan in refl, inl refl)
double_of_int-Converts (pos (suc n)) h =
    let bits = double_of_pos (suc n) in
    let (lo, hi) =
      pack-bounds 31 (suc n * 2097152) 1054 (omega arith) (omega arith) (omega arith) in
    let rest : bits % 9223372036854775808 ≡ bits = omega arith in
    (nan-no bits bits rest lo hi, inr (zero-no bits bits rest lo hi))
double_of_int-Converts (negsuc n) h =
    let x = double_of_pos (suc n) in
    let (lo, hi) =
      pack-bounds 31 (suc n * 2097152) 1054 (omega arith) (omega arith) (omega arith) in
    let rest : (9223372036854775808 + x) % 9223372036854775808 ≡ x = omega arith in
    (
      nan-no (9223372036854775808 + x) x rest lo hi,
      inr (zero-no (9223372036854775808 + x) x rest lo hi),
    )

-- Doubles that are the same are both NaN, or the two zeros, or have the same bits.
pub number_test-cases :
    (x y : ℕ)
    → number_test x y ≡ true
    → ((is_nan x ≡ true) × (is_nan y ≡ true))
      ⊎ ((is_zero x ≡ true) × (is_zero y ≡ true) × (is_nan x ≡ false) × (is_nan y ≡ false))
      ⊎ (x ≡ y)
unfolding number_test equal_doubles same_bool
number_test-cases x y h = elim (Bool-cases (is_nan x)) [
  | inl nx ↦ elim (Bool-cases (is_nan y)) [ inl ny ↦ inl (nx, ny) | inr ny ↦ absurd (ground arith) ]
  | inr nx ↦ elim (Bool-cases (is_nan y)) [
    | inl ny ↦ absurd (ground arith)
    | inr ny ↦ elim (Bool-cases (x == y)) [
      | inl equal ↦ inr (inr (ground arith))
      | inr other ↦ inr (inl (ground arith, ground arith, nx, ny))
    ]
  ]
]
