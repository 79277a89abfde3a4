-- ===== src/Engine/BigInt/Tests.antt =====
-- Runs of the BigInt functions of .backup/quickjs.c, and its theorems at concrete numbers.
use cno_cli.Base.{ℕ, zero, suc, ◌^◌, ◌≡◌, refl, true, List, [], ◌∷◌, arith, ltb, if◌then◌else◌}
use cno_cli.Base.Int.{ℤ, ◌+ℤ◌, ◌-ℤ◌, ◌*ℤ◌}
use cno_cli.Engine.BigInt.Number.{
  Allocator, ok, redundant, js_bigint_new, js_bigint_extend, js_bigint_normalize, js_bigint_sign,
}
use cno_cli.Engine.BigInt.Limbs.{addc, subc, js_mp_mul1, js_mp_sub, js_mp_add_mul1}
use cno_cli.Engine.BigInt.Arith.{js_bigint_add, js_bigint_mul, js_bigint_shl, js_bigint_shr}
use cno_cli.Engine.BigInt.Compare.{js_bigint_cmp, js_compare_bigint, float64, short_big_int, op_lt}
use cno_cli.Engine.BigInt.Value.{value, Returns, IsNormal}
use cno_cli.Engine.BigInt.Sum.{js_bigint_add_lem}
use cno_cli.Engine.BigInt.Order.{js_bigint_cmp_lem, compare_ℤ}
use cno_cli.Engine.BigInt.LeftShift.{js_bigint_shl_lem}
use cno_cli.Engine.BigInt.Dropped.{Divides}
use cno_cli.Engine.BigInt.RightShift.{js_bigint_shr_lem}

abbrev roomy : Allocator
roomy = record { malloc = λ _. true; realloc = λ _. true }

-- 2 ^ 32 + 5 and -2.
abbrev large : List ℕ
large = 5 ∷ 1 ∷ []

abbrev minus_two : List ℕ
minus_two = 4294967294 ∷ []

-- 2 ^ 31 as the sum of two int32_t: one limb more for the sign.
add_grows : js_bigint_add roomy (1073741824 ∷ []) (1073741824 ∷ []) 0 ≡ ok (2147483648 ∷ 0 ∷ [])
unfolding js_bigint_add js_bigint_new js_bigint_extend js_bigint_sign addc
add_grows = refl

subtract_shrinks : js_bigint_add roomy large large 1 ≡ ok (0 ∷ [])
unfolding js_bigint_add js_bigint_new js_bigint_extend js_bigint_sign addc
subtract_shrinks = refl

mul_negative : js_bigint_mul roomy minus_two large ≡ ok (4294967286 ∷ 4294967293 ∷ [])
unfolding js_bigint_mul js_bigint_new js_bigint_normalize js_bigint_sign js_mp_mul1 js_mp_sub
    js_mp_add_mul1 subc
mul_negative = refl

clz64_loop : ℕ → ℕ → ℕ
clz64_loop zero x = 0
clz64_loop (suc n) x = if ltb x (2 ^ n) then suc (clz64_loop n x) else 0

clz64 : ℕ → ℕ
unfolding clz64_loop
clz64 x = clz64_loop 64 x

-- Of two negative numbers with different exponents the one nearer to zero comes out as less: -2
-- against the double -10.5.
float64_cmp_negative :
    js_compare_bigint clz64 op_lt (short_big_int 4294967294) (float64 0xC025000000000000) ≡ true
unfolding js_compare_bigint clz64
float64_cmp_negative = refl

-- 2 against 10.5.
float64_cmp_positive :
    js_compare_bigint clz64 op_lt (short_big_int 2) (float64 0x4025000000000000) ≡ true
unfolding js_compare_bigint clz64
float64_cmp_positive = refl

js_bigint_add_lem_example :
    Returns (js_bigint_add roomy large minus_two 0) (value large +ℤ value minus_two)
    × Returns (js_bigint_add roomy large minus_two 1) (value large -ℤ value minus_two)
js_bigint_add_lem_example =
    js_bigint_add_lem roomy large minus_two (λ _. (refl, refl)) (omega arith)
      ((omega arith, (omega arith, tt)), omega arith) ((omega arith, tt), omega arith)

large-IsNormal : IsNormal large
unfolding redundant
large-IsNormal = refl

js_bigint_cmp_lem_example :
    js_bigint_cmp large minus_two ≡ compare_ℤ (value large) (value minus_two)
js_bigint_cmp_lem_example =
    js_bigint_cmp_lem large minus_two (omega arith, (omega arith, tt)) (omega arith, tt)
      large-IsNormal tt

js_bigint_shl_lem_example : Returns (js_bigint_shl roomy large 40) (2 ^ 40 *ℤ value large)
js_bigint_shl_lem_example =
    js_bigint_shl_lem roomy large 40 (λ _. (refl, refl)) (omega arith, (omega arith, tt))
      large-IsNormal (omega arith)

js_bigint_shr_lem_example :
    (w : ℤ) × Returns (js_bigint_shr roomy minus_two 3) w × Divides (value minus_two) (2 ^ 3) w
js_bigint_shr_lem_example =
    js_bigint_shr_lem roomy minus_two 3 (λ _. (refl, refl)) (omega arith, tt) tt (omega arith)
