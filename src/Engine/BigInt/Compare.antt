-- ===== src/Engine/BigInt/Compare.antt =====
-- Comparison of BigInts, with each other and with doubles, in .backup/quickjs.c. A double is its 64
-- bits; a result is the C `int`.
use cno_cli.Base.{
  ℕ, zero, suc, ◌+◌, ◌-◌, ◌*◌, ◌/◌, ◌%◌, ◌^◌, Bool, false, not, ◌&&◌, Option, none, some, List, [],
  ◌∷◌, ◌++◌, ltb, ◌==◌, if◌then◌else◌, length, take, drop, u32, bit_or, bit_xor, low_bits,
}
use cno_cli.Base.Int.{ℤ, pos, negsuc, ltb_ℤ, ◌-ℤ◌}
use cno_cli.Engine.BigInt.Limbs.{flag, limb_neg}
use cno_cli.Engine.BigInt.Number.{limb_at, js_bigint_sign, js_bigint_set_si}
use cno_cli.Engine.BigInt.Arith.{zero_limbs, is_zero_number}
use mathlib.Core.Option

-- 1 - 2 * s and 2 * s - 1
abbrev pub up_if_positive : ℕ → ℤ
up_if_positive s = pos 1 -ℤ pos (2 * s)

abbrev pub down_if_positive : ℕ → ℤ
down_if_positive s = pos (2 * s) -ℤ pos 1

-- The loop from the highest limb down to the first that differs: the limbs above come first.
unfoldable pub cmp_loop : List ℕ → List ℕ → ℤ
cmp_loop (x ∷ a) (y ∷ b) =
    let above = cmp_loop a b in
    elim above [
      | pos zero ↦ if x == y then pos 0 else if ltb x y then negsuc 0 else pos 1
      | decided ↦ decided
    ]
cmp_loop _ _ = pos 0

unfoldable pub js_bigint_cmp : List ℕ → List ℕ → ℤ
unfolding js_bigint_sign cmp_loop ◌-ℤ◌
js_bigint_cmp a b =
    let a_sign = js_bigint_sign a in
    let b_sign = js_bigint_sign b in
    if a_sign == b_sign
    then (if length a == length b
        then cmp_loop a b
        else if ltb (length a) (length b)
        then down_if_positive a_sign
        else up_if_positive a_sign)
    else up_if_positive a_sign

-- (tab[i] ^ (-sgn)) + carry over all limbs.
unfoldable pub abs_loop : ℕ → List ℕ → ℕ → List ℕ
abs_loop flip [] carry = []
abs_loop flip (x ∷ a) carry =
    let v = u32 (bit_xor x flip + carry) in v ∷ abs_loop flip a (flag (ltb v carry))

-- `low_bits` of the low limbs: what the loop ors together.
unfoldable pub or_loop : List ℕ → ℕ → ℕ
or_loop [] low = low
or_loop (v ∷ a) low = or_loop a (bit_or low v)

-- The normalization of the 96 bits a1 and a0: the mantissa. clz64 is that of cutils.h.
unfoldable pub mantissa : (ℕ → ℕ) → ℕ → ℕ → ℕ
mantissa clz64 a1 a0 =
    let shift = clz64 a1 in
    let high =
      if shift == 0 then a1 else bit_or (a1 * 2 ^ shift % 2 ^ 64) (a0 / 2 ^ (64 - shift)) in
    let low = if shift == 0 then a0 else a0 * 2 ^ shift % 2 ^ 64 in
    bit_or high (flag (not (low == 0)))

-- The mantissa and the exponent.
unfoldable pub js_bigint_get_mant_exp : (ℕ → ℕ) → List ℕ → ℕ × ℕ
unfolding js_bigint_sign abs_loop or_loop mantissa
js_bigint_get_mant_exp clz64 a =
    let sgn = js_bigint_sign a in
    let limbs = abs_loop (limb_neg sgn) a sgn in
    let n1 = length a - 3 in
    let t = zero_limbs (3 - length a) ++ drop n1 limbs in
    let a1 = bit_or (limb_at t 2 * 2 ^ 32) (limb_at t 1) in
    let a0 = bit_or (limb_at t 0 * 2 ^ 32) (flag (not (or_loop (take n1 limbs) 0 == 0))) in
    (mantissa clz64 a1 a0, length a * 32 - clz64 a1 - 1)

-- The order of the magnitudes of two numbers of one sign, a and a double of exponent e.
unfoldable pub cmp_magnitudes : ℕ → ℕ × ℕ → ℤ → ℕ → ℤ
unfolding ◌-ℤ◌
cmp_magnitudes a_sign (a_mant, f) e mant =
    if ltb_ℤ (pos f) e
    then negsuc 0
    else if ltb_ℤ e (pos f)
    then pos 1
    else (let aligned = bit_or mant (2 ^ 52) * 2 ^ 11 in
        if ltb a_mant aligned
        then down_if_positive a_sign
        else if ltb aligned a_mant
        then up_if_positive a_sign
        else pos 0)

-- The result 2 is unordered.
unfoldable pub js_bigint_float64_cmp : (ℕ → ℕ) → List ℕ → ℕ → ℤ
unfolding js_bigint_sign js_bigint_get_mant_exp cmp_magnitudes ◌-ℤ◌
js_bigint_float64_cmp clz64 a b1 =
    let b_sign = b1 / 2 ^ 63 in
    let e = low_bits (b1 / 2 ^ 52) 11 in
    let mant = low_bits b1 52 in
    let a_sign = js_bigint_sign a in
    if e == 2047
    then (if mant == 0 then down_if_positive b_sign else pos 2)
    else if e == 0 && mant == 0
    then (if is_zero_number a then pos 0 else up_if_positive a_sign)
    else if is_zero_number a
    then down_if_positive b_sign
    else if a_sign == b_sign
    then cmp_magnitudes a_sign (js_bigint_get_mant_exp clz64 a) (pos e -ℤ pos 1023) mant
    else up_if_positive a_sign

-- The operands of a comparison. Integers are the bits of an `int32_t`.
pub data Numeric : Type 0 where
  int short_big_int float64 : ℕ → Numeric
  big_int : List ℕ → Numeric

-- A BigInt or an int; other operands do not come here.
unfoldable pub js_to_bigint_buf : Numeric → List ℕ
unfolding js_bigint_set_si
js_to_bigint_buf (int v) = js_bigint_set_si v
js_to_bigint_buf (short_big_int v) = js_bigint_set_si v
js_to_bigint_buf (float64 v) = []
js_to_bigint_buf (big_int p) = p

-- (v1 > v2) - (v1 < v2)
unfoldable pub cmp_int32 : ℕ → ℕ → ℤ
cmp_int32 v1 v2 =
    let s1 = u32 (v1 + 2147483648) in
    let s2 = u32 (v2 + 2147483648) in
    if ltb s1 s2 then negsuc 0 else if ltb s2 s1 then pos 1 else pos 0

-- The fast path of js_compare_bigint.
abbrev pub small_of : Numeric → Option ℕ
small_of (int v) = some v
small_of (short_big_int v) = some v
small_of other = none

-- `goto unordered` is none.
unfoldable pub ordered : ℤ → Option ℤ
ordered (pos (suc (suc n))) = none
ordered val = some val

unfoldable pub negated : ℤ → ℤ
unfolding ◌-ℤ◌
negated val = pos 0 -ℤ val

-- The other paths: a double on either side, or two BigInts.
unfoldable pub cmp_general : (ℕ → ℕ) → Numeric → Numeric → Option ℤ
unfolding js_to_bigint_buf js_bigint_float64_cmp js_bigint_cmp ordered negated
cmp_general clz64 (float64 d) op2 =
    Option.map negated (ordered (js_bigint_float64_cmp clz64 (js_to_bigint_buf op2) d))
cmp_general clz64 op1 (float64 d) = ordered (js_bigint_float64_cmp clz64 (js_to_bigint_buf op1) d)
cmp_general clz64 op1 op2 = some (js_bigint_cmp (js_to_bigint_buf op1) (js_to_bigint_buf op2))

pub data CompareOp : Type 0 where
  op_lt op_lte op_gt op_gte op_eq : CompareOp

-- The `switch`.
unfoldable pub holds_for : CompareOp → ℤ → Bool
holds_for op_lt val = ltb_ℤ val (pos 0)
holds_for op_lte val = not (ltb_ℤ (pos 0) val)
holds_for op_gt val = ltb_ℤ (pos 0) val
holds_for op_gte val = not (ltb_ℤ val (pos 0))
holds_for op_eq val = not (ltb_ℤ val (pos 0)) && not (ltb_ℤ (pos 0) val)

-- The fast path has both operands.
unfoldable pub compared : (ℕ → ℕ) → Numeric → Numeric → Option ℕ → Option ℕ → Option ℤ
unfolding cmp_int32 cmp_general
compared clz64 op1 op2 (some v1) (some v2) = some (cmp_int32 v1 v2)
compared clz64 op1 op2 small1 small2 = cmp_general clz64 op1 op2

unfoldable pub js_compare_bigint : (ℕ → ℕ) → CompareOp → Numeric → Numeric → Bool
unfolding compared holds_for
js_compare_bigint clz64 op op1 op2 = elim (compared clz64 op1 op2 (small_of op1) (small_of op2)) [
  | none ↦ false
  | some val ↦ holds_for op val
]
