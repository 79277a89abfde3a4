-- ===== src/Engine/BigInt/Arith.antt =====
-- The operations on `JSBigInt` of .backup/quickjs.c: sums, products, bits and shifts. Where they
-- free a result on an error, the value is only dropped.
use cno_cli.Base.{
  ℕ, zero, suc, ◌+◌, ◌-◌, ◌*◌, ◌/◌, ◌%◌, ◌^◌, Bool, ◌&&◌, List, [], ◌∷◌, ◌++◌, map, leb, ltb, ◌==◌,
  if◌then◌else◌, length, take, drop, u32, max, bit_or, bit_and, bit_xor,
}
use cno_cli.Engine.BigInt.Limbs.{
  limb_base, limb_neg, limb_not, addc, put, js_mp_add_mul1, js_mp_mul1, js_mp_sub, js_mp_shl,
  js_mp_shr,
}
use cno_cli.Engine.BigInt.Number.{
  Allocator, BigIntResult, ok, ◌>>◌, js_bigint_new, js_bigint_new_si, js_bigint_set_si,
  js_bigint_sign, js_bigint_extend, js_bigint_normalize, limb_at,
}

abbrev pub zero_limbs : ℕ → List ℕ
zero_limbs zero = []
zero_limbs (suc n) = 0 ∷ zero_limbs n

-- The loops of `js_bigint_add`: the common part, then the part with the sign extension of one
-- operand. `flip` is -b_neg; `a_sign` and `b_sign` are the limbs past the end.
unfoldable pub add_loop : ℕ → ℕ → ℕ → List ℕ → List ℕ → ℕ → List ℕ × ℕ
add_loop flip a_sign b_sign [] [] carry = ([], carry)
add_loop flip a_sign b_sign (x ∷ a) [] carry =
    let (sum, next) = addc x b_sign carry in put sum (add_loop flip a_sign b_sign a [] next)
add_loop flip a_sign b_sign [] (y ∷ b) carry =
    let (sum, next) = addc a_sign (bit_xor y flip) carry in
    put sum (add_loop flip a_sign b_sign [] b next)
add_loop flip a_sign b_sign (x ∷ a) (y ∷ b) carry =
    let (sum, next) = addc x (bit_xor y flip) carry in
    put sum (add_loop flip a_sign b_sign a b next)

-- `b_neg` is 0 or 1.
unfoldable pub js_bigint_add : Allocator → List ℕ → List ℕ → ℕ → BigIntResult (List ℕ)
unfolding add_loop
js_bigint_add m a b b_neg =
    let flip = limb_neg b_neg in
    let a_sign = limb_neg (js_bigint_sign a) in
    let b_sign = bit_xor (limb_neg (js_bigint_sign b)) flip in
    let (r, carry) = add_loop flip a_sign b_sign a b b_neg in
    do
      js_bigint_new m (max (length a) (length b))
      js_bigint_extend m r (u32 (a_sign + b_sign + carry))

unfoldable pub js_bigint_neg : Allocator → List ℕ → BigIntResult (List ℕ)
unfolding js_bigint_add
js_bigint_neg m a = js_bigint_add m (js_bigint_set_si 0) a 1

-- The rounds of `js_mp_mul_basecase` after the first. `result` is what `result + i` points to, up
-- to the limb that the round before wrote last.
unfoldable pub mul_rounds : List ℕ → List ℕ → List ℕ → List ℕ
mul_rounds result op1 [] = result
mul_rounds [] op1 (y ∷ op2) = []
mul_rounds (low ∷ result) op1 (y ∷ op2) =
    let (limbs, r) = js_mp_add_mul1 result op1 y in low ∷ mul_rounds (limbs ++ r ∷ []) op1 op2

unfoldable pub js_mp_mul_basecase : List ℕ → List ℕ → List ℕ
unfolding mul_rounds
js_mp_mul_basecase op1 [] = []
js_mp_mul_basecase op1 (y ∷ op2) =
    let (limbs, high) = js_mp_mul1 op1 y 0 in mul_rounds (limbs ++ high ∷ []) op1 op2

-- `js_mp_sub` on the limbs of r from n on.
unfoldable pub sub_from : ℕ → List ℕ → List ℕ → List ℕ
sub_from n r b = take n r ++ (js_mp_sub (drop n r) b 0).0

unfoldable pub js_bigint_mul : Allocator → List ℕ → List ℕ → BigIntResult (List ℕ)
unfolding js_mp_mul_basecase sub_from
js_bigint_mul m a b =
    let r = js_mp_mul_basecase a b in
    let r1 = if js_bigint_sign a == 0 then r else sub_from (length a) r b in
    let r2 = if js_bigint_sign b == 0 then r1 else sub_from (length b) r1 a in
    do js_bigint_new m (length a + length b); ok (js_bigint_normalize r2)

pub data LogicOp : Type 0 where
  op_or op_and op_xor : LogicOp

unfoldable pub logic_limb : LogicOp → ℕ → ℕ → ℕ
logic_limb op_or x y = bit_or x y
logic_limb op_and x y = bit_and x y
logic_limb op_xor x y = bit_xor x y

-- The two loops of one case of the `switch`, where a is not shorter than b.
unfoldable pub logic_loop : LogicOp → ℕ → List ℕ → List ℕ → List ℕ
unfolding logic_limb
logic_loop op b_sign [] b = []
logic_loop op b_sign (x ∷ a) [] = logic_limb op x b_sign ∷ logic_loop op b_sign a []
logic_loop op b_sign (x ∷ a) (y ∷ b) = logic_limb op x y ∷ logic_loop op b_sign a b

-- After the swap.
unfoldable pub logic_ordered : Allocator → List ℕ → List ℕ → LogicOp → BigIntResult (List ℕ)
unfolding logic_loop
logic_ordered m a b op =
    let r = logic_loop op (limb_neg (js_bigint_sign b)) a b in
    do js_bigint_new m (length a); ok (js_bigint_normalize r)

unfoldable pub js_bigint_logic : Allocator → List ℕ → List ℕ → LogicOp → BigIntResult (List ℕ)
unfolding logic_ordered
js_bigint_logic m a b op =
    if ltb (length a) (length b) then logic_ordered m b a op else logic_ordered m a b op

unfoldable pub js_bigint_not : Allocator → List ℕ → BigIntResult (List ℕ)
js_bigint_not m a = do js_bigint_new m (length a); ok (map (λ x. limb_not x) a)

abbrev pub is_zero_number : List ℕ → Bool
is_zero_number a = length a == 1 && limb_at a 0 == 0

unfoldable pub js_bigint_shl : Allocator → List ℕ → ℕ → BigIntResult (List ℕ)
js_bigint_shl m a shift1 =
    if is_zero_number a
    then js_bigint_new_si m 0
    else (let d = shift1 / 32 in
        let shift = shift1 % 32 in
        let (r, l) = js_mp_shl a shift in
        let high =
          if js_bigint_sign a == 0 then l else bit_or l (u32 ((limb_base - 1) * 2 ^ shift)) in
        do
          js_bigint_new m (length a + d)
          if shift == 0
              then ok (zero_limbs d ++ a)
              else js_bigint_extend m (zero_limbs d ++ r) high)

unfoldable pub js_bigint_shr : Allocator → List ℕ → ℕ → BigIntResult (List ℕ)
js_bigint_shr m a shift1 =
    let d = shift1 / 32 in
    let shift = shift1 % 32 in
    let a_sign = js_bigint_sign a in
    if leb (length a) d
    then js_bigint_new_si m (limb_neg a_sign)
    else (let rest = drop d a in
        do
          js_bigint_new m (length a - d)
          ok (
              if shift == 0
              then rest
              else js_bigint_normalize (js_mp_shr rest shift (limb_neg a_sign)).0))
