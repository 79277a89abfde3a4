-- ===== src/Engine/BigInt/Limbs.antt =====
-- The `js_mp_` loops of .backup/quickjs.c. An array of n limbs is a list, lowest limb first, and a
-- loop that writes one also returns its last carry.
use cno_cli.Base.{
  ℕ, ◌+◌, ◌-◌, ◌*◌, ◌/◌, ◌%◌, ◌^◌, Bool, ◌||◌, List, [], ◌∷◌, ltb, if◌then◌else◌, bit_or, u32,
  low_bits,
}

-- `1 << JS_LIMB_BITS`
abbrev pub limb_base : ℕ
limb_base = 4294967296

-- A test as a limb.
abbrev pub flag : Bool → ℕ
flag b = if b then 1 else 0

-- -x, ~x and x - y of limbs.
abbrev pub limb_neg : ℕ → ℕ
limb_neg x = u32 (limb_base - x)

abbrev pub limb_not : ℕ → ℕ
limb_not x = limb_base - 1 - x

abbrev pub limb_sub : ℕ → ℕ → ℕ
limb_sub x y = u32 (x + limb_base - y)

-- The result and the carry out.
unfoldable pub addc : ℕ → ℕ → ℕ → ℕ × ℕ
addc op1 op2 carry_in =
    let a = u32 (op1 + op2) in
    let k1 = ltb a op1 in let sum = u32 (a + carry_in) in (sum, flag (ltb sum carry_in || k1))

-- What a loop puts before the limbs and carry of the rounds that follow.
abbrev pub put : ℕ → List ℕ × ℕ → List ℕ × ℕ
put x (limbs, carry) = (x ∷ limbs, carry)

unfoldable pub js_mp_add : List ℕ → List ℕ → ℕ → List ℕ × ℕ
js_mp_add (x ∷ op1) (y ∷ op2) carry =
    let (sum, carry_out) = addc x y carry in put sum (js_mp_add op1 op2 carry_out)
js_mp_add _ _ carry = ([], carry)

-- One round of `js_mp_sub`.
unfoldable pub subc : ℕ → ℕ → ℕ → ℕ × ℕ
subc op1 op2 carry =
    let a = limb_sub op1 op2 in
    let k1 = ltb op1 a in let v = limb_sub a carry in (v, flag (ltb a v || k1))

unfoldable pub js_mp_sub : List ℕ → List ℕ → ℕ → List ℕ × ℕ
js_mp_sub (x ∷ op1) (y ∷ op2) carry =
    let (difference, carry_out) = subc x y carry in put difference (js_mp_sub op1 op2 carry_out)
js_mp_sub _ _ carry = ([], carry)

-- `js_mp_neg` from the carry of the rounds before.
unfoldable pub neg_loop : List ℕ → ℕ → List ℕ × ℕ
neg_loop [] carry = ([], carry)
neg_loop (x ∷ op2) carry =
    let v = u32 (limb_not x + carry) in put v (neg_loop op2 (flag (ltb v carry)))

unfoldable pub js_mp_neg : List ℕ → List ℕ × ℕ
unfolding neg_loop
js_mp_neg op2 = neg_loop op2 1

unfoldable pub js_mp_mul1 : List ℕ → ℕ → ℕ → List ℕ × ℕ
js_mp_mul1 [] b l = ([], l)
js_mp_mul1 (x ∷ taba) b l = let t = x * b + l in put (u32 t) (js_mp_mul1 taba b (t / limb_base))

-- The rounds go from the highest limb down: the rounds of the higher limbs come first.
unfoldable pub js_mp_div1 : List ℕ → ℕ → ℕ → List ℕ × ℕ
js_mp_div1 [] b r = ([], r)
js_mp_div1 (x ∷ taba) b r =
    let (quotients, high) = js_mp_div1 taba b r in
    let a1 = high * limb_base + x in (u32 (a1 / b) ∷ quotients, a1 % b)

-- `js_mp_add_mul1` from the high word of the rounds before.
unfoldable pub add_mul_loop : List ℕ → List ℕ → ℕ → ℕ → List ℕ × ℕ
add_mul_loop (r ∷ tabr) (x ∷ taba) b l =
    let t = x * b + l + r in put (u32 t) (add_mul_loop tabr taba b (t / limb_base))
add_mul_loop _ _ b l = ([], l)

unfoldable pub js_mp_add_mul1 : List ℕ → List ℕ → ℕ → List ℕ × ℕ
unfolding add_mul_loop
js_mp_add_mul1 tabr taba b = add_mul_loop tabr taba b 0

-- `js_mp_shl` from the bits that the limb before hands on.
unfoldable pub shl_loop : List ℕ → ℕ → ℕ → List ℕ × ℕ
shl_loop [] shift l = ([], l)
shl_loop (v ∷ taba) shift l =
    put (bit_or (u32 (v * 2 ^ shift)) l) (shl_loop taba shift (v / 2 ^ (32 - shift)))

unfoldable pub js_mp_shl : List ℕ → ℕ → List ℕ × ℕ
unfolding shl_loop
js_mp_shl taba shift = shl_loop taba shift 0

-- The limbs of the shift, and the limb that the round below takes bits from: at the end the lowest.
unfoldable pub shr_loop : List ℕ → ℕ → ℕ → List ℕ × ℕ
shr_loop [] shift l = ([], l)
shr_loop (a ∷ tab) shift high =
    let (limbs, l) = shr_loop tab shift high in
    (bit_or (a / 2 ^ shift) (u32 (l * 2 ^ (32 - shift))) ∷ limbs, a)

unfoldable pub js_mp_shr : List ℕ → ℕ → ℕ → List ℕ × ℕ
unfolding shr_loop
js_mp_shr tab shift high = let (limbs, l) = shr_loop tab shift high in (limbs, low_bits l shift)
