-- ===== src/Engine/BigInt/Sum.antt =====
-- `js_bigint_add` of .backup/quickjs.c returns the sum or the difference.
use cno_cli.Base.Bits.{bit_xor-zero, bit_xor-ones}
use cno_cli.Base.{
  ℕ, ◌+◌, ◌*◌, ◌-◌, ◌≤◌, ◌≡◌, List, [], ◌∷◌, length, arith, ap, ◌∙◌, refl, u32, map, bit_xor, max,
}
use cno_cli.Base.Int.{ℤ, pos, negsuc, ◌+ℤ◌, ◌-ℤ◌, ◌*ℤ◌, eq_of_parts, pos_part, neg_part}
use cno_cli.Engine.BigInt.Limbs.{addc, limb_neg}
use cno_cli.Engine.BigInt.Number.{Allocator, bigint_max_size, js_bigint_sign}
use cno_cli.Engine.BigInt.Arith.{add_loop, js_bigint_add}
use cno_cli.Engine.BigInt.Normal.{signed_limb, js_bigint_extend_lem, js_bigint_sign-le}
use cno_cli.Engine.BigInt.Carry.{addc_lem}
use cno_cli.Engine.BigInt.Value.{
  IsLimb, Limbs, joined, value, IsNumber, sign_part, js_bigint_new_lem, parts, GrantsAll, Returns,
  Returns-eq, joined-complement,
}

-- The sign extension: a limb that repeats above the number, and what it stands for.
abbrev IsSignLimb : ℕ → ℤ → Type 0
IsSignLimb x h = IsLimb x × (pos x +ℤ 4294967296 *ℤ h ≡ h)

-- One round in terms of integers.
sum_step :
    (s c x y k : ℕ) (rest a b : ℤ) {a' b' : ℤ}
    → s + 4294967296 * c ≡ x + y + k
    → rest ≡ a +ℤ b +ℤ pos c
    → pos x +ℤ 4294967296 *ℤ a ≡ a'
    → pos y +ℤ 4294967296 *ℤ b ≡ b'
    → pos s +ℤ 4294967296 *ℤ rest ≡ a' +ℤ b' +ℤ pos k
sum_step s c x y k rest a b h e ea eb = rw (e, ← ea, ← eb) (eq_of_parts _ _ (omega parts))

module _ (flip a_sign b_sign : ℕ) (ha hb : ℤ) (a_above : IsSignLimb a_sign ha)
    (b_above : IsSignLimb b_sign hb) (flips : (y : ℕ) → IsLimb y → IsLimb (bit_xor y flip)) where
  record Sums (a b : List ℕ) (carry : ℕ) (r : List ℕ × ℕ) : Type 0 where
    same_sum :
        joined r.0 (ha +ℤ hb +ℤ pos r.1)
        ≡ joined a ha +ℤ joined (map (λ y. bit_xor y flip) b) hb +ℤ pos carry
    limbs : Limbs r.0
    carry_bit : r.1 ≤ 1
    same_length : length r.0 ≡ max (length a) (length b)

  add_loop_lem :
      (a b : List ℕ) (carry : ℕ)
      → Limbs a
      → Limbs b
      → carry ≤ 1
      → Sums a b carry (add_loop flip a_sign b_sign a b carry)
  unfolding add_loop joined
  add_loop_lem [] [] carry ha' hb' k = record {
    same_sum = refl;
    limbs = tt;
    carry_bit = k;
    same_length = refl;
  }
  add_loop_lem (x ∷ a) [] carry hx hy k =
      let step = addc_lem x b_sign carry hx.0 b_above.0 k in
      let rest = add_loop_lem a [] (addc x b_sign carry).1 hx.1 hy step.2 in
      record {
        same_sum = sum_step _ _ _ _ _ _ _ _ step.0 rest.same_sum refl b_above.1;
        limbs = (step.1, rest.limbs);
        carry_bit = rest.carry_bit;
        same_length = omega (arith, rest.same_length);
      }
  add_loop_lem [] (y ∷ b) carry hx hy k =
      let step = addc_lem a_sign (bit_xor y flip) carry a_above.0 (flips y hy.0) k in
      let rest = add_loop_lem [] b (addc a_sign (bit_xor y flip) carry).1 hx hy.1 step.2 in
      record {
        same_sum = sum_step _ _ _ _ _ _ _ _ step.0 rest.same_sum a_above.1 refl;
        limbs = (step.1, rest.limbs);
        carry_bit = rest.carry_bit;
        same_length = omega (arith, rest.same_length);
      }
  add_loop_lem (x ∷ a) (y ∷ b) carry hx hy k =
      let step = addc_lem x (bit_xor y flip) carry hx.0 (flips y hy.0) k in
      let rest = add_loop_lem a b (addc x (bit_xor y flip) carry).1 hx.1 hy.1 step.2 in
      record {
        same_sum = sum_step _ _ _ _ _ _ _ _ step.0 rest.same_sum refl refl;
        limbs = (step.1, rest.limbs);
        carry_bit = rest.carry_bit;
        same_length = omega (arith, rest.same_length);
      }

-- The limb of a sign bit, and both of them flipped.
sign_limb : (s : ℕ) → s ≤ 1 → IsSignLimb (limb_neg s) (sign_part s)
sign_limb s h = (omega arith, eq_of_parts _ _ (omega parts))

-- The limb past both ends, as js_bigint_extend reads it.
top_limb :
    (x y k : ℕ) (ha hb : ℤ)
    → IsSignLimb x ha
    → IsSignLimb y hb
    → k ≤ 1
    → signed_limb (u32 (x + y + k)) ≡ ha +ℤ hb +ℤ pos k
unfolding signed_limb
top_limb x y k ha hb (x_limb, ex) (y_limb, ey) hk =
    eq_of_parts _ _ (omega (parts, ap pos_part ex, ap neg_part ex, ap pos_part ey, ap neg_part ey))

-- `js_bigint_add` where hb is what the limbs past the end of the flipped b stand for.
module _ (m : Allocator) (a b : List ℕ) (b_neg : ℕ) (hb : ℤ) (granted : GrantsAll m)
    (short : max (length a) (length b) ≤ bigint_max_size) (number_a : IsNumber a)
    (number_b : IsNumber b) (neg_bit : b_neg ≤ 1)
    (b_above : IsSignLimb (bit_xor (limb_neg (js_bigint_sign b)) (limb_neg b_neg)) hb)
    (flips : (y : ℕ) → IsLimb y → IsLimb (bit_xor y (limb_neg b_neg))) where
  added :
      Returns
        (js_bigint_add m a b b_neg)
        (value a +ℤ joined (map (λ y. bit_xor y (limb_neg b_neg)) b) hb +ℤ pos b_neg)
  unfolding js_bigint_add value
  added =
      let flip = limb_neg b_neg in
      let ha = sign_part (js_bigint_sign a) in
      let a_sign = limb_neg (js_bigint_sign a) in
      let b_sign = bit_xor (limb_neg (js_bigint_sign b)) flip in
      let a_above = sign_limb (js_bigint_sign a) (js_bigint_sign-le a number_a.0) in
      let sums =
        add_loop_lem flip a_sign b_sign ha hb a_above b_above flips a b b_neg number_a.0 number_b.0
          neg_bit in
      let (r, carry) = add_loop flip a_sign b_sign a b b_neg in
      let (limbs, e, represents) =
        js_bigint_extend_lem m r (u32 (a_sign + b_sign + carry)) sums.limbs (omega arith)
          (omega (arith, sums.same_length)) granted in
      (
        limbs,
        rw (js_bigint_new_lem m (max (length a) (length b)) granted short) e,
        record {
          same_value =
              represents.same_value
              ∙ ap (joined r) (top_limb a_sign b_sign carry ha hb a_above b_above sums.carry_bit)
              ∙ sums.same_sum;
          limbs = represents.limbs;
          normal = represents.normal;
        },
      )

map_same : (f : ℕ → ℕ) (l : List ℕ) → ((x : ℕ) → f x ≡ x) → map f l ≡ l
map_same f [] h = refl
map_same f (x ∷ l) h = rw (h x, map_same f l h)

xor_ones : (y : ℕ) → IsLimb y → bit_xor y 4294967295 ≡ 4294967295 - y
xor_ones y h = bit_xor-ones 32 y h

-- The limb past the end of the flipped b.
flipped_limb :
    (s : ℕ) → s ≤ 1 → IsSignLimb (bit_xor (limb_neg s) (limb_neg 1)) (negsuc 0 -ℤ sign_part s)
flipped_limb s h =
    rw (xor_ones (limb_neg s) (omega arith)) (omega arith, eq_of_parts _ _ (omega parts))

module _ (m : Allocator) (a b : List ℕ) (granted : GrantsAll m)
    (short : max (length a) (length b) ≤ bigint_max_size) (number_a : IsNumber a)
    (number_b : IsNumber b) where
  plus : Returns (js_bigint_add m a b 0) (value a +ℤ value b)
  unfolding value
  plus =
      let b_above : IsSignLimb (bit_xor (limb_neg (js_bigint_sign b)) (limb_neg 0))
          (sign_part (js_bigint_sign b)) =
        rw (bit_xor-zero (limb_neg (js_bigint_sign b)))
          (sign_limb (js_bigint_sign b) (js_bigint_sign-le b number_b.0)) in
      let sum =
        added m a b 0 _ granted short number_a number_b (omega arith) b_above
          (λ y h. rw (bit_xor-zero y) h) in
      Returns-eq sum (
        ap (λ l. value a +ℤ joined l (sign_part (js_bigint_sign b)) +ℤ pos 0)
          (map_same (λ y. bit_xor y 0) b bit_xor-zero)
        ∙ eq_of_parts _ _ (omega parts))

  minus : Returns (js_bigint_add m a b 1) (value a -ℤ value b)
  unfolding value
  minus =
      let sum =
        added m a b 1 _ granted short number_a number_b (omega arith)
          (flipped_limb (js_bigint_sign b) (js_bigint_sign-le b number_b.0))
          (λ y h. rw (xor_ones y h) (omega arith)) in
      Returns-eq sum (
        ap (λ t. value a +ℤ t +ℤ pos 1)
          (joined-complement (λ y. bit_xor y 4294967295) b (sign_part (js_bigint_sign b)) xor_ones
            number_b.0)
        ∙ eq_of_parts _ _ (omega parts))

-- On numbers of at most JS_BIGINT_MAX_SIZE limbs and with memory granted, js_bigint_add returns the
-- sum of the two integers with b_neg = 0, and their difference with b_neg = 1, as a normal number.
pub js_bigint_add_lem :
    (m : Allocator) (a b : List ℕ)
    → GrantsAll m
    → max (length a) (length b) ≤ bigint_max_size
    → IsNumber a
    → IsNumber b
    → Returns (js_bigint_add m a b 0) (value a +ℤ value b)
      × Returns (js_bigint_add m a b 1) (value a -ℤ value b)
js_bigint_add_lem m a b granted short number_a number_b =
    (plus m a b granted short number_a number_b, minus m a b granted short number_a number_b)
