-- ===== src/Engine/BigInt/LeftShift.antt =====
-- `js_bigint_shl` of .backup/quickjs.c multiplies by a power of two.
use cno_cli.Base.{
  ℕ, zero, suc, ◌+◌, ◌*◌, ◌-◌, ◌/◌, ◌%◌, ◌^◌, ◌≤◌, ◌<◌, ◌≡◌, true, false, List, [], ◌∷◌, ◌++◌,
  length, arith, ap, ◌∙◌, refl, inl, inr, Bool-cases, All-append, length-append, ◌==◌, bit_or, u32,
  if◌then◌else◌,
}
use cno_cli.Base.Int.{ℤ, pos, ◌+ℤ◌, ◌*ℤ◌, eq_of_parts, *ℤ_parts, *ℤ_add, *ℤ_assoc, *ℤ_pos}
use cno_cli.Base.Bits.{bit_or-shl, bit_or_comm, pow_add}
use cno_cli.Engine.BigInt.Limbs.{shl_loop, js_mp_shl}
use cno_cli.Engine.BigInt.Number.{
  Allocator, bigint_max_size, js_bigint_sign, js_bigint_new_si, redundant,
}
use cno_cli.Engine.BigInt.Arith.{zero_limbs, js_bigint_shl, is_zero_number}
use cno_cli.Engine.BigInt.Halves.{
  high_part, low_part, high_fits, filled_fits, pow_pos, powers_base, pow-le, pow_split,
}
use cno_cli.Engine.BigInt.Signs.{js_bigint_sign-cons}
use cno_cli.Engine.BigInt.Normal.{signed_limb, js_bigint_extend_lem, js_bigint_sign-le}
use cno_cli.Engine.BigInt.Value.{
  IsLimb, Limbs, joined, value, sign_part, IsNormal, parts, GrantsAll, Returns, js_bigint_new_lem,
}

-- One limb in terms of integers, where p is the power of two: `low` is what is left of the limb v.
shl_step :
    (p v low next l : ℕ) (rest high : ℤ)
    → v * p ≡ 4294967296 * next + low
    → rest ≡ p *ℤ high +ℤ pos next
    → pos (low + l) +ℤ 4294967296 *ℤ rest ≡ p *ℤ (pos v +ℤ 4294967296 *ℤ high) +ℤ pos l
shl_step p v low next l rest high h e =
    rw (e, *ℤ_add p (pos v) (4294967296 *ℤ high), *ℤ_pos p v)
      (eq_of_parts _ _ (omega (parts, ap (λ (t : ℕ). p * t) (*ℤ_parts 4294967296 high))))

module _ (shift : ℕ) (in_limb : shift ≤ 32) where
  abbrev rest_base : 2 ^ shift * 2 ^ (32 - shift) ≡ 4294967296
  rest_base = powers_base shift in_limb

  module _ (v l : ℕ) (h : l < 2 ^ shift) where
    shl_low : u32 (v * 2 ^ shift) ≡ v % 2 ^ (32 - shift) * 2 ^ shift
    shl_low =
        low_part (2 ^ shift) (2 ^ (32 - shift)) v rest_base (pow_pos shift) (pow_pos (32 - shift))

    -- The limb that a round writes.
    shl_word : bit_or (u32 (v * 2 ^ shift)) l ≡ u32 (v * 2 ^ shift) + l
    shl_word = rw shl_low (bit_or-shl shift (v % 2 ^ (32 - shift)) l h)

    shl_word-IsLimb : IsLimb (bit_or (u32 (v * 2 ^ shift)) l)
    shl_word-IsLimb = rw (shl_word ∙ ap (λ t. t + l) shl_low) (
        filled_fits (2 ^ shift) (2 ^ (32 - shift)) v rest_base (pow_pos shift)
          (pow_pos (32 - shift)) l h)

  shl_loop_lem :
      (a : List ℕ) (l : ℕ) (high : ℤ)
      → Limbs a
      → l < 2 ^ shift
      → (joined (shl_loop a shift l).0 (2 ^ shift *ℤ high +ℤ pos (shl_loop a shift l).1)
          ≡ 2 ^ shift *ℤ joined a high +ℤ pos l)
        × Limbs (shl_loop a shift l).0
        × ((shl_loop a shift l).1 < 2 ^ shift)
        × (length (shl_loop a shift l).0 ≡ length a)
  unfolding shl_loop joined
  shl_loop_lem [] l high h k = (refl, tt, k, refl)
  shl_loop_lem (v ∷ a) l high h k =
      let next =
        high_part (2 ^ shift) (2 ^ (32 - shift)) v rest_base (pow_pos shift)
          (pow_pos (32 - shift)) in
      let rest = shl_loop_lem a (v / 2 ^ (32 - shift)) high h.1 (
        high_fits (2 ^ shift) (2 ^ (32 - shift)) v rest_base (pow_pos shift) (pow_pos (32 - shift))
          h.0) in
      (
        rw (shl_word v l k) (
            shl_step (2 ^ shift) v (u32 (v * 2 ^ shift)) (v / 2 ^ (32 - shift)) l _ (joined a high)
              (omega (arith, next)) rest.0),
        (shl_word-IsLimb v l k, rest.1),
        rest.2,
        omega (arith, rest.3),
      )

-- The limb that js_bigint_shl hands to js_bigint_extend.
shl_high :
    (shift s l : ℕ)
    → shift ≤ 31
    → s ≤ 1
    → l < 2 ^ shift
    → (signed_limb (if s == 0 then l else bit_or l (u32 (4294967295 * 2 ^ shift)))
        ≡ 2 ^ shift *ℤ sign_part s +ℤ pos l)
      × IsLimb (if s == 0 then l else bit_or l (u32 (4294967295 * 2 ^ shift)))
unfolding signed_limb
shl_high shift zero l h hs k =
    (eq_of_parts _ _ (omega (parts, pow-le shift h)), omega (arith, pow-le shift h))
shl_high shift (suc zero) l h hs k =
    let e =
      bit_or_comm l (u32 (4294967295 * 2 ^ shift)) ∙ shl_word shift (omega arith) 4294967295 l k in
    rw e (eq_of_parts _ _ (omega (parts, pow-le shift h)), omega (arith, pow-le shift h))
shl_high shift (suc (suc s)) l h hs k = absurd (omega arith)

joined-zero_limbs :
    (d : ℕ) (r : List ℕ) (high : ℤ)
    → joined (zero_limbs d ++ r) high ≡ 2 ^ (32 * d) *ℤ joined r high
unfolding joined
joined-zero_limbs zero r high = eq_of_parts _ _ (omega parts)
joined-zero_limbs (suc d) r high =
    let e : 32 * suc d ≡ 32 + 32 * d = omega arith in
    rw
      (
        joined-zero_limbs d r high,
        ap (λ n. 2 ^ n) e ∙ pow_add 32 (32 * d),
        *ℤ_assoc 4294967296 (2 ^ (32 * d)) (joined r high),
      )
      (eq_of_parts _ _ (omega parts))

Limbs-zero_limbs : (d : ℕ) → Limbs (zero_limbs d)
Limbs-zero_limbs zero = tt
Limbs-zero_limbs (suc d) = (omega arith, Limbs-zero_limbs d)

length-zero_limbs : (d : ℕ) → length (zero_limbs d) ≡ d
length-zero_limbs zero = refl
length-zero_limbs (suc d) = omega (arith, length-zero_limbs d)

sign-zero_limbs :
    (d x : ℕ) (r : List ℕ) → js_bigint_sign (zero_limbs d ++ x ∷ r) ≡ js_bigint_sign (x ∷ r)
sign-zero_limbs zero x r = refl
sign-zero_limbs (suc zero) x r = js_bigint_sign-cons 0 x r
sign-zero_limbs (suc (suc d)) x r =
    js_bigint_sign-cons 0 0 (zero_limbs d ++ x ∷ r) ∙ sign-zero_limbs (suc d) x r

IsNormal-zero_limbs :
    (d x : ℕ) (r : List ℕ)
    → IsNormal (x ∷ r)
    → is_zero_number (x ∷ r) ≡ false
    → IsNormal (zero_limbs d ++ x ∷ r)
unfolding redundant
IsNormal-zero_limbs zero x r n z = n
IsNormal-zero_limbs (suc zero) x [] n z = ground arith
IsNormal-zero_limbs (suc zero) x (y ∷ r) n z = n
IsNormal-zero_limbs (suc (suc zero)) x r n z = IsNormal-zero_limbs (suc zero) x r n z
IsNormal-zero_limbs (suc (suc (suc d))) x r n z = IsNormal-zero_limbs (suc (suc d)) x r n z

is_zero_number-value : (a : List ℕ) → is_zero_number a ≡ true → value a ≡ pos 0
unfolding value js_bigint_sign joined
is_zero_number-value [] z = ground arith
is_zero_number-value (x ∷ []) z =
    let e : x ≡ 0 = ground arith in rw e (eq_of_parts _ _ (omega parts))
is_zero_number-value (x ∷ y ∷ a) z = ground arith

value-zero : value (0 ∷ []) ≡ pos 0
unfolding value js_bigint_sign joined
value-zero = eq_of_parts _ _ (omega parts)

module _ (m : Allocator) (granted : GrantsAll m) (n : ℕ) where
  shl_zero :
      (a : List ℕ) → is_zero_number a ≡ true → Returns (js_bigint_shl m a n) (2 ^ n *ℤ value a)
  unfolding js_bigint_shl js_bigint_new_si
  shl_zero a z = (
    0 ∷ [],
    rw (z, js_bigint_new_lem m 1 granted (omega arith)) refl,
    record {
      same_value = value-zero ∙ rw (is_zero_number-value a z) (eq_of_parts _ _ (omega parts));
      limbs = (omega arith, tt);
      normal = tt;
    },
  )

  module _ (x : ℕ) (r : List ℕ) (limbs : Limbs (x ∷ r)) (normal : IsNormal (x ∷ r))
      (nonzero : is_zero_number (x ∷ r) ≡ false)
      (short : length (x ∷ r) + n / 32 ≤ bigint_max_size) where
    shl_limbs : n % 32 ≡ 0 → Returns (js_bigint_shl m (x ∷ r) n) (2 ^ n *ℤ value (x ∷ r))
    unfolding js_bigint_shl value
    shl_limbs whole = (
      zero_limbs (n / 32) ++ x ∷ r,
      rw (nonzero, js_bigint_new_lem m (length (x ∷ r) + n / 32) granted short, whole) refl,
      record {
        same_value =
            ap (λ s. joined (zero_limbs (n / 32) ++ x ∷ r) (sign_part s))
              (sign-zero_limbs (n / 32) x r)
            ∙ joined-zero_limbs (n / 32) (x ∷ r) (sign_part (js_bigint_sign (x ∷ r)))
            ∙ rw (pow_split n, whole) (eq_of_parts _ _ (omega parts));
        limbs = All-append IsLimb (zero_limbs (n / 32)) (x ∷ r) (Limbs-zero_limbs (n / 32)) limbs;
        normal = IsNormal-zero_limbs (n / 32) x r normal nonzero;
      },
    )

    shl_bits : 0 < n % 32 → Returns (js_bigint_shl m (x ∷ r) n) (2 ^ n *ℤ value (x ∷ r))
    unfolding js_bigint_shl js_mp_shl value
    shl_bits some_bits =
        let shift = n % 32 in
        let s = js_bigint_sign (x ∷ r) in
        let (shifted, l) = shl_loop (x ∷ r) (n % 32) 0 in
        let loop =
          shl_loop_lem (n % 32) (omega arith) (x ∷ r) 0 (sign_part s) limbs (pow_pos (n % 32)) in
        let top = shl_high (n % 32) s l (omega arith) (js_bigint_sign-le (x ∷ r) limbs) loop.2 in
        let high = if s == 0 then l else bit_or l (u32 (4294967295 * 2 ^ (n % 32))) in
        let (result, e, represents) =
          js_bigint_extend_lem m (zero_limbs (n / 32) ++ shifted) high
            (All-append IsLimb (zero_limbs (n / 32)) shifted (Limbs-zero_limbs (n / 32)) loop.1)
            top.1 (omega (arith, length-append (zero_limbs (n / 32)) shifted, loop.3)) granted in
        let more : (n % 32 == 0) ≡ false = ground arith in
        (
          result,
          rw (nonzero, js_bigint_new_lem m (length (x ∷ r) + n / 32) granted short, more) e,
          record {
            same_value =
                represents.same_value
                ∙ joined-zero_limbs (n / 32) shifted (signed_limb high)
                ∙ ap (λ h. 2 ^ (32 * (n / 32)) *ℤ joined shifted h) top.0
                ∙ ap (λ t. 2 ^ (32 * (n / 32)) *ℤ t) loop.0
                ∙ rw
                    (
                      pow_split n,
                      *ℤ_assoc (2 ^ (32 * (n / 32))) (2 ^ (n % 32)) (joined (x ∷ r) (sign_part s)),
                    )
                    (ap (λ t. 2 ^ (32 * (n / 32)) *ℤ t) (eq_of_parts _ _ (omega parts)));
            limbs = represents.limbs;
            normal = represents.normal;
          },
        )

-- On a normal number and with memory granted for the limbs of the result, at most
-- JS_BIGINT_MAX_SIZE, js_bigint_shl returns the integer times 2 ^ n, as a normal number.
pub js_bigint_shl_lem :
    (m : Allocator) (a : List ℕ) (n : ℕ)
    → GrantsAll m
    → Limbs a
    → IsNormal a
    → length a + n / 32 ≤ bigint_max_size
    → Returns (js_bigint_shl m a n) (2 ^ n *ℤ value a)
js_bigint_shl_lem m [] n granted limbs normal short = absurd normal
js_bigint_shl_lem m (x ∷ r) n granted limbs normal short =
    elim (Bool-cases (is_zero_number (x ∷ r))) [
      | inl zero_case ↦ shl_zero m granted n (x ∷ r) zero_case
      | inr nonzero ↦ elim (Bool-cases (n % 32 == 0)) [
        | inl whole ↦ shl_limbs m granted n x r limbs normal nonzero short (ground arith)
        | inr bits ↦ shl_bits m granted n x r limbs normal nonzero short (ground arith)
      ]
    ]
