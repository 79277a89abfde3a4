-- ===== src/Engine/BigInt/RightLoop.antt =====
-- The loop of `js_mp_shr` of .backup/quickjs.c, used by `js_bigint_shr`, on whole numbers.
use cno_cli.Base.{
  ℕ, zero, suc, ◌+◌, ◌*◌, ◌-◌, ◌/◌, ◌%◌, ◌^◌, ◌≤◌, ◌<◌, ◌≡◌, List, [], ◌∷◌, length, arith, ap, ◌∙◌,
  sym, refl, bit_or, u32,
}
use cno_cli.Base.Int.{ℤ, pos, ◌+ℤ◌, ◌*ℤ◌, eq_of_parts, *ℤ_parts, *ℤ_add, *ℤ_pos}
use cno_cli.Base.Bits.{bit_or-shl, bit_or_comm}
use cno_cli.Engine.BigInt.Limbs.{shr_loop, limb_neg}
use cno_cli.Engine.BigInt.Number.{js_bigint_sign}
use cno_cli.Engine.BigInt.Halves.{
  low_part, pow_pos, powers_base, pow-le, ones_cut, filled_fits, high_fits,
}
use cno_cli.Engine.BigInt.Signs.{js_bigint_sign-cons}
use cno_cli.Engine.BigInt.Value.{IsLimb, Limbs, joined, sign_part, parts}
use native.Mathlib.Nat.{div-add-mod, mod-eq_of_lt, div-le_self}

-- One limb in terms of integers, with p * q the base: the limb a loses its low part and takes that
-- of the limb above, `taken`.
shr_step :
    (p q a taken : ℕ) (rest above : ℤ)
    → p * q ≡ 4294967296
    → p *ℤ rest +ℤ pos taken ≡ above
    → 0 < p
    → p *ℤ (pos (taken * q + a / p) +ℤ 4294967296 *ℤ rest) +ℤ pos (a % p)
      ≡ pos a +ℤ 4294967296 *ℤ above
shr_step p q a taken rest above base e positive =
    rw (← e, *ℤ_add p (pos (taken * q + a / p)) (4294967296 *ℤ rest), *ℤ_pos p (taken * q + a / p))
      (eq_of_parts _ _ (
        omega (
          parts,
          ap (λ (t : ℕ). p * t) (*ℤ_parts 4294967296 rest),
          ap (λ (t : ℕ). t * taken) base,
          div-add-mod a p,
        )))

module _ (shift : ℕ) (in_limb : shift ≤ 32) where
  module _ (a l : ℕ) (h : IsLimb a) where
    base : 2 ^ (32 - shift) * 2 ^ shift ≡ 4294967296
    base = omega (arith, powers_base shift in_limb)

    below : a / 2 ^ shift < 2 ^ (32 - shift)
    below = high_fits (2 ^ (32 - shift)) (2 ^ shift) a base (pow_pos (32 - shift)) (pow_pos shift) h

    shr_word :
        bit_or (a / 2 ^ shift) (u32 (l * 2 ^ (32 - shift)))
        ≡ l % 2 ^ shift * 2 ^ (32 - shift) + a / 2 ^ shift
    shr_word =
        bit_or_comm (a / 2 ^ shift) (u32 (l * 2 ^ (32 - shift)))
        ∙ rw (low_part (2 ^ (32 - shift)) (2 ^ shift) l base (pow_pos (32 - shift)) (pow_pos shift))
            (bit_or-shl (32 - shift) (l % 2 ^ shift) (a / 2 ^ shift) below)

    shr_word-IsLimb : IsLimb (bit_or (a / 2 ^ shift) (u32 (l * 2 ^ (32 - shift))))
    shr_word-IsLimb = rw shr_word (
        filled_fits (2 ^ (32 - shift)) (2 ^ shift) l base (pow_pos (32 - shift)) (pow_pos shift)
          (a / 2 ^ shift) below)

  pub shr_loop_lem :
      (tab : List ℕ) (above : ℕ) (high : ℤ)
      → Limbs tab
      → 2 ^ shift *ℤ high +ℤ pos (above % 2 ^ shift) ≡ high
      → (2 ^ shift *ℤ joined (shr_loop tab shift above).0 high
            +ℤ pos ((shr_loop tab shift above).1 % 2 ^ shift)
          ≡ joined tab high)
        × Limbs (shr_loop tab shift above).0
  unfolding shr_loop joined
  shr_loop_lem [] above high h e = (e, tt)
  shr_loop_lem (a ∷ tab) above high h e =
      let rest = shr_loop_lem tab above high h.1 e in
      let l = (shr_loop tab shift above).1 in
      (
        rw (shr_word a l h.0) (
            shr_step (2 ^ shift) (2 ^ (32 - shift)) a (l % 2 ^ shift)
              (joined (shr_loop tab shift above).0 high) (joined tab high)
              (powers_base shift in_limb) rest.0 (pow_pos shift)),
        (shr_word-IsLimb a l h.0, rest.1),
      )

  pub length-shr_loop :
      (tab : List ℕ) (above : ℕ) → length (shr_loop tab shift above).0 ≡ length tab
  unfolding shr_loop
  length-shr_loop [] above = refl
  length-shr_loop (a ∷ tab) above = omega (arith, length-shr_loop tab above)

-- The limb above the number, cut.
pub taken_sign :
    (shift s : ℕ)
    → shift ≤ 32
    → s ≤ 1
    → 2 ^ shift *ℤ sign_part s +ℤ pos (limb_neg s % 2 ^ shift) ≡ sign_part s
taken_sign shift zero k h = rw (mod-eq_of_lt (pow_pos shift)) (eq_of_parts _ _ (omega parts))
taken_sign shift (suc zero) k h =
    rw (ones_cut shift k) (eq_of_parts _ _ (omega (parts, pow_pos shift)))
taken_sign shift (suc (suc s)) k h = absurd (omega arith)

-- The sign bit is shifted in.
sign-shr_loop :
    (shift s a : ℕ) (tab : List ℕ)
    → 0 < shift
    → shift ≤ 31
    → Limbs (a ∷ tab)
    → js_bigint_sign (a ∷ tab) ≡ s
    → js_bigint_sign (shr_loop (a ∷ tab) shift (limb_neg s)).0 ≡ s
unfolding shr_loop js_bigint_sign
sign-shr_loop shift zero a [] some small h e =
    rw (shr_word shift (omega arith) a 0 h.0, mod-eq_of_lt (pow_pos shift))
      (omega (arith, div-le_self a (2 ^ shift)))
sign-shr_loop shift (suc zero) a [] some small h e =
    let one_less : 2 ^ shift - 1 + 1 ≡ 2 ^ shift = omega (arith, pow_pos shift) in
    rw (shr_word shift (omega arith) a 4294967295 h.0, ones_cut shift (omega arith))
      (omega (
        arith,
        ap (λ (t : ℕ). t * 2 ^ (32 - shift)) one_less,
        powers_base shift (omega arith),
        pow-le (32 - shift) (omega arith),
        below shift (omega arith) a 0 h.0,
      ))
sign-shr_loop shift (suc (suc s)) a [] some small h e = absurd (omega (arith, h.0, e))
sign-shr_loop shift s a (b ∷ tab) some small h e =
    js_bigint_sign-cons _ _ (shr_loop tab shift (limb_neg s)).0
    ∙ sign-shr_loop shift s b tab some small h.1 (sym (js_bigint_sign-cons a b tab) ∙ e)

pub sign-shr_all :
    (shift s : ℕ) (tab : List ℕ)
    → 0 < shift
    → shift ≤ 31
    → Limbs tab
    → 0 < length tab
    → js_bigint_sign tab ≡ s
    → js_bigint_sign (shr_loop tab shift (limb_neg s)).0 ≡ s
sign-shr_all shift s [] some small h p e = absurd (omega arith)
sign-shr_all shift s (a ∷ tab) some small h p e = sign-shr_loop shift s a tab some small h e
